-- ===== src/Tests/Graphs.antt =====
-- The theorems on the graph, its partitioning and the tracker at concrete inputs.
use repart_kv.Common.{
  ℕ, ◌+◌, ◌<◌, ◌≤◌, ◌*◌, ◌≡◌, refl, List, [], ◌∷◌, ◌++◌, All, arith, length, true, false,
  if◌then◌else◌, take,
}
use repart_kv.Common.Result.{ok}
use repart_kv.Key.{key_lt, Key, Value, key_eq}
use repart_kv.SortedMap.{Entries, lookup, insert, lower_bound}
use repart_kv.Storage.{scan_status}
use repart_kv.Storage.Map.{scan_impl}
use repart_kv.Storage.Map.Scan.{scan_impl_lem}
use repart_kv.Instances.{sorted_dense_map, list_queue, last_part_metis}
use repart_kv.Graph.{
  get_vertex_count, Graph, empty, increment_vertex_weight, increment_edge_weight, get_vertex_weight,
  get_edge_weight,
}
use repart_kv.Graph.Laws.{
  IsSymmetric, joins, get_edge_weight-increment_edge_weight, increment_edge_weight-IsSymmetric,
  get_vertex_weight-increment_vertex_weight,
}
use repart_kv.Metis.{MetisGraph, new_metis_graph, prepare_from_graph, partition}
use repart_kv.Metis.Rows.{Describes, prepare_from_graph-Describes}
use repart_kv.Tracker.Announces.{prepare_for_partition_map_update-Announces}
use repart_kv.Metis.Partition.{Succeeds, partition-InRange}
use repart_kv.Tracker.Window.{EndsWith, submitted}
use repart_kv.Tracker.{
  Tracker, Others, applies, updates, apply_keys, multi_update, update,
  prepare_for_partition_map_update, get_metis_partitions, get_idx_to_vertex, create,
}
use repart_kv.Tracker.Weights.{
  occurrences, get_vertex_weight-apply_keys, get_edge_weight-apply_keys,
}
use repart_kv.Tracker.Steps.{
  IsActive, Steps, submit, submit_one, pending, apply_all, steps-InOrder, catch_up,
}
use repart_kv.Tracker.Prepare.{prepare_for_partition_map_update-Placed}

abbrev key : ℕ → Key
key n = n ∷ []

abbrev TestGraph : Type 0
TestGraph = Graph sorted_dense_map

abbrev TestTracker : Type 0
TestTracker = Tracker sorted_dense_map (list_queue (List Key))

abbrev no_graph : TestGraph
no_graph = empty

empty-IsSymmetric : IsSymmetric no_graph
unfolding empty get_edge_weight lookup
empty-IsSymmetric a b = refl

abbrev batch : List Key
batch = key 1 ∷ key 2 ∷ key 1 ∷ []

get_vertex_weight-apply_keys_example :
    get_vertex_weight (apply_keys batch no_graph) (key 1)
    ≡ get_vertex_weight no_graph (key 1) + occurrences (key 1) batch
get_vertex_weight-apply_keys_example = get_vertex_weight-apply_keys batch no_graph (key 1)

get_edge_weight-apply_keys_example :
    IsSymmetric (apply_keys batch no_graph)
    × ((a b : Key)
        → key_eq a b ≡ false
        → get_edge_weight (apply_keys batch no_graph) a b
          ≡ get_edge_weight no_graph a b + occurrences a batch * occurrences b batch)
get_edge_weight-apply_keys_example = get_edge_weight-apply_keys batch no_graph empty-IsSymmetric

get_edge_weight-increment_edge_weight_example :
    get_edge_weight (increment_edge_weight (key 1) (key 2) no_graph).0 (key 2) (key 1) ≡ (
      if joins (key 1) (key 2) (key 2) (key 1)
      then get_edge_weight no_graph (key 1) (key 2) + 1
      else get_edge_weight no_graph (key 2) (key 1))
get_edge_weight-increment_edge_weight_example =
    get_edge_weight-increment_edge_weight no_graph (key 1) (key 2) (key 2) (key 1)

increment_edge_weight-IsSymmetric_example :
    IsSymmetric (increment_edge_weight (key 1) (key 2) no_graph).0
increment_edge_weight-IsSymmetric_example =
    increment_edge_weight-IsSymmetric no_graph (key 1) (key 2) empty-IsSymmetric

get_vertex_weight-increment_vertex_weight_example :
    get_vertex_weight (increment_vertex_weight (key 1) no_graph).0 (key 2) ≡ (
      if key_eq (key 1) (key 2)
      then get_vertex_weight no_graph (key 1) + 1
      else get_vertex_weight no_graph (key 2))
get_vertex_weight-increment_vertex_weight_example =
    get_vertex_weight-increment_vertex_weight no_graph (key 1) (key 2)

abbrev three_keys : Entries Value
three_keys = (key 1, key 4) ∷ (key 2, key 5) ∷ (key 3, key 6) ∷ []

scan_impl_example :
    scan_impl three_keys (key 2) 5 []
    ≡ (scan_status 5 (lower_bound (key 2) three_keys), take 5 (lower_bound (key 2) three_keys))
scan_impl_example = scan_impl_lem three_keys (key 2) 5 []

-- Two keys that were accessed together.
abbrev small_graph : TestGraph
small_graph = apply_keys (key 1 ∷ key 2 ∷ []) no_graph

small_graph-two : length small_graph.vertices.0 ≡ 2
unfolding empty apply_keys insert lookup increment_edge_weight key_eq increment_vertex_weight key_lt
small_graph-two = refl

small_graph-filled : 0 < length small_graph.vertices.0
small_graph-filled = omega (arith, small_graph-two)

prepare_from_graph-Describes_example :
    ((prepare_from_graph small_graph new_metis_graph).1 ≡ ok tt)
    × Describes small_graph small_graph.vertices.0
        (prepare_from_graph small_graph new_metis_graph).0
prepare_from_graph-Describes_example =
    prepare_from_graph-Describes small_graph new_metis_graph small_graph-filled

abbrev prepared_graph : MetisGraph sorted_dense_map
prepared_graph = (prepare_from_graph small_graph new_metis_graph).0

partitions : (partition last_part_metis 2 prepared_graph).1 ≡ ok tt
unfolding empty apply_keys insert lookup prepare_from_graph partition increment_edge_weight key_eq
    increment_vertex_weight key_lt new_metis_graph
partitions = refl

partition-InRange_example :
    (length (partition last_part_metis 2 prepared_graph).0.part ≡ prepared_graph.nvtxs)
    × All (λ p. p < 2) (partition last_part_metis 2 prepared_graph).0.part
    × (0 < 2)
    × (2 ≤ prepared_graph.nvtxs)
    × (prepared_graph.prepared ≡ true)
partition-InRange_example = partition-InRange last_part_metis 2 prepared_graph partitions

-- A tracker with two batches in its queue.
abbrev new_tracker : TestTracker
new_tracker = create

abbrev busy_tracker : TestTracker
busy_tracker = (update (multi_update new_tracker batch).0 (key 3)).0

new_tracker-IsActive : IsActive new_tracker
unfolding create
new_tracker-IsActive = record { running = refl; looping = refl }

busy_tracker-IsActive : IsActive busy_tracker
unfolding create multi_update update
busy_tracker-IsActive = record { running = refl; looping = refl }

catch_up_example :
    (u : TestTracker) × Steps busy_tracker [] u
    × (pending u ≡ [])
    × (u.graph ≡ apply_all (pending busy_tracker) busy_tracker.graph)
catch_up_example = catch_up busy_tracker busy_tracker-IsActive

abbrev caught_up :
    (u : TestTracker) × Steps busy_tracker [] u
    × (pending u ≡ [])
    × (u.graph ≡ apply_all (pending busy_tracker) busy_tracker.graph)
caught_up = catch_up busy_tracker busy_tracker-IsActive

steps-InOrder_example :
    apply_all (pending caught_up.0) caught_up.0.graph
    ≡ apply_all (pending new_tracker ++ batch ∷ (key 3 ∷ []) ∷ []) new_tracker.graph
steps-InOrder_example =
    steps-InOrder new_tracker caught_up.0 (batch ∷ (key 3 ∷ []) ∷ []) new_tracker-IsActive
      (submit batch (submit_one (key 3) caught_up.1))

abbrev filled_tracker : TestTracker
filled_tracker = record new_tracker { graph = small_graph }

-- An access that the draining loop drops, and one that comes behind it.
abbrev meanwhile : Others
meanwhile = record { rounds = (updates (key 1) ∷ []) ∷ []; window = applies ∷ updates (key 3) ∷ [] }

announced : (prepare_for_partition_map_update last_part_metis meanwhile filled_tracker 2).1 ≡ true
unfolding empty apply_keys insert lookup prepare_from_graph partition increment_edge_weight key_eq
    increment_vertex_weight key_lt new_metis_graph prepare_for_partition_map_update create
announced = refl

prepare_for_partition_map_update-Placed_example :
    EndsWith
      (submitted meanwhile.window)
      (prepare_for_partition_map_update last_part_metis meanwhile filled_tracker 2).0.queue
    × (length (
          get_metis_partitions
            (prepare_for_partition_map_update last_part_metis meanwhile filled_tracker 2).0)
        ≡ length (
            get_idx_to_vertex
              (prepare_for_partition_map_update last_part_metis meanwhile filled_tracker 2).0))
    × All
        (λ p. p < 2)
        (get_metis_partitions
          (prepare_for_partition_map_update last_part_metis meanwhile filled_tracker 2).0)
prepare_for_partition_map_update-Placed_example =
    prepare_for_partition_map_update-Placed last_part_metis meanwhile filled_tracker 2 announced

last_part_metis-Succeeds : Succeeds last_part_metis
last_part_metis-Succeeds = record {
  kway = λ nvtxs ncon xadj adjncy vwgt adjwgt nparts part h. ground (arith, h);
  recursive = λ nvtxs ncon xadj adjncy vwgt adjwgt nparts part h. ground (arith, h);
}

filled-two : get_vertex_count filled_tracker.graph ≡ 2
unfolding get_vertex_count
filled-two = small_graph-two

prepare_for_partition_map_update-Announces_example :
    (prepare_for_partition_map_update last_part_metis meanwhile filled_tracker 2).1 ≡ true
prepare_for_partition_map_update-Announces_example =
    prepare_for_partition_map_update-Announces last_part_metis last_part_metis-Succeeds meanwhile
      filled_tracker 2 (omega (arith, filled-two)) (omega arith) (omega (arith, filled-two))
