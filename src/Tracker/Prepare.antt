-- ===== src/Tracker/Prepare.antt =====
-- The partitioning that `prepare_for_partition_map_update` announces, and the tracker as the
-- partitioned stores see it.
use repart_kv.Common.{
  ℕ, ◌<◌, ◌≡◌, Bool, true, false, List, ◌++◌, length, All, refl, ◌∙◌, ap, sym, arith,
}
use repart_kv.Common.Result.{Result, ok, err}
use repart_kv.Key.{Key}
use repart_kv.Graph.{DenseMap, Graph, get_vertex_count}
use repart_kv.Metis.{Metis, MetisGraph, partition, call_metis, prepare_from_graph}
use repart_kv.Metis.Partition.{partition-InRange}
use repart_kv.Metis.Rows.{prepare_from_graph-Describes}
use repart_kv.Tracker.{
  BoundedQueue, Tracker, drain, drained, partition_prepared, is_ok,
  prepare_for_partition_map_update, ready, Others, before_lock, prepare_locked,
  lock_and_clear_graph, get_metis_partitions, get_idx_to_vertex, clear_graph, apply_step,
}
use repart_kv.Tracker.Window.{EndsWith, submitted, before_lock-queue}
use repart_kv.Tracking.{Tracking}
use repart_kv.Tracker

ok_of_is_ok : (r : Result (Unit {0})) → is_ok r ≡ true → r ≡ ok tt
ok_of_is_ok (ok u) h = refl
ok_of_is_ok (err e) h = cc

module _ {D : (V : Type 0) → DenseMap V} (lib : Metis) where
  partition-names :
      (n : ℕ) (m : MetisGraph D) → (partition lib n m).0.idx_to_vertex ≡ m.idx_to_vertex
  unfolding partition call_metis
  partition-names n m = ground arith

  -- What a partitioning that was announced satisfies.
  abbrev Placed : ℕ → MetisGraph D → Type 0
  Placed n m = (length m.part ≡ length m.idx_to_vertex) × All (λ p. p < n) m.part

  after_prepare :
      (n : ℕ) (m : MetisGraph D) (r : Result (Unit {0}))
      → r ≡ ok tt
      → m.nvtxs ≡ length m.idx_to_vertex
      → (partition_prepared lib n (m, r)).1 ≡ true
      → Placed n (partition_prepared lib n (m, r)).0
  unfolding partition_prepared
  after_prepare n m (err e) done l h = cc
  after_prepare n m (ok u) done l h =
      let (sized, below, c, d, e) =
        partition-InRange lib n m (ok_of_is_ok (partition lib n m).1 h) in
      (sized ∙ l ∙ ap length (sym (partition-names n m)), below)

  partition_prepared_lem :
      (g : Graph D) (n : ℕ) (m : MetisGraph D)
      → 0 < length ((D ℕ).items g.vertices)
      → (partition_prepared lib n (prepare_from_graph g m)).1 ≡ true
      → Placed n (partition_prepared lib n (prepare_from_graph g m)).0
  partition_prepared_lem g n m filled h =
      let (done, d) = prepare_from_graph-Describes g m filled in
      after_prepare n (prepare_from_graph g m).0 (prepare_from_graph g m).1 done d.nvtxs h

module _ {D : (V : Type 0) → DenseMap V} {Q : BoundedQueue (List Key)} (lib : Metis) where
  prepare_locked_lem :
      (n : ℕ) (t : Tracker D Q) (b : Bool)
      → ready t ≡ b
      → (prepare_locked lib n t b).1 ≡ true
      → ((prepare_locked lib n t b).0.queue ≡ t.queue)
        × Placed lib n (prepare_locked lib n t b).0.metis_graph
  unfolding prepare_locked ready get_vertex_count
  prepare_locked_lem n t false e h = cc
  prepare_locked_lem n t true e h =
      let filled : 0 < length ((D ℕ).items t.graph.vertices) = ground (arith, e) in
      (refl, partition_prepared_lem lib t.graph n t.metis_graph filled h)

  -- If `prepare_for_partition_map_update` announces a partitioning, then, whatever other threads do
  -- meanwhile, the queue holds nothing but what they submitted after the draining loop, in order,
  -- each of the named vertices has a part, and every part is below the number of partitions.
  pub prepare_for_partition_map_update-Placed :
      (others : Others) (t : Tracker D Q) (n : ℕ)
      → (prepare_for_partition_map_update lib others t n).1 ≡ true
      → EndsWith
          (submitted others.window)
          (Q.contents (prepare_for_partition_map_update lib others t n).0.queue)
        × (length (get_metis_partitions (prepare_for_partition_map_update lib others t n).0)
            ≡ length (get_idx_to_vertex (prepare_for_partition_map_update lib others t n).0))
        × All
            (λ p. p < n)
            (get_metis_partitions (prepare_for_partition_map_update lib others t n).0)
  unfolding prepare_for_partition_map_update
  prepare_for_partition_map_update-Placed others t₀ n h =
      let t : Tracker D Q = before_lock others t₀ in
      let (kept, placed) = prepare_locked_lem n t (ready t) refl h in
      let (front, left) = before_lock-queue others t₀ in
      ((front, ap (λ q. front ++ Q.contents q) kept ∙ left), placed.0, placed.1)

-- The tracker as the partitioned stores use it; `others` says of each state what other threads do
-- while a partitioning is prepared.
abbrev pub tracking :
    {D : (V : Type 0) → DenseMap V} {Q : BoundedQueue (List Key)}
    → Metis
    → (Tracker D Q → Others)
    → Tracking
tracking {D = D} {Q = Q} lib others = record {
  State = Tracker D Q;
  create = Tracker.create;
  update = Tracker.update;
  multi_update = Tracker.multi_update;
  prepare_for_partition_map_update = λ t n. prepare_for_partition_map_update lib (others t) t n;
  get_metis_partitions = get_metis_partitions;
  get_idx_to_vertex = get_idx_to_vertex;
  lock_and_clear_graph = lock_and_clear_graph;
  partitions-length = λ t n h. (prepare_for_partition_map_update-Placed lib (others t) t n h).1;
  partitions-InRange = λ t n h. (prepare_for_partition_map_update-Placed lib (others t) t n h).2;
}
