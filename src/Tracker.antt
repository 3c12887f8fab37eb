-- ===== src/Tracker.antt =====
-- kvstorage/Tracker.h: the queue of the accesses, the thread that applies them to the graph, and
-- the partitioning. The queue (`tbb::concurrent_bounded_queue`, a library outside the repository)
-- is a parameter. The threads are the steps of one state: each method below is a step, and so are
-- the two parts of an iteration of the thread. `prepare_for_partition_map_update` takes the steps of
-- the other threads that come between its own as an argument.
pub mod Weights
pub mod Growth
pub mod Window
pub mod Prepare
pub mod Announces
pub mod Steps
use repart_kv.Common.{
  ℕ, zero, suc, ◌+◌, ◌≡◌, Bool, true, false, Option, none, some, List, [], ◌∷◌, ◌++◌, length, leb,
  ltb, if◌then◌else◌, suc, not,
}
use repart_kv.Common.Result.{Result, ok, err, bad_index, ◌>>=◌}
use repart_kv.Key.{Key}
use repart_kv.Graph.{
  DenseMap, Graph, empty, increment_vertex_weight, increment_edge_weight, get_vertex_count, clear,
  or_else,
}
use repart_kv.Metis.{Metis, MetisGraph, new_metis_graph, prepare_from_graph, partition}
use repart_kv.KeyStorage.{KeyStorage}

-- The operations of the queue that the sources use, with the library's documented behaviour:
-- first in, first out. `push` waits while the queue is full; what is modelled is its return.
pub record BoundedQueue (A : Type 0) : Type 1 where
  pub Queue : Type 0
  pub create : ℕ → Queue
  pub push : Queue → A → Queue
  pub try_pop : Queue → Option (A × Queue)
  pub contents : Queue → List A
  pub contents-create : (capacity : ℕ) → contents (create capacity) ≡ []
  pub contents-push : (q : Queue) (a : A) → contents (push q a) ≡ contents q ++ a ∷ []
  pub try_pop_empty : (q : Queue) → contents q ≡ [] → try_pop q ≡ none
  pub try_pop_full :
      (q : Queue) (a : A) (xs : List A)
      → contents q ≡ a ∷ xs
      → (r : Queue) × (try_pop q ≡ some (a, r)) × (contents r ≡ xs)

-- `popped` is what the thread has taken out of the queue and not yet applied, and `looping` says
-- whether it is still in its loop.
pub record Tracker (D : (V : Type 0) → DenseMap V) (Q : BoundedQueue (List Key)) : Type 0 where
  pub queue : Q.Queue
  pub graph : Graph D
  pub running : Bool
  pub metis_graph : MetisGraph D
  pub popped : Option (List Key)
  pub looping : Bool

-- The default of the template's parameter.
abbrev pub max_graph_size : ℕ
max_graph_size = 100000

module _ {D : (V : Type 0) → DenseMap V} where
  -- The loop over the vertices.
  unfoldable pub apply_vertices : List Key → Graph D → Graph D
  apply_vertices [] g = g
  apply_vertices (k ∷ keys) g = apply_vertices keys (increment_vertex_weight k g).0

  -- The inner loop over the edges: `rest` are the keys after `k`.
  unfoldable pub apply_edges_of : Key → List Key → Graph D → Graph D
  apply_edges_of k [] g = g
  apply_edges_of k (j ∷ rest) g = apply_edges_of k rest (increment_edge_weight k j g).0

  unfoldable pub apply_edges : List Key → Graph D → Graph D
  unfolding apply_edges_of
  apply_edges [] g = g
  apply_edges (k ∷ keys) g = apply_edges keys (apply_edges_of k keys g)

  -- The body of `tracking_loop` under `graph_lock_`.
  unfoldable pub apply_keys : List Key → Graph D → Graph D
  unfolding apply_vertices apply_edges
  apply_keys [] g = g
  apply_keys (k ∷ []) g = (increment_vertex_weight k g).0
  apply_keys (k ∷ j ∷ keys) g = apply_edges (k ∷ j ∷ keys) (apply_vertices (k ∷ j ∷ keys) g)

-- `while (queue_.try_pop(dummy))`, on fuel.
unfoldable pub drain : {A : Type 0} (Q : BoundedQueue A) → ℕ → Q.Queue → Q.Queue
drain Q zero q = q
drain Q (suc fuel) q = elim (Q.try_pop q) [ none ↦ q | some (keys, r) ↦ drain Q fuel r ]

-- The loop, with fuel for each of the queue's items and for the test that fails.
abbrev pub drained : {A : Type 0} (Q : BoundedQueue A) → Q.Queue → Q.Queue
drained Q q = drain Q (suc (length (Q.contents q))) q

module _ {D : (V : Type 0) → DenseMap V} {Q : BoundedQueue (List Key)} where
  unfoldable pub create : Tracker D Q
  unfolding new_metis_graph
  create = record {
    queue = Q.create 1000000;
    graph = empty;
    running = true;
    metis_graph = new_metis_graph;
    popped = none;
    looping = true;
  }

  -- `queue_.pop(keys)`, with the test of `running_` before and after it: what the thread does
  -- when an item is there. There is no step while the queue is empty or an item is being applied.
  unfoldable pub pop_step : Tracker D Q → Option (Tracker D Q)
  pop_step t = elim t.popped [
    | some keys ↦ none
    | none ↦ if not t.looping then none else elim (Q.try_pop t.queue) [
      | none ↦ none
      | some (keys, queue) ↦ some (
          if t.running
          then record t { queue = queue; popped = some keys }
          else record t { queue = queue; looping = false })
    ]
  ]

  -- The rest of the iteration, under `graph_lock_`.
  unfoldable pub apply_step : Tracker D Q → Option (Tracker D Q)
  unfolding apply_keys
  apply_step t = elim t.popped [
    | none ↦ none
    | some keys ↦
        some (record t { graph = apply_keys keys t.graph; popped = none; looping = t.running })
  ]

  unfoldable pub release : Tracker D Q → Tracker D Q
  release t = record t { running = false; queue = Q.push t.queue [] }

  unfoldable pub multi_update : Tracker D Q → List Key → Tracker D Q × Bool
  multi_update t keys =
      (record t { queue = Q.push t.queue keys }, leb max_graph_size (get_vertex_count t.graph))

  unfoldable pub update : Tracker D Q → Key → Tracker D Q × Bool
  update t key = (
    record t { queue = Q.push t.queue (key ∷ []) },
    leb max_graph_size (get_vertex_count t.graph),
  )

  unfoldable pub multi_move_update : Tracker D Q → List Key → Tracker D Q
  multi_move_update t keys = record t { queue = Q.push t.queue keys }

  unfoldable pub clear_graph : Tracker D Q → Tracker D Q
  unfolding clear drain
  clear_graph t = record t { queue = drained Q t.queue; graph = clear t.graph }

  unfoldable pub lock_and_clear_graph : Tracker D Q → Tracker D Q
  unfolding clear
  lock_and_clear_graph t = record t { graph = clear t.graph }

  unfoldable pub ready : Tracker D Q → Bool
  unfolding get_vertex_count
  ready t = ltb 1 (get_vertex_count t.graph)

abbrev pub is_ok {ℓ} : {A : Type ℓ} → Result A → Bool
is_ok (ok a) = true
is_ok (err e) = false

-- `metis_graph_.partition` after `prepare_from_graph`, in the block that catches what they throw:
-- the new graph, and whether nothing was thrown.
unfoldable pub partition_prepared :
    {D : (V : Type 0) → DenseMap V}
    → Metis
    → ℕ
    → MetisGraph D × Result (Unit {0})
    → MetisGraph D × Bool
unfolding partition
partition_prepared lib n (m, err e) = (m, false)
partition_prepared lib n (m, ok u) =
    let (m₁, r) = partition lib n m in (m₁, elim r [ ok v ↦ true | err e ↦ false ])

-- The loop of `update_partition_map`, over the parts and the names of the vertices.
unfoldable pub put_parts : (P : KeyStorage ℕ) → List Key → List ℕ → P.Store → Result P.Store
put_parts P keys [] s = ok s
put_parts P [] (p ∷ parts) s = err bad_index
put_parts P (k ∷ keys) (p ∷ parts) s = put_parts P keys parts (P.put s k p)

-- The steps of other threads that come in between the accesses of a method to what is shared.
pub data Event : Type 0 where
  pops : Event
  applies : Event
  updates : Key → Event
  multi_updates : List Key → Event
  multi_move_updates : List Key → Event

-- Those in the rounds of the draining loop, and those from its end to the lock.
pub record Others : Type 0 where
  pub rounds : List (List Event)
  pub window : List Event

module _ {D : (V : Type 0) → DenseMap V} {Q : BoundedQueue (List Key)} where
  -- A step of another thread; the tracking thread has none where it waits.
  unfoldable pub event : Event → Tracker D Q → Tracker D Q
  unfolding pop_step apply_step update multi_update multi_move_update
  event pops t = or_else t (pop_step t)
  event applies t = or_else t (apply_step t)
  event (updates key) t = (update t key).0
  event (multi_updates keys) t = (multi_update t keys).0
  event (multi_move_updates keys) t = multi_move_update t keys

  unfoldable pub run_events : List Event → Tracker D Q → Tracker D Q
  unfolding event
  run_events [] t = t
  run_events (e ∷ es) t = run_events es (event e t)

  -- The draining loop with the steps of other threads before each `try_pop`; after the given
  -- rounds it is alone with the queue.
  unfoldable pub drain_among : List (List Event) → Tracker D Q → Tracker D Q
  unfolding run_events drain
  drain_among [] t = record t { queue = drained Q t.queue }
  drain_among (es ∷ rounds) t =
      let u = run_events es t in
      elim (Q.try_pop u.queue) [
        | none ↦ u
        | some (keys, queue) ↦ drain_among rounds (record u { queue = queue })
      ]

  -- The part under `graph_lock_`, by whether the graph is `ready`.
  unfoldable pub prepare_locked : Metis → ℕ → Tracker D Q → Bool → Tracker D Q × Bool
  unfolding partition_prepared prepare_from_graph
  prepare_locked lib partition_count t false = (t, false)
  prepare_locked lib partition_count t true =
      let (m, success) =
        partition_prepared lib partition_count (prepare_from_graph t.graph t.metis_graph) in
      (record t { metis_graph = m }, success)

  -- What the method finds when it has `graph_lock_`: the loop, and then the sleep and the wait for
  -- the lock, in which other threads go on.
  unfoldable pub before_lock : Others → Tracker D Q → Tracker D Q
  unfolding drain_among run_events
  before_lock others t = run_events others.window (drain_among others.rounds t)

  unfoldable pub prepare_for_partition_map_update :
      Metis → Others → Tracker D Q → ℕ → Tracker D Q × Bool
  unfolding before_lock ready prepare_locked
  prepare_for_partition_map_update lib others t₀ partition_count =
      let t = before_lock others t₀ in prepare_locked lib partition_count t (ready t)

  abbrev pub get_metis_partitions : Tracker D Q → List ℕ
  get_metis_partitions t = t.metis_graph.part

  abbrev pub get_idx_to_vertex : Tracker D Q → List Key
  get_idx_to_vertex t = t.metis_graph.idx_to_vertex

  unfoldable pub update_partition_map :
      (P : KeyStorage ℕ) → P.Store → Tracker D Q → Result (P.Store × Tracker D Q)
  unfolding put_parts clear
  update_partition_map P s t = do
    s₁ ← put_parts P (get_idx_to_vertex t) (get_metis_partitions t) s
    ok (s₁, record t { graph = clear t.graph })
