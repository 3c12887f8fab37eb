-- ===== src/Tracker/Announces.antt =====
-- When a partitioning is announced.
use repart_kv.Common.{ℕ, ◌<◌, ◌≤◌, ◌≡◌, ap, ◌∙◌, Bool, true, false, arith, length, lt→ltb, List}
use repart_kv.Common.Result.{Result, ok, err}
use repart_kv.Key.{Key}
use repart_kv.Graph.{DenseMap, Graph, get_vertex_count}
use repart_kv.Graph.Growth.{Grows-count}
use repart_kv.Tracker.Window.{before_lock-Grows}
use repart_kv.Metis.{Metis, MetisGraph, prepare_from_graph}
use repart_kv.Metis.Partition.{Succeeds, partition-ok}
use repart_kv.Metis.Build.{length-names}
use repart_kv.Metis.Rows.{prepare_from_graph-Describes}
use repart_kv.Tracker.{
  BoundedQueue, Tracker, is_ok, partition_prepared, prepare_locked,
  prepare_for_partition_map_update, ready, Others, before_lock,
}

module _ {D : (V : Type 0) → DenseMap V} (lib : Metis) (calls : Succeeds lib) where
  after_prepare-ok :
      (n : ℕ) (m : MetisGraph D) (r : Result (Unit {0}))
      → r ≡ ok tt
      → m.prepared ≡ true
      → 0 < n
      → n ≤ m.nvtxs
      → (partition_prepared lib n (m, r)).1 ≡ true
  unfolding partition_prepared
  after_prepare-ok n m (err e) done p h le = cc
  after_prepare-ok n m (ok u) done p h le = ap is_ok (partition-ok lib n m calls p h le)

  partition_prepared-ok :
      (g : Graph D) (n : ℕ) (m : MetisGraph D)
      → 0 < n
      → n ≤ get_vertex_count g
      → (partition_prepared lib n (prepare_from_graph g m)).1 ≡ true
  unfolding get_vertex_count
  partition_prepared-ok g n m h le =
      let (done, d) = prepare_from_graph-Describes g m (omega (arith, h, le)) in
      let counted : length (prepare_from_graph g m).0.idx_to_vertex
          ≡ length ((D ℕ).items g.vertices) =
        ap length d.idx_to_vertex ∙ length-names ((D ℕ).items g.vertices) in
      after_prepare-ok n (prepare_from_graph g m).0 (prepare_from_graph g m).1 done d.prepared h
        (omega (arith, le, d.nvtxs, counted))

  module _ {Q : BoundedQueue (List Key)} where
    prepare_locked-ok :
        (n : ℕ) (t : Tracker D Q) (b : Bool)
        → b ≡ true
        → 0 < n
        → n ≤ get_vertex_count t.graph
        → (prepare_locked lib n t b).1 ≡ true
    unfolding prepare_locked
    prepare_locked-ok n t false e h le = cc
    prepare_locked-ok n t true e h le = partition_prepared-ok t.graph n t.metis_graph h le

    -- If the calls of METIS succeed, and the graph has more than one vertex and at least as many as
    -- there are partitions, and there is a partition, then a partitioning is announced, whatever
    -- other threads submit, take out of the queue and apply meanwhile.
    pub prepare_for_partition_map_update-Announces :
        (others : Others) (t : Tracker D Q) (n : ℕ)
        → 1 < get_vertex_count t.graph
        → 0 < n
        → n ≤ get_vertex_count t.graph
        → (prepare_for_partition_map_update lib others t n).1 ≡ true
    unfolding prepare_for_partition_map_update ready
    prepare_for_partition_map_update-Announces others t n more h le =
        let u : Tracker D Q = before_lock others t in
        let up : get_vertex_count t.graph ≤ get_vertex_count u.graph =
          Grows-count t.graph u.graph (before_lock-Grows others t) in
        prepare_locked-ok n u (ready u)
          (lt→ltb 1 (get_vertex_count u.graph) (omega (arith, up, more))) h (omega (arith, up, le))
