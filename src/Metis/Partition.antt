-- ===== src/Metis/Partition.antt =====
-- A partitioning that succeeds gives every vertex a part in range.
use repart_kv.Common.{subst, ℕ, ◌<◌, ◌≡◌, true, All, length, if_both, arith, ◌≤◌, List}
use repart_kv.Common.Result.{ok}
use repart_kv.Storage.Map.{resize}
use repart_kv.Storage.Map.Scan.{length-resize}
use repart_kv.Graph.{DenseMap}
use repart_kv.Metis.{Metis, IsPartGraph, MetisGraph, partition, call_metis}

module _ {D : (V : Type 0) → DenseMap V} (lib : Metis) where
  call_metis_lem :
      (n : ℕ) (m : MetisGraph D)
      → length m.part ≡ m.nvtxs
      → (call_metis lib n m).1 ≡ ok tt
      → (length (call_metis lib n m).0.part ≡ m.nvtxs)
        × All (λ p. p < n) (call_metis lib n m).0.part
  unfolding call_metis
  call_metis_lem n m l h =
      let law =
        if_both (IsPartGraph lib.metis_ok) m.use_recursive_bisection lib.recursive-IsPartGraph
          lib.kway-IsPartGraph in
      law m.nvtxs m.ncon m.xadj m.adjncy m.vwgt m.adjwgt n m.part l (ground arith)

  -- If `partition` does not throw, each of the prepared vertices has a part below the number of
  -- parts; that number is positive and at most the number of vertices.
  pub partition-InRange :
      (n : ℕ) (m : MetisGraph D)
      → (partition lib n m).1 ≡ ok tt
      → (length (partition lib n m).0.part ≡ m.nvtxs)
        × All (λ p. p < n) (partition lib n m).0.part
        × (0 < n)
        × (n ≤ m.nvtxs)
        × (m.prepared ≡ true)
  unfolding partition
  partition-InRange n m h =
      let sized = length-resize 0 m.nvtxs m.part in
      let called : (call_metis lib n (record m { part = resize 0 m.nvtxs m.part })).1 ≡ ok tt =
        ground arith in
      let r = call_metis_lem n (record m { part = resize 0 m.nvtxs m.part }) sized called in
      let placed : (call_metis lib n (record m { part = resize 0 m.nvtxs m.part })).0.part
          ≡ (partition lib n m).0.part =
        ground arith in
      (ground arith, subst (All (λ p. p < n)) placed r.1, ground arith, ground arith, ground arith)

-- Every call of METIS for a positive number of parts succeeds.
pub record Succeeds (lib : Metis) : Type 0 where
  pub kway :
      (nvtxs ncon : ℕ) (xadj adjncy vwgt adjwgt : List ℕ) (nparts : ℕ) (part : List ℕ)
      → 0 < nparts
      → (lib.part_graph_kway nvtxs ncon xadj adjncy vwgt adjwgt nparts part).0 ≡ lib.metis_ok
  pub recursive :
      (nvtxs ncon : ℕ) (xadj adjncy vwgt adjwgt : List ℕ) (nparts : ℕ) (part : List ℕ)
      → 0 < nparts
      → (lib.part_graph_recursive nvtxs ncon xadj adjncy vwgt adjwgt nparts part).0 ≡ lib.metis_ok

module _ {D : (V : Type 0) → DenseMap V} (lib : Metis) where
  call_metis-ok : (n : ℕ) (m : MetisGraph D) → Succeeds lib → 0 < n → (call_metis lib n m).1 ≡ ok tt
  unfolding call_metis
  call_metis-ok n m s h = ground (
    arith,
    s.kway m.nvtxs m.ncon m.xadj m.adjncy m.vwgt m.adjwgt n m.part h,
    s.recursive m.nvtxs m.ncon m.xadj m.adjncy m.vwgt m.adjwgt n m.part h,
  )

  pub partition-ok :
      (n : ℕ) (m : MetisGraph D)
      → Succeeds lib
      → m.prepared ≡ true
      → 0 < n
      → n ≤ m.nvtxs
      → (partition lib n m).1 ≡ ok tt
  unfolding partition
  partition-ok n m s prepared positive fits =
      ground (arith, call_metis-ok n (record m { part = resize 0 m.nvtxs m.part }) s positive)
