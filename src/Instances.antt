-- ===== src/Instances.antt =====
-- Concrete functions for the libraries that the models take as parameters, with their laws: sorted
-- association lists for the hash maps, lists for the queues, and a METIS that puts every vertex
-- into the last part.
use repart_kv.Common.{
  ℕ, zero, suc, ◌-◌, ◌<◌, ◌≡◌, refl, ap, Option, none, some, List, [], ◌∷◌, ◌++◌, All, arith, ltb,
  replicate, length, length-replicate, true, false, Bool,
}
use repart_kv.Key.{Key}
use repart_kv.SortedMap.{Entries, lookup, insert, IsSorted}
use repart_kv.SortedMap.Laws.{lookup-insert, insert-IsSorted}
use repart_kv.Graph.{DenseMap}
use repart_kv.Graph.Keys.{IsSorted-DistinctKeys}
use repart_kv.Metis.{Metis, PartGraph, IsPartGraph}
use repart_kv.Tracker.{BoundedQueue, applies}
use repart_kv.Tracker.Prepare.{tracking}
use repart_kv.Tracking.{Tracking}

module _ {V : Type 0} where
  pub lookup_empty : (k : Key) → lookup {V = V} k [] ≡ none
  unfolding lookup
  lookup_empty k = refl

abbrev pub sorted_dense_map : (V : Type 0) → DenseMap V
sorted_dense_map V = record {
  Map = (m : Entries V) × IsSorted m;
  empty = ([], tt);
  find = λ m k. lookup k m.0;
  assign = λ m k v. (insert k v m.0, insert-IsSorted k v m.0 m.1);
  items = λ m. m.0;
  find-empty = lookup_empty;
  items-empty = refl;
  find-assign = λ m k j v. lookup-insert k j v m.0;
  find-items = λ m k. refl;
  items-distinct = λ m. IsSorted-DistinctKeys m.0 m.1;
}

abbrev pop_front : {A : Type 0} → List A → Option (A × List A)
pop_front [] = none
pop_front (a ∷ q) = some (a, q)

abbrev pub list_queue : (A : Type 0) → BoundedQueue A
list_queue A = record {
  Queue = List A;
  create = λ capacity. [];
  push = λ q a. q ++ a ∷ [];
  try_pop = pop_front;
  contents = λ q. q;
  contents-create = λ capacity. refl;
  contents-push = λ q a. refl;
  try_pop_empty = λ q e. ap pop_front e;
  try_pop_full = λ q a xs e. (xs, ap pop_front e, refl);
}

-- 1 is the code of success here, and there is no partitioning into no parts.
abbrev last_part_if : Bool → ℕ → ℕ → List ℕ → ℕ × List ℕ
last_part_if true nvtxs nparts part = (1, replicate nvtxs (nparts - 1))
last_part_if false nvtxs nparts part = (0, part)

abbrev last_part : PartGraph
last_part nvtxs ncon xadj adjncy vwgt adjwgt nparts part =
    last_part_if (ltb 0 nparts) nvtxs nparts part

All-replicate : (P : ℕ → Type 0) (n a : ℕ) → P a → All P (replicate n a)
All-replicate P zero a h = tt
All-replicate P (suc n) a h = (h, All-replicate P n a h)

last_part_if_lem :
    (b : Bool) (nvtxs nparts : ℕ) (part : List ℕ)
    → ltb 0 nparts ≡ b
    → (last_part_if b nvtxs nparts part).0 ≡ 1
    → (length (last_part_if b nvtxs nparts part).1 ≡ nvtxs)
      × All (λ p. p < nparts) (last_part_if b nvtxs nparts part).1
last_part_if_lem true nvtxs nparts part e h = (
  length-replicate nvtxs (nparts - 1),
  All-replicate (λ p. p < nparts) nvtxs (nparts - 1) (ground (arith, e)),
)
last_part_if_lem false nvtxs nparts part e h = absurd (omega (arith, h))

pub last_part-IsPartGraph : IsPartGraph 1 last_part
last_part-IsPartGraph nvtxs ncon xadj adjncy vwgt adjwgt nparts part l h =
    last_part_if_lem (ltb 0 nparts) nvtxs nparts part refl h

abbrev pub last_part_metis : Metis
last_part_metis = record {
  metis_ok = 1;
  part_graph_kway = last_part;
  part_graph_recursive = last_part;
  kway-IsPartGraph = last_part-IsPartGraph;
  recursive-IsPartGraph = last_part-IsPartGraph;
}

-- A tracker whose thread applies what it holds before a partitioning.
abbrev pub settled_tracking : Tracking
settled_tracking =
    tracking {D = sorted_dense_map} {Q = list_queue (List Key)} last_part_metis
      (λ t. record { rounds = []; window = applies ∷ [] })
