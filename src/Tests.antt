-- ===== src/Tests.antt =====
-- The theorems at concrete inputs: a store of two partitions over the map engine, with a few keys,
-- and small graphs.
mod Graphs
mod Softs
mod Strips
mod Threads
mod HardThreads
use repart_kv.Common.{
  ℕ, ◌≡◌, refl, none, List, [], ◌∷◌, arith, length, true, ◌∙◌, ◌++◌, if◌then◌else◌, some,
}
use repart_kv.Common.Result.{Result, ok, err, Returns}
use repart_kv.Key.{Key, key_eq}
use repart_kv.Storage.Map.Laws.{map_storage_engine}
use repart_kv.Storage.{success, not_found, found_or}
use repart_kv.KeyStorage.Map.Laws.{map_key_storage}
use repart_kv.Instances.{settled_tracking}
use repart_kv.Hard.{Hard, create, read_impl, write_impl, scan_impl, repartition_impl}
use repart_kv.Hard.Invariant.{Inv, view}
use repart_kv.Hard.Content.{content}
use repart_kv.Hard.History.{
  Call, reads, writes, scans, repartitions, tracks, run, spec_run, run-Refines, AllRefine,
}
use repart_kv.Hard.Access.{read-view}
use repart_kv.Hard.Writes.{write-view}
use repart_kv.Hard.Scans.{scan-view, scanned, scanned_pairs, shown}
use repart_kv.Hard.Repartition.{repartition-view, assigned}
use repart_kv.Hard.Start.{create-Inv}

abbrev key : ℕ → Key
key n = n ∷ []

abbrev hash : Key → ℕ
hash = length

abbrev Store : Type 0
Store = Hard map_storage_engine (map_key_storage 0) settled_tracking

-- A new store of two partitions.
abbrev new_store : Store
new_store = create 2 none none []

create-Inv_example : Inv new_store × (content new_store ≡ [])
create-Inv_example =
    create-Inv map_storage_engine (map_key_storage 0) settled_tracking 2 none none [] (omega arith)

new_Inv : Inv new_store
new_Inv =
    (create-Inv map_storage_engine (map_key_storage 0) settled_tracking 2 none none []
      (omega arith)).0

new_count : new_store.partition_count ≡ 2
unfolding create
new_count = refl

abbrev calls : List Call
calls =
    tracks true
    ∷ writes (key 1) (key 7)
    ∷ writes (key 2) (key 8)
    ∷ scans (key 0) 10
    ∷ repartitions
    ∷ reads (key 1) []
    ∷ reads (key 9) (key 3)
    ∷ []

run-Refines_example :
    Returns
      (run hash new_store calls)
      (AllRefine hash new_store (spec_run (content new_store) calls))
run-Refines_example = run-Refines hash new_store calls new_Inv (omega (arith, new_count))

-- The store after these calls.
abbrev result_or {ℓ} : {A : Type ℓ} → A → Result A → A
result_or d (ok a) = a
result_or d (err e) = d

result_lem {ℓ} :
    {A : Type ℓ} (d : A) (r : Result A) (Q : A → Type 0) → Returns r Q → Q (result_or d r)
result_lem d (ok a) Q h = h
result_lem d (err e) Q h = absurd h

abbrev used_store : Store
used_store = (result_or (new_store, []) (run hash new_store calls)).0

used :
    AllRefine hash new_store
      (spec_run (content new_store) calls)
      (result_or (new_store, []) (run hash new_store calls))
used =
    result_lem (new_store, []) (run hash new_store calls) _
      (run-Refines hash new_store calls new_Inv (omega (arith, new_count)))

used_count : used_store.partition_count ≡ 2
used_count = used.3 ∙ new_count

read-view_example : Returns (read_impl used_store (key 1) []) λ r.
    ((r.1, r.2) ≡ found_or [] (view used_store (key 1)))
    × Inv r.0
    × ((k : Key) → view r.0 k ≡ view used_store k)
    × (r.0.partition_count ≡ used_store.partition_count)
read-view_example = read-view used_store (key 1) [] used.0

write-view_example : Returns (write_impl hash used_store (key 1) (key 4)) λ r.
    (r.1 ≡ success)
    × Inv r.0
    × ((k : Key) → view r.0 k ≡ (if key_eq (key 1) k then some (key 4) else view used_store k))
    × (r.0.partition_count ≡ used_store.partition_count)
write-view_example = write-view hash used_store (key 1) (key 4) used.0

scan-view_example : Returns (scan_impl used_store (key 1) 5 []) λ r.
    (r.1 ≡ scanned not_found (scanned_pairs used_store (key 1) 5))
    × (r.2 ≡ [] ++ shown (view used_store) (scanned_pairs used_store (key 1) 5))
    × Inv r.0
    × ((j : Key) → view r.0 j ≡ view used_store j)
    × (r.0.partition_count ≡ used_store.partition_count)
scan-view_example = scan-view used_store (key 1) 5 [] used.0 (omega (arith, used_count))

repartition-view_example : Returns (repartition_impl used_store) λ t.
    Inv t
    × ((k : Key) → view t k ≡ view used_store k)
    × (t.partition_count ≡ used_store.partition_count)
    × ((k : Key)
        → let prepared =
            settled_tracking.prepare_for_partition_map_update used_store.tracker
              used_store.partition_count in
          (map_key_storage 0).get t.storage_map k ≡ (
            if prepared.1
            then assigned k
                (settled_tracking.get_metis_partitions prepared.0)
                (settled_tracking.get_idx_to_vertex prepared.0)
                ((map_key_storage 0).get used_store.storage_map k)
            else (map_key_storage 0).get used_store.storage_map k))
repartition-view_example = repartition-view used_store used.0
