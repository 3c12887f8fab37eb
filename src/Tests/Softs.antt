-- ===== src/Tests/Softs.antt =====
-- The theorems on the soft store at a store of two partitions that holds one key.
use repart_kv.Common.{ℕ, ◌≡◌, refl, none, some, [], ◌∷◌, arith, if◌then◌else◌, length}
use repart_kv.Common.Result.{err, not_owned, Returns}
use repart_kv.Key.{Key, key_eq, key_lt}
use repart_kv.SortedMap.{lookup, lower_bound}
use repart_kv.Storage.{success, found_or}
use repart_kv.Storage.Map.Laws.{map_storage_engine}
use repart_kv.KeyStorage.Map.Laws.{map_key_storage}
use repart_kv.KeyStorage.Map.{get_impl}
use repart_kv.Instances.{settled_tracking}
use repart_kv.Soft.{Soft, create, read_impl, write_impl, scan_impl, repartition_impl}
use repart_kv.Soft.Access.{Inv, view, Keeps, read_impl-Keeps}
use repart_kv.Soft.Writes.{write_impl-Stores}
use repart_kv.Soft.Scans.{scanned_pairs, scan_impl-NotOwned}
use repart_kv.Soft.Parts.{placed_by}
use repart_kv.Soft.Repartition.{repartition_impl-Keeps}
use repart_kv.Soft.Start.{create-Empty}

abbrev key : ℕ → Key
key n = n ∷ []

abbrev hash : Key → ℕ
hash = length

abbrev Store : Type 0
Store = Soft map_storage_engine (map_key_storage 0) settled_tracking

abbrev new_store : Store
new_store = create 2 none none []

create-Empty_example : Inv new_store × ((k : Key) → view new_store k ≡ none)
create-Empty_example =
    create-Empty map_storage_engine (map_key_storage 0) settled_tracking 2 none none []
      (omega arith)

abbrev one_key : Store
one_key = record new_store {
  held = [];
  partition_count = 2;
  partition_map = (key 1, 1) ∷ [];
  storage = record { level = 0; operation_count = 0; path = []; store = (key 1, key 7) ∷ [] };
}

one_key-Inv : Inv one_key
unfolding lookup get_impl
one_key-Inv = record {
  released = refl;
  nonempty = omega arith;
  valid = (tt, tt);
  mapped = λ k p e. ground (arith, e);
  placed = λ k v e. (1, ground (arith, e));
}

read_impl-Keeps_example :
    Returns
      (read_impl one_key (key 1) [])
      λ r. ((r.1, r.2) ≡ found_or [] (view one_key (key 1))) × Keeps one_key r.0
read_impl-Keeps_example = read_impl-Keeps one_key (key 1) [] one_key-Inv

write_impl-Stores_example : Returns (write_impl hash one_key (key 2) (key 4)) λ r.
    (r.1 ≡ success)
    × Inv r.0
    × ((k : Key) → view r.0 k ≡ (if key_eq (key 2) k then some (key 4) else view one_key k))
    × (r.0.partition_count ≡ 2)
write_impl-Stores_example = write_impl-Stores hash one_key (key 2) (key 4) one_key-Inv

repartition_impl-Keeps_example : Returns (repartition_impl one_key) λ t.
    Keeps one_key t
    × ((k : Key)
        → let prepared = settled_tracking.prepare_for_partition_map_update one_key.tracker 2 in
          (map_key_storage 0).get t.partition_map k ≡ (
            if prepared.1
            then placed_by k
                (settled_tracking.get_idx_to_vertex prepared.0)
                (settled_tracking.get_metis_partitions prepared.0)
                ((map_key_storage 0).get one_key.partition_map k)
            else (map_key_storage 0).get one_key.partition_map k))
repartition_impl-Keeps_example = repartition_impl-Keeps one_key one_key-Inv

one_key-scanned : scanned_pairs one_key (key 0) 5 ≡ (key 1, 1) ∷ []
unfolding lower_bound key_lt
one_key-scanned = refl

scan_impl-NotOwned_example : scan_impl one_key (key 0) 5 [] ≡ err not_owned
scan_impl-NotOwned_example =
    scan_impl-NotOwned one_key (key 0) 5 [] (key 1, 1) [] one_key-Inv one_key-scanned
