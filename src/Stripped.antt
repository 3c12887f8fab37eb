-- ===== src/Stripped.antt =====
-- kvstorage/LockStrippingKeyValueStorage.h: the hash of a key gives its partition for good, and a
-- scan takes the mutexes of all partitions and merges what their engines find.
pub mod Access
pub mod Distinct
pub mod Engines
pub mod History
pub mod Merge
pub mod Scans
pub mod Smallest
use repart_kv.Common.{
  ℕ, zero, suc, ◌%◌, ◌+◌, Bool, true, false, not, ◌&&◌, ◌||◌, List, [], ◌∷◌, ◌++◌, set, get_elem?,
  length, min, if◌then◌else◌,
}
use repart_kv.Common.Result.{Result, ok, ◌>>=◌}
use repart_kv.Key.{Key, Value, key_eq, key_lt}
use repart_kv.SortedMap.{Entries}
use repart_kv.Storage.{Backend, StorageEngine, Status, success, not_found}
use repart_kv.Storage.Map.{resize}
use repart_kv.Locks.{Hold, partition, lock_shared, unlock_shared, within, lock, unlock}
use repart_kv.Hard.{at, or_tmp, nth_path, operations}
use repart_kv.Storage

pub record Stripped (B : Backend) : Type 0 where
  pub held : List Hold
  pub partition_count : ℕ
  pub storages : List (StorageEngine B)
  pub paths : List Value

-- The engines that the constructor makes, for the partitions from `i` on, all of level 1.
unfoldable pub engines : {B : Backend} → ℕ → ℕ → List Value → List (StorageEngine B)
unfolding nth_path
engines zero i paths = []
engines (suc n) i paths =
    Storage.create 1 (nth_path paths (i % length paths)) ∷ engines n (suc i) paths

-- `std::pair<std::string, std::string>`, compared lexicographically
abbrev pub entry_leb : Key × Value → Key × Value → Bool
entry_leb a b = key_lt a.0 b.0 || key_eq a.0 b.0 && not (key_lt b.1 a.1)

unfoldable pub insert_entry : Key × Value → Entries Value → Entries Value
insert_entry a [] = a ∷ []
insert_entry a (b ∷ m) =
    let rest = insert_entry a m in if entry_leb a b then a ∷ b ∷ m else b ∷ rest

unfoldable pub sort_entries : Entries Value → Entries Value
unfolding insert_entry
sort_entries [] = []
sort_entries (a ∷ m) = insert_entry a (sort_entries m)

-- The loops over the mutexes: `n` rounds from the partition `i` on.
unfoldable pub lock_all : ℕ → ℕ → List Hold → Result (List Hold)
lock_all zero i h = ok h
lock_all (suc n) i h = lock_shared (partition i) h >>= lock_all n (suc i)

unfoldable pub unlock_all : ℕ → ℕ → List Hold → Result (List Hold)
unlock_all zero i h = ok h
unlock_all (suc n) i h = unlock_shared (partition i) h >>= unlock_all n (suc i)

-- The loop over the engines: the engines behind their scans, and what they find, in their order.
unfoldable pub scan_each :
    {B : Backend} → List (StorageEngine B) → Key → ℕ → List (StorageEngine B) × Entries Value
scan_each [] k limit = ([], [])
scan_each (storage ∷ storages) k limit =
    let (storage', status, found) = Storage.scan storage k limit [] in
    let (storages', rest) = scan_each storages k limit in (storage' ∷ storages', found ++ rest)

abbrev pub found_status : Entries Value → Status
found_status [] = not_found
found_status (e ∷ m) = success

module _ {B : Backend} where
  unfoldable pub create : ℕ → List Value → Stripped B
  unfolding engines or_tmp
  create partition_count paths = record {
    held = [];
    partition_count = partition_count;
    storages = engines partition_count 0 (or_tmp paths);
    paths = or_tmp paths;
  }

  module _ (hash_func : Key → ℕ) where
    unfoldable pub read_impl : Stripped B → Key → Value → Result (Stripped B × Status × Value)
    unfolding at
    read_impl s key value = do
      let p = hash_func key % s.partition_count
      h ← within s.partition_count p (lock_shared (partition p) s.held)
      storage ← at s.storages p
      let (storage', status, value') = Storage.read storage key value
      h₁ ← unlock_shared (partition p) h
      ok (record s { held = h₁; storages = set s.storages p storage' }, status, value')

    unfoldable pub write_impl : Stripped B → Key → Value → Result (Stripped B × Status)
    unfolding at
    write_impl s key value = do
      let p = hash_func key % s.partition_count
      h ← within s.partition_count p (lock (partition p) s.held)
      storage ← at s.storages p
      let (storage', status) = Storage.write storage key value
      h₁ ← unlock (partition p) h
      ok (record s { held = h₁; storages = set s.storages p storage' }, status)

  unfoldable pub scan_impl :
      Stripped B → Key → ℕ → Entries Value → Result (Stripped B × Status × Entries Value)
  unfolding lock_all unlock_all scan_each sort_entries
  scan_impl s initial_key_prefix limit results = do
    h ← lock_all s.partition_count 0 s.held
    let (storages', found) = scan_each s.storages initial_key_prefix limit
    let status = found_status found
    let sorted = sort_entries found
    h₁ ← unlock_all s.partition_count 0 h
    ok (
      record s { held = h₁; storages = storages' },
      status,
      resize ([], []) (min (length sorted) limit) sorted,
    )

  unfoldable pub operation_count_impl : Stripped B → ℕ
  unfolding operations
  operation_count_impl s = operations s.storages
