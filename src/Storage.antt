-- ===== src/Storage.antt =====
-- storage/Status.h and storage/StorageEngine.h: the base class of the engines, over the interface
-- that an engine implements (its `*_impl` methods).
pub mod Map
pub mod Laws
use repart_kv.Common.{
  ℕ, ◌+◌, ◌%◌, ◌^◌, ◌≡◌, Option, none, some, List, [], ◌∷◌, take, ltb, if◌then◌else◌,
}
use repart_kv.Key.{Key, Value}
use repart_kv.SortedMap.{Entries, lookup, insert, erase, lower_bound, IsSorted}

pub data Status : Type 0 where
  pending success not_found error : Status

-- What a lookup with an out parameter gives: on a miss the parameter keeps its value.
abbrev pub found_or : Value → Option Value → Status × Value
found_or old none = (not_found, old)
found_or old (some v) = (success, v)

-- A scan that was asked for something and found nothing says so.
abbrev pub scan_status : ℕ → Entries Value → Status
scan_status limit [] = if ltb 0 limit then not_found else success
scan_status limit (e ∷ m) = success

-- What the partitioned stores ask of an engine class: its methods, and that they behave as those
-- of an ordered map whose writes do not fail.
pub record Backend : Type 1 where
  pub Store : Type 0
  pub create : ℕ → Value → Store
  pub read_impl : Store → Key → Value → Status × Value
  pub write_impl : Store → Key → Value → Store × Status
  pub remove_impl : Store → Key → Value → Store × Status × Value
  pub scan_impl : Store → Key → ℕ → Entries Value → Status × Entries Value
  pub find_impl : Store → Key → Value → Status × Value
  pub contents : Store → Entries Value
  pub IsValid : Store → Type 0
  pub create-IsValid : (level : ℕ) (path : Value) → IsValid (create level path)
  pub write_impl-IsValid :
      (s : Store) (k : Key) (v : Value) → IsValid s → IsValid (write_impl s k v).0
  pub remove_impl-IsValid :
      (s : Store) (k : Key) (old : Value) → IsValid s → IsValid (remove_impl s k old).0
  pub contents-IsSorted : (s : Store) → IsValid s → IsSorted (contents s)
  pub contents-create : (level : ℕ) (path : Value) → contents (create level path) ≡ []
  pub read_impl_lem :
      (s : Store) (k : Key) (old : Value) → read_impl s k old ≡ found_or old (lookup k (contents s))
  pub find_impl_lem :
      (s : Store) (k : Key) (old : Value) → find_impl s k old ≡ found_or old (lookup k (contents s))
  pub write_impl-status : (s : Store) (k : Key) (v : Value) → (write_impl s k v).1 ≡ success
  pub contents-write_impl :
      (s : Store) (k : Key) (v : Value) → contents (write_impl s k v).0 ≡ insert k v (contents s)
  pub contents-remove_impl :
      (s : Store) (k : Key) (old : Value) → contents (remove_impl s k old).0 ≡ erase k (contents s)
  pub scan_impl_lem :
      (s : Store) (k : Key) (limit : ℕ) (old : Entries Value)
      → scan_impl s k limit old
        ≡ (scan_status limit (lower_bound k (contents s)), take limit (lower_bound k (contents s)))

pub record StorageEngine (B : Backend) : Type 0 where
  pub level : ℕ
  pub operation_count : ℕ
  pub path : Value
  pub store : B.Store

-- `operation_count_.fetch_add(1)` on an `atomic_size_t`
abbrev pub counted : ℕ → ℕ
counted n = (n + 1) % 2 ^ 64

module _ {B : Backend} where
  unfoldable pub create : ℕ → Value → StorageEngine B
  create level path = record {
    level = level;
    operation_count = 0;
    path = path;
    store = B.create level path;
  }

  unfoldable pub read : StorageEngine B → Key → Value → StorageEngine B × Status × Value
  read e key value =
      let (status, value') = B.read_impl e.store key value in
      (record e { operation_count = counted e.operation_count }, status, value')

  unfoldable pub write : StorageEngine B → Key → Value → StorageEngine B × Status
  write e key value =
      let (store', status) = B.write_impl e.store key value in
      (record e { operation_count = counted e.operation_count; store = store' }, status)

  unfoldable pub scan :
      StorageEngine B → Key → ℕ → Entries Value → StorageEngine B × Status × Entries Value
  scan e key_start limit results =
      let (status, results') = B.scan_impl e.store key_start limit results in
      (record e { operation_count = counted e.operation_count }, status, results')

  unfoldable pub remove : StorageEngine B → Key → Value → StorageEngine B × Status × Value
  remove e key removed_value =
      let (store', status, value') = B.remove_impl e.store key removed_value in
      (record e { operation_count = counted e.operation_count; store = store' }, status, value')

  abbrev pub contents : StorageEngine B → Entries Value
  contents e = B.contents e.store
