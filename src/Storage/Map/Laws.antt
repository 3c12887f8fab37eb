-- ===== src/Storage/Map/Laws.antt =====
-- The engine over `std::map` keeps the contract of an ordered engine.
use repart_kv.Common.{◌≡◌, refl, sym, none, [], ◌∷◌, arith, Option-cases, inl, inr}
use repart_kv.Key.{Key, Value}
use repart_kv.SortedMap.{Entries, lookup, insert, erase, IsSorted}
use repart_kv.SortedMap.Laws.{insert-IsSorted, erase-IsSorted}
use repart_kv.Storage.{found_or, Backend, success}
use repart_kv.Storage.Map.{read_impl, write_impl, remove_impl, scan_impl, find_impl}
use repart_kv.Storage.Map.Scan.{scan_impl_lem}

-- `erase` of a key that is not there changes nothing.
erase_missing {ℓ} : {V : Type ℓ} (k : Key) (m : Entries V) → lookup k m ≡ none → erase k m ≡ m
unfolding lookup erase
erase_missing k [] h = refl
erase_missing k ((j, v) ∷ m) h = ground (arith, erase_missing k m)

module _ (s : Entries Value) (k : Key) where
  pub read_impl_lem : (old : Value) → read_impl s k old ≡ found_or old (lookup k s)
  unfolding read_impl
  read_impl_lem old = ground arith

  pub find_impl_lem : (old : Value) → find_impl s k old ≡ found_or old (lookup k s)
  unfolding find_impl
  find_impl_lem old = ground arith

  pub contents-write_impl : (v : Value) → (write_impl s k v).0 ≡ insert k v s
  unfolding write_impl
  contents-write_impl v = refl

  pub write_impl-status : (v : Value) → (write_impl s k v).1 ≡ success
  unfolding write_impl
  write_impl-status v = refl

  pub contents-remove_impl : (old : Value) → (remove_impl s k old).0 ≡ erase k s
  unfolding remove_impl
  contents-remove_impl old = elim (Option-cases (lookup k s)) [
    | inl miss ↦ rw (miss, remove_impl) (sym (erase_missing k s miss))
    | inr (v, hit) ↦ rw (hit, remove_impl)
  ]

  pub write_impl-IsSorted : (v : Value) → IsSorted s → IsSorted (write_impl s k v).0
  unfolding write_impl
  write_impl-IsSorted v h = insert-IsSorted k v s h

  pub remove_impl-IsSorted : (old : Value) → IsSorted s → IsSorted (remove_impl s k old).0
  unfolding remove_impl
  remove_impl-IsSorted old h = ground (arith, erase-IsSorted k s h)

-- The engine class `MapStorageEngine` as the interface of the partitioned stores. The level and
-- the path are ignored, since nothing is on disk.
abbrev pub map_storage_engine : Backend
map_storage_engine = record {
  Store = Entries Value;
  create = λ level path. [];
  read_impl = read_impl;
  write_impl = write_impl;
  remove_impl = remove_impl;
  scan_impl = scan_impl;
  find_impl = find_impl;
  contents = λ s. s;
  IsValid = IsSorted;
  create-IsValid = λ level path. tt;
  write_impl-IsValid = write_impl-IsSorted;
  remove_impl-IsValid = remove_impl-IsSorted;
  contents-IsSorted = λ s v. v;
  contents-create = λ level path. refl;
  read_impl_lem = read_impl_lem;
  find_impl_lem = find_impl_lem;
  write_impl-status = write_impl-status;
  contents-write_impl = contents-write_impl;
  contents-remove_impl = contents-remove_impl;
  scan_impl_lem = scan_impl_lem;
}
