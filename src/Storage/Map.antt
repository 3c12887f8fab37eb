-- ===== src/Storage/Map.antt =====
-- storage/MapStorageEngine.h: the engine over `std::map`. Each method takes the engine's own mutex
-- and releases it on every path, which is not modelled.
pub mod Scan
pub mod Laws
use repart_kv.Common.{ℕ, zero, suc, ◌+◌, none, some, List, [], ◌∷◌, set, ltb, if◌then◌else◌, ◌==◌}
use repart_kv.Key.{Key, Value}
use repart_kv.SortedMap.{Entries, lookup, insert, erase, lower_bound}
use repart_kv.Storage.{Status, success, not_found}

unfoldable pub read_impl : Entries Value → Key → Value → Status × Value
read_impl storage key value = elim (lookup key storage) [
  | some v ↦ (success, v)
  | none ↦ (not_found, value)
]

unfoldable pub write_impl : Entries Value → Key → Value → Entries Value × Status
write_impl storage key value = (insert key value storage, success)

unfoldable pub remove_impl : Entries Value → Key → Value → Entries Value × Status × Value
remove_impl storage key removed_value = elim (lookup key storage) [
  | some v ↦ (erase key storage, success, v)
  | none ↦ (storage, not_found, removed_value)
]

-- `std::vector::resize` with a default for new places
unfoldable pub resize {ℓ} : {A : Type ℓ} → A → ℕ → List A → List A
resize d zero xs = []
resize d (suc n) [] = d ∷ resize d n []
resize d (suc n) (x ∷ xs) = x ∷ resize d n xs

-- The loop of `scan_impl`: the results and the counter `i`.
unfoldable pub fill : Entries Value → ℕ → ℕ → Entries Value → Entries Value × ℕ
fill [] limit i results = (results, i)
fill (e ∷ it) limit i results =
    let rest = fill it limit (i + 1) (set results i e) in if ltb i limit then rest else (results, i)

-- The end of `scan_impl`, where the vector shrinks to what was found.
unfoldable pub finish : ℕ → ℕ → Entries Value → Status × Entries Value
finish limit i results =
    if ltb i limit
    then (if i == 0 then not_found else success, resize ([], []) i results)
    else (success, results)

unfoldable pub scan_impl : Entries Value → Key → ℕ → Entries Value → Status × Entries Value
scan_impl storage initial_key_prefix limit results =
    let (results', i) =
      fill (lower_bound initial_key_prefix storage) limit 0 (resize ([], []) limit results) in
    finish limit i results'

-- `MapIterator::find_impl`
unfoldable pub find_impl : Entries Value → Key → Value → Status × Value
find_impl storage key value = elim (lookup key storage) [
  | some v ↦ (success, v)
  | none ↦ (not_found, value)
]
