-- ===== src/KeyStorage/Map.antt =====
-- keystorage/MapKeyStorage.h: the key storage over `std::map`, and its iterator.
pub mod Laws
use repart_kv.Common.{
  ℕ, Bool, true, false, Option, none, some, List, [], ◌∷◌, ◌++◌, length, ltb, ◌==◌, if◌then◌else◌,
}
use repart_kv.Key.{Key}
use repart_kv.SortedMap.{Entries, lookup, insert, lower_bound}

-- The iterator holds its position as what lies from there up to `end_`.
pub record Iterator (V : Type 0) : Type 0 where
  pub current : Entries V

module _ {V : Type 0} where
  unfoldable pub get_impl : Entries V → Key → Option V
  get_impl storage key = elim (lookup key storage) [ some v ↦ some v | none ↦ none ]

  unfoldable pub put_impl : Entries V → Key → V → Entries V
  put_impl storage key value = insert key value storage

  -- `try_emplace`
  unfoldable pub get_or_insert_impl : Entries V → Key → V → Entries V × Bool × V
  get_or_insert_impl storage key value_to_insert = elim (lookup key storage) [
    | some v ↦ (storage, true, v)
    | none ↦ (insert key value_to_insert storage, false, value_to_insert)
  ]

  -- The loop of `scan_impl` over the range.
  unfoldable pub collect : Entries V → ℕ → Entries V → Entries V
  collect [] limit results = results
  collect (e ∷ it) limit results =
      let rest = collect it limit (results ++ e ∷ []) in
      if ltb (length results) limit then rest else results

  unfoldable pub scan_impl : Entries V → Key → ℕ → Entries V
  scan_impl storage key_start limit =
      if limit == 0 then [] else collect (lower_bound key_start storage) limit []

  unfoldable pub lower_bound_impl : Entries V → Key → Iterator V
  lower_bound_impl storage key = record { current = lower_bound key storage }

  unfoldable pub get_key_impl : Iterator V → Key
  get_key_impl it = elim it.current [ [] ↦ [] | e ∷ m ↦ e.0 ]

  -- `ValueType()` behind the end
  unfoldable pub get_value_impl : V → Iterator V → V
  get_value_impl default it = elim it.current [ [] ↦ default | e ∷ m ↦ e.1 ]

  unfoldable pub increment_impl : Iterator V → Iterator V
  increment_impl it = record { current = elim it.current [ [] ↦ [] | e ∷ m ↦ m ] }

  unfoldable pub is_end_impl : Iterator V → Bool
  is_end_impl it = elim it.current [ [] ↦ true | e ∷ m ↦ false ]
