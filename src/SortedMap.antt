-- ===== src/SortedMap.antt =====
-- What the sources use of `std::map<std::string, V>`: its entries in the order of their keys.
pub mod Laws
pub mod Ext
use repart_kv.Common.{
  ℕ, ◌≡◌, Bool, true, Option, none, some, List, [], ◌∷◌, All, take, if◌then◌else◌,
}
use repart_kv.Key.{Key, key_eq, key_lt}

abbrev pub Entries {ℓ} : Type ℓ → Type ℓ
Entries V = List (Key × V)

module _ {ℓ} {V : Type ℓ} where
  -- `find`, and the value behind the iterator
  unfoldable pub lookup : Key → Entries V → Option V
  lookup k [] = none
  lookup k ((j, v) ∷ m) = if key_eq j k then some v else lookup k m

  -- `m[k] = v`
  unfoldable pub insert : Key → V → Entries V → Entries V
  insert k v [] = (k, v) ∷ []
  insert k v ((j, w) ∷ m) =
      if key_eq j k
      then (k, v) ∷ m
      else if key_lt k j
      then (k, v) ∷ (j, w) ∷ m
      else (j, w) ∷ insert k v m

  -- `erase`
  unfoldable pub erase : Key → Entries V → Entries V
  erase k [] = []
  erase k ((j, v) ∷ m) = let rest = erase k m in if key_eq j k then rest else (j, v) ∷ rest

  -- `lower_bound`: the entries from the first key that is not less than `k`
  unfoldable pub lower_bound : Key → Entries V → Entries V
  lower_bound k [] = []
  lower_bound k ((j, v) ∷ m) = let rest = lower_bound k m in if key_lt j k then rest else (j, v) ∷ m

  abbrev pub IsBelow : Key → Entries V → Type 0
  IsBelow k = All (λ e. key_lt k e.0 ≡ true)

  -- Keys rise strictly: the invariant of `std::map`.
  abbrev pub IsSorted : Entries V → Type 0
  IsSorted [] = Unit
  IsSorted (e ∷ m) = IsBelow e.0 m × IsSorted m
