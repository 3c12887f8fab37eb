-- ===== src/Graph/Keys.antt =====
-- Lists of entries whose keys are distinct.
use repart_kv.Common.{List, [], ◌∷◌, All, ◌≡◌, false, arith}
use repart_kv.Key.{Key, key_eq}
use repart_kv.Key.Laws.{key_eq_iff, key_lt_irrefl}
use repart_kv.SortedMap.{Entries, IsBelow, IsSorted}

abbrev pub DistinctKeys {ℓ} : {V : Type ℓ} → List (Key × V) → Type 0
DistinctKeys [] = Unit
DistinctKeys (e ∷ m) = All (λ d. key_eq e.0 d.0 ≡ false) m × DistinctKeys m

module _ {V : Type 0} where
  IsBelow-distinct : (k : Key) (m : Entries V) → IsBelow k m → All (λ d. key_eq k d.0 ≡ false) m
  IsBelow-distinct k [] h = tt
  IsBelow-distinct k (e ∷ m) h =
      (ground (arith, h.0, key_eq_iff k e.0, key_lt_irrefl k), IsBelow-distinct k m h.1)

  pub IsSorted-DistinctKeys : (m : Entries V) → IsSorted m → DistinctKeys m
  IsSorted-DistinctKeys [] s = tt
  IsSorted-DistinctKeys (e ∷ m) s = (IsBelow-distinct e.0 m s.0, IsSorted-DistinctKeys m s.1)
