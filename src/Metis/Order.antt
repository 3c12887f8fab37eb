-- ===== src/Metis/Order.antt =====
-- The order of a row: `std::sort` of pairs with different indices.
use repart_kv.Common.{
  ℕ, ◌<◌, ◌≡◌, refl, ◌∙◌, Option, none, some, List, [], ◌∷◌, arith, All, ◌==◌, if◌then◌else◌,
  Bool-cases, inl, inr,
}
use repart_kv.Metis.{pair_leb, insert_pair, sort_pairs}

-- The weight at an index of a row.
abbrev pub weight_at : ℕ → List (ℕ × ℕ) → Option ℕ
weight_at j [] = none
weight_at j (e ∷ row) = if e.0 == j then some e.1 else weight_at j row

-- The indices rise strictly.
abbrev pub IsRising : List (ℕ × ℕ) → Type 0
IsRising [] = Unit
IsRising (e ∷ row) = All (λ d. e.0 < d.0) row × IsRising row

-- No index comes twice.
abbrev pub DistinctIndices : List (ℕ × ℕ) → Type 0
DistinctIndices [] = Unit
DistinctIndices (e ∷ row) = (weight_at e.0 row ≡ none) × DistinctIndices row

weight_at-insert_pair :
    (j : ℕ) (a : ℕ × ℕ) (row : List (ℕ × ℕ))
    → weight_at a.0 row ≡ none
    → weight_at j (insert_pair a row) ≡ weight_at j (a ∷ row)
unfolding insert_pair
weight_at-insert_pair j a [] h = refl
weight_at-insert_pair j a (b ∷ row) h = ground (arith, h, weight_at-insert_pair j a row)

All-insert_pair :
    (i : ℕ) (a : ℕ × ℕ) (row : List (ℕ × ℕ))
    → i < a.0
    → All (λ d. i < d.0) row
    → All (λ d. i < d.0) (insert_pair a row)
unfolding insert_pair
All-insert_pair i a [] lt h = (lt, tt)
All-insert_pair i a (b ∷ row) lt h = elim (Bool-cases (pair_leb a b)) [
  | inl le ↦ rw le (lt, h)
  | inr gt ↦ rw gt (h.0, All-insert_pair i a row lt h.1)
]

below-All : (i j : ℕ) (row : List (ℕ × ℕ)) → i < j → All (λ d. j < d.0) row → All (λ d. i < d.0) row
below-All i j [] lt h = tt
below-All i j (e ∷ row) lt h = (omega (arith, lt, h.0), below-All i j row lt h.1)

insert_pair-IsRising :
    (a : ℕ × ℕ) (row : List (ℕ × ℕ))
    → weight_at a.0 row ≡ none
    → IsRising row
    → IsRising (insert_pair a row)
unfolding insert_pair
insert_pair-IsRising a [] h s = (tt, tt)
insert_pair-IsRising a (b ∷ row) h s = elim (Bool-cases (pair_leb a b)) [
  | inl le ↦
      let lt : a.0 < b.0 = ground (arith, le, h) in rw le ((lt, below-All a.0 b.0 row lt s.0), s)
  | inr gt ↦
      let lt : b.0 < a.0 = ground (arith, gt, h) in
      let rest : weight_at a.0 row ≡ none = ground (arith, h) in
      rw gt (All-insert_pair b.0 a row lt s.0, insert_pair-IsRising a row rest s.1)
]

pub weight_at-sort_pairs :
    (j : ℕ) (row : List (ℕ × ℕ))
    → DistinctIndices row
    → weight_at j (sort_pairs row) ≡ weight_at j row
unfolding sort_pairs
weight_at-sort_pairs j [] d = refl
weight_at-sort_pairs j (a ∷ row) d =
    weight_at-insert_pair j a (sort_pairs row) (weight_at-sort_pairs a.0 row d.1 ∙ d.0)
    ∙ ground (arith, weight_at-sort_pairs j row d.1)

pub sort_pairs-IsRising : (row : List (ℕ × ℕ)) → DistinctIndices row → IsRising (sort_pairs row)
unfolding sort_pairs
sort_pairs-IsRising [] d = tt
sort_pairs-IsRising (a ∷ row) d =
    insert_pair-IsRising a (sort_pairs row) (weight_at-sort_pairs a.0 row d.1 ∙ d.0)
      (sort_pairs-IsRising row d.1)
