-- ===== src/Graph/Growth.antt =====
-- Accesses add vertices to the graph and take none away.
use repart_kv.Common.{
  ℕ, suc, ◌+◌, ◌≤◌, ◌≡◌, refl, sym, ap, ◌∙◌, true, false, List, [], ◌∷◌, arith, All, length,
  Bool-cases, inl, inr,
}
use repart_kv.Key.{Key, key_eq}
use repart_kv.Key.Laws.{key_eq_refl}
use repart_kv.SortedMap.{lookup, erase}
use repart_kv.SortedMap.Laws.{lookup-erase}
use repart_kv.Graph.{
  DenseMap, Graph, is_some, has_vertex, get_vertex_count, increment_vertex_weight,
  increment_edge_weight, or_else,
}
use repart_kv.Graph.Keys.{DistinctKeys}

length-erase : (k : Key) (m : List (Key × ℕ)) → length (erase k m) ≤ length m
unfolding erase
length-erase k [] = omega arith
length-erase k (e ∷ m) = ground (arith, length-erase k m)

length-erase_found :
    (k : Key) (m : List (Key × ℕ))
    → is_some (lookup k m) ≡ true
    → suc (length (erase k m)) ≤ length m
unfolding erase lookup
length-erase_found k [] h = cc
length-erase_found k (e ∷ m) h = elim (Bool-cases (key_eq e.0 k)) [
  | inl same ↦ rw same (omega (arith, length-erase k m))
  | inr other ↦
      let found : is_some (lookup k m) ≡ true = ground (arith, h, other) in
      rw other (omega (arith, length-erase_found k m found))
]

abbrev FoundIn : List (Key × ℕ) → List (Key × ℕ) → Type 0
FoundIn n m = All (λ e. is_some (lookup e.0 n) ≡ true) m

-- Different keys that are all found in a list are at most as many as its entries.
length-DistinctKeys : (m n : List (Key × ℕ)) → DistinctKeys m → FoundIn n m → length m ≤ length n
length-DistinctKeys [] n d f = omega arith
length-DistinctKeys (e ∷ m) n d f =
    let rest : FoundIn (erase e.0 n) m = both m d.0 f.1 in
    omega (arith, length-DistinctKeys m (erase e.0 n) d.1 rest, length-erase_found e.0 n f.0)
  where
    both :
        (l : List (Key × ℕ))
        → All (λ x. key_eq e.0 x.0 ≡ false) l
        → FoundIn n l
        → FoundIn (erase e.0 n) l
    both [] a b = tt
    both (x ∷ l) a b = (ap is_some (lookup-erase e.0 x.0 n ∙ rw a.0 refl) ∙ b.0, both l a.1 b.1)

FoundIn-self :
    (m n : List (Key × ℕ))
    → DistinctKeys m
    → ((k : Key) → is_some (lookup k m) ≡ true → is_some (lookup k n) ≡ true)
    → FoundIn n m
unfolding lookup
FoundIn-self [] n d h = tt
FoundIn-self (e ∷ m) n d h = (
  h e.0 (rw (key_eq_refl e.0) refl),
  FoundIn-self m n d.1 (λ k f.
      h k (elim (Bool-cases (key_eq e.0 k)) [ inl same ↦ rw same refl | inr other ↦ rw other f ])),
)

module _ {D : (V : Type 0) → DenseMap V} where
  -- Every vertex of `g` is one of `h`.
  abbrev pub Grows : Graph D → Graph D → Type 0
  Grows g h = (k : Key) → has_vertex g k ≡ true → has_vertex h k ≡ true

  pub Grows-count : (g h : Graph D) → Grows g h → get_vertex_count g ≤ get_vertex_count h
  unfolding get_vertex_count has_vertex
  Grows-count g h up =
      let before = (D ℕ).items g.vertices in
      let after = (D ℕ).items h.vertices in
      let found : (k : Key) → is_some (lookup k before) ≡ true → is_some (lookup k after) ≡ true =
        λ k f.
          ap is_some (sym ((D ℕ).find-items h.vertices k))
          ∙ up k (ap is_some ((D ℕ).find-items g.vertices k) ∙ f) in
      let distinct = (D ℕ).items-distinct g.vertices in
      length-DistinctKeys before after distinct (FoundIn-self before after distinct found)

  pub increment_vertex_weight-Grows :
      (v : Key) (g : Graph D) → Grows g (increment_vertex_weight v g).0
  unfolding increment_vertex_weight has_vertex
  increment_vertex_weight-Grows v g k h =
      let weight = or_else 0 ((D ℕ).find g.vertices v) + 1 in
      ap is_some ((D ℕ).find-assign g.vertices v k weight)
      ∙ elim (Bool-cases (key_eq v k)) [ inl same ↦ rw same refl | inr other ↦ rw other h ]

  pub increment_edge_weight-Grows :
      (j v : Key) (g : Graph D) → Grows g (increment_edge_weight j v g).0
  unfolding increment_edge_weight has_vertex
  increment_edge_weight-Grows j v g k h = elim (Bool-cases (key_eq j v)) [
    | inl same ↦ rw same h
    | inr other ↦ rw other h
  ]
