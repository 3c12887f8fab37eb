-- ===== src/Metis/Indices.antt =====
-- The indices of the vertices, and the neighbours of a vertex under them.
use repart_kv.Common.{
  ℕ, zero, suc, ◌+◌, ◌≡◌, refl, sym, ap, ◌∙◌, false, Option, none, some, List, [], ◌∷◌, arith, All,
  ◌==◌, if◌then◌else◌, Bool-cases, Option-cases, inl, inr, ◌++◌, subst,
}
use repart_kv.Key.{Key, key_eq}
use repart_kv.Key.Laws.{key_eq_iff, key_eq_sym}
use repart_kv.SortedMap.{lookup}
use repart_kv.Graph.{DenseMap, Weights}
use repart_kv.Graph.Keys.{DistinctKeys}
use repart_kv.Metis.{MetisGraph, map_vertices, neighbors}
use repart_kv.Metis.Order.{weight_at, DistinctIndices}

-- The position of a vertex, counted from `i`.
abbrev pub index_from : ℕ → Key → List (Key × ℕ) → Option ℕ
index_from i k [] = none
index_from i k (e ∷ vertices) = if key_eq e.0 k then some i else index_from (suc i) k vertices

-- The name at a position.
abbrev pub name_at : List (Key × ℕ) → ℕ → Option Key
name_at [] j = none
name_at (e ∷ vertices) zero = some e.0
name_at (e ∷ vertices) (suc j) = name_at vertices j

index_from-lacks :
    (i : ℕ) (k : Key) (vertices : List (Key × ℕ))
    → All (λ d. key_eq k d.0 ≡ false) vertices
    → index_from i k vertices ≡ none
index_from-lacks i k [] h = refl
index_from-lacks i k (e ∷ vertices) h =
    rw (key_eq_sym e.0 k ∙ h.0) (index_from-lacks (suc i) k vertices h.1)

-- A position that is found has the name.
index_from-name_at :
    (i : ℕ) (k : Key) (vertices : List (Key × ℕ)) (j : ℕ)
    → index_from i k vertices ≡ some j
    → (d : ℕ) × (j ≡ i + d) × (name_at vertices d ≡ some k)
index_from-name_at i k [] j h = absurd (cc)
index_from-name_at i k (e ∷ vertices) j h = elim (Bool-cases (key_eq e.0 k)) [
  | inl same ↦ (0, ground (arith, h, same), ap some ((key_eq_iff e.0 k).0 same))
  | inr other ↦
      let (d, at, name) = index_from-name_at (suc i) k vertices j (ground (arith, h, other)) in
      (suc d, omega (arith, at), name)
]

-- A name of a vertex is found where it stands.
name_at-index_from :
    (i : ℕ) (k : Key) (vertices : List (Key × ℕ)) (d : ℕ)
    → DistinctKeys vertices
    → name_at vertices d ≡ some k
    → index_from i k vertices ≡ some (i + d)
name_at-index_from i k [] d u h = absurd (cc)
name_at-index_from i k (e ∷ vertices) zero u h =
    let same : e.0 ≡ k = cc in ground (arith, (key_eq_iff e.0 k).1 same)
name_at-index_from i k (e ∷ vertices) (suc d) u h = elim (Bool-cases (key_eq e.0 k)) [
  | inl same ↦
      let found = name_at-index_from (suc i) k vertices d u.1 h in
      let lost = index_from-lacks (suc i) e.0 vertices u.0 in
      let at : e.0 ≡ k = (key_eq_iff e.0 k).0 same in
      absurd (cc (found, ap (λ x. index_from (suc i) x vertices) at, lost))
  | inr other ↦
      let found = name_at-index_from (suc i) k vertices d u.1 h in ground (arith, found, other)
]

-- The weight of the edge to the vertex of a name, in a row of the graph.
abbrev pub weight_to : List (Key × ℕ) → Option Key → Option ℕ
weight_to row none = none
weight_to row (some k) = lookup k row

lookup-lacks :
    (k : Key) (row : List (Key × ℕ)) → All (λ d. key_eq k d.0 ≡ false) row → lookup k row ≡ none
unfolding lookup
lookup-lacks k [] h = refl
lookup-lacks k (e ∷ row) h = rw (key_eq_sym e.0 k ∙ h.0) (lookup-lacks k row h.1)

module _ {D : (V : Type 0) → DenseMap V} where
  find-map_vertices_lacks :
      (vertices : List (Key × ℕ)) (m : MetisGraph D) (k : Key)
      → All (λ d. key_eq k d.0 ≡ false) vertices
      → (D ℕ).find (map_vertices vertices m).vertex_to_idx k ≡ (D ℕ).find m.vertex_to_idx k
  unfolding map_vertices
  find-map_vertices_lacks [] m k h = refl
  find-map_vertices_lacks (e ∷ vertices) m k h =
      find-map_vertices_lacks vertices _ k h.1
      ∙ (D ℕ).find-assign m.vertex_to_idx e.0 k m.nvtxs
      ∙ rw (key_eq_sym e.0 k ∙ h.0) refl

  -- After the loop over the vertices each has its position, the first that of the counter.
  pub find-map_vertices :
      (vertices : List (Key × ℕ)) (m : MetisGraph D) (k : Key)
      → DistinctKeys vertices
      → (D ℕ).find m.vertex_to_idx k ≡ none
      → (D ℕ).find (map_vertices vertices m).vertex_to_idx k ≡ index_from m.nvtxs k vertices
  unfolding map_vertices
  find-map_vertices [] m k u h = h
  find-map_vertices (e ∷ vertices) m k u h =
      let m₁ : MetisGraph D = record m {
        vertex_to_idx = (D ℕ).assign m.vertex_to_idx e.0 m.nvtxs;
        idx_to_vertex = m.idx_to_vertex ++ e.0 ∷ [];
        vwgt = m.vwgt ++ e.1 ∷ [];
        nvtxs = m.nvtxs + 1;
      } in
      let assigned = (D ℕ).find-assign m.vertex_to_idx e.0 k m.nvtxs in
      elim (Bool-cases (key_eq e.0 k)) [
        | inl same ↦
            let at : e.0 ≡ k = (key_eq_iff e.0 k).0 same in
            find-map_vertices_lacks vertices m₁ k
              (subst (λ x. All (λ d. key_eq x d.0 ≡ false) vertices) at u.0)
            ∙ assigned
            ∙ rw same refl
        | inr other ↦
            let next : m.nvtxs + 1 ≡ suc m.nvtxs = omega arith in
            find-map_vertices vertices m₁ k u.1 (assigned ∙ rw other h)
            ∙ ap (λ i. index_from i k vertices) next
            ∙ rw other refl
      ]

module _ (D : (V : Type 0) → DenseMap V) (vertices : List (Key × ℕ)) (idx : Weights D)
    (u : DistinctKeys vertices)
    (placed : (k : Key) → (D ℕ).find idx k ≡ index_from 0 k vertices) where
  neighbors-unknown :
      (e : Key × ℕ) (row : List (Key × ℕ))
      → (D ℕ).find idx e.0 ≡ none
      → neighbors D idx (e ∷ row) ≡ neighbors D idx row
  unfolding neighbors
  neighbors-unknown e row h = rw (h, neighbors) refl

  neighbors-known :
      (e : Key × ℕ) (row : List (Key × ℕ)) (i : ℕ)
      → (D ℕ).find idx e.0 ≡ some i
      → neighbors D idx (e ∷ row) ≡ (i, e.1) ∷ neighbors D idx row
  unfolding neighbors
  neighbors-known e row i h = rw (h, neighbors) refl

  -- The vertex with an index that is found.
  known_name : (k : Key) (i : ℕ) → (D ℕ).find idx k ≡ some i → name_at vertices i ≡ some k
  known_name k i known =
      let (p, at, name) = index_from-name_at 0 k vertices i (sym (placed k) ∙ known) in
      ap (name_at vertices) (omega (arith, at)) ∙ name

  -- The index of a vertex is found.
  name_known : (k : Key) (j : ℕ) → name_at vertices j ≡ some k → (D ℕ).find idx k ≡ some j
  name_known k j name = placed k ∙ name_at-index_from 0 k vertices j u name ∙ ap some (omega arith)

  index_is_name :
      (e k : Key) (i j : ℕ)
      → (D ℕ).find idx e ≡ some i
      → name_at vertices j ≡ some k
      → (i == j) ≡ key_eq e k
  index_is_name e k i j known name = elim (Bool-cases (key_eq e k)) [
    | inl same ↦
        let at : e ≡ k = (key_eq_iff e k).0 same in
        let both : some i ≡ some j = sym known ∙ ap ((D ℕ).find idx) at ∙ name_known k j name in
        let index : i ≡ j = cc in ground (arith, index, same)
    | inr other ↦ elim (Bool-cases (i == j)) [
      | inr apart ↦ apart ∙ sym other
      | inl same ↦
          let index : i ≡ j = ground (arith, same) in
          let both : some e ≡ some k =
            sym (known_name e i known) ∙ ap (name_at vertices) index ∙ name in
          let at : e ≡ k = cc in absurd (cc ((key_eq_iff e k).1 at, other))
    ]
  ]

  -- The weight at an index is that of the edge to the vertex with this index.
  pub weight_at-neighbors :
      (row : List (Key × ℕ)) (j : ℕ)
      → weight_at j (neighbors D idx row) ≡ weight_to row (name_at vertices j)
  unfolding neighbors lookup
  weight_at-neighbors [] j = elim (Option-cases (name_at vertices j)) [
    | inl no_name ↦ rw no_name refl
    | inr (k, name) ↦ rw name refl
  ]
  weight_at-neighbors (e ∷ row) j =
      let rest = weight_at-neighbors row j in
      elim (Option-cases ((D ℕ).find idx e.0)) [
        | inl unknown ↦
            ap (weight_at j) (neighbors-unknown e row unknown)
            ∙ rest
            ∙ elim (Option-cases (name_at vertices j)) [
              | inl no_name ↦ rw no_name refl
              | inr (k, name) ↦
                  let apart : key_eq e.0 k ≡ false = elim (Bool-cases (key_eq e.0 k)) [
                    | inr other ↦ other
                    | inl same ↦
                        let at : e.0 ≡ k = (key_eq_iff e.0 k).0 same in
                        absurd (cc (unknown, at, name_known k j name))
                  ] in
                  rw (name, apart) refl
            ]
        | inr (i, known) ↦
            ap (weight_at j) (neighbors-known e row i known)
            ∙ elim (Option-cases (name_at vertices j)) [
              | inl no_name ↦
                  let apart : (i == j) ≡ false = elim (Bool-cases (i == j)) [
                    | inr other ↦ other
                    | inl same ↦
                        let index : i ≡ j = ground (arith, same) in
                        absurd (cc (known_name e.0 i known, index, no_name))
                  ] in
                  rw apart (rest ∙ rw no_name refl)
              | inr (k, name) ↦
                  rw (index_is_name e.0 k i j known name, name)
                    (ap (λ o. if key_eq e.0 k then some e.1 else o) (rest ∙ rw name refl))
            ]
      ]

  pub neighbors-DistinctIndices :
      (row : List (Key × ℕ)) → DistinctKeys row → DistinctIndices (neighbors D idx row)
  unfolding neighbors
  neighbors-DistinctIndices [] d = tt
  neighbors-DistinctIndices (e ∷ row) d =
      let rest = neighbors-DistinctIndices row d.1 in
      elim (Option-cases ((D ℕ).find idx e.0)) [
        | inl unknown ↦ subst DistinctIndices (sym (neighbors-unknown e row unknown)) rest
        | inr (i, known) ↦ subst DistinctIndices (sym (neighbors-known e row i known)) (
          weight_at-neighbors row i
              ∙ ap (weight_to row) (known_name e.0 i known)
              ∙ lookup-lacks e.0 row d.0,
          rest,
        )
      ]
