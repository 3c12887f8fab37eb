-- ===== src/Tracker/Weights.antt =====
-- What a batch of keys adds to the weights of the vertices and of the edges.
use repart_kv.Common.{
  ℕ, ◌+◌, ◌≡◌, false, List, [], ◌∷◌, arith, if◌then◌else◌, refl, ◌*◌, ◌∙◌, sym, ap,
}
use repart_kv.Key.{Key, key_eq}
use repart_kv.Key.Laws.{key_eq_iff}
use repart_kv.Graph.{
  DenseMap, Graph, get_vertex_weight, get_edge_weight, increment_vertex_weight,
  increment_edge_weight,
}
use repart_kv.Graph.Laws.{
  get_vertex_weight-increment_vertex_weight, get_edge_weight-increment_edge_weight, IsSymmetric,
  increment_edge_weight-IsSymmetric,
}
use repart_kv.Tracker.{apply_vertices, apply_edges_of, apply_edges, apply_keys}

mul_suc_left : (a b : ℕ) → (a + 1) * b ≡ a * b + b
mul_suc_left a b = omega arith

mul_suc_right : (a b : ℕ) → a * (b + 1) ≡ a * b + a
mul_suc_right a b = omega arith

-- How often a key occurs in a batch.
abbrev pub occurrences : Key → List Key → ℕ
occurrences a [] = 0
occurrences a (k ∷ keys) = if key_eq k a then occurrences a keys + 1 else occurrences a keys

module _ {D : (V : Type 0) → DenseMap V} where
  get_vertex_weight-apply_vertices :
      (keys : List Key) (g : Graph D) (a : Key)
      → get_vertex_weight (apply_vertices keys g) a ≡ get_vertex_weight g a + occurrences a keys
  unfolding apply_vertices
  get_vertex_weight-apply_vertices [] g a = omega arith
  get_vertex_weight-apply_vertices (k ∷ keys) g a = ground (
    arith,
    get_vertex_weight-apply_vertices keys (increment_vertex_weight k g).0 a,
    get_vertex_weight-increment_vertex_weight g k a,
    key_eq_iff k a,
  )

  edge_weight-vertex :
      (g : Graph D) (k a b : Key)
      → get_edge_weight (increment_vertex_weight k g).0 a b ≡ get_edge_weight g a b
  unfolding get_edge_weight increment_vertex_weight
  edge_weight-vertex g k a b = refl

  vertex_weight-edge :
      (g : Graph D) (k j a : Key)
      → get_vertex_weight (increment_edge_weight k j g).0 a ≡ get_vertex_weight g a
  unfolding get_vertex_weight increment_edge_weight
  vertex_weight-edge g k j a = ground arith

  get_edge_weight-apply_edges_of :
      (k : Key) (rest : List Key) (g : Graph D) (a b : Key)
      → IsSymmetric g
      → key_eq a b ≡ false
      → get_edge_weight (apply_edges_of k rest g) a b
        ≡ get_edge_weight g a b
          + (if key_eq k a then occurrences b rest else 0)
          + (if key_eq k b then occurrences a rest else 0)
  unfolding apply_edges_of
  get_edge_weight-apply_edges_of k [] g a b h ne = ground arith
  get_edge_weight-apply_edges_of k (j ∷ rest) g a b h ne = ground (
    arith,
    ne,
    h a b,
    key_eq_iff k a,
    key_eq_iff k b,
    key_eq_iff j a,
    key_eq_iff j b,
    key_eq_iff a b,
    get_edge_weight-increment_edge_weight g k j a b,
    get_edge_weight-apply_edges_of k rest (increment_edge_weight k j g).0 a b
        (increment_edge_weight-IsSymmetric g k j h) ne,
  )

  apply_edges_of-IsSymmetric :
      (k : Key) (rest : List Key) (g : Graph D)
      → IsSymmetric g
      → IsSymmetric (apply_edges_of k rest g)
  unfolding apply_edges_of
  apply_edges_of-IsSymmetric k [] g h = h
  apply_edges_of-IsSymmetric k (j ∷ rest) g h =
      apply_edges_of-IsSymmetric k rest (increment_edge_weight k j g).0
        (increment_edge_weight-IsSymmetric g k j h)

  apply_edges-IsSymmetric :
      (keys : List Key) (g : Graph D) → IsSymmetric g → IsSymmetric (apply_edges keys g)
  unfolding apply_edges
  apply_edges-IsSymmetric [] g h = h
  apply_edges-IsSymmetric (k ∷ keys) g h =
      apply_edges-IsSymmetric keys (apply_edges_of k keys g) (apply_edges_of-IsSymmetric k keys g h)

  get_edge_weight-apply_edges :
      (keys : List Key) (g : Graph D) (a b : Key)
      → IsSymmetric g
      → key_eq a b ≡ false
      → get_edge_weight (apply_edges keys g) a b
        ≡ get_edge_weight g a b + occurrences a keys * occurrences b keys
  unfolding apply_edges
  get_edge_weight-apply_edges [] g a b h ne = omega arith
  get_edge_weight-apply_edges (k ∷ keys) g a b h ne = ground (
    arith,
    ne,
    mul_suc_left (occurrences a keys) (occurrences b keys),
    mul_suc_right (occurrences a keys) (occurrences b keys),
    key_eq_iff k a,
    key_eq_iff k b,
    key_eq_iff a b,
    get_edge_weight-apply_edges_of k keys g a b h ne,
    get_edge_weight-apply_edges keys (apply_edges_of k keys g) a b
        (apply_edges_of-IsSymmetric k keys g h) ne,
  )

  vertex_weight-edges_of :
      (k : Key) (rest : List Key) (g : Graph D) (a : Key)
      → get_vertex_weight (apply_edges_of k rest g) a ≡ get_vertex_weight g a
  unfolding apply_edges_of
  vertex_weight-edges_of k [] g a = refl
  vertex_weight-edges_of k (j ∷ rest) g a =
      vertex_weight-edges_of k rest (increment_edge_weight k j g).0 a ∙ vertex_weight-edge g k j a

  vertex_weight-edges :
      (keys : List Key) (g : Graph D) (a : Key)
      → get_vertex_weight (apply_edges keys g) a ≡ get_vertex_weight g a
  unfolding apply_edges
  vertex_weight-edges [] g a = refl
  vertex_weight-edges (k ∷ keys) g a =
      vertex_weight-edges keys (apply_edges_of k keys g) a ∙ vertex_weight-edges_of k keys g a

  edge_weight-vertices :
      (keys : List Key) (g : Graph D) (a b : Key)
      → get_edge_weight (apply_vertices keys g) a b ≡ get_edge_weight g a b
  unfolding apply_vertices
  edge_weight-vertices [] g a b = refl
  edge_weight-vertices (k ∷ keys) g a b =
      edge_weight-vertices keys (increment_vertex_weight k g).0 a b ∙ edge_weight-vertex g k a b

  apply_vertices-IsSymmetric :
      (keys : List Key) (g : Graph D) → IsSymmetric g → IsSymmetric (apply_vertices keys g)
  apply_vertices-IsSymmetric keys g h a b =
      edge_weight-vertices keys g a b ∙ h a b ∙ sym (edge_weight-vertices keys g b a)

  -- A batch adds to the weight of each vertex how often the key occurs in it.
  pub get_vertex_weight-apply_keys :
      (keys : List Key) (g : Graph D) (a : Key)
      → get_vertex_weight (apply_keys keys g) a ≡ get_vertex_weight g a + occurrences a keys
  unfolding apply_keys
  get_vertex_weight-apply_keys [] g a = omega arith
  get_vertex_weight-apply_keys (k ∷ []) g a =
      ground (arith, get_vertex_weight-increment_vertex_weight g k a, key_eq_iff k a)
  get_vertex_weight-apply_keys (k ∷ j ∷ keys) g a =
      vertex_weight-edges (k ∷ j ∷ keys) (apply_vertices (k ∷ j ∷ keys) g) a
      ∙ get_vertex_weight-apply_vertices (k ∷ j ∷ keys) g a

  -- A batch adds to the weight of the edge between two different keys of a symmetric graph the
  -- number of pairs of positions at which the two occur, and leaves the graph symmetric.
  pub get_edge_weight-apply_keys :
      (keys : List Key) (g : Graph D)
      → IsSymmetric g
      → IsSymmetric (apply_keys keys g)
        × ((a b : Key)
            → key_eq a b ≡ false
            → get_edge_weight (apply_keys keys g) a b
              ≡ get_edge_weight g a b + occurrences a keys * occurrences b keys)
  unfolding apply_keys
  get_edge_weight-apply_keys [] g h = (h, λ a b ne. omega arith)
  get_edge_weight-apply_keys (k ∷ []) g h = (
    λ a b. edge_weight-vertex g k a b ∙ h a b ∙ sym (edge_weight-vertex g k b a),
    λ a b ne.
        ground
          (arith, edge_weight-vertex g k a b, key_eq_iff k a, key_eq_iff k b, ne, key_eq_iff a b),
  )
  get_edge_weight-apply_keys (k ∷ j ∷ keys) g h =
      let g₁ = apply_vertices (k ∷ j ∷ keys) g in
      let h₁ = apply_vertices-IsSymmetric (k ∷ j ∷ keys) g h in
      (
        apply_edges-IsSymmetric (k ∷ j ∷ keys) g₁ h₁,
        λ a b ne.
            get_edge_weight-apply_edges (k ∷ j ∷ keys) g₁ a b h₁ ne
            ∙ ap (λ w. w + occurrences a (k ∷ j ∷ keys) * occurrences b (k ∷ j ∷ keys))
                (edge_weight-vertices (k ∷ j ∷ keys) g a b),
      )
