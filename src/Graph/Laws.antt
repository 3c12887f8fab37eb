-- ===== src/Graph/Laws.antt =====
-- Each increment changes the weights that it names, by one, and keeps the graph symmetric.
use repart_kv.Common.{ℕ, ◌+◌, ◌≡◌, Bool, ◌&&◌, ◌||◌, arith, if◌then◌else◌}
use repart_kv.Key.{Key, key_eq}
use repart_kv.Key.Laws.{key_eq_iff}
use repart_kv.Graph.{
  DenseMap, Graph, Weights, or_else, row, set_edge, increment_vertex_weight, increment_edge_weight,
  get_vertex_weight, get_edge_weight,
}

module _ {D : (V : Type 0) → DenseMap V} (g : Graph D) where
  pub get_vertex_weight-increment_vertex_weight :
      (v w : Key)
      → get_vertex_weight (increment_vertex_weight v g).0 w
        ≡ (if key_eq v w then get_vertex_weight g v + 1 else get_vertex_weight g w)
  unfolding get_vertex_weight increment_vertex_weight
  get_vertex_weight-increment_vertex_weight v w =
      ground (arith, (D ℕ).find-assign g.vertices v w (or_else 0 ((D ℕ).find g.vertices v) + 1))

  get_edge_weight-set_edge :
      (s d a b : Key) (weight : ℕ)
      → get_edge_weight (set_edge s d weight g) a b
        ≡ (if key_eq s a && key_eq d b then weight else get_edge_weight g a b)
  unfolding get_edge_weight
  get_edge_weight-set_edge s d a b weight =
      let r = (D ℕ).assign (row g s) d weight in
      ground (
        arith,
        (D (Weights D)).find-assign g.edges s a r,
        (D ℕ).find-assign (row g s) d b weight,
        (D ℕ).find-empty b,
        key_eq_iff s a,
      )

-- `a` and `b` are the ends `s` and `d`, in either order.
abbrev pub joins : Key → Key → Key → Key → Bool
joins s d a b = key_eq s a && key_eq d b || key_eq d a && key_eq s b

module _ {D : (V : Type 0) → DenseMap V} (g : Graph D) where
  old_weight : (s d : Key) → or_else 0 ((D ℕ).find (row g s) d) ≡ get_edge_weight g s d
  unfolding get_edge_weight
  old_weight s d = ground (arith, (D ℕ).find-empty d)

  -- An increment of the edge between `s` and `d` sets both directions to the weight from `s` to
  -- `d` plus one, and changes no other edge.
  pub get_edge_weight-increment_edge_weight :
      (s d a b : Key)
      → get_edge_weight (increment_edge_weight s d g).0 a b
        ≡ (if joins s d a b then get_edge_weight g s d + 1 else get_edge_weight g a b)
  unfolding increment_edge_weight
  get_edge_weight-increment_edge_weight s d a b =
      let w = or_else 0 ((D ℕ).find (row g s) d) + 1 in
      ground (
        arith,
        old_weight s d,
        get_edge_weight-set_edge g s d a b w,
        get_edge_weight-set_edge (set_edge s d w g) d s a b w,
        key_eq_iff s d,
        key_eq_iff s a,
        key_eq_iff d b,
        key_eq_iff d a,
        key_eq_iff s b,
      )

-- Both directions of every edge have one weight, as METIS asks.
abbrev pub IsSymmetric : {D : (V : Type 0) → DenseMap V} → Graph D → Type 0
IsSymmetric g = (a b : Key) → get_edge_weight g a b ≡ get_edge_weight g b a

module _ {D : (V : Type 0) → DenseMap V} (g : Graph D) where
  -- An increment of an edge of a symmetric graph leaves the graph symmetric.
  pub increment_edge_weight-IsSymmetric :
      (s d : Key) → IsSymmetric g → IsSymmetric (increment_edge_weight s d g).0
  increment_edge_weight-IsSymmetric s d h a b = ground (
    arith,
    get_edge_weight-increment_edge_weight g s d a b,
    get_edge_weight-increment_edge_weight g s d b a,
    h a b,
  )
