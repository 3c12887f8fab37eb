-- ===== src/Metis/Rows.antt =====
-- What `prepare_from_graph` builds, told apart from how: the names, the weights and the indices of
-- the vertices, and for each vertex the edges to its neighbours, in the order of their indices.
use repart_kv.Common.{
  ℕ, ◌<◌, ◌≡◌, refl, sym, ap, ◌∙◌, true, Option, none, some, List, [], ◌∷◌, ◌++◌, map, arith,
  length, inl, inr, Option-cases, subst,
}
use repart_kv.Common.Result.{ok}
use repart_kv.Key.{Key}
use repart_kv.Graph.{DenseMap, Graph, Weights, row, or_else}
use repart_kv.Graph.Keys.{DistinctKeys}
use repart_kv.Metis.{
  MetisGraph, map_vertices, push_rows, row_of, neighbors, sort_pairs, prepare_vertices, reset,
  prepare_from_graph,
}
use repart_kv.Metis.Build.{names, length-names, flat, ends, push_rows_lem, map_vertices_lem}
use repart_kv.Metis.Order.{weight_at, IsRising, weight_at-sort_pairs, sort_pairs-IsRising}
use repart_kv.Metis.Indices.{
  index_from, name_at, weight_to, find-map_vertices, weight_at-neighbors, neighbors-DistinctIndices,
}

module _ {D : (V : Type 0) → DenseMap V} where
  -- The weight of the edge between two vertices, if there is one.
  abbrev pub edge_between : Graph D → Key → Option Key → Option ℕ
  edge_between g source none = none
  edge_between g source (some destination) = (D ℕ).find (row g source) destination

  -- A row has the edges from a vertex: at the index of a vertex the weight of the edge to it, at
  -- every other index none, and the indices rise.
  abbrev pub IsRow : Graph D → List (Key × ℕ) → Key → List (ℕ × ℕ) → Type 0
  IsRow g vertices source entries =
      IsRising entries
      × ((j : ℕ) → weight_at j entries ≡ edge_between g source (name_at vertices j))

  -- There is one row for each of the names.
  abbrev pub AreRows : Graph D → List (Key × ℕ) → List Key → List (List (ℕ × ℕ)) → Type 0
  AreRows g vertices [] [] = Unit
  AreRows g vertices [] (r ∷ rows) = ⊥
  AreRows g vertices (n ∷ ns) [] = ⊥
  AreRows g vertices (n ∷ ns) (r ∷ rows) = IsRow g vertices n r × AreRows g vertices ns rows

  -- What `m` holds is the graph `g`, with the entries `vertices`, in compressed rows.
  pub record Describes (g : Graph D) (vertices : List (Key × ℕ)) (m : MetisGraph D) : Type 0 where
    pub prepared : m.prepared ≡ true
    pub ncon : m.ncon ≡ 1
    pub nvtxs : m.nvtxs ≡ length m.idx_to_vertex
    pub idx_to_vertex : m.idx_to_vertex ≡ names vertices
    pub vertex_to_idx : (k : Key) → (D ℕ).find m.vertex_to_idx k ≡ index_from 0 k vertices
    pub vwgt : m.vwgt ≡ map (λ e. e.1) vertices
    pub rows : List (List (ℕ × ℕ))
    pub edges : AreRows g vertices (names vertices) rows
    pub xadj : m.xadj ≡ 0 ∷ ends 0 rows
    pub adjncy : m.adjncy ≡ flat (λ e. e.0) rows
    pub adjwgt : m.adjwgt ≡ flat (λ e. e.1) rows

  module _ (g : Graph D) (vertices : List (Key × ℕ)) (idx : Weights D) (u : DistinctKeys vertices)
      (placed : (k : Key) → (D ℕ).find idx k ≡ index_from 0 k vertices) where
    no_edges :
        (source : Key) (o : Option Key)
        → (D (Weights D)).find g.edges source ≡ none
        → none ≡ edge_between g source o
    no_edges source none h = refl
    no_edges source (some k) h =
        sym ((D ℕ).find-empty k) ∙ sym (ap (λ r. (D ℕ).find (or_else (D ℕ).empty r) k) h)

    some_edges :
        (source : Key) (destinations : Weights D) (o : Option Key)
        → (D (Weights D)).find g.edges source ≡ some destinations
        → weight_to ((D ℕ).items destinations) o ≡ edge_between g source o
    some_edges source destinations none h = refl
    some_edges source destinations (some k) h =
        sym ((D ℕ).find-items destinations k)
        ∙ sym (ap (λ r. (D ℕ).find (or_else (D ℕ).empty r) k) h)

    row_of-IsRow : (source : Key) → IsRow g vertices source (row_of g idx source)
    unfolding row_of
    row_of-IsRow source = elim (Option-cases ((D (Weights D)).find g.edges source)) [
      | inl no_row ↦
          let same : row_of g idx source ≡ [] = rw (no_row, row_of) refl in
          subst (IsRow g vertices source) (sym same)
            (tt, λ j. no_edges source (name_at vertices j) no_row)
      | inr (destinations, found) ↦
          let items = (D ℕ).items destinations in
          let distinct =
            neighbors-DistinctIndices D vertices idx u placed items
              ((D ℕ).items-distinct destinations) in
          let same : row_of g idx source ≡ sort_pairs (neighbors D idx items) =
            rw (found, row_of) refl in
          subst (IsRow g vertices source) (sym same) (
            sort_pairs-IsRising (neighbors D idx items) distinct,
            λ j.
                weight_at-sort_pairs j (neighbors D idx items) distinct
                ∙ weight_at-neighbors D vertices idx u placed items j
                ∙ some_edges source destinations (name_at vertices j) found,
          )
    ]

    rows-AreRows : (ns : List Key) → AreRows g vertices ns (map (row_of g idx) ns)
    rows-AreRows [] = tt
    rows-AreRows (n ∷ ns) = (row_of-IsRow n, rows-AreRows ns)

  prepare_vertices-Describes :
      (g : Graph D) (m : MetisGraph D) (vertices : List (Key × ℕ))
      → 0 < length vertices
      → DistinctKeys vertices
      → ((prepare_vertices g m vertices).1 ≡ ok tt)
        × Describes g vertices (prepare_vertices g m vertices).0
  unfolding prepare_vertices reset
  prepare_vertices-Describes g m [] filled u = absurd (omega (arith, filled))
  prepare_vertices-Describes g m (v ∷ vs) filled u =
      let m₁ = map_vertices (v ∷ vs) (reset m) in
      let p = map_vertices_lem (v ∷ vs) (reset m) in
      let b = push_rows_lem g m₁.idx_to_vertex (record m₁ { xadj = 0 ∷ [] }) 0 in
      let m₂ = push_rows g m₁.idx_to_vertex (record m₁ { xadj = 0 ∷ [] }) 0 in
      let placed : (k : Key) → (D ℕ).find m₁.vertex_to_idx k ≡ index_from 0 k (v ∷ vs) =
        λ k. find-map_vertices (v ∷ vs) (reset m) k u ((D ℕ).find-empty k) in
      let rows = map (row_of g m₁.vertex_to_idx) (names (v ∷ vs)) in
      let same : map (row_of g m₁.vertex_to_idx) m₁.idx_to_vertex ≡ rows =
        ap (map (row_of g m₁.vertex_to_idx)) p.idx_to_vertex in
      let counted : length m₂.idx_to_vertex ≡ length (v ∷ vs) =
        ap length (b.vertices.idx_to_vertex ∙ p.idx_to_vertex) ∙ length-names (v ∷ vs) in
      (
        refl,
        record {
          prepared = refl;
          ncon = refl;
          nvtxs = omega (arith, b.vertices.nvtxs, p.nvtxs, counted);
          idx_to_vertex = b.vertices.idx_to_vertex ∙ p.idx_to_vertex;
          vertex_to_idx = λ k. ap (λ t. (D ℕ).find t k) b.vertices.vertex_to_idx ∙ placed k;
          vwgt = b.vertices.vwgt ∙ p.vwgt;
          rows = rows;
          edges = rows-AreRows g (v ∷ vs) m₁.vertex_to_idx u placed (names (v ∷ vs));
          xadj = b.xadj ∙ ap (λ rows. 0 ∷ ends 0 rows) same;
          adjncy = b.adjncy ∙ (λ i. p.adjncy i ++ flat (λ e. e.0) (same i));
          adjwgt = b.adjwgt ∙ (λ i. p.adjwgt i ++ flat (λ e. e.1) (same i));
        },
      )

  -- On a graph with a vertex `prepare_from_graph` does not throw, and what it leaves is the graph:
  -- the names and the weights of the vertices in the order of iteration, the index of each vertex
  -- and of no other key, and one row for each vertex, in this order, between two offsets. The
  -- indices in a row rise strictly, and a row has at the index of a vertex the weight of the edge
  -- to it, and no other entry.
  pub prepare_from_graph-Describes :
      (g : Graph D) (m : MetisGraph D)
      → 0 < length ((D ℕ).items g.vertices)
      → ((prepare_from_graph g m).1 ≡ ok tt)
        × Describes g ((D ℕ).items g.vertices) (prepare_from_graph g m).0
  unfolding prepare_from_graph
  prepare_from_graph-Describes g m filled =
      prepare_vertices-Describes g m ((D ℕ).items g.vertices) filled
        ((D ℕ).items-distinct g.vertices)
