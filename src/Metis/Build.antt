-- ===== src/Metis/Build.antt =====
-- What the loops of `prepare_from_graph` append to the arrays.
use repart_kv.Common.{ℕ, suc, ◌+◌, ◌≡◌, refl, sym, ap, ◌∙◌, List, [], ◌∷◌, ◌++◌, map, arith, length}
use repart_kv.Key.{Key}
use mathlib.Core.List.{append_assoc, append-nil}
use repart_kv.Graph.{DenseMap, Graph}
use repart_kv.Metis.{MetisGraph, map_vertices, push_row, push_rows, row_of}

abbrev pub names {ℓ} : {V : Type ℓ} → List (Key × V) → List Key
names = map (λ e. e.0)

pub length-names {ℓ} : {V : Type ℓ} (m : List (Key × V)) → length (names m) ≡ length m
length-names [] = refl
length-names (e ∷ m) = ap suc (length-names m)

-- The entries of the rows in one array.
abbrev pub flat : (ℕ × ℕ → ℕ) → List (List (ℕ × ℕ)) → List ℕ
flat f [] = []
flat f (row ∷ rows) = map f row ++ flat f rows

-- Where each row ends, if the first starts at `start`.
abbrev pub ends : ℕ → List (List (ℕ × ℕ)) → List ℕ
ends start [] = []
ends start (row ∷ rows) = (start + length row) ∷ ends (start + length row) rows

module _ {D : (V : Type 0) → DenseMap V} where
  -- The parts that the loops over the edges leave alone.
  pub record SameVertices (m t : MetisGraph D) : Type 0 where
    pub nvtxs : t.nvtxs ≡ m.nvtxs
    pub vwgt : t.vwgt ≡ m.vwgt
    pub vertex_to_idx : t.vertex_to_idx ≡ m.vertex_to_idx
    pub idx_to_vertex : t.idx_to_vertex ≡ m.idx_to_vertex

  pub record Pushed (m t : MetisGraph D) (row : List (ℕ × ℕ)) : Type 0 where
    pub vertices : SameVertices m t
    pub xadj : t.xadj ≡ m.xadj
    pub adjncy : t.adjncy ≡ m.adjncy ++ map (λ e. e.0) row
    pub adjwgt : t.adjwgt ≡ m.adjwgt ++ map (λ e. e.1) row

  push_row_lem :
      (row : List (ℕ × ℕ)) (m : MetisGraph D) (c : ℕ)
      → Pushed m (push_row row m c).0 row × ((push_row row m c).1 ≡ c + length row)
  unfolding push_row
  push_row_lem [] m c = (
    record {
      vertices = record { nvtxs = refl; vwgt = refl; vertex_to_idx = refl; idx_to_vertex = refl };
      xadj = refl;
      adjncy = sym (append-nil m.adjncy);
      adjwgt = sym (append-nil m.adjwgt);
    },
    omega arith,
  )
  push_row_lem ((i, w) ∷ row) m c =
      let m₁ = record m { adjncy = m.adjncy ++ i ∷ []; adjwgt = m.adjwgt ++ w ∷ [] } in
      let (p, count) = push_row_lem row m₁ (c + 1) in
      (
        record {
          vertices = record {
            nvtxs = p.vertices.nvtxs;
            vwgt = p.vertices.vwgt;
            vertex_to_idx = p.vertices.vertex_to_idx;
            idx_to_vertex = p.vertices.idx_to_vertex;
          };
          xadj = p.xadj;
          adjncy = p.adjncy ∙ append_assoc m.adjncy (i ∷ []) _;
          adjwgt = p.adjwgt ∙ append_assoc m.adjwgt (w ∷ []) _;
        },
        omega (arith, count),
      )

  pub record Built (m t : MetisGraph D) (rows : List (List (ℕ × ℕ))) (c : ℕ) : Type 0 where
    pub vertices : SameVertices m t
    pub xadj : t.xadj ≡ m.xadj ++ ends c rows
    pub adjncy : t.adjncy ≡ m.adjncy ++ flat (λ e. e.0) rows
    pub adjwgt : t.adjwgt ≡ m.adjwgt ++ flat (λ e. e.1) rows

  pub push_rows_lem :
      (g : Graph D) (ns : List Key) (m : MetisGraph D) (c : ℕ)
      → Built m (push_rows g ns m c) (map (row_of g m.vertex_to_idx) ns) c
  unfolding push_rows
  push_rows_lem g [] m c = record {
    vertices = record { nvtxs = refl; vwgt = refl; vertex_to_idx = refl; idx_to_vertex = refl };
    xadj = sym (append-nil m.xadj);
    adjncy = sym (append-nil m.adjncy);
    adjwgt = sym (append-nil m.adjwgt);
  }
  push_rows_lem g (n ∷ ns) m c =
      let row = row_of g m.vertex_to_idx n in
      let (p, count) = push_row_lem row m c in
      let (m₁, c₁) = push_row row m c in
      let b = push_rows_lem g ns (record m₁ { xadj = m₁.xadj ++ c₁ ∷ [] }) c₁ in
      let same : map (row_of g m₁.vertex_to_idx) ns ≡ map (row_of g m.vertex_to_idx) ns =
        ap (λ v. map (row_of g v) ns) p.vertices.vertex_to_idx in
      record {
        vertices = record {
          nvtxs = b.vertices.nvtxs ∙ p.vertices.nvtxs;
          vwgt = b.vertices.vwgt ∙ p.vertices.vwgt;
          vertex_to_idx = b.vertices.vertex_to_idx ∙ p.vertices.vertex_to_idx;
          idx_to_vertex = b.vertices.idx_to_vertex ∙ p.vertices.idx_to_vertex;
        };
        xadj =
            b.xadj
            ∙ append_assoc m₁.xadj (c₁ ∷ []) _
            ∙ (λ i. p.xadj i ++ count i ∷ ends (count i) (same i));
        adjncy =
            b.adjncy
            ∙ (λ i. p.adjncy i ++ flat (λ e. e.0) (same i))
            ∙ append_assoc m.adjncy (map (λ e. e.0) row) _;
        adjwgt =
            b.adjwgt
            ∙ (λ i. p.adjwgt i ++ flat (λ e. e.1) (same i))
            ∙ append_assoc m.adjwgt (map (λ e. e.1) row) _;
      }

  pub record Mapped (m t : MetisGraph D) (vertices : List (Key × ℕ)) : Type 0 where
    pub nvtxs : t.nvtxs ≡ m.nvtxs + length vertices
    pub vwgt : t.vwgt ≡ m.vwgt ++ map (λ e. e.1) vertices
    pub idx_to_vertex : t.idx_to_vertex ≡ m.idx_to_vertex ++ names vertices
    pub adjncy : t.adjncy ≡ m.adjncy
    pub adjwgt : t.adjwgt ≡ m.adjwgt

  pub map_vertices_lem :
      (vertices : List (Key × ℕ)) (m : MetisGraph D) → Mapped m (map_vertices vertices m) vertices
  unfolding map_vertices
  map_vertices_lem [] m = record {
    nvtxs = omega arith;
    vwgt = sym (append-nil m.vwgt);
    idx_to_vertex = sym (append-nil m.idx_to_vertex);
    adjncy = refl;
    adjwgt = refl;
  }
  map_vertices_lem ((k, w) ∷ vertices) m =
      let t = map_vertices_lem vertices (record m {
        vertex_to_idx = (D ℕ).assign m.vertex_to_idx k m.nvtxs;
        idx_to_vertex = m.idx_to_vertex ++ k ∷ [];
        vwgt = m.vwgt ++ w ∷ [];
        nvtxs = m.nvtxs + 1;
      }) in
      record {
        nvtxs = omega (arith, t.nvtxs);
        vwgt = t.vwgt ∙ append_assoc m.vwgt (w ∷ []) _;
        idx_to_vertex = t.idx_to_vertex ∙ append_assoc m.idx_to_vertex (k ∷ []) _;
        adjncy = t.adjncy;
        adjwgt = t.adjwgt;
      }
