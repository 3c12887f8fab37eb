-- ===== src/Metis.antt =====
-- graph/MetisGraph.h: the access graph in compressed rows, and its partitioning by METIS, a
-- library outside the repository, hence a parameter.
pub mod Build
pub mod Order
pub mod Indices
pub mod Rows
pub mod Partition
use repart_kv.Common.{
  ℕ, ◌+◌, ◌<◌, ◌≡◌, Bool, true, false, Option, none, some, List, [], ◌∷◌, ◌++◌, map, length, All,
  ltb, ◌==◌, ◌&&◌, ◌||◌, if◌then◌else◌, not,
}
use repart_kv.Common.Result.{Result, ok, err, runtime_error}
use repart_kv.Key.{Key}
use repart_kv.Storage.Map.{resize}
use repart_kv.Graph.{DenseMap, Graph, Weights}

-- `METIS_PartGraphKway` and `METIS_PartGraphRecursive`: from the number of vertices, of
-- constraints, the rows (`xadj`, `adjncy`), the weights (`vwgt`, `adjwgt`), the number of parts and
-- the array for the result, the return code and the array. As METIS documents, a successful call
-- fills the array of `nvtxs` entries with numbers of parts below `nparts`.
abbrev pub PartGraph : Type 0
PartGraph = ℕ → ℕ → List ℕ → List ℕ → List ℕ → List ℕ → ℕ → List ℕ → ℕ × List ℕ

abbrev pub IsPartGraph : ℕ → PartGraph → Type 0
IsPartGraph metis_ok f =
    (nvtxs ncon : ℕ) (xadj adjncy vwgt adjwgt : List ℕ) (nparts : ℕ) (part : List ℕ)
    → length part ≡ nvtxs
    → (f nvtxs ncon xadj adjncy vwgt adjwgt nparts part).0 ≡ metis_ok
    → (length (f nvtxs ncon xadj adjncy vwgt adjwgt nparts part).1 ≡ nvtxs)
      × All (λ p. p < nparts) (f nvtxs ncon xadj adjncy vwgt adjwgt nparts part).1

pub record Metis : Type 0 where
  pub metis_ok : ℕ
  pub part_graph_kway : PartGraph
  pub part_graph_recursive : PartGraph
  pub kway-IsPartGraph : IsPartGraph metis_ok part_graph_kway
  pub recursive-IsPartGraph : IsPartGraph metis_ok part_graph_recursive

pub record MetisGraph (D : (V : Type 0) → DenseMap V) : Type 0 where
  pub nvtxs : ℕ
  pub ncon : ℕ
  pub xadj : List ℕ
  pub adjncy : List ℕ
  pub vwgt : List ℕ
  pub adjwgt : List ℕ
  pub vertex_to_idx : Weights D
  pub idx_to_vertex : List Key
  pub prepared : Bool
  pub use_recursive_bisection : Bool
  pub part : List ℕ

-- `std::sort` of pairs, which compare lexicographically
abbrev pub pair_leb : ℕ × ℕ → ℕ × ℕ → Bool
pair_leb a b = ltb a.0 b.0 || a.0 == b.0 && (ltb a.1 b.1 || a.1 == b.1)

unfoldable pub insert_pair : ℕ × ℕ → List (ℕ × ℕ) → List (ℕ × ℕ)
insert_pair a [] = a ∷ []
insert_pair a (b ∷ bs) = if pair_leb a b then a ∷ b ∷ bs else b ∷ insert_pair a bs

unfoldable pub sort_pairs : List (ℕ × ℕ) → List (ℕ × ℕ)
unfolding insert_pair
sort_pairs [] = []
sort_pairs (a ∷ bs) = insert_pair a (sort_pairs bs)

-- The neighbours that are vertices, with the weights of the edges.
unfoldable pub neighbors :
    (D : (V : Type 0) → DenseMap V) → Weights D → List (Key × ℕ) → List (ℕ × ℕ)
neighbors D vertex_to_idx [] = []
neighbors D vertex_to_idx ((neighbor_name, edge_weight) ∷ row) =
    let rest = neighbors D vertex_to_idx row in
    elim ((D ℕ).find vertex_to_idx neighbor_name) [
      | some neighbor_idx ↦ (neighbor_idx, edge_weight) ∷ rest
      | none ↦ rest
    ]

module _ {D : (V : Type 0) → DenseMap V} where
  unfoldable pub new_metis_graph : MetisGraph D
  new_metis_graph = record {
    nvtxs = 0;
    ncon = 1;
    xadj = [];
    adjncy = [];
    vwgt = [];
    adjwgt = [];
    vertex_to_idx = (D ℕ).empty;
    idx_to_vertex = [];
    prepared = false;
    use_recursive_bisection = false;
    part = [];
  }

  -- The loop over the vertices.
  unfoldable pub map_vertices : List (Key × ℕ) → MetisGraph D → MetisGraph D
  map_vertices [] m = m
  map_vertices ((vertex_name, weight) ∷ vertices) m = map_vertices vertices (record m {
    vertex_to_idx = (D ℕ).assign m.vertex_to_idx vertex_name m.nvtxs;
    idx_to_vertex = m.idx_to_vertex ++ vertex_name ∷ [];
    vwgt = m.vwgt ++ weight ∷ [];
    nvtxs = m.nvtxs + 1;
  })

  -- The sorted neighbours of a vertex; a vertex without edges has none.
  unfoldable pub row_of : Graph D → Weights D → Key → List (ℕ × ℕ)
  unfolding neighbors sort_pairs
  row_of g vertex_to_idx vertex_name = elim ((D (Weights D)).find g.edges vertex_name) [
    | some destinations ↦ sort_pairs (neighbors D vertex_to_idx ((D ℕ).items destinations))
    | none ↦ []
  ]

  -- The innermost loop: the entries of a row go to the end of the arrays, and are counted.
  unfoldable pub push_row : List (ℕ × ℕ) → MetisGraph D → ℕ → MetisGraph D × ℕ
  push_row [] m edge_count = (m, edge_count)
  push_row ((neighbor_idx, edge_weight) ∷ row) m edge_count =
      push_row row
        (record m { adjncy = m.adjncy ++ neighbor_idx ∷ []; adjwgt = m.adjwgt ++ edge_weight ∷ [] })
        (edge_count + 1)

  -- The loop over the indices of the vertices, here over their names.
  unfoldable pub push_rows : Graph D → List Key → MetisGraph D → ℕ → MetisGraph D
  unfolding row_of push_row
  push_rows g [] m edge_count = m
  push_rows g (vertex_name ∷ names) m edge_count =
      let (m₁, edge_count₁) = push_row (row_of g m.vertex_to_idx vertex_name) m edge_count in
      push_rows g names (record m₁ { xadj = m₁.xadj ++ edge_count₁ ∷ [] }) edge_count₁

  unfoldable pub reset : MetisGraph D → MetisGraph D
  reset m = record m {
    vertex_to_idx = (D ℕ).empty;
    idx_to_vertex = [];
    xadj = [];
    adjncy = [];
    vwgt = [];
    adjwgt = [];
    nvtxs = 0;
  }

  -- `prepare_from_graph` on the entries of `get_vertices`: the new state, and whether it threw.
  unfoldable pub prepare_vertices :
      Graph D → MetisGraph D → List (Key × ℕ) → MetisGraph D × Result (Unit {0})
  unfolding reset map_vertices push_rows
  prepare_vertices g m [] = (m, err runtime_error)
  prepare_vertices g m (v ∷ vs) =
      let m₁ = map_vertices (v ∷ vs) (reset m) in
      let m₂ = push_rows g m₁.idx_to_vertex (record m₁ { xadj = 0 ∷ [] }) 0 in
      (record m₂ { ncon = 1; prepared = true }, ok tt)

  unfoldable pub prepare_from_graph : Graph D → MetisGraph D → MetisGraph D × Result (Unit {0})
  unfolding prepare_vertices
  prepare_from_graph g m = prepare_vertices g m ((D ℕ).items g.vertices)

  -- The call of METIS.
  unfoldable pub call_metis : Metis → ℕ → MetisGraph D → MetisGraph D × Result (Unit {0})
  call_metis lib nparts m =
      let call =
        if m.use_recursive_bisection then lib.part_graph_recursive else lib.part_graph_kway in
      let (ret, part) = call m.nvtxs m.ncon m.xadj m.adjncy m.vwgt m.adjwgt nparts m.part in
      (record m { part = part }, if ret == lib.metis_ok then ok tt else err runtime_error)

  unfoldable pub partition : Metis → ℕ → MetisGraph D → MetisGraph D × Result (Unit {0})
  unfolding call_metis
  partition lib num_partitions m =
      if not m.prepared
      then (m, err runtime_error)
      else if num_partitions == 0
      then (m, err runtime_error)
      else if ltb m.nvtxs num_partitions
      then (m, err runtime_error)
      else call_metis lib num_partitions (record m { part = resize 0 m.nvtxs m.part })
