-- ===== src/Tracker/Growth.antt =====
-- A batch takes no vertex of the graph away.
use repart_kv.Common.{List, [], ◌∷◌}
use repart_kv.Key.{Key}
use repart_kv.Graph.{DenseMap, Graph, increment_vertex_weight, increment_edge_weight}
use repart_kv.Graph.Growth.{Grows, increment_vertex_weight-Grows, increment_edge_weight-Grows}
use repart_kv.Tracker.{apply_vertices, apply_edges_of, apply_edges, apply_keys}

module _ {D : (V : Type 0) → DenseMap V} where
  apply_vertices-Grows : (keys : List Key) (g : Graph D) → Grows g (apply_vertices keys g)
  unfolding apply_vertices
  apply_vertices-Grows [] g k h = h
  apply_vertices-Grows (v ∷ keys) g k h =
      apply_vertices-Grows keys (increment_vertex_weight v g).0 k
        (increment_vertex_weight-Grows v g k h)

  apply_edges_of-Grows :
      (v : Key) (keys : List Key) (g : Graph D) → Grows g (apply_edges_of v keys g)
  unfolding apply_edges_of
  apply_edges_of-Grows v [] g k h = h
  apply_edges_of-Grows v (j ∷ keys) g k h =
      apply_edges_of-Grows v keys (increment_edge_weight v j g).0 k
        (increment_edge_weight-Grows v j g k h)

  apply_edges-Grows : (keys : List Key) (g : Graph D) → Grows g (apply_edges keys g)
  unfolding apply_edges
  apply_edges-Grows [] g k h = h
  apply_edges-Grows (v ∷ keys) g k h =
      apply_edges-Grows keys (apply_edges_of v keys g) k (apply_edges_of-Grows v keys g k h)

  pub apply_keys-Grows : (keys : List Key) (g : Graph D) → Grows g (apply_keys keys g)
  unfolding apply_keys
  apply_keys-Grows [] g k h = h
  apply_keys-Grows (v ∷ []) g k h = increment_vertex_weight-Grows v g k h
  apply_keys-Grows (v ∷ j ∷ keys) g k h =
      apply_edges-Grows (v ∷ j ∷ keys) (apply_vertices (v ∷ j ∷ keys) g) k
        (apply_vertices-Grows (v ∷ j ∷ keys) g k h)
