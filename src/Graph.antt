-- ===== src/Graph.antt =====
-- graph/Graph.h: the weighted graph of the accesses, over the hash map that it is built on
-- (`ankerl::unordered_dense::map`, a library outside the repository, hence a parameter).
pub mod Laws
pub mod Keys
pub mod Growth
use repart_kv.Common.{
  ℕ, ◌+◌, ◌≡◌, Bool, true, false, Option, none, some, List, [], ◌∷◌, ◌&&◌, ◌||◌, ◌/◌, not, map,
  length, if◌then◌else◌,
}
use repart_kv.Key.{Key, key_eq}
use repart_kv.SortedMap.{lookup}
use Keys.{DistinctKeys}

-- The operations of the map that the sources use, with the library's documented behaviour:
-- `assign` is `m[k] = v`, and `items` lists the entries in the order of iteration, each key once.
pub record DenseMap (V : Type 0) : Type 1 where
  pub Map : Type 0
  pub empty : Map
  pub find : Map → Key → Option V
  pub assign : Map → Key → V → Map
  pub items : Map → List (Key × V)
  pub find-empty : (k : Key) → find empty k ≡ none
  pub items-empty : items empty ≡ []
  pub find-assign :
      (m : Map) (k j : Key) (v : V)
      → find (assign m k v) j ≡ (if key_eq k j then some v else find m j)
  pub find-items : (m : Map) (k : Key) → find m k ≡ lookup k (items m)
  pub items-distinct : (m : Map) → DistinctKeys (items m)

-- `m[k]` with the default of a missing entry
abbrev pub or_else {ℓ} : {A : Type ℓ} → A → Option A → A
or_else d none = d
or_else d (some a) = a

abbrev pub is_some {ℓ} : {A : Type ℓ} → Option A → Bool
is_some none = false
is_some (some a) = true

module _ (D : (V : Type 0) → DenseMap V) where
  -- `unordered_dense::map<std::string, int>`; weights count tracked accesses and are taken to stay
  -- below the range of `int`.
  abbrev pub Weights : Type 0
  Weights = (D ℕ).Map

  pub record Graph : Type 0 where
    pub vertices : Weights
    pub edges : (D Weights).Map

-- The sum of `destinations.size()` over the rows.
unfoldable pub row_sizes : (D : (V : Type 0) → DenseMap V) → List (Key × Weights D) → ℕ
row_sizes D [] = 0
row_sizes D ((source, destinations) ∷ rows) = length ((D ℕ).items destinations) + row_sizes D rows

module _ {D : (V : Type 0) → DenseMap V} where
  unfoldable pub empty : Graph D
  empty = record { vertices = (D ℕ).empty; edges = (D (Weights D)).empty }

  -- `edges_[source]`
  abbrev pub row : Graph D → Key → Weights D
  row g source = or_else (D ℕ).empty ((D (Weights D)).find g.edges source)

  unfoldable pub increment_vertex_weight : Key → Graph D → Graph D × ℕ
  increment_vertex_weight vertex g =
      let weight = or_else 0 ((D ℕ).find g.vertices vertex) + 1 in
      (record g { vertices = (D ℕ).assign g.vertices vertex weight }, weight)

  -- `edges_[source][destination] = weight`
  abbrev pub set_edge : Key → Key → ℕ → Graph D → Graph D
  set_edge source destination weight g = record g {
    edges = (D (Weights D)).assign g.edges source ((D ℕ).assign (row g source) destination weight);
  }

  unfoldable pub increment_edge_weight : Key → Key → Graph D → Graph D × ℕ
  increment_edge_weight source destination g =
      let new_weight = or_else 0 ((D ℕ).find (row g source) destination) + 1 in
      let g₁ = set_edge source destination new_weight g in
      (
        if not (key_eq source destination) then set_edge destination source new_weight g₁ else g₁,
        new_weight,
      )

  unfoldable pub has_vertex : Graph D → Key → Bool
  has_vertex g vertex = is_some ((D ℕ).find g.vertices vertex)

  unfoldable pub increment_vertex_weight_if_exists : Key → Graph D → Graph D × ℕ
  increment_vertex_weight_if_exists vertex g = elim ((D ℕ).find g.vertices vertex) [
    | none ↦ (g, 0)
    | some weight ↦
        (record g { vertices = (D ℕ).assign g.vertices vertex (weight + 1) }, weight + 1)
  ]

  unfoldable pub increment_edge_weight_if_vertices_exist : Key → Key → Graph D → Graph D × ℕ
  unfolding has_vertex
  increment_edge_weight_if_vertices_exist source destination g =
      if not (has_vertex g source) || not (has_vertex g destination)
      then (g, 0)
      else increment_edge_weight source destination g

  unfoldable pub get_vertex_weight : Graph D → Key → ℕ
  get_vertex_weight g vertex = or_else 0 ((D ℕ).find g.vertices vertex)

  unfoldable pub get_edge_weight : Graph D → Key → Key → ℕ
  get_edge_weight g source destination = elim ((D (Weights D)).find g.edges source) [
    | none ↦ 0
    | some destinations ↦ or_else 0 ((D ℕ).find destinations destination)
  ]

  unfoldable pub has_edge : Graph D → Key → Key → Bool
  has_edge g source destination = elim ((D (Weights D)).find g.edges source) [
    | none ↦ false
    | some destinations ↦ is_some ((D ℕ).find destinations destination)
  ]

  unfoldable pub get_vertex_count : Graph D → ℕ
  get_vertex_count g = length ((D ℕ).items g.vertices)

  unfoldable pub get_edge_count : Graph D → ℕ
  get_edge_count g = row_sizes D ((D (Weights D)).items g.edges) / 2

  unfoldable pub clear : Graph D → Graph D
  unfolding empty
  clear g = empty
