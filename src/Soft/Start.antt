-- ===== src/Soft/Start.antt =====
-- A new soft store holds nothing.
use repart_kv.Common.{ℕ, ◌<◌, ◌≡◌, refl, ap, ◌∙◌, Option, none, List}
use repart_kv.Key.{Key, Value}
use repart_kv.SortedMap.{lookup}
use repart_kv.Storage.{Backend}
use repart_kv.KeyStorage.{KeyStorage}
use repart_kv.Tracking.{Tracking}
use repart_kv.Soft.{Soft, create}
use repart_kv.Soft.Access.{Inv, view}
use repart_kv.Storage

module _ (B : Backend) (P : KeyStorage ℕ) (T : Tracking) (n : ℕ)
    (tracking_duration repartition_interval : Option ℕ) (paths : List Value) where
  abbrev new_store : Soft B P T
  new_store = create n tracking_duration repartition_interval paths

  get-create : (k : Key) → P.get new_store.partition_map k ≡ none
  unfolding create lookup
  get-create k = P.get_lem new_store.partition_map k ∙ ap (lookup k) (P.entries-create _)

  view-create : (k : Key) → view new_store k ≡ none
  unfolding create Storage.create lookup
  view-create k = ap (lookup k) (B.contents-create 0 _)

  -- With at least one partition the constructor of the soft store establishes the invariant, and
  -- no key has a value.
  pub create-Empty : 0 < n → Inv new_store × ((k : Key) → view new_store k ≡ none)
  unfolding create
  create-Empty h = (
    record {
      released = refl;
      nonempty = h;
      valid = P.create-IsValid _;
      mapped = λ k p e. absurd (cc (get-create k));
      placed = λ k v e. absurd (cc (view-create k));
    },
    view-create,
  )
