-- ===== src/KeyStorage.antt =====
-- keystorage/KeyStorage.h and KeyStorageIterator.h: the interface of the maps from keys to
-- partitions, which the partitioned stores take as a class parameter.
pub mod Map
pub mod Insert
use repart_kv.Common.{ℕ, ◌≡◌, Bool, true, false, Option, none, some, [], ◌∷◌, take, if◌then◌else◌}
use repart_kv.Key.{Key, Value, key_eq}
use repart_kv.SortedMap.{Entries, lookup, insert, lower_bound, IsSorted}
use repart_kv.SortedMap.Laws.{lookup-insert}

-- The methods, and that they behave as those of a map ordered by key. `get` returns `false` and
-- leaves its out parameter alone on a miss: `none`.
pub record KeyStorage (V : Type 0) : Type 1 where
  pub Store : Type 0
  pub Iterator : Type 0
  pub create : Value → Store
  pub get : Store → Key → Option V
  pub put : Store → Key → V → Store
  -- whether the key was there, and the value found or inserted
  pub get_or_insert : Store → Key → V → Store × Bool × V
  pub scan : Store → Key → ℕ → Entries V
  pub lower_bound_of : Store → Key → Iterator
  pub is_end : Iterator → Bool
  pub get_key : Iterator → Key
  pub get_value : Iterator → V
  pub next : Iterator → Iterator
  pub entries : Store → Entries V
  pub rest : Iterator → Entries V
  pub IsValid : Store → Type 0
  pub create-IsValid : (path : Value) → IsValid (create path)
  pub put-IsValid : (s : Store) (k : Key) (v : V) → IsValid s → IsValid (put s k v)
  pub entries-IsSorted : (s : Store) → IsValid s → IsSorted (entries s)
  pub entries-create : (path : Value) → entries (create path) ≡ []
  pub get_lem : (s : Store) (k : Key) → get s k ≡ lookup k (entries s)
  pub entries-put : (s : Store) (k : Key) (v : V) → entries (put s k v) ≡ insert k v (entries s)
  pub get_or_insert_old :
      (s : Store) (k : Key) (v w : V)
      → lookup k (entries s) ≡ some w
      → get_or_insert s k v ≡ (s, true, w)
  pub get_or_insert_new :
      (s : Store) (k : Key) (v : V)
      → lookup k (entries s) ≡ none
      → get_or_insert s k v ≡ (put s k v, false, v)
  pub scan_lem :
      (s : Store) (k : Key) (limit : ℕ) → scan s k limit ≡ take limit (lower_bound k (entries s))
  pub rest-lower_bound_of :
      (s : Store) (k : Key) → rest (lower_bound_of s k) ≡ lower_bound k (entries s)
  pub is_end_lem : (it : Iterator) → is_end it ≡ elim (rest it) [ [] ↦ true | e ∷ m ↦ false ]
  pub at_entry :
      (it : Iterator) (e : Key × V) (m : Entries V)
      → rest it ≡ e ∷ m
      → (get_key it ≡ e.0) × (get_value it ≡ e.1) × (rest (next it) ≡ m)

module _ {V : Type 0} (P : KeyStorage V) where
  -- The mapping after a `put`.
  pub get-put :
      (s : P.Store) (k j : Key) (v : V)
      → P.get (P.put s k v) j ≡ (if key_eq k j then some v else P.get s j)
  get-put s k j v =
      rw (P.get_lem (P.put s k v) j, P.entries-put s k v, P.get_lem s j)
        (lookup-insert k j v (P.entries s))
