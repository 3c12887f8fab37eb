-- ===== src/Hard/Start.antt =====
-- A new store is empty and satisfies the invariant.
use repart_kv.Common.{
  ℕ, zero, suc, ◌+◌, ◌<◌, ◌≡◌, refl, ap, ◌∙◌, Option, none, List, [], length, get_elem?,
}
use repart_kv.Key.{Key, Value}
use repart_kv.SortedMap.{lookup}
use repart_kv.Storage.{Backend, StorageEngine, Status, pending, success, not_found, error, found_or}
use repart_kv.Storage.Laws.{held}
use repart_kv.KeyStorage.{KeyStorage}
use repart_kv.Tracking.{Tracking}
use repart_kv.Hard.{Hard, create, engines, or_tmp}
use repart_kv.Hard.Invariant.{at_engine, view, Inv}
use repart_kv.Hard.Scans.{shown}
use repart_kv.Hard.Content.{content}
use repart_kv.Storage

length-engines :
    (B : Backend) (n i level : ℕ) (paths : List Value)
    → length (engines {B = B} n i level paths) ≡ n
unfolding engines
length-engines B zero i level paths = refl
length-engines B (suc n) i level paths = ap suc (length-engines B n (i + 1) level paths)

at_engine-create :
    (B : Backend) (k : Key) (level : ℕ) (path : Value)
    → held k (Storage.create {B = B} level path) ≡ none
unfolding Storage.create lookup
at_engine-create B k level path = ap (lookup k) (B.contents-create level path)

at_engine-engines :
    (B : Backend) (k : Key) (n i level q : ℕ) (paths : List Value)
    → at_engine k (get_elem? (engines {B = B} n i level paths) q) ≡ none
unfolding engines
at_engine-engines B k zero i level q paths = refl
at_engine-engines B k (suc n) i level zero paths = at_engine-create B k level _
at_engine-engines B k (suc n) i level (suc q) paths = at_engine-engines B k n (i + 1) level q paths

module _ (B : Backend) (P : KeyStorage ℕ) (T : Tracking) (n : ℕ)
    (tracking_duration repartition_interval : Option ℕ) (paths : List Value) where
  abbrev new_store : Hard B P T
  new_store = create n tracking_duration repartition_interval paths

  get-create : (k : Key) → P.get new_store.storage_map k ≡ none
  unfolding create lookup
  get-create k = P.get_lem new_store.storage_map k ∙ ap (lookup k) (P.entries-create _)

  -- With at least one partition the constructor establishes the invariant, on an empty content.
  pub create-Inv : 0 < n → Inv new_store × (content new_store ≡ [])
  unfolding create
  create-Inv h = (
    record {
      released = refl;
      nonempty = h;
      sized = length-engines B n 0 0 _;
      valid = P.create-IsValid _;
      mapped = λ k p e. absurd (cc (get-create k));
      stored = λ k p e. absurd (cc (get-create k));
      placed = λ k p v e. absurd (cc (at_engine-engines B k n 0 0 p (or_tmp paths)));
    },
    ap (shown (view new_store)) (P.entries-create _),
  )
