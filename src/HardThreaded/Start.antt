-- ===== src/HardThreaded/Start.antt =====
-- The store as its constructor leaves it: no key, no value, and nothing waits.
use repart_kv.Common.{
  ℕ, zero, suc, ◌<◌, ◌≡◌, refl, sym, ap, ◌∙◌, Option, none, some, List, [], length, get_elem?,
  Bool-cases, inl, inr, length-replicate, replicate, ◌==◌, All, arith, ==_iff, get_elem?-lt, ◌+◌,
  All-map, ◌%◌, All-get_elem?,
}
use repart_kv.Key.{Key, Value}
use repart_kv.SortedMap.{lookup}
use repart_kv.Storage.{Backend, Status, found_or, not_found}
use repart_kv.Storage.Laws.{held}
use repart_kv.KeyStorage.{KeyStorage}
use repart_kv.Tracking.{Tracking}
use repart_kv.Hard.{or_tmp}
use repart_kv.HardWorker.{HardQueue, Engines}
use repart_kv.HardThreaded.{HardThreaded, create, new_engines}
use repart_kv.HardThreaded.Steps.{waiting_on}
use repart_kv.HardThreaded.Invariant.{queue_at, HardInv, engine_of}
use repart_kv.HardThreaded.Homes.{engine_at-some}
use repart_kv.Storage

module _ (B : Backend) where
  length-new_engines :
      (n i a level : ℕ) (paths : List Value) (engines : Engines B)
      → length (new_engines n i a level paths engines).0 ≡ n
  unfolding new_engines
  length-new_engines zero i a level paths engines = refl
  length-new_engines (suc n) i a level paths engines =
      ap suc (length-new_engines n (suc i) (suc a) level paths _)

  -- They are behind the old ones.
  below-new_engines :
      (n i a level : ℕ) (paths : List Value) (engines : Engines B)
      → All (λ e. e < a + n) (new_engines n i a level paths engines).0
  unfolding new_engines
  below-new_engines zero i a level paths engines = tt
  below-new_engines (suc n) i a level paths engines = (
    omega arith,
    All-map _ (λ e lt. omega (arith, lt)) (below-new_engines n (suc i) (suc a) level paths _),
  )

  pub old-new_engines :
      (n i a level : ℕ) (paths : List Value) (engines : Engines B) (x : ℕ)
      → x < a
      → (new_engines n i a level paths engines).1 x ≡ engines x
  unfolding new_engines
  old-new_engines zero i a level paths engines x lt = refl
  old-new_engines (suc n) i a level paths engines x lt =
      old-new_engines n (suc i) (suc a) level paths _ x (omega (arith, lt))
      ∙ elim (Bool-cases (x == a)) [
        | inl same ↦ absurd (ground (arith, (==_iff x a).0 same, lt))
        | inr other ↦ rw other refl
      ]

  -- New engines hold nothing.
  empty-new_engines :
      (n i a level : ℕ) (paths : List Value) (engines : Engines B)
      → ((x : ℕ) (k : Key) → held k (engines x) ≡ none)
      → (x : ℕ) (k : Key) → held k ((new_engines n i a level paths engines).1 x) ≡ none
  unfolding new_engines Storage.create lookup
  empty-new_engines zero i a level paths engines h = h
  empty-new_engines (suc n) i a level paths engines h =
      empty-new_engines n (suc i) (suc a) level paths _ λ x k. elim (Bool-cases (x == a)) [
        | inl new ↦ rw new (ap (lookup k) (B.contents-create level _))
        | inr old ↦ rw old (h x k)
      ]

module _ (B : Backend) (S P : KeyStorage ℕ) (T : Tracking) (n : ℕ) (duration interval : Option ℕ)
    (paths : List Value) where
  abbrev pub new_store : HardThreaded B S P T
  new_store = create n duration interval paths

  empty_heap : (x : ℕ) (k : Key) → held k (Storage.create {B = B} 0 []) ≡ none
  unfolding Storage.create lookup
  empty_heap x k = ap (lookup k) (B.contents-create 0 [])

  empty_start : (x : ℕ) (k : Key) → held k (new_store.engines x) ≡ none
  unfolding create
  empty_start = empty-new_engines B n 0 0 1 (or_tmp paths) (λ x. Storage.create 0 []) empty_heap

  pub no_engine : (k : Key) → S.get new_store.storage_map k ≡ none
  unfolding create lookup
  no_engine k = S.get_lem new_store.storage_map k ∙ ap (lookup k) (S.entries-create _)

  no_partition : (k : Key) → P.get new_store.partition_map k ≡ none
  unfolding create lookup
  no_partition k = P.get_lem new_store.partition_map k ∙ ap (lookup k) (P.entries-create _)

  same_queue : {p q : HardQueue} → some p ≡ some q → p ≡ q
  same_queue e = cc

  nothing_waits : (m w : ℕ) (q : HardQueue) → get_elem? (replicate m []) w ≡ some q → q ≡ []
  nothing_waits zero w q e = absurd (cc)
  nothing_waits (suc m) zero q e = sym (same_queue e)
  nothing_waits (suc m) (suc w) q e = nothing_waits m w q e

  pub nothing_at : (m w : ℕ) → queue_at (replicate m []) w ≡ []
  nothing_at zero w = refl
  nothing_at (suc m) zero = refl
  nothing_at (suc m) (suc w) = nothing_at m w

  engine_of-lt :
      (hash_func : Key → ℕ)
      → 0 < n
      → (k : Key) → engine_of hash_func new_store k < new_store.allocated
  unfolding create
  engine_of-lt hash_func pos k =
      let (e, there) = get_elem?-lt new_store.storages (hash_func k % n) (
        omega
          (arith, pos, length-new_engines B n 0 0 1 (or_tmp paths) (λ x. Storage.create 0 []))) in
      let below : e < n = omega (
        arith,
        All-get_elem? (λ e. e < 0 + n) new_store.storages (hash_func k % n) e
            (below-new_engines B n 0 0 1 (or_tmp paths) (λ x. Storage.create 0 [])) there,
      ) in
      rw (engine_at-some new_store.storages (hash_func k % n) e there) below

  pub create-HardInv : (hash_func : Key → ℕ) → 0 < n → HardInv hash_func new_store
  unfolding create
  create-HardInv hash_func pos = record {
    nonempty = pos;
    sized = length-replicate n [];
    engines = length-new_engines B n 0 0 1 (or_tmp paths) _;
    live = λ k. engine_of-lt hash_func pos k;
    storages = λ k e h. absurd (cc (no_engine k, h));
    partitions = λ k p h. absurd (cc (no_partition k, h));
    paired = λ k e h. absurd (cc (no_engine k, h));
    placed = λ w q e. rw (nothing_waits n w q e) tt;
    absent = λ k h. (empty_start _ k, ap (waiting_on k) (nothing_at n _));
  }
