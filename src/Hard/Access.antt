-- ===== src/Hard/Access.antt =====
-- A read returns the value of the key and changes no value; a write changes that of its key only.
use repart_kv.Common.{
  ℕ, ◌<◌, ◌≡◌, some, [], get_elem?, set, arith, Bool-cases, length-set, Option-cases, ◌==◌, inl,
  none, ap, refl, sym, ==_iff, inr, ◌∙◌, get_elem?-set, lt-get_elem?,
}
use repart_kv.Common.Result.{ok}
use repart_kv.Key.{Key, Value}
use repart_kv.Storage.{Backend, StorageEngine, Status, success, not_found, found_or}
use repart_kv.KeyStorage.{KeyStorage}
use repart_kv.Locks.{lock_shared, unlock_shared}
use repart_kv.Tracking.{Tracking}
use repart_kv.Common.Result.{Returns}
use repart_kv.Hard.{Hard, track, read_impl}
use repart_kv.Hard.Invariant.{
  released-Agrees, Agrees, Inv, at_engine, track-Agrees, view, Agrees-Inv, Agrees-view, engine_of,
}
use repart_kv.Storage.Laws.{held-read, read_result, held}
use repart_kv.Storage

module _ {B : Backend} {P : KeyStorage ℕ} {T : Tracking} where
  -- The state behind a read in the partition `p`.
  abbrev after_read : Hard B P T → ℕ → StorageEngine B → Key → Value → Hard B P T
  after_read s p e key value =
      track key (record s { held = []; storages = set s.storages p (Storage.read e key value).0 })

  read_missing :
      (s : Hard B P T) (key : Key) (value : Value)
      → s.held ≡ []
      → P.get s.storage_map key ≡ none
      → read_impl s key value ≡ ok (record s { held = [] }, not_found, value)
  unfolding read_impl lock_shared unlock_shared
  read_missing s key value free hp = ground arith

  read_found :
      (s : Hard B P T) (key : Key) (value : Value) (p : ℕ) (e : StorageEngine B)
      → s.held ≡ []
      → p < s.partition_count
      → P.get s.storage_map key ≡ some p
      → get_elem? s.storages p ≡ some e
      → read_impl s key value
        ≡ ok
            (after_read s p e key value, (Storage.read e key value).1, (Storage.read e key value).2)
  unfolding read_impl lock_shared unlock_shared
  read_found s key value p e free range hp he = ground arith

  at_engine-set :
      (s : Hard B P T) (p : ℕ) (e f : StorageEngine B)
      → get_elem? s.storages p ≡ some e
      → ((k : Key) → held k f ≡ held k e)
      → (k : Key) (q : ℕ)
      → at_engine k (get_elem? (set s.storages p f) q) ≡ at_engine k (get_elem? s.storages q)
  at_engine-set s p e f he same k q = elim (Bool-cases (p == q)) [
    | inl here ↦
        let at_p : get_elem? s.storages q ≡ some e =
          ap (get_elem? s.storages) (sym ((==_iff p q).0 here)) ∙ he in
        rw (get_elem?-set s.storages p q f (lt-get_elem? s.storages p e he), here, at_p) (same k)
    | inr there ↦ rw (get_elem?-set s.storages p q f (lt-get_elem? s.storages p e he), there)
  ]

  after_read-Agrees :
      (s : Hard B P T) (p : ℕ) (e : StorageEngine B) (key : Key) (value : Value)
      → get_elem? s.storages p ≡ some e
      → Agrees s (after_read s p e key value)
  after_read-Agrees s p e key value he = track-Agrees key (record {
    released = refl;
    count = refl;
    sized = length-set s.storages p _;
    maps = λ k. refl;
    valid = λ v. v;
    engines = at_engine-set s p e _ he (λ k. held-read e key k value);
  })

  -- Under the invariant a read returns, and its result is the value of the key in the view, with
  -- the status `not_found` and the old contents of the parameter for a key that is not there.
  -- The view stays as it was, and so does the invariant.
  pub read-view :
      (s : Hard B P T) (key : Key) (value : Value)
      → Inv s
      → Returns (read_impl s key value) λ r.
        ((r.1, r.2) ≡ found_or value (view s key))
        × Inv r.0
        × ((k : Key) → view r.0 k ≡ view s k)
        × (r.0.partition_count ≡ s.partition_count)
  read-view s key value i = elim (Option-cases (P.get s.storage_map key)) [
    | inl miss ↦
        rw (read_missing s key value i.released miss, miss)
          (refl, Agrees-Inv (released-Agrees s) i, Agrees-view (released-Agrees s), refl)
    | inr (p, hit) ↦
        let (e, he) = engine_of s i key p hit in
        let a = after_read-Agrees s p e key value he in
        rw (read_found s key value p e i.released (i.mapped key p hit) hit he, hit, he)
          (read_result e key value, Agrees-Inv a i, Agrees-view a, a.count)
  ]
