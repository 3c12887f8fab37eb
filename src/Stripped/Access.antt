-- ===== src/Stripped/Access.antt =====
-- A read of the lock-stripping store returns the value of the key, and a write changes that of its
-- key only.
use repart_kv.Common.{
  ℕ, ◌%◌, ◌<◌, ◌≡◌, refl, ◌∙◌, Option, some, [], arith, ◌==◌, if◌then◌else◌, length, get_elem?, set,
  length-set, get_elem?-lt, true, Bool-cases, ap, inl, sym, ==_iff, inr, false,
}
use repart_kv.Common.Result.{ok, Returns}
use repart_kv.Key.{Key, Value, key_eq}
use repart_kv.Storage.{Backend, StorageEngine, Status, success, found_or}
use repart_kv.Storage.Laws.{held, read_result, write-status, held-read, held-write}
use repart_kv.Locks.{lock, unlock, lock_shared, unlock_shared}
use repart_kv.Hard.Invariant.{at_engine}
use repart_kv.Hard.Writes.{at_engine-set}
use repart_kv.Stripped.{Stripped, read_impl, write_impl}
use repart_kv.Key.Laws.{key_eq_iff}
use repart_kv.Storage

module _ {B : Backend} (hash_func : Key → ℕ) where
  -- The partition of a key.
  abbrev pub home : Stripped B → Key → ℕ
  home s k = hash_func k % s.partition_count

  -- The value of a key: what the engine of its partition holds.
  abbrev pub view : Stripped B → Key → Option Value
  view s k = at_engine k (get_elem? s.storages (home s k))

  -- No mutex is held between the calls, and every partition has its engine.
  pub record Inv (s : Stripped B) : Type 0 where
    pub released : s.held ≡ []
    pub nonempty : 0 < s.partition_count
    pub sized : length s.storages ≡ s.partition_count

  module _ (s : Stripped B) (key : Key) (value : Value) (i : Inv s) where
    home_range : home s key < s.partition_count
    home_range = omega (arith, i.nonempty)

    pub engine : (e : StorageEngine B) × (get_elem? s.storages (home s key) ≡ some e)
    engine = get_elem?-lt s.storages (home s key) (omega (arith, i.sized, home_range))

    -- The store with another engine for the key.
    abbrev pub with_engine : StorageEngine B → Stripped B
    with_engine e = record s { held = []; storages = set s.storages (home s key) e }

    with_engine-Inv : (e : StorageEngine B) → Inv (with_engine e)
    with_engine-Inv e = record {
      released = refl;
      nonempty = i.nonempty;
      sized = length-set s.storages (home s key) e ∙ i.sized;
    }

    view-with_engine :
        (e : StorageEngine B) (k : Key)
        → view (with_engine e) k ≡ (if home s key == home s k then held k e else view s k)
    view-with_engine e k =
        at_engine-set k s.storages (home s key) (home s k) e (omega (arith, i.sized, home_range))

    read_lem :
        (e : StorageEngine B)
        → get_elem? s.storages (home s key) ≡ some e
        → read_impl hash_func s key value
          ≡ ok (
            with_engine (Storage.read e key value).0,
            (Storage.read e key value).1,
            (Storage.read e key value).2,
          )
    unfolding read_impl lock_shared unlock_shared
    read_lem e he = ground (arith, i.released, home_range, he)

    pub write_lem :
        (e : StorageEngine B)
        → get_elem? s.storages (home s key) ≡ some e
        → write_impl hash_func s key value
          ≡ ok (with_engine (Storage.write e key value).0, (Storage.write e key value).1)
    unfolding write_impl lock unlock
    write_lem e he = ground (arith, i.released, home_range, he)

    -- Where the homes agree, the engine of the key is that of `k`.
    same_home :
        (e : StorageEngine B) (k : Key)
        → get_elem? s.storages (home s key) ≡ some e
        → (home s key == home s k) ≡ true
        → view s k ≡ held k e
    same_home e k he h =
        ap (at_engine k)
          (ap (get_elem? s.storages) (sym ((==_iff (home s key) (home s k)).0 h)) ∙ he)

    view-after_read :
        (e : StorageEngine B) (k : Key)
        → get_elem? s.storages (home s key) ≡ some e
        → view (with_engine (Storage.read e key value).0) k ≡ view s k
    view-after_read e k he = elim (Bool-cases (home s key == home s k)) [
      | inl h ↦
          view-with_engine (Storage.read e key value).0 k
          ∙ rw h (held-read e key k value ∙ sym (same_home e k he h))
      | inr h ↦ view-with_engine (Storage.read e key value).0 k ∙ rw h
    ]

    view-after_write :
        (e : StorageEngine B) (k : Key)
        → get_elem? s.storages (home s key) ≡ some e
        → view (with_engine (Storage.write e key value).0) k
          ≡ (if key_eq key k then some value else view s k)
    view-after_write e k he = elim (Bool-cases (home s key == home s k)) [
      | inl h ↦
          view-with_engine (Storage.write e key value).0 k
          ∙ rw h (
              held-write e key k value
              ∙ ap (λ o. if key_eq key k then some value else o) (sym (same_home e k he h)))
      | inr h ↦
          let other : key_eq key k ≡ false = elim (Bool-cases (key_eq key k)) [
            | inr no_match ↦ no_match
            | inl match ↦
                let same : home s key ≡ home s k = ap (home s) ((key_eq_iff key k).0 match) in
                absurd (ground (arith, h, same))
          ] in
          view-with_engine (Storage.write e key value).0 k ∙ rw (h, other)
    ]

    -- With an engine for each partition, a read of the lock-stripping store returns with the value
    -- of the key, or with `not_found` and the old contents of the parameter, and changes no value.
    pub read_impl-Returns : Returns (read_impl hash_func s key value) λ r.
        ((r.1, r.2) ≡ found_or value (view s key))
        × Inv r.0
        × ((k : Key) → view r.0 k ≡ view s k)
        × (r.0.partition_count ≡ s.partition_count)
    read_impl-Returns =
        let (e, he) = engine in
        rw (read_lem e he) (
          read_result e key value ∙ ap (found_or value) (sym (ap (at_engine key) he)),
          with_engine-Inv (Storage.read e key value).0,
          λ k. view-after_read e k he,
          refl,
        )

    -- With an engine for each partition, a write of the lock-stripping store returns with `success`;
    -- then its key has the value that was written, and every other key the value that it had.
    pub write_impl-Returns : Returns (write_impl hash_func s key value) λ r.
        (r.1 ≡ success)
        × Inv r.0
        × ((k : Key) → view r.0 k ≡ (if key_eq key k then some value else view s k))
        × (r.0.partition_count ≡ s.partition_count)
    write_impl-Returns =
        let (e, he) = engine in
        rw (write_lem e he) (
          write-status e key value,
          with_engine-Inv (Storage.write e key value).0,
          λ k. view-after_write e k he,
          refl,
        )
