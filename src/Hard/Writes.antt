-- ===== src/Hard/Writes.antt =====
-- A write gives its key its value, in the partition that the key has or that its hash gives it,
-- and changes no other key.
use repart_kv.Common.{
  ℕ, ◌%◌, ◌<◌, ◌≡◌, refl, ap, ◌∙◌, inl, inr, true, false, Option, none, some, List, [], ◌∷◌, arith,
  ◌==◌, if◌then◌else◌, ==_iff, ==_refl, Bool-cases, Option-cases, length, get_elem?, set,
  length-set, get_elem?-lt, lt-get_elem?, get_elem?-set,
}
use repart_kv.Common.Result.{ok}
use repart_kv.Key.{Key, Value, key_eq}
use repart_kv.Key.Laws.{key_eq_iff}
use repart_kv.Storage.{Backend, StorageEngine, Status, pending, success, not_found, error, found_or}
use repart_kv.Storage.Laws.{held, held-write, write-status}
use repart_kv.KeyStorage.{KeyStorage, get-put}
use repart_kv.Locks.{key_map, exclusive, lock, unlock}
use repart_kv.Tracking.{Tracking}
use repart_kv.Common.Result.{Returns}
use repart_kv.Hard.{Hard, track, write_at, write_impl}
use repart_kv.Hard.Invariant.{
  at_engine, at_partition, view, Inv, Agrees-view, Agrees-Inv, track-Agrees, Agrees-refl,
}
use repart_kv.Storage

pub at_engine-set :
    {B : Backend} (k : Key) (xs : List (StorageEngine B)) (p q : ℕ) (f : StorageEngine B)
    → p < length xs
    → at_engine k (get_elem? (set xs p f) q)
      ≡ (if p == q then held k f else at_engine k (get_elem? xs q))
at_engine-set k xs p q f h = elim (Bool-cases (p == q)) [
  | inl here ↦ rw (get_elem?-set xs p q f h, here)
  | inr there ↦ rw (get_elem?-set xs p q f h, there)
]

module _ {B : Backend} {P : KeyStorage ℕ} {T : Tracking} where
  -- The state behind a write in the partition `p`, for the mapping `m`.
  abbrev after_write : Hard B P T → P.Store → ℕ → StorageEngine B → Key → Value → Hard B P T
  after_write s m p e key value = record s {
    held = [];
    storage_map = m;
    storages = set s.storages p (Storage.write e key value).0;
  }

  module _ (s : Hard B P T) (m : P.Store) (p : ℕ) (e : StorageEngine B) (key : Key) (value : Value)
      (i : Inv s) (range : p < s.partition_count) (he : get_elem? s.storages p ≡ some e)
      (maps : (j : Key) → P.get m j ≡ (if key_eq key j then some p else P.get s.storage_map j))
      (only : (k : Key) (q : ℕ) (v : Value)
        → key_eq key k ≡ true
        → at_engine k (get_elem? s.storages q) ≡ some v
        → q ≡ p)
      (valid : P.IsValid m) where
    engines_after :
        (k : Key) (q : ℕ)
        → at_engine k (get_elem? (after_write s m p e key value).storages q) ≡ (
            if p == q
            then (if key_eq key k then some value else at_engine k (get_elem? s.storages p))
            else at_engine k (get_elem? s.storages q))
    engines_after k q = rw (
      at_engine-set k s.storages p q (Storage.write e key value).0 (lt-get_elem? s.storages p e he),
      held-write e key k value,
      he,
    )

    view_after :
        (k : Key)
        → view (after_write s m p e key value) k ≡ (if key_eq key k then some value else view s k)
    view_after k = elim (Bool-cases (key_eq key k)) [
      | inl same ↦ rw (maps k, same) (engines_after k p ∙ rw (==_refl p, same))
      | inr other ↦ rw (maps k, other) (unchanged other (P.get s.storage_map k))
    ]
      where
        unchanged :
            key_eq key k ≡ false
            → (o : Option ℕ) → at_partition (after_write s m p e key value) k o ≡ at_partition s k o
        unchanged other none = refl
        unchanged other (some q) = engines_after k q ∙ (elim (Bool-cases (p == q)) [
          | inl here ↦
              rw (here, other)
                (ap (λ r. at_engine k (get_elem? s.storages r)) ((==_iff p q).0 here))
          | inr there ↦ rw there
        ])

    -- Where a mapped key's value is after the write.
    stored_after :
        (k : Key) (q : ℕ)
        → P.get m k ≡ some q
        → (v : Value) × (at_engine k (get_elem? (after_write s m p e key value).storages q)
            ≡ some v)
    stored_after k q h = elim (Bool-cases (key_eq key k)) [
      | inl same ↦ (value, engines_after k q ∙ ground (arith, maps k))
      | inr other ↦
          let (v, ev) = i.stored k q (ground (arith, maps k)) in
          (v, engines_after k q ∙ ground arith)
    ]

    Inv-after : Inv (after_write s m p e key value)
    Inv-after = record {
      released = refl;
      nonempty = i.nonempty;
      sized = length-set s.storages p _ ∙ i.sized;
      valid = valid;
      mapped = λ k q h. ground (arith, maps k, i.mapped k q);
      stored = stored_after;
      placed = λ k q v h.
          ground (arith, maps k, engines_after k q, i.placed k q v, i.placed k p v, only k q v);
    }

  write_at_lem :
      (s : Hard B P T) (m : P.Store) (p : ℕ) (e : StorageEngine B) (key : Key) (value : Value)
      → p < s.partition_count
      → get_elem? s.storages p ≡ some e
      → write_at (record s { storage_map = m }) p (exclusive key_map ∷ []) key value
        ≡ ok (track key (after_write s m p e key value), (Storage.write e key value).1)
  unfolding write_at lock unlock
  write_at_lem s m p e key value range he = ground arith

  -- A write in the partition `p`, which the mapping `m` gives to the key.
  write_at-view :
      (s : Hard B P T) (m : P.Store) (p : ℕ) (key : Key) (value : Value)
      → Inv s
      → p < s.partition_count
      → ((j : Key) → P.get m j ≡ (if key_eq key j then some p else P.get s.storage_map j))
      → ((k : Key) (q : ℕ) (v : Value)
          → key_eq key k ≡ true
          → at_engine k (get_elem? s.storages q) ≡ some v
          → q ≡ p)
      → P.IsValid m
      → Returns (write_at (record s { storage_map = m }) p (exclusive key_map ∷ []) key value) λ r.
        (r.1 ≡ success)
        × Inv r.0
        × ((k : Key) → view r.0 k ≡ (if key_eq key k then some value else view s k))
        × (r.0.partition_count ≡ s.partition_count)
  write_at-view s m p key value i range maps only valid =
      let (e, he) = get_elem?-lt s.storages p (omega (arith, i.sized)) in
      let a = track-Agrees key (Agrees-refl (after_write s m p e key value) refl) in
      rw (write_at_lem s m p e key value range he) (
        write-status e key value,
        Agrees-Inv a (Inv-after s m p e key value i range he maps only valid),
        λ k. Agrees-view a k ∙ view_after s m p e key value i range he maps only valid k,
        a.count,
      )

  module _ (hash_func : Key → ℕ) where
    -- Under the invariant a write returns with `success`; then its key has the value that was
    -- written, every other key has the value that it had, and the invariant holds.
    pub write-view :
        (s : Hard B P T) (key : Key) (value : Value)
        → Inv s
        → Returns (write_impl hash_func s key value) λ r.
          (r.1 ≡ success)
          × Inv r.0
          × ((k : Key) → view r.0 k ≡ (if key_eq key k then some value else view s k))
          × (r.0.partition_count ≡ s.partition_count)
    unfolding write_impl lock
    write-view s key value i = elim (Option-cases (P.get s.storage_map key)) [
      | inl miss ↦
          rw (i.released, miss, write_impl)
            (write_at-view s (P.put s.storage_map key p₀) p₀ key value i p₀_range
              (λ j. get-put P s.storage_map key j p₀)
              (λ k q v same h. ground (arith, key_eq_iff key k, i.placed k q v))
              (P.put-IsValid s.storage_map key p₀ i.valid))
      | inr (p, hit) ↦
          rw (i.released, hit, write_impl)
            (write_at-view s s.storage_map p key value i (i.mapped key p hit)
              (λ j. ground (arith, key_eq_iff key j))
              (λ k q v same h. ground (arith, key_eq_iff key k, i.placed k q v)) i.valid)
    ]
      where
        p₀ : ℕ
        p₀ = hash_func key % s.partition_count

        p₀_range : p₀ < s.partition_count
        p₀_range = let n = i.nonempty in omega arith
