-- ===== src/Soft/Writes.antt =====
-- A write of the soft store, to the partition that the key has or that its hash gives it.
use repart_kv.Common.{
  ℕ, ◌≡◌, refl, ap, ◌∙◌, inl, inr, Bool, some, [], arith, if◌then◌else◌, Bool-cases, if_both, ◌%◌,
}
use repart_kv.Key.{Key, Value, key_eq}
use repart_kv.Key.Laws.{key_eq_iff}
use repart_kv.Storage.{Backend, StorageEngine, Status, success}
use repart_kv.Storage.Laws.{held, held-write, write-status}
use repart_kv.KeyStorage.{KeyStorage}
use repart_kv.Tracking.{Tracking}
use repart_kv.Soft.{Soft, track, write_impl}
use repart_kv.KeyStorage.Insert.{Assigned, assign}
use repart_kv.Locks.{lock, unlock}
use repart_kv.Soft.Access.{Inv, view, storage-track, track-Inv, count-track}
use repart_kv.Common.Result.{Returns, ok}
use repart_kv.Storage

module _ {B : Backend} {P : KeyStorage ℕ} {T : Tracking} where
  module _ (s : Soft B P T) (key : Key) (value : Value) (i : Inv s) (m : P.Store) (p : ℕ)
      (a : Assigned P s.partition_count s.partition_map key m p) where
    abbrev mapped_state : Soft B P T
    mapped_state = record s { partition_map = m }

    abbrev after_write : Soft B P T
    after_write = record (track key mapped_state) {
      held = [];
      storage = (Storage.write (track key mapped_state).storage key value).0;
    }

    mapped_state-Inv : Inv mapped_state
    mapped_state-Inv = record {
      released = i.released;
      nonempty = i.nonempty;
      valid = a.valid;
      mapped = a.mapped;
      placed = λ k v h. let (q, e) = i.placed k v h in (q, a.kept k q e);
    }

    view_after : (k : Key) → view after_write k ≡ (if key_eq key k then some value else view s k)
    view_after k =
        held-write (track key mapped_state).storage key k value
        ∙ ap (λ e. if key_eq key k then some value else held k e)
            (storage-track mapped_state key value mapped_state-Inv)

    map-track : (track key mapped_state).partition_map ≡ m
    unfolding track
    map-track = if_both (λ (t : Soft B P T). t.partition_map ≡ m) s.enable_tracking refl refl

    placed_after :
        (k : Key) (v : Value)
        → view after_write k ≡ some v
        → (q : ℕ) × (P.get after_write.partition_map k ≡ some q)
    placed_after k v h = elim (Bool-cases (key_eq key k)) [
      | inl same ↦
          (p, ap (λ n. P.get n k) map-track ∙ ground (arith, key_eq_iff key k, a.here, same))
      | inr other ↦
          let (q, e) = i.placed k v (ground (arith, view_after k, h, other)) in
          (q, ap (λ n. P.get n k) map-track ∙ a.kept k q e)
    ]

    after_write-Inv : Inv after_write
    after_write-Inv =
        let j = track-Inv mapped_state key value mapped_state-Inv in
        record {
          released = refl;
          nonempty = j.nonempty;
          valid = j.valid;
          mapped = j.mapped;
          placed = placed_after;
        }

    write_lem :
        (hash_func : Key → ℕ) (found : Bool)
        → P.get_or_insert s.partition_map key (hash_func key % s.partition_count) ≡ (m, found, p)
        → write_impl hash_func s key value
          ≡ ok (after_write, (Storage.write (track key mapped_state).storage key value).1)
    unfolding write_impl lock unlock
    write_lem hash_func found e = ground (arith, i.released, e, a.range)

  -- Under the invariant a write of the soft store returns with `success`; then its key has the
  -- value that was written, every other key has the value that it had, and the invariant holds.
  pub write_impl-Stores :
      (hash_func : Key → ℕ) (s : Soft B P T) (key : Key) (value : Value)
      → Inv s
      → Returns (write_impl hash_func s key value) λ r.
        (r.1 ≡ success)
        × Inv r.0
        × ((k : Key) → view r.0 k ≡ (if key_eq key k then some value else view s k))
        × (r.0.partition_count ≡ s.partition_count)
  write_impl-Stores hash_func s key value i =
      let (m, found, p, e, a) =
        assign P s.partition_count s.partition_map key (hash_func key % s.partition_count) i.valid
          i.mapped (omega (arith, i.nonempty)) in
      rw (write_lem s key value i m p a hash_func found e) (
        write-status (track key (mapped_state s key value i m p a)).storage key value,
        after_write-Inv s key value i m p a,
        view_after s key value i m p a,
        count-track (mapped_state s key value i m p a) key value
            (mapped_state-Inv s key value i m p a),
      )
