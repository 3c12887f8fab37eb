-- ===== src/Soft/Access.antt =====
-- A read of the soft store returns the value of the key, and a write changes that of its key only.
use repart_kv.Common.{
  ℕ, ◌<◌, ◌≡◌, Option, none, some, [], arith, Option-cases, if_both, sym, inl, refl, inr, ◌∙◌, ap,
}
use repart_kv.Common.Result.{ok, Returns}
use repart_kv.Key.{Key, Value}
use repart_kv.Storage.{Backend, StorageEngine, Status, success, not_found, found_or}
use repart_kv.Storage.Laws.{held, held-read, read_result}
use repart_kv.KeyStorage.{KeyStorage}
use repart_kv.Locks.{lock_shared, unlock_shared}
use repart_kv.Tracking.{Tracking}
use repart_kv.Soft.{Soft, track, read_impl}
use repart_kv.Storage

module _ {B : Backend} {P : KeyStorage ℕ} {T : Tracking} where
  -- The value of a key: what the engine holds.
  abbrev pub view : Soft B P T → Key → Option Value
  view s k = held k s.storage

  -- No mutex is held between the calls, the partitions of the map are in range, and every key of
  -- the engine has one.
  pub record Inv (s : Soft B P T) : Type 0 where
    pub released : s.held ≡ []
    pub nonempty : 0 < s.partition_count
    pub valid : P.IsValid s.partition_map
    pub mapped : (k : Key) (p : ℕ) → P.get s.partition_map k ≡ some p → p < s.partition_count
    pub placed :
        (k : Key) (v : Value) → view s k ≡ some v → (p : ℕ) × (P.get s.partition_map k ≡ some p)

  -- What a call keeps that changes no value.
  pub record Keeps (s t : Soft B P T) : Type 0 where
    pub inv : Inv t
    pub values : (k : Key) → view t k ≡ view s k
    pub count : t.partition_count ≡ s.partition_count

  module _ (s : Soft B P T) (key : Key) (value : Value) (i : Inv s) where
    -- The state behind a read.
    abbrev after_read : Soft B P T
    after_read = record (track key s) {
      held = [];
      storage = (Storage.read (track key s).storage key value).0;
    }

    read_missing :
        P.get s.partition_map key ≡ none
        → read_impl s key value ≡ ok (record s { held = [] }, not_found, value)
    unfolding read_impl lock_shared unlock_shared
    read_missing hp = ground (arith, i.released)

    read_found :
        (p : ℕ)
        → P.get s.partition_map key ≡ some p
        → read_impl s key value
          ≡ ok (
            after_read,
            (Storage.read (track key s).storage key value).1,
            (Storage.read (track key s).storage key value).2,
          )
    unfolding read_impl lock_shared unlock_shared
    read_found p hp = ground (arith, i.released, i.mapped key p hp)

    not_placed : P.get s.partition_map key ≡ none → view s key ≡ none
    not_placed hp = elim (Option-cases (view s key)) [
      | inl miss ↦ miss
      | inr (v, hit) ↦ let (p, hq) = i.placed key v hit in cc
    ]

    pub track-Inv : Inv (record (track key s) { held = [] })
    unfolding track
    track-Inv =
        if_both (λ t. Inv (record t { held = [] })) s.enable_tracking
          (record {
            released = refl;
            nonempty = i.nonempty;
            valid = i.valid;
            mapped = i.mapped;
            placed = i.placed;
          })
          (record {
            released = refl;
            nonempty = i.nonempty;
            valid = i.valid;
            mapped = i.mapped;
            placed = i.placed;
          })

    pub storage-track : (track key s).storage ≡ s.storage
    unfolding track
    storage-track = if_both (λ (t : Soft B P T). t.storage ≡ s.storage) s.enable_tracking refl refl

    pub count-track : (track key s).partition_count ≡ s.partition_count
    unfolding track
    count-track =
        if_both (λ (t : Soft B P T). t.partition_count ≡ s.partition_count) s.enable_tracking refl
          refl

    after_read-Keeps : Keeps s after_read
    after_read-Keeps =
        let j = track-Inv in
        let e = (track key s).storage in
        record {
          inv = record {
            released = refl;
            nonempty = j.nonempty;
            valid = j.valid;
            mapped = j.mapped;
            placed = λ k v h. j.placed k v (sym (held-read e key k value) ∙ h);
          };
          values = λ k. held-read e key k value ∙ ap (held k) storage-track;
          count = count-track;
        }

    -- Under the invariant a read of the soft store returns with the value of the key, or with
    -- `not_found` and the old contents of the parameter, changes no value and keeps the invariant.
    pub read_impl-Keeps :
        Returns
          (read_impl s key value)
          λ r. ((r.1, r.2) ≡ found_or value (view s key)) × Keeps s r.0
    read_impl-Keeps = elim (Option-cases (P.get s.partition_map key)) [
      | inl miss ↦
          rw (read_missing miss, not_placed miss)
            (
              refl,
              record {
                inv = record {
                  released = refl;
                  nonempty = i.nonempty;
                  valid = i.valid;
                  mapped = i.mapped;
                  placed = i.placed;
                };
                values = λ k. refl;
                count = refl;
              },
            )
      | inr (p, hit) ↦ rw (read_found p hit) (
        read_result (track key s).storage key value
            ∙ ap (λ e. found_or value (held key e)) storage-track,
        after_read-Keeps,
      )
    ]
