-- ===== src/Hard/Invariant.antt =====
-- The store as its clients see it, a partial map from keys to values, and its invariant.
use repart_kv.Common.{
  ℕ, ◌<◌, ◌≡◌, Option, none, some, [], length, get_elem?, arith, get_elem?-lt, sym, List, ◌∙◌,
  if_both, refl,
}
use repart_kv.Key.{Key, Value}
use repart_kv.Storage.{Backend, StorageEngine}
use repart_kv.Storage.Laws.{held}
use repart_kv.KeyStorage.{KeyStorage}
use repart_kv.Tracking.{Tracking}
use repart_kv.Hard.{Hard, track, track_all}

-- What is held under `k` by the engine of a partition.
abbrev pub at_engine : {B : Backend} → Key → Option (StorageEngine B) → Option Value
at_engine k none = none
at_engine k (some e) = held k e

abbrev pub at_partition :
    {B : Backend} {P : KeyStorage ℕ} {T : Tracking} → Hard B P T → Key → Option ℕ → Option Value
at_partition s k none = none
at_partition s k (some p) = at_engine k (get_elem? s.storages p)

module _ {B : Backend} {P : KeyStorage ℕ} {T : Tracking} where
  -- The value of a key: what the engine of its partition holds.
  abbrev pub view : Hard B P T → Key → Option Value
  view s k = at_partition s k (P.get s.storage_map k)

  -- No mutex is held between the calls; every mapped key has a partition in range whose engine
  -- holds it, and an engine holds only keys of its partition.
  pub record Inv (s : Hard B P T) : Type 0 where
    pub released : s.held ≡ []
    pub nonempty : 0 < s.partition_count
    pub sized : length s.storages ≡ s.partition_count
    pub valid : P.IsValid s.storage_map
    pub mapped : (k : Key) (p : ℕ) → P.get s.storage_map k ≡ some p → p < s.partition_count
    pub stored :
        (k : Key) (p : ℕ)
        → P.get s.storage_map k ≡ some p
        → (v : Value) × (at_engine k (get_elem? s.storages p) ≡ some v)
    pub placed :
        (k : Key) (p : ℕ) (v : Value)
        → at_engine k (get_elem? s.storages p) ≡ some v
        → P.get s.storage_map k ≡ some p

module _ {B : Backend} {P : KeyStorage ℕ} {T : Tracking} where
  -- The call left every mapping and every engine's keys as they were, and holds no mutex.
  pub record Agrees (s t : Hard B P T) : Type 0 where
    pub released : t.held ≡ []
    pub count : t.partition_count ≡ s.partition_count
    pub sized : length t.storages ≡ length s.storages
    pub maps : (k : Key) → P.get t.storage_map k ≡ P.get s.storage_map k
    pub valid : P.IsValid s.storage_map → P.IsValid t.storage_map
    pub engines :
        (k : Key) (p : ℕ)
        → at_engine k (get_elem? t.storages p) ≡ at_engine k (get_elem? s.storages p)

  pub Agrees-view : {s t : Hard B P T} → Agrees s t → (k : Key) → view t k ≡ view s k
  Agrees-view {s} {t} a k = rw (a.maps k) (same (P.get s.storage_map k))
    where
      same : (o : Option ℕ) → at_partition t k o ≡ at_partition s k o
      same none = refl
      same (some p) = a.engines k p

  pub Agrees-Inv : {s t : Hard B P T} → Agrees s t → Inv s → Inv t
  Agrees-Inv {s} {t} a i = record {
    released = a.released;
    nonempty = omega (arith, a.count, i.nonempty);
    sized = omega (arith, a.sized, i.sized, a.count);
    valid = a.valid i.valid;
    mapped = λ k p h. omega (arith, a.count, i.mapped k p (sym (a.maps k) ∙ h));
    stored = λ k p h. let (v, e) = i.stored k p (sym (a.maps k) ∙ h) in (v, a.engines k p ∙ e);
    placed = λ k p v h. a.maps k ∙ i.placed k p v (sym (a.engines k p) ∙ h);
  }

  -- Tracking changes the tracker and its flag only.
  pub track-Agrees : {s t : Hard B P T} (key : Key) → Agrees s t → Agrees s (track key t)
  unfolding track
  track-Agrees {s} {t} key a =
      if_both (Agrees s) t.enable_tracking
        (record {
          released = a.released;
          count = a.count;
          sized = a.sized;
          maps = a.maps;
          valid = a.valid;
          engines = a.engines;
        })
        a

  pub track_all-Agrees :
      {s t : Hard B P T} (keys : List Key) → Agrees s t → Agrees s (track_all keys t)
  unfolding track_all
  track_all-Agrees {s} {t} keys a =
      if_both (Agrees s) t.enable_tracking
        (record {
          released = a.released;
          count = a.count;
          sized = a.sized;
          maps = a.maps;
          valid = a.valid;
          engines = a.engines;
        })
        a

  pub Agrees-refl : (t : Hard B P T) → t.held ≡ [] → Agrees t t
  Agrees-refl t free = record {
    released = free;
    count = refl;
    sized = refl;
    maps = λ k. refl;
    valid = λ v. v;
    engines = λ k p. refl;
  }

  pub released-Agrees : (s : Hard B P T) → Agrees s (record s { held = [] })
  released-Agrees s = record {
    released = refl;
    count = refl;
    sized = refl;
    maps = λ k. refl;
    valid = λ v. v;
    engines = λ k p. refl;
  }

  -- The engine of a mapped key.
  pub engine_of :
      (s : Hard B P T) (i : Inv s) (k : Key) (p : ℕ)
      → P.get s.storage_map k ≡ some p
      → (e : StorageEngine B) × (get_elem? s.storages p ≡ some e)
  engine_of s i k p h = get_elem?-lt s.storages p (omega (arith, i.sized, i.mapped k p h))
