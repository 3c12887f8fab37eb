-- ===== src/Soft.antt =====
-- kvstorage/SoftRepartitioningKeyValueStorage.h: one engine for all partitions, one mutex per
-- partition, a map from keys to partitions, and repartitioning that changes the map only.
pub mod Access
pub mod Scans
pub mod Writes
pub mod Parts
pub mod Repartition
pub mod Start
use repart_kv.Common.{
  ℕ, zero, suc, ◌%◌, Bool, true, false, ◌&&◌, Option, none, some, List, [], ◌∷◌, ltb, ◌==◌,
  if◌then◌else◌, map,
}
use repart_kv.Common.Result.{Result, ok, err, ◌>>=◌}
use repart_kv.Key.{Key, Value}
use repart_kv.SortedMap.{Entries}
use repart_kv.Storage.{Backend, StorageEngine, Status, not_found}
use repart_kv.Storage.Map.{resize}
use repart_kv.KeyStorage.{KeyStorage}
use repart_kv.Locks.{Hold, key_map, partition, lock_shared, unlock_shared, within, lock, unlock}
use repart_kv.Tracking.{Tracking}
use repart_kv.Tracker.{put_parts}
use repart_kv.Hard.{nth_path, or_tmp, is_positive}
use repart_kv.Storage

-- The member `metis_graph_` is used by no method.
pub record Soft (B : Backend) (P : KeyStorage ℕ) (T : Tracking) : Type 0 where
  pub partition_map : P.Store
  pub held : List Hold
  pub enable_tracking : Bool
  pub is_repartitioning : Bool
  pub partition_count : ℕ
  pub storage : StorageEngine B
  pub tracker : T.State
  pub tracking_duration : Option ℕ
  pub repartition_interval : Option ℕ
  pub running : Bool
  pub loop_started : Bool
  pub paths : List Value

-- `partition_set.insert`, for the elements in order
unfoldable pub insert_partition : ℕ → List ℕ → List ℕ
insert_partition p [] = p ∷ []
insert_partition p (q ∷ ps) =
    let rest = insert_partition p ps in
    if p == q then q ∷ ps else if ltb p q then p ∷ q ∷ ps else q ∷ rest

-- The partitions of a scan: the elements of a `std::set`, which are in order before the sort.
unfoldable pub sorted_partitions : Entries ℕ → List ℕ
unfolding insert_partition
sorted_partitions [] = []
sorted_partitions ((key, p) ∷ pairs) = insert_partition p (sorted_partitions pairs)

-- The loops of a scan over the mutexes, of a vector of `n`.
unfoldable pub lock_each : ℕ → List ℕ → List Hold → Result (List Hold)
lock_each n [] h = ok h
lock_each n (p ∷ ps) h = within n p (lock_shared (partition p) h) >>= lock_each n ps

unfoldable pub unlock_each : ℕ → List ℕ → List Hold → Result (List Hold)
unlock_each n [] h = ok h
unlock_each n (p ∷ ps) h = within n p (unlock (partition p) h) >>= unlock_each n ps

-- The loops of a repartitioning: `n` rounds from the partition `i` on.
unfoldable pub lock_all : ℕ → ℕ → List Hold → Result (List Hold)
lock_all zero i h = ok h
lock_all (suc n) i h = lock (partition i) h >>= lock_all n (suc i)

unfoldable pub unlock_all : ℕ → ℕ → List Hold → Result (List Hold)
unlock_all zero i h = ok h
unlock_all (suc n) i h = unlock (partition i) h >>= unlock_all n (suc i)

-- The loop that collects the keys and their partitions: `limit` rounds at most.
unfoldable pub collect : (P : KeyStorage ℕ) → ℕ → P.Iterator → Entries ℕ
collect P zero it = []
collect P (suc limit) it =
    let rest = collect P limit (P.next it) in
    if P.is_end it then [] else (P.get_key it, P.get_value it) ∷ rest

module _ {B : Backend} {P : KeyStorage ℕ} {T : Tracking} where
  unfoldable pub create : ℕ → Option ℕ → Option ℕ → List Value → Soft B P T
  unfolding nth_path or_tmp
  create partition_count tracking_duration repartition_interval paths = record {
    partition_map = P.create (nth_path (or_tmp paths) 0);
    held = [];
    enable_tracking = false;
    is_repartitioning = false;
    partition_count = partition_count;
    storage = Storage.create 0 (nth_path (or_tmp paths) 0);
    tracker = T.create;
    tracking_duration = tracking_duration;
    repartition_interval = repartition_interval;
    running = true;
    loop_started =
        ltb 1 partition_count && is_positive tracking_duration && is_positive repartition_interval;
    paths = or_tmp paths;
  }

  -- `if (enable_tracking_) tracker_.update(key)`
  unfoldable pub track : Key → Soft B P T → Soft B P T
  track key s = if s.enable_tracking then record s { tracker = (T.update s.tracker key).0 } else s

  unfoldable pub track_all : List Key → Soft B P T → Soft B P T
  track_all keys s =
      if s.enable_tracking then record s { tracker = (T.multi_update s.tracker keys).0 } else s

  -- `read_impl` behind a successful lookup of the partition
  unfoldable pub read_at :
      Soft B P T → ℕ → List Hold → Key → Value → Result (Soft B P T × Status × Value)
  unfolding track
  read_at s p h key value = do
    h₁ ← within s.partition_count p (lock_shared (partition p) h)
    h₂ ← unlock_shared key_map h₁
    let s₁ = track key s
    let (storage', status, value') = Storage.read s₁.storage key value
    h₃ ← unlock_shared (partition p) h₂
    ok (record s₁ { held = h₃; storage = storage' }, status, value')

  unfoldable pub read_impl : Soft B P T → Key → Value → Result (Soft B P T × Status × Value)
  unfolding read_at
  read_impl s key value = do
    h ← lock_shared key_map s.held
    elim (P.get s.partition_map key) [
      | some p ↦ read_at s p h key value
      | none ↦ do h₁ ← unlock_shared key_map h; ok (record s { held = h₁ }, not_found, value)
    ]

  module _ (hash_func : Key → ℕ) where
    unfoldable pub write_impl : Soft B P T → Key → Value → Result (Soft B P T × Status)
    unfolding track
    write_impl s key value = do
      h ← lock key_map s.held
      let next = hash_func key % s.partition_count
      let (partition_map', found, p) = P.get_or_insert s.partition_map key next
      h₁ ← within s.partition_count p (lock (partition p) h)
      h₂ ← unlock key_map h₁
      let s₁ = track key (record s { partition_map = partition_map' })
      let (storage', status) = Storage.write s₁.storage key value
      h₃ ← unlock (partition p) h₂
      ok (record s₁ { held = h₃; storage = storage' }, status)

  unfoldable pub scan_impl :
      Soft B P T → Key → ℕ → Entries Value → Result (Soft B P T × Status × Entries Value)
  unfolding collect sorted_partitions lock_each unlock_each track_all
  scan_impl s initial_key_prefix limit results = do
    h ← lock_shared key_map s.held
    let pairs = collect P limit (P.lower_bound_of s.partition_map initial_key_prefix)
    let partitions = sorted_partitions pairs
    h₁ ← lock_each s.partition_count partitions h
    h₂ ← unlock_shared key_map h₁
    let s₁ = track_all (map (λ e. e.0) pairs) s
    let resized = resize ([], []) limit results
    let (storage', status, results') = Storage.scan s₁.storage initial_key_prefix limit resized
    h₃ ← unlock_each s.partition_count partitions h₂
    ok (record s₁ { held = h₃; storage = storage' }, status, results')

  -- The branch of `repartition_impl` for a partitioning that was found.
  unfoldable pub update_map : Soft B P T → Result (Soft B P T)
  unfolding lock_all unlock_all put_parts
  update_map s = do
    h ← lock key_map s.held
    h₁ ← lock_all s.partition_count 0 h
    partition_map' ←
        put_parts P (T.get_idx_to_vertex s.tracker) (T.get_metis_partitions s.tracker)
          s.partition_map
    let t = T.lock_and_clear_graph s.tracker
    h₂ ← unlock_all s.partition_count 0 h₁
    h₃ ← unlock key_map h₂
    ok (record s { held = h₃; partition_map = partition_map'; tracker = t })

  unfoldable pub repartition_impl : Soft B P T → Result (Soft B P T)
  unfolding update_map
  repartition_impl s = do
    let (t, prepared) = T.prepare_for_partition_map_update s.tracker s.partition_count
    let s₁ = record s { is_repartitioning = true; enable_tracking = false; tracker = t }
    s₂ ← (if prepared then update_map s₁ else ok s₁)
    ok (record s₂ { is_repartitioning = false })

  unfoldable pub enable_tracking_impl : Bool → Soft B P T → Soft B P T
  enable_tracking_impl enable s = record s { enable_tracking = enable }
