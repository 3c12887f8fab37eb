-- ===== src/HardThreaded.antt =====
-- kvstorage/threaded/HardThreadedRepartitioningKeyValueStorage.h: the callers look up the engine
-- and the partition of a key under the mutex of the maps, and leave the operation, with the engine,
-- to the worker of the partition. The steps are those of SoftThreaded.
pub mod Steps
pub mod Invariant
pub mod Homes
pub mod Behind
pub mod Submits
pub mod Scans
pub mod Heads
pub mod Rounds
pub mod Start
pub mod Linear
pub mod Overtakes
use repart_kv.Common.{
  ℕ, zero, suc, ◌+◌, ◌%◌, Bool, true, false, ◌&&◌, Option, none, some, List, [], ◌∷◌, ◌++◌, ltb,
  length, get_elem?, set, replicate, if◌then◌else◌, map, ◌==◌,
}
use repart_kv.Common.Result.{Result, ok, err, ◌>>=◌}
use repart_kv.Key.{Key, Value}
use repart_kv.SortedMap.{Entries}
use repart_kv.Storage.{Backend, StorageEngine, Status, pending, not_found, success}
use repart_kv.KeyStorage.{KeyStorage}
use repart_kv.Tracking.{Tracking}
use repart_kv.Tracker.{put_parts}
use repart_kv.Hard.{nth_path, or_tmp, is_positive, at}
use repart_kv.Soft.{sorted_partitions}
use repart_kv.Worker.{enqueue}
use repart_kv.SoftThreaded.{Answer, now, later, remove_at, is_empty}
use repart_kv.HardWorker.{
  HardOperation, hard_reads, hard_writes, hard_scans, HardQueue, HardScan, HardOutcome, Engines,
  put_at,
}
use repart_kv.Storage

-- `allocated` is the number of the engines that were made; `scans` are the scan operations, by
-- their numbers.
pub record HardThreaded (B : Backend) (S P : KeyStorage ℕ) (T : Tracking) : Type 0 where
  pub storage_map : S.Store
  pub partition_map : P.Store
  pub enable_tracking : Bool
  pub is_repartitioning : Bool
  pub partition_count : ℕ
  pub storages : List ℕ
  pub level : ℕ
  pub tracker : T.State
  pub tracking_duration : Option ℕ
  pub repartition_interval : Option ℕ
  pub running : Bool
  pub auto_repartitioning : Bool
  pub paths : List Value
  pub engines : Engines B
  pub allocated : ℕ
  pub queues : List HardQueue
  pub scans : ℕ → HardScan
  pub scanning : List (ℕ × List ℕ)
  pub next_id : ℕ

abbrev pub no_scan : HardScan
no_scan = record {
  storages = [];
  partition_array = [];
  results = [];
  status = pending;
  count = 0;
  arrived = [];
}

-- `new StorageEngineType(level, paths_[i % paths_.size()])` for the `n` partitions from `i` on:
-- the engines from the index `a` on, and the heap with them.
unfoldable pub new_engines :
    {B : Backend} → ℕ → ℕ → ℕ → ℕ → List Value → Engines B → List ℕ × Engines B
unfolding nth_path
new_engines zero i a level paths engines = ([], engines)
new_engines (suc n) i a level paths engines =
    let (storages, engines') =
      new_engines n (suc i) (suc a) level paths
        (put_at a (Storage.create level (nth_path paths (i % length paths))) engines) in
    (a ∷ storages, engines')

-- The partition of a write: an `out` parameter that is 0 before the lookup.
unfoldable pub partition_of : (P : KeyStorage ℕ) → Bool → P.Store → Key → ℕ → P.Store × ℕ
partition_of P true m key next = elim (P.get m key) [ none ↦ (m, 0) | some p ↦ (m, p) ]
partition_of P false m key next = let (m', found, p) = P.get_or_insert m key next in (m', p)

-- The loop of `scan_impl`: keys, engines and partitions, and the map of the partitions behind it.
unfoldable pub collect :
    (S P : KeyStorage ℕ) → (Key → ℕ) → ℕ → S.Iterator → ℕ → P.Store → List (Key × ℕ × ℕ) × P.Store
collect S P hash_func zero it n m = ([], m)
collect S P hash_func (suc limit) it n m =
    let key = S.get_key it in
    let (m₁, found, p) = P.get_or_insert m key (hash_func key % n) in
    let (rest, m₂) = collect S P hash_func limit (S.next it) n m₁ in
    if S.is_end it then ([], m) else ((key, S.get_value it, p) ∷ rest, m₂)

module _ {B : Backend} {S P : KeyStorage ℕ} {T : Tracking} where
  unfoldable pub create : ℕ → Option ℕ → Option ℕ → List Value → HardThreaded B S P T
  unfolding nth_path or_tmp new_engines
  create partition_count tracking_duration repartition_interval paths =
      let (storages, engines) =
        new_engines partition_count 0 0 1 (or_tmp paths) (λ i. Storage.create 0 []) in
      record {
        storage_map = S.create (nth_path (or_tmp paths) 0);
        partition_map = P.create (nth_path (or_tmp paths) 0);
        enable_tracking = false;
        is_repartitioning = false;
        partition_count = partition_count;
        storages = storages;
        level = 0;
        tracker = T.create;
        tracking_duration = tracking_duration;
        repartition_interval = repartition_interval;
        running = true;
        auto_repartitioning =
            ltb 1 partition_count
            && is_positive tracking_duration
            && is_positive repartition_interval;
        paths = or_tmp paths;
        engines = engines;
        allocated = partition_count;
        queues = replicate partition_count [];
        scans = λ i. no_scan;
        scanning = [];
        next_id = 0;
      }

  unfoldable pub track : Key → HardThreaded B S P T → HardThreaded B S P T
  track key s = record s {
    tracker = if s.enable_tracking then (T.update s.tracker key).0 else s.tracker;
  }

  unfoldable pub track_all : List Key → HardThreaded B S P T → HardThreaded B S P T
  track_all keys s = record s {
    tracker = if s.enable_tracking then (T.multi_update s.tracker keys).0 else s.tracker;
  }

  module _ (hash_func : Key → ℕ) where
    -- The part of `read_impl` before the wait.
    unfoldable pub read_impl :
        HardThreaded B S P T → Key → Value → Result (HardThreaded B S P T × Answer)
    unfolding enqueue track
    read_impl s key value = elim (S.get s.storage_map key) [
      | none ↦ ok (s, now not_found)
      | some e ↦ do
        let next = hash_func key % s.partition_count
        let (partition_map', found, p) = P.get_or_insert s.partition_map key next
        queues ← enqueue p (hard_reads s.next_id key value e) s.queues
        let t = record s {
          partition_map = partition_map';
          queues = queues;
          next_id = suc s.next_id;
        }
        ok (track key t, later s.next_id)
    ]

    -- The engine of a write: one of another level gives way to the present one of the partition.
    unfoldable pub current : HardThreaded B S P T → S.Store → Key → ℕ → ℕ → Result (S.Store × ℕ)
    unfolding at
    current s m key e p =
        let present = at s.storages p >>= λ e'. ok (S.put m key e', e') in
        if (s.engines e).level == s.level then ok (m, e) else present

    unfoldable pub write_impl :
        HardThreaded B S P T → Key → Value → Result (HardThreaded B S P T × Status)
    unfolding at partition_of current enqueue track
    write_impl s key value = do
      let next = hash_func key % s.partition_count
      next_storage ← at s.storages next
      let (storage_map₁, found, e₁) = S.get_or_insert s.storage_map key next_storage
      let (partition_map', p) = partition_of P found s.partition_map key next
      (storage_map₂, e₂) ← current s storage_map₁ key e₁ p
      queues ← enqueue p (hard_writes key value e₂) s.queues
      let t = record s {
        storage_map = storage_map₂;
        partition_map = partition_map';
        queues = queues;
      }
      ok (track key t, success)

    -- `scan_impl` up to the first `enqueue`, for what the loop collects. The caller's vector is not
    -- cleared: the keys come behind what it holds.
    unfoldable pub scan_with :
        HardThreaded B S P T
        → ℕ
        → Entries Value
        → List (Key × ℕ × ℕ)
        → P.Store
        → HardThreaded B S P T × Answer
    unfolding sorted_partitions track_all
    scan_with s limit results [] m =
        if ltb 0 limit
        then (record s { partition_map = m }, now not_found)
        else (track_all [] (record s { partition_map = m }), now pending)
    scan_with s limit results (d ∷ ds) m =
        let entries = d ∷ ds in
        let partitions = sorted_partitions (map (λ d. (d.0, d.2)) entries) in
        let o : HardScan = record {
          storages = map (λ d. d.1) entries;
          partition_array = map (λ d. d.2) entries;
          results = results ++ map (λ d. (d.0, [])) entries;
          status = pending;
          count = length partitions;
          arrived = [];
        } in
        (
          track_all (map (λ d. d.0) entries) (record s {
            partition_map = m;
            scans = put_at s.next_id o s.scans;
            scanning = s.scanning ++ (s.next_id, partitions) ∷ [];
            next_id = suc s.next_id;
          }),
          later s.next_id,
        )

    unfoldable pub scan_impl :
        HardThreaded B S P T → Key → ℕ → Entries Value → HardThreaded B S P T × Answer
    unfolding collect scan_with
    scan_impl s initial_key_prefix limit results =
        let (entries, m) =
          collect S P hash_func limit (S.lower_bound_of s.storage_map initial_key_prefix)
            s.partition_count s.partition_map in
        scan_with s limit results entries m

  -- The next `enqueue` of the scan `i`, the one at `j` of those that have the mutex.
  unfoldable pub scan_enqueue :
      HardThreaded B S P T → ℕ → ℕ → List ℕ → Result (HardThreaded B S P T)
  unfolding enqueue remove_at
  scan_enqueue s j i [] = ok (record s { scanning = remove_at s.scanning j })
  scan_enqueue s j i (p ∷ ps) = do
    queues ← enqueue p (hard_scans i) s.queues
    ok (record s {
      queues = queues;
      scanning = if is_empty ps then remove_at s.scanning j else set s.scanning j (i, ps);
    })

  -- The branch of `repartition_impl` for a partitioning that was found: a new level of engines.
  unfoldable pub update_map : HardThreaded B S P T → Result (HardThreaded B S P T)
  unfolding put_parts new_engines
  update_map s = do
    partition_map' ←
        put_parts P (T.get_idx_to_vertex s.tracker) (T.get_metis_partitions s.tracker)
          s.partition_map
    let level = suc s.level
    let (storages, engines) = new_engines s.partition_count 0 s.allocated level s.paths s.engines
    ok (record s {
      partition_map = partition_map';
      tracker = T.lock_and_clear_graph s.tracker;
      storages = storages;
      level = level;
      engines = engines;
      allocated = s.allocated + s.partition_count;
    })

  unfoldable pub repartition_impl : HardThreaded B S P T → Result (HardThreaded B S P T)
  unfolding update_map
  repartition_impl s = do
    let (t, prepared) = T.prepare_for_partition_map_update s.tracker s.partition_count
    let s₁ = record s { is_repartitioning = true; enable_tracking = false; tracker = t }
    s₂ ← (if prepared then update_map s₁ else ok s₁)
    ok (record s₂ { is_repartitioning = false })

  unfoldable pub enable_tracking_impl : Bool → HardThreaded B S P T → HardThreaded B S P T
  enable_tracking_impl enable s = record s { enable_tracking = enable }

  -- The state after a round of a worker.
  abbrev pub after_round : HardThreaded B S P T → HardOutcome B → HardThreaded B S P T
  after_round s r = record s { engines = r.engines; queues = r.queues; scans = r.scans }
