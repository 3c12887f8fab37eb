-- ===== src/SoftThreaded.antt =====
-- kvstorage/threaded/SoftThreadedRepartitioningKeyValueStorage.h: the callers look up the partition
-- of a key under the mutex of the map, and leave the operation to the worker of the partition.
-- A method that takes the mutex exclusively is one step of the system while it holds it; a scan
-- takes it shared and enqueues its operation at one worker after the other, with steps of others
-- in between.
pub mod Log
pub mod Invariant
pub mod Steps
pub mod Queues
pub mod Submits
pub mod Scans
pub mod Fences
pub mod Rounds
pub mod Linear
pub mod Start
pub mod Drain
pub mod Deadlock
use repart_kv.Common.{
  ℕ, zero, suc, ◌+◌, ◌%◌, Bool, true, false, ◌&&◌, Option, none, some, List, [], ◌∷◌, ◌++◌, ltb,
  length, get_elem?, set, replicate, if◌then◌else◌, map,
}
use repart_kv.Common.Result.{Result, ok, err, ◌>>=◌}
use repart_kv.Key.{Key, Value}
use repart_kv.SortedMap.{Entries}
use repart_kv.Storage.{Backend, StorageEngine, Status, pending, not_found, success}
use repart_kv.Storage.Map.{resize}
use repart_kv.KeyStorage.{KeyStorage}
use repart_kv.Tracking.{Tracking}
use repart_kv.Tracker.{put_parts}
use repart_kv.Hard.{nth_path, or_tmp, is_positive}
use repart_kv.Soft.{collect, sorted_partitions}
use repart_kv.Worker.{
  Operation, reads, writes, scans, syncs, Queue, enqueue, enqueue_all, worker, Outcome,
}
use repart_kv.Storage

-- `next_id` numbers the operations. `scanning` holds the scans that have the mutex of the map
-- shared, with the partitions at whose workers they are still to be enqueued.
pub record SoftThreaded (B : Backend) (P : KeyStorage ℕ) (T : Tracking) : Type 0 where
  pub key_map : P.Store
  pub enable_tracking : Bool
  pub is_repartitioning : Bool
  pub partition_count : ℕ
  pub storage : StorageEngine B
  pub tracker : T.State
  pub tracking_duration : Option ℕ
  pub repartition_interval : Option ℕ
  pub running : Bool
  pub auto_repartitioning : Bool
  pub paths : List Value
  pub queues : List Queue
  pub scanning : List (Operation × List ℕ)
  pub next_id : ℕ

-- A method returns at once, or with the reply to the operation that it waits for.
pub data Answer : Type 0 where
  now : Status → Answer
  later : ℕ → Answer

unfoldable pub remove_at {ℓ} : {A : Type ℓ} → List A → ℕ → List A
remove_at [] j = []
remove_at (x ∷ xs) zero = xs
remove_at (x ∷ xs) (suc j) = x ∷ remove_at xs j

abbrev pub is_empty {ℓ} : {A : Type ℓ} → List A → Bool
is_empty [] = true
is_empty (x ∷ xs) = false

module _ {B : Backend} {P : KeyStorage ℕ} {T : Tracking} where
  unfoldable pub create : ℕ → Option ℕ → Option ℕ → List Value → SoftThreaded B P T
  unfolding nth_path or_tmp
  create partition_count tracking_duration repartition_interval paths = record {
    key_map = P.create (nth_path (or_tmp paths) 0);
    enable_tracking = false;
    is_repartitioning = false;
    partition_count = partition_count;
    storage = Storage.create 0 (nth_path (or_tmp paths) 0);
    tracker = T.create;
    tracking_duration = tracking_duration;
    repartition_interval = repartition_interval;
    running = true;
    auto_repartitioning =
        ltb 1 partition_count && is_positive tracking_duration && is_positive repartition_interval;
    paths = or_tmp paths;
    queues = replicate partition_count [];
    scanning = [];
    next_id = 0;
  }

  -- `if (enable_tracking_.load()) tracker_.update(key)`, and so for several keys
  unfoldable pub track : Key → SoftThreaded B P T → SoftThreaded B P T
  track key s = record s {
    tracker = if s.enable_tracking then (T.update s.tracker key).0 else s.tracker;
  }

  unfoldable pub track_all : List Key → SoftThreaded B P T → SoftThreaded B P T
  track_all keys s = record s {
    tracker = if s.enable_tracking then (T.multi_update s.tracker keys).0 else s.tracker;
  }

  -- The part of `read_impl` before the wait, and so below.
  unfoldable pub read_impl : SoftThreaded B P T → Key → Value → Result (SoftThreaded B P T × Answer)
  unfolding enqueue track
  read_impl s key value = elim (P.get s.key_map key) [
    | none ↦ ok (s, now not_found)
    | some p ↦ do
      queues ← enqueue p (reads s.next_id key value) s.queues
      let t = track key (record s { queues = queues; next_id = suc s.next_id })
      ok (t, later s.next_id)
  ]

  module _ (hash_func : Key → ℕ) where
    unfoldable pub write_impl :
        SoftThreaded B P T → Key → Value → Result (SoftThreaded B P T × Status)
    unfolding enqueue track
    write_impl s key value = do
      let next = hash_func key % s.partition_count
      let (key_map', found, p) = P.get_or_insert s.key_map key next
      queues ← enqueue p (writes key value) s.queues
      ok (track key (record s { key_map = key_map'; queues = queues }), success)

  -- `scan_impl` up to the first `enqueue`, for the keys that its loop collects. With a limit of 0
  -- the set of partitions is empty, the tracker gets an empty batch, and the caller is alone at the
  -- second barrier, with the status that the operation starts with.
  unfoldable pub scan_with :
      SoftThreaded B P T → Key → ℕ → Entries Value → Entries ℕ → SoftThreaded B P T × Answer
  unfolding sorted_partitions track_all
  scan_with s initial_key_prefix limit results [] =
      if ltb 0 limit then (s, now not_found) else (track_all [] s, now pending)
  scan_with s initial_key_prefix limit results (e ∷ m) =
      let partitions = sorted_partitions (e ∷ m) in
      let o =
        scans s.next_id initial_key_prefix (resize ([], []) limit results) (length partitions) in
      (
        track_all (map (λ d. d.0) (e ∷ m))
            (record s { scanning = s.scanning ++ (o, partitions) ∷ []; next_id = suc s.next_id }),
        later s.next_id,
      )

  unfoldable pub scan_impl :
      SoftThreaded B P T → Key → ℕ → Entries Value → SoftThreaded B P T × Answer
  unfolding collect scan_with
  scan_impl s initial_key_prefix limit results =
      scan_with s initial_key_prefix limit results
        (collect P limit (P.lower_bound_of s.key_map initial_key_prefix))

  -- The next `enqueue` of the scan `j` of those that have the mutex; with the last one it gives the
  -- mutex back.
  unfoldable pub scan_enqueue :
      SoftThreaded B P T → ℕ → Operation → List ℕ → Result (SoftThreaded B P T)
  unfolding enqueue remove_at
  scan_enqueue s j o [] = ok (record s { scanning = remove_at s.scanning j })
  scan_enqueue s j o (p ∷ ps) = do
    queues ← enqueue p o s.queues
    ok (record s {
      queues = queues;
      scanning = if is_empty ps then remove_at s.scanning j else set s.scanning j (o, ps);
    })

  -- The branch of `repartition_impl` for a partitioning that was found.
  unfoldable pub update_map : SoftThreaded B P T → Result (SoftThreaded B P T)
  unfolding put_parts enqueue_all
  update_map s = do
    key_map' ←
        put_parts P (T.get_idx_to_vertex s.tracker) (T.get_metis_partitions s.tracker) s.key_map
    ok (record s {
      key_map = key_map';
      tracker = T.lock_and_clear_graph s.tracker;
      queues = enqueue_all (syncs s.next_id s.partition_count) s.queues;
      next_id = suc s.next_id;
    })

  unfoldable pub repartition_impl : SoftThreaded B P T → Result (SoftThreaded B P T)
  unfolding update_map
  repartition_impl s = do
    let (t, prepared) = T.prepare_for_partition_map_update s.tracker s.partition_count
    let s₁ = record s { is_repartitioning = true; enable_tracking = false; tracker = t }
    s₂ ← (if prepared then update_map s₁ else ok s₁)
    ok (record s₂ { is_repartitioning = false })

  unfoldable pub enable_tracking_impl : Bool → SoftThreaded B P T → SoftThreaded B P T
  enable_tracking_impl enable s = record s { enable_tracking = enable }

  -- The state after a round of a worker.
  abbrev pub after_round : SoftThreaded B P T → Outcome B → SoftThreaded B P T
  after_round s r = record s { storage = r.storage; queues = r.queues }
