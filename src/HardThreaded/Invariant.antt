-- ===== src/HardThreaded/Invariant.antt =====
-- The invariant of calm runs: every operation on a key waits at the worker that the hash of the key
-- gives it, with the engine of that worker.
use repart_kv.Common.{ℕ, ◌<◌, ◌%◌, ◌≡◌, Option, none, some, List, [], All, length, get_elem?}
use repart_kv.Key.{Key, Value}
use repart_kv.Storage.{Backend}
use repart_kv.Storage.Laws.{held}
use repart_kv.KeyStorage.{KeyStorage}
use repart_kv.Tracking.{Tracking}
use repart_kv.Worker.{Queue}
use repart_kv.HardWorker.{HardOperation, hard_reads, hard_writes, hard_scans, HardQueue}
use repart_kv.HardThreaded.{HardThreaded}
use repart_kv.HardThreaded.Steps.{waiting_on}
use repart_kv.SoftThreaded.Steps.{Event, Shows}

-- An operation at the worker `w`, for the homes of the keys: worker and engine.
abbrev pub AtHome : (Key → ℕ) → (Key → ℕ) → ℕ → HardOperation → Type 0
AtHome worker_of engine_of w (hard_reads i k v e) = (worker_of k ≡ w) × (engine_of k ≡ e)
AtHome worker_of engine_of w (hard_writes k v e) = (worker_of k ≡ w) × (engine_of k ≡ e)
AtHome worker_of engine_of w (hard_scans i) = Unit

-- The queue of a worker; behind the last one there is none.
abbrev pub queue_at : List HardQueue → ℕ → HardQueue
queue_at queues w = elim (get_elem? queues w) [ none ↦ [] | some q ↦ q ]

abbrev pub engine_at : List ℕ → ℕ → ℕ
engine_at storages p = elim (get_elem? storages p) [ none ↦ 0 | some e ↦ e ]

-- A map that has the keys at their homes.
abbrev pub Homed : (M : KeyStorage ℕ) → (Key → ℕ) → M.Store → Type 0
Homed M home m = (k : Key) (p : ℕ) → M.get m k ≡ some p → home k ≡ p

module _ {B : Backend} {S P : KeyStorage ℕ} {T : Tracking} (hash_func : Key → ℕ) where
  abbrev pub worker_of : HardThreaded B S P T → Key → ℕ
  worker_of s k = hash_func k % s.partition_count

  abbrev pub engine_of : HardThreaded B S P T → Key → ℕ
  engine_of s k = engine_at s.storages (worker_of s k)

  -- The value of a key, and what waits on it.
  abbrev pub value_of : HardThreaded B S P T → Key → Option Value
  value_of s k = held k (s.engines (engine_of s k))

  abbrev pub waiting_of : HardThreaded B S P T → Key → Queue
  waiting_of s k = waiting_on k (queue_at s.queues (worker_of s k))

  pub record HardInv (s : HardThreaded B S P T) : Type 0 where
    pub nonempty : 0 < s.partition_count
    pub sized : length s.queues ≡ s.partition_count
    pub engines : length s.storages ≡ s.partition_count
    pub live : (k : Key) → engine_of s k < s.allocated
    pub storages : Homed S (engine_of s) s.storage_map
    pub partitions : Homed P (worker_of s) s.partition_map
    pub paired :
        (k : Key) (e : ℕ)
        → S.get s.storage_map k ≡ some e
        → P.get s.partition_map k ≡ some (worker_of s k)
    pub placed :
        (w : ℕ) (q : HardQueue)
        → get_elem? s.queues w ≡ some q
        → All (AtHome (worker_of s) (engine_of s) w) q
    pub absent :
        (k : Key) → S.get s.storage_map k ≡ none → (value_of s k ≡ none) × (waiting_of s k ≡ [])

  -- What a step shows of every key.
  abbrev pub HardMoves : HardThreaded B S P T → List Event → HardThreaded B S P T → Type 0
  HardMoves s es t =
      HardInv t
      × ((k : Key) → Shows k (value_of s k) (waiting_of s k) es (value_of t k) (waiting_of t k))
