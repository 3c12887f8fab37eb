-- ===== src/HardThreaded/Steps.antt =====
-- Runs of the system: the callers' methods and the rounds of the workers in any order. A calm run
-- has no repartitioning.
use repart_kv.Common.{
  ℕ, ◌≡◌, Bool, false, Option, none, some, List, [], ◌∷◌, ◌++◌, get_elem?, if◌then◌else◌,
}
use repart_kv.Common.Result.{ok}
use repart_kv.Key.{Key, Value, key_eq}
use repart_kv.SortedMap.{Entries}
use repart_kv.Storage.{Backend, Status}
use repart_kv.KeyStorage.{KeyStorage}
use repart_kv.Tracking.{Tracking}
use repart_kv.Worker.{reads, writes, Queue, Reply, read_reply, scan_reply}
use repart_kv.HardWorker.{
  HardOperation, hard_reads, hard_writes, hard_scans, HardQueue, hard_worker, HardOutcome,
}
use repart_kv.SoftThreaded.{now, later}
use repart_kv.SoftThreaded.Steps.{Event, called, ended}
use repart_kv.HardThreaded.{
  HardThreaded, read_impl, write_impl, scan_impl, scan_enqueue, repartition_impl,
  enable_tracking_impl, after_round,
}

-- What the round for an operation ends.
abbrev pub hard_ends_of : HardOperation → List Reply → List Event
hard_ends_of (hard_reads i k old e) (read_reply j status value ∷ replies) =
    ended (reads i k old) (some (status, value)) ∷ []
hard_ends_of (hard_reads i k old e) [] = []
hard_ends_of (hard_reads i k old e) (scan_reply j status found ∷ replies) = []
hard_ends_of (hard_writes k v e) replies = ended (writes k v) none ∷ []
hard_ends_of (hard_scans i) replies = []

abbrev pub hard_ends_by : Option HardQueue → List Reply → List Event
hard_ends_by none replies = []
hard_ends_by (some []) replies = []
hard_ends_by (some (o ∷ q)) replies = hard_ends_of o replies

-- The reads and writes of a queue on the key `k`, without their engines.
abbrev pub waiting_on : Key → HardQueue → Queue
waiting_on k [] = []
waiting_on k (hard_reads i j v e ∷ q) =
    let rest = waiting_on k q in if key_eq j k then reads i j v ∷ rest else rest
waiting_on k (hard_writes j v e ∷ q) =
    let rest = waiting_on k q in if key_eq j k then writes j v ∷ rest else rest
waiting_on k (hard_scans i ∷ q) = waiting_on k q

module _ {B : Backend} {S P : KeyStorage ℕ} {T : Tracking} (hash_func : Key → ℕ) (calm : Bool) where
  pub data HardStep (s : HardThreaded B S P T) : List Event → HardThreaded B S P T → Type 0 where
    read_waits :
        (k : Key) (v : Value) (i : ℕ) {t : HardThreaded B S P T}
        → read_impl hash_func s k v ≡ ok (t, later i)
        → HardStep s (called (reads i k v) ∷ []) t
    read_returns :
        (k : Key) (v : Value) (status : Status) {t : HardThreaded B S P T}
        → read_impl hash_func s k v ≡ ok (t, now status)
        → HardStep s
            (called (reads s.next_id k v) ∷ ended (reads s.next_id k v) (some (status, v)) ∷ [])
            t
    write :
        (k : Key) (v : Value) (status : Status) {t : HardThreaded B S P T}
        → s.scanning ≡ []
        → write_impl hash_func s k v ≡ ok (t, status)
        → HardStep s (called (writes k v) ∷ []) t
    scan :
        (k : Key) (limit : ℕ) (results : Entries Value)
        → HardStep s [] (scan_impl hash_func s k limit results).0
    scan_on :
        (j i : ℕ) (ps : List ℕ) {t : HardThreaded B S P T}
        → get_elem? s.scanning j ≡ some (i, ps)
        → scan_enqueue s j i ps ≡ ok t
        → HardStep s [] t
    repartition :
        {t : HardThreaded B S P T}
        → calm ≡ false
        → s.scanning ≡ []
        → repartition_impl s ≡ ok t
        → HardStep s [] t
    enable : (flag : Bool) → HardStep s [] (enable_tracking_impl flag s)
    work :
        (w : ℕ) (r : HardOutcome B)
        → hard_worker w s.engines s.queues s.scans ≡ some r
        → HardStep s (hard_ends_by (get_elem? s.queues w) r.replies) (after_round s r)

  pub data HardRun : HardThreaded B S P T → List Event → HardThreaded B S P T → Type 0 where
    stop : {s : HardThreaded B S P T} → HardRun s [] s
    more :
        {s t u : HardThreaded B S P T} {es all : List Event} (ev : List Event)
        → HardStep s ev t
        → HardRun t es u
        → all ≡ ev ++ es
        → HardRun s all u
