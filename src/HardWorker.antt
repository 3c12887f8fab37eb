-- ===== src/HardWorker.antt =====
-- kvstorage/threaded/HardPartitionWorker.h and the operations of kvstorage/threaded/operation/ that
-- it takes: they name the engines that they work on. A pointer to an engine, and one to a scan
-- operation, is the index of the object in a heap.
use repart_kv.Common.{
  ℕ, Bool, false, Option, none, some, List, [], ◌∷◌, map, ◌==◌, length, get_elem?, set,
  if◌then◌else◌,
}
use repart_kv.Key.{Key, Value}
use repart_kv.SortedMap.{Entries}
use repart_kv.Storage.{Backend, StorageEngine, Status, pending, success}
use repart_kv.Hard.{contains}
use repart_kv.Worker.{Reply, read_reply, scan_reply}
use repart_kv.Storage

-- The number, the key, the caller's value and the engine of a read; the key, the value and the
-- engine of a write; the scan operation.
pub data HardOperation : Type 0 where
  hard_reads : ℕ → Key → Value → ℕ → HardOperation
  hard_writes : Key → Value → ℕ → HardOperation
  hard_scans : ℕ → HardOperation

abbrev pub HardQueue : Type 0
HardQueue = List HardOperation

-- `HardScanOperation`, with the workers that are at its first barrier.
pub record HardScan : Type 0 where
  pub storages : List ℕ
  pub partition_array : List ℕ
  pub results : Entries Value
  pub status : Status
  pub count : ℕ
  pub arrived : List ℕ

-- A heap after a write to the object `i`.
abbrev pub put_at {ℓ} : {A : Type ℓ} → ℕ → A → (ℕ → A) → ℕ → A
put_at i a heap j = if j == i then a else heap j

abbrev pub Engines : Backend → Type 0
Engines B = ℕ → StorageEngine B

abbrev pub or_success : Status → Status
or_success pending = success
or_success status = status

-- What a read for a scan leaves in the status and in the entry.
abbrev pub settle : Status → Status → Value → Value → Status × Value
settle success status value old = (status, value)
settle read_status status value old = (read_status, old)

-- Whether the scan is at the head of the queue.
unfoldable pub at_scan : ℕ → HardQueue → Bool
at_scan i (hard_scans j ∷ q) = i == j
at_scan i q = false

abbrev pub next_of : HardQueue → HardQueue
next_of [] = []
next_of (o ∷ q) = q

-- The workers at the barriers of the scan go on.
unfoldable pub pass_scan : ℕ → List HardQueue → List HardQueue
unfolding at_scan
pass_scan i queues = map (λ q. if at_scan i q then next_of q else q) queues

pub record HardOutcome (B : Backend) : Type 0 where
  pub engines : Engines B
  pub queues : List HardQueue
  pub scans : ℕ → HardScan
  pub replies : List Reply

module _ {B : Backend} where
  -- The loop of `scan`: the entries whose partition is that of the worker.
  unfoldable pub fill :
      ℕ → List ℕ → List ℕ → Entries Value → Status → Engines B → Engines B × Status × Entries Value
  fill w (p ∷ ps) (e ∷ es) ((key, old) ∷ results) status engines =
      let (storage, read_status, value) = Storage.read (engines e) key [] in
      let (status', value') = settle read_status status value old in
      let (engines₁, status₁, results₁) = fill w ps es results status' (put_at e storage engines) in
      let (engines₂, status₂, results₂) = fill w ps es results status engines in
      if p == w
      then (engines₁, status₁, (key, value') ∷ results₁)
      else (engines₂, status₂, (key, old) ∷ results₂)
  fill w ps es results status engines = (engines, status, results)

  -- What the worker `w` does with the operation at the head of its queue; `none` while it waits.
  unfoldable pub hard_process :
      ℕ
      → HardOperation
      → HardQueue
      → Engines B
      → List HardQueue
      → (ℕ → HardScan)
      → Option (HardOutcome B)
  unfolding fill pass_scan
  hard_process w (hard_reads i key old e) q engines queues scans =
      let (storage, status, value) = Storage.read (engines e) key old in
      some (record {
        engines = put_at e storage engines;
        queues = set queues w q;
        scans = scans;
        replies = read_reply i status value ∷ [];
      })
  hard_process w (hard_writes key value e) q engines queues scans = some (record {
    engines = put_at e (Storage.write (engines e) key value).0 engines;
    queues = set queues w q;
    scans = scans;
    replies = [];
  })
  hard_process w (hard_scans i) q engines queues scans =
      let o = scans i in
      let (engines', status, results) =
        fill w o.partition_array o.storages o.results o.status engines in
      let o' = record o { results = results; status = status; arrived = w ∷ o.arrived } in
      if contains w o.arrived
      then none
      else if length o'.arrived == o.count
      then some (record {
        engines = engines';
        queues = pass_scan i queues;
        scans = put_at i (record o' { status = or_success status }) scans;
        replies = scan_reply i (or_success status) results ∷ [];
      })
      else some
          (record { engines = engines'; queues = queues; scans = put_at i o' scans; replies = [] })

  -- One round of `worker_loop` of the worker `w`.
  unfoldable pub hard_worker :
      ℕ → Engines B → List HardQueue → (ℕ → HardScan) → Option (HardOutcome B)
  unfolding hard_process
  hard_worker w engines queues scans = elim (get_elem? queues w) [
    | none ↦ none
    | some [] ↦ none
    | some (o ∷ q) ↦ hard_process w o q engines queues scans
  ]
