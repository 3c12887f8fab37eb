-- ===== src/Worker.antt =====
-- kvstorage/threaded/SoftPartitionWorker.h and kvstorage/threaded/operation/: the operations, and
-- the workers that take them from their queues, one queue and one thread per partition. An
-- operation that several queues hold is one object: its number stands for the pointer. The
-- semaphores and the `spsc_queue` of a worker make a queue that is first in, first out; what is
-- modelled of a wait for room in it is its end.
use repart_kv.Common.{
  ℕ, suc, Bool, false, Option, none, some, List, [], ◌∷◌, ◌++◌, map, ◌==◌, length, get_elem?, set,
  if◌then◌else◌,
}
use repart_kv.Common.Result.{Result, ok, err, bad_index}
use repart_kv.Key.{Key, Value}
use repart_kv.SortedMap.{Entries}
use repart_kv.Storage.{Backend, StorageEngine, Status}
use repart_kv.Storage

-- `reads` holds the number, the key and the caller's value; `scans` the number, the start, the
-- caller's results, whose size is the limit, and the number of workers of its barriers; `syncs` the
-- number and that of workers.
pub data Operation : Type 0 where
  reads : ℕ → Key → Value → Operation
  writes : Key → Value → Operation
  scans : ℕ → Key → Entries Value → ℕ → Operation
  syncs : ℕ → ℕ → Operation

-- What a caller finds when its operation is over: the status, and its out parameter.
pub data Reply : Type 0 where
  read_reply : ℕ → Status → Value → Reply
  scan_reply : ℕ → Status → Entries Value → Reply

abbrev pub Queue : Type 0
Queue = List Operation

-- `enqueue`, at the worker `p` of the vector
unfoldable pub enqueue {ℓ} : {A : Type ℓ} → ℕ → A → List (List A) → Result (List (List A))
enqueue p o queues = elim (get_elem? queues p) [
  | none ↦ err bad_index
  | some q ↦ ok (set queues p (q ++ o ∷ []))
]

unfoldable pub enqueue_all : Operation → List Queue → List Queue
enqueue_all o queues = map (λ q. q ++ o ∷ []) queues

-- One operation object.
unfoldable pub same_operation : Operation → Operation → Bool
same_operation (scans i _ _ _) (scans j _ _ _) = i == j
same_operation (syncs i _) (syncs j _) = i == j
same_operation _ _ = false

-- Whether a worker waits at the barrier of `o`, the operation that it processes.
unfoldable pub waits_at : Operation → Queue → Bool
unfolding same_operation
waits_at o [] = false
waits_at o (p ∷ q) = same_operation o p

-- How many wait there.
unfoldable pub arrived : Operation → List Queue → ℕ
unfolding waits_at
arrived o [] = 0
arrived o (q ∷ queues) = let rest = arrived o queues in if waits_at o q then suc rest else rest

abbrev pub tail : Queue → Queue
tail [] = []
tail (o ∷ q) = q

-- The workers that wait there go on.
unfoldable pub pass : Operation → List Queue → List Queue
unfolding waits_at
pass o queues = map (λ q. if waits_at o q then tail q else q) queues

-- What a worker does with the operation at the head of its queue: the engine and the queues behind
-- it, and what the caller gets. A worker that waits at a barrier does nothing until all that share
-- the operation are there; then, for a scan, the coordinator reads, and all go on.
pub record Outcome (B : Backend) : Type 0 where
  pub storage : StorageEngine B
  pub queues : List Queue
  pub replies : List Reply

module _ {B : Backend} where
  unfoldable pub process : ℕ → Operation → Queue → StorageEngine B → List Queue → Option (Outcome B)
  unfolding arrived pass
  process w (reads i key old) q storage queues =
      let (storage', status, value) = Storage.read storage key old in
      some (record {
        storage = storage';
        queues = set queues w q;
        replies = read_reply i status value ∷ [];
      })
  process w (writes key value) q storage queues = some (record {
    storage = (Storage.write storage key value).0;
    queues = set queues w q;
    replies = [];
  })
  process w (scans i key results count) q storage queues =
      let (storage', status, found) = Storage.scan storage key (length results) results in
      if arrived (scans i key results count) queues == count
      then some (record {
        storage = storage';
        queues = pass (scans i key results count) queues;
        replies = scan_reply i status found ∷ [];
      })
      else none
  process w (syncs i count) q storage queues =
      if arrived (syncs i count) queues == count
      then some (record { storage = storage; queues = pass (syncs i count) queues; replies = [] })
      else none

  unfoldable pub take_next : ℕ → Queue → StorageEngine B → List Queue → Option (Outcome B)
  unfolding process
  take_next w [] storage queues = none
  take_next w (o ∷ q) storage queues = process w o q storage queues

  -- One round of `worker_loop` of the worker `w`; `none` while it waits.
  unfoldable pub worker : ℕ → StorageEngine B → List Queue → Option (Outcome B)
  unfolding take_next
  worker w storage queues = elim (get_elem? queues w) [
    | none ↦ none
    | some q ↦ take_next w q storage queues
  ]
