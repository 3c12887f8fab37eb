-- ===== src/Tests/HardThreads.antt =====
-- The theorems on the threaded hard store at a run of two workers.
use repart_kv.Common.{
  ℕ, refl, none, some, [], ◌∷◌, arith, length, List, Option, true, false, ltb, ◌≡◌, All, ◌<◌,
}
use repart_kv.Tracking.{Tracking}
use repart_kv.Common.Result.{Result, ok, err}
use repart_kv.Key.{Key, key_eq, key_lt}
use repart_kv.Storage.{success}
use repart_kv.Storage.Map.Laws.{map_storage_engine}
use repart_kv.KeyStorage.Map.Laws.{map_key_storage}
use repart_kv.KeyStorage.Map.{get_impl, get_or_insert_impl, put_impl}
use repart_kv.SortedMap.{lookup, insert}
use repart_kv.Instances.{settled_tracking}
use repart_kv.Hard.{at}
use repart_kv.Worker.{reads, writes, enqueue}
use repart_kv.SoftThreaded.{later}
use repart_kv.SoftThreaded.Steps.{Event, called, ended, Sequential}
use repart_kv.HardWorker.{HardOutcome, hard_worker, hard_process}
use repart_kv.HardThreaded.{
  HardThreaded, create, new_engines, read_impl, write_impl, track, partition_of, current,
  after_round,
}
use repart_kv.HardThreaded.Steps.{HardRun, HardStep}
use repart_kv.HardThreaded.Invariant.{value_of, HardInv}
use repart_kv.HardThreaded.Start.{new_store, create-HardInv}
use repart_kv.HardThreaded.Linear.{calm-Sequential}
use repart_kv.HardThreaded.Overtakes.{Overtakes, write_impl-Overtakes}
use repart_kv.Storage

abbrev key : ℕ → Key
key n = n ∷ []

abbrev hash : Key → ℕ
hash = length

abbrev Store : Type 0
Store = HardThreaded map_storage_engine (map_key_storage 0) (map_key_storage 0) settled_tracking

abbrev hard_store : Store
hard_store =
    new_store map_storage_engine (map_key_storage 0) (map_key_storage 0) settled_tracking 2 none
      none []

abbrev result_or {ℓ} : {A : Type ℓ} → A → Result A → A
result_or d (ok a) = a
result_or d (err e) = d

abbrev outcome_or {ℓ} : {A : Type ℓ} → A → Option A → A
outcome_or d none = d
outcome_or d (some a) = a

-- A write and a read of one key, and the round of the worker that ends the write.
abbrev events : List Event
events =
    called (writes (key 1) (key 7))
    ∷ called (reads 0 (key 1) [])
    ∷ ended (writes (key 1) (key 7)) none
    ∷ []

abbrev wrote : Store
wrote = (result_or (hard_store, success) (write_impl hash hard_store (key 1) (key 7))).0

abbrev asked : Store
asked = (result_or (wrote, later 0) (read_impl hash wrote (key 1) [])).0

abbrev round_of : Store → HardOutcome map_storage_engine
round_of s =
    outcome_or (record { engines = s.engines; queues = s.queues; scans = s.scans; replies = [] })
      (hard_worker 1 s.engines s.queues s.scans)

abbrev worked : Store
worked = after_round asked (round_of asked)

calm-HardRun : HardRun hash true hard_store events worked
unfolding create Storage.create new_engines write_impl at partition_of current read_impl enqueue
    track hard_worker hard_process get_impl put_impl lookup get_or_insert_impl insert key_eq key_lt
calm-HardRun =
    HardRun.more (called (writes (key 1) (key 7)) ∷ [])
      (HardStep.write (key 1) (key 7) success {t = wrote} refl refl)
      (HardRun.more (called (reads 0 (key 1) []) ∷ [])
        (HardStep.read_waits (key 1) [] 0 {t = asked} refl)
        (HardRun.more (ended (writes (key 1) (key 7)) none ∷ [])
          (HardStep.work 1 (round_of asked) refl) HardRun.stop refl)
        refl)
      refl

calm-Sequential_example : Sequential (key 1) events (value_of hash worked (key 1))
calm-Sequential_example = calm-Sequential hash 2 none none [] (omega arith) calm-HardRun (key 1)

first_part : (n : ℕ) → ltb 0 n ≡ true → All (λ p. p < n) (0 ∷ [])
first_part n h = (ground (arith, h), tt)

-- A tracker that always moves the one key to the first partition.
abbrev moving_tracking : Tracking
moving_tracking = record {
  State = Unit;
  create = tt;
  update = λ t k. (t, false);
  multi_update = λ t ks. (t, false);
  prepare_for_partition_map_update = λ t n. (t, ltb 0 n);
  get_metis_partitions = λ t. 0 ∷ [];
  get_idx_to_vertex = λ t. key 1 ∷ [];
  lock_and_clear_graph = λ t. t;
  partitions-length = λ t n h. refl;
  partitions-InRange = λ t n h. first_part n h;
}

abbrev moving_store :
    HardThreaded map_storage_engine (map_key_storage 0) (map_key_storage 0) moving_tracking
moving_store =
    new_store map_storage_engine (map_key_storage 0) (map_key_storage 0) moving_tracking 2 none none
      []

moving_store-HardInv : HardInv hash moving_store
moving_store-HardInv =
    create-HardInv map_storage_engine (map_key_storage 0) (map_key_storage 0) moving_tracking 2 none
      none [] hash (omega arith)

write_impl-Overtakes_example : Overtakes hash moving_store (key 1) (key 7) []
unfolding create key_eq
write_impl-Overtakes_example =
    write_impl-Overtakes hash moving_store (key 1) (key 7) [] 0 moving_store-HardInv refl refl refl
      refl refl refl
