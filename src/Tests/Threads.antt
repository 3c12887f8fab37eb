-- ===== src/Tests/Threads.antt =====
-- The theorems on the threaded soft store at a run of two workers.
use repart_kv.Common.{
  ℕ, zero, suc, ◌≡◌, refl, none, some, [], ◌∷◌, arith, length, List, Option, get_elem?, ◌++◌, subst,
}
use repart_kv.Key.{Key, key_eq, key_lt}
use repart_kv.Storage.{success, not_found}
use repart_kv.Storage.Map.Laws.{map_storage_engine}
use repart_kv.KeyStorage.Map.Laws.{map_key_storage}
use repart_kv.Instances.{settled_tracking}
use repart_kv.Worker.{reads, writes, enqueue, worker, Outcome, take_next, process, Queue}
use repart_kv.SoftThreaded.{
  SoftThreaded, create, read_impl, write_impl, track, later, after_round, now, repartition_impl,
}
use repart_kv.SoftThreaded.Steps.{
  Run, Step, Event, called, ended, calls_on, operations_of, ends_on, Sequential,
}
use repart_kv.SoftThreaded.Start.{created}
use repart_kv.SoftThreaded.Linear.{Run-Sequential, Run-Returns, Run-Drains}
use repart_kv.Common.Result.{Result, ok, err, Returns}
use repart_kv.KeyStorage.Map.{
  get_impl, get_or_insert_impl, lower_bound_impl, is_end_impl, get_key_impl, get_value_impl,
  increment_impl,
}
use repart_kv.SortedMap.{lookup, insert, lower_bound}
use repart_kv.SoftThreaded.Drain.{Scanless, Rounds}
use repart_kv.Storage.Laws.{held}
use repart_kv.SoftThreaded.Invariant.{core}
use repart_kv.Soft.{collect, sorted_partitions, insert_partition}
use repart_kv.SoftThreaded.Deadlock.{scan_impl-Deadlocks, Deadlocks, partitions_of}

abbrev key : ℕ → Key
key n = n ∷ []

abbrev hash : Key → ℕ
hash = length

abbrev Store : Type 0
Store = SoftThreaded map_storage_engine (map_key_storage 0) settled_tracking

abbrev new_store : Store
new_store = created map_storage_engine (map_key_storage 0) settled_tracking 2 none none []

-- A write and a read of one key, and the round of the worker that ends the write.
abbrev events : List Event
events =
    called (writes (key 1) (key 7))
    ∷ called (reads 0 (key 1) [])
    ∷ ended (writes (key 1) (key 7)) none
    ∷ []

abbrev result_or {ℓ} : {A : Type ℓ} → A → Result A → A
result_or d (ok a) = a
result_or d (err e) = d

abbrev outcome_or {ℓ} : {A : Type ℓ} → A → Option A → A
outcome_or d none = d
outcome_or d (some a) = a

abbrev wrote : Store
wrote = (result_or (new_store, success) (write_impl hash new_store (key 1) (key 7))).0

abbrev asked : Store
asked = (result_or (wrote, later 0) (read_impl wrote (key 1) [])).0

abbrev round_of : Store → Outcome map_storage_engine
round_of s =
    outcome_or (record { storage = s.storage; queues = s.queues; replies = [] })
      (worker 1 s.storage s.queues)

abbrev worked : Store
worked = after_round asked (round_of asked)

a-Run : Run hash new_store events worked
unfolding create write_impl read_impl enqueue track worker take_next process get_impl lookup
    get_or_insert_impl insert key_eq
a-Run =
    Run.more (called (writes (key 1) (key 7)) ∷ [])
      (Step.write (key 1) (key 7) success {t = wrote} refl refl)
      (Run.more (called (reads 0 (key 1) []) ∷ []) (Step.read_waits (key 1) [] 0 {t = asked} refl)
        (Run.more (ended (writes (key 1) (key 7)) none ∷ []) (Step.work 1 (round_of asked) refl)
          Run.stop refl)
        refl)
      refl

worked-Scanless : Scanless worked.queues
unfolding create write_impl read_impl enqueue track worker take_next process get_impl lookup
    get_or_insert_impl insert key_eq
worked-Scanless zero q e = let same : [] ≡ q = cc in subst (λ q. core q ≡ q) same refl
worked-Scanless (suc zero) q e =
    let same : reads 0 (key 1) [] ∷ [] ≡ q = cc in subst (λ q. core q ≡ q) same refl
worked-Scanless (suc (suc w)) q e = absurd (cc)

Run-Sequential_example : Sequential (key 1) events (held (key 1) worked.storage)
Run-Sequential_example = Run-Sequential hash 2 none none [] (omega arith) a-Run (key 1)

Run-Returns_example :
    Returns (read_impl worked (key 1) []) (λ r.
      r.1 ≡ elim ((map_key_storage 0).get worked.key_map (key 1)) [
        | none ↦ now not_found
        | some p ↦ later worked.next_id
      ])
    × Returns (write_impl hash worked (key 1) []) (λ r. r.1 ≡ success)
    × Returns (repartition_impl worked) (λ u. (j : Key) → held j u.storage ≡ held j worked.storage)
Run-Returns_example = Run-Returns hash 2 none none [] (omega arith) a-Run (key 1) []

Run-Drains_example :
    (u : Store) × (fs : List Event) × Rounds worked fs u
    × ((w : ℕ) (q : Queue) → get_elem? u.queues w ≡ some q → q ≡ [])
    × ((k : Key) → calls_on k (events ++ fs) ≡ operations_of (ends_on k (events ++ fs)))
Run-Drains_example = Run-Drains hash 2 none none [] (omega arith) a-Run worked-Scanless

-- Two keys, one in each partition.
abbrev two_keys : Store
two_keys = record new_store { key_map = (key 1, 0) ∷ (key 2, 1) ∷ [] }

in_both : partitions_of two_keys (key 1) 5 ≡ 0 ∷ 1 ∷ []
unfolding create collect sorted_partitions lower_bound key_lt insert_partition lower_bound_impl
    is_end_impl get_key_impl get_value_impl increment_impl
in_both = refl

scan_impl-Deadlocks_example : Deadlocks hash two_keys
unfolding create
scan_impl-Deadlocks_example =
    scan_impl-Deadlocks hash two_keys (key 1) (key 1) 5 5 [] [] refl refl in_both in_both
