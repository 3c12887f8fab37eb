-- ===== src/HardThreaded/Rounds.antt =====
-- A round of a worker: it ends the first operation of its queue, or does its part of a scan.
use repart_kv.Common.{
  ℕ, zero, suc, ◌≡◌, refl, sym, ap, ◌∙◌, false, none, some, List, [], ◌∷◌, arith, All, length,
  get_elem?, set, if◌then◌else◌, Option-cases, Bool-cases, inl, inr, subst, get_elem?-map,
  length-map, ◌==◌, ==_iff,
}
use repart_kv.Key.{Key, Value, key_eq}
use repart_kv.Key.Laws.{key_eq_iff}
use repart_kv.Storage.{Backend, StorageEngine, Status, found_or, success, pending, not_found, error}
use repart_kv.Storage.Laws.{held, held-write, read_result}
use repart_kv.KeyStorage.{KeyStorage}
use repart_kv.Tracking.{Tracking}
use repart_kv.Worker.{reads, writes}
use repart_kv.Hard.{contains}
use repart_kv.SoftThreaded.Steps.{ended}
use repart_kv.HardWorker.{
  HardOperation, hard_reads, hard_writes, hard_scans, HardQueue, HardScan, put_at, fill,
  hard_process, hard_worker, pass_scan, at_scan, next_of, HardOutcome,
}
use repart_kv.HardThreaded.{HardThreaded, after_round}
use repart_kv.HardThreaded.Steps.{waiting_on, hard_ends_of, hard_ends_by}
use repart_kv.HardThreaded.Invariant.{
  AtHome, queue_at, HardInv, HardMoves, worker_of, engine_of, value_of,
}
use repart_kv.HardThreaded.Scans.{quiet, same_map}
use repart_kv.HardThreaded.Heads.{data_moves, held-fill, held-put_at-read, at_head}
use repart_kv.Storage

module _ {B : Backend} {S P : KeyStorage ℕ} {T : Tracking} (hash_func : Key → ℕ)
    (s : HardThreaded B S P T) (i : HardInv hash_func s) (w : ℕ) where
  read_moves :
      (n : ℕ) (k : Key) (old : Value) (e : ℕ) (q : HardQueue)
      → get_elem? s.queues w ≡ some (hard_reads n k old e ∷ q)
      → let found = Storage.read (s.engines e) k old in
        HardMoves hash_func s
          (ended (reads n k old) (some (found.1, found.2)) ∷ [])
          (record s { engines = put_at e found.0 s.engines; queues = set s.queues w q })
  read_moves n k old e q there =
      let found = Storage.read (s.engines e) k old in
      let at_home : engine_of hash_func s k ≡ e =
        (at_head hash_func s i w (hard_reads n k old e) q there).1 in
      data_moves hash_func s i w (hard_reads n k old e) q there (put_at e found.0 s.engines)
        (reads n k old) (some (found.1, found.2)) (λ j. refl)
        (λ j on.
          ap (λ x. (reads n k old, some x) ∷ [])
            (read_result (s.engines e) k old
              ∙ ap (λ x. found_or old (held k (s.engines x))) (sym at_home)
              ∙ ap (λ j. found_or old (value_of hash_func s j)) ((key_eq_iff k j).0 on)))
        (λ j. held-put_at-read s.engines e (engine_of hash_func s j) k j old ∙ ground arith)

  elsewhere :
      (e : ℕ) (k j : Key)
      → engine_of hash_func s k ≡ e
      → (engine_of hash_func s j == e) ≡ false
      → key_eq k j ≡ false
  elsewhere e k j at_home other = elim (Bool-cases (key_eq k j)) [
    | inr off ↦ off
    | inl same ↦
        let at : engine_of hash_func s j ≡ e =
          ap (engine_of hash_func s) (sym ((key_eq_iff k j).0 same)) ∙ at_home in
        absurd (cc ((==_iff (engine_of hash_func s j) e).1 at, other))
  ]

  held-put_at-write :
      (e : ℕ) (k j : Key) (v : Value)
      → engine_of hash_func s k ≡ e
      → held j (put_at e (Storage.write (s.engines e) k v).0 s.engines (engine_of hash_func s j))
        ≡ (if key_eq k j then some v else value_of hash_func s j)
  held-put_at-write e k j v at_home = elim (Bool-cases (engine_of hash_func s j == e)) [
    | inl same ↦
        let at : e ≡ engine_of hash_func s j = sym ((==_iff (engine_of hash_func s j) e).0 same) in
        rw same (
          held-write (s.engines e) k j v
          ∙ ap (λ x. if key_eq k j then some v else held j (s.engines x)) at)
    | inr other ↦ let off = elsewhere e k j at_home other in rw (other, off) refl
  ]

  write_moves :
      (k : Key) (v : Value) (e : ℕ) (q : HardQueue)
      → get_elem? s.queues w ≡ some (hard_writes k v e ∷ q)
      → HardMoves hash_func s (ended (writes k v) none ∷ []) (record s {
        engines = put_at e (Storage.write (s.engines e) k v).0 s.engines;
        queues = set s.queues w q;
      })
  write_moves k v e q there =
      data_moves hash_func s i w (hard_writes k v e) q there
        (put_at e (Storage.write (s.engines e) k v).0 s.engines) (writes k v) none (λ j. refl)
        (λ j on. refl)
        (λ j. held-put_at-write e k j v (at_head hash_func s i w (hard_writes k v e) q there).1)

  pass-keeps :
      (n : ℕ) (q : HardQueue) (k : Key)
      → waiting_on k (if at_scan n q then next_of q else q) ≡ waiting_on k q
  unfolding at_scan
  pass-keeps n [] k = refl
  pass-keeps n (hard_reads j l v e ∷ q) k = refl
  pass-keeps n (hard_writes l v e ∷ q) k = refl
  pass-keeps n (hard_scans j ∷ q) k = ground arith

  pass-placed :
      (n v : ℕ) (q : HardQueue)
      → All (AtHome (worker_of hash_func s) (engine_of hash_func s) v) q
      → All
          (AtHome (worker_of hash_func s) (engine_of hash_func s) v)
          (if at_scan n q then next_of q else q)
  unfolding at_scan
  pass-placed n v [] h = tt
  pass-placed n v (hard_reads j l x e ∷ q) h = h
  pass-placed n v (hard_writes l x e ∷ q) h = h
  pass-placed n v (hard_scans j ∷ q) h = elim (Bool-cases (n == j)) [
    | inl same ↦ rw same h.1
    | inr other ↦ rw other h
  ]

  queue_at-pass :
      (n : ℕ) (queues : List HardQueue) (v : ℕ) (k : Key)
      → waiting_on k (queue_at (pass_scan n queues) v) ≡ waiting_on k (queue_at queues v)
  unfolding pass_scan
  queue_at-pass n [] v k = refl
  queue_at-pass n (q ∷ queues) zero k = pass-keeps n q k
  queue_at-pass n (q ∷ queues) (suc v) k = queue_at-pass n queues v k

  -- A part of a scan: counters, and, if it is the last part, the barriers.
  scan_part :
      (n : ℕ) (scans : ℕ → HardScan)
      → let o = s.scans n in
        let engines = (fill w o.partition_array o.storages o.results o.status s.engines).0 in
        HardMoves hash_func s [] (record s { engines = engines; scans = scans })
        × HardMoves hash_func s []
            (record s { engines = engines; queues = pass_scan n s.queues; scans = scans })
  unfolding pass_scan
  scan_part n scans =
      let o = s.scans n in
      let f = λ (q : HardQueue). if at_scan n q then next_of q else q in
      let values = held-fill w o.partition_array o.storages o.results o.status s.engines in
      (
        quiet hash_func s i s.partition_map _ s.queues scans s.scanning s.tracker s.next_id
            s.enable_tracking (same_map hash_func s i) values refl i.placed (λ k. refl),
        quiet hash_func s i s.partition_map _ (pass_scan n s.queues) scans s.scanning s.tracker
            s.next_id s.enable_tracking (same_map hash_func s i) values (length-map f s.queues)
            (λ v q e.
              let (r, er, eq) = get_elem?-map f s.queues v q e in
              subst (All (AtHome (worker_of hash_func s) (engine_of hash_func s) v)) (sym eq)
                (pass-placed n v r (i.placed v r er)))
            (λ k. queue_at-pass n s.queues (worker_of hash_func s k) k),
      )

  some_outcome : {a b : HardOutcome B} → some a ≡ some b → a ≡ b
  some_outcome e = cc

  process_moves :
      (o : HardOperation) (q : HardQueue) (r : HardOutcome B)
      → get_elem? s.queues w ≡ some (o ∷ q)
      → hard_process w o q s.engines s.queues s.scans ≡ some r
      → HardMoves hash_func s (hard_ends_of o r.replies) (after_round s r)
  unfolding hard_process
  process_moves (hard_reads n k old e) q r there h =
      subst
        (λ r.
          HardMoves hash_func s (hard_ends_of (hard_reads n k old e) r.replies) (after_round s r))
        (some_outcome h) (read_moves n k old e q there)
  process_moves (hard_writes k v e) q r there h =
      subst
        (λ r. HardMoves hash_func s (hard_ends_of (hard_writes k v e) r.replies) (after_round s r))
        (some_outcome h) (write_moves k v e q there)
  process_moves (hard_scans n) q r there h =
      let o = s.scans n in
      elim (Bool-cases (contains w o.arrived)) [
        | inl waits ↦ absurd (cc (rw (hard_process, waits) at h))
        | inr comes ↦ elim (Bool-cases (suc (length o.arrived) == o.count)) [
          | inl last ↦
              subst (λ r. HardMoves hash_func s [] (after_round s r))
                (some_outcome (rw (hard_process, comes, last) at h)) (scan_part n _).1
          | inr more ↦
              subst (λ r. HardMoves hash_func s [] (after_round s r))
                (some_outcome (rw (hard_process, comes, more) at h)) (scan_part n _).0
        ]
      ]

  -- A round of the worker, whatever it does.
  pub round_moves :
      (r : HardOutcome B)
      → hard_worker w s.engines s.queues s.scans ≡ some r
      → HardMoves hash_func s (hard_ends_by (get_elem? s.queues w) r.replies) (after_round s r)
  unfolding hard_worker
  round_moves r e = elim (Option-cases (get_elem? s.queues w)) [
    | inl missing ↦ absurd (cc (rw (hard_worker, missing) at e))
    | inr ([], there) ↦ absurd (cc (rw (hard_worker, there) at e))
    | inr (o ∷ q, there) ↦ rw there (process_moves o q r there (rw (hard_worker, there) at e))
  ]
