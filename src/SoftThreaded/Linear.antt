-- ===== src/SoftThreaded/Linear.antt =====
-- What the callers of a running store see of one key: the sequence of its calls.
use mathlib.Core.List.{append-nil}
use repart_kv.Common.{
  get_elem?, ℕ, ◌≡◌, refl, sym, ap, ◌∙◌, Option, none, some, List, [], ◌∷◌, ◌++◌, Bool-cases, inl,
  inr, ◌<◌, subst,
}
use repart_kv.Common.Result.{ok, Returns}
use repart_kv.Key.{Key, Value}
use repart_kv.Storage.{Backend, found_or, Status, not_found}
use repart_kv.Storage.Laws.{held}
use repart_kv.KeyStorage.{KeyStorage}
use repart_kv.Tracking.{Tracking}
use repart_kv.Worker.{reads, writes}
use repart_kv.SoftThreaded.{
  SoftThreaded, now, later, read_impl, write_impl, Queue, success, repartition_impl,
}
use repart_kv.SoftThreaded.Steps.{
  Event, called, ended, calls_on, ends_on, operations_of, Shows-join, Step, Run, read_waits,
  read_returns, write, scan, scan_on, repartition, enable, work, Sequential, Sequential-start,
}
use repart_kv.SoftThreaded.Log.{Log, on_key, is_on}
use repart_kv.SoftThreaded.Invariant.{Inv, Idle-Moves, Moves}
use repart_kv.SoftThreaded.Submits.{Reaches, read_cases, write_moves}
use repart_kv.SoftThreaded.Scans.{scan_impl-Idle, scan_enqueue-Idle, enable_tracking_impl-Idle}
use repart_kv.SoftThreaded.Fences.{repartition_moves}
use repart_kv.SoftThreaded.Rounds.{round_moves}
use repart_kv.Key.Laws.{key_eq_iff}
use repart_kv.SoftThreaded.Start.{created, create-Inv, create-empty}
use repart_kv.SoftThreaded.Drain.{Scanless, Rounds, drain}

pub same_number : {m n : ℕ} → later m ≡ later n → m ≡ n
same_number e = cc

pub same_status : {x y : Status} → now x ≡ now y → x ≡ y
same_status e = cc

module _ {B : Backend} {P : KeyStorage ℕ} {T : Tracking} where
  same_state : {s t : SoftThreaded B P T} → ok s ≡ ok t → s ≡ t
  same_state e = cc

  same_pair : {A : Type 0} {a b : SoftThreaded B P T × A} → ok a ≡ ok b → a ≡ b
  same_pair e = cc

  -- A read of a key that the map does not have returns what it finds in sequence.
  return-Moves :
      (s : SoftThreaded B P T) (log : Log) (n : ℕ) (k : Key) (v : Value)
      → Inv s log
      → P.get s.key_map k ≡ none
      → Moves s log (called (reads n k v) ∷ ended (reads n k v) (some (not_found, v)) ∷ []) s log
  return-Moves s log n k v i miss = (
    i,
    λ j. elim (Bool-cases (is_on j (reads n k v))) [
      | inl on ↦
          let (gone, idle) =
            i.absent j (ap (P.get s.key_map) (sym ((key_eq_iff k j).0 on)) ∙ miss) in
          rw (on, idle)
            (record {
              in_order = refl;
              results = ap (λ x. (reads n k v, some (found_or v x)) ∷ []) (sym gone);
              value = refl;
            })
      | inr off ↦
          rw off (record { in_order = append-nil (on_key j log); results = refl; value = refl })
    ],
  )

  read_answers :
      (s : SoftThreaded B P T) (log : Log)
      → Inv s log
      → (k : Key) (v : Value)
      → Returns
          (read_impl s k v)
          λ r. r.1 ≡ elim (P.get s.key_map k) [ none ↦ now not_found | some p ↦ later s.next_id ]
  read_answers s log i k v = elim (read_cases s log i k v) [
    | inl (miss, r) ↦ rw (r, miss) refl
    | inr (p, hit, u, r, moves) ↦ rw (r, hit) refl
  ]

  module _ (hash_func : Key → ℕ) where
    -- Every step keeps the invariant, with the log that it leaves.
    pub step_moves :
        {s t : SoftThreaded B P T} {es : List Event} (log : Log)
        → Inv s log
        → Step hash_func s es t
        → Reaches s log es t
    step_moves {s} log i (read_waits k v n {t} e) = elim (read_cases s log i k v) [
      | inl (miss, r) ↦ absurd (cc (r, e))
      | inr (p, hit, u, r, moves) ↦
          let same : (u, later s.next_id) ≡ (t, later n) = same_pair (sym r ∙ e) in
          let number : s.next_id ≡ n = same_number (ap (λ x. x.1) same) in
          subst (λ n. Reaches s log (called (reads n k v) ∷ []) t) number
            (subst (Reaches s log (called (reads s.next_id k v) ∷ [])) (ap (λ x. x.0) same) moves)
    ]
    step_moves {s} log i (read_returns k v status {t} e) = elim (read_cases s log i k v) [
      | inl (miss, r) ↦
          let same : (s, now not_found) ≡ (t, now status) = same_pair (sym r ∙ e) in
          let found : not_found ≡ status = same_status (ap (λ x. x.1) same) in
          let o = reads s.next_id k v in
          subst (λ x. Reaches s log (called o ∷ ended o (some (x, v)) ∷ []) t) found
            (subst (Reaches s log (called o ∷ ended o (some (not_found, v)) ∷ []))
              (ap (λ x. x.0) same) (log, return-Moves s log s.next_id k v i miss))
      | inr (p, hit, u, r, moves) ↦ absurd (cc (r, e))
    ]
    step_moves {s} log i (write k v status {t} alone e) =
        let (u, r, moves) = write_moves s log i hash_func k v in
        subst (Reaches s log (called (writes k v) ∷ [])) (ap (λ x. x.0) (same_pair (sym r ∙ e)))
          moves
    step_moves {s} log i (scan k limit results) =
        (log, Idle-Moves s _ log i (scan_impl-Idle s log i k limit results))
    step_moves {s} log i (scan_on j o ps {t} e h) =
        (log, Idle-Moves s t log i (scan_enqueue-Idle s log i j o ps t e h))
    step_moves {s} log i (repartition {t} alone e) =
        let (u, r, moves) = repartition_moves s log i in
        subst (Reaches s log []) (same_state (sym r ∙ e)) moves
    step_moves {s} log i (enable flag) =
        (log, Idle-Moves s _ log i (enable_tracking_impl-Idle s log i flag))
    step_moves {s} log i (work w r e) = round_moves s log i w r e

    -- And so does a run.
    pub Run-Moves :
        {s t : SoftThreaded B P T} {es : List Event} (log : Log)
        → Inv s log
        → Run hash_func s es t
        → Reaches s log es t
    Run-Moves {s} log i (Run.stop) = (
      log,
      (i, λ k. record { in_order = append-nil (on_key k log); results = refl; value = refl }),
    )
    Run-Moves {s} {t} log i (Run.more {t = u} {es} ev h r e) =
        let (log₁, (j, shows)) = step_moves log i h in
        let (log₂, (l, rest)) = Run-Moves log₁ j r in
        subst (λ es. Reaches s log es t) (sym e)
          (log₂, (l, λ k. Shows-join k ev es (shows k) (rest k)))

    -- Any run from a new store, of reads, writes, scans, repartitionings, switches of the tracking
    -- and rounds of the workers in any order, shows of every key a sequence of its reads and
    -- writes: those that have ended are the first that were called, in the order of the calls,
    -- each read with the value that the writes before it leave; the engine holds what the ended
    -- writes leave.
    pub Run-Sequential :
        (partition_count : ℕ) (tracking_duration repartition_interval : Option ℕ)
        (paths : List Value)
        → 0 < partition_count
        → {t : SoftThreaded B P T} {es : List Event}
        → Run hash_func
            (created B P T partition_count tracking_duration repartition_interval paths)
            es
            t
        → (k : Key) → Sequential k es (held k t.storage)
    Run-Sequential n duration interval paths pos {t} {es} run k =
        let i = create-Inv B P T n duration interval paths pos in
        let (log, (j, shows)) = Run-Moves [] i run in
        Sequential-start k es _ _ (on_key k log) (create-empty B P T n duration interval paths k).1
          (shows k)

    -- In every state that a new store reaches, a read returns, for a key that the map does not have
    -- with `not_found`, and else to wait for its reply; a write returns with `success`; a
    -- repartitioning returns, with every value in the engine as it was.
    pub Run-Returns :
        (partition_count : ℕ) (tracking_duration repartition_interval : Option ℕ)
        (paths : List Value)
        → 0 < partition_count
        → {t : SoftThreaded B P T} {es : List Event}
        → Run hash_func
            (created B P T partition_count tracking_duration repartition_interval paths)
            es
            t
        → (k : Key) (v : Value)
        → Returns (read_impl t k v) (λ r.
          r.1 ≡ elim (P.get t.key_map k) [ none ↦ now not_found | some p ↦ later t.next_id ])
          × Returns (write_impl hash_func t k v) (λ r. r.1 ≡ success)
          × Returns (repartition_impl t) (λ u. (j : Key) → held j u.storage ≡ held j t.storage)
    Run-Returns n duration interval paths pos {t} {es} run k v =
        let (log, (i, shows)) = Run-Moves [] (create-Inv B P T n duration interval paths pos) run in
        let (u, written, moves) = write_moves t log i hash_func k v in
        let (x, repartitioned, (log', (j, kept))) = repartition_moves t log i in
        (read_answers t log i k v, rw written refl, rw repartitioned (λ l. (kept l).value))

    -- From every state that a new store reaches in which no scan is queued, the workers alone empty
    -- all the queues; then every read and write of every key that was called has ended.
    pub Run-Drains :
        (partition_count : ℕ) (tracking_duration repartition_interval : Option ℕ)
        (paths : List Value)
        → 0 < partition_count
        → {t : SoftThreaded B P T} {es : List Event}
        → Run hash_func
            (created B P T partition_count tracking_duration repartition_interval paths)
            es
            t
        → Scanless t.queues
        → (u : SoftThreaded B P T) × (fs : List Event) × Rounds t fs u
          × ((w : ℕ) (q : Queue) → get_elem? u.queues w ≡ some q → q ≡ [])
          × ((k : Key) → calls_on k (es ++ fs) ≡ operations_of (ends_on k (es ++ fs)))
    Run-Drains n duration interval paths pos {t} {es} run h =
        let (log, (i, shows)) = Run-Moves [] (create-Inv B P T n duration interval paths pos) run in
        let (u, fs, rounds, empty, (j, rest)) = drain log t i h in
        (u, fs, rounds, empty, λ k. (Shows-join k es fs (shows k) (rest k)).in_order ∙ append-nil _)
