-- ===== src/HardThreaded/Linear.antt =====
-- What the callers see of one key while there is no repartitioning: the sequence of its calls.
use mathlib.Core.List.{append-nil}
use repart_kv.Common.{
  ℕ, ◌<◌, ◌≡◌, refl, sym, ap, ◌∙◌, true, Option, none, some, List, [], ◌∷◌, Bool-cases, inl, inr,
  subst,
}
use repart_kv.Common.Result.{ok}
use repart_kv.Key.{Key, Value}
use repart_kv.Key.Laws.{key_eq_iff}
use repart_kv.Storage.{Backend, found_or, not_found}
use repart_kv.KeyStorage.{KeyStorage}
use repart_kv.Tracking.{Tracking}
use repart_kv.Worker.{reads, writes}
use repart_kv.SoftThreaded.{now, later}
use repart_kv.SoftThreaded.Log.{is_on}
use repart_kv.SoftThreaded.Linear.{same_status, same_number}
use repart_kv.SoftThreaded.Steps.{
  Event, called, ended, Shows, Shows-join, Sequential-start, Sequential,
}
use repart_kv.HardThreaded.{HardThreaded}
use repart_kv.HardThreaded.Start.{new_store, create-HardInv, no_engine}
use repart_kv.HardThreaded.Steps.{HardStep, HardRun}
use repart_kv.HardThreaded.Invariant.{HardInv, HardMoves, value_of, waiting_of}
use repart_kv.HardThreaded.Submits.{read_cases, write_moves}
use repart_kv.HardThreaded.Scans.{scan_moves, scan_enqueue_moves, enable_moves}
use repart_kv.HardThreaded.Rounds.{round_moves}

module _ {B : Backend} {S P : KeyStorage ℕ} {T : Tracking} (hash_func : Key → ℕ) where
  same_state : {s t : HardThreaded B S P T} → ok s ≡ ok t → s ≡ t
  same_state e = cc

  same_pair : {A : Type 0} {a b : HardThreaded B S P T × A} → ok a ≡ ok b → a ≡ b
  same_pair e = cc

  -- A read of a key that no engine has returns what it finds in sequence.
  return-HardMoves :
      (s : HardThreaded B S P T) (n : ℕ) (k : Key) (v : Value)
      → HardInv hash_func s
      → S.get s.storage_map k ≡ none
      → HardMoves hash_func s
          (called (reads n k v) ∷ ended (reads n k v) (some (not_found, v)) ∷ [])
          s
  return-HardMoves s n k v i miss = (
    i,
    λ j. elim (Bool-cases (is_on j (reads n k v))) [
      | inl on ↦
          let (gone, idle) =
            i.absent j (ap (S.get s.storage_map) (sym ((key_eq_iff k j).0 on)) ∙ miss) in
          rw (on, idle)
            (record {
              in_order = refl;
              results = ap (λ x. (reads n k v, some (found_or v x)) ∷ []) (sym gone);
              value = refl;
            })
      | inr off ↦ rw off (record {
        in_order = append-nil (waiting_of hash_func s j);
        results = refl;
        value = refl;
      })
    ],
  )

  step_moves :
      {s t : HardThreaded B S P T} {es : List Event}
      → HardInv hash_func s
      → HardStep hash_func true s es t
      → HardMoves hash_func s es t
  step_moves {s} i (HardStep.read_waits k v n {t} e) = elim (read_cases hash_func s i k v) [
    | inl (miss, r) ↦ absurd (cc (r, e))
    | inr (u, r, moves) ↦
        let same : (u, later s.next_id) ≡ (t, later n) = same_pair (sym r ∙ e) in
        let number : s.next_id ≡ n = same_number (ap (λ x. x.1) same) in
        subst (λ n. HardMoves hash_func s (called (reads n k v) ∷ []) t) number
          (subst (HardMoves hash_func s (called (reads s.next_id k v) ∷ [])) (ap (λ x. x.0) same)
            moves)
  ]
  step_moves {s} i (HardStep.read_returns k v status {t} e) = elim (read_cases hash_func s i k v) [
    | inl (miss, r) ↦
        let same : (s, now not_found) ≡ (t, now status) = same_pair (sym r ∙ e) in
        let found : not_found ≡ status = same_status (ap (λ x. x.1) same) in
        let o = reads s.next_id k v in
        subst (λ x. HardMoves hash_func s (called o ∷ ended o (some (x, v)) ∷ []) t) found
          (subst (HardMoves hash_func s (called o ∷ ended o (some (not_found, v)) ∷ []))
            (ap (λ x. x.0) same) (return-HardMoves s s.next_id k v i miss))
    | inr (u, r, moves) ↦ absurd (cc (r, e))
  ]
  step_moves {s} i (HardStep.write k v status {t} alone e) =
      let (u, r, moves) = write_moves hash_func s i k v in
      subst (HardMoves hash_func s (called (writes k v) ∷ []))
        (ap (λ x. x.0) (same_pair (sym r ∙ e))) moves
  step_moves {s} i (HardStep.scan k limit results) = scan_moves hash_func s i k limit results
  step_moves {s} i (HardStep.scan_on j n ps {t} e h) = scan_enqueue_moves hash_func s i j n ps t h
  step_moves {s} i (HardStep.repartition wild alone e) = absurd (cc (wild))
  step_moves {s} i (HardStep.enable flag) = enable_moves hash_func s i flag
  step_moves {s} i (HardStep.work w r e) = round_moves hash_func s i w r e

  calm_moves :
      {s t : HardThreaded B S P T} {es : List Event}
      → HardInv hash_func s
      → HardRun hash_func true s es t
      → HardMoves hash_func s es t
  calm_moves {s} i HardRun.stop = (
    i,
    λ k. record { in_order = append-nil (waiting_of hash_func s k); results = refl; value = refl },
  )
  calm_moves {s} {t} i (HardRun.more {t = u} {es} ev h r e) =
      let (j, shows) = step_moves i h in
      let (l, rest) = calm_moves j r in
      subst (λ es. HardMoves hash_func s es t) (sym e)
        (l, λ k. Shows-join k ev es (shows k) (rest k))

  -- Any run from a new store with at least one partition in which there is no repartitioning, of
  -- reads, writes, scans, switches of the tracking and rounds of the workers in any order, shows of
  -- every key a sequence of its reads and writes: those that have ended are the first that were
  -- called, in the order of the calls, each read with the value that the writes before it leave;
  -- the engine that the hash of the key names holds what the ended writes leave.
  pub calm-Sequential :
      (partition_count : ℕ) (tracking_duration repartition_interval : Option ℕ) (paths : List Value)
      (pos : 0 < partition_count)
      → {t : HardThreaded B S P T} {es : List Event}
      → HardRun hash_func true
          (new_store B S P T partition_count tracking_duration repartition_interval paths)
          es
          t
      → (k : Key) → Sequential k es (value_of hash_func t k)
  calm-Sequential n duration interval paths pos {t} {es} run k =
      let i = create-HardInv B S P T n duration interval paths hash_func pos in
      let shows = (calm_moves i run).1 k in
      let (empty, idle) = i.absent k (no_engine B S P T n duration interval paths k) in
      Sequential-start k es (value_of hash_func (new_store B S P T n duration interval paths) k)
        (value_of hash_func t k) (waiting_of hash_func t k) empty
        (subst
          (λ m.
            Shows k (value_of hash_func (new_store B S P T n duration interval paths) k) m es
              (value_of hash_func t k) (waiting_of hash_func t k))
          idle shows)
