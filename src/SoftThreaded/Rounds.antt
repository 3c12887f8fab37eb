-- ===== src/SoftThreaded/Rounds.antt =====
-- A round of a worker: it ends the first operation of its part of the log, or passes a barrier.
use mathlib.Core.List.{append-nil}
use repart_kv.Common.{
  ℕ, ◌≡◌, refl, sym, ap, ◌∙◌, true, false, Option, none, some, List, [], ◌∷◌, arith, All, length,
  if◌then◌else◌, Bool-cases, inl, inr, get_elem?, set, length-set, Option-cases, subst, ◌==◌,
  ==_iff,
}
use repart_kv.Key.{Key, Value}
use repart_kv.Key.Laws.{key_eq_iff}
use repart_kv.SortedMap.{Entries}
use repart_kv.Storage.{Backend, found_or}
use repart_kv.Storage.Laws.{held, held-read, held-write, read_result}
use repart_kv.KeyStorage.{KeyStorage}
use repart_kv.Tracking.{Tracking}
use repart_kv.Worker.{
  Operation, reads, writes, scans, syncs, Queue, worker, take_next, process, Outcome, arrived, pass,
}
use repart_kv.SoftThreaded.{SoftThreaded, after_round, StorageEngine, Status}
use repart_kv.SoftThreaded.Steps.{ends_of, ends_by, replay, value_after, Shows, ended}
use repart_kv.SoftThreaded.Log.{Log, Good, on_key, remove, is_data, is_on, part}
use repart_kv.SoftThreaded.Invariant.{Inv, Idle, Idle-Moves, Moves, core, Parts}
use repart_kv.SoftThreaded.Queues.{Parts-remove, Parts-pass, Parts-sync, length-pass, sync_count}
use repart_kv.SoftThreaded.Submits.{Reaches}
use repart_kv.SoftThreaded.Log.Remove.{
  on_key-remove, on_key-remove_other, Good-remove, Ordered-remove, Recent-remove,
}
use repart_kv.Storage

module _ {B : Backend} {P : KeyStorage ℕ} {T : Tracking} (s : SoftThreaded B P T) (log : Log)
    (i : Inv s log) (w : ℕ) where
  -- A read or a write at the head of the queue is done.
  module _ (o : Operation) (q : Queue) (there : get_elem? s.queues w ≡ some (o ∷ q))
      (d : is_data o ≡ true) (storage : StorageEngine B) (res : Option (Status × Value))
      (results : (k : Key) → is_on k o ≡ true → (o, res) ∷ [] ≡ replay (held k s.storage) (o ∷ []))
      (values : (k : Key)
        → held k storage
          ≡ (if is_on k o then value_after (held k s.storage) (o ∷ []) else held k s.storage)) where
    head : part w log ≡ o ∷ core q
    head = (Parts-remove s.partition_count s.queues log w o q i.good i.parts there d).0

    first : (k : Key) → is_on k o ≡ true → on_key k log ≡ o ∷ on_key k (remove w log)
    first k on = on_key-remove s.partition_count w o (core q) d k log i.good head i.ordered on

    others : (k : Key) → is_on k o ≡ false → on_key k (remove w log) ≡ on_key k log
    others k off = on_key-remove_other s.partition_count w o (core q) d k log i.good head off

    abbrev done : SoftThreaded B P T
    done = record s { storage = storage; queues = set s.queues w q }

    done-absent :
        (k : Key)
        → P.get s.key_map k ≡ none
        → (held k storage ≡ none) × (on_key k (remove w log) ≡ [])
    done-absent k h =
        let (v, none_on) = i.absent k h in
        elim (Bool-cases (is_on k o)) [
          | inl on ↦ absurd (cc (first k on, none_on))
          | inr off ↦ (values k ∙ rw off v, others k off ∙ none_on)
        ]

    done-Inv : Inv done (remove w log)
    done-Inv = record {
      nonempty = i.nonempty;
      sized = length-set s.queues w q ∙ i.sized;
      valid = i.valid;
      mapped = i.mapped;
      parts = (Parts-remove s.partition_count s.queues log w o q i.good i.parts there d).1;
      good = Good-remove s.partition_count w o (core q) d log i.good head;
      ordered = Ordered-remove s.partition_count w o (core q) d log i.good head i.ordered;
      recent =
          Recent-remove s.partition_count w o (core q) d (P.get s.key_map) log i.good head i.recent;
      absent = done-absent;
      only_scans = i.only_scans;
    }

    done-Shows :
        (k : Key)
        → Shows k
            (held k s.storage)
            (on_key k log)
            (ended o res ∷ [])
            (held k storage)
            (on_key k (remove w log))
    done-Shows k = elim (Bool-cases (is_on k o)) [
      | inl on ↦ rw on (record {
        in_order = append-nil (on_key k log) ∙ first k on;
        results = results k on;
        value = values k ∙ rw on refl;
      })
      | inr off ↦ rw off (record {
        in_order = append-nil (on_key k log) ∙ sym (others k off);
        results = refl;
        value = values k ∙ rw off refl;
      })
    ]

    pub done-Moves : Moves s log (ended o res ∷ []) done (remove w log)
    done-Moves = (done-Inv, done-Shows)

  -- The round of a read and of a write.
  pub read_round :
      (n : ℕ) (k : Key) (old : Value) (q : Queue)
      → get_elem? s.queues w ≡ some (reads n k old ∷ q)
      → let found = Storage.read s.storage k old in
        Moves s log
          (ended (reads n k old) (some (found.1, found.2)) ∷ [])
          (record s { storage = found.0; queues = set s.queues w q })
          (remove w log)
  read_round n k old q there =
      let found = Storage.read s.storage k old in
      done-Moves (reads n k old) q there refl found.0 (some (found.1, found.2))
        (λ j on.
          let at : k ≡ j = (key_eq_iff k j).0 on in
          ap (λ x. (reads n k old, some x) ∷ [])
            (read_result s.storage k old ∙ ap (λ j. found_or old (held j s.storage)) at))
        (λ j. held-read s.storage k j old ∙ ground arith)

  pub write_round :
      (k : Key) (v : Value) (q : Queue)
      → get_elem? s.queues w ≡ some (writes k v ∷ q)
      → Moves s log
          (ended (writes k v) none ∷ [])
          (record s { storage = (Storage.write s.storage k v).0; queues = set s.queues w q })
          (remove w log)
  write_round k v q there =
      done-Moves (writes k v) q there refl (Storage.write s.storage k v).0 none (λ j on. refl)
        (λ j. held-write s.storage k j v)

  scan_round :
      (n c : ℕ) (k : Key) (results : Entries Value)
      → Idle s
          (record s {
            storage = (Storage.scan s.storage k (length results) results).0;
            queues = pass (scans n k results c) s.queues;
          })
          log
  unfolding Storage.scan
  scan_round n c k results = record {
    values = λ j. refl;
    key_map = refl;
    count = refl;
    sized = length-pass (scans n k results c) s.queues;
    parts = Parts-pass s.queues log n c k results i.parts;
    only_scans = i.only_scans;
  }

  -- No key is on the sync at the head of a log.
  fence_keys :
      (k : Key) (o : Operation) (l : Log)
      → All (Good s.partition_count) ((none, o) ∷ l)
      → on_key k ((none, o) ∷ l) ≡ on_key k l
  fence_keys k o l g = rw g.0.1 refl

  pub fence_passed :
      (o : Operation) (l : Log) (queues : List Queue)
      → Inv s ((none, o) ∷ l)
      → length queues ≡ length s.queues
      → Parts queues l
      → Moves s ((none, o) ∷ l) [] (record s { queues = queues }) l
  fence_passed o l queues j len parts = (
    record {
      nonempty = j.nonempty;
      sized = len ∙ j.sized;
      valid = j.valid;
      mapped = j.mapped;
      parts = parts;
      good = j.good.1;
      ordered = j.ordered;
      recent = j.recent;
      absent = λ k h. let (v, on) = j.absent k h in (v, sym (fence_keys k o l j.good) ∙ on);
      only_scans = j.only_scans;
    },
    λ k. record {
      in_order = append-nil (on_key k ((none, o) ∷ l)) ∙ fence_keys k o l j.good;
      results = refl;
      value = refl;
    },
  )

  sync_round :
      (n c : ℕ) (q : Queue)
      → get_elem? s.queues w ≡ some (syncs n c ∷ q)
      → arrived (syncs n c) s.queues ≡ c
      → Reaches s log [] (record s { queues = pass (syncs n c) s.queues })
  sync_round n c q there all =
      let same : c ≡ s.partition_count =
        sync_count s.partition_count w n c (core q) log i.good
          (sym (i.parts w (syncs n c ∷ q) there)) in
      let (o, l, e, parts) =
        Parts-sync s.partition_count s.queues log n i.nonempty i.sized i.good i.parts
          (subst (λ c. arrived (syncs n c) s.queues ≡ c) same all) in
      let queues = pass (syncs n s.partition_count) s.queues in
      let moves =
        fence_passed o l queues (subst (Inv s) e i)
          (length-pass (syncs n s.partition_count) s.queues) parts in
      subst (λ c. Reaches s log [] (record s { queues = pass (syncs n c) s.queues })) (sym same)
        (l, subst (λ m. Moves s m [] (record s { queues = queues }) l) (sym e) moves)

  some_outcome : {a b : Outcome B} → some a ≡ some b → a ≡ b
  some_outcome e = cc

  process_moves :
      (o : Operation) (q : Queue) (r : Outcome B)
      → get_elem? s.queues w ≡ some (o ∷ q)
      → process w o q s.storage s.queues ≡ some r
      → Reaches s log (ends_of o r.replies) (after_round s r)
  unfolding process
  process_moves (reads n k old) q r there e =
      subst (λ r. Reaches s log (ends_of (reads n k old) r.replies) (after_round s r))
        (some_outcome e) (remove w log, read_round n k old q there)
  process_moves (writes k v) q r there e =
      subst (λ r. Reaches s log (ends_of (writes k v) r.replies) (after_round s r)) (some_outcome e)
        (remove w log, write_round k v q there)
  process_moves (scans n k results c) q r there e =
      elim (Bool-cases (arrived (scans n k results c) s.queues == c)) [
        | inl all ↦
            subst (λ r. Reaches s log [] (after_round s r)) (some_outcome (rw (process, all) at e))
              (log, Idle-Moves s _ log i (scan_round n c k results))
        | inr some_missing ↦ absurd (cc (rw (process, some_missing) at e))
      ]
  process_moves (syncs n c) q r there e = elim (Bool-cases (arrived (syncs n c) s.queues == c)) [
    | inl all ↦
        subst (λ r. Reaches s log [] (after_round s r)) (some_outcome (rw (process, all) at e))
          (sync_round n c q there ((==_iff (arrived (syncs n c) s.queues) c).0 all))
    | inr some_missing ↦ absurd (cc (rw (process, some_missing) at e))
  ]

  -- A round of the worker `w`, whatever it does.
  pub round_moves :
      (r : Outcome B)
      → worker w s.storage s.queues ≡ some r
      → Reaches s log (ends_by (get_elem? s.queues w) r.replies) (after_round s r)
  unfolding worker take_next
  round_moves r e = elim (Option-cases (get_elem? s.queues w)) [
    | inl missing ↦ absurd (cc (rw (worker, missing) at e))
    | inr ([], there) ↦ absurd (cc (rw (worker, there) at e))
    | inr (o ∷ q, there) ↦ rw there (process_moves o q r there (rw (worker, there) at e))
  ]
