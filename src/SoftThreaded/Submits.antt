-- ===== src/SoftThreaded/Submits.antt =====
-- The submission of a read or a write: it goes to the end of the log and of the queue of the
-- worker that the map names.
use repart_kv.SoftThreaded.Log.Append.{Routed, Ordered-append, Recent-append, on_key-append}
use repart_kv.Common.{
  length-set, ℕ, suc, ◌<◌, ◌≡◌, refl, sym, ◌∙◌, true, false, none, some, List, [], ◌∷◌, ◌++◌, arith,
  get_elem?, set, if◌then◌else◌, Bool-cases, inl, inr, Option-cases, All-append, get_elem?-lt, ◌⊎◌,
  ◌%◌,
}
use repart_kv.Common.Result.{ok}
use repart_kv.Key.{Key, Value}
use repart_kv.Storage.{Backend, not_found}
use repart_kv.KeyStorage.{KeyStorage}
use repart_kv.KeyStorage.Insert.{InRange, Assigned, assign}
use repart_kv.Tracking.{Tracking}
use repart_kv.Worker.{Operation, reads, writes, Queue, enqueue}
use repart_kv.SoftThreaded.{SoftThreaded, track, read_impl, write_impl, now, later, success}
use repart_kv.SoftThreaded.Steps.{Event, called}
use repart_kv.SoftThreaded.Log.{Log, is_on, is_data, Good}
use repart_kv.SoftThreaded.Invariant.{Inv, Moves}
use repart_kv.SoftThreaded.Queues.{Parts-enqueue, is_data-is_scan}
use repart_kv.Key.Laws.{key_eq_iff}

module _ {B : Backend} {P : KeyStorage ℕ} {T : Tracking} where
  -- The log behind a step.
  abbrev pub Reaches : SoftThreaded B P T → Log → List Event → SoftThreaded B P T → Type 0
  Reaches s log es t = (log' : Log) × Moves s log es t log'

  -- `o` goes to the worker `p`.
  abbrev submitted :
      SoftThreaded B P T → ℕ → Operation → Queue → P.Store → T.State → ℕ → SoftThreaded B P T
  submitted s p o q m tracker next_id = record s {
    key_map = m;
    queues = set s.queues p (q ++ o ∷ []);
    tracker = tracker;
    next_id = next_id;
  }

  module _ (s : SoftThreaded B P T) (log : Log) (i : Inv s log) (p : ℕ) (o : Operation) (q : Queue)
      (m : P.Store) (d : is_data o ≡ true) (there : get_elem? s.queues p ≡ some q)
      (valid : P.IsValid m) (range : p < s.partition_count) (mapped : InRange P s.partition_count m)
      (a : Routed p o (P.get s.key_map) (P.get m)) where
    still_absent : (k : Key) → P.get m k ≡ none → P.get s.key_map k ≡ none
    still_absent k h = elim (Option-cases (P.get s.key_map k)) [
      | inl miss ↦ miss
      | inr (r, hit) ↦ let kept = a.kept k r hit in absurd (cc)
    ]

    not_on : (k : Key) → P.get m k ≡ none → is_on k o ≡ false
    not_on k h = elim (Bool-cases (is_on k o)) [
      | inr off ↦ off
      | inl on ↦ let here = a.here k on in absurd (cc)
    ]

    pub submitted-Moves :
        (tracker : T.State) (next_id : ℕ)
        → Moves s log
            (called o ∷ [])
            (submitted s p o q m tracker next_id)
            (log ++ (some p, o) ∷ [])
    submitted-Moves tracker next_id = (
      record {
        nonempty = i.nonempty;
        sized = length-set s.queues p (q ++ o ∷ []) ∙ i.sized;
        valid = valid;
        mapped = mapped;
        parts = Parts-enqueue s.queues log p q o i.parts there (is_data-is_scan o d);
        good = All-append (Good s.partition_count) log ((some p, o) ∷ []) i.good ((d, range), tt);
        ordered = Ordered-append p o (P.get s.key_map) (P.get m) log a i.recent i.ordered;
        recent = Recent-append p o (P.get s.key_map) (P.get m) log a i.recent;
        absent = λ k h.
            let (v, on) = i.absent k (still_absent k h) in
            (v, on_key-append k log ((some p, o) ∷ []) ∙ rw (on, not_on k h) refl);
        only_scans = i.only_scans;
      },
      λ k. record {
        in_order = sym (on_key-append k log ((some p, o) ∷ []));
        results = refl;
        value = refl;
      },
    )

  module _ (s : SoftThreaded B P T) (log : Log) (i : Inv s log) where
    -- The queue of a worker that is there.
    queue_of : (p : ℕ) → p < s.partition_count → (q : Queue) × (get_elem? s.queues p ≡ some q)
    queue_of p lt = get_elem?-lt s.queues p (omega (arith, lt, i.sized))

    enqueue_lem :
        (p : ℕ) (q : Queue) (o : Operation)
        → get_elem? s.queues p ≡ some q
        → enqueue p o s.queues ≡ ok (set s.queues p (q ++ o ∷ []))
    unfolding enqueue
    enqueue_lem p q o e = rw (enqueue, e) refl

    read-Routed :
        (p : ℕ) (k : Key) (v : Value) (n : ℕ)
        → P.get s.key_map k ≡ some p
        → Routed p (reads n k v) (P.get s.key_map) (P.get s.key_map)
    read-Routed p k v n hit = record {
      here = λ j on. ground (arith, key_eq_iff k j, hit, on);
      kept = λ j r h. h;
    }

    write-Routed :
        (p : ℕ) (k : Key) (v : Value) (m : P.Store)
        → Assigned P s.partition_count s.key_map k m p
        → Routed p (writes k v) (P.get s.key_map) (P.get m)
    write-Routed p k v m a = record {
      here = λ j on. ground (arith, key_eq_iff k j, a.here, on);
      kept = a.kept;
    }

    -- A read under the invariant: it waits at the worker of its key, or, for a key that the map
    -- does not have, returns.
    pub read_cases :
        (k : Key) (v : Value)
        → ((P.get s.key_map k ≡ none) × (read_impl s k v ≡ ok (s, now not_found)))
          ⊎ (p : ℕ) × (P.get s.key_map k ≡ some p)
            × (t : SoftThreaded B P T) × (read_impl s k v ≡ ok (t, later s.next_id))
            × Reaches s log (called (reads s.next_id k v) ∷ []) t
    unfolding read_impl track
    read_cases k v = elim (Option-cases (P.get s.key_map k)) [
      | inl miss ↦ inl (miss, rw (read_impl, miss) refl)
      | inr (p, hit) ↦
          let (q, there) = queue_of p (i.mapped k p hit) in
          let o = reads s.next_id k v in
          let tracker = if s.enable_tracking then (T.update s.tracker k).0 else s.tracker in
          inr (
            p,
            hit,
            submitted s p o q s.key_map tracker (suc s.next_id),
            rw (read_impl, hit, enqueue_lem p q o there) refl,
            (
              log ++ (some p, o) ∷ [],
              submitted-Moves s log i p o q s.key_map refl there i.valid (i.mapped k p hit) i.mapped
                  (read-Routed p k v s.next_id hit) tracker (suc s.next_id),
            ),
          )
    ]

    pub write_moves :
        (hash_func : Key → ℕ) (k : Key) (v : Value)
        → (t : SoftThreaded B P T) × (write_impl hash_func s k v ≡ ok (t, success))
          × Reaches s log (called (writes k v) ∷ []) t
    unfolding write_impl track
    write_moves hash_func k v =
        let (m, found, p, e, a) =
          assign P s.partition_count s.key_map k (hash_func k % s.partition_count) i.valid i.mapped
            (omega (arith, i.nonempty)) in
        let (q, there) = queue_of p a.range in
        let tracker = if s.enable_tracking then (T.update s.tracker k).0 else s.tracker in
        (
          submitted s p (writes k v) q m tracker s.next_id,
          rw (write_impl, e, enqueue_lem p q (writes k v) there) refl,
          (
            log ++ (some p, writes k v) ∷ [],
            submitted-Moves s log i p (writes k v) q m refl there a.valid a.range a.mapped
                (write-Routed p k v m a) tracker s.next_id,
          ),
        )
