-- ===== src/SoftThreaded/Drain.antt =====
-- The workers alone: while no scan waits, they end all that is in the queues.
use repart_kv.Common.{
  ℕ, suc, ◌≡◌, refl, sym, ap, ◌∙◌, true, false, none, some, List, [], ◌∷◌, ◌++◌, arith, length,
  if◌then◌else◌, Bool-cases, inl, inr, ◌<◌, get_elem?, set, subst, get_elem?-lt, lt-get_elem?, ◌==◌,
  get_elem?-set, ==_refl, ==_iff, get_elem?-map,
}
use repart_kv.Storage.{Backend}
use repart_kv.KeyStorage.{KeyStorage}
use repart_kv.Tracking.{Tracking}
use repart_kv.Worker.{
  Operation, reads, writes, scans, syncs, Queue, worker, take_next, process, Outcome, arrived, pass,
  waits_at, tail, same_operation,
}
use repart_kv.SoftThreaded.{SoftThreaded, after_round}
use repart_kv.SoftThreaded.Steps.{ends_by, Event, Shows-join, ends_of}
use repart_kv.SoftThreaded.Log.{Log, part, remove}
use repart_kv.SoftThreaded.Invariant.{Inv, Moves, core, Parts, is_scan}
use repart_kv.SoftThreaded.Rounds.{read_round, write_round, fence_passed}
use repart_kv.SoftThreaded.Queues.{Parts-sync, length-pass, is_data-is_scan}

-- No scan is in a queue.
abbrev pub Scanless : List Queue → Type 0
Scanless queues = (w : ℕ) (q : Queue) → get_elem? queues w ≡ some q → core q ≡ q

Scanless-set :
    (queues : List Queue) (w : ℕ) (o : Operation) (q : Queue)
    → Scanless queues
    → get_elem? queues w ≡ some (o ∷ q)
    → is_scan o ≡ false
    → Scanless (set queues w q)
Scanless-set queues w o q h there d v r e =
    let own : core (o ∷ q) ≡ o ∷ q = h w (o ∷ q) there in
    let lt : w < length queues = lt-get_elem? queues w (o ∷ q) there in
    elim (Bool-cases (w == v)) [
      | inl here ↦
          let same : r ≡ q = ground (arith, get_elem?-set queues w v q lt, here, e) in
          ap core same ∙ ground (arith, own, d) ∙ sym same
      | inr other ↦ h v r (sym (get_elem?-set queues w v q lt ∙ rw other refl) ∙ e)
    ]

passed :
    (i c : ℕ) (q : Queue)
    → core q ≡ q
    → core (if waits_at (syncs i c) q then tail q else q)
      ≡ (if waits_at (syncs i c) q then tail q else q)
unfolding waits_at same_operation
passed i c [] h = refl
passed i c (reads j k v ∷ q) h = h
passed i c (writes k v ∷ q) h = h
passed i c (scans j k r d ∷ q) h = h
passed i c (syncs j d ∷ q) h = ground (arith, h)

Scanless-pass :
    (i c : ℕ) (queues : List Queue) → Scanless queues → Scanless (pass (syncs i c) queues)
unfolding pass
Scanless-pass i c queues h w q e =
    let (r, er, eq) =
      get_elem?-map (λ q. if waits_at (syncs i c) q then tail q else q) queues w q e in
    ap core eq ∙ passed i c r (h w r er) ∙ sym eq

-- If every queue starts with one sync, all have arrived there.
arrived-all :
    (o : Operation) (queues : List Queue)
    → ((w : ℕ) (q : Queue) → get_elem? queues w ≡ some q → waits_at o q ≡ true)
    → arrived o queues ≡ length queues
unfolding arrived
arrived-all o [] h = refl
arrived-all o (q ∷ queues) h =
    let here = h 0 q refl in
    let rest = arrived-all o queues (λ w. h (suc w)) in rw here (ap suc rest)

module _ {B : Backend} {P : KeyStorage ℕ} {T : Tracking} where
  -- Rounds of the workers, one after the other, with nothing of the callers in between.
  pub data Rounds : SoftThreaded B P T → List Event → SoftThreaded B P T → Type 0 where
    idle : {s : SoftThreaded B P T} → Rounds s [] s
    round :
        {s t : SoftThreaded B P T} {es all : List Event} (w : ℕ) (r : Outcome B)
        → worker w s.storage s.queues ≡ some r
        → Rounds (after_round s r) es t
        → all ≡ ends_by (get_elem? s.queues w) r.replies ++ es
        → Rounds s all t

  -- The queues run empty.
  abbrev pub Drains : SoftThreaded B P T → Log → Type 0
  Drains s log =
      (t : SoftThreaded B P T) × (es : List Event) × Rounds s es t
      × ((w : ℕ) (q : Queue) → get_elem? t.queues w ≡ some q → q ≡ [])
      × Moves s log es t []

  -- One round before the others.
  Drains-round :
      (s : SoftThreaded B P T) (log log' : Log) (w : ℕ) (r : Outcome B) (ev : List Event)
      → worker w s.storage s.queues ≡ some r
      → ends_by (get_elem? s.queues w) r.replies ≡ ev
      → Moves s log ev (after_round s r) log'
      → Drains (after_round s r) log'
      → Drains s log
  Drains-round s log log' w r ev e same (i, shows) (t, es, rounds, empty, (j, rest)) = (
    t,
    ev ++ es,
    Rounds.round w r e rounds (ap (λ x. x ++ es) (sym same)),
    empty,
    (j, λ k. Shows-join k ev es (shows k) (rest k)),
  )

  -- The queue of a worker whose part of the log is not empty.
  head_of :
      (s : SoftThreaded B P T) (log : Log) (w : ℕ) (o : Operation) (l : Queue)
      → Inv s log
      → Scanless s.queues
      → w < s.partition_count
      → part w log ≡ o ∷ l
      → get_elem? s.queues w ≡ some (o ∷ l)
  head_of s log w o l i h lt e =
      let (q, there) = get_elem?-lt s.queues w (omega (arith, lt, i.sized)) in
      let same : q ≡ o ∷ l = sym (h w q there) ∙ i.parts w q there ∙ e in there ∙ ap some same

  -- The first of the log is a read or a write.
  head_round :
      (s : SoftThreaded B P T) (p : ℕ) (o : Operation) (l : Log)
      → Inv s ((some p, o) ∷ l)
      → Scanless s.queues
      → (get_elem? s.queues p ≡ some (o ∷ part p l))
        × (remove p ((some p, o) ∷ l) ≡ l)
        × Scanless (set s.queues p (part p l))
  head_round s p o l i h =
      let there : get_elem? s.queues p ≡ some (o ∷ part p l) =
        head_of s ((some p, o) ∷ l) p o (part p l) i h i.good.0.1 (rw (==_refl p) refl) in
      (
        there,
        rw (==_refl p) refl,
        Scanless-set s.queues p o (part p l) h there (is_data-is_scan o i.good.0.0),
      )

  worker_lem :
      (s : SoftThreaded B P T) (w : ℕ) (o : Operation) (q : Queue)
      → get_elem? s.queues w ≡ some (o ∷ q)
      → worker w s.storage s.queues ≡ process w o q s.storage s.queues
  unfolding worker take_next
  worker_lem s w o q there = rw (worker, there) refl

  -- The rest of the log is the smaller one.
  data_round :
      (s : SoftThreaded B P T) (p : ℕ) (o : Operation) (l : Log) (r : Outcome B) (ev : List Event)
      → Inv s ((some p, o) ∷ l)
      → Scanless s.queues
      → r.queues ≡ set s.queues p (part p l)
      → process p o (part p l) s.storage s.queues ≡ some r
      → ends_of o r.replies ≡ ev
      → (get_elem? s.queues p ≡ some (o ∷ part p l)
          → Moves s ((some p, o) ∷ l) ev (after_round s r) (remove p ((some p, o) ∷ l)))
      → (Inv (after_round s r) l → Scanless r.queues → Drains (after_round s r) l)
      → Drains s ((some p, o) ∷ l)
  data_round s p o l r ev i h same e ends moves rest =
      let (there, removed, scanless) = head_round s p o l i h in
      let shown = subst (Moves s ((some p, o) ∷ l) ev (after_round s r)) removed (moves there) in
      Drains-round s ((some p, o) ∷ l) l p r ev (worker_lem s p o (part p l) there ∙ e)
        (ap (λ q. ends_by q r.replies) there ∙ ends) shown
        (rest shown.0 (subst Scanless (sym same) scanless))

  -- The first of the log is a sync.
  sync_round_head :
      (s : SoftThreaded B P T) (n : ℕ) (l : Log)
      → Inv s ((none, syncs n s.partition_count) ∷ l)
      → Scanless s.queues
      → (w : ℕ) (q : Queue) → get_elem? s.queues w ≡ some q
      → q ≡ syncs n s.partition_count ∷ part w l
  sync_round_head s n l i h w q e = sym (h w q e) ∙ i.parts w q e

  all_there :
      (s : SoftThreaded B P T) (n : ℕ) (l : Log)
      → Inv s ((none, syncs n s.partition_count) ∷ l)
      → Scanless s.queues
      → arrived (syncs n s.partition_count) s.queues ≡ s.partition_count
  unfolding waits_at same_operation
  all_there s n l i h =
      arrived-all (syncs n s.partition_count) s.queues
        (λ w q e. rw (sync_round_head s n l i h w q e) (==_refl n))
      ∙ i.sized

  fence-Parts :
      (s : SoftThreaded B P T) (n : ℕ) (l : Log)
      → Inv s ((none, syncs n s.partition_count) ∷ l)
      → Scanless s.queues
      → Parts (pass (syncs n s.partition_count) s.queues) l
  fence-Parts s n l i h =
      let log = (none, syncs n s.partition_count) ∷ l in
      let (o, r, e, parts) =
        Parts-sync s.partition_count s.queues log n i.nonempty i.sized i.good i.parts
          (all_there s n l i h) in
      subst (Parts (pass (syncs n s.partition_count) s.queues)) (cc e) parts

  fence_round :
      (s : SoftThreaded B P T) (n : ℕ) (l : Log)
      → Inv s ((none, syncs n s.partition_count) ∷ l)
      → Scanless s.queues
      → let queues = pass (syncs n s.partition_count) s.queues in
        (Inv (record s { queues = queues }) l
          → Scanless queues
          → Drains (record s { queues = queues }) l)
        → Drains s ((none, syncs n s.partition_count) ∷ l)
  unfolding process
  fence_round s n l i h rest =
      let o = syncs n s.partition_count in
      let log = (none, o) ∷ l in
      let queues = pass o s.queues in
      let r : Outcome B = record { storage = s.storage; queues = queues; replies = [] } in
      let there = head_of s log 0 o (part 0 l) i h i.nonempty refl in
      let moves =
        fence_passed s log i 0 o l queues i (length-pass o s.queues) (fence-Parts s n l i h) in
      let fires : process 0 o (part 0 l) s.storage s.queues ≡ some r =
        rw (process, (==_iff (arrived o s.queues) s.partition_count).1 (all_there s n l i h))
          refl in
      Drains-round s log l 0 r [] (worker_lem s 0 o (part 0 l) there ∙ fires)
        (ap (λ q. ends_by q []) there) moves
        (rest moves.0 (Scanless-pass n s.partition_count s.queues h))

  pub drain : (log : Log) (s : SoftThreaded B P T) → Inv s log → Scanless s.queues → Drains s log
  unfolding process
  drain [] s i h = (
    s,
    [],
    Rounds.idle,
    λ w q e. sym (h w q e) ∙ i.parts w q e,
    (i, λ k. record { in_order = refl; results = refl; value = refl }),
  )
  drain ((some p, reads n k old) ∷ l) s i h =
      data_round s p (reads n k old) l _ _ i h refl refl refl
        (λ there. read_round s ((some p, reads n k old) ∷ l) i p n k old (part p l) there)
        (λ j g. drain l _ j g)
  drain ((some p, writes k v) ∷ l) s i h =
      data_round s p (writes k v) l _ _ i h refl refl refl
        (λ there. write_round s ((some p, writes k v) ∷ l) i p k v (part p l) there)
        (λ j g. drain l _ j g)
  drain ((some p, scans n k r c) ∷ l) s i h = absurd (cc (i.good.0.0))
  drain ((some p, syncs n c) ∷ l) s i h = absurd (cc (i.good.0.0))
  drain ((none, o) ∷ l) s i h =
      let (n, sync) = i.good.0 in
      subst (λ o. Drains s ((none, o) ∷ l)) (sym sync)
        (fence_round s n l (subst (λ o. Inv s ((none, o) ∷ l)) sync i) h λ j g. drain l _ j g)
