-- ===== src/Tracker/Steps.antt =====
-- The interleavings of the methods with the thread: the batches reach the graph in the order in
-- which they were submitted, each once.
use repart_kv.Common.{
  ◌≡◌, true, none, some, List, [], ◌∷◌, ◌++◌, refl, ◌∙◌, ap, sym, arith, Option-cases, inr, inl,
  subst,
}
use mathlib.Core.List.{append_assoc, append-nil}
use repart_kv.Key.{Key}
use repart_kv.Graph.{DenseMap, Graph}
use repart_kv.Tracker.Window.{contents-try_pop}
use repart_kv.Tracker.{
  BoundedQueue, Tracker, apply_keys, pop_step, apply_step, update, multi_update, multi_move_update,
}

-- The batches in order.
abbrev pub apply_all : {D : (V : Type 0) → DenseMap V} → List (List Key) → Graph D → Graph D
apply_all [] g = g
apply_all (keys ∷ batches) g = apply_all batches (apply_keys keys g)

apply_all-append :
    {D : (V : Type 0) → DenseMap V} (m n : List (List Key)) (g : Graph D)
    → apply_all (m ++ n) g ≡ apply_all n (apply_all m g)
apply_all-append [] n g = refl
apply_all-append (keys ∷ m) n g = apply_all-append m n (apply_keys keys g)

module _ {D : (V : Type 0) → DenseMap V} {Q : BoundedQueue (List Key)} where
  -- What is submitted and not yet in the graph.
  abbrev pub pending : Tracker D Q → List (List Key)
  pending t = elim t.popped [ none ↦ Q.contents t.queue | some keys ↦ keys ∷ Q.contents t.queue ]

  pub record IsActive (t : Tracker D Q) : Type 0 where
    pub running : t.running ≡ true
    pub looping : t.looping ≡ true

  -- Interleavings of the three methods that submit a batch with the two steps of the thread.
  pub data Steps : Tracker D Q → List (List Key) → Tracker D Q → Type 0 where
    done : {t : Tracker D Q} → Steps t [] t
    submit_one :
        {t u : Tracker D Q} {batches : List (List Key)} (key : Key)
        → Steps (update t key).0 batches u
        → Steps t ((key ∷ []) ∷ batches) u
    submit :
        {t u : Tracker D Q} {batches : List (List Key)} (keys : List Key)
        → Steps (multi_update t keys).0 batches u
        → Steps t (keys ∷ batches) u
    submit_moved :
        {t u : Tracker D Q} {batches : List (List Key)} (keys : List Key)
        → Steps (multi_move_update t keys) batches u
        → Steps t (keys ∷ batches) u
    pop :
        {t s u : Tracker D Q} {batches : List (List Key)}
        → pop_step t ≡ some s
        → Steps s batches u
        → Steps t batches u
    apply :
        {t s u : Tracker D Q} {batches : List (List Key)}
        → apply_step t ≡ some s
        → Steps s batches u
        → Steps t batches u

  -- A step of the thread moves the first pending batch along.
  pub record Kept (t s : Tracker D Q) : Type 0 where
    pub active : IsActive s
    pub eventual : apply_all (pending s) s.graph ≡ apply_all (pending t) t.graph

  -- A method that puts the batch behind the queue, and changes nothing else.
  pub record Submits (t : Tracker D Q) (keys : List Key) (s : Tracker D Q) : Type 0 where
    pub active : IsActive t → IsActive s
    pub graph : s.graph ≡ t.graph
    pub pending : pending s ≡ pending t ++ keys ∷ []

  multi_move_update-Submits :
      (t : Tracker D Q) (keys : List Key) → Submits t keys (multi_move_update t keys)
  unfolding multi_move_update
  multi_move_update-Submits t keys = record {
    active = λ a. record { running = a.running; looping = a.looping };
    graph = refl;
    pending = ground (arith, Q.contents-push t.queue keys);
  }

  multi_update-Submits :
      (t : Tracker D Q) (keys : List Key) → Submits t keys (multi_update t keys).0
  unfolding multi_update multi_move_update
  multi_update-Submits t keys = multi_move_update-Submits t keys

  update-Submits : (t : Tracker D Q) (key : Key) → Submits t (key ∷ []) (update t key).0
  unfolding update multi_move_update
  update-Submits t key = multi_move_update-Submits t (key ∷ [])

  pop_step_lem : (t s : Tracker D Q) → IsActive t → pop_step t ≡ some s → Kept t s
  unfolding pop_step
  pop_step_lem t s a e = elim (Option-cases t.popped) [
    | inr (keys, p) ↦ cc
    | inl p ↦ elim (Option-cases (Q.try_pop t.queue)) [
      | inl q ↦ cc
      | inr ((keys, r), q) ↦
          let stepped : s ≡ record t { queue = r; popped = some keys } = cc in
          let shifted = contents-try_pop Q t.queue r keys (Q.contents t.queue) refl q in
          let held : pending t ≡ keys ∷ Q.contents r = cc in
          subst (Kept t) (sym stepped) (record {
            active = record { running = a.running; looping = a.looping };
            eventual = ap (λ m. apply_all m t.graph) (sym held);
          })
    ]
  ]

  apply_step_lem : (t s : Tracker D Q) → IsActive t → apply_step t ≡ some s → Kept t s
  unfolding apply_step
  apply_step_lem t s a e = elim (Option-cases t.popped) [
    | inl p ↦ cc
    | inr (keys, p) ↦
        let stepped : s
            ≡ record t { graph = apply_keys keys t.graph; popped = none; looping = t.running } =
          cc in
        subst (Kept t) (sym stepped)
          (record { active = record { running = a.running; looping = a.running }; eventual = cc })
  ]

  -- What follows a submission gives the batches from it on.
  after_submission :
      (t s u : Tracker D Q) (keys : List Key) (batches : List (List Key))
      → Submits t keys s
      → apply_all (pending u) u.graph ≡ apply_all (pending s ++ batches) s.graph
      → apply_all (pending u) u.graph ≡ apply_all (pending t ++ keys ∷ batches) t.graph
  after_submission t s u keys batches h e =
      e
      ∙ (λ i. apply_all (h.pending i ++ batches) (h.graph i))
      ∙ ap (λ m. apply_all m t.graph) (append_assoc (pending t) (keys ∷ []) batches)

  -- What follows a step of the thread gives what is pending before it.
  after_step :
      (t s u : Tracker D Q) (batches : List (List Key))
      → Kept t s
      → apply_all (pending u) u.graph ≡ apply_all (pending s ++ batches) s.graph
      → apply_all (pending u) u.graph ≡ apply_all (pending t ++ batches) t.graph
  after_step t s u batches k e =
      e
      ∙ apply_all-append (pending s) batches s.graph
      ∙ ap (apply_all batches) k.eventual
      ∙ sym (apply_all-append (pending t) batches t.graph)

  -- While the tracker runs, and however calls of `update`, `multi_update` and `multi_move_update`
  -- interleave with the thread: the graph, once the pending batches are applied, is the one that
  -- the keys and batches of the calls give in the order of the calls.
  pub steps-InOrder :
      (t u : Tracker D Q) (batches : List (List Key))
      → IsActive t
      → Steps t batches u
      → apply_all (pending u) u.graph ≡ apply_all (pending t ++ batches) t.graph
  steps-InOrder t u _ a done = ap (λ m. apply_all m t.graph) (sym (append-nil (pending t)))
  steps-InOrder t u batches a (pop {s = s} e r) =
      let k = pop_step_lem t s a e in
      after_step t s u batches k (steps-InOrder s u batches k.active r)
  steps-InOrder t u batches a (apply {s = s} e r) =
      let k = apply_step_lem t s a e in
      after_step t s u batches k (steps-InOrder s u batches k.active r)
  steps-InOrder t u _ a (submit_one {batches = batches} key r) =
      let h = update-Submits t key in
      after_submission t (update t key).0 u (key ∷ []) batches h
        (steps-InOrder (update t key).0 u batches (h.active a) r)
  steps-InOrder t u _ a (submit {batches = batches} keys r) =
      let h = multi_update-Submits t keys in
      after_submission t (multi_update t keys).0 u keys batches h
        (steps-InOrder (multi_update t keys).0 u batches (h.active a) r)
  steps-InOrder t u _ a (submit_moved {batches = batches} keys r) =
      let h = multi_move_update-Submits t keys in
      after_submission t (multi_move_update t keys) u keys batches h
        (steps-InOrder (multi_move_update t keys) u batches (h.active a) r)

  -- The thread alone reaches a state in which nothing is pending.
  abbrev CaughtUp : Tracker D Q → Type 0
  CaughtUp t = (u : Tracker D Q) × Steps t [] u × IsActive u × (pending u ≡ [])

  from_idle :
      (m : List (List Key)) (t : Tracker D Q)
      → IsActive t
      → t.popped ≡ none
      → Q.contents t.queue ≡ m
      → CaughtUp t
  unfolding pop_step apply_step
  from_idle [] t a p c = (t, done, a, cc)
  from_idle (keys ∷ m) t a p c =
      let (r, q, left) = Q.try_pop_full t.queue keys m c in
      let s : Tracker D Q = record t { queue = r; popped = some keys } in
      let v : Tracker D Q = record s {
        graph = apply_keys keys t.graph;
        popped = none;
        looping = t.running;
      } in
      let popped : pop_step t ≡ some s = ground (arith, p, q, a.running, a.looping) in
      let (u, steps, b, e) =
        from_idle m v (record { running = a.running; looping = a.running }) refl left in
      (u, pop popped (apply refl steps), b, e)

  catch_up_lem : (t : Tracker D Q) → IsActive t → CaughtUp t
  unfolding apply_step
  catch_up_lem t a = elim (Option-cases t.popped) [
    | inl p ↦ from_idle (Q.contents t.queue) t a p refl
    | inr (keys, p) ↦
        let v : Tracker D Q = record t {
          graph = apply_keys keys t.graph;
          popped = none;
          looping = t.running;
        } in
        let applied : apply_step t ≡ some v = ground (arith, p) in
        let (u, steps, b, e) =
          from_idle (Q.contents t.queue) v (record { running = a.running; looping = a.running })
            refl refl in
        (u, apply applied steps, b, e)
  ]

  -- A tracker that runs can always catch up: steps of the thread alone lead to a state in which
  -- nothing is pending and whose graph has the pending batches applied in their order.
  pub catch_up :
      (t : Tracker D Q)
      → IsActive t
      → (u : Tracker D Q) × Steps t [] u
        × (pending u ≡ [])
        × (u.graph ≡ apply_all (pending t) t.graph)
  catch_up t a =
      let (u, steps, b, e) = catch_up_lem t a in
      (
        u,
        steps,
        e,
        sym (ap (λ m. apply_all m u.graph) e)
            ∙ steps-InOrder t u [] a steps
            ∙ ap (λ m. apply_all m t.graph) (append-nil (pending t)),
      )
