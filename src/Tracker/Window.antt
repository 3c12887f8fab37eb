-- ===== src/Tracker/Window.antt =====
-- What other threads can do while a partitioning is prepared: only what they submit after the
-- draining loop is in the queue, and no vertex is lost.
use repart_kv.Common.{
  suc, ◌≡◌, refl, sym, ap, ◌∙◌, true, none, some, List, [], ◌∷◌, ◌++◌, arith, length, Option-cases,
  inl, inr, ◌⊎◌, Bool-cases, subst,
}
use mathlib.Core.List.{append_assoc, append-nil}
use repart_kv.Key.{Key}
use repart_kv.Graph.{DenseMap, has_vertex}
use repart_kv.Graph.Growth.{Grows}
use repart_kv.Tracker.Growth.{apply_keys-Grows}
use repart_kv.Tracker.{
  BoundedQueue, Tracker, Event, pops, applies, updates, multi_updates, multi_move_updates, Others,
  drain, pop_step, apply_step, update, multi_update, multi_move_update, event, run_events,
  drain_among, before_lock,
}

-- The draining loop ends with an empty queue.
pub drain_lem :
    {A : Type 0} (Q : BoundedQueue A) (m : List A) (q : Q.Queue)
    → Q.contents q ≡ m
    → Q.contents (drain Q (suc (length m)) q) ≡ []
unfolding drain
drain_lem Q [] q c = ground (arith, Q.try_pop_empty q c, c)
drain_lem Q (x ∷ m) q c =
    let (r, popped, left) = Q.try_pop_full q x m c in
    let next : drain Q (suc (length (x ∷ m))) q ≡ drain Q (suc (length m)) r =
      ground (arith, popped) in
    ap Q.contents next ∙ drain_lem Q m r left

pub contents-try_pop :
    {A : Type 0} (Q : BoundedQueue A) (q r : Q.Queue) (keys : A) (m : List A)
    → Q.contents q ≡ m
    → Q.try_pop q ≡ some (keys, r)
    → Q.contents q ≡ keys ∷ Q.contents r
contents-try_pop Q q r keys [] c e = cc (Q.try_pop_empty q c)
contents-try_pop Q q r keys (x ∷ xs) c e = let (p, popped, left) = Q.try_pop_full q x xs c in cc

-- A queue in which no item is found is empty.
try_pop-none :
    {A : Type 0} (Q : BoundedQueue A) (q : Q.Queue) (m : List A)
    → Q.contents q ≡ m
    → Q.try_pop q ≡ none
    → Q.contents q ≡ []
try_pop-none Q q [] c e = c
try_pop-none Q q (x ∷ xs) c e = let (p, popped, left) = Q.try_pop_full q x xs c in absurd (cc)

-- The batches that are submitted.
abbrev pub submitted : List Event → List (List Key)
submitted [] = []
submitted (pops ∷ es) = submitted es
submitted (applies ∷ es) = submitted es
submitted (updates key ∷ es) = (key ∷ []) ∷ submitted es
submitted (multi_updates keys ∷ es) = keys ∷ submitted es
submitted (multi_move_updates keys ∷ es) = keys ∷ submitted es

-- `m` ends with `n`.
abbrev pub EndsWith : List (List Key) → List (List Key) → Type 0
EndsWith m n = (front : List (List Key)) × (front ++ n ≡ m)

-- A batch that is pushed goes to the end.
EndsWith-pushed :
    (Q : BoundedQueue (List Key)) (q : Q.Queue) (keys : List Key) (es n : List (List Key))
    → EndsWith (Q.contents (Q.push q keys) ++ es) n
    → EndsWith (Q.contents q ++ keys ∷ es) n
EndsWith-pushed Q q keys es n (front, f) = (
  front,
  f ∙ ap (λ m. m ++ es) (Q.contents-push q keys) ∙ append_assoc (Q.contents q) (keys ∷ []) es,
)

module _ {D : (V : Type 0) → DenseMap V} {Q : BoundedQueue (List Key)} where
  drain_among-empty :
      (rounds : List (List Event)) (t : Tracker D Q) → Q.contents (drain_among rounds t).queue ≡ []
  unfolding drain_among
  drain_among-empty [] t = drain_lem Q (Q.contents t.queue) t.queue refl
  drain_among-empty (es ∷ rounds) t = elim (Option-cases (Q.try_pop (run_events es t).queue)) [
    | inl over ↦ rw (over, drain_among) (try_pop-none Q (run_events es t).queue _ refl over)
    | inr ((keys, q), popped) ↦
        rw (popped, drain_among) (drain_among-empty rounds (record (run_events es t) { queue = q }))
  ]

  -- The thread takes a batch out of the queue or leaves the queue alone, and the graph it leaves
  -- alone in any case.
  pop_step_lem :
      (t : Tracker D Q)
      → ((event pops t).graph ≡ t.graph)
        × (((event pops t).queue ≡ t.queue)
            ⊎ ((r : List Key × Q.Queue) × (Q.try_pop t.queue ≡ some r)
                × ((event pops t).queue ≡ r.1)))
  unfolding event pop_step
  pop_step_lem t = elim (Option-cases t.popped) [
    | inr (keys, p) ↦ (ground (arith, p), inl (ground (arith, p)))
    | inl p ↦ elim (Bool-cases t.looping) [
      | inr over ↦ (ground (arith, p, over), inl (ground (arith, p, over)))
      | inl on ↦ elim (Option-cases (Q.try_pop t.queue)) [
        | inl no_batch ↦ (ground (arith, p, on, no_batch), inl (ground (arith, p, on, no_batch)))
        | inr (r, popped) ↦
            (ground (arith, p, on, popped), inr (r, popped, ground (arith, p, on, popped)))
      ]
    ]
  ]

  pop_step-queue :
      (t : Tracker D Q) → EndsWith (Q.contents t.queue) (Q.contents (event pops t).queue)
  pop_step-queue t = elim (pop_step_lem t).1 [
    | inl same ↦ ([], ap Q.contents same)
    | inr (r, popped, left) ↦ (
      r.0 ∷ [],
      ap (λ q. r.0 ∷ Q.contents q) left
          ∙ sym (contents-try_pop Q t.queue r.1 r.0 (Q.contents t.queue) refl popped),
    )
  ]

  apply_step-queue : (t : Tracker D Q) → (event applies t).queue ≡ t.queue
  unfolding event apply_step
  apply_step-queue t = ground arith

  run_events-queue :
      (es : List Event) (t : Tracker D Q)
      → EndsWith (Q.contents t.queue ++ submitted es) (Q.contents (run_events es t).queue)
  unfolding run_events
  run_events-queue [] t = ([], sym (append-nil (Q.contents t.queue)))
  run_events-queue (pops ∷ es) t =
      let (first, e) = pop_step-queue t in
      let (front, f) = run_events-queue es (event pops t) in
      (
        first ++ front,
        append_assoc first front _
            ∙ ap (λ m. first ++ m) f
            ∙ sym (append_assoc first _ (submitted es))
            ∙ ap (λ m. m ++ submitted es) e,
      )
  run_events-queue (applies ∷ es) t =
      let (front, f) = run_events-queue es (event applies t) in
      (front, f ∙ ap (λ q. Q.contents q ++ submitted es) (apply_step-queue t))
  run_events-queue (updates key ∷ es) t =
      EndsWith-pushed Q t.queue (key ∷ []) (submitted es) _ (run_events-queue es (update t key).0)
  run_events-queue (multi_updates keys ∷ es) t =
      EndsWith-pushed Q t.queue keys (submitted es) _ (run_events-queue es (multi_update t keys).0)
  run_events-queue (multi_move_updates keys ∷ es) t =
      EndsWith-pushed Q t.queue keys (submitted es) _
        (run_events-queue es (multi_move_update t keys))

  -- What is in the queue when the caller has the lock was submitted after the draining loop.
  pub before_lock-queue :
      (others : Others) (t : Tracker D Q)
      → EndsWith (submitted others.window) (Q.contents (before_lock others t).queue)
  unfolding before_lock
  before_lock-queue others t =
      let u = drain_among others.rounds t in
      let (front, f) = run_events-queue others.window u in
      (front, f ∙ ap (λ m. m ++ submitted others.window) (drain_among-empty others.rounds t))

  event-Grows : (e : Event) (t : Tracker D Q) → Grows t.graph (event e t).graph
  unfolding event apply_step
  event-Grows pops t k h = subst (λ g. has_vertex g k ≡ true) (sym (pop_step_lem t).0) h
  event-Grows applies t k h = elim (Option-cases t.popped) [
    | inl none_held ↦ rw none_held h
    | inr (keys, held) ↦ rw held (apply_keys-Grows keys t.graph k h)
  ]
  event-Grows (updates key) t k h = h
  event-Grows (multi_updates keys) t k h = h
  event-Grows (multi_move_updates keys) t k h = h

  run_events-Grows : (es : List Event) (t : Tracker D Q) → Grows t.graph (run_events es t).graph
  unfolding run_events
  run_events-Grows [] t k h = h
  run_events-Grows (e ∷ es) t k h = run_events-Grows es (event e t) k (event-Grows e t k h)

  drain_among-Grows :
      (rounds : List (List Event)) (t : Tracker D Q) → Grows t.graph (drain_among rounds t).graph
  unfolding drain_among
  drain_among-Grows [] t k h = h
  drain_among-Grows (es ∷ rounds) t k h =
      let up = run_events-Grows es t k h in
      elim (Option-cases (Q.try_pop (run_events es t).queue)) [
        | inl over ↦ rw (over, drain_among) up
        | inr ((keys, q), popped) ↦
            rw (popped, drain_among)
              (drain_among-Grows rounds (record (run_events es t) { queue = q }) k up)
      ]

  -- No vertex is lost while the caller waits for the lock.
  pub before_lock-Grows :
      (others : Others) (t : Tracker D Q) → Grows t.graph (before_lock others t).graph
  unfolding before_lock
  before_lock-Grows others t k h =
      run_events-Grows others.window (drain_among others.rounds t) k
        (drain_among-Grows others.rounds t k h)
