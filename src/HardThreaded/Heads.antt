-- ===== src/HardThreaded/Heads.antt =====
-- The queues without the operation that a worker ends.
use mathlib.Core.List.{append-nil}
use repart_kv.Common.{
  ℕ, ◌<◌, ◌≡◌, refl, sym, ap, ◌∙◌, true, false, Option, some, List, [], ◌∷◌, ◌++◌, arith, All,
  length, get_elem?, set, if◌then◌else◌, Bool-cases, inl, inr, length-set, ◌==◌, ==_iff,
  lt-get_elem?, get_elem?-set,
}
use repart_kv.Key.{Key, Value}
use repart_kv.SortedMap.{Entries}
use repart_kv.Storage.{Backend, StorageEngine, Status, found_or, success, pending, not_found, error}
use repart_kv.Storage.Laws.{held, held-read}
use repart_kv.KeyStorage.{KeyStorage}
use repart_kv.Tracking.{Tracking}
use repart_kv.Worker.{Operation}
use repart_kv.SoftThreaded.Log.{is_on}
use repart_kv.SoftThreaded.Steps.{ended, replay, value_after}
use repart_kv.HardWorker.{HardOperation, HardQueue, Engines, put_at, fill, settle}
use repart_kv.HardThreaded.{HardThreaded}
use repart_kv.HardThreaded.Steps.{waiting_on}
use repart_kv.HardThreaded.Invariant.{
  AtHome, queue_at, HardInv, HardMoves, worker_of, engine_of, value_of, waiting_of,
}
use repart_kv.HardThreaded.Homes.{
  queue_at-some, queue_at-set, waiting_on-append, waiting_on-elsewhere,
}
use repart_kv.Storage

module _ {B : Backend} where
  -- A read changes a counter only.
  pub held-put_at-read :
      (engines : Engines B) (e x : ℕ) (k j : Key) (old : Value)
      → held j (put_at e (Storage.read (engines e) k old).0 engines x) ≡ held j (engines x)
  held-put_at-read engines e x k j old = elim (Bool-cases (x == e)) [
    | inl same ↦
        rw same
          (held-read (engines e) k j old ∙ ap (λ y. held j (engines y)) (sym ((==_iff x e).0 same)))
    | inr other ↦ rw other refl
  ]

  pub held-fill :
      (w : ℕ) (ps es : List ℕ) (results : Entries Value) (status : Status) (engines : Engines B)
      (j : Key) (x : ℕ)
      → held j ((fill w ps es results status engines).0 x) ≡ held j (engines x)
  unfolding fill
  held-fill w [] es results status engines j x = refl
  held-fill w (p ∷ ps) [] results status engines j x = refl
  held-fill w (p ∷ ps) (e ∷ es) [] status engines j x = refl
  held-fill w (p ∷ ps) (e ∷ es) ((key, old) ∷ results) status engines j x =
      let (storage, read_status, value) = Storage.read (engines e) key [] in
      elim (Bool-cases (p == w)) [
        | inl mine ↦ rw mine (
            held-fill w ps es results (settle read_status status value old).0
              (put_at e storage engines) j x
            ∙ held-put_at-read engines e x key j [])
        | inr other ↦ rw other (held-fill w ps es results status engines j x)
      ]

module _ {B : Backend} {S P : KeyStorage ℕ} {T : Tracking} (hash_func : Key → ℕ)
    (s : HardThreaded B S P T) (i : HardInv hash_func s) (w : ℕ) where
  module _ (o : HardOperation) (q : HardQueue) (there : get_elem? s.queues w ≡ some (o ∷ q)) where
    in_range : w < length s.queues
    in_range = lt-get_elem? s.queues w (o ∷ q) there

    pub at_head : AtHome (worker_of hash_func s) (engine_of hash_func s) w o
    at_head = (i.placed w (o ∷ q) there).0

    placed-rest :
        (v : ℕ) (r : HardQueue)
        → get_elem? (set s.queues w q) v ≡ some r
        → All (AtHome (worker_of hash_func s) (engine_of hash_func s) v) r
    placed-rest v r e = elim (Bool-cases (w == v)) [
      | inl here ↦
          let same : v ≡ w = sym ((==_iff w v).0 here) in
          let own : r ≡ q = ground (arith, get_elem?-set s.queues w v q in_range, here, e) in
          rw (same, own) (i.placed w (o ∷ q) there).1
      | inr other ↦
          let kept : get_elem? s.queues v ≡ some r =
            ground (arith, get_elem?-set s.queues w v q in_range, other, e) in
          i.placed v r kept
    ]

    -- The operation is the first of those that wait on its key.
    waiting-rest :
        (k : Key)
        → waiting_of hash_func s k
          ≡ waiting_on k (o ∷ [])
            ++ waiting_on k (queue_at (set s.queues w q) (worker_of hash_func s k))
    waiting-rest k =
        let v = worker_of hash_func s k in
        let now_at = queue_at-set s.queues w v q in_range in
        elim (Bool-cases (w == v)) [
          | inl here ↦
              let same : w ≡ v = (==_iff w v).0 here in
              let rest : queue_at (set s.queues w q) v ≡ q = ground (arith, now_at, here) in
              ap (λ x. waiting_on k (queue_at s.queues x)) (sym same)
              ∙ ap (waiting_on k) (queue_at-some s.queues w (o ∷ q) there)
              ∙ waiting_on-append k (o ∷ []) q
              ∙ ap (λ x. waiting_on k (o ∷ []) ++ waiting_on k x) (sym rest)
          | inr other ↦
              let kept : queue_at (set s.queues w q) v ≡ queue_at s.queues v =
                ground (arith, now_at, other) in
              ap (waiting_on k) (sym kept)
              ∙ ap (λ x. x ++ waiting_on k (queue_at (set s.queues w q) v))
                  (sym (
                    waiting_on-elsewhere (worker_of hash_func s) (engine_of hash_func s) k w o
                      at_head other))
        ]

    waiting-first :
        (p : Operation) (k : Key)
        → waiting_on k (o ∷ []) ≡ (if is_on k p then p ∷ [] else [])
        → is_on k p ≡ true
        → waiting_of hash_func s k
          ≡ p ∷ waiting_on k (queue_at (set s.queues w q) (worker_of hash_func s k))
    waiting-first p k own on =
        let rest = waiting_on k (queue_at (set s.queues w q) (worker_of hash_func s k)) in
        let single : waiting_on k (o ∷ []) ≡ p ∷ [] = ground (arith, own, on) in
        waiting-rest k ∙ ap (λ x. x ++ rest) single

    waiting-others :
        (p : Operation) (k : Key)
        → waiting_on k (o ∷ []) ≡ (if is_on k p then p ∷ [] else [])
        → is_on k p ≡ false
        → waiting_of hash_func s k
          ≡ waiting_on k (queue_at (set s.queues w q) (worker_of hash_func s k))
    waiting-others p k own off =
        let rest = waiting_on k (queue_at (set s.queues w q) (worker_of hash_func s k)) in
        let nothing : waiting_on k (o ∷ []) ≡ [] = ground (arith, own, off) in
        waiting-rest k ∙ ap (λ x. x ++ rest) nothing

    -- The operation is done: a call `p`, with the result `res`.
    pub data_moves :
        (engines : Engines B) (p : Operation) (res : Option (Status × Value))
        → ((k : Key) → waiting_on k (o ∷ []) ≡ (if is_on k p then p ∷ [] else []))
        → ((k : Key) → is_on k p ≡ true → (p, res) ∷ [] ≡ replay (value_of hash_func s k) (p ∷ []))
        → ((k : Key)
            → held k (engines (engine_of hash_func s k)) ≡ (
                if is_on k p
                then value_after (value_of hash_func s k) (p ∷ [])
                else value_of hash_func s k))
        → HardMoves hash_func s
            (ended p res ∷ [])
            (record s { engines = engines; queues = set s.queues w q })
    data_moves engines p res own results values = (
      record {
        nonempty = i.nonempty;
        sized = length-set s.queues w q ∙ i.sized;
        engines = i.engines;
        live = i.live;
        storages = i.storages;
        partitions = i.partitions;
        paired = i.paired;
        placed = placed-rest;
        absent = λ k h.
            let (v, idle) = i.absent k h in
            elim (Bool-cases (is_on k p)) [
              | inl on ↦ absurd (cc (waiting-first p k (own k) on, idle))
              | inr off ↦ (values k ∙ rw off v, sym (waiting-rest k ∙ rw (own k, off) refl) ∙ idle)
            ];
      },
      λ k. elim (Bool-cases (is_on k p)) [
        | inl on ↦ rw on (record {
          in_order = append-nil (waiting_of hash_func s k) ∙ waiting-first p k (own k) on;
          results = results k on;
          value = values k ∙ rw on refl;
        })
        | inr off ↦ rw off (record {
          in_order = append-nil (waiting_of hash_func s k) ∙ waiting-others p k (own k) off;
          results = refl;
          value = values k ∙ rw off refl;
        })
      ],
    )
