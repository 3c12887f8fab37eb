-- ===== src/HardThreaded/Behind.antt =====
-- The queues with one more operation, behind the others of the home of its key.
use mathlib.Core.List.{append-nil}
use repart_kv.Common.{
  ℕ, ◌<◌, ◌≡◌, refl, sym, ap, ◌∙◌, none, some, List, [], ◌∷◌, ◌++◌, arith, All, length, get_elem?,
  set, Bool-cases, inl, inr, get_elem?-set, ◌==◌, ==_iff, All-append, length-set, lt-get_elem?,
}
use repart_kv.Key.{Key}
use repart_kv.Storage.{Backend}
use repart_kv.KeyStorage.{KeyStorage}
use repart_kv.Tracking.{Tracking}
use repart_kv.Worker.{Operation}
use repart_kv.SoftThreaded.Steps.{called, calls_on}
use repart_kv.HardWorker.{HardOperation, HardQueue}
use repart_kv.HardThreaded.{HardThreaded}
use repart_kv.HardThreaded.Steps.{waiting_on}
use repart_kv.HardThreaded.Invariant.{
  AtHome, queue_at, Homed, HardInv, HardMoves, worker_of, engine_of, waiting_of,
}
use repart_kv.HardThreaded.Homes.{
  waiting_on-append, waiting_on-elsewhere, queue_at-set, queue_at-some,
}

module _ {B : Backend} {S P : KeyStorage ℕ} {T : Tracking} (hash_func : Key → ℕ) where
  -- The queues with `o` behind the one of `w`.
  module _ (s : HardThreaded B S P T) (i : HardInv hash_func s) (w : ℕ) (o : HardOperation)
      (q : HardQueue) (there : get_elem? s.queues w ≡ some q)
      (home : AtHome (worker_of hash_func s) (engine_of hash_func s) w o) where
    behind : List HardQueue
    behind = set s.queues w (q ++ o ∷ [])

    in_range : w < length s.queues
    in_range = lt-get_elem? s.queues w q there

    pub placed-behind :
        (v : ℕ) (r : HardQueue)
        → get_elem? (set s.queues w (q ++ o ∷ [])) v ≡ some r
        → All (AtHome (worker_of hash_func s) (engine_of hash_func s) v) r
    placed-behind v r e = elim (Bool-cases (w == v)) [
      | inl here ↦
          let same : v ≡ w = sym ((==_iff w v).0 here) in
          let own : r ≡ q ++ o ∷ [] =
            ground (arith, get_elem?-set s.queues w v (q ++ o ∷ []) in_range, here, e) in
          rw (same, own) (All-append _ q (o ∷ []) (i.placed w q there) (home, tt))
      | inr other ↦
          i.placed v r (sym (get_elem?-set s.queues w v (q ++ o ∷ []) in_range ∙ rw other refl) ∙ e)
    ]

    pub waiting-behind :
        (k : Key)
        → waiting_on k (queue_at (set s.queues w (q ++ o ∷ [])) (worker_of hash_func s k))
          ≡ waiting_of hash_func s k ++ waiting_on k (o ∷ [])
    waiting-behind k =
        let v = worker_of hash_func s k in
        let now_at = queue_at-set s.queues w v (q ++ o ∷ []) in_range in
        elim (Bool-cases (w == v)) [
          | inl here ↦
              let same : w ≡ v = (==_iff w v).0 here in
              let was = queue_at-some s.queues w q there in
              let at_home : queue_at (set s.queues w (q ++ o ∷ [])) v ≡ q ++ o ∷ [] =
                ground (arith, now_at, here) in
              ap (waiting_on k) at_home
              ∙ waiting_on-append k q (o ∷ [])
              ∙ ap (λ x. waiting_on k x ++ waiting_on k (o ∷ []))
                  (sym (ap (queue_at s.queues) (sym same) ∙ was))
          | inr other ↦
              let kept : queue_at (set s.queues w (q ++ o ∷ [])) v ≡ queue_at s.queues v =
                ground (arith, now_at, other) in
              ap (waiting_on k) kept
              ∙ sym (append-nil (waiting_of hash_func s k))
              ∙ ap (λ x. waiting_of hash_func s k ++ x)
                  (sym (
                    waiting_on-elsewhere (worker_of hash_func s) (engine_of hash_func s) k w o home
                      other))
        ]

    -- The maps grow, and `p` is the call.
    pub submit_moves :
        (sm : S.Store) (pm : P.Store) (tracker : T.State) (next_id : ℕ) (p : Operation)
        → Homed S (engine_of hash_func s) sm
        → Homed P (worker_of hash_func s) pm
        → ((k : Key) (e : ℕ) → S.get sm k ≡ some e → P.get pm k ≡ some (worker_of hash_func s k))
        → ((k : Key)
            → S.get sm k ≡ none
            → (S.get s.storage_map k ≡ none) × (waiting_on k (o ∷ []) ≡ []))
        → ((k : Key) → waiting_on k (o ∷ []) ≡ calls_on k (called p ∷ []))
        → HardMoves hash_func s (called p ∷ []) (record s {
          storage_map = sm;
          partition_map = pm;
          queues = set s.queues w (q ++ o ∷ []);
          tracker = tracker;
          next_id = next_id;
        })
    submit_moves sm pm tracker next_id p hs hp paired absent calls = (
      record {
        nonempty = i.nonempty;
        sized = length-set s.queues w (q ++ o ∷ []) ∙ i.sized;
        engines = i.engines;
        live = i.live;
        storages = hs;
        partitions = hp;
        paired = paired;
        placed = placed-behind;
        absent = λ k h.
            let (missing, off) = absent k h in
            let (v, idle) = i.absent k missing in (v, waiting-behind k ∙ rw (idle, off) refl);
      },
      λ k. record {
        in_order = ap (λ x. waiting_of hash_func s k ++ x) (sym (calls k)) ∙ sym (waiting-behind k);
        results = refl;
        value = refl;
      },
    )
