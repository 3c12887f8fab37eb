-- ===== src/HardThreaded/Scans.antt =====
-- The steps that change no value and end nothing: those of a scan before its rounds, and the switch
-- of the tracking.
use mathlib.Core.List.{append-nil}
use repart_kv.Common.{
  ℕ, zero, suc, ◌%◌, ◌≡◌, refl, sym, ◌∙◌, Bool, some, List, [], ◌∷◌, ◌++◌, All, length, get_elem?,
  set, Option-cases, Bool-cases, inl, inr, length-set, ltb, subst,
}
use repart_kv.Common.Result.{ok}
use repart_kv.Key.{Key, Value}
use repart_kv.SortedMap.{Entries}
use repart_kv.Storage.{Backend}
use repart_kv.Storage.Laws.{held}
use repart_kv.KeyStorage.{KeyStorage}
use repart_kv.Tracking.{Tracking}
use repart_kv.Worker.{enqueue}
use repart_kv.HardWorker.{HardQueue, HardScan, Engines, hard_scans}
use repart_kv.HardThreaded.{
  HardThreaded, collect, scan_with, scan_impl, scan_enqueue, enable_tracking_impl, track_all,
}
use repart_kv.HardThreaded.Steps.{waiting_on}
use repart_kv.HardThreaded.Invariant.{
  AtHome, queue_at, Homed, HardInv, HardMoves, worker_of, engine_of, waiting_of,
}
use repart_kv.HardThreaded.Homes.{get_or_insert-Settled}
use repart_kv.HardThreaded.Behind.{placed-behind, waiting-behind}

-- The insertions of a scan leave the keys at their homes.
pub record Grown (M : KeyStorage ℕ) (home : Key → ℕ) (m n : M.Store) : Type 0 where
  pub homed : Homed M home n
  pub kept : (j : Key) (p : ℕ) → M.get m j ≡ some p → M.get n j ≡ some p

pub collect-Grown :
    (S P : KeyStorage ℕ) (hash_func : Key → ℕ) (limit : ℕ) (it : S.Iterator) (n : ℕ) (m : P.Store)
    → Homed P (λ k. hash_func k % n) m
    → Grown P (λ k. hash_func k % n) m (collect S P hash_func limit it n m).1
unfolding collect
collect-Grown S P hash_func zero it n m h = record { homed = h; kept = λ j p e. e }
collect-Grown S P hash_func (suc limit) it n m h = elim (Bool-cases (S.is_end it)) [
  | inl over ↦ rw over (record { homed = h; kept = λ j p e. e })
  | inr on ↦
      let (m₁, found, e, settled, known) =
        get_or_insert-Settled P (λ k. hash_func k % n) m h (S.get_key it) in
      let rest = collect-Grown S P hash_func limit (S.next it) n m₁ settled.homed in
      rw (on, e) (record { homed = rest.homed; kept = λ j p h. rest.kept j p (settled.kept j p h) })
]

module _ {B : Backend} {S P : KeyStorage ℕ} {T : Tracking} (hash_func : Key → ℕ)
    (s : HardThreaded B S P T) (i : HardInv hash_func s) where
  -- The values, and what waits on each key, stay.
  pub quiet :
      (pm : P.Store) (engines : Engines B) (queues : List HardQueue) (scans : ℕ → HardScan)
      (scanning : List (ℕ × List ℕ)) (tracker : T.State) (next_id : ℕ) (enable : Bool)
      → Grown P (worker_of hash_func s) s.partition_map pm
      → ((j : Key) (e : ℕ) → held j (engines e) ≡ held j (s.engines e))
      → length queues ≡ length s.queues
      → ((w : ℕ) (q : HardQueue)
          → get_elem? queues w ≡ some q
          → All (AtHome (worker_of hash_func s) (engine_of hash_func s) w) q)
      → ((k : Key)
          → waiting_on k (queue_at queues (worker_of hash_func s k)) ≡ waiting_of hash_func s k)
      → HardMoves hash_func s [] (record s {
        partition_map = pm;
        engines = engines;
        queues = queues;
        scans = scans;
        scanning = scanning;
        tracker = tracker;
        next_id = next_id;
        enable_tracking = enable;
      })
  quiet pm engines queues scans scanning tracker next_id enable grown values len placed waiting = (
    record {
      nonempty = i.nonempty;
      sized = len ∙ i.sized;
      engines = i.engines;
      live = i.live;
      storages = i.storages;
      partitions = grown.homed;
      paired = λ k e h. grown.kept k (worker_of hash_func s k) (i.paired k e h);
      placed = placed;
      absent = λ k h.
          let (v, idle) = i.absent k h in
          (values k (engine_of hash_func s k) ∙ v, waiting k ∙ idle);
    },
    λ k. record {
      in_order = append-nil (waiting_of hash_func s k) ∙ sym (waiting k);
      results = refl;
      value = values k (engine_of hash_func s k);
    },
  )

  same_state : {a b : HardThreaded B S P T} → ok a ≡ ok b → a ≡ b
  same_state e = cc

  pub same_map : Grown P (worker_of hash_func s) s.partition_map s.partition_map
  same_map = record { homed = i.partitions; kept = λ j p e. e }

  pub enable_moves : (flag : Bool) → HardMoves hash_func s [] (enable_tracking_impl flag s)
  unfolding enable_tracking_impl
  enable_moves flag =
      quiet s.partition_map s.engines s.queues s.scans s.scanning s.tracker s.next_id flag same_map
        (λ j e. refl) refl i.placed (λ k. refl)

  scan_with_moves :
      (limit : ℕ) (results : Entries Value) (found : List (Key × ℕ × ℕ)) (pm : P.Store)
      → Grown P (worker_of hash_func s) s.partition_map pm
      → HardMoves hash_func s [] (scan_with hash_func s limit results found pm).0
  unfolding scan_with track_all
  scan_with_moves limit results [] pm g =
      let none_found : (tracker : T.State) → _ = λ tracker.
        quiet pm s.engines s.queues s.scans s.scanning tracker s.next_id s.enable_tracking g
          (λ j e. refl) refl i.placed (λ k. refl) in
      elim (Bool-cases (ltb 0 limit)) [
        | inl asked ↦ rw asked (none_found s.tracker)
        | inr not_asked ↦ rw not_asked (none_found _)
      ]
  scan_with_moves limit results (d ∷ ds) pm g =
      quiet pm s.engines s.queues _ _ _ (suc s.next_id) s.enable_tracking g (λ j e. refl) refl
        i.placed (λ k. refl)

  pub scan_moves :
      (k : Key) (limit : ℕ) (results : Entries Value)
      → HardMoves hash_func s [] (scan_impl hash_func s k limit results).0
  unfolding scan_impl
  scan_moves k limit results =
      let it = S.lower_bound_of s.storage_map k in
      let (found, pm) = collect S P hash_func limit it s.partition_count s.partition_map in
      scan_with_moves limit results found pm
        (collect-Grown S P hash_func limit it s.partition_count s.partition_map i.partitions)

  requeued_moves :
      (queues : List HardQueue) (scanning : List (ℕ × List ℕ))
      → length queues ≡ length s.queues
      → ((w : ℕ) (q : HardQueue)
          → get_elem? queues w ≡ some q
          → All (AtHome (worker_of hash_func s) (engine_of hash_func s) w) q)
      → ((k : Key)
          → waiting_on k (queue_at queues (worker_of hash_func s k)) ≡ waiting_of hash_func s k)
      → HardMoves hash_func s [] (record s { queues = queues; scanning = scanning })
  requeued_moves queues scanning len placed waiting =
      quiet s.partition_map s.engines queues s.scans scanning s.tracker s.next_id s.enable_tracking
        same_map (λ j e. refl) len placed waiting

  pub scan_enqueue_moves :
      (j n : ℕ) (ps : List ℕ) (t : HardThreaded B S P T)
      → scan_enqueue s j n ps ≡ ok t
      → HardMoves hash_func s [] t
  unfolding scan_enqueue enqueue
  scan_enqueue_moves j n [] t h =
      subst (HardMoves hash_func s []) (same_state h)
        (requeued_moves s.queues _ refl i.placed (λ k. refl))
  scan_enqueue_moves j n (p ∷ ps) t h = elim (Option-cases (get_elem? s.queues p)) [
    | inl missing ↦ absurd (cc (rw (scan_enqueue, enqueue, missing) at h))
    | inr (q, there) ↦
        subst (HardMoves hash_func s []) (same_state (rw (scan_enqueue, enqueue, there) at h)) (
          requeued_moves (set s.queues p (q ++ hard_scans n ∷ [])) _
            (length-set s.queues p (q ++ hard_scans n ∷ []))
            (placed-behind hash_func s i p (hard_scans n) q there tt)
            (λ k.
              waiting-behind hash_func s i p (hard_scans n) q there tt k
              ∙ append-nil (waiting_of hash_func s k)))
  ]
