-- ===== src/SoftThreaded/Deadlock.antt =====
-- Two scans that enqueue in turns.
use repart_kv.Soft.{sorted_partitions, collect}
use repart_kv.Common.{
  if◌then◌else◌, map, ℕ, zero, suc, ◌≡◌, ◌≢◌, refl, false, none, List, [], ◌∷◌, arith, ◌==◌,
  Bool-cases, inl, ==_iff, inr, ◌++◌, subst,
}
use repart_kv.Key.{Key, Value}
use repart_kv.SortedMap.{Entries}
use repart_kv.Storage.{Backend, StorageEngine}
use repart_kv.KeyStorage.{KeyStorage}
use repart_kv.Tracking.{Tracking}
use repart_kv.Worker.{
  Operation, scans, Queue, worker, take_next, process, arrived, waits_at, same_operation, enqueue,
}
use repart_kv.SoftThreaded.{SoftThreaded, scan_enqueue, remove_at, scan_with, track_all, scan_impl}
use repart_kv.Storage.Map.{resize}
use repart_kv.SoftThreaded.Steps.{Run, Step}

module _ (i j : ℕ) (a b : Key) (found_a found_b : Entries Value) (differ : i ≢ j) where
  abbrev first : Operation
  first = scans i a found_a 2

  abbrev second : Operation
  second = scans j b found_b 2

  not_same : (i == j) ≡ false
  not_same = elim (Bool-cases (i == j)) [
    | inl same ↦ absurd (differ ((==_iff i j).0 same))
    | inr other ↦ other
  ]

  -- Whatever comes behind the two scans, no worker goes on.
  crossed :
      {B : Backend} (x y : Queue) (storage : StorageEngine B) (w : ℕ)
      → worker w storage ((first ∷ second ∷ x) ∷ (second ∷ first ∷ y) ∷ []) ≡ none
  unfolding worker take_next process arrived waits_at same_operation
  crossed x y storage zero = ground (arith, not_same)
  crossed x y storage (suc zero) = ground (arith, not_same)
  crossed x y storage (suc (suc w)) = refl

no_partitions : sorted_partitions [] ≡ []
unfolding sorted_partitions
no_partitions = refl

module _ {B : Backend} {P : KeyStorage ℕ} {T : Tracking} where
  -- The partitions of the keys that a scan finds in the map.
  abbrev pub partitions_of : SoftThreaded B P T → Key → ℕ → List ℕ
  partitions_of s k limit = sorted_partitions (collect P limit (P.lower_bound_of s.key_map k))

  abbrev at :
      SoftThreaded B P T → T.State → ℕ → List Queue → List (Operation × List ℕ) → SoftThreaded B P T
  at s tracker next_id queues scanning = record s {
    tracker = tracker;
    next_id = next_id;
    queues = queues;
    scanning = scanning;
  }

  scan_with_both :
      (s : SoftThreaded B P T) (k : Key) (limit : ℕ) (results : Entries Value) (found : Entries ℕ)
      → sorted_partitions found ≡ 0 ∷ 1 ∷ []
      → (tracker : T.State) × ((scan_with s k limit results found).0
          ≡ at s tracker (suc s.next_id) s.queues (
              s.scanning ++ (scans s.next_id k (resize ([], []) limit results) 2, 0 ∷ 1 ∷ []) ∷ []))
  unfolding scan_with track_all
  scan_with_both s k limit results [] e = absurd (cc (no_partitions, e))
  scan_with_both s k limit results (d ∷ m) e = (
    if s.enable_tracking then (T.multi_update s.tracker (map (λ d. d.0) (d ∷ m))).0 else s.tracker,
    rw (scan_with, e) refl,
  )

  scan_impl_both :
      (s : SoftThreaded B P T) (k : Key) (limit : ℕ) (results : Entries Value)
      → partitions_of s k limit ≡ 0 ∷ 1 ∷ []
      → (tracker : T.State) × ((scan_impl s k limit results).0
          ≡ at s tracker (suc s.next_id) s.queues (
              s.scanning ++ (scans s.next_id k (resize ([], []) limit results) 2, 0 ∷ 1 ∷ []) ∷ []))
  unfolding scan_impl
  scan_impl_both s k limit results e =
      scan_with_both s k limit results (collect P limit (P.lower_bound_of s.key_map k)) e

  -- Steps of callers and workers that end nothing, to a state in which the queues stand and no
  -- worker goes on.
  abbrev pub Deadlocks : (Key → ℕ) → SoftThreaded B P T → Type 0
  Deadlocks hash_func s =
      (t : SoftThreaded B P T) × (first second : Operation) × Run hash_func s [] t
      × (t.scanning ≡ [])
      × (t.queues ≡ (first ∷ second ∷ []) ∷ (second ∷ first ∷ []) ∷ [])
      × ((x y : Queue) (storage : StorageEngine B) (w : ℕ)
          → worker w storage ((first ∷ second ∷ x) ∷ (second ∷ first ∷ y) ∷ []) ≡ none)

  module _ (hash_func : Key → ℕ) (s : SoftThreaded B P T) where
    -- The two enqueue in turns.
    crossing :
        (tracker : T.State) (n : ℕ) (o u : Operation)
        → Run hash_func
            (at s tracker n ([] ∷ [] ∷ []) ((o, 0 ∷ 1 ∷ []) ∷ (u, 0 ∷ 1 ∷ []) ∷ []))
            []
            (at s tracker n ((o ∷ u ∷ []) ∷ (u ∷ o ∷ []) ∷ []) [])
    unfolding scan_enqueue enqueue remove_at
    crossing tracker n o u =
        Run.more [] (Step.scan_on 0 o (0 ∷ 1 ∷ []) refl refl)
          (Run.more [] (Step.scan_on 1 u (0 ∷ 1 ∷ []) refl refl)
            (Run.more [] (Step.scan_on 1 u (1 ∷ []) refl refl)
              (Run.more [] (Step.scan_on 0 o (1 ∷ []) refl refl) Run.stop refl) refl)
            refl)
          refl

    crossing_from :
        (tracker : T.State) (n : ℕ) (o u : Operation) (queues : List Queue)
        (scanning : List (Operation × List ℕ))
        → queues ≡ [] ∷ [] ∷ []
        → scanning ≡ []
        → Run hash_func
            (at s tracker n queues ((scanning ++ (o, 0 ∷ 1 ∷ []) ∷ []) ++ (u, 0 ∷ 1 ∷ []) ∷ []))
            []
            (at s tracker n ((o ∷ u ∷ []) ∷ (u ∷ o ∷ []) ∷ []) [])
    crossing_from tracker n o u queues scanning qs none_scans =
        rw (qs, none_scans) (crossing tracker n o u)

    -- Two scans, each over a range with keys in both of two partitions, called while nothing waits,
    -- can enqueue in turns so that they lie in opposite orders in the two queues; then, whatever
    -- is enqueued behind them and whatever the engine holds, no worker goes on again.
    pub scan_impl-Deadlocks :
        (a b : Key) (limit_a limit_b : ℕ) (results_a results_b : Entries Value)
        → s.queues ≡ [] ∷ [] ∷ []
        → s.scanning ≡ []
        → partitions_of s a limit_a ≡ 0 ∷ 1 ∷ []
        → partitions_of s b limit_b ≡ 0 ∷ 1 ∷ []
        → Deadlocks hash_func s
    scan_impl-Deadlocks a b limit_a limit_b results_a results_b qs none_scans in_a in_b =
        let first = scans s.next_id a (resize ([], []) limit_a results_a) 2 in
        let second = scans (suc s.next_id) b (resize ([], []) limit_b results_b) 2 in
        let (tracker, ea) = scan_impl_both s a limit_a results_a in_a in
        let s₁ = at s tracker (suc s.next_id) s.queues (s.scanning ++ (first, 0 ∷ 1 ∷ []) ∷ []) in
        let (tracker', eb) = scan_impl_both s₁ b limit_b results_b in_b in
        let crossed_run =
          crossing_from tracker' (suc (suc s.next_id)) first second s.queues s.scanning qs
            none_scans in
        (
          at s tracker' (suc (suc s.next_id)) ((first ∷ second ∷ []) ∷ (second ∷ first ∷ []) ∷ [])
              [],
          first,
          second,
          Run.more [] (subst (Step hash_func s []) ea (Step.scan a limit_a results_a))
              (Run.more [] (subst (Step hash_func s₁ []) eb (Step.scan b limit_b results_b))
                crossed_run refl)
              refl,
          refl,
          refl,
          crossed s.next_id (suc s.next_id) a b (resize ([], []) limit_a results_a)
              (resize ([], []) limit_b results_b) (λ e. omega (arith, e)),
        )
