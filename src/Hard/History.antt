-- ===== src/Hard/History.antt =====
-- Whole histories of calls: the store behaves as one sorted map from keys to values.
use mathlib.Core.Path.{ap₂}
use repart_kv.Common.{ℕ, ◌≤◌, ◌≡◌, refl, sym, ap, ◌∙◌, Bool, List, [], ◌∷◌, arith, take}
use repart_kv.Common.Result.{Result, ok, ◌>>=◌, Returns, Returns-bind}
use repart_kv.Key.{Key, Value}
use repart_kv.SortedMap.{Entries, lookup, insert, lower_bound}
use repart_kv.Storage.{Backend, Status, success, found_or}
use repart_kv.KeyStorage.{KeyStorage}
use repart_kv.Tracking.{Tracking}
use repart_kv.Hard.{
  Hard, max_partition_count, read_impl, write_impl, scan_impl, repartition_impl,
  enable_tracking_impl,
}
use repart_kv.Hard.Invariant.{Inv, Agrees, Agrees-view, Agrees-Inv}
use repart_kv.Hard.Writes.{write-view}
use repart_kv.Hard.Scans.{scan-view}
use repart_kv.Hard.Access.{read-view}
use repart_kv.Hard.Content.{
  content, content-eq, content-IsSorted, lookup-content, shown-scanned_pairs, same_content,
  status-scanned_pairs, range_status,
}
use repart_kv.Hard.Repartition.{repartition-view}
use repart_kv.SortedMap.Laws.{lookup-insert, insert-IsSorted}

pub data Call : Type 0 where
  reads writes : Key → Value → Call
  scans : Key → ℕ → Call
  repartitions : Call
  tracks : Bool → Call

-- What a call gives its caller: the status, and the contents of its out parameter.
pub data Reply : Type 0 where
  value_of : Status → Value → Reply
  status_of : Status → Reply
  entries_of : Status → Entries Value → Reply
  done : Reply

-- A sorted map, and what the calls do to it and report of it.
unfoldable pub spec_step : Entries Value → Call → Entries Value × Reply
spec_step m (reads k old) =
    (m, value_of (found_or old (lookup k m)).0 (found_or old (lookup k m)).1)
spec_step m (writes k v) = (insert k v m, status_of success)
spec_step m (scans k limit) =
    let found = take limit (lower_bound k m) in (m, entries_of (range_status found) found)
spec_step m repartitions = (m, done)
spec_step m (tracks enable) = (m, done)

unfoldable pub spec_run : Entries Value → List Call → Entries Value × List Reply
spec_run m [] = (m, [])
spec_run m (c ∷ cs) = let (m₁, r) = spec_step m c in let (m₂, rs) = spec_run m₁ cs in (m₂, r ∷ rs)

module _ {B : Backend} {P : KeyStorage ℕ} {T : Tracking} (hash_func : Key → ℕ) where
  -- A call of the store; a scan starts with an empty vector.
  unfoldable pub step : Hard B P T → Call → Result (Hard B P T × Reply)
  step s (reads k old) = do (t, status, value) ← read_impl s k old; ok (t, value_of status value)
  step s (writes k v) = do (t, status) ← write_impl hash_func s k v; ok (t, status_of status)
  step s (scans k limit) = do
    (t, status, results) ← scan_impl s k limit []
    ok (t, entries_of status results)
  step s repartitions = do t ← repartition_impl s; ok (t, done)
  step s (tracks enable) = ok (enable_tracking_impl enable s, done)

  unfoldable pub run : Hard B P T → List Call → Result (Hard B P T × List Reply)
  run s [] = ok (s, [])
  run s (c ∷ cs) = do (t, r) ← step s c; (u, rs) ← run t cs; ok (u, r ∷ rs)

  toggled :
      (s : Hard B P T) (enable : Bool) → s.held ≡ [] → Agrees s (enable_tracking_impl enable s)
  unfolding enable_tracking_impl
  toggled s enable free = record {
    released = free;
    count = refl;
    sized = refl;
    maps = λ k. refl;
    valid = λ v. v;
    engines = λ k p. refl;
  }

  abbrev pub Refines : Hard B P T → Entries Value × Reply → Hard B P T × Reply → Type 0
  Refines s spec r =
      Inv r.0 × (content r.0 ≡ spec.0) × (r.1 ≡ spec.1) × (r.0.partition_count ≡ s.partition_count)

  step-Refines :
      (s : Hard B P T) (c : Call)
      → Inv s
      → s.partition_count ≤ max_partition_count
      → Returns (step s c) (Refines s (spec_step (content s) c))
  unfolding step spec_step
  step-Refines s (reads k old) i few =
      Returns-bind (read_impl s k old) _ _ _ (read-view s k old i) λ r h. (
        h.1,
        same_content s r.0 i h.1 h.2,
        ap (λ (p : Status × Value). value_of p.0 p.1)
            (h.0 ∙ ap (found_or old) (sym (lookup-content s i k))),
        h.3,
      )
  step-Refines s (writes k v) i few =
      Returns-bind (write_impl hash_func s k v) _ _ _ (write-view hash_func s k v i) λ r h. (
        h.1,
        content-eq r.0 (insert k v (content s)) h.1
            (insert-IsSorted k v (content s) (content-IsSorted s i))
            (λ j. h.2 j ∙ rw (lookup-insert k j v (content s), lookup-content s i j)),
        ap status_of h.0,
        h.3,
      )
  step-Refines s (scans k limit) i few =
      Returns-bind (scan_impl s k limit []) _ _ _ (scan-view s k limit [] i few) λ r h. (
        h.2,
        same_content s r.0 i h.2 h.3,
        ap₂ entries_of (h.0 ∙ status-scanned_pairs s i k limit)
            (h.1 ∙ shown-scanned_pairs s i k limit),
        h.4,
      )
  step-Refines s repartitions i few =
      Returns-bind (repartition_impl s) _ _ _ (repartition-view s i)
        λ t h. (h.0, same_content s t i h.0 h.1, refl, h.2)
  step-Refines s (tracks enable) i few =
      let a = toggled s enable i.released in
      (Agrees-Inv a i, same_content s _ i (Agrees-Inv a i) (Agrees-view a), refl, a.count)

  abbrev pub AllRefine : Hard B P T → Entries Value × List Reply → Hard B P T × List Reply → Type 0
  AllRefine s spec r =
      Inv r.0 × (content r.0 ≡ spec.0) × (r.1 ≡ spec.1) × (r.0.partition_count ≡ s.partition_count)

  -- From a store under the invariant with at most 32 partitions, every history of calls returns,
  -- and gives the replies, statuses and out parameters included, that a single sorted map gives
  -- which starts with the content of the store and ends with it.
  pub run-Refines :
      (s : Hard B P T) (cs : List Call)
      → Inv s
      → s.partition_count ≤ max_partition_count
      → Returns (run s cs) (AllRefine s (spec_run (content s) cs))
  unfolding run spec_run
  run-Refines s [] i few = (i, refl, refl, refl)
  run-Refines s (c ∷ cs) i few =
      let spec = spec_step (content s) c in
      Returns-bind (step s c) _ (Refines s spec) _ (step-Refines s c i few) λ r h.
        Returns-bind (run r.0 cs) _ (AllRefine r.0 (spec_run (content r.0) cs)) _
          (run-Refines r.0 cs h.0 (omega (arith, h.3)))
          λ q w.
            let same : spec_run (content r.0) cs ≡ spec_run spec.0 cs =
              ap (λ m. spec_run m cs) h.1 in
            (
              w.0,
              w.1 ∙ ap (λ (p : Entries Value × List Reply). p.0) same,
              ap₂ ◌∷◌ h.2 (w.2 ∙ ap (λ (p : Entries Value × List Reply). p.1) same),
              w.3 ∙ h.3,
            )
