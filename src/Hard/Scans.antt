-- ===== src/Hard/Scans.antt =====
-- A scan returns the entries of the view, in the order of the keys.
use mathlib.Core.List.{append_assoc, append-nil}
use repart_kv.SortedMap.Laws.{Finds-self, All-lower_bound}
use repart_kv.Hard.Bits.{mark_lem, marked, lock_marked_lem, unlock_marked_lem}
use repart_kv.Common.{
  ℕ, ◌≤◌, ◌<◌, ◌≡◌, refl, sym, ap, ◌∙◌, Option, none, some, List, [], ◌∷◌, ◌++◌, map, arith,
  get_elem?, take, All, All-take, All-map,
}
use repart_kv.Common.Result.{ok, Returns}
use repart_kv.Key.{Key, Value}
use repart_kv.SortedMap.{Entries, lower_bound}
use repart_kv.Storage.{Backend, StorageEngine, Status, success, not_found}
use repart_kv.Storage.Laws.{held}
use repart_kv.KeyStorage.{KeyStorage}
use repart_kv.Locks.{key_map, shared, lock_shared, unlock_shared_head}
use repart_kv.Tracking.{Tracking}
use repart_kv.Hard.{Hard, max_partition_count, track_all, find_all, scan_impl}
use repart_kv.Hard.Invariant.{
  released-Agrees, at_engine, at_partition, view, Inv, Agrees-view, Agrees-Inv, track_all-Agrees,
  engine_of,
}

-- The keys of `pairs` with the values that `f` gives them.
abbrev pub with_value : Key → Option Value → Entries Value → Entries Value
with_value k none m = m
with_value k (some v) m = (k, v) ∷ m

abbrev pub shown : (Key → Option Value) → Entries ℕ → Entries Value
shown f [] = []
shown f ((k, p) ∷ pairs) = with_value k (f k) (shown f pairs)

-- The status of a scan over `pairs` that starts with `status`.
abbrev pub scanned : Status → Entries ℕ → Status
scanned status [] = status
scanned status (e ∷ pairs) = success

scanned_success : (pairs : Entries ℕ) → scanned success pairs ≡ success
scanned_success [] = refl
scanned_success (e ∷ pairs) = refl

find_all_step :
    {B : Backend} (xs : List (StorageEngine B)) (k : Key) (p : ℕ) (pairs : Entries ℕ)
    (status : Status) (results : Entries Value) (e : StorageEngine B) (v : Value)
    → get_elem? xs p ≡ some e
    → held k e ≡ some v
    → find_all xs ((k, p) ∷ pairs) status results
      ≡ find_all xs pairs success (results ++ (k, v) ∷ [])
unfolding find_all
find_all_step {B} xs k p pairs status results e v he hv =
    ground (arith, B.find_impl_lem e.store k [])

module _ {B : Backend} {P : KeyStorage ℕ} {T : Tracking} where
  abbrev IsMapped : Hard B P T → Key × ℕ → Type 0
  IsMapped s e = P.get s.storage_map e.0 ≡ some e.1

  -- The keys that a scan meets are mapped to the partitions that it sees.
  pairs-IsMapped :
      (s : Hard B P T) (k : Key) (limit : ℕ)
      → Inv s
      → All (IsMapped s) (P.scan s.storage_map k limit)
  pairs-IsMapped s k limit i =
      let m = P.entries s.storage_map in
      let finds = Finds-self m (P.entries-IsSorted s.storage_map i.valid) in
      rw (P.scan_lem s.storage_map k limit) (
        All-take (IsMapped s) limit (lower_bound k m) (
          All-lower_bound (IsMapped s) k m
            (All-map m (λ e h. P.get_lem s.storage_map e.0 ∙ h) finds)))

  shown_step :
      (s : Hard B P T) (k : Key) (p : ℕ) (pairs : Entries ℕ) (v : Value)
      → view s k ≡ some v
      → shown (view s) ((k, p) ∷ pairs) ≡ (k, v) ∷ shown (view s) pairs
  shown_step s k p pairs v h = ap (λ o. with_value k o (shown (view s) pairs)) h

  find_all_lem :
      (s : Hard B P T) (pairs : Entries ℕ) (status : Status) (results : Entries Value)
      → Inv s
      → All (IsMapped s) pairs
      → find_all s.storages pairs status results
        ≡ ok (scanned status pairs, results ++ shown (view s) pairs)
  find_all_lem s [] status results i h =
      unfold find_all in ap (λ (m : Entries Value). ok (status, m)) (sym (append-nil results))
  find_all_lem s ((k, p) ∷ pairs) status results i h =
      let (e, he) = engine_of s i k p h.0 in
      let (v, hv) = i.stored k p h.0 in
      let here : held k e ≡ some v = ap (at_engine k) (sym he) ∙ hv in
      let seen : view s k ≡ some v = ap (at_partition s k) h.0 ∙ hv in
      find_all_step s.storages k p pairs status results e v he here
      ∙ find_all_lem s pairs success (results ++ (k, v) ∷ []) i h.1
      ∙ rw
          (shown_step s k p pairs v seen, append_assoc results ((k, v) ∷ []) (shown (view s) pairs))
          (ap (λ (t : Status). ok (t, results ++ (k, v) ∷ shown (view s) pairs))
            (scanned_success pairs))

  abbrev pub scanned_pairs : Hard B P T → Key → ℕ → Entries ℕ
  scanned_pairs s k limit = take limit (lower_bound k (P.entries s.storage_map))

  scan_impl_lem :
      (s : Hard B P T) (k : Key) (limit : ℕ) (results : Entries Value)
      → Inv s
      → s.partition_count ≤ max_partition_count
      → scan_impl s k limit results
        ≡ ok (
          track_all (map (λ e. e.0) (P.scan s.storage_map k limit)) (record s { held = [] }),
          scanned not_found (P.scan s.storage_map k limit),
          results ++ shown (view s) (P.scan s.storage_map k limit),
        )
  unfolding scan_impl lock_shared
  scan_impl_lem s k limit results i few =
      let pairs = P.scan s.storage_map k limit in
      let all = pairs-IsMapped s k limit i in
      let (bits, hb, _, _) = mark_lem pairs [] (All-map pairs (λ e h. below e.0 e.1 h) all) in
      let n = s.partition_count in
      rw (
        i.released,
        hb,
        lock_marked_lem n 0 bits (shared key_map ∷ []) (omega arith) (λ j _. refl),
        unlock_shared_head key_map (marked n 0 bits),
        find_all_lem s pairs not_found results i all,
        unlock_marked_lem n 0 bits (omega arith),
      )
    where
      below : (k : Key) (p : ℕ) → P.get s.storage_map k ≡ some p → p < max_partition_count
      below k p h = omega (arith, i.mapped k p h)

  -- Under the invariant, with at most 32 partitions, a scan returns. It appends to the results
  -- the first `limit` entries of the view whose keys are not less than the start, in order, with
  -- the status `success` if there are any and `not_found` if there are none; the view stays as it
  -- was, and so does the invariant.
  pub scan-view :
      (s : Hard B P T) (k : Key) (limit : ℕ) (results : Entries Value)
      → Inv s
      → s.partition_count ≤ max_partition_count
      → Returns (scan_impl s k limit results) λ r.
        (r.1 ≡ scanned not_found (scanned_pairs s k limit))
        × (r.2 ≡ results ++ shown (view s) (scanned_pairs s k limit))
        × Inv r.0
        × ((j : Key) → view r.0 j ≡ view s j)
        × (r.0.partition_count ≡ s.partition_count)
  scan-view s k limit results i few =
      let a =
        track_all-Agrees (map (λ e. e.0) (P.scan s.storage_map k limit)) (released-Agrees s) in
      rw (scan_impl_lem s k limit results i few) (
        ap (scanned not_found) (P.scan_lem s.storage_map k limit),
        ap (λ m. results ++ shown (view s) m) (P.scan_lem s.storage_map k limit),
        Agrees-Inv a i,
        Agrees-view a,
        a.count,
      )
