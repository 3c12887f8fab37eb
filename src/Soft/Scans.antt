-- ===== src/Soft/Scans.antt =====
-- A scan of the soft store: what it reads, and how it releases the mutexes.
use repart_kv.Common.{
  ℕ, zero, suc, ◌<◌, ◌≤◌, ◌≡◌, refl, ap, ◌∙◌, inl, inr, true, false, List, [], ◌∷◌, ◌++◌, arith,
  lt→ltb, ◌+◌, ltb, ◌==◌, Bool-cases, if_both, sym, All, take, map, All-take, All-map, subst,
}
use mathlib.Core.List.{append_assoc, append-nil}
use repart_kv.Hard.Bits.{FreeFrom, FreeFrom-next}
use repart_kv.Common.Result.{ok, err, not_owned}
use repart_kv.Key.{Key, Value}
use repart_kv.SortedMap.{Entries, lower_bound}
use repart_kv.SortedMap.Laws.{Finds-self, All-lower_bound}
use repart_kv.Storage.{Backend}
use repart_kv.KeyStorage.{KeyStorage}
use repart_kv.Locks.{
  Lock, Hold, partition, key_map, shared, exclusive, unlock, lock_shared, unlock_shared,
}
use repart_kv.Tracking.{Tracking}
use repart_kv.Soft.{
  Soft, collect, insert_partition, sorted_partitions, lock_each, unlock_each, scan_impl,
}
use repart_kv.Soft.Access.{Inv}

-- The loop collects a prefix of what is left.
collect_lem :
    (P : KeyStorage ℕ) (n : ℕ) (it : P.Iterator) (m : Entries ℕ)
    → P.rest it ≡ m
    → collect P n it ≡ take n m
unfolding collect
collect_lem P zero it m e = refl
collect_lem P (suc n) it [] e = let ended : P.is_end it ≡ true = rw (P.is_end_lem it, e) in rw ended
collect_lem P (suc n) it (x ∷ m) e =
    let more : P.is_end it ≡ false = rw (P.is_end_lem it, e) in
    let (k, v, r) = P.at_entry it x m e in rw (more, k, v, collect_lem P n (P.next it) m r)

-- Only shared holds.
abbrev AllShared : List Hold → Type 0
AllShared = All (λ (h : Hold). (l : Lock) × (h ≡ shared l))

-- A shared hold is not released by `unlock`.
unlock-AllShared : (l : Lock) (hs : List Hold) → AllShared hs → unlock l hs ≡ err not_owned
unfolding unlock
unlock-AllShared l [] h = refl
unlock-AllShared l (shared m ∷ hs) h = rw (unlock-AllShared l hs h.1)
unlock-AllShared l (exclusive m ∷ hs) h = let (l', e) = h.0 in cc

-- The partitions ascend from `i` on.
abbrev Ascending : ℕ → List ℕ → Type 0
Ascending i [] = Unit
Ascending i (p ∷ ps) = (i ≤ p) × Ascending (p + 1) ps

insert_partition-Ascending :
    (i p : ℕ) (ps : List ℕ) → i ≤ p → Ascending i ps → Ascending i (insert_partition p ps)
unfolding insert_partition
insert_partition-Ascending i p [] le a = (le, tt)
insert_partition-Ascending i p (q ∷ ps) le a =
    ground (arith, insert_partition-Ascending (q + 1) p ps, le, a)

All-insert_partition :
    (Q : ℕ → Type 0) (p : ℕ) (ps : List ℕ) → Q p → All Q ps → All Q (insert_partition p ps)
unfolding insert_partition
All-insert_partition Q p [] h a = (h, tt)
All-insert_partition Q p (q ∷ ps) h a =
    if_both (All Q) (p == q) a
      (if_both (All Q) (ltb p q) (h, a) (a.0, All-insert_partition Q p ps h a.1))

sorted_partitions-Ascending : (pairs : Entries ℕ) → Ascending 0 (sorted_partitions pairs)
unfolding sorted_partitions
sorted_partitions-Ascending [] = tt
sorted_partitions-Ascending ((k, p) ∷ pairs) =
    insert_partition-Ascending 0 p (sorted_partitions pairs) (omega arith)
      (sorted_partitions-Ascending pairs)

All-sorted_partitions :
    (Q : ℕ → Type 0) (pairs : Entries ℕ) → All (λ e. Q e.1) pairs → All Q (sorted_partitions pairs)
unfolding sorted_partitions
All-sorted_partitions Q [] h = tt
All-sorted_partitions Q ((k, p) ∷ pairs) h =
    All-insert_partition Q p (sorted_partitions pairs) h.0 (All-sorted_partitions Q pairs h.1)

abbrev holds : List ℕ → List Hold
holds = map (λ p. shared (partition p))

lock_each_lem :
    (n i : ℕ) (ps : List ℕ) (h : List Hold)
    → Ascending i ps
    → All (λ p. p < n) ps
    → FreeFrom i h
    → lock_each n ps h ≡ ok (h ++ holds ps)
unfolding lock_each lock_shared
lock_each_lem n i [] h a r f = ap ok (sym (append-nil h))
lock_each_lem n i (p ∷ ps) h a r f =
    let fits : ltb p n ≡ true = lt→ltb p n r.0 in
    let free : FreeFrom p h = λ j le. f j (omega (arith, le, a.0)) in
    rw
      (
        fits,
        free p (omega arith),
        lock_each_lem n (p + 1) ps (h ++ shared (partition p) ∷ []) a.1 r.1
            (FreeFrom-next p h free),
      )
      (ap ok (append_assoc h (shared (partition p) ∷ []) (holds ps)))

holds-AllShared : (ps : List ℕ) → AllShared (holds ps)
holds-AllShared [] = tt
holds-AllShared (p ∷ ps) = ((partition p, refl), holds-AllShared ps)

unlock_each_lem :
    (n p : ℕ) (ps : List ℕ) → p < n → unlock_each n (p ∷ ps) (holds (p ∷ ps)) ≡ err not_owned
unfolding unlock_each
unlock_each_lem n p ps r =
    rw (lt→ltb p n r, unlock-AllShared (partition p) (holds (p ∷ ps)) (holds-AllShared (p ∷ ps)))

insert_partition-filled :
    (p : ℕ) (ps : List ℕ) → (q : ℕ) × (qs : List ℕ) × (insert_partition p ps ≡ q ∷ qs)
unfolding insert_partition
insert_partition-filled p [] = (p, [], refl)
insert_partition-filled p (q ∷ ps) = elim (Bool-cases (p == q)) [
  | inl same ↦ (q, ps, rw same)
  | inr other ↦ elim (Bool-cases (ltb p q)) [
    | inl low ↦ (p, q ∷ ps, rw (other, low))
    | inr high ↦ (q, insert_partition p ps, rw (other, high))
  ]
]

sorted_partitions-filled :
    (e : Key × ℕ) (m : Entries ℕ) → (q : ℕ) × (qs : List ℕ) × (sorted_partitions (e ∷ m) ≡ q ∷ qs)
unfolding sorted_partitions
sorted_partitions-filled (k, p) m = insert_partition-filled p (sorted_partitions m)

module _ {B : Backend} {P : KeyStorage ℕ} {T : Tracking} where
  -- What the loop of a scan collects.
  abbrev pub scanned_pairs : Soft B P T → Key → ℕ → Entries ℕ
  scanned_pairs s k limit = take limit (lower_bound k (P.entries s.partition_map))

  -- The partitions of a scan are in range.
  scanned-InRange :
      (s : Soft B P T) (k : Key) (limit : ℕ)
      → Inv s
      → All (λ p. p < s.partition_count) (sorted_partitions (scanned_pairs s k limit))
  scanned-InRange s k limit i =
      let m = P.entries s.partition_map in
      let sorted = P.entries-IsSorted s.partition_map i.valid in
      let found =
        All-map m (λ e h. i.mapped e.0 e.1 (P.get_lem s.partition_map e.0 ∙ h))
          (Finds-self m sorted) in
      All-sorted_partitions (λ p. p < s.partition_count) (scanned_pairs s k limit)
        (All-take _ limit (lower_bound k m) (All-lower_bound _ k m found))

  -- Under the invariant, a scan of the soft store whose range has a mapped key ends in a release of
  -- a mutex that the thread does not own in that mode, whatever the vector holds before.
  pub scan_impl-NotOwned :
      (s : Soft B P T) (k : Key) (limit : ℕ) (results : Entries Value) (e : Key × ℕ) (m : Entries ℕ)
      → Inv s
      → scanned_pairs s k limit ≡ e ∷ m
      → scan_impl s k limit results ≡ err not_owned
  unfolding scan_impl lock_shared unlock_shared
  scan_impl-NotOwned s k limit results e m i h =
      let it = P.lower_bound_of s.partition_map k in
      let collected : collect P limit it ≡ scanned_pairs s k limit =
        collect_lem P limit it _ (P.rest-lower_bound_of s.partition_map k) in
      let (p, ps, filled) = sorted_partitions-filled e m in
      let parts : sorted_partitions (scanned_pairs s k limit) ≡ p ∷ ps =
        ap sorted_partitions h ∙ filled in
      let ascending : Ascending 0 (p ∷ ps) =
        subst (Ascending 0) filled (sorted_partitions-Ascending (e ∷ m)) in
      let range : All (λ q. q < s.partition_count) (p ∷ ps) =
        subst (All (λ q. q < s.partition_count)) parts (scanned-InRange s k limit i) in
      let locked =
        lock_each_lem s.partition_count 0 (p ∷ ps) (shared key_map ∷ []) ascending range
          (λ j le. refl) in
      rw (i.released, collected, parts, locked)
        (rw (unlock_each_lem s.partition_count p ps range.0))
