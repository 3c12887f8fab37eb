-- ===== src/Stripped/Scans.antt =====
-- A scan of the lock-stripping store: the first entries of all parts together.
use mathlib.Core.List.{append_assoc, append-nil}
use repart_kv.Common.{
  ℕ, zero, suc, ◌≤◌, ◌≡◌, refl, sym, ap, ◌∙◌, false, some, List, [], ◌∷◌, ◌++◌, arith, All, length,
  take, Bool-cases, inl, inr, ◌⊎◌, get_elem?, min, All-append, All-take, if_both, leb, take_all,
  subst,
}
use repart_kv.Common.Result.{ok}
use repart_kv.Key.{Key, Value, key_eq, key_lt}
use repart_kv.Key.Laws.{key_eq_iff, key_lt_trans}
use repart_kv.SortedMap.{Entries, IsBelow, IsSorted, lower_bound, lookup}
use repart_kv.Storage.{Backend, StorageEngine, Status, success, not_found}
use repart_kv.Storage.Map.{resize}
use repart_kv.Storage.Laws.{held}
use repart_kv.Locks.{Hold, partition, shared, is_held, lock_shared, unlock_shared_head}
use repart_kv.Hard.Bits.{FreeFrom, is_held-append}
use repart_kv.Hard.Invariant.{at_engine}
use repart_kv.Stripped.{lock_all, unlock_all, scan_each}
use repart_kv.Stripped.Merge.{
  Holds, count_below, IsSorted-take, Holds-append, count_below-append, NoneBelow,
}
use repart_kv.Storage

-- What the loop over the mutexes takes.
abbrev pub all_shared : ℕ → ℕ → List Hold
all_shared zero i = []
all_shared (suc n) i = shared (partition i) ∷ all_shared n (suc i)

FreeFrom-shared :
    (i : ℕ) (h : List Hold) → FreeFrom i h → FreeFrom (suc i) (h ++ shared (partition i) ∷ [])
unfolding is_held
FreeFrom-shared i h f j le =
    ground
      (arith, is_held-append (partition j) h (shared (partition i) ∷ []), f j (omega (arith, le)))

pub lock_all_lem :
    (n i : ℕ) (h : List Hold) → FreeFrom i h → lock_all n i h ≡ ok (h ++ all_shared n i)
unfolding lock_all lock_shared
lock_all_lem zero i h f = ap ok (sym (append-nil h))
lock_all_lem (suc n) i h f =
    rw
      (
        f i (omega arith),
        lock_all_lem n (suc i) (h ++ shared (partition i) ∷ []) (FreeFrom-shared i h f),
      )
      (ap ok (append_assoc h (shared (partition i) ∷ []) (all_shared n (suc i))))

pub unlock_all_lem : (n i : ℕ) → unlock_all n i (all_shared n i) ≡ ok []
unfolding unlock_all
unlock_all_lem zero i = refl
unlock_all_lem (suc n) i =
    rw (unlock_shared_head (partition i) (all_shared n (suc i))) (unlock_all_lem n (suc i))

pub resize-take : (n : ℕ) (m : Entries Value) → n ≤ length m → resize ([], []) n m ≡ take n m
unfolding resize
resize-take zero m h = refl
resize-take (suc n) [] h = absurd (omega (arith, h))
resize-take (suc n) (e ∷ m) h = ap (◌∷◌ e) (resize-take n m (omega (arith, h)))

pub take-min : (n : ℕ) (m : Entries Value) → take (min (length m) n) m ≡ take n m
take-min n m = elim (Bool-cases (leb n (length m))) [
  | inl le ↦ let same : min (length m) n ≡ n = ground (arith, le) in ap (λ i. take i m) same
  | inr gt ↦
      let same : min (length m) n ≡ length m = ground (arith, gt) in
      ap (λ i. take i m) same
      ∙ take_all (length m) m (omega arith)
      ∙ sym (take_all n m (ground (arith, gt)))
]

pub lower_bound-IsSorted : (k : Key) (m : Entries Value) → IsSorted m → IsSorted (lower_bound k m)
unfolding lower_bound
lower_bound-IsSorted k [] s = tt
lower_bound-IsSorted k (e ∷ m) s = if_both IsSorted (key_lt e.0 k) (lower_bound-IsSorted k m s.1) s

same_entry : (d e : Key × Value) → d.0 ≡ e.0 → some d.1 ≡ some e.1 → d ≡ e
same_entry d e at h = let value : d.1 ≡ e.1 = cc in λ i. (at i, value i)

lookup-Holds : (e : Key × Value) (m : Entries Value) → lookup e.0 m ≡ some e.1 → Holds e m
unfolding lookup
lookup-Holds e [] h = absurd (cc)
lookup-Holds e (d ∷ m) h = elim (Bool-cases (key_eq d.0 e.0)) [
  | inl here ↦ inl (same_entry d e ((key_eq_iff d.0 e.0).0 here) (ground (arith, h, here)))
  | inr there ↦ inr (lookup-Holds e m (ground (arith, h, there)))
]

lower_bound-Holds :
    (k : Key) (e : Key × Value) (m : Entries Value)
    → key_lt e.0 k ≡ false
    → Holds e m
    → Holds e (lower_bound k m)
unfolding lower_bound
lower_bound-Holds k e [] ge h = h
lower_bound-Holds k e (d ∷ m) ge (inl same) =
    let kept : key_lt d.0 k ≡ false = ap (λ x. key_lt x.0 k) same ∙ ge in rw kept (inl same)
lower_bound-Holds k e (d ∷ m) ge (inr h) =
    if_both (Holds e) (key_lt d.0 k) (lower_bound-Holds k e m ge h) (inr h)

above_head : (j k : Key) (m : Entries Value) → key_lt j k ≡ false → IsBelow j m → NoneBelow k m
above_head j k [] ge b = tt
above_head j k (e ∷ m) ge b = (
  elim (Bool-cases (key_lt e.0 k)) [
    | inr other ↦ other
    | inl lt ↦ absurd (cc (key_lt_trans j e.0 k b.0 lt, ge))
  ],
  above_head j k m ge b.1,
)

pub lower_bound-NoneBelow :
    (k : Key) (m : Entries Value) → IsSorted m → NoneBelow k (lower_bound k m)
unfolding lower_bound
lower_bound-NoneBelow k [] s = tt
lower_bound-NoneBelow k (e ∷ m) s = elim (Bool-cases (key_lt e.0 k)) [
  | inl lt ↦ rw lt (lower_bound-NoneBelow k m s.1)
  | inr ge ↦ rw ge (ge, above_head e.0 k m ge s.0)
]

pub All-both {κ τ} :
    {A : Type 0} (Q : A → Type κ) (R : A → Type τ) (xs : List A)
    → All Q xs
    → All R xs
    → All (λ x. Q x × R x) xs
All-both Q R [] q r = tt
All-both Q R (x ∷ xs) q r = ((q.0, r.0), All-both Q R xs q.1 r.1)

module _ {B : Backend} (k : Key) (limit : ℕ) where
  -- What an engine finds.
  abbrev pub found_in : StorageEngine B → Entries Value
  found_in e = take limit (lower_bound k (B.contents e.store))

  pub scan_found : (e : StorageEngine B) → (Storage.scan e k limit []).2 ≡ found_in e
  unfolding Storage.scan
  scan_found e = ap (λ x. x.1) (B.scan_impl_lem e.store k limit [])

  -- An entry of an engine is found, or `limit` entries before it are.
  pub scan_each-Holds :
      (storages : List (StorageEngine B)) (p : ℕ) (e : StorageEngine B) (d : Key × Value)
      → get_elem? storages p ≡ some e
      → B.IsValid e.store
      → held d.0 e ≡ some d.1
      → key_lt d.0 k ≡ false
      → let found = (scan_each storages k limit).1 in Holds d found ⊎ limit ≤ count_below d.0 found
  unfolding scan_each
  scan_each-Holds [] p e d there v h ge = absurd (cc)
  scan_each-Holds (s ∷ storages) zero e d there v h ge =
      let same : s ≡ e = cc in
      let rest = (scan_each storages k limit).1 in
      let first = (Storage.scan s k limit []).2 in
      let finds : first ≡ found_in e = scan_found s ∙ ap found_in same in
      let kept = lower_bound-Holds k d _ ge (lookup-Holds d _ h) in
      elim (IsSorted-take d limit (lower_bound k (B.contents e.store))
        (lower_bound-IsSorted k _ (B.contents-IsSorted e.store v)) kept) [
          | inl here ↦ inl (Holds-append d first rest (inl (subst (Holds d) (sym finds) here)))
          | inr many ↦
              let same_count : count_below d.0 first ≡ count_below d.0 (found_in e) =
                ap (count_below d.0) finds in
              inr (omega (arith, many, same_count, count_below-append d.0 first rest))
        ]
  scan_each-Holds (s ∷ storages) (suc p) e d there v h ge =
      let rest = (scan_each storages k limit).1 in
      let first = (Storage.scan s k limit []).2 in
      elim (scan_each-Holds storages p e d there v h ge) [
        | inl in_rest ↦ inl (Holds-append d first rest (inr in_rest))
        | inr many ↦ inr (omega (arith, many, count_below-append d.0 first rest))
      ]

  pub scan_each-All {κ} :
      (Q : Key × Value → Type κ) (storages : List (StorageEngine B))
      → ((p : ℕ) (e : StorageEngine B)
          → get_elem? storages p ≡ some e
          → All Q (lower_bound k (B.contents e.store)))
      → All Q (scan_each storages k limit).1
  unfolding scan_each
  scan_each-All Q [] h = tt
  scan_each-All Q (s ∷ storages) h =
      All-append Q (Storage.scan s k limit []).2 (scan_each storages k limit).1
        (subst (All Q) (sym (scan_found s)) (All-take Q limit _ (h 0 s refl)))
        (scan_each-All Q storages (λ p. h (suc p)))

  -- The engines change their counters only.
  pub scan_each-at_engine :
      (storages : List (StorageEngine B)) (p : ℕ) (j : Key)
      → at_engine j (get_elem? (scan_each storages k limit).0 p)
        ≡ at_engine j (get_elem? storages p)
  unfolding scan_each Storage.scan
  scan_each-at_engine [] p j = refl
  scan_each-at_engine (s ∷ storages) zero j = refl
  scan_each-at_engine (s ∷ storages) (suc p) j = scan_each-at_engine storages p j

  pub length-scan_each :
      (storages : List (StorageEngine B)) → length (scan_each storages k limit).0 ≡ length storages
  unfolding scan_each
  length-scan_each [] = refl
  length-scan_each (s ∷ storages) = ap suc (length-scan_each storages)
