-- ===== src/Stripped/Distinct.antt =====
-- The engines of different partitions find different keys, so a scan of the lock-stripping store
-- reports no key twice.
use repart_kv.Common.{
  ℕ, zero, suc, ◌+◌, ◌≤◌, ◌≡◌, refl, sym, ap, ◌∙◌, false, some, List, [], ◌∷◌, ◌++◌, arith, All,
  take, Bool-cases, inl, inr, get_elem?, All-append, All-take, All-map, subst,
}
use repart_kv.Key.{Key, Value, key_eq, key_lt}
use repart_kv.Key.Laws.{key_eq_iff, key_eq_sym, key_lt_total}
use repart_kv.SortedMap.{Entries, IsBelow, IsSorted, lower_bound}
use repart_kv.Graph.Keys.{DistinctKeys, IsSorted-DistinctKeys}
use repart_kv.Storage.{Backend, StorageEngine}
use repart_kv.Stripped.{scan_each, sort_entries, insert_entry, entry_leb}
use repart_kv.Stripped.Merge.{InOrder, NoneBelow, All-insert_entry, All-sort_entries}
use repart_kv.Stripped.Scans.{found_in, scan_found, scan_each-All, lower_bound-IsSorted}

-- No entry has the key `k`.
abbrev Lacks : Key → Entries Value → Type 0
Lacks k = All (λ d. key_eq k d.0 ≡ false)

DistinctKeys-append :
    (m n : Entries Value)
    → DistinctKeys m
    → DistinctKeys n
    → All (λ e. Lacks e.0 n) m
    → DistinctKeys (m ++ n)
DistinctKeys-append [] n dm dn h = dn
DistinctKeys-append (e ∷ m) n dm dn h =
    (All-append _ m n dm.0 h.0, DistinctKeys-append m n dm.1 dn h.1)

pub DistinctKeys-take : (n : ℕ) (m : Entries Value) → DistinctKeys m → DistinctKeys (take n m)
DistinctKeys-take zero m d = tt
DistinctKeys-take (suc n) [] d = tt
DistinctKeys-take (suc n) (e ∷ m) d = (All-take _ n m d.0, DistinctKeys-take n m d.1)

DistinctKeys-insert_entry :
    (a : Key × Value) (m : Entries Value)
    → Lacks a.0 m
    → DistinctKeys m
    → DistinctKeys (insert_entry a m)
unfolding insert_entry
DistinctKeys-insert_entry a [] h d = (tt, tt)
DistinctKeys-insert_entry a (b ∷ m) h d = elim (Bool-cases (entry_leb a b)) [
  | inl le ↦ rw le (h, d)
  | inr gt ↦
      rw gt (
        All-insert_entry _ a m (key_eq_sym b.0 a.0 ∙ h.0) d.0,
        DistinctKeys-insert_entry a m h.1 d.1,
      )
]

pub DistinctKeys-sort_entries : (m : Entries Value) → DistinctKeys m → DistinctKeys (sort_entries m)
unfolding sort_entries
DistinctKeys-sort_entries [] d = tt
DistinctKeys-sort_entries (a ∷ m) d =
    DistinctKeys-insert_entry a (sort_entries m) (All-sort_entries _ m d.0)
      (DistinctKeys-sort_entries m d.1)

above_lacked : (k : Key) (m : Entries Value) → NoneBelow k m → Lacks k m → IsBelow k m
above_lacked k [] b h = tt
above_lacked k (e ∷ m) b h = (
  elim (Bool-cases (key_lt k e.0)) [
    | inl lt ↦ lt
    | inr ge ↦ absurd (cc ((key_eq_iff k e.0).1 (key_lt_total k e.0 ge b.0), h.0))
  ],
  above_lacked k m b.1 h.1,
)

-- An order in which no key comes twice rises strictly.
pub InOrder-IsSorted : (m : Entries Value) → InOrder m → DistinctKeys m → IsSorted m
InOrder-IsSorted [] s d = tt
InOrder-IsSorted (e ∷ m) s d = (above_lacked e.0 m s.0 d.0, InOrder-IsSorted m s.1 d.1)

module _ (home : Key → ℕ) where
  -- Entries of one partition differ from those of the later ones.
  differ :
      (i : ℕ) (m n : Entries Value)
      → All (λ d. home d.0 ≡ i) m
      → All (λ d. suc i ≤ home d.0) n
      → All (λ e. Lacks e.0 n) m
  differ i m n hm hn =
      All-map m
        (λ e at.
          All-map n
            (λ d later. elim (Bool-cases (key_eq e.0 d.0)) [
              | inr other ↦ other
              | inl same ↦
                  let homes : home e.0 ≡ home d.0 = ap home ((key_eq_iff e.0 d.0).0 same) in
                  absurd (omega (arith, at, later, homes))
            ])
            hn)
        hm

module _ {B : Backend} (k : Key) (limit : ℕ) (home : Key → ℕ) where
  -- With the engine at each `p` well-formed, and holding keys of the partition `i + p` only, what
  -- the engines find has no key twice.
  pub scan_each-DistinctKeys :
      (i : ℕ) (storages : List (StorageEngine B))
      → ((p : ℕ) (e : StorageEngine B)
          → get_elem? storages p ≡ some e
          → B.IsValid e.store × All (λ d. home d.0 ≡ i + p) (lower_bound k (B.contents e.store)))
      → DistinctKeys (scan_each storages k limit).1
  unfolding scan_each
  scan_each-DistinctKeys i [] h = tt
  scan_each-DistinctKeys i (s ∷ storages) h =
      let (valid, at) = h 0 s refl in
      let first : All (λ d. home d.0 ≡ i) (found_in k limit s) =
        All-take _ limit _ (All-map _ (λ d e. omega (arith, e)) at) in
      let later : All (λ d. suc i ≤ home d.0) (scan_each storages k limit).1 =
        scan_each-All k limit _ storages
          (λ p e he. All-map _ (λ d q. omega (arith, q)) (h (suc p) e he).1) in
      let rest =
        scan_each-DistinctKeys (suc i) storages (λ p e he.
          ((h (suc p) e he).0, All-map _ (λ d q. omega (arith, q)) (h (suc p) e he).1)) in
      let distinct : DistinctKeys (found_in k limit s) =
        DistinctKeys-take limit _ (
          IsSorted-DistinctKeys _ (lower_bound-IsSorted k _ (B.contents-IsSorted s.store valid))) in
      subst (λ m. DistinctKeys (m ++ (scan_each storages k limit).1)) (sym (scan_found k limit s))
        (DistinctKeys-append (found_in k limit s) _ distinct rest (differ home i _ _ first later))
