-- ===== src/Stripped/Smallest.antt =====
-- What a scan of the lock-stripping store returns: the smallest entries from a key on.
use repart_kv.Common.{
  ℕ, zero, suc, ◌≤◌, ◌≡◌, refl, sym, ap, ◌∙◌, true, false, Option, none, some, List, [], ◌∷◌, ◌++◌,
  arith, All, length, take, Bool-cases, inl, inr, ◌⊎◌, get_elem?, get_elem?-lt, min, All-take,
  All-map, length-take-le, ◌<◌,
}
use repart_kv.Common.Result.{ok, Returns}
use repart_kv.Key.{Key, Value, key_lt}
use repart_kv.Key.Laws.{key_lt_asym}
use repart_kv.SortedMap.{Entries, IsSorted, lower_bound}
use repart_kv.SortedMap.Laws.{Finds-self, All-lower_bound}
use repart_kv.Storage.{Backend, StorageEngine, success}
use repart_kv.Storage.Map.{resize}
use repart_kv.Storage.Laws.{held}
use repart_kv.Hard.Invariant.{at_engine}
use repart_kv.Stripped.{
  Stripped, scan_each, sort_entries, insert_entry, entry_leb, found_status, scan_impl,
}
use repart_kv.Stripped.Access.{Inv, view, home}
use repart_kv.Stripped.Merge.{
  Holds, InOrder, All-sort_entries, sort_entries-InOrder, Holds-sort_entries,
  count_below-sort_entries, Holds-take, take-below,
}
use repart_kv.Graph.Keys.{DistinctKeys}
use repart_kv.Stripped.Distinct.{
  DistinctKeys-sort_entries, DistinctKeys-take, InOrder-IsSorted, scan_each-DistinctKeys,
}
use repart_kv.Stripped.Scans.{
  lock_all_lem, unlock_all_lem, resize-take, take-min, lower_bound-NoneBelow, All-both,
  scan_each-Holds, scan_each-All, scan_each-at_engine, length-scan_each, scan_found,
}

InOrder-take : (n : ℕ) (m : Entries Value) → InOrder m → InOrder (take n m)
InOrder-take zero m s = tt
InOrder-take (suc n) [] s = tt
InOrder-take (suc n) (e ∷ m) s = (All-take _ n m s.0, InOrder-take n m s.1)

-- The status of what `limit` entries are found in an order of.
status-take :
    (n : ℕ) (m : Entries Value) → found_status (take (suc n) (sort_entries m)) ≡ found_status m
unfolding sort_entries insert_entry
status-take n [] = refl
status-take n (a ∷ m) = first (sort_entries m)
  where
    first : (l : Entries Value) → found_status (take (suc n) (insert_entry a l)) ≡ success
    first [] = refl
    first (b ∷ l) = elim (Bool-cases (entry_leb a b)) [ inl le ↦ rw le refl | inr gt ↦ rw gt refl ]

module _ {B : Backend} where
  scan_each-zero : (storages : List (StorageEngine B)) (k : Key) → (scan_each storages k 0).1 ≡ []
  unfolding scan_each
  scan_each-zero [] k = refl
  scan_each-zero (s ∷ storages) k =
      ap (λ x. x ++ (scan_each storages k 0).1) (scan_found k 0 s) ∙ scan_each-zero storages k

  status_lem :
      (storages : List (StorageEngine B)) (k : Key) (limit : ℕ)
      → let found = (scan_each storages k limit).1 in
        found_status found ≡ found_status (take limit (sort_entries found))
  status_lem storages k zero = ap found_status (scan_each-zero storages k)
  status_lem storages k (suc n) = sym (status-take n (scan_each storages k (suc n)).1)

  scan_lem :
      (s : Stripped B) (k : Key) (limit : ℕ) (results : Entries Value)
      → s.held ≡ []
      → let found = scan_each s.storages k limit in
        scan_impl s k limit results
        ≡ ok (
          record s { held = []; storages = found.0 },
          found_status found.1,
          take limit (sort_entries found.1),
        )
  unfolding scan_impl repart_kv.Locks.is_held
  scan_lem s k limit results released =
      let sorted = sort_entries (scan_each s.storages k limit).1 in
      let cut : resize ([], []) (min (length sorted) limit) sorted ≡ take limit sorted =
        resize-take (min (length sorted) limit) sorted (ground arith) ∙ take-min limit sorted in
      rw
        (
          released,
          lock_all_lem s.partition_count 0 [] (λ j le. refl),
          unlock_all_lem s.partition_count 0,
          cut,
        )
        refl

-- What a scan reports of a key: nothing where it has no value; where it has one, the key comes
-- before the start, the entry is reported, or `limit` others that it does not come before are.
abbrev pub Reports : Key → ℕ → Entries Value → Key → Option Value → Type 0
Reports start limit results k none = Unit
Reports start limit results k (some v) =
    (key_lt k start ≡ true)
    ⊎ (Holds (k, v) results ⊎ (length results ≡ limit) × All (λ e. key_lt k e.0 ≡ false) results)

module _ {B : Backend} (hash_func : Key → ℕ) where
  -- Each engine is well-formed and holds keys of its own partition only.
  pub record Kept (s : Stripped B) : Type 0 where
    pub valid : (p : ℕ) (e : StorageEngine B) → get_elem? s.storages p ≡ some e → B.IsValid e.store
    pub homed :
        (p : ℕ) (e : StorageEngine B) (k : Key) (v : Value)
        → get_elem? s.storages p ≡ some e
        → held k e ≡ some v
        → home hash_func s k ≡ p

  module _ (s : Stripped B) (start : Key) (limit : ℕ) (i : Inv hash_func s) (kept : Kept s) where
    abbrev found : Entries Value
    found = (scan_each s.storages start limit).1

    found-DistinctKeys : DistinctKeys found
    found-DistinctKeys =
        scan_each-DistinctKeys start limit (home hash_func s) 0 s.storages (λ p e he. (
          kept.valid p e he,
          All-lower_bound _ start (B.contents e.store) (
              All-map (B.contents e.store) (λ d h. omega (arith, kept.homed p e d.0 d.1 he h))
                (Finds-self (B.contents e.store)
                  (B.contents-IsSorted e.store (kept.valid p e he)))),
        ))

    results-IsSorted : IsSorted (take limit (sort_entries found))
    results-IsSorted =
        InOrder-IsSorted _ (InOrder-take limit _ (sort_entries-InOrder found))
          (DistinctKeys-take limit _ (DistinctKeys-sort_entries found found-DistinctKeys))

    engine_sound :
        (p : ℕ) (e : StorageEngine B)
        → get_elem? s.storages p ≡ some e
        → All
            (λ d. (key_lt d.0 start ≡ false) × (view hash_func s d.0 ≡ some d.1))
            (lower_bound start (B.contents e.store))
    engine_sound p e he =
        let sorted = B.contents-IsSorted e.store (kept.valid p e he) in
        All-map (lower_bound start (B.contents e.store))
          (λ d h.
            let here : get_elem? s.storages (home hash_func s d.0) ≡ some e =
              ap (get_elem? s.storages) (kept.homed p e d.0 d.1 he h.1) ∙ he in
            (h.0, ap (at_engine d.0) here ∙ h.1))
          (All-both _ _ (lower_bound start (B.contents e.store))
            (lower_bound-NoneBelow start (B.contents e.store) sorted)
            (All-lower_bound _ start (B.contents e.store) (Finds-self (B.contents e.store) sorted)))

    found-Reports :
        (k : Key) (o : Option Value)
        → view hash_func s k ≡ o
        → Reports start limit (take limit (sort_entries found)) k o
    found-Reports k none h = tt
    found-Reports k (some v) h = elim (Bool-cases (key_lt k start)) [
      | inl before ↦ inl before
      | inr ge ↦ inr (
          let range : home hash_func s k < s.partition_count = omega (arith, i.nonempty) in
          let (e, he) =
            get_elem?-lt s.storages (home hash_func s k) (omega (arith, i.sized, range)) in
          let here : held k e ≡ some v = sym (ap (at_engine k) he) ∙ h in
          let order = sort_entries-InOrder found in
          elim (scan_each-Holds start limit s.storages (home hash_func s k) e (k, v) he
            (kept.valid _ e he) here ge) [
              | inl there ↦
                  Holds-take (k, v) limit (sort_entries found) order
                    (Holds-sort_entries (k, v) found there)
              | inr many ↦
                  let (len, below) =
                    take-below k limit (sort_entries found) order
                      (omega (arith, many, count_below-sort_entries k found)) in
                  inr (len, All-map _ (λ d lt. key_lt_asym d.0 k lt) below)
            ])
    ]

    -- At no held mutex and well-formed engines that hold keys of their own partitions only, a scan
    -- of the lock-stripping store returns at most `limit` entries: their keys rise strictly, so that
    -- none comes twice, none comes before the start, and each has the value of its key. A key that has a value and does not come
    -- before the start is among them, or there are `limit` of them and none comes after that key.
    -- The status is `not_found` exactly for an empty result, and no value changes.
    pub scan_impl-Smallest :
        (results : Entries Value)
        → Returns (scan_impl s start limit results) λ r.
          IsSorted r.2
          × All (λ d. (key_lt d.0 start ≡ false) × (view hash_func s d.0 ≡ some d.1)) r.2
          × ((k : Key) → Reports start limit r.2 k (view hash_func s k))
          × (length r.2 ≤ limit)
          × (r.1 ≡ found_status r.2)
          × Inv hash_func r.0
          × ((k : Key) → view hash_func r.0 k ≡ view hash_func s k)
    scan_impl-Smallest results = rw (scan_lem s start limit results i.released) (
      results-IsSorted,
      All-take _ limit _
          (All-sort_entries _ found (scan_each-All start limit _ s.storages engine_sound)),
      λ k. found-Reports k (view hash_func s k) refl,
      length-take-le limit _,
      status_lem s.storages start limit,
      record {
        released = refl;
        nonempty = i.nonempty;
        sized = length-scan_each start limit s.storages ∙ i.sized;
      },
      λ k. scan_each-at_engine start limit s.storages (home hash_func s k) k,
    )
