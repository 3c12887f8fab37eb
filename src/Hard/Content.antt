-- ===== src/Hard/Content.antt =====
-- The store as one sorted map from keys to values.
use repart_kv.SortedMap.{IsBelow, IsSorted, Entries, lookup, lower_bound}
use repart_kv.SortedMap.Ext.{lookup-IsBelow, sorted_ext}
use repart_kv.SortedMap.Laws.{Finds-self, All-lower_bound}
use repart_kv.Common.{
  ℕ, zero, suc, ◌≡◌, refl, sym, ap, ◌∙◌, subst, inl, inr, true, Option, none, some, [], ◌∷◌, arith,
  if◌then◌else◌, Bool-cases, Option-cases, take, All, All-map, All-take,
}
use repart_kv.Key.{Key, Value, key_eq, key_lt}
use repart_kv.Key.Laws.{key_eq_iff}
use repart_kv.Storage.{Backend}
use repart_kv.KeyStorage.{KeyStorage}
use repart_kv.Tracking.{Tracking}
use repart_kv.Hard.{Hard, Status, not_found, success}
use repart_kv.Hard.Invariant.{at_partition, view, Inv}
use repart_kv.Hard.Scans.{with_value, shown, scanned_pairs, scanned}

module _ (f : Key → Option Value) where
  IsBelow-with_value :
      (k j : Key) (o : Option Value) (m : Entries Value)
      → key_lt k j ≡ true
      → IsBelow k m
      → IsBelow k (with_value j o m)
  IsBelow-with_value k j none m lt b = b
  IsBelow-with_value k j (some v) m lt b = (lt, b)

  IsBelow-shown : (k : Key) (m : Entries ℕ) → IsBelow k m → IsBelow k (shown f m)
  IsBelow-shown k [] b = tt
  IsBelow-shown k ((j, p) ∷ m) b =
      IsBelow-with_value k j (f j) (shown f m) b.0 (IsBelow-shown k m b.1)

  IsSorted-with_value :
      (j : Key) (o : Option Value) (m : Entries Value)
      → IsBelow j m
      → IsSorted m
      → IsSorted (with_value j o m)
  IsSorted-with_value j none m b s = s
  IsSorted-with_value j (some v) m b s = (b, s)

  pub shown-IsSorted : (m : Entries ℕ) → IsSorted m → IsSorted (shown f m)
  shown-IsSorted [] s = tt
  shown-IsSorted ((j, p) ∷ m) s =
      IsSorted-with_value j (f j) (shown f m) (IsBelow-shown j m s.0) (shown-IsSorted m s.1)

  abbrev seen : Key → Option ℕ → Option Value
  seen k none = none
  seen k (some p) = f k

  lookup-with_value :
      (k j : Key) (o : Option Value) (m : Entries Value)
      → IsBelow j m
      → lookup k (with_value j o m) ≡ (if key_eq j k then o else lookup k m)
  unfolding lookup
  lookup-with_value k j none m b = elim (Bool-cases (key_eq j k)) [
    | inl here ↦
        rw here (subst (λ i. lookup i m ≡ none) ((key_eq_iff j k).0 here) (lookup-IsBelow j m b))
    | inr there ↦ rw there
  ]
  lookup-with_value k j (some v) m b = refl

  pub lookup-shown :
      (k : Key) (m : Entries ℕ) → IsSorted m → lookup k (shown f m) ≡ seen k (lookup k m)
  unfolding lookup
  lookup-shown k [] s = refl
  lookup-shown k ((j, p) ∷ m) s =
      lookup-with_value k j (f j) (shown f m) (IsBelow-shown j m s.0)
      ∙ ground (arith, lookup-shown k m s.1, key_eq_iff j k)

  -- Every key of `m` has a value.
  abbrev pub Present : Entries ℕ → Type 0
  Present = All (λ e. (v : Value) × (f e.0 ≡ some v))

  take-shown : (n : ℕ) (m : Entries ℕ) → Present m → shown f (take n m) ≡ take n (shown f m)
  take-shown zero m h = refl
  take-shown (suc n) [] h = refl
  take-shown (suc n) ((j, p) ∷ m) h =
      let (v, e) = h.0 in rw e (ap (◌∷◌ (j, v)) (take-shown n m h.1))

  lower_bound-shown :
      (k : Key) (m : Entries ℕ) → Present m → shown f (lower_bound k m) ≡ lower_bound k (shown f m)
  unfolding lower_bound
  lower_bound-shown k [] h = refl
  lower_bound-shown k ((j, p) ∷ m) h = elim (Bool-cases (key_lt j k)) [
    | inl low ↦ let (v, e) = h.0 in rw (low, e) (rw low (lower_bound-shown k m h.1))
    | inr high ↦ let (v, e) = h.0 in rw (high, e) (rw high)
  ]

-- `success` if there is something.
abbrev pub range_status : Entries Value → Status
range_status [] = not_found
range_status (e ∷ m) = success

scanned-range_status :
    (f : Key → Option Value) (pairs : Entries ℕ)
    → Present f pairs
    → scanned not_found pairs ≡ range_status (shown f pairs)
scanned-range_status f [] h = refl
scanned-range_status f ((j, p) ∷ pairs) h = let (v, e) = h.0 in rw e

module _ {B : Backend} {P : KeyStorage ℕ} {T : Tracking} where
  -- All the entries of the store, in the order of their keys.
  abbrev pub content : Hard B P T → Entries Value
  content s = shown (view s) (P.entries s.storage_map)

  module _ (s : Hard B P T) (i : Inv s) where
    pub content-IsSorted : IsSorted (content s)
    content-IsSorted =
        shown-IsSorted (view s) (P.entries s.storage_map) (P.entries-IsSorted s.storage_map i.valid)

    pub lookup-content : (k : Key) → lookup k (content s) ≡ view s k
    lookup-content k =
        lookup-shown (view s) k (P.entries s.storage_map) (P.entries-IsSorted s.storage_map i.valid)
        ∙ ap (seen (view s) k) (sym (P.get_lem s.storage_map k))
        ∙ (elim (Option-cases (P.get s.storage_map k)) [
          | inl miss ↦ rw miss
          | inr (p, hit) ↦ ap (seen (view s) k) hit
        ])

    entries-Present : Present (view s) (P.entries s.storage_map)
    entries-Present =
        All-map (P.entries s.storage_map)
          (λ e h.
            let mapped : P.get s.storage_map e.0 ≡ some e.1 = P.get_lem s.storage_map e.0 ∙ h in
            let (v, hv) = i.stored e.0 e.1 mapped in (v, ap (at_partition s e.0) mapped ∙ hv))
          (Finds-self (P.entries s.storage_map) (P.entries-IsSorted s.storage_map i.valid))

    -- What a scan shows is a range of the content.
    pub shown-scanned_pairs :
        (k : Key) (limit : ℕ)
        → shown (view s) (scanned_pairs s k limit) ≡ take limit (lower_bound k (content s))
    shown-scanned_pairs k limit =
        let m = P.entries s.storage_map in
        take-shown (view s) limit (lower_bound k m) (All-lower_bound _ k m entries-Present)
        ∙ ap (take limit) (lower_bound-shown (view s) k m entries-Present)

  -- The content is determined by the view.
  pub content-eq :
      (s : Hard B P T) (m : Entries Value)
      → Inv s
      → IsSorted m
      → ((k : Key) → view s k ≡ lookup k m)
      → content s ≡ m
  content-eq s m i sorted h =
      sorted_ext (content s) m (content-IsSorted s i) sorted (λ k. lookup-content s i k ∙ h k)

  pub same_content :
      (s t : Hard B P T) → Inv s → Inv t → ((k : Key) → view t k ≡ view s k) → content t ≡ content s
  same_content s t i j h =
      content-eq t (content s) j (content-IsSorted s i) (λ k. h k ∙ sym (lookup-content s i k))

  pub status-scanned_pairs :
      (s : Hard B P T) (i : Inv s) (k : Key) (limit : ℕ)
      → scanned not_found (scanned_pairs s k limit)
        ≡ range_status (take limit (lower_bound k (content s)))
  status-scanned_pairs s i k limit =
      let m = P.entries s.storage_map in
      scanned-range_status (view s) (scanned_pairs s k limit)
        (All-take _ limit (lower_bound k m) (All-lower_bound _ k m (entries-Present s i)))
      ∙ ap range_status (shown-scanned_pairs s i k limit)
