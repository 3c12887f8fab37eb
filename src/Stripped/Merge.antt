-- ===== src/Stripped/Merge.antt =====
-- The entries of a scan of the lock-stripping store, sorted: what is in a part of them, and how many
-- come before a key.
use repart_kv.Common.{
  ℕ, zero, suc, ◌+◌, ◌≤◌, ◌≡◌, refl, sym, ap, ◌∙◌, true, false, [], ◌∷◌, ◌++◌, arith, All, length,
  take, if◌then◌else◌, Bool-cases, inl, inr, ◌⊎◌, subst,
}
use repart_kv.Key.{Key, Value, key_eq, key_lt}
use repart_kv.Key.Laws.{key_eq_iff, key_lt_irrefl, key_lt_trans, key_lt_total, key_lt_asym}
use repart_kv.SortedMap.{Entries, IsBelow, IsSorted}
use repart_kv.Stripped.{insert_entry, sort_entries, entry_leb}

-- The entry is one of these.
abbrev pub Holds : Key × Value → Entries Value → Type 0
Holds e [] = ⊥
Holds e (d ∷ m) = (d ≡ e) ⊎ Holds e m

abbrev pub count_below : Key → Entries Value → ℕ
count_below k [] = 0
count_below k (e ∷ m) = let rest = count_below k m in if key_lt e.0 k then suc rest else rest

-- No key is less than `k`.
abbrev pub NoneBelow : Key → Entries Value → Type 0
NoneBelow k = All (λ e. key_lt e.0 k ≡ false)

abbrev pub InOrder : Entries Value → Type 0
InOrder [] = Unit
InOrder (e ∷ m) = NoneBelow e.0 m × InOrder m

not_below_trans : (a b c : Key) → key_lt c b ≡ false → key_lt b a ≡ false → key_lt c a ≡ false
not_below_trans a b c cb ba = elim (Bool-cases (key_lt c a)) [
  | inr ge ↦ ge
  | inl lt ↦ elim (Bool-cases (key_lt b c)) [
    | inl bc ↦ absurd (cc (key_lt_trans b c a bc lt, ba))
    | inr cb' ↦ let same : b ≡ c = key_lt_total b c cb' cb in absurd (cc (same, lt, ba))
  ]
]

NoneBelow-trans :
    (a b : Key) (m : Entries Value) → key_lt b a ≡ false → NoneBelow b m → NoneBelow a m
NoneBelow-trans a b [] ba h = tt
NoneBelow-trans a b (e ∷ m) ba h = (not_below_trans a b e.0 h.0 ba, NoneBelow-trans a b m ba h.1)

entry_leb-true : (a b : Key × Value) → entry_leb a b ≡ true → key_lt b.0 a.0 ≡ false
entry_leb-true a b h = elim (Bool-cases (key_lt a.0 b.0)) [
  | inl lt ↦ key_lt_asym a.0 b.0 lt
  | inr ge ↦
      let same : key_eq a.0 b.0 ≡ true = ground (arith, h, ge) in
      let at : a.0 ≡ b.0 = (key_eq_iff a.0 b.0).0 same in
      ap (λ k. key_lt k a.0) (sym at) ∙ key_lt_irrefl a.0
]

entry_leb-false : (a b : Key × Value) → entry_leb a b ≡ false → key_lt a.0 b.0 ≡ false
entry_leb-false a b h = ground (arith, h)

pub All-insert_entry {κ} :
    (Q : Key × Value → Type κ) (a : Key × Value) (m : Entries Value)
    → Q a
    → All Q m
    → All Q (insert_entry a m)
unfolding insert_entry
All-insert_entry Q a [] q h = (q, tt)
All-insert_entry Q a (b ∷ m) q h = elim (Bool-cases (entry_leb a b)) [
  | inl le ↦ rw le (q, h)
  | inr gt ↦ rw gt (h.0, All-insert_entry Q a m q h.1)
]

pub All-sort_entries {κ} :
    (Q : Key × Value → Type κ) (m : Entries Value) → All Q m → All Q (sort_entries m)
unfolding sort_entries
All-sort_entries Q [] h = tt
All-sort_entries Q (a ∷ m) h = All-insert_entry Q a (sort_entries m) h.0 (All-sort_entries Q m h.1)

insert_entry-InOrder :
    (a : Key × Value) (m : Entries Value) → InOrder m → InOrder (insert_entry a m)
unfolding insert_entry
insert_entry-InOrder a [] s = (tt, tt)
insert_entry-InOrder a (b ∷ m) s = elim (Bool-cases (entry_leb a b)) [
  | inl le ↦
      let first = entry_leb-true a b le in rw le ((first, NoneBelow-trans a.0 b.0 m first s.0), s)
  | inr gt ↦
      rw gt (All-insert_entry _ a m (entry_leb-false a b gt) s.0, insert_entry-InOrder a m s.1)
]

pub sort_entries-InOrder : (m : Entries Value) → InOrder (sort_entries m)
unfolding sort_entries
sort_entries-InOrder [] = tt
sort_entries-InOrder (a ∷ m) = insert_entry-InOrder a (sort_entries m) (sort_entries-InOrder m)

count_below-insert_entry :
    (k : Key) (a : Key × Value) (m : Entries Value)
    → count_below k (insert_entry a m) ≡ count_below k (a ∷ m)
unfolding insert_entry
count_below-insert_entry k a [] = refl
count_below-insert_entry k a (b ∷ m) = ground (arith, count_below-insert_entry k a m)

pub count_below-sort_entries :
    (k : Key) (m : Entries Value) → count_below k (sort_entries m) ≡ count_below k m
unfolding sort_entries
count_below-sort_entries k [] = refl
count_below-sort_entries k (a ∷ m) =
    count_below-insert_entry k a (sort_entries m) ∙ ground (arith, count_below-sort_entries k m)

pub count_below-append :
    (k : Key) (m n : Entries Value) → count_below k (m ++ n) ≡ count_below k m + count_below k n
count_below-append k [] n = omega arith
count_below-append k (e ∷ m) n = ground (arith, count_below-append k m n)

count_below-le : (k : Key) (m : Entries Value) → count_below k m ≤ length m
count_below-le k [] = omega arith
count_below-le k (e ∷ m) = ground (arith, count_below-le k m)

-- Where an order starts with no less than `k`, nothing is less.
count_below-none : (k : Key) (m : Entries Value) → NoneBelow k m → count_below k m ≡ 0
count_below-none k [] h = refl
count_below-none k (e ∷ m) h = rw h.0 (count_below-none k m h.1)

-- If `n` entries come before `k`, the first `n` do.
pub take-below :
    (k : Key) (n : ℕ) (m : Entries Value)
    → InOrder m
    → n ≤ count_below k m
    → (length (take n m) ≡ n) × All (λ e. key_lt e.0 k ≡ true) (take n m)
take-below k zero m s h = (refl, tt)
take-below k (suc n) [] s h = absurd (omega (arith, h))
take-below k (suc n) (e ∷ m) s h = elim (Bool-cases (key_lt e.0 k)) [
  | inl lt ↦
      let (len, all) = take-below k n m s.1 (ground (arith, h, lt)) in (ap suc len, (lt, all))
  | inr ge ↦
      let no = count_below-none k m (NoneBelow-trans k e.0 m ge s.0) in
      absurd (ground (arith, h, ge, no))
]

pub Holds-All {κ} :
    (Q : Key × Value → Type κ) (e : Key × Value) (m : Entries Value) → All Q m → Holds e m → Q e
Holds-All Q e [] a h = absurd h
Holds-All Q e (d ∷ m) a (inl same) = subst Q same a.0
Holds-All Q e (d ∷ m) a (inr h) = Holds-All Q e m a.1 h

pub Holds-append :
    (e : Key × Value) (m n : Entries Value) → Holds e m ⊎ Holds e n → Holds e (m ++ n)
Holds-append e [] n (inr h) = h
Holds-append e [] n (inl h) = absurd h
Holds-append e (d ∷ m) n (inl (inl same)) = inl same
Holds-append e (d ∷ m) n (inl (inr h)) = inr (Holds-append e m n (inl h))
Holds-append e (d ∷ m) n (inr h) = inr (Holds-append e m n (inr h))

Holds-insert_entry :
    (e a : Key × Value) (m : Entries Value) → Holds e (a ∷ m) → Holds e (insert_entry a m)
unfolding insert_entry
Holds-insert_entry e a [] h = h
Holds-insert_entry e a (b ∷ m) h = elim (Bool-cases (entry_leb a b)) [
  | inl le ↦ rw le h
  | inr gt ↦ rw gt (elim h [
    | inl same ↦ inr (Holds-insert_entry e a m (inl same))
    | inr (inl here) ↦ inl here
    | inr (inr there) ↦ inr (Holds-insert_entry e a m (inr there))
  ])
]

pub Holds-sort_entries :
    (e : Key × Value) (m : Entries Value) → Holds e m → Holds e (sort_entries m)
unfolding sort_entries
Holds-sort_entries e [] h = h
Holds-sort_entries e (a ∷ m) (inl same) = Holds-insert_entry e a (sort_entries m) (inl same)
Holds-sort_entries e (a ∷ m) (inr h) =
    Holds-insert_entry e a (sort_entries m) (inr (Holds-sort_entries e m h))

-- An entry of an order is among the first `n`, or these are `n` that it does not come before.
pub Holds-take :
    (e : Key × Value) (n : ℕ) (m : Entries Value)
    → InOrder m
    → Holds e m
    → Holds e (take n m) ⊎ (length (take n m) ≡ n) × All (λ d. key_lt e.0 d.0 ≡ false) (take n m)
Holds-take e zero m s h = inr (refl, tt)
Holds-take e (suc n) [] s h = absurd h
Holds-take e (suc n) (d ∷ m) s (inl same) = inl (inl same)
Holds-take e (suc n) (d ∷ m) s (inr h) = elim (Holds-take e n m s.1 h) [
  | inl first ↦ inl (inr first)
  | inr (len, all) ↦ inr (ap suc len, (Holds-All (λ d'. key_lt d'.0 d.0 ≡ false) e m s.0 h, all))
]

IsBelow-Holds :
    (k : Key) (e : Key × Value) (m : Entries Value) → IsBelow k m → Holds e m → key_lt k e.0 ≡ true
IsBelow-Holds k e [] b h = absurd h
IsBelow-Holds k e (d ∷ m) b (inl same) = subst (λ x. key_lt k x.0 ≡ true) same b.0
IsBelow-Holds k e (d ∷ m) b (inr h) = IsBelow-Holds k e m b.1 h

-- An entry of a sorted map is among the first `n`, or `n` come before it.
pub IsSorted-take :
    (e : Key × Value) (n : ℕ) (m : Entries Value)
    → IsSorted m
    → Holds e m
    → Holds e (take n m) ⊎ n ≤ count_below e.0 (take n m)
IsSorted-take e zero m s h = inr (omega arith)
IsSorted-take e (suc n) [] s h = absurd h
IsSorted-take e (suc n) (d ∷ m) s (inl same) = inl (inl same)
IsSorted-take e (suc n) (d ∷ m) s (inr h) = elim (IsSorted-take e n m s.1 h) [
  | inl first ↦ inl (inr first)
  | inr many ↦ inr (ground (arith, many, IsBelow-Holds d.0 e m s.0 h))
]
