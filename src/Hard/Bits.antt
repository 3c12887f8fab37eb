-- ===== src/Hard/Bits.antt =====
-- The bit set of a scan, and the loops that take and release the mutexes of its partitions.
use mathlib.Core.List.{append_assoc, append-nil}
use repart_kv.Common.{
  ℕ, zero, suc, ◌+◌, ◌≤◌, ◌<◌, ◌≡◌, refl, sym, ap, inl, inr, true, false, ◌||◌, List, [], ◌∷◌, ◌++◌,
  arith, ltb, if◌then◌else◌, Bool-cases, All,
}
use repart_kv.Common.Result.{ok}
use repart_kv.SortedMap.{Entries}
use repart_kv.Locks.{
  Lock, Hold, partition, shared, exclusive, is_held, lock_shared, unlock_shared_head,
}
use repart_kv.Hard.{
  Bitset, max_partition_count, contains, set_bit, test, mark, lock_marked, unlock_marked,
}

-- `mark` succeeds while the partitions fit the bit set, and sets the bit of each.
pub mark_lem :
    (pairs : Entries ℕ) (bits : Bitset)
    → All (λ e. e.1 < max_partition_count) pairs
    → (b : Bitset) × (mark pairs bits ≡ ok b)
      × All (λ e. contains e.1 b ≡ true) pairs
      × ((p : ℕ) → contains p bits ≡ true → contains p b ≡ true)
unfolding mark set_bit
mark_lem [] bits h = (bits, refl, tt, λ p c. c)
mark_lem ((k, p) ∷ pairs) bits h =
    let (b, e, all, old) = mark_lem pairs (p ∷ bits) h.1 in
    (b, ground arith, (old p (ground arith), all), λ q c. old q (ground arith))

-- The mutexes that a round from `i` on takes.
abbrev pub marked : ℕ → ℕ → Bitset → List Hold
marked zero i bits = []
marked (suc n) i bits =
    let rest = marked n (i + 1) bits in
    if contains i bits then shared (partition i) ∷ rest else rest

-- No mutex of a partition from `i` on is held.
abbrev pub FreeFrom : ℕ → List Hold → Type 0
FreeFrom i h = (j : ℕ) → i ≤ j → is_held (partition j) h ≡ false

pub is_held-append :
    (l : Lock) (h g : List Hold) → is_held l (h ++ g) ≡ (is_held l h || is_held l g)
unfolding is_held
is_held-append l [] g = refl
is_held-append l (shared m ∷ h) g = ground (arith, is_held-append l h g)
is_held-append l (exclusive m ∷ h) g = ground (arith, is_held-append l h g)

pub FreeFrom-next :
    (i : ℕ) (h : List Hold) → FreeFrom i h → FreeFrom (i + 1) (h ++ shared (partition i) ∷ [])
unfolding is_held
FreeFrom-next i h f j le =
    ground (arith, is_held-append (partition j) h (shared (partition i) ∷ []), f j (omega arith))

pub lock_marked_lem :
    (n i : ℕ) (bits : Bitset) (h : List Hold)
    → i + n ≤ max_partition_count
    → FreeFrom i h
    → lock_marked n i bits h ≡ ok (h ++ marked n i bits)
unfolding lock_marked test lock_shared
lock_marked_lem zero i bits h le f = ap ok (sym (append-nil h))
lock_marked_lem (suc n) i bits h le f = elim (Bool-cases (contains i bits)) [
  | inl here ↦
      let fits : ltb i max_partition_count ≡ true = ground arith in
      rw
        (
          fits,
          here,
          f i (omega arith),
          lock_marked_lem n (i + 1) bits (h ++ shared (partition i) ∷ []) (omega arith)
              (FreeFrom-next i h f),
        )
        (ap ok (append_assoc h (shared (partition i) ∷ []) (marked n (i + 1) bits)))
  | inr absent ↦
      let fits : ltb i max_partition_count ≡ true = ground arith in
      rw (fits, absent) (lock_marked_lem n (i + 1) bits h (omega arith) (λ j lj. f j (omega arith)))
]

-- What the first loop takes the second releases.
pub unlock_marked_lem :
    (n i : ℕ) (bits : Bitset)
    → i + n ≤ max_partition_count
    → unlock_marked n i bits (marked n i bits) ≡ ok []
unfolding unlock_marked test
unlock_marked_lem zero i bits le = refl
unlock_marked_lem (suc n) i bits le = elim (Bool-cases (contains i bits)) [
  | inl here ↦
      let fits : ltb i max_partition_count ≡ true = ground arith in
      rw (fits, here, unlock_shared_head (partition i) (marked n (i + 1) bits))
        (unlock_marked_lem n (i + 1) bits (omega arith))
  | inr absent ↦
      let fits : ltb i max_partition_count ≡ true = ground arith in
      rw (fits, absent) (unlock_marked_lem n (i + 1) bits (omega arith))
]
