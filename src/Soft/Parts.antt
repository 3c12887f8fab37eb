-- ===== src/Soft/Parts.antt =====
-- The loops of a repartitioning of the soft store: over the mutexes, and over the parts.
use mathlib.Core.List.{append_assoc, append-nil}
use repart_kv.Common.{
  ℕ, zero, suc, ◌<◌, ◌≡◌, refl, ap, ◌∙◌, inl, inr, Option, some, List, [], ◌∷◌, ◌++◌, arith,
  if◌then◌else◌, Bool-cases, sym, All, length,
}
use repart_kv.Common.Result.{ok}
use repart_kv.Key.{Key, key_eq}
use repart_kv.KeyStorage.{KeyStorage, get-put}
use repart_kv.Locks.{Hold, partition, key_map, exclusive, is_held, lock, unlock, unlock_head}
use repart_kv.Tracker.{put_parts}
use repart_kv.Hard.Bits.{FreeFrom, is_held-append}
use repart_kv.Soft.{lock_all, unlock_all}

-- The mutexes that the first loop takes.
abbrev pub all_from : ℕ → ℕ → List Hold
all_from zero i = []
all_from (suc n) i = exclusive (partition i) ∷ all_from n (suc i)

FreeFrom-taken :
    (i : ℕ) (h : List Hold) → FreeFrom i h → FreeFrom (suc i) (h ++ exclusive (partition i) ∷ [])
unfolding is_held
FreeFrom-taken i h f j le =
    ground (
      arith,
      is_held-append (partition j) h (exclusive (partition i) ∷ []),
      f j (omega (arith, le)),
    )

pub lock_all_lem :
    (n i : ℕ) (h : List Hold) → FreeFrom i h → lock_all n i h ≡ ok (h ++ all_from n i)
unfolding lock_all lock
lock_all_lem zero i h f = ap ok (sym (append-nil h))
lock_all_lem (suc n) i h f =
    rw
      (
        f i (omega arith),
        lock_all_lem n (suc i) (h ++ exclusive (partition i) ∷ []) (FreeFrom-taken i h f),
      )
      (ap ok (append_assoc h (exclusive (partition i) ∷ []) (all_from n (suc i))))

pub unlock_all_lem :
    (n i : ℕ) → unlock_all n i (exclusive key_map ∷ all_from n i) ≡ ok (exclusive key_map ∷ [])
unfolding unlock_all unlock
unlock_all_lem zero i = refl
unlock_all_lem (suc n) i =
    rw (unlock_head (partition i) (all_from n (suc i))) (unlock_all_lem n (suc i))

-- The partition of a key after the parts are put, the last one that names it.
abbrev pub placed_by : Key → List Key → List ℕ → Option ℕ → Option ℕ
placed_by k (j ∷ names) (p ∷ parts) old =
    placed_by k names parts (if key_eq j k then some p else old)
placed_by k [] parts old = old
placed_by k (j ∷ names) [] old = old

module _ (P : KeyStorage ℕ) where
  pub record Put (names : List Key) (parts : List ℕ) (s t : P.Store) : Type 0 where
    pub valid : P.IsValid t
    pub maps : (k : Key) → P.get t k ≡ placed_by k names parts (P.get s k)

  pub put_parts_lem :
      (names : List Key) (parts : List ℕ) (s : P.Store)
      → P.IsValid s
      → length parts ≡ length names
      → (t : P.Store) × (put_parts P names parts s ≡ ok t) × Put names parts s t
  unfolding put_parts
  put_parts_lem [] [] s v l = (s, refl, record { valid = v; maps = λ k. refl })
  put_parts_lem [] (p ∷ parts) s v l = absurd (omega (arith, l))
  put_parts_lem (j ∷ names) [] s v l = absurd (omega (arith, l))
  put_parts_lem (j ∷ names) (p ∷ parts) s v l =
      let (t, e, r) =
        put_parts_lem names parts (P.put s j p) (P.put-IsValid s j p v) (omega (arith, l)) in
      (
        t,
        e,
        record {
          valid = r.valid;
          maps = λ k. r.maps k ∙ ap (placed_by k names parts) (get-put P s j k p);
        },
      )

pub placed_by-InRange :
    (n : ℕ) (k : Key) (names : List Key) (parts : List ℕ) (old : Option ℕ)
    → All (λ p. p < n) parts
    → ((q : ℕ) → old ≡ some q → q < n)
    → (q : ℕ) → placed_by k names parts old ≡ some q
    → q < n
placed_by-InRange n k [] parts old r h q e = h q e
placed_by-InRange n k (j ∷ names) [] old r h q e = h q e
placed_by-InRange n k (j ∷ names) (p ∷ parts) old r h q e =
    placed_by-InRange n k names parts (if key_eq j k then some p else old) r.1
      (λ q e. ground (arith, h q, r.0, e)) q e

pub placed_by-some :
    (k : Key) (names : List Key) (parts : List ℕ) (p : ℕ)
    → (q : ℕ) × (placed_by k names parts (some p) ≡ some q)
placed_by-some k [] parts p = (p, refl)
placed_by-some k (j ∷ names) [] p = (p, refl)
placed_by-some k (j ∷ names) (r ∷ parts) p = elim (Bool-cases (key_eq j k)) [
  | inl here ↦ let (q, e) = placed_by-some k names parts r in (q, rw here e)
  | inr there ↦ let (q, e) = placed_by-some k names parts p in (q, rw there e)
]
