-- ===== src/KeyStorage/Insert.antt =====
-- What `get_or_insert` leaves, as the stores use it: the key has a partition in range.
use repart_kv.Common.{ℕ, ◌<◌, ◌≡◌, sym, ◌∙◌, Bool, true, false, inl, inr, some, arith, Option-cases}
use repart_kv.Key.{Key}
use repart_kv.Key.Laws.{key_eq_iff, key_eq_refl}
use repart_kv.KeyStorage.{KeyStorage, get-put}

module _ (P : KeyStorage ℕ) where
  -- Every mapped key is in one of the `n` partitions.
  abbrev pub InRange : ℕ → P.Store → Type 0
  InRange n m = (k : Key) (p : ℕ) → P.get m k ≡ some p → p < n

  -- The key has the partition `p` in the map `m`, which is `old` for the keys that `old` has.
  pub record Assigned (n : ℕ) (old : P.Store) (key : Key) (m : P.Store) (p : ℕ) : Type 0 where
    pub valid : P.IsValid m
    pub range : p < n
    pub here : P.get m key ≡ some p
    pub mapped : InRange n m
    pub kept : (k : Key) (q : ℕ) → P.get old k ≡ some q → P.get m k ≡ some q

  pub assign :
      (n : ℕ) (old : P.Store) (key : Key) (next : ℕ)
      → P.IsValid old
      → InRange n old
      → next < n
      → (m : P.Store) × (found : Bool) × (p : ℕ) × (P.get_or_insert old key next ≡ (m, found, p))
        × Assigned n old key m p
  assign n old key next valid mapped range = elim (Option-cases (P.get old key)) [
    | inr (p, hit) ↦ (
      old,
      true,
      p,
      P.get_or_insert_old old key next p (sym (P.get_lem old key) ∙ hit),
      record {
        valid = valid;
        range = mapped key p hit;
        here = hit;
        mapped = mapped;
        kept = λ k q h. h;
      },
    )
    | inl miss ↦ (
      P.put old key next,
      false,
      next,
      P.get_or_insert_new old key next (sym (P.get_lem old key) ∙ miss),
      record {
        valid = P.put-IsValid old key next valid;
        range = range;
        here = ground (arith, get-put P old key key next, key_eq_refl key);
        mapped = λ k q h. ground (arith, get-put P old key k next, mapped k q, h, range);
        kept = λ k q h. ground (arith, get-put P old key k next, key_eq_iff key k, miss, h);
      },
    )
  ]
