-- ===== src/SortedMap/Laws.antt =====
-- The laws of the operations of `std::map` on its entries.
use repart_kv.Common.{◌≡◌, refl, true, none, some, [], ◌∷◌, arith, if◌then◌else◌, if_both, All}
use repart_kv.Key.{Key, key_eq, key_lt}
use repart_kv.Key.Laws.{key_eq_iff, key_eq_refl, key_lt_irrefl, key_lt_trans, key_lt_total}
use repart_kv.SortedMap.{Entries, lookup, insert, erase, lower_bound, IsBelow, IsSorted}

module _ {ℓ} {V : Type ℓ} where
  pub lookup-insert :
      (k j : Key) (v : V) (m : Entries V)
      → lookup j (insert k v m) ≡ (if key_eq k j then some v else lookup j m)
  unfolding lookup insert
  lookup-insert k j v [] = refl
  lookup-insert k j v ((i, w) ∷ m) =
      ground (arith, key_eq_iff k j, key_eq_iff i k, key_eq_iff i j, lookup-insert k j v m)

  pub lookup-erase :
      (k j : Key) (m : Entries V) → lookup j (erase k m) ≡ (if key_eq k j then none else lookup j m)
  unfolding lookup erase
  lookup-erase k j [] = ground arith
  lookup-erase k j ((i, w) ∷ m) =
      ground (arith, key_eq_iff k j, key_eq_iff i k, key_eq_iff i j, lookup-erase k j m)

  IsBelow-trans : (j k : Key) (m : Entries V) → key_lt j k ≡ true → IsBelow k m → IsBelow j m
  IsBelow-trans j k [] h b = tt
  IsBelow-trans j k (e ∷ m) h b = (key_lt_trans j k e.0 h b.0, IsBelow-trans j k m h b.1)

  IsBelow-insert :
      (j k : Key) (v : V) (m : Entries V)
      → key_lt j k ≡ true
      → IsBelow j m
      → IsBelow j (insert k v m)
  unfolding insert
  IsBelow-insert j k v [] h b = (h, tt)
  IsBelow-insert j k v ((i, w) ∷ m) h b = ground (arith, IsBelow-insert j k v m h b.1)

  pub insert-IsSorted : (k : Key) (v : V) (m : Entries V) → IsSorted m → IsSorted (insert k v m)
  unfolding insert
  insert-IsSorted k v [] s = (tt, tt)
  insert-IsSorted k v ((j, w) ∷ m) s = ground (
    arith,
    key_eq_iff j k,
    key_lt_total j k,
    insert-IsSorted k v m s.1,
    IsBelow-trans k j m,
    IsBelow-insert j k v m,
  )

  IsBelow-erase : (j k : Key) (m : Entries V) → IsBelow j m → IsBelow j (erase k m)
  unfolding erase
  IsBelow-erase j k [] b = tt
  IsBelow-erase j k ((i, w) ∷ m) b = ground (arith, IsBelow-erase j k m b.1)

  pub erase-IsSorted : (k : Key) (m : Entries V) → IsSorted m → IsSorted (erase k m)
  unfolding erase
  erase-IsSorted k [] s = tt
  erase-IsSorted k ((j, w) ∷ m) s = ground (arith, erase-IsSorted k m s.1, IsBelow-erase j k m s.0)

  -- In a sorted list every entry is the one that a lookup of its key finds.
  abbrev pub Finds : Entries V → Entries V → Type ℓ
  Finds m = All (λ e. lookup e.0 m ≡ some e.1)

  Finds-cons : (e : Key × V) (m l : Entries V) → IsBelow e.0 l → Finds m l → Finds (e ∷ m) l
  unfolding lookup
  Finds-cons e m [] b h = tt
  Finds-cons e m (d ∷ l) b h =
      (ground (arith, b.0, key_eq_iff e.0 d.0, key_lt_irrefl e.0, h.0), Finds-cons e m l b.1 h.1)

  pub Finds-self : (m : Entries V) → IsSorted m → Finds m m
  unfolding lookup
  Finds-self [] s = tt
  Finds-self (e ∷ m) s = (rw (key_eq_refl e.0), Finds-cons e m m s.0 (Finds-self m s.1))

  pub All-lower_bound {κ} :
      (Q : Key × V → Type κ) (k : Key) (m : Entries V) → All Q m → All Q (lower_bound k m)
  unfolding lower_bound
  All-lower_bound Q k [] h = tt
  All-lower_bound Q k (e ∷ m) h = if_both (All Q) (key_lt e.0 k) (All-lower_bound Q k m h.1) h
