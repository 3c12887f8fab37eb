-- ===== src/SortedMap/Ext.antt =====
-- Sorted entries are determined by their lookups.
use repart_kv.Common.{
  ◌≡◌, refl, sym, ◌∙◌, subst, true, none, some, [], ◌∷◌, arith, Bool-cases, inl, inr,
}
use repart_kv.Key.{Key, key_eq, key_lt}
use repart_kv.Key.Laws.{key_eq_iff, key_eq_refl, key_lt_irrefl, key_lt_total, key_lt_trans}
use repart_kv.SortedMap.{Entries, lookup, IsBelow, IsSorted}

module _ {ℓ} {V : Type ℓ} where
  pub lookup-IsBelow : (k : Key) (m : Entries V) → IsBelow k m → lookup k m ≡ none
  unfolding lookup
  lookup-IsBelow k [] b = refl
  lookup-IsBelow k (e ∷ m) b =
      ground (arith, lookup-IsBelow k m b.1, b.0, key_eq_iff e.0 k, key_lt_irrefl k)

  -- A key below the first is not there.
  lookup-below_head :
      (k : Key) (e : Key × V) (m : Entries V)
      → key_lt k e.0 ≡ true
      → IsSorted (e ∷ m)
      → lookup k (e ∷ m) ≡ none
  lookup-below_head k e m lt s = lookup-IsBelow k (e ∷ m) (lt, below m s.0)
    where
      below : (n : Entries V) → IsBelow e.0 n → IsBelow k n
      below [] b = tt
      below (d ∷ n) b = (key_lt_trans k e.0 d.0 lt b.0, below n b.1)

  lookup-head : (e : Key × V) (m : Entries V) → lookup e.0 (e ∷ m) ≡ some e.1
  unfolding lookup
  lookup-head e m = rw (key_eq_refl e.0)

  tails :
      (d e : Key × V) (m n : Entries V)
      → d.0 ≡ e.0
      → IsBelow d.0 m
      → IsBelow e.0 n
      → ((k : Key) → lookup k (d ∷ m) ≡ lookup k (e ∷ n))
      → (k : Key) → lookup k m ≡ lookup k n
  tails d e m n same bm bn h k = elim (Bool-cases (key_eq d.0 k)) [
    | inl here ↦
        let e₁ : d.0 ≡ k = (key_eq_iff d.0 k).0 here in
        subst (λ i. lookup i m ≡ none) e₁ (lookup-IsBelow d.0 m bm)
        ∙ sym (subst (λ i. lookup i n ≡ none) (sym same ∙ e₁) (lookup-IsBelow e.0 n bn))
    | inr there ↦ unfold lookup in ground (arith, h k, same)
  ]

  pub sorted_ext :
      (m n : Entries V) → IsSorted m → IsSorted n → ((k : Key) → lookup k m ≡ lookup k n) → m ≡ n
  sorted_ext [] [] sm sn h = refl
  sorted_ext [] (e ∷ n) sm sn h = unfold lookup in cc (h e.0, lookup-head e n)
  sorted_ext (d ∷ m) [] sm sn h = unfold lookup in cc (h d.0, lookup-head d m)
  sorted_ext (d ∷ m) (e ∷ n) sm sn h = elim (Bool-cases (key_lt d.0 e.0)) [
    | inl lt ↦ absurd (cc (h d.0, lookup-head d m, lookup-below_head d.0 e n lt sn))
    | inr ge ↦ elim (Bool-cases (key_lt e.0 d.0)) [
      | inl gt ↦ absurd (cc (h e.0, lookup-head e n, lookup-below_head e.0 d m gt sm))
      | inr le ↦
          let same : d.0 ≡ e.0 = key_lt_total d.0 e.0 ge le in
          let rest : m ≡ n = sorted_ext m n sm.1 sn.1 (tails d e m n same sm.0 sn.0 h) in
          let value : d.1 ≡ e.1 = cc (h d.0, lookup-head d m, lookup-head e n, same) in
          λ i. (same i, value i) ∷ rest i
    ]
  ]
