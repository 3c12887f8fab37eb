-- ===== src/SoftThreaded/Log/Remove.antt =====
-- What is left of a log when a worker has taken its first operation.
use repart_kv.Common.{
  ℕ, ◌≡◌, ◌≢◌, refl, sym, ap, ◌∙◌, true, false, Option, none, some, [], ◌∷◌, arith, All, ◌==◌,
  ==_iff, Bool-cases, inl, inr,
}
use repart_kv.Key.{Key}
use repart_kv.Worker.{Operation, syncs, Queue}
use repart_kv.SoftThreaded.Log.{
  Log, part, on_key, is_on, is_data, Good, Follows, Ordered, Recent, remove, fence_free,
}

module _ (n w : ℕ) (o : Operation) (q : Queue) (d : is_data o ≡ true) where
  -- A sync is not the operation.
  not_fence : (p : Operation) → (i : ℕ) × (p ≡ syncs i n) → p ≢ o
  not_fence p (i, e) h = cc

  pub part-remove : (l : Log) → All (Good n) l → part w l ≡ o ∷ q → part w (remove w l) ≡ q
  part-remove [] g h = cc
  part-remove ((none, p) ∷ l) g h = absurd (not_fence p g.0 (cc))
  part-remove ((some r, p) ∷ l) g h = ground (arith, part-remove l g.1)

  pub part-remove_other :
      (v : ℕ) (l : Log)
      → All (Good n) l
      → (w == v) ≡ false
      → part w l ≡ o ∷ q
      → part v (remove w l) ≡ part v l
  part-remove_other v [] g ne h = refl
  part-remove_other v ((none, p) ∷ l) g ne h = absurd (not_fence p g.0 (cc))
  part-remove_other v ((some r, p) ∷ l) g ne h =
      ground (arith, part-remove_other v l g.1 ne, ==_iff w v)

  pub Good-remove : (l : Log) → All (Good n) l → part w l ≡ o ∷ q → All (Good n) (remove w l)
  Good-remove [] g h = tt
  Good-remove ((none, p) ∷ l) g h = g.1
  Good-remove ((some r, p) ∷ l) g h = elim (Bool-cases (r == w)) [
    | inl here ↦ rw here g.1
    | inr there ↦ rw there (g.0, Good-remove l g.1 (ground (arith, there, h)))
  ]

  Follows-hit :
      (p : ℕ) (k : Key) (l : Log)
      → All (Good n) l
      → part w l ≡ o ∷ q
      → is_on k o ≡ true
      → Follows p k l
      → w ≡ p
  Follows-hit p k [] g h on f = cc
  Follows-hit p k ((none, r) ∷ l) g h on f = absurd (not_fence r g.0 (cc))
  Follows-hit p k ((some r, u) ∷ l) g h on f = elim (Bool-cases (r == w)) [
    | inl here ↦
        let same : u ≡ o = ground (arith, here, h) in
        sym ((==_iff r w).0 here) ∙ f.0 (ap (is_on k) same ∙ on)
    | inr there ↦ Follows-hit p k l g.1 (ground (arith, there, h)) on f.1
  ]

  Follows-remove :
      (p : ℕ) (k : Key) (l : Log)
      → All (Good n) l
      → part w l ≡ o ∷ q
      → Follows p k l
      → Follows p k (remove w l)
  Follows-remove p k [] g h f = tt
  Follows-remove p k ((none, r) ∷ l) g h f = absurd (not_fence r g.0 (cc))
  Follows-remove p k ((some r, u) ∷ l) g h f = elim (Bool-cases (r == w)) [
    | inl here ↦ rw here f.1
    | inr there ↦ rw there (f.0, Follows-remove p k l g.1 (ground (arith, there, h)) f.1)
  ]

  pub Ordered-remove :
      (l : Log) → All (Good n) l → part w l ≡ o ∷ q → Ordered l → Ordered (remove w l)
  Ordered-remove [] g h s = tt
  Ordered-remove ((none, r) ∷ l) g h s = s
  Ordered-remove ((some r, u) ∷ l) g h s = elim (Bool-cases (r == w)) [
    | inl here ↦ rw here s.1
    | inr there ↦
        let next : part w l ≡ o ∷ q = ground (arith, there, h) in
        rw there (λ k on. Follows-remove r k l g.1 next (s.0 k on), Ordered-remove l g.1 next s.1)
  ]

  fence_free-remove :
      (l : Log) → All (Good n) l → part w l ≡ o ∷ q → fence_free (remove w l) ≡ fence_free l
  fence_free-remove [] g h = refl
  fence_free-remove ((none, r) ∷ l) g h = absurd (not_fence r g.0 (cc))
  fence_free-remove ((some r, u) ∷ l) g h = ground (arith, fence_free-remove l g.1)

  pub Recent-remove :
      (m : Key → Option ℕ) (l : Log)
      → All (Good n) l
      → part w l ≡ o ∷ q
      → Recent m l
      → Recent m (remove w l)
  Recent-remove m [] g h s = tt
  Recent-remove m ((none, r) ∷ l) g h s = s
  Recent-remove m ((some r, u) ∷ l) g h s = elim (Bool-cases (r == w)) [
    | inl here ↦ rw here s.1
    | inr there ↦
        let next : part w l ≡ o ∷ q = ground (arith, there, h) in
        rw there
          (λ free. s.0 (sym (fence_free-remove l g.1 next) ∙ free), Recent-remove m l g.1 next s.1)
  ]

  -- The operation is the first of its key.
  pub on_key-remove :
      (k : Key) (l : Log)
      → All (Good n) l
      → part w l ≡ o ∷ q
      → Ordered l
      → is_on k o ≡ true
      → on_key k l ≡ o ∷ on_key k (remove w l)
  on_key-remove k [] g h s on = cc
  on_key-remove k ((none, r) ∷ l) g h s on = absurd (not_fence r g.0 (cc))
  on_key-remove k ((some r, u) ∷ l) g h s on = elim (Bool-cases (r == w)) [
    | inl here ↦ ground (arith, here, h, on)
    | inr there ↦
        let next : part w l ≡ o ∷ q = ground (arith, there, h) in
        elim (Bool-cases (is_on k u)) [
          | inl hit ↦
              let same : w ≡ r = Follows-hit r k l g.1 next on (s.0 k hit) in
              absurd (ground (arith, there, same))
          | inr miss ↦ rw (there, miss) (on_key-remove k l g.1 next s.1 on)
        ]
  ]

  pub on_key-remove_other :
      (k : Key) (l : Log)
      → All (Good n) l
      → part w l ≡ o ∷ q
      → is_on k o ≡ false
      → on_key k (remove w l) ≡ on_key k l
  on_key-remove_other k [] g h off = refl
  on_key-remove_other k ((none, r) ∷ l) g h off = absurd (not_fence r g.0 (cc))
  on_key-remove_other k ((some r, u) ∷ l) g h off =
      ground (arith, on_key-remove_other k l g.1, h, off)
