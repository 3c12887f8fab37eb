-- ===== src/SoftThreaded/Log/Append.antt =====
-- A log with an operation behind it, and one that starts with a sync.
use repart_kv.Common.{
  ℕ, ◌<◌, ◌≡◌, refl, sym, ap, ◌∙◌, true, false, Option, none, some, [], ◌∷◌, arith, All, ==_refl,
  ◌++◌,
}
use repart_kv.Key.{Key}
use repart_kv.Worker.{Operation, Queue}
use repart_kv.SoftThreaded.Log.{
  Log, part, on_key, is_on, is_data, Good, Follows, Ordered, Recent, fence_free, some-inj,
}

-- If no worker has a read or a write first, and every one has something, the log starts with a
-- sync.
pub fence_first :
    (n : ℕ) (l : Log)
    → 0 < n
    → All (Good n) l
    → ((w : ℕ) → w < n → (o : Operation) × (q : Queue) × (is_data o ≡ false) × (part w l ≡ o ∷ q))
    → (o : Operation) × (r : Log) × (l ≡ (none, o) ∷ r)
fence_first n [] pos g h = let (o, q, d, e) = h 0 pos in cc
fence_first n ((none, o) ∷ l) pos g h = (o, l, refl)
fence_first n ((some p, o) ∷ l) pos g h =
    let (u, q, d, e) = h p g.0.1 in
    let same : o ≡ u = ground (arith, ==_refl p, e) in cc (g.0.0, same, d)

pub part-append : (w : ℕ) (l r : Log) → part w (l ++ r) ≡ part w l ++ part w r
part-append w [] r = refl
part-append w ((none, o) ∷ l) r = ap (◌∷◌ o) (part-append w l r)
part-append w ((some p, o) ∷ l) r = ground (arith, part-append w l r)

pub on_key-append : (k : Key) (l r : Log) → on_key k (l ++ r) ≡ on_key k l ++ on_key k r
on_key-append k [] r = refl
on_key-append k ((p, o) ∷ l) r = ground (arith, on_key-append k l r)

module _ (p : ℕ) (o : Operation) where
  -- What goes to the worker that the map names keeps the order.
  Follows-append :
      (r : ℕ) (k : Key) (l : Log)
      → (fence_free l ≡ true → is_on k o ≡ true → p ≡ r)
      → Follows r k l
      → Follows r k (l ++ (some p, o) ∷ [])
  Follows-append r k [] h f = (h refl, tt)
  Follows-append r k ((none, u) ∷ l) h f = tt
  Follows-append r k ((some t, u) ∷ l) h f = (f.0, Follows-append r k l h f.1)

  fence_free-append : (l : Log) → fence_free (l ++ (some p, o) ∷ []) ≡ fence_free l
  fence_free-append [] = refl
  fence_free-append ((none, u) ∷ l) = refl
  fence_free-append ((some t, u) ∷ l) = fence_free-append l

  -- The keys of the operation have the partition `p` in the map `m`, which extends the map `old`.
  pub record Routed (old m : Key → Option ℕ) : Type 0 where
    pub here : (k : Key) → is_on k o ≡ true → m k ≡ some p
    pub kept : (k : Key) (r : ℕ) → old k ≡ some r → m k ≡ some r

  pub Ordered-append :
      (old m : Key → Option ℕ) (l : Log)
      → Routed old m
      → Recent old l
      → Ordered l
      → Ordered (l ++ (some p, o) ∷ [])
  Ordered-append old m [] a c s = (λ k on. tt, tt)
  Ordered-append old m ((none, u) ∷ l) a c s = Ordered-append old m l a c s
  Ordered-append old m ((some t, u) ∷ l) a c s = (
    λ k on.
        Follows-append t k l
          (λ free hit. some-inj (sym (a.here k hit) ∙ a.kept k t (c.0 free k on))) (s.0 k on),
    Ordered-append old m l a c.1 s.1,
  )

  pub Recent-append :
      (old m : Key → Option ℕ) (l : Log)
      → Routed old m
      → Recent old l
      → Recent m (l ++ (some p, o) ∷ [])
  Recent-append old m [] a c = (λ free k on. a.here k on, tt)
  Recent-append old m ((none, u) ∷ l) a c = Recent-append old m l a c
  Recent-append old m ((some t, u) ∷ l) a c = (
    λ free k on. a.kept k t (c.0 (sym (fence_free-append l) ∙ free) k on),
    Recent-append old m l a c.1,
  )

module _ (o : Operation) where
  Follows-fence : (r : ℕ) (k : Key) (l : Log) → Follows r k l → Follows r k (l ++ (none, o) ∷ [])
  Follows-fence r k [] f = tt
  Follows-fence r k ((none, u) ∷ l) f = tt
  Follows-fence r k ((some t, u) ∷ l) f = (f.0, Follows-fence r k l f.1)

  fence_free-fence : (l : Log) → fence_free (l ++ (none, o) ∷ []) ≡ false
  fence_free-fence [] = refl
  fence_free-fence ((none, u) ∷ l) = refl
  fence_free-fence ((some t, u) ∷ l) = fence_free-fence l

  pub Ordered-fence : (l : Log) → Ordered l → Ordered (l ++ (none, o) ∷ [])
  Ordered-fence [] s = tt
  Ordered-fence ((none, u) ∷ l) s = Ordered-fence l s
  Ordered-fence ((some t, u) ∷ l) s = (λ k on. Follows-fence t k l (s.0 k on), Ordered-fence l s.1)

  -- Behind a new sync any map will do.
  pub Recent-fence : (m : Key → Option ℕ) (l : Log) → Recent m (l ++ (none, o) ∷ [])
  Recent-fence m [] = tt
  Recent-fence m ((none, u) ∷ l) = Recent-fence m l
  Recent-fence m ((some t, u) ∷ l) =
      (λ free. absurd (cc (fence_free-fence l, free)), Recent-fence m l)
