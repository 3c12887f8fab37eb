-- ===== src/Stripped/Engines.antt =====
-- The engines of the lock-stripping store hold keys of their own partitions only.
use repart_kv.Common.{
  ℕ, suc, zero, ◌<◌, ◌≡◌, refl, sym, ap, ◌∙◌, none, some, List, arith, ◌==◌, length, Bool-cases,
  inl, inr, ◌⊎◌, get_elem?, get_elem?-set, set, ==_iff, subst,
}
use repart_kv.Common.Result.{Returns}
use repart_kv.Key.{Key, Value, key_eq}
use repart_kv.Key.Laws.{key_eq_iff}
use repart_kv.SortedMap.{lookup}
use repart_kv.Storage.{Backend, StorageEngine}
use repart_kv.Storage.Laws.{held, held-write}
use repart_kv.Stripped.{Stripped, engines, create, write_impl}
use repart_kv.Stripped.Access.{Inv, home, with_engine, engine, write_lem}
use repart_kv.Stripped.Smallest.{Kept}
use repart_kv.Storage

some_inj {ℓ} : {A : Type ℓ} (a b : A) → some a ≡ some b → a ≡ b
some_inj a b h = cc

length-engines :
    (B : Backend) (n i : ℕ) (paths : List Value) → length (engines {B = B} n i paths) ≡ n
unfolding engines
length-engines B zero i paths = refl
length-engines B (suc n) i paths = ap suc (length-engines B n (suc i) paths)

module _ {B : Backend} where
  engine-new :
      (n i : ℕ) (paths : List Value) (p : ℕ) (e : StorageEngine B)
      → get_elem? (engines n i paths) p ≡ some e
      → B.IsValid e.store × ((k : Key) → held k e ≡ none)
  unfolding engines Storage.create lookup
  engine-new zero i paths p e h = absurd (cc)
  engine-new (suc n) i paths zero e h =
      subst (λ x. B.IsValid x.store × ((k : Key) → held k x ≡ none)) (some_inj _ e h)
        (B.create-IsValid 1 _, λ k. ap (lookup k) (B.contents-create 1 _))
  engine-new (suc n) i paths (suc p) e h = engine-new n (suc i) paths p e h

  -- A new store has an engine for each partition, and every engine is empty.
  pub create-Kept :
      (hash_func : Key → ℕ) (n : ℕ) (paths : List Value)
      → 0 < n
      → Inv {B = B} hash_func (create n paths) × Kept {B = B} hash_func (create n paths)
  unfolding create
  create-Kept hash_func n paths h = (
    record { released = refl; nonempty = h; sized = length-engines B n 0 _ },
    record {
      valid = λ p e he. (engine-new n 0 _ p e he).0;
      homed = λ p e k v he hv. absurd (cc ((engine-new n 0 _ p e he).1 k));
    },
  )

module _ {B : Backend} (hash_func : Key → ℕ) (s : Stripped B) (key : Key) (value : Value)
    (i : Inv hash_func s) (kept : Kept hash_func s) where
  abbrev written : StorageEngine B → StorageEngine B
  written e = (Storage.write e key value).0

  written-IsValid : (e : StorageEngine B) → B.IsValid e.store → B.IsValid (written e).store
  unfolding Storage.write
  written-IsValid e v = B.write_impl-IsValid e.store key value v

  -- The engine of a partition after the write is the written one or an old one.
  engine-after :
      (e : StorageEngine B) (p : ℕ) (d : StorageEngine B)
      → get_elem? (set s.storages (home hash_func s key) (written e)) p ≡ some d
      → (home hash_func s key ≡ p) × (written e ≡ d) ⊎ (get_elem? s.storages p ≡ some d)
  engine-after e p d h =
      let range : home hash_func s key < length s.storages = omega (arith, i.nonempty, i.sized) in
      let set_lem = get_elem?-set s.storages (home hash_func s key) p (written e) range in
      elim (Bool-cases (home hash_func s key == p)) [
        | inl same ↦
            let here : some (written e) ≡ some d = ground (arith, set_lem, h, same) in
            inl ((==_iff (home hash_func s key) p).0 same, some_inj _ d here)
        | inr other ↦ inr (ground (arith, set_lem, h, other))
      ]

  written-homed :
      (e : StorageEngine B) (k : Key) (v : Value)
      → get_elem? s.storages (home hash_func s key) ≡ some e
      → held k (written e) ≡ some v
      → home hash_func s k ≡ home hash_func s key
  written-homed e k v he h = elim (Bool-cases (key_eq key k)) [
    | inl same ↦ ap (home hash_func s) (sym ((key_eq_iff key k).0 same))
    | inr other ↦
        let before : held k (written e) ≡ held k e = held-write e key k value ∙ rw other refl in
        kept.homed (home hash_func s key) e k v he (sym before ∙ h)
  ]

  with_engine-Kept :
      (e : StorageEngine B)
      → get_elem? s.storages (home hash_func s key) ≡ some e
      → Kept hash_func (with_engine hash_func s key value i (written e))
  with_engine-Kept e he = record {
    valid = λ p d hd. elim (engine-after e p d hd) [
      | inl (_, same) ↦ subst (λ x. B.IsValid x.store) same (written-IsValid e (kept.valid _ e he))
      | inr old ↦ kept.valid p d old
    ];
    homed = λ p d k v hd hv. elim (engine-after e p d hd) [
      | inl (at, same) ↦ written-homed e k v he (ap (held k) same ∙ hv) ∙ at
      | inr old ↦ kept.homed p d k v old hv
    ];
  }

  -- With an engine for each partition, if each engine is well-formed and holds keys of its own
  -- partition only, this is so after a write too.
  pub write_impl-Kept : Returns (write_impl hash_func s key value) λ r. Kept hash_func r.0
  write_impl-Kept =
      let (e, he) = engine hash_func s key value i in
      rw (write_lem hash_func s key value i e he) (with_engine-Kept e he)
