-- ===== src/HardThreaded/Homes.antt =====
-- Keys at their homes: what the lookups and insertions leave, and the queues.
use repart_kv.Common.{
  ℕ, ◌<◌, ◌≡◌, refl, sym, ap, ◌∙◌, Bool, true, false, some, List, [], ◌∷◌, ◌++◌, arith, length, set,
  if◌then◌else◌, Option-cases, inl, inr, get_elem?-set, ◌==◌, ==_iff, get_elem?, none,
}
use repart_kv.Key.{Key, key_eq}
use repart_kv.Key.Laws.{key_eq_iff, key_eq_refl}
use repart_kv.KeyStorage.{KeyStorage, get-put}
use repart_kv.HardWorker.{HardOperation, hard_reads, hard_writes, hard_scans, HardQueue}
use repart_kv.HardThreaded.Steps.{waiting_on}
use repart_kv.HardThreaded.Invariant.{AtHome, queue_at, Homed, engine_at}

-- `n` is `m` with the key `k` at its home.
pub record Settled (M : KeyStorage ℕ) (home : Key → ℕ) (m : M.Store) (k : Key) (n : M.Store)
    : Type 0 where
  pub homed : Homed M home n
  pub here : M.get n k ≡ some (home k)
  pub kept : (j : Key) (p : ℕ) → M.get m j ≡ some p → M.get n j ≡ some p
  pub others : (j : Key) → key_eq k j ≡ false → M.get n j ≡ M.get m j

-- What is not there now was not there before.
pub Settled-none :
    (M : KeyStorage ℕ) (home : Key → ℕ) (m : M.Store) (k : Key) (n : M.Store)
    → Settled M home m k n
    → (j : Key) → M.get n j ≡ none
    → M.get m j ≡ none
Settled-none M home m k n d j h = elim (Option-cases (M.get m j)) [
  | inl miss ↦ miss
  | inr (p, hit) ↦ let kept = d.kept j p hit in absurd (cc)
]

module _ (M : KeyStorage ℕ) (home : Key → ℕ) (m : M.Store) (h : Homed M home m) where
  pub put-Settled : (k : Key) → Settled M home m k (M.put m k (home k))
  put-Settled k = record {
    homed = λ j p e. ground (arith, get-put M m k j (home k), e, h j p, key_eq_iff k j);
    here = get-put M m k k (home k) ∙ rw (key_eq_refl k) refl;
    kept = λ j p e. ground (arith, get-put M m k j (home k), e, h j p e, key_eq_iff k j);
    others = λ j ne. get-put M m k j (home k) ∙ rw ne refl;
  }

  pub get_or_insert-Settled :
      (k : Key)
      → (n : M.Store) × (found : Bool) × (M.get_or_insert m k (home k) ≡ (n, found, home k))
        × Settled M home m k n
        × (found ≡ true → (p : ℕ) × (M.get m k ≡ some p))
  get_or_insert-Settled k = elim (Option-cases (M.get m k)) [
    | inr (p, hit) ↦
        let at : home k ≡ p = h k p hit in
        (
          m,
          true,
          M.get_or_insert_old m k (home k) (home k) (sym (M.get_lem m k) ∙ hit ∙ ap some (sym at)),
          record {
            homed = h;
            here = hit ∙ ap some (sym at);
            kept = λ j p e. e;
            others = λ j ne. refl;
          },
          λ f. (p, hit),
        )
    | inl miss ↦ (
      M.put m k (home k),
      false,
      M.get_or_insert_new m k (home k) (sym (M.get_lem m k) ∙ miss),
      put-Settled k,
      λ f. absurd (cc),
    )
  ]

pub waiting_on-append :
    (k : Key) (q r : HardQueue) → waiting_on k (q ++ r) ≡ waiting_on k q ++ waiting_on k r
waiting_on-append k [] r = refl
waiting_on-append k (hard_reads i j v e ∷ q) r = ground (arith, waiting_on-append k q r)
waiting_on-append k (hard_writes j v e ∷ q) r = ground (arith, waiting_on-append k q r)
waiting_on-append k (hard_scans i ∷ q) r = waiting_on-append k q r

pub queue_at-set :
    (qs : List HardQueue) (w v : ℕ) (q : HardQueue)
    → w < length qs
    → queue_at (set qs w q) v ≡ (if w == v then q else queue_at qs v)
queue_at-set qs w v q lt = ground (arith, get_elem?-set qs w v q lt)

-- An operation that is at home elsewhere is not on the key.
pub waiting_on-elsewhere :
    (worker_of engine_of : Key → ℕ) (k : Key) (w : ℕ) (o : HardOperation)
    → AtHome worker_of engine_of w o
    → (w == worker_of k) ≡ false
    → waiting_on k (o ∷ []) ≡ []
waiting_on-elsewhere worker_of engine_of k w (hard_reads i j v e) h ne =
    ground (arith, key_eq_iff j k, h.0, ne, ==_iff w (worker_of k))
waiting_on-elsewhere worker_of engine_of k w (hard_writes j v e) h ne =
    ground (arith, key_eq_iff j k, h.0, ne, ==_iff w (worker_of k))
waiting_on-elsewhere worker_of engine_of k w (hard_scans i) h ne = refl

pub queue_at-some :
    (qs : List HardQueue) (w : ℕ) (q : HardQueue) → get_elem? qs w ≡ some q → queue_at qs w ≡ q
queue_at-some qs w q e = rw (queue_at, e) refl

pub engine_at-some : (es : List ℕ) (p e : ℕ) → get_elem? es p ≡ some e → engine_at es p ≡ e
engine_at-some es p e h = rw (engine_at, h) refl
