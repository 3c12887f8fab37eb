-- ===== src/SoftThreaded/Log.antt =====
-- The reads, writes and syncs that wait, in the order in which they were submitted: a log of which
-- the queues are the parts.
pub mod Remove
pub mod Append
use repart_kv.Common.{
  ℕ, ◌<◌, ◌≡◌, ◌≢◌, refl, sym, ap, ◌∙◌, Bool, true, false, Option, none, some, List, [], ◌∷◌, arith,
  All, ◌==◌, ==_iff, Bool-cases, inl, inr, if◌then◌else◌, ==_refl, ◌++◌,
}
use repart_kv.Key.{Key, key_eq}
use repart_kv.Worker.{Operation, reads, writes, scans, syncs, Queue}

-- Whether an operation reads or writes a key.
abbrev pub is_on : Key → Operation → Bool
is_on k (reads i j v) = key_eq j k
is_on k (writes j v) = key_eq j k
is_on k _ = false

-- An entry goes to the worker of one partition, or, for a sync, to all.
abbrev pub Log : Type 0
Log = List (Option ℕ × Operation)

-- What the log has for the worker `w`.
abbrev pub part : ℕ → Log → Queue
part w [] = []
part w ((none, o) ∷ l) = o ∷ part w l
part w ((some p, o) ∷ l) = let rest = part w l in if p == w then o ∷ rest else rest

-- What it has on the key `k`.
abbrev pub on_key : Key → Log → Queue
on_key k [] = []
on_key k ((p, o) ∷ l) = let rest = on_key k l in if is_on k o then o ∷ rest else rest

abbrev pub is_data : Operation → Bool
is_data (reads i j v) = true
is_data (writes j v) = true
is_data _ = false

-- Reads and writes go to a worker, syncs of `n` workers to all.
abbrev pub Good : ℕ → Option ℕ × Operation → Type 0
Good n (none, o) = (i : ℕ) × (o ≡ syncs i n)
Good n (some p, o) = (is_data o ≡ true) × (p < n)

-- No sync is there.
abbrev pub fence_free : Log → Bool
fence_free [] = true
fence_free ((none, o) ∷ l) = false
fence_free ((some p, o) ∷ l) = fence_free l

-- Up to the next sync, all that is on the key goes to the worker `p`.
abbrev pub Follows : ℕ → Key → Log → Type 0
Follows p k [] = Unit
Follows p k ((none, o) ∷ l) = Unit
Follows p k ((some q, o) ∷ l) = (is_on k o ≡ true → q ≡ p) × Follows p k l

-- Between two syncs, the operations on a key go to one worker.
abbrev pub Ordered : Log → Type 0
Ordered [] = Unit
Ordered ((none, o) ∷ l) = Ordered l
Ordered ((some p, o) ∷ l) = ((k : Key) → is_on k o ≡ true → Follows p k l) × Ordered l

-- Behind the last sync, it is the worker that the map `m` names.
abbrev pub Recent : (Key → Option ℕ) → Log → Type 0
Recent m [] = Unit
Recent m ((none, o) ∷ l) = Recent m l
Recent m ((some p, o) ∷ l) =
    (fence_free l ≡ true → (k : Key) → is_on k o ≡ true → m k ≡ some p) × Recent m l

-- The log without the first entry for the worker `w`.
abbrev pub remove : ℕ → Log → Log
remove w [] = []
remove w ((none, o) ∷ l) = l
remove w ((some p, o) ∷ l) = let rest = remove w l in if p == w then l else (some p, o) ∷ rest

pub is_on-data : (k : Key) (o : Operation) → is_on k o ≡ true → is_data o ≡ true
is_on-data k (reads i j v) h = refl
is_on-data k (writes j v) h = refl
is_on-data k (scans i j r c) h = cc
is_on-data k (syncs i c) h = cc

pub some-inj : {a b : ℕ} → some a ≡ some b → a ≡ b
some-inj e = cc
