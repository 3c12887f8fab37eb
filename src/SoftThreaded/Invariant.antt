-- ===== src/SoftThreaded/Invariant.antt =====
-- The invariant of the system: the queues are the parts of one log, in which the operations on a
-- key go to one worker between two syncs.
use mathlib.Core.List.{append-nil}
use repart_kv.Common.{
  ℕ, ◌<◌, ◌≡◌, refl, sym, ap, ◌∙◌, Bool, true, false, none, some, List, [], ◌∷◌, arith, All, length,
  get_elem?, if◌then◌else◌, subst,
}
use repart_kv.Key.{Key}
use repart_kv.Storage.{Backend}
use repart_kv.Storage.Laws.{held}
use repart_kv.KeyStorage.{KeyStorage}
use repart_kv.KeyStorage.Insert.{InRange}
use repart_kv.Tracking.{Tracking}
use repart_kv.Worker.{Operation, reads, writes, scans, syncs, Queue}
use repart_kv.SoftThreaded.{SoftThreaded}
use repart_kv.SoftThreaded.Steps.{Event, Shows}
use repart_kv.SoftThreaded.Log.{Log, part, on_key, Good, Ordered, Recent}

abbrev pub is_scan : Operation → Bool
is_scan (scans i k r c) = true
is_scan (reads i k v) = false
is_scan (writes k v) = false
is_scan (syncs i c) = false

-- A queue without its scans.
abbrev pub core : Queue → Queue
core [] = []
core (o ∷ q) = let rest = core q in if is_scan o then rest else o ∷ rest

-- Each queue is what the log has for its worker.
abbrev pub Parts : List Queue → Log → Type 0
Parts queues log = (w : ℕ) (q : Queue) → get_elem? queues w ≡ some q → core q ≡ part w log

module _ {B : Backend} {P : KeyStorage ℕ} {T : Tracking} where
  -- A key that is not in the map has no value, and nothing waits on it.
  abbrev pub Absent : SoftThreaded B P T → Log → Type 0
  Absent s log =
      (k : Key) → P.get s.key_map k ≡ none → (held k s.storage ≡ none) × (on_key k log ≡ [])

  pub record Inv (s : SoftThreaded B P T) (log : Log) : Type 0 where
    pub nonempty : 0 < s.partition_count
    pub sized : length s.queues ≡ s.partition_count
    pub valid : P.IsValid s.key_map
    pub mapped : InRange P s.partition_count s.key_map
    pub parts : Parts s.queues log
    pub good : All (Good s.partition_count) log
    pub ordered : Ordered log
    pub recent : Recent (P.get s.key_map) log
    pub absent : Absent s log
    pub only_scans : All (λ e. is_scan e.0 ≡ true) s.scanning

  -- What a step shows of every key.
  abbrev pub Moves : SoftThreaded B P T → Log → List Event → SoftThreaded B P T → Log → Type 0
  Moves s log es t log' =
      Inv t log'
      × ((k : Key)
          → Shows k (held k s.storage) (on_key k log) es (held k t.storage) (on_key k log'))

  -- A step that leaves the contents of the engine, the map and the log alone.
  pub record Idle (s t : SoftThreaded B P T) (log : Log) : Type 0 where
    pub values : (k : Key) → held k t.storage ≡ held k s.storage
    pub key_map : t.key_map ≡ s.key_map
    pub count : t.partition_count ≡ s.partition_count
    pub sized : length t.queues ≡ length s.queues
    pub parts : Parts t.queues log
    pub only_scans : All (λ e. is_scan e.0 ≡ true) t.scanning

  pub Idle-Inv : (s t : SoftThreaded B P T) (log : Log) → Inv s log → Idle s t log → Inv t log
  Idle-Inv s t log i d = record {
    nonempty = omega (arith, d.count, i.nonempty);
    sized = omega (arith, d.count, d.sized, i.sized);
    valid = subst P.IsValid (sym d.key_map) i.valid;
    mapped =
        λ k p h. omega (arith, d.count, i.mapped k p (ap (λ m. P.get m k) (sym d.key_map) ∙ h));
    parts = d.parts;
    good = subst (λ n. All (Good n) log) (sym d.count) i.good;
    ordered = i.ordered;
    recent = subst (λ m. Recent (P.get m) log) (sym d.key_map) i.recent;
    absent = λ k h.
        let (v, on) = i.absent k (ap (λ m. P.get m k) (sym d.key_map) ∙ h) in (d.values k ∙ v, on);
    only_scans = d.only_scans;
  }

  pub Idle-Moves :
      (s t : SoftThreaded B P T) (log : Log) → Inv s log → Idle s t log → Moves s log [] t log
  Idle-Moves s t log i d = (
    Idle-Inv s t log i d,
    λ k. record { in_order = append-nil (on_key k log); results = refl; value = d.values k },
  )
