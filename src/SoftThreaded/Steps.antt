-- ===== src/SoftThreaded/Steps.antt =====
-- Runs of the system: the callers' methods and the rounds of the workers in any order, and what
-- they show of each key.
use mathlib.Core.List.{append_assoc}
use repart_kv.Common.{
  ℕ, ◌≡◌, refl, sym, ap, ◌∙◌, Bool, Option, none, some, List, [], ◌∷◌, ◌++◌, map, arith,
  if◌then◌else◌, get_elem?,
}
use repart_kv.Common.Result.{ok}
use repart_kv.Key.{Key, Value}
use repart_kv.SortedMap.{Entries}
use repart_kv.Storage.{Backend, Status, found_or}
use repart_kv.KeyStorage.{KeyStorage}
use repart_kv.Tracking.{Tracking}
use repart_kv.Worker.{
  Operation, reads, writes, scans, syncs, Queue, Reply, read_reply, scan_reply, worker, Outcome,
}
use repart_kv.SoftThreaded.{
  SoftThreaded, now, later, read_impl, write_impl, scan_impl, scan_enqueue, repartition_impl,
  enable_tracking_impl, after_round,
}
use repart_kv.SoftThreaded.Log.{is_on}

-- A call of a read or a write, and its end, for a read with the status and the value.
pub data Event : Type 0 where
  called : Operation → Event
  ended : Operation → Option (Status × Value) → Event

abbrev pub ends_of : Operation → List Reply → List Event
ends_of (reads i k old) (read_reply j status value ∷ replies) =
    ended (reads i k old) (some (status, value)) ∷ []
ends_of (reads i k old) [] = []
ends_of (reads i k old) (scan_reply j status found ∷ replies) = []
ends_of (writes k v) replies = ended (writes k v) none ∷ []
ends_of (scans i k r c) replies = []
ends_of (syncs i c) replies = []

-- What a round of the worker `w` ends.
abbrev pub ends_by : Option Queue → List Reply → List Event
ends_by none replies = []
ends_by (some []) replies = []
ends_by (some (o ∷ q)) replies = ends_of o replies

module _ {B : Backend} {P : KeyStorage ℕ} {T : Tracking} (hash_func : Key → ℕ) where
  pub data Step (s : SoftThreaded B P T) : List Event → SoftThreaded B P T → Type 0 where
    read_waits :
        (k : Key) (v : Value) (i : ℕ) {t : SoftThreaded B P T}
        → read_impl s k v ≡ ok (t, later i)
        → Step s (called (reads i k v) ∷ []) t
    read_returns :
        (k : Key) (v : Value) (status : Status) {t : SoftThreaded B P T}
        → read_impl s k v ≡ ok (t, now status)
        → Step s
            (called (reads s.next_id k v) ∷ ended (reads s.next_id k v) (some (status, v)) ∷ [])
            t
    write :
        (k : Key) (v : Value) (status : Status) {t : SoftThreaded B P T}
        → s.scanning ≡ []
        → write_impl hash_func s k v ≡ ok (t, status)
        → Step s (called (writes k v) ∷ []) t
    scan :
        (k : Key) (limit : ℕ) (results : Entries Value) → Step s [] (scan_impl s k limit results).0
    scan_on :
        (j : ℕ) (o : Operation) (ps : List ℕ) {t : SoftThreaded B P T}
        → get_elem? s.scanning j ≡ some (o, ps)
        → scan_enqueue s j o ps ≡ ok t
        → Step s [] t
    repartition :
        {t : SoftThreaded B P T} → s.scanning ≡ [] → repartition_impl s ≡ ok t → Step s [] t
    enable : (flag : Bool) → Step s [] (enable_tracking_impl flag s)
    work :
        (w : ℕ) (r : Outcome B)
        → worker w s.storage s.queues ≡ some r
        → Step s (ends_by (get_elem? s.queues w) r.replies) (after_round s r)

  pub data Run : SoftThreaded B P T → List Event → SoftThreaded B P T → Type 0 where
    stop : {s : SoftThreaded B P T} → Run s [] s
    more :
        {s t u : SoftThreaded B P T} {es all : List Event} (ev : List Event)
        → Step s ev t
        → Run t es u
        → all ≡ ev ++ es
        → Run s all u

abbrev pub End : Type 0
End = Operation × Option (Status × Value)

-- The calls on a key, and the ends.
abbrev pub calls_on : Key → List Event → List Operation
calls_on k [] = []
calls_on k (called o ∷ es) = let rest = calls_on k es in if is_on k o then o ∷ rest else rest
calls_on k (ended o r ∷ es) = calls_on k es

abbrev pub ends_on : Key → List Event → List End
ends_on k [] = []
ends_on k (called o ∷ es) = ends_on k es
ends_on k (ended o r ∷ es) = let rest = ends_on k es in if is_on k o then (o, r) ∷ rest else rest

abbrev pub operations_of : List End → List Operation
operations_of = map (λ e. e.0)

-- What operations on one key do in sequence, from the value `v` on, and the value behind them.
abbrev pub replay : Option Value → List Operation → List End
replay v [] = []
replay v (reads i k old ∷ os) = (reads i k old, some (found_or old v)) ∷ replay v os
replay v (writes k w ∷ os) = (writes k w, none) ∷ replay (some w) os
replay v (scans i k r c ∷ os) = (scans i k r c, none) ∷ replay v os
replay v (syncs i c ∷ os) = (syncs i c, none) ∷ replay v os

abbrev pub value_after : Option Value → List Operation → Option Value
value_after v [] = v
value_after v (reads i k old ∷ os) = value_after v os
value_after v (writes k w ∷ os) = value_after (some w) os
value_after v (scans i k r c ∷ os) = value_after v os
value_after v (syncs i c ∷ os) = value_after v os

-- The calls on a key take effect one after the other: those that are over are the first, in the
-- order of the calls, each with the result that it has in sequence; `v` is what they leave.
abbrev pub Sequential : Key → List Event → Option Value → Type 0
Sequential k es v =
    ((waiting : List Operation) × (calls_on k es ≡ operations_of (ends_on k es) ++ waiting))
    × (ends_on k es ≡ replay none (operations_of (ends_on k es)))
    × (v ≡ value_after none (operations_of (ends_on k es)))

-- What the events show of a key, from the value `v` and the waiting operations `m` to `w` and `n`:
-- the operations end in the order of their calls, with the results that they have in sequence.
pub record Lane (v : Option Value) (m : List Operation) (calls : List Operation) (ends : List End)
    (w : Option Value) (n : List Operation) : Type 0 where
  pub in_order : m ++ calls ≡ operations_of ends ++ n
  pub results : ends ≡ replay v (operations_of ends)
  pub value : w ≡ value_after v (operations_of ends)

replay-append :
    (v : Option Value) (os ps : List Operation)
    → replay v (os ++ ps) ≡ replay v os ++ replay (value_after v os) ps
replay-append v [] ps = refl
replay-append v (reads i k old ∷ os) ps = cc (replay-append v os ps)
replay-append v (writes k w ∷ os) ps = cc (replay-append (some w) os ps)
replay-append v (scans i k r c ∷ os) ps = cc (replay-append v os ps)
replay-append v (syncs i c ∷ os) ps = cc (replay-append v os ps)

value_after-append :
    (v : Option Value) (os ps : List Operation)
    → value_after v (os ++ ps) ≡ value_after (value_after v os) ps
value_after-append v [] ps = refl
value_after-append v (reads i k old ∷ os) ps = value_after-append v os ps
value_after-append v (writes k w ∷ os) ps = value_after-append (some w) os ps
value_after-append v (scans i k r c ∷ os) ps = value_after-append v os ps
value_after-append v (syncs i c ∷ os) ps = value_after-append v os ps

operations_of-append :
    (d e : List End) → operations_of (d ++ e) ≡ operations_of d ++ operations_of e
operations_of-append [] e = refl
operations_of-append (x ∷ d) e = ap (◌∷◌ x.0) (operations_of-append d e)

-- One lane behind the other.
pub Lane-join :
    {v w x : Option Value} {m n l c d : List Operation} {es fs : List End}
    → Lane v m c es w n
    → Lane w n d fs x l
    → Lane v m (c ++ d) (es ++ fs) x l
Lane-join {v} {w} {x} {m} {n} {l} {c} {d} {es} {fs} a b = record {
  in_order =
      sym (append_assoc m c d)
      ∙ ap (λ t. t ++ d) a.in_order
      ∙ append_assoc (operations_of es) n d
      ∙ ap (λ t. operations_of es ++ t) b.in_order
      ∙ sym (append_assoc (operations_of es) (operations_of fs) l)
      ∙ ap (λ t. t ++ l) (sym (operations_of-append es fs));
  results = cc (
    operations_of-append es fs,
    replay-append v (operations_of es) (operations_of fs),
    a.results,
    b.results,
    a.value,
  );
  value = cc (
    operations_of-append es fs,
    value_after-append v (operations_of es) (operations_of fs),
    b.value,
    a.value,
  );
}

calls_on-append : (k : Key) (d e : List Event) → calls_on k (d ++ e) ≡ calls_on k d ++ calls_on k e
calls_on-append k [] e = refl
calls_on-append k (called o ∷ d) e = ground (arith, calls_on-append k d e)
calls_on-append k (ended o r ∷ d) e = calls_on-append k d e

ends_on-append : (k : Key) (d e : List Event) → ends_on k (d ++ e) ≡ ends_on k d ++ ends_on k e
ends_on-append k [] e = refl
ends_on-append k (called o ∷ d) e = ends_on-append k d e
ends_on-append k (ended o r ∷ d) e = ground (arith, ends_on-append k d e)

-- What a list of events shows of a key.
abbrev pub Shows :
    Key → Option Value → List Operation → List Event → Option Value → List Operation → Type 0
Shows k v m es = Lane v m (calls_on k es) (ends_on k es)

pub Shows-join :
    (k : Key) {v w x : Option Value} {m n l : List Operation} (es fs : List Event)
    → Shows k v m es w n
    → Shows k w n fs x l
    → Shows k v m (es ++ fs) x l
Shows-join k {v} {w} {x} {m} {n} {l} es fs a b =
    rw (calls_on-append k es fs, ends_on-append k es fs) (Lane-join a b)

-- From nothing.
pub Sequential-start :
    (k : Key) (es : List Event) (v w : Option Value) (n : List Operation)
    → v ≡ none
    → Shows k v [] es w n
    → Sequential k es w
Sequential-start k es v w n start lane = (
  (n, lane.in_order),
  lane.results ∙ ap (λ v. replay v (operations_of (ends_on k es))) start,
  lane.value ∙ ap (λ v. value_after v (operations_of (ends_on k es))) start,
)
