-- ===== src/SoftThreaded/Queues.antt =====
-- What the operations on the queues do to the log: an operation that is put behind, one that is
-- taken from a head, and the barriers.
use mathlib.Core.List.{append-nil}
use repart_kv.Common.{
  ℕ, zero, suc, ◌<◌, ◌≤◌, ◌≡◌, refl, sym, ap, ◌∙◌, true, false, none, some, List, [], ◌∷◌, ◌++◌,
  arith, All, length, get_elem?, set, if◌then◌else◌, Bool-cases, inl, inr, ==_refl, ◌==◌,
  get_elem?-set, ==_iff, length-set, lt-get_elem?, get_elem?-set_ne, get_elem?-lt, get_elem?-map,
  length-map,
}
use repart_kv.Worker.{
  Operation, reads, writes, scans, syncs, Queue, enqueue_all, waits_at, arrived, pass, tail,
  same_operation,
}
use repart_kv.SoftThreaded.Log.{Log, part, Good, is_data, remove}
use repart_kv.SoftThreaded.Invariant.{is_scan, core, Parts}
use repart_kv.Key.{Key, Value}
use repart_kv.SortedMap.{Entries}
use repart_kv.SoftThreaded.Log.Append.{part-append, fence_first}
use repart_kv.SoftThreaded.Log.Remove.{part-remove, part-remove_other}

core-append : (q r : Queue) → core (q ++ r) ≡ core q ++ core r
core-append [] r = refl
core-append (o ∷ q) r = ground (arith, core-append q r)

pub is_data-is_scan : (o : Operation) → is_data o ≡ true → is_scan o ≡ false
is_data-is_scan (reads i k v) h = refl
is_data-is_scan (writes k v) h = refl
is_data-is_scan (scans i k r c) h = cc
is_data-is_scan (syncs i c) h = refl

-- The queue of one worker changes.
Parts-set :
    (qs : List Queue) (l m : Log) (p : ℕ) (q : Queue)
    → Parts qs l
    → core q ≡ part p m
    → ((w : ℕ) → (p == w) ≡ false → part w m ≡ part w l)
    → Parts (set qs p q) m
Parts-set qs l m p q h here there w r e =
    let le : p < length qs
        → get_elem? (set qs p q) w ≡ (if p == w then some q else get_elem? qs w) =
      get_elem?-set qs p w q in
    elim (Bool-cases (p == w)) [
      | inl same ↦
          let at : p ≡ w = (==_iff p w).0 same in
          let lt : w < length qs =
            omega (arith, lt-get_elem? (set qs p q) w r e, length-set qs p q) in
          ground (arith, le (omega (arith, at, lt)), here, at, same, e)
      | inr other ↦
          h w r
            (sym (get_elem?-set_ne qs q (λ at. absurd (ground (arith, other, ==_iff p w, at)))) ∙ e)
          ∙ sym (there w other)
    ]

-- An operation goes behind the queue of the worker `p`.
pub Parts-enqueue :
    (qs : List Queue) (l : Log) (p : ℕ) (q : Queue) (o : Operation)
    → Parts qs l
    → get_elem? qs p ≡ some q
    → is_scan o ≡ false
    → Parts (set qs p (q ++ o ∷ [])) (l ++ (some p, o) ∷ [])
Parts-enqueue qs l p q o h e d =
    let one : core q ++ core (o ∷ []) ≡ part p l ++ o ∷ [] =
      rw d (ap (λ t. t ++ o ∷ []) (h p q e)) in
    let two : part p l ++ part p ((some p, o) ∷ []) ≡ part p l ++ o ∷ [] = rw (==_refl p) refl in
    Parts-set qs l (l ++ (some p, o) ∷ []) p (q ++ o ∷ []) h
      (core-append q (o ∷ []) ∙ one ∙ sym (part-append p l ((some p, o) ∷ []) ∙ two))
      λ w other. part-append w l ((some p, o) ∷ []) ∙ rw other (append-nil (part w l))

-- A scan does not count.
pub Parts-scan :
    (qs : List Queue) (l : Log) (p : ℕ) (q : Queue) (o : Operation)
    → Parts qs l
    → get_elem? qs p ≡ some q
    → is_scan o ≡ true
    → Parts (set qs p (q ++ o ∷ [])) l
Parts-scan qs l p q o h e d =
    Parts-set qs l l p (q ++ o ∷ []) h
      (core-append q (o ∷ []) ∙ rw d (append-nil (core q)) ∙ h p q e) λ w other. refl

-- A sync goes to all.
pub Parts-enqueue_all :
    (qs : List Queue) (l : Log) (i c : ℕ)
    → Parts qs l
    → Parts (enqueue_all (syncs i c) qs) (l ++ (none, syncs i c) ∷ [])
unfolding enqueue_all
Parts-enqueue_all qs l i c h w q e =
    let (r, er, eq) = get_elem?-map (λ q. q ++ syncs i c ∷ []) qs w q e in
    ap core eq
    ∙ core-append r (syncs i c ∷ [])
    ∙ ap (λ t. t ++ syncs i c ∷ []) (h w r er)
    ∙ sym (part-append w l ((none, syncs i c) ∷ []))

-- The worker `w` takes a read or a write.
pub Parts-remove :
    (n : ℕ) (qs : List Queue) (l : Log) (w : ℕ) (o : Operation) (q : Queue)
    → All (Good n) l
    → Parts qs l
    → get_elem? qs w ≡ some (o ∷ q)
    → is_data o ≡ true
    → (part w l ≡ o ∷ core q) × Parts (set qs w q) (remove w l)
Parts-remove n qs l w o q g h e d =
    let head : part w l ≡ o ∷ core q = sym (h w (o ∷ q) e) ∙ rw (is_data-is_scan o d) refl in
    (
      head,
      Parts-set qs l (remove w l) w q h (sym (part-remove n w o (core q) d l g head))
          λ v other. part-remove_other n w o (core q) d v l g other head,
    )

-- A worker that passes the barrier of a scan drops the scan only.
pass_scan :
    (i c : ℕ) (k : Key) (r : Entries Value) (q : Queue)
    → core (if waits_at (scans i k r c) q then tail q else q) ≡ core q
unfolding waits_at same_operation
pass_scan i c k r [] = refl
pass_scan i c k r (scans j k' r' c' ∷ q) = ground arith
pass_scan i c k r (reads j k' v' ∷ q) = refl
pass_scan i c k r (writes k' v' ∷ q) = refl
pass_scan i c k r (syncs j c' ∷ q) = refl

pub Parts-pass :
    (qs : List Queue) (l : Log) (i c : ℕ) (k : Key) (r : Entries Value)
    → Parts qs l
    → Parts (pass (scans i k r c) qs) l
unfolding pass
Parts-pass qs l i c k r h w q e =
    let (t, er, eq) =
      get_elem?-map (λ q. if waits_at (scans i k r c) q then tail q else q) qs w q e in
    ap core eq ∙ pass_scan i c k r t ∙ h w t er

pub length-pass : (o : Operation) (qs : List Queue) → length (pass o qs) ≡ length qs
unfolding pass
length-pass o qs = length-map (λ q. if waits_at o q then tail q else q) qs

pub length-enqueue_all : (o : Operation) (qs : List Queue) → length (enqueue_all o qs) ≡ length qs
unfolding enqueue_all
length-enqueue_all o qs = length-map (λ q. q ++ o ∷ []) qs

pub arrived-le : (o : Operation) (qs : List Queue) → arrived o qs ≤ length qs
unfolding arrived
arrived-le o [] = omega arith
arrived-le o (q ∷ qs) = ground (arith, arrived-le o qs)

-- When as many have arrived as there are workers, every worker waits.
all_arrived :
    (o : Operation) (qs : List Queue)
    → arrived o qs ≡ length qs
    → (w : ℕ) (q : Queue) → get_elem? qs w ≡ some q
    → waits_at o q ≡ true
unfolding arrived
all_arrived o [] h w q e = absurd (cc)
all_arrived o (r ∷ qs) h zero q e = elim (Bool-cases (waits_at o r)) [
  | inl here ↦ cc
  | inr there ↦ absurd (ground (arith, there, h, arrived-le o qs))
]
all_arrived o (r ∷ qs) h (suc w) q e = elim (Bool-cases (waits_at o r)) [
  | inl here ↦ all_arrived o qs (ground (arith, here, h)) w q e
  | inr there ↦ absurd (ground (arith, there, h, arrived-le o qs))
]

-- At the barrier of a sync, a queue has a sync first.
waits_sync :
    (i c : ℕ) (q : Queue)
    → waits_at (syncs i c) q ≡ true
    → (d : ℕ) × (core q ≡ syncs i d ∷ core (tail q))
unfolding waits_at same_operation
waits_sync i c [] h = cc
waits_sync i c (scans j k' r' c' ∷ q) h = cc
waits_sync i c (reads j k' v' ∷ q) h = cc
waits_sync i c (writes k' v' ∷ q) h = cc
waits_sync i c (syncs j c' ∷ q) h = (c', ground (arith, ==_iff i j))

-- When all workers pass the barrier of a sync, a sync is the first of the log, and they drop it.
pub Parts-sync :
    (n : ℕ) (qs : List Queue) (l : Log) (i : ℕ)
    → 0 < n
    → length qs ≡ n
    → All (Good n) l
    → Parts qs l
    → arrived (syncs i n) qs ≡ n
    → (o : Operation) × (r : Log) × (l ≡ (none, o) ∷ r) × Parts (pass (syncs i n) qs) r
unfolding pass
Parts-sync n qs l i pos len g h all =
    let waits : (w : ℕ) (q : Queue) → get_elem? qs w ≡ some q → waits_at (syncs i n) q ≡ true =
      all_arrived (syncs i n) qs (all ∙ sym len) in
    let (o, r, e) = fence_first n l pos g λ w lt.
      let (q, eq) = get_elem?-lt qs w (omega (arith, len, lt)) in
      let (d, head) = waits_sync i n q (waits w q eq) in
      (syncs i d, core (tail q), refl, sym (h w q eq) ∙ head) in
    (
      o,
      r,
      e,
      λ w q eq.
          let (t, et, same) =
            get_elem?-map (λ q. if waits_at (syncs i n) q then tail q else q) qs w q eq in
          let (d, head) = waits_sync i n t (waits w t et) in
          let at : core t ≡ o ∷ part w r = h w t et ∙ ap (part w) e in
          ap core same ∙ rw (waits w t et) (cc (head, at)),
    )

-- The syncs are those of all the workers.
pub sync_count :
    (n w i c : ℕ) (q : Queue) (l : Log) → All (Good n) l → part w l ≡ syncs i c ∷ q → c ≡ n
sync_count n w i c q [] g e = cc
sync_count n w i c q ((none, o) ∷ l) g e = cc (g.0.1, e)
sync_count n w i c q ((some p, o) ∷ l) g e = elim (Bool-cases (p == w)) [
  | inl here ↦ let at : o ≡ syncs i c = ground (arith, here, e) in cc (at, g.0.0)
  | inr there ↦ sync_count n w i c q l g.1 (ground (arith, there, e))
]
