-- ===== src/SoftThreaded/Scans.antt =====
-- The steps that leave the contents, the map and the log alone: those of a scan before its round,
-- and the switch of the tracking.
use repart_kv.Common.{
  ℕ, zero, suc, ◌≡◌, refl, Bool, true, some, List, [], ◌∷◌, ◌++◌, All, length, get_elem?, set,
  if◌then◌else◌, subst, Bool-cases, inl, inr, All-append, All-get_elem?, length-set, ltb,
  Option-cases,
}
use repart_kv.Common.Result.{ok}
use repart_kv.Key.{Key, Value}
use repart_kv.SortedMap.{Entries}
use repart_kv.Storage.{Backend}
use repart_kv.KeyStorage.{KeyStorage}
use repart_kv.Tracking.{Tracking}
use repart_kv.Worker.{Operation, Queue, enqueue}
use repart_kv.Soft.{collect}
use repart_kv.SoftThreaded.{
  SoftThreaded, scan_with, scan_impl, scan_enqueue, enable_tracking_impl, remove_at, is_empty,
  track_all,
}
use repart_kv.SoftThreaded.Log.{Log}
use repart_kv.SoftThreaded.Invariant.{Inv, Idle, is_scan, Parts}
use repart_kv.SoftThreaded.Queues.{Parts-scan}

AllScans : List (Operation × List ℕ) → Type 0
AllScans = All (λ e. is_scan e.0 ≡ true)

AllScans-remove_at :
    (es : List (Operation × List ℕ)) (j : ℕ) → AllScans es → AllScans (remove_at es j)
unfolding remove_at AllScans
AllScans-remove_at [] j h = tt
AllScans-remove_at (e ∷ es) zero h = h.1
AllScans-remove_at (e ∷ es) (suc j) h = (h.0, AllScans-remove_at es j h.1)

AllScans-set :
    (es : List (Operation × List ℕ)) (j : ℕ) (o : Operation) (ps : List ℕ)
    → is_scan o ≡ true
    → AllScans es
    → AllScans (set es j (o, ps))
unfolding AllScans
AllScans-set [] j o ps d h = tt
AllScans-set (e ∷ es) zero o ps d h = (d, h.1)
AllScans-set (e ∷ es) (suc j) o ps d h = (h.0, AllScans-set es j o ps d h.1)

module _ {B : Backend} {P : KeyStorage ℕ} {T : Tracking} (s : SoftThreaded B P T) (log : Log)
    (i : Inv s log) where
  Idle-self : Idle s s log
  Idle-self = record {
    values = λ k. refl;
    key_map = refl;
    count = refl;
    sized = refl;
    parts = i.parts;
    only_scans = i.only_scans;
  }

  scan_with-Idle :
      (k : Key) (limit : ℕ) (results : Entries Value) (found : Entries ℕ)
      → Idle s (scan_with s k limit results found).0 log
  unfolding scan_with track_all
  scan_with-Idle k limit results [] = elim (Bool-cases (ltb 0 limit)) [
    | inl some_asked ↦ rw some_asked Idle-self
    | inr none_asked ↦ rw none_asked (record {
      values = λ k. refl;
      key_map = refl;
      count = refl;
      sized = refl;
      parts = i.parts;
      only_scans = i.only_scans;
    })
  ]
  scan_with-Idle k limit results (e ∷ m) = record {
    values = λ k. refl;
    key_map = refl;
    count = refl;
    sized = refl;
    parts = i.parts;
    only_scans = All-append _ s.scanning _ i.only_scans (refl, tt);
  }

  pub scan_impl-Idle :
      (k : Key) (limit : ℕ) (results : Entries Value) → Idle s (scan_impl s k limit results).0 log
  unfolding scan_impl
  scan_impl-Idle k limit results =
      scan_with-Idle k limit results (collect P limit (P.lower_bound_of s.key_map k))

  pub enable_tracking_impl-Idle : (flag : Bool) → Idle s (enable_tracking_impl flag s) log
  unfolding enable_tracking_impl
  enable_tracking_impl-Idle flag = record {
    values = λ k. refl;
    key_map = refl;
    count = refl;
    sized = refl;
    parts = i.parts;
    only_scans = i.only_scans;
  }

  -- The waiting scans and the queues change.
  requeued-Idle :
      (queues : List Queue) (scanning : List (Operation × List ℕ))
      → length queues ≡ length s.queues
      → Parts queues log
      → AllScans scanning
      → Idle s (record s { queues = queues; scanning = scanning }) log
  unfolding AllScans
  requeued-Idle queues scanning n h a = record {
    values = λ k. refl;
    key_map = refl;
    count = refl;
    sized = n;
    parts = h;
    only_scans = a;
  }

  still_scans :
      (j : ℕ) (o : Operation) (ps : List ℕ)
      → is_scan o ≡ true
      → AllScans (if is_empty ps then remove_at s.scanning j else set s.scanning j (o, ps))
  unfolding AllScans
  still_scans j o [] d = AllScans-remove_at s.scanning j i.only_scans
  still_scans j o (p ∷ ps) d = AllScans-set s.scanning j o (p ∷ ps) d i.only_scans

  pub scan_enqueue-Idle :
      (j : ℕ) (o : Operation) (ps : List ℕ) (t : SoftThreaded B P T)
      → get_elem? s.scanning j ≡ some (o, ps)
      → scan_enqueue s j o ps ≡ ok t
      → Idle s t log
  unfolding scan_enqueue enqueue AllScans
  scan_enqueue-Idle j o [] t e h =
      let same : record s { scanning = remove_at s.scanning j } ≡ t = cc in
      subst (λ t. Idle s t log) same
        (requeued-Idle s.queues (remove_at s.scanning j) refl i.parts
          (AllScans-remove_at s.scanning j i.only_scans))
  scan_enqueue-Idle j o (p ∷ ps) t e h = elim (Option-cases (get_elem? s.queues p)) [
    | inl missing ↦ absurd (cc (rw (scan_enqueue, enqueue, missing) at h))
    | inr (q, there) ↦
        let d : is_scan o ≡ true = All-get_elem? _ s.scanning j (o, p ∷ ps) i.only_scans e in
        let queues = set s.queues p (q ++ o ∷ []) in
        let same : record s {
          queues = queues;
          scanning = if is_empty ps then remove_at s.scanning j else set s.scanning j (o, ps);
        }
            ≡ t =
          cc (rw (scan_enqueue, enqueue, there) at h) in
        subst (λ t. Idle s t log) same
          (requeued-Idle queues _ (length-set s.queues p (q ++ o ∷ []))
            (Parts-scan s.queues log p q o i.parts there d) (still_scans j o ps d))
  ]
