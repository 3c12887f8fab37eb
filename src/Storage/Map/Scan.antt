-- ===== src/Storage/Map/Scan.antt =====
-- The scan of the engine over `std::map`: the loop that fills a resized vector gives the first
-- entries of the range, whatever the vector held before.
use mathlib.Core.List.{append_assoc, append-nil}
use repart_kv.Common.{
  ℕ, zero, suc, ◌+◌, ◌-◌, ◌≤◌, ◌<◌, ◌≡◌, refl, sym, ap, ◌∙◌, false, inl, inr, List, [], ◌∷◌, ◌++◌,
  length, take, set, min, ltb, ltb→lt, if◌then◌else◌, arith, ◌==◌, Bool-cases, length-set, take-set,
  take_all, take_nil,
}
use repart_kv.Key.{Key, Value}
use repart_kv.SortedMap.{Entries, lower_bound}
use repart_kv.Storage.{success, not_found, scan_status}
use repart_kv.Storage.Map.{resize, fill, finish, scan_impl}

pub length-resize {ℓ} : {A : Type ℓ} (d : A) (n : ℕ) (xs : List A) → length (resize d n xs) ≡ n
unfolding resize
length-resize d zero xs = refl
length-resize d (suc n) [] = ap suc (length-resize d n [])
length-resize d (suc n) (x ∷ xs) = ap suc (length-resize d n xs)

resize-eq-take {ℓ} :
    {A : Type ℓ} (d : A) (n : ℕ) (xs : List A) → n ≤ length xs → resize d n xs ≡ take n xs
unfolding resize
resize-eq-take d zero xs h = refl
resize-eq-take d (suc n) [] h = elim h [ ]
resize-eq-take d (suc n) (x ∷ xs) h = ap (◌∷◌ x) (resize-eq-take d n xs (omega arith))

length-fill :
    (it : Entries Value) (limit i : ℕ) (results : Entries Value)
    → length (fill it limit i results).0 ≡ length results
unfolding fill
length-fill [] limit i results = refl
length-fill (e ∷ it) limit i results = elim (Bool-cases (ltb i limit)) [
  | inl more ↦ rw more (length-fill it limit (i + 1) (set results i e) ∙ length-set results i e)
  | inr done ↦ rw done
]

-- The counter stops at the end of the range or at the limit.
count-fill :
    (it : Entries Value) (limit i : ℕ) (results : Entries Value)
    → i ≤ limit
    → (fill it limit i results).1 ≡ min limit (i + length it)
unfolding fill
count-fill [] limit i results h = omega arith
count-fill (e ∷ it) limit i results h = elim (Bool-cases (ltb i limit)) [
  | inl more ↦
      rw more (omega (arith, ltb→lt i limit more, count-fill it limit (i + 1) (set results i e)))
  | inr done ↦ rw done (ground arith)
]

fill_step :
    (e : Key × Value) (it results : Entries Value) (limit i : ℕ)
    → i < limit
    → i < length results
    → take (i + 1) (set results i e) ++ take (limit - (i + 1)) it
      ≡ take i results ++ take (limit - i) (e ∷ it)
fill_step e it results limit i lt room =
    let next : i + 1 ≡ suc i = omega arith in
    let left : limit - i ≡ suc (limit - suc i) = omega arith in
    rw (next, left, take-set results i e room) (append_assoc (take i results) (e ∷ []) _)

-- What is written lies behind what was there, in order.
take-fill :
    (it : Entries Value) (limit i : ℕ) (results : Entries Value)
    → i ≤ limit
    → length results ≡ limit
    → take (fill it limit i results).1 (fill it limit i results).0
      ≡ take i results ++ take (limit - i) it
unfolding fill
take-fill [] limit i results h l = sym (rw (take_nil (limit - i)) (append-nil (take i results)))
take-fill (e ∷ it) limit i results h l = elim (Bool-cases (ltb i limit)) [
  | inl more ↦
      let lt : i < limit = ltb→lt i limit more in
      let room : i < length results = rw l lt in
      rw more (
        take-fill it limit (i + 1) (set results i e) (omega arith) (length-set results i e ∙ l)
        ∙ fill_step e it results limit i lt room)
  | inr done ↦
      let full : limit - i ≡ 0 = ground arith in rw (done, full) (sym (append-nil (take i results)))
]

status_of_count :
    (m : Entries Value) (limit i : ℕ)
    → i ≡ min limit (length m)
    → i < limit
    → (if i == 0 then not_found else success) ≡ scan_status limit m
status_of_count [] limit i h lt = ground arith
status_of_count (e ∷ m) limit i h lt = ground arith

status_when_full :
    (m : Entries Value) (limit i : ℕ)
    → i ≡ min limit (length m)
    → ltb i limit ≡ false
    → success ≡ scan_status limit m
status_when_full [] limit i h lt = ground arith
status_when_full (e ∷ m) limit i h lt = refl

finish_lem :
    (m results : Entries Value) (limit i : ℕ)
    → i ≡ min limit (length m)
    → length results ≡ limit
    → take i results ≡ take limit m
    → finish limit i results ≡ (scan_status limit m, take limit m)
unfolding finish
finish_lem m results limit i hi hl ht = elim (Bool-cases (ltb i limit)) [
  | inl short ↦
      let lt : i < limit = ltb→lt i limit short in
      rw (
        short,
        status_of_count m limit i hi lt,
        resize-eq-take ([], []) i results (omega arith),
        ht,
      )
  | inr full ↦
      let all : take i results ≡ results = take_all i results (ground arith) in
      rw (full, status_when_full m limit i hi full, ← ht, all)
]

-- Whatever the vector holds before, a scan of the map engine leaves in it the first `limit` entries
-- whose keys are not less than the start. It reports `not_found` exactly when the limit is positive
-- and there is no such entry, and `success` otherwise.
pub scan_impl_lem :
    (storage : Entries Value) (k : Key) (limit : ℕ) (old : Entries Value)
    → scan_impl storage k limit old
      ≡ (scan_status limit (lower_bound k storage), take limit (lower_bound k storage))
unfolding scan_impl
scan_impl_lem storage k limit old =
    let m = lower_bound k storage in
    let start = resize ([], []) limit old in
    finish_lem m _ limit _ (count-fill m limit 0 start (omega arith) ∙ omega arith)
      (length-fill m limit 0 start ∙ length-resize ([], []) limit old)
      (take-fill m limit 0 start (omega arith) (length-resize ([], []) limit old)
        ∙ ap (λ n. take n m) (omega arith))
