-- ===== src/Common/Result.antt =====
-- Outcomes of the code that may fail: what C++ throws, and what it leaves undefined.

-- `not_owned` is a release of a mutex that the thread does not hold in that mode, `self_deadlock`
-- an acquisition of one that it holds; both are undefined behaviour. `bad_index` is an access
-- behind the end of a vector, `out_of_range` and `runtime_error` are the exceptions.
pub data Error : Type 0 where
  not_owned self_deadlock bad_index out_of_range runtime_error : Error

pub data Result {ℓ} (A : Type ℓ) : Type ℓ where
  ok : A → Result A
  err : Error → Result A

infixl 5 ◌>>=◌
abbrev pub ◌>>=◌ {ℓ κ} : {A : Type ℓ} {B : Type κ} → Result A → (A → Result B) → Result B
err thrown >>= rest = err thrown
ok value >>= rest = rest value

-- `r` returns, and what it returns satisfies `Q`.
abbrev pub Returns {ℓ} : {A : Type ℓ} → Result A → (A → Type 0) → Type 0
Returns (ok a) Q = Q a
Returns (err e) Q = ⊥

pub Returns-bind {ℓ κ} :
    {A : Type ℓ} {B : Type κ} (m : Result A) (f : A → Result B) (Q : A → Type 0) (R : B → Type 0)
    → Returns m Q
    → ((a : A) → Q a → Returns (f a) R)
    → Returns (m >>= f) R
Returns-bind (ok a) f Q R h k = k a h
Returns-bind (err e) f Q R h k = h

pub Returns-weaken {ℓ} :
    {A : Type ℓ} (m : Result A) (Q R : A → Type 0)
    → Returns m Q
    → ((a : A) → Q a → R a)
    → Returns m R
Returns-weaken (ok a) Q R h k = k a h
Returns-weaken (err e) Q R h k = h
