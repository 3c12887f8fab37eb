-- ===== src/KeyStorage/Map/Laws.antt =====
-- The key storage over `std::map` keeps the contract of an ordered key storage.
use mathlib.Core.List.{append_assoc, append-nil}
use repart_kv.Common.{
  ℕ, zero, suc, ◌-◌, ◌≡◌, refl, sym, ap, ◌∙◌, true, false, none, some, [], ◌∷◌, ◌++◌, length, take,
  take_nil, ltb, ◌==◌, arith, Bool-cases, inl, inr, length-append,
}
use repart_kv.Key.{Key}
use repart_kv.SortedMap.{Entries, lookup, insert, lower_bound, IsSorted}
use repart_kv.SortedMap.Laws.{insert-IsSorted}
use repart_kv.KeyStorage.{KeyStorage}
use repart_kv.KeyStorage.Map.{
  Iterator, get_impl, put_impl, get_or_insert_impl, collect, scan_impl, lower_bound_impl,
  get_key_impl, get_value_impl, increment_impl, is_end_impl,
}

module _ {V : Type 0} where
  -- The loop appends to the results until there are `limit` of them.
  collect_lem :
      (it : Entries V) (limit : ℕ) (results : Entries V)
      → collect it limit results ≡ results ++ take (limit - length results) it
  unfolding collect
  collect_lem [] limit results = sym (rw (take_nil (limit - length results)) (append-nil results))
  collect_lem (e ∷ it) limit results = elim (Bool-cases (ltb (length results) limit)) [
    | inl more ↦
        let left : limit - length results ≡ suc (limit - suc (length results)) = ground arith in
        let grown : length (results ++ e ∷ []) ≡ suc (length results) =
          omega (arith, length-append results (e ∷ [])) in
        rw (more, collect_lem it limit (results ++ e ∷ []), grown, left)
          (append_assoc results (e ∷ []) _)
    | inr full ↦
        let none_left : limit - length results ≡ 0 = ground arith in
        rw (full, none_left) (sym (append-nil results))
  ]

  pub scan_impl_lem :
      (s : Entries V) (k : Key) (limit : ℕ) → scan_impl s k limit ≡ take limit (lower_bound k s)
  unfolding scan_impl
  scan_impl_lem s k zero = refl
  scan_impl_lem s k (suc n) =
      let asked : (suc n == 0) ≡ false = ground arith in
      let whole : suc n - 0 ≡ suc n = omega arith in
      rw asked (collect_lem (lower_bound k s) (suc n) [] ∙ ap (λ i. take i (lower_bound k s)) whole)

module _ {V : Type 0} (s : Entries V) (k : Key) where
  pub get_impl_lem : get_impl s k ≡ lookup k s
  unfolding get_impl
  get_impl_lem = ground arith

  pub put_impl_lem : (v : V) → put_impl s k v ≡ insert k v s
  unfolding put_impl
  put_impl_lem v = refl

  pub put-IsSorted : (v : V) → IsSorted s → IsSorted (put_impl s k v)
  unfolding put_impl
  put-IsSorted v h = insert-IsSorted k v s h

  pub get_or_insert_old : (v w : V) → lookup k s ≡ some w → get_or_insert_impl s k v ≡ (s, true, w)
  unfolding get_or_insert_impl
  get_or_insert_old v w h = ground arith

  pub get_or_insert_new :
      (v : V) → lookup k s ≡ none → get_or_insert_impl s k v ≡ (put_impl s k v, false, v)
  unfolding get_or_insert_impl put_impl
  get_or_insert_new v h = ground arith

  pub rest-lower_bound_impl : (lower_bound_impl s k).current ≡ lower_bound k s
  unfolding lower_bound_impl
  rest-lower_bound_impl = refl

module _ {V : Type 0} (it : Iterator V) where
  pub is_end_impl_lem : is_end_impl it ≡ elim it.current [ [] ↦ true | e ∷ m ↦ false ]
  unfolding is_end_impl
  is_end_impl_lem = refl

  pub at_entry :
      (default : V) (e : Key × V) (m : Entries V)
      → it.current ≡ e ∷ m
      → (get_key_impl it ≡ e.0)
        × (get_value_impl default it ≡ e.1)
        × ((increment_impl it).current ≡ m)
  unfolding get_key_impl get_value_impl increment_impl
  at_entry default e m h = ground arith

-- The class `MapKeyStorage` as the interface, with `default` for `ValueType()`.
abbrev pub map_key_storage : {V : Type 0} → V → KeyStorage V
map_key_storage {V} default = record {
  Store = Entries V;
  Iterator = Iterator V;
  create = λ path. [];
  get = get_impl;
  put = put_impl;
  get_or_insert = get_or_insert_impl;
  scan = scan_impl;
  lower_bound_of = lower_bound_impl;
  is_end = is_end_impl;
  get_key = get_key_impl;
  get_value = get_value_impl default;
  next = increment_impl;
  entries = λ s. s;
  rest = λ it. it.current;
  IsValid = IsSorted;
  create-IsValid = λ path. tt;
  put-IsValid = put-IsSorted;
  entries-IsSorted = λ s v. v;
  entries-create = λ path. refl;
  get_lem = get_impl_lem;
  entries-put = put_impl_lem;
  get_or_insert_old = get_or_insert_old;
  get_or_insert_new = get_or_insert_new;
  scan_lem = scan_impl_lem;
  rest-lower_bound_of = rest-lower_bound_impl;
  is_end_lem = is_end_impl_lem;
  at_entry = λ it. at_entry it default;
}
