-- ===== src/Key/Laws.antt =====
-- The equality of keys decides `≡`, and their order is a strict total order.
use repart_kv.Common.{◌≡◌, refl, true, false, [], ◌∷◌, ◌↔◌, subst, arith}
use repart_kv.Key.{Key, key_eq, key_lt}

pub eq_of_key_eq : (j k : Key) → key_eq j k ≡ true → j ≡ k
unfolding key_eq
eq_of_key_eq [] [] h = refl
eq_of_key_eq [] (b ∷ k) h = cc
eq_of_key_eq (a ∷ j) [] h = cc
eq_of_key_eq (a ∷ j) (b ∷ k) h = ground (arith, eq_of_key_eq j k)

pub key_eq_refl : (k : Key) → key_eq k k ≡ true
unfolding key_eq
key_eq_refl [] = refl
key_eq_refl (a ∷ k) = ground (arith, key_eq_refl k)

pub key_eq_iff : (j k : Key) → (key_eq j k ≡ true) ↔ (j ≡ k)
key_eq_iff j k = (eq_of_key_eq j k, λ e. subst (λ x. key_eq j x ≡ true) e (key_eq_refl j))

pub key_eq_sym : (j k : Key) → key_eq j k ≡ key_eq k j
key_eq_sym j k = ground (arith, key_eq_iff j k, key_eq_iff k j)

pub key_lt_irrefl : (k : Key) → key_lt k k ≡ false
unfolding key_lt
key_lt_irrefl [] = refl
key_lt_irrefl (a ∷ k) = ground (arith, key_lt_irrefl k)

pub key_lt_trans : (i j k : Key) → key_lt i j ≡ true → key_lt j k ≡ true → key_lt i k ≡ true
unfolding key_lt
key_lt_trans [] [] k p q = cc
key_lt_trans [] (b ∷ j) [] p q = cc
key_lt_trans [] (b ∷ j) (c ∷ k) p q = refl
key_lt_trans (a ∷ i) [] k p q = cc
key_lt_trans (a ∷ i) (b ∷ j) [] p q = cc
key_lt_trans (a ∷ i) (b ∷ j) (c ∷ k) p q = ground (arith, key_lt_trans i j k)

pub key_lt_total : (j k : Key) → key_lt j k ≡ false → key_lt k j ≡ false → j ≡ k
unfolding key_lt
key_lt_total [] [] p q = refl
key_lt_total [] (b ∷ k) p q = cc
key_lt_total (a ∷ j) [] p q = cc
key_lt_total (a ∷ j) (b ∷ k) p q = ground (arith, key_lt_total j k)

pub key_lt_asym : (j k : Key) → key_lt j k ≡ true → key_lt k j ≡ false
key_lt_asym j k p = ground (arith, key_lt_trans j k j p, key_lt_irrefl j)
