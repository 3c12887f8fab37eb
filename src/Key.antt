-- ===== src/Key.antt =====
-- Keys and values are `std::string`s: lists of bytes, with the equality and the lexicographic
-- order of `std::string`'s operators `==` and `<`.
pub mod Laws
use repart_kv.Common.{ℕ, Bool, true, false, List, [], ◌∷◌, ltb, ◌==◌, ◌&&◌, if◌then◌else◌}

abbrev pub Key : Type 0
Key = List ℕ

abbrev pub Value : Type 0
Value = List ℕ

unfoldable pub key_eq : Key → Key → Bool
key_eq [] [] = true
key_eq [] (b ∷ k) = false
key_eq (a ∷ j) [] = false
key_eq (a ∷ j) (b ∷ k) = a == b && key_eq j k

unfoldable pub key_lt : Key → Key → Bool
key_lt [] [] = false
key_lt [] (b ∷ k) = true
key_lt (a ∷ j) [] = false
key_lt (a ∷ j) (b ∷ k) = if ltb a b then true else if ltb b a then false else key_lt j k
