-- ===== src/Table/Keys.antt =====
-- Keys that are found equal, `key_equal` of source/runtime/objects/table_object.cpp.
use kenaf.Base.{◌≡◌, refl, ap, true, [], ◌∷◌, arith, eq_of_==}
use kenaf.Lexer.Token.{Bytes}
use kenaf.Lexer.Keywords.{text_eq}
use kenaf.Table.{Key, key_equal}
use kenaf.Table.Key.{bits, string}

text_eq-equal : (a b : Bytes) → text_eq a b ≡ true → a ≡ b
unfolding text_eq
text_eq-equal [] [] e = refl
text_eq-equal [] (y ∷ ys) e = cc
text_eq-equal (x ∷ xs) [] e = cc
text_eq-equal (x ∷ xs) (y ∷ ys) e =
    let heads : x ≡ y = eq_of_== x y (ground arith) in
    let tails : xs ≡ ys = text_eq-equal xs ys (ground arith) in rw (heads, tails) refl

pub key_equal-equal : (a b : Key) → key_equal a b ≡ true → a ≡ b
unfolding key_equal
key_equal-equal (bits a) (bits b) e = ap bits (eq_of_== a b e)
key_equal-equal (string a) (string b) e = ap string (text_eq-equal a b e)
key_equal-equal (bits _) (string _) e = cc
key_equal-equal (string _) (bits _) e = cc

text_eq_refl : (a : Bytes) → text_eq a a ≡ true
unfolding text_eq
text_eq_refl [] = refl
text_eq_refl (x ∷ xs) = ground (arith, text_eq_refl xs)

pub key_equal_refl : (a : Key) → key_equal a a ≡ true
unfolding key_equal
key_equal_refl (bits a) = ground arith
key_equal_refl (string a) = text_eq_refl a
