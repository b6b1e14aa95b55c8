-- ===== src/Lexer/Keywords/Search.antt =====
-- The search of the keyword table in `lex_identifier` of source/compiler/lexer.cpp.
use kenaf.Base.{◌≡◌, refl, true, false, List, [], ◌∷◌, if◌then◌else◌, arith}
use kenaf.Lexer.Token.{Bytes, Kind}
use kenaf.Lexer.Keywords.{text_eq, text_lt, Keyword, keywords, find_keyword}

text_lt-eq : (a b : Bytes) → text_eq a b ≡ true → text_lt a b ≡ false
unfolding text_eq text_lt
text_lt-eq [] [] h = refl
text_lt-eq [] (y ∷ ys) h = cc
text_lt-eq (x ∷ xs) [] h = cc
text_lt-eq (x ∷ xs) (y ∷ ys) h = ground (arith, text_lt-eq xs ys)

text_eq_symm : (a b : Bytes) → text_eq a b ≡ text_eq b a
unfolding text_eq
text_eq_symm [] [] = refl
text_eq_symm [] (y ∷ ys) = refl
text_eq_symm (x ∷ xs) [] = refl
text_eq_symm (x ∷ xs) (y ∷ ys) = ground (arith, text_eq_symm xs ys)

text_lt_trichotomy : (a b : Bytes) → text_lt a b ≡ false → text_eq a b ≡ false → text_lt b a ≡ true
unfolding text_eq text_lt
text_lt_trichotomy [] [] h e = cc
text_lt_trichotomy [] (y ∷ ys) h e = cc
text_lt_trichotomy (x ∷ xs) [] h e = refl
text_lt_trichotomy (x ∷ xs) (y ∷ ys) h e = ground (arith, text_lt_trichotomy xs ys)

text_lt_trans : (a b c : Bytes) → text_lt a b ≡ true → text_lt b c ≡ true → text_lt a c ≡ true
unfolding text_lt
text_lt_trans [] [] c h k = cc
text_lt_trans [] (y ∷ ys) [] h k = cc
text_lt_trans [] (y ∷ ys) (z ∷ zs) h k = refl
text_lt_trans (x ∷ xs) [] c h k = cc
text_lt_trans (x ∷ xs) (y ∷ ys) [] h k = cc
text_lt_trans (x ∷ xs) (y ∷ ys) (z ∷ zs) h k = ground (arith, text_lt_trans xs ys zs)

-- Each entry comes before the next.
abbrev IsSorted : List Keyword → Type 0
IsSorted [] = Unit {0}
IsSorted (k ∷ []) = Unit {0}
IsSorted (k ∷ l ∷ ks) = (text_lt k.text l.text ≡ true) × IsSorted (l ∷ ks)

-- The table searched from one end to the other.
abbrev pub lookup_kind : List Keyword → Bytes → Kind
lookup_kind [] t = Kind.identifier
lookup_kind (k ∷ ks) t = if text_eq k.text t then k.kind else lookup_kind ks t

lookup_kind-past :
    (k : Keyword) (ks : List Keyword) (t : Bytes)
    → IsSorted (k ∷ ks)
    → text_lt t k.text ≡ true
    → lookup_kind ks t ≡ Kind.identifier
lookup_kind-past k [] t s h = refl
lookup_kind-past k (l ∷ ks) t s h =
    let past = text_lt_trans t k.text l.text h s.0 in
    ground (arith, lookup_kind-past l ks t s.1 past, text_lt-eq t l.text, text_eq_symm t l.text)

find_keyword-lookup :
    (ks : List Keyword) (t : Bytes) → IsSorted ks → find_keyword ks t ≡ lookup_kind ks t
unfolding find_keyword
find_keyword-lookup [] t s = refl
find_keyword-lookup (k ∷ ks) t s = ground (
  arith,
  find_keyword-lookup ks t (rest k ks s),
  lookup_kind-past k ks t s,
  text_lt-eq k.text t,
  text_lt_trichotomy k.text t,
)
  where
    rest : (k : Keyword) (ks : List Keyword) → IsSorted (k ∷ ks) → IsSorted ks
    rest k [] s = tt
    rest k (l ∷ ks) s = s.1

keywords-IsSorted : IsSorted keywords
unfolding text_lt
keywords-IsSorted = (
  refl,
  (
    refl,
    (
      refl,
      (
        refl,
        (
          refl,
          (
            refl,
            (
              refl,
              (
                refl,
                (
                  refl,
                  (
                    refl,
                    (
                      refl,
                      (
                        refl,
                        (
                          refl,
                          (
                            refl,
                            (
                              refl,
                              (refl, (refl, (refl, (refl, (refl, (refl, (refl, (refl, tt)))))))),
                            ),
                          ),
                        ),
                      ),
                    ),
                  ),
                ),
              ),
            ),
          ),
        ),
      ),
    ),
  ),
)

-- The binary search of the keyword table finds, for every text, the kind that a search of the
-- whole table finds: no keyword is out of order.
pub find_keyword-keywords : (t : Bytes) → find_keyword keywords t ≡ lookup_kind keywords t
find_keyword-keywords t = find_keyword-lookup keywords t keywords-IsSorted
