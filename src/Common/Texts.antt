-- ===== src/Common/Texts.antt =====
-- Byte strings: a `std::string` is the list of its bytes.
use Prim.Native.Char.{code}
use Prim.Native.String.{String}
use fast_dcs.Common.{
  ℕ, ◌≡◌, refl, subst, append-nil, append_assoc, Bool, true, false, ◌&&◌, ◌||◌, ◌++◌, List, [], ◌∷◌,
  arith, ◌==◌,
}

abbrev pub Text : Type 0
Text = List ℕ

-- The bytes of a literal.
abbrev pub codes : String → Text
codes String.[] = []
codes (String.◌∷◌ c s) = code c ∷ codes s

-- `a.compare(b) == 0`.
unfoldable pub eq : Text → Text → Bool
eq [] [] = true
eq [] (y ∷ ys) = false
eq (x ∷ xs) [] = false
eq (x ∷ xs) (y ∷ ys) = x == y && eq xs ys

pub eq→eq : (a b : Text) → eq a b ≡ true → a ≡ b
unfolding eq
eq→eq [] [] h = refl
eq→eq [] (y ∷ ys) h = cc
eq→eq (x ∷ xs) [] h = cc
eq→eq (x ∷ xs) (y ∷ ys) h = ground (arith, eq→eq xs ys)

pub eq_self : (a : Text) → eq a a ≡ true
unfolding eq
eq_self [] = refl
eq_self (x ∷ xs) = ground (arith, eq_self xs)

-- `s.empty()`.
abbrev pub is_empty : Text → Bool
is_empty [] = true
is_empty (x ∷ xs) = false

abbrev pub starts_with : Text → Text → Bool
starts_with s [] = true
starts_with [] (y ∷ ys) = false
starts_with (x ∷ xs) (y ∷ ys) = x == y && starts_with xs ys

-- `s.find(needle) != std::string::npos`.
unfoldable pub contains : Text → Text → Bool
contains [] needle = starts_with [] needle
contains (x ∷ xs) needle = starts_with (x ∷ xs) needle || contains xs needle

starts_with-append : (s t : Text) → starts_with (s ++ t) s ≡ true
starts_with-append [] t = starts_with_nil t
  where
    starts_with_nil : (t : Text) → starts_with t [] ≡ true
    starts_with_nil [] = refl
    starts_with_nil (x ∷ xs) = refl
starts_with-append (x ∷ s) t = ground (arith, starts_with-append s t)

contains_prefix : (s needle : Text) → starts_with s needle ≡ true → contains s needle ≡ true
unfolding contains
contains_prefix [] needle h = h
contains_prefix (x ∷ s) needle h = ground arith

-- A text is found in any text around it.
pub contains-append : (before s after : Text) → contains (before ++ (s ++ after)) s ≡ true
unfolding contains
contains-append [] s after = contains_prefix (s ++ after) s (starts_with-append s after)
contains-append (x ∷ before) s after = ground (arith, contains-append before s after)

pub eq_comm : (a b : Text) → eq a b ≡ eq b a
unfolding eq
eq_comm [] [] = refl
eq_comm [] (y ∷ ys) = refl
eq_comm (x ∷ xs) [] = refl
eq_comm (x ∷ xs) (y ∷ ys) = ground (arith, eq_comm xs ys)

pub contains-last : (before s : Text) → contains (before ++ s) s ≡ true
contains-last before s =
    subst (λ x. contains (before ++ x) s ≡ true) (append-nil s) (contains-append before s [])

-- A text stands behind a separator.
pub contains-item : (before : Text) (c : ℕ) (s : Text) → contains (before ++ (c ∷ s)) s ≡ true
contains-item before c s =
    subst (λ x. contains x s ≡ true) (append_assoc before (c ∷ []) s)
      (contains-last (before ++ c ∷ []) s)
