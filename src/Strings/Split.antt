-- ===== src/Strings/Split.antt =====
-- src/utils/split_string.h and split_string.cc. `SplitStringToIteratorUsing` has one loop for a single
-- delimiter and one for several; what it passes to the iterator is a list here.
pub mod Loops
pub mod Parts
mod Tests
use fast_dcs.Common.{
  ℕ, zero, suc, ◌+◌, ◌-◌, Bool, true, false, not, ◌||◌, Option, none, some, List, [], ◌∷◌, ◌++◌,
  ◌==◌, if◌then◌else◌, length, drop,
}
use fast_dcs.Common.Texts.{Text}
use fast_dcs.Common.Memory.{slice}

-- The outer and the inner `while` over the pointer. A token ends before the delimiter, which the outer
-- loop then passes over.
unfoldable mutual
  pub skip : ℕ → Text → List Text
  skip c [] = []
  skip c (x ∷ xs) = elim (x == c) [ true ↦ skip c xs | false ↦ token c (x ∷ []) xs ]

  pub token : ℕ → Text → Text → List Text
  token c start [] = start ∷ []
  token c start (x ∷ xs) = elim (x == c) [
    | true ↦ start ∷ skip c xs
    | false ↦ token c (start ++ x ∷ []) xs
  ]

unfoldable pub split_char : Text → ℕ → List Text
split_char full c = skip c full

-- `CalculateReserveForVector` at a single delimiter.
unfoldable mutual
  pub count_skip : ℕ → Text → ℕ
  count_skip c [] = 0
  count_skip c (x ∷ xs) = elim (x == c) [ true ↦ count_skip c xs | false ↦ count_token c xs ]

  pub count_token : ℕ → Text → ℕ
  count_token c [] = 1
  count_token c (x ∷ xs) = elim (x == c) [ true ↦ suc (count_skip c xs) | false ↦ count_token c xs ]

-- `strchr(delim, x)`.
unfoldable pub is_delim : Text → ℕ → Bool
is_delim [] x = false
is_delim (d ∷ ds) x = x == d || is_delim ds x

-- The first position from `i` on whose byte passes the test; `i` is where `xs` begins.
unfoldable pub index_of : (ℕ → Bool) → Text → ℕ → Option ℕ
index_of p [] i = none
index_of p (x ∷ xs) i = if p x then some i else index_of p xs (suc i)

-- `full.find_first_of(delim, from)` and `full.find_first_not_of(delim, from)`; `none` is `npos`.
unfoldable pub find_first_of : Text → Text → ℕ → Option ℕ
unfolding index_of is_delim
find_first_of full delim from = index_of (is_delim delim) (drop from full) from

unfoldable pub find_first_not_of : Text → Text → ℕ → Option ℕ
unfolding index_of is_delim
find_first_not_of full delim from = index_of (λ x. not (is_delim delim x)) (drop from full) from

-- The `while` over `begin_index`, on fuel: each round ends behind a token.
unfoldable pub split_loop : ℕ → Text → Text → Option ℕ → List Text
split_loop fuel full delim none = []
split_loop zero full delim (some begin) = []
split_loop (suc fuel) full delim (some begin) = elim (find_first_of full delim begin) [
  | none ↦ drop begin full ∷ []
  | some end ↦
      slice full begin (end - begin) ∷ split_loop fuel full delim (find_first_not_of full delim end)
]

unfoldable pub split_any : Text → Text → List Text
unfolding split_loop find_first_of find_first_not_of
split_any full delim = split_loop (length full) full delim (find_first_not_of full delim 0)

-- `SplitStringUsing`, which appends to a vector.
unfoldable pub split_string_using : Text → Text → List Text
unfolding split_char split_any
split_string_using full [] = split_any full []
split_string_using full (c ∷ []) = split_char full c
split_string_using full (c ∷ d ∷ delim) = split_any full (c ∷ d ∷ delim)
