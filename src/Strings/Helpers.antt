-- ===== src/Strings/Helpers.antt =====
-- src/utils/string_util.cc: replacement in a text, and sizes with a unit.
pub mod Replace
pub mod Units
mod Tests
use fast_dcs.Common.{
  ℕ, zero, suc, ◌+◌, ◌-◌, ◌*◌, ◌%◌, ◌^◌, Bool, true, false, ◌||◌, Option, none, some, [], ◌∷◌, ◌++◌,
  ltb, ◌==◌, if◌then◌else◌, length, take, drop,
}
use fast_dcs.Common.Int.{ℤ, pos, negsuc}
use fast_dcs.Common.Texts.{Text, starts_with}
use fast_dcs.Strings.Codec.{is_digit, is_space, read_signed}

-- `std::string::find`: the first position of a text.
unfoldable pub find_first : Text → Text → Option ℕ
find_first needle [] = elim (starts_with [] needle) [ true ↦ some 0 | false ↦ none ]
find_first needle (c ∷ cs) = elim (starts_with (c ∷ cs) needle) [
  | true ↦ some 0
  | false ↦ elim (find_first needle cs) [ some p ↦ some (suc p) | none ↦ none ]
]

-- The loop of `StringReplace`: `out` is `before`, of `curPos` bytes, with `rest`.
unfoldable pub replace_loop : ℕ → Text → Text → Text → Text → Option Text
unfolding find_first
replace_loop zero needle replace_with before rest = none
replace_loop (suc fuel) needle replace_with before rest = elim (find_first needle rest) [
  | none ↦ some (before ++ rest)
  | some p ↦
      replace_loop fuel needle replace_with (before ++ (take p rest ++ replace_with))
        (drop (p + length needle) rest)
]

-- `StringReplace`; `none` is a loop with no end. No round but the last leaves the text as long.
unfoldable pub string_replace : Text → Text → Text → Option Text
unfolding replace_loop
string_replace input needle replace_with =
    replace_loop (suc (length input)) needle replace_with [] input

skip_digits : Text → Text
skip_digits [] = []
skip_digits (c ∷ cs) = if is_digit c then skip_digits cs else c ∷ cs

-- Where `strtol` ends, if it has read a number.
unfoldable pub number_end : Text → Text
unfolding skip_digits
number_end [] = []
number_end (c ∷ cs) = elim (is_space c) [
  | true ↦ number_end cs
  | false ↦ if c == b'-' || c == b'+' then skip_digits cs else skip_digits (c ∷ cs)
]

-- An `int64` product, as gcc computes it.
unfoldable pub to_int64 : ℕ → ℤ
to_int64 n = let w = n % 2 ^ 64 in if ltb w (2 ^ 63) then pos w else negsuc (2 ^ 64 - w - 1)

-- What the number is multiplied by, for what stands behind it.
unfoldable pub bytes_unit : Text → ℕ → ℕ
bytes_unit [] default_value = default_value
bytes_unit (c ∷ cs) default_value =
    if c == b'G' || c == b'g'
    then 1024 * 1024 * 1024
    else if c == b'M' || c == b'm'
    then 1024 * 1024
    else if c == b'K' || c == b'k'
    then 1024
    else 1

-- `ParseBytes`, for a `long` up to `long_max` and a default that is not negative; `none` is the failed CHECK of
-- a number that is not positive.
unfoldable pub parse_bytes : ℕ → Text → ℕ → Option ℤ
unfolding read_signed number_end to_int64 bytes_unit
parse_bytes long_max str_bytes default_value = elim (read_signed long_max str_bytes) [
  | none ↦ none
  | some (negsuc n) ↦ none
  | some (pos n) ↦
      if n == 0 then none else some (to_int64 (n * bytes_unit (number_end str_bytes) default_value))
]
