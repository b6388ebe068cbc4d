-- ===== src/Strings/Helpers/Units.antt =====
-- `ParseBytes` of src/utils/string_util.cc: sizes with a unit.
use fast_dcs.Common.{
  ℕ, suc, ◌*◌, ◌^◌, ◌≤◌, ◌<◌, ◌≡◌, refl, subst, some, [], ◌∷◌, ◌++◌, append-nil, arith, length,
}
use fast_dcs.Common.Int.{pos}
use fast_dcs.Common.Texts.{Text}
use fast_dcs.Strings.Codec.{padded, read_digits, read_signed}
use fast_dcs.Strings.Codec.Keys.{
  AllDigits, padded-AllDigits, length-padded, read_digits-append, read_digits-padded,
}
use fast_dcs.Strings.Helpers.{skip_digits, number_end, to_int64, bytes_unit, parse_bytes}

-- What does not begin with a digit.
abbrev pub NoDigit : Text → Type 0
NoDigit [] = Unit {0}
NoDigit (c ∷ cs) = b'9' < c

skip_digits-append :
    (ds rest : Text) → AllDigits ds → NoDigit rest → skip_digits (ds ++ rest) ≡ rest
unfolding skip_digits
skip_digits-append [] [] a n = refl
skip_digits-append [] (c ∷ cs) a n = ground arith
skip_digits-append (d ∷ ds) rest a n = ground (arith, skip_digits-append ds rest a.2 n)

number_end-append :
    (ds rest : Text) → 0 < length ds → AllDigits ds → NoDigit rest → number_end (ds ++ rest) ≡ rest
unfolding number_end
number_end-append [] rest h a n = absurd (omega arith)
number_end-append (d ∷ ds) rest h a n = ground (arith, skip_digits-append (d ∷ ds) rest a n)

read_digits_end : (n : ℕ) (rest : Text) → NoDigit rest → read_digits n rest ≡ n
unfolding read_digits
read_digits_end n [] h = refl
read_digits_end n (c ∷ cs) h = ground arith

read_signed-append :
    (most : ℕ) (ds rest : Text)
    → 0 < length ds
    → AllDigits ds
    → NoDigit rest
    → read_digits 0 ds ≤ most
    → read_signed most (ds ++ rest) ≡ some (pos (read_digits 0 ds))
unfolding read_signed
read_signed-append most [] rest h d n l = absurd (omega arith)
read_signed-append most (c ∷ cs) rest h d n l =
    ground
      (arith, read_digits-append 0 (c ∷ cs) rest d, read_digits_end (read_digits 0 (c ∷ cs)) rest n)

units :
    (long_max default_value w n : ℕ) (rest : Text)
    → 0 < n
    → n < 10 ^ suc w
    → n ≤ long_max
    → NoDigit rest
    → n * bytes_unit rest default_value < 2 ^ 63
    → parse_bytes long_max (padded (suc w) n ++ rest) default_value
      ≡ some (pos (n * bytes_unit rest default_value))
unfolding parse_bytes to_int64
units long_max default_value w n rest p h l d f =
    let width : 0 < length (padded (suc w) n) = omega (arith, length-padded (suc w) n) in
    ground (
      arith,
      number_end-append (padded (suc w) n) rest width (padded-AllDigits (suc w) n) d,
      read_signed-append long_max (padded (suc w) n) rest width (padded-AllDigits (suc w) n) d,
      read_digits-padded (suc w) n h,
    )

-- `ParseBytes` of a positive number below 2 ^ 33 in decimal digits, with leading zeros or not, gives the number
-- times 2 ^ 30 for a G behind it, times 2 ^ 20 for an M, times 2 ^ 10 for a K, and times the default for
-- nothing behind it, where that product is below 2 ^ 63 and the number no more than a `long` holds.
pub parse_bytes_lem :
    (long_max default_value w n : ℕ) (rest : Text)
    → 0 < n
    → n < 10 ^ suc w
    → n ≤ long_max
    → n * default_value < 2 ^ 63
    → n < 2 ^ 33
    → (parse_bytes long_max (padded (suc w) n ++ b'G' ∷ rest) default_value
        ≡ some (pos (n * 2 ^ 30)))
      × (parse_bytes long_max (padded (suc w) n ++ b'M' ∷ rest) default_value
          ≡ some (pos (n * 2 ^ 20)))
      × (parse_bytes long_max (padded (suc w) n ++ b'K' ∷ rest) default_value
          ≡ some (pos (n * 2 ^ 10)))
      × (parse_bytes long_max (padded (suc w) n) default_value ≡ some (pos (n * default_value)))
unfolding bytes_unit
parse_bytes_lem long_max default_value w n rest p h l d m = (
  units long_max default_value w n (b'G' ∷ rest) p h l (omega arith) (omega arith),
  units long_max default_value w n (b'M' ∷ rest) p h l (omega arith) (omega arith),
  units long_max default_value w n (b'K' ∷ rest) p h l (omega arith) (omega arith),
  subst (λ t. parse_bytes long_max t default_value ≡ some (pos (n * default_value)))
      (append-nil (padded (suc w) n)) (units long_max default_value w n [] p h l tt d),
)
