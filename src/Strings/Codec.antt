-- ===== src/Strings/Codec.antt =====
-- src/utils/string_codec.cc: numbers as ten decimal digits, and as the bytes that they have in memory
-- (x86, lowest byte first). `none` is a failed CHECK, which ends the process.
pub mod Keys
pub mod Bytes
mod Tests
use fast_dcs.Common.{
  ℕ, zero, suc, ◌+◌, ◌-◌, ◌*◌, ◌/◌, ◌%◌, ◌^◌, Bool, true, false, ◌&&◌, ◌||◌, Option, none, some,
  List, [], ◌∷◌, ◌++◌, leb, ltb, ◌==◌, if◌then◌else◌, length,
}
use fast_dcs.Common.Int.{ℤ, pos, negsuc}
use fast_dcs.Common.Texts.{Text}

-- `setfill('0') << setw(w) << n` for an `n` of at most `w` digits. An `int32` has at most ten.
unfoldable pub padded : ℕ → ℕ → Text
padded zero n = []
padded (suc w) n = padded w (n / 10) ++ (b'0' + n % 10) ∷ []

-- The `int32` of the low 32 bits, as gcc converts.
unfoldable pub to_int32 : ℤ → ℤ
to_int32 (pos n) = let w = n % 2 ^ 32 in if ltb w (2 ^ 31) then pos w else negsuc (2 ^ 32 - w - 1)
to_int32 (negsuc n) =
    let w = n % 2 ^ 32 in if ltb w (2 ^ 31) then negsuc w else pos (2 ^ 32 - w - 1)

-- `NumericValueToKey<int32>`, in either form.
unfoldable pub numeric_value_to_key : ℤ → Option Text
numeric_value_to_key (pos n) = some (padded 10 n)
numeric_value_to_key (negsuc n) = none

unfoldable pub int32_to_key : ℤ → Option Text
unfolding numeric_value_to_key
int32_to_key value = numeric_value_to_key value

-- The other three are instances of the same `int32` template.
unfoldable pub uint32_to_key : ℕ → Option Text
unfolding numeric_value_to_key to_int32
uint32_to_key value = numeric_value_to_key (to_int32 (pos value))

unfoldable pub int64_to_key : ℤ → Option Text
unfolding numeric_value_to_key to_int32
int64_to_key value = numeric_value_to_key (to_int32 value)

unfoldable pub uint64_to_key : ℕ → Option Text
unfolding numeric_value_to_key to_int32
uint64_to_key value = numeric_value_to_key (to_int32 (pos value))

abbrev pub is_digit : ℕ → Bool
is_digit c = leb b'0' c && leb c b'9'

-- Blank, or one of tab to carriage return.
abbrev pub is_space : ℕ → Bool
is_space c = c == 32 || (leb 9 c && leb c 13)

-- The number that the leading digits spell behind `n`.
unfoldable pub read_digits : ℕ → Text → ℕ
read_digits n [] = n
read_digits n (c ∷ cs) = elim (is_digit c) [
  | true ↦ read_digits (n * 10 + (c - b'0')) cs
  | false ↦ n
]

-- Digits behind the sign; none at all leave the variable without a value.
read_number : Text → Option ℕ
unfolding read_digits
read_number [] = none
read_number (c ∷ cs) = if is_digit c then some (read_digits 0 (c ∷ cs)) else none

-- A value over the type's greatest one is that one.
abbrev pub clamp : ℕ → ℕ → ℕ
clamp most n = if leb n most then n else most

unfoldable pub read_signed : ℕ → Text → Option ℤ
unfolding read_number
read_signed most [] = none
read_signed most (c ∷ cs) = elim (is_space c) [
  | true ↦ read_signed most cs
  | false ↦
      if c == b'-'
      then elim (read_number cs) [
        | none ↦ none
        | some n ↦ some (if n == 0 then pos 0 else negsuc (clamp (suc most) n - 1))
      ]
      else elim (read_number (if c == b'+' then cs else c ∷ cs)) [
        | none ↦ none
        | some n ↦ some (pos (clamp most n))
      ]
]

-- `istringstream(key) >> v` into an `int32` and an `int64`.
unfoldable pub key_to_int32 : Text → Option ℤ
unfolding read_signed
key_to_int32 key = read_signed (2 ^ 31 - 1) key

unfoldable pub key_to_int64 : Text → Option ℤ
unfolding read_signed
key_to_int64 key = read_signed (2 ^ 63 - 1) key

-- `memcpy` of the lowest `size` bytes of a number out of it and into it. A signed number is its bit
-- pattern.
unfoldable pub encode_bytes : ℕ → ℕ → Text
encode_bytes zero value = []
encode_bytes (suc size) value = (value % 256) ∷ encode_bytes size (value / 256)

unfoldable pub value_of_bytes : Text → ℕ
value_of_bytes [] = 0
value_of_bytes (b ∷ bs) = b + 256 * value_of_bytes bs

-- `EncodeNumericValue` and `DecodeNumericValue` at a type of `size` bytes.
unfoldable pub encode_numeric_value : ℕ → ℕ → Text
unfolding encode_bytes
encode_numeric_value size value = encode_bytes size value

unfoldable pub decode_numeric_value : ℕ → Text → Option ℕ
unfolding value_of_bytes
decode_numeric_value size str = if length str == size then some (value_of_bytes str) else none

unfoldable pub encode_uint32 : ℕ → Text
unfolding encode_numeric_value
encode_uint32 value = encode_numeric_value 4 value

unfoldable pub decode_uint32 : Text → Option ℕ
unfolding decode_numeric_value
decode_uint32 str = decode_numeric_value 4 str

unfoldable pub encode_uint64 : ℕ → Text
unfolding encode_numeric_value
encode_uint64 value = encode_numeric_value 8 value

unfoldable pub decode_uint64 : Text → Option ℕ
unfolding decode_numeric_value
decode_uint64 str = decode_numeric_value 8 str
