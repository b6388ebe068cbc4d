-- ===== src/Strings/Codec/Tests.antt =====
-- Keys and encodings of some numbers.
use fast_dcs.Common.{◌+◌, ◌-◌, ◌%◌, ◌^◌, ◌≡◌, refl, none, some, arith, length}
use fast_dcs.Common.Int.{pos, negsuc}
use fast_dcs.Common.Texts.{codes}
use fast_dcs.Strings.Codec.{
  padded, int32_to_key, uint32_to_key, int64_to_key, key_to_int32, encode_uint32, decode_uint32,
}
use fast_dcs.Strings.Codec.Keys.{key_to_int32-int32_to_key, int64_to_key_truncates}

key_of_42 : int32_to_key (pos 42) ≡ some (codes "0000000042")
unfolding int32_to_key padded
key_of_42 = refl

key_of_negative : int32_to_key (negsuc 0) ≡ none
unfolding int32_to_key
key_of_negative = refl

read_signed_numbers :
    (key_to_int32 (codes " -17x") ≡ some (negsuc 16))
    × (key_to_int32 (codes "99999999999") ≡ some (pos (2 ^ 31 - 1)))
    × (key_to_int32 (codes "x") ≡ none)
unfolding key_to_int32
read_signed_numbers = (refl, refl, refl)

decoded : decode_uint32 (encode_uint32 0xcafe_babe) ≡ some 0xcafe_babe
unfolding decode_uint32 encode_uint32
decoded = refl

key_to_int32-int32_to_key_example :
    (key_to_int32 (codes "0000000042") ≡ some (pos 42)) × (length (codes "0000000042") ≡ 10)
key_to_int32-int32_to_key_example =
    key_to_int32-int32_to_key 42 (codes "0000000042") (omega arith) key_of_42

int64_to_key_truncates_example :
    (int64_to_key (pos 5) ≡ int64_to_key (pos (5 + 2 ^ 32)))
    × (int64_to_key (pos (5 % 2 ^ 31 + 2 ^ 31)) ≡ none)
    × (uint32_to_key (5 % 2 ^ 31 + 2 ^ 31) ≡ none)
int64_to_key_truncates_example = int64_to_key_truncates 5
