-- ===== src/Strings/Codec/Bytes.antt =====
-- The round trip of the encoded bytes.
use fast_dcs.Common.{ℕ, zero, suc, ◌/◌, ◌^◌, ◌<◌, ◌≡◌, refl, ap, some, arith, length}
use fast_dcs.Strings.Codec.{
  encode_bytes, value_of_bytes, encode_numeric_value, decode_numeric_value,
}

pub length-encode_bytes : (size value : ℕ) → length (encode_bytes size value) ≡ size
unfolding encode_bytes
length-encode_bytes zero value = refl
length-encode_bytes (suc size) value = ap suc (length-encode_bytes size (value / 256))

value_of_bytes-encode_bytes :
    (size value : ℕ) → value < 256 ^ size → value_of_bytes (encode_bytes size value) ≡ value
unfolding encode_bytes value_of_bytes
value_of_bytes-encode_bytes zero value h = omega arith
value_of_bytes-encode_bytes (suc size) value h =
    omega (arith, value_of_bytes-encode_bytes size (value / 256) (omega arith))

-- A number of `size` bytes is decoded from its encoding.
pub decode_numeric_value-encode_numeric_value :
    (size value : ℕ)
    → value < 256 ^ size
    → decode_numeric_value size (encode_numeric_value size value) ≡ some value
unfolding encode_numeric_value decode_numeric_value
decode_numeric_value-encode_numeric_value size value h =
    ground (arith, length-encode_bytes size value, value_of_bytes-encode_bytes size value h)
