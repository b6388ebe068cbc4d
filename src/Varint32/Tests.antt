-- ===== src/Varint32/Tests.antt =====
-- The varint of 300, an input that ends within one, and the theorems there.
use fast_dcs.Common.{◌≡◌, refl, true, some, [], ◌∷◌, arith, length}
use fast_dcs.Varint32.{read_varint32, get_byte, write_varint32, written}
use fast_dcs.Varint32.Codec.{varint, at, read-write_varint32}

read_300 : read_varint32 (at (172 ∷ 2 ∷ 7 ∷ [])) ≡ (at (7 ∷ []), some 300)
unfolding read_varint32 get_byte
read_300 = refl

read-write_varint32_example :
    (write_varint32 (varint 4) length 300 ≡ written (172 ∷ 2 ∷ []) true)
    × (read_varint32 (at (172 ∷ 2 ∷ 7 ∷ [])) ≡ (at (7 ∷ []), some 300))
read-write_varint32_example =
    read-write_varint32 (varint 4) length 300 (7 ∷ []) (omega arith) refl refl
