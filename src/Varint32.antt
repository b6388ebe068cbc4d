-- ===== src/Varint32.antt =====
-- src/base/varint32.cc: numbers of 32 bits in groups of seven bits. `|` joins groups with no bit in common, so
-- it is a sum.
pub mod Codec
mod Tests
use fast_dcs.Common.{
  ℕ, zero, suc, ◌+◌, ◌-◌, ◌*◌, ◌/◌, ◌%◌, ◌^◌, Bool, true, false, ◌||◌, Option, none, some, [], ◌∷◌,
  ◌==◌, leb, if◌then◌else◌, length,
}
use fast_dcs.Common.Texts.{Text}

-- A `FILE` that is read: the bytes that are left, `feof` and `ferror`.
pub record Input : Type 0 where
  pub bytes : Text
  pub eof : Bool
  pub error : Bool

-- `GetByte`: the EOF of `getc` is 2 ^ 32 - 1 as a `uint32`.
unfoldable pub get_byte : Input → ℕ × Input
get_byte input = elim input.bytes [
  | [] ↦ (2 ^ 32 - 1, record input { eof = true })
  | b ∷ bs ↦ (b, record input { bytes = bs })
]

-- `b & 0x80`.
abbrev pub more : ℕ → Bool
more b = (b / 128) % 2 == 1

-- The loop over the groups that are too high.
unfoldable pub discard_loop : ℕ → ℕ → Input → Input × Option ℕ
discard_loop zero result input = (input, none)
discard_loop (suc i) result input =
    let (b, input') = get_byte input in
    elim (more b) [ false ↦ (input', some result) | true ↦ discard_loop i result input' ]

-- `ReadVarint32`, with the value where it returns true.
unfoldable pub read_varint32 : Input → Input × Option ℕ
read_varint32 input = elim (input.error || input.eof) [
  | true ↦ (input, none)
  | false ↦
      let (b0, i0) = get_byte input in
      let r0 = b0 % 128 in
      elim (more b0) [
        | false ↦ (i0, some r0)
        | true ↦
            let (b1, i1) = get_byte i0 in
            let r1 = r0 + (b1 % 128) * 2 ^ 7 in
            elim (more b1) [
              | false ↦ (i1, some r1)
              | true ↦
                  let (b2, i2) = get_byte i1 in
                  let r2 = r1 + (b2 % 128) * 2 ^ 14 in
                  elim (more b2) [
                    | false ↦ (i2, some r2)
                    | true ↦
                        let (b3, i3) = get_byte i2 in
                        let r3 = r2 + (b3 % 128) * 2 ^ 21 in
                        elim (more b3) [
                          | false ↦ (i3, some r3)
                          | true ↦
                              let (b4, i4) = get_byte i3 in
                              let r4 = r3 + (b4 * 2 ^ 28) % 2 ^ 32 in
                              elim (more b4) [ false ↦ (i4, some r4) | true ↦ discard_loop 5 r4 i4 ]
                        ]
                  ]
            ]
      ]
]

-- `WriteVarint32` gives the bytes that it hands to `fwrite` and its result, or has left its buffer of four bytes.
pub data Written : Type 0 where
  written : Text → Bool → Written
  overruns : Written

-- `write_to_array` is protobuf's `WriteVarint32ToArray`, `fwrite` how many bytes the file takes.
unfoldable pub write_varint32 : (ℕ → Text) → (Text → ℕ) → ℕ → Written
write_varint32 write_to_array fwrite value =
    let buffer = write_to_array value in
    if leb (length buffer) 4 then written buffer (fwrite buffer == length buffer) else overruns
