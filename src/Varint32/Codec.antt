-- ===== src/Varint32/Codec.antt =====
-- The varints of protobuf's format, and how src/base/varint32.cc reads and writes them.
use fast_dcs.Common.{
  ℕ, zero, suc, ◌+◌, ◌/◌, ◌%◌, ◌^◌, ◌<◌, ◌≡◌, refl, inl, inr, Bool-cases, ◌||◌, Bool, true, false,
  none, some, [], ◌∷◌, ◌++◌, arith, ltb, leb, if◌then◌else◌, length,
}
use fast_dcs.Common.Texts.{Text}
use fast_dcs.Varint32.{
  Input, get_byte, more, discard_loop, read_varint32, written, overruns, write_varint32,
}

-- Protobuf's format: groups of seven bits, the lowest first, each but the last with its high bit set; `groups`
-- more than the first at most.
abbrev pub varint : ℕ → ℕ → Text
varint zero n = n ∷ []
varint (suc groups) n =
    let rest = varint groups (n / 128) in if ltb n 128 then n ∷ [] else (n % 128 + 128) ∷ rest

abbrev pub at : Text → Input
at bytes = record { bytes = bytes; eof = false; error = false }

-- `ReadVarint32` reads the varint of a number below 2 ^ 32 as that number, and leaves what stands behind it.
pub read_varint32-varint :
    (n : ℕ) (rest : Text) → n < 2 ^ 32 → read_varint32 (at (varint 4 n ++ rest)) ≡ (at rest, some n)
unfolding read_varint32 get_byte
read_varint32-varint n rest h = ground arith

-- Every byte that is left announces one more.
abbrev pub AllMore : Text → Type 0
AllMore [] = Unit {0}
AllMore (b ∷ bs) = (more b ≡ true) × AllMore bs

byte_announces :
    (input : Input)
    → AllMore input.bytes
    → (more (get_byte input).0 ≡ true) × AllMore (get_byte input).1.bytes
unfolding get_byte
byte_announces input h = go input.bytes h
  where
    go :
        (bs : Text)
        → AllMore bs
        → (more (get_byte (record input { bytes = bs })).0 ≡ true)
          × AllMore (get_byte (record input { bytes = bs })).1.bytes
    go [] h = (refl, tt)
    go (b ∷ bs) h = h

discard_loop_more :
    (i result : ℕ) (input : Input) → AllMore input.bytes → (discard_loop i result input).1 ≡ none
unfolding discard_loop
discard_loop_more zero result input h = refl
discard_loop_more (suc i) result input h =
    let (m, h') = byte_announces input h in
    rw (m, discard_loop) (discard_loop_more i result (get_byte input).1 h')

-- `ReadVarint32` takes no number from a file that ends within one: where every byte that is left announces one more,
-- it returns false, and sets no value.
pub read_varint32_truncated : (input : Input) → AllMore input.bytes → (read_varint32 input).1 ≡ none
unfolding read_varint32
read_varint32_truncated input h =
    let (m0, h0) = byte_announces input h in
    let i0 = (get_byte input).1 in
    let (m1, h1) = byte_announces i0 h0 in
    let i1 = (get_byte i0).1 in
    let (m2, h2) = byte_announces i1 h1 in
    let i2 = (get_byte i1).1 in
    let (m3, h3) = byte_announces i2 h2 in
    let i3 = (get_byte i2).1 in
    let (m4, h4) = byte_announces i3 h3 in
    elim (Bool-cases (input.error || input.eof)) [
      | inl failed ↦ rw (failed, read_varint32)
      | inr good ↦
          rw (good, m0, m1, m2, m3, m4, read_varint32) (discard_loop_more 5 _ (get_byte i3).1 h4)
    ]

varint_fits : (n : ℕ) → leb (length (varint 4 n)) 4 ≡ ltb n (2 ^ 28)
varint_fits n = ground arith

write_fits :
    (write_to_array : ℕ → Text) (fwrite : Text → ℕ) (n : ℕ) (buffer : Text) (fits : Bool)
    → write_to_array n ≡ buffer
    → fwrite buffer ≡ length buffer
    → leb (length buffer) 4 ≡ fits
    → write_varint32 write_to_array fwrite n ≡ (if fits then written buffer true else overruns)
unfolding write_varint32
write_fits write_to_array fwrite n buffer fits w f l = ground arith

-- Where protobuf writes the varint of a number and the file takes all of it, `WriteVarint32` of a number below
-- 2 ^ 28 returns true, and `ReadVarint32` reads the number back; of any number from 2 ^ 28 on, `WriteVarint32`
-- leaves its buffer of four bytes.
pub read-write_varint32 :
    (write_to_array : ℕ → Text) (fwrite : Text → ℕ) (n : ℕ) (rest : Text)
    → n < 2 ^ 32
    → write_to_array n ≡ varint 4 n
    → fwrite (varint 4 n) ≡ length (varint 4 n)
    → (write_varint32 write_to_array fwrite n
        ≡ (if ltb n (2 ^ 28) then written (varint 4 n) true else overruns))
      × (read_varint32 (at (varint 4 n ++ rest)) ≡ (at rest, some n))
unfolding write_varint32
read-write_varint32 write_to_array fwrite n rest h w f = (
  write_fits write_to_array fwrite n (varint 4 n) (ltb n (2 ^ 28)) w f (varint_fits n),
  read_varint32-varint n rest h,
)
