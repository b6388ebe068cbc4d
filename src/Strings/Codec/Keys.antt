-- ===== src/Strings/Codec/Keys.antt =====
-- The keys of ten digits: read back, in the order of the numbers, and what the templates' one type
-- does to wider values.
use Prim.Native.Nat.{compare, Ordering}
use fast_dcs.Common.{
  ℕ, zero, suc, ◌+◌, ◌-◌, ◌*◌, ◌/◌, ◌%◌, ◌^◌, ◌≤◌, ◌<◌, ◌≡◌, refl, ◌∙◌, none, some, [], ◌∷◌, ◌++◌,
  arith, length, length-append,
}
use fast_dcs.Common.Int.{pos}
use fast_dcs.Common.Texts.{Text}
use fast_dcs.Common.Maps.{lex}
use fast_dcs.Strings.Codec.{
  padded, int32_to_key, uint32_to_key, int64_to_key, read_digits, read_signed, key_to_int32,
}

abbrev pub AllDigits : Text → Type 0
AllDigits [] = Unit {0}
AllDigits (c ∷ cs) = (b'0' ≤ c) × (c ≤ b'9') × AllDigits cs

AllDigits-append : (xs ys : Text) → AllDigits xs → AllDigits ys → AllDigits (xs ++ ys)
AllDigits-append [] ys h k = k
AllDigits-append (x ∷ xs) ys h k = (h.0, h.1, AllDigits-append xs ys h.2 k)

pub padded-AllDigits : (w n : ℕ) → AllDigits (padded w n)
unfolding padded
padded-AllDigits zero n = tt
padded-AllDigits (suc w) n =
    AllDigits-append (padded w (n / 10)) _ (padded-AllDigits w (n / 10)) (omega arith)

pub length-padded : (w n : ℕ) → length (padded w n) ≡ w
unfolding padded
length-padded zero n = refl
length-padded (suc w) n =
    omega
      (arith, length-append (padded w (n / 10)) ((b'0' + n % 10) ∷ []), length-padded w (n / 10))

pub read_digits-append :
    (n : ℕ) (xs ys : Text)
    → AllDigits xs
    → read_digits n (xs ++ ys) ≡ read_digits (read_digits n xs) ys
unfolding read_digits
read_digits-append n [] ys h = refl
read_digits-append n (x ∷ xs) ys h =
    ground (arith, read_digits-append (n * 10 + (x - b'0')) xs ys h.2)

pub read_digits-padded : (w n : ℕ) → n < 10 ^ w → read_digits 0 (padded w n) ≡ n
unfolding padded
read_digits-padded zero n h = unfold read_digits in omega arith
read_digits-padded (suc w) n h =
    read_digits-append 0 (padded w (n / 10)) _ (padded-AllDigits w (n / 10))
    ∙ rw (read_digits-padded w (n / 10) (omega arith)) (unfold read_digits in ground arith)

read_signed-digits :
    (most : ℕ) (s : Text)
    → 0 < length s
    → AllDigits s
    → read_digits 0 s ≤ most
    → read_signed most s ≡ some (pos (read_digits 0 s))
unfolding read_signed
read_signed-digits most [] h d l = absurd (omega arith)
read_signed-digits most (c ∷ cs) h d l = ground arith

-- The key of an `int32` that is not negative has ten bytes, and is read back as that number.
pub key_to_int32-int32_to_key :
    (n : ℕ) (key : Text)
    → n < 2 ^ 31
    → int32_to_key (pos n) ≡ some key
    → (key_to_int32 key ≡ some (pos n)) × (length key ≡ 10)
unfolding int32_to_key key_to_int32
key_to_int32-int32_to_key n key h e = ground (
  arith,
  length-padded 10 n,
  read_digits-padded 10 n (omega arith),
  read_signed-digits (2 ^ 31 - 1) (padded 10 n),
  padded-AllDigits 10 n,
)

lex-snoc :
    (xs ys : Text) (x y : ℕ)
    → length xs ≡ length ys
    → lex (xs ++ x ∷ []) (ys ++ y ∷ []) ≡ (elim (lex xs ys) [
      | Ordering.eq ↦ compare x y
      | Ordering.lt ↦ Ordering.lt
      | Ordering.gt ↦ Ordering.gt
    ])
unfolding lex
lex-snoc [] [] x y h = ground arith
lex-snoc [] (b ∷ ys) x y h = absurd (omega arith)
lex-snoc (a ∷ xs) [] x y h = absurd (omega arith)
lex-snoc (a ∷ xs) (b ∷ ys) x y h = ground (arith, lex-snoc xs ys x y)

lex-padded : (w a b : ℕ) → a < 10 ^ w → b < 10 ^ w → lex (padded w a) (padded w b) ≡ compare a b
unfolding padded
lex-padded zero a b h k = unfold lex in ground arith
lex-padded (suc w) a b h k =
    let rest = lex-padded w (a / 10) (b / 10) (omega arith) (omega arith) in
    let last =
      lex-snoc (padded w (a / 10)) (padded w (b / 10)) (b'0' + a % 10) (b'0' + b % 10)
        (omega (arith, length-padded w (a / 10), length-padded w (b / 10))) in
    last ∙ rw rest (ground arith)

-- The keys of two numbers below 2 ^ 31 compare as the numbers do.
pub lex-int32_to_key :
    (a b : ℕ) (k l : Text)
    → a < 2 ^ 31
    → b < 2 ^ 31
    → int32_to_key (pos a) ≡ some k
    → int32_to_key (pos b) ≡ some l
    → lex k l ≡ compare a b
unfolding int32_to_key
lex-int32_to_key a b k l h i e f = ground (arith, lex-padded 10 a b)

-- `Int64ToKey` makes one key of two numbers that differ by 2 ^ 32, so it keeps no number from 2 ^ 32
-- on; and a number whose low half has its top bit set ends the process, though it is not negative.
pub int64_to_key_truncates :
    (n : ℕ)
    → (int64_to_key (pos n) ≡ int64_to_key (pos (n + 2 ^ 32)))
      × (int64_to_key (pos (n % 2 ^ 31 + 2 ^ 31)) ≡ none)
      × (uint32_to_key (n % 2 ^ 31 + 2 ^ 31) ≡ none)
unfolding int64_to_key uint32_to_key
int64_to_key_truncates n = ground arith
