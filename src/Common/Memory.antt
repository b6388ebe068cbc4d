-- ===== src/Common/Memory.antt =====
-- Char buffers as lists of bytes: `memcpy` into a buffer and out of it.
use fast_dcs.Common.{
  ℕ, zero, suc, ◌+◌, ◌-◌, ◌<◌, ◌≡◌, refl, ap, ◌&&◌, [], ◌∷◌, ◌++◌, arith, leb, ltb, if◌then◌else◌,
  length, get_or, take, drop,
}
use fast_dcs.Common.Texts.{Text}

-- `memcpy(&buf[o], src, src.size())`. A write past the end is dropped.
unfoldable pub blit : Text → ℕ → Text → Text
blit [] o src = []
blit (b ∷ bs) zero [] = b ∷ bs
blit (b ∷ bs) zero (s ∷ src) = s ∷ blit bs zero src
blit (b ∷ bs) (suc o) src = b ∷ blit bs o src

-- The `n` bytes from `&buf[o]` on.
abbrev pub slice : Text → ℕ → ℕ → Text
slice buf o n = take n (drop o buf)

pub length-blit : (buf : Text) (o : ℕ) (src : Text) → length (blit buf o src) ≡ length buf
unfolding blit
length-blit [] o src = refl
length-blit (b ∷ bs) zero [] = refl
length-blit (b ∷ bs) zero (s ∷ src) = ap suc (length-blit bs zero src)
length-blit (b ∷ bs) (suc o) src = ap suc (length-blit bs o src)

pub get_or-blit :
    (buf : Text) (o : ℕ) (src : Text) (i : ℕ)
    → i < length buf
    → get_or (blit buf o src) i 0
      ≡ (if leb o i && ltb i (o + length src) then get_or src (i - o) 0 else get_or buf i 0)
unfolding blit
get_or-blit [] o src i h = absurd (omega arith)
get_or-blit (b ∷ bs) zero [] i h = ground arith
get_or-blit (b ∷ bs) zero (s ∷ src) zero h = ground arith
get_or-blit (b ∷ bs) zero (s ∷ src) (suc i) h = ground (arith, get_or-blit bs zero src i)
get_or-blit (b ∷ bs) (suc o) src zero h = ground arith
get_or-blit (b ∷ bs) (suc o) src (suc i) h = ground (arith, get_or-blit bs o src i)

pub get_or-take : (n i : ℕ) (xs : Text) → i < n → get_or (take n xs) i 0 ≡ get_or xs i 0
get_or-take zero i xs h = absurd (omega arith)
get_or-take (suc n) i [] h = refl
get_or-take (suc n) zero (x ∷ xs) h = refl
get_or-take (suc n) (suc i) (x ∷ xs) h = get_or-take n i xs (omega arith)

pub get_or-drop : (n i : ℕ) (xs : Text) → get_or (drop n xs) i 0 ≡ get_or xs (n + i) 0
get_or-drop zero i xs = ap (λ k. get_or xs k 0) (omega arith)
get_or-drop (suc n) i [] = refl
get_or-drop (suc n) i (x ∷ xs) =
    let e : suc n + i ≡ suc (n + i) = omega arith in rw e (get_or-drop n i xs)

pub get_or-append :
    (xs ys : Text) (i : ℕ)
    → get_or (xs ++ ys) i 0
      ≡ (if ltb i (length xs) then get_or xs i 0 else get_or ys (i - length xs) 0)
get_or-append [] ys i = ground arith
get_or-append (x ∷ xs) ys zero = ground arith
get_or-append (x ∷ xs) ys (suc i) = ground (arith, get_or-append xs ys i)

-- Two buffers of one length with the same bytes are equal.
pub eq_of_get_or :
    (xs ys : Text)
    → length xs ≡ length ys
    → ((i : ℕ) → i < length xs → get_or xs i 0 ≡ get_or ys i 0)
    → xs ≡ ys
eq_of_get_or [] [] e h = refl
eq_of_get_or [] (y ∷ ys) e h = absurd (omega arith)
eq_of_get_or (x ∷ xs) [] e h = absurd (omega arith)
eq_of_get_or (x ∷ xs) (y ∷ ys) e h =
    let rest = eq_of_get_or xs ys (omega arith) (λ i p. h (suc i) (omega arith)) in
    let first : x ≡ y = h 0 (omega arith) in cc
