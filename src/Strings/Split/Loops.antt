-- ===== src/Strings/Split/Loops.antt =====
-- The two loops of `SplitStringToIteratorUsing` compute one function, and the reserve that
-- `SplitStringUsing` makes for the vector is exact.
use fast_dcs.Common.{
  ℕ, zero, suc, ◌+◌, ◌-◌, ◌≤◌, ◌<◌, ◌≡◌, refl, sym, ap, ◌∙◌, Bool, true, false, not, Option, none,
  some, List, [], ◌∷◌, ◌++◌, length, take, drop, append-nil, append_assoc, arith, Option-cases, inl,
  inr,
}
use fast_dcs.Common.Texts.{Text}
use fast_dcs.Common.Memory.{slice}
use fast_dcs.Strings.Split.{
  skip, token, split_char, count_skip, count_token, is_delim, index_of, find_first_of,
  find_first_not_of, split_loop, split_any, split_string_using,
}

mutual
  unfolding skip token count_skip count_token

  length-skip : (c : ℕ) (xs : Text) → length (skip c xs) ≡ count_skip c xs
  length-skip c [] = refl
  length-skip c (x ∷ xs) = ground (arith, length-skip c xs, length-token c (x ∷ []) xs)

  length-token : (c : ℕ) (start xs : Text) → length (token c start xs) ≡ count_token c xs
  length-token c start [] = refl
  length-token c start (x ∷ xs) =
      ground (arith, length-skip c xs, length-token c (start ++ x ∷ []) xs)

-- `CalculateReserveForVector` counts the tokens exactly.
pub length-split_char : (full : Text) (c : ℕ) → length (split_char full c) ≡ count_skip c full
unfolding split_char
length-split_char full c = length-skip c full

-- Both loops, for any test of a delimiter.
unfoldable mutual
  pub fields : (ℕ → Bool) → Text → List Text
  fields p [] = []
  fields p (x ∷ xs) = elim (p x) [ true ↦ fields p xs | false ↦ field p (x ∷ []) xs ]

  pub field : (ℕ → Bool) → Text → Text → List Text
  field p start [] = start ∷ []
  field p start (x ∷ xs) = elim (p x) [
    | true ↦ start ∷ fields p xs
    | false ↦ field p (start ++ x ∷ []) xs
  ]

mutual
  unfolding skip token fields field is_delim

  skip-fields : (c : ℕ) (xs : Text) → skip c xs ≡ fields (is_delim (c ∷ [])) xs
  skip-fields c [] = refl
  skip-fields c (x ∷ xs) = ground (arith, skip-fields c xs, token-field c (x ∷ []) xs)

  token-field : (c : ℕ) (start xs : Text) → token c start xs ≡ field (is_delim (c ∷ [])) start xs
  token-field c start [] = refl
  token-field c start (x ∷ xs) =
      ground (arith, skip-fields c xs, token-field c (start ++ x ∷ []) xs)

module _ (p : ℕ → Bool) where
  abbrev negated : ℕ → Bool
  negated x = not (p x)

  index_of-bounds : (xs : Text) (i e : ℕ) → index_of p xs i ≡ some e → (i ≤ e) × (e < i + length xs)
  unfolding index_of
  index_of-bounds [] i e h = cc
  index_of-bounds (x ∷ xs) i e h = ground (arith, index_of-bounds xs (suc i) e)

  index_of-tail :
      (x : ℕ) (xs : Text) (i n : ℕ)
      → index_of p (x ∷ xs) i ≡ some (i + suc n)
      → index_of p xs (suc i) ≡ some (suc i + n)
  unfolding index_of
  index_of-tail x xs i n h = ground arith

  field-none :
      (xs start : Text) (i : ℕ) → index_of p xs i ≡ none → field p start xs ≡ (start ++ xs) ∷ []
  unfolding index_of field
  field-none [] start i h = ground (arith, append-nil start)
  field-none (x ∷ xs) start i h =
      ground (arith, field-none xs (start ++ x ∷ []) (suc i), append_assoc start (x ∷ []) xs)

  field-some :
      (xs start : Text) (n i : ℕ)
      → index_of p xs i ≡ some (i + n)
      → field p start xs ≡ (start ++ take n xs) ∷ fields p (drop n xs)
  unfolding index_of field fields
  field-some [] start n i h = cc
  field-some (x ∷ xs) start zero i h =
      ground (arith, index_of-bounds xs (suc i) (i + 0), append-nil start)
  field-some (x ∷ xs) start (suc n) i h =
      ground
        (arith, field-some xs (start ++ x ∷ []) n (suc i), append_assoc start (x ∷ []) (take n xs))

  fields-none : (xs : Text) (i : ℕ) → index_of negated xs i ≡ none → fields p xs ≡ []
  unfolding index_of fields
  fields-none [] i h = refl
  fields-none (x ∷ xs) i h = ground (arith, fields-none xs (suc i))

module _ (p : ℕ → Bool) where
  fields-some :
      (xs : Text) (n i : ℕ)
      → index_of (λ x. not (p x)) xs i ≡ some (i + n)
      → fields p xs ≡ field p [] (drop n xs)
  unfolding index_of field fields
  fields-some [] n i h = cc
  fields-some (x ∷ xs) zero i h =
      ground (arith, index_of-bounds (λ x. not (p x)) xs (suc i) (i + 0))
  fields-some (x ∷ xs) (suc n) i h = ground (arith, fields-some xs n (suc i))

  -- A delimiter is found behind the byte that is none.
  index_of-lt :
      (xs : Text) (n i e : ℕ)
      → index_of (λ x. not (p x)) xs i ≡ some (i + n)
      → index_of p (drop n xs) (i + n) ≡ some e
      → i + n < e
  unfolding index_of
  index_of-lt [] n i e h k = cc
  index_of-lt (x ∷ xs) zero i e h k = ground (
    arith,
    index_of-bounds (λ x. not (p x)) xs (suc i) (i + 0),
    index_of-bounds p xs (suc (i + 0)) e,
  )
  index_of-lt (x ∷ xs) (suc n) i e h k =
      let s : i + suc n ≡ suc i + n = omega arith in
      omega (arith, index_of-lt xs n (suc i) e (index_of-tail _ x xs i n h) (rw s at k))

drop-nil : (n : ℕ) → drop {A = ℕ} n [] ≡ []
drop-nil zero = refl
drop-nil (suc n) = refl

drop-drop : (m n : ℕ) (xs : Text) → drop m (drop n xs) ≡ drop (n + m) xs
drop-drop m zero xs = ap (λ k. drop k xs) (omega arith)
drop-drop m (suc n) [] = drop-nil m ∙ sym (drop-nil (suc n + m))
drop-drop m (suc n) (x ∷ xs) =
    let e : suc n + m ≡ suc (n + m) = omega arith in rw e (drop-drop m n xs)

drop_past : (n : ℕ) (xs : Text) → length xs ≤ n → drop n xs ≡ []
drop_past zero [] h = refl
drop_past zero (x ∷ xs) h = absurd (omega arith)
drop_past (suc n) [] h = refl
drop_past (suc n) (x ∷ xs) h = drop_past n xs (omega arith)

module _ (full delim : Text) where
  abbrev from : ℕ → Option ℕ
  from b = index_of (λ x. not (is_delim delim x)) (drop b full) b

  -- One round: from a byte that is no delimiter to the end of its token.
  split_loop_round :
      (fuel b : ℕ)
      → ((e : ℕ)
          → b < e
          → split_loop fuel full delim (from e) ≡ fields (is_delim delim) (drop e full))
      → ((e : ℕ) → index_of (is_delim delim) (drop b full) b ≡ some e → b < e)
      → split_loop (suc fuel) full delim (some b) ≡ field (is_delim delim) [] (drop b full)
  unfolding split_loop find_first_of find_first_not_of
  split_loop_round fuel b ih lt = elim (Option-cases (index_of (is_delim delim) (drop b full) b)) [
    | inl e ↦ rw (field-none (is_delim delim) (drop b full) [] b e, e, split_loop, find_first_of)
    | inr (e, h) ↦
        let l = lt e h in
        let m : e ≡ b + (e - b) = omega arith in
        let found = field-some (is_delim delim) (drop b full) [] (e - b) b (h ∙ ap some m) in
        let rest = ih e l in
        let same : b + (e - b) ≡ e = omega arith in
        rw (found, h, split_loop, find_first_of, find_first_not_of, drop-drop, same)
          (ap (λ ts. slice full b (e - b) ∷ ts) rest)
  ]

  split_loop-fields :
      (fuel b : ℕ)
      → length full ≤ fuel + b
      → split_loop fuel full delim (from b) ≡ fields (is_delim delim) (drop b full)
  split_loop-fields zero b h =
      rw (drop_past b full (omega arith)) (unfold split_loop index_of fields in refl)
  split_loop-fields (suc fuel) b h = elim (Option-cases (from b)) [
    | inl e ↦ rw (fields-none (is_delim delim) (drop b full) b e, e) (unfold split_loop in refl)
    | inr (c, e) ↦
        let (at_least, _) = index_of-bounds _ (drop b full) b c e in
        let m : c ≡ b + (c - b) = omega arith in
        let same : b + (c - b) ≡ c = omega arith in
        rw
          (e, fields-some (is_delim delim) (drop b full) (c - b) b (e ∙ ap some m), drop-drop, same)
          (split_loop_round fuel c (λ k l. split_loop-fields fuel k (omega arith))
            (λ k f. omega (
              arith,
              index_of-lt (is_delim delim) (drop b full) (c - b) b k (e ∙ ap some m)
                  (rw (drop-drop, same) f),
            )))
  ]

-- The loop for several delimiters never runs out of rounds: it gives the fields of the text.
pub split_any-fields : (full delim : Text) → split_any full delim ≡ fields (is_delim delim) full
unfolding split_any find_first_not_of
split_any-fields full delim = split_loop-fields full delim (length full) 0 (omega arith)

-- The loop for a single delimiter, the optimised common case, gives what the loop for several gives.
pub split_char-split_any : (full : Text) (c : ℕ) → split_char full c ≡ split_any full (c ∷ [])
unfolding split_char
split_char-split_any full c = skip-fields c full ∙ sym (split_any-fields full (c ∷ []))

pub split_string_using-fields :
    (full delim : Text) → split_string_using full delim ≡ fields (is_delim delim) full
unfolding split_string_using
split_string_using-fields full [] = split_any-fields full []
split_string_using-fields full (c ∷ []) = unfold split_char in skip-fields c full
split_string_using-fields full (c ∷ d ∷ delim) = split_any-fields full (c ∷ d ∷ delim)
