-- ===== src/Strings/Split/Parts.antt =====
-- What the parts of a split are, and the round trip with `JoinStrings`.
use fast_dcs.Common.{
  ℕ, ◌≡◌, ◌≢◌, refl, sym, ap, ◌∙◌, Bool, true, false, List, [], ◌∷◌, ◌++◌, append-nil, append_assoc,
  if◌then◌else◌, arith,
}
use fast_dcs.Common.Texts.{Text}
use fast_dcs.Strings.Join.{join_rest, join_strings}
use fast_dcs.Strings.Split.{is_delim, split_string_using}
use fast_dcs.Strings.Split.Loops.{fields, field, split_string_using-fields}

-- No byte of the text passes the test.
abbrev pub Free : (ℕ → Bool) → Text → Type 0
Free p [] = Unit {0}
Free p (x ∷ xs) = (p x ≡ false) × Free p xs

-- The parts are not empty, and hold no delimiter.
abbrev pub AreParts : (ℕ → Bool) → List Text → Type 0
AreParts p [] = Unit {0}
AreParts p (t ∷ ts) = (t ≢ []) × Free p t × AreParts p ts

-- The parts put together.
abbrev pub flatten : List Text → Text
flatten [] = []
flatten (t ∷ ts) = t ++ flatten ts

-- The text without its delimiters.
pub strip : (ℕ → Bool) → Text → Text
strip p [] = []
strip p (x ∷ xs) = if p x then strip p xs else x ∷ strip p xs

Free-append : (p : ℕ → Bool) (xs ys : Text) → Free p xs → Free p ys → Free p (xs ++ ys)
Free-append p [] ys h k = k
Free-append p (x ∷ xs) ys h k = (h.0, Free-append p xs ys h.1 k)

snoc-ne-nil : (xs : Text) (x : ℕ) → xs ++ x ∷ [] ≢ []
snoc-ne-nil [] x h = cc
snoc-ne-nil (y ∷ xs) x h = cc

mutual
  unfolding fields field

  fields-AreParts : (p : ℕ → Bool) (xs : Text) → AreParts p (fields p xs)
  fields-AreParts p [] = tt
  fields-AreParts p (x ∷ xs) = ground (arith, fields-AreParts p xs, field-AreParts p (x ∷ []) xs)

  field-AreParts :
      (p : ℕ → Bool) (start xs : Text) → start ≢ [] → Free p start → AreParts p (field p start xs)
  field-AreParts p start [] n h = (n, h, tt)
  field-AreParts p start (x ∷ xs) n h = ground (
    arith,
    fields-AreParts p xs,
    field-AreParts p (start ++ x ∷ []) xs (snoc-ne-nil start x),
    Free-append p start (x ∷ []) h,
  )

mutual
  unfolding fields field strip

  flatten-fields : (p : ℕ → Bool) (xs : Text) → flatten (fields p xs) ≡ strip p xs
  flatten-fields p [] = refl
  flatten-fields p (x ∷ xs) = ground (arith, flatten-fields p xs, flatten-field p (x ∷ []) xs)

  flatten-field :
      (p : ℕ → Bool) (start xs : Text) → flatten (field p start xs) ≡ start ++ strip p xs
  flatten-field p start [] = refl
  flatten-field p start (x ∷ xs) = ground (
    arith,
    flatten-fields p xs,
    flatten-field p (start ++ x ∷ []) xs,
    append_assoc start (x ∷ []) (strip p xs),
  )

-- Whatever the text and the delimiters are, the parts are not empty, hold no delimiter, and put
-- together they are the text without its delimiters.
pub split_string_using_parts :
    (full delim : Text)
    → AreParts (is_delim delim) (split_string_using full delim)
      × (flatten (split_string_using full delim) ≡ strip (is_delim delim) full)
split_string_using_parts full delim =
    rw (split_string_using-fields full delim)
      (fields-AreParts (is_delim delim) full, flatten-fields (is_delim delim) full)

-- Each part behind the delimiter.
abbrev behind : ℕ → List Text → Text
behind d [] = []
behind d (t ∷ ts) = d ∷ t ++ behind d ts

join_rest-behind :
    (d : ℕ) (ts : List Text) (out : Text) → join_rest ts (d ∷ []) out ≡ out ++ behind d ts
unfolding join_rest
join_rest-behind d [] out = sym (append-nil out)
join_rest-behind d (t ∷ ts) out =
    join_rest-behind d ts (out ++ (d ∷ t)) ∙ append_assoc out (d ∷ t) (behind d ts)

field-append :
    (p : ℕ → Bool) (start xs rest : Text)
    → Free p xs
    → field p start (xs ++ rest) ≡ field p (start ++ xs) rest
unfolding field
field-append p start [] rest h = rw (append-nil start)
field-append p start (x ∷ xs) rest h =
    ground (arith, field-append p (start ++ x ∷ []) xs rest h.1, append_assoc start (x ∷ []) xs)

field-behind :
    (p : ℕ → Bool) (d : ℕ) (start : Text) (ts : List Text)
    → p d ≡ true
    → AreParts p ts
    → field p start (behind d ts) ≡ start ∷ ts
unfolding field fields
field-behind p d start [] e a = refl
field-behind p d start ([] ∷ ts) e a = absurd (a.0 refl)
field-behind p d start ((x ∷ xs) ∷ ts) e a =
    ground
      (arith, field-append p (x ∷ []) xs (behind d ts) a.1.1, field-behind p d (x ∷ xs) ts e a.2)

-- The addresses that `JoinStrings` joins by a delimiter are those that the split by a set with that
-- delimiter gives back, in order, if none is empty or holds a delimiter of the set.
pub split_string_using-join_strings :
    (ts : List Text) (d : ℕ) (delim : Text)
    → is_delim delim d ≡ true
    → AreParts (is_delim delim) ts
    → split_string_using (join_strings ts (d ∷ [])) delim ≡ ts
unfolding join_strings
split_string_using-join_strings [] d delim e a =
    split_string_using-fields [] delim ∙ (unfold fields in refl)
split_string_using-join_strings ([] ∷ ts) d delim e a = absurd (a.0 refl)
split_string_using-join_strings ((x ∷ xs) ∷ ts) d delim e a =
    split_string_using-fields _ delim
    ∙ ap (fields (is_delim delim)) (join_rest-behind d ts (x ∷ xs))
    ∙ first_field
  where
    first_field : fields (is_delim delim) (x ∷ xs ++ behind d ts) ≡ (x ∷ xs) ∷ ts
    first_field =
        unfold fields in
        ground (
          arith,
          field-append (is_delim delim) (x ∷ []) xs (behind d ts) a.1.1,
          field-behind (is_delim delim) d (x ∷ xs) ts e a.2,
        )
