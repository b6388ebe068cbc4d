-- ===== src/Strings/Helpers/Replace.antt =====
-- `StringReplace` of src/utils/string_util.cc against one pass over the text.
use fast_dcs.Common.{
  ℕ, zero, suc, ◌+◌, ◌-◌, ◌<◌, ◌≡◌, refl, inl, inr, Option-cases, sym, ap, ◌∙◌, true, false, none,
  some, [], ◌∷◌, ◌++◌, append_assoc, arith, length, take, drop, length-drop,
}
use fast_dcs.Common.Texts.{Text, starts_with}
use fast_dcs.Strings.Helpers.{find_first, replace_loop, string_replace}

-- One pass: where the text starts with the needle, the replacement stands, and as many bytes are skipped.
abbrev pub replaced : Text → Text → ℕ → Text → Text
replaced needle replace_with skip [] = []
replaced needle replace_with (suc skip) (c ∷ cs) = replaced needle replace_with skip cs
replaced needle replace_with zero (c ∷ cs) =
    let found = replace_with ++ replaced needle replace_with (length needle - 1) cs in
    let other = c ∷ replaced needle replace_with zero cs in
    elim (starts_with (c ∷ cs) needle) [ true ↦ found | false ↦ other ]

replaced-drop :
    (needle replace_with : Text) (skip : ℕ) (text : Text)
    → replaced needle replace_with skip text ≡ replaced needle replace_with 0 (drop skip text)
replaced-drop needle replace_with zero text = refl
replaced-drop needle replace_with (suc skip) [] = refl
replaced-drop needle replace_with (suc skip) (c ∷ cs) = replaced-drop needle replace_with skip cs

-- What the first place where the needle stands means for the pass.
replaced_unfound :
    (b : ℕ) (needle replace_with text : Text)
    → find_first (b ∷ needle) text ≡ none
    → replaced (b ∷ needle) replace_with 0 text ≡ text
unfolding find_first
replaced_unfound b needle replace_with [] h = refl
replaced_unfound b needle replace_with (c ∷ cs) h =
    ground (arith, replaced_unfound b needle replace_with cs)

replaced_found :
    (b : ℕ) (needle replace_with text : Text) (p : ℕ)
    → find_first (b ∷ needle) text ≡ some p
    → replaced (b ∷ needle) replace_with 0 text
      ≡ take p text
        ++ (replace_with
            ++ replaced (b ∷ needle) replace_with 0 (drop (p + length (b ∷ needle)) text))
unfolding find_first
replaced_found b needle replace_with [] p h = cc
replaced_found b needle replace_with (c ∷ cs) zero h =
    let e : 0 + suc (length needle) ≡ suc (length needle) = omega arith in
    let f : suc (length needle) - 1 ≡ length needle = omega arith in
    rw e (ground (arith, f, replaced-drop (b ∷ needle) replace_with (length needle) cs))
replaced_found b needle replace_with (c ∷ cs) (suc p) h =
    let e : suc p + suc (length needle) ≡ suc (p + suc (length needle)) = omega arith in
    rw e (ground (arith, replaced_found b needle replace_with cs p))

find_first_lt :
    (b : ℕ) (needle text : Text) (p : ℕ) → find_first (b ∷ needle) text ≡ some p → p < length text
unfolding find_first
find_first_lt b needle [] p h = cc
find_first_lt b needle (c ∷ cs) zero h = omega arith
find_first_lt b needle (c ∷ cs) (suc p) h = ground (arith, find_first_lt b needle cs p)

replace_loop_lem :
    (fuel b : ℕ) (needle replace_with before rest : Text)
    → length rest < fuel
    → replace_loop fuel (b ∷ needle) replace_with before rest
      ≡ some (before ++ replaced (b ∷ needle) replace_with 0 rest)
unfolding replace_loop
replace_loop_lem zero b needle replace_with before rest h = absurd (omega arith)
replace_loop_lem (suc fuel) b needle replace_with before rest h =
    elim (Option-cases (find_first (b ∷ needle) rest)) [
      | inl e ↦
          rw (e, replace_loop)
            (ap (λ t. some (before ++ t)) (sym (replaced_unfound b needle replace_with rest e)))
      | inr (p, e) ↦
          let rest' = drop (p + suc (length needle)) rest in
          rw (e, replace_loop)
            (replace_loop_lem fuel b needle replace_with (before ++ (take p rest ++ replace_with))
                rest'
                (omega (
                  arith,
                  length-drop (p + suc (length needle)) rest,
                  find_first_lt b needle rest p e,
                ))
              ∙ ap some (
                  append_assoc before (take p rest ++ replace_with)
                    (replaced (b ∷ needle) replace_with 0 rest')
                  ∙ ap (λ t. before ++ t)
                      (append_assoc (take p rest) replace_with
                          (replaced (b ∷ needle) replace_with 0 rest')
                        ∙ sym (replaced_found b needle replace_with rest p e))))
    ]

-- `StringReplace` ends where the text to look for is not empty, and gives what one pass from left to right
-- gives, which puts the replacement for each occurrence that does not overlap one before it.
pub string_replace-replaced :
    (input needle replace_with : Text)
    → 0 < length needle
    → string_replace input needle replace_with ≡ some (replaced needle replace_with 0 input)
unfolding string_replace
string_replace-replaced input [] replace_with h = absurd (omega arith)
string_replace-replaced input (b ∷ needle) replace_with h =
    replace_loop_lem (suc (length input)) b needle replace_with [] input (omega arith)
