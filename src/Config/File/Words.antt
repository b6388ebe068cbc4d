-- ===== src/Config/File/Words.antt =====
-- Words in the token buffer of src/base/config_file.cc.
use fast_dcs.Common.{
  ℕ, zero, suc, ◌<◌, ◌≡◌, refl, ap, ◌∙◌, Bool, true, not, ◌&&◌, ◌||◌, [], ◌∷◌, some, arith, ◌==◌,
  length, set, length-set,
}
use fast_dcs.Common.Texts.{Text}
use fast_dcs.Common.Memory.{blit, length-blit}
use fast_dcs.Config.File.{c_string, is_space, comment_char, sep_char, str_char, newline}

-- A character that may stand in an unquoted word, and one that may stand in a quoted one.
abbrev pub is_plain : ℕ → Bool
unfolding is_space
is_plain c =
    not
      (c == 0 || c == comment_char || c == str_char || c == newline || c == sep_char || is_space c)

abbrev pub is_quotable : ℕ → Bool
is_quotable c = not (c == 0 || c == str_char || c == newline)

abbrev pub all : (ℕ → Bool) → Text → Bool
all p [] = true
all p (c ∷ cs) = p c && all p cs

-- The buffer behind a word and its NUL.
abbrev pub with_token : Text → Text → Text
with_token token word = set (blit token 0 word) (length word) 0

pub length-with_token : (token word : Text) → length (with_token token word) ≡ length token
length-with_token token word =
    length-set (blit token 0 word) (length word) 0 ∙ length-blit token 0 word

pub blit_nil : (token : Text) (i : ℕ) → blit token i [] ≡ token
unfolding blit
blit_nil [] i = refl
blit_nil (b ∷ bs) zero = refl
blit_nil (b ∷ bs) (suc i) = ap (λ x. b ∷ x) (blit_nil bs i)

pub blit-set :
    (token word : Text) (i c : ℕ) → blit (set token i c) (suc i) word ≡ blit token i (c ∷ word)
unfolding blit
blit-set [] word i c = refl
blit-set (b ∷ bs) word zero c = refl
blit-set (b ∷ bs) word (suc i) c = ap (λ x. b ∷ x) (blit-set bs word i c)

-- A word without a NUL is read back.
pub c_string-with_token :
    (token word : Text)
    → all (λ c. not (c == 0)) word ≡ true
    → length word < length token
    → c_string (with_token token word) ≡ some word
unfolding c_string blit
c_string-with_token [] word p h = absurd (omega arith)
c_string-with_token (b ∷ bs) [] p h = refl
c_string-with_token (b ∷ bs) (c ∷ word) p h = ground (arith, c_string-with_token bs word)
