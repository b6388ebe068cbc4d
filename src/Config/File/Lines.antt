-- ===== src/Config/File/Lines.antt =====
-- Lines `key = "value"` as src/base/config_file.cc reads them.
use fast_dcs.Common.{
  ℕ, suc, ◌+◌, ◌<◌, ◌≤◌, ◌≡◌, refl, ◌∙◌, Bool, true, false, ◌++◌, [], ◌∷◌, append_assoc, none, some,
  arith, length, set, length-set,
}
use fast_dcs.Common.Texts.{Text}
use fast_dcs.Common.Memory.{blit}
use fast_dcs.Config.Tree.{Tree}
use fast_dcs.Config.File.{
  Mode, duplicate_key, parse_initial, parse_quoted, parse_unquoted, handle_sep, Parser, parsing,
  c_string, sep_char, str_char, newline, store, parse_initial_step, parse_quoted_step,
  parse_unquoted_step, handle_sep_step, next_line, handle_newline_step, take_char, parse_chunk,
}
use fast_dcs.Config.File.Words.{is_plain, is_quotable, all, blit_nil, blit-set}

module _ (tree : Tree) (fresh : ℕ → Text) where
  open tree use {Table, find, probe}

  -- The loop takes `text` and goes from one state to another, whatever follows.
  abbrev pub Passes : Text → Parser Table → Parser Table → Type 0
  Passes text p q =
      (rest : Text) → parse_chunk tree fresh (text ++ rest) p ≡ parse_chunk tree fresh rest q

  pub passing_char :
      (c : ℕ) (p q : Parser Table) → take_char tree fresh 3 p c ≡ parsing q → Passes (c ∷ []) p q
  unfolding parse_chunk
  passing_char c p q h rest = rw (h, parse_chunk)

  pub passing_both :
      (a b : Text) (p q r : Parser Table) → Passes a p q → Passes b q r → Passes (a ++ b) p r
  passing_both a b p q r f g rest = rw (append_assoc a b rest) (f (b ++ rest) ∙ g rest)

  abbrev pub in_word : Mode → Parser Table → Text → ℕ → Parser Table
  in_word s p tok k = record p { state = s; token = tok; t = k }

  plain_char :
      (p : Parser Table) (tok : Text) (k c : ℕ)
      → is_plain c ≡ true
      → k < length tok
      → take_char tree fresh 3 (in_word parse_unquoted p tok k) c
        ≡ parsing (in_word parse_unquoted p (set tok k c) (suc k))
  unfolding take_char parse_unquoted_step store
  plain_char p tok k c h l = ground arith

  pub quoted_char :
      (p : Parser Table) (tok : Text) (k c : ℕ)
      → is_quotable c ≡ true
      → k < length tok
      → take_char tree fresh 3 (in_word parse_quoted p tok k) c
        ≡ parsing (in_word parse_quoted p (set tok k c) (suc k))
  unfolding take_char parse_quoted_step store
  quoted_char p tok k c h l = ground arith

  pub first_char :
      (p : Parser Table) (tok : Text) (k c : ℕ)
      → is_plain c ≡ true
      → 0 < length tok
      → take_char tree fresh 3 (in_word parse_initial p tok k) c
        ≡ parsing (in_word parse_unquoted p (set tok 0 c) 1)
  unfolding take_char parse_initial_step store
  first_char p tok k c h l = ground arith

  -- A word goes into the buffer, behind what is there.
  pub word_read :
      (s : Mode) (ok : ℕ → Bool) (p : Parser Table)
      → ((tok : Text) (k c : ℕ)
          → ok c ≡ true
          → k < length tok
          → take_char tree fresh 3 (in_word s p tok k) c
            ≡ parsing (in_word s p (set tok k c) (suc k)))
      → (tok word : Text) (k : ℕ) → all ok word ≡ true
      → k + length word ≤ length tok
      → Passes word (in_word s p tok k) (in_word s p (blit tok k word) (k + length word))
  word_read s ok p char tok [] k a l rest =
      let e : k + 0 ≡ k = omega arith in cc (blit_nil tok k, e)
  word_read s ok p char tok (c ∷ word) k a l rest =
      let e : k + suc (length word) ≡ suc k + length word = omega arith in
      let a' : (ok c ≡ true) × (all ok word ≡ true) = ground arith in
      let l' : suc k + length word ≤ length (set tok k c) = omega (arith, length-set tok k c) in
      rw (e, ← blit-set tok word k c)
        (passing_char c (in_word s p tok k) (in_word s p (set tok k c) (suc k))
            (char tok k c a'.0 (omega arith)) (word ++ rest)
          ∙ word_read s ok p char (set tok k c) word (suc k) a'.1 l' rest)

  -- An unquoted word from its first character on.
  pub plain_word :
      (p : Parser Table) (tok word : Text) (k c : ℕ)
      → all is_plain (c ∷ word) ≡ true
      → suc (length word) ≤ length tok
      → Passes
          (c ∷ word)
          (in_word parse_initial p tok k)
          (in_word parse_unquoted p (blit tok 0 (c ∷ word)) (suc (length word)))
  plain_word p tok word k c a l rest =
      let a' : (is_plain c ≡ true) × (all is_plain word ≡ true) = ground arith in
      let l' : 1 + length word ≤ length (set tok 0 c) = omega (arith, length-set tok 0 c) in
      let e : suc (length word) ≡ 1 + length word = omega arith in
      rw (e, ← blit-set tok word 0 c)
        (passing_char c (in_word parse_initial p tok k) (in_word parse_unquoted p (set tok 0 c) 1)
            (first_char p tok k c a'.0 (omega arith)) (word ++ rest)
          ∙ word_read parse_unquoted is_plain p (plain_char p) (set tok 0 c) word 1 a'.1 l' rest)

  -- What stands behind a word in the file.
  pub space_ends :
      (p : Parser Table) (tok : Text) (k : ℕ)
      → 0 < k
      → k < length tok
      → take_char tree fresh 3 (in_word parse_unquoted p tok k) 32
        ≡ parsing (in_word parse_initial (record p { got_tok = true }) (set tok k 0) k)
  unfolding take_char parse_unquoted_step
  space_ends p tok k h l = ground arith

  pub sep_char_goes :
      (p : Parser Table) (tok : Text) (k : ℕ)
      → take_char tree fresh 3 (in_word parse_initial p tok k) sep_char
        ≡ parsing (in_word handle_sep p tok k)
  unfolding take_char parse_initial_step
  sep_char_goes p tok k = refl

  pub quote_begins :
      (p : Parser Table) (tok : Text) (k : ℕ)
      → take_char tree fresh 3 (in_word parse_initial p tok k) str_char
        ≡ parsing (in_word parse_quoted p tok 0)
  unfolding take_char parse_initial_step
  quote_begins p tok k = refl

  pub quote_ends :
      (p : Parser Table) (tok : Text) (k : ℕ)
      → k < length tok
      → take_char tree fresh 3 (in_word parse_quoted p tok k) str_char
        ≡ parsing (in_word parse_initial (record p { got_tok = true }) (set tok k 0) k)
  unfolding take_char parse_quoted_step
  quote_ends p tok k l = ground arith

  -- A key is a pair's, or a duplicate.
  pub sep_new :
      (p : Parser Table) (tok key : Text) (k : ℕ)
      → p.got_tok ≡ true
      → c_string tok ≡ some key
      → find key p.table ≡ none
      → take_char tree fresh 3 (in_word handle_sep p tok k) 32
        ≡ parsing (in_word parse_initial (record p { got_tok = false; pair = some key }) tok k)
  unfolding take_char handle_sep_step parse_initial_step
  sep_new p tok key k g s f = ground arith

  pub sep_duplicate :
      (p : Parser Table) (tok key value : Text) (k : ℕ)
      → p.got_tok ≡ true
      → c_string tok ≡ some key
      → find key p.table ≡ some value
      → take_char tree fresh 3 (in_word handle_sep p tok k) 32
        ≡ parsing (
            in_word parse_initial
              (record p {
                got_tok = false;
                pair = none;
                messages = p.messages ++ duplicate_key key p.line ∷ [];
              })
              tok
              k)
  unfolding take_char handle_sep_step parse_initial_step
  sep_duplicate p tok key value k g s f = ground arith

  pub newline_new :
      (p : Parser Table) (tok key value : Text) (k : ℕ)
      → p.got_tok ≡ true
      → p.pair ≡ some key
      → c_string tok ≡ some value
      → take_char tree fresh 3 (in_word parse_initial p tok k) newline
        ≡ parsing (in_word parse_initial (next_line tree fresh p (probe key value p.table)) tok k)
  unfolding take_char handle_newline_step parse_initial_step
  newline_new p tok key value k g e s = ground arith

  pub newline_idle :
      (p : Parser Table) (tok : Text) (k : ℕ)
      → p.pair ≡ none
      → take_char tree fresh 3 (in_word parse_initial p tok k) newline
        ≡ parsing (in_word parse_initial (next_line tree fresh p p.table) tok k)
  unfolding take_char handle_newline_step parse_initial_step
  newline_idle p tok k e = ground arith
