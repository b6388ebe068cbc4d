-- ===== src/Config/File/Ends.antt =====
-- What `config_parse` of src/base/config_file.cc makes of whole files: of one that is written, of one whose
-- last line has no end, and of one with a long word.
use mathlib.Core.Logic.{◌⊎◌}
use fast_dcs.Common.{
  ℕ, zero, suc, ◌<◌, ◌≡◌, ◌≢◌, refl, sym, ap, inl, inr, ◌∙◌, Bool, true, false, ◌++◌, List, [], ◌∷◌,
  append-nil, some, arith, length,
}
use fast_dcs.Common.Texts.{Text}
use fast_dcs.Common.Memory.{blit, length-blit}
use fast_dcs.Config.Tree.{Tree}
use fast_dcs.Config.File.{
  Mode, Message, parse_initial, parse_unquoted, handle_newline, Parser, Parsing, ◌>>=◌, parsing,
  overrun, endless, whole, Moved, takes, leaves, overruns, parsed, crashed, newline, start,
  config_get, parse_comment_step, parse_initial_step, parse_quoted_step, parse_unquoted_step,
  handle_sep_step, handle_newline_step, state_step, store, take_char, parse_chunk, config_parse,
}
use fast_dcs.Config.File.Words.{is_plain, all}
use fast_dcs.Config.File.Lines.{in_word, plain_word}
use fast_dcs.Config.File.Written.{AllWritable, file_of, file_read, added, first_value, find-added}
use fast_dcs.Config.File.Chunks.{concat, result, config_parse_opened, parse_chunk_ends}

-- In the line of a newline.
abbrev at_newline : Mode → Bool
at_newline handle_newline = true
at_newline _ = false

-- The table stays, and no newline is being handled.
abbrev Keeps : {T : Type 0} → Parser T → Moved T → Type 0
Keeps p (takes q) = (q.table ≡ p.table) × (at_newline q.state ≡ false)
Keeps p (leaves q) = (q.table ≡ p.table) × (at_newline q.state ≡ false)
Keeps p overruns = Unit {0}

abbrev KeepsTable : {T : Type 0} → Parser T → Parsing T → Type 0
KeepsTable p (parsing q) = (q.table ≡ p.table) × (at_newline q.state ≡ false)
KeepsTable p _ = Unit {0}

abbrev pub NoNewline : Text → Type 0
NoNewline [] = Unit {0}
NoNewline (c ∷ text) = (c ≢ newline) × NoNewline text

KeepsTable-trans :
    {T : Type 0} (p q : Parser T) (m : Parsing T)
    → q.table ≡ p.table
    → KeepsTable q m
    → KeepsTable p m
KeepsTable-trans p q (parsing r) e k = (k.0 ∙ e, k.1)
KeepsTable-trans p q overrun e k = tt
KeepsTable-trans p q endless e k = tt

module _ (tree : Tree) (fresh : ℕ → Text) where
  open tree use {Table, create, find, probe}

  -- A file of written lines, in whatever chunks it is read, gives the table of its pairs, in which the value of
  -- a key is that of the first pair with the key, and 0 of a key that no pair has.
  pub config_parse_written :
      (pairs : List (Text × Text)) (chunks : List Text) (key : Text)
      → AllWritable pairs
      → length (fresh 32) ≡ 32
      → concat chunks ≡ file_of pairs
      → (messages : List Message) × (config_parse tree fresh (some (whole chunks))
          ≡ parsed 0 (added tree fresh pairs create) messages)
        × (config_get tree fresh (added tree fresh pairs create) key ≡ first_value key pairs)
  unfolding parse_chunk
  config_parse_written pairs chunks key w l e =
      let (q, tok, k, goes, t, _) =
        file_read tree fresh pairs (start tree fresh) (fresh 32) 0 w l in
      (
        q.messages,
        config_parse_opened tree fresh chunks
            ∙ ap (λ text. result tree fresh (parse_chunk tree fresh text (start tree fresh)))
                (e ∙ sym (append-nil (file_of pairs)))
            ∙ ap (result tree fresh) (goes [])
            ∙ ap (λ x. parsed 0 x q.messages) t,
        find-added tree fresh key pairs create ∙ rw (tree.find-create key),
      )

  step_table_kept :
      (s : Mode) (p : Parser Table) (c : ℕ)
      → c ≢ newline
      → at_newline s ≡ false
      → at_newline p.state ≡ false
      → Keeps p (state_step tree fresh s p c)
  unfolding state_step parse_initial_step parse_comment_step parse_quoted_step parse_unquoted_step
      handle_sep_step handle_newline_step store
  step_table_kept handle_newline p c h e r = cc
  step_table_kept _ p c h e r = ground arith

  take_char_keeps :
      (fuel : ℕ) (p : Parser Table) (c : ℕ)
      → c ≢ newline
      → at_newline p.state ≡ false
      → KeepsTable p (take_char tree fresh fuel p c)
  unfolding take_char
  take_char_keeps zero p c h r = tt
  take_char_keeps (suc fuel) p c h r =
      go (λ q. take_char_keeps fuel q c h) (state_step tree fresh p.state p c)
        (step_table_kept p.state p c h r r)
    where
      go :
          ((q : Parser Table)
            → at_newline q.state ≡ false
            → KeepsTable q (take_char tree fresh fuel q c))
          → (m : Moved Table) → Keeps p m
          → KeepsTable p (elim m as (λ x. Parsing Table) [
            | takes q ↦ parsing q
            | leaves q ↦ take_char tree fresh fuel q c
            | overruns ↦ overrun
          ])
      go ih (takes q) k = k
      go ih (leaves q) k = KeepsTable-trans p q (take_char tree fresh fuel q c) k.0 (ih q k.1)
      go ih overruns k = tt

  parse_chunk_keeps :
      (text : Text) (p : Parser Table)
      → NoNewline text
      → at_newline p.state ≡ false
      → KeepsTable p (parse_chunk tree fresh text p)
  unfolding parse_chunk
  parse_chunk_keeps [] p h r = (refl, r)
  parse_chunk_keeps (c ∷ text) p h r =
      go (λ q. parse_chunk_keeps text q h.1) (take_char tree fresh 3 p c)
        (take_char_keeps 3 p c h.0 r)
    where
      go :
          ((q : Parser Table)
            → at_newline q.state ≡ false
            → KeepsTable q (parse_chunk tree fresh text q))
          → (m : Parsing Table) → KeepsTable p m
          → KeepsTable p (m >>= parse_chunk tree fresh text)
      go ih (parsing q) k = KeepsTable-trans p q (parse_chunk tree fresh text q) k.0 (ih q k.1)
      go ih overrun k = tt
      go ih endless k = tt

  kept_result :
      (m : Parsing Table) (p : Parser Table)
      → KeepsTable p m
      → m ≢ endless
      → (result tree fresh m ≡ crashed)
        ⊎ ((messages : List Message) × (result tree fresh m ≡ parsed 0 p.table messages))
  kept_result (parsing q) p k h = inr (q.messages, ap (λ t. parsed 0 t q.messages) k.0)
  kept_result overrun p k h = inl refl
  kept_result endless p k h = absurd (h refl)

  -- The result where the table is `t`.
  abbrev pub Gives : List Text → Table → Type 0
  Gives chunks t =
      (messages : List Message) × (config_parse tree fresh (some (whole chunks))
        ≡ parsed 0 t messages)

  -- A last line without a newline is lost: whatever it says behind written lines, the table that `config_parse`
  -- gives is that of the written lines, unless the line overruns the token buffer.
  pub unfinished_line_lost :
      (pairs : List (Text × Text)) (line : Text) (chunks : List Text)
      → AllWritable pairs
      → length (fresh 32) ≡ 32
      → NoNewline line
      → concat chunks ≡ file_of pairs ++ line
      → (config_parse tree fresh (some (whole chunks)) ≡ crashed)
        ⊎ Gives chunks (added tree fresh pairs create)
  unfinished_line_lost pairs line chunks w l n e =
      let (q, tok, k, goes, t, _) =
        file_read tree fresh pairs (start tree fresh) (fresh 32) 0 w l in
      let p = in_word tree fresh parse_initial q tok k in
      let run : config_parse tree fresh (some (whole chunks))
          ≡ result tree fresh (parse_chunk tree fresh line p) =
        config_parse_opened tree fresh chunks
        ∙ ap (λ text. result tree fresh (parse_chunk tree fresh text (start tree fresh))) e
        ∙ ap (result tree fresh) (goes line) in
      elim (kept_result (parse_chunk tree fresh line p) p (parse_chunk_keeps line p n refl)
        (parse_chunk_ends tree fresh line p)) [
          | inl c ↦ inl (run ∙ c)
          | inr (messages, r) ↦ inr (messages, run ∙ r ∙ ap (λ x. parsed 0 x messages) t)
        ]

  full_buffer :
      (p : Parser Table) (tok : Text) (k c : ℕ)
      → 0 < k
      → k ≡ length tok
      → take_char tree fresh 3 (in_word tree fresh parse_unquoted p tok k) c ≡ overrun
  unfolding take_char parse_unquoted_step store
  full_buffer p tok k c h e = ground arith

  -- A word of 32 characters, which is no comment, at the begin of a line makes `config_parse` write behind its
  -- token buffer of 32 bytes at the next character, whatever that is.
  pub long_word_overruns :
      (pairs : List (Text × Text)) (word rest : Text) (next : ℕ) (chunks : List Text)
      → AllWritable pairs
      → length (fresh 32) ≡ 32
      → all is_plain word ≡ true
      → length word ≡ 32
      → concat chunks ≡ file_of pairs ++ (word ++ (next ∷ rest))
      → config_parse tree fresh (some (whole chunks)) ≡ crashed
  unfolding parse_chunk
  long_word_overruns pairs [] rest next chunks w l a m e = absurd (omega arith)
  long_word_overruns pairs (c ∷ word) rest next chunks w l a m e =
      let (q, tok, k, goes, t, f) =
        file_read tree fresh pairs (start tree fresh) (fresh 32) 0 w l in
      let full = in_word tree fresh parse_unquoted q (blit tok 0 (c ∷ word)) (suc (length word)) in
      let over : take_char tree fresh 3 full next ≡ overrun =
        full_buffer q (blit tok 0 (c ∷ word)) (suc (length word)) next (omega arith)
          (omega (arith, length-blit tok 0 (c ∷ word))) in
      config_parse_opened tree fresh chunks
      ∙ ap (λ text. result tree fresh (parse_chunk tree fresh text (start tree fresh))) e
      ∙ ap (result tree fresh) (
          goes ((c ∷ word) ++ (next ∷ rest))
          ∙ plain_word tree fresh q tok word k c a (omega arith) (next ∷ rest)
          ∙ ap (λ m. m >>= parse_chunk tree fresh rest) over)
