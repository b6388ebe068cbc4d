-- ===== src/Config/File/Chunks.antt =====
-- The chunks in which src/base/config_file.cc reads its file, and the loop's end.
use fast_dcs.Common.{
  ℕ, zero, suc, ◌<◌, ◌≡◌, ◌≢◌, refl, sym, ap, subst, ◌∙◌, ◌++◌, List, [], ◌∷◌, append-nil, some,
  arith, ◌⊎◌, inl, inr,
}
use mathlib.Core.Path.{fun_ext}
use fast_dcs.Common.Texts.{Text}
use fast_dcs.Config.Tree.{Tree}
use fast_dcs.Config.File.{
  Mode, parse_initial, handle_newline, handle_sep, Parser, Parsing, ◌>>=◌, parsing, overrun,
  endless, whole, broken, Moved, takes, leaves, overruns, Parsed, parsed, crashed, hangs, start,
  parse_comment_step, parse_initial_step, parse_quoted_step, parse_unquoted_step, handle_sep_step,
  handle_newline_step, state_step, store, take_char, parse_chunk, parse_chunks, config_parse,
}

-- How many rounds a state may leave its character to.
abbrev rank : Mode → ℕ
rank handle_newline = 0
rank handle_sep = 2
rank _ = 1

abbrev Falls : {T : Type 0} → Mode → Moved T → Type 0
Falls s (leaves q) = rank q.state < rank s
Falls s _ = Unit {0}

abbrev pub concat : List Text → Text
concat [] = []
concat (buf ∷ chunks) = buf ++ concat chunks

module _ (tree : Tree) (fresh : ℕ → Text) where
  open tree use {Table}

  step_sinks : (s : Mode) (p : Parser Table) (c : ℕ) → Falls s (state_step tree fresh s p c)
  unfolding state_step parse_initial_step parse_comment_step parse_quoted_step parse_unquoted_step
      handle_sep_step handle_newline_step store
  step_sinks parse_initial p c = ground arith
  step_sinks _ p c = ground arith

  take_char_ends :
      (fuel : ℕ) (p : Parser Table) (c : ℕ)
      → rank p.state < fuel
      → take_char tree fresh fuel p c ≢ endless
  unfolding take_char
  take_char_ends zero p c h = absurd (omega arith)
  take_char_ends (suc fuel) p c h =
      go (λ q. take_char_ends fuel q c) (state_step tree fresh p.state p c) (step_sinks p.state p c)
    where
      go :
          ((q : Parser Table) → rank q.state < fuel → take_char tree fresh fuel q c ≢ endless)
          → (m : Moved Table) → Falls p.state m
          → elim m as (λ x. Parsing Table) [
            | takes q ↦ parsing q
            | leaves q ↦ take_char tree fresh fuel q c
            | overruns ↦ overrun
          ]
            ≢ endless
      go ih (takes q) f = λ e. cc
      go ih (leaves q) f = ih q (omega arith)
      go ih overruns f = λ e. cc

  rank_lt : (s : Mode) → rank s < 3
  rank_lt handle_newline = omega arith
  rank_lt handle_sep = omega arith
  rank_lt _ = omega arith

  >>=_ends :
      (m : Parsing Table) (f : Parser Table → Parsing Table)
      → m ≢ endless
      → ((q : Parser Table) → f q ≢ endless)
      → (m >>= f) ≢ endless
  >>=_ends (parsing q) f h k = k q
  >>=_ends overrun f h k = λ e. cc
  >>=_ends endless f h k = h

  pub >>=_assoc :
      (m : Parsing Table) (f g : Parser Table → Parsing Table)
      → (m >>= f >>= g) ≡ (m >>= λ q. f q >>= g)
  >>=_assoc (parsing q) f g = refl
  >>=_assoc overrun f g = refl
  >>=_assoc endless f g = refl

  pub parse_chunk_ends : (buf : Text) (p : Parser Table) → parse_chunk tree fresh buf p ≢ endless
  unfolding parse_chunk
  parse_chunk_ends [] p = λ e. cc
  parse_chunk_ends (c ∷ buf) p =
      >>=_ends (take_char tree fresh 3 p c) (parse_chunk tree fresh buf)
        (take_char_ends 3 p c (rank_lt p.state)) (parse_chunk_ends buf)

  pub parse_chunk-append :
      (a b : Text) (p : Parser Table)
      → parse_chunk tree fresh (a ++ b) p
        ≡ (parse_chunk tree fresh a p >>= parse_chunk tree fresh b)
  unfolding parse_chunk
  parse_chunk-append [] b p = refl
  parse_chunk-append (c ∷ a) b p =
      ap (λ f. take_char tree fresh 3 p c >>= f) (fun_ext (parse_chunk-append a b))
      ∙ sym (
          >>=_assoc (take_char tree fresh 3 p c) (parse_chunk tree fresh a)
            (parse_chunk tree fresh b))

  chunks_concat :
      (chunks : List Text) (p : Parser Table)
      → parse_chunks tree fresh chunks p ≡ parse_chunk tree fresh (concat chunks) p
  unfolding parse_chunks parse_chunk
  chunks_concat [] p = refl
  chunks_concat (buf ∷ chunks) p =
      ap (λ f. parse_chunk tree fresh buf p >>= f) (fun_ext (chunks_concat chunks))
      ∙ sym (parse_chunk-append buf (concat chunks) p)

  -- What a run of the loop gives.
  abbrev pub result : Parsing Table → Parsed Table
  result (parsing p) = parsed 0 p.table p.messages
  result overrun = crashed
  result endless = hangs

  pub config_parse_opened :
      (chunks : List Text)
      → config_parse tree fresh (some (whole chunks))
        ≡ result (parse_chunk tree fresh (concat chunks) (start tree fresh))
  unfolding config_parse
  config_parse_opened chunks = ap result (chunks_concat chunks (start tree fresh))

  -- Where the chunks of `fread` begin and end makes no difference: `config_parse` of a file in any chunks is
  -- `config_parse` of the file as one.
  pub config_parse_chunks :
      (chunks : List Text)
      → config_parse tree fresh (some (whole chunks))
        ≡ config_parse tree fresh (some (whole (concat chunks ∷ [])))
  config_parse_chunks chunks =
      config_parse_opened chunks
      ∙ ap (λ t. result (parse_chunk tree fresh t (start tree fresh)))
          (sym (append-nil (concat chunks)))
      ∙ sym (config_parse_opened (concat chunks ∷ []))

  result_ends : (m : Parsing Table) → m ≢ endless → result m ≢ hangs
  result_ends (parsing p) h = λ e. cc
  result_ends overrun h = λ e. cc
  result_ends endless h = λ e. h refl

  -- What a run gives whose file ends in a read error.
  abbrev broken_result : Parsing Table → Parsed Table
  broken_result (parsing p) = hangs
  broken_result overrun = crashed
  broken_result endless = hangs

  overrun_or_hangs :
      (m : Parsing Table)
      → m ≢ endless
      → ((result m ≡ crashed) × (broken_result m ≡ crashed))
        ⊎ ((result m ≢ crashed) × (broken_result m ≡ hangs))
  overrun_or_hangs (parsing p) h = inr ((λ e. cc), refl)
  overrun_or_hangs overrun h = inl (refl, refl)
  overrun_or_hangs endless h = absurd (h refl)

  -- On a file that is read to its end `config_parse`, in whose loop many rounds take no character, ends. On one that
  -- gives the same bytes and then a read error it never returns, unless the bytes overrun the token buffer.
  pub config_parse_ends :
      (chunks : List Text)
      → let read = config_parse tree fresh (some (whole chunks)) in
        let failed = config_parse tree fresh (some (broken chunks)) in
        (read ≢ hangs)
        × (((read ≡ crashed) × (failed ≡ crashed)) ⊎ ((read ≢ crashed) × (failed ≡ hangs)))
  unfolding config_parse
  config_parse_ends chunks =
      let ends : parse_chunks tree fresh chunks (start tree fresh) ≢ endless =
        subst (λ m. m ≢ endless) (sym (chunks_concat chunks (start tree fresh)))
          (parse_chunk_ends (concat chunks) (start tree fresh)) in
      (
        result_ends (parse_chunks tree fresh chunks (start tree fresh)) ends,
        overrun_or_hangs (parse_chunks tree fresh chunks (start tree fresh)) ends,
      )
