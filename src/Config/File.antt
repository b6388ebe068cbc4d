-- ===== src/Config/File.antt =====
-- `config_parse` of src/base/config_file.cc: the automaton that reads lines `key = value`. The bytes come
-- in the chunks of `fread`, up to the end of the file or a read error; allocations succeed. A write or a read
-- behind the token buffer, which C does not define, ends the model's run.
pub mod Words
pub mod Lines
pub mod Written
pub mod Chunks
pub mod Ends
use fast_dcs.Common.{
  ℕ, zero, suc, ◌+◌, Bool, true, false, ◌&&◌, ◌||◌, ◌++◌, List, [], ◌∷◌, Option, none, some, ltb,
  leb, ◌==◌, if◌then◌else◌, length, set,
}
use fast_dcs.Common.Texts.{Text}
use fast_dcs.Config.Tree.{Tree}

pub data Mode : Type 0 where
  parse_initial parse_comment parse_quoted parse_unquoted handle_newline handle_sep : Mode

-- The lines that are printed to `stderr`, with the line number.
pub data Message : Type 0 where
  unterminated_string missing_key : ℕ → Message
  duplicate_key : Text → ℕ → Message

-- The variables of the loop. `t` is the offset of the pointer `t` in `token`, whose length is `tok_cap`;
-- of a pair only the key is set before it goes into the table.
pub record Parser (Table : Type 0) : Type 0 where
  pub state : Mode
  pub got_tok : Bool
  pub token : Text
  pub t : ℕ
  pub pair : Option Text
  pub line : ℕ
  pub table : Table
  pub messages : List Message

-- A round of the loop takes the character, with `++p`, or leaves it to the next round.
pub data Moved (Table : Type 0) : Type 0 where
  takes leaves : Parser Table → Moved Table
  overruns : Moved Table

pub data Parsing (Table : Type 0) : Type 0 where
  parsing : Parser Table → Parsing Table
  overrun endless : Parsing Table

infixl 5 ◌>>=◌
abbrev pub ◌>>=◌ : {Table : Type 0} → Parsing Table → (Parser Table → Parsing Table) → Parsing Table
parsing p >>= f = f p
overrun >>= f = overrun
endless >>= f = endless

-- What `fread` gives of a file that opens: the bytes up to its end, where `feof` becomes true; or the bytes up to
-- a read error, as at once for a directory, from which on `fread` gives nothing and `feof` stays false.
pub data Reading : Type 0 where
  whole broken : List Text → Reading

-- `config_parse` returns its code and has filled the table, leaves its buffer, or goes round its loop for ever.
pub data Parsed (Table : Type 0) : Type 0 where
  parsed : ℕ → Table → List Message → Parsed Table
  crashed hangs : Parsed Table

abbrev pub comment_char : ℕ
comment_char = b'#'

abbrev pub sep_char : ℕ
sep_char = b'='

abbrev pub str_char : ℕ
str_char = b'"'

abbrev pub newline : ℕ
newline = 10

-- `isspace` in the C locale.
unfoldable pub is_space : ℕ → Bool
is_space c = c == 32 || leb 9 c && leb c 13

-- What a `char*` points at, up to its NUL.
unfoldable pub c_string : Text → Option Text
c_string [] = none
c_string (c ∷ cs) = elim (c == 0) [
  | true ↦ some []
  | false ↦ elim (c_string cs) [ some s ↦ some (c ∷ s) | none ↦ none ]
]

module _ {Table : Type 0} where
  -- `got_tok = 1; *t = '\0';`
  unfoldable pub end_token : Parser Table → Option (Parser Table)
  end_token p =
      if ltb p.t (length p.token)
      then some (record p { got_tok = true; token = set p.token p.t 0 })
      else none

  -- The same, if there is a character.
  unfoldable pub end_unquoted : Parser Table → Option (Parser Table)
  unfolding end_token
  end_unquoted p = if p.t == 0 then some p else end_token p

  unfoldable pub and_takes : Mode → Option (Parser Table) → Moved Table
  and_takes s (some p) = takes (record p { state = s })
  and_takes s none = overruns

  unfoldable pub and_leaves : Mode → Option (Parser Table) → Moved Table
  and_leaves s (some p) = leaves (record p { state = s })
  and_leaves s none = overruns

  unfoldable pub parse_comment_step : Parser Table → ℕ → Moved Table
  parse_comment_step p c =
      if c == newline then leaves (record p { state = handle_newline }) else takes p

module _ (tree : Tree) (fresh : ℕ → Text) where
  open tree use {Table, create, find, probe}

  -- `realloc` to twice the size where `t > tok_limit`; `fresh` is what new memory holds.
  unfoldable pub enlarge : Parser Table → Parser Table
  enlarge p =
      if ltb (length p.token) p.t then record p { token = p.token ++ fresh (length p.token) } else p

  -- `*t++ = *p++;`
  unfoldable pub store : Mode → Parser Table → ℕ → Moved Table
  unfolding enlarge
  store s p c =
      let q = enlarge p in
      if ltb q.t (length q.token)
      then takes (record q { state = s; token = set q.token q.t c; t = q.t + 1 })
      else overruns

  unfoldable pub parse_initial_step : Parser Table → ℕ → Moved Table
  unfolding is_space
  parse_initial_step p c =
      if c == comment_char
      then takes (record p { state = parse_comment })
      else if c == str_char
      then takes (record p { state = parse_quoted; t = 0 })
      else if c == newline
      then leaves (record p { state = handle_newline })
      else if c == sep_char
      then takes (record p { state = handle_sep })
      else if is_space c
      then takes p
      else store parse_unquoted (record p { t = 0 }) c

  unfoldable pub parse_quoted_step : Parser Table → ℕ → Moved Table
  unfolding end_token and_takes
  parse_quoted_step p c =
      if c == str_char
      then and_takes parse_initial (end_token p)
      else if c == newline
      then leaves (record p {
        state = handle_newline;
        messages = p.messages ++ unterminated_string p.line ∷ [];
      })
      else store parse_quoted p c

  unfoldable pub parse_unquoted_step : Parser Table → ℕ → Moved Table
  unfolding end_unquoted and_takes and_leaves is_space
  parse_unquoted_step p c =
      if c == comment_char
      then and_takes parse_comment (end_unquoted p)
      else if c == newline
      then and_leaves handle_newline (end_unquoted p)
      else if c == sep_char
      then and_takes handle_sep (end_unquoted p)
      else if is_space c
      then and_takes parse_initial (end_unquoted p)
      else store parse_unquoted p c

  -- The value of a key, or 0.
  abbrev pub config_get : Table → Text → Option Text
  config_get table key = find key table

  -- The key of a new pair; a pair that the line began before is forgotten.
  unfoldable pub new_pair : Parser Table → Text → Parser Table
  new_pair p key = elim (config_get p.table key) [
    | some value ↦ record p { pair = none; messages = p.messages ++ duplicate_key key p.line ∷ [] }
    | none ↦ record p { pair = some key }
  ]

  unfoldable pub handle_sep_step : Parser Table → Moved Table
  unfolding new_pair
  handle_sep_step p = elim p.got_tok [
    | false ↦ leaves (record p {
      state = parse_initial;
      pair = none;
      messages = p.messages ++ missing_key p.line ∷ [];
    })
    | true ↦ elim (c_string p.token) [
      | none ↦ overruns
      | some key ↦ leaves (record (new_pair p key) { state = parse_initial; got_tok = false })
    ]
  ]

  -- `strdup(token)`, or `strdup("")` for a key with no value.
  unfoldable pub value_text : Parser Table → Option Text
  value_text p = elim p.got_tok [ true ↦ c_string p.token | false ↦ some [] ]

  -- The loop's variables behind a newline.
  abbrev pub next_line : Parser Table → Table → Parser Table
  next_line p table = record p {
    state = parse_initial;
    got_tok = false;
    pair = none;
    line = p.line + 1;
    table = table;
  }

  unfoldable pub handle_newline_step : Parser Table → Moved Table
  unfolding value_text
  handle_newline_step p = elim p.pair [
    | none ↦ takes (next_line p p.table)
    | some key ↦ elim (value_text p) [
      | none ↦ overruns
      | some value ↦ takes (next_line p (probe key value p.table))
    ]
  ]

  -- The `switch`.
  unfoldable pub state_step : Mode → Parser Table → ℕ → Moved Table
  state_step parse_initial p c = parse_initial_step p c
  state_step parse_comment p c = parse_comment_step p c
  state_step parse_quoted p c = parse_quoted_step p c
  state_step parse_unquoted p c = parse_unquoted_step p c
  state_step handle_newline p c = handle_newline_step p
  state_step handle_sep p c = handle_sep_step p

  -- The rounds until the character is taken.
  unfoldable pub take_char : ℕ → Parser Table → ℕ → Parsing Table
  unfolding state_step
  take_char zero p c = endless
  take_char (suc fuel) p c = elim (state_step p.state p c) [
    | takes q ↦ parsing q
    | leaves q ↦ take_char fuel q c
    | overruns ↦ overrun
  ]

  -- The `for` loop over a chunk.
  unfoldable pub parse_chunk : Text → Parser Table → Parsing Table
  parse_chunk [] p = parsing p
  parse_chunk (c ∷ buf) p = take_char 3 p c >>= λ q. parse_chunk buf q

  -- The `do` loop over the chunks that `fread` gives.
  unfoldable pub parse_chunks : List Text → Parser Table → Parsing Table
  parse_chunks [] p = parsing p
  parse_chunks (buf ∷ chunks) p = parse_chunk buf p >>= λ q. parse_chunks chunks q

  -- The variables before the loop.
  abbrev pub start : Parser Table
  start = record {
    state = parse_initial;
    got_tok = false;
    token = fresh 32;
    t = 0;
    pair = none;
    line = 1;
    table = create;
    messages = [];
  }

  -- `config_parse` on the file, if it opens; 2 is ENOENT. The loop is left by `feof` alone.
  unfoldable pub config_parse : Option Reading → Parsed Table
  unfolding parse_chunks
  config_parse none = parsed 2 create []
  config_parse (some (broken chunks)) = elim (parse_chunks chunks start) [
    | parsing p ↦ hangs
    | overrun ↦ crashed
    | endless ↦ hangs
  ]
  config_parse (some (whole chunks)) = elim (parse_chunks chunks start) [
    | parsing p ↦ parsed 0 p.table p.messages
    | overrun ↦ crashed
    | endless ↦ hangs
  ]
