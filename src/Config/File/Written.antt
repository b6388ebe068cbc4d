-- ===== src/Config/File/Written.antt =====
-- A file that is written as lines `key = "value"` and read by `config_parse` of src/base/config_file.cc.
use fast_dcs.Common.{
  ℕ, suc, ◌+◌, ◌<◌, ◌≡◌, refl, inl, inr, Option-cases, ap, ◌∙◌, Bool, true, false, not, ◌++◌, List,
  [], ◌∷◌, Option, none, some, arith, ◌==◌, if◌then◌else◌, length,
}
use fast_dcs.Common.Texts.{Text, eq, eq→eq, eq_self}
use fast_dcs.Common.Memory.{blit, length-blit}
use fast_dcs.Config.Tree.{Tree}
use fast_dcs.Config.File.{
  is_space, duplicate_key, parse_initial, parse_quoted, handle_sep, Parser, parsing, sep_char,
  str_char, newline, next_line, take_char,
}
use fast_dcs.Config.File.Words.{
  is_plain, is_quotable, all, with_token, length-with_token, c_string-with_token,
}
use fast_dcs.Config.File.Lines.{
  Passes, passing_char, passing_both, in_word, plain_word, word_read, quoted_char, space_ends,
  sep_char_goes, quote_begins, quote_ends, sep_new, sep_duplicate, newline_new, newline_idle,
}

-- The pair of a line can be written: the key is a word, the value stands between quotes, and both fit
-- the buffer of 32 bytes.
abbrev pub Writable : Text × Text → Type 0
Writable (key, value) =
    (all is_plain key ≡ true)
    × (0 < length key)
    × (length key < 32)
    × (all is_quotable value ≡ true)
    × (length value < 32)

abbrev pub line_of : Text × Text → Text
line_of (key, value) =
    (key ++ (32 ∷ []) ++ sep_char ∷ [])
    ++ (32 ∷ [])
    ++ ((str_char ∷ []) ++ value ++ str_char ∷ [])
    ++ newline ∷ []

abbrev pub AllWritable : List (Text × Text) → Type 0
AllWritable [] = Unit {0}
AllWritable (pair ∷ pairs) = Writable pair × AllWritable pairs

abbrev pub file_of : List (Text × Text) → Text
file_of [] = []
file_of (pair ∷ pairs) = line_of pair ++ file_of pairs

-- The value of the first pair with a key.
abbrev pub first_value : Text → List (Text × Text) → Option Text
first_value j [] = none
first_value j ((key, value) ∷ pairs) = if eq key j then some value else first_value j pairs

no_nul :
    (ok : ℕ → Bool)
    → ((c : ℕ) → ok c ≡ true → not (c == 0) ≡ true)
    → (word : Text) → all ok word ≡ true
    → all (λ c. not (c == 0)) word ≡ true
no_nul ok h [] a = refl
no_nul ok h (c ∷ cs) a = ground (arith, h c, no_nul ok h cs)

plain_no_nul : (c : ℕ) → is_plain c ≡ true → not (c == 0) ≡ true
unfolding is_space
plain_no_nul c h = ground arith

quotable_no_nul : (c : ℕ) → is_quotable c ≡ true → not (c == 0) ≡ true
quotable_no_nul c h = ground arith

option_eta : (o : Option Text) → o ≡ elim o [ some w ↦ some w | none ↦ none ]
option_eta none = refl
option_eta (some x) = refl

module _ (tree : Tree) (fresh : ℕ → Text) where
  open tree use {Table, find, probe}

  -- From a key to the space behind `=`, and from there to the newline.
  key_read :
      (p : Parser Table) (tok key : Text) (k : ℕ)
      → all is_plain key ≡ true
      → 0 < length key
      → length key < length tok
      → Passes tree fresh
          (key ++ (32 ∷ []) ++ sep_char ∷ [])
          (in_word tree fresh parse_initial p tok k)
          (in_word tree fresh handle_sep
            (record p { got_tok = true })
            (with_token tok key)
            (length key))
  key_read p tok [] k a h l = absurd (omega arith)
  key_read p tok (c ∷ word) k a h l =
      let tok' = blit tok 0 (c ∷ word) in
      let n = suc (length word) in
      passing_both tree fresh ((c ∷ word) ++ 32 ∷ []) (sep_char ∷ []) _ _ _
        (passing_both tree fresh (c ∷ word) (32 ∷ []) _ _ _
          (plain_word tree fresh p tok word k c a (omega arith))
          (passing_char tree fresh 32 _ _ (
            space_ends tree fresh p tok' n (omega arith)
              (omega (arith, length-blit tok 0 (c ∷ word))))))
        (passing_char tree fresh sep_char _ _
          (sep_char_goes tree fresh (record p { got_tok = true }) (with_token tok (c ∷ word)) n))

  value_read :
      (p : Parser Table) (tok value : Text) (k : ℕ)
      → all is_quotable value ≡ true
      → length value < length tok
      → Passes tree fresh
          ((str_char ∷ []) ++ value ++ str_char ∷ [])
          (in_word tree fresh parse_initial p tok k)
          (in_word tree fresh parse_initial
            (record p { got_tok = true })
            (with_token tok value)
            (length value))
  value_read p tok value k a l =
      passing_both tree fresh ((str_char ∷ []) ++ value) (str_char ∷ []) _
        (in_word tree fresh parse_quoted p (blit tok 0 value) (length value)) _
        (passing_both tree fresh (str_char ∷ []) value _ (in_word tree fresh parse_quoted p tok 0) _
          (passing_char tree fresh str_char _ _ (quote_begins tree fresh p tok k))
          (let e : 0 + length value ≡ length value = omega arith in
            rw e at (
              word_read tree fresh parse_quoted is_quotable p (quoted_char tree fresh p) tok value 0
                a (omega arith))))
        (passing_char tree fresh str_char _ _ (
          quote_ends tree fresh p (blit tok 0 value) (length value)
            (omega (arith, length-blit tok 0 value))))

  key_new :
      (p : Parser Table) (tok key : Text)
      → all is_plain key ≡ true
      → length key < length tok
      → find key p.table ≡ none
      → Passes tree fresh
          (32 ∷ [])
          (in_word tree fresh handle_sep
            (record p { got_tok = true })
            (with_token tok key)
            (length key))
          (in_word tree fresh parse_initial
            (record p { got_tok = false; pair = some key })
            (with_token tok key)
            (length key))
  key_new p tok key a l f = passing_char tree fresh 32 _ _ (
      sep_new tree fresh (record p { got_tok = true }) (with_token tok key) key (length key) refl
        (c_string-with_token tok key (no_nul is_plain plain_no_nul key a) l) f)

  -- The state behind a key that is there.
  abbrev duplicate : Parser Table → Text → Parser Table
  duplicate p key = record p {
    got_tok = false;
    pair = none;
    messages = p.messages ++ duplicate_key key p.line ∷ [];
  }

  key_duplicate :
      (p : Parser Table) (tok key value : Text)
      → all is_plain key ≡ true
      → length key < length tok
      → find key p.table ≡ some value
      → Passes tree fresh
          (32 ∷ [])
          (in_word tree fresh handle_sep
            (record p { got_tok = true })
            (with_token tok key)
            (length key))
          (in_word tree fresh parse_initial (duplicate p key) (with_token tok key) (length key))
  key_duplicate p tok key value a l f = passing_char tree fresh 32 _ _ (
      sep_duplicate tree fresh (record p { got_tok = true }) (with_token tok key) key value
        (length key) refl (c_string-with_token tok key (no_nul is_plain plain_no_nul key a) l) f)

  -- The table with a pair, unless its key is there.
  abbrev pub added_one : Text × Text → Table → Table
  added_one (key, value) t = elim (find key t) [ some old ↦ t | none ↦ probe key value t ]

  abbrev pub ReadsLine : Text × Text → Parser Table → Text → ℕ → Type 0
  ReadsLine (key, value) p tok k =
      (q : Parser Table) × Passes tree fresh (line_of (key, value))
        (in_word tree fresh parse_initial p tok k)
        (in_word tree fresh parse_initial q (with_token (with_token tok key) value) (length value))
      × (q.table ≡ added_one (key, value) p.table)

  -- A line, by what its key and its end do.
  line_by :
      (p q r : Parser Table) (tok key value : Text) (k : ℕ)
      → Writable (key, value)
      → length tok ≡ 32
      → Passes tree fresh
          (32 ∷ [])
          (in_word tree fresh handle_sep
            (record p { got_tok = true })
            (with_token tok key)
            (length key))
          (in_word tree fresh parse_initial q (with_token tok key) (length key))
      → take_char tree fresh 3
          (in_word tree fresh parse_initial
            (record q { got_tok = true })
            (with_token (with_token tok key) value)
            (length value))
          newline
        ≡ parsing (
            in_word tree fresh parse_initial r
              (with_token (with_token tok key) value)
              (length value))
      → Passes tree fresh (line_of (key, value)) (in_word tree fresh parse_initial p tok k) (
          in_word tree fresh parse_initial r (with_token (with_token tok key) value) (length value))
  line_by p q r tok key value k (a, h, l, b, m) e sep end =
      let before = (key ++ (32 ∷ []) ++ sep_char ∷ []) ++ (32 ∷ []) in
      let quoted = (str_char ∷ []) ++ value ++ str_char ∷ [] in
      passing_both tree fresh (before ++ quoted) (newline ∷ []) _ _ _
        (passing_both tree fresh before quoted _ _ _
          (passing_both tree fresh (key ++ (32 ∷ []) ++ sep_char ∷ []) (32 ∷ []) _ _ _
            (key_read p tok key k a h (omega arith)) sep)
          (value_read q (with_token tok key) value (length key) b
            (omega (arith, length-with_token tok key))))
        (passing_char tree fresh newline _ _ end)

  line_read :
      (key value : Text) (p : Parser Table) (tok : Text) (k : ℕ)
      → Writable (key, value)
      → length tok ≡ 32
      → ReadsLine (key, value) p tok k
  line_read key value p tok k (a, h, l, b, m) e =
      let tok1 = with_token tok key in
      let e1 : length tok1 ≡ 32 = length-with_token tok key ∙ e in
      let text =
        c_string-with_token tok1 value (no_nul is_quotable quotable_no_nul value b) (omega arith) in
      elim (Option-cases (find key p.table)) [
        | inl new ↦
            let q : Parser Table = record p { got_tok = true; pair = some key } in
            let r = next_line tree fresh q (probe key value p.table) in
            (
              r,
              line_by p (record p { got_tok = false; pair = some key }) r tok key value k
                  (a, h, l, b, m) e (key_new p tok key a (omega arith) new)
                  (newline_new tree fresh q (with_token tok1 value) key value (length value) refl
                    refl text),
              rw (new, added_one),
            )
        | inr (old, f) ↦
            let q : Parser Table = duplicate p key in
            let r = next_line tree fresh (record q { got_tok = true }) p.table in
            (
              r,
              line_by p q r tok key value k (a, h, l, b, m) e
                  (key_duplicate p tok key old a (omega arith) f)
                  (newline_idle tree fresh (record q { got_tok = true }) (with_token tok1 value)
                    (length value) refl),
              rw (f, added_one),
            )
      ]

  abbrev pub added : List (Text × Text) → Table → Table
  added [] t = t
  added (pair ∷ pairs) t = added pairs (added_one pair t)

  pub file_read :
      (pairs : List (Text × Text)) (p : Parser Table) (tok : Text) (k : ℕ)
      → AllWritable pairs
      → length tok ≡ 32
      → (q : Parser Table) × (tok' : Text) × (k' : ℕ) × Passes tree fresh
          (file_of pairs)
          (in_word tree fresh parse_initial p tok k)
          (in_word tree fresh parse_initial q tok' k')
        × (q.table ≡ added pairs p.table)
        × (length tok' ≡ 32)
  file_read [] p tok k w e = (p, tok, k, λ rest. refl, refl, e)
  file_read ((key, value) ∷ pairs) p tok k (w, ws) e =
      let (q, goes, t) = line_read key value p tok k w e in
      let tok2 = with_token (with_token tok key) value in
      let e2 : length tok2 ≡ 32 =
        length-with_token (with_token tok key) value ∙ length-with_token tok key ∙ e in
      let (r, tok', k', rest, t', e') = file_read pairs q tok2 (length value) ws e2 in
      (
        r,
        tok',
        k',
        passing_both tree fresh (line_of (key, value)) (file_of pairs) _ _ _ goes rest,
        t' ∙ ap (added pairs) t,
        e',
      )

  find-added_one :
      (j key value : Text) (t : Table)
      → find j (added_one (key, value) t)
        ≡ elim (find j t) [ some w ↦ some w | none ↦ if eq key j then some value else none ]
  find-added_one j key value t = ground (
    arith,
    tree.find-probe_new key value t,
    tree.find-probe_ne key j value t,
    eq→eq key j,
    eq_self key,
  )

  -- The first pair with a key counts.
  pub find-added :
      (j : Text) (pairs : List (Text × Text)) (t : Table)
      → find j (added pairs t) ≡ elim (find j t) [ some w ↦ some w | none ↦ first_value j pairs ]
  find-added j [] t = option_eta (find j t)
  find-added j ((key, value) ∷ pairs) t =
      ground (arith, find-added j pairs (added_one (key, value) t), find-added_one j key value t)
