-- ===== src/Config/Tests.antt =====
-- A configuration of two pairs, a run of the parser on it, and the theorems there.
use fast_dcs.Common.{
  ℕ, ◌*◌, ◌^◌, false, ◌≡◌, ◌≢◌, refl, ◌⊎◌, true, ◌++◌, List, [], ◌∷◌, some, arith, replicate,
}
use fast_dcs.Common.Int.{pos, ◌≤ℤ◌}
use fast_dcs.Common.Texts.{Text, codes, eq}
use fast_dcs.Common.Maps
use fast_dcs.Strings.Helpers.{parse_bytes}
use fast_dcs.Config.Tree.{list_tree}
use fast_dcs.Config.File.{
  Message, whole, broken, parsed, crashed, hangs, missing_key, duplicate_key, is_space, config_get,
  config_parse, take_char, parse_chunk, parse_initial_step, parse_comment_step, parse_quoted_step,
  parse_unquoted_step, handle_sep_step, handle_newline_step, store, c_string,
}
use fast_dcs.Config.File.Written.{AllWritable, file_of, added, first_value}
use fast_dcs.Config.File.Chunks.{config_parse_chunks, config_parse_ends}
use fast_dcs.Config.File.Ends.{
  Gives, config_parse_written, unfinished_line_lost, long_word_overruns,
}
use fast_dcs.Config.Iterate.{list_config, config_reset, config_iterate}
use fast_dcs.Config.Settings.{
  SystemSettings, loaded, outcome, read_settings, load_config, load_table, size_setting,
  settings_of,
}
use fast_dcs.Config.Settings.Loading.{load_config_written, load_config_bounds}

abbrev zeros : ℕ → Text
zeros n = replicate n 0

abbrev two_pairs : List (Text × Text)
two_pairs = (codes "run_by_daemon", codes "true") ∷ (codes "pid_file", codes "a b") ∷ []

abbrev long_word : Text
long_word = codes "abcdefghijklmnopqrstuvwxyz012345"

two_pairs-AllWritable : AllWritable two_pairs
unfolding is_space
two_pairs-AllWritable = (
  (refl, omega arith, omega arith, refl, omega arith),
  ((refl, omega arith, omega arith, refl, omega arith), tt),
)

-- A comment, a key without quotes, a second `=` on a line, and a line without a key.
small_file :
    config_parse list_tree zeros (some (whole (codes "# c\na = b\nc = d = e\n= f\na = g\n" ∷ [])))
    ≡ parsed 0
        ((codes "a", codes "b") ∷ (codes "d", codes "e") ∷ [])
        (missing_key 4 ∷ duplicate_key (codes "a") 5 ∷ [])
unfolding config_parse parse_chunk take_char parse_initial_step parse_comment_step parse_quoted_step
    parse_unquoted_step handle_sep_step handle_newline_step store c_string Maps.find Maps.insert
    Maps.lex
small_file = refl

config_parse_chunks_example :
    config_parse list_tree zeros (some (whole (codes "a =" ∷ codes " b\n" ∷ [])))
    ≡ config_parse list_tree zeros (some (whole (codes "a = b\n" ∷ [])))
config_parse_chunks_example = config_parse_chunks list_tree zeros (codes "a =" ∷ codes " b\n" ∷ [])

-- A directory.
config_parse_ends_example :
    let read = config_parse list_tree zeros (some (whole [])) in
    let failed = config_parse list_tree zeros (some (broken [])) in
    (read ≢ hangs)
    × (((read ≡ crashed) × (failed ≡ crashed)) ⊎ ((read ≢ crashed) × (failed ≡ hangs)))
config_parse_ends_example = config_parse_ends list_tree zeros []

config_parse_written_example :
    (messages : List Message) × (config_parse list_tree zeros
        (some (whole (file_of two_pairs ∷ [])))
      ≡ parsed 0 (added list_tree zeros two_pairs []) messages)
    × (config_get list_tree zeros (added list_tree zeros two_pairs []) (codes "pid_file")
        ≡ some (codes "a b"))
unfolding eq
config_parse_written_example =
    config_parse_written list_tree zeros two_pairs (file_of two_pairs ∷ []) (codes "pid_file")
      two_pairs-AllWritable refl refl

unfinished_line_lost_example :
    (config_parse list_tree zeros (some (whole (file_of two_pairs ∷ codes "c = d" ∷ []))) ≡ crashed)
    ⊎ Gives list_tree zeros
        (file_of two_pairs ∷ codes "c = d" ∷ [])
        (added list_tree zeros two_pairs [])
unfinished_line_lost_example =
    unfinished_line_lost list_tree zeros two_pairs (codes "c = d")
      (file_of two_pairs ∷ codes "c = d" ∷ []) two_pairs-AllWritable refl (omega arith) refl

long_word_overruns_example :
    config_parse list_tree zeros
      (some (whole ((file_of two_pairs ++ (long_word ++ codes " = 1\n")) ∷ [])))
    ≡ crashed
unfolding is_space
long_word_overruns_example =
    long_word_overruns list_tree zeros two_pairs long_word (codes "= 1\n") 32
      ((file_of two_pairs ++ (long_word ++ codes " = 1\n")) ∷ []) two_pairs-AllWritable refl refl
      refl refl

load_config_written_example :
    load_config list_tree zeros (2 ^ 31) (codes "f") (some (whole (file_of two_pairs ∷ [])))
    ≡ outcome
        (read_settings (2 ^ 31) (codes "f") (λ key. first_value key two_pairs))
        (added list_tree zeros two_pairs [])
load_config_written_example =
    load_config_written list_tree zeros (2 ^ 31) (codes "f") two_pairs (file_of two_pairs ∷ []) refl
      two_pairs-AllWritable refl refl

abbrev sized_table : List (Text × Text)
sized_table =
    (codes "max_core_file", codes "no")
    ∷ (codes "run_by_daemon", codes "true")
    ∷ (codes "socket_buff_size", codes "4K")
    ∷ []

abbrev sized_settings : SystemSettings
sized_settings =
    settings_of (2 ^ 31) (codes "f") (config_get list_tree zeros sized_table) true false
      (pos (10 * 1024 * 1024)) (pos 4096)

sized_load :
    load_config list_tree zeros
      (2 ^ 31)
      (codes "f")
      (some (whole (codes "run_by_daemon=true\nmax_core_file=no\nsocket_buff_size=4K\n" ∷ [])))
    ≡ loaded sized_settings sized_table
unfolding load_config config_parse parse_chunk take_char parse_initial_step parse_comment_step
    parse_quoted_step parse_unquoted_step handle_sep_step handle_newline_step store c_string
    Maps.find Maps.insert Maps.lex load_table list_config config_iterate config_reset read_settings
    size_setting parse_bytes eq
sized_load = refl

load_config_bounds_example :
    (pos (8 * 1024) ≤ℤ sized_settings.socket_buff_size)
    × (sized_settings.socket_buff_size ≤ℤ pos (512 * 1024))
load_config_bounds_example =
    load_config_bounds list_tree zeros (2 ^ 31) (codes "f")
      (some (whole (codes "run_by_daemon=true\nmax_core_file=no\nsocket_buff_size=4K\n" ∷ [])))
      sized_settings sized_table sized_load
