-- ===== src/Config/Settings/Loading.antt =====
-- What `LoadConfig` of src/server/tracker_main.cc makes of a written configuration.
use mathlib.Core.Path.{fun_ext}
use fast_dcs.Common.{
  ℕ, ◌*◌, ◌≡◌, refl, ap, ◌⊎◌, ◌∙◌, Bool, true, false, Option, none, some, List, [], arith, length,
  if◌then◌else◌, ◌==◌,
}
use fast_dcs.Common.Int.{ℤ, pos, ◌≤ℤ◌}
use fast_dcs.Common.Texts.{Text, codes, is_empty}
use fast_dcs.Config.Tree.{Tree}
use fast_dcs.Config.File.{config_get, config_parse, Reading, whole, Parsed, parsed, crashed, hangs}
use fast_dcs.Config.File.Written.{AllWritable, file_of, added, first_value, find-added}
use fast_dcs.Config.File.Chunks.{concat}
use fast_dcs.Config.File.Ends.{config_parse_written}
use fast_dcs.Config.Iterate.{list_config-config_reset}
use fast_dcs.Config.Settings.{
  SystemSettings, Loaded, outcome, loaded, not_loaded, ends, loops, in_range, settings_of,
  read_settings, load_table, load_config,
}

in_range_bounds :
    (size : ℤ) → (pos (8 * 1024) ≤ℤ in_range size) × (in_range size ≤ℤ pos (512 * 1024))
unfolding in_range
in_range_bounds size = ground arith

settings_of_bounds :
    (long_max : ℕ) (name : Text) (get : Text → Option Text) (d c : Bool) (l b : ℤ)
    (s : SystemSettings)
    → settings_of long_max name get d c l b ≡ s
    → (pos (8 * 1024) ≤ℤ s.socket_buff_size) × (s.socket_buff_size ≤ℤ pos (512 * 1024))
unfolding settings_of
settings_of_bounds long_max name get d c l b s h = ground (arith, in_range_bounds b)

read_settings_bounds :
    (long_max : ℕ) (name : Text) (get : Text → Option Text) (s : SystemSettings)
    → read_settings long_max name get ≡ some s
    → (pos (8 * 1024) ≤ℤ s.socket_buff_size) × (s.socket_buff_size ≤ℤ pos (512 * 1024))
unfolding read_settings
read_settings_bounds long_max name get s h = ground arith

-- Without one of the two flags the process ends.
missing_flag :
    (long_max : ℕ) (name : Text) (get : Text → Option Text)
    → (get (codes "run_by_daemon") ≡ none) ⊎ (get (codes "max_core_file") ≡ none)
    → read_settings long_max name get ≡ none
unfolding read_settings
missing_flag long_max name get h = ground arith

module _ (tree : Tree) (fresh : ℕ → Text) (long_max : ℕ) where
  open tree use {Table, create, find, items}

  get_written :
      (pairs : List (Text × Text))
      → config_get tree fresh (added tree fresh pairs create) ≡ (λ key. first_value key pairs)
  get_written pairs =
      fun_ext (λ key. find-added tree fresh key pairs create ∙ rw (tree.find-create key))

  load_table_written :
      (name : Text) (pairs : List (Text × Text))
      → load_table tree fresh long_max name (added tree fresh pairs create)
        ≡ outcome
            (read_settings long_max name (λ key. first_value key pairs))
            (items (added tree fresh pairs create))
  unfolding load_table
  load_table_written name pairs = λ i. outcome (read_settings long_max name (get_written pairs i)) (
      list_config-config_reset tree
        (record { table = added tree fresh pairs create; traverser = none; iterating = false }) i)

  -- `LoadConfig` of a file of written lines takes each setting from the first pair with its key, as it would from
  -- the pairs themselves, and prints each pair of the table.
  pub load_config_written :
      (name : Text) (pairs : List (Text × Text)) (chunks : List Text)
      → is_empty name ≡ false
      → AllWritable pairs
      → length (fresh 32) ≡ 32
      → concat chunks ≡ file_of pairs
      → load_config tree fresh long_max name (some (whole chunks))
        ≡ outcome
            (read_settings long_max name (λ key. first_value key pairs))
            (items (added tree fresh pairs create))
  unfolding load_config
  load_config_written name pairs chunks n w l e =
      let (messages, parse, _) = config_parse_written tree fresh pairs chunks [] w l e in
      rw (n, parse, load_config) (load_table_written name pairs)

  -- A configuration without the key `run_by_daemon`, or without `max_core_file`, ends the process in `LoadConfig`.
  pub missing_flag_ends :
      (name : Text) (pairs : List (Text × Text)) (chunks : List Text)
      → is_empty name ≡ false
      → AllWritable pairs
      → length (fresh 32) ≡ 32
      → concat chunks ≡ file_of pairs
      → (first_value (codes "run_by_daemon") pairs ≡ none)
        ⊎ (first_value (codes "max_core_file") pairs ≡ none)
      → load_config tree fresh long_max name (some (whole chunks)) ≡ ends
  missing_flag_ends name pairs chunks n w l e h =
      load_config_written name pairs chunks n w l e
      ∙ ap (λ s. outcome s (items (added tree fresh pairs create)))
          (missing_flag long_max name (λ key. first_value key pairs) h)

  outcome_bounds :
      (o : Option SystemSettings) (pairs printed : List (Text × Text)) (s : SystemSettings)
      → ((t : SystemSettings)
          → o ≡ some t
          → (pos (8 * 1024) ≤ℤ t.socket_buff_size) × (t.socket_buff_size ≤ℤ pos (512 * 1024)))
      → outcome o pairs ≡ loaded s printed
      → (pos (8 * 1024) ≤ℤ s.socket_buff_size) × (s.socket_buff_size ≤ℤ pos (512 * 1024))
  outcome_bounds none pairs printed s k h = cc
  outcome_bounds (some t) pairs printed s k h = ground (arith, k t refl)

  load_table_bounds :
      (name : Text) (table : Table) (s : SystemSettings) (printed : List (Text × Text))
      → load_table tree fresh long_max name table ≡ loaded s printed
      → (pos (8 * 1024) ≤ℤ s.socket_buff_size) × (s.socket_buff_size ≤ℤ pos (512 * 1024))
  unfolding load_table
  load_table_bounds name table s printed h =
      outcome_bounds (read_settings long_max name (config_get tree fresh table)) _ printed s
        (read_settings_bounds long_max name (config_get tree fresh table)) h

  -- The size of the socket's buffer that `LoadConfig` sets lies between 8 KB and 512 KB, whatever file it reads.
  pub load_config_bounds :
      (name : Text) (file : Option Reading) (s : SystemSettings) (printed : List (Text × Text))
      → load_config tree fresh long_max name file ≡ loaded s printed
      → (pos (8 * 1024) ≤ℤ s.socket_buff_size) × (s.socket_buff_size ≤ℤ pos (512 * 1024))
  unfolding load_config
  load_config_bounds name file s printed h = go (is_empty name) (config_parse tree fresh file) h
    where
      go :
          (b : Bool) (r : Parsed Table)
          → (if b then not_loaded else elim r as (λ x. Loaded) [
            | parsed code table messages ↦
                if code == 0 then load_table tree fresh long_max name table else ends
            | crashed ↦ ends
            | hangs ↦ loops
          ])
            ≡ loaded s printed
          → (pos (8 * 1024) ≤ℤ s.socket_buff_size) × (s.socket_buff_size ≤ℤ pos (512 * 1024))
      go true r e = cc
      go false crashed e = cc
      go false hangs e = cc
      go false (parsed code table messages) e =
          ground (arith, load_table_bounds name table s printed)
