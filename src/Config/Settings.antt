-- ===== src/Config/Settings.antt =====
-- `LoadConfig` of src/server/tracker_main.cc and `settings_s` of src/base/common_define.h: the settings of a
-- server from its configuration.
pub mod Loading
use fast_dcs.Common.{
  ℕ, suc, ◌*◌, ◌^◌, Bool, true, false, ◌||◌, Option, none, some, List, [], ◌∷◌, ◌==◌, if◌then◌else◌,
  length,
}
use fast_dcs.Common.Int.{ℤ, pos, negsuc, ltb_ℤ}
use fast_dcs.Common.Texts.{Text, codes, eq, is_empty}
use fast_dcs.Strings.Codec.{read_signed, to_int32}
use fast_dcs.Strings.Helpers.{parse_bytes}
use fast_dcs.Config.Tree.{Tree}
use fast_dcs.Config.File.{config_get, config_parse, Reading, Parsed, parsed, crashed, hangs}
use fast_dcs.Config.Iterate.{list_config, config_reset}

-- `settings_s`; a text that is not configured is a null pointer.
pub record SystemSettings : Type 0 where
  pub config_file : Text
  pub run_as_daemon : Bool
  pub max_core_file : Bool
  pub info_log : Option Text
  pub warn_log : Option Text
  pub err_log : Option Text
  pub run_by_user : Option Text
  pub pid_file : Option Text
  pub class_factory : Option Text
  pub tracker_group : Option Text
  pub tracker_server : Option Text
  pub mysql_database : Option Text
  pub mysql_host : Option Text
  pub mysql_user : Option Text
  pub mysql_passwd : Option Text
  pub max_connections : ℤ
  pub socket_buff_size : ℤ
  pub log_max_size : ℤ
  pub computing_threads : ℤ
  pub preload_tasks : ℤ
  pub task_duplicate : ℤ
  pub connect_timeout : ℤ
  pub network_timeout : ℤ
  pub heart_beat_interval : ℤ
  pub stat_report_interval : ℤ
  pub lease_timeout : ℤ
  pub mysql_port : ℤ

-- `LoadConfig` returns true with the settings and the pairs that it has printed, returns false, or ends the process
-- by a failed CHECK, by a `std::string` of a null pointer, or in the parser, or never returns from it.
pub data Loaded : Type 0 where
  loaded : SystemSettings → List (Text × Text) → Loaded
  not_loaded ends loops : Loaded

-- `atoi`, by way of `strtol` with a `long` up to `long_max`.
unfoldable pub atoi : ℕ → Text → ℤ
unfolding read_signed to_int32
atoi long_max s = elim (read_signed long_max s) [ some n ↦ to_int32 n | none ↦ pos 0 ]

-- A number of the configuration, or its default.
unfoldable pub int_setting : ℕ → Option Text → ℤ → ℤ
unfolding atoi
int_setting long_max none default_value = default_value
int_setting long_max (some s) default_value = atoi long_max s

-- A size, or its default; `none` is a failed CHECK.
unfoldable pub size_setting : ℕ → Option Text → ℕ → Option ℤ
unfolding parse_bytes
size_setting long_max none default_value = some (pos default_value)
size_setting long_max (some s) default_value = parse_bytes long_max s default_value

-- A size of the socket's buffer out of range is the default one.
unfoldable pub in_range : ℤ → ℤ
in_range size =
    if ltb_ℤ size (pos (8 * 1024)) || ltb_ℤ (pos (512 * 1024)) size then pos (64 * 1024) else size

-- The settings, where the configuration has the two flags and the sizes are read.
unfoldable pub settings_of : ℕ → Text → (Text → Option Text) → Bool → Bool → ℤ → ℤ → SystemSettings
unfolding int_setting in_range
settings_of long_max config_file get daemon core log_size buff_size = record {
  config_file = config_file;
  run_as_daemon = daemon;
  max_core_file = core;
  info_log = get (codes "info_log");
  warn_log = get (codes "warn_log");
  err_log = get (codes "err_log");
  run_by_user = get (codes "run_by_user");
  pid_file = get (codes "pid_file");
  class_factory = get (codes "class_factory");
  tracker_group = get (codes "tracker_group");
  tracker_server = get (codes "tracker_server");
  mysql_database = get (codes "mysql_database");
  mysql_host = get (codes "mysql_host");
  mysql_user = get (codes "mysql_user");
  mysql_passwd = get (codes "mysql_passwd");
  max_connections = int_setting long_max (get (codes "max_connections")) (pos 256);
  socket_buff_size = in_range buff_size;
  log_max_size = log_size;
  computing_threads = int_setting long_max (get (codes "computing_threads")) (pos 1);
  preload_tasks = int_setting long_max (get (codes "preload_tasks")) (pos 100);
  task_duplicate = int_setting long_max (get (codes "task_duplicate")) (pos 10);
  connect_timeout = int_setting long_max (get (codes "connect_timeout")) (pos 30);
  network_timeout = int_setting long_max (get (codes "network_timeout")) (pos 30);
  heart_beat_interval = int_setting long_max (get (codes "heart_beat_interval")) (pos 30);
  stat_report_interval = int_setting long_max (get (codes "stat_report_interval")) (pos 30);
  lease_timeout = int_setting long_max (get (codes "lease_timeout")) (pos 10);
  mysql_port = int_setting long_max (get (codes "mysql_port")) (pos 3306);
}

-- The settings that were read, or the end of the process.
abbrev pub outcome : Option SystemSettings → List (Text × Text) → Loaded
outcome (some settings) pairs = loaded settings pairs
outcome none pairs = ends

infixl 5 ◌>>=◌
abbrev ◌>>=◌ : {A B : Type 0} → Option A → (A → Option B) → Option B
some a >>= f = f a
none >>= f = none

-- The settings from the values of the keys; `none` ends the process.
unfoldable pub read_settings : ℕ → Text → (Text → Option Text) → Option SystemSettings
unfolding settings_of
read_settings long_max config_file get = do
  daemon ← get (codes "run_by_daemon")
  core ← get (codes "max_core_file")
  log_size ← size_setting long_max (get (codes "log_max_size")) (10 * 1024 * 1024)
  buff_size ← size_setting long_max (get (codes "socket_buff_size")) (64 * 1024)
  some (
      settings_of long_max config_file get (eq daemon (codes "true")) (eq core (codes "true"))
        log_size buff_size)

module _ (tree : Tree) (fresh : ℕ → Text) (long_max : ℕ) where
  open tree use {Table, items}

  -- What `LoadConfig` does with the table: it prints the pairs, and takes the settings.
  unfoldable pub load_table : Text → Table → Loaded
  load_table config_file table =
      let pairs =
        list_config tree (suc (length (items table)))
          (config_reset tree (record { table = table; traverser = none; iterating = false })) in
      outcome (read_settings long_max config_file (config_get tree fresh table)) pairs

  -- `LoadConfig`, on the file with this name, if it opens.
  unfoldable pub load_config : Text → Option Reading → Loaded
  unfolding load_table
  load_config config_file file =
      if is_empty config_file then not_loaded else elim (config_parse tree fresh file) [
        | parsed code table messages ↦ if code == 0 then load_table config_file table else ends
        | crashed ↦ ends
        | hangs ↦ loops
      ]
