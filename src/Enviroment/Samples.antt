-- ===== src/Enviroment/Samples.antt =====
-- A table of three tasks: two that are idle at time 100 and one that is leased until 500.
use fast_dcs.Common.{refl, [], ◌∷◌}
use fast_dcs.Common.Int.{ℤ, pos, negsuc}
use fast_dcs.Common.Texts.{Text, codes}
use fast_dcs.Common.Maps.{text_ord, lex}
use fast_dcs.Messages.{FdcsTask, Settings}
use fast_dcs.Enviroment.{Enviroment}
use fast_dcs.Enviroment.Inv.{IsValid}

abbrev pub some_settings : Settings
some_settings = record {
  tracker_group = codes "10.0.0.1:32301;10.0.0.2:32301;10.0.0.3:32301";
  tracker_server = codes "10.0.0.2:32301";
  network_timeout = 30;
  preload_tasks = 100;
  lease_timeout = 10;
  task_duplicate = 1;
}

abbrev pub task_of : Text → ℤ → FdcsTask
task_of id time = record { task_id = id; lease_time = time; key_values_pairs = [] }

abbrev pub three_tasks : Enviroment
three_tasks = record {
  settings = some_settings;
  fdcs_time_differ = negsuc 4;
  completed_tasks = [];
  tasks =
      (codes "a", task_of (codes "a") (pos 500))
      ∷ (codes "b", task_of (codes "b") (pos 0))
      ∷ (codes "c", task_of (codes "c") (pos 90))
      ∷ [];
}

pub three_tasks-IsValid : IsValid three_tasks
unfolding lex
three_tasks-IsValid = record {
  sorted = ((refl, (refl, tt)), ((refl, tt), (tt, tt)));
  named = (refl, (refl, (refl, tt)));
}
