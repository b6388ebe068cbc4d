-- ===== src/Master/Tests.antt =====
-- The theorems on a master, at inputs that meet their hypotheses.
use mathlib.Core.Option
use fast_dcs.Common.{◌≡◌, ◌≢◌, refl, true, false, none, some, [], ◌∷◌, ◌++◌, ◌⊎◌, inl, arith}
use fast_dcs.Common.Int.{ℤ, pos, ◌-ℤ◌, ◌+ℤ◌}
use fast_dcs.Common.Texts.{Text, codes, eq, contains}
use fast_dcs.Common.Maps.{find, fd_ord, text_ord}
use fast_dcs.Messages.{
  TrackerProtocol, worker_request_task, master_group_changed, election, coordinator,
  keyvaluepairs_task,
}
use fast_dcs.Enviroment.{fdcs_time, lease_until, find_task, is_idle, idle_tasks_size, lease_loop}
use fast_dcs.Enviroment.Leases.{idle_tasks}
use fast_dcs.Enviroment.Moves.{Has}
use fast_dcs.Enviroment.Samples.{three_tasks, three_tasks-IsValid, task_of}
use fast_dcs.Strings.Codec.{key_to_int32, int32_to_key}
use fast_dcs.Strings.Split.{skip, split_string_using}
use fast_dcs.Protofile.{tasks_of, write_tasks}
use fast_dcs.Tracker.State.{
  Tracker, own, is_no_fd, ok, aborts, ◌>>◌, pure, i_am_primary_master, i_know_primary_master,
}
use fast_dcs.Tracker.Sockets.{connect_master, send_protocol}
use fast_dcs.Tracker.Masters.{find_next_master}
use fast_dcs.Tracker.Frame.{Kept}
use fast_dcs.Tracker.Samples.{
  first_master, second_master, third_master, no_network, network, second_server, primary_server,
  second_server-group, second_server-Distinct, request,
}
use fast_dcs.Master.Tasks.{tasks_pair, complete_one, get_idle_task_call}
use fast_dcs.Master.Tasks.Leasing.{get_idle_task_call_lem, requests_exclusive}
use fast_dcs.Master.Tasks.Results.{complete_one_lem}
use fast_dcs.Master.Circle.{closed_circle, only_one_master}
use fast_dcs.Master.Process.{
  process_election, process_coordinator, master_protocol_process, master_heart_beat,
}
use fast_dcs.Master.Process.Elect.{announcement, process_election_lem}
use fast_dcs.Master.Process.Alone.{alone_becomes_primary}
use fast_dcs.Master.Process.Frame.{master_protocol_process-Kept}
use fast_dcs.Master.Process.Secondary.{announced_primary_aborts}

abbrev asked : TrackerProtocol
asked = request worker_request_task

asked_for_one : key_to_int32 asked.request_args ≡ some (pos 1)
unfolding key_to_int32
asked_for_one = refl

-- The answer with one task, and the table with the leases that two such answers make.
abbrev answer : Text → TrackerProtocol
answer id = record asked {
  key_values_pairs = tasks_pair keyvaluepairs_task (task_of id (pos 0) ∷ []) ∷ [];
}

abbrev leased_at : ℤ → ℤ → Tracker
leased_at b c = record primary_server {
  fdcs_env = record three_tasks {
    tasks =
        (codes "a", task_of (codes "a") (pos 500))
        ∷ (codes "b", task_of (codes "b") b)
        ∷ (codes "c", task_of (codes "c") c)
        ∷ [];
  };
}

get_idle_task_call_lem_example :
    get_idle_task_call no_network asked primary_server
    ≡ ok (answer (codes "b"), true) (leased_at (pos 110) (pos 90))
unfolding lease_loop fdcs_time lease_until ◌+ℤ◌ idle_tasks_size idle_tasks
get_idle_task_call_lem_example =
    get_idle_task_call_lem no_network asked primary_server (pos 1) asked_for_one refl

first_answer :
    get_idle_task_call no_network asked primary_server
    ≡ ok (answer (codes "b"), true) (leased_at (pos 110) (pos 90))
unfolding get_idle_task_call key_to_int32 i_am_primary_master ◌+ℤ◌ ◌-ℤ◌
first_answer = refl

second_answer :
    get_idle_task_call (network (λ a. none) (pos 107)) asked (leased_at (pos 110) (pos 90))
    ≡ ok (answer (codes "c"), true) (leased_at (pos 110) (pos 112))
unfolding get_idle_task_call key_to_int32 i_am_primary_master ◌+ℤ◌ ◌-ℤ◌
second_answer = refl

requests_exclusive_example :
    ¬ Has (codes "b") (tasks_of keyvaluepairs_task (answer (codes "c")).key_values_pairs)
unfolding fdcs_time lease_until ◌+ℤ◌ tasks_of eq write_tasks
requests_exclusive_example =
    requests_exclusive no_network (network (λ a. none) (pos 107)) primary_server
      (leased_at (pos 110) (pos 90)) (leased_at (pos 110) (pos 112)) asked (answer (codes "b"))
      asked (answer (codes "c")) true true (pos 1) (pos 1) (codes "b") three_tasks-IsValid
      asked_for_one asked_for_one refl refl first_answer second_answer (omega arith) (inl refl)

complete_one_lem_example :
    let t = task_of (codes "a") (pos 9) in
    let env' = complete_one (λ u. u) (pos 105) t three_tasks in
    let lease_over =
      Option.map (is_idle (fdcs_time three_tasks (pos 105))) (find_task three_tasks (codes "a")) in
    (((lease_over ≢ some false) × (env' ≡ three_tasks))
      ⊎ ((lease_over ≡ some false)
          × (find_task env' (codes "a") ≡ none)
          × (env'.completed_tasks ≡ [] ++ task_of (codes "a") (pos 0) ∷ [])))
    × (find_task env' (codes "b") ≡ find_task three_tasks (codes "b"))
complete_one_lem_example =
    complete_one_lem (λ u. u) (pos 105) (task_of (codes "a") (pos 9)) three_tasks (codes "b")
      (ground arith)

abbrev elect : TrackerProtocol
elect = record (request election) {
  request_sock_addr = second_master;
  response_sock_addr = first_master;
}

elect_closes : closed_circle second_server elect ≡ true
unfolding closed_circle eq
elect_closes = refl

-- The server with a connection to the next master.
abbrev linked_server : Tracker
linked_server = record second_server { master_sockets = (third_master, pos 6) ∷ [] }

linked_next : find_next_master no_network linked_server ≡ ok (pos 6) linked_server
unfolding find_next_master connect_master contains find fast_dcs.Tracker.Masters.group skip eq
    fast_dcs.Tracker.Masters.next_in fast_dcs.Common.Maps.lex fast_dcs.Tracker.State.socket_of
linked_next = refl

-- The third master has not been passed, so the second one wins.
process_election_lem_example :
    let sent = announcement no_network second_master (codes "0000000100") linked_server in
    ((is_no_fd (pos 6) ≡ true)
      × (process_election no_network elect linked_server ≡ ok true (only_one_master linked_server))
      × ((only_one_master linked_server).primary_sockaddr ≡ own linked_server))
    ⊎ ((is_no_fd (pos 6) ≡ false)
        × (process_election no_network elect linked_server
            ≡ (send_protocol no_network sent (pos 6) >> pure true) linked_server)
        × ((v : Tracker) × (process_coordinator no_network
                (record sent { response_sock_addr = [] })
                linked_server
              ≡ ok true v)
            × (v.primary_sockaddr ≡ second_master)))
unfolding contains fdcs_time ◌+ℤ◌ int32_to_key split_string_using closed_circle
    fast_dcs.Tracker.Masters.group fast_dcs.Strings.Codec.padded skip
process_election_lem_example =
    process_election_lem no_network no_network elect linked_server linked_server linked_server
      second_master (codes "0000000100") [] (pos 6) (first_master ∷ []) (third_master ∷ [])
      elect_closes second_server-group refl (refl, tt) linked_next refl refl refl refl

alone_becomes_primary_example :
    (master_heart_beat no_network second_server ≡ ok true (only_one_master second_server))
    × (i_am_primary_master (only_one_master second_server) ≡ true)
unfolding skip find split_string_using
alone_becomes_primary_example =
    alone_becomes_primary no_network second_server (first_master ∷ []) (third_master ∷ [])
      second_server-group second_server-Distinct
      (
        record { closed = refl; refused = refl; host_port = refl },
        (record { closed = refl; refused = refl; host_port = refl }, tt),
      )
      refl refl (ground arith)

master_protocol_process-Kept_example :
    Kept second_server
      (master_protocol_process no_network (pos 4) (request master_group_changed) second_server)
master_protocol_process-Kept_example =
    master_protocol_process-Kept no_network (pos 4) (request master_group_changed) second_server
      refl

-- The second master's announcement of the first one, back at the second, which has no connection to it.
abbrev returned : TrackerProtocol
returned = record (request coordinator) {
  request_sock_addr = second_master;
  response_result = first_master;
}

abbrev no_tasks : Tracker
no_tasks = record second_server { fdcs_env = record three_tasks { tasks = [] } }

announced_primary_aborts_example :
    (process_coordinator no_network returned >> master_heart_beat no_network) no_tasks ≡ aborts
unfolding closed_circle eq skip idle_tasks_size find split_string_using
announced_primary_aborts_example =
    announced_primary_aborts no_network no_network returned no_tasks refl refl refl refl refl refl
