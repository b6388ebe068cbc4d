-- ===== src/Worker/Tests.antt =====
-- The theorems on a worker, at inputs that meet their hypotheses.
use fast_dcs.Common.{◌≡◌, refl, subst, inl, inr, true, false, none, [], ◌∷◌, arith}
use fast_dcs.Common.Int.{pos, ◌+ℤ◌, ◌-ℤ◌}
use fast_dcs.Common.Texts.{Text, codes}
use fast_dcs.Common.Maps.{find, lex, text_ord}
use fast_dcs.Messages.{FdcsTask, TrackerProtocol, worker_request_task, keyvaluepairs_task}
use fast_dcs.Enviroment.{
  fdcs_time, is_idle, clear_lease_time, lease_until, find_task, get_idle_task, lease_loop,
  update_tasks, tasks_size,
}
use fast_dcs.Enviroment.Leases.{idle_tasks}
use fast_dcs.Enviroment.Samples.{three_tasks, three_tasks-IsValid, task_of}
use fast_dcs.Strings.Codec.{key_to_int32}
use fast_dcs.Tracker.State.{Tracker, ok, i_am_primary_master}
use fast_dcs.Tracker.Samples.{no_network, primary_server, second_server, request}
use fast_dcs.Master.Tasks.{tasks_pair, complete_loop, task_completed_call, get_idle_task_call}
use fast_dcs.Worker.{task_request, save_new_task, computing_round}
use fast_dcs.Enviroment.Moves.{Has}
use fast_dcs.Master.Tasks.Counted.{IsLeased}
use fast_dcs.Worker.Reports.{task_completed_call-task_request, save_new_task-get_idle_task_call}
use fast_dcs.Worker.Compute.{computing_round_lem}

-- A worker with one completed task and no other.
abbrev done_worker : Tracker
done_worker = record second_server {
  is_master = false;
  fdcs_env = record three_tasks { completed_tasks = task_of (codes "a") (pos 0) ∷ []; tasks = [] };
}

a-IsLeased :
    (id : Text)
    → Has id (task_of (codes "a") (pos 0) ∷ [])
    → IsLeased (fdcs_time three_tasks (pos 105)) three_tasks id
unfolding find_task is_idle fdcs_time ◌+ℤ◌ find lex
a-IsLeased id (inl e) = subst (IsLeased (fdcs_time three_tasks (pos 105)) three_tasks) e refl
a-IsLeased id (inr h) = absurd h

task_completed_call-task_request_example :
    let completed = task_of (codes "a") (pos 0) ∷ [] in
    let env' = complete_loop (λ t. t) (pos 105) completed three_tasks in
    (task_completed_call no_network (task_request no_network [] done_worker) primary_server
      ≡ ok true (record primary_server { fdcs_env = env' }))
    × (env'.completed_tasks ≡ task_of (codes "a") (pos 0) ∷ [])
    × ((id : Text) → Has id completed → find_task env' id ≡ none)
    × ((id : Text) → ¬ Has id completed → find_task env' id ≡ find_task three_tasks id)
unfolding clear_lease_time
task_completed_call-task_request_example =
    task_completed_call-task_request no_network no_network [] done_worker primary_server
      ((λ h. h), tt) a-IsLeased

abbrev asked : TrackerProtocol
asked = request worker_request_task

abbrev answer : TrackerProtocol
answer = record asked {
  key_values_pairs = tasks_pair keyvaluepairs_task (task_of (codes "b") (pos 0) ∷ []) ∷ [];
}

abbrev leased_master : Tracker
leased_master = record primary_server {
  fdcs_env = record three_tasks {
    tasks =
        (codes "a", task_of (codes "a") (pos 500))
        ∷ (codes "b", task_of (codes "b") (pos 110))
        ∷ (codes "c", task_of (codes "c") (pos 90))
        ∷ [];
  };
}

answered : get_idle_task_call no_network asked primary_server ≡ ok (answer, true) leased_master
unfolding get_idle_task_call key_to_int32 i_am_primary_master ◌+ℤ◌ ◌-ℤ◌
answered = refl

save_new_task-get_idle_task_call_example :
    (leased_master.fdcs_env.tasks ≡ (lease_loop (pos 100) (pos 110) 1 three_tasks.tasks).0)
    × (save_new_task answer done_worker ≡ (
      record done_worker {
        fdcs_env = update_tasks done_worker.fdcs_env (task_of (codes "b") (pos 0) ∷ []);
      },
      true,
    ))
unfolding key_to_int32 fdcs_time lease_until ◌+ℤ◌ lease_loop tasks_size
save_new_task-get_idle_task_call_example =
    save_new_task-get_idle_task_call no_network asked answer primary_server leased_master
      done_worker true (pos 1) refl refl answered

-- The user's function writes one pair.
abbrev writes : FdcsTask → FdcsTask
writes t = record t { key_values_pairs = (codes "k", codes "v") ∷ [] }

computing_round_lem_example :
    let env' = computing_round (λ t. t) (pos 105) writes three_tasks in
    (find_task env' (codes "b") ≡ none)
    × (find_task env' (codes "c") ≡ find_task (get_idle_task three_tasks (pos 105)).0 (codes "c"))
    × (env'.completed_tasks ≡ writes (task_of (codes "b") (pos 110)) ∷ [])
unfolding idle_tasks fdcs_time lease_until ◌+ℤ◌
computing_round_lem_example =
    computing_round_lem (λ t. t) (pos 105) writes three_tasks (task_of (codes "b") (pos 0))
      (codes "c") three_tasks-IsValid refl (λ u. refl) (ground arith)
