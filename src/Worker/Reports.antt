-- ===== src/Worker/Reports.antt =====
-- What a worker reports and receives, at both ends.
use fast_dcs.Common.{
  ◌≡◌, refl, ap, Bool, true, false, ◌&&◌, none, some, ◌++◌, map, length, ltb, ◌==◌, if◌then◌else◌,
}
use fast_dcs.Common.Int.{ℤ, pos, ltb_ℤ}
use fast_dcs.Common.Texts.{Text}
use fast_dcs.Messages.{TrackerProtocol, keyvaluepairs_task_complete}
use fast_dcs.Enviroment.{fdcs_time, lease_until, lease_loop, find_task, tasks_size, update_tasks}
use fast_dcs.Protofile.{tasks_of, tasks_of-write_tasks}
use fast_dcs.Strings.Codec.{key_to_int32}
use fast_dcs.Tracker.State.{Tracker, World, ok, i_am_primary_master}
use fast_dcs.Master.Tasks.{complete_loop, task_completed_call, get_idle_task_call}
use fast_dcs.Master.Tasks.Counted.{DistinctIds, IsLeased, counted, complete_loop_lem}
use fast_dcs.Enviroment.Moves.{Has}
use fast_dcs.Master.Tasks.Leasing.{at_least_one, handed_out}
use fast_dcs.Worker.{task_request, save_new_task}

reported :
    (w : World) (args : Text) (s : Tracker)
    → tasks_of keyvaluepairs_task_complete (task_request w args s).key_values_pairs
      ≡ s.fdcs_env.completed_tasks
unfolding task_request
reported w args s = tasks_of-write_tasks keyvaluepairs_task_complete s.fdcs_env.completed_tasks

-- The request of a worker whose completed tasks have distinct ids and are all leased in the master's table: the
-- master answers false and changes nothing if there are none, and otherwise answers true; then all of them, in
-- the worker's order, stand behind the tasks that were completed before, each as what its erased entry gives,
-- the lease time cleared; none of them is in the table, and tasks of other ids stay as they were.
pub task_completed_call-task_request :
    (w w' : World) (args : Text) (worker master : Tracker)
    → DistinctIds worker.fdcs_env.completed_tasks
    → ((id : Text)
        → Has id worker.fdcs_env.completed_tasks
        → IsLeased (fdcs_time master.fdcs_env w.now) master.fdcs_env id)
    → let completed = worker.fdcs_env.completed_tasks in
      let env' = complete_loop w.erased w.now completed master.fdcs_env in
      (task_completed_call w (task_request w' args worker) master ≡ (
        if length completed == 0
        then ok false master
        else ok true (record master { fdcs_env = env' })))
      × (env'.completed_tasks ≡ master.fdcs_env.completed_tasks ++ map (counted w.erased) completed)
      × ((id : Text) → Has id completed → find_task env' id ≡ none)
      × ((id : Text) → ¬ Has id completed → find_task env' id ≡ find_task master.fdcs_env id)
unfolding task_completed_call
task_completed_call-task_request w w' args worker master d leased =
    let all =
      complete_loop_lem w.erased w.now worker.fdcs_env.completed_tasks master.fdcs_env d leased in
    (rw (reported w' args worker, task_completed_call) refl, all.0, all.1, all.2)

-- A worker without tasks that gets the answer of `GetIdleTask` replaces its table and its completed tasks
-- by just the tasks that the master has leased in this call, where there are any; a worker with tasks
-- changes nothing.
pub save_new_task-get_idle_task_call :
    (w : World) (proto out : TrackerProtocol) (master after worker : Tracker) (enough : Bool)
    (td : ℤ)
    → key_to_int32 proto.request_args ≡ some td
    → (ltb_ℤ (pos 0) proto.forwarding_sock_fd && i_am_primary_master master) ≡ false
    → get_idle_task_call w proto master ≡ ok (out, enough) after
    → let leased =
        lease_loop
          (fdcs_time master.fdcs_env w.now)
          (lease_until master.fdcs_env w.now)
          (at_least_one td)
          master.fdcs_env.tasks in
      ((after.fdcs_env.tasks ≡ leased.0)
        × (save_new_task out worker ≡ (
            if ltb 0 (tasks_size worker.fdcs_env) then (worker, false) else (
              if ltb 0 (length leased.1)
                  then record worker { fdcs_env = update_tasks worker.fdcs_env leased.1 }
                  else worker,
              true,
            ))))
unfolding save_new_task
save_new_task-get_idle_task_call w proto out master after worker enough td e g c =
    let h = handed_out w master after proto out enough td e g c in
    (ap (λ env. env.tasks) h.1, rw (h.0, save_new_task) refl)
