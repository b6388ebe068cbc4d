-- ===== src/Worker/Compute.antt =====
-- A round of a worker's computing thread.
use fast_dcs.Common.{suc, ◌≡◌, ◌≢◌, ap, ◌∙◌, subst, none, some, [], ◌∷◌, ◌++◌}
use mathlib.Core.Option
use fast_dcs.Common.Int.{ℤ}
use fast_dcs.Common.Texts.{Text}
use fast_dcs.Common.Maps.{text_ord, put, find-put_self, find-put_ne, put-Sorted}
use fast_dcs.Messages.{FdcsTask}
use fast_dcs.Enviroment.{
  Enviroment, tasks_size, fdcs_time, lease_until, find_task, set_lease_time, get_idle_task,
  task_completed,
}
use fast_dcs.Enviroment.Leases.{idle_tasks, first, get_idle_task_lem}
use fast_dcs.Enviroment.Inv.{Named, IsValid, put-Named, get_idle_task-IsValid}
use fast_dcs.Enviroment.Moves.{task_completed_lem}
use fast_dcs.Worker.{computing_round}

-- A round of the computing thread on a valid table with an idle task completes the first one,
-- where the user's function keeps the ids of tasks: its entry is out of the table, and what the erased entry
-- gives for the task that the function has made of it stands behind the completed ones. A task of another id stays as
-- the lease leaves it.
pub computing_round_lem :
    (erased : FdcsTask → FdcsTask) (now : ℤ) (compute : FdcsTask → FdcsTask) (env : Enviroment)
    (t : FdcsTask) (other : Text)
    → IsValid env
    → first (idle_tasks (fdcs_time env now) env.tasks) ≡ some t
    → ((u : FdcsTask) → (compute u).task_id ≡ u.task_id)
    → t.task_id ≢ other
    → let env' = computing_round erased now compute env in
      (find_task env' t.task_id ≡ none)
      × (find_task env' other ≡ find_task (get_idle_task env now).0 other)
      × (env'.completed_tasks
          ≡ env.completed_tasks ++ erased (compute (set_lease_time (lease_until env now) t)) ∷ [])
unfolding computing_round
computing_round_lem erased now compute env t other v e keeps h =
    rw round (done.0, done.1 ∙ found_other, done.2)
  where
    u : FdcsTask
    u = set_lease_time (lease_until env now) t

    found : (get_idle_task env now).1 ≡ some u
    found = (get_idle_task_lem env now).0 ∙ ap (Option.map (set_lease_time (lease_until env now))) e

    v' : IsValid (get_idle_task env now).0
    v' = get_idle_task-IsValid env now v

    computed : Enviroment
    computed = record (get_idle_task env now).0 {
      tasks = put t.task_id (compute u) (get_idle_task env now).0.tasks;
    }

    valid : IsValid computed
    valid = record {
      sorted = put-Sorted t.task_id (compute u) (get_idle_task env now).0.tasks v'.sorted;
      named =
          subst (λ k. Named (put k (compute u) (get_idle_task env now).0.tasks)) (keeps u)
            (put-Named (compute u) (get_idle_task env now).0.tasks v'.named);
    }

    done :
        (find_task (task_completed erased computed t.task_id) t.task_id ≡ none)
        × (find_task (task_completed erased computed t.task_id) other ≡ find_task computed other)
        × ((task_completed erased computed t.task_id).completed_tasks
            ≡ env.completed_tasks ++ erased (compute u) ∷ [])
        × (suc (tasks_size (task_completed erased computed t.task_id)) ≡ tasks_size computed)
    done =
        task_completed_lem erased computed t.task_id other (compute u) valid
          (unfold find_task in find-put_self t.task_id (compute u) (get_idle_task env now).0.tasks)
          h

    found_other : find_task computed other ≡ find_task (get_idle_task env now).0 other
    found_other =
        unfold find_task in
        find-put_ne t.task_id other (compute u) (get_idle_task env now).0.tasks h

    round : computing_round erased now compute env ≡ task_completed erased computed t.task_id
    round = rw (found, computing_round) (ap (task_completed erased computed) (keeps u))
