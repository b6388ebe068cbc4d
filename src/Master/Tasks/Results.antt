-- ===== src/Master/Tasks/Results.antt =====
-- The results that workers report to a master.
use fast_dcs.Common.{◌≡◌, ◌≢◌, false, none, some, List, [], ◌∷◌, ◌++◌, ◌⊎◌, arith}
use mathlib.Core.Option
use fast_dcs.Common.Int.{ℤ}
use fast_dcs.Common.Texts.{Text}
use fast_dcs.Common.Maps.{
  text_ord, put, find-put_self, find-put_ne, put-Sorted, find-erase_self, find-erase_ne,
}
use fast_dcs.Messages.{FdcsTask}
use fast_dcs.Enviroment.{
  Enviroment, fdcs_time, find_task, is_idle, clear_lease_time, task_completed,
}
use fast_dcs.Enviroment.Inv.{IsValid, put-Named, task_completed-IsValid}
use fast_dcs.Master.Tasks.{complete_one, complete_loop}

complete_one-IsValid :
    (erased : FdcsTask → FdcsTask) (now : ℤ) (t : FdcsTask) (env : Enviroment)
    → IsValid env
    → IsValid (complete_one erased now t env)
unfolding complete_one
complete_one-IsValid erased now t env v = ground (
  arith,
  task_completed-IsValid erased
      (record env { tasks = put t.task_id (clear_lease_time t) env.tasks }) t.task_id
      (record {
        sorted = put-Sorted t.task_id (clear_lease_time t) env.tasks v.sorted;
        named = put-Named (clear_lease_time t) env.tasks v.named;
      }),
)

-- A list of results keeps the table valid.
pub complete_loop-IsValid :
    (erased : FdcsTask → FdcsTask) (now : ℤ) (ts : List FdcsTask) (env : Enviroment)
    → IsValid env
    → IsValid (complete_loop erased now ts env)
unfolding complete_loop
complete_loop-IsValid erased now [] env v = v
complete_loop-IsValid erased now (t ∷ ts) env v =
    complete_loop-IsValid erased now ts (complete_one erased now t env)
      (complete_one-IsValid erased now t env v)

-- A result counts exactly if its task is in the table with a lease that has not run out. Then
-- its task is out of the table, and what the erased entry gives for the result, whose lease time is cleared,
-- stands behind the completed tasks; otherwise nothing changes. A task of another id stays as it is.
pub complete_one_lem :
    (erased : FdcsTask → FdcsTask) (now : ℤ) (t : FdcsTask) (env : Enviroment) (other : Text)
    → t.task_id ≢ other
    → let env' = complete_one erased now t env in
      let lease_over = Option.map (is_idle (fdcs_time env now)) (find_task env t.task_id) in
      (((lease_over ≢ some false) × (env' ≡ env))
        ⊎ ((lease_over ≡ some false)
            × (find_task env' t.task_id ≡ none)
            × (env'.completed_tasks ≡ env.completed_tasks ++ erased (clear_lease_time t) ∷ [])))
      × (find_task env' other ≡ find_task env other)
unfolding complete_one find_task task_completed
complete_one_lem erased now t env other h = ground (
  arith,
  find-put_self t.task_id (clear_lease_time t) env.tasks,
  find-put_ne t.task_id other (clear_lease_time t) env.tasks h,
  find-erase_self t.task_id (put t.task_id (clear_lease_time t) env.tasks),
  find-erase_ne t.task_id other (put t.task_id (clear_lease_time t) env.tasks) h,
)

-- A result that has counted counts once: a later one for the same task, whatever it holds,
-- changes nothing.
pub complete_one_twice :
    (erased : FdcsTask → FdcsTask) (now later : ℤ) (t u : FdcsTask) (env : Enviroment)
    → t.task_id ≡ u.task_id
    → Option.map (is_idle (fdcs_time env now)) (find_task env t.task_id) ≡ some false
    → complete_one erased later u (complete_one erased now t env) ≡ complete_one erased now t env
unfolding complete_one find_task task_completed
complete_one_twice erased now later t u env e h = ground (
  arith,
  find-put_self t.task_id (clear_lease_time t) env.tasks,
  find-erase_self t.task_id (put t.task_id (clear_lease_time t) env.tasks),
)
