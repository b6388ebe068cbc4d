-- ===== src/Enviroment/Leases.antt =====
-- Which tasks `LeaseTasks` and `GetIdleTask` hand out.
use fast_dcs.Common.{
  ℕ, zero, suc, ◌+◌, ◌≡◌, refl, ap, false, Option, none, some, List, [], ◌∷◌, arith, if◌then◌else◌,
  length, map, take, drop, length-take, length-drop, length-map,
}
use mathlib.Core.Option
use fast_dcs.Common.Int.{ℤ, ◌≤ℤ◌, int_laws}
use fast_dcs.Messages.{FdcsTask}
use fast_dcs.Enviroment.{
  TaskMap, Enviroment, fdcs_time, is_idle, clear_lease_time, set_lease_time, lease_loop,
  lease_until, lease_tasks, count_idle, idle_tasks_size, get_idle_loop, get_idle_task,
}

-- The idle tasks of a table, in the order of their ids.
unfoldable pub idle_tasks : ℤ → TaskMap → List FdcsTask
idle_tasks time [] = []
idle_tasks time ((k, t) ∷ m) =
    let rest = idle_tasks time m in if is_idle time t then t ∷ rest else rest

-- A task that is leased to the end of a term is not idle before.
pub leased_not_idle :
    (time until : ℤ) (t : FdcsTask) → time ≤ℤ until → is_idle time (set_lease_time until t) ≡ false
leased_not_idle time until t h = ground arith

pub lease_loop-tasks :
    (time until : ℤ) (n : ℕ) (m : TaskMap)
    → (lease_loop time until n m).1 ≡ map clear_lease_time (take n (idle_tasks time m))
unfolding lease_loop idle_tasks
lease_loop-tasks time until zero [] = refl
lease_loop-tasks time until (suc n) [] = refl
lease_loop-tasks time until zero ((k, t) ∷ m) = ground (arith, lease_loop-tasks time until 0 m)
lease_loop-tasks time until (suc n) ((k, t) ∷ m) =
    ground (arith, lease_loop-tasks time until n m, lease_loop-tasks time until (suc n) m)

lease_loop-rest :
    (time until : ℤ) (n : ℕ) (m : TaskMap)
    → time ≤ℤ until
    → idle_tasks time (lease_loop time until n m).0 ≡ drop n (idle_tasks time m)
unfolding lease_loop idle_tasks
lease_loop-rest time until zero [] h = refl
lease_loop-rest time until (suc n) [] h = refl
lease_loop-rest time until zero ((k, t) ∷ m) h = ground (arith, lease_loop-rest time until 0 m h)
lease_loop-rest time until (suc n) ((k, t) ∷ m) h = ground (
  arith,
  leased_not_idle time until t h,
  lease_loop-rest time until n m h,
  lease_loop-rest time until (suc n) m h,
)

count_idle-length : (time : ℤ) (m : TaskMap) → count_idle time m ≡ length (idle_tasks time m)
unfolding count_idle idle_tasks
count_idle-length time [] = refl
count_idle-length time ((k, t) ∷ m) = ground (arith, count_idle-length time m)

lease_term : (env : Enviroment) (now : ℤ) → fdcs_time env now ≤ℤ lease_until env now
unfolding lease_until
lease_term env now = omega int_laws

-- `LeaseTasks` hands out the first `task_duplicate` idle tasks in the order of their ids, or all if
-- there are fewer, with no lease time; and the idle tasks that are left in the table at that time
-- are the others, so that two calls at one time hand out different tasks.
pub lease_tasks_lem :
    (env : Enviroment) (now : ℤ)
    → let time = fdcs_time env now in
      let n = env.settings.task_duplicate in
      ((lease_tasks env now).1 ≡ map clear_lease_time (take n (idle_tasks time env.tasks)))
      × (idle_tasks time (lease_tasks env now).0.tasks ≡ drop n (idle_tasks time env.tasks))
unfolding lease_tasks
lease_tasks_lem env now = (
  lease_loop-tasks _ _ env.settings.task_duplicate env.tasks,
  lease_loop-rest _ _ env.settings.task_duplicate env.tasks (lease_term env now),
)

-- The idle tasks that `IdleTasksSize` counts are those that `LeaseTasks` hands out and those that it
-- leaves.
pub idle_tasks_size-lease_tasks :
    (env : Enviroment) (now : ℤ)
    → idle_tasks_size (lease_tasks env now).0 now + length (lease_tasks env now).1
      ≡ idle_tasks_size env now
unfolding idle_tasks_size lease_tasks fdcs_time
idle_tasks_size-lease_tasks env now =
    let time = fdcs_time env now in
    let until = lease_until env now in
    let n = env.settings.task_duplicate in
    let idle = idle_tasks time env.tasks in
    omega (
      arith,
      count_idle-length time env.tasks,
      count_idle-length time (lease_loop time until n env.tasks).0,
      ap length (lease_loop-rest time until n env.tasks (lease_term env now)),
      ap length (lease_loop-tasks time until n env.tasks),
      length-map (take n idle) clear_lease_time,
      length-take n idle,
      length-drop n idle,
    )

-- The first task of a list, if there is one.
abbrev pub first : List FdcsTask → Option FdcsTask
first [] = none
first (t ∷ ts) = some t

get_idle_loop-task :
    (time until : ℤ) (m : TaskMap)
    → (get_idle_loop time until m).1 ≡ Option.map (set_lease_time until) (first (idle_tasks time m))
unfolding get_idle_loop idle_tasks
get_idle_loop-task time until [] = refl
get_idle_loop-task time until ((k, t) ∷ m) = ground (arith, get_idle_loop-task time until m)

get_idle_loop-rest :
    (time until : ℤ) (m : TaskMap)
    → time ≤ℤ until
    → idle_tasks time (get_idle_loop time until m).0 ≡ drop 1 (idle_tasks time m)
unfolding get_idle_loop idle_tasks
get_idle_loop-rest time until [] h = refl
get_idle_loop-rest time until ((k, t) ∷ m) h =
    ground (arith, leased_not_idle time until t h, get_idle_loop-rest time until m h)

-- `GetIdleTask` takes the first idle task for `lease_timeout` seconds, and the idle tasks that are
-- left are the others. It answers NULL exactly when there is no idle task.
pub get_idle_task_lem :
    (env : Enviroment) (now : ℤ)
    → let time = fdcs_time env now in
      ((get_idle_task env now).1
        ≡ Option.map (set_lease_time (lease_until env now)) (first (idle_tasks time env.tasks)))
      × (idle_tasks time (get_idle_task env now).0.tasks ≡ drop 1 (idle_tasks time env.tasks))
unfolding get_idle_task
get_idle_task_lem env now =
    (get_idle_loop-task _ _ env.tasks, get_idle_loop-rest _ _ env.tasks (lease_term env now))
