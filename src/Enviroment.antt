-- ===== src/Enviroment.antt =====
-- src/server/enviroment.cc and enviroment.h: the table of tasks, their leases, and the clock that a
-- server shares with its primary master. Each function runs under `mutex_` from start to end, and
-- reads the clock once: `now` is `NowTime()`. Times are exact integers; an `int` holds them until
-- 2038. A pointer to a task of the table is its key.
pub mod Leases
pub mod Inv
pub mod Clock
pub mod Moves
pub mod Samples
mod Tests
use fast_dcs.Common.{
  ℕ, suc, ◌+◌, ◌-◌, ◌≡◌, Bool, true, false, Option, none, some, List, [], ◌∷◌, ◌++◌, ◌==◌,
  if◌then◌else◌, length, map,
}
use fast_dcs.Common.Int.{ℤ, pos, ◌+ℤ◌, ◌-ℤ◌, ltb_ℤ}
use fast_dcs.Common.Texts.{Text}
use fast_dcs.Common.Maps.{find, put, insert, erase, text_ord}
use fast_dcs.Messages.{FdcsTask, Settings}

abbrev pub TaskMap : Type 0
TaskMap = List (Text × FdcsTask)

pub record Enviroment : Type 0 where
  pub settings : Settings
  pub fdcs_time_differ : ℤ
  pub completed_tasks : List FdcsTask
  pub tasks : TaskMap

unfoldable pub fdcs_time : Enviroment → ℤ → ℤ
fdcs_time env now = now +ℤ env.fdcs_time_differ

unfoldable pub calc_fdcs_time_differ : Enviroment → ℤ → ℤ → Enviroment
calc_fdcs_time_differ env time now = record env { fdcs_time_differ = time -ℤ now }

unfoldable pub init_fdcs_time_differ : Enviroment → Enviroment
init_fdcs_time_differ env = record env { fdcs_time_differ = pos 0 }

unfoldable pub tasks_size : Enviroment → ℕ
tasks_size env = length env.tasks

unfoldable pub completed_tasks_size : Enviroment → ℕ
completed_tasks_size env = length env.completed_tasks

-- `task->lease_time() < FdcsTime()`.
abbrev pub is_idle : ℤ → FdcsTask → Bool
is_idle time t = ltb_ℤ t.lease_time time

-- `CopyFrom`, then `clear_lease_time`.
abbrev pub clear_lease_time : FdcsTask → FdcsTask
clear_lease_time t = record t { lease_time = pos 0 }

abbrev pub set_lease_time : ℤ → FdcsTask → FdcsTask
set_lease_time time t = record t { lease_time = time }

unfoldable pub add_task : Enviroment → FdcsTask → Enviroment × Bool
unfolding insert find put
add_task env t = elim (find t.task_id env.tasks) [
  | some old ↦ (env, false)
  | none ↦ (record env { tasks = insert t.task_id t env.tasks }, true)
]

-- The loop of `UpdateTasks`: of two tasks with one id the first stays.
unfoldable pub insert_tasks : List FdcsTask → TaskMap → TaskMap
unfolding insert find put
insert_tasks [] m = m
insert_tasks (t ∷ ts) m = insert_tasks ts (insert t.task_id t m)

unfoldable pub update_tasks : Enviroment → List FdcsTask → Enviroment
unfolding insert_tasks
update_tasks env ts = record env { completed_tasks = []; tasks = insert_tasks ts [] }

-- The loop of `LeaseTasks`: the table afterwards, and the tasks handed out.
unfoldable pub lease_loop : ℤ → ℤ → ℕ → TaskMap → TaskMap × List FdcsTask
lease_loop time until task_duplicate [] = ([], [])
lease_loop time until task_duplicate ((k, t) ∷ m) = elim (is_idle time t) [
  | false ↦ let (m', ts) = lease_loop time until task_duplicate m in ((k, t) ∷ m', ts)
  | true ↦ elim (task_duplicate == 0) [
    | true ↦ ((k, t) ∷ m, [])
    | false ↦
        let (m', ts) = lease_loop time until (task_duplicate - 1) m in
        ((k, set_lease_time until t) ∷ m', clear_lease_time t ∷ ts)
  ]
]

-- `FdcsTime() + lease_timeout`.
unfoldable pub lease_until : Enviroment → ℤ → ℤ
unfolding fdcs_time
lease_until env now = fdcs_time env now +ℤ pos env.settings.lease_timeout

unfoldable pub lease_tasks : Enviroment → ℤ → Enviroment × List FdcsTask
lease_tasks env now =
    let (m, ts) =
      lease_loop (fdcs_time env now) (lease_until env now) env.settings.task_duplicate env.tasks in
    (record env { tasks = m }, ts)

-- `CopyTasks`.
unfoldable pub copy_tasks : Enviroment → List FdcsTask
copy_tasks env = map (λ e. e.1) env.tasks

unfoldable pub find_task : Enviroment → Text → Option FdcsTask
unfolding find
find_task env id = find id env.tasks

unfoldable pub count_idle : ℤ → TaskMap → ℕ
count_idle time [] = 0
count_idle time ((k, t) ∷ m) =
    let rest = count_idle time m in if is_idle time t then suc rest else rest

unfoldable pub idle_tasks_size : Enviroment → ℤ → ℕ
unfolding count_idle
idle_tasks_size env now = count_idle (fdcs_time env now) env.tasks

-- The loop of `GetIdleTask`: the first idle task, now leased.
unfoldable pub get_idle_loop : ℤ → ℤ → TaskMap → TaskMap × Option FdcsTask
get_idle_loop time until [] = ([], none)
get_idle_loop time until ((k, t) ∷ m) = elim (is_idle time t) [
  | true ↦ ((k, set_lease_time until t) ∷ m, some (set_lease_time until t))
  | false ↦ let (m', found) = get_idle_loop time until m in ((k, t) ∷ m', found)
]

unfoldable pub get_idle_task : Enviroment → ℤ → Enviroment × Option FdcsTask
get_idle_task env now =
    let (m, found) = get_idle_loop (fdcs_time env now) (lease_until env now) env.tasks in
    (record env { tasks = m }, found)

-- `TaskCompleted`. The source erases the entry and then reads it through the iterator: the read gives what
-- the memory of the freed entry holds, which C++ leaves open. If the process goes on, `erased` says it, for the
-- task that stood there.
unfoldable pub task_completed : (FdcsTask → FdcsTask) → Enviroment → Text → Enviroment
unfolding find erase
task_completed erased env id = elim (find id env.tasks) [
  | some t ↦ record env {
    tasks = erase id env.tasks;
    completed_tasks = env.completed_tasks ++ erased t ∷ [];
  }
  | none ↦ env
]

unfoldable pub clear_completed_tasks : Enviroment → Enviroment
clear_completed_tasks env = record env { completed_tasks = [] }
