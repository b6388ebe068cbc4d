-- ===== src/Enviroment/Moves.antt =====
-- What happens to one task: it is added, leased to one worker at a time, and completed once.
use Prim.Native.Nat.{Ordering}
use fast_dcs.Common.{
  ℕ, suc, ◌-◌, ◌≡◌, ◌≢◌, true, false, Option, none, some, List, [], ◌∷◌, ◌++◌, ◌⊎◌, arith,
}
use mathlib.Core.Option
use fast_dcs.Common.Int.{ℤ, ◌≤ℤ◌}
use fast_dcs.Common.Texts.{Text}
use fast_dcs.Common.Maps.{
  text_ord, lex, find, insert, find-put_self, find-put_ne, find-erase_self, find-erase_ne,
  length-erase, length-put_new, Above, Sorted,
}
use fast_dcs.Messages.{FdcsTask}
use fast_dcs.Enviroment.{
  TaskMap, Enviroment, fdcs_time, add_task, find_task, lease_loop, lease_tasks, lease_until,
  task_completed, tasks_size, is_idle,
}
use fast_dcs.Enviroment.Inv.{Named, IsValid, lease_loop-Sorted, lease_loop-Named}

-- A task with this id is in the list.
abbrev pub Has : Text → List FdcsTask → Type 0
Has id [] = ⊥
Has id (t ∷ ts) = (t.task_id ≡ id) ⊎ Has id ts

-- `TaskCompleted` takes a task that is in the table out of it, and puts what the erased entry gives behind the
-- completed ones; every other task stays, and the table is smaller by one.
pub task_completed_lem :
    (erased : FdcsTask → FdcsTask) (env : Enviroment) (id other : Text) (t : FdcsTask)
    → IsValid env
    → find_task env id ≡ some t
    → id ≢ other
    → let env' = task_completed erased env id in
      (find_task env' id ≡ none)
      × (find_task env' other ≡ find_task env other)
      × (env'.completed_tasks ≡ env.completed_tasks ++ erased t ∷ [])
      × (suc (tasks_size env') ≡ tasks_size env)
unfolding task_completed find_task tasks_size
task_completed_lem erased env id other t v e h = ground (
  arith,
  find-erase_self id env.tasks,
  find-erase_ne id other env.tasks h,
  length-erase id t env.tasks v.sorted e,
)

-- A second report that a task is completed changes nothing.
pub task_completed_twice :
    (erased : FdcsTask → FdcsTask) (env : Enviroment) (id : Text)
    → task_completed erased (task_completed erased env id) id ≡ task_completed erased env id
unfolding task_completed
task_completed_twice erased env id = ground (arith, find-erase_self id env.tasks)

-- `AddTask` puts a task in the table under its id and says true, or, where one with the id is
-- there, leaves the table alone and says false; it never replaces a task.
pub add_task_lem :
    (env : Enviroment) (t : FdcsTask) (other : Text)
    → t.task_id ≢ other
    → let r = add_task env t in
      (((r.1 ≡ true)
          × (find_task env t.task_id ≡ none)
          × (find_task r.0 t.task_id ≡ some t)
          × (tasks_size r.0 ≡ suc (tasks_size env)))
        ⊎ ((r.1 ≡ false) × (r.0 ≡ env) × (find_task env t.task_id ≢ none)))
      × (find_task r.0 other ≡ find_task env other)
unfolding add_task find_task tasks_size insert
add_task_lem env t other h = ground (
  arith,
  find-put_self t.task_id t env.tasks,
  find-put_ne t.task_id other t env.tasks h,
  length-put_new t.task_id t env.tasks,
)

-- A key of the leased table that lies above `k` is not `k`.
leased-Above :
    (k id : Text) (time until : ℤ) (n : ℕ) (m : TaskMap)
    → Named m
    → Above k m
    → Has id (lease_loop time until n m).1
    → lex id k ≢ Ordering.eq
unfolding lease_loop
leased-Above k id time until n [] nm a h = absurd h
leased-Above k id time until n ((j, t) ∷ m) nm a h = ground (
  arith,
  text_ord.cmp_eq id k,
  text_ord.cmp_refl k,
  leased-Above k id time until n m nm.1 a.1,
  leased-Above k id time until (n - 1) m nm.1 a.1,
)

abbrev lease_end : FdcsTask → ℤ
lease_end t = t.lease_time

-- A task that was handed out stands in the table with the end of its term.
leased_term :
    (id : Text) (time until : ℤ) (n : ℕ) (m : TaskMap)
    → Sorted m
    → Named m
    → Has id (lease_loop time until n m).1
    → Option.map lease_end (find id (lease_loop time until n m).0) ≡ some until
unfolding lease_loop find
leased_term id time until n [] s nm h = absurd h
leased_term id time until n ((k, t) ∷ m) s nm h = ground (
  arith,
  text_ord.cmp_refl id,
  leased-Above k id time until n m nm.1 s.0,
  leased-Above k id time until (n - 1) m nm.1 s.0,
  leased_term id time until n m s.1 nm.1,
  leased_term id time until (n - 1) m s.1 nm.1,
)

-- A task that is handed out was idle.
leased_idle :
    (id : Text) (time until : ℤ) (n : ℕ) (m : TaskMap)
    → Sorted m
    → Named m
    → Has id (lease_loop time until n m).1
    → Option.map (is_idle time) (find id m) ≡ some true
unfolding lease_loop find
leased_idle id time until n [] s nm h = absurd h
leased_idle id time until n ((k, t) ∷ m) s nm h = ground (
  arith,
  text_ord.cmp_refl id,
  leased-Above k id time until n m nm.1 s.0,
  leased-Above k id time until (n - 1) m nm.1 s.0,
  leased_idle id time until n m s.1 nm.1,
  leased_idle id time until (n - 1) m s.1 nm.1,
)

-- A task that is leased to its term's end is not idle before it.
term_over :
    (time until : ℤ) (o : Option FdcsTask)
    → time ≤ℤ until
    → Option.map lease_end o ≡ some until
    → Option.map (is_idle time) o ≢ some true
term_over time until none h e f = cc
term_over time until (some t) h e f = ground arith

pub lease_loop_exclusive :
    (time until later until' : ℤ) (n n' : ℕ) (id : Text) (m : TaskMap)
    → Sorted m
    → Named m
    → later ≤ℤ until
    → Has id (lease_loop time until n m).1
    → ¬ Has id (lease_loop later until' n' (lease_loop time until n m).0).1
lease_loop_exclusive time until later until' n n' id m s nm h first again =
    term_over later until (find id (lease_loop time until n m).0) h
      (leased_term id time until n m s nm first)
      (leased_idle id later until' n' (lease_loop time until n m).0
        (lease_loop-Sorted time until n m s) (lease_loop-Named time until n m nm) again)

-- Two calls of `LeaseTasks` on a valid table never hand out one task twice, if the second comes
-- before the terms that the first one gave are over: `now` and `later` are their times.
pub lease_tasks_exclusive :
    (env : Enviroment) (now later : ℤ) (id : Text)
    → IsValid env
    → fdcs_time env later ≤ℤ lease_until env now
    → Has id (lease_tasks env now).1
    → ¬ Has id (lease_tasks (lease_tasks env now).0 later).1
unfolding lease_tasks fdcs_time
lease_tasks_exclusive env now later id v h =
    lease_loop_exclusive _ _ _ _ env.settings.task_duplicate _ id env.tasks v.sorted v.named h
