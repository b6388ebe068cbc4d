-- ===== src/Enviroment/Inv.antt =====
-- The table of tasks stays in order, each task under its own id.
use fast_dcs.Common.{ℕ, ◌-◌, ◌≡◌, refl, List, [], ◌∷◌, arith}
use fast_dcs.Common.Int.{ℤ}
use fast_dcs.Common.Texts.{Text}
use fast_dcs.Common.Maps.{text_ord, put, insert, erase, Above, Sorted, insert-Sorted, erase-Sorted}
use fast_dcs.Messages.{FdcsTask}
use fast_dcs.Enviroment.{
  TaskMap, Enviroment, add_task, insert_tasks, update_tasks, lease_loop, lease_tasks, get_idle_loop,
  get_idle_task, task_completed, clear_completed_tasks,
}

-- Each task stands under its own id.
abbrev pub Named : TaskMap → Type 0
Named [] = Unit {0}
Named ((k, t) ∷ m) = (k ≡ t.task_id) × Named m

pub record IsValid (env : Enviroment) : Type 0 where
  pub sorted : Sorted env.tasks
  pub named : Named env.tasks

pub put-Named : (t : FdcsTask) (m : TaskMap) → Named m → Named (put t.task_id t m)
unfolding put
put-Named t [] h = (refl, tt)
put-Named t ((k, u) ∷ m) h = ground (arith, put-Named t m h.1)

insert-Named : (t : FdcsTask) (m : TaskMap) → Named m → Named (insert t.task_id t m)
unfolding insert
insert-Named t m h = ground (arith, put-Named t m h)

erase-Named : (id : Text) (m : TaskMap) → Named m → Named (erase id m)
unfolding erase
erase-Named id [] h = tt
erase-Named id ((k, u) ∷ m) h = ground (arith, erase-Named id m h.1)

pub add_task-IsValid : (env : Enviroment) (t : FdcsTask) → IsValid env → IsValid (add_task env t).0
unfolding add_task
add_task-IsValid env t v =
    ground (arith, insert-Sorted t.task_id t env.tasks v.sorted, insert-Named t env.tasks v.named)

insert_tasks-Sorted : (ts : List FdcsTask) (m : TaskMap) → Sorted m → Sorted (insert_tasks ts m)
unfolding insert_tasks
insert_tasks-Sorted [] m s = s
insert_tasks-Sorted (t ∷ ts) m s =
    insert_tasks-Sorted ts (insert t.task_id t m) (insert-Sorted t.task_id t m s)

insert_tasks-Named : (ts : List FdcsTask) (m : TaskMap) → Named m → Named (insert_tasks ts m)
unfolding insert_tasks
insert_tasks-Named [] m h = h
insert_tasks-Named (t ∷ ts) m h = insert_tasks-Named ts (insert t.task_id t m) (insert-Named t m h)

-- `UpdateTasks` makes a valid table, whatever was there before.
pub update_tasks-IsValid : (env : Enviroment) (ts : List FdcsTask) → IsValid (update_tasks env ts)
unfolding update_tasks
update_tasks-IsValid env ts = record {
  sorted = insert_tasks-Sorted ts [] tt;
  named = insert_tasks-Named ts [] tt;
}

lease_loop-Above :
    (k : Text) (time until : ℤ) (n : ℕ) (m : TaskMap)
    → Above k m
    → Above k (lease_loop time until n m).0
unfolding lease_loop
lease_loop-Above k time until n [] a = tt
lease_loop-Above k time until n ((j, t) ∷ m) a =
    ground
      (arith, lease_loop-Above k time until n m a.1, lease_loop-Above k time until (n - 1) m a.1)

pub lease_loop-Sorted :
    (time until : ℤ) (n : ℕ) (m : TaskMap) → Sorted m → Sorted (lease_loop time until n m).0
unfolding lease_loop
lease_loop-Sorted time until n [] s = tt
lease_loop-Sorted time until n ((k, t) ∷ m) s = ground (
  arith,
  lease_loop-Sorted time until n m s.1,
  lease_loop-Sorted time until (n - 1) m s.1,
  lease_loop-Above k time until n m s.0,
  lease_loop-Above k time until (n - 1) m s.0,
)

pub lease_loop-Named :
    (time until : ℤ) (n : ℕ) (m : TaskMap) → Named m → Named (lease_loop time until n m).0
unfolding lease_loop
lease_loop-Named time until n [] h = tt
lease_loop-Named time until n ((k, t) ∷ m) h =
    ground (arith, lease_loop-Named time until n m h.1, lease_loop-Named time until (n - 1) m h.1)

pub lease_tasks-IsValid :
    (env : Enviroment) (now : ℤ) → IsValid env → IsValid (lease_tasks env now).0
unfolding lease_tasks
lease_tasks-IsValid env now v = record {
  sorted = lease_loop-Sorted _ _ env.settings.task_duplicate env.tasks v.sorted;
  named = lease_loop-Named _ _ env.settings.task_duplicate env.tasks v.named;
}

get_idle_loop-Above :
    (k : Text) (time until : ℤ) (m : TaskMap) → Above k m → Above k (get_idle_loop time until m).0
unfolding get_idle_loop
get_idle_loop-Above k time until [] a = tt
get_idle_loop-Above k time until ((j, t) ∷ m) a =
    ground (arith, get_idle_loop-Above k time until m a.1)

get_idle_loop-Sorted :
    (time until : ℤ) (m : TaskMap) → Sorted m → Sorted (get_idle_loop time until m).0
unfolding get_idle_loop
get_idle_loop-Sorted time until [] s = tt
get_idle_loop-Sorted time until ((k, t) ∷ m) s =
    ground (arith, get_idle_loop-Sorted time until m s.1, get_idle_loop-Above k time until m s.0)

get_idle_loop-Named :
    (time until : ℤ) (m : TaskMap) → Named m → Named (get_idle_loop time until m).0
unfolding get_idle_loop
get_idle_loop-Named time until [] h = tt
get_idle_loop-Named time until ((k, t) ∷ m) h = ground (arith, get_idle_loop-Named time until m h.1)

pub get_idle_task-IsValid :
    (env : Enviroment) (now : ℤ) → IsValid env → IsValid (get_idle_task env now).0
unfolding get_idle_task
get_idle_task-IsValid env now v = record {
  sorted = get_idle_loop-Sorted _ _ env.tasks v.sorted;
  named = get_idle_loop-Named _ _ env.tasks v.named;
}

pub task_completed-IsValid :
    (erased : FdcsTask → FdcsTask) (env : Enviroment) (id : Text)
    → IsValid env
    → IsValid (task_completed erased env id)
unfolding task_completed
task_completed-IsValid erased env id v =
    ground (arith, erase-Sorted id env.tasks v.sorted, erase-Named id env.tasks v.named)

-- The calls that change the table, each with the time at which it is made.
pub data Call : Type 0 where
  adds : FdcsTask → Call
  updates : List FdcsTask → Call
  leases takes_idle clears : Call
  completes : Text → Call

pub after : (FdcsTask → FdcsTask) → Enviroment → ℤ × Call → Enviroment
after erased env (now, adds t) = (add_task env t).0
after erased env (now, updates ts) = update_tasks env ts
after erased env (now, leases) = (lease_tasks env now).0
after erased env (now, takes_idle) = (get_idle_task env now).0
after erased env (now, clears) = clear_completed_tasks env
after erased env (now, completes id) = task_completed erased env id

pub after_all : (FdcsTask → FdcsTask) → Enviroment → List (ℤ × Call) → Enviroment
after_all erased env [] = env
after_all erased env (c ∷ cs) = after_all erased (after erased env c) cs

after-IsValid :
    (erased : FdcsTask → FdcsTask) (env : Enviroment) (c : ℤ × Call)
    → IsValid env
    → IsValid (after erased env c)
unfolding after clear_completed_tasks
after-IsValid erased env (now, adds t) v = add_task-IsValid env t v
after-IsValid erased env (now, updates ts) v = update_tasks-IsValid env ts
after-IsValid erased env (now, leases) v = lease_tasks-IsValid env now v
after-IsValid erased env (now, takes_idle) v = get_idle_task-IsValid env now v
after-IsValid erased env (now, clears) v = record { sorted = v.sorted; named = v.named }
after-IsValid erased env (now, completes id) v = task_completed-IsValid erased env id v

-- Every history of calls keeps the table in ascending order of its keys, no key twice, and each task
-- under its own id.
pub after_all-IsValid :
    (erased : FdcsTask → FdcsTask) (env : Enviroment) (cs : List (ℤ × Call))
    → IsValid env
    → IsValid (after_all erased env cs)
unfolding after_all
after_all-IsValid erased env [] v = v
after_all-IsValid erased env (c ∷ cs) v =
    after_all-IsValid erased (after erased env c) cs (after-IsValid erased env c v)
