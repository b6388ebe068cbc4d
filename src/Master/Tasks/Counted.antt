-- ===== src/Master/Tasks/Counted.antt =====
-- The results that one report of a worker brings, in `Master::TaskCompleted` of src/server/master.cc.
use fast_dcs.Common.{
  ◌≡◌, ◌≢◌, refl, sym, ap, ◌∙◌, subst, false, none, some, List, [], ◌∷◌, ◌++◌, map, append_assoc,
  append-nil, inl, inr, arith,
}
use mathlib.Core.Option
use fast_dcs.Common.Int.{ℤ}
use fast_dcs.Common.Texts.{Text}
use fast_dcs.Common.Maps.{text_ord, put, find-put_self, find-erase_self}
use fast_dcs.Messages.{FdcsTask}
use fast_dcs.Enviroment.{
  Enviroment, fdcs_time, find_task, is_idle, clear_lease_time, task_completed,
}
use fast_dcs.Enviroment.Moves.{Has}
use fast_dcs.Master.Tasks.{complete_one, complete_loop}
use fast_dcs.Master.Tasks.Results.{complete_one_lem}

-- No two tasks of the list have one id.
abbrev pub DistinctIds : List FdcsTask → Type 0
DistinctIds [] = Unit
DistinctIds (t ∷ ts) = (¬ Has t.task_id ts) × DistinctIds ts

-- The table has an entry for the id, and its lease has not run out.
abbrev pub IsLeased : ℤ → Enviroment → Text → Type 0
IsLeased time env id = Option.map (is_idle time) (find_task env id) ≡ some false

-- What a result leaves behind the completed tasks.
abbrev pub counted : (FdcsTask → FdcsTask) → FdcsTask → FdcsTask
counted erased t = erased (clear_lease_time t)

complete_one_leased :
    (erased : FdcsTask → FdcsTask) (now : ℤ) (t : FdcsTask) (env : Enviroment)
    → IsLeased (fdcs_time env now) env t.task_id
    → (find_task (complete_one erased now t env) t.task_id ≡ none)
      × ((complete_one erased now t env).completed_tasks
          ≡ env.completed_tasks ++ counted erased t ∷ [])
      × (fdcs_time (complete_one erased now t env) now ≡ fdcs_time env now)
unfolding complete_one find_task task_completed fdcs_time
complete_one_leased erased now t env h = ground (
  arith,
  find-put_self t.task_id (clear_lease_time t) env.tasks,
  find-erase_self t.task_id (put t.task_id (clear_lease_time t) env.tasks),
)

complete_one-find_ne :
    (erased : FdcsTask → FdcsTask) (now : ℤ) (t : FdcsTask) (env : Enviroment) (other : Text)
    → t.task_id ≢ other
    → find_task (complete_one erased now t env) other ≡ find_task env other
complete_one-find_ne erased now t env other h = (complete_one_lem erased now t env other h).1

not_among :
    (t : FdcsTask) (ts : List FdcsTask) (id : Text)
    → ¬ Has t.task_id ts
    → Has id ts
    → t.task_id ≢ id
not_among t ts id fresh h e = fresh (subst (λ i. Has i ts) (sym e) h)

-- Results of distinct ids whose tasks are all leased count all of them, in their order.
pub complete_loop_lem :
    (erased : FdcsTask → FdcsTask) (now : ℤ) (ts : List FdcsTask) (env : Enviroment)
    → DistinctIds ts
    → ((id : Text) → Has id ts → IsLeased (fdcs_time env now) env id)
    → ((complete_loop erased now ts env).completed_tasks
        ≡ env.completed_tasks ++ map (counted erased) ts)
      × ((id : Text) → Has id ts → find_task (complete_loop erased now ts env) id ≡ none)
      × ((id : Text)
          → ¬ Has id ts
          → find_task (complete_loop erased now ts env) id ≡ find_task env id)
unfolding complete_loop
complete_loop_lem erased now [] env d leased =
    (sym (append-nil env.completed_tasks), (λ id h. absurd h), λ id h. refl)
complete_loop_lem erased now (t ∷ ts) env d leased =
    let env' = complete_one erased now t env in
    let one = complete_one_leased erased now t env (leased t.task_id (inl refl)) in
    let still : (id : Text) → Has id ts → IsLeased (fdcs_time env' now) env' id = λ id h.
      rw (one.2, complete_one-find_ne erased now t env id (not_among t ts id d.0 h))
        (leased id (inr h)) in
    let rest = complete_loop_lem erased now ts env' d.1 still in
    (
      rest.0
          ∙ ap (λ done. done ++ map (counted erased) ts) one.1
          ∙ append_assoc env.completed_tasks (counted erased t ∷ []) (map (counted erased) ts),
      (λ id h. elim h [
        | inl e ↦
            subst (λ i. find_task (complete_loop erased now ts env') i ≡ none) e
              (rest.2 t.task_id d.0 ∙ one.0)
        | inr h' ↦ rest.1 id h'
      ]),
      λ id h.
          rest.2 id (λ h'. h (inr h')) ∙ complete_one-find_ne erased now t env id (λ e. h (inl e)),
    )
