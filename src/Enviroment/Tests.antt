-- ===== src/Enviroment/Tests.antt =====
-- The calls of src/server/enviroment.cc on the sample table, and the theorems on it.
use fast_dcs.Common.{◌≡◌, inl, refl, List, [], ◌∷◌, arith}
use fast_dcs.Common.Int.{ℤ, pos, ◌+ℤ◌}
use fast_dcs.Common.Texts.{codes}
use fast_dcs.Common.Maps.{text_ord, lex}
use fast_dcs.Enviroment.{fdcs_time, lease_until, lease_loop, lease_tasks, update_tasks}
use fast_dcs.Enviroment.Samples.{task_of, three_tasks, three_tasks-IsValid}
use fast_dcs.Enviroment.Inv.{
  IsValid, Call, adds, leases, completes, updates, after_all, after_all-IsValid,
}
use fast_dcs.Enviroment.Moves.{Has, lease_tasks_exclusive}

leased_b : (lease_tasks three_tasks (pos 105)).1 ≡ task_of (codes "b") (pos 0) ∷ []
unfolding lease_tasks lease_loop fdcs_time lease_until ◌+ℤ◌
leased_b = refl

same_id_twice :
    (update_tasks three_tasks
      (task_of (codes "z") (pos 1) ∷ task_of (codes "z") (pos 2) ∷ [])).tasks
    ≡ (codes "z", task_of (codes "z") (pos 1)) ∷ []
unfolding update_tasks lex
same_id_twice = refl

abbrev history : List (ℤ × Call)
history =
    (pos 105, adds (task_of (codes "ab") (pos 0)))
    ∷ (pos 106, leases)
    ∷ (pos 107, completes (codes "a"))
    ∷ (pos 108, updates (task_of (codes "z") (pos 1) ∷ []))
    ∷ []

after_all-IsValid_example : IsValid (after_all (λ t. t) three_tasks history)
after_all-IsValid_example = after_all-IsValid (λ t. t) three_tasks history three_tasks-IsValid

lease_tasks_exclusive_example :
    ¬ Has (codes "b") (lease_tasks (lease_tasks three_tasks (pos 105)).0 (pos 112)).1
unfolding lease_tasks lease_loop fdcs_time lease_until ◌+ℤ◌
lease_tasks_exclusive_example =
    lease_tasks_exclusive three_tasks (pos 105) (pos 112) (codes "b") three_tasks-IsValid
      (omega arith) (inl refl)
