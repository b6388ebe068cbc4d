-- ===== src/Master/Tasks/Leasing.antt =====
-- `GetIdleTask` of a master against `LeaseTasks`, and what a worker receives.
use fast_dcs.Common.{
  ℕ, zero, suc, ◌≡◌, refl, sym, ap, subst, Bool, false, ◌&&◌, some, [], ◌∷◌, arith, leb, take, map,
  ◌∙◌,
}
use fast_dcs.Common.Int.{ℤ, pos, negsuc, ltb_ℤ, ◌-ℤ◌, ◌≤ℤ◌}
use fast_dcs.Messages.{TrackerProtocol, keyvaluepairs_task}
use fast_dcs.Enviroment.{
  TaskMap, fdcs_time, lease_until, lease_loop, count_idle, clear_lease_time, idle_tasks_size,
}
use fast_dcs.Enviroment.Leases.{idle_tasks, lease_loop-tasks}
use fast_dcs.Enviroment.Inv.{IsValid}
use fast_dcs.Enviroment.Moves.{Has, lease_loop_exclusive}
use fast_dcs.Common.Texts.{Text}
use fast_dcs.Strings.Codec.{key_to_int32}
use fast_dcs.Tracker.State.{Tracker, World, ok, ok-inj, int32_of, i_am_primary_master}
use fast_dcs.Master.Tasks.{take_idle, tasks_pair, get_idle_task_call}
use fast_dcs.Protofile.{tasks_of, tasks_of-write_tasks}

-- `--task_duplicate <= 0` ends the loop behind the first task for any number below 2.
abbrev pub at_least_one : ℤ → ℕ
at_least_one (pos (suc n)) = suc n
at_least_one (pos zero) = 1
at_least_one (negsuc n) = 1

lease_loop-none : (time until : ℤ) (m : TaskMap) → lease_loop time until 0 m ≡ (m, [])
unfolding lease_loop
lease_loop-none time until [] = refl
lease_loop-none time until ((k, t) ∷ m) = ground (arith, lease_loop-none time until m)

take_idle-tasks :
    (time until : ℤ) (n : ℕ) (m : TaskMap)
    → (take_idle time until (pos (suc n)) m).0 ≡ lease_loop time until (suc n) m
unfolding take_idle lease_loop ◌-ℤ◌
take_idle-tasks time until n [] = refl
take_idle-tasks time until zero ((k, t) ∷ m) =
    ground (arith, take_idle-tasks time until zero m, lease_loop-none time until m)
take_idle-tasks time until (suc n) ((k, t) ∷ m) =
    ground (arith, take_idle-tasks time until (suc n) m, take_idle-tasks time until n m)

take_idle-enough :
    (time until : ℤ) (n : ℕ) (m : TaskMap)
    → (take_idle time until (pos (suc n)) m).1 ≡ leb (suc n) (count_idle time m)
unfolding take_idle count_idle ◌-ℤ◌
take_idle-enough time until n [] = ground arith
take_idle-enough time until zero ((k, t) ∷ m) = ground (arith, take_idle-enough time until zero m)
take_idle-enough time until (suc n) ((k, t) ∷ m) =
    ground (arith, take_idle-enough time until (suc n) m, take_idle-enough time until n m)

take_idle-count :
    (time until : ℤ) (n : ℕ) (m : TaskMap)
    → take_idle time until (pos (suc n)) m
      ≡ (lease_loop time until (suc n) m, leb (suc n) (count_idle time m))
take_idle-count time until n m =
    cc (take_idle-tasks time until n m, take_idle-enough time until n m)

take_idle-one :
    (time until td : ℤ) (m : TaskMap)
    → ltb_ℤ (pos 0) (td -ℤ pos 1) ≡ false
    → take_idle time until td m ≡ take_idle time until (pos 1) m
unfolding take_idle ◌-ℤ◌
take_idle-one time until td [] h = refl
take_idle-one time until td ((k, t) ∷ m) h = ground (arith, take_idle-one time until td m h)

pub take_idle-lease_loop :
    (time until td : ℤ) (m : TaskMap)
    → take_idle time until td m
      ≡ (lease_loop time until (at_least_one td) m, leb (at_least_one td) (count_idle time m))
unfolding ◌-ℤ◌
take_idle-lease_loop time until (pos zero) m =
    take_idle-one time until (pos 0) m refl ∙ take_idle-count time until 0 m
take_idle-lease_loop time until (pos (suc n)) m = take_idle-count time until n m
take_idle-lease_loop time until (negsuc n) m =
    take_idle-one time until (negsuc n) m (ground arith) ∙ take_idle-count time until 0 m

-- `GetIdleTask`, for a request that asks for a number and that is not left to the master that
-- forwarded it: the answer holds the first idle tasks of the table, in the order of their ids
-- and without their lease times, as many as were asked for and at least one; the table has
-- leased just these; and it answers true exactly when there were as many.
pub get_idle_task_call_lem :
    (w : World) (proto : TrackerProtocol) (s : Tracker) (td : ℤ)
    → key_to_int32 proto.request_args ≡ some td
    → (ltb_ℤ (pos 0) proto.forwarding_sock_fd && i_am_primary_master s) ≡ false
    → let time = fdcs_time s.fdcs_env w.now in
      let n = at_least_one td in
      get_idle_task_call w proto s
      ≡ ok
          (
            record proto {
              key_values_pairs =
                  tasks_pair keyvaluepairs_task
                    (map clear_lease_time (take n (idle_tasks time s.fdcs_env.tasks)))
                  ∷ [];
            },
            leb n (idle_tasks_size s.fdcs_env w.now),
          )
          (record s {
            fdcs_env = record s.fdcs_env {
              tasks = (lease_loop time (lease_until s.fdcs_env w.now) n s.fdcs_env.tasks).0;
            };
          })
unfolding get_idle_task_call int32_of idle_tasks_size
get_idle_task_call_lem w proto s td e h =
    rw (h, e, get_idle_task_call)
      (rw
        (
          take_idle-lease_loop (fdcs_time s.fdcs_env w.now) (lease_until s.fdcs_env w.now) td
              s.fdcs_env.tasks,
          lease_loop-tasks (fdcs_time s.fdcs_env w.now) (lease_until s.fdcs_env w.now)
              (at_least_one td) s.fdcs_env.tasks,
        )
        refl)

pub handed_out :
    (w : World) (s t : Tracker) (p q : TrackerProtocol) (b : Bool) (td : ℤ)
    → key_to_int32 p.request_args ≡ some td
    → (ltb_ℤ (pos 0) p.forwarding_sock_fd && i_am_primary_master s) ≡ false
    → get_idle_task_call w p s ≡ ok (q, b) t
    → let r =
        lease_loop
          (fdcs_time s.fdcs_env w.now)
          (lease_until s.fdcs_env w.now)
          (at_least_one td)
          s.fdcs_env.tasks in
      (tasks_of keyvaluepairs_task q.key_values_pairs ≡ r.1)
      × (t.fdcs_env ≡ record s.fdcs_env { tasks = r.0 })
handed_out w s t p q b td e g c =
    let made = ok-inj (sym c ∙ get_idle_task_call_lem w p s td e g) in
    (
      ap (λ x. tasks_of keyvaluepairs_task x.0.key_values_pairs) made.0
          ∙ tasks_of-write_tasks keyvaluepairs_task _
          ∙ sym (lease_loop-tasks _ _ (at_least_one td) s.fdcs_env.tasks),
      ap (λ x. x.fdcs_env) made.1,
    )

-- Two calls of `GetIdleTask` on a valid table never answer with one task twice, if the second
-- comes before the terms that the first one gave are over. Both requests ask for a number, and
-- neither is one that a primary master leaves to the master that forwarded it.
pub requests_exclusive :
    (w later : World) (s t u : Tracker) (p q p' q' : TrackerProtocol) (b b' : Bool) (td td' : ℤ)
    (id : Text)
    → IsValid s.fdcs_env
    → key_to_int32 p.request_args ≡ some td
    → key_to_int32 p'.request_args ≡ some td'
    → (ltb_ℤ (pos 0) p.forwarding_sock_fd && i_am_primary_master s) ≡ false
    → (ltb_ℤ (pos 0) p'.forwarding_sock_fd && i_am_primary_master t) ≡ false
    → get_idle_task_call w p s ≡ ok (q, b) t
    → get_idle_task_call later p' t ≡ ok (q', b') u
    → fdcs_time s.fdcs_env later.now ≤ℤ lease_until s.fdcs_env w.now
    → Has id (tasks_of keyvaluepairs_task q.key_values_pairs)
    → ¬ Has id (tasks_of keyvaluepairs_task q'.key_values_pairs)
unfolding fdcs_time
requests_exclusive w later s t u p q p' q' b b' td td' id v e e' g g' c c' h first again =
    let one = handed_out w s t p q b td e g c in
    let two = handed_out later t u p' q' b' td' e' g' c' in
    lease_loop_exclusive _ _ _ _ (at_least_one td) (at_least_one td') id s.fdcs_env.tasks v.sorted
      v.named h (subst (Has id) one.0 first)
      (subst
        (λ env.
          Has id
            (lease_loop (fdcs_time env later.now) (lease_until env later.now) (at_least_one td')
              env.tasks).1)
        one.1 (subst (Has id) two.0 again))
