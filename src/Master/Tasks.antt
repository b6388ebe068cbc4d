-- ===== src/Master/Tasks.antt =====
-- The tasks of a master: what it hands to workers and to the other masters, and what it takes back.
pub mod Leasing
pub mod Results
pub mod Counted
use fast_dcs.Common.{
  Bool, true, false, not, ◌&&◌, ◌||◌, none, some, List, [], ◌∷◌, length, ltb, ◌==◌, if◌then◌else◌,
}
use fast_dcs.Common.Int.{ℤ, pos, ◌-ℤ◌, ltb_ℤ}
use fast_dcs.Common.Texts.{Text, eq}
use fast_dcs.Common.Maps.{put, text_ord}
use fast_dcs.Messages.{
  FdcsTask, KeyValuesPair, TrackerProtocol, keyvaluepairs_task, keyvaluepairs_task_complete,
  request_task_duplicate,
}
use fast_dcs.Enviroment.{
  Enviroment, TaskMap, fdcs_time, lease_until, is_idle, set_lease_time, clear_lease_time, find_task,
  task_completed, idle_tasks_size, lease_tasks, update_tasks, clear_completed_tasks, add_task,
}
use fast_dcs.Protofile.{read_tasks, write_tasks, tasks_of}
use fast_dcs.Strings.Codec.{key_to_int32}
use fast_dcs.Tracker.State.{
  Tracker, World, int32_of, ok, M, ◌>>=◌, ◌>>◌, pure, i_am_primary_master, i_know_primary_master,
  socket_of, new_tracker_protocol,
}
use fast_dcs.Tracker.Sockets.{send_protocol}

-- The loop of `GetIdleTask`: the table afterwards, the tasks written to the protocol, and whether
-- `--task_duplicate <= 0` has ended it.
unfoldable pub take_idle : ℤ → ℤ → ℤ → TaskMap → (TaskMap × List FdcsTask) × Bool
take_idle time until task_duplicate [] = (([], []), false)
take_idle time until task_duplicate ((k, t) ∷ m) = elim (is_idle time t) [
  | false ↦
      let ((m', ts), enough) = take_idle time until task_duplicate m in (((k, t) ∷ m', ts), enough)
  | true ↦ elim (ltb_ℤ (pos 0) (task_duplicate -ℤ pos 1)) [
    | false ↦ (((k, set_lease_time until t) ∷ m, clear_lease_time t ∷ []), true)
    | true ↦
        let ((m', ts), enough) = take_idle time until (task_duplicate -ℤ pos 1) m in
        (((k, set_lease_time until t) ∷ m', clear_lease_time t ∷ ts), enough)
  ]
]

-- One result of a worker: it counts if the task is in the table, and its lease has not run out.
unfoldable pub complete_one : (FdcsTask → FdcsTask) → ℤ → FdcsTask → Enviroment → Enviroment
unfolding fdcs_time find_task task_completed put
complete_one erased now t env = elim (find_task env t.task_id) [
  | none ↦ env
  | some env_task ↦ elim (is_idle (fdcs_time env now) env_task) [
    | true ↦ env
    | false ↦
        task_completed erased (record env { tasks = put t.task_id (clear_lease_time t) env.tasks })
          t.task_id
  ]
]

unfoldable pub complete_loop : (FdcsTask → FdcsTask) → ℤ → List FdcsTask → Enviroment → Enviroment
unfolding complete_one
complete_loop erased now [] env = env
complete_loop erased now (t ∷ ts) env = complete_loop erased now ts (complete_one erased now t env)

-- A `KeyValuesPair` of tasks.
abbrev pub tasks_pair : Text → List FdcsTask → KeyValuesPair
tasks_pair key ts = record { key = key; values = write_tasks ts }

module _ (w : World) where
  -- `GetIdleTask`. An argument that is no number leaves `task_duplicate` with what was there.
  unfoldable pub get_idle_task_call : TrackerProtocol → M (TrackerProtocol × Bool)
  unfolding take_idle fdcs_time lease_until write_tasks key_to_int32 int32_of i_am_primary_master
  get_idle_task_call proto s =
      elim (ltb_ℤ (pos 0) proto.forwarding_sock_fd && i_am_primary_master s) [
        | true ↦ ok (proto, true) s
        | false ↦
            let task_duplicate = int32_of w (key_to_int32 proto.request_args) in
            let ((m, ts), enough) =
              take_idle (fdcs_time s.fdcs_env w.now) (lease_until s.fdcs_env w.now) task_duplicate
                s.fdcs_env.tasks in
            ok (record proto { key_values_pairs = tasks_pair keyvaluepairs_task ts ∷ [] }, enough)
              (record s { fdcs_env = record s.fdcs_env { tasks = m } })
      ]

  -- `TaskCompleted`.
  unfoldable pub task_completed_call : TrackerProtocol → M Bool
  unfolding complete_loop tasks_of
  task_completed_call proto s =
      let completed_tasks = tasks_of keyvaluepairs_task_complete proto.key_values_pairs in
      if length completed_tasks == 0
      then ok false s
      else ok true (record s { fdcs_env = complete_loop w.erased w.now completed_tasks s.fdcs_env })

  -- `RequestTaskDuplicate`.
  unfoldable pub request_task_duplicate_call : M Bool
  unfolding i_am_primary_master i_know_primary_master idle_tasks_size new_tracker_protocol
      send_protocol socket_of
  request_task_duplicate_call s =
      elim (i_am_primary_master s
        || (not (i_know_primary_master s) || ltb 0 (idle_tasks_size s.fdcs_env w.now))) [
          | true ↦ ok false s
          | false ↦
              (socket_of s.primary_sockaddr
                  >>= send_protocol w (new_tracker_protocol w request_task_duplicate s))
                s
        ]

  -- `SendTaskDuplicate`.
  unfoldable pub send_task_duplicate : TrackerProtocol → ℤ → M Bool
  unfolding i_am_primary_master idle_tasks_size lease_tasks write_tasks send_protocol
  send_task_duplicate proto receiver_fd s = elim (i_am_primary_master s) [
    | false ↦ ok false s
    | true ↦ elim (ltb 0 (idle_tasks_size s.fdcs_env w.now)) [
      | false ↦ ok true s
      | true ↦
          let (env, ts) = lease_tasks s.fdcs_env w.now in
          let t = record s { fdcs_env = env } in
          elim (ltb 0 (length ts)) [
            | false ↦ ok true t
            | true ↦
                (send_protocol w
                      (record proto { key_values_pairs = tasks_pair keyvaluepairs_task ts ∷ [] })
                      receiver_fd
                    >> pure true)
                  t
          ]
    ]
  ]

-- The loop of `SaveTaskDuplicate`: each pair of tasks takes the place of the whole table.
unfoldable pub save_pairs : List KeyValuesPair → Enviroment → Enviroment
unfolding update_tasks read_tasks
save_pairs [] env = env
save_pairs (p ∷ ps) env = elim (eq p.key keyvaluepairs_task) [
  | false ↦ save_pairs ps env
  | true ↦ save_pairs ps (update_tasks env (read_tasks p.values))
]

unfoldable pub save_task_duplicate : TrackerProtocol → Tracker → Tracker
unfolding save_pairs
save_task_duplicate proto s = record s { fdcs_env = save_pairs proto.key_values_pairs s.fdcs_env }

unfoldable pub add_tasks : List FdcsTask → Enviroment → Enviroment
unfolding add_task
add_tasks [] env = env
add_tasks (t ∷ ts) env = add_tasks ts (add_task env t).0

-- A round of `TaskExchangeThread` behind its waits: what it gives to `ExportTaskUDF`, and the table
-- with the tasks `imported` that `ImportTaskUDF` returns.
unfoldable pub task_exchange : ℤ → List FdcsTask → Enviroment → List FdcsTask × Enviroment
unfolding idle_tasks_size add_tasks clear_completed_tasks
task_exchange now imported env =
    let left = clear_completed_tasks env in
    (
      env.completed_tasks,
      if ltb (idle_tasks_size left now) left.settings.preload_tasks
          then add_tasks imported left
          else left,
    )
