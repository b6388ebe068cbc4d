-- ===== src/Worker.antt =====
-- src/server/worker.cc: a server that computes tasks. `ComputingUDF` is the user's, and is the
-- function `compute` on a task here.
pub mod Reports
pub mod Compute
mod Tests
use fast_dcs.Common.{Bool, true, false, none, some, List, [], ◌∷◌, length, ltb, if◌then◌else◌}
use fast_dcs.Common.Int.{ℤ, pos}
use fast_dcs.Common.Texts.{Text}
use fast_dcs.Common.Maps.{put, fd_ord, text_ord}
use fast_dcs.Messages.{
  FdcsTask, TrackerProtocol, ProtocolType, worker_ask_tracker, worker_request_task,
  keyvaluepairs_task, keyvaluepairs_task_complete,
}
use fast_dcs.Enviroment.{
  Enviroment, tasks_size, update_tasks, clear_completed_tasks, get_idle_task, task_completed,
}
use fast_dcs.Protofile.{tasks_of, write_tasks}
use fast_dcs.Strings.Codec.{int32_to_key}
use fast_dcs.Tracker.State.{
  Tracker, World, ok, aborts, M, ◌>>=◌, ◌>>◌, pure, branch, is_no_fd, no_fd, i_know_primary_master,
  socket_of, new_tracker_protocol,
}
use fast_dcs.Tracker.Sockets.{connect_master, send_protocol}
use fast_dcs.Tracker.Masters.{group}
use fast_dcs.Master.Circle.{sync_fdcs_time}

-- `SaveNewTask`: only a worker without tasks takes new ones.
unfoldable pub save_new_task : TrackerProtocol → Tracker → Tracker × Bool
unfolding tasks_size tasks_of update_tasks
save_new_task proto s =
    if ltb 0 (tasks_size s.fdcs_env)
    then (s, false)
    else let new_tasks = tasks_of keyvaluepairs_task proto.key_values_pairs in
      (
        if ltb 0 (length new_tasks)
            then record s { fdcs_env = update_tasks s.fdcs_env new_tasks }
            else s,
        true,
      )

-- A round of `Computing` behind its wait.
unfoldable pub computing_round :
    (FdcsTask → FdcsTask) → ℤ → (FdcsTask → FdcsTask) → Enviroment → Enviroment
unfolding get_idle_task task_completed put
computing_round erased now compute env =
    let (env', found) = get_idle_task env now in
    elim found [
      | none ↦ env'
      | some t ↦
          let computed = compute t in
          task_completed erased (record env' { tasks = put t.task_id computed env'.tasks })
            computed.task_id
    ]

module _ (w : World) where
  -- `FindMaster`: the first of the group that can be reached.
  unfoldable pub find_master_loop : List Text → M ℤ
  unfolding connect_master socket_of put
  find_master_loop [] s = ok no_fd s
  find_master_loop (a ∷ more) s =
      (connect_master w a >>= λ connected.
      branch connected
        (socket_of a >>= λ fd t. ok fd (record t { socket_ids = put fd a t.socket_ids }))
        (find_master_loop more))
        s

  unfoldable pub find_master : M ℤ
  unfolding group find_master_loop
  find_master s = elim (group s) [ [] ↦ aborts | a ∷ more ↦ find_master_loop (a ∷ more) s ]

  unfoldable pub primary_socket : M ℤ
  unfolding connect_master socket_of
  primary_socket s =
      (connect_master w s.primary_sockaddr >>= λ connected.
      branch connected (λ t. socket_of t.primary_sockaddr t) (pure no_fd))
        s

  -- `FindOwnerMaster`: the master that the hash ring gives for this worker, or else the primary one.
  unfoldable pub find_owner_master : M ℤ
  unfolding connect_master socket_of primary_socket
  find_owner_master s = elim (w.conhash_lookup s.conhash s.worker_sockaddr) [
    | none ↦ ok no_fd s
    | some owner_master ↦
        (connect_master w owner_master >>= λ connected.
        branch connected (socket_of owner_master) primary_socket)
          s
  ]

  -- `AskTracker` of a worker.
  unfoldable pub worker_ask_tracker_call : M Bool
  unfolding find_master new_tracker_protocol send_protocol
  worker_ask_tracker_call s =
      (find_master >>= λ fd.
      branch (is_no_fd fd) (pure false)
        (λ t. send_protocol w (new_tracker_protocol w worker_ask_tracker t) fd t))
        s

  -- The report of `RequestTask`: how many tasks are asked for, and the completed ones.
  unfoldable pub task_request : Text → Tracker → TrackerProtocol
  unfolding new_tracker_protocol write_tasks
  task_request args s = record (new_tracker_protocol w worker_request_task s) {
    request_args = args;
    key_values_pairs =
        record {
          key = keyvaluepairs_task_complete;
          values = write_tasks s.fdcs_env.completed_tasks;
        }
        ∷ [];
  }

  unfoldable pub send_request : ℤ → M Bool
  unfolding task_request int32_to_key clear_completed_tasks send_protocol
  send_request fd s = elim (int32_to_key (pos s.fdcs_env.settings.task_duplicate)) [
    | none ↦ aborts
    | some args ↦
        send_protocol w (task_request args s) fd
          (record s { fdcs_env = clear_completed_tasks s.fdcs_env })
  ]

  -- `RequestTask`.
  unfoldable pub request_task : M Bool
  unfolding tasks_size find_owner_master send_request
  request_task s = elim (ltb 0 (tasks_size s.fdcs_env)) [
    | true ↦ ok false s
    | false ↦ (find_owner_master >>= λ fd. branch (is_no_fd fd) (pure false) (send_request fd)) s
  ]

  -- WORKER_ASK_TRACKER, back from a master that knows the primary one.
  unfoldable pub learn_tracker : TrackerProtocol → M Bool
  unfolding sync_fdcs_time connect_master
  learn_tracker proto s =
      (connect_master w proto.response_result >> pure true)
        (sync_fdcs_time w proto (record s { primary_sockaddr = proto.response_result }))

  unfoldable worker_handle : ProtocolType → TrackerProtocol → M Bool
  unfolding learn_tracker save_new_task
  worker_handle worker_ask_tracker proto s = learn_tracker proto s
  worker_handle worker_request_task proto s = ok true (save_new_task proto s).0
  worker_handle type proto s = ok true s

  -- `ProtocolProcess` of a worker.
  unfoldable pub worker_protocol_process : ℤ → TrackerProtocol → M Bool
  unfolding worker_handle
  worker_protocol_process fd proto s = worker_handle proto.protocol_type proto s

  -- `HeartBeat` of a worker.
  unfoldable pub worker_heart_beat : M Bool
  unfolding i_know_primary_master request_task worker_ask_tracker_call
  worker_heart_beat s = elim (i_know_primary_master s) [
    | true ↦ (request_task >> pure true) s
    | false ↦ (worker_ask_tracker_call >> pure true) s
  ]
