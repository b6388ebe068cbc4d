-- ===== src/Master/Process.antt =====
-- `ProtocolProcess` and `HeartBeat` of a master.
pub mod Elect
pub mod Alone
pub mod Frame
pub mod Secondary
use fast_dcs.Common.{Bool, true, false, not, ◌&&◌, Option, none, some, [], ◌∷◌, ◌++◌, if◌then◌else◌}
use fast_dcs.Common.Int.{ℤ}
use fast_dcs.Common.Texts.{Text, eq, contains, is_empty}
use fast_dcs.Common.Maps.{put, fd_ord, text_ord}
use fast_dcs.Messages.{
  ProtocolType, TrackerProtocol, TrackerStatus, election, coordinator, master_ask_tracker,
  master_report_status, worker_ask_tracker, sync_task_duplicate, request_task_duplicate,
  worker_request_task, ask_task_status, master_join_group, master_group_changed, unknown_protocol,
  worker_report_status, create_job_id, commit_job, response_result_success,
  response_result_complete,
}
use fast_dcs.Tracker.State.{
  Tracker, World, ok, M, ◌>>=◌, ◌>>◌, pure, branch, own, i_am_primary_master, i_know_primary_master,
  socket_of,
}
use fast_dcs.Tracker.Sockets.{check_ip, connect_master, send_protocol}
use fast_dcs.Tracker.Masters.{group, master_group_changed_call, get_task_status}
use fast_dcs.Master.Tasks.{
  get_idle_task_call, task_completed_call, request_task_duplicate_call, send_task_duplicate,
  save_task_duplicate,
}
use fast_dcs.Master.Circle.{
  closed_circle, elected, upgrade_tracker, add_proto_fdcs_time, election_call, coordinator_call,
  join_master_group, connect_online_master, continue_transfer_proto, master_ask_tracker_call,
}

-- What a worker hears: whether there was something for it.
abbrev pub result_of : Bool → Text
result_of b = if b then response_result_success else response_result_complete

abbrev pub set_result : Text → TrackerProtocol → TrackerProtocol
set_result text proto = record proto { response_result = text }

-- `primary_sockaddr_ = response_result`.
abbrev pub set_primary : Text → Tracker → Tracker
set_primary address s = record s { primary_sockaddr = address }

module _ (w : World) where
  unfoldable pub announce : Option Text → M Bool
  unfolding coordinator_call
  announce none s = ok true s
  announce (some tracker_addr) s = (coordinator_call w tracker_addr >> pure true) s

  unfoldable pub process_election : TrackerProtocol → M Bool
  unfolding closed_circle elected group announce continue_transfer_proto
  process_election proto s = elim (closed_circle s proto) [
    | true ↦ announce (elected (proto.response_sock_addr ++ (b';' ∷ own s)) (group s)) s
    | false ↦ (continue_transfer_proto w proto >> pure true) s
  ]

  unfoldable pub process_coordinator : TrackerProtocol → M Bool
  unfolding closed_circle check_ip eq upgrade_tracker join_master_group continue_transfer_proto
  process_coordinator proto s =
      (check_ip proto.response_result >> λ t.
      let u = set_primary proto.response_result t in
      elim (closed_circle s proto) [
        | true ↦ ok true (if eq proto.response_result (own s) then upgrade_tracker u else u)
        | false ↦ (join_master_group w proto >> (continue_transfer_proto w proto >> pure true)) u
      ])
        s

  -- MASTER_ASK_TRACKER, with the time added where this is the primary master.
  unfoldable pub answer_ask_tracker : Bool → TrackerProtocol → M Bool
  unfolding election_call check_ip connect_master join_master_group eq continue_transfer_proto
  answer_ask_tracker closed proto s = elim closed [
    | true ↦ elim (is_empty proto.response_result) [
      | true ↦ election_call w s
      | false ↦
          (check_ip proto.response_result >> λ t.
          (connect_master w proto.response_result >> (join_master_group w proto >> pure true))
            (set_primary proto.response_result t))
            s
    ]
    | false ↦ elim (is_empty proto.response_result) [
      | true ↦
          (continue_transfer_proto w
                (if is_empty s.primary_sockaddr then proto else set_result s.primary_sockaddr proto)
              >> pure true)
            s
      | false ↦
          elim (not (eq s.primary_sockaddr proto.response_result)
            && not (is_empty s.primary_sockaddr)) [
              | true ↦ election_call w s
              | false ↦ (continue_transfer_proto w proto >> pure true) s
            ]
    ]
  ]

  unfoldable pub process_ask_tracker : TrackerProtocol → M Bool
  unfolding closed_circle i_am_primary_master add_proto_fdcs_time answer_ask_tracker
  process_ask_tracker proto s =
      (branch (i_am_primary_master s) (add_proto_fdcs_time w proto) (pure proto)
          >>= answer_ask_tracker (closed_circle s proto))
        s

  unfoldable pub process_report_status : TrackerProtocol → M Bool
  unfolding i_am_primary_master put
  process_report_status proto s = elim (i_am_primary_master s) [
    | false ↦ ok true s
    | true ↦ elim proto.tracker_status [
      | [] ↦ ok true s
      | st ∷ more ↦ ok true (record s { tracker_status = put (own s) st s.tracker_status })
    ]
  ]

  unfoldable pub process_worker_ask_tracker : ℤ → TrackerProtocol → M Bool
  unfolding add_proto_fdcs_time put send_protocol
  process_worker_ask_tracker fd proto s = elim (is_empty s.primary_sockaddr) [
    | true ↦ ok true s
    | false ↦
        (add_proto_fdcs_time w (set_result s.primary_sockaddr proto) >>= λ out t.
        (send_protocol w out fd >> pure true)
          (record t { socket_ids = put fd proto.request_sock_addr t.socket_ids }))
          s
  ]

  unfoldable pub process_request_duplicate : ℤ → TrackerProtocol → M Bool
  unfolding i_am_primary_master send_task_duplicate save_task_duplicate
  process_request_duplicate fd proto s = elim (i_am_primary_master s) [
    | true ↦ (send_task_duplicate w proto fd >> pure true) s
    | false ↦ ok true (save_task_duplicate proto s)
  ]

  unfoldable pub process_group_changed : TrackerProtocol → M Bool
  unfolding closed_circle connect_online_master continue_transfer_proto
  process_group_changed proto s = elim (closed_circle s proto) [
    | true ↦ ok true s
    | false ↦
        (connect_online_master w proto.request_args
            >> (continue_transfer_proto w proto >> pure true))
          s
  ]

  -- `GetIdleTask`, whose result is the one that is sent, and the answer on a socket.
  unfoldable pub hand_out : TrackerProtocol → (TrackerProtocol → ℤ) → M Bool
  unfolding get_idle_task_call send_protocol
  hand_out proto fd_of s =
      (get_idle_task_call w proto >>= λ r.
      send_protocol w (set_result (result_of r.1) r.0) (fd_of r.0) >> pure true)
        s

  -- A request that the primary master has answered, back at the master that forwarded it.
  unfoldable pub second_answer : TrackerProtocol → M Bool
  unfolding task_completed_call hand_out eq
  second_answer proto s =
      (branch (eq proto.response_result response_result_success)
            (task_completed_call w proto >>= λ b. pure (set_result (result_of b) proto))
            (pure proto)
          >>= λ out. hand_out out (λ p. p.forwarding_sock_fd))
        s

  unfoldable pub process_request_task : ℤ → TrackerProtocol → M Bool
  unfolding i_am_primary_master task_completed_call hand_out contains i_know_primary_master
      socket_of send_protocol second_answer
  process_request_task fd proto s = elim (i_am_primary_master s) [
    | true ↦
        (task_completed_call w proto >>= λ b. hand_out (set_result (result_of b) proto) (λ p. fd)) s
    | false ↦ elim (contains proto.response_sock_addr (own s)) [
      | true ↦ second_answer proto s
      | false ↦ elim (i_know_primary_master s) [
        | false ↦ ok true s
        | true ↦
            (socket_of s.primary_sockaddr >>= λ to.
            send_protocol w (record proto { forwarding_sock_fd = fd }) to >> pure true)
              s
      ]
    ]
  ]

  -- The `switch` of `ProtocolProcess`.
  unfoldable pub master_handle : ProtocolType → ℤ → TrackerProtocol → M Bool
  unfolding process_election process_coordinator process_ask_tracker process_report_status
      process_worker_ask_tracker i_am_primary_master save_task_duplicate process_request_duplicate
      connect_master master_group_changed_call process_group_changed get_task_status send_protocol
      process_request_task
  master_handle election fd proto s = process_election proto s
  master_handle coordinator fd proto s = process_coordinator proto s
  master_handle master_ask_tracker fd proto s = process_ask_tracker proto s
  master_handle master_report_status fd proto s = process_report_status proto s
  master_handle worker_ask_tracker fd proto s = process_worker_ask_tracker fd proto s
  master_handle sync_task_duplicate fd proto s =
      ok true (if i_am_primary_master s then s else save_task_duplicate proto s)
  master_handle request_task_duplicate fd proto s = process_request_duplicate fd proto s
  master_handle master_join_group fd proto s =
      (connect_master w proto.request_sock_addr >> (master_group_changed_call w >> pure true)) s
  master_handle master_group_changed fd proto s = process_group_changed proto s
  master_handle ask_task_status fd proto s =
      (send_protocol w (get_task_status s proto) fd >> pure true) s
  master_handle worker_request_task fd proto s = process_request_task fd proto s
  master_handle type fd proto s = ok true s

  -- `ProtocolProcess`.
  unfoldable pub master_protocol_process : ℤ → TrackerProtocol → M Bool
  unfolding master_handle
  master_protocol_process fd proto s = master_handle proto.protocol_type fd proto s

  -- `HeartBeat` of a master.
  unfoldable pub master_heart_beat : M Bool
  unfolding i_know_primary_master i_am_primary_master request_task_duplicate_call
      master_ask_tracker_call
  master_heart_beat s = elim (i_know_primary_master s) [
    | false ↦ (master_ask_tracker_call w >> pure true) s
    | true ↦ elim (i_am_primary_master s) [
      | true ↦ ok true s
      | false ↦ (request_task_duplicate_call w >> pure true) s
    ]
  ]
