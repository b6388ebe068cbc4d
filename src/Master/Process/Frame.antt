-- ===== src/Master/Process/Frame.antt =====
-- The messages of the ring of masters leave the tasks alone.
use fast_dcs.Common.{◌≡◌, refl, true, false, not, ◌&&◌, Bool, Option, none, some, [], ◌∷◌, arith}
use fast_dcs.Common.Int.{ℤ}
use fast_dcs.Common.Texts.{Text, eq, is_empty}
use fast_dcs.Strings.Split.{split_string_using}
use fast_dcs.Common.Maps.{put, fd_ord}
use fast_dcs.Messages
use fast_dcs.Messages.{
  TrackerProtocol, ProtocolType, election, coordinator, master_ask_tracker, master_report_status,
  worker_ask_tracker, sync_task_duplicate, request_task_duplicate, worker_request_task,
  ask_task_status, master_join_group, master_group_changed, unknown_protocol, worker_report_status,
  create_job_id, commit_job,
}
use fast_dcs.Enviroment.{init_fdcs_time_differ}
use fast_dcs.Tracker.State.{Tracker, World, ◌>>◌, pure, branch, i_am_primary_master}
use fast_dcs.Tracker.Sockets.{check_ip, connect_master, send_protocol}
use fast_dcs.Tracker.Masters.{master_group_changed_call, get_task_status}
use fast_dcs.Tracker.Frame.{
  Kept, Keeps, Keeps-bind, Keeps-branch, Kept-elim, connect_master-Keeps, send_protocol-Keeps,
  check_ip-Keeps, master_group_changed_call-Keeps,
}
use fast_dcs.Master.Circle.{
  closed_circle, upgrade_tracker, add_proto_fdcs_time, coordinator_call, join_master_group,
  connect_online_master,
}
use fast_dcs.Master.Circle.Frame.{
  election_call-Keeps, add_proto_fdcs_time-Keeps, coordinator_call-Keeps, join_master_group-Keeps,
  connect_each-Keeps, transferred-Keeps,
}
use fast_dcs.Master.Process.{
  set_primary, set_result, announce, process_election, process_coordinator, answer_ask_tracker,
  process_ask_tracker, process_report_status, process_worker_ask_tracker, process_group_changed,
  master_handle, master_protocol_process,
}

-- The messages that carry tasks or results.
abbrev pub moves_tasks : ProtocolType → Bool
moves_tasks sync_task_duplicate = true
moves_tasks request_task_duplicate = true
moves_tasks worker_request_task = true
moves_tasks type = false

module _ (w : World) where
  sent-Keeps : (proto : TrackerProtocol) (fd : ℤ) → Keeps (send_protocol w proto fd >> pure true)
  sent-Keeps proto fd =
      Keeps-bind (send_protocol w proto fd) _ (send_protocol-Keeps w proto fd) (λ b t. (refl, refl))

  announce-Keeps : (winner : Option Text) → Keeps (announce w winner)
  unfolding announce
  announce-Keeps none s = (refl, refl)
  announce-Keeps (some a) s =
      Keeps-bind (coordinator_call w a) _ (coordinator_call-Keeps w a) (λ b t. (refl, refl)) s

  process_election-Keeps : (proto : TrackerProtocol) → Keeps (process_election w proto)
  unfolding process_election
  process_election-Keeps proto s =
      Kept-elim s (closed_circle s proto) _ _ (announce-Keeps _ s) (transferred-Keeps w proto s)

  process_coordinator-Keeps : (proto : TrackerProtocol) → Keeps (process_coordinator w proto)
  unfolding process_coordinator upgrade_tracker init_fdcs_time_differ
  process_coordinator-Keeps proto s =
      Keeps-bind (check_ip proto.response_result) _ (check_ip-Keeps proto.response_result)
        (λ u t. Kept-elim t (closed_circle s proto) _ _ (ground arith) (
          Keeps-bind (join_master_group w proto) _ (join_master_group-Keeps w proto)
            (λ b. transferred-Keeps w proto) (set_primary proto.response_result t)))
        s

  answer_ask_tracker-Keeps :
      (closed : Bool) (proto : TrackerProtocol) → Keeps (answer_ask_tracker w closed proto)
  unfolding answer_ask_tracker
  answer_ask_tracker-Keeps true proto s =
      Kept-elim s (is_empty proto.response_result) _ _ (election_call-Keeps w s) (
        Keeps-bind (check_ip proto.response_result) _ (check_ip-Keeps proto.response_result)
          (λ u t.
            Keeps-bind (connect_master w proto.response_result) _
              (connect_master-Keeps w proto.response_result)
              (λ c.
                Keeps-bind (join_master_group w proto) _ (join_master_group-Keeps w proto)
                  (λ b v. (refl, refl)))
              (set_primary proto.response_result t))
          s)
  answer_ask_tracker-Keeps false proto s =
      Kept-elim s (is_empty proto.response_result) _ _ (transferred-Keeps w _ s) (
        Kept-elim s
          (not (eq s.primary_sockaddr proto.response_result) && not (is_empty s.primary_sockaddr)) _
          _ (election_call-Keeps w s) (transferred-Keeps w proto s))

  process_ask_tracker-Keeps : (proto : TrackerProtocol) → Keeps (process_ask_tracker w proto)
  unfolding process_ask_tracker
  process_ask_tracker-Keeps proto s =
      Keeps-bind (branch (i_am_primary_master s) (add_proto_fdcs_time w proto) (pure proto)) _
        (Keeps-branch (i_am_primary_master s) _ _ (add_proto_fdcs_time-Keeps w proto)
          (λ t. (refl, refl)))
        (λ out. answer_ask_tracker-Keeps (closed_circle s proto) out) s

  process_report_status-Keeps : (proto : TrackerProtocol) → Keeps (process_report_status w proto)
  unfolding process_report_status
  process_report_status-Keeps proto s = ground arith

  process_worker_ask_tracker-Keeps :
      (fd : ℤ) (proto : TrackerProtocol) → Keeps (process_worker_ask_tracker w fd proto)
  unfolding process_worker_ask_tracker
  process_worker_ask_tracker-Keeps fd proto s =
      Kept-elim s (is_empty s.primary_sockaddr) _ _ (refl, refl)
        (Keeps-bind (add_proto_fdcs_time w (set_result s.primary_sockaddr proto)) _
          (add_proto_fdcs_time-Keeps w (set_result s.primary_sockaddr proto))
          (λ out t.
            sent-Keeps out fd
              (record t { socket_ids = put fd proto.request_sock_addr t.socket_ids }))
          s)

  process_group_changed-Keeps : (proto : TrackerProtocol) → Keeps (process_group_changed w proto)
  unfolding process_group_changed connect_online_master
  process_group_changed-Keeps proto s =
      Kept-elim s (closed_circle s proto) _ _ (refl, refl)
        (Keeps-bind (connect_online_master w proto.request_args) _
          (connect_each-Keeps w (split_string_using proto.request_args (b';' ∷ [])))
          (λ u. transferred-Keeps w proto) s)

master_handle-Kept :
    (w : World) (type : ProtocolType) (fd : ℤ) (proto : TrackerProtocol) (s : Tracker)
    → moves_tasks type ≡ false
    → Kept s (master_handle w type fd proto s)
unfolding master_handle
master_handle-Kept w election fd proto s h = process_election-Keeps w proto s
master_handle-Kept w coordinator fd proto s h = process_coordinator-Keeps w proto s
master_handle-Kept w master_ask_tracker fd proto s h = process_ask_tracker-Keeps w proto s
master_handle-Kept w master_report_status fd proto s h = process_report_status-Keeps w proto s
master_handle-Kept w worker_ask_tracker fd proto s h = process_worker_ask_tracker-Keeps w fd proto s
master_handle-Kept w sync_task_duplicate fd proto s h = cc
master_handle-Kept w request_task_duplicate fd proto s h = cc
master_handle-Kept w worker_request_task fd proto s h = cc
master_handle-Kept w master_join_group fd proto s h =
    Keeps-bind (connect_master w proto.request_sock_addr) _
      (connect_master-Keeps w proto.request_sock_addr)
      (λ c.
        Keeps-bind (master_group_changed_call w) _ (master_group_changed_call-Keeps w)
          (λ b t. (refl, refl)))
      s
master_handle-Kept w master_group_changed fd proto s h = process_group_changed-Keeps w proto s
master_handle-Kept w ask_task_status fd proto s h = sent-Keeps w (get_task_status s proto) fd s
master_handle-Kept w unknown_protocol fd proto s h = (refl, refl)
master_handle-Kept w worker_report_status fd proto s h = (refl, refl)
master_handle-Kept w create_job_id fd proto s h = (refl, refl)
master_handle-Kept w commit_job fd proto s h = (refl, refl)
master_handle-Kept w Messages.task_completed fd proto s h = (refl, refl)

-- A message that carries neither tasks nor results leaves the idle, leased and completed tasks of a
-- master as they are, whatever connections and messages its handler makes.
pub master_protocol_process-Kept :
    (w : World) (fd : ℤ) (proto : TrackerProtocol) (s : Tracker)
    → moves_tasks proto.protocol_type ≡ false
    → Kept s (master_protocol_process w fd proto s)
unfolding master_protocol_process
master_protocol_process-Kept w fd proto s h = master_handle-Kept w proto.protocol_type fd proto s h
