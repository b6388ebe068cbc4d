-- ===== src/Master/Circle/Frame.antt =====
-- What passes round the ring of masters leaves the tasks alone.
use fast_dcs.Common.{refl, true, not, ◌||◌, List, [], ◌∷◌, arith}
use fast_dcs.Common.Int.{ℤ}
use fast_dcs.Common.Texts.{Text, eq}
use fast_dcs.Messages.{TrackerProtocol, ProtocolType, election, coordinator, master_join_group}
use fast_dcs.Enviroment.{calc_fdcs_time_differ, init_fdcs_time_differ}
use fast_dcs.Tracker.State.{
  World, ◌>>◌, pure, own, is_no_fd, i_know_primary_master, socket_of, new_tracker_protocol,
}
use fast_dcs.Tracker.Sockets.{connect_master, send_protocol}
use fast_dcs.Tracker.Masters.{find_next_master}
use fast_dcs.Tracker.Frame.{
  Keeps, Keeps-bind, Keeps-branch, Kept-elim, connect_master-Keeps, send_protocol-Keeps,
  socket_of-Keeps, find_next_master-Keeps,
}
use fast_dcs.Master.Circle.{
  upgrade_tracker, only_one_master, sync_fdcs_time, add_proto_fdcs_time, send_election,
  election_call, send_coordinator, coordinator_call, send_to_primary, join_master_group,
  connect_each, continue_transfer_proto,
}

module _ (w : World) where
  pub send_election-Keeps : (fd : ℤ) → Keeps (send_election w fd)
  unfolding send_election
  send_election-Keeps fd s = send_protocol-Keeps w (new_tracker_protocol w election s) fd s

  pub election_call-Keeps : Keeps (election_call w)
  unfolding election_call only_one_master upgrade_tracker init_fdcs_time_differ
  election_call-Keeps s =
      Keeps-bind (find_next_master w) _ (find_next_master-Keeps w)
        (λ fd. Keeps-branch (is_no_fd fd) _ _ (λ t. (refl, refl)) (send_election-Keeps fd)) s

  pub add_proto_fdcs_time-Keeps : (proto : TrackerProtocol) → Keeps (add_proto_fdcs_time w proto)
  unfolding add_proto_fdcs_time
  add_proto_fdcs_time-Keeps proto s = ground arith

  pub send_coordinator-Keeps : (a : Text) (fd : ℤ) → Keeps (send_coordinator w a fd)
  unfolding send_coordinator
  send_coordinator-Keeps a fd s =
      let proto = record (new_tracker_protocol w coordinator s) { response_result = a } in
      Keeps-bind (add_proto_fdcs_time w proto) _ (add_proto_fdcs_time-Keeps proto)
        (λ out. send_protocol-Keeps w out fd) s

  pub coordinator_call-Keeps : (a : Text) → Keeps (coordinator_call w a)
  unfolding coordinator_call only_one_master upgrade_tracker init_fdcs_time_differ
  coordinator_call-Keeps a s =
      Keeps-bind (find_next_master w) _ (find_next_master-Keeps w)
        (λ fd. Keeps-branch (is_no_fd fd) _ _ (λ t. (refl, refl)) (send_coordinator-Keeps a fd)) s

  pub send_to_primary-Keeps : (type : ProtocolType) → Keeps (send_to_primary w type)
  unfolding send_to_primary
  send_to_primary-Keeps type s =
      Keeps-bind (socket_of s.primary_sockaddr) _ (socket_of-Keeps s.primary_sockaddr)
        (λ fd t. send_protocol-Keeps w (new_tracker_protocol w type t) fd t) s

  pub join_master_group-Keeps : (proto : TrackerProtocol) → Keeps (join_master_group w proto)
  unfolding join_master_group sync_fdcs_time calc_fdcs_time_differ
  join_master_group-Keeps proto s =
      Kept-elim s (not (i_know_primary_master s) || eq s.primary_sockaddr (own s)) _ _ (refl, refl)
        (Keeps-bind (connect_master w s.primary_sockaddr) _
          (connect_master-Keeps w s.primary_sockaddr)
          (λ connected.
            Keeps-branch connected _ _
              (λ t. send_to_primary-Keeps master_join_group (sync_fdcs_time w proto t))
              (λ t. (refl, refl)))
          s)

  pub connect_each-Keeps : (masters : List Text) → Keeps (connect_each w masters)
  unfolding connect_each
  connect_each-Keeps [] s = (refl, refl)
  connect_each-Keeps (a ∷ more) s =
      Keeps-bind (connect_master w a) _ (connect_master-Keeps w a)
        (λ connected. connect_each-Keeps more) s

  pub continue_transfer_proto-Keeps :
      (proto : TrackerProtocol) → Keeps (continue_transfer_proto w proto)
  unfolding continue_transfer_proto
  continue_transfer_proto-Keeps proto s =
      Keeps-bind (find_next_master w) _ (find_next_master-Keeps w)
        (λ fd.
          Keeps-branch (is_no_fd fd) _ _ (λ t. (refl, refl))
            (Keeps-bind (send_protocol w proto fd) _ (send_protocol-Keeps w proto fd)
              (λ sent t. (refl, refl))))
        s

  -- What is handed on makes the handler's result true.
  pub transferred-Keeps :
      (proto : TrackerProtocol) → Keeps (continue_transfer_proto w proto >> pure true)
  transferred-Keeps proto =
      Keeps-bind (continue_transfer_proto w proto) _ (continue_transfer_proto-Keeps proto)
        (λ u t. (refl, refl))
