-- ===== src/Master/Circle.antt =====
-- The ring of masters: who is the primary one, and the messages that go round it.
pub mod Frame
use fast_dcs.Common.{
  Bool, true, false, not, ◌||◌, Option, none, some, List, [], ◌∷◌, ◌++◌, if◌then◌else◌,
}
use fast_dcs.Common.Int.{ℤ}
use fast_dcs.Common.Texts.{Text, eq, contains}
use fast_dcs.Common.Maps.{find, text_ord}
use fast_dcs.Messages.{
  TrackerProtocol, pair, ProtocolType, election, coordinator, master_ask_tracker, master_join_group,
  keyvaluepairs_fdcs_time,
}
use fast_dcs.Enviroment.{fdcs_time, calc_fdcs_time_differ, init_fdcs_time_differ}
use fast_dcs.Protofile.{pairs_of}
use fast_dcs.Strings.Codec.{int32_to_key, key_to_int32}
use fast_dcs.Strings.Split.{split_string_using}
use fast_dcs.Tracker.State.{
  Tracker, World, ok, aborts, M, ◌>>=◌, ◌>>◌, pure, branch, own, is_no_fd, int32_of,
  i_know_primary_master, socket_of, new_tracker_protocol,
}
use fast_dcs.Tracker.Sockets.{connect_master, send_protocol}
use fast_dcs.Tracker.Masters.{find_next_master}

-- `ClosedCircle`: this master has begun the round, or has been passed already.
unfoldable pub closed_circle : Tracker → TrackerProtocol → Bool
unfolding eq contains
closed_circle s proto =
    if eq proto.request_sock_addr (own s) then true else contains proto.response_sock_addr (own s)

-- The loop of ELECTION, which runs from the last address to the first.
unfoldable pub elected : Text → List Text → Option Text
unfolding contains
elected pass_master [] = none
elected pass_master (a ∷ more) = elim (elected pass_master more) [
  | some b ↦ some b
  | none ↦ if contains pass_master a then some a else none
]

unfoldable pub upgrade_tracker : Tracker → Tracker
unfolding init_fdcs_time_differ
upgrade_tracker s = record s { fdcs_env = init_fdcs_time_differ s.fdcs_env }

-- "Only one Master host".
unfoldable pub only_one_master : Tracker → Tracker
unfolding upgrade_tracker
only_one_master s = upgrade_tracker (record s { primary_sockaddr = own s })

abbrev value_or_empty : Option Text → Text
value_or_empty none = []
value_or_empty (some v) = v

-- `fdcs_env_.CalcFdcsTimeDiffer` of the time in a protocol; without one the key is the empty string.
unfoldable pub sync_fdcs_time : World → TrackerProtocol → Tracker → Tracker
unfolding pairs_of find key_to_int32 int32_of calc_fdcs_time_differ
sync_fdcs_time w proto s =
    let key_values = pairs_of keyvaluepairs_fdcs_time proto.key_values_pairs in
    let key = value_or_empty (find keyvaluepairs_fdcs_time key_values) in
    record s { fdcs_env = calc_fdcs_time_differ s.fdcs_env (int32_of w (key_to_int32 key)) w.now }

module _ (w : World) where
  -- `AddProtoFdcsTime`; a time below 0 fails the CHECK of `Int32ToKey`.
  unfoldable pub add_proto_fdcs_time : TrackerProtocol → M TrackerProtocol
  unfolding fdcs_time int32_to_key
  add_proto_fdcs_time proto s = elim (int32_to_key (fdcs_time s.fdcs_env w.now)) [
    | none ↦ aborts
    | some key ↦
        ok
          (record proto {
            key_values_pairs =
                proto.key_values_pairs
                ++ record {
                  key = keyvaluepairs_fdcs_time;
                  values = pair keyvaluepairs_fdcs_time key ∷ [];
                }
                  ∷ [];
          })
          s
  ]

  unfoldable pub send_election : ℤ → M Bool
  unfolding new_tracker_protocol send_protocol
  send_election fd s = send_protocol w (new_tracker_protocol w election s) fd s

  -- `Election`.
  unfoldable pub election_call : M Bool
  unfolding find_next_master only_one_master send_election
  election_call s =
      (find_next_master w >>= λ fd.
      branch (is_no_fd fd) (λ t. ok true (only_one_master t)) (send_election fd))
        s

  unfoldable pub send_coordinator : Text → ℤ → M Bool
  unfolding new_tracker_protocol add_proto_fdcs_time send_protocol
  send_coordinator tracker_addr fd s =
      (add_proto_fdcs_time
            (record (new_tracker_protocol w coordinator s) { response_result = tracker_addr })
          >>= λ proto. send_protocol w proto fd)
        s

  -- `Coordinator`.
  unfoldable pub coordinator_call : Text → M Bool
  unfolding find_next_master only_one_master send_coordinator
  coordinator_call tracker_addr s =
      (find_next_master w >>= λ fd.
      branch (is_no_fd fd) (λ t. ok true (only_one_master t)) (send_coordinator tracker_addr fd))
        s

  -- A new protocol of a type to the primary master, whose socket must be there.
  unfoldable pub send_to_primary : ProtocolType → M Bool
  unfolding socket_of new_tracker_protocol send_protocol
  send_to_primary type s =
      (socket_of s.primary_sockaddr >>= λ fd t.
      send_protocol w (new_tracker_protocol w type t) fd t)
        s

  -- `JoinMasterGroup`.
  unfoldable pub join_master_group : TrackerProtocol → M Bool
  unfolding i_know_primary_master eq connect_master sync_fdcs_time send_to_primary
  join_master_group proto s =
      elim (not (i_know_primary_master s) || eq s.primary_sockaddr (own s)) [
        | true ↦ ok false s
        | false ↦
            (connect_master w s.primary_sockaddr >>= λ connected.
            branch connected (λ t. send_to_primary master_join_group (sync_fdcs_time w proto t))
              (pure false))
              s
      ]

  unfoldable pub connect_each : List Text → M (Unit {0})
  unfolding connect_master
  connect_each [] s = ok tt s
  connect_each (a ∷ more) s = (connect_master w a >> connect_each more) s

  -- `ConnectOnlineMaster`.
  unfoldable pub connect_online_master : Text → M (Unit {0})
  unfolding connect_each split_string_using
  connect_online_master all_master s = connect_each (split_string_using all_master (b';' ∷ [])) s

  -- `ContinueTransferProto`.
  unfoldable pub continue_transfer_proto : TrackerProtocol → M (Unit {0})
  unfolding find_next_master send_protocol
  continue_transfer_proto proto s =
      (find_next_master w >>= λ fd.
      branch (is_no_fd fd) (pure tt) (send_protocol w proto fd >> pure tt))
        s

  unfoldable pub send_ask_tracker : ℤ → M Bool
  unfolding new_tracker_protocol send_protocol
  send_ask_tracker fd s = send_protocol w (new_tracker_protocol w master_ask_tracker s) fd s

  -- `AskTracker` of a master.
  unfoldable pub master_ask_tracker_call : M Bool
  unfolding find_next_master election_call send_ask_tracker
  master_ask_tracker_call s =
      (find_next_master w >>= λ fd. branch (is_no_fd fd) election_call (send_ask_tracker fd)) s
