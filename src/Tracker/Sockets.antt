-- ===== src/Tracker/Sockets.antt =====
-- Connections and what is queued for them.
use fast_dcs.Common.{Bool, true, false, none, some, [], ◌∷◌, ◌++◌, length, ◌==◌, if◌then◌else◌}
use fast_dcs.Common.Int.{ℤ}
use fast_dcs.Common.Texts.{Text, is_empty, contains}
use fast_dcs.Common.Maps.{find, put, insert, erase, fd_ord, text_ord}
use fast_dcs.Messages.{TrackerProtocol}
use fast_dcs.SignalingQueue
use fast_dcs.SignalingQueue.{SignalingQueue, Outcome, returns, waits}
use fast_dcs.Strings.Split.{split_string_using}
use fast_dcs.Tracker.State.{Tracker, World, ok, aborts, sleeps, M, ◌>>◌, check, own}

-- `CheckIP`, and the same test in `ConnectMaster`: an address has a host and a port.
unfoldable pub check_ip : Text → M (Unit {0})
check_ip address = check (length (split_string_using address (b':' ∷ [])) == 2)

-- The response addresses of a protocol that this server sends on: its own behind the others.
unfoldable pub add_response_addr : Tracker → Text → Text
add_response_addr s addresses =
    if s.is_master
    then (if is_empty addresses then own s else addresses ++ (b';' ∷ own s))
    else addresses

module _ (w : World) where
  -- `AddSocketResource`, but the registration with epoll.
  unfoldable pub add_socket_resource : ℤ → Text → Tracker → Tracker
  unfolding put insert
  add_socket_resource fd address s =
      let fresh = SignalingQueue.init w.socket_buff_size 1 in
      record s {
        socket_ids = put fd address s.socket_ids;
        send_buffers = insert fd fresh s.send_buffers;
        receive_buffers = insert fd (some fresh) s.receive_buffers;
      }

  -- `ConnectMaster` from the new socket on.
  unfoldable pub open_socket : Text → M Bool
  unfolding add_socket_resource put
  open_socket address s = elim (w.connect address) [
    | none ↦ ok false s
    | some fd ↦ ok true (
        add_socket_resource fd address
          (record s { master_sockets = put address fd s.master_sockets }))
  ]

  unfoldable pub connect_master : Text → M Bool
  unfolding open_socket check_ip find contains
  connect_master address s = elim (contains s.fdcs_env.settings.tracker_group address) [
    | false ↦ ok false s
    | true ↦ elim (find address s.master_sockets) [
      | some fd ↦ ok true s
      | none ↦ (check_ip address >> open_socket address) s
    ]
  ]

  -- `iter->second->Add(proto_buff)`, whose number is not looked at, and the event for the socket thread.
  unfoldable pub queue_message : ℤ → SignalingQueue → Text → M Bool
  unfolding put
  queue_message fd q buff s =
      let (q', outcome) = SignalingQueue.add q buff true in
      elim outcome [
        | returns n text ↦ ok true (record s {
          send_buffers = put fd q' s.send_buffers;
          send_events = s.send_events ++ fd ∷ [];
        })
        | waits ↦ sleeps
      ]

  unfoldable pub send_protocol : TrackerProtocol → ℤ → M Bool
  unfolding add_response_addr queue_message find insert
  send_protocol proto fd s =
      let out = record proto {
        response_sock_addr = add_response_addr s proto.response_sock_addr;
      } in
      elim (find fd s.send_buffers) [
        | some q ↦ queue_message fd q (w.serialize out) s
        -- The log line makes an entry for the descriptor in `socket_ids_`.
        | none ↦ ok false (record s { socket_ids = insert fd [] s.socket_ids })
      ]

-- `AddReceiveSocketBuffer`, which does not look at the number that `Add` returns.
unfoldable pub add_receive_socket_buffer : ℤ → Text → M (Unit {0})
unfolding find put
add_receive_socket_buffer fd bytes s = elim (find fd s.receive_buffers) [
  | none ↦ ok tt s
  | some buffer ↦ elim buffer [
    | none ↦ aborts
    | some q ↦
        let (q', outcome) = SignalingQueue.add q bytes true in
        elim outcome [
          | returns n text ↦ ok tt (record s {
            receive_buffers = put fd (some q') s.receive_buffers;
            receive_events = s.receive_events ++ fd ∷ [];
          })
          | waits ↦ sleeps
        ]
  ]
]

-- `RemoveSocketResource`.
unfoldable pub remove_socket_resource : ℤ → Tracker → Tracker
unfolding erase
remove_socket_resource fd s = record s {
  socket_ids = erase fd s.socket_ids;
  send_buffers = erase fd s.send_buffers;
  receive_buffers = erase fd s.receive_buffers;
}
