-- ===== src/Tracker/Events.antt =====
-- The socket thread of src/server/tracker.cc: the events that it takes off the queues, and what it
-- does with those of received messages. `handler` is the virtual `ProtocolProcess`.
use fast_dcs.Common.{Bool, true, none, some, List, [], ◌∷◌}
use fast_dcs.Common.Int.{ℤ}
use fast_dcs.Common.Maps.{find, put, insert, fd_ord}
use fast_dcs.Messages.{TrackerProtocol}
use fast_dcs.SignalingQueue
use fast_dcs.SignalingQueue.{returns, waits}
use fast_dcs.Tracker.State.{World, ok, sleeps, M, ◌>>=◌, ◌>>◌, pure}

-- `GetSocketEvent`: both queues are moved out in their order.
unfoldable pub get_socket_event : M (List ℤ × List ℤ)
get_socket_event s =
    ok (s.receive_events, s.send_events) (record s { receive_events = []; send_events = [] })

module _ (w : World) (handler : ℤ → TrackerProtocol → M Bool) where
  -- One received message. A message late by more than the network timeout is only logged.
  unfoldable pub receive_event : ℤ → M (Unit {0})
  unfolding find put insert
  receive_event fd s = elim (find fd s.receive_buffers) [
    | none ↦ ok tt (record s { receive_buffers = insert fd none s.receive_buffers })
    | some buffer ↦ elim buffer [
      | none ↦ ok tt s
      | some q ↦
          let (q', outcome) = SignalingQueue.remove q true in
          elim outcome [
            | waits ↦ sleeps
            | returns n text ↦
                (handler fd (w.parse text) >> pure tt)
                  (record s { receive_buffers = put fd (some q') s.receive_buffers })
          ]
    ]
  ]

  unfoldable pub receive_events_loop : List ℤ → M (Unit {0})
  unfolding receive_event
  receive_events_loop [] s = ok tt s
  receive_events_loop (fd ∷ fds) s = (receive_event fd >> receive_events_loop fds) s

  -- A round of `SocketThread` up to its sends: what is left is the events to send for.
  unfoldable pub socket_round : M (List ℤ)
  unfolding get_socket_event receive_events_loop
  socket_round s = (get_socket_event >>= λ events. receive_events_loop events.0 >> pure events.1) s
