-- ===== src/Tracker/Sends.antt =====
-- The sends of the socket thread of src/server/tracker.cc, each by the connector of its socket. A connector
-- has a pointer to the send buffer of its socket, so the two are looked up together.
pub mod Conserve
pub mod Drain
pub mod Queue
pub mod Reach
pub mod Open
pub mod Whole
mod Tests
use fast_dcs.Common.{ℕ, Option, none, some, List, [], ◌∷◌, ◌++◌, length}
use fast_dcs.Common.Int.{ℤ_discrete, ℤ}
use fast_dcs.Common.Texts.{Text}
use fast_dcs.Common.Maps.{find, put, insert, erase, fd_ord}
use fast_dcs.Connector
use fast_dcs.Connector.{Connector, sends, loops}
use fast_dcs.Tracker.State.{Tracker, World}
use fast_dcs.Tracker.Sockets.{add_socket_resource, remove_socket_resource}

-- The tracker, `send_connects_`, in which `operator[]` makes null entries, and what each socket has taken.
pub record Senders : Type 0 where
  pub tracker : Tracker
  pub send_connects : List (ℤ × Option Connector)
  pub wire : ℤ → Text

-- The sends went through, or a connector goes round in `SendFinal` for ever, or its buffer is gone.
pub data Sending : Type 0 where
  went : Senders → Sending
  spins : Sending
  dangles : Sending

unfoldable pub transmit : ℤ → Text → (ℤ → Text) → ℤ → Text
unfolding ℤ_discrete
transmit fd bytes wire j = elim (ℤ_discrete fd j) [ yes same ↦ wire j ++ bytes | no other ↦ wire j ]

-- `AddSocketResource` with its connector, which is made where the send buffer is.
unfoldable pub add_socket : World → ℤ → Text → Senders → Senders
unfolding add_socket_resource find put Connector.clear
add_socket w fd address s = record s {
  tracker = add_socket_resource w fd address s.tracker;
  send_connects = elim (find fd s.tracker.send_buffers) [
    | some q ↦ s.send_connects
    | none ↦ put fd (some Connector.clear) s.send_connects
  ];
}

-- `RemoveSocketResource` with its connector.
unfoldable pub remove_socket : ℤ → Senders → Senders
unfolding remove_socket_resource erase
remove_socket fd s = record s {
  tracker = remove_socket_resource fd s.tracker;
  send_connects = erase fd s.send_connects;
}

-- `send_connects_[socket_fd]->Send()`, with `answer` for what `send()` returns.
unfoldable pub send_for : (Text → ℤ) → ℤ → Connector → Senders → Sending
unfolding find put transmit Connector.send
send_for answer fd c s = elim (find fd s.tracker.send_buffers) [
  | none ↦ dangles
  | some q ↦ elim (Connector.send answer c q) [
    | loops ↦ spins
    | sends c' q' n sent ↦ went (record s {
      tracker = record s.tracker { send_buffers = put fd q' s.tracker.send_buffers };
      send_connects = put fd (some c') s.send_connects;
      wire = transmit fd sent s.wire;
    })
  ]
]

-- One send event.
unfoldable pub send_event : (Text → ℤ) → ℤ → Senders → Sending
unfolding find insert send_for
send_event answer fd s = elim (find fd s.send_connects) [
  | none ↦ went (record s { send_connects = insert fd none s.send_connects })
  | some connect ↦ elim connect [ some c ↦ send_for answer fd c s | none ↦ went s ]
]

-- The send events of a round of `SocketThread`; the answer of a socket is by the number of events to come.
unfoldable pub send_events_loop : (ℕ → ℤ → Text → ℤ) → List ℤ → Senders → Sending
unfolding send_event
send_events_loop answer [] s = went s
send_events_loop answer (fd ∷ fds) s = elim (send_event (answer (length fds) fd) fd s) [
  | went t ↦ send_events_loop answer fds t
  | spins ↦ spins
  | dangles ↦ dangles
]
