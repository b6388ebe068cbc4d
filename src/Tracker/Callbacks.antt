-- ===== src/Tracker/Callbacks.antt =====
-- The start of a server and the callbacks of its event loop, in src/server/tracker.cc.
use fast_dcs.Common.{Bool, Option, none, some, [], if◌then◌else◌}
use fast_dcs.Common.Int.{ℤ, pos}
use fast_dcs.Common.Texts.{Text, is_empty}
use fast_dcs.Messages.{Settings}
use fast_dcs.Tracker.State.{Tracker, World, ok, M, ◌>>◌, pure}
use fast_dcs.Tracker.Sockets.{add_socket_resource, add_receive_socket_buffer}
use fast_dcs.Tracker.Masters.{group, socket_close}

-- The fields of a server before `InitialTracker`.
unfoldable pub new_tracker : Bool → Text → Settings → Tracker
new_tracker is_master worker_sockaddr settings = record {
  is_master = is_master;
  primary_sockaddr = [];
  worker_sockaddr = worker_sockaddr;
  socket_ids = [];
  master_sockets = [];
  tracker_status = [];
  send_buffers = [];
  receive_buffers = [];
  send_events = [];
  receive_events = [];
  conhash = [];
  fdcs_env = record {
    settings = settings;
    fdcs_time_differ = pos 0;
    completed_tasks = [];
    tasks = [];
  };
}

-- `InitialTracker`: a worker starts with all masters of the group in its hash ring.
unfoldable pub initial_tracker : Bool → Text → Settings → Tracker
unfolding new_tracker group
initial_tracker is_master worker_sockaddr settings =
    let s = new_tracker is_master worker_sockaddr settings in
    if is_master then s else record s { conhash = group s }

module _ (w : World) where
  -- `EpollCloseCallback`; `guest` is the address at the other end of the socket.
  unfoldable pub epoll_close_callback : ℤ → Text → M Bool
  unfolding socket_close
  epoll_close_callback fd guest s = socket_close w fd guest s

  -- `EpollAccentCallback`, with the descriptor that `accept` gives.
  unfoldable pub epoll_accent_callback : ℤ → Tracker → Tracker
  unfolding add_socket_resource
  epoll_accent_callback sock_client s = add_socket_resource w sock_client [] s

  -- `EpollReadCallback`: all the bytes that can be read are one message. `none` is an error of the first
  -- `read`.
  unfoldable pub epoll_read_callback : ℤ → Text → Option Text → M (Unit {0})
  unfolding socket_close add_receive_socket_buffer
  epoll_read_callback fd guest none s = (socket_close w fd guest >> pure tt) s
  epoll_read_callback fd guest (some message) s =
      if is_empty message then ok tt s else add_receive_socket_buffer fd message s
