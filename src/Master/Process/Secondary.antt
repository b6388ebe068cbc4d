-- ===== src/Master/Process/Secondary.antt =====
-- A master that is not the primary one.
use fast_dcs.Common.{◌≡◌, refl, true, false, none, [], ◌∷◌, arith, length}
use fast_dcs.Common.Int.{ℤ}
use fast_dcs.Common.Texts.{contains, eq, is_empty}
use fast_dcs.Common.Maps.{find, text_ord}
use fast_dcs.Messages.{TrackerProtocol}
use fast_dcs.Enviroment.{idle_tasks_size}
use fast_dcs.Tracker.State.{
  Tracker, World, ok, aborts, own, ◌>>◌, i_am_primary_master, i_know_primary_master, socket_of,
}
use fast_dcs.Tracker.Sockets.{check_ip, send_protocol}
use fast_dcs.Tracker.Frame.{Kept, Keeps-bind, Kept-elim, send_protocol-Keeps, socket_of-Keeps}
use fast_dcs.Master.Tasks.{request_task_duplicate_call}
use fast_dcs.Strings.Split.{split_string_using}
use fast_dcs.Master.Circle.{closed_circle}
use fast_dcs.Master.Process.{process_coordinator, process_request_task, master_heart_beat}

-- A master that is not the primary one hands out no task for a request that it has not sent on
-- before: it forwards the request, or drops it, and its tasks and results stay as they are.
pub process_request_task-Kept :
    (w : World) (fd : ℤ) (proto : TrackerProtocol) (s : Tracker)
    → i_am_primary_master s ≡ false
    → contains proto.response_sock_addr (own s) ≡ false
    → Kept s (process_request_task w fd proto s)
unfolding process_request_task
process_request_task-Kept w fd proto s p c =
    rw (p, c, process_request_task)
      (Kept-elim s (i_know_primary_master s) _ (ok true s)
        (Keeps-bind (socket_of s.primary_sockaddr) _ (socket_of-Keeps s.primary_sockaddr)
          (λ to.
            Keeps-bind (send_protocol w (record proto { forwarding_sock_fd = fd }) to) _
              (send_protocol-Keeps w (record proto { forwarding_sock_fd = fd }) to)
              (λ sent t. (refl, refl)))
          s)
        (refl, refl))

-- An announcement that is back at its sender, or at a master that it has passed, and that names another master as
-- the primary one, ends this master at its next heartbeat, where it has no connection to that one and no idle
-- task: the announcement makes no connection, and the heartbeat reads the socket of the missing one. The
-- address that is announced has a host and a port.
pub announced_primary_aborts :
    (w w' : World) (proto : TrackerProtocol) (s : Tracker)
    → closed_circle s proto ≡ true
    → length (split_string_using proto.response_result (b':' ∷ [])) ≡ 2
    → is_empty proto.response_result ≡ false
    → eq proto.response_result (own s) ≡ false
    → find proto.response_result s.master_sockets ≡ none
    → idle_tasks_size s.fdcs_env w'.now ≡ 0
    → (process_coordinator w proto >> master_heart_beat w') s ≡ aborts
unfolding process_coordinator check_ip master_heart_beat request_task_duplicate_call socket_of
    i_am_primary_master i_know_primary_master
announced_primary_aborts w w' proto s c p e o n i = ground arith
