-- ===== src/Tracker/Deliver.antt =====
-- A received message on its way through a socket's buffer to the handler.
pub mod Reading
use fast_dcs.Common.{
  ◌≡◌, refl, ◌<◌, ◌≤◌, Bool, true, false, none, some, List, [], ◌∷◌, ◌++◌, arith, length,
}
use fast_dcs.Common.Int.{ℤ}
use fast_dcs.Common.Texts.{Text}
use fast_dcs.Common.Maps.{find, put, insert, fd_ord, find-put_self}
use fast_dcs.Messages.{TrackerProtocol}
use fast_dcs.SignalingQueue
use fast_dcs.SignalingQueue.{SignalingQueue, Outcome, returns, waits, is_finished}
use fast_dcs.SignalingQueue.Inv.{IsValid}
use fast_dcs.SignalingQueue.Fifo.{view}
use fast_dcs.SignalingQueue.Fifo.Ends.{add_back, remove_front}
use fast_dcs.Tracker.State.{Tracker, World, ok, aborts, sleeps, M, ◌>>◌, pure}
use fast_dcs.Tracker.Sockets.{add_receive_socket_buffer, add_socket_resource}
use fast_dcs.Tracker.Events.{receive_event}

-- A receive event of a socket whose valid buffer holds messages gives the oldest one to the
-- handler, parsed, and takes just it off the buffer.
pub receive_event_lem :
    (w : World) (handler : ℤ → TrackerProtocol → M Bool) (fd : ℤ) (s : Tracker) (q : SignalingQueue)
    (m : Text) (ms : List Text)
    → find fd s.receive_buffers ≡ some (some q)
    → IsValid q
    → (view q).messages ≡ m ∷ ms
    → let q' = (SignalingQueue.remove q true).0 in
      (receive_event w handler fd s
        ≡ (handler fd (w.parse m) >> pure tt)
            (record s { receive_buffers = put fd (some q') s.receive_buffers }))
      × ((view q').messages ≡ ms)
unfolding receive_event
receive_event_lem w handler fd s q m ms e v h =
    let front = remove_front q m ms v h in (rw (e, front.0, receive_event) refl, front.1)

-- Bytes, at least one, that fit the free part of their socket's valid buffer stand behind what
-- it holds, and an event is queued for them. The buffer's producers have not ended.
pub add_receive_socket_buffer_lem :
    (fd : ℤ) (bytes : Text) (s : Tracker) (q : SignalingQueue)
    → find fd s.receive_buffers ≡ some (some q)
    → IsValid q
    → 0 < length bytes
    → length bytes ≤ q.free_size
    → is_finished q ≡ false
    → let q' = (SignalingQueue.add q bytes true).0 in
      (add_receive_socket_buffer fd bytes s
        ≡ ok tt (record s {
          receive_buffers = put fd (some q') s.receive_buffers;
          receive_events = s.receive_events ++ fd ∷ [];
        }))
      × ((view q').messages ≡ (view q).messages ++ bytes ∷ [])
unfolding add_receive_socket_buffer
add_receive_socket_buffer_lem fd bytes s q e v p h f =
    let back = add_back q bytes v p h f in (rw (e, back.0, add_receive_socket_buffer) refl, back.1)

-- A message longer than its socket's buffer, which holds nothing and has not ended, is thrown
-- away, but its event is not: the socket thread then sleeps in `Remove`.
pub oversized_message_sleeps :
    (w : World) (handler : ℤ → TrackerProtocol → M Bool) (fd : ℤ) (bytes : Text) (s : Tracker)
    (q : SignalingQueue)
    → find fd s.receive_buffers ≡ some (some q)
    → q.message_positions ≡ []
    → is_finished q ≡ false
    → q.queue_size < length bytes
    → (add_receive_socket_buffer fd bytes >> receive_event w handler fd) s ≡ sleeps
unfolding add_receive_socket_buffer receive_event SignalingQueue.add SignalingQueue.remove
    SignalingQueue.remove_from
oversized_message_sleeps w handler fd bytes s q e m f h =
    ground (arith, find-put_self fd (some q) s.receive_buffers)

-- An event of a socket that is closed leaves a NULL buffer for its descriptor. The next connection that
-- gets this descriptor keeps it, and its first bytes end the process.
pub reused_descriptor_aborts :
    (w : World) (handler : ℤ → TrackerProtocol → M Bool) (fd : ℤ) (address bytes : Text)
    (s : Tracker)
    → find fd s.receive_buffers ≡ none
    → (receive_event w handler fd >> λ t.
          add_receive_socket_buffer fd bytes (add_socket_resource w fd address t))
        s
      ≡ aborts
unfolding receive_event add_socket_resource add_receive_socket_buffer insert
reused_descriptor_aborts w handler fd address bytes s e =
    ground (arith, find-put_self fd none s.receive_buffers)
