-- ===== src/Tracker/Deliver/Reading.antt =====
-- From the bytes that a socket's callback reads to the handler of messages.
use fast_dcs.Common.{
  ◌≡◌, refl, ap, ◌∙◌, ◌<◌, ◌≤◌, Bool, true, false, some, [], ◌∷◌, ◌++◌, arith, length,
}
use fast_dcs.Common.Int.{ℤ}
use fast_dcs.Common.Texts.{Text, is_empty}
use fast_dcs.Common.Maps.{find, put, fd_ord, find-put_self}
use fast_dcs.Messages.{TrackerProtocol}
use fast_dcs.SignalingQueue
use fast_dcs.SignalingQueue.{SignalingQueue, is_finished}
use fast_dcs.SignalingQueue.Inv.{IsValid, add-IsValid}
use fast_dcs.SignalingQueue.Fifo.{view}
use fast_dcs.Tracker.State.{Tracker, World, M, ◌>>◌, pure, bind_ok}
use fast_dcs.Tracker.Events.{receive_event}
use fast_dcs.Tracker.Callbacks.{epoll_read_callback}
use fast_dcs.Tracker.Deliver.{receive_event_lem, add_receive_socket_buffer_lem}

not_empty : (bytes : Text) → 0 < length bytes → is_empty bytes ≡ false
not_empty [] h = absurd (omega arith)
not_empty (b ∷ bytes) h = refl

-- What is read from a socket at one time, if it is not empty and fits the free part of the socket's valid
-- buffer, which holds no message and has not ended, reaches the handler as one message, and the buffer
-- holds no message afterwards.
pub read_reaches_handler :
    (w : World) (handler : ℤ → TrackerProtocol → M Bool) (fd : ℤ) (guest bytes : Text) (s : Tracker)
    (q : SignalingQueue)
    → find fd s.receive_buffers ≡ some (some q)
    → IsValid q
    → (view q).messages ≡ []
    → 0 < length bytes
    → length bytes ≤ q.free_size
    → is_finished q ≡ false
    → let q' = (SignalingQueue.add q bytes true).0 in
      let q'' = (SignalingQueue.remove q' true).0 in
      ((epoll_read_callback w fd guest (some bytes) >> receive_event w handler fd) s
        ≡ (handler fd (w.parse bytes) >> pure tt) (record s {
          receive_buffers = put fd (some q'') (put fd (some q') s.receive_buffers);
          receive_events = s.receive_events ++ fd ∷ [];
        }))
      × ((view q'').messages ≡ [])
unfolding epoll_read_callback
read_reaches_handler w handler fd guest bytes s q e v n p h f =
    let back = add_receive_socket_buffer_lem fd bytes s q e v p h f in
    let q' = (SignalingQueue.add q bytes true).0 in
    let s' = record s {
      receive_buffers = put fd (some q') s.receive_buffers;
      receive_events = s.receive_events ++ fd ∷ [];
    } in
    let front =
      receive_event_lem w handler fd s' q' bytes [] (find-put_self fd (some q') s.receive_buffers)
        (add-IsValid q bytes true v) (back.1 ∙ ap (λ ms. ms ++ bytes ∷ []) n) in
    (
      bind_ok (epoll_read_callback w fd guest (some bytes)) (λ _. receive_event w handler fd) s tt
            s' (rw (not_empty bytes p, epoll_read_callback) back.0)
          ∙ front.0,
      front.1,
    )
