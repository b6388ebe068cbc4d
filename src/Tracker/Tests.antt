-- ===== src/Tracker/Tests.antt =====
-- Runs of the connections and events, and the theorems at inputs that meet their hypotheses.
use fast_dcs.Common.{◌≡◌, refl, Bool, true, false, none, some, [], ◌∷◌, arith}
use fast_dcs.Common.Int.{ℤ, pos, negsuc, ◌-ℤ◌}
use fast_dcs.Common.Texts.{codes, eq}
use fast_dcs.Common.Maps.{find, put, fd_ord, text_ord, cmp_ℤ, lex}
use fast_dcs.Messages.{TrackerProtocol}
use fast_dcs.SignalingQueue
use fast_dcs.SignalingQueue.Fifo.{view}
use fast_dcs.Tracker.State.{World, Run, ok, aborts, sleeps, M, ◌>>◌, pure, socket_of}
use fast_dcs.Tracker.Sockets.{connect_master, add_receive_socket_buffer, add_socket_resource}
use fast_dcs.Tracker.Masters.{group, next_in, find_next_loop, find_next_master}
use fast_dcs.Strings.Split.{skip}
use fast_dcs.Tracker.Masters.Next.{try_in_order, find_next_master_lem}
use fast_dcs.Tracker.Events.{receive_event}
use fast_dcs.Tracker.Callbacks.{epoll_read_callback}
use fast_dcs.Tracker.Deliver.Reading.{read_reaches_handler}
use fast_dcs.Tracker.Deliver.{reused_descriptor_aborts, oversized_message_sleeps}
use fast_dcs.Tracker.Samples.{
  first_master, third_master, no_network, network, second_server, empty_buffer,
  empty_buffer-IsValid, second_server-group, second_server-Distinct,
}

-- A network in which the first master answers, on descriptor 6.
abbrev first_answers : World
first_answers =
    network (λ a. elim (eq a first_master) [ true ↦ some (pos 6) | false ↦ none ]) (pos 105)

descriptor : Run ℤ → ℤ
descriptor (ok fd s) = fd
descriptor r = negsuc 9

-- The third master is tried, then the first one.
find_next_master_first : descriptor (find_next_master first_answers second_server) ≡ pos 6
unfolding descriptor find_next_master group skip find_next_loop eq next_in connect_master socket_of
    lex
find_next_master_first = refl

find_next_master_lem_example :
    find_next_master first_answers second_server
    ≡ try_in_order first_answers (third_master ∷ first_master ∷ []) second_server
find_next_master_lem_example =
    find_next_master_lem first_answers second_server (first_master ∷ []) (third_master ∷ [])
      second_server-group second_server-Distinct

abbrev taking : ℤ → TrackerProtocol → M Bool
taking fd proto s = ok true (record s { primary_sockaddr = proto.request_args })

oversized_message_sleeps_example :
    (add_receive_socket_buffer (pos 4) (codes "too long!")
        >> receive_event no_network taking (pos 4))
      second_server
    ≡ sleeps
unfolding find cmp_ℤ ◌-ℤ◌
oversized_message_sleeps_example =
    oversized_message_sleeps no_network taking (pos 4) (codes "too long!") second_server
      empty_buffer refl refl refl (omega arith)

reused_descriptor_aborts_example :
    (receive_event no_network taking (pos 5) >> λ t.
    add_receive_socket_buffer
      (pos 5)
      (codes "hello")
      (add_socket_resource no_network (pos 5) (codes "10.0.0.8:4000") t))
      second_server
    ≡ aborts
unfolding find cmp_ℤ ◌-ℤ◌
reused_descriptor_aborts_example =
    reused_descriptor_aborts no_network taking (pos 5) (codes "10.0.0.8:4000") (codes "hello")
      second_server refl

read_reaches_handler_example :
    let q' = (SignalingQueue.add empty_buffer (codes "hello") true).0 in
    let q'' = (SignalingQueue.remove q' true).0 in
    ((epoll_read_callback no_network (pos 4) [] (some (codes "hello"))
          >> receive_event no_network taking (pos 4))
        second_server
      ≡ (taking (pos 4) (no_network.parse (codes "hello")) >> pure tt) (record second_server {
        receive_buffers =
            put (pos 4) (some q'') (put (pos 4) (some q') second_server.receive_buffers);
        receive_events = pos 4 ∷ [];
      }))
    × ((view q'').messages ≡ [])
unfolding find cmp_ℤ ◌-ℤ◌
read_reaches_handler_example =
    read_reaches_handler no_network taking (pos 4) [] (codes "hello") second_server empty_buffer
      refl empty_buffer-IsValid refl (omega arith) (omega arith) refl
