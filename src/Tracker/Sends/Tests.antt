-- ===== src/Tracker/Sends/Tests.antt =====
-- Runs of the send events, on a server with one client at descriptor 4.
use fast_dcs.Common.{
  ℕ, ◌≤◌, ◌+◌, ◌≡◌, ◌≢◌, refl, subst, none, some, List, [], ◌∷◌, ◌++◌, true, false, arith, length,
}
use fast_dcs.Common.Int.{ℤ, ℤ_discrete, pos}
use fast_dcs.Common.Texts.{Text, codes}
use fast_dcs.Common.Maps.{find, put, insert, fd_ord, find-put_ne}
use fast_dcs.Connector
use fast_dcs.SignalingQueue.{SignalingQueue, is_finished}
use fast_dcs.SignalingQueue.Inv.{IsValid}
use fast_dcs.Messages.{TrackerProtocol, worker_request_task}
use fast_dcs.Tracker.State.{Tracker, ok}
use fast_dcs.Tracker.Sockets.{send_protocol}
use fast_dcs.Tracker.Samples.{
  no_network, second_server, empty_buffer, empty_buffer-IsValid, hello_buffer, hello_buffer-IsValid,
  request,
}
use fast_dcs.Tracker.Sends.{Senders, went, send_events_loop, add_socket}
use fast_dcs.Tracker.Sends.Conserve.{some_inj, IsGood, Keeps, total}
use fast_dcs.Tracker.Sends.Drain.{send_events_loop_drains}
use fast_dcs.Tracker.Sends.Whole.{takes_all}
use fast_dcs.Tracker.Sends.Queue.{behind, send_protocol-total}
use fast_dcs.Tracker.Sends.Open.{Backed, at-IsGood}
use fast_dcs.Tracker.Sends.Reach.{start, more, opened, reached_sends_go_through}

abbrev unconnected : Senders
unconnected = record {
  tracker = record second_server { send_buffers = []; receive_buffers = []; socket_ids = [] };
  send_connects = [];
  wire = λ fd. [];
}

-- A client has come.
abbrev connected : Senders
connected = add_socket no_network (pos 4) [] unconnected

-- A client between messages, with its send buffer.
abbrev client_with : SignalingQueue → Senders
client_with q = record {
  tracker = record second_server { send_buffers = (pos 4, q) ∷ [] };
  send_connects = (pos 4, some Connector.clear) ∷ [];
  wire = λ fd. [];
}

client_with-IsGood :
    (q : SignalingQueue) → IsValid q → is_finished q ≡ false → IsGood (client_with q)
unfolding put find Connector.clear fast_dcs.Common.Maps.cmp_ℤ
client_with-IsGood q v o =
    at-IsGood (pos 4) unconnected (client_with q)
      (λ j other. find-put_ne (pos 4) j (some Connector.clear) [] other)
      (λ j other. find-put_ne (pos 4) j q [] other)
      (λ c h.
        subst (Backed (some q))
          (some_inj Connector.clear c (some_inj (some Connector.clear) (some c) h))
          (q, (refl, (omega arith, (v, o)))))
      (record { buffer = λ fd c h. cc })

abbrev waiting_client : Senders
waiting_client = client_with hello_buffer

-- A socket that takes three bytes at most.
abbrev three_at_most : ℕ → ℤ → Text → ℕ
three_at_most k fd [] = 0
three_at_most k fd (x ∷ []) = 1
three_at_most k fd (x ∷ y ∷ []) = 2
three_at_most k fd (x ∷ y ∷ z ∷ rest) = 3

three_at_most-fits : (k : ℕ) (fd : ℤ) (bytes : Text) → three_at_most k fd bytes ≤ length bytes
three_at_most-fits k fd [] = omega arith
three_at_most-fits k fd (x ∷ []) = omega arith
three_at_most-fits k fd (x ∷ y ∷ []) = omega arith
three_at_most-fits k fd (x ∷ y ∷ z ∷ rest) = omega arith

reached_sends_go_through_example :
    Keeps connected (
      send_events_loop
        (λ k fd bytes. pos (three_at_most k fd bytes))
        (pos 4 ∷ pos 5 ∷ [])
        connected)
reached_sends_go_through_example =
    reached_sends_go_through no_network unconnected connected (omega arith) (omega arith) refl
      (more start (opened (pos 4) [])) three_at_most three_at_most-fits (pos 4 ∷ pos 5 ∷ [])

send_events_loop_drains_example :
    (t : Senders) × ((send_events_loop
          (λ k fd bytes. takes_all bytes)
          (pos 5 ∷ pos 4 ∷ [])
          waiting_client
        ≡ went t)
      × (t.wire (pos 4) ≡ total (pos 4) waiting_client))
unfolding find ℤ_discrete Connector.clear fast_dcs.Common.Maps.cmp_ℤ
    native.Mathlib.Decide.ℕ_discrete
send_events_loop_drains_example =
    send_events_loop_drains (pos 5 ∷ pos 4 ∷ []) (pos 4) waiting_client
      (client_with-IsGood hello_buffer hello_buffer-IsValid refl)
      (Connector.clear, (hello_buffer, (refl, (refl, (refl, (refl, omega arith))))))

abbrev empty_client : Senders
empty_client = client_with empty_buffer

-- `no_network` writes just the arguments of a protocol.
abbrev greeting : TrackerProtocol
greeting = record (request worker_request_task) { request_args = codes "hello" }

send_protocol-total_example :
    (t : Tracker) × ((send_protocol no_network greeting (pos 4) empty_client.tracker ≡ ok true t)
      × (IsGood (behind empty_client t)
          × ((total (pos 4) (behind empty_client t) ≡ total (pos 4) empty_client ++ codes "hello")
              × (((j : ℤ) → pos 4 ≢ j → total j (behind empty_client t) ≡ total j empty_client)
                  × (t.send_events ≡ empty_client.tracker.send_events ++ pos 4 ∷ [])))))
unfolding find fast_dcs.Common.Maps.cmp_ℤ
send_protocol-total_example =
    send_protocol-total no_network greeting (pos 4) Connector.clear empty_buffer empty_client
      (client_with-IsGood empty_buffer empty_buffer-IsValid refl) refl refl (omega arith)
      (omega arith)
