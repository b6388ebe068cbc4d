-- ===== src/Tracker/Sends/Queue.antt =====
-- `SendProtocol` of src/server/tracker.cc, before the sends of the socket thread.
use fast_dcs.Common.{
  ◌+◌, ◌≤◌, ◌<◌, ◌≡◌, ◌≢◌, refl, sym, ap, subst, ◌∙◌, true, false, some, List, [], ◌∷◌, ◌++◌,
  append_assoc, append-nil, arith, length, drop,
}
use fast_dcs.Common.Int.{ℤ_discrete, ℤ, pos}
use fast_dcs.Common.Texts.{Text}
use fast_dcs.Common.Maps.{find, put as put_entry, fd_ord, find-put_self, find-put_ne}
use fast_dcs.Messages.{TrackerProtocol}
use fast_dcs.SignalingQueue.{SignalingQueue, add, Outcome, returns, is_finished}
use fast_dcs.SignalingQueue.Inv.{IsValid, add-IsValid}
use fast_dcs.SignalingQueue.Fifo.{Fifo, view, put, put_locked, used, all_finished, add_refines}
use fast_dcs.Connector.{Connector}
use fast_dcs.Connector.Sending.{joined}
use fast_dcs.Tracker.State.{Tracker, World, ok}
use fast_dcs.Tracker.Sockets.{add_response_addr, queue_message, send_protocol}
use fast_dcs.Tracker.Sends.{Senders}
use fast_dcs.Tracker.Sends.Conserve.{some_inj, IsGood, total}

joined_concat : (ms : List Text) (m : Text) → joined (ms ++ m ∷ []) ≡ joined ms ++ m
joined_concat [] m = append-nil m
joined_concat (x ∷ ms) m =
    ap (λ y. x ++ y) (joined_concat ms m) ∙ sym (append_assoc x (joined ms) m)

put-fits :
    (b : Fifo) (m : Text)
    → all_finished b ≡ false
    → 0 < length m
    → used b.messages + length m ≤ b.capacity
    → put b m true ≡ (record b { messages = b.messages ++ m ∷ [] }, returns (pos (length m)) [])
unfolding put put_locked
put-fits b m o some_bytes room = ground arith

add-fits :
    (q : SignalingQueue) (m : Text)
    → IsValid q
    → is_finished q ≡ false
    → 0 < length m
    → used (view q).messages + length m ≤ q.queue_size
    → Path
        (Fifo × Outcome)
        (view (add q m true).0, (add q m true).1)
        (record (view q) { messages = (view q).messages ++ m ∷ [] }, returns (pos (length m)) [])
add-fits q m v o some_bytes room = add_refines q m true v ∙ put-fits (view q) m o some_bytes room

-- The bytes of a protocol that a server sends on.
abbrev pub bytes_of : World → TrackerProtocol → Senders → Text
bytes_of w proto s =
    w.serialize
      (record proto { response_sock_addr = add_response_addr s.tracker proto.response_sock_addr })

-- The state after `s` in which only what `SendProtocol` may change, the tracker, is another one.
abbrev pub behind : Senders → Tracker → Senders
behind s t = record s { tracker = t }

-- The message goes behind what waits.
abbrev pub queued_at : ℤ → SignalingQueue → Senders → Tracker
queued_at fd q s = record s.tracker {
  send_buffers = put_entry fd q s.tracker.send_buffers;
  send_events = s.tracker.send_events ++ fd ∷ [];
}

abbrev pub queued : ℤ → SignalingQueue → Senders → Senders
queued fd q s = behind s (queued_at fd q s)

pub queued-IsGood :
    (fd : ℤ) (q : SignalingQueue) (s : Senders)
    → IsValid q
    → is_finished q ≡ false
    → IsGood s
    → IsGood (queued fd q s)
queued-IsGood fd q s v o g = record {
  buffer = λ j d h.
      let (p, (at, (r, rest))) = g.buffer j d h in
      elim (ℤ_discrete fd j) [
        | yes same ↦ (
          q,
          (
            ap (λ i. find i (put_entry fd q s.tracker.send_buffers)) (sym same)
                ∙ find-put_self fd q s.tracker.send_buffers,
            (r, (v, o)),
          ),
        )
        | no other ↦ (p, (find-put_ne fd j q s.tracker.send_buffers other ∙ at, (r, rest)))
      ];
}

total-queued :
    (fd : ℤ) (c : Connector) (q q' : SignalingQueue) (m : Text) (s : Senders)
    → find fd s.send_connects ≡ some (some c)
    → find fd s.tracker.send_buffers ≡ some q
    → (view q').messages ≡ (view q).messages ++ m ∷ []
    → total fd (queued fd q' s) ≡ total fd s ++ m
total-queued fd c q q' m s at buffer e =
    let part = drop c.bytes_count c.message in
    rw (find-put_self fd q' s.tracker.send_buffers, at, buffer)
      (ap (λ ms. s.wire fd ++ (part ++ joined ms)) e
        ∙ ap (λ x. s.wire fd ++ (part ++ x)) (joined_concat (view q).messages m)
        ∙ ap (λ x. s.wire fd ++ x) (sym (append_assoc part (joined (view q).messages) m))
        ∙ sym (append_assoc (s.wire fd) (part ++ joined (view q).messages) m))

-- `SendProtocol` to a connected socket, where every connector has a valid buffer whose producers have not ended,
-- and this one's has room for the message, which is not empty: it succeeds. With the connectors and the
-- bytes that the kernel has taken as they were, the message then waits behind all that waited for the socket,
-- nothing changes for other sockets, and the socket thread gets one more event.
pub send_protocol-total :
    (w : World) (proto : TrackerProtocol) (fd : ℤ) (c : Connector) (q : SignalingQueue)
    (s : Senders)
    → IsGood s
    → find fd s.send_connects ≡ some (some c)
    → find fd s.tracker.send_buffers ≡ some q
    → 0 < length (bytes_of w proto s)
    → used (view q).messages + length (bytes_of w proto s) ≤ q.queue_size
    → (t : Tracker) × ((send_protocol w proto fd s.tracker ≡ ok true t)
        × (IsGood (behind s t)
            × ((total fd (behind s t) ≡ total fd s ++ bytes_of w proto s)
                × (((j : ℤ) → fd ≢ j → total j (behind s t) ≡ total j s)
                    × (t.send_events ≡ s.tracker.send_events ++ fd ∷ [])))))
unfolding send_protocol queue_message
send_protocol-total w proto fd c q s g at buffer some_bytes room =
    let (p, (buffer', (r, (v', o')))) = g.buffer fd c at in
    let same = some_inj p q (sym buffer' ∙ buffer) in
    let v = subst IsValid same v' in
    let o = ap is_finished (sym same) ∙ o' in
    let m = bytes_of w proto s in
    let added = add-fits q m v o some_bytes room in
    let q' = (add q m true).0 in
    (
      queued_at fd q' s,
      (
        rw (send_protocol, buffer, queue_message, ap (λ x. x.1) added) refl,
        (
          queued-IsGood fd q' s (add-IsValid q m true v) (ap (λ x. all_finished x.0) added ∙ o) g,
          (
            total-queued fd c q q' m s at buffer (ap (λ x. x.0.messages) added),
            ((λ j other. rw (find-put_ne fd j q' s.tracker.send_buffers other) refl), refl),
          ),
        ),
      ),
    )
