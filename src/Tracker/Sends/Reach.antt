-- ===== src/Tracker/Sends/Reach.antt =====
-- The states that the connections, the messages and the sends of src/server/tracker.cc lead to.
use fast_dcs.Common.{
  ◌⊎◌, ℕ, ◌^◌, ◌≤◌, ◌<◌, ◌≡◌, refl, sym, ap, subst, ◌∙◌, Bool, true, false, inl, inr, Option-cases,
  none, some, List, [], arith, length,
}
use fast_dcs.Common.Int.{ℤ, pos}
use fast_dcs.Common.Texts.{Text}
use fast_dcs.Common.Maps.{find, insert, fd_ord, find-put_self, find-put_ne}
use fast_dcs.Messages.{TrackerProtocol}
use fast_dcs.SignalingQueue.{
  SignalingQueue, add, add_locked, enqueue, returns, waits, Outcome, is_finished,
}
use fast_dcs.SignalingQueue.Inv.{IsValid, add-IsValid}
use fast_dcs.Tracker.State.{Tracker, World, Run, ok, sleeps, ok-inj}
use fast_dcs.Tracker.Sockets.{queue_message, send_protocol}
use fast_dcs.Tracker.Sends.{Senders, went, add_socket, remove_socket, send_events_loop}
use fast_dcs.Tracker.Sends.Queue.{bytes_of, queued}
use fast_dcs.Tracker.Sends.Open.{at-IsGood, remove_socket-IsGood, add_socket-IsGood, added}
use fast_dcs.Tracker.Sends.Conserve.{IsGood, Keeps, some_inj, send_events_loop-Keeps}

outcome_cases : (o : Outcome) → (o ≡ waits) ⊎ ((n : ℤ) × ((text : Text) × (o ≡ returns n text)))
outcome_cases waits = inl refl
outcome_cases (returns n text) = inr (n, (text, refl))

is_finished-add : (q : SignalingQueue) (m : Text) → is_finished (add q m true).0 ≡ is_finished q
unfolding add add_locked enqueue
is_finished-add q m = ground arith

-- A message more in the buffer of a socket.
queued_anywhere-IsGood :
    (fd : ℤ) (q : SignalingQueue) (m : Text) (s : Senders)
    → find fd s.tracker.send_buffers ≡ some q
    → IsGood s
    → IsGood (queued fd (add q m true).0 s)
queued_anywhere-IsGood fd q m s at g =
    at-IsGood fd s (queued fd (add q m true).0 s) (λ j other. refl)
      (λ j other. find-put_ne fd j (add q m true).0 s.tracker.send_buffers other)
      (λ c h.
        let (p, (at', (r, (v, o)))) = g.buffer fd c h in
        let same = some_inj p q (sym at' ∙ at) in
        (
          (add q m true).0,
          (
            find-put_self fd (add q m true).0 s.tracker.send_buffers,
            (
              r,
              (
                add-IsValid q m true (subst IsValid same v),
                is_finished-add q m ∙ ap is_finished (sym same) ∙ o,
              ),
            ),
          ),
        ))
      g

send_protocol_absent :
    (w : World) (proto : TrackerProtocol) (fd : ℤ) (s : Senders)
    → find fd s.tracker.send_buffers ≡ none
    → Path
        (Run Bool)
        (send_protocol w proto fd s.tracker)
        (ok false (record s.tracker { socket_ids = insert fd [] s.tracker.socket_ids }))
unfolding send_protocol
send_protocol_absent w proto fd s absent = rw (send_protocol, absent) refl

send_protocol_queued :
    (w : World) (proto : TrackerProtocol) (fd : ℤ) (q : SignalingQueue) (n : ℤ) (text : Text)
    (s : Senders)
    → find fd s.tracker.send_buffers ≡ some q
    → (add q (bytes_of w proto s) true).1 ≡ returns n text
    → Path
        (Run Bool)
        (send_protocol w proto fd s.tracker)
        (ok true (queued fd (add q (bytes_of w proto s) true).0 s).tracker)
unfolding send_protocol queue_message
send_protocol_queued w proto fd q n text s at fits =
    rw (send_protocol, at, queue_message, fits) refl

send_protocol_full :
    (w : World) (proto : TrackerProtocol) (fd : ℤ) (q : SignalingQueue) (s : Senders)
    → find fd s.tracker.send_buffers ≡ some q
    → (add q (bytes_of w proto s) true).1 ≡ waits
    → Path (Run Bool) (send_protocol w proto fd s.tracker) sleeps
unfolding send_protocol queue_message
send_protocol_full w proto fd q s at full = rw (send_protocol, at, queue_message, full) refl

no_return : {b : Bool} {t : Tracker} → Path (Run Bool) sleeps (ok b t) → ⊥
no_return h = cc

-- `SendProtocol`, whatever it returns.
send_protocol-IsGood :
    (w : World) (proto : TrackerProtocol) (fd : ℤ) (s : Senders) (b : Bool) (t : Tracker)
    → IsGood s
    → send_protocol w proto fd s.tracker ≡ ok b t
    → IsGood (record s { tracker = t })
send_protocol-IsGood w proto fd s b t g h = elim (Option-cases (find fd s.tracker.send_buffers)) [
  | inl absent ↦
      subst (λ u. IsGood (record s { tracker = u }))
        (ok-inj (sym (send_protocol_absent w proto fd s absent) ∙ h)).1
        (record { buffer = g.buffer })
  | inr (q, at) ↦ elim (outcome_cases (add q (bytes_of w proto s) true).1) [
    | inl full ↦ absurd (no_return (sym (send_protocol_full w proto fd q s at full) ∙ h))
    | inr (n, (text, fits)) ↦
        subst (λ u. IsGood (record s { tracker = u }))
          (ok-inj (sym (send_protocol_queued w proto fd q n text s at fits) ∙ h)).1
          (queued_anywhere-IsGood fd q (bytes_of w proto s) s at g)
  ]
]

-- A step of the connections, of a sender, or of the socket thread, whose sockets take first parts.
pub data Step (w : World) : Senders → Senders → Type 0 where
  opened : {s : Senders} (fd : ℤ) (address : Text) → Step w s (add_socket w fd address s)
  closed : {s : Senders} (fd : ℤ) → Step w s (remove_socket fd s)
  queues :
      {s : Senders} (proto : TrackerProtocol) (fd : ℤ) (b : Bool) (t : Tracker)
      → send_protocol w proto fd s.tracker ≡ ok b t
      → Step w s (record s { tracker = t })
  passes :
      {s t : Senders} (accept : ℕ → ℤ → Text → ℕ)
      → ((k : ℕ) (fd : ℤ) (bytes : Text) → accept k fd bytes ≤ length bytes)
      → (fds : List ℤ) → send_events_loop (λ k fd bytes. pos (accept k fd bytes)) fds s ≡ went t
      → Step w s t

-- Any number of steps.
pub data Reaches (w : World) : Senders → Senders → Type 0 where
  start : {s : Senders} → Reaches w s s
  more : {s t u : Senders} → Reaches w s t → Step w t u → Reaches w s u

went_inj : (s t : Senders) → went s ≡ went t → s ≡ t
went_inj s t h = cc

Step-IsGood :
    (w : World) (s t : Senders)
    → 0 < w.socket_buff_size
    → w.socket_buff_size ≤ 2 ^ 30
    → Step w s t
    → IsGood s
    → IsGood t
unfolding add_socket added
Step-IsGood w s t sized small (opened fd address) g = add_socket-IsGood w fd address s sized small g
Step-IsGood w s t sized small (closed fd) g = remove_socket-IsGood fd s g
Step-IsGood w s t sized small (queues proto fd b u h) g = send_protocol-IsGood w proto fd s b u g h
Step-IsGood w s t sized small (passes accept fits fds h) g =
    let (u, (at, (g', rest))) = send_events_loop-Keeps accept fits fds s g in
    subst IsGood (went_inj u t (sym at ∙ h)) g'

Reaches-IsGood :
    (w : World) (s t : Senders)
    → 0 < w.socket_buff_size
    → w.socket_buff_size ≤ 2 ^ 30
    → Reaches w s t
    → IsGood s
    → IsGood t
Reaches-IsGood w s t sized small start g = g
Reaches-IsGood w s t sized small (more r step) g =
    Step-IsGood w _ t sized small step (Reaches-IsGood w s _ sized small r g)

-- From a server without connections, whose buffers have from 1 to 2 ^ 30 bytes, however sockets come and go,
-- messages are queued and sockets take first parts of what they are given: all send events go through, for every
-- socket what it has taken and what waits for it stays together the same, and no event is queued for what a
-- socket has not taken.
pub reached_sends_go_through :
    (w : World) (s t : Senders)
    → 0 < w.socket_buff_size
    → w.socket_buff_size ≤ 2 ^ 30
    → s.send_connects ≡ []
    → Reaches w s t
    → (accept : ℕ → ℤ → Text → ℕ)
    → ((k : ℕ) (fd : ℤ) (bytes : Text) → accept k fd bytes ≤ length bytes)
    → (fds : List ℤ) → Keeps t (send_events_loop (λ k fd bytes. pos (accept k fd bytes)) fds t)
unfolding find
reached_sends_go_through w s t sized small none_yet r accept fits fds =
    send_events_loop-Keeps accept fits fds t
      (Reaches-IsGood w s t sized small r (record { buffer = λ fd c h. cc (none_yet, h) }))
