-- ===== src/Tracker/Sends/Conserve.antt =====
-- What passes between the send buffers of src/server/tracker.cc and the sockets.
use fast_dcs.Common.{
  ℕ, ◌≤◌, ◌≡◌, ◌≢◌, refl, sym, ap, subst, ◌∙◌, Bool-cases, false, inl, inr, Option, Option-cases,
  none, some, List, [], ◌∷◌, ◌++◌, append_assoc, length,
}
use fast_dcs.Common.Int.{ℤ_discrete, ℤ, pos}
use fast_dcs.Common.Texts.{Text, is_empty}
use fast_dcs.Common.Maps.{find, put, insert, fd_ord, find-put_self, find-put_ne}
use fast_dcs.SignalingQueue.{SignalingQueue, remove, remove_from, is_finished}
use fast_dcs.SignalingQueue.Inv.{IsValid}
use fast_dcs.Connector.{Connector, Sent, sends, loops, send, send_loaded, send_rest, load}
use fast_dcs.Connector.Sending.{Ready, pending, Conserves, not_over, send-Conserves}
use fast_dcs.Tracker.Sends.{
  Senders, Sending, went, transmit, send_for, send_event, send_events_loop,
}

-- What the connector and the buffer of a socket hold.
abbrev left_of : Option (Option Connector) → Option SignalingQueue → Text
left_of (some (some c)) (some q) = pending c q
left_of (some (some c)) none = []
left_of (some none) b = []
left_of none b = []

abbrev pub waiting : ℤ → Senders → Text
waiting fd s = left_of (find fd s.send_connects) (find fd s.tracker.send_buffers)

-- What the socket has taken and what waits for it.
abbrev pub total : ℤ → Senders → Text
total fd s = s.wire fd ++ waiting fd s

-- Every connector has a valid send buffer whose producers have not ended.
pub record IsGood (s : Senders) : Type 0 where
  pub buffer :
      (fd : ℤ) (c : Connector)
      → find fd s.send_connects ≡ some (some c)
      → (q : SignalingQueue) × ((find fd s.tracker.send_buffers ≡ some q)
          × (Ready c × (IsValid q × (is_finished q ≡ false))))

-- The producers of the buffer have not ended.
abbrev Open : Sent → Type 0
Open (sends c q n sent) = is_finished q ≡ false
Open loops = Unit {0}

send_rest-Open :
    (answer : Text → ℤ) (c : Connector) (q : SignalingQueue)
    → is_finished q ≡ false
    → Open (send_rest answer c q)
unfolding send_rest
send_rest-Open answer c q h = h

send_loaded-Open :
    (answer : Text → ℤ) (c : Connector) (q : SignalingQueue)
    → is_finished q ≡ false
    → Open (send_loaded answer c q)
unfolding send_loaded send_rest
send_loaded-Open answer c q h = elim (Bool-cases (is_empty c.message)) [
  | inl nothing_read ↦ rw (send_loaded, nothing_read, not_over q h) h
  | inr read ↦ rw (send_loaded, read) (send_rest-Open answer c q h)
]

is_finished-remove_from :
    (q : SignalingQueue) (ms : List (ℕ × ℕ))
    → is_finished (remove_from q ms false).0 ≡ is_finished q
unfolding remove_from
is_finished-remove_from q [] = refl
is_finished-remove_from q ((p, size) ∷ ms) = refl

pub send-Open :
    (answer : Text → ℤ) (c : Connector) (q : SignalingQueue)
    → is_finished q ≡ false
    → Open (send answer c q)
unfolding send remove
send-Open answer c q h = elim (Bool-cases (is_empty c.message)) [
  | inl sent_all ↦
      rw (send, sent_all)
        (send_loaded-Open answer (load c (remove_from q q.message_positions false).1)
          (remove_from q q.message_positions false).0
          (is_finished-remove_from q q.message_positions ∙ h))
  | inr part ↦ rw (send, part) (send_rest-Open answer c q h)
]

-- What a call of `Send` leaves, where it conserves.
pub sent_lem :
    (before : Text) (r : Sent)
    → Conserves before r
    → Open r
    → (c : Connector) × ((q : SignalingQueue) × ((n : ℤ) × ((sent : Text) × ((r ≡ sends c q n sent)
              × ((sent ++ pending c q ≡ before)
                  × (Ready c × (IsValid q × (is_finished q ≡ false))))))))
sent_lem before (sends c q n sent) h o = (c, (q, (n, (sent, (refl, (h.0, (h.1, (h.2, o))))))))
sent_lem before loops h o = absurd h

-- The state after a call of `Send`.
abbrev pub after : ℤ → Connector → SignalingQueue → Text → Senders → Senders
after fd c q sent s = record s {
  tracker = record s.tracker { send_buffers = put fd q s.tracker.send_buffers };
  send_connects = put fd (some c) s.send_connects;
  wire = transmit fd sent s.wire;
}

pub some_inj {ℓ} : {A : Type ℓ} (a b : A) → Path (Option A) (some a) (some b) → a ≡ b
some_inj a b h = cc

after-IsGood :
    (fd : ℤ) (c : Connector) (q : SignalingQueue) (sent : Text) (s : Senders)
    → Ready c
    → IsValid q
    → is_finished q ≡ false
    → IsGood s
    → IsGood (after fd c q sent s)
after-IsGood fd c q sent s r v o g = record {
  buffer = λ j d h. elim (ℤ_discrete fd j) [
    | yes same ↦
        subst
          (λ i.
            (p : SignalingQueue) × ((find i (put fd q s.tracker.send_buffers) ≡ some p)
              × (Ready d × (IsValid p × (is_finished p ≡ false)))))
          same
          (
            q,
            (
              find-put_self fd q s.tracker.send_buffers,
              (
                subst Ready
                    (some_inj c d (
                      some_inj (some c) (some d) (
                        sym (find-put_self fd (some c) s.send_connects)
                        ∙ ap (λ i. find i (put fd (some c) s.send_connects)) same
                        ∙ h)))
                    r,
                (v, o),
              ),
            ),
          )
    | no other ↦
        let (p, (at, rest)) =
          g.buffer j d (sym (find-put_ne fd j (some c) s.send_connects other) ∙ h) in
        (p, (find-put_ne fd j q s.tracker.send_buffers other ∙ at, rest))
  ];
}

transmit_self :
    (fd : ℤ) (bytes : Text) (wire : ℤ → Text) → transmit fd bytes wire fd ≡ wire fd ++ bytes
unfolding transmit
transmit_self fd bytes wire =
    elim (ℤ_discrete fd fd)
      as (λ d.
        elim d as (λ _. Text) [ yes same ↦ wire fd ++ bytes | no other ↦ wire fd ]
        ≡ wire fd ++ bytes) [ yes same ↦ refl | no other ↦ absurd (other refl) ]

transmit_ne :
    (fd j : ℤ) (bytes : Text) (wire : ℤ → Text) → fd ≢ j → transmit fd bytes wire j ≡ wire j
unfolding transmit
transmit_ne fd j bytes wire h =
    elim (ℤ_discrete fd j)
      as (λ d. elim d as (λ _. Text) [ yes same ↦ wire j ++ bytes | no other ↦ wire j ] ≡ wire j) [
        | yes same ↦ absurd (h same)
        | no other ↦ refl
      ]

total-after :
    (fd j : ℤ) (c d : Connector) (p q : SignalingQueue) (sent : Text) (s : Senders)
    → find fd s.send_connects ≡ some (some d)
    → find fd s.tracker.send_buffers ≡ some p
    → sent ++ pending c q ≡ pending d p
    → total j (after fd c q sent s) ≡ total j s
total-after fd j c d p q sent s at buffer e = elim (ℤ_discrete fd j) [
  | yes same ↦
      subst (λ i. total i (after fd c q sent s) ≡ total i s) same
        (rw
          (
            transmit_self fd sent s.wire,
            find-put_self fd (some c) s.send_connects,
            find-put_self fd q s.tracker.send_buffers,
            at,
            buffer,
          )
          (append_assoc (s.wire fd) sent (pending c q) ∙ ap (λ x. s.wire fd ++ x) e))
  | no other ↦
      rw
        (
          transmit_ne fd j sent s.wire other,
          find-put_ne fd j (some c) s.send_connects other,
          find-put_ne fd j q s.tracker.send_buffers other,
        )
        refl
]

-- The sends went through; no byte was lost, and no event was queued.
abbrev pub Keeps : Senders → Sending → Type 0
Keeps s r =
    (t : Senders) × ((r ≡ went t)
      × (IsGood t
          × (((j : ℤ) → total j t ≡ total j s) × (t.tracker.send_events ≡ s.tracker.send_events))))

pub insert-put :
    (fd : ℤ) (m : List (ℤ × Option Connector)) → find fd m ≡ none → insert fd none m ≡ put fd none m
unfolding insert
insert-put fd m new = rw (insert, new) refl

null-IsGood :
    (fd : ℤ) (s : Senders)
    → find fd s.send_connects ≡ none
    → IsGood s
    → IsGood (record s { send_connects = insert fd none s.send_connects })
null-IsGood fd s new g = rw (insert-put fd s.send_connects new) (record {
  buffer = λ j d h. elim (ℤ_discrete fd j) [
    | yes same ↦ cc (find-put_self fd none s.send_connects)
    | no other ↦ g.buffer j d (sym (find-put_ne fd j none s.send_connects other) ∙ h)
  ];
})

total-null :
    (fd j : ℤ) (s : Senders)
    → find fd s.send_connects ≡ none
    → total j (record s { send_connects = insert fd none s.send_connects }) ≡ total j s
total-null fd j s new = rw (insert-put fd s.send_connects new) (elim (ℤ_discrete fd j) [
  | yes same ↦
      subst (λ i. total i (record s { send_connects = put fd none s.send_connects }) ≡ total i s)
        same (rw (find-put_self fd none s.send_connects, new) refl)
  | no other ↦ rw (find-put_ne fd j none s.send_connects other) refl
])

module _ (accept : ℤ → Text → ℕ)
    (fits : (fd : ℤ) (bytes : Text) → accept fd bytes ≤ length bytes) where
  send_for-Keeps :
      (fd : ℤ) (c : Connector) (s : Senders)
      → IsGood s
      → find fd s.send_connects ≡ some (some c)
      → Keeps s (send_for (λ bytes. pos (accept fd bytes)) fd c s)
  unfolding send_for
  send_for-Keeps fd c s g at =
      let (q, (buffer, (r, (v, o)))) = g.buffer fd c at in
      let (c', (q', (n, (sent, (result, (e, (r', (v', o')))))))) =
        sent_lem (pending c q) (send (λ bytes. pos (accept fd bytes)) c q)
          (send-Conserves (accept fd) (fits fd) c q r v o)
          (send-Open (λ bytes. pos (accept fd bytes)) c q o) in
      rw (send_for, buffer, result)
        (
          after fd c' q' sent s,
          (
            refl,
            (
              after-IsGood fd c' q' sent s r' v' o' g,
              ((λ j. total-after fd j c' c q q' sent s at buffer e), refl),
            ),
          ),
        )

  pub send_event-Keeps :
      (fd : ℤ) (s : Senders) → IsGood s → Keeps s (send_event (λ bytes. pos (accept fd bytes)) fd s)
  unfolding send_event
  send_event-Keeps fd s g = elim (Option-cases (find fd s.send_connects)) [
    | inl new ↦
        rw (send_event, new)
          (
            record s { send_connects = insert fd none s.send_connects },
            (refl, (null-IsGood fd s new g, ((λ j. total-null fd j s new), refl))),
          )
    | inr (connect, at) ↦ elim (Option-cases connect) [
      | inl gone ↦ rw (send_event, at, gone) (s, (refl, (g, ((λ j. refl), refl))))
      | inr (c, there) ↦ rw (send_event, at, there) (send_for-Keeps fd c s g (at ∙ ap some there))
    ]
  ]

-- Send events, with sockets that each take some first part of what they are given: all go through; for every
-- socket, what it has taken and what waits for it is together what it was before. No event is queued for a
-- rest that a socket has not taken, so that waits until a message is sent to the same socket.
pub send_events_loop-Keeps :
    (accept : ℕ → ℤ → Text → ℕ)
    → ((k : ℕ) (fd : ℤ) (bytes : Text) → accept k fd bytes ≤ length bytes)
    → (fds : List ℤ) (s : Senders) → IsGood s
    → Keeps s (send_events_loop (λ k fd bytes. pos (accept k fd bytes)) fds s)
unfolding send_events_loop
send_events_loop-Keeps accept fits [] s g = (s, (refl, (g, ((λ j. refl), refl))))
send_events_loop-Keeps accept fits (fd ∷ fds) s g =
    let (t, (at, (g', (kept, events)))) =
      send_event-Keeps (accept (length fds)) (fits (length fds)) fd s g in
    let (u, (at', (g'', (kept', events')))) = send_events_loop-Keeps accept fits fds t g' in
    rw (send_events_loop, at, at') (u, (refl, (g'', ((λ j. kept' j ∙ kept j), events' ∙ events))))
