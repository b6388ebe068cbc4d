-- ===== src/Tracker/Sends/Drain.antt =====
-- The send events of src/server/tracker.cc on sockets that take all that they are given.
use fast_dcs.Common.{
  ℕ, suc, ◌≤◌, ◌≡◌, ◌≢◌, refl, sym, ap, subst, ◌∙◌, true, false, inl, inr, Option-cases, none, some,
  List, [], ◌∷◌, ◌++◌, append-nil, arith, length, drop,
}
use fast_dcs.Common.Int.{ℤ_discrete, ℤ}
use fast_dcs.Common.Texts.{Text, is_empty}
use fast_dcs.Common.Maps.{find, insert, fd_ord, find-put_self, find-put_ne}
use fast_dcs.SignalingQueue.{SignalingQueue, is_finished}
use fast_dcs.SignalingQueue.Inv.{IsValid}
use fast_dcs.SignalingQueue.Fifo.{contents}
use fast_dcs.Connector.{Connector, sends, send}
use fast_dcs.Connector.Sending.{empty, pending, joined, drop-nil, send-Conserves}
use fast_dcs.Tracker.Sends.{Senders, went, send_for, send_event, send_events_loop}
use fast_dcs.Tracker.Sends.Whole.{takes_all, Emptied, send-Emptied}
use fast_dcs.Tracker.Sends.Conserve.{
  some_inj, IsGood, after, send_event-Keeps, insert-put, total, sent_lem, send-Open,
}

-- The socket's connector is between messages, and at most `n` messages wait.
abbrev pub Idle : ℕ → ℤ → Senders → Type 0
Idle n fd s =
    (c : Connector) × ((q : SignalingQueue) × ((find fd s.send_connects ≡ some (some c))
        × ((find fd s.tracker.send_buffers ≡ some q)
            × ((is_empty c.message ≡ true)
                × ((c.bytes_count ≡ 0) × (length q.message_positions ≤ n))))))

-- How many messages may wait before an event of `fd`, for `n` to wait after it.
abbrev before_event : {fd j : ℤ} → Dec (fd ≡ j) → ℕ → ℕ
before_event (yes same) n = suc n
before_event (no other) n = n

-- The events of a socket.
abbrev pub events_of : ℤ → List ℤ → ℕ
events_of j [] = 0
events_of j (fd ∷ fds) = before_event (ℤ_discrete fd j) (events_of j fds)

other_Idle :
    (n : ℕ) (j : ℤ) (s t : Senders)
    → find j t.send_connects ≡ find j s.send_connects
    → find j t.tracker.send_buffers ≡ find j s.tracker.send_buffers
    → Idle n j s
    → Idle n j t
other_Idle n j s t connects buffers (c, (q, (at, (buffer, rest)))) =
    (c, (q, (connects ∙ at, (buffers ∙ buffer, rest))))

-- A socket without a connector is not idle.
unconnected {ℓ} :
    {A : Type ℓ} (n : ℕ) (fd j : ℤ) (s : Senders)
    → fd ≡ j
    → ((c : Connector) → find fd s.send_connects ≢ some (some c))
    → Idle n j s
    → A
unconnected n fd j s same gone (c, (q, (at, rest))) =
    absurd (gone c (ap (λ i. find i s.send_connects) same ∙ at))

-- The state after an event, and what it does to an idle socket.
abbrev Step : ℤ → Senders → Type 0
Step fd s =
    (t : Senders) × ((send_event takes_all fd s ≡ went t)
      × ((n : ℕ) (j : ℤ) (d : Dec (fd ≡ j)) → Idle (before_event d n) j s → Idle n j t))

-- A socket that is idle before its event is so after it.
self_Idle :
    (n : ℕ) (fd : ℤ) (c c' : Connector) (q q' : SignalingQueue) (k : ℤ) (sent : Text) (s : Senders)
    → find fd s.send_connects ≡ some (some c)
    → find fd s.tracker.send_buffers ≡ some q
    → IsValid q
    → is_finished q ≡ false
    → send takes_all c q ≡ sends c' q' k sent
    → Idle (suc n) fd s
    → Idle n fd (after fd c' q' sent s)
self_Idle n fd c c' q q' k sent s at buffer v o result
      (d, (p, (at', (buffer', (e, (start, few)))))) =
    let same_c = some_inj c d (some_inj (some c) (some d) (sym at ∙ at')) in
    let same_q = some_inj p q (sym buffer' ∙ buffer) in
    let done = subst (Emptied n) result (
      send-Emptied n c q (ap (λ x. is_empty x.message) same_c ∙ e)
        (ap (λ x. x.bytes_count) same_c ∙ start) v o
        (subst (λ x. length x.message_positions ≤ suc n) same_q few)) in
    (
      c',
      (
        q',
        (
          find-put_self fd (some c') s.send_connects,
          (find-put_self fd q' s.tracker.send_buffers, done),
        ),
      ),
    )

after-Idle :
    (n : ℕ) (fd j : ℤ) (c c' : Connector) (q q' : SignalingQueue) (k : ℤ) (sent : Text)
    (s : Senders)
    → find fd s.send_connects ≡ some (some c)
    → find fd s.tracker.send_buffers ≡ some q
    → IsValid q
    → is_finished q ≡ false
    → send takes_all c q ≡ sends c' q' k sent
    → (d : Dec (fd ≡ j)) → Idle (before_event d n) j s
    → Idle n j (after fd c' q' sent s)
after-Idle n fd j c c' q q' k sent s at buffer v o result (yes same) idle =
    subst (λ i. Idle n i (after fd c' q' sent s)) same
      (self_Idle n fd c c' q q' k sent s at buffer v o result
        (subst (λ i. Idle (suc n) i s) (sym same) idle))
after-Idle n fd j c c' q q' k sent s at buffer v o result (no other) idle =
    other_Idle n j s (after fd c' q' sent s) (find-put_ne fd j (some c') s.send_connects other)
      (find-put_ne fd j q' s.tracker.send_buffers other) idle

-- The call of `Send` for an event.
sent_Step :
    (fd : ℤ) (c : Connector) (s : Senders)
    → IsGood s
    → find fd s.send_connects ≡ some (some c)
    → Step fd s
unfolding send_event send_for
sent_Step fd c s g at =
    let (q, (buffer, (r, (v, o)))) = g.buffer fd c at in
    let (c', (q', (n, (sent, (result, rest))))) =
      sent_lem (pending c q) (send takes_all c q)
        (send-Conserves length (λ bytes. omega arith) c q r v o) (send-Open takes_all c q o) in
    (
      after fd c' q' sent s,
      (
        rw (send_event, at, send_for, buffer, result) refl,
        (λ m j d idle. after-Idle m fd j c c' q q' n sent s at buffer v o result d idle),
      ),
    )

null_Idle :
    (n : ℕ) (fd j : ℤ) (s : Senders)
    → find fd s.send_connects ≡ none
    → (d : Dec (fd ≡ j)) → Idle (before_event d n) j s
    → Idle n j (record s { send_connects = insert fd none s.send_connects })
null_Idle n fd j s new (yes same) idle = unconnected (suc n) fd j s same (λ c h. cc) idle
null_Idle n fd j s new (no other) idle =
    other_Idle n j s (record s { send_connects = insert fd none s.send_connects })
      (rw (insert-put fd s.send_connects new) (find-put_ne fd j none s.send_connects other)) refl
      idle

gone_Idle :
    (n : ℕ) (fd j : ℤ) (s : Senders)
    → find fd s.send_connects ≡ some none
    → (d : Dec (fd ≡ j)) → Idle (before_event d n) j s
    → Idle n j s
gone_Idle n fd j s gone (yes same) idle = unconnected (suc n) fd j s same (λ c h. cc) idle
gone_Idle n fd j s gone (no other) idle = idle

event_Step : (fd : ℤ) (s : Senders) → IsGood s → Step fd s
unfolding send_event
event_Step fd s g = elim (Option-cases (find fd s.send_connects)) [
  | inl new ↦ (
    record s { send_connects = insert fd none s.send_connects },
    (rw (send_event, new) refl, (λ n j d idle. null_Idle n fd j s new d idle)),
  )
  | inr (connect, at) ↦ elim (Option-cases connect) [
    | inl gone ↦ (
      s,
      (
        rw (send_event, at, gone) refl,
        (λ n j d idle. gone_Idle n fd j s (at ∙ ap some gone) d idle),
      ),
    )
    | inr (c, there) ↦ sent_Step fd c s g (at ∙ ap some there)
  ]
]

went-inj : (s t : Senders) → went s ≡ went t → s ≡ t
went-inj s t h = cc

no_positions : (ms : List (ℕ × ℕ)) → length ms ≤ 0 → ms ≡ []
no_positions [] h = refl
no_positions (m ∷ ms) h = absurd (omega arith)

nothing_pending :
    (c : Connector) (q : SignalingQueue)
    → is_empty c.message ≡ true
    → length q.message_positions ≤ 0
    → pending c q ≡ []
nothing_pending c q e few =
    ap (λ m. drop c.bytes_count m ++ joined (contents q.queue q.queue_size q.message_positions))
      (empty c.message e)
    ∙ ap (λ x. x ++ joined (contents q.queue q.queue_size q.message_positions))
        (drop-nil c.bytes_count)
    ∙ ap (λ ms. joined (contents q.queue q.queue_size ms)) (no_positions q.message_positions few)

all_taken : (j : ℤ) (s : Senders) → Idle 0 j s → s.wire j ≡ total j s
all_taken j s (c, (q, (at, (buffer, (e, (start, few)))))) =
    rw (at, buffer, nothing_pending c q e few) (sym (append-nil (s.wire j)))

-- Send events, with sockets that take all that they are given, where every connector has a valid buffer whose
-- producers have not ended: a socket whose connector is between messages, and of which there are as many events
-- as messages wait, has taken all of them afterwards.
pub send_events_loop_drains :
    (fds : List ℤ) (j : ℤ) (s : Senders)
    → IsGood s
    → Idle (events_of j fds) j s
    → (t : Senders) × ((send_events_loop (λ k fd bytes. takes_all bytes) fds s ≡ went t)
        × (t.wire j ≡ total j s))
unfolding send_events_loop
send_events_loop_drains [] j s g idle = (s, (refl, all_taken j s idle))
send_events_loop_drains (fd ∷ fds) j s g idle =
    let (t, (at, (g', (kept, events)))) =
      send_event-Keeps (λ fd. length) (λ fd bytes. omega arith) fd s g in
    let (t', (at', idles)) = event_Step fd s g in
    let same = went-inj t' t (sym at' ∙ at) in
    let (u, (at'', taken)) =
      send_events_loop_drains fds j t g' (
        subst (Idle (events_of j fds) j) same (idles (events_of j fds) j (ℤ_discrete fd j) idle)) in
    rw (send_events_loop, at, at'') (u, (refl, taken ∙ kept j))
