-- ===== src/Master/Process/Elect.antt =====
-- Who wins an election, and when a message has gone round.
use fast_dcs.Common.{
  ◌≡◌, ◌≢◌, refl, ap, ◌∙◌, true, false, none, some, List, [], ◌∷◌, ◌++◌, arith, ◌⊎◌, inl, inr,
  Bool-cases, length, if◌then◌else◌,
}
use fast_dcs.Common.Texts.{Text, eq, eq_self, contains, contains-item, contains-last}
use fast_dcs.Common.Int.{ℤ}
use fast_dcs.Enviroment.{fdcs_time}
use fast_dcs.Strings.Codec.{int32_to_key}
use fast_dcs.Strings.Split.{split_string_using}
use fast_dcs.Messages.{TrackerProtocol, coordinator, pair, keyvaluepairs_fdcs_time}
use fast_dcs.Tracker.State.{
  Tracker, World, Run, M, ok, aborts, spins, sleeps, ◌>>=◌, own, ◌>>◌, pure, branch, bind_ok,
  is_no_fd, new_tracker_protocol,
}
use fast_dcs.Tracker.Sockets.{add_response_addr, check_ip, send_protocol}
use fast_dcs.Tracker.Masters.{group, find_next_master}
use fast_dcs.Master.Circle.{
  closed_circle, elected, coordinator_call, send_coordinator, add_proto_fdcs_time, only_one_master,
  upgrade_tracker,
}
use fast_dcs.Master.Process.{process_election, process_coordinator, announce, set_primary}

-- None of the addresses stands in the text.
abbrev pub Missing : Text → List Text → Type 0
Missing text [] = Unit {0}
Missing text (a ∷ more) = (contains text a ≡ false) × Missing text more

elected-none :
    (passed : Text) (masters : List Text) → Missing passed masters → elected passed masters ≡ none
unfolding elected
elected-none passed [] h = refl
elected-none passed (a ∷ more) h = ground (arith, elected-none passed more h.1)

elected-last :
    (passed a : Text) (before after : List Text)
    → contains passed a ≡ true
    → Missing passed after
    → elected passed (before ++ a ∷ after) ≡ some a
unfolding elected
elected-last passed a [] after h m = ground (arith, elected-none passed after m)
elected-last passed a (b ∷ before) after h m =
    ground (arith, elected-last passed a before after h m)

process_election-coordinator_call :
    (w : World) (proto : TrackerProtocol) (s : Tracker) (a : Text) (before after : List Text)
    → let passed = proto.response_sock_addr ++ (b';' ∷ own s) in
      closed_circle s proto ≡ true
      → group s ≡ before ++ a ∷ after
      → contains passed a ≡ true
      → Missing passed after
      → process_election w proto s ≡ (coordinator_call w a >> pure true) s
unfolding process_election announce
process_election-coordinator_call w proto s a before after c e h m =
    rw (c, e, elected-last _ a before after h m, process_election) refl

abbrev pub with_time : Text → TrackerProtocol → TrackerProtocol
with_time time proto = record proto {
  key_values_pairs =
      proto.key_values_pairs
      ++ record { key = keyvaluepairs_fdcs_time; values = pair keyvaluepairs_fdcs_time time ∷ [] }
        ∷ [];
}

-- The message that names the winner, with the sender's time.
abbrev pub announcement : World → Text → Text → Tracker → TrackerProtocol
announcement w winner time s =
    with_time time (record (new_tracker_protocol w coordinator s) { response_result = winner })

bind_cong :
    {A B : Type 0} (m k : M A) (f : A → M B) (s t : Tracker) → m s ≡ k t → (m >>= f) s ≡ (k >>= f) t
bind_cong {A} {B} m k f s t e =
    ap
      (λ r. elim r as (λ _. Run B) [
        | ok x u ↦ f x u
        | aborts ↦ aborts
        | spins ↦ spins
        | sleeps ↦ sleeps
      ])
      e

time_added :
    (w : World) (s : Tracker) (proto : TrackerProtocol) (time : Text)
    → int32_to_key (fdcs_time s.fdcs_env w.now) ≡ some time
    → add_proto_fdcs_time w proto s ≡ ok (with_time time proto) s
unfolding add_proto_fdcs_time
time_added w s proto time e = rw (e, add_proto_fdcs_time) refl

send_coordinator-announcement :
    (w : World) (s : Tracker) (a time : Text) (fd : ℤ)
    → int32_to_key (fdcs_time s.fdcs_env w.now) ≡ some time
    → send_coordinator w a fd s ≡ send_protocol w (announcement w a time s) fd s
unfolding send_coordinator new_tracker_protocol
send_coordinator-announcement w s a time fd e =
    bind_ok
      (add_proto_fdcs_time w
        (record (new_tracker_protocol w coordinator s) { response_result = a }))
      (λ proto. send_protocol w proto fd) s _ s
      (time_added w s (record (new_tracker_protocol w coordinator s) { response_result = a }) time
        e)

-- The announcement, back at the master that has sent it, makes the winner primary there.
announced :
    (w w' : World) (t u : Tracker) (a time passed : Text)
    → length (split_string_using a (b':' ∷ [])) ≡ 2
    → t.is_master ≡ true
    → own u ≡ own t
    → (v : Tracker) × (process_coordinator w'
          (record (announcement w a time t) { response_sock_addr = passed })
          u
        ≡ ok true v)
      × (v.primary_sockaddr ≡ a)
unfolding process_coordinator closed_circle check_ip new_tracker_protocol upgrade_tracker
announced w w' t u a time passed p m o = (
  if eq a (own u) then upgrade_tracker (set_primary a u) else set_primary a u,
  ground (arith, p, eq_self (own t)),
  ground arith,
)

-- An election that has closed its circle is won by the last master of the group that it has passed, the one
-- whose address stands in the message or is this server's, with none such behind it. Where no next master is
-- reached, this server is the primary one instead. Otherwise it sends a message that names the winner, and when
-- that has gone round, whatever addresses it has gathered, it makes the winner primary at its sender. The winner's
-- address has a host and a port, the time is one that has a text, and the server is a master whose
-- `FindNextMaster` returns, and has the same address when the message is back.
pub process_election_lem :
    (w w' : World) (proto : TrackerProtocol) (s t u : Tracker) (a time gathered : Text) (fd : ℤ)
    (before after : List Text)
    → let passed = proto.response_sock_addr ++ (b';' ∷ own s) in
      let sent = announcement w a time t in
      closed_circle s proto ≡ true
      → group s ≡ before ++ a ∷ after
      → contains passed a ≡ true
      → Missing passed after
      → find_next_master w s ≡ ok fd t
      → int32_to_key (fdcs_time t.fdcs_env w.now) ≡ some time
      → length (split_string_using a (b':' ∷ [])) ≡ 2
      → t.is_master ≡ true
      → own u ≡ own t
      → ((is_no_fd fd ≡ true)
          × (process_election w proto s ≡ ok true (only_one_master t))
          × ((only_one_master t).primary_sockaddr ≡ own t))
        ⊎ ((is_no_fd fd ≡ false)
            × (process_election w proto s ≡ (send_protocol w sent fd >> pure true) t)
            × ((v : Tracker) × (process_coordinator w'
                    (record sent { response_sock_addr = gathered })
                    u
                  ≡ ok true v)
                × (v.primary_sockaddr ≡ a)))
unfolding coordinator_call only_one_master upgrade_tracker
process_election_lem w w' proto s t u a time gathered fd before after c e h m f k p i o =
    let call = process_election-coordinator_call w proto s a before after c e h m in
    let next =
      bind_ok (find_next_master w)
        (λ fd. branch (is_no_fd fd) (λ t. ok true (only_one_master t)) (send_coordinator w a fd)) s
        fd t f in
    elim (Bool-cases (is_no_fd fd)) [
      | inl alone ↦ inl (
        alone,
        call
            ∙ bind_ok (coordinator_call w a) (λ _. pure true) s true (only_one_master t)
                (next ∙ rw alone refl),
        refl,
      )
      | inr reached ↦ inr (
        reached,
        call
            ∙ bind_cong (coordinator_call w a) (send_protocol w (announcement w a time t) fd)
                (λ _. pure true) s t
                (next ∙ rw reached (send_coordinator-announcement w t a time fd k)),
        announced w w' t u a time gathered p i o,
      )
    ]

elected-some :
    (passed a : Text) (before after : List Text)
    → contains passed a ≡ true
    → elected passed (before ++ a ∷ after) ≢ none
unfolding elected
elected-some passed a [] after h = ground arith
elected-some passed a (b ∷ before) after h = ground (arith, elected-some passed a before after h)

-- Where this server stands in its group, every election that comes back to it has a winner.
pub election_has_winner :
    (proto : TrackerProtocol) (s : Tracker) (before after : List Text)
    → group s ≡ before ++ own s ∷ after
    → elected (proto.response_sock_addr ++ (b';' ∷ own s)) (group s) ≢ none
election_has_winner proto s before after e =
    rw e (elected-some _ (own s) before after (contains-item proto.response_sock_addr _ (own s)))

-- A message that a master has sent on closes its circle when it comes back to it.
pub sent_message_closes :
    (s : Tracker) (proto : TrackerProtocol)
    → s.is_master ≡ true
    → closed_circle s
        (record proto { response_sock_addr = add_response_addr s proto.response_sock_addr })
      ≡ true
unfolding closed_circle add_response_addr
sent_message_closes s proto h = ground (
  arith,
  eq_self (own s),
  contains-item proto.response_sock_addr b';' (own s),
  contains-last [] (own s),
)
