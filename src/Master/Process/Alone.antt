-- ===== src/Master/Process/Alone.antt =====
-- A master that reaches no other one.
use fast_dcs.Common.{
  ◌≡◌, ◌≢◌, refl, ◌∙◌, ap, true, false, not, none, List, [], ◌∷◌, ◌++◌, arith, length,
}
use fast_dcs.Common.Texts.{Text, eq_self, is_empty}
use fast_dcs.Common.Maps.{find, text_ord}
use fast_dcs.Strings.Split.{split_string_using}
use fast_dcs.Tracker.State.{
  Tracker, World, ok, pure, branch, bind_ok, own, no_fd, is_no_fd, i_am_primary_master,
  i_know_primary_master,
}
use fast_dcs.Tracker.Sockets.{connect_master, open_socket, check_ip}
use fast_dcs.Tracker.Masters.{group, find_next_master}
use fast_dcs.Tracker.Masters.Next.{try_in_order, Distinct, find_next_master_lem}
use fast_dcs.Enviroment.{init_fdcs_time_differ}
use fast_dcs.Master.Circle.{
  only_one_master, upgrade_tracker, send_election, send_ask_tracker, election_call,
  master_ask_tracker_call,
}
use fast_dcs.Master.Process.{master_heart_beat}

-- An address that no connection is open to and none can be made to.
pub record Unreachable (w : World) (s : Tracker) (address : Text) : Type 0 where
  pub closed : find address s.master_sockets ≡ none
  pub refused : w.connect address ≡ none
  pub host_port : length (split_string_using address (b':' ∷ [])) ≡ 2

abbrev pub AllUnreachable : World → Tracker → List Text → Type 0
AllUnreachable w s [] = Unit {0}
AllUnreachable w s (a ∷ more) = Unreachable w s a × AllUnreachable w s more

connect_master-fails :
    (w : World) (s : Tracker) (a : Text) → Unreachable w s a → connect_master w a s ≡ ok false s
unfolding connect_master open_socket check_ip
connect_master-fails w s a u = ground (arith, u.closed, u.refused, u.host_port)

try_in_order-fails :
    (w : World) (s : Tracker) (masters : List Text)
    → AllUnreachable w s masters
    → try_in_order w masters s ≡ ok no_fd s
unfolding try_in_order
try_in_order-fails w s [] u = refl
try_in_order-fails w s (a ∷ more) u =
    bind_ok (connect_master w a) _ s false s (connect_master-fails w s a u.0)
    ∙ try_in_order-fails w s more u.1

no_primary : (s : Tracker) → s.primary_sockaddr ≡ [] → i_know_primary_master s ≡ false
unfolding i_know_primary_master
no_primary s p = ap (λ x. not (is_empty x)) p

nonempty : (a : Text) → a ≢ [] → is_empty a ≡ false
nonempty [] h = absurd (h refl)
nonempty (c ∷ cs) h = refl

only_one_master-primary :
    (s : Tracker) → s.is_master ≡ true → own s ≢ [] → i_am_primary_master (only_one_master s) ≡ true
unfolding i_am_primary_master only_one_master upgrade_tracker init_fdcs_time_differ
only_one_master-primary s m o = ground (arith, m, nonempty (own s) o, eq_self (own s))

-- A master that knows no primary one, and reaches no other master of its group, is the primary
-- one after a heartbeat, with its own clock as the clock of all. Its group holds its address,
-- which is not empty, and no address twice; each other one has a host and a port.
pub alone_becomes_primary :
    (w : World) (s : Tracker) (before after : List Text)
    → group s ≡ before ++ own s ∷ after
    → Distinct (group s)
    → AllUnreachable w s (after ++ before)
    → s.primary_sockaddr ≡ []
    → s.is_master ≡ true
    → own s ≢ []
    → (master_heart_beat w s ≡ ok true (only_one_master s))
      × (i_am_primary_master (only_one_master s) ≡ true)
unfolding master_heart_beat master_ask_tracker_call election_call
alone_becomes_primary w s before after e d u p m o =
    let fd =
      find_next_master_lem w s before after e d ∙ try_in_order-fails w s (after ++ before) u in
    let elect =
      bind_ok (find_next_master w)
        (λ fd. branch (is_no_fd fd) (λ t. ok true (only_one_master t)) (send_election w fd)) s no_fd
        s fd in
    let ask =
      bind_ok (find_next_master w)
        (λ fd. branch (is_no_fd fd) (election_call w) (send_ask_tracker w fd)) s no_fd s fd
      ∙ elect in
    (
      rw (no_primary s p, master_heart_beat)
          (bind_ok (master_ask_tracker_call w) (λ _. pure true) s true (only_one_master s) ask),
      only_one_master-primary s m o,
    )
