-- ===== src/Tracker/State.antt =====
-- The fields of `Tracker`, the world outside, and the outcome of a call. The condition variables only
-- wake threads, and the mutexes are recursive and held for the whole of a step, so neither stands here.
use fast_dcs.Common.{
  ℕ, Bool, true, false, not, ◌&&◌, Option, none, some, List, [], ◌==◌, if◌then◌else◌, ◌≡◌, ap,
}
use fast_dcs.Common.Int.{ℤ, pos, negsuc}
use fast_dcs.Common.Texts.{Text, eq, is_empty}
use fast_dcs.Common.Maps.{find, fd_ord, text_ord}
use fast_dcs.Messages.{
  FdcsTask, TrackerProtocol, TrackerStatus, ProtocolType, master_type, worker_type,
}
use fast_dcs.SignalingQueue.{SignalingQueue}
use fast_dcs.Enviroment.{Enviroment, fdcs_time}

pub record Tracker : Type 0 where
  pub is_master : Bool
  pub primary_sockaddr : Text
  pub worker_sockaddr : Text
  pub socket_ids : List (ℤ × Text)
  -- The connected masters. A key with a NULL socket, which `operator[]` makes, is no entry.
  pub master_sockets : List (Text × ℤ)
  pub tracker_status : List (Text × TrackerStatus)
  pub send_buffers : List (ℤ × SignalingQueue)
  -- `operator[]` makes an entry that is NULL for a descriptor without a buffer.
  pub receive_buffers : List (ℤ × Option SignalingQueue)
  pub send_events : List ℤ
  pub receive_events : List ℤ
  -- The addresses in the consistent-hash ring.
  pub conhash : List Text
  pub fdcs_env : Enviroment

-- What a step meets outside the server, the same all through the step: the network's answer to a
-- connection (the new descriptor), the clock, `RandomNum`, protobuf's two directions, the size of a
-- socket's buffers, and the library that looks an address up in the hash ring.
pub record World : Type 0 where
  pub connect : Text → Option ℤ
  pub now : ℤ
  pub random_num : ℕ
  pub serialize : TrackerProtocol → Text
  pub parse : Text → TrackerProtocol
  pub socket_buff_size : ℕ
  -- What an `int32` holds that no code has set.
  pub uninitialised : ℤ
  -- What a freed entry of the task table holds when it is read, by the task that stood there.
  pub erased : FdcsTask → FdcsTask
  pub conhash_lookup : List Text → Text → Option Text

-- The variable of `KeyToInt32`, which a text without a number does not set.
unfoldable pub int32_of : World → Option ℤ → ℤ
int32_of w (some n) = n
int32_of w none = w.uninitialised

-- A call returns, ends the process (a failed CHECK, or a use of a NULL socket), goes round a loop for
-- ever, or sleeps in `SignalingQueue::Add` until there is room.
pub data Run {ℓ} (A : Type ℓ) : Type ℓ where
  ok : A → Tracker → Run A
  aborts : Run A
  spins : Run A
  sleeps : Run A

abbrev pub M : Type 0 → Type 0
M A = Tracker → Run A

pub ok-inj :
    {A : Type 0} {a b : A} {s t : Tracker} → Path (Run A) (ok a s) (ok b t) → (a ≡ b) × (s ≡ t)
ok-inj e = (cc, cc)

infixl 5 ◌>>=◌ ◌>>◌
abbrev pub ◌>>=◌ : {A B : Type 0} → M A → (A → M B) → M B
◌>>=◌ m f s = elim (m s) [ ok a t ↦ f a t | aborts ↦ aborts | spins ↦ spins | sleeps ↦ sleeps ]

pub bind_ok :
    {A B : Type 0} (m : M A) (f : A → M B) (s : Tracker) (a : A) (t : Tracker)
    → m s ≡ ok a t
    → (m >>= f) s ≡ f a t
bind_ok {A} {B} m f s a t e =
    ap
      (λ r. elim r as (λ _. Run B) [
        | ok x u ↦ f x u
        | aborts ↦ aborts
        | spins ↦ spins
        | sleeps ↦ sleeps
      ])
      e

abbrev pub ◌>>◌ : {A B : Type 0} → M A → M B → M B
m >> k = m >>= λ _. k

abbrev pub pure : {A : Type 0} → A → M A
pure a s = ok a s

abbrev pub get : M Tracker
get s = ok s s

abbrev pub set_state : Tracker → M (Unit {0})
set_state t s = ok tt t

-- `CHECK`.
abbrev pub check : Bool → M (Unit {0})
check b s = elim b [ true ↦ ok tt s | false ↦ aborts ]

-- The test is made before either branch runs.
abbrev pub branch : {A : Type 0} → Bool → M A → M A → M A
branch b m k s = elim b [ true ↦ m s | false ↦ k s ]

abbrev pub no_fd : ℤ
no_fd = negsuc 0

-- `fd == -1`.
abbrev pub is_no_fd : ℤ → Bool
is_no_fd (pos n) = false
is_no_fd (negsuc n) = n == 0

-- `fdcs_env_.TrackerServer()`.
abbrev pub own : Tracker → Text
own s = s.fdcs_env.settings.tracker_server

unfoldable pub i_know_primary_master : Tracker → Bool
i_know_primary_master s = not (is_empty s.primary_sockaddr)

unfoldable pub i_am_primary_master : Tracker → Bool
i_am_primary_master s =
    s.is_master && (not (is_empty s.primary_sockaddr) && eq s.primary_sockaddr (own s))

-- `master_sockets_[address]->Socket()`, which a NULL there ends.
unfoldable pub socket_of : Text → M ℤ
unfolding find
socket_of address s = elim (find address s.master_sockets) [ some fd ↦ ok fd s | none ↦ aborts ]

-- The protocol defaults of tracker_protocol.proto, where `NewTrackerProtocol` sets nothing.
unfoldable pub new_tracker_protocol : World → ProtocolType → Tracker → TrackerProtocol
unfolding fdcs_time
new_tracker_protocol w type s = record {
  id = w.random_num;
  time = fdcs_time s.fdcs_env w.now;
  protocol_type = type;
  tracker_type = if s.is_master then master_type else worker_type;
  request_sock_addr = if s.is_master then own s else s.worker_sockaddr;
  request_args = [];
  response_sock_addr = [];
  forwarding_sock_fd = no_fd;
  response_result = [];
  tracker_status = [];
  key_values_pairs = [];
}
