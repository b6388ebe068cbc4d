-- ===== src/Tracker/Frame.antt =====
-- What the connections and messages of a server leave alone: its table of tasks.
use fast_dcs.Common.{
  ℕ, zero, suc, ◌≡◌, refl, ◌∙◌, Bool, true, false, not, ◌&&◌, ◌||◌, Bool-cases, inl, inr, arith,
  length,
}
use fast_dcs.Common.Int.{ℤ}
use fast_dcs.Common.Texts.{Text, eq}
use fast_dcs.Messages.{TrackerProtocol}
use fast_dcs.Tracker.State.{
  Tracker, World, Run, ok, aborts, spins, sleeps, M, ◌>>=◌, branch, own, is_no_fd,
  i_am_primary_master, socket_of,
}
use fast_dcs.Tracker.Sockets.{
  connect_master, open_socket, check_ip, add_socket_resource, queue_message, send_protocol,
}
use fast_dcs.Tracker.Masters.{
  group, find_next_loop, find_next_master, pick_next, next_master_address, send_group_change,
  master_group_changed_call,
}

-- The idle and leased tasks, and the completed ones.
abbrev pub SameTasks : Tracker → Tracker → Type 0
SameTasks s t =
    (t.fdcs_env.tasks ≡ s.fdcs_env.tasks)
    × (t.fdcs_env.completed_tasks ≡ s.fdcs_env.completed_tasks)

abbrev pub Kept : {A : Type 0} → Tracker → Run A → Type 0
Kept s (ok a t) = SameTasks s t
Kept s aborts = Unit {0}
Kept s spins = Unit {0}
Kept s sleeps = Unit {0}

-- Where the call returns, the tasks are those from before.
abbrev pub Keeps : {A : Type 0} → M A → Type 0
Keeps m = (s : Tracker) → Kept s (m s)

Kept-after : {A : Type 0} (s t : Tracker) (r : Run A) → SameTasks s t → Kept t r → Kept s r
Kept-after s t (ok a u) h k = (k.0 ∙ h.0, k.1 ∙ h.1)
Kept-after s t aborts h k = tt
Kept-after s t spins h k = tt
Kept-after s t sleeps h k = tt

pub Keeps-bind :
    {A B : Type 0} (m : M A) (f : A → M B) → Keeps m → ((a : A) → Keeps (f a)) → Keeps (m >>= f)
Keeps-bind {A} {B} m f k l s = go (m s) (k s)
  where
    go :
        (r : Run A)
        → Kept s r
        → Kept s (elim r as (λ x. Run B) [
          | ok a t ↦ f a t
          | aborts ↦ aborts
          | spins ↦ spins
          | sleeps ↦ sleeps
        ])
    go (ok a t) h = Kept-after s t (f a t) h (l a t)
    go aborts h = tt
    go spins h = tt
    go sleeps h = tt

pub Keeps-branch : {A : Type 0} (b : Bool) (m k : M A) → Keeps m → Keeps k → Keeps (branch b m k)
Keeps-branch true m k h l = h
Keeps-branch false m k h l = l

-- A call that makes a test of the state it starts in.
pub Kept-elim :
    {A : Type 0} (s : Tracker) (b : Bool) (x y : Run A)
    → Kept s x
    → Kept s y
    → Kept s (elim b [ true ↦ x | false ↦ y ])
Kept-elim s true x y h k = h
Kept-elim s false x y h k = k

pub connect_master-Keeps : (w : World) (a : Text) → Keeps (connect_master w a)
unfolding connect_master open_socket check_ip add_socket_resource
connect_master-Keeps w a s = ground arith

pub send_protocol-Keeps :
    (w : World) (proto : TrackerProtocol) (fd : ℤ) → Keeps (send_protocol w proto fd)
unfolding send_protocol queue_message
send_protocol-Keeps w proto fd s = ground arith

pub socket_of-Keeps : (a : Text) → Keeps (socket_of a)
unfolding socket_of
socket_of-Keeps a s = ground arith

pub check_ip-Keeps : (a : Text) → Keeps (check_ip a)
unfolding check_ip
check_ip-Keeps a s = ground arith

next_master_address-Keeps : (a : Text) → Keeps (next_master_address a)
unfolding next_master_address pick_next
next_master_address-Keeps a s = ground arith

find_next_loop-Keeps : (w : World) (fuel : ℕ) (a : Text) → Keeps (find_next_loop w fuel a)
unfolding find_next_loop
find_next_loop-Keeps w zero a s = tt
find_next_loop-Keeps w (suc fuel) a s = elim (Bool-cases (eq a (own s))) [
  | inl same ↦ rw (same, find_next_loop) (refl, refl)
  | inr other ↦
      rw (other, find_next_loop)
        (Keeps-bind (connect_master w a) _ (connect_master-Keeps w a)
          (λ connected. Keeps-branch connected (socket_of a) _ (socket_of-Keeps a) (
            Keeps-bind (next_master_address a) _ (next_master_address-Keeps a)
              (λ next. find_next_loop-Keeps w fuel next)))
          s)
]

pub find_next_master-Keeps : (w : World) → Keeps (find_next_master w)
unfolding find_next_master
find_next_master-Keeps w s =
    Keeps-bind (next_master_address (own s)) _ (next_master_address-Keeps (own s))
      (λ next. find_next_loop-Keeps w (suc (length (group s))) next) s

send_group_change-Keeps : (w : World) (fd : ℤ) → Keeps (send_group_change w fd)
unfolding send_group_change
send_group_change-Keeps w fd s = send_protocol-Keeps w _ fd s

pub master_group_changed_call-Keeps : (w : World) → Keeps (master_group_changed_call w)
unfolding master_group_changed_call
master_group_changed_call-Keeps w s =
    Kept-elim s ((s.is_master && not (i_am_primary_master s)) || not s.is_master) _ _ (refl, refl)
      (Keeps-bind (find_next_master w) _ (find_next_master-Keeps w)
        (λ fd. Keeps-branch (is_no_fd fd) _ _ (λ t. (refl, refl)) (send_group_change-Keeps w fd)) s)
