-- ===== src/Tracker/Masters.antt =====
-- The ring of masters: the configured group in order, and the next one of it that can be reached.
pub mod Next
use fast_dcs.Common.{
  ℕ, zero, suc, ◌+◌, Bool, true, false, not, ◌&&◌, ◌||◌, Option, none, some, List, [], ◌∷◌, ◌++◌,
  length, ltb, if◌then◌else◌,
}
use fast_dcs.Common.Int.{ℤ}
use fast_dcs.Common.Texts.{Text, eq, is_empty, codes}
use fast_dcs.Common.Maps.{find, erase, text_ord}
use fast_dcs.Messages.{
  TrackerProtocol, KeyValuesPair, Value, status, master_group_changed, ask_task_status,
}
use fast_dcs.Strings.Split.{split_string_using}
use fast_dcs.Tracker.State.{
  Tracker, World, Run, ok, aborts, spins, sleeps, M, ◌>>=◌, ◌>>◌, pure, get, set_state, check,
  branch, own, no_fd, is_no_fd, i_am_primary_master, i_know_primary_master, socket_of,
  new_tracker_protocol,
}
use fast_dcs.Tracker.Sockets.{connect_master, send_protocol, remove_socket_resource}

-- The masters of the configured group, in its order.
unfoldable pub group : Tracker → List Text
unfolding split_string_using
group s = split_string_using s.fdcs_env.settings.tracker_group (b';' ∷ [])

-- The first of a list, or `first` where it is empty.
abbrev pub head_or : Text → List Text → Text
head_or first [] = first
head_or first (a ∷ more) = a

-- The loop of `NextMasterAddress`: `last` is what `next_addr` holds, `first` is `master_addresses[0]`.
unfoldable pub next_loop : Text → Text → Text → List Text → Text
next_loop address first last [] = last
next_loop address first last (a ∷ more) = elim (eq a address) [
  | true ↦ head_or first more
  | false ↦ next_loop address first a more
]

unfoldable pub next_in : List Text → Text → Text
unfolding next_loop eq
next_in masters address = next_loop address (head_or [] masters) [] masters

-- `master_addresses[0]` of an empty group is outside the vector.
unfoldable pub pick_next : List Text → Text → M Text
pick_next [] address s = aborts
pick_next (a ∷ more) address s = ok (next_in (a ∷ more) address) s

unfoldable pub next_master_address : Text → M Text
unfolding pick_next
next_master_address address s = pick_next (group s) address s

module _ (w : World) where
  -- The `while (true)` of `FindNextMaster`, on fuel.
  unfoldable pub find_next_loop : ℕ → Text → M ℤ
  find_next_loop zero address s = spins
  find_next_loop (suc fuel) address s = elim (eq address (own s)) [
    | true ↦ ok no_fd s
    | false ↦
        (connect_master w address >>= λ connected.
        branch connected (socket_of address)
          (next_master_address address >>= λ next. find_next_loop fuel next))
          s
  ]

  -- A round for each master of the group and one more.
  unfoldable pub find_next_master : M ℤ
  unfolding find_next_loop next_master_address
  find_next_master s =
      (next_master_address (own s) >>= λ next. find_next_loop (suc (length (group s))) next) s

unfoldable pub connected_of : Tracker → List Text → List Text
unfolding find
connected_of s [] = []
connected_of s (a ∷ more) = elim (find a s.master_sockets) [
  | none ↦ connected_of s more
  | some fd ↦ a ∷ connected_of s more
]

-- The addresses that are connected, joined by `;`, as `MasterGroupChanged` collects them.
unfoldable pub online_masters : Tracker → List Text → Text → Text
unfolding find
online_masters s [] online = online
online_masters s (a ∷ more) online = online_masters s more (elim (find a s.master_sockets) [
  | none ↦ online
  | some fd ↦ if is_empty online then online ++ a else online ++ (b';' ∷ a)
])

module _ (w : World) where
  unfoldable pub send_group_change : ℤ → M Bool
  unfolding online_masters group new_tracker_protocol
  send_group_change fd s =
      send_protocol w
        (record (new_tracker_protocol w master_group_changed s) {
          request_args = online_masters s (group s) [];
        })
        fd s

  -- `MasterGroupChanged`: only the primary master tells the others.
  unfoldable pub master_group_changed_call : M Bool
  unfolding find_next_master send_group_change i_am_primary_master
  master_group_changed_call s =
      elim ((s.is_master && not (i_am_primary_master s)) || not s.is_master) [
        | true ↦ ok false s
        | false ↦
            (find_next_master w >>= λ fd. branch (is_no_fd fd) (pure true) (send_group_change fd)) s
      ]

  -- `UpdateMasterConhash`: the ring holds the connected masters. A master never gives its nodes a name,
  -- so its ring stays empty.
  unfoldable pub update_master_conhash : Tracker → Tracker
  unfolding connected_of group
  update_master_conhash s =
      if s.is_master then s else record s { conhash = connected_of s (group s) }

  -- `SocketClose`; `guest` is the address at the other end of the socket.
  unfoldable pub close_master : Text → M Bool
  unfolding update_master_conhash master_group_changed_call
  close_master guest s = elim (eq s.primary_sockaddr guest) [
    | true ↦ ok true (record s { primary_sockaddr = [] })
    | false ↦ master_group_changed_call (update_master_conhash s)
  ]

  unfoldable pub socket_close : ℤ → Text → M Bool
  unfolding close_master erase find remove_socket_resource
  socket_close fd guest s = elim (find guest s.master_sockets) [
    | none ↦ ok true (remove_socket_resource fd s)
    | some other ↦
        (close_master guest >>= λ _ t. ok true (remove_socket_resource fd t))
          (record s { master_sockets = erase guest s.master_sockets })
  ]

-- `GetTaskStatus` adds the addresses of all connected masters to the protocol.
unfoldable pub master_statuses : List (Text × ℤ) → List Value
master_statuses [] = []
master_statuses ((address, fd) ∷ sockets) = status address ∷ master_statuses sockets

unfoldable pub get_task_status : Tracker → TrackerProtocol → TrackerProtocol
unfolding master_statuses
get_task_status s proto = record proto {
  key_values_pairs =
      proto.key_values_pairs
      ++ record { key = codes "TrackerStatus"; values = master_statuses s.master_sockets } ∷ [];
}
