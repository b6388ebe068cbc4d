-- ===== src/Epoller/Stale.antt =====
-- A descriptor that src/server/epoller.cc has in its table, and the kernel does not watch.
use fast_dcs.Common.{
  Bool, true, ◌≡◌, ◌≢◌, refl, Option-cases, subst, sym, ◌∙◌, inl, inr, List, [], ◌∷◌, none, some,
  arith,
}
use fast_dcs.Common.Int.{ℤ_discrete, ℤ, negsuc}
use fast_dcs.Common.Maps.{find, put, fd_ord, find-put_ne}
use fast_dcs.Epoller.{
  receive_events, watch_socket, new_event_element, Events, Element, Poll, element, or_events,
  ctl_add, ctl_mod, add_to_poll_event,
}
use fast_dcs.Epoller.Agree.{Has, put-Has, element-put_self}

-- The table has an element of the descriptor, which the kernel does not watch: so it is once the kernel has refused
-- to watch a new descriptor, or a watched one is closed elsewhere.
abbrev pub IsStale : ℤ → Poll → Type 0
IsStale fd s = Has fd s × (find fd s.kernel ≡ none)

-- The calls that watch a descriptor: `AddToPollEvent`, and `AddSocketResource` with its callbacks; and whether the
-- kernel refuses them.
pub data Call : Type 0 where
  adds : Bool → ℤ → Events → Call
  watches : Bool → ℤ → Call

add_call : Call → Poll → Poll
add_call (adds refused fd flags) s = (add_to_poll_event refused fd flags s).0
add_call (watches refused fd) s = watch_socket refused fd s

pub adds_to_poll : List Call → Poll → Poll
adds_to_poll [] s = s
adds_to_poll (c ∷ calls) s = adds_to_poll calls (add_call c s)

ctl_add-table :
    (refused : Bool) (fd : ℤ) (flags : Events) (s : Poll)
    → (ctl_add refused fd flags s).0.table ≡ s.table
unfolding ctl_add
ctl_add-table refused fd flags s = ground arith

ctl_mod-table :
    (refused : Bool) (fd : ℤ) (flags : Events) (s : Poll)
    → (ctl_mod refused fd flags s).0.table ≡ s.table
unfolding ctl_mod
ctl_mod-table refused fd flags s = ground arith

ctl_add-other :
    (refused : Bool) (fd j : ℤ) (flags : Events) (s : Poll)
    → fd ≢ j
    → find j (ctl_add refused fd flags s).0.kernel ≡ find j s.kernel
unfolding ctl_add
ctl_add-other refused fd j flags s h = ground (arith, find-put_ne fd j flags s.kernel h)

ctl_mod-other :
    (refused : Bool) (fd j : ℤ) (flags : Events) (s : Poll)
    → fd ≢ j
    → find j (ctl_mod refused fd flags s).0.kernel ≡ find j s.kernel
unfolding ctl_mod
ctl_mod-other refused fd j flags s h = ground (arith, find-put_ne fd j flags s.kernel h)

-- An element is put at the descriptor, whatever the kernel says.
add_table :
    (refused : Bool) (fd : ℤ) (flags : Events) (s : Poll)
    → (e : Element) × ((add_to_poll_event refused fd flags s).0.table ≡ put fd (some e) s.table)
unfolding add_to_poll_event
add_table refused fd flags s = elim (Option-cases (element fd s)) [
  | inl new ↦ (
    new_event_element fd flags,
    rw (new, add_to_poll_event)
        (ctl_add-table refused fd flags
          (record s { table = put fd (some (new_event_element fd flags)) s.table })),
  )
  | inr (e, old) ↦ (
    record e { events = or_events e.events flags },
    rw (old, add_to_poll_event)
        (ctl_mod-table refused fd (or_events e.events flags) (record s {
          table = put fd (some (record e { events = or_events e.events flags })) s.table;
        })),
  )
]

add_to_poll_event-Has :
    (refused : Bool) (fd j : ℤ) (flags : Events) (s : Poll)
    → Has j s
    → Has j (add_to_poll_event refused fd flags s).0
unfolding element
add_to_poll_event-Has refused fd j flags s h =
    let (e, at) = add_table refused fd flags s in
    subst (λ m. Has j (record s { table = m })) (sym at) (put-Has fd j e s h)

add_other :
    (refused : Bool) (fd j : ℤ) (flags : Events) (s : Poll)
    → fd ≢ j
    → find j (add_to_poll_event refused fd flags s).0.kernel ≡ find j s.kernel
unfolding add_to_poll_event
add_other refused fd j flags s h = elim (Option-cases (element fd s)) [
  | inl new ↦
      rw (new, add_to_poll_event)
        (ctl_add-other refused fd j flags
          (record s { table = put fd (some (new_event_element fd flags)) s.table }) h)
  | inr (e, old) ↦
      rw (old, add_to_poll_event)
        (ctl_mod-other refused fd j (or_events e.events flags)
          (record s {
            table = put fd (some (record e { events = or_events e.events flags })) s.table;
          })
          h)
]

-- A stale descriptor is changed, not added, which fails.
add_stale :
    (refused : Bool) (fd : ℤ) (flags : Events) (s : Poll)
    → IsStale fd s
    → (find fd (add_to_poll_event refused fd flags s).0.kernel ≡ none)
      × ((add_to_poll_event refused fd flags s).1 ≡ negsuc 0)
unfolding add_to_poll_event ctl_mod
add_stale refused fd flags s ((e, old), off) = rw (add_to_poll_event, old, ctl_mod, off) (off, refl)

add_to_poll_event-Stale :
    (refused : Bool) (fd j : ℤ) (flags : Events) (s : Poll)
    → IsStale j s
    → IsStale j (add_to_poll_event refused fd flags s).0
add_to_poll_event-Stale refused fd j flags s h = (
  add_to_poll_event-Has refused fd j flags s h.0,
  elim (ℤ_discrete fd j) [
    | yes same ↦
        subst (λ i. find i (add_to_poll_event refused fd flags s).0.kernel ≡ none) same
          (add_stale refused fd flags s (subst (λ i. IsStale i s) (sym same) h)).0
    | no other ↦ add_other refused fd j flags s other ∙ h.1
  ],
)

watch_socket-Stale :
    (refused : Bool) (fd j : ℤ) (s : Poll) → IsStale j s → IsStale j (watch_socket refused fd s)
unfolding watch_socket element
watch_socket-Stale refused fd j s h =
    let t = (add_to_poll_event refused fd receive_events s).0 in
    let kept = add_to_poll_event-Stale refused fd j receive_events s h in
    elim (Option-cases (element fd t)) [
      | inl new ↦ rw (watch_socket, new) kept
      | inr (e, old) ↦
          rw (watch_socket, old)
            (
              put-Has fd j (record e { read_callback = true; close_callback = true }) t kept.0,
              kept.1,
            )
    ]

add_call-Stale : (c : Call) (j : ℤ) (s : Poll) → IsStale j s → IsStale j (add_call c s)
unfolding add_call
add_call-Stale (adds refused fd flags) j s h = add_to_poll_event-Stale refused fd j flags s h
add_call-Stale (watches refused fd) j s h = watch_socket-Stale refused fd j s h

-- The calls keep a stale descriptor stale.
adds_to_poll-Stale :
    (calls : List Call) (j : ℤ) (s : Poll) → IsStale j s → IsStale j (adds_to_poll calls s)
unfolding adds_to_poll
adds_to_poll-Stale [] j s h = h
adds_to_poll-Stale (c ∷ calls) j s h =
    adds_to_poll-Stale calls j (add_call c s) (add_call-Stale c j s h)

-- A descriptor that has an element, but no watch, never gets one by adding it or others: after any such calls,
-- whether the kernel would take or refuse them, its element is still there, the kernel still does not watch it,
-- and one more `AddToPollEvent` of it gives -1.
pub IsStale-stays :
    (fd : ℤ) (calls : List Call) (s : Poll) (refused : Bool) (flags : Events)
    → IsStale fd s
    → let later = adds_to_poll calls s in
      IsStale fd later × ((add_to_poll_event refused fd flags later).1 ≡ negsuc 0)
IsStale-stays fd calls s refused flags h =
    let still = adds_to_poll-Stale calls fd s h in
    (still, (add_stale refused fd flags (adds_to_poll calls s) still).1)

-- The kernel's refusal of a new descriptor makes it stale.
refused-IsStale :
    (fd : ℤ) (flags : Events) (s : Poll)
    → element fd s ≡ none
    → find fd s.kernel ≡ none
    → IsStale fd (add_to_poll_event true fd flags s).0
unfolding add_to_poll_event ctl_add
refused-IsStale fd flags s new off =
    rw (add_to_poll_event, new, ctl_add, off)
      ((new_event_element fd flags, element-put_self fd (some (new_event_element fd flags)) s), off)
