-- ===== src/Epoller/Agree.antt =====
-- The table of src/server/epoller.cc and what the kernel watches.
use fast_dcs.Common.{
  true, false, ◌≡◌, ◌≢◌, refl, Option-cases, subst, sym, ap, ◌∙◌, inl, inr, Option, none, some,
  arith,
}
use fast_dcs.Common.Int.{ℤ_discrete, ℤ, pos}
use fast_dcs.Common.Maps.{
  find, put, insert, fd_ord, find-put_self, find-put_ne, find-erase_self, find-erase_ne,
}
use fast_dcs.Epoller.{
  receive_events, watch_socket, new_event_element, Events, Element, Poll, element, or_events,
  ctl_add, ctl_mod, add_to_poll_event, remove_from_poll_event,
}

abbrev pub events_of : Option Element → Option Events
events_of (some e) = some e.events
events_of none = none

-- The kernel watches just the descriptors that have an element, for the element's events, and the element
-- names its descriptor.
pub record Agrees (s : Poll) : Type 0 where
  pub watched : (fd : ℤ) → find fd s.kernel ≡ events_of (element fd s)
  pub named : (fd : ℤ) (e : Element) → element fd s ≡ some e → e.fd ≡ fd

-- The same but for the kernel's watch of `fd`, as after a close of it elsewhere.
pub record AgreesOff (fd : ℤ) (s : Poll) : Type 0 where
  pub watched_off : (j : ℤ) → fd ≢ j → find j s.kernel ≡ events_of (element j s)
  pub named_off : (j : ℤ) (e : Element) → element j s ≡ some e → e.fd ≡ j

pub Agrees-Off : (fd : ℤ) (s : Poll) → Agrees s → AgreesOff fd s
Agrees-Off fd s a = record { watched_off = λ j h. a.watched j; named_off = a.named }

pub element-put_self :
    (fd : ℤ) (x : Option Element) (s : Poll)
    → element fd (record s { table = put fd x s.table }) ≡ x
unfolding element
element-put_self fd x s = rw (find-put_self fd x s.table, element)

pub element-put_ne :
    (fd j : ℤ) (x : Option Element) (s : Poll)
    → fd ≢ j
    → element j (record s { table = put fd x s.table }) ≡ element j s
unfolding element
element-put_ne fd j x s h = rw (find-put_ne fd j x s.table h, element)

-- A step on one descriptor.
at-Agrees :
    (fd : ℤ) (s t : Poll)
    → ((j : ℤ) → fd ≢ j → find j t.kernel ≡ find j s.kernel)
    → ((j : ℤ) → fd ≢ j → element j t ≡ element j s)
    → find fd t.kernel ≡ events_of (element fd t)
    → ((e : Element) → element fd t ≡ some e → e.fd ≡ fd)
    → AgreesOff fd s
    → Agrees t
at-Agrees fd s t kernel table here name a = record {
  watched = λ j. elim (ℤ_discrete fd j) [
    | yes same ↦ subst (λ i. find i t.kernel ≡ events_of (element i t)) same here
    | no other ↦ kernel j other ∙ a.watched_off j other ∙ sym (ap events_of (table j other))
  ];
  named = λ j x h. elim (ℤ_discrete fd j) [
    | yes same ↦ name x (ap (λ i. element i t) same ∙ h) ∙ same
    | no other ↦ a.named_off j x (sym (table j other) ∙ h)
  ];
}

-- A new element for a descriptor, which the kernel watches for its events.
pub put-Agrees :
    (fd : ℤ) (e : Element) (s : Poll)
    → e.fd ≡ fd
    → Agrees s
    → Agrees (record s { table = put fd (some e) s.table; kernel = put fd e.events s.kernel })
unfolding put element
put-Agrees fd e s n a =
    at-Agrees fd s (record s { table = put fd (some e) s.table; kernel = put fd e.events s.kernel })
      (λ j h. find-put_ne fd j e.events s.kernel h) (λ j h. element-put_ne fd j (some e) s h)
      (find-put_self fd e.events s.kernel ∙ sym (ap events_of (element-put_self fd (some e) s)))
      (λ x h. cc (element-put_self fd (some e) s)) (Agrees-Off fd s a)

-- An element that changes otherwise than in its descriptor and events.
pub update-Agrees :
    (fd : ℤ) (e f : Element) (s : Poll)
    → element fd s ≡ some e
    → f.fd ≡ e.fd
    → f.events ≡ e.events
    → Agrees s
    → Agrees (record s { table = put fd (some f) s.table })
unfolding put element
update-Agrees fd e f s at n k a =
    at-Agrees fd s (record s { table = put fd (some f) s.table }) (λ j h. refl)
      (λ j h. element-put_ne fd j (some f) s h)
      (a.watched fd
        ∙ ap events_of at
        ∙ sym (ap some k)
        ∙ sym (ap events_of (element-put_self fd (some f) s)))
      (λ x h. cc (element-put_self fd (some f) s, a.named fd e at)) (Agrees-Off fd s a)

table_remove_ne :
    (fd j : ℤ) (s : Poll) → fd ≢ j → element j (remove_from_poll_event fd s) ≡ element j s
unfolding remove_from_poll_event element insert
table_remove_ne fd j s h =
    ground (arith, find-erase_ne fd j s.table h, find-put_ne fd j none s.table h)

-- A removed descriptor has no element.
pub element-remove_self : (fd : ℤ) (s : Poll) → element fd (remove_from_poll_event fd s) ≡ none
unfolding remove_from_poll_event element insert
element-remove_self fd s = ground (arith, find-erase_self fd s.table, find-put_self fd none s.table)

-- The kernel does not watch a removed descriptor.
pub kernel-remove_self : (fd : ℤ) (s : Poll) → find fd (remove_from_poll_event fd s).kernel ≡ none
unfolding remove_from_poll_event
kernel-remove_self fd s = find-erase_self fd s.kernel

pub remove-Agrees : (fd : ℤ) (s : Poll) → AgreesOff fd s → Agrees (remove_from_poll_event fd s)
unfolding remove_from_poll_event element
remove-Agrees fd s a =
    at-Agrees fd s (remove_from_poll_event fd s) (λ j h. find-erase_ne fd j s.kernel h)
      (λ j h. table_remove_ne fd j s h)
      (kernel-remove_self fd s ∙ sym (ap events_of (element-remove_self fd s)))
      (λ x h. cc (element-remove_self fd s)) a

-- Where the kernel agrees with the table, adding a descriptor succeeds, unless the kernel refuses it.
pub add_to_poll_event-Agrees :
    (fd : ℤ) (flags : Events) (s : Poll)
    → Agrees s
    → Agrees (add_to_poll_event false fd flags s).0
      × ((add_to_poll_event false fd flags s).1 ≡ pos 0)
unfolding add_to_poll_event ctl_add ctl_mod
add_to_poll_event-Agrees fd flags s a = elim (Option-cases (element fd s)) [
  | inl new ↦
      rw (add_to_poll_event, new, ctl_add, a.watched fd, new)
        (put-Agrees fd (new_event_element fd flags) s refl a, refl)
  | inr (e, old) ↦
      rw (add_to_poll_event, old, ctl_mod, a.watched fd, old)
        (
          put-Agrees fd (record e { events = or_events e.events flags }) s (a.named fd e old) a,
          refl,
        )
]

-- A socket that is to be received from goes into both the table and the kernel's watches.
pub watch_socket-Agrees : (fd : ℤ) (s : Poll) → Agrees s → Agrees (watch_socket false fd s)
unfolding watch_socket
watch_socket-Agrees fd s a =
    let added = (add_to_poll_event-Agrees fd receive_events s a).0 in
    elim (Option-cases (element fd (add_to_poll_event false fd receive_events s).0)) [
      | inl new ↦ rw (watch_socket, new) added
      | inr (e, old) ↦
          rw (watch_socket, old)
            (update-Agrees fd e (record e { read_callback = true; close_callback = true })
              (add_to_poll_event false fd receive_events s).0 old refl refl added)
    ]

element-insert-none :
    (fd : ℤ) (s : Poll)
    → element fd s ≡ none
    → element fd (record s { table = insert fd none s.table }) ≡ none
unfolding element insert
element-insert-none fd s gone = ground (arith, find-put_self fd none s.table)

-- The null element that a look at the table leaves.
pub null-Agrees :
    (fd : ℤ) (s : Poll)
    → element fd s ≡ none
    → Agrees s
    → Agrees (record s { table = insert fd none s.table })
unfolding element insert
null-Agrees fd s gone a =
    let look = element-insert-none fd s in
    at-Agrees fd s (record s { table = insert fd none s.table }) (λ j h. refl)
      (λ j h. ground (arith, find-put_ne fd j none s.table h))
      (a.watched fd ∙ ap events_of gone ∙ sym (ap events_of (look gone))) (λ x h. cc (look gone))
      (Agrees-Off fd s a)

-- The descriptor has an element.
abbrev pub Has : ℤ → Poll → Type 0
Has fd s = (e : Element) × (element fd s ≡ some e)

-- An element that is set takes no other away.
pub put-Has :
    (fd j : ℤ) (f : Element) (s : Poll)
    → Has j s
    → Has j (record s { table = put fd (some f) s.table })
unfolding element put
put-Has fd j f s (e, at) = elim (ℤ_discrete fd j) [
  | yes same ↦ (
    f,
    ap (λ i. element i (record s { table = put fd (some f) s.table })) (sym same)
        ∙ element-put_self fd (some f) s,
  )
  | no other ↦ (e, element-put_ne fd j (some f) s other ∙ at)
]

add_to_poll_event-Has :
    (fd j : ℤ) (flags : Events) (s : Poll)
    → Agrees s
    → Has j s
    → Has j (add_to_poll_event false fd flags s).0
unfolding add_to_poll_event ctl_add ctl_mod
add_to_poll_event-Has fd j flags s a h = elim (Option-cases (element fd s)) [
  | inl new ↦
      rw (add_to_poll_event, new, ctl_add, a.watched fd, new)
        (put-Has fd j (new_event_element fd flags) s h)
  | inr (e, old) ↦
      rw (add_to_poll_event, old, ctl_mod, a.watched fd, old)
        (put-Has fd j (record e { events = or_events e.events flags }) s h)
]

-- Watching a socket takes no element away.
pub watch_socket-Has : (fd j : ℤ) (s : Poll) → Agrees s → Has j s → Has j (watch_socket false fd s)
unfolding watch_socket
watch_socket-Has fd j s a h =
    let kept = add_to_poll_event-Has fd j receive_events s a h in
    elim (Option-cases (element fd (add_to_poll_event false fd receive_events s).0)) [
      | inl new ↦ rw (watch_socket, new) kept
      | inr (e, old) ↦
          rw (watch_socket, old)
            (put-Has fd j (record e { read_callback = true; close_callback = true })
              (add_to_poll_event false fd receive_events s).0 kept)
    ]
