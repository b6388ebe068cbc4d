-- ===== src/Epoller/Loop.antt =====
-- The passes of src/server/epoller.cc over the events, with callbacks that keep the table.
use fast_dcs.Common.{
  Bool, Bool-cases, true, false, ◌≡◌, ◌≢◌, refl, inl, inr, Option-cases, none, some, List, [], ◌∷◌,
  if◌then◌else◌,
}
use fast_dcs.Common.Int.{ℤ}
use fast_dcs.Common.Maps.{put, insert, fd_ord}
use fast_dcs.Epoller.{
  Events, Element, Callback, accept, connect, read, write, close, Poll, Process, done, ◌>>=◌,
  element, and_events, remove_from_poll_event, with_element, call, note_event, readable, writable,
  closing, process_event, process_events, poll_event_process, poll_event_loop,
}
use fast_dcs.Epoller.Agree.{
  Has, Agrees, AgreesOff, Agrees-Off, null-Agrees, update-Agrees, element-put_self, remove-Agrees,
}

-- Callbacks that delete no element and leave the table and the kernel agreed; a close callback may end the
-- kernel's watch of its descriptor.
pub record Tame (callback : Callback → ℤ → Events → Poll → Poll) : Type 0 where
  pub agree :
      (kind : Callback) (fd : ℤ) (ev : Events) (s : Poll)
      → kind ≢ close
      → Agrees s
      → Agrees (callback kind fd ev s)
  pub agree_close :
      (fd : ℤ) (ev : Events) (s : Poll) → Agrees s → AgreesOff fd (callback close fd ev s)
  pub kept :
      (kind : Callback) (fd j : ℤ) (ev : Events) (s : Poll)
      → Agrees s
      → Has j s
      → Has j (callback kind fd ev s)

-- The pass went through.
abbrev pub Sound : Process → Type 0
Sound p = (t : Poll) × ((p ≡ done t) × Agrees t)

-- The pass went through, and the descriptor still has its element.
abbrev pub Live : ℤ → Process → Type 0
Live fd p = (t : Poll) × ((p ≡ done t) × (Agrees t × Has fd t))

-- The pass went through up to the close callback.
abbrev pub LiveOff : ℤ → Process → Type 0
LiveOff fd p = (t : Poll) × ((p ≡ done t) × (AgreesOff fd t × Has fd t))

pub bind-Live :
    (Q : Process → Type 0) (fd : ℤ) (p : Process) (f : Poll → Process)
    → Live fd p
    → ((t : Poll) → Agrees t → Has fd t → Q (f t))
    → Q (p >>= f)
bind-Live Q fd p f (t, (at, (a, h))) k = rw at (k t a h)

pub bind-LiveOff :
    (Q : Process → Type 0) (fd : ℤ) (p : Process) (f : Poll → Process)
    → LiveOff fd p
    → ((t : Poll) → AgreesOff fd t → Has fd t → Q (f t))
    → Q (p >>= f)
bind-LiveOff Q fd p f (t, (at, (a, h))) k = rw at (k t a h)

both_branches :
    (Q : Process → Type 0) (b : Bool) (p q : Process) → Q p → Q q → Q (if b then p else q)
both_branches Q true p q h k = h
both_branches Q false p q h k = k

module _ (callback : Callback → ℤ → Events → Poll → Poll) (tame : Tame callback) where
  pub call-Live :
      (kind : Callback) (test : Element → Bool) (fd : ℤ) (ev : Events)
      → kind ≢ close
      → (s : Poll) → Agrees s
      → Has fd s
      → Live fd (call callback kind test fd ev s)
  unfolding call with_element
  call-Live kind test fd ev other s a (e, at) = elim (Bool-cases (test e)) [
    | inl set ↦
        rw (call, with_element, at, set)
          (
            callback kind fd ev s,
            (refl, (tame.agree kind fd ev s other a, tame.kept kind fd fd ev s a (e, at))),
          )
    | inr clear ↦ rw (call, with_element, at, clear) (s, (refl, (a, (e, at))))
  ]

  pub close-Off :
      (test : Element → Bool) (fd : ℤ) (ev : Events) (s : Poll)
      → Agrees s
      → Has fd s
      → LiveOff fd (call callback close test fd ev s)
  unfolding call with_element
  close-Off test fd ev s a (e, at) = elim (Bool-cases (test e)) [
    | inl set ↦
        rw (call, with_element, at, set)
          (
            callback close fd ev s,
            (refl, (tame.agree_close fd ev s a, tame.kept close fd fd ev s a (e, at))),
          )
    | inr clear ↦ rw (call, with_element, at, clear) (s, (refl, (Agrees-Off fd s a, (e, at))))
  ]

  pub note_event-Live :
      (fd : ℤ) (flag : Events) (s : Poll)
      → Agrees s
      → Has fd s
      → Live fd (note_event callback fd flag s)
  unfolding note_event with_element
  note_event-Live fd flag s a (e, at) =
      let noted = record e { cur_event = and_events e.cur_event flag } in
      rw (note_event, with_element, at)
        (
          record s { table = put fd (some noted) s.table },
          (
            refl,
            (
              update-Agrees fd e noted s at refl refl a,
              (noted, element-put_self fd (some noted) s),
            ),
          ),
        )

  pub readable-Live :
      (fd : ℤ) (ev : Events) (s : Poll) → Agrees s → Has fd s → Live fd (readable callback fd ev s)
  unfolding readable
  readable-Live fd ev s a h =
      both_branches (Live fd) _ _ _
        (bind-Live (Live fd) fd _ _
          (bind-Live (Live fd) fd _ _
            (bind-Live (Live fd) fd _ _ (note_event-Live fd _ s a h)
              (call-Live accept _ fd ev (λ same. cc)))
            (call-Live connect _ fd ev (λ same. cc)))
          (call-Live read _ fd ev (λ same. cc)))
        (s, (refl, (a, h)))

  pub writable-Live :
      (fd : ℤ) (ev : Events) (s : Poll) → Agrees s → Has fd s → Live fd (writable callback fd ev s)
  unfolding writable
  writable-Live fd ev s a h =
      both_branches (Live fd) _ _ _
        (bind-Live (Live fd) fd _ _ (note_event-Live fd _ s a h)
          (call-Live write _ fd ev (λ same. cc)))
        (s, (refl, (a, h)))

  remove-Sound :
      (fd : ℤ) (s : Poll)
      → AgreesOff fd s
      → Has fd s
      → Sound (with_element callback fd (λ e t. done (remove_from_poll_event e.fd t)) s)
  unfolding with_element
  remove-Sound fd s a (e, at) =
      rw (with_element, at, a.named_off fd e at)
        (remove_from_poll_event fd s, (refl, remove-Agrees fd s a))

  closing-Sound :
      (fd : ℤ) (ev : Events) (s : Poll) → Agrees s → Has fd s → Sound (closing callback fd ev s)
  unfolding closing
  closing-Sound fd ev s a h =
      both_branches Sound _ _ _
        (bind-LiveOff Sound fd _ _
          (bind-Live (LiveOff fd) fd _ _ (note_event-Live fd _ s a h) (close-Off _ fd ev))
          (remove-Sound fd))
        (s, (refl, a))

  process_event-Sound :
      (fd : ℤ) (ev : Events) (s : Poll) → Agrees s → Sound (process_event callback fd ev s)
  unfolding process_event
  process_event-Sound fd ev s a = elim (Option-cases (element fd s)) [
    | inl gone ↦
        rw (process_event, gone)
          (record s { table = insert fd none s.table }, (refl, null-Agrees fd s gone a))
    | inr (e, at) ↦
        rw (process_event, at)
          (bind-Live Sound fd _ _
            (bind-Live (Live fd) fd _ _ (readable-Live fd ev s a (e, at)) (writable-Live fd ev))
            (closing-Sound fd ev))
  ]

  process_events-Sound :
      (events : List (ℤ × Events)) (s : Poll) → Agrees s → Sound (process_events callback events s)
  unfolding process_events
  process_events-Sound [] s a = (s, (refl, a))
  process_events-Sound ((fd, ev) ∷ events) s a =
      let (t, (at, b)) = process_event-Sound fd ev s a in
      rw (process_events, at) (process_events-Sound events t b)

  -- From a table whose descriptors are just those that the kernel watches, for the events of their elements, and
  -- with callbacks that delete no element and leave it so, save that a close callback may end the watch of its
  -- descriptor: no round uses a deleted element, and every round leaves the table and the kernel so.
  pub poll_event_loop-Agrees :
      (rounds : List (List (ℤ × Events))) (s : Poll)
      → Agrees s
      → (t : Poll) × ((poll_event_loop callback rounds s ≡ done t) × Agrees t)
  unfolding poll_event_loop poll_event_process
  poll_event_loop-Agrees [] s a = (s, (refl, a))
  poll_event_loop-Agrees (events ∷ rounds) s a =
      let (t, (at, b)) = process_events-Sound events s a in
      rw (poll_event_loop, poll_event_process, at) (poll_event_loop-Agrees rounds t b)
