-- ===== src/Epoller/Closed.antt =====
-- The end of a descriptor in src/server/epoller.cc.
use fast_dcs.Common.{Bool, true, false, ◌||◌, ◌≡◌, refl, none, if◌then◌else◌}
use fast_dcs.Common.Int.{ℤ}
use fast_dcs.Common.Maps.{find, fd_ord}
use fast_dcs.Epoller.{
  Events, Callback, Poll, Process, done, element, remove_from_poll_event, with_element, closing,
  process_event,
}
use fast_dcs.Epoller.Agree.{Has, Agrees, AgreesOff, element-remove_self, kernel-remove_self}
use fast_dcs.Epoller.Loop.{
  Tame, Live, LiveOff, bind-Live, bind-LiveOff, close-Off, note_event-Live, readable-Live,
  writable-Live,
}

-- The pass went through, and the descriptor has neither an element nor a watch.
abbrev Gone : ℤ → Process → Type 0
Gone fd p = (t : Poll) × ((p ≡ done t) × ((element fd t ≡ none) × (find fd t.kernel ≡ none)))

if-Gone : (fd : ℤ) (b : Bool) (p q : Process) → b ≡ true → Gone fd p → Gone fd (if b then p else q)
if-Gone fd true p q set h = h
if-Gone fd false p q set h = cc

module _ (callback : Callback → ℤ → Events → Poll → Poll) (tame : Tame callback) where
  remove-Gone :
      (fd : ℤ) (s : Poll)
      → AgreesOff fd s
      → Has fd s
      → Gone fd (with_element callback fd (λ e t. done (remove_from_poll_event e.fd t)) s)
  unfolding with_element
  remove-Gone fd s a (e, at) =
      rw (with_element, at, a.named_off fd e at)
        (remove_from_poll_event fd s, (refl, (element-remove_self fd s, kernel-remove_self fd s)))

  closing-Gone :
      (fd : ℤ) (ev : Events) (s : Poll)
      → (ev.epoll_rdhup || (ev.epoll_err || ev.epoll_hup)) ≡ true
      → Agrees s
      → Has fd s
      → Gone fd (closing callback fd ev s)
  unfolding closing
  closing-Gone fd ev s over a h = if-Gone fd _ _ _ over (
      bind-LiveOff (Gone fd) fd _ _
        (bind-Live (LiveOff fd) fd _ _ (note_event-Live callback tame fd _ s a h)
          (close-Off callback tame _ fd ev))
        (remove-Gone fd))

  -- An event that tells of a shutdown, an error or a hang-up, on a descriptor that has an element, where the table
  -- and the kernel agree and callbacks keep that as in the loop: whatever else the event tells of, the
  -- descriptor is without an element afterwards and the kernel does not watch it.
  pub process_event_over :
      (fd : ℤ) (ev : Events) (s : Poll)
      → (ev.epoll_rdhup || (ev.epoll_err || ev.epoll_hup)) ≡ true
      → Agrees s
      → Has fd s
      → (t : Poll) × ((process_event callback fd ev s ≡ done t)
          × ((element fd t ≡ none) × (find fd t.kernel ≡ none)))
  unfolding process_event
  process_event_over fd ev s over a (e, at) =
      rw (process_event, at)
        (bind-Live (Gone fd) fd _ _
          (bind-Live (Live fd) fd _ _ (readable-Live callback tame fd ev s a (e, at))
            (writable-Live callback tame fd ev))
          (λ t b h. closing-Gone fd ev t over b h))
