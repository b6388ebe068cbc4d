-- ===== src/Epoller.antt =====
-- src/server/epoller.cc: the table of watched descriptors, and the events that `epoll_wait` gives. The kernel's
-- side of epoll is a map of its own, by what Linux documents of `epoll_ctl` and `close`.
pub mod Agree
pub mod Stale
pub mod Loop
pub mod Closed
mod Tests
use fast_dcs.Common.{
  Bool, true, false, ◌&&◌, ◌||◌, Option, none, some, List, [], ◌∷◌, if◌then◌else◌,
}
use fast_dcs.Common.Int.{ℤ, pos, negsuc}
use fast_dcs.Common.Maps.{find, put, insert, erase, fd_ord}

-- The bits of an event mask that the code names.
pub record Events : Type 0 where
  pub epoll_in : Bool
  pub epoll_pri : Bool
  pub epoll_out : Bool
  pub epoll_err : Bool
  pub epoll_hup : Bool
  pub epoll_rdhup : Bool

abbrev pub no_events : Events
no_events = record {
  epoll_in = false;
  epoll_pri = false;
  epoll_out = false;
  epoll_err = false;
  epoll_hup = false;
  epoll_rdhup = false;
}

-- `a | b` and `a & b`.
unfoldable pub or_events : Events → Events → Events
or_events a b = record {
  epoll_in = a.epoll_in || b.epoll_in;
  epoll_pri = a.epoll_pri || b.epoll_pri;
  epoll_out = a.epoll_out || b.epoll_out;
  epoll_err = a.epoll_err || b.epoll_err;
  epoll_hup = a.epoll_hup || b.epoll_hup;
  epoll_rdhup = a.epoll_rdhup || b.epoll_rdhup;
}

unfoldable pub and_events : Events → Events → Events
and_events a b = record {
  epoll_in = a.epoll_in && b.epoll_in;
  epoll_pri = a.epoll_pri && b.epoll_pri;
  epoll_out = a.epoll_out && b.epoll_out;
  epoll_err = a.epoll_err && b.epoll_err;
  epoll_hup = a.epoll_hup && b.epoll_hup;
  epoll_rdhup = a.epoll_rdhup && b.epoll_rdhup;
}

-- `poll_event_element`: which callbacks are set, and the two bits of `cb_flags`.
pub record Element : Type 0 where
  pub fd : ℤ
  pub events : Events
  pub cur_event : Events
  pub accept_cb : Bool
  pub connect_cb : Bool
  pub write_callback : Bool
  pub read_callback : Bool
  pub close_callback : Bool
  pub accept_callback : Bool
  pub connect_callback : Bool

pub data Callback : Type 0 where
  write read close accept connect : Callback

-- The table, in which `operator[]` makes null elements, and what the kernel watches.
pub record Poll : Type 0 where
  pub table : List (ℤ × Option Element)
  pub kernel : List (ℤ × Events)

-- `NewEventElement`.
unfoldable pub new_event_element : ℤ → Events → Element
new_event_element fd events = record {
  fd = fd;
  events = events;
  cur_event = no_events;
  accept_cb = false;
  connect_cb = false;
  write_callback = false;
  read_callback = false;
  close_callback = false;
  accept_callback = false;
  connect_callback = false;
}

-- `EPOLL_CTL_ADD` of a watched descriptor fails, and so does `EPOLL_CTL_MOD` of any other. `refused` says that
-- the kernel refuses the call for another reason: no open file that can be watched, no memory, no watches left.
unfoldable pub ctl_add : Bool → ℤ → Events → Poll → Poll × ℤ
unfolding find put
ctl_add refused fd events s = elim (find fd s.kernel) [
  | some old ↦ (s, negsuc 0)
  | none ↦ if refused then (s, negsuc 0) else (record s { kernel = put fd events s.kernel }, pos 0)
]

unfoldable pub ctl_mod : Bool → ℤ → Events → Poll → Poll × ℤ
unfolding find put
ctl_mod refused fd events s = elim (find fd s.kernel) [
  | some old ↦
      if refused then (s, negsuc 0) else (record s { kernel = put fd events s.kernel }, pos 0)
  | none ↦ (s, negsuc 0)
]

-- The element at a descriptor that is not null.
unfoldable pub element : ℤ → Poll → Option Element
unfolding find
element fd s = elim (find fd s.table) [ some e ↦ e | none ↦ none ]

-- `AddToPollEvent`. The caller gets the element, to set its callbacks.
unfoldable pub add_to_poll_event : Bool → ℤ → Events → Poll → Poll × ℤ
unfolding element ctl_add ctl_mod or_events new_event_element put
add_to_poll_event refused fd flags s = elim (element fd s) [
  | some e ↦
      let events = or_events e.events flags in
      ctl_mod refused fd events
        (record s { table = put fd (some (record e { events = events })) s.table })
  | none ↦
      ctl_add refused fd flags
        (record s { table = put fd (some (new_event_element fd flags)) s.table })
]

-- The events that a socket is watched for.
abbrev pub receive_events : Events
receive_events = record no_events { epoll_in = true; epoll_hup = true; epoll_rdhup = true }

-- The end of `AddSocketResource` of src/server/tracker.cc, which does not look at the result.
unfoldable pub watch_socket : Bool → ℤ → Poll → Poll
unfolding element add_to_poll_event put
watch_socket refused fd s =
    let (t, result) = add_to_poll_event refused fd receive_events s in
    elim (element fd t) [
      | some e ↦ record t {
        table = put fd (some (record e { read_callback = true; close_callback = true })) t.table;
      }
      | none ↦ t
    ]

-- `RemoveFromPollEvent`; closing a descriptor ends its watch, so `EPOLL_CTL_DEL` finds nothing. The look at the
-- table leaves a null element where none was.
unfoldable pub remove_from_poll_event : ℤ → Poll → Poll
unfolding element insert erase
remove_from_poll_event fd s = record s {
  table = elim (element fd s) [ some e ↦ erase fd s.table | none ↦ insert fd none s.table ];
  kernel = erase fd s.kernel;
}

-- A pass over an event, or a use of an element that a callback has deleted.
pub data Process : Type 0 where
  done : Poll → Process
  dangling : Process

infixl 5 ◌>>=◌
abbrev pub ◌>>=◌ : Process → (Poll → Process) → Process
done s >>= f = f s
dangling >>= f = dangling

module _ (callback : Callback → ℤ → Events → Poll → Poll) where
  -- A use of the element `value`, which is read anew, since callbacks run between its uses.
  unfoldable pub with_element : ℤ → (Element → Poll → Process) → Poll → Process
  unfolding element
  with_element fd f s = elim (element fd s) [ some e ↦ f e s | none ↦ dangling ]

  -- A callback, if it is to be called.
  unfoldable pub call : Callback → (Element → Bool) → ℤ → Events → Poll → Process
  unfolding with_element
  call kind test fd ev s =
      with_element fd (λ e t. if test e then done (callback kind fd ev t) else done t) s

  -- `value->cur_event &= flag`.
  unfoldable pub note_event : ℤ → Events → Poll → Process
  unfolding with_element and_events put
  note_event fd flag s =
      with_element fd
        (λ e t. done (record t {
          table = put fd (some (record e { cur_event = and_events e.cur_event flag })) t.table;
        }))
        s

  -- When data is available.
  unfoldable pub readable : ℤ → Events → Poll → Process
  unfolding note_event call
  readable fd ev s =
      if ev.epoll_in || ev.epoll_pri
      then (note_event fd
            (if ev.epoll_in
              then record no_events { epoll_in = true }
              else record no_events { epoll_pri = true })
            s
          >>= call accept (λ e. e.accept_cb && e.accept_callback) fd ev
          >>= call connect (λ e. e.connect_cb && e.connect_callback) fd ev
          >>= call read (λ e. e.read_callback) fd ev)
      else done s

  -- When a write is possible.
  unfoldable pub writable : ℤ → Events → Poll → Process
  unfolding note_event call
  writable fd ev s =
      if ev.epoll_out
      then (note_event fd (record no_events { epoll_out = true }) s
          >>= call write (λ e. e.write_callback) fd ev)
      else done s

  -- After a shutdown or an error, the element goes.
  unfoldable pub closing : ℤ → Events → Poll → Process
  unfolding note_event call with_element remove_from_poll_event
  closing fd ev s =
      if ev.epoll_rdhup || (ev.epoll_err || ev.epoll_hup)
      then (note_event fd
            (if ev.epoll_rdhup
              then record no_events { epoll_rdhup = true }
              else record no_events { epoll_err = true })
            s
          >>= call close (λ e. e.close_callback) fd ev
          >>= with_element fd (λ e t. done (remove_from_poll_event e.fd t)))
      else done s

  -- One event of `epoll_wait`.
  unfoldable pub process_event : ℤ → Events → Poll → Process
  unfolding element readable writable closing insert
  process_event fd ev s = elim (element fd s) [
    | none ↦ done (record s { table = insert fd none s.table })
    | some e ↦ readable fd ev s >>= writable fd ev >>= closing fd ev
  ]

  unfoldable pub process_events : List (ℤ × Events) → Poll → Process
  unfolding process_event
  process_events [] s = done s
  process_events ((fd, ev) ∷ events) s = process_event fd ev s >>= λ t. process_events events t

  -- `PollEventProcess`, on the events of `epoll_wait`; with none the time is out, and no callback is set for that.
  unfoldable pub poll_event_process : List (ℤ × Events) → Poll → Process
  unfolding process_events
  poll_event_process events s = process_events events s

  -- Rounds of `PollEventLoop`.
  unfoldable pub poll_event_loop : List (List (ℤ × Events)) → Poll → Process
  unfolding poll_event_process
  poll_event_loop [] s = done s
  poll_event_loop (events ∷ rounds) s =
      poll_event_process events s >>= λ t. poll_event_loop rounds t
