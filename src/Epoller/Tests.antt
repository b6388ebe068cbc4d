-- ===== src/Epoller/Tests.antt =====
-- Runs of src/server/epoller.cc: callbacks that watch a new socket 9 on accept and close a descriptor on close.
use fast_dcs.Common.{◌∙◌, ◌⊎◌, Bool, true, false, ◌≡◌, ◌≢◌, refl, Option, none, some, List, [], ◌∷◌}
use fast_dcs.Common.Int.{ℤ, pos, negsuc}
use fast_dcs.Common.Maps.{find, put, erase, find-erase_ne, fd_ord}
use fast_dcs.Epoller.{
  poll_event_process, process_events, Events, no_events, receive_events, Element, new_event_element,
  Callback, accept, read, write, close, connect, Poll, done, element, watch_socket,
  add_to_poll_event, process_event, poll_event_loop,
}
use fast_dcs.Epoller.Agree.{
  Has, AgreesOff, put-Agrees, watch_socket-Has, Agrees, watch_socket-Agrees,
}
use fast_dcs.Epoller.Stale.{IsStale, adds, watches, adds_to_poll, IsStale-stays}
use fast_dcs.Epoller.Loop.{Tame, poll_event_loop-Agrees}
use fast_dcs.Epoller.Closed.{process_event_over}

abbrev sockets : Callback → ℤ → Events → Poll → Poll
sockets accept fd ev s = watch_socket false (pos 9) s
sockets read fd ev s = s
sockets write fd ev s = s
sockets close fd ev s = record s { kernel = erase fd s.kernel }
sockets connect fd ev s = s

sockets-agree :
    (kind : Callback) (fd : ℤ) (ev : Events) (s : Poll)
    → kind ≢ close
    → Agrees s
    → Agrees (sockets kind fd ev s)
sockets-agree accept fd ev s other a = watch_socket-Agrees (pos 9) s a
sockets-agree read fd ev s other a = a
sockets-agree write fd ev s other a = a
sockets-agree close fd ev s other a = elim (other refl) [ ]
sockets-agree connect fd ev s other a = a

sockets-agree_close :
    (fd : ℤ) (ev : Events) (s : Poll) → Agrees s → AgreesOff fd (sockets close fd ev s)
unfolding element
sockets-agree_close fd ev s a = record {
  watched_off = λ j h. find-erase_ne fd j s.kernel h ∙ a.watched j;
  named_off = a.named;
}

sockets-kept :
    (kind : Callback) (fd j : ℤ) (ev : Events) (s : Poll)
    → Agrees s
    → Has j s
    → Has j (sockets kind fd ev s)
unfolding element
sockets-kept accept fd j ev s a h = watch_socket-Has (pos 9) j s a h
sockets-kept read fd j ev s a h = h
sockets-kept write fd j ev s a h = h
sockets-kept close fd j ev s a h = h
sockets-kept connect fd j ev s a h = h

sockets-Tame : Tame sockets
sockets-Tame = record {
  agree = sockets-agree;
  agree_close = sockets-agree_close;
  kept = sockets-kept;
}

abbrev nothing_watched : Poll
nothing_watched = record { table = []; kernel = [] }

nothing-Agrees : Agrees nothing_watched
unfolding find element
nothing-Agrees = record { watched = λ fd. refl; named = λ fd e h. cc }

-- A listening socket 3.
abbrev listening : Element
listening = record (new_event_element (pos 3) (record no_events { epoll_in = true })) {
  accept_cb = true;
  accept_callback = true;
  close_callback = true;
}

abbrev one_watched : Poll
one_watched = record {
  table = (pos 3, some listening) ∷ [];
  kernel = (pos 3, listening.events) ∷ [];
}

one-Agrees : Agrees one_watched
unfolding new_event_element put
one-Agrees = put-Agrees (pos 3) listening nothing_watched refl nothing-Agrees

abbrev hung_up : Events
hung_up = record receive_events { epoll_hup = true }

-- The socket closed elsewhere keeps its element.
abbrev stale : Poll
stale = record one_watched { kernel = [] }

-- A new connection on the socket, which then hangs up.
abbrev rounds : List (List (ℤ × Events))
rounds = ((pos 3, record no_events { epoll_in = true }) ∷ []) ∷ ((pos 9, hung_up) ∷ []) ∷ []

poll_event_loop-Agrees_example :
    (t : Poll) × ((poll_event_loop sockets rounds one_watched ≡ done t) × Agrees t)
poll_event_loop-Agrees_example =
    poll_event_loop-Agrees sockets sockets-Tame rounds one_watched one-Agrees

process_event_over_example :
    (t : Poll) × ((process_event sockets (pos 3) hung_up one_watched ≡ done t)
      × ((element (pos 3) t ≡ none) × (find (pos 3) t.kernel ≡ none)))
unfolding element find fast_dcs.Common.Maps.cmp_ℤ
process_event_over_example =
    process_event_over sockets sockets-Tame (pos 3) hung_up one_watched refl one-Agrees
      (listening, refl)

-- A later connection on descriptor 3, and one on another.
IsStale-stays_example :
    let later =
      adds_to_poll (watches false (pos 3) ∷ adds false (pos 9) receive_events ∷ []) stale in
    IsStale (pos 3) later × ((add_to_poll_event false (pos 3) receive_events later).1 ≡ negsuc 0)
unfolding element find fast_dcs.Common.Maps.cmp_ℤ
IsStale-stays_example =
    IsStale-stays (pos 3) (watches false (pos 3) ∷ adds false (pos 9) receive_events ∷ []) stale
      false receive_events ((listening, refl), refl)

-- An accepted socket is watched, until it hangs up.
accept_and_hang_up :
    poll_event_loop sockets rounds one_watched
    ≡ done (record one_watched {
      table = (pos 3, some (record listening { cur_event = no_events })) ∷ [];
    })
unfolding poll_event_loop poll_event_process process_events process_event element find put
    fast_dcs.Common.Maps.cmp_ℤ watch_socket
accept_and_hang_up = refl
