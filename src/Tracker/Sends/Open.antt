-- ===== src/Tracker/Sends/Open.antt =====
-- The sockets of src/server/tracker.cc that come and go, with their connectors.
use fast_dcs.Common.{
  ◌^◌, ◌≤◌, ◌<◌, ◌≡◌, ◌≢◌, refl, sym, ap, subst, ◌∙◌, false, inl, inr, Option, Option-cases, none,
  some, arith,
}
use fast_dcs.Common.Int.{ℤ_discrete, ℤ}
use fast_dcs.Common.Texts.{Text}
use fast_dcs.Common.Maps.{
  find, put, insert, fd_ord, find-put_self, find-put_ne, find-erase_self, find-erase_ne,
}
use fast_dcs.SignalingQueue
use fast_dcs.SignalingQueue.{
  SignalingQueue, add, add_locked, enqueue, returns, waits, Outcome, is_finished,
}
use fast_dcs.SignalingQueue.Inv.{IsValid, init-IsValid}
use fast_dcs.Connector
use fast_dcs.Connector.{Connector}
use fast_dcs.Connector.Sending.{Ready}
use fast_dcs.Tracker.State.{World}
use fast_dcs.Tracker.Sockets.{add_socket_resource, remove_socket_resource}
use fast_dcs.Tracker.Sends.{Senders, add_socket, remove_socket}
use fast_dcs.Tracker.Sends.Conserve.{IsGood, some_inj}

-- What a connector at a descriptor stands for.
abbrev pub Backed : Option SignalingQueue → Connector → Type 0
Backed buffer c =
    (q : SignalingQueue) × ((buffer ≡ some q) × (Ready c × (IsValid q × (is_finished q ≡ false))))

-- A change at one descriptor.
pub at-IsGood :
    (fd : ℤ) (s t : Senders)
    → ((j : ℤ) → fd ≢ j → find j t.send_connects ≡ find j s.send_connects)
    → ((j : ℤ) → fd ≢ j → find j t.tracker.send_buffers ≡ find j s.tracker.send_buffers)
    → ((c : Connector)
        → find fd t.send_connects ≡ some (some c)
        → Backed (find fd t.tracker.send_buffers) c)
    → IsGood s
    → IsGood t
at-IsGood fd s t connects buffers here g = record {
  buffer = λ j c h. elim (ℤ_discrete fd j) [
    | yes same ↦
        subst (λ i. Backed (find i t.tracker.send_buffers) c) same
          (here c (ap (λ i. find i t.send_connects) same ∙ h))
    | no other ↦
        let (q, (at, rest)) = g.buffer j c (sym (connects j other) ∙ h) in
        (q, (buffers j other ∙ at, rest))
  ];
}

pub remove_socket-IsGood : (fd : ℤ) (s : Senders) → IsGood s → IsGood (remove_socket fd s)
unfolding remove_socket remove_socket_resource
remove_socket-IsGood fd s g =
    at-IsGood fd s (remove_socket fd s) (λ j other. find-erase_ne fd j s.send_connects other)
      (λ j other. find-erase_ne fd j s.tracker.send_buffers other)
      (λ c h. cc (find-erase_self fd s.send_connects)) g

module _ (w : World) (fd : ℤ) (address : Text) (s : Senders) where
  unfoldable fresh : SignalingQueue
  fresh = SignalingQueue.init w.socket_buff_size 1

  unfoldable pub added : Senders
  added = add_socket w fd address s

  new_connects :
      find fd s.tracker.send_buffers ≡ none
      → added.send_connects ≡ put fd (some Connector.clear) s.send_connects
  unfolding added add_socket
  new_connects new = rw (new, add_socket) refl

  new_buffers :
      find fd s.tracker.send_buffers ≡ none
      → added.tracker.send_buffers ≡ put fd fresh s.tracker.send_buffers
  unfolding added fresh add_socket add_socket_resource insert
  new_buffers new = rw (add_socket, add_socket_resource, insert, new) refl

  old_connects :
      (q : SignalingQueue)
      → find fd s.tracker.send_buffers ≡ some q
      → added.send_connects ≡ s.send_connects
  unfolding added add_socket
  old_connects q old = rw (add_socket, old) refl

  old_buffers :
      (q : SignalingQueue)
      → find fd s.tracker.send_buffers ≡ some q
      → added.tracker.send_buffers ≡ s.tracker.send_buffers
  unfolding added add_socket add_socket_resource insert
  old_buffers q old = rw (add_socket, add_socket_resource, insert, old) refl

  fresh-Backed :
      (c : Connector)
      → 0 < w.socket_buff_size
      → w.socket_buff_size ≤ 2 ^ 30
      → Path (Option (Option Connector)) (some (some Connector.clear)) (some (some c))
      → Backed (some fresh) c
  unfolding fresh Connector.clear SignalingQueue.init
  fresh-Backed c sized small h =
      subst (Backed (some fresh))
        (some_inj Connector.clear c (some_inj (some Connector.clear) (some c) h))
        (fresh, (refl, (omega arith, (init-IsValid w.socket_buff_size 1 sized small, refl))))

  new-IsGood :
      0 < w.socket_buff_size
      → w.socket_buff_size ≤ 2 ^ 30
      → find fd s.tracker.send_buffers ≡ none
      → IsGood s
      → IsGood added
  new-IsGood sized small new g =
      at-IsGood fd s added
        (λ j other.
          ap (find j) (new_connects new)
          ∙ find-put_ne fd j (some Connector.clear) s.send_connects other)
        (λ j other.
          ap (find j) (new_buffers new) ∙ find-put_ne fd j fresh s.tracker.send_buffers other)
        (λ c h.
          subst (λ b. Backed b c)
            (sym (ap (find fd) (new_buffers new) ∙ find-put_self fd fresh s.tracker.send_buffers))
            (fresh-Backed c sized small (
              sym (
                ap (find fd) (new_connects new)
                ∙ find-put_self fd (some Connector.clear) s.send_connects)
              ∙ h)))
        g

  pub add_socket-IsGood :
      0 < w.socket_buff_size → w.socket_buff_size ≤ 2 ^ 30 → IsGood s → IsGood added
  add_socket-IsGood sized small g = elim (Option-cases (find fd s.tracker.send_buffers)) [
    | inl new ↦ new-IsGood sized small new g
    | inr (q, old) ↦ record {
      buffer = λ j c h.
          let (p, (at, rest)) = g.buffer j c (sym (ap (find j) (old_connects q old)) ∙ h) in
          (p, (ap (find j) (old_buffers q old) ∙ at, rest));
    }
  ]
