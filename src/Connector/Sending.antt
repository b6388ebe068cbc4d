-- ===== src/Connector/Sending.antt =====
-- What `Send` of src/server/connector.cc puts on the socket.
use fast_dcs.Common.{
  ℕ, zero, suc, ◌+◌, ◌%◌, ◌^◌, ◌≡◌, ◌≤◌, ◌<◌, refl, sym, ap, subst, ◌∙◌, true, false, List, [], ◌∷◌,
  ◌++◌, append_assoc, arith, Bool-cases, inl, inr, ◌==◌, length, take, drop, take-append-drop,
  length-drop,
}
use fast_dcs.Common.Int.{ℤ, pos, negsuc}
use fast_dcs.Common.Texts.{Text, is_empty}
use fast_dcs.SignalingQueue.{
  SignalingQueue, remove, remove_from, read_ring, dequeue, is_finished, empty_and_no_more_add,
}
use fast_dcs.SignalingQueue.Inv.{IsValid, Chain, remove-IsValid}
use fast_dcs.SignalingQueue.Ring.{length-read_ring}
use fast_dcs.SignalingQueue.Fifo.{view, contents}
use fast_dcs.Connector.{
  Connector, clear, count_sent, Sent, sends, loops, send_rest, load, send_loaded, send,
}

abbrev pub joined : List Text → Text
joined [] = []
joined (m ∷ ms) = m ++ joined ms

-- What a connector has still to send: the rest of its message, and the queue's messages.
abbrev pub pending : Connector → SignalingQueue → Text
pending c q = drop c.bytes_count c.message ++ joined (view q).messages

-- No more is counted than the message has, and its size is a `uint32`.
abbrev pub Ready : Connector → Type 0
Ready c = (c.bytes_count ≤ length c.message) × (length c.message < 2 ^ 32)

-- `Send` returns 1, and what the socket has taken and what is left is what was there before.
abbrev pub Conserves : Text → Sent → Type 0
Conserves before (sends c q n sent) =
    (sent ++ pending c q ≡ before) × Ready c × IsValid q × (n ≡ pos 1)
Conserves before loops = ⊥

pub drop-nil : (n : ℕ) → Path Text (drop n []) []
drop-nil zero = refl
drop-nil (suc n) = refl

pub drop-add : (k n : ℕ) (xs : Text) → drop (k + n) xs ≡ drop n (drop k xs)
drop-add zero n xs = ap (λ j. drop j xs) (omega arith)
drop-add (suc k) n [] = drop-nil (suc k + n) ∙ sym (drop-nil n)
drop-add (suc k) n (x ∷ xs) = ap (λ j. drop j (x ∷ xs)) (step k n) ∙ drop-add k n xs
  where
    step : (k n : ℕ) → suc k + n ≡ suc (k + n)
    step k n = omega arith

pub drop-all : (n : ℕ) (xs : Text) → n ≡ length xs → drop n xs ≡ []
drop-all zero [] h = refl
drop-all zero (x ∷ xs) h = absurd (omega arith)
drop-all (suc n) [] h = refl
drop-all (suc n) (x ∷ xs) h = drop-all n xs (omega arith)

pub not_over : (q : SignalingQueue) → is_finished q ≡ false → empty_and_no_more_add q ≡ false
unfolding empty_and_no_more_add
not_over q f = ground (arith, f)

pub empty : (message : Text) → is_empty message ≡ true → message ≡ []
empty [] h = refl
empty (x ∷ xs) h = cc

pub not_empty : (message : Text) → 0 < length message → is_empty message ≡ false
not_empty [] h = absurd (omega arith)
not_empty (x ∷ xs) h = refl

module _ (accept : Text → ℕ) (fits : (bytes : Text) → accept bytes ≤ length bytes) where
  socket : Text → ℤ
  socket bytes = pos (accept bytes)

  -- What the socket takes of the rest, and the rest behind it.
  split_rest :
      (k n : ℕ) (message after : Text)
      → take n (drop k message) ++ (drop (k + n) message ++ after) ≡ drop k message ++ after
  split_rest k n message after =
      ap (λ x. take n (drop k message) ++ (x ++ after)) (drop-add k n message)
      ∙ sym (append_assoc (take n (drop k message)) (drop n (drop k message)) after)
      ∙ ap (λ x. x ++ after) (take-append-drop n (drop k message))

  pub count_fits : (k n len : ℕ) → k + n ≤ len → len < 2 ^ 32 → count_sent k (pos n) ≡ k + n
  unfolding count_sent
  count_fits k n len h l = ground arith

  send_rest-Conserves :
      (c : Connector) (q : SignalingQueue)
      → Ready c
      → IsValid q
      → Conserves (pending c q) (send_rest (λ bytes. pos (accept bytes)) c q)
  unfolding send_rest clear
  send_rest-Conserves c q r v =
      rw (count_fits k n (length c.message) bound r.1, send_rest)
        (elim (Bool-cases (k + n == length c.message)) [
          | inl all ↦ rw all (whole all, (omega arith, omega arith), v, refl)
          | inr part ↦
              rw part (split_rest k n c.message (joined (view q).messages), (bound, r.1), v, refl)
        ])
    where
      k : ℕ
      k = c.bytes_count

      n : ℕ
      n = accept (drop c.bytes_count c.message)

      bound : k + n ≤ length c.message
      bound = let f = fits (drop k c.message) in omega (arith, length-drop k c.message, r.0)

      whole :
          (k + n == length c.message) ≡ true
          → take n (drop k c.message) ++ joined (view q).messages
            ≡ drop k c.message ++ joined (view q).messages
      whole all =
          sym (
            ap (λ x. take n (drop k c.message) ++ (x ++ joined (view q).messages))
              (drop-all (k + n) c.message (ground arith)))
          ∙ split_rest k n c.message (joined (view q).messages)

  -- A message that `Remove` has just given, or none.
  send_loaded-Conserves :
      (c : Connector) (q : SignalingQueue) (ms : List (ℕ × ℕ))
      → c.bytes_count ≡ 0
      → IsValid q
      → is_finished q ≡ false
      → q.message_positions ≡ ms
      → Conserves (joined (contents q.queue q.queue_size ms)) (
          send_loaded
            (λ bytes. pos (accept bytes))
            (load c (remove_from q ms false).1)
            (remove_from q ms false).0)
  unfolding send_loaded load remove_from empty_and_no_more_add
  send_loaded-Conserves c q [] k v f e =
      rw (not_over q f, send_loaded)
        (
          ap (λ x. x ++ joined (view q).messages) (drop-nil c.bytes_count)
              ∙ ap (λ ms. joined (contents q.queue q.queue_size ms)) e,
          (omega (arith, k), omega arith),
          v,
          refl,
        )
  send_loaded-Conserves c q ((p, size) ∷ rest) k v f e =
      rw (filled, send_loaded)
        (subst
          (λ j.
            Conserves (drop j message ++ joined (contents q.queue q.queue_size rest))
              (send_rest (λ bytes. pos (accept bytes)) loaded (dequeue q size rest)))
          k
          (send_rest-Conserves loaded (dequeue q size rest)
            (omega (arith, k), omega (arith, sized, laid.2, v.limit))
            (unfold remove in
              subst (λ ms. IsValid (remove_from q ms false).0) e (remove-IsValid q false v))))
    where
      message : Text
      message = read_ring q.queue q.queue_size p size

      loaded : Connector
      loaded = record c { message = message; message_size = size % 2 ^ 32 }

      laid : Chain q.queue_size ((p, size) ∷ rest) q.write_pointer
      laid = subst (λ ms. Chain q.queue_size ms q.write_pointer) e v.laid

      sized : length message ≡ size
      sized = length-read_ring q.queue q.queue_size p size v.storage laid.0 laid.2

      filled : is_empty message ≡ false
      filled = not_empty message (omega (arith, sized, laid.1))

  -- `Send`, where the socket takes some first part of what it is given and the producers have not ended,
  -- returns 1; what the socket has taken, and what the connector and the queue hold then, is together what
  -- they held before.
  pub send-Conserves :
      (c : Connector) (q : SignalingQueue)
      → Ready c
      → IsValid q
      → is_finished q ≡ false
      → Conserves (pending c q) (send (λ bytes. pos (accept bytes)) c q)
  unfolding send remove
  send-Conserves c q r v f = elim (Bool-cases (is_empty c.message)) [
    | inl none_left ↦
        rw (none_left, send)
          (subst
            (λ x. Conserves x (
              send_loaded (λ bytes. pos (accept bytes))
                (load c (remove_from q q.message_positions false).1)
                (remove_from q q.message_positions false).0))
            (sym (
              ap (λ m. drop c.bytes_count m ++ joined (view q).messages) (empty c.message none_left)
              ∙ ap (λ x. x ++ joined (view q).messages) (drop-nil c.bytes_count)))
            (send_loaded-Conserves c q q.message_positions
              (omega (arith, r.0, ap length (empty c.message none_left))) v f refl))
    | inr left ↦ rw (left, send) (send_rest-Conserves c q r v)
  ]

counted_back :
    (k count len : ℕ) → k ≡ suc count → (k ≤ len) × (len < 2 ^ 32) → count_sent k (negsuc 0) ≡ count
unfolding count_sent
counted_back k count len e r = omega (arith, e, r.0, r.1)

not_all : (count len : ℕ) → count < len → (count == len) ≡ false
not_all count len h = ground arith

-- An error of `send()` is not seen: `Send` returns 1, and the last byte that the socket had taken of the
-- message is sent once more by the next call.
pub send_error_unseen :
    (answer : Text → ℤ) (c : Connector) (q : SignalingQueue) (count : ℕ)
    → Ready c
    → is_empty c.message ≡ false
    → c.bytes_count ≡ suc count
    → answer (drop c.bytes_count c.message) ≡ negsuc 0
    → send answer c q ≡ sends (record c { bytes_count = count }) q (pos 1) []
unfolding send send_rest
send_error_unseen answer c q count r e k n =
    rw
      (
        e,
        n,
        counted_back c.bytes_count count (length c.message) k r,
        not_all count (length c.message) (omega (arith, k, r.0)),
        send,
        send_rest,
      )
      refl
