-- ===== src/Connector/Receiving/Frame.antt =====
-- A whole message behind its size, through calls of `Receive` of src/server/connector.cc.
use fast_dcs.Common.{
  ℕ, zero, suc, ◌+◌, ◌-◌, ◌^◌, ◌≡◌, ◌<◌, ◌≤◌, refl, sym, ap, ◌∙◌, ◌⊎◌, inl, inr, true, List, [],
  ◌∷◌, ◌++◌, append_assoc, append-nil, arith, length, length-append, length-drop, drop,
}
use fast_dcs.Common.Int.{pos}
use fast_dcs.Common.Texts.{Text}
use fast_dcs.Strings.Codec.{encode_bytes}
use fast_dcs.SignalingQueue
use fast_dcs.SignalingQueue.{SignalingQueue, returns}
use fast_dcs.Connector.{Connector, clear}
use fast_dcs.Connector.Sending.{drop-all}
use fast_dcs.Strings.Codec.Bytes.{length-encode_bytes}
use fast_dcs.Connector.Receiving.{receives, receive_loop}
use fast_dcs.Connector.Receiving.Parts.{
  receive_parts, concat, AllFit, nothing_left, parts_empty, receive_nothing, receive_fits,
  parts_step, sizing, body,
}
use fast_dcs.Connector.Receiving.Message.{
  body_more, body_all, size_more, size_over, sizing_all, size_left, message_left,
}

zero_or_more : (m : ℕ) → (m ≡ 0) ⊎ (0 < m)
zero_or_more zero = inl refl
zero_or_more (suc m) = inr (omega arith)

module _ (k : ℕ) (message text : Text) (q q' : SignalingQueue) (p : 0 < length message)
    (b : length message < 2 ^ 32 - 4)
    (a : SignalingQueue.add q message true ≡ (q', returns (pos k) text)) where
  -- A part of the message, and the parts behind it.
  body_part :
      (fuel : ℕ) (sofar x : Text) (parts : List Text)
      → 0 < fuel
      → 0 < length x
      → AllFit parts
      → sofar ++ (x ++ concat parts) ≡ message
      → ((s : Text)
          → s ++ concat parts ≡ message
          → length s < length message
          → receive_parts (body (length message) s) q parts ≡ receives clear q' (pos 1))
      → (c : Connector) × (r : SignalingQueue) × (receive_loop fuel
            (body (length message) sofar)
            q
            x
          ≡ receives c r (pos 1))
        × (receive_parts c r parts ≡ receives clear q' (pos 1))
  body_part fuel sofar x parts f h fit e rest =
      let total : length sofar + (length x + length (concat parts)) ≡ length message = omega (
        arith,
        ap length e,
        length-append sofar (x ++ concat parts),
        length-append x (concat parts),
      ) in
      elim (zero_or_more (length (concat parts))) [
        | inl last ↦
            let whole : sofar ++ x ≡ message =
              ap (λ z. sofar ++ z)
                (sym (append-nil x) ∙ ap (λ z. x ++ z) (sym (nothing_left (concat parts) last)))
              ∙ e in
            (
              clear,
              q',
              body_all fuel (length message) k sofar x text q q' f h b (omega arith)
                  (ap (λ z. SignalingQueue.add q z true) whole ∙ a),
              parts_empty q' parts fit last,
            )
        | inr more ↦ (
          body (length message) (sofar ++ x),
          q,
          body_more fuel (length message) sofar x q f h b (omega arith),
          rest (sofar ++ x) (append_assoc sofar x (concat parts) ∙ e)
              (omega (arith, length-append sofar x)),
        )
      ]

  parts_body :
      (parts : List Text) (sofar : Text)
      → AllFit parts
      → sofar ++ concat parts ≡ message
      → length sofar < length message
      → receive_parts (body (length message) sofar) q parts ≡ receives clear q' (pos 1)
  parts_body [] sofar fit e h = absurd (omega (arith, ap length e, length-append sofar []))
  parts_body ([] ∷ parts) sofar fit e h =
      parts_step (body (length message) sofar) (body (length message) sofar) q q [] parts (
        receive_fits (body (length message) sofar) q [] (ground arith) fit.0
        ∙ receive_nothing 0 (body (length message) sofar) q)
      ∙ parts_body parts sofar fit.1 e h
  parts_body ((y ∷ x) ∷ parts) sofar fit e h =
      let (c, r, one, rest) =
        body_part (suc (length x)) sofar (y ∷ x) parts (omega arith) (omega arith) fit.1 e
          (λ s e' l. parts_body parts s fit.1 e' l) in
      parts_step (body (length message) sofar) c q r (y ∷ x) parts
        (receive_fits (body (length message) sofar) q (y ∷ x) (ground arith) fit.0 ∙ one)
      ∙ rest

  -- A part that ends within the size, or with it, and one that goes on behind it.
  size_within :
      (x : Text) (parts : List Text) (i : ℕ)
      → 0 < length x
      → i < 4
      → i + length x ≤ 4
      → AllFit (x ∷ parts)
      → x ++ concat parts ≡ drop i (encode_bytes 4 (length message)) ++ message
      → ((j : ℕ)
          → j < 4
          → concat parts ≡ drop j (encode_bytes 4 (length message)) ++ message
          → receive_parts (sizing (length message) j) q parts ≡ receives clear q' (pos 1))
      → receive_parts (sizing (length message) i) q (x ∷ parts) ≡ receives clear q' (pos 1)
  size_within x parts i o h within fit e rest =
      let n = length message in
      let one =
        receive_fits (sizing n i) q x (ground arith) fit.0
        ∙ size_more (length x) n i x (concat parts) message q o o p b h within e in
      let left = size_left n i x (concat parts) message within e in
      elim (zero_or_more (4 - (i + length x))) [
        | inl exact ↦
            let all : i + length x ≡ 4 = omega arith in
            parts_step (sizing n i) (body n []) q q x parts
              (one ∙ ap (λ c. receives c q (pos 1)) (ap (sizing n) all ∙ sizing_all n b))
            ∙ parts_body parts [] fit.1
                (left
                  ∙ ap (λ j. drop j (encode_bytes 4 n) ++ message) all
                  ∙ ap (λ z. z ++ message)
                      (drop-all 4 (encode_bytes 4 n) (sym (length-encode_bytes 4 n))))
                p
        | inr short ↦
            parts_step (sizing n i) (sizing n (i + length x)) q q x parts one
            ∙ rest (i + length x) (omega arith) left
      ]

  size_beyond :
      (y : ℕ) (x : Text) (parts : List Text) (i : ℕ)
      → i < 4
      → 4 < i + suc (length x)
      → AllFit ((y ∷ x) ∷ parts)
      → (y ∷ x) ++ concat parts ≡ drop i (encode_bytes 4 (length message)) ++ message
      → receive_parts (sizing (length message) i) q ((y ∷ x) ∷ parts) ≡ receives clear q' (pos 1)
  size_beyond y x parts i h over fit e =
      let n = length message in
      let (c, r, one, rest) =
        body_part (length x) [] (drop (4 - i) (y ∷ x)) parts (omega arith)
          (omega (arith, length-drop (4 - i) (y ∷ x))) fit.1
          (message_left n i (y ∷ x) (concat parts) message h (omega arith) e)
          (λ s e' l. parts_body parts s fit.1 e' l) in
      parts_step (sizing n i) c q r (y ∷ x) parts (
        receive_fits (sizing n i) q (y ∷ x) (ground arith) fit.0
        ∙ size_over (length x) n i (y ∷ x) (concat parts) message q p b h over e
        ∙ one)
      ∙ rest

  parts_size :
      (parts : List Text) (i : ℕ)
      → i < 4
      → AllFit parts
      → concat parts ≡ drop i (encode_bytes 4 (length message)) ++ message
      → receive_parts (sizing (length message) i) q parts ≡ receives clear q' (pos 1)
  parts_size [] i h fit e =
      absurd (
        omega
          (arith, ap length e, length-append (drop i (encode_bytes 4 (length message))) message))
  parts_size ([] ∷ parts) i h fit e =
      parts_step (sizing (length message) i) (sizing (length message) i) q q [] parts (
        receive_fits (sizing (length message) i) q [] (ground arith) fit.0
        ∙ receive_nothing 0 (sizing (length message) i) q)
      ∙ parts_size parts i h fit.1 e
  parts_size ((y ∷ x) ∷ parts) i h fit e = elim (zero_or_more (i + suc (length x) - 4)) [
    | inl within ↦
        size_within (y ∷ x) parts i (omega arith) h (omega arith) fit e
          (λ j k left. parts_size parts j k fit.1 left)
    | inr over ↦ size_beyond y x parts i h (omega arith) fit e
  ]

-- A message that is not empty and shorter than 2 ^ 32 - 4, behind its size in four bytes, is read as it was from a
-- connector that waits for a size, in whatever parts of at most 4096 bytes the socket gives it, also inside the
-- size: where the queue takes it with a result that is not negative, each call of `Receive` returns 1, and behind
-- the last one the connector waits for a size again and just the message has been put in the queue.
pub receive_frame :
    (k : ℕ) (q q' : SignalingQueue) (message text : Text) (parts : List Text)
    → 0 < length message
    → length message < 2 ^ 32 - 4
    → SignalingQueue.add q message true ≡ (q', returns (pos k) text)
    → AllFit parts
    → concat parts ≡ encode_bytes 4 (length message) ++ message
    → receive_parts clear q parts ≡ receives clear q' (pos 1)
unfolding clear
receive_frame k q q' message text parts p b a fit e =
    let begin : clear ≡ sizing (length message) 0 =
      ap (λ v. record { message = []; message_size = v; bytes_count = 0 }) (omega arith) in
    ap (λ c. receive_parts c q parts) begin
    ∙ parts_size k message text q q' p b a parts 0 (omega arith) fit e
