-- ===== src/Connector/Receiving/Rounds.antt =====
-- The rounds of the loop in `Receive` of src/server/connector.cc.
use fast_dcs.Common.{
  ℕ, suc, ◌≡◌, ◌<◌, refl, ap, ◌∙◌, true, false, [], ◌∷◌, arith, ◌==◌, length, take, drop,
}
use fast_dcs.Common.Int.{pos, ltb_ℤ}
use fast_dcs.Common.Texts.{Text, is_empty}
use fast_dcs.SignalingQueue
use fast_dcs.SignalingQueue.{SignalingQueue, returns}
use fast_dcs.Connector.{Connector, clear}
use fast_dcs.Connector.Receiving.{part_size, store, is_complete, receive_loop}

pub not_empty : (message : Text) → 0 < length message → is_empty message ≡ false
not_empty [] h = absurd (omega arith)
not_empty (b ∷ message) h = refl

pub not_negative : (k : ℕ) → ltb_ℤ (pos k) (pos 0) ≡ false
not_negative k = ground arith

pub take-all : (message : Text) → take (length message) message ≡ message
take-all [] = refl
take-all (b ∷ message) = ap (λ x. b ∷ x) (take-all message)

-- A round that does not complete a message, and one that does.
pub loop_more :
    (fuel len : ℕ) (c c' : Connector) (q : SignalingQueue) (bytes rest : Text)
    → part_size c (length bytes) ≡ len
    → is_empty bytes ≡ false
    → store c (take len bytes) ≡ c'
    → drop len bytes ≡ rest
    → is_complete c' ≡ false
    → receive_loop (suc fuel) c q bytes ≡ receive_loop fuel c' q rest
unfolding receive_loop
loop_more fuel len c c' q bytes rest p e s d n =
    let st = ap (λ l. store c (take l bytes)) p ∙ s in
    rw (e, ap is_complete st ∙ n, receive_loop)
      (ap (λ x. receive_loop fuel x q (drop (part_size c (length bytes)) bytes)) st
        ∙ ap (receive_loop fuel c' q) (ap (λ l. drop l bytes) p ∙ d))

pub loop_add :
    (fuel len k : ℕ) (c c' : Connector) (q q' : SignalingQueue) (bytes rest text : Text)
    → part_size c (length bytes) ≡ len
    → is_empty bytes ≡ false
    → store c (take len bytes) ≡ c'
    → drop len bytes ≡ rest
    → is_complete c' ≡ true
    → (c'.message_size == 0) ≡ false
    → SignalingQueue.add q c'.message true ≡ (q', returns (pos k) text)
    → receive_loop (suc fuel) c q bytes ≡ receive_loop fuel clear q' rest
unfolding receive_loop
loop_add fuel len k c c' q q' bytes rest text p e s d n z a =
    let st = ap (λ l. store c (take l bytes)) p ∙ s in
    let added = ap (λ x. SignalingQueue.add q x.message true) st ∙ a in
    rw
      (
        e,
        ap is_complete st ∙ n,
        ap (λ x. x.message_size == 0) st ∙ z,
        ap (λ x. x.1) added,
        not_negative k,
        receive_loop,
      )
      (ap (λ x. receive_loop fuel clear x.0 (drop (part_size c (length bytes)) bytes)) added
        ∙ ap (receive_loop fuel clear q') (ap (λ l. drop l bytes) p ∙ d))
