-- ===== src/Connector/Receiving/Message.antt =====
-- A message behind its size that comes in parts, each in a call of `Receive` of src/server/connector.cc.
use fast_dcs.Common.{
  ℕ, zero, suc, ◌+◌, ◌-◌, ◌%◌, ◌^◌, ◌≡◌, ◌<◌, ◌≤◌, refl, sym, ap, ◌∙◌, true, false, [], ◌++◌,
  append_assoc, arith, ltb, length, length-append, length-drop, length-take, take, drop,
  take-append-drop,
}
use fast_dcs.Common.Int.{pos}
use fast_dcs.Common.Texts.{Text}
use fast_dcs.Strings.Codec.{encode_bytes, value_of_bytes}
use fast_dcs.Common.Memory.{blit}
use fast_dcs.Strings.Codec.Bytes.{length-encode_bytes}
use fast_dcs.SignalingQueue
use fast_dcs.SignalingQueue.{SignalingQueue, returns}
use fast_dcs.Connector.{clear}
use fast_dcs.Connector.Sending.{drop-all, drop-add}
use fast_dcs.Connector.Receiving.{receives, part_size, store, is_complete, receive_loop}
use fast_dcs.Connector.Receiving.Rounds.{not_empty, take-all, loop_more, loop_add}
use fast_dcs.Connector.Receiving.Parts.{
  take-append_self, take-append_short, drop-append_short, receive_nothing, size_part, sizing, body,
}

store-body :
    (n : ℕ) (sofar x : Text)
    → length sofar + length x < 2 ^ 32 - 4
    → store (body n sofar) x ≡ body n (sofar ++ x)
unfolding store
store-body n sofar x h =
    let behind : ltb (4 + length sofar) 4 ≡ false = ground arith in
    rw (behind, store)
      (ap (λ c. record { message = sofar ++ x; message_size = n; bytes_count = c })
        (omega (arith, length-append sofar x)))

-- A part of the message that does not complete it, and one that does.
pub body_more :
    (fuel n : ℕ) (sofar x : Text) (q : SignalingQueue)
    → 0 < fuel
    → 0 < length x
    → n < 2 ^ 32 - 4
    → length sofar + length x < n
    → receive_loop fuel (body n sofar) q x ≡ receives (body n (sofar ++ x)) q (pos 1)
unfolding part_size store is_complete
body_more zero n sofar x q f p h k = absurd (omega arith)
body_more (suc fuel) n sofar x q f p h k =
    loop_more fuel (length x) (body n sofar) (body n (sofar ++ x)) q x [] (ground arith)
      (not_empty x p) (ap (store (body n sofar)) (take-all x) ∙ store-body n sofar x (omega arith))
      (drop-all (length x) x refl) (ground (arith, length-append sofar x))
    ∙ receive_nothing fuel (body n (sofar ++ x)) q

pub body_all :
    (fuel n k : ℕ) (sofar x text : Text) (q q' : SignalingQueue)
    → 0 < fuel
    → 0 < length x
    → n < 2 ^ 32 - 4
    → length sofar + length x ≡ n
    → SignalingQueue.add q (sofar ++ x) true ≡ (q', returns (pos k) text)
    → receive_loop fuel (body n sofar) q x ≡ receives clear q' (pos 1)
unfolding part_size store is_complete
body_all zero n k sofar x text q q' f p h e a = absurd (omega arith)
body_all (suc fuel) n k sofar x text q q' f p h e a =
    loop_add fuel (length x) k (body n sofar) (body n (sofar ++ x)) q q' x [] text (ground arith)
      (not_empty x p) (ap (store (body n sofar)) (take-all x) ∙ store-body n sofar x (omega arith))
      (drop-all (length x) x refl) (ground (arith, length-append sofar x)) (ground arith) a
    ∙ receive_nothing fuel clear q'

-- Bytes of the size, `x`, the last ones or not.
store_part :
    (n i : ℕ) (x more message : Text)
    → i < 4
    → i + length x ≤ 4
    → x ++ more ≡ drop i (encode_bytes 4 n) ++ message
    → store (sizing n i) x ≡ sizing n (i + length x)
unfolding store
store_part n i x more message h k e =
    let len : length (drop i (encode_bytes 4 n)) ≡ 4 - i =
      length-drop i (encode_bytes 4 n) ∙ ap (λ l. l - i) (length-encode_bytes 4 n) in
    let part : take (length x) (drop i (encode_bytes 4 n)) ≡ x = sym (
      sym (take-append_self x more)
      ∙ ap (take (length x)) e
      ∙ take-append_short (length x) (drop i (encode_bytes 4 n)) message (omega arith)) in
    let before : ltb i 4 ≡ true = ground arith in
    rw (before, store)
      (ap (λ v. record { message = []; message_size = v; bytes_count = i + length x })
        (ap (λ y. value_of_bytes (blit (encode_bytes 4 (n % 256 ^ i)) i y)) (sym part)
          ∙ size_part n i (length x) h k))

size_unfinished : (n i : ℕ) → 0 < n → n < 2 ^ 32 - 4 → i ≤ 4 → is_complete (sizing n i) ≡ false
unfolding is_complete
size_unfinished n zero z b h = refl
size_unfinished n (suc zero) z b h = refl
size_unfinished n (suc (suc zero)) z b h = refl
size_unfinished n (suc (suc (suc zero))) z b h = refl
size_unfinished n (suc (suc (suc (suc zero)))) z b h = ground arith
size_unfinished n (suc (suc (suc (suc (suc i))))) z b h = absurd (omega arith)

pub size_more :
    (fuel n i : ℕ) (x more message : Text) (q : SignalingQueue)
    → 0 < fuel
    → 0 < length x
    → 0 < n
    → n < 2 ^ 32 - 4
    → i < 4
    → i + length x ≤ 4
    → x ++ more ≡ drop i (encode_bytes 4 n) ++ message
    → receive_loop fuel (sizing n i) q x ≡ receives (sizing n (i + length x)) q (pos 1)
unfolding part_size is_complete
size_more zero n i x more message q f p z b h k e = absurd (omega arith)
size_more (suc fuel) n i x more message q f p z b h k e =
    loop_more fuel (length x) (sizing n i) (sizing n (i + length x)) q x [] (ground arith)
      (not_empty x p) (ap (store (sizing n i)) (take-all x) ∙ store_part n i x more message h k e)
      (drop-all (length x) x refl) (size_unfinished n (i + length x) z b k)
    ∙ receive_nothing fuel (sizing n (i + length x)) q

pub sizing_all : (n : ℕ) → n < 2 ^ 32 - 4 → sizing n 4 ≡ body n []
sizing_all n b = ap (λ v. record { message = []; message_size = v; bytes_count = 4 }) (omega arith)

-- More bytes than the size has left.
pub size_over :
    (fuel n i : ℕ) (x more message : Text) (q : SignalingQueue)
    → 0 < n
    → n < 2 ^ 32 - 4
    → i < 4
    → 4 < i + length x
    → x ++ more ≡ drop i (encode_bytes 4 n) ++ message
    → receive_loop (suc fuel) (sizing n i) q x ≡ receive_loop fuel (body n []) q (drop (4 - i) x)
unfolding part_size
size_over fuel n i x more message q z b h k e =
    let len : length (drop i (encode_bytes 4 n)) ≡ 4 - i =
      length-drop i (encode_bytes 4 n) ∙ ap (λ l. l - i) (length-encode_bytes 4 n) in
    let four : length (take (4 - i) x) ≡ 4 - i = omega (arith, length-take (4 - i) x) in
    loop_more fuel (4 - i) (sizing n i) (body n []) q x (drop (4 - i) x) (ground arith)
      (not_empty x (omega arith))
      (store_part n i (take (4 - i) x) (drop (4 - i) x ++ more) message h (omega arith) (
          sym (append_assoc (take (4 - i) x) (drop (4 - i) x) more)
          ∙ ap (λ z. z ++ more) (take-append-drop (4 - i) x)
          ∙ e)
        ∙ ap (sizing n) (omega arith)
        ∙ sizing_all n b)
      refl (unfold is_complete in ground arith)

-- What is left behind bytes of the size, and behind its last one.
pub size_left :
    (n i : ℕ) (x more message : Text)
    → i + length x ≤ 4
    → x ++ more ≡ drop i (encode_bytes 4 n) ++ message
    → more ≡ drop (i + length x) (encode_bytes 4 n) ++ message
size_left n i x more message k e =
    let len : length (drop i (encode_bytes 4 n)) ≡ 4 - i =
      length-drop i (encode_bytes 4 n) ∙ ap (λ l. l - i) (length-encode_bytes 4 n) in
    sym (ap (λ z. z ++ more) (drop-all (length x) x refl))
    ∙ sym (drop-append_short (length x) x more (omega arith))
    ∙ ap (drop (length x)) e
    ∙ drop-append_short (length x) (drop i (encode_bytes 4 n)) message (omega arith)
    ∙ ap (λ z. z ++ message) (sym (drop-add i (length x) (encode_bytes 4 n)))

pub message_left :
    (n i : ℕ) (x more message : Text)
    → i < 4
    → 4 ≤ i + length x
    → x ++ more ≡ drop i (encode_bytes 4 n) ++ message
    → drop (4 - i) x ++ more ≡ message
message_left n i x more message h k e =
    let len : length (drop i (encode_bytes 4 n)) ≡ 4 - i =
      length-drop i (encode_bytes 4 n) ∙ ap (λ l. l - i) (length-encode_bytes 4 n) in
    sym (drop-append_short (4 - i) x more (omega arith))
    ∙ ap (drop (4 - i)) e
    ∙ drop-append_short (4 - i) (drop i (encode_bytes 4 n)) message (omega arith)
    ∙ ap (λ z. z ++ message) (drop-all (4 - i) (drop i (encode_bytes 4 n)) (sym len))
