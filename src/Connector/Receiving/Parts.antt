-- ===== src/Connector/Receiving/Parts.antt =====
-- Calls of `Receive` of src/server/connector.cc, one after the other, and the states between them.
use fast_dcs.Common.{
  ℕ, zero, suc, ◌+◌, ◌%◌, ◌^◌, ◌≡◌, ◌<◌, ◌≤◌, refl, ap, ◌∙◌, true, false, List, [], ◌∷◌, ◌++◌,
  arith, ◌==◌, ◌&&◌, leb, length, take, drop,
}
use fast_dcs.Common.Int.{pos, ltb_ℤ}
use fast_dcs.Common.Texts.{Text}
use fast_dcs.Common.Memory.{blit}
use fast_dcs.Strings.Codec.{encode_bytes, value_of_bytes}
use fast_dcs.SignalingQueue.{SignalingQueue}
use fast_dcs.Connector.{Connector, clear}
use fast_dcs.Connector.Receiving.{
  Received, receives, sleeps, endless, receive_loop, receive, buf_size,
}

-- Calls of `Receive`, each with what the socket has for it, as long as they return 1.
pub receive_parts : Connector → SignalingQueue → List Text → Received
receive_parts c q [] = receives c q (pos 1)
receive_parts c q (part ∷ parts) = elim (receive c q part) [
  | sleeps ↦ sleeps
  | endless ↦ endless
  | receives c' q' result ↦ elim (ltb_ℤ (pos 0) result) [
    | true ↦ receive_parts c' q' parts
    | false ↦ receives c' q' result
  ]
]

abbrev pub concat : List Text → Text
concat [] = []
concat (part ∷ parts) = part ++ concat parts

-- Each part is one that `recv` takes at once.
abbrev pub AllFit : List Text → Type 0
AllFit [] = Unit
AllFit (part ∷ parts) = (length part ≤ buf_size) × AllFit parts

take-fits : (k : ℕ) (x : Text) → length x ≤ k → take k x ≡ x
take-fits zero [] h = refl
take-fits zero (b ∷ x) h = absurd (omega arith)
take-fits (suc k) [] h = refl
take-fits (suc k) (b ∷ x) h = ap (λ y. b ∷ y) (take-fits k x (omega arith))

pub take-append_self : (x y : Text) → take (length x) (x ++ y) ≡ x
take-append_self [] y = refl
take-append_self (b ∷ x) y = ap (λ z. b ∷ z) (take-append_self x y)

pub take-append_short : (k : ℕ) (a b : Text) → k ≤ length a → take k (a ++ b) ≡ take k a
take-append_short zero a b h = refl
take-append_short (suc k) [] b h = absurd (omega arith)
take-append_short (suc k) (x ∷ a) b h = ap (λ z. x ∷ z) (take-append_short k a b (omega arith))

pub drop-append_short : (k : ℕ) (a b : Text) → k ≤ length a → drop k (a ++ b) ≡ drop k a ++ b
drop-append_short zero a b h = refl
drop-append_short (suc k) [] b h = absurd (omega arith)
drop-append_short (suc k) (x ∷ a) b h = drop-append_short k a b (omega arith)

pub nothing_left : (x : Text) → length x ≡ 0 → x ≡ []
nothing_left [] h = refl
nothing_left (b ∷ x) h = absurd (omega arith)

pub receive_nothing :
    (fuel : ℕ) (c : Connector) (q : SignalingQueue)
    → receive_loop fuel c q [] ≡ receives c q (pos 1)
unfolding receive_loop
receive_nothing zero c q = refl
receive_nothing (suc fuel) c q = refl

pub receive_fits :
    (c : Connector) (q : SignalingQueue) (x : Text)
    → (leb 4 c.bytes_count && c.message_size == 0) ≡ false
    → length x ≤ buf_size
    → receive c q x ≡ receive_loop (length x) c q x
unfolding receive
receive_fits c q x h fit =
    rw (h, receive) (ap (λ y. receive_loop (length y) c q y) (take-fits buf_size x fit))

pub parts_step :
    (c c' : Connector) (q q' : SignalingQueue) (x : Text) (parts : List Text)
    → receive c q x ≡ receives c' q' (pos 1)
    → receive_parts c q (x ∷ parts) ≡ receive_parts c' q' parts
unfolding receive_parts
parts_step c c' q q' x parts e =
    ap
      (λ r. elim r as (λ _. Received) [
        | sleeps ↦ sleeps
        | endless ↦ endless
        | receives c' q' result ↦ elim (ltb_ℤ (pos 0) result) as (λ _. Received) [
          | true ↦ receive_parts c' q' parts
          | false ↦ receives c' q' result
        ]
      ])
      e

-- Where no bytes come, the connector goes on waiting.
pub parts_empty :
    (q : SignalingQueue) (parts : List Text)
    → AllFit parts
    → length (concat parts) ≡ 0
    → receive_parts clear q parts ≡ receives clear q (pos 1)
unfolding receive_parts clear
parts_empty q [] fit e = refl
parts_empty q ([] ∷ parts) fit e =
    parts_step clear clear q q [] parts
      (receive_fits clear q [] refl fit.0 ∙ receive_nothing 0 clear q)
    ∙ parts_empty q parts fit.1 e
parts_empty q ((b ∷ x) ∷ parts) fit e = absurd (omega arith)

-- The state behind the first `i` bytes of the size, and behind those bytes of the message.
abbrev pub sizing : ℕ → ℕ → Connector
sizing n i = record { message = []; message_size = n % 256 ^ i; bytes_count = i }

abbrev pub body : ℕ → Text → Connector
body n sofar = record { message = sofar; message_size = n; bytes_count = 4 + length sofar }

-- Bytes of the size at their place.
pub size_part :
    (n i j : ℕ)
    → i < 4
    → i + j ≤ 4
    → value_of_bytes (blit (encode_bytes 4 (n % 256 ^ i)) i (take j (drop i (encode_bytes 4 n))))
      ≡ n % 256 ^ (i + j)
unfolding value_of_bytes blit encode_bytes
size_part n zero zero h k = omega arith
size_part n zero (suc zero) h k = omega arith
size_part n zero (suc (suc zero)) h k = omega arith
size_part n zero (suc (suc (suc zero))) h k = omega arith
size_part n zero (suc (suc (suc (suc zero)))) h k = omega arith
size_part n zero (suc (suc (suc (suc (suc j))))) h k = absurd (omega arith)
size_part n (suc zero) zero h k = omega arith
size_part n (suc zero) (suc zero) h k = omega arith
size_part n (suc zero) (suc (suc zero)) h k = omega arith
size_part n (suc zero) (suc (suc (suc zero))) h k = omega arith
size_part n (suc zero) (suc (suc (suc (suc j)))) h k = absurd (omega arith)
size_part n (suc (suc zero)) zero h k = omega arith
size_part n (suc (suc zero)) (suc zero) h k = omega arith
size_part n (suc (suc zero)) (suc (suc zero)) h k = omega arith
size_part n (suc (suc zero)) (suc (suc (suc j))) h k = absurd (omega arith)
size_part n (suc (suc (suc zero))) zero h k = omega arith
size_part n (suc (suc (suc zero))) (suc zero) h k = omega arith
size_part n (suc (suc (suc zero))) (suc (suc j)) h k = absurd (omega arith)
size_part n (suc (suc (suc (suc i)))) j h k = absurd (omega arith)
