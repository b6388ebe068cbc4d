-- ===== src/Connector.antt =====
-- src/server/connector.cc: what takes messages from a signaling queue to a socket. `answer` is the
-- socket: what `send()` returns for the bytes that are left, the same all through one call.
pub mod Sending
pub mod Receiving
mod Tests
use fast_dcs.Common.{
  ℕ, zero, suc, ◌+◌, ◌-◌, ◌%◌, ◌^◌, Bool, true, false, Option, none, some, List, [], ◌∷◌, ◌++◌, ltb,
  ◌==◌, if◌then◌else◌, length, take, drop, replicate,
}
use fast_dcs.Common.Int.{ℤ, pos, negsuc}
use fast_dcs.Common.Texts.{Text, is_empty}
use fast_dcs.SignalingQueue
use fast_dcs.SignalingQueue.{SignalingQueue, Outcome, returns, waits, empty_and_no_more_add}

pub record Connector : Type 0 where
  pub message : Text
  pub message_size : ℕ
  pub bytes_count : ℕ

unfoldable pub clear : Connector
clear = record { message = []; message_size = 0; bytes_count = 0 }

-- An `int` in a `uint32`: -1 is the greatest one.
abbrev pub to_uint32 : ℤ → ℕ
to_uint32 (pos n) = n % 2 ^ 32
to_uint32 (negsuc n) = 2 ^ 32 - 1 - n % 2 ^ 32

-- `bytes_count_ += this_send`, where an error of `send()` is 2 ^ 32 - 1 bytes.
unfoldable pub count_sent : ℕ → ℤ → ℕ
count_sent bytes_count this_send = (bytes_count + to_uint32 this_send) % 2 ^ 32

-- What a call of `Send` returns, and the bytes that the socket has taken; or `SendFinal` goes round for
-- ever, since the socket takes nothing.
pub data Sent : Type 0 where
  sends : Connector → SignalingQueue → ℤ → Text → Sent
  loops : Sent

-- The bytes that `send()` has taken.
abbrev pub taken : ℤ → Text → Text
taken (pos n) bytes = take n bytes
taken (negsuc n) bytes = []

abbrev pub final_size : Text
final_size = replicate 4 0

-- The loop of `SendFinal`: from four states, without an end after four rounds, there is none.
unfoldable pub send_final_loop : (Text → ℤ) → ℕ → ℕ → Text → Option (ℕ × Text)
unfolding count_sent
send_final_loop answer zero bytes_count sent =
    if ltb bytes_count 4 then none else some (bytes_count, sent)
send_final_loop answer (suc rounds) bytes_count sent =
    let rest = drop bytes_count final_size in
    let more =
      send_final_loop answer rounds (count_sent bytes_count (answer rest))
        (sent ++ taken (answer rest) rest) in
    if ltb bytes_count 4 then more else some (bytes_count, sent)

unfoldable pub send_final : (Text → ℤ) → Connector → SignalingQueue → Sent
unfolding send_final_loop
send_final answer c q = elim (send_final_loop answer 4 0 []) [
  | none ↦ loops
  | some r ↦ sends (record c { message_size = 0; bytes_count = r.0 }) q (pos 0) r.1
]

-- The rest of the message to the socket, and the test whether it is complete. The test for an error
-- compares a `uint32` with 0, so it never holds.
unfoldable pub send_rest : (Text → ℤ) → Connector → SignalingQueue → Sent
unfolding count_sent clear
send_rest answer c q =
    let rest = drop c.bytes_count c.message in
    let count = count_sent c.bytes_count (answer rest) in
    sends (if count == length c.message then clear else record c { bytes_count = count }) q (pos 1)
      (taken (answer rest) rest)

-- `message_size_ = queue_->Remove(&message_, false)`, which does not wait.
unfoldable pub load : Connector → Outcome → Connector
load c (returns n text) = record c { message = text; message_size = to_uint32 n }
load c waits = c

-- A message that has just been read.
unfoldable pub send_loaded : (Text → ℤ) → Connector → SignalingQueue → Sent
unfolding send_final send_rest empty_and_no_more_add
send_loaded answer c q =
    if is_empty c.message
    then (if empty_and_no_more_add q then send_final answer c q else sends c q (pos 1) [])
    else send_rest answer c q

-- `Send`.
unfoldable pub send : (Text → ℤ) → Connector → SignalingQueue → Sent
unfolding send_rest send_loaded load SignalingQueue.remove
send answer c q =
    if is_empty c.message
    then (let (q', outcome) = SignalingQueue.remove q false in
        send_loaded answer (load c outcome) q')
    else send_rest answer c q
