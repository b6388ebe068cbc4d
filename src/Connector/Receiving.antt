-- ===== src/Connector/Receiving.antt =====
-- `Receive` of src/server/connector.cc: messages from the bytes of a socket. `message_size_` is filled
-- byte by byte, the lowest first. An error of `recv`, which is as little seen as one of `send`, reads
-- far behind the buffer, so it has no model here.
pub mod Rounds
pub mod Parts
pub mod Message
pub mod Frame
use fast_dcs.Common.{
  ℕ, zero, suc, ◌+◌, ◌-◌, ◌%◌, ◌^◌, Bool, true, false, ◌&&◌, ◌++◌, ltb, leb, ◌==◌, if◌then◌else◌,
  length, take, drop,
}
use fast_dcs.Common.Int.{ℤ, pos, negsuc, ltb_ℤ}
use fast_dcs.Common.Texts.{Text, is_empty}
use fast_dcs.Common.Memory.{blit}
use fast_dcs.Strings.Codec.{encode_bytes, value_of_bytes}
use fast_dcs.SignalingQueue
use fast_dcs.SignalingQueue.{SignalingQueue, Outcome, returns, waits}
use fast_dcs.Connector.{Connector, clear}

-- `Receive` returns, sleeps in `Add`, or goes round its loop without taking a byte.
pub data Received : Type 0 where
  receives : Connector → SignalingQueue → ℤ → Received
  sleeps endless : Received

-- `len`, for `left` bytes that have not been looked at.
unfoldable pub part_size : Connector → ℕ → ℕ
part_size c left =
    let wanted =
      if ltb c.bytes_count 4
      then 4 - c.bytes_count
      else (2 ^ 32 + 4 + c.message_size - c.bytes_count) % 2 ^ 32 in
    if ltb wanted left then wanted else left

-- The bytes go into the size, or behind the message.
unfoldable pub store : Connector → Text → Connector
unfolding blit encode_bytes value_of_bytes
store c bytes =
    if ltb c.bytes_count 4
    then record c {
      message_size = value_of_bytes (blit (encode_bytes 4 c.message_size) c.bytes_count bytes);
      bytes_count = c.bytes_count + length bytes;
    }
    else record c {
      message = c.message ++ bytes;
      bytes_count = (c.bytes_count + length bytes) % 2 ^ 32;
    }

unfoldable pub is_complete : Connector → Bool
is_complete c = leb 4 c.bytes_count && length c.message == c.message_size

-- The loop over the bytes that `recv` has given; each round takes one at least, or there is no end.
unfoldable pub receive_loop : ℕ → Connector → SignalingQueue → Text → Received
receive_loop zero c q bytes = if is_empty bytes then receives c q (pos 1) else endless
receive_loop (suc fuel) c q bytes =
    let len = part_size c (length bytes) in
    let c' = store c (take len bytes) in
    elim (is_empty bytes) [
      | true ↦ receives c q (pos 1)
      | false ↦ elim (is_complete c') [
        | false ↦ receive_loop fuel c' q (drop len bytes)
        | true ↦ elim (c'.message_size == 0) [
          | true ↦ receives c' q (pos 0)
          | false ↦
              let (q', outcome) = SignalingQueue.add q c'.message true in
              elim outcome [
                | waits ↦ sleeps
                | returns n text ↦ elim (ltb_ℤ n (pos 0)) [
                  | true ↦ receives c' q' (negsuc 0)
                  | false ↦ receive_loop fuel clear q' (drop len bytes)
                ]
              ]
        ]
      ]
    ]

-- The size of `message_buf_`, and the most that `recv` takes.
abbrev pub buf_size : ℕ
buf_size = 4096

-- `Receive`, where `bytes` can be read from the socket.
unfoldable pub receive : Connector → SignalingQueue → Text → Received
unfolding receive_loop
receive c q bytes =
    if leb 4 c.bytes_count && c.message_size == 0
    then receives c q (pos 0)
    else receive_loop (length (take buf_size bytes)) c q (take buf_size bytes)
