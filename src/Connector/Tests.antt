-- ===== src/Connector/Tests.antt =====
-- `Send` on a queue with one message, and the theorems there.
use fast_dcs.Common.{◌≡◌, refl, List, [], ◌∷◌, arith, length, ◌≤◌, ℕ}
use fast_dcs.Common.Int.{pos}
use fast_dcs.Common.Texts.{Text, codes}
use fast_dcs.Tracker.Samples.{hello_buffer, empty_buffer}
use fast_dcs.SignalingQueue.{read_ring}
use fast_dcs.Connector.{Connector, sends, send, clear}
use fast_dcs.Common.Memory.{blit}
use fast_dcs.SignalingQueue
use fast_dcs.Connector.Receiving.{receives, receive, part_size, store, is_complete}
use fast_dcs.Connector.Receiving.Parts.{receive_parts}
use fast_dcs.Connector.Receiving.Frame.{receive_frame}
use fast_dcs.Strings.Codec.{encode_bytes}

-- A socket that takes one byte less than it is given.
abbrev all_but_one : Text → ℕ
all_but_one [] = 0
all_but_one (b ∷ bytes) = length bytes

all_but_one-fits : (bytes : Text) → all_but_one bytes ≤ length bytes
all_but_one-fits [] = omega arith
all_but_one-fits (b ∷ bytes) = omega arith

abbrev fresh : Connector
fresh = record { message = []; message_size = 0; bytes_count = 0 }

abbrev half : Connector
half = record { message = codes "hello"; message_size = 5; bytes_count = 4 }

send_hello :
    send (λ bytes. pos (all_but_one bytes)) half empty_buffer ≡ sends half empty_buffer (pos 1) []
unfolding send
send_hello = refl

-- A message in two parts, of which the first ends in its size.
first_part :
    receive fresh empty_buffer (5 ∷ 0 ∷ [])
    ≡ receives (record { message = []; message_size = 5; bytes_count = 2 }) empty_buffer (pos 1)
unfolding receive is_complete store part_size
first_part = refl

second_part :
    receive
      (record { message = []; message_size = 5; bytes_count = 2 })
      empty_buffer
      (0 ∷ 0 ∷ codes "hello")
    ≡ receives fresh hello_buffer (pos 1)
unfolding receive SignalingQueue.add SignalingQueue.write_ring blit SignalingQueue.add_locked
    SignalingQueue.enqueue SignalingQueue.advance is_complete store part_size clear
second_part = refl

-- The message in three parts, of which the first ends in the size, and a call between them that gets nothing.
abbrev hello_parts : List Text
hello_parts = (5 ∷ 0 ∷ []) ∷ (0 ∷ 0 ∷ codes "he") ∷ [] ∷ codes "llo" ∷ []

receive_frame_example :
    receive_parts clear empty_buffer hello_parts ≡ receives clear hello_buffer (pos 1)
unfolding SignalingQueue.add SignalingQueue.write_ring blit SignalingQueue.add_locked
    SignalingQueue.enqueue SignalingQueue.advance encode_bytes
receive_frame_example =
    receive_frame 5 empty_buffer hello_buffer (codes "hello") [] hello_parts (omega arith)
      (omega arith) refl (omega arith, (omega arith, (omega arith, (omega arith, tt)))) refl
