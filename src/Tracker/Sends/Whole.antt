-- ===== src/Tracker/Sends/Whole.antt =====
-- `Send` of src/server/connector.cc on a socket that takes all that it is given.
use fast_dcs.Common.{
  ℕ, suc, ◌%◌, ◌^◌, ◌≤◌, ◌<◌, ◌≡◌, refl, ap, subst, true, false, List, [], ◌∷◌, ◌==◌, arith, length,
  drop,
}
use fast_dcs.Common.Int.{ℤ, pos}
use fast_dcs.Common.Texts.{Text, is_empty}
use fast_dcs.Common.Maps.{fd_ord}
use fast_dcs.SignalingQueue.{SignalingQueue, remove, remove_from, read_ring, dequeue, is_finished}
use fast_dcs.SignalingQueue.Inv.{IsValid, Chain}
use fast_dcs.SignalingQueue.Ring.{length-read_ring}
use fast_dcs.Connector.{
  Connector, clear, Sent, sends, loops, send, send_loaded, send_rest, load, count_sent,
}
use fast_dcs.Connector.Sending.{not_over, not_empty}

-- A socket that takes all.
abbrev pub takes_all : Text → ℤ
takes_all bytes = pos (length bytes)

-- Nothing of a message is left, and at most `n` messages are.
abbrev pub Emptied : ℕ → Sent → Type 0
Emptied n (sends c q k sent) =
    (is_empty c.message ≡ true) × ((c.bytes_count ≡ 0) × (length q.message_positions ≤ n))
Emptied n loops = ⊥

all_counted :
    (k : ℕ) (message : Text)
    → k ≡ 0
    → length message < 2 ^ 32
    → count_sent k (takes_all (drop k message)) ≡ length message
unfolding count_sent
all_counted k message start small = rw start (omega (arith, small))

same_length : (n : ℕ) → (n == n) ≡ true
same_length n = ground arith

send_rest-Emptied :
    (n : ℕ) (c : Connector) (q : SignalingQueue)
    → c.bytes_count ≡ 0
    → length c.message < 2 ^ 32
    → length q.message_positions ≤ n
    → Emptied n (send_rest takes_all c q)
unfolding send_rest clear count_sent
send_rest-Emptied n c q start small left =
    rw (all_counted c.bytes_count c.message start small, same_length (length c.message), send_rest)
      (refl, (refl, left))

send_loaded-Emptied :
    (n : ℕ) (c : Connector) (q : SignalingQueue) (ms : List (ℕ × ℕ))
    → is_empty c.message ≡ true
    → c.bytes_count ≡ 0
    → IsValid q
    → is_finished q ≡ false
    → q.message_positions ≡ ms
    → length ms ≤ suc n
    → Emptied n
        (send_loaded takes_all (load c (remove_from q ms false).1) (remove_from q ms false).0)
unfolding send_loaded load remove_from
send_loaded-Emptied n c q [] e start v f at few =
    rw (not_over q f, send_loaded) (refl, (start, omega (arith, ap length at)))
send_loaded-Emptied n c q ((p, size) ∷ rest) e start v f at few =
    rw (filled, send_loaded)
      (send_rest-Emptied n loaded (dequeue q size rest) start
        (omega (arith, sized, laid.2, v.limit)) (omega (arith, few)))
  where
    message : Text
    message = read_ring q.queue q.queue_size p size

    loaded : Connector
    loaded = record c { message = message; message_size = size % 2 ^ 32 }

    laid : Chain q.queue_size ((p, size) ∷ rest) q.write_pointer
    laid = subst (λ ms. Chain q.queue_size ms q.write_pointer) at v.laid

    sized : length message ≡ size
    sized = length-read_ring q.queue q.queue_size p size v.storage laid.0 laid.2

    filled : is_empty message ≡ false
    filled = not_empty message (omega (arith, sized, laid.1))

pub send-Emptied :
    (n : ℕ) (c : Connector) (q : SignalingQueue)
    → is_empty c.message ≡ true
    → c.bytes_count ≡ 0
    → IsValid q
    → is_finished q ≡ false
    → length q.message_positions ≤ suc n
    → Emptied n (send takes_all c q)
unfolding send remove
send-Emptied n c q e start v f few =
    rw (send, e) (send_loaded-Emptied n c q q.message_positions e start v f refl few)
