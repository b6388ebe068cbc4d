-- ===== src/SignalingQueue.antt =====
-- src/server/signaling_queue.cc and signaling_queue.h: the byte ring between the socket threads.
-- A thread holds `mutex_` for the whole of a call but its waits, so a call is one step, or several
-- with a wait between: `waits` is a call that has gone to sleep on its condition variable, and
-- `add_locked`, `remove_locked` are what it runs when it has the lock, first and at each wake-up.
-- Sizes and positions are `int`s that never get negative, and natural numbers here.
pub mod Ring
pub mod Inv
pub mod Fifo
pub mod Producers
mod Tests
use fast_dcs.Common.{
  ℕ, suc, ◌+◌, ◌-◌, Bool, true, false, ◌&&◌, List, [], ◌∷◌, ◌++◌, ltb, leb, ◌==◌, if◌then◌else◌,
  length, take, drop, replicate,
}
use fast_dcs.Common.Int.{ℤ, pos, negsuc}
use fast_dcs.Common.Texts.{Text}
use fast_dcs.Common.Memory.{blit, slice}

-- The fields, but the two condition variables and the mutex. `finished_producers` is a set: a list
-- in which nothing stands twice.
pub record SignalingQueue : Type 0 where
  pub queue : Text
  pub queue_size : ℕ
  pub free_size : ℕ
  pub write_pointer : ℕ
  pub num_producers : ℕ
  pub message_positions : List (ℕ × ℕ)
  pub finished_producers : List ℕ

-- The constructor, past its check that the size is positive.
unfoldable pub init : ℕ → ℕ → SignalingQueue
init queue_size num_producers = record {
  queue = replicate queue_size 0;
  queue_size = queue_size;
  free_size = queue_size;
  write_pointer = 0;
  num_producers = num_producers;
  message_positions = [];
  finished_producers = [];
}

-- What a call does: it returns an `int` and, for `Remove`, what it has written to `dest`, or it
-- waits.
pub data Outcome : Type 0 where
  returns : ℤ → Text → Outcome
  waits : Outcome

-- `return -1`.
abbrev pub error : Outcome
error = returns (negsuc 0) []

-- `return 0`.
abbrev pub nothing : Outcome
nothing = returns (pos 0) []

-- All producers have signalled their end.
abbrev pub is_finished : SignalingQueue → Bool
is_finished q = leb q.num_producers (length q.finished_producers)

-- Lines 69 to 82: the copy of a message into the ring, round its end if it must.
unfoldable pub write_ring : Text → ℕ → ℕ → Text → Text
write_ring buf span w src =
    if leb (w + length src) span
    then blit buf w src
    else let partial = span - w in blit (blit buf w (take partial src)) 0 (drop partial src)

-- The new `write_pointer_`, on the same branches.
unfoldable pub advance : ℕ → ℕ → ℕ → ℕ
advance span w size =
    if leb (w + size) span then (if w + size == span then 0 else w + size) else size - (span - w)

-- Lines 112 to 118: the copy of the message at `p` out of the ring.
unfoldable pub read_ring : Text → ℕ → ℕ → ℕ → Text
read_ring buf span p size =
    if leb (p + size) span
    then slice buf p size
    else let partial = span - p in slice buf p partial ++ slice buf 0 (size - partial)

-- The body of `Add` behind its waits.
unfoldable pub enqueue : SignalingQueue → Text → SignalingQueue
enqueue q src = record q {
  message_positions = q.message_positions ++ (q.write_pointer, length src) ∷ [];
  free_size = q.free_size - length src;
  queue = write_ring q.queue q.queue_size q.write_pointer src;
  write_pointer = advance q.queue_size q.write_pointer (length src);
}

-- `Add` from its `while` on.
unfoldable pub add_locked : SignalingQueue → Text → Bool → SignalingQueue × Outcome
add_locked q src is_blocking =
    if ltb q.free_size (length src)
    then (q, if is_blocking then waits else nothing)
    else (enqueue q src, returns (pos (length src)) [])

-- `Add`; the length of `src` is the argument `size`, which is not negative then.
unfoldable pub add : SignalingQueue → Text → Bool → SignalingQueue × Outcome
add q src is_blocking =
    if ltb q.queue_size (length src)
    then (q, error)
    else if leb (length src) 0
    then (q, error)
    else if is_finished q
    then (q, error)
    else add_locked q src is_blocking

-- The end of `Remove`: the front message is gone, and its room is free.
abbrev pub dequeue : SignalingQueue → ℕ → List (ℕ × ℕ) → SignalingQueue
dequeue q size rest = record q { free_size = q.free_size + size; message_positions = rest }

-- `Remove(string*)` and `Remove(char*, int)` on an empty queue.
abbrev pub remove_empty : SignalingQueue → Bool → SignalingQueue × Outcome
remove_empty q is_blocking =
    (q, if is_blocking then (if is_finished q then nothing else waits) else nothing)

unfoldable pub remove_from : SignalingQueue → List (ℕ × ℕ) → Bool → SignalingQueue × Outcome
remove_from q [] is_blocking = remove_empty q is_blocking
remove_from q ((p, size) ∷ rest) is_blocking =
    (dequeue q size rest, returns (pos size) (read_ring q.queue q.queue_size p size))

-- `Remove(std::string*)`, at its start and at each wake-up.
unfoldable pub remove : SignalingQueue → Bool → SignalingQueue × Outcome
unfolding remove_from
remove q is_blocking = remove_from q q.message_positions is_blocking

unfoldable pub remove_max_from : SignalingQueue → List (ℕ × ℕ) → ℕ → Bool → SignalingQueue × Outcome
remove_max_from q [] max_size is_blocking = remove_empty q is_blocking
remove_max_from q ((p, size) ∷ rest) max_size is_blocking = (
  dequeue q size rest,
  if ltb max_size size then error else returns (pos size) (read_ring q.queue q.queue_size p size),
)

-- `Remove(char*, int)`. A message longer than `max_size` is taken off all the same.
unfoldable pub remove_max : SignalingQueue → ℕ → Bool → SignalingQueue × Outcome
unfolding remove_max_from
remove_max q max_size is_blocking = remove_max_from q q.message_positions max_size is_blocking

-- `set::insert`.
unfoldable pub insert_producer : ℕ → List ℕ → List ℕ
insert_producer a [] = a ∷ []
insert_producer a (b ∷ bs) = if a == b then b ∷ bs else b ∷ insert_producer a bs

-- `Signal`, whose broadcast wakes whoever waits for a message.
unfoldable pub signal : SignalingQueue → ℕ → SignalingQueue
signal q producer_id = record q {
  finished_producers = insert_producer producer_id q.finished_producers;
}

unfoldable pub empty_and_no_more_add : SignalingQueue → Bool
empty_and_no_more_add q = length q.message_positions == 0 && is_finished q

-- What the threads do to a queue, one step for each time that one of them holds the mutex. `resumed`
-- is a producer that a wait has ended for; a consumer starts over.
pub data Op : Type 0 where
  added : Text → Bool → Op
  resumed : Text → Bool → Op
  removed : Bool → Op
  removed_max : ℕ → Bool → Op
  signalled : ℕ → Op

unfoldable pub step : SignalingQueue → Op → SignalingQueue × Outcome
step q (added src is_blocking) = add q src is_blocking
step q (resumed src is_blocking) = add_locked q src is_blocking
step q (removed is_blocking) = remove q is_blocking
step q (removed_max n is_blocking) = remove_max q n is_blocking
step q (signalled id) = (signal q id, nothing)

unfoldable pub run : SignalingQueue → List Op → List Outcome
run q [] = []
run q (op ∷ ops) = (step q op).1 ∷ run (step q op).0 ops
