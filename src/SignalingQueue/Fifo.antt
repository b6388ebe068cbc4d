-- ===== src/SignalingQueue/Fifo.antt =====
-- What signaling_queue.h promises: a first-in first-out buffer of messages whose bytes together fit
-- `capacity`. The ring of signaling_queue.cc implements it.
pub mod Ends
use mathlib.Core.List.{map-append}
use mathlib.Core.Path.{ap₂}
use fast_dcs.Common.{
  ℕ, ◌+◌, ◌≤◌, ◌<◌, ◌≡◌, refl, sym, ap, ◌∙◌, Bool, ◌&&◌, ◌||◌, not, List, [], ◌∷◌, ◌++◌, map, arith,
  ltb, leb, if◌then◌else◌, length, Bool-cases, inl, inr, subst,
}
use fast_dcs.Common.Int.{pos}
use fast_dcs.Common.Texts.{Text}
use fast_dcs.SignalingQueue.{
  Op, added, resumed, removed, removed_max, signalled, step, run, SignalingQueue, Outcome, returns,
  waits, error, nothing, read_ring, write_ring, enqueue, add_locked, add, remove_from, remove,
  remove_max_from, remove_max, insert_producer, signal,
}
use fast_dcs.SignalingQueue.Ring.{
  read_ring-write_ring, read_ring-write_ring_apart, length-read_ring,
}
use fast_dcs.SignalingQueue.Inv.{
  IsValid, Chain, total, wrap-next, add_locked-IsValid, add-IsValid, remove-IsValid,
  remove_max-state, signal-IsValid,
}

pub record Fifo : Type 0 where
  pub messages : List Text
  pub capacity : ℕ
  pub producers : ℕ
  pub finished : List ℕ

abbrev pub used : List Text → ℕ
used [] = 0
used (m ∷ ms) = length m + used ms

abbrev pub all_finished : Fifo → Bool
all_finished b = leb b.producers (length b.finished)

-- A message that does not fit now waits, or is refused by 0 if the caller does not want to wait.
unfoldable pub put_locked : Fifo → Text → Bool → Fifo × Outcome
put_locked b src is_blocking =
    if ltb b.capacity (used b.messages + length src)
    then (b, if is_blocking then waits else nothing)
    else (record b { messages = b.messages ++ src ∷ [] }, returns (pos (length src)) [])

-- An empty message, one that can never fit, and any message after the producers' end are errors.
unfoldable pub put : Fifo → Text → Bool → Fifo × Outcome
put b src is_blocking =
    if (ltb b.capacity (length src) || leb (length src) 0) || all_finished b
    then (b, error)
    else put_locked b src is_blocking

take_none : Fifo → Bool → Fifo × Outcome
take_none b is_blocking = (b, if is_blocking && not (all_finished b) then waits else nothing)

pub take_from : Fifo → List Text → Bool → Fifo × Outcome
unfolding take_none
take_from b [] is_blocking = take_none b is_blocking
take_from b (m ∷ ms) is_blocking = (record b { messages = ms }, returns (pos (length m)) m)

-- The oldest message.
pub get : Fifo → Bool → Fifo × Outcome
unfolding take_from
get b is_blocking = take_from b b.messages is_blocking

take_max_from : Fifo → List Text → ℕ → Bool → Fifo × Outcome
unfolding take_none
take_max_from b [] n is_blocking = take_none b is_blocking
take_max_from b (m ∷ ms) n is_blocking =
    (record b { messages = ms }, if ltb n (length m) then error else returns (pos (length m)) m)

-- The oldest message, which is lost if it has more than `n` bytes.
pub get_max : Fifo → ℕ → Bool → Fifo × Outcome
unfolding take_max_from
get_max b n is_blocking = take_max_from b b.messages n is_blocking

pub finish : Fifo → ℕ → Fifo
finish b id = record b { finished = insert_producer id b.finished }

-- The messages that the ring holds, oldest first.
abbrev pub contents : Text → ℕ → List (ℕ × ℕ) → List Text
contents buf span ms = map (λ m. read_ring buf span m.0 m.1) ms

abbrev pub view : SignalingQueue → Fifo
view q = record {
  messages = contents q.queue q.queue_size q.message_positions;
  capacity = q.queue_size;
  producers = q.num_producers;
  finished = q.finished_producers;
}

pub used-contents :
    (buf : Text) (span : ℕ) (ms : List (ℕ × ℕ)) (w : ℕ)
    → length buf ≡ span
    → Chain span ms w
    → used (contents buf span ms) ≡ total ms
used-contents buf span [] w h c = refl
used-contents buf span ((p, size) ∷ ms) w h c =
    omega (arith, length-read_ring buf span p size h c.0 c.2, used-contents buf span ms w h c.4)

-- A write in the free part leaves every message as it was.
contents-write_ring :
    (buf : Text) (span : ℕ) (ms : List (ℕ × ℕ)) (w : ℕ) (src : Text)
    → length buf ≡ span
    → w < span
    → Chain span ms w
    → total ms + length src ≤ span
    → contents (write_ring buf span w src) span ms ≡ contents buf span ms
contents-write_ring buf span [] w src hb hw c h = refl
contents-write_ring buf span ((p, size) ∷ ms) w src hb hw c h =
    let rest = contents-write_ring buf span ms w src hb hw c.4 (omega arith) in
    let at_w = wrap-next span ((p, size) ∷ ms) w hw c (omega arith) in
    let apart =
      read_ring-write_ring_apart buf span p size (size + total ms) src hb c.0 (omega arith)
        (omega arith) in
    ap₂ ◌∷◌ (rw (← at_w) at apart) rest

view-enqueue :
    (q : SignalingQueue) (src : Text)
    → IsValid q
    → length src ≤ q.free_size
    → contents (enqueue q src).queue q.queue_size (enqueue q src).message_positions
      ≡ contents q.queue q.queue_size q.message_positions ++ src ∷ []
unfolding enqueue
view-enqueue q src v h =
    map-append _ q.message_positions ((q.write_pointer, length src) ∷ [])
    ∙ ap₂ ◌++◌
        (contents-write_ring q.queue q.queue_size q.message_positions q.write_pointer src v.storage
          v.pointer v.laid (omega (arith, v.counted)))
        (ap (λ m. m ∷ [])
          (read_ring-write_ring q.queue q.queue_size q.write_pointer src v.storage v.pointer
            (omega (arith, v.counted))))

-- The ring has room for a message exactly when the buffer has.
room :
    (q : SignalingQueue) (src : Text)
    → IsValid q
    → ltb q.free_size (length src)
      ≡ ltb q.queue_size (used (contents q.queue q.queue_size q.message_positions) + length src)
room q src v =
    rw (used-contents q.queue q.queue_size q.message_positions q.write_pointer v.storage v.laid)
      (ground (arith, v.counted))

view_enqueue_lem :
    (q : SignalingQueue) (src : Text)
    → IsValid q
    → length src ≤ q.free_size
    → view (enqueue q src) ≡ record (view q) { messages = (view q).messages ++ src ∷ [] }
unfolding enqueue
view_enqueue_lem q src v h = λ i. record (view q) { messages = view-enqueue q src v h i }

-- `Add` from its wait on is `put_locked` on the messages that the ring holds.
pub add_locked_refines :
    (q : SignalingQueue) (src : Text) (is_blocking : Bool)
    → IsValid q
    → (view (add_locked q src is_blocking).0, (add_locked q src is_blocking).1)
      ≡ put_locked (view q) src is_blocking
unfolding add_locked put_locked
add_locked_refines q src is_blocking v =
    rw (← room q src v) (elim (Bool-cases (ltb q.free_size (length src))) [
      | inl full ↦ rw full
      | inr fits ↦ rw (fits, view_enqueue_lem q src v (ground arith))
    ])

-- `Add` answers as the buffer does, and leaves the ring holding the buffer's messages.
pub add_refines :
    (q : SignalingQueue) (src : Text) (is_blocking : Bool)
    → IsValid q
    → (view (add q src is_blocking).0, (add q src is_blocking).1) ≡ put (view q) src is_blocking
unfolding add put
add_refines q src is_blocking v = ground (arith, add_locked_refines q src is_blocking v)

remove_from_refines :
    (q : SignalingQueue) (ms : List (ℕ × ℕ)) (is_blocking : Bool)
    → q.message_positions ≡ ms
    → IsValid q
    → (view (remove_from q ms is_blocking).0, (remove_from q ms is_blocking).1)
      ≡ take_from (view q) (contents q.queue q.queue_size ms) is_blocking
unfolding remove_from take_from
remove_from_refines q [] is_blocking e v = ground arith
remove_from_refines q ((p, size) ∷ ms) is_blocking e v =
    rw
      (length-read_ring q.queue q.queue_size p size v.storage (rw e at v.laid).0 (rw e at v.laid).2)

-- `Remove` into a string answers and leaves what the buffer does.
pub remove_refines :
    (q : SignalingQueue) (is_blocking : Bool)
    → IsValid q
    → (view (remove q is_blocking).0, (remove q is_blocking).1) ≡ get (view q) is_blocking
unfolding remove get
remove_refines q is_blocking v = remove_from_refines q q.message_positions is_blocking refl v

remove_max_from_refines :
    (q : SignalingQueue) (ms : List (ℕ × ℕ)) (n : ℕ) (is_blocking : Bool)
    → q.message_positions ≡ ms
    → IsValid q
    → (view (remove_max_from q ms n is_blocking).0, (remove_max_from q ms n is_blocking).1)
      ≡ take_max_from (view q) (contents q.queue q.queue_size ms) n is_blocking
unfolding remove_max_from take_max_from
remove_max_from_refines q [] n is_blocking e v = ground arith
remove_max_from_refines q ((p, size) ∷ ms) n is_blocking e v =
    rw
      (length-read_ring q.queue q.queue_size p size v.storage (rw e at v.laid).0 (rw e at v.laid).2)

-- `Remove` into a buffer of `n` bytes answers and leaves what the buffer does.
pub remove_max_refines :
    (q : SignalingQueue) (n : ℕ) (is_blocking : Bool)
    → IsValid q
    → (view (remove_max q n is_blocking).0, (remove_max q n is_blocking).1)
      ≡ get_max (view q) n is_blocking
unfolding remove_max get_max
remove_max_refines q n is_blocking v =
    remove_max_from_refines q q.message_positions n is_blocking refl v

abbrev pub Starts : Op → Type 0
Starts (resumed src is_blocking) = 0 < length src
Starts _ = Unit {0}

pub fifo_step : Fifo → Op → Fifo × Outcome
fifo_step b (added src is_blocking) = put b src is_blocking
fifo_step b (resumed src is_blocking) = put_locked b src is_blocking
fifo_step b (removed is_blocking) = get b is_blocking
fifo_step b (removed_max n is_blocking) = get_max b n is_blocking
fifo_step b (signalled id) = (finish b id, nothing)

-- Every call or wake-up of a thread keeps a queue valid, if a producer that resumes has a
-- message that may be added.
pub step-IsValid : (q : SignalingQueue) (op : Op) → Starts op → IsValid q → IsValid (step q op).0
unfolding step
step-IsValid q (added src is_blocking) s v = add-IsValid q src is_blocking v
step-IsValid q (resumed src is_blocking) s v = add_locked-IsValid q src is_blocking v s
step-IsValid q (removed is_blocking) s v = remove-IsValid q is_blocking v
step-IsValid q (removed_max n is_blocking) s v =
    subst IsValid (sym (remove_max-state q n is_blocking)) (remove-IsValid q is_blocking v)
step-IsValid q (signalled id) s v = signal-IsValid q id v

step_refines :
    (q : SignalingQueue) (op : Op)
    → IsValid q
    → (view (step q op).0, (step q op).1) ≡ fifo_step (view q) op
unfolding step fifo_step
step_refines q (added src is_blocking) v = add_refines q src is_blocking v
step_refines q (resumed src is_blocking) v = add_locked_refines q src is_blocking v
step_refines q (removed is_blocking) v = remove_refines q is_blocking v
step_refines q (removed_max n is_blocking) v = remove_max_refines q n is_blocking v
step_refines q (signalled id) v = unfold signal finish in refl

pub fifo_run : Fifo → List Op → List Outcome
fifo_run b [] = []
fifo_run b (op ∷ ops) = (fifo_step b op).1 ∷ fifo_run (fifo_step b op).0 ops

abbrev pub AllStart : List Op → Type 0
AllStart [] = Unit {0}
AllStart (op ∷ ops) = Starts op × AllStart ops

-- No interleaving of the threads' calls and wake-ups tells the ring of a valid queue from the
-- first-in first-out buffer of its messages: every call returns the same number and bytes, or waits
-- in both.
pub run_refines :
    (ops : List Op) (q : SignalingQueue)
    → AllStart ops
    → IsValid q
    → run q ops ≡ fifo_run (view q) ops
unfolding run fifo_run
run_refines [] q s v = refl
run_refines (op ∷ ops) q s v =
    rw (run_refines ops (step q op).0 s.1 (step-IsValid q op s.0 v), ← step_refines q op v)
