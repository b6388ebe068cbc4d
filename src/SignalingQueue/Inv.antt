-- ===== src/SignalingQueue/Inv.antt =====
-- The representation invariant of the ring of signaling_queue.cc.
use fast_dcs.Common.{
  ℕ, ◌+◌, ◌^◌, ◌≤◌, ◌<◌, ◌≡◌, refl, ◌∙◌, Bool, List, [], ◌∷◌, ◌++◌, arith, length, length-replicate,
}
use fast_dcs.Common.Texts.{Text}
use fast_dcs.SignalingQueue.{
  SignalingQueue, init, enqueue, add_locked, add, remove_from, remove, remove_max_from, remove_max,
  signal,
}
use fast_dcs.SignalingQueue.Ring.{wrap, advance-wrap, length-write_ring}

abbrev pub total : List (ℕ × ℕ) → ℕ
total [] = 0
total ((p, size) ∷ ms) = size + total ms

-- Where the front message lies, or the next one will.
abbrev pub next : List (ℕ × ℕ) → ℕ → ℕ
next [] w = w
next ((p, size) ∷ ms) w = p

-- Each message begins where the one before it ends, and the last ends at `w`.
abbrev pub Chain : ℕ → List (ℕ × ℕ) → ℕ → Type 0
Chain span [] w = Unit {0}
Chain span ((p, size) ∷ ms) w =
    (p < span) × (0 < size) × (size ≤ span) × (wrap span (p + size) ≡ next ms w) × Chain span ms w

-- An `int` holds the size, and every sum of a position and a size.
abbrev pub max_size : ℕ
max_size = 2 ^ 30

pub record IsValid (q : SignalingQueue) : Type 0 where
  pub storage : length q.queue ≡ q.queue_size
  pub limit : q.queue_size ≤ max_size
  pub pointer : q.write_pointer < q.queue_size
  pub laid : Chain q.queue_size q.message_positions q.write_pointer
  pub counted : total q.message_positions + q.free_size ≡ q.queue_size

wrap-add :
    (span p size t : ℕ)
    → p < span
    → size + t ≤ span
    → wrap span (wrap span (p + size) + t) ≡ wrap span (p + (size + t))
wrap-add span p size t h k = ground arith

-- The write pointer lies as far behind the front message as there are bytes in use.
pub wrap-next :
    (span : ℕ) (ms : List (ℕ × ℕ)) (w : ℕ)
    → w < span
    → Chain span ms w
    → total ms ≤ span
    → w ≡ wrap span (next ms w + total ms)
wrap-next span [] w h c t = ground arith
wrap-next span ((p, size) ∷ ms) w h c t =
    wrap-next span ms w h c.4 (omega arith)
    ∙ rw (← c.3) (wrap-add span p size (total ms) c.0 (omega arith))

next-append : (ms : List (ℕ × ℕ)) (w w' size : ℕ) → next (ms ++ (w, size) ∷ []) w' ≡ next ms w
next-append [] w w' size = refl
next-append (m ∷ ms) w w' size = refl

Chain-append :
    (span : ℕ) (ms : List (ℕ × ℕ)) (w size : ℕ)
    → w < span
    → 0 < size
    → size ≤ span
    → Chain span ms w
    → Chain span (ms ++ (w, size) ∷ []) (wrap span (w + size))
Chain-append span [] w size h p l c = (h, p, l, refl, tt)
Chain-append span ((a, n) ∷ ms) w size h p l c = (
  c.0,
  c.1,
  c.2,
  ground (arith, next-append ms w (wrap span (w + size)) size),
  Chain-append span ms w size h p l c.4,
)

total-append : (ms : List (ℕ × ℕ)) (w size : ℕ) → total (ms ++ (w, size) ∷ []) ≡ total ms + size
total-append [] w size = omega arith
total-append ((p, n) ∷ ms) w size = omega (arith, total-append ms w size)

pub init-IsValid :
    (queue_size num_producers : ℕ)
    → 0 < queue_size
    → queue_size ≤ max_size
    → IsValid (init queue_size num_producers)
unfolding init
init-IsValid queue_size num_producers h l = record {
  storage = length-replicate queue_size 0;
  limit = l;
  pointer = h;
  laid = tt;
  counted = omega arith;
}

pub enqueue-IsValid :
    (q : SignalingQueue) (src : Text)
    → IsValid q
    → 0 < length src
    → length src ≤ q.free_size
    → IsValid (enqueue q src)
unfolding enqueue
enqueue-IsValid q src v h l = record {
  storage = length-write_ring q.queue q.queue_size q.write_pointer src ∙ v.storage;
  limit = v.limit;
  pointer = ground (
    arith,
    v.pointer,
    v.counted,
    advance-wrap q.queue_size q.write_pointer (length src) v.pointer (omega arith),
  );
  laid = rw (advance-wrap q.queue_size q.write_pointer (length src) v.pointer (omega arith)) (
      Chain-append q.queue_size q.message_positions q.write_pointer (length src) v.pointer h
        (omega arith) v.laid);
  counted = omega (arith, total-append q.message_positions q.write_pointer (length src));
}

pub add_locked-IsValid :
    (q : SignalingQueue) (src : Text) (is_blocking : Bool)
    → IsValid q
    → 0 < length src
    → IsValid (add_locked q src is_blocking).0
unfolding add_locked
add_locked-IsValid q src is_blocking v h = ground (arith, enqueue-IsValid q src v h)

-- `Add` keeps the ring well formed, whatever it is given and whatever it answers.
pub add-IsValid :
    (q : SignalingQueue) (src : Text) (is_blocking : Bool)
    → IsValid q
    → IsValid (add q src is_blocking).0
unfolding add
add-IsValid q src is_blocking v = ground (arith, add_locked-IsValid q src is_blocking v)

remove_from-IsValid :
    (q : SignalingQueue) (ms : List (ℕ × ℕ)) (is_blocking : Bool)
    → q.message_positions ≡ ms
    → IsValid q
    → IsValid (remove_from q ms is_blocking).0
unfolding remove_from
remove_from-IsValid q [] is_blocking e v = v
remove_from-IsValid q ((p, size) ∷ ms) is_blocking e v = record {
  storage = v.storage;
  limit = v.limit;
  pointer = v.pointer;
  laid = (rw e at v.laid).4;
  counted = omega (arith, rw e at v.counted);
}

-- `Remove` into a string keeps the ring well formed.
pub remove-IsValid :
    (q : SignalingQueue) (is_blocking : Bool) → IsValid q → IsValid (remove q is_blocking).0
unfolding remove
remove-IsValid q is_blocking v = remove_from-IsValid q q.message_positions is_blocking refl v

remove_max_from-state :
    (q : SignalingQueue) (ms : List (ℕ × ℕ)) (n : ℕ) (is_blocking : Bool)
    → (remove_max_from q ms n is_blocking).0 ≡ (remove_from q ms is_blocking).0
unfolding remove_max_from remove_from
remove_max_from-state q [] n is_blocking = refl
remove_max_from-state q ((p, size) ∷ ms) n is_blocking = refl

-- `Remove` into a buffer takes the same message off as `Remove` into a string, whether the message
-- fits the buffer or not.
pub remove_max-state :
    (q : SignalingQueue) (n : ℕ) (is_blocking : Bool)
    → (remove_max q n is_blocking).0 ≡ (remove q is_blocking).0
unfolding remove_max remove
remove_max-state q n is_blocking = remove_max_from-state q q.message_positions n is_blocking

pub signal-IsValid : (q : SignalingQueue) (id : ℕ) → IsValid q → IsValid (signal q id)
unfolding signal
signal-IsValid q id v = record {
  storage = v.storage;
  limit = v.limit;
  pointer = v.pointer;
  laid = v.laid;
  counted = v.counted;
}

-- In a valid queue neither the place where a message of at most `queue_size` bytes is written,
-- nor the end of the oldest message, nor the room after it is removed runs over an `int`.
pub no_overflow :
    (q : SignalingQueue) (src : Text) (p size : ℕ) (rest : List (ℕ × ℕ))
    → IsValid q
    → length src ≤ q.queue_size
    → q.message_positions ≡ (p, size) ∷ rest
    → (q.write_pointer + length src < 2 ^ 31) × (p + size < 2 ^ 31) × (q.free_size + size < 2 ^ 31)
no_overflow q src p size rest v h e =
    let laid = rw e at v.laid in let counted = rw e at v.counted in omega arith
