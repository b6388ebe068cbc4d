-- ===== src/SignalingQueue/Producers.antt =====
-- The end of a queue: `Signal`, `EmptyAndNoMoreAdd`, and what consumers and producers then see.
use fast_dcs.Common.{
  ℕ, ◌≡◌, ◌≢◌, refl, sym, ◌+◌, ◌≤◌, suc, Bool, true, ◌&&◌, List, [], ◌∷◌, map, arith, leb, ◌==◌,
  length,
}
use fast_dcs.SignalingQueue.{
  Op, added, resumed, removed, removed_max, signalled, step, run, SignalingQueue, Outcome, error,
  nothing, init, add, remove_from, remove, remove_max_from, remove_max, insert_producer, signal,
  is_finished, empty_and_no_more_add,
}

abbrev pub Absent : ℕ → List ℕ → Type 0
Absent a [] = Unit {0}
Absent a (b ∷ bs) = (a ≢ b) × Absent a bs

abbrev pub Distinct : List ℕ → Type 0
Distinct [] = Unit {0}
Distinct (a ∷ bs) = Absent a bs × Distinct bs

length-insert_producer_new :
    (a : ℕ) (bs : List ℕ) → Absent a bs → length (insert_producer a bs) ≡ suc (length bs)
unfolding insert_producer
length-insert_producer_new a [] h = refl
length-insert_producer_new a (b ∷ bs) h = ground (arith, length-insert_producer_new a bs h.1)

length-insert_producer : (a : ℕ) (bs : List ℕ) → length bs ≤ length (insert_producer a bs)
unfolding insert_producer
length-insert_producer a [] = omega arith
length-insert_producer a (b ∷ bs) = ground (arith, length-insert_producer a bs)

insert_producer_twice :
    (a : ℕ) (bs : List ℕ) → insert_producer a (insert_producer a bs) ≡ insert_producer a bs
unfolding insert_producer
insert_producer_twice a [] = ground arith
insert_producer_twice a (b ∷ bs) = ground (arith, insert_producer_twice a bs)

Absent-insert_producer :
    (a b : ℕ) (bs : List ℕ) → b ≢ a → Absent b bs → Absent b (insert_producer a bs)
unfolding insert_producer
Absent-insert_producer a b [] h k = (h, tt)
Absent-insert_producer a b (c ∷ bs) h k = ground (arith, Absent-insert_producer a b bs h k.1)

-- A producer that signals twice counts once.
pub signal_twice : (q : SignalingQueue) (id : ℕ) → signal (signal q id) id ≡ signal q id
unfolding signal
signal_twice q id =
    λ i. record q { finished_producers = insert_producer_twice id q.finished_producers i }

pub signal_all : SignalingQueue → List ℕ → SignalingQueue
signal_all q [] = q
signal_all q (id ∷ ids) = signal_all (signal q id) ids

abbrev AllAbsent : List ℕ → List ℕ → Type 0
AllAbsent [] bs = Unit {0}
AllAbsent (a ∷ more) bs = Absent a bs × AllAbsent more bs

AllAbsent-insert_producer :
    (a : ℕ) (more bs : List ℕ)
    → Absent a more
    → AllAbsent more bs
    → AllAbsent more (insert_producer a bs)
AllAbsent-insert_producer a [] bs h k = tt
AllAbsent-insert_producer a (b ∷ more) bs h k = (
  Absent-insert_producer a b bs (λ e. h.0 (sym e)) k.0,
  AllAbsent-insert_producer a more bs h.1 k.1,
)

AllAbsent-nil : (ids : List ℕ) → AllAbsent ids []
AllAbsent-nil [] = tt
AllAbsent-nil (id ∷ ids) = (tt, AllAbsent-nil ids)

finished-signal_all :
    (q : SignalingQueue) (ids : List ℕ)
    → Distinct ids
    → AllAbsent ids q.finished_producers
    → length (signal_all q ids).finished_producers ≡ length q.finished_producers + length ids
unfolding signal_all signal
finished-signal_all q [] d a = omega arith
finished-signal_all q (id ∷ ids) d a = omega (
  arith,
  finished-signal_all (signal q id) ids d.1
      (AllAbsent-insert_producer id ids q.finished_producers d.0 a.1),
  length-insert_producer_new id q.finished_producers a.0,
)

num_producers-signal_all :
    (q : SignalingQueue) (ids : List ℕ) → (signal_all q ids).num_producers ≡ q.num_producers
unfolding signal_all signal
num_producers-signal_all q [] = refl
num_producers-signal_all q (id ∷ ids) = num_producers-signal_all (signal q id) ids

-- A queue for `n` producers is finished when as many different ones have signalled, and not before.
pub signal_all-finishes :
    (size n : ℕ) (ids : List ℕ)
    → Distinct ids
    → is_finished (signal_all (init size n) ids) ≡ leb n (length ids)
signal_all-finishes size n ids d =
    rw
      (
        num_producers-signal_all (init size n) ids,
        finished-signal_all (init size n) ids d (unfold init in AllAbsent-nil ids),
      )
      (unfold init in ground arith)

abbrev pub IsFresh : Op → Type 0
IsFresh (resumed src is_blocking) = ⊥
IsFresh _ = Unit {0}

abbrev pub AllFresh : List Op → Type 0
AllFresh [] = Unit {0}
AllFresh (op ∷ ops) = IsFresh op × AllFresh ops

-- Producers are refused, consumers get nothing, and nobody waits.
abbrev pub end_answer : Op → Outcome
end_answer (added src is_blocking) = error
end_answer _ = nothing

-- `EmptyAndNoMoreAdd` over the queue of positions.
abbrev Done : SignalingQueue → List (ℕ × ℕ) → Type 0
Done q ms = (length ms == 0 && is_finished q) ≡ true

remove_from-Done :
    (q : SignalingQueue) (ms : List (ℕ × ℕ)) (is_blocking : Bool)
    → Done q ms
    → remove_from q ms is_blocking ≡ (q, nothing)
unfolding remove_from
remove_from-Done q [] is_blocking e = ground arith
remove_from-Done q (m ∷ ms) is_blocking e = ground arith

remove_max_from-Done :
    (q : SignalingQueue) (ms : List (ℕ × ℕ)) (n : ℕ) (is_blocking : Bool)
    → Done q ms
    → remove_max_from q ms n is_blocking ≡ (q, nothing)
unfolding remove_max_from
remove_max_from-Done q [] n is_blocking e = ground arith
remove_max_from-Done q (m ∷ ms) n is_blocking e = ground arith

step_done :
    (q : SignalingQueue) (op : Op)
    → IsFresh op
    → empty_and_no_more_add q ≡ true
    → ((step q op).1 ≡ end_answer op) × (empty_and_no_more_add (step q op).0 ≡ true)
unfolding step add remove remove_max signal empty_and_no_more_add
step_done q (added src is_blocking) h e = ground arith
step_done q (resumed src is_blocking) h e = absurd h
step_done q (removed is_blocking) h e =
    ground (arith, remove_from-Done q q.message_positions is_blocking e)
step_done q (removed_max n is_blocking) h e =
    ground (arith, remove_max_from-Done q q.message_positions n is_blocking e)
step_done q (signalled id) h e = ground (arith, length-insert_producer id q.finished_producers)

-- When `EmptyAndNoMoreAdd` holds, every later call returns at once: `Add` with -1 and `Remove` with 0.
-- The condition is that no producer was asleep in `Add`: one that was does not look at the end again.
pub run_done :
    (q : SignalingQueue) (ops : List Op)
    → AllFresh ops
    → empty_and_no_more_add q ≡ true
    → run q ops ≡ map end_answer ops
unfolding run
run_done q [] h e = refl
run_done q (op ∷ ops) h e =
    let (answer, done) = step_done q op h.0 e in cc (answer, run_done (step q op).0 ops h.1 done)
