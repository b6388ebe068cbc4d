-- ===== src/SignalingQueue/Tests.antt =====
-- Runs of the ring on small inputs, and the theorems at inputs that meet their hypotheses.
use fast_dcs.Common.{◌≡◌, refl, true, false, List, [], ◌∷◌, map, arith}
use fast_dcs.Common.Int.{pos}
use fast_dcs.Common.Memory.{blit}
use fast_dcs.SignalingQueue.{
  Op, added, resumed, removed, removed_max, signalled, step, run, SignalingQueue, returns, waits,
  error, nothing, write_ring, advance, read_ring, enqueue, add_locked, add, remove, remove_max,
  insert_producer, signal, empty_and_no_more_add,
}
use fast_dcs.SignalingQueue.Inv.{IsValid}
use fast_dcs.SignalingQueue.Fifo.{run_refines, fifo_run, view}
use fast_dcs.SignalingQueue.Producers.{run_done, end_answer}

-- Five bytes; the message 8 9 1 lies over the end, and the next one goes to position 2.
abbrev wrapped : SignalingQueue
wrapped = record {
  queue = 1 ∷ 0 ∷ 0 ∷ 8 ∷ 9 ∷ [];
  queue_size = 5;
  free_size = 2;
  write_pointer = 1;
  num_producers = 1;
  message_positions = (3, 3) ∷ [];
  finished_producers = [];
}

abbrev ended : SignalingQueue
ended = record wrapped { free_size = 5; message_positions = []; finished_producers = 4 ∷ [] }

wrapped-IsValid : IsValid wrapped
wrapped-IsValid = omega arith

abbrev script : List Op
script =
    added (4 ∷ 5 ∷ 6 ∷ []) true
    ∷ added (4 ∷ 5 ∷ []) false
    ∷ added [] true
    ∷ removed_max 2 false
    ∷ resumed (4 ∷ 5 ∷ 6 ∷ []) true
    ∷ removed true
    ∷ signalled 4
    ∷ removed true
    ∷ removed true
    ∷ []

run-wrapped :
    run wrapped script
    ≡ waits
      ∷ returns (pos 2) []
      ∷ error
      ∷ error
      ∷ returns (pos 3) []
      ∷ returns (pos 2) (4 ∷ 5 ∷ [])
      ∷ nothing
      ∷ returns (pos 3) (4 ∷ 5 ∷ 6 ∷ [])
      ∷ nothing
      ∷ []
unfolding run step add add_locked remove remove_max enqueue write_ring read_ring advance blit signal
    insert_producer
run-wrapped = refl

run_refines_example : run wrapped script ≡ fifo_run (view wrapped) script
run_refines_example = run_refines script wrapped (omega arith) wrapped-IsValid

run_done_example :
    run ended (added (1 ∷ []) true ∷ removed true ∷ [])
    ≡ map end_answer (added (1 ∷ []) true ∷ removed true ∷ [])
run_done_example =
    run_done ended (added (1 ∷ []) true ∷ removed true ∷ []) (omega arith)
      (unfold empty_and_no_more_add in refl)
