-- ===== src/SignalingQueue/Fifo/Ends.antt =====
-- The two ends of the buffer: what goes in and what comes out of src/server/signaling_queue.cc.
use fast_dcs.Common.{
  ◌+◌, ◌≤◌, ◌<◌, ◌≡◌, refl, ap, ◌∙◌, true, false, List, [], ◌∷◌, ◌++◌, arith, length,
}
use fast_dcs.Common.Int.{pos}
use fast_dcs.Common.Texts.{Text}
use fast_dcs.SignalingQueue.{SignalingQueue, returns, is_finished, add, remove}
use fast_dcs.SignalingQueue.Inv.{IsValid}
use fast_dcs.SignalingQueue.Fifo.{
  Fifo, used, all_finished, put, put_locked, take_from, get, view, used-contents, add_refines,
  remove_refines,
}

get-front :
    (b : Fifo) (m : Text) (ms : List Text)
    → b.messages ≡ m ∷ ms
    → get b true ≡ (record b { messages = ms }, returns (pos (length m)) m)
unfolding get take_from
get-front b m ms e = rw (e, get) refl

-- A consumer takes the oldest message.
pub remove_front :
    (q : SignalingQueue) (m : Text) (ms : List Text)
    → IsValid q
    → (view q).messages ≡ m ∷ ms
    → ((remove q true).1 ≡ returns (pos (length m)) m) × ((view (remove q true).0).messages ≡ ms)
remove_front q m ms v e =
    let r = remove_refines q true v ∙ get-front (view q) m ms e in
    (ap (λ x. x.1) r, ap (λ x. x.0.messages) r)

put_fits :
    (b : Fifo) (src : Text)
    → 0 < length src
    → used b.messages + length src ≤ b.capacity
    → all_finished b ≡ false
    → put b src true
      ≡ (record b { messages = b.messages ++ src ∷ [] }, returns (pos (length src)) [])
unfolding put put_locked
put_fits b src p h f = ground arith

-- A producer's message that fits stands behind the others.
pub add_back :
    (q : SignalingQueue) (src : Text)
    → IsValid q
    → 0 < length src
    → length src ≤ q.free_size
    → is_finished q ≡ false
    → ((add q src true).1 ≡ returns (pos (length src)) [])
      × ((view (add q src true).0).messages ≡ (view q).messages ++ src ∷ [])
add_back q src v p h f =
    let r =
      add_refines q src true v
      ∙ put_fits (view q) src p
          (omega (
            arith,
            v.counted,
            used-contents q.queue q.queue_size q.message_positions q.write_pointer v.storage v.laid,
          ))
          f in
    (ap (λ x. x.1) r, ap (λ x. x.0.messages) r)
