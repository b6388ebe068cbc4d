-- ===== src/SignalingQueue/Ring.antt =====
-- The two copies of signaling_queue.cc, byte by byte: `write_ring` writes the bytes that `read_ring`
-- reads, and no others.
use fast_dcs.Common.{
  ℕ, ◌+◌, ◌-◌, ◌≤◌, ◌<◌, ◌≡◌, sym, ◌∙◌, arith, ltb, leb, if◌then◌else◌, length, length-append,
  length-take, length-drop, get_or, take, drop,
}
use fast_dcs.Common.Texts.{Text}
use fast_dcs.Common.Memory.{
  blit, length-blit, get_or-blit, get_or-take, get_or-drop, get_or-append, eq_of_get_or,
}
use fast_dcs.SignalingQueue.{write_ring, read_ring, advance}

-- A position that may have run past the end, back in the ring.
abbrev pub wrap : ℕ → ℕ → ℕ
wrap span i = if ltb i span then i else i - span

-- How far `i` lies behind `w`, going round.
abbrev pub distance : ℕ → ℕ → ℕ → ℕ
distance span w i = if leb w i then i - w else i + span - w

pub advance-wrap :
    (span w size : ℕ) → w < span → size ≤ span → advance span w size ≡ wrap span (w + size)
unfolding advance
advance-wrap span w size h k = ground arith

pub length-write_ring :
    (buf : Text) (span w : ℕ) (src : Text) → length (write_ring buf span w src) ≡ length buf
unfolding write_ring
length-write_ring buf span w src = ground (
  arith,
  length-blit buf w src,
  length-blit buf w (take (span - w) src),
  length-blit (blit buf w (take (span - w) src)) 0 (drop (span - w) src),
)

-- After the write a byte is one of `src` if it lies in the `length src` bytes from `w` on.
pub get_or-write_ring :
    (buf : Text) (span w : ℕ) (src : Text) (i : ℕ)
    → length buf ≡ span
    → w < span
    → length src ≤ span
    → i < span
    → get_or (write_ring buf span w src) i 0 ≡ (
        if ltb (distance span w i) (length src)
        then get_or src (distance span w i) 0
        else get_or buf i 0)
unfolding write_ring
get_or-write_ring buf span w src i hb hw hs hi = ground (
  arith,
  get_or-blit buf w src i,
  get_or-blit buf w (take (span - w) src) i,
  length-blit buf w (take (span - w) src),
  get_or-blit (blit buf w (take (span - w) src)) 0 (drop (span - w) src) i,
  length-take (span - w) src,
  length-drop (span - w) src,
  get_or-take (span - w) (i - w) src,
  get_or-drop (span - w) i src,
)

pub length-read_ring :
    (buf : Text) (span p size : ℕ)
    → length buf ≡ span
    → p < span
    → size ≤ span
    → length (read_ring buf span p size) ≡ size
unfolding read_ring
length-read_ring buf span p size hb hp hs = ground (
  arith,
  length-take size (drop p buf),
  length-drop p buf,
  length-append (take (span - p) (drop p buf)) (take (size - (span - p)) buf),
  length-take (span - p) (drop p buf),
  length-take (size - (span - p)) buf,
)

pub get_or-read_ring :
    (buf : Text) (span p size k : ℕ)
    → length buf ≡ span
    → p < span
    → size ≤ span
    → k < size
    → get_or (read_ring buf span p size) k 0 ≡ get_or buf (wrap span (p + k)) 0
unfolding read_ring
get_or-read_ring buf span p size k hb hp hs hk = ground (
  arith,
  get_or-take size k (drop p buf),
  get_or-drop p k buf,
  get_or-append (take (span - p) (drop p buf)) (take (size - (span - p)) buf) k,
  get_or-take (span - p) k (drop p buf),
  get_or-take (size - (span - p)) (k - (span - p)) buf,
  length-take (span - p) (drop p buf),
  length-drop p buf,
)

-- What is written at `w` is read there.
pub read_ring-write_ring :
    (buf : Text) (span w : ℕ) (src : Text)
    → length buf ≡ span
    → w < span
    → length src ≤ span
    → read_ring (write_ring buf span w src) span w (length src) ≡ src
read_ring-write_ring buf span w src hb hw hs =
    eq_of_get_or _ _ (length-read_ring _ span w (length src) hb' hw hs)
      λ i hi. same i (omega (arith, length-read_ring _ span w (length src) hb' hw hs))
  where
    hb' : length (write_ring buf span w src) ≡ span
    hb' = length-write_ring buf span w src ∙ hb

    same :
        (i : ℕ)
        → i < length src
        → get_or (read_ring (write_ring buf span w src) span w (length src)) i 0 ≡ get_or src i 0
    same i hi = ground (
      arith,
      get_or-read_ring (write_ring buf span w src) span w (length src) i hb' hw hs hi,
      get_or-write_ring buf span w src (wrap span (w + i)) hb hw hs,
    )

-- A message of `size` bytes at `p` is read as before if the write begins `d` bytes behind `p`, not
-- before the message's end, and stops before it comes round to `p` again.
pub read_ring-write_ring_apart :
    (buf : Text) (span p size d : ℕ) (src : Text)
    → length buf ≡ span
    → p < span
    → size ≤ d
    → d + length src ≤ span
    → read_ring (write_ring buf span (wrap span (p + d)) src) span p size
      ≡ read_ring buf span p size
read_ring-write_ring_apart buf span p size d src hb hp hd hs =
    eq_of_get_or _ _ (len ∙ sym (length-read_ring buf span p size hb hp (omega arith)))
      λ i hi. same i (omega (arith, len))
  where
    w : ℕ
    w = wrap span (p + d)

    hb' : length (write_ring buf span w src) ≡ span
    hb' = length-write_ring buf span w src ∙ hb

    len : length (read_ring (write_ring buf span w src) span p size) ≡ size
    len = length-read_ring (write_ring buf span w src) span p size hb' hp (omega arith)

    same :
        (i : ℕ)
        → i < size
        → get_or (read_ring (write_ring buf span w src) span p size) i 0
          ≡ get_or (read_ring buf span p size) i 0
    same i hi = ground (
      arith,
      get_or-read_ring (write_ring buf span w src) span p size i hb' hp (omega arith) hi,
      get_or-read_ring buf span p size i hb hp (omega arith) hi,
      get_or-write_ring buf span w src (wrap span (p + i)) hb,
    )
