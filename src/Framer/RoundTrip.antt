-- ===== src/Framer/RoundTrip.antt =====
-- Frames that are written are read back, alone and in a stream.
use opslog.Prelude.{
  ℕ, ◌^◌, ◌≤◌, ◌<◌, ◌≡◌, refl, sym, Bool, false, none, [], ◌∷◌, ◌++◌, append_assoc, arith, length,
  length-append, take-append-drop, length-take, take-append, drop-append, All,
}
use opslog.Framer.{
  Bytes, max_frame_size, Result, ok, err, put_uint32, uint32, write_length_prefixed, read_full,
  read_body, read_length_prefixed, then_read_body,
}

-- A writer that never fails, such as a buffer.
abbrev pub append_writer : Bytes → Bytes → Bytes × Bool
append_writer w b = (w ++ b, false)

-- What a frame of the payload looks like on the wire.
abbrev pub frame : Bytes → Bytes
frame p = put_uint32 (length p) ++ p

abbrev pub IsByte : ℕ → Type 0
IsByte b = b < 256

pub length-put_uint32 : (n : ℕ) → length (put_uint32 n) ≡ 4
unfolding put_uint32
length-put_uint32 n = refl

All-left : (s t : Bytes) → All IsByte (s ++ t) → All IsByte s
All-left [] t h = tt
All-left (b ∷ s) t (p, h) = (p, All-left s t h)

pub uint32-put_uint32 : (n : ℕ) → n < 2 ^ 32 → uint32 (put_uint32 n) ≡ n
unfolding uint32 put_uint32
uint32-put_uint32 n h = omega arith

pub write-frame :
    (w p : Bytes)
    → length p ≤ max_frame_size
    → write_length_prefixed append_writer w p ≡ (w ++ frame p, none)
unfolding write_length_prefixed
write-frame w p h = ground (arith, append_assoc w (put_uint32 (length p)) p)

pub read_full-append : (s t : Bytes) → read_full (length s) (s ++ t) ≡ ok (s, t)
unfolding read_full
read_full-append s t = ground (arith, length-append s t, take-append s t, drop-append s t)

pub read-frame :
    (p rest : Bytes)
    → length p ≤ max_frame_size
    → read_length_prefixed (frame p ++ rest) ≡ ok (p, rest)
unfolding read_length_prefixed
read-frame p rest h =
    let header : Bytes = put_uint32 (length p) in
    rw (append_assoc header p rest) (
      ground (
        arith,
        read_full-append header (p ++ rest),
        length-put_uint32 (length p),
        uint32-put_uint32 (length p),
        read_full-append p rest,
      ))

pub read_full-eq-ok :
    (n : ℕ) (s a b : Bytes) → read_full n s ≡ ok (a, b) → (a ++ b ≡ s) × (length a ≡ n)
unfolding read_full
read_full-eq-ok n s a b e = ground (arith, take-append-drop n s, length-take n s)

put_uint32-uint32 : (b : Bytes) → length b ≡ 4 → All IsByte b → put_uint32 (uint32 b) ≡ b
unfolding put_uint32 uint32
put_uint32-uint32 (a ∷ b ∷ c ∷ d ∷ []) n h = ground arith
put_uint32-uint32 [] n h = absurd (omega arith)
put_uint32-uint32 (a ∷ []) n h = absurd (omega arith)
put_uint32-uint32 (a ∷ b ∷ []) n h = absurd (omega arith)
put_uint32-uint32 (a ∷ b ∷ c ∷ []) n h = absurd (omega arith)
put_uint32-uint32 (a ∷ b ∷ c ∷ d ∷ e ∷ s) n h = absurd (omega arith)

read_body-eq-ok :
    (n : ℕ) (s p rest : Bytes)
    → read_body n s ≡ ok (p, rest)
    → (p ++ rest ≡ s) × (length p ≡ n) × (length p ≤ max_frame_size)
unfolding read_body
read_body-eq-ok n s p rest e = ground (arith, read_full-eq-ok n s p rest)

-- A successful read took a header and a body.
read-parts :
    (s p rest : Bytes)
    → read_length_prefixed s ≡ ok (p, rest)
    → (hdr : Bytes) × (more : Bytes) × (read_full 4 s ≡ ok (hdr, more))
      × (read_body (uint32 hdr) more ≡ ok (p, rest))
unfolding read_length_prefixed
read-parts s p rest e = go (read_full 4 s) refl e
  where
    go :
        (r : Result (Bytes × Bytes))
        → read_full 4 s ≡ r
        → then_read_body r ≡ ok (p, rest)
        → (hdr : Bytes) × (more : Bytes) × (read_full 4 s ≡ ok (hdr, more))
          × (read_body (uint32 hdr) more ≡ ok (p, rest))
    go (ok (hdr, more)) q h = (hdr, more, q, h)
    go (err x) q h = cc

-- Reading accepts nothing but what writing makes: the bytes read are the frame of the payload.
pub frame-read :
    (s p rest : Bytes)
    → All IsByte s
    → read_length_prefixed s ≡ ok (p, rest)
    → (s ≡ frame p ++ rest) × (length p ≤ max_frame_size)
frame-read s p rest h e =
    let (hdr, more, first, second) = read-parts s p rest e in
    let (split, four) = read_full-eq-ok 4 s hdr more first in
    let (body, size, bound) = read_body-eq-ok (uint32 hdr) more p rest second in
    let bytes : All IsByte hdr = All-left hdr more (rw split h) in
    (
      rw (append_assoc (put_uint32 (length p)) p rest, body, size, put_uint32-uint32 hdr four bytes)
          (sym split),
      bound,
    )

-- What is written for a payload within the limit is read back as that payload, and the reader stops
-- at the first byte after it, so a stream of frames is read frame by frame.
pub write_then_read :
    (w p rest : Bytes)
    → length p ≤ max_frame_size
    → (s : Bytes) × (write_length_prefixed append_writer w p ≡ (w ++ s, none))
      × (read_length_prefixed (s ++ rest) ≡ ok (p, rest))
write_then_read w p rest h = (frame p, write-frame w p h, read-frame p rest h)
