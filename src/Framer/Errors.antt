-- ===== src/Framer/Errors.antt =====
-- What writing refuses, and what reading a broken stream returns.
use opslog.Prelude.{
  ℕ, zero, suc, ◌^◌, ◌≤◌, ◌<◌, ◌≡◌, refl, Bool, ◌||◌, some, [], ◌∷◌, ◌++◌, arith, ◌==◌,
  if◌then◌else◌, length, take, length-append, length-take,
}
use opslog.Framer.{
  Bytes, max_frame_size, err, eof, unexpected_eof, frame_too_large, payload_too_large, put_uint32,
  write_length_prefixed, read_full, read_length_prefixed,
}
use opslog.Framer.RoundTrip.{frame, length-put_uint32, uint32-put_uint32, read_full-append}

-- A payload over the limit is refused, and nothing at all is written, on any writer.
pub write-too_large {ℓ} :
    {W : Type ℓ} (write : W → Bytes → W × Bool) (w : W) (p : Bytes)
    → max_frame_size < length p
    → write_length_prefixed write w p ≡ (w, some payload_too_large)
unfolding write_length_prefixed
write-too_large write w p h = ground arith

-- A header over the limit is refused before any byte of the body is read.
pub read-too_large :
    (n : ℕ) (rest : Bytes)
    → max_frame_size < n
    → n < 2 ^ 32
    → read_length_prefixed (put_uint32 n ++ rest) ≡ err frame_too_large
unfolding read_length_prefixed
read-too_large n rest big fits =
    ground
      (arith, read_full-append (put_uint32 n) rest, length-put_uint32 n, uint32-put_uint32 n fits)

read_full-short :
    (n : ℕ) (s : Bytes)
    → length s < n
    → read_full n s ≡ err (if length s == 0 then eof else unexpected_eof)
unfolding read_full
read_full-short n [] h = ground arith
read_full-short n (b ∷ s) h = ground arith

-- Every proper prefix of a frame ends in an error, never in a payload: `eof` if the stream ends
-- where a header or a body would begin, `unexpected_eof` anywhere else.
pub read-truncated :
    (p : Bytes) (k : ℕ)
    → length p ≤ max_frame_size
    → k < length (frame p)
    → read_length_prefixed (take k (frame p))
      ≡ err (if k == 0 || k == 4 then eof else unexpected_eof)
unfolding read_length_prefixed
read-truncated p zero h lt = ground (arith, read_full-short 4 [])
read-truncated p (suc zero) h lt =
    ground (arith, read_full-short 4 (take 1 (frame p)), length-take 1 (frame p))
read-truncated p (suc (suc zero)) h lt =
    ground (arith, read_full-short 4 (take 2 (frame p)), length-take 2 (frame p))
read-truncated p (suc (suc (suc zero))) h lt =
    ground (arith, read_full-short 4 (take 3 (frame p)), length-take 3 (frame p))
read-truncated p (suc (suc (suc (suc k)))) h lt =
    let header : Bytes = put_uint32 (length p) in
    let four : length header ≡ 4 = length-put_uint32 (length p) in
    let cut : take (suc (suc (suc (suc k)))) (frame p) ≡ header ++ take k p =
      unfold put_uint32 in refl in
    let room : k < length p = omega (arith, length-append header p) in
    rw cut (
      ground (
        arith,
        read_full-append header (take k p),
        uint32-put_uint32 (length p),
        read_full-short (length p) (take k p),
        length-take k p,
      ))
