-- ===== src/Framer.antt =====
-- pkg/framer/length.go: frames of a big-endian uint32 length and a payload.
pub mod RoundTrip
pub mod Errors
use opslog.Prelude.{
  ℕ, zero, suc, ◌+◌, ◌-◌, ◌*◌, ◌/◌, ◌%◌, ◌^◌, ◌≤◌, ◌<◌, ◌≡◌, refl, sym, ap, ◌∙◌, ◌≢◌, ◌↔◌, ◌⊎◌, inl,
  inr, Bool, true, false, not, ◌&&◌, ◌||◌, Option, none, some, List, [], ◌∷◌, ◌++◌, map,
  append_assoc, append-nil, arith, ltb, leb, ◌==◌, if◌then◌else◌, ltb→lt, leb→le, ==_iff,
  Bool-cases, Option-cases, length, take, drop, is_nil, select, replicate, any, flatten,
  flatten_snoc, length-replicate, length-append, take-append-drop, length-take, length-drop,
  take-append, drop-append, select-append, append_snoc, All, All-append, All-drop, All-take, Text,
  Error, text, text_eq, text_eq_refl, text_eq_sound, text_eq_iff, has_prefix, contains, has_suffix,
  is_space, trim_left, trim_right, trim_space, utf8_len, has_prefix_sound, has_prefix-append,
  HasPart, contains_sound, contains_complete, CaseMap, ascii_lower, ascii_upper, IsAscii, to_lower,
  to_upper, to_lower_ascii, to_upper_ascii, to_lower_idem, ascii, Dict, lookup, insert, without,
  lookup-insert, lookup-without, lookup-insert_self, lookup-append,
}

abbrev pub Bytes : Type 0
Bytes = List ℕ

-- 8 << 20
abbrev pub max_frame_size : ℕ
max_frame_size = 8388608

pub data FrameError : Type 0 where
  payload_too_large frame_too_large eof unexpected_eof : FrameError
  write_failed : FrameError

pub data Result {ℓ} (A : Type ℓ) : Type ℓ where
  ok : A → Result A
  err : FrameError → Result A

-- binary.BigEndian.PutUint32
unfoldable pub put_uint32 : ℕ → Bytes
put_uint32 n = (n / 2 ^ 24 % 256) ∷ (n / 2 ^ 16 % 256) ∷ (n / 2 ^ 8 % 256) ∷ (n % 256) ∷ []

-- binary.BigEndian.Uint32; the buffer has four bytes at its only call
unfoldable pub uint32 : Bytes → ℕ
uint32 (a ∷ b ∷ c ∷ d ∷ _) = ((a * 256 + b) * 256 + c) * 256 + d
uint32 _ = 0

-- An io.Writer: a write returns the writer's new state and whether it failed.
unfoldable pub write_length_prefixed {ℓ} :
    {W : Type ℓ} → (W → Bytes → W × Bool) → W → Bytes → W × Option FrameError
unfolding put_uint32
write_length_prefixed write w payload =
    if ltb max_frame_size (length payload)
    then (w, some payload_too_large)
    else (let (w', failed) = write w (put_uint32 (length payload % 2 ^ 32)) in
        if failed
        then (w', some write_failed)
        else (let (w'', failed') = write w' payload in
            (w'', if failed' then some write_failed else none)))

-- io.ReadFull on a reader that has the given bytes left and then ends
unfoldable pub read_full : ℕ → Bytes → Result (Bytes × Bytes)
read_full n s =
    if leb n (length s)
    then ok (take n s, drop n s)
    else if is_nil s
    then err eof
    else err unexpected_eof

read_body : ℕ → Bytes → Result (Bytes × Bytes)
read_body n s = if ltb max_frame_size n then err frame_too_large else read_full n s

then_read_body : Result (Bytes × Bytes) → Result (Bytes × Bytes)
then_read_body (ok (hdr, rest)) = read_body (uint32 hdr) rest
then_read_body (err e) = err e

-- The payload and what is left of the stream.
unfoldable pub read_length_prefixed : Bytes → Result (Bytes × Bytes)
unfolding then_read_body read_body
read_length_prefixed s = then_read_body (read_full 4 s)
