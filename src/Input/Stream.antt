-- ===== src/Input/Stream.antt =====
-- From a client's framed writes to the server's dispatch.
use opslog.Prelude.{
  ℕ, zero, suc, ◌≤◌, ◌<◌, ◌≡◌, refl, sym, ◌⊎◌, List, [], ◌∷◌, ◌++◌, append_assoc, append-nil, arith,
  length, take, length-append, All, Error,
}
use mathlib.Core.List.{foldl}
use opslog.Framer.{
  Bytes, max_frame_size, err, FrameError, put_uint32, write_length_prefixed, read_length_prefixed,
}
use opslog.Framer.RoundTrip.{append_writer, frame, write-frame, read-frame, length-put_uint32}
use opslog.Framer.Errors.{read-truncated}
use opslog.Input.{add_payload, handle_on, handle}

-- A client that writes payloads one after another.
abbrev pub write_frames : Bytes → List Bytes → Bytes
write_frames w [] = w
write_frames w (p ∷ ps) = write_frames (write_length_prefixed append_writer w p).0 ps

-- The wire form of some payloads.
abbrev pub frames : List Bytes → Bytes
frames [] = []
frames (p ∷ ps) = frame p ++ frames ps

abbrev pub Fits : Bytes → Type 0
Fits p = length p ≤ max_frame_size

write_frames_lem : (w : Bytes) (ps : List Bytes) → All Fits ps → write_frames w ps ≡ w ++ frames ps
write_frames_lem w [] h = sym (append-nil w)
write_frames_lem w (p ∷ ps) (one, h) =
    rw (write-frame w p one, write_frames_lem (w ++ frame p) ps h)
      (append_assoc w (frame p) (frames ps))

module _ {A S : Type 0} (decode : Bytes → Error ⊎ A) (dispatch : A → S → S) where
  -- The payloads that decode, dispatched in order.
  abbrev pub dispatch_all : S → List Bytes → S
  dispatch_all s ps = foldl (λ t p. add_payload decode dispatch (decode p) t) s ps

  handle_on-frames :
      (fuel : ℕ) (ps : List Bytes) (tail : Bytes) (s : S) (e : FrameError)
      → All Fits ps
      → length ps < fuel
      → read_length_prefixed tail ≡ err e
      → handle_on decode dispatch fuel (frames ps ++ tail) s ≡ dispatch_all s ps
  unfolding handle_on
  handle_on-frames zero ps tail s e h l r = absurd (omega arith)
  handle_on-frames (suc fuel) [] tail s e h l r = rw (r, handle_on) refl
  handle_on-frames (suc fuel) (p ∷ ps) tail s e (one, h) l r =
      rw (append_assoc (frame p) (frames ps) tail, read-frame p (frames ps ++ tail) one, handle_on)
        (handle_on-frames fuel ps tail (add_payload decode dispatch (decode p) s) e h (omega arith)
          r)

  length-frames : (ps : List Bytes) → length ps ≤ length (frames ps)
  length-frames [] = omega arith
  length-frames (p ∷ ps) =
      let four : length (put_uint32 (length p)) ≡ 4 = length-put_uint32 (length p) in
      omega (
        arith,
        length-frames ps,
        length-append (frame p) (frames ps),
        length-append (put_uint32 (length p)) p,
        four,
      )

  -- What a client frames and writes, the server's connection handler decodes and dispatches: every
  -- payload within the limit, once, in the order of the writes, leaving out just those that do not
  -- decode; and a connection that breaks inside a later frame costs no payload before it.
  pub handle-write_frames :
      (ps : List Bytes) (next : Bytes) (cut : ℕ) (s : S)
      → All Fits ps
      → Fits next
      → cut < length (frame next)
      → handle decode dispatch (write_frames [] ps ++ take cut (frame next)) s ≡ dispatch_all s ps
  unfolding handle
  handle-write_frames ps next cut s h n c =
      let tail : Bytes = take cut (frame next) in
      rw (write_frames_lem [] ps h) (
        handle_on-frames (suc (length (frames ps ++ tail))) ps tail s _ h
          (omega (arith, length-frames ps, length-append (frames ps) tail))
          (read-truncated next cut n c))
