-- ===== src/Input/Intake.antt =====
-- server/internal/input/grpc.go and udp.go: a stream against single calls, and what a loop delivers.
use opslog.Prelude.{
  ℕ, ◌+◌, ◌%◌, ◌^◌, ◌≡◌, refl, ap, ◌∙◌, ◌⊎◌, inl, inr, Option, none, some, List, [], ◌∷◌, arith,
  take, Text, Error,
}
use opslog.Framer.{Bytes}
use opslog.Input.Servers.{
  Round, done, failed, datagram, buffer_size, deliver, udp_loop, grpc_dispatched, grpc_decoded,
  grpc_send, counted, stream_round, stream_from, grpc_send_stream, amount, send_all,
}

module _ {A S : Type 0} (decode : Text → Bytes → Error ⊎ A)
    (dispatch : A → S → Option Error × S) where
  round_dispatched :
      (r : Option Error × S) (n : ℕ)
      → let c = counted decode dispatch n r in
        (c.1 ≡ (grpc_dispatched decode dispatch r).1)
        × (c.0 % 2 ^ 32 ≡ (n + amount (grpc_dispatched decode dispatch r).0) % 2 ^ 32)
  unfolding counted grpc_dispatched
  round_dispatched (some e, s) n = (refl, omega arith)
  round_dispatched (none, s) n = (refl, omega arith)

  round_sent :
      (d : Error ⊎ A) (n : ℕ) (s : S)
      → let c = stream_round decode dispatch d (n, s) in
        (c.1 ≡ (grpc_decoded decode dispatch d s).1)
        × (c.0 % 2 ^ 32 ≡ (n + amount (grpc_decoded decode dispatch d s).0) % 2 ^ 32)
  unfolding stream_round grpc_decoded
  round_sent (inl e) n s = (refl, omega arith)
  round_sent (inr sig) n s = round_dispatched (dispatch sig s) n

  stream_from_lem :
      (remote : Text) (ps : List Bytes) (n : ℕ) (s : S)
      → let r = stream_from decode dispatch remote ps (n, s) in
        let one_by_one = send_all decode dispatch remote ps s in
        (r.1 ≡ one_by_one.1) × (r.0 % 2 ^ 32 ≡ (n + one_by_one.0) % 2 ^ 32)
  unfolding stream_from send_all grpc_send
  stream_from_lem remote [] n s = (refl, omega arith)
  stream_from_lem remote (p ∷ ps) n s =
      let c = stream_round decode dispatch (decode remote p) (n, s) in
      let (same, one) = round_sent (decode remote p) n s in
      let (state, rest) = stream_from_lem remote ps c.0 c.1 in
      let moved = ap (λ t. (send_all decode dispatch remote ps t).0) same in
      (
        state ∙ ap (λ t. (send_all decode dispatch remote ps t).1) same,
        omega (arith, one, rest, moved),
      )

  -- A stream of payloads has the effect of sending them one by one, errors of a payload or of its
  -- dispatch stopping neither; its reply counts the payloads that single calls would have accepted,
  -- modulo the 2 ^ 32 at which its int32 wraps.
  pub grpc_send_stream_lem :
      (remote : Text) (ps : List Bytes) (s : S)
      → let r = grpc_send_stream decode dispatch remote ps s in
        let one_by_one = send_all decode dispatch remote ps s in
        (r.1 ≡ one_by_one.1) × (r.0 % 2 ^ 32 ≡ one_by_one.0 % 2 ^ 32)
  unfolding grpc_send_stream
  grpc_send_stream_lem remote ps s =
      let (state, number) = stream_from_lem remote ps 0 s in (state, omega (arith, number))

  -- The datagrams that arrive before the context is done.
  abbrev pub before_done : List Round → List (Text × Bytes)
  before_done [] = []
  before_done (done ∷ rounds) = []
  before_done (failed ∷ rounds) = before_done rounds
  before_done (datagram remote payload ∷ rounds) = (remote, payload) ∷ before_done rounds

  -- Dispatches what decodes of a list of datagrams, in order.
  abbrev pub deliver_each : List (Text × Bytes) → S → S
  deliver_each [] s = s
  deliver_each (d ∷ ds) s =
      deliver_each ds (deliver decode dispatch (decode d.0 (take buffer_size d.1)) s)

  -- The UDP loop dispatches what decodes of the datagrams that arrive before its context is done, each
  -- cut to the buffer, in order: errors of reading, of decoding and of dispatching stop nothing.
  pub udp_loop_lem :
      (rounds : List Round) (s : S)
      → udp_loop decode dispatch rounds s ≡ deliver_each (before_done rounds) s
  unfolding udp_loop
  udp_loop_lem [] s = refl
  udp_loop_lem (done ∷ rounds) s = refl
  udp_loop_lem (failed ∷ rounds) s = udp_loop_lem rounds s
  udp_loop_lem (datagram remote payload ∷ rounds) s =
      udp_loop_lem rounds (deliver decode dispatch (decode remote (take buffer_size payload)) s)
