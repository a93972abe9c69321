-- ===== src/Transport/Grpc.antt =====
-- pkg/transport/grpctx/grpc.go: a client that the first send makes, and that closing drops.
use opslog.Prelude.{
  ◌≡◌, refl, sym, ap, ◌∙◌, ◌↔◌, ◌⊎◌, inl, inr, Bool, true, false, Option, none, some, List, ◌++◌,
  if◌then◌else◌, is_nil, Text, Error, text,
}
use opslog.Framer.{Bytes}
use opslog.Transport.{Endpoint, send_each}

-- What the code calls of the gRPC library: a client for an address, the call `Send` with the token
-- as metadata, and closing the client's connection. `N` is the state of the network.
pub record Rpc (C N : Type 0) : Type 0 where
  pub new_client : Text → N → (Error ⊎ C) × N
  pub call_send : C → Option Text → Bytes → N → Option Error × N
  pub conn_close : C → N → Option Error × N

-- `conn` and `client` are set and dropped together.
pub record State (C N : Type 0) : Type 0 where
  pub client : Option C
  pub ok_flag : Bool
  pub net : N

module _ {C N : Type 0} (io : Rpc C N) (t : Endpoint) where
  open io use {new_client, call_send, conn_close}

  unfoldable pub started : State C N → (Error ⊎ C) × N → Option Error × State C N
  started s (inl e, n) = (some e, record s { net = n })
  started s (inr c, n) = (none, record { client = some c; ok_flag = true; net = n })

  -- `Start`
  unfoldable pub start : State C N → Option Error × State C N
  start s = started s (new_client t.address s.net)

  unfoldable pub authorization : Option Text
  authorization = if is_nil t.token then none else some (text "Bearer " ++ t.token)

  unfoldable pub called : State C N → Option Error × N → Option Error × State C N
  called s (some e, n) = (some e, record s { ok_flag = false; net = n })
  called s (none, n) = (none, record s { ok_flag = true; net = n })

  unfoldable pub call_with : C → Bytes → State C N → Option Error × State C N
  call_with c p s = called s (call_send c authorization p s.net)

  -- `Send` goes on with the client that `Start` has made.
  unfoldable pub after_start : Bytes → State C N → (Error ⊎ C) × N → Option Error × State C N
  after_start p s (inl e, n) = (some e, record s { net = n })
  after_start p s (inr c, n) = call_with c p (record { client = some c; ok_flag = true; net = n })

  unfoldable pub send_on : Option C → Bytes → State C N → Option Error × State C N
  send_on (some c) p s = call_with c p s
  send_on none p s = after_start p s (new_client t.address s.net)

  -- `Send`, with no other call between its locks
  unfoldable pub send : Bytes → State C N → Option Error × State C N
  send p s = send_on s.client p s

  -- `SendBatch`
  unfoldable pub send_batch : List Bytes → State C N → Option Error × State C N
  send_batch = send_each send

  unfoldable pub closed : Option Error × N → Option Error × State C N
  closed (e, n) = (e, record { client = none; ok_flag = false; net = n })

  unfoldable pub close_on : Option C → State C N → Option Error × State C N
  close_on none s = (none, record s { ok_flag = false })
  close_on (some c) s = closed (conn_close c s.net)

  -- `Close`
  unfoldable pub close : State C N → Option Error × State C N
  close s = close_on s.client s

  called_lem :
      (s : State C N) (r : Option Error × N)
      → ((called s r).0 ≡ r.0)
        × ((called s r).1.client ≡ s.client)
        × (((called s r).1.ok_flag ≡ true) ↔ (r.0 ≡ none))
  unfolding called
  called_lem s (none, n) = (refl, refl, (λ h. refl, λ h. refl))
  called_lem s (some e, n) = (refl, refl, (λ h. cc, λ h. cc))

  -- With a client, a send is one call with the token: it fails exactly as the call does, it keeps
  -- the client whether it fails or not, and the transport is healthy afterwards exactly if it
  -- succeeded.
  pub send_with_client :
      (c : C) (p : Bytes) (s : State C N)
      → s.client ≡ some c
      → let answer = call_send c authorization p s.net in
        let out = send p s in
        (out.0 ≡ answer.0) × (out.1.client ≡ some c) × ((out.1.ok_flag ≡ true) ↔ (out.0 ≡ none))
  unfolding send send_on call_with
  send_with_client c p s e =
      let (same, kept, healthy) = called_lem s (call_send c authorization p s.net) in
      let step : send p s ≡ called s (call_send c authorization p s.net) =
        ap (λ o. send_on o p s) e in
      rw step (same, kept ∙ e, rw same healthy)

  close_on_drops :
      (o : Option C) (s : State C N)
      → s.client ≡ o
      → ((close_on o s).1.client ≡ none) × ((close_on o s).1.ok_flag ≡ false)
  unfolding close_on closed
  close_on_drops none s e = (e, refl)
  close_on_drops (some c) s e = (refl, refl)

  -- Closing drops the client, so that a second close does nothing and returns no error, and a later
  -- send makes a client again.
  pub close_once :
      (s : State C N)
      → let s' = (close s).1 in
        (s'.client ≡ none)
        × (close s' ≡ (none, s'))
        × ((p : Bytes) → send p s' ≡ after_start p s' (new_client t.address s'.net))
  unfolding close send send_on close_on
  close_once s =
      let (gone, off) = close_on_drops s.client s refl in
      (
        gone,
        again (close_on s.client s).1 gone off,
        λ p. ap (λ o. send_on o p (close_on s.client s).1) gone,
      )
    where
      again :
          (s' : State C N)
          → s'.client ≡ none
          → s'.ok_flag ≡ false
          → close_on s'.client s' ≡ (none, s')
      again s' g o =
          ap (λ q. close_on q s') g ∙ ap (λ (b : Bool). (none, record s' { ok_flag = b })) (sym o)
