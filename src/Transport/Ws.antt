-- ===== src/Transport/Ws.antt =====
-- pkg/transport/ws/ws.go: a WebSocket connection that is dialled when it is needed.
use opslog.Prelude.{
  ◌≡◌, refl, ap, ◌⊎◌, inl, inr, Bool, true, false, Option, none, some, ◌++◌, if◌then◌else◌, is_nil,
  Text, Error, text,
}
use opslog.Framer.{Bytes}
use opslog.Transport.{Endpoint}

-- What the code calls of the WebSocket library: dialling with the token, writing a text message and
-- closing. `N` is the state of the network.
pub record Sockets (C N : Type 0) : Type 0 where
  pub dial_url : Text → Option Text → N → (Error ⊎ C) × N
  pub conn_write : C → Bytes → N → Option Error × N
  pub conn_close : C → N → Option Error × N

pub record State (C N : Type 0) : Type 0 where
  pub conn : Option C
  pub ok_flag : Bool
  pub net : N

-- How a send ends; `panicked` is a write on a connection that is nil.
pub data Ending : Type 0 where
  sent panicked : Ending
  failed : Error → Ending

module _ {C N : Type 0} (io : Sockets C N) (t : Endpoint) where
  open io use {dial_url, conn_write, conn_close}

  unfoldable pub authorization : Option Text
  authorization = if is_nil t.token then none else some (text "Bearer " ++ t.token)

  -- The old connection is closed.
  unfoldable pub close_old : Option C → N → N
  close_old none n = n
  close_old (some c) n = (conn_close c n).1

  unfoldable pub dialled : State C N → (Error ⊎ C) × N → Option Error × State C N
  dialled s (inl e, n) = (some e, record s { ok_flag = false; net = n })
  dialled s (inr c, n) = (none, record { conn = some c; ok_flag = true; net = close_old s.conn n })

  -- `dial`, which `Start` returns
  unfoldable pub dial : State C N → Option Error × State C N
  dial s = dialled s (dial_url t.address authorization s.net)

  -- The end of `Send`: a failed write closes its connection and empties the field, whatever
  -- connection the field holds by then.
  unfoldable pub written : C → State C N → Option Error × N → Ending × State C N
  written c s (none, n) = (sent, record s { ok_flag = true; net = n })
  written c s (some e, n) =
      (failed e, record { conn = none; ok_flag = false; net = (conn_close c n).1 })

  -- The write of a `Send` that read this connection under the lock.
  unfoldable pub write_on : Option C → Bytes → State C N → Ending × State C N
  write_on none p s = (panicked, s)
  write_on (some c) p s = written c s (conn_write c p s.net)

  -- The second reading of the field.
  unfoldable pub then_write : Bytes → Option Error × State C N → Ending × State C N
  then_write p (some e, s) = (failed e, s)
  then_write p (none, s) = write_on s.conn p s

  unfoldable pub send_on : Option C → Bytes → State C N → Ending × State C N
  send_on (some c) p s = write_on (some c) p s
  send_on none p s = then_write p (dial s)

  -- `Send`, with no other call between its locks
  unfoldable pub send : Bytes → State C N → Ending × State C N
  send p s = send_on s.conn p s

  unfoldable pub close_with : Option Error × N → Option Error × State C N
  close_with (e, n) = (e, record { conn = none; ok_flag = false; net = n })

  unfoldable pub close_on : Option C → State C N → Option Error × State C N
  close_on none s = (none, record s { ok_flag = false })
  close_on (some c) s = close_with (conn_close c s.net)

  -- `Close`
  unfoldable pub close : State C N → Option Error × State C N
  close s = close_on s.conn s

  -- After a send that succeeded the transport has a connection and is healthy; after one that failed
  -- it is not healthy and has none.
  pub IsSettled : Ending × State C N → Type 0
  IsSettled (sent, s) = (c : C) × (s.conn ≡ some c) × (s.ok_flag ≡ true)
  IsSettled (panicked, s) = ⊥
  IsSettled (failed e, s) = (s.conn ≡ none) × (s.ok_flag ≡ false)

  written-IsSettled :
      (c : C) (s : State C N) (r : Option Error × N) → s.conn ≡ some c → IsSettled (written c s r)
  unfolding written IsSettled
  written-IsSettled c s (none, n) e = (c, e, refl)
  written-IsSettled c s (some x, n) e = (refl, refl)

  then_write-IsSettled :
      (p : Bytes) (s : State C N) (r : (Error ⊎ C) × N)
      → s.conn ≡ none
      → IsSettled (then_write p (dialled s r))
  unfolding then_write dialled write_on IsSettled
  then_write-IsSettled p s (inl x, n) e = (e, refl)
  then_write-IsSettled p s (inr c, n) e = written-IsSettled c _ _ refl

  send_on-IsSettled :
      (o : Option C) (p : Bytes) (s : State C N) → s.conn ≡ o → IsSettled (send_on o p s)
  unfolding send_on write_on dial
  send_on-IsSettled none p s e = then_write-IsSettled p s (dial_url t.address authorization s.net) e
  send_on-IsSettled (some c) p s e = written-IsSettled c s (conn_write c p s.net) e

  -- A send that no other call interrupts does not panic, and leaves the transport settled: connected
  -- and healthy if it succeeded, without a connection and not healthy if it failed.
  pub send-IsSettled : (p : Bytes) (s : State C N) → IsSettled (send p s)
  unfolding send
  send-IsSettled p s = send_on-IsSettled s.conn p s refl

  -- A write that fails on a connection that is no longer the transport's empties the field all the
  -- same: the connection that another send has dialled meanwhile is neither kept nor closed, since
  -- the network sees the write and the closing of the old one only.
  pub stale_write_drops :
      (old new : C) (p : Bytes) (s : State C N) (e : Error)
      → s.conn ≡ some new
      → (conn_write old p s.net).0 ≡ some e
      → let out = write_on (some old) p s in
        (out.0 ≡ failed e)
        × (out.1.conn ≡ none)
        × (out.1.net ≡ (conn_close old (conn_write old p s.net).1).1)
  unfolding write_on written
  stale_write_drops old new p s e held fails = dropped (conn_write old p s.net) fails
    where
      dropped :
          (r : Option Error × N)
          → r.0 ≡ some e
          → ((written old s r).0 ≡ failed e)
            × ((written old s r).1.conn ≡ none)
            × ((written old s r).1.net ≡ (conn_close old r.1).1)
      dropped (none, n) h = cc
      dropped (some x, n) h = ((let same : x ≡ e = cc in ap failed same), refl, refl)
