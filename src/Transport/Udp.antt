-- ===== src/Transport/Udp.antt =====
-- pkg/transport/udp/udp.go: datagrams on a socket that `Start` opens.
use opslog.Prelude.{
  ◌≡◌, refl, ap, ◌∙◌, ◌⊎◌, inl, inr, Bool, true, false, Option, none, some, List, [], Text, Error,
  text,
}
use opslog.Framer.{Bytes}
use opslog.Transport.{Endpoint, send_each}

-- What the code calls of package net: resolving and dialling an address, a write of a datagram, and
-- closing. `N` is the state of the network.
pub record Net (C N : Type 0) : Type 0 where
  pub dial_udp : Text → N → (Error ⊎ C) × N
  pub conn_write : C → Bytes → N → Option Error × N
  pub conn_close : C → N → Option Error × N

pub record State (C N : Type 0) : Type 0 where
  pub conn : Option C
  pub ok_flag : Bool
  pub net : N

abbrev pub not_started : Error
not_started = text "udp transport: not started"

module _ {C N : Type 0} (io : Net C N) (t : Endpoint) where
  open io use {dial_udp, conn_write, conn_close}

  started : State C N → (Error ⊎ C) × N → Option Error × State C N
  started s (inl e, n) = (some e, record s { net = n })
  started s (inr c, n) = (none, record { conn = some c; ok_flag = true; net = n })

  -- `Start`
  unfoldable pub start : State C N → Option Error × State C N
  unfolding started
  start s = started s (dial_udp t.address s.net)

  written : State C N → Option Error × N → Option Error × State C N
  written s (some e, n) = (some e, record s { ok_flag = false; net = n })
  written s (none, n) = (none, record s { ok_flag = true; net = n })

  send_on : Option C → Bytes → State C N → Option Error × State C N
  unfolding written
  send_on none p s = (some not_started, s)
  send_on (some c) p s = written s (conn_write c p s.net)

  -- `Send`
  unfoldable pub send : Bytes → State C N → Option Error × State C N
  unfolding send_on
  send p s = send_on s.conn p s

  -- `SendBatch`
  unfoldable pub send_batch : List Bytes → State C N → Option Error × State C N
  send_batch = send_each send

  closed : State C N → Option Error × N → Option Error × State C N
  closed s (e, n) = (e, record s { ok_flag = false; net = n })

  close_on : Option C → State C N → Option Error × State C N
  unfolding closed
  close_on none s = (none, record s { ok_flag = false })
  close_on (some c) s = closed s (conn_close c s.net)

  -- `Close` keeps the connection that it closed.
  unfoldable pub close : State C N → Option Error × State C N
  unfolding close_on
  close s = close_on s.conn s

  send_on_conn : (o : Option C) (p : Bytes) (s : State C N) → (send_on o p s).1.conn ≡ s.conn
  unfolding send_on
  send_on_conn none p s = refl
  send_on_conn (some c) p s = kept (conn_write c p s.net)
    where
      kept : (r : Option Error × N) → (written s r).1.conn ≡ s.conn
      kept (none, n) = refl
      kept (some e, n) = refl

  close_on_conn : (o : Option C) (s : State C N) → (close_on o s).1.conn ≡ s.conn
  unfolding close_on closed
  close_on_conn none s = refl
  close_on_conn (some c) s = refl

  -- Neither sending nor closing changes which connection the transport holds.
  pub conn_kept :
      (p : Bytes) (s : State C N) → ((send p s).1.conn ≡ s.conn) × ((close s).1.conn ≡ s.conn)
  unfolding send close
  conn_kept p s = (send_on_conn s.conn p s, close_on_conn s.conn s)

  close_conn :
      (s : State C N) (c : C)
      → s.conn ≡ some c
      → ((close s).0 ≡ (conn_close c s.net).0) × ((close s).1.net ≡ (conn_close c s.net).1)
  unfolding close close_on closed
  close_conn s c e = (ap (λ o. (close_on o s).0) e, ap (λ o. (close_on o s).1.net) e)

  -- A second `Close` closes the same connection again and returns what that gives.
  pub close_twice :
      (s : State C N) (c : C)
      → s.conn ≡ some c
      → (close (close s).1).0 ≡ (conn_close c (conn_close c s.net).1).0
  close_twice s c e =
      (close_conn (close s).1 c ((conn_kept [] s).1 ∙ e)).0
      ∙ ap (λ n. (conn_close c n).0) (close_conn s c e).1
