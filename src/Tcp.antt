-- ===== src/Tcp.antt =====
-- pkg/transport/tcp/tcp.go: a connection that is dialled when it is needed and dropped when a write
-- fails.
pub mod Laws
use opslog.Prelude.{
  ℕ, zero, suc, ◌+◌, ◌-◌, ◌*◌, ◌/◌, ◌%◌, ◌^◌, ◌≤◌, ◌<◌, ◌≡◌, refl, sym, ap, ◌∙◌, ◌≢◌, ◌↔◌, ◌⊎◌, inl,
  inr, Bool, true, false, not, ◌&&◌, ◌||◌, Option, none, some, List, [], ◌∷◌, ◌++◌, map,
  append_assoc, append-nil, arith, ltb, leb, ◌==◌, if◌then◌else◌, ltb→lt, leb→le, ==_iff,
  Bool-cases, Option-cases, length, take, drop, is_nil, select, replicate, any, flatten,
  flatten_snoc, length-replicate, length-append, take-append-drop, length-take, length-drop,
  take-append, drop-append, select-append, append_snoc, All, All-append, All-drop, All-take, Text,
  Error, text, text_eq, text_eq_refl, text_eq_sound, text_eq_iff, has_prefix, contains, has_suffix,
  is_space, trim_left, trim_right, trim_space, utf8_len, has_prefix_sound, has_prefix-append,
  HasPart, contains_sound, contains_complete, CaseMap, ascii_lower, ascii_upper, IsAscii, to_lower,
  to_upper, to_lower_ascii, to_upper_ascii, to_lower_idem, ascii, Dict, lookup, insert, without,
  lookup-insert, lookup-without, lookup-insert_self, lookup-append,
}
use opslog.Framer.{Bytes, FrameError, write_length_prefixed}

-- What the code calls of package net: dialling the address, a write on a connection with whether it
-- failed, and closing. `N` is the state of the network.
pub record Net (C N : Type 0) : Type 0 where
  pub dial : N → (Error ⊎ C) × N
  pub conn_write : C → N → Bytes → N × Bool
  pub close : C → N → N × Option Error

-- `Transport`: the connection, if any, and what `Healthy` returns; with the network.
pub record State (C N : Type 0) : Type 0 where
  pub conn : Option C
  pub ok_flag : Bool
  pub net : N

-- How a call ends; `panicked` is a write to a connection that is nil.
pub data Ending : Type 0 where
  sent panicked : Ending
  dial_failed : Error → Ending
  write_error : FrameError → Ending

module _ {C N : Type 0} (io : Net C N) where
  open io use {dial, conn_write, close}

  add_conn : State C N → (Error ⊎ C) × N → Option Error × State C N
  add_conn s (inl e, n) = (some e, record s { ok_flag = false; net = n })
  add_conn s (inr c, n) = (none, record s { conn = some c; ok_flag = true; net = n })

  -- `ensure`
  ensure_from : Option C → State C N → Option Error × State C N
  unfolding add_conn
  ensure_from (some c) s = (none, s)
  ensure_from none s = add_conn s (dial s.net)

  unfoldable pub ensure : State C N → Option Error × State C N
  unfolding ensure_from
  ensure s = ensure_from s.conn s

  -- `Start` dials in any case; a failure changes nothing but the network.
  start_with : State C N → (Error ⊎ C) × N → Option Error × State C N
  start_with s (inl e, n) = (some e, record s { net = n })
  start_with s (inr c, n) = (none, record s { conn = some c; ok_flag = true; net = n })

  unfoldable pub start : State C N → Option Error × State C N
  unfolding start_with
  start s = start_with s (dial s.net)

  end_write : C → State C N → N × Option FrameError → Ending × State C N
  end_write c s (n, none) = (sent, record s { ok_flag = true; net = n })
  end_write c s (n, some e) =
      (write_error e, record s { conn = none; ok_flag = false; net = (close c n).0 })

  write_to : Option C → Bytes → State C N → Ending × State C N
  unfolding end_write
  write_to none p s = (panicked, s)
  write_to (some c) p s = end_write c s (write_length_prefixed (conn_write c) s.net p)

  -- The part of `Send` under the second lock.
  unfoldable pub locked_write : Bytes → State C N → Ending × State C N
  unfolding write_to
  locked_write p s = write_to s.conn p s

  then_write : Bytes → Option Error × State C N → Ending × State C N
  unfolding locked_write
  then_write p (some e, s) = (dial_failed e, s)
  then_write p (none, s) = locked_write p s

  -- `Send`, with no other call between its two locks
  unfoldable pub send : Bytes → State C N → Ending × State C N
  unfolding then_write ensure
  send p s = then_write p (ensure s)

  stop_unless_sent : Ending × State C N → (State C N → Ending × State C N) → Ending × State C N
  stop_unless_sent (sent, s) next = next s
  stop_unless_sent (e, s) next = (e, s)

  -- `SendBatch`
  unfoldable pub send_batch : List Bytes → State C N → Ending × State C N
  unfolding stop_unless_sent send
  send_batch [] s = (sent, s)
  send_batch (p ∷ ps) s = stop_unless_sent (send p s) (send_batch ps)

  close_conn : Option C → State C N → Option Error × State C N
  close_conn none s = (none, record s { ok_flag = false })
  close_conn (some c) s =
      let (n, e) = close c s.net in (e, record s { conn = none; ok_flag = false; net = n })

  -- `Close`
  unfoldable pub close_transport : State C N → Option Error × State C N
  unfolding close_conn
  close_transport s = close_conn s.conn s
