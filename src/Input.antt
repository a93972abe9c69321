-- ===== src/Input.antt =====
-- server/internal/input/tcp.go: a connection's frames, decoded and dispatched; and the dispatcher
-- of server/internal/app/app.go that the inputs are given.
pub mod Stream
pub mod Servers
pub mod Intake
pub mod Http
use opslog.Prelude.{
  ℕ, zero, suc, ◌+◌, ◌-◌, ◌*◌, ◌/◌, ◌%◌, ◌^◌, ◌≤◌, ◌<◌, ◌≡◌, refl, sym, ap, ◌∙◌, ◌≢◌, ◌↔◌, ◌⊎◌, inl,
  inr, Bool, true, false, not, ◌&&◌, ◌||◌, Option, none, some, List, [], ◌∷◌, ◌++◌, map,
  append_assoc, append-nil, arith, ltb, leb, ◌==◌, if◌then◌else◌, ltb→lt, leb→le, ==_iff,
  Bool-cases, Option-cases, length, take, drop, is_nil, select, replicate, any, flatten,
  flatten_snoc, length-replicate, length-append, take-append-drop, length-take, length-drop,
  take-append, drop-append, select-append, append_snoc, All, All-append, All-drop, All-take, Text,
  Error, text, text_eq, text_eq_refl, text_eq_sound, text_eq_iff, has_prefix, contains, has_suffix,
  is_space, trim_left, trim_right, trim_space, utf8_len, has_prefix_sound, has_prefix-append,
  HasPart, contains_sound, contains_complete, CaseMap, ascii_lower, ascii_upper, IsAscii, to_lower,
  to_upper, to_lower_ascii, to_upper_ascii, to_lower_idem, ascii, Dict, lookup, insert, without,
  lookup-insert, lookup-without, lookup-insert_self, lookup-append,
}
use opslog.Framer.{Bytes, Result, ok, err, read_length_prefixed}
use opslog.Dispatcher.{Dispatched, returned}

-- `publishingDispatcher.Dispatch`, over the states of the dispatcher and of the hub.
then_publish : {A D H : Type 0} → (A → H → H) → A → Option Error × D → H → Option Error × D × H
then_publish publish sig (some e, d) h = (some e, d, h)
then_publish publish sig (none, d) h = (none, d, publish sig h)

unfoldable pub publishing_dispatch :
    {A D H : Type 0} → (A → D → Option Error × D) → (A → H → H) → A → D → H → Option Error × D × H
unfolding then_publish
publishing_dispatch dispatch publish sig d h = then_publish publish sig (dispatch sig d) h

module _ {A S : Type 0} (decode : Bytes → Error ⊎ A) (dispatch : A → S → S) where
  -- The end of one round of `handle`; an error of `Dispatch` is dropped.
  pub add_payload : Error ⊎ A → S → S
  add_payload (inl e) s = s
  add_payload (inr sig) s = dispatch sig s

  -- The loop of `TCP.handle` on what the connection sends before it ends, with the context live. A
  -- frame takes four bytes at least, so the bytes are fuel enough.
  handle_on : ℕ → Bytes → S → S
  unfolding add_payload
  handle_on zero stream s = s
  handle_on (suc fuel) stream s = elim (read_length_prefixed stream) [
    | err e ↦ s
    | ok r ↦ handle_on fuel r.1 (add_payload (decode r.0) s)
  ]

  unfoldable pub handle : Bytes → S → S
  unfolding handle_on
  handle stream s = handle_on (suc (length stream)) stream s
