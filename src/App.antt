-- ===== src/App.antt =====
-- server/internal/app/app.go: the handler of /ingest, and the small helpers beside it.
pub mod Laws
pub mod Build
use opslog.Prelude.{
  ℕ, zero, suc, ◌+◌, ◌-◌, ◌*◌, ◌/◌, ◌%◌, ◌^◌, ◌≤◌, ◌<◌, ◌≡◌, refl, sym, ap, ◌∙◌, ◌≢◌, ◌↔◌, ◌⊎◌, inl,
  inr, Bool, true, false, not, ◌&&◌, ◌||◌, Option, none, some, List, [], ◌∷◌, ◌++◌, map,
  append_assoc, append-nil, arith, ltb, leb, ◌==◌, if◌then◌else◌, ltb→lt, leb→le, ==_iff,
  Bool-cases, Option-cases, length, take, drop, is_nil, select, replicate, any, flatten,
  flatten_snoc, length-replicate, length-append, take-append-drop, length-take, length-drop,
  take-append, drop-append, select-append, append_snoc, All, All-append, All-drop, All-take, Text,
  Error, text, text_eq, text_eq_refl, text_eq_sound, text_eq_iff, has_prefix, contains, has_suffix,
  is_space, trim_left, trim_right, trim_space, utf8_len, has_prefix_sound, has_prefix-append,
  HasPart, contains_sound, contains_complete, CaseMap, ascii_lower, ascii_upper, IsAscii, to_lower,
  to_upper, to_lower_ascii, to_upper_ascii, to_lower_idem, to_upper_idem, ascii, Dict, lookup,
  insert, without, lookup-insert, lookup-without, lookup-insert_self, lookup-append, ℤ, pos, negsuc,
  positive_part, cut_at, trim, trim_prefix, insert-All, lookup-All,
}
use opslog.Framer.{Bytes}
use opslog.Signal.{Time, Event}
use opslog.Codec.{Json, decode_batch_json, json_decode}

-- A request: its method, its Authorization header, the peer's address, and what reading the whole
-- body yields.
pub record IngestRequest : Type 0 where
  pub method : Text
  pub authorization : Text
  pub remote : Text
  pub body : Error ⊎ Bytes

-- 8<<20, where io.LimitReader ends the body
abbrev pub body_limit : ℕ
body_limit = 8388608

-- What the handler is made with and calls: the configured token, encoding/json, the text of a
-- body, the host of net.SplitHostPort, if it has no error, and the clock.
pub record Ingest : Type 0 where
  pub token : Text
  pub json : Json
  pub to_text : Bytes → Text
  pub split_host : Text → Option Text
  pub now : Time

-- `remoteHost`
unfoldable pub remote_host : Ingest → Text → Text
remote_host i addr =
    if is_nil addr then [] else elim (i.split_host addr) [ none ↦ addr | some host ↦ host ]

-- `cfg.HTTP.Token != "" && r.Header.Get("Authorization") != "Bearer "+cfg.HTTP.Token`
unfoldable pub is_refused : Ingest → IngestRequest → Bool
is_refused i r = not (is_nil i.token) && not (text_eq r.authorization (text "Bearer " ++ i.token))

-- An event of a batch that has no host takes the peer's.
unfoldable pub with_host : Ingest → Text → Event → Event
with_host i remote ev = if is_nil ev.host then record ev { host = remote_host i remote } else ev

-- `truncateForLog`; 8230 is the ellipsis
unfoldable pub truncate_for_log : Text → ℕ → Text
truncate_for_log s max =
    if max == 0 || is_nil s then s else if leb (length s) max then s else take max s ++ 8230 ∷ []

module _ {S : Type 0} (i : Ingest) (dispatch : Event → S → S) where
  -- The loop over a batch; an error of `Dispatch` is dropped.
  unfoldable pub dispatch_events : Text → List Event → S → S
  dispatch_events remote [] s = s
  dispatch_events remote (ev ∷ events) s =
      dispatch_events remote events (dispatch (with_host i remote ev) s)

  unfoldable pub ingest_single : Error ⊎ Event → S → ℕ × S
  ingest_single (inl e) s = (400, s)
  ingest_single (inr sig) s = (202, dispatch sig s)

  unfoldable pub ingest_batch : Text → Bytes → Error ⊎ List Event → S → ℕ × S
  unfolding ingest_single dispatch_events
  ingest_batch remote body (inl e) s = ingest_single (json_decode i.json i.now remote body) s
  ingest_batch remote body (inr events) s = (202, dispatch_events remote events s)

  unfoldable pub ingest_body : Text → Error ⊎ Bytes → S → ℕ × S
  unfolding ingest_batch
  ingest_body remote (inl e) s = (400, s)
  ingest_body remote (inr whole) s =
      let body = take body_limit whole in
      ingest_batch remote body (decode_batch_json i.json i.to_text body) s

  -- The handler: the status of the answer, and the state that the dispatches leave.
  unfoldable pub ingest : IngestRequest → S → ℕ × S
  unfolding ingest_body
  ingest r s =
      if not (text_eq r.method (text "POST"))
      then (405, s)
      else if is_refused i r
      then (401, s)
      else ingest_body r.remote r.body s
