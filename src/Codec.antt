-- ===== src/Codec.antt =====
-- pkg/codec/json.go and server/internal/decoder/json.go: from payloads to events. encoding/json and
-- the parsing of times are a parameter.
pub mod Laws
use opslog.Prelude.{
  ℕ, zero, suc, ◌+◌, ◌-◌, ◌*◌, ◌/◌, ◌%◌, ◌^◌, ◌≤◌, ◌<◌, ◌≡◌, refl, sym, ap, ◌∙◌, ◌≢◌, ◌↔◌, ◌⊎◌, inl,
  inr, Bool, true, false, not, ◌&&◌, ◌||◌, Option, none, some, List, [], ◌∷◌, ◌++◌, map,
  append_assoc, append-nil, arith, ltb, leb, ◌==◌, if◌then◌else◌, ltb→lt, leb→le, ==_iff,
  Bool-cases, Option-cases, length, take, drop, is_nil, select, replicate, any, flatten,
  flatten_snoc, length-replicate, length-append, take-append-drop, length-take, length-drop,
  take-append, drop-append, select-append, append_snoc, All, All-append, All-drop, All-take, Text,
  Error, text, text_eq, text_eq_refl, text_eq_sound, text_eq_iff, has_prefix, contains, has_suffix,
  is_space, trim_left, trim_right, trim_space, utf8_len, has_prefix_sound, has_prefix-append,
  HasPart, contains_sound, contains_complete, CaseMap, ascii_lower, ascii_upper, IsAscii, to_lower,
  to_upper, to_lower_ascii, to_upper_ascii, to_lower_idem, ascii, Dict, lookup, insert, without,
  lookup-insert, lookup-without, lookup-insert_self, lookup-append,
}
use opslog.Framer.{Bytes}
use opslog.Signal.{Time, is_zero_time, Value, Event, empty_event, kind_log}

-- What the code uses of encoding/json, on a raw message, and of time.Parse. `unmarshal_text` and
-- `unmarshal_attrs` are json.Unmarshal into a variable: its new value, and whether it failed.
pub record Json : Type 0 where
  pub unmarshal_object : Bytes → Error ⊎ Dict Bytes
  pub unmarshal_array : Bytes → Error ⊎ List Bytes
  pub unmarshal_envelope : Bytes → Error ⊎ List Bytes
  pub unmarshal_text : Bytes → Text → Text × Bool
  pub unmarshal_attrs : Bytes → Option (Dict Value) → Option (Dict Value)
  pub parse_nano : Text → Option Time
  pub parse_rfc3339 : Text → Option Time

module _ (json : Json) where
  -- `if v, ok := raw[key]; ok { _ = json.Unmarshal(v, &field) }` on a field that is empty
  text_field : Option Bytes → Text
  text_field none = []
  text_field (some v) = (json.unmarshal_text v []).0

  kind_field : Option Bytes → Text
  unfolding text_field
  kind_field v = let k = text_field v in if is_nil k then kind_log else k

  time_of : Option Time → Option Time → Time
  time_of (some t) _ = t
  time_of none (some t) = t
  time_of none none = 0

  time_field : Option Bytes → Time
  unfolding time_of
  time_field none = 0
  time_field (some v) =
      let (ts, failed) = json.unmarshal_text v [] in
      if not failed && not (is_nil ts)
      then time_of (json.parse_nano ts) (json.parse_rfc3339 ts)
      else 0

  -- `msg`, and `message` where there is no `msg`
  message_field : Option Bytes → Option Bytes → Text
  unfolding text_field
  message_field (some v) _ = (json.unmarshal_text v []).0
  message_field none w = text_field w

  attrs_field : Option Bytes → Option (Dict Value)
  attrs_field none = none
  attrs_field (some v) = json.unmarshal_attrs v none

  pub event_of : Bytes → Dict Bytes → Event
  unfolding kind_field time_field text_field message_field attrs_field
  event_of payload raw = record {
    kind = kind_field (lookup (text "kind") raw);
    time = time_field (lookup (text "ts") raw);
    level = text_field (lookup (text "level") raw);
    service = text_field (lookup (text "service") raw);
    host = text_field (lookup (text "host") raw);
    message = message_field (lookup (text "msg") raw) (lookup (text "message") raw);
    trace_id = text_field (lookup (text "trace_id") raw);
    attrs = attrs_field (lookup (text "attrs") raw);
    raw = some payload;
  }

  -- `DecodeJSON`
  unfoldable pub decode_json : Bytes → Error ⊎ Event
  unfolding event_of
  decode_json payload = elim (json.unmarshal_object payload) [
    | inl e ↦ inl e
    | inr raw ↦ inr (event_of payload raw)
  ]

  -- `DecodePlain`; the text of the bytes is a parameter, since a byte that is not UTF-8 has none.
  unfoldable pub decode_plain : (Bytes → Text) → Time → Bytes → Event
  decode_plain to_text now payload = record empty_event {
    kind = kind_log;
    time = now;
    level = text "info";
    message = trim_space (to_text payload);
    raw = some payload;
  }

  add_decoded : Error ⊎ Event → Error ⊎ List Event → Error ⊎ List Event
  add_decoded (inl e) _ = inl e
  add_decoded (inr ev) (inl e) = inl e
  add_decoded (inr ev) (inr evs) = inr (ev ∷ evs)

  -- The loop of `DecodeBatchJSON`: the first item that does not decode fails the batch.
  unfoldable pub decode_items : List Bytes → Error ⊎ List Event
  unfolding add_decoded decode_json
  decode_items [] = inr []
  decode_items (item ∷ items) = add_decoded (decode_json item) (decode_items items)

  -- The envelope, if it parses and has events, and else a single event.
  decode_envelope : Error ⊎ List Bytes → Bytes → Error ⊎ List Event
  unfolding decode_items add_decoded decode_json
  decode_envelope (inr (item ∷ items)) payload = decode_items (item ∷ items)
  decode_envelope _ payload = add_decoded (decode_json payload) (inr [])

  decode_array : Error ⊎ List Bytes → Error ⊎ List Event
  unfolding decode_items
  decode_array (inl e) = inl e
  decode_array (inr items) = decode_items items

  -- `DecodeBatchJSON`
  unfoldable pub decode_batch_json : (Bytes → Text) → Bytes → Error ⊎ List Event
  unfolding decode_envelope decode_array
  decode_batch_json to_text payload =
      let trim = trim_space (to_text payload) in
      if is_nil trim
      then inl (text "codec: empty payload")
      else if has_prefix trim (text "[")
      then decode_array (json.unmarshal_array payload)
      else decode_envelope (json.unmarshal_envelope payload) payload

-- `strings.LastIndex(s, ":")` and `strings.Count(s, ":")`; 58 is the colon
unfoldable pub last_colon : Text → Option ℕ
last_colon [] = none
last_colon (c ∷ s) = elim (last_colon s) as (λ _. Option ℕ) [
  | some i ↦ some (suc i)
  | none ↦ if c == 58 then some 0 else none
]

unfoldable pub count_colons : Text → ℕ
count_colons [] = 0
count_colons (c ∷ s) = let rest = count_colons s in if c == 58 then suc rest else rest

-- `strings.Index(s, "]:")`
unfoldable pub bracket_colon : Text → Option ℕ
unfolding has_prefix
bracket_colon [] = none
bracket_colon (c ∷ s) =
    let rest = bracket_colon s in
    if has_prefix (c ∷ s) (text "]:")
    then some 0
    else elim rest as (λ _. Option ℕ) [ none ↦ none | some i ↦ some (suc i) ]

strip_at : Text → Option ℕ → Option ℕ → Text
strip_at addr (some (suc i)) bracket =
    if count_colons addr == 1
    then take (suc i) addr
    else elim bracket [ none ↦ addr | some br ↦ take (br + 1) addr ]
strip_at addr _ bracket = addr

-- `stripPort`
unfoldable pub strip_port : Text → Text
unfolding strip_at
strip_port addr = strip_at addr (last_colon addr) (bracket_colon addr)

-- `JSON.Decode`, after its error
pub with_source : Time → Text → Event → Event
with_source now remote ev = record ev {
  host = if is_nil ev.host && not (is_nil remote) then strip_port remote else ev.host;
  time = if is_zero_time ev.time then now else ev.time;
}

unfoldable pub json_decode : Json → Time → Text → Bytes → Error ⊎ Event
unfolding with_source
json_decode json now remote payload = elim (decode_json json payload) [
  | inl e ↦ inl e
  | inr ev ↦ inr (with_source now remote ev)
]

-- `Plain.Decode`
unfoldable pub plain_decode : Json → (Bytes → Text) → Time → Text → Bytes → Event
plain_decode json to_text now remote payload =
    let ev = decode_plain json to_text now payload in
    record ev { host = if not (is_nil remote) then strip_port remote else ev.host }
