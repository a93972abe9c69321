-- ===== src/Tests/Ingest.antt =====
-- Payloads, addresses and connections.
use opslog.Prelude.{
  ◌≡◌, ◌⊎◌, inl, inr, false, none, some, [], ◌∷◌, ◌++◌, arith, if◌then◌else◌, take, Error, text,
  has_prefix,
}
use opslog.Framer
use opslog.Framer.{Bytes}
use opslog.Framer.RoundTrip.{frame}
use opslog.Signal.{Event, empty_event}
use opslog.Codec.{Json}
use opslog.Input.{handle}
use opslog.Input.Stream.{write_frames, dispatch_all, handle-write_frames}

-- A codec whose objects are bytes that begin with 123, with the payload itself as the message.
abbrev toy : Json
toy = record {
  unmarshal_object = λ b.
      if has_prefix b (123 ∷ []) then inr ((text "msg", b) ∷ []) else inl (text "not an object");
  unmarshal_array = λ b. inr (b ∷ []);
  unmarshal_envelope = λ b. inr [];
  unmarshal_text = λ b s. (b, false);
  unmarshal_attrs = λ b m. m;
  parse_nano = λ s. none;
  parse_rfc3339 = λ s. none;
}

abbrev object : Bytes
object = 123 ∷ 125 ∷ []

abbrev decoded : Event
decoded = record empty_event {
  kind = text "log";
  time = 7;
  host = text "10.0.0.1";
  message = object;
  raw = some object;
}

abbrev decode : Bytes → Error ⊎ Bytes
decode b = if has_prefix b (123 ∷ []) then inr b else inl (text "not an object")

-- A connection that sends two payloads, of which the first does not decode, and breaks in a third.
handle-write_frames_example :
    handle decode
      (λ sig s. sig ∷ s)
      (write_frames [] ((9 ∷ []) ∷ object ∷ []) ++ take 3 (frame object))
      []
    ≡ dispatch_all decode (λ sig s. sig ∷ s) [] ((9 ∷ []) ∷ object ∷ [])
unfolding Framer.put_uint32
handle-write_frames_example =
    handle-write_frames decode (λ sig s. sig ∷ s) ((9 ∷ []) ∷ object ∷ []) object 3 []
      (omega arith, (omega arith, tt)) (omega arith) (omega arith)
