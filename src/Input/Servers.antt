-- ===== src/Input/Servers.antt =====
-- server/internal/input: the UDP, HTTP, WebSocket and gRPC inputs, and the handler of /stream in
-- server/internal/app/app.go.
use opslog.Prelude.{
  ℕ, ◌+◌, ◌%◌, ◌^◌, ◌⊎◌, inl, inr, not, ◌&&◌, Option, none, some, List, [], ◌∷◌, ◌++◌,
  if◌then◌else◌, take, is_nil, Text, Error, text, text_eq,
}
use opslog.Framer.{Bytes}
use opslog.Cfg.{Std, Config, get_string}

-- `UDP`, `TCP`, `HTTP`, `WebSocket` and `GRPC` as their constructors leave them; the path and the
-- token are those of HTTP and WebSocket only.
pub record Input : Type 0 where
  pub typ : Text
  pub name : Text
  pub listen : Text
  pub path : Text
  pub token : Text

module _ (std : Std) where
  -- The constructors with a decoder that is not nil.
  unfoldable pub new_udp : Text → Config → Input
  new_udp name cfg = record {
    typ = text "udp";
    name = if is_nil name then text "udp" else name;
    listen = get_string std cfg (text "listen") (text ":8140");
    path = [];
    token = [];
  }

  unfoldable pub new_grpc : Text → Config → Input
  new_grpc name cfg = record {
    typ = text "grpc";
    name = if is_nil name then text "grpc" else name;
    listen = get_string std cfg (text "listen") (text ":8900");
    path = [];
    token = [];
  }

  unfoldable pub new_http : Text → Config → Input
  new_http name cfg = record {
    typ = text "http";
    name = if is_nil name then text "http" else name;
    listen = get_string std cfg (text "listen") (text ":8600");
    path = get_string std cfg (text "path") (text "/ingest");
    token = get_string std cfg (text "token") [];
  }

  unfoldable pub new_websocket : Text → Config → Input
  new_websocket name cfg = record {
    typ = text "websocket";
    name = if is_nil name then text "websocket" else name;
    listen = get_string std cfg (text "listen") (text ":8600");
    path = get_string std cfg (text "path") (text "/stream");
    token = get_string std cfg (text "token") [];
  }

-- What a round of the UDP loop meets: its context done, an error of the read, which is the deadline
-- most times, or a datagram.
pub data Round : Type 0 where
  done failed : Round
  datagram : Text → Bytes → Round

-- `buf := make([]byte, 65535)`: a longer datagram is cut.
abbrev pub buffer_size : ℕ
buffer_size = 65535

-- The int32 that is one more, by its two's complement.
abbrev pub add_int32 : ℕ → ℕ
add_int32 n = (n + 1) % 2 ^ 32

-- The number that a reply adds; an error adds none.
abbrev pub amount : Error ⊎ ℕ → ℕ
amount (inl e) = 0
amount (inr k) = k

module _ {A S : Type 0} (decode : Text → Bytes → Error ⊎ A)
    (dispatch : A → S → Option Error × S) where
  -- A decoded signal is dispatched, and its error dropped; an undecodable one is skipped.
  unfoldable pub deliver : Error ⊎ A → S → S
  deliver (inl e) s = s
  deliver (inr sig) s = (dispatch sig s).1

  -- The loop of `UDP.Start`, on the rounds until now
  unfoldable pub udp_loop : List Round → S → S
  udp_loop [] s = s
  udp_loop (done ∷ rounds) s = s
  udp_loop (failed ∷ rounds) s = udp_loop rounds s
  udp_loop (datagram remote payload ∷ rounds) s =
      udp_loop rounds (deliver (decode remote (take buffer_size payload)) s)

  -- The loop of a WebSocket connection, on the messages that it reads before reading fails
  unfoldable pub socket_loop : Text → List Bytes → S → S
  socket_loop remote [] s = s
  socket_loop remote (data_ ∷ rest) s = socket_loop remote rest (deliver (decode remote data_) s)

  -- The handler of a WebSocket input, and of /stream: 401, or what accepting the connection comes to.
  unfoldable pub stream_handler : Text → Text → Text → Option (List Bytes) → S → Option ℕ × S
  stream_handler token authorization remote accepted s =
      if not (is_nil token) && not (text_eq authorization (text "Bearer " ++ token))
      then (some 401, s)
      else elim accepted [
        | none ↦ (none, s)
        | some messages ↦ (none, socket_loop remote messages s)
      ]

  unfoldable pub grpc_dispatched : Option Error × S → (Error ⊎ ℕ) × S
  grpc_dispatched (some e, s) = (inl e, s)
  grpc_dispatched (none, s) = (inr 1, s)

  unfoldable pub grpc_decoded : Error ⊎ A → S → (Error ⊎ ℕ) × S
  grpc_decoded (inl e) s = (inl e, s)
  grpc_decoded (inr sig) s = grpc_dispatched (dispatch sig s)

  -- `Send` of the gRPC server: an error, or the number accepted
  unfoldable pub grpc_send : Text → Bytes → S → (Error ⊎ ℕ) × S
  grpc_send remote payload s = grpc_decoded (decode remote payload) s

  unfoldable pub counted : ℕ → Option Error × S → ℕ × S
  counted n (some e, s) = (n, s)
  counted n (none, s) = (add_int32 n, s)

  -- A round of `SendStream`: an undecodable payload counts nothing.
  unfoldable pub stream_round : Error ⊎ A → ℕ × S → ℕ × S
  stream_round (inl e) r = r
  stream_round (inr sig) (n, s) = counted n (dispatch sig s)

  unfoldable pub stream_from : Text → List Bytes → ℕ × S → ℕ × S
  stream_from remote [] r = r
  stream_from remote (p ∷ ps) r = stream_from remote ps (stream_round (decode remote p) r)

  -- `SendStream` on the payloads that come before receiving ends: the reply's number
  unfoldable pub grpc_send_stream : Text → List Bytes → S → ℕ × S
  grpc_send_stream remote payloads s = stream_from remote payloads (0, s)

  -- The numbers accepted when the payloads are sent one by one with `Send`, and the state afterwards.
  unfoldable pub send_all : Text → List Bytes → S → ℕ × S
  send_all remote [] s = (0, s)
  send_all remote (p ∷ ps) s =
      let (r, s') = grpc_send remote p s in
      let (n, s'') = send_all remote ps s' in (amount r + n, s'')
