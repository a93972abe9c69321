-- ===== src/Transport.antt =====
-- pkg/transport and sdk/transport: the kinds of transports, and building one from a configuration.
pub mod Httpx
pub mod Ws
pub mod Udp
pub mod Grpc
pub mod Laws
use opslog.Prelude.{
  ℕ, zero, suc, ◌+◌, ◌-◌, ◌*◌, ◌/◌, ◌%◌, ◌^◌, ◌≤◌, ◌<◌, ◌≡◌, refl, sym, ap, ◌∙◌, ◌≢◌, ◌↔◌, ◌⊎◌, inl,
  inr, Bool, true, false, not, ◌&&◌, ◌||◌, Option, none, some, List, [], ◌∷◌, ◌++◌, map,
  append_assoc, append-nil, arith, ltb, leb, ◌==◌, if◌then◌else◌, ltb→lt, leb→le, ==_iff,
  Bool-cases, Option-cases, length, take, drop, is_nil, select, replicate, any, flatten,
  flatten_snoc, length-replicate, length-append, take-append-drop, length-take, length-drop,
  take-append, drop-append, select-append, append_snoc, All, All-append, All-drop, All-take, Text,
  Error, text, text_eq, text_eq_refl, text_eq_sound, text_eq_iff, has_prefix, contains, has_suffix,
  is_space, trim_left, trim_right, trim_space, utf8_len, has_prefix_sound, has_prefix-append,
  HasPart, contains_sound, contains_complete, CaseMap, ascii_lower, ascii_upper, IsAscii, to_lower,
  to_upper, to_lower_ascii, to_upper_ascii, to_lower_idem, to_upper_idem, ascii, Dict, lookup,
  insert, without, lookup-insert, lookup-without, lookup-insert_self, lookup-append, ℤ, pos, negsuc,
  positive_part, cut_at, trim, trim_prefix, insert-All, lookup-All,
}
use opslog.Cfg.{Std, Config, string, get_string, get_duration}
use opslog.Framer.{Bytes}
use opslog.Sdk.Agent.{on_error}

-- `type Type string`, and its five known values
abbrev pub type_udp : Text
type_udp = text "udp"

abbrev pub type_tcp : Text
type_tcp = text "tcp"

abbrev pub type_http : Text
type_http = text "http"

abbrev pub type_websocket : Text
type_websocket = text "websocket"

abbrev pub type_grpc : Text
type_grpc = text "grpc"

-- `Type.Valid`
unfoldable pub is_valid_type : Text → Bool
is_valid_type t =
    text_eq t type_udp
    || text_eq t type_tcp
    || text_eq t type_http
    || text_eq t type_websocket
    || text_eq t type_grpc

-- What `New` of a transport's package stores; a package stores only what it has fields for.
pub record Endpoint : Type 0 where
  pub typ : Text
  pub name : Text
  pub address : Text
  pub token : Text
  pub timeout : ℤ

-- A transport's `SendBatch` as a loop of `Send` over its state: it stops at the first error.
unfoldable pub send_each :
    {S : Type 0} → (Bytes → S → Option Error × S) → List Bytes → S → Option Error × S
send_each send [] s = (none, s)
send_each send (p ∷ ps) s = on_error (send p s) (λ s'. send_each send ps s') (λ e s'. (some e, s'))

module _ (std : Std) where
  -- The two reads at the head of every `New`.
  unfoldable pub address_of : Text → Config → Text
  address_of key cfg =
      let address = get_string std cfg key [] in
      if is_nil address then get_string std cfg (text "endpoint") [] else address

  unfoldable pub name_or : Text → Text → Text
  name_or name def = if is_nil name then def else name

  -- `httpx.New`
  unfoldable pub new_http : Text → Config → Error ⊎ Endpoint
  new_http name cfg =
      let url = address_of (text "url") cfg in
      if is_nil url
      then inl (text "http transport: url is required")
      else inr (record {
        typ = type_http;
        name = name_or name (text "http");
        address = url;
        token = get_string std cfg (text "token") [];
        timeout = get_duration std cfg (text "timeout") (pos 5000000000);
      })

  -- `ws.New`
  unfoldable pub new_ws : Text → Config → Error ⊎ Endpoint
  new_ws name cfg =
      let url = address_of (text "url") cfg in
      if is_nil url
      then inl (text "websocket transport: url is required")
      else inr (record {
        typ = type_websocket;
        name = name_or name (text "websocket");
        address = url;
        token = get_string std cfg (text "token") [];
        timeout = pos 0;
      })

  -- `grpctx.New`
  unfoldable pub new_grpc : Text → Config → Error ⊎ Endpoint
  new_grpc name cfg =
      let addr = address_of (text "addr") cfg in
      if is_nil addr
      then inl (text "grpc transport: addr is required")
      else inr (record {
        typ = type_grpc;
        name = name_or name (text "grpc");
        address = addr;
        token = get_string std cfg (text "token") [];
        timeout = pos 0;
      })

  -- `udp.New`
  unfoldable pub new_udp : Text → Config → Error ⊎ Endpoint
  new_udp name cfg =
      let addr = address_of (text "addr") cfg in
      if is_nil addr
      then inl (text "udp transport: addr is required")
      else inr (record {
        typ = type_udp;
        name = name_or name (text "udp");
        address = addr;
        token = [];
        timeout = pos 0;
      })

  -- `tcp.New`
  unfoldable pub new_tcp : Text → Config → Error ⊎ Endpoint
  new_tcp name cfg =
      let addr = address_of (text "addr") cfg in
      if is_nil addr
      then inl (text "tcp transport: addr is required")
      else inr (record {
        typ = type_tcp;
        name = name_or name (text "tcp");
        address = addr;
        token = [];
        timeout = pos 0;
      })

  -- The map that a helper fills; of the optional tokens the first counts, if it is not empty.
  unfoldable pub with_token : Config → List Text → Config
  with_token cfg [] = cfg
  with_token cfg (t ∷ _) = if is_nil t then cfg else insert (text "token") (string t) cfg

  -- `NewUDPTransport`
  unfoldable pub new_udp_transport : Text → Text → Error ⊎ Endpoint
  new_udp_transport name addr = new_udp name ((text "addr", string addr) ∷ [])

  -- `NewTCPTransport`
  unfoldable pub new_tcp_transport : Text → Text → Error ⊎ Endpoint
  new_tcp_transport name addr = new_tcp name ((text "addr", string addr) ∷ [])

  -- `NewHTTPTransport`
  unfoldable pub new_http_transport : Text → Text → List Text → Error ⊎ Endpoint
  new_http_transport name url token =
      new_http name (with_token ((text "url", string url) ∷ []) token)

  -- `NewWebSocketTransport`
  unfoldable pub new_ws_transport : Text → Text → List Text → Error ⊎ Endpoint
  new_ws_transport name url token = new_ws name (with_token ((text "url", string url) ∷ []) token)

  -- `NewGRPCTransport`
  unfoldable pub new_grpc_transport : Text → Text → List Text → Error ⊎ Endpoint
  new_grpc_transport name addr token =
      new_grpc name (with_token ((text "addr", string addr) ∷ []) token)

  -- `NewTransport`
  unfoldable pub new_transport : Text → Text → Config → Error ⊎ Endpoint
  new_transport typ name cfg =
      if text_eq typ type_udp
      then new_udp name cfg
      else if text_eq typ type_tcp
      then new_tcp name cfg
      else if text_eq typ type_http
      then new_http name cfg
      else if text_eq typ type_websocket
      then new_ws name cfg
      else if text_eq typ type_grpc
      then new_grpc name cfg
      else new_udp name cfg
