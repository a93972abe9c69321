-- ===== src/Transport/Laws.antt =====
-- sdk/transport/helpers.go: what the helpers build, and every other kind of transport.
use opslog.Prelude.{
  ℕ, ◌≡◌, refl, inr, List, [], ◌∷◌, if◌then◌else◌, is_nil, Text, text, text_eq, lookup, insert, ℤ,
  pos,
}
use opslog.Cfg.{Std, get_string, get_duration, value_at}
use opslog.Transport.{
  Endpoint, type_udp, type_tcp, type_http, type_websocket, type_grpc, address_of, name_or, new_http,
  new_ws, new_grpc, new_udp, new_tcp, with_token, new_http_transport, new_ws_transport,
  new_grpc_transport, new_udp_transport, new_tcp_transport,
}

-- The first of the optional tokens.
abbrev pub first_token : List Text → Text
first_token [] = []
first_token (t ∷ _) = t

abbrev built : Text → Text → Text → Text → Text → ℤ → Endpoint
built typ name def address token timeout = record {
  typ = typ;
  name = if is_nil name then def else name;
  address = address;
  token = token;
  timeout = timeout;
}

module _ (std : Std) where
  http_built :
      (name addr : Text) (token : List Text) (c : ℕ)
      → new_http_transport std name (c ∷ addr) token
        ≡ inr (built type_http name (text "http") (c ∷ addr) (first_token token) (pos 5000000000))
  unfolding new_http_transport new_http address_of name_or get_string value_at with_token
      get_duration lookup insert text_eq
  http_built name addr [] c = refl
  http_built name addr ([] ∷ ts) c = refl
  http_built name addr ((d ∷ t) ∷ ts) c = refl

  ws_built :
      (name addr : Text) (token : List Text) (c : ℕ)
      → new_ws_transport std name (c ∷ addr) token
        ≡ inr (built type_websocket name (text "websocket") (c ∷ addr) (first_token token) (pos 0))
  unfolding new_ws_transport new_ws address_of name_or get_string value_at with_token lookup insert
      text_eq
  ws_built name addr [] c = refl
  ws_built name addr ([] ∷ ts) c = refl
  ws_built name addr ((d ∷ t) ∷ ts) c = refl

  grpc_built :
      (name addr : Text) (token : List Text) (c : ℕ)
      → new_grpc_transport std name (c ∷ addr) token
        ≡ inr (built type_grpc name (text "grpc") (c ∷ addr) (first_token token) (pos 0))
  unfolding new_grpc_transport new_grpc address_of name_or get_string value_at with_token lookup
      insert text_eq
  grpc_built name addr [] c = refl
  grpc_built name addr ([] ∷ ts) c = refl
  grpc_built name addr ((d ∷ t) ∷ ts) c = refl

  -- For an address that is not empty each of the five helpers builds its kind of transport, under
  -- the name given or else the kind's own, with the first of the optional tokens, which UDP and TCP
  -- have no place for; HTTP alone gets a timeout, five seconds.
  pub helpers_build :
      (name addr : Text) (token : List Text) (c : ℕ)
      → (new_http_transport std name (c ∷ addr) token
          ≡ inr
              (built type_http name (text "http") (c ∷ addr) (first_token token) (pos 5000000000)))
        × (new_ws_transport std name (c ∷ addr) token
            ≡ inr (
                built type_websocket name
                  (text "websocket")
                  (c ∷ addr)
                  (first_token token)
                  (pos 0)))
        × (new_grpc_transport std name (c ∷ addr) token
            ≡ inr (built type_grpc name (text "grpc") (c ∷ addr) (first_token token) (pos 0)))
        × (new_udp_transport std name (c ∷ addr)
            ≡ inr (built type_udp name (text "udp") (c ∷ addr) [] (pos 0)))
        × (new_tcp_transport std name (c ∷ addr)
            ≡ inr (built type_tcp name (text "tcp") (c ∷ addr) [] (pos 0)))
  unfolding new_udp_transport new_udp new_tcp_transport new_tcp address_of name_or get_string
      value_at lookup text_eq
  helpers_build name addr token c = (
    http_built name addr token c,
    ws_built name addr token c,
    grpc_built name addr token c,
    refl,
    refl,
  )
