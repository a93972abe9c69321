-- ===== src/Sdk/Integration.antt =====
-- sdk/integration/config.go, and `startAgent` of integration.go: the configuration of the agent of a
-- process.
pub mod Process
pub mod Laws
pub mod Build
pub mod Start
use opslog.Prelude.{
  ℕ, zero, suc, ◌+◌, ◌-◌, ◌*◌, ◌/◌, ◌%◌, ◌^◌, ◌≤◌, ◌<◌, ◌≡◌, refl, sym, ap, ◌∙◌, ◌≢◌, ◌↔◌, ◌⊎◌, inl,
  inr, Bool, true, false, not, ◌&&◌, ◌||◌, Option, none, some, List, [], ◌∷◌, ◌++◌, map,
  append_assoc, append-nil, arith, ltb, leb, ◌==◌, if◌then◌else◌, ltb→lt, leb→le, ==_iff,
  Bool-cases, Option-cases, length, take, drop, is_nil, select, replicate, any, flatten,
  flatten_snoc, length-replicate, length-append, take-append-drop, length-take, length-drop,
  take-append, drop-append, select-append, append_snoc, All, All-append, All-drop, All-take, Text,
  Error, text, text_eq, text_eq_refl, text_eq_sound, text_eq_iff, has_prefix, contains, has_suffix,
  is_space, trim_left, trim_right, trim_space, utf8_len, has_prefix_sound, has_prefix-append,
  HasPart, contains_sound, contains_complete, CaseMap, ascii_lower, ascii_upper, IsAscii, to_lower,
  to_upper, to_lower_ascii, to_upper_ascii, to_lower_idem, to_upper_idem, ascii, Dict, lookup,
  insert, without, lookup-insert, lookup-without, lookup-insert_self, lookup-append, ℤ, pos, negsuc,
  positive_part, cut_at, trim, trim_prefix, insert-All, lookup-All,
}
use opslog.Api.Csv.{split_commas}
use opslog.Cfg.{Std}
use opslog.Sdk.Policy.{new_level_policy, select_transports}
use opslog.Sdk.Enricher.Diagnostic.{Machine}
use opslog.Sdk.Agent.Options.{
  Agent, Options, attach, new_agent, with_level, with_policy, with_service, with_transport,
  with_version,
}
use opslog.Transport.{Endpoint, new_http_transport, new_udp_transport}

-- `Config`; a nil `BridgeStdlog` is `none`
pub record Config : Type 0 where
  pub enable : Bool
  pub skip : Bool
  pub service : Text
  pub version : Text
  pub level : Text
  pub http_url : Text
  pub http_token : Text
  pub transport : Text
  pub udp_endpoint : Text
  pub bridge_stdlog : Option Bool

unfoldable pub with_enable : Bool → Config → Config
with_enable v c = record c { enable = v }

unfoldable pub with_udp_endpoint : Text → Config → Config
with_udp_endpoint addr c = record c { udp_endpoint = addr }

unfoldable pub with_bridge_stdlog : Bool → Config → Config
with_bridge_stdlog v c = record c { bridge_stdlog = some v }

abbrev default_config : Config
default_config = record {
  enable = false;
  skip = false;
  service = text "app";
  version = [];
  level = text "debug";
  http_url = text "http://127.0.0.1:8600/ingest";
  http_token = [];
  transport = text "http";
  udp_endpoint = text "127.0.0.1:8140";
  bridge_stdlog = none;
}

-- `bridgeEnabled`
unfoldable pub bridge_enabled : Config → Bool
bridge_enabled c = elim c.bridge_stdlog [ none ↦ c.enable | some v ↦ v ]

unfoldable pub apply_options : List (Config → Config) → Config → Config
apply_options [] c = c
apply_options (o ∷ opts) c = apply_options opts (o c)

-- `if v := strings.TrimSpace(os.Getenv(key)); v != "" { … }`, on what os.LookupEnv returns: the new
-- value of a field.
unfoldable pub override : Option Text → Text → Text
override none old = old
override (some v) old = if is_nil (trim_space v) then old else trim_space v

-- The options of an agent.
abbrev pub Settings : Type 0 → Type 0 → Type 0
Settings F C = List (Options F C → Options F C)

abbrev pub level_policy : {F C : Type 0} → CaseMap → Text → Text → Options F C → Options F C
level_policy u def err = with_policy (select_transports u (new_level_policy def err))

abbrev pub no_transport : Error
no_transport = text "sdk/integration: no transport configured"

module _ (u : CaseMap) where
  -- `envTruthy`
  unfoldable pub env_truthy : Text → Bool
  env_truthy v =
      any (text_eq (to_lower u (trim_space v)))
        (text "1" ∷ text "t" ∷ text "true" ∷ text "yes" ∷ text "y" ∷ text "on" ∷ [])

  -- `ConfigFromEnv`
  unfoldable pub config_from_env : (Text → Option Text) → List (Config → Config) → Config
  config_from_env lookup_env opts =
      let c = apply_options opts default_config in
      record c {
        enable = elim (lookup_env (text "OPSLOG_ENABLE")) [
          | none ↦ c.enable
          | some v ↦ env_truthy v
        ];
        service = override (lookup_env (text "OPSLOG_SERVICE")) c.service;
        level = override (lookup_env (text "OPSLOG_LEVEL")) c.level;
        http_url = override (lookup_env (text "OPSLOG_HTTP_URL")) c.http_url;
        http_token = elim (lookup_env (text "OPSLOG_HTTP_TOKEN")) [
          | none ↦ c.http_token
          | some v ↦ trim_space v
        ];
        transport = override (lookup_env (text "OPSLOG_TRANSPORT")) c.transport;
        udp_endpoint = override (lookup_env (text "OPSLOG_ENDPOINT")) c.udp_endpoint;
      }

  -- The loop of `parseTransport`: HTTP and UDP.
  unfoldable pub transports_of : List Text → Bool × Bool → Bool × Bool
  transports_of [] on = on
  transports_of (p ∷ ps) on =
      let t = trim_space p in
      transports_of ps (
        on.0 || (text_eq t (text "http") || text_eq t (text "https")),
        on.1 || text_eq t (text "udp"),
      )

  -- `if !httpOn && !udpOn { return true, false }`
  abbrev pub or_http : Bool × Bool → Bool × Bool
  or_http (false, false) = (true, false)
  or_http (false, true) = (false, true)
  or_http (true, b) = (true, b)

  -- `parseTransport`
  unfoldable pub parse_transport : Text → Bool × Bool
  parse_transport s =
      let l = to_lower u (trim_space s) in
      if is_nil l || (text_eq l (text "both") || text_eq l (text "all"))
      then (true, false)
      else or_http (transports_of (split_commas l) (false, false))

  -- The defaults of `startAgent`.
  unfoldable pub with_defaults : Config → Config
  with_defaults c = record c {
    service = if is_nil c.service then text "app" else c.service;
    level = if is_nil c.level then text "debug" else c.level;
    transport = if is_nil c.transport then text "http" else c.transport;
    http_url = if is_nil c.http_url then text "http://127.0.0.1:8600/ingest" else c.http_url;
  }

  module _ (F C : Type 0) (std : Std) (m : Machine) (fresh : ℕ) where
    -- `append(opts, agent.WithTransport(t))` where the transport is built.
    unfoldable pub add_transport : ℕ → Text → Error ⊎ Endpoint → Error ⊎ Settings F C
    add_transport id prefix (inl e) = inl (prefix ++ e)
    add_transport id prefix (inr t) = inr (with_transport (attach id t) ∷ [])

    -- The HTTP transport, if it is wanted.
    unfoldable pub http_settings : Bool → Config → Error ⊎ Settings F C
    http_settings false c = inr []
    http_settings true c =
        add_transport fresh (text "sdk/integration: http transport: ")
          (new_http_transport std (text "http") c.http_url (c.http_token ∷ []))

    -- The UDP transport, if it is wanted and has an endpoint.
    unfoldable pub udp_settings : Bool → Config → Error ⊎ Settings F C
    udp_settings false c = inr []
    udp_settings true c =
        if is_nil c.udp_endpoint
        then inr []
        else add_transport (fresh + 1) (text "sdk/integration: udp transport: ")
            (new_udp_transport std (text "udp") c.udp_endpoint)

    -- The policy by the transports that there are.
    unfoldable pub policy_settings : Settings F C → Settings F C → Error ⊎ Settings F C
    policy_settings [] [] = inl no_transport
    policy_settings [] (t ∷ ts) = inr (level_policy u (text "udp") (text "udp") ∷ [])
    policy_settings (t ∷ ts) [] = inr (level_policy u (text "http") (text "http") ∷ [])
    policy_settings (t ∷ ts) (v ∷ vs) = inr (level_policy u (text "udp") (text "http") ∷ [])

    unfoldable pub and_then :
        Error ⊎ Settings F C → (Settings F C → Error ⊎ Settings F C) → Error ⊎ Settings F C
    and_then (inl e) f = inl e
    and_then (inr o) f = f o

    unfoldable pub base_settings : Config → Settings F C
    base_settings c =
        with_service c.service
        ∷ with_level c.level
        ∷ (if is_nil c.version then [] else with_version c.version ∷ [])

    -- The options that `startAgent` gives to the agent.
    unfoldable pub agent_options : Config → Error ⊎ Settings F C
    agent_options cfg =
        let c = with_defaults cfg in
        let want = parse_transport c.transport in
        and_then (http_settings want.0 c) (λ https. and_then (udp_settings want.1 c) (λ udps.
          and_then (policy_settings https udps)
            (λ policies. inr (base_settings c ++ (https ++ (udps ++ policies))))))

    unfoldable pub build_with : F → Error ⊎ Settings F C → Error ⊎ Agent F C
    build_with json (inl e) = inl e
    build_with json (inr opts) = new_agent std u m (fresh + 2) json opts

    -- `startAgent` up to `Start`; a formatter of JSON is the agent's default.
    unfoldable pub build_agent : F → Config → Error ⊎ Agent F C
    build_agent json cfg = build_with json (agent_options cfg)
