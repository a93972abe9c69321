-- ===== src/Sdk/Agent/Options.antt =====
-- sdk/agent/options.go, and `NewAgent` of agent.go.
pub mod Laws
use opslog.Prelude.{
  ℕ, zero, suc, ◌+◌, ◌-◌, ◌*◌, ◌/◌, ◌%◌, ◌^◌, ◌≤◌, ◌<◌, ◌≡◌, refl, sym, ap, ◌∙◌, ◌≢◌, ◌↔◌, ◌⊎◌, inl,
  inr, Bool, true, false, not, ◌&&◌, ◌||◌, Option, none, some, List, [], ◌∷◌, ◌++◌, map,
  append_assoc, append-nil, arith, ltb, leb, ◌==◌, if◌then◌else◌, ltb→lt, leb→le, ==_iff,
  Bool-cases, Option-cases, length, take, drop, is_nil, select, replicate, any, flatten,
  flatten_snoc, length-replicate, length-append, take-append-drop, length-take, length-drop,
  take-append, drop-append, select-append, append_snoc, All, All-append, All-drop, All-take, Text,
  Error, text, text_eq, text_eq_refl, text_eq_sound, text_eq_iff, has_prefix, contains, has_suffix,
  is_space, trim_left, trim_right, trim_space, utf8_len, has_prefix_sound, has_prefix-append,
  HasPart, contains_sound, contains_complete, CaseMap, ascii_lower, ascii_upper, IsAscii, to_lower,
  to_upper, to_lower_ascii, to_upper_ascii, to_lower_idem, to_upper_idem, ascii, Dict, lookup,
  insert, without, lookup-insert, lookup-without, lookup-insert_self, lookup-append, ℤ, pos, negsuc,
  positive_part, cut_at, trim, trim_prefix, insert-All, lookup-All,
}
use opslog.Cfg.{Std}
use opslog.Signal.{Event, Signal}
use opslog.Sdk.Policy.{Transport, new_level_policy, select_transports}
use opslog.Sdk.Agent.{Hook}
use opslog.Sdk.Enricher.Diagnostic.{Diagnostic, Machine, new_diagnostic, with_env_keys}
use opslog.Transport.{Endpoint, new_http_transport}

-- A `sdk.Policy`
abbrev pub Policy : Type 0
Policy = Event → List Transport → List Transport

-- A hook of the agent: the diagnostic enricher, or one that the program gives.
pub data AgentHook : Type 0 where
  diagnostic : Diagnostic → AgentHook
  custom : Hook Signal → AgentHook

-- `options`, for a type of formatters and one of collectors; the fields that no code reads are left
-- out. A nil policy is `none`; durations are in nanoseconds.
pub record Options (F C : Type 0) : Type 0 where
  pub service : Text
  pub host : Text
  pub version : Text
  pub git_sha : Text
  pub min_level : Text
  pub queue_size : ℤ
  pub formatter : F
  pub policy : Option Policy
  pub hooks : List AgentHook
  pub collectors : List C
  pub transports : List Transport
  pub interval : ℤ
  pub endpoint : Text
  pub token : Text
  pub diagnostic_enabled : Bool
  pub diagnostic_opts : List (Diagnostic → Diagnostic)

-- The agent as `NewAgent` leaves it; `queue_size` is the capacity of its channel.
pub record Agent (F C : Type 0) : Type 0 where
  pub service : Text
  pub host : Text
  pub min_level : Text
  pub formatter : F
  pub policy : Policy
  pub hooks : List AgentHook
  pub collectors : List C
  pub transports : List Transport
  pub interval : ℤ
  pub queue_size : ℕ

-- `normalizeHTTPIngestURL`
unfoldable pub normalize_http_ingest_url : Text → Text
normalize_http_ingest_url endpoint =
    let e = trim_space endpoint in
    if is_nil e
    then text "http://127.0.0.1:8600/ingest"
    else if has_prefix e (text "http://") || has_prefix e (text "https://")
    then e
    else text "http://" ++ (trim_prefix e (text "tcp://") ++ text "/ingest")

-- `if o.policy == nil { o.policy = … }`
abbrev pub or_policy : Option Policy → Policy → Policy
or_policy none p = p
or_policy (some q) p = q

unfoldable pub level_policy : CaseMap → Text → Policy
level_policy u name = select_transports u (new_level_policy name name)

-- A transport that is built here has an identity of its own.
unfoldable pub attach : ℕ → Endpoint → Transport
attach fresh e = record { id = fresh; name = e.name; typ = e.typ }

-- `if v != "" { diagOpts = append(diagOpts, …) }`
abbrev pub option_if : Text → (Diagnostic → Diagnostic) → List (Diagnostic → Diagnostic)
option_if v f = if is_nil v then [] else f ∷ []

-- `if o.queueSize <= 0 { o.queueSize = 2048 }`
unfoldable pub capacity : ℤ → ℕ
capacity n = if 0 == positive_part n then 2048 else positive_part n

unfoldable pub no_transport : Error
no_transport =
    text "sdk/agent: at least one transport is required (use WithEndpoint or WithTransport)"

module _ {F C : Type 0} where
  unfoldable pub default_options : F → Options F C
  default_options json = record {
    service = [];
    host = [];
    version = [];
    git_sha = [];
    min_level = text "debug";
    queue_size = pos 2048;
    formatter = json;
    policy = none;
    hooks = [];
    collectors = [];
    transports = [];
    interval = pos 15000000000;
    endpoint = [];
    token = [];
    diagnostic_enabled = true;
    diagnostic_opts = [];
  }

  unfoldable pub with_service : Text → Options F C → Options F C
  with_service service o = record o { service = service }

  unfoldable pub with_version : Text → Options F C → Options F C
  with_version version o = record o { version = version }

  unfoldable pub with_level : Text → Options F C → Options F C
  with_level level o = record o { min_level = level }

  unfoldable pub with_queue_size : ℤ → Options F C → Options F C
  with_queue_size n o = record o { queue_size = n }

  unfoldable pub with_policy : Policy → Options F C → Options F C
  with_policy p o = record o { policy = some p }

  unfoldable pub with_hook : Hook Signal → Options F C → Options F C
  with_hook h o = record o { hooks = o.hooks ++ custom h ∷ [] }

  unfoldable pub without_diagnostic_enricher : Options F C → Options F C
  without_diagnostic_enricher o = record o { diagnostic_enabled = false }

  unfoldable pub with_diagnostic_enricher :
      List (Diagnostic → Diagnostic) → Options F C → Options F C
  with_diagnostic_enricher opts o = record o {
    diagnostic_enabled = true;
    diagnostic_opts = o.diagnostic_opts ++ opts;
  }

  unfoldable pub with_collector : C → Options F C → Options F C
  with_collector c o = record o { collectors = o.collectors ++ c ∷ [] }

  unfoldable pub with_transport : Transport → Options F C → Options F C
  with_transport t o = record o { transports = o.transports ++ t ∷ [] }

  unfoldable pub with_endpoint : Text → Options F C → Options F C
  with_endpoint endpoint o = record o { endpoint = endpoint }

  unfoldable pub with_token : Text → Options F C → Options F C
  with_token token o = record o { token = token }

  unfoldable pub apply_options : List (Options F C → Options F C) → Options F C → Options F C
  apply_options [] o = o
  apply_options (f ∷ fs) o = apply_options fs (f o)

  -- The names of the service and of the host, where they are not given.
  unfoldable pub with_names : Text → Options F C → Options F C
  with_names hostname o = record o {
    service = if is_nil o.service then text "app" else o.service;
    host = if is_nil o.host then hostname else o.host;
  }

  module _ (std : Std) (u : CaseMap) (m : Machine) (fresh : ℕ) where
    unfoldable pub attach_http : Options F C → Error ⊎ Endpoint → Error ⊎ Options F C
    attach_http o (inl e) = inl (text "sdk/agent: http transport: " ++ e)
    attach_http o (inr t) = inr (record o {
      transports = o.transports ++ attach fresh t ∷ [];
      policy = some (or_policy o.policy (level_policy u (text "http")));
    })

    -- The transport of the endpoint.
    unfoldable pub add_endpoint : Options F C → Error ⊎ Options F C
    add_endpoint o =
        if is_nil o.endpoint
        then inr o
        else attach_http o (
            new_http_transport std (text "http") (normalize_http_ingest_url o.endpoint)
              (o.token ∷ []))

    -- The hooks, the diagnostic one first.
    unfoldable pub all_hooks : Options F C → List AgentHook
    all_hooks o =
        if o.diagnostic_enabled
        then diagnostic (
            new_diagnostic u
              (o.diagnostic_opts
                ++ ((λ d. record d { service = o.service })
                    ∷ (option_if o.version (λ d. record d { version = o.version })
                        ++ option_if o.git_sha (λ d. record d { git_sha = o.git_sha }))))
              m)
          ∷ o.hooks
        else o.hooks

    unfoldable pub make_agent : Options F C → List Transport → Error ⊎ Agent F C
    make_agent o [] = inl no_transport
    make_agent o (t ∷ ts) = inr (record {
      service = o.service;
      host = o.host;
      min_level = o.min_level;
      formatter = o.formatter;
      policy = or_policy o.policy (level_policy u t.name);
      hooks = all_hooks o;
      collectors = o.collectors;
      transports = t ∷ ts;
      interval = o.interval;
      queue_size = capacity o.queue_size;
    })

    unfoldable pub finish : Error ⊎ Options F C → Error ⊎ Agent F C
    finish (inl e) = inl e
    finish (inr o) = make_agent o o.transports

    -- `NewAgent`
    unfoldable pub new_agent : F → List (Options F C → Options F C) → Error ⊎ Agent F C
    new_agent json opts =
        finish (add_endpoint (with_names m.hostname (apply_options opts (default_options json))))
