-- ===== src/Sdk/Collectors.antt =====
-- sdk/collectors: the events that the agent's collectors make.
use opslog.Prelude.{
  ℕ, ◌≡◌, refl, ◌↔◌, ◌⊎◌, inl, inr, Bool, true, false, ◌||◌, Option, none, some, List, [], ◌∷◌,
  arith, ltb, if◌then◌else◌, is_nil, Text, Error, text, has_prefix, CaseMap, Dict, insert,
  trim_prefix,
}
use opslog.Signal.{
  Time, Value, str, num, flag, environ, Event, Signal, event, kind_metric, kind_config, kind_probe,
}
use opslog.Sdk.Enricher.{
  default_env_keys, collect_allow_listed_env, lookup_profile, lookup_git_sha_from_env,
}
use opslog.Sdk.Enricher.Diagnostic.{Machine, put_text}

-- `Target`
pub record Target : Type 0 where
  pub name : Text
  pub target : Text

-- What a probe calls: dialling an address, building a request, and the status that `Do` answers with,
-- as a number and as text. `none` is no error.
pub record Network : Type 0 where
  pub dial : Text → Option Error
  pub new_request : Text → Option Error
  pub do_get : Text → Error ⊎ (ℕ × Text)

-- Whether a target was reached, and `errMsg`.
abbrev pub Found : Type 0
Found = Bool × Text

of_dial : Option Error → Found
of_dial none = (true, [])
of_dial (some e) = (false, e)

of_response : Error ⊎ (ℕ × Text) → Found
of_response (inl e) = (false, e)
of_response (inr (code, status)) = if ltb code 500 then (true, []) else (false, status)

of_request : Option Error → Error ⊎ (ℕ × Text) → Found
unfolding of_response
of_request (some e) r = (false, e)
of_request none r = of_response r

-- The switch of `check` over the scheme.
unfoldable pub reach : Network → Text → Found
unfolding of_dial of_request
reach net target =
    if has_prefix target (text "tcp://")
    then of_dial (net.dial (trim_prefix target (text "tcp://")))
    else if has_prefix target (text "http://") || has_prefix target (text "https://")
    then of_request (net.new_request target) (net.do_get target)
    else (false, text "unsupported target scheme")

-- The event of `check`; `now` is the time at its end, `latency` that of the probe in milliseconds.
unfoldable pub probe_event : Time → ℕ → Target → Found → Event
probe_event now latency t found = record {
  kind = kind_probe;
  time = now;
  level = if found.0 then text "info" else text "error";
  service = [];
  host = [];
  message = t.name;
  trace_id = [];
  attrs = some (
      (text "target", str t.target)
      ∷ (text "ok", flag found.0)
      ∷ (text "latency_ms", num latency)
      ∷ (text "error", str found.1)
      ∷ []);
  raw = none;
}

-- `ProbeCollector.Collect`, with the times and latencies of its checks
unfoldable pub collect_probes : Network → (Target → Time × ℕ) → List Target → List Signal
collect_probes net clock [] = []
collect_probes net clock (t ∷ ts) =
    event (probe_event (clock t).0 (clock t).1 t (reach net t.target)) ∷ collect_probes net clock ts

-- `Config.Collect`, of a collector with a version and keys
unfoldable pub collect_config : CaseMap → Machine → Text → List Text → List Signal
collect_config u m version keys =
    let base =
      (text "version", str version)
      ∷ (text "go_version", str m.go_version)
      ∷ (text "pid", num m.pid)
      ∷ (
        text "env",
        environ (collect_allow_listed_env u m.os (if is_nil keys then default_env_keys else keys)),
      )
      ∷ [] in
    event (record {
      kind = kind_config;
      time = m.now;
      level = text "info";
      service = [];
      host = m.hostname;
      message = text "config_snapshot";
      trace_id = [];
      attrs = some (
          put_text u (text "git_sha") (lookup_git_sha_from_env u m.os)
            (put_text u (text "profile") (lookup_profile u m.os).1 base));
      raw = none;
    })
    ∷ []

-- `Host.Collect`, on the map that `CollectSystemStatus` returns
unfoldable pub collect_host : Machine → Dict Value → List Signal
collect_host m status =
    event (record {
      kind = kind_metric;
      time = m.now;
      level = text "info";
      service = [];
      host = m.hostname;
      message = text "host_resources";
      trace_id = [];
      attrs = some (insert (text "hostname") (str m.hostname) status);
      raw = none;
    })
    ∷ []

-- A target that is not reached.
pub IsDown : Network → Text → Type 0
IsDown net target = (reach net target).0 ≡ false

-- The events that stand for a list of targets.
pub ReportsEach : Network → List Target → List Signal → Type 0
ReportsEach net [] [] = Unit
ReportsEach net (t ∷ ts) (event e ∷ sigs) =
    ((e.message ≡ t.name) × ((e.level ≡ text "error") ↔ IsDown net t.target))
    × ReportsEach net ts sigs
ReportsEach net _ _ = ⊥

error_iff : (b : Bool) → ((if b then text "info" else text "error") ≡ text "error") ↔ (b ≡ false)
error_iff b = ground arith

-- A probe makes one event for each of its targets, in their order, under the target's name, and at
-- level error for exactly those that were not reached.
pub collect_probes-ReportsEach :
    (net : Network) (clock : Target → Time × ℕ) (ts : List Target)
    → ReportsEach net ts (collect_probes net clock ts)
unfolding ReportsEach collect_probes probe_event IsDown
collect_probes-ReportsEach net clock [] = tt
collect_probes-ReportsEach net clock (t ∷ ts) =
    ((refl, error_iff (reach net t.target).0), collect_probes-ReportsEach net clock ts)
