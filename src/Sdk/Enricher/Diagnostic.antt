-- ===== src/Sdk/Enricher/Diagnostic.antt =====
-- sdk/enricher/diag.go, and the cache of sysinfo.go: the hook that adds what is known of the process
-- to each event.
pub mod Laws
use opslog.Prelude.{
  ℕ, zero, suc, ◌+◌, ◌-◌, ◌*◌, ◌/◌, ◌%◌, ◌^◌, ◌≤◌, ◌<◌, ◌≡◌, refl, sym, ap, ◌∙◌, ◌≢◌, ◌↔◌, ◌⊎◌, inl,
  inr, Bool, true, false, not, ◌&&◌, ◌||◌, Option, none, some, List, [], ◌∷◌, ◌++◌, map,
  append_assoc, append-nil, arith, ltb, leb, ◌==◌, if◌then◌else◌, ltb→lt, leb→le, ==_iff,
  Bool-cases, Option-cases, length, take, drop, is_nil, select, replicate, any, flatten,
  flatten_snoc, length-replicate, length-append, take-append-drop, length-take, length-drop,
  take-append, drop-append, select-append, append_snoc, All, All-append, All-drop, All-take, Text,
  Error, text, text_eq, text_eq_refl, text_eq_sound, text_eq_iff, has_prefix, contains, has_suffix,
  is_space, trim_left, trim_right, trim_space, utf8_len, has_prefix_sound, has_prefix-append,
  HasPart, contains_sound, contains_complete, CaseMap, ascii_lower, ascii_upper, IsAscii, to_lower,
  to_upper, to_lower_ascii, to_upper_ascii, to_lower_idem, to_upper_idem, ascii, Dict, lookup,
  insert, without, lookup-insert, lookup-without, lookup-insert_self, lookup-append, ℤ, pos, negsuc,
  positive_part, cut_at, trim, trim_prefix, insert-All,
}
use opslog.Signal.{
  Time, Value, str, num, environ, other, Event, Signal, event, foreign, clone, copy_into, get_attr,
}
use opslog.Sdk.Enricher.{
  Os, default_env_keys, lookup_profile, lookup_version_from_env, lookup_git_sha_from_env,
  collect_allow_listed_env, collect_filtered_environ, collect_system_environ,
}

-- A map that `buildSystemStatus` returns: its `len`, and a number that names its content.
pub record Status : Type 0 where
  pub size : ℕ
  pub content : ℕ

-- What the enricher reads of the process at one moment.
pub record Machine : Type 0 where
  pub os : Os
  pub hostname : Text
  pub pid : ℕ
  pub go_version : Text
  pub goos : Text
  pub goarch : Text
  pub cwd : Text
  pub now : Time
  pub build_system_status : Status

-- `sysCache` and `sysAt`; `none` is the nil map
abbrev pub SysCache : Type 0
SysCache = Option (Status × Time)

-- `sysCacheTTL`, in nanoseconds
abbrev pub sys_cache_ttl : ℕ
sys_cache_ttl = 2000000000

refresh : Machine → Status × SysCache
refresh m = (m.build_system_status, some (m.build_system_status, m.now))

-- `CollectSystemStatus`; time.Since is below the limit also where the clock went back
unfoldable pub collect_system_status : Machine → SysCache → Status × SysCache
unfolding refresh
collect_system_status m none = refresh m
collect_system_status m (some (status, at)) =
    if ltb (m.now - at) sys_cache_ttl then (status, some (status, at)) else refresh m

-- `Diagnostic`; `frozen` is what `ensureStatic` stores, `static` and `startupEnviron`, and `none`
-- before its `once` has run.
pub record Diagnostic : Type 0 where
  pub version : Text
  pub git_sha : Text
  pub env_keys : List Text
  pub include_environ : Bool
  pub include_sys : Bool
  pub max_environ : ℤ
  pub service : Text
  pub frozen : Option (Dict Value × Dict Text)

unfoldable pub with_env_keys : List Text → Diagnostic → Diagnostic
with_env_keys keys d = record d { env_keys = if is_nil keys then default_env_keys else keys }

abbrev static_attrs : Machine → Dict Value
static_attrs m =
    (text "hostname", str m.hostname)
    ∷ (text "pid", num m.pid)
    ∷ (text "go_version", str m.go_version)
    ∷ (text "goos", str m.goos)
    ∷ (text "goarch", str m.goarch)
    ∷ (text "cwd", str m.cwd)
    ∷ []

module _ (u : CaseMap) where
  unfoldable pub freeze : Machine → Diagnostic → Option (Dict Value × Dict Text) → Diagnostic
  freeze m d (some f) = d
  freeze m d none = record d {
    frozen = some (static_attrs m, collect_filtered_environ u m.os d.max_environ);
  }

  -- `ensureStatic`
  unfoldable pub ensure_static : Machine → Diagnostic → Diagnostic
  ensure_static m d = freeze m d d.frozen

  unfoldable pub apply_options : List (Diagnostic → Diagnostic) → Diagnostic → Diagnostic
  apply_options [] d = d
  apply_options (o ∷ opts) d = apply_options opts (o d)

  unfoldable pub fill_from_env : Machine → Diagnostic → Diagnostic
  fill_from_env m d = record d {
    version = if is_nil d.version then lookup_version_from_env u m.os else d.version;
    git_sha = if is_nil d.git_sha then lookup_git_sha_from_env u m.os else d.git_sha;
  }

  -- `NewDiagnostic`
  unfoldable pub new_diagnostic : List (Diagnostic → Diagnostic) → Machine → Diagnostic
  new_diagnostic opts m = ensure_static m (
      fill_from_env m (
        apply_options opts (record {
          version = [];
          git_sha = [];
          env_keys = default_env_keys;
          include_environ = true;
          include_sys = true;
          max_environ = pos 0;
          service = [];
          frozen = none;
        })))

  -- `if v != "" { attrs[k] = v }`
  unfoldable pub put_text : Text → Text → Dict Value → Dict Value
  put_text k [] attrs = attrs
  put_text k (c ∷ v) attrs = insert k (str (c ∷ v)) attrs

  -- `if len(env) > 0 { attrs[k] = env }`
  unfoldable pub put_environ : Text → Dict Text → Dict Value → Dict Value
  put_environ k [] attrs = attrs
  put_environ k (e ∷ env) attrs = insert k (environ (e ∷ env)) attrs

  -- The attributes of `buildAttrs` up to `env`, over a copy of the static ones.
  unfoldable pub service_attrs : Machine → Diagnostic → Dict Value → Dict Value
  service_attrs m d static = put_environ (text "env") (collect_allow_listed_env u m.os d.env_keys) (
      put_text (text "profile") (lookup_profile u m.os).1 (
        put_text (text "git_sha") d.git_sha (
          put_text (text "version") d.version
            (put_text (text "service") d.service (copy_into [] static)))))

  -- The environments; the last one stands under two names.
  unfoldable pub environ_attrs : Machine → Diagnostic → Dict Text → Dict Value → Dict Value
  environ_attrs m d startup attrs =
      let process = collect_filtered_environ u m.os d.max_environ in
      if d.include_environ
      then put_environ (text "environ") process (
          put_environ (text "process_environ") process (
            put_environ (text "system_environ") (collect_system_environ u m.os)
              (put_environ (text "startup_environ") (copy_into [] startup) attrs)))
      else attrs

  unfoldable pub put_status : Status × SysCache → Dict Value → Dict Value × SysCache
  put_status (status, cache) attrs =
      (if 0 == status.size then attrs else insert (text "sys") (other status.content) attrs, cache)

  unfoldable pub sys_attrs : Machine → Diagnostic → SysCache → Dict Value → Dict Value × SysCache
  sys_attrs m d cache attrs =
      if d.include_sys then put_status (collect_system_status m cache) attrs else (attrs, cache)

  unfoldable pub frozen_attrs : Option (Dict Value × Dict Text) → Dict Value × Dict Text
  frozen_attrs none = ([], [])
  frozen_attrs (some f) = f

  -- `buildAttrs` of a hook whose `ensureStatic` has run
  unfoldable pub build_attrs : Machine → Diagnostic → SysCache → Dict Value × SysCache
  build_attrs m d cache =
      let (static, startup) = frozen_attrs d.frozen in
      sys_attrs m d cache (environ_attrs m d startup (service_attrs m d static))

  -- The loop of `BeforeSend`: what is there stays.
  unfoldable pub fill : Dict Value → Dict Value → Dict Value
  fill out [] = out
  fill out ((k, v) ∷ attrs) = elim (lookup k out) [
    | some _ ↦ fill out attrs
    | none ↦ fill (insert k v out) attrs
  ]

  -- `make(map[string]any)` where the attributes are nil
  abbrev pub made : Option (Dict Value) → Dict Value
  made none = []
  made (some m) = m

  -- What `BeforeSend` leaves: the hook, the cache, and what it returns.
  pub record Sent : Type 0 where
    pub hook : Diagnostic
    pub cache : SysCache
    pub signal : Signal
    pub keep : Bool

  unfoldable pub send_filled : Diagnostic → Event → Dict Value × SysCache → Sent
  send_filled d e (attrs, cache) =
      let out = clone e in
      record {
        hook = d;
        cache = cache;
        signal = event (record out { attrs = some (fill (made out.attrs) attrs) });
        keep = true;
      }

  -- `BeforeSend`, of a hook and a signal that are not nil
  unfoldable pub before_send : Machine → Diagnostic → SysCache → Signal → Sent
  before_send m d cache (foreign e) = record {
    hook = d;
    cache = cache;
    signal = foreign e;
    keep = true;
  }
  before_send m d cache (event e) =
      let d' = ensure_static m d in send_filled d' e (build_attrs m d' cache)
