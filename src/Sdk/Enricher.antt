-- ===== src/Sdk/Enricher.antt =====
-- sdk/enricher/env.go and etc_env_unix.go: which environment variables go out with the events.
pub mod Laws
pub mod Diagnostic
use opslog.Prelude.{
  ℕ, zero, suc, ◌+◌, ◌-◌, ◌*◌, ◌/◌, ◌%◌, ◌^◌, ◌≤◌, ◌<◌, ◌≡◌, refl, sym, ap, ◌∙◌, ◌≢◌, ◌↔◌, ◌⊎◌, inl,
  inr, Bool, true, false, not, ◌&&◌, ◌||◌, Option, none, some, List, [], ◌∷◌, ◌++◌, map,
  append_assoc, append-nil, arith, ltb, leb, ◌==◌, if◌then◌else◌, ltb→lt, leb→le, ==_iff,
  Bool-cases, Option-cases, length, take, drop, is_nil, select, replicate, any, flatten,
  flatten_snoc, length-replicate, length-append, take-append-drop, length-take, length-drop,
  take-append, drop-append, select-append, append_snoc, All, All-append, All-drop, All-take, Text,
  Error, text, text_eq, text_eq_refl, text_eq_sound, text_eq_iff, has_prefix, contains, has_suffix,
  is_space, trim_left, trim_right, trim_space, utf8_len, has_prefix_sound, has_prefix-append,
  HasPart, contains_sound, contains_complete, CaseMap, ascii_lower, ascii_upper, IsAscii, to_lower,
  to_upper, to_lower_ascii, to_upper_ascii, to_lower_idem, ascii, Dict, lookup, insert, without,
  lookup-insert, lookup-without, lookup-insert_self, lookup-append, ℤ, pos, negsuc, positive_part,
  cut_at, trim, trim_prefix, insert-All,
}

-- What package os says of the process: `os.Environ()`, `os.LookupEnv`, and the lines that a scanner
-- reads from /etc/environment, `none` where the file does not open.
pub record Os : Type 0 where
  pub environ : List Text
  pub lookup_env : Text → Option Text
  pub etc_environment : Option (List Text)

abbrev profile_env_keys : List Text
profile_env_keys = text "APP_ENV" ∷ text "ENV" ∷ text "GO_ENV" ∷ text "PROFILE" ∷ []

abbrev pub default_env_keys : List Text
default_env_keys =
    text "APP_ENV"
    ∷ text "ENV"
    ∷ text "GO_ENV"
    ∷ text "PROFILE"
    ∷ text "APP_NAME"
    ∷ text "SERVICE"
    ∷ text "SERVICE_NAME"
    ∷ text "VERSION"
    ∷ text "APP_VERSION"
    ∷ text "GIT_SHA"
    ∷ text "GIT_COMMIT"
    ∷ text "COMMIT_SHA"
    ∷ text "HOSTNAME"
    ∷ text "POD_NAME"
    ∷ text "POD_NAMESPACE"
    ∷ text "NAMESPACE"
    ∷ text "REGION"
    ∷ text "ZONE"
    ∷ text "IDC"
    ∷ text "DC"
    ∷ []

abbrev system_env_keys : List Text
system_env_keys =
    text "PATH"
    ∷ text "HOME"
    ∷ text "USER"
    ∷ text "LOGNAME"
    ∷ text "SHELL"
    ∷ text "TERM"
    ∷ text "TMPDIR"
    ∷ text "TMP"
    ∷ text "TEMP"
    ∷ text "PWD"
    ∷ text "OLDPWD"
    ∷ text "LANG"
    ∷ text "LANGUAGE"
    ∷ text "LC_ALL"
    ∷ text "LC_CTYPE"
    ∷ text "LC_MESSAGES"
    ∷ text "TZ"
    ∷ text "HOSTNAME"
    ∷ text "HOST"
    ∷ text "HOSTTYPE"
    ∷ text "OSTYPE"
    ∷ text "MACHTYPE"
    ∷ text "EDITOR"
    ∷ text "VISUAL"
    ∷ text "PAGER"
    ∷ text "DISPLAY"
    ∷ text "SSH_CLIENT"
    ∷ text "SSH_CONNECTION"
    ∷ text "SSH_TTY"
    ∷ text "XDG_RUNTIME_DIR"
    ∷ text "XDG_CONFIG_HOME"
    ∷ text "XDG_DATA_HOME"
    ∷ text "XDG_CACHE_HOME"
    ∷ text "GOOS"
    ∷ text "GOARCH"
    ∷ text "GOROOT"
    ∷ text "GOPATH"
    ∷ text "GOBIN"
    ∷ text "GOTOOLCHAIN"
    ∷ []

abbrev pub secret_substrings : List Text
secret_substrings =
    text "PASSWORD"
    ∷ text "PASSWD"
    ∷ text "SECRET"
    ∷ text "TOKEN"
    ∷ text "PRIVATE"
    ∷ text "CREDENTIAL"
    ∷ text "APIKEY"
    ∷ text "API_KEY"
    ∷ text "ACCESS_KEY"
    ∷ text "SECRET_KEY"
    ∷ text "AUTH"
    ∷ text "BEARER"
    ∷ text "SESSION"
    ∷ text "COOKIE"
    ∷ []

module _ (u : CaseMap) where
  -- `IsSecretEnvKey`
  unfoldable pub is_secret_env_key : Text → Bool
  is_secret_env_key key =
      let up = to_upper u key in
      if is_nil key
      then false
      else if any (contains up) secret_substrings
      then true
      else contains up (text "_KEY") || (has_suffix up (text "KEY") || has_prefix up (text "KEY_"))

  -- `IsSystemEnvKey`; `len` counts bytes
  unfoldable pub is_system_env_key : Text → Bool
  is_system_env_key key =
      let up = to_upper u key in
      if is_nil key
      then false
      else if any (text_eq up) system_env_keys
      then true
      else if has_prefix up (text "LC_") || has_prefix up (text "XDG_")
      then true
      else has_prefix up (text "GO") && leb (utf8_len up) 16

  -- The test that skips a variable: `k == "" || IsSecretEnvKey(k)`
  unfoldable pub hidden : Text → Bool
  unfolding is_secret_env_key
  hidden k = is_nil k || is_secret_env_key k

  module _ (os : Os) where
    -- The loops of `LookupProfile`, `LookupVersionFromEnv` and `LookupGitSHAFromEnv`: the first key
    -- that is set to a text that is not empty, with this text.
    unfoldable pub first_set : List Text → Option (Text × Text)
    first_set [] = none
    first_set (k ∷ keys) =
        let rest = first_set keys in
        elim (os.lookup_env k) [ none ↦ rest | some v ↦ if is_nil v then rest else some (k, v) ]

    abbrev key_and_value : Option (Text × Text) → Text × Text
    key_and_value none = ([], [])
    key_and_value (some e) = e

    unfoldable pub lookup_profile : Text × Text
    unfolding first_set
    lookup_profile = key_and_value (first_set profile_env_keys)

    unfoldable pub lookup_version_from_env : Text
    unfolding first_set
    lookup_version_from_env =
        (key_and_value (first_set (text "VERSION" ∷ text "APP_VERSION" ∷ []))).1

    unfoldable pub lookup_git_sha_from_env : Text
    unfolding first_set
    lookup_git_sha_from_env =
        (key_and_value (first_set (text "GIT_SHA" ∷ text "GIT_COMMIT" ∷ text "COMMIT_SHA" ∷ []))).1

    -- The loop over the keys, for a test that skips a key.
    unfoldable pub collect_keys : (Text → Bool) → List Text → Dict Text → Dict Text
    collect_keys skip [] out = out
    collect_keys skip (k ∷ keys) out =
        if skip k then collect_keys skip keys out else elim (os.lookup_env k) [
          | none ↦ collect_keys skip keys out
          | some v ↦ collect_keys skip keys (insert k v out)
        ]

    -- `CollectAllowListedEnv`
    unfoldable pub collect_allow_listed_env : List Text → Dict Text
    collect_allow_listed_env keys =
        collect_keys hidden (if is_nil keys then default_env_keys else keys) []

    -- The loop of `CollectFilteredEnviron`. The last test ends it.
    unfoldable pub collect_environ : ℤ → List Text → Dict Text → Dict Text
    unfolding hidden
    collect_environ max [] out = out
    collect_environ max (e ∷ es) out = elim (cut_at b'=' e) [
      | none ↦ collect_environ max es out
      | some kv ↦
          let out' = insert kv.0 kv.1 out in
          let more = collect_environ max es out' in
          if hidden kv.0
          then collect_environ max es out
          else if ltb 0 (positive_part max) && leb (positive_part max) (length out')
          then out'
          else more
    ]

    -- `CollectFilteredEnviron`, and `CollectProcessEnviron`, which calls it
    unfoldable pub collect_filtered_environ : ℤ → Dict Text
    collect_filtered_environ max = collect_environ max os.environ []

    -- A line of /etc/environment: the variable, or `none` where the loop skips the line.
    unfoldable pub etc_line : Text → Option (Text × Text)
    unfolding trim_space trim trim_prefix cut_at has_prefix
    etc_line l =
        let line = trim_space l in
        if is_nil line || has_prefix line (text "#")
        then none
        else elim (cut_at b'=' (trim_prefix line (text "export "))) [
          | none ↦ none
          | some kv ↦
              let v = trim (λ c. c == b'"' || c == b'\'') (trim_space kv.1) in
              if is_nil (trim_space kv.0) then none else some (trim_space kv.0, v)
        ]

    read_etc_lines : List Text → Dict Text → Dict Text
    unfolding etc_line
    read_etc_lines [] out = out
    read_etc_lines (l ∷ ls) out = elim (etc_line l) [
      | none ↦ read_etc_lines ls out
      | some kv ↦ read_etc_lines ls (insert kv.0 kv.1 out)
    ]

    -- `readEtcEnvironment`; a nil map is read as an empty one
    unfoldable pub read_etc_environment : Dict Text
    unfolding read_etc_lines
    read_etc_environment = elim os.etc_environment [ none ↦ [] | some ls ↦ read_etc_lines ls [] ]

    -- The first loop of `CollectSystemEnviron`, over the map of the file.
    unfoldable pub merge_etc : Dict Text → Dict Text → Dict Text
    unfolding hidden
    merge_etc [] out = out
    merge_etc ((k, v) ∷ m) out = if hidden k then merge_etc m out else merge_etc m (insert k v out)

    -- Its last loop, over the process environment.
    unfoldable pub collect_system : List Text → Dict Text → Dict Text
    unfolding hidden is_system_env_key
    collect_system [] out = out
    collect_system (e ∷ es) out = elim (cut_at b'=' e) [
      | none ↦ collect_system es out
      | some kv ↦
          if hidden kv.0 || not (is_system_env_key kv.0)
          then collect_system es out
          else collect_system es (insert kv.0 kv.1 out)
    ]

    -- `CollectSystemEnviron`
    unfoldable pub collect_system_environ : Dict Text
    collect_system_environ =
        collect_system os.environ
          (collect_keys is_secret_env_key system_env_keys (merge_etc read_etc_environment []))
