-- ===== src/Sdk/Enricher/Laws.antt =====
-- sdk/enricher/env.go: no collected environment has a secret, the cap, and what is not missing.
use opslog.Prelude.{
  ◌+◌, ◌≤◌, ◌<◌, ◌≡◌, refl, sym, ap, ◌∙◌, inl, inr, Bool, true, false, not, ◌&&◌, ◌||◌, Option,
  none, some, List, [], ◌∷◌, ◌++◌, arith, ltb, leb, if◌then◌else◌, Bool-cases, Option-cases, length,
  is_nil, any, All, Text, text_eq, text_eq_sound, text_eq_iff, contains, contains_complete, CaseMap,
  to_upper, to_upper_idem, Dict, lookup, insert, lookup-insert, ℤ, positive_part, cut_at,
  insert-All,
}
use opslog.Sdk.Enricher.{
  Os, hidden, is_secret_env_key, secret_substrings, default_env_keys, system_env_keys, collect_keys,
  collect_allow_listed_env, collect_environ, collect_filtered_environ, read_etc_environment,
  merge_etc, collect_system, collect_system_environ, is_system_env_key,
}

-- No variable of a collected environment has a name that looks like a secret.
abbrev pub HasNoSecrets : CaseMap → Dict Text → Type 0
HasNoSecrets u = All (λ e. is_secret_env_key u e.0 ≡ false)

or_false : (a b : Bool) → (a || b) ≡ false → a ≡ false
or_false a b h = ground arith

module _ (u : CaseMap) (os : Os) where
  not_hidden : (k : Text) → hidden u k ≡ false → is_secret_env_key u k ≡ false
  unfolding hidden
  not_hidden k h = ground arith

  insert-public :
      (k v : Text) (m : Dict Text)
      → is_secret_env_key u k ≡ false
      → HasNoSecrets u m
      → HasNoSecrets u (insert k v m)
  insert-public k v m p h = insert-All (λ e. is_secret_env_key u e.0 ≡ false) k v m p h

  collect_keys-public :
      (skip : Text → Bool) (keys : List Text) (out : Dict Text)
      → ((k : Text) → skip k ≡ false → is_secret_env_key u k ≡ false)
      → HasNoSecrets u out
      → HasNoSecrets u (collect_keys u os skip keys out)
  unfolding collect_keys
  collect_keys-public skip [] out p h = h
  collect_keys-public skip (k ∷ keys) out p h = elim (Bool-cases (skip k)) [
    | inl s ↦ simp s (collect_keys-public skip keys out p h)
    | inr s ↦ elim (Option-cases (os.lookup_env k)) [
      | inl e ↦ simp (s, e) (collect_keys-public skip keys out p h)
      | inr (v, e) ↦
          simp (s, e)
            (collect_keys-public skip keys (insert k v out) p (insert-public k v out (p k s) h))
    ]
  ]

  collect_environ-public :
      (max : ℤ) (es : List Text) (out : Dict Text)
      → HasNoSecrets u out
      → HasNoSecrets u (collect_environ u os max es out)
  unfolding collect_environ
  collect_environ-public max [] out h = h
  collect_environ-public max (e ∷ es) out h = elim (Option-cases (cut_at b'=' e)) [
    | inl c ↦ simp (c, collect_environ) (collect_environ-public max es out h)
    | inr (kv, c) ↦ elim (Bool-cases (hidden u kv.0)) [
      | inl s ↦ simp (c, collect_environ, s) (collect_environ-public max es out h)
      | inr s ↦
          let h' = insert-public kv.0 kv.1 out (not_hidden kv.0 s) h in
          elim (Bool-cases (
            ltb 0 (positive_part max) && leb (positive_part max) (length (insert kv.0 kv.1 out)))) [
              | inl full ↦ simp (c, collect_environ, s, full) h'
              | inr room ↦
                  simp (c, collect_environ, s, room)
                    (collect_environ-public max es (insert kv.0 kv.1 out) h')
            ]
    ]
  ]

  merge_etc-public :
      (m out : Dict Text) → HasNoSecrets u out → HasNoSecrets u (merge_etc u os m out)
  unfolding merge_etc
  merge_etc-public [] out h = h
  merge_etc-public ((k, v) ∷ m) out h = elim (Bool-cases (hidden u k)) [
    | inl s ↦ simp s (merge_etc-public m out h)
    | inr s ↦
        simp s (merge_etc-public m (insert k v out) (insert-public k v out (not_hidden k s) h))
  ]

  collect_system-public :
      (es : List Text) (out : Dict Text)
      → HasNoSecrets u out
      → HasNoSecrets u (collect_system u os es out)
  unfolding collect_system
  collect_system-public [] out h = h
  collect_system-public (e ∷ es) out h = elim (Option-cases (cut_at b'=' e)) [
    | inl c ↦ simp (c, collect_system) (collect_system-public es out h)
    | inr (kv, c) ↦ elim (Bool-cases (hidden u kv.0 || not (is_system_env_key u kv.0))) [
      | inl s ↦ simp (c, collect_system, s) (collect_system-public es out h)
      | inr s ↦
          simp (c, collect_system, s)
            (collect_system-public es (insert kv.0 kv.1 out)
              (insert-public kv.0 kv.1 out (not_hidden kv.0 (or_false _ _ s)) h))
    ]
  ]

  -- No environment that is collected for the events has a variable whose name looks like a secret:
  -- not the allow list, whatever keys it is given, not the process environment under any cap, and
  -- not the system environment with the variables of /etc/environment.
  pub collected_no_secrets :
      (keys : List Text) (max : ℤ)
      → HasNoSecrets u (collect_allow_listed_env u os keys)
        × HasNoSecrets u (collect_filtered_environ u os max)
        × HasNoSecrets u (collect_system_environ u os)
  unfolding collect_allow_listed_env collect_filtered_environ collect_system_environ
  collected_no_secrets keys max = (
    collect_keys-public (hidden u) (if is_nil keys then default_env_keys else keys) [] not_hidden
        tt,
    collect_environ-public max os.environ [] tt,
    collect_system-public os.environ _ (
        collect_keys-public (is_secret_env_key u) system_env_keys _ (λ k e. e)
          (merge_etc-public (read_etc_environment u os) [] tt)),
  )

  length-insert : (k v : Text) (m : Dict Text) → length (insert k v m) ≤ length m + 1
  unfolding insert
  length-insert k v [] = omega arith
  length-insert k v ((j, w) ∷ m) = ground (arith, length-insert k v m)

  collect_environ-fits :
      (max : ℤ) (es : List Text) (out : Dict Text)
      → length out < positive_part max
      → length (collect_environ u os max es out) ≤ positive_part max
  unfolding collect_environ
  collect_environ-fits max [] out h = omega arith
  collect_environ-fits max (e ∷ es) out h = elim (Option-cases (cut_at b'=' e)) [
    | inl c ↦ simp (c, collect_environ) (collect_environ-fits max es out h)
    | inr (kv, c) ↦
        let one = length-insert kv.0 kv.1 out in
        ground (
          arith,
          c,
          one,
          collect_environ-fits max es out h,
          collect_environ-fits max es (insert kv.0 kv.1 out),
        )
  ]

  -- A cap that is positive is kept: no more variables are collected than it says.
  pub collect_filtered-length :
      (max : ℤ)
      → 0 < positive_part max
      → length (collect_filtered_environ u os max) ≤ positive_part max
  unfolding collect_filtered_environ
  collect_filtered-length max h = collect_environ-fits max os.environ [] h

  -- The last value that a list of entries gives to a name.
  abbrev pub last_entry : Text → List Text → Option Text
  last_entry k [] = none
  last_entry k (e ∷ es) = elim (last_entry k es) [
    | some v ↦ some v
    | none ↦ elim (cut_at b'=' e) [
      | none ↦ none
      | some kv ↦ if text_eq kv.0 k then some kv.1 else none
    ]
  ]

  lookup-collect_environ :
      (max : ℤ) (k : Text) (es : List Text) (out : Dict Text)
      → positive_part max ≡ 0
      → hidden u k ≡ false
      → lookup k (collect_environ u os max es out)
        ≡ elim (last_entry k es) [ some v ↦ some v | none ↦ lookup k out ]
  unfolding collect_environ
  lookup-collect_environ max k [] out z p = refl
  lookup-collect_environ max k (e ∷ es) out z p = elim (Option-cases (cut_at b'=' e)) [
    | inl c ↦ ground (arith, c, lookup-collect_environ max k es out z p)
    | inr (kv, c) ↦ ground (
      arith,
      c,
      z,
      p,
      text_eq_iff kv.0 k,
      lookup-insert kv.0 k kv.1 out,
      lookup-collect_environ max k es out z p,
      lookup-collect_environ max k es (insert kv.0 kv.1 out) z p,
    )
  ]

  -- Without a positive cap no variable is missing: a name that is not empty and not secret has the
  -- last value that the process environment gives it, and is absent only if it gives none.
  pub collect_filtered_exact :
      (max : ℤ) (k : Text)
      → positive_part max ≡ 0
      → hidden u k ≡ false
      → lookup k (collect_filtered_environ u os max) ≡ last_entry k os.environ
  unfolding collect_filtered_environ lookup
  collect_filtered_exact max k z p =
      lookup-collect_environ max k os.environ [] z p ∙ ground (arith, z)

is_nil-upper : (u : CaseMap) (s : Text) → is_nil (to_upper u s) ≡ is_nil s
unfolding to_upper
is_nil-upper u [] = refl
is_nil-upper u (c ∷ s) = refl

-- The case of a name makes no difference to whether it is secret.
pub is_secret_env_key-upper :
    (u : CaseMap) (k : Text) → is_secret_env_key u (to_upper u k) ≡ is_secret_env_key u k
unfolding is_secret_env_key
is_secret_env_key-upper u k = simp (to_upper_idem u k, is_nil-upper u k) refl

any_part :
    (before part after : Text) (parts : List Text)
    → any (text_eq part) parts ≡ true
    → any (contains (before ++ (part ++ after))) parts ≡ true
any_part before part after [] h = cc
any_part before part after (p ∷ parts) h = elim (Bool-cases (text_eq part p)) [
  | inl e ↦
      rw
        (ap (contains (before ++ (part ++ after))) (sym (text_eq_sound part p e))
          ∙ contains_complete before part after)
        refl
  | inr e ↦ ground (arith, any_part before part after parts (ground arith))
]

-- A name is secret whose upper case has one of the listed words anywhere in it, alone or with other
-- characters around it.
pub secret_part :
    (u : CaseMap) (k before part after : Text)
    → any (text_eq part) secret_substrings ≡ true
    → is_nil k ≡ false
    → to_upper u k ≡ before ++ (part ++ after)
    → is_secret_env_key u k ≡ true
unfolding is_secret_env_key
secret_part u k before part after m n e =
    rw (n, e, any_part before part after secret_substrings m) refl
