-- ===== src/Sdk/Integration/Build.antt =====
-- sdk/integration/integration.go: when `startAgent` has an agent to start.
use opslog.Prelude.{
  ℕ, ◌+◌, ◌≡◌, refl, sym, ap, ◌∙◌, ◌⊎◌, inl, inr, Bool, true, false, ◌||◌, List, [], ◌∷◌, ◌++◌,
  arith, Bool-cases, is_nil, Text, Error, text, text_eq, trim_space, CaseMap, to_lower,
}
use opslog.Cfg.{Std}
use opslog.Api.Csv.{split_commas}
use opslog.Sdk.Policy.{Transport}
use opslog.Sdk.Enricher.Diagnostic.{Machine}
use opslog.Sdk.Agent.Options.{
  Agent, Options, attach, default_options, new_agent, with_level, with_policy, with_service,
  with_transport, with_version,
}
use opslog.Sdk.Agent.Options
use opslog.Sdk.Agent.Options.Laws.{IsBuilt, IsReady, new_agent-IsBuilt}
use opslog.Transport.{new_http_transport, new_udp_transport}
use opslog.Transport.Laws.{helpers_build}
use opslog.Sdk.Integration.{
  Config, Settings, no_transport, parse_transport, or_http, transports_of, with_defaults,
  add_transport, http_settings, udp_settings, policy_settings, and_then, base_settings,
  agent_options, build_with, build_agent,
}

or_http_some : (u : CaseMap) (on : Bool × Bool) → ((or_http u on).0 || (or_http u on).1) ≡ true
or_http_some u (false, false) = refl
or_http_some u (false, true) = refl
or_http_some u (true, b) = refl

-- Whatever the text says, a transport is wanted.
parse_transport_some :
    (u : CaseMap) (s : Text) → ((parse_transport u s).0 || (parse_transport u s).1) ≡ true
unfolding parse_transport
parse_transport_some u s =
    let l = to_lower u (trim_space s) in
    elim (Bool-cases (is_nil l || (text_eq l (text "both") || text_eq l (text "all")))) [
      | inl e ↦ rw e refl
      | inr e ↦ rw e (or_http_some u (transports_of u (split_commas l) (false, false)))
    ]

is_nil-snoc : {A : Type 0} (xs : List A) (x : A) → is_nil (xs ++ x ∷ []) ≡ false
is_nil-snoc [] x = refl
is_nil-snoc (y ∷ xs) x = refl

cons_of : (s : Text) → is_nil s ≡ false → (c : ℕ) × (r : Text) × (s ≡ c ∷ r)
cons_of [] h = cc
cons_of (c ∷ s) h = (c, s, refl)

nil_of : (s : Text) → is_nil s ≡ true → s ≡ []
nil_of [] h = refl
nil_of (c ∷ s) h = cc

-- Settings that leave a transport, whatever options they are applied to.
Connects : {F C : Type 0} → Settings F C → Type 0
Connects {F} {C} opts = (o : Options F C) → is_nil (Options.apply_options opts o).transports ≡ false

apply-append :
    {F C : Type 0} (xs ys : Settings F C) (o : Options F C)
    → Options.apply_options (xs ++ ys) o ≡ Options.apply_options ys (Options.apply_options xs o)
unfolding Options.apply_options
apply-append [] ys o = refl
apply-append (f ∷ xs) ys o = apply-append xs ys (f o)

append-Connects : {F C : Type 0} (xs ys : Settings F C) → Connects ys → Connects (xs ++ ys)
unfolding Connects
append-Connects xs ys h o =
    ap (λ (q : Options _ _). is_nil q.transports) (apply-append xs ys o)
    ∙ h (Options.apply_options xs o)

-- What `startAgent` comes to before it starts the agent.
pub IsPlanned : {F C : Type 0} → Bool × Bool → Config → Error ⊎ Settings F C → Type 0
IsPlanned {F} {C} want c r =
    ((opts : Settings F C) × (r ≡ inr opts) × Connects opts)
    ⊎ ((r ≡ inl no_transport) × (want ≡ (false, true)) × (c.udp_endpoint ≡ []))

module _ (F C : Type 0) (u : CaseMap) (std : Std) (m : Machine) (fresh : ℕ) where
  -- The settings from those of the two transports.
  combine : Config → Error ⊎ Settings F C → Error ⊎ Settings F C → Error ⊎ Settings F C
  combine c hs us = and_then u F C std m fresh hs (λ https. and_then u F C std m fresh us (λ udps.
      and_then u F C std m fresh (policy_settings u F C std m fresh https udps)
        (λ policies. inr (base_settings u F C std m fresh c ++ (https ++ (udps ++ policies))))))

  http_settings_on :
      (c : Config)
      → is_nil c.http_url ≡ false
      → (t : Transport) × (http_settings u F C std m fresh true c ≡ inr (with_transport t ∷ []))
  unfolding http_settings add_transport
  http_settings_on c h =
      let (k, r, e) = cons_of c.http_url h in
      (
        _,
        ap
              (λ url.
                add_transport u F C std m fresh fresh (text "sdk/integration: http transport: ")
                  (new_http_transport std (text "http") url (c.http_token ∷ [])))
              e
            ∙ ap (add_transport u F C std m fresh fresh (text "sdk/integration: http transport: "))
                (helpers_build std (text "http") r (c.http_token ∷ []) k).0,
      )

  udp_settings_given :
      (c : Config)
      → is_nil c.udp_endpoint ≡ false
      → udp_settings u F C std m fresh true c
        ≡ add_transport u F C std m fresh
            (fresh + 1)
            (text "sdk/integration: udp transport: ")
            (new_udp_transport std (text "udp") c.udp_endpoint)
  unfolding udp_settings
  udp_settings_given c h = rw h refl

  udp_settings_on :
      (c : Config)
      → is_nil c.udp_endpoint ≡ false
      → (t : Transport) × (udp_settings u F C std m fresh true c ≡ inr (with_transport t ∷ []))
  unfolding udp_settings add_transport
  udp_settings_on c h =
      let (k, r, e) = cons_of c.udp_endpoint h in
      (
        attach (fresh + 1) _,
        udp_settings_given c h
            ∙ (ap
                  (λ addr.
                    add_transport u F C std m fresh (fresh + 1)
                      (text "sdk/integration: udp transport: ")
                      (new_udp_transport std (text "udp") addr))
                  e
                ∙ ap
                    (add_transport u F C std m fresh (fresh + 1)
                      (text "sdk/integration: udp transport: "))
                    (helpers_build std (text "udp") r [] k).3),
      )

  udp_settings_off :
      (c : Config) → is_nil c.udp_endpoint ≡ true → udp_settings u F C std m fresh true c ≡ inr []
  unfolding udp_settings
  udp_settings_off c h = rw h refl

  planned_none :
      (c : Config)
      → is_nil c.udp_endpoint ≡ true
      → combine c (inr []) (udp_settings u F C std m fresh true c) ≡ inl no_transport
  unfolding combine and_then policy_settings
  planned_none c e = ap (combine c (inr [])) (udp_settings_off c e)

  one-Connects :
      (t : Transport) (p : Options F C → Options F C)
      → ((o : Options F C) → (p o).transports ≡ o.transports)
      → Connects (with_transport t ∷ p ∷ [])
  unfolding Connects Options.apply_options with_transport
  one-Connects t p keeps o =
      ap (λ ts. is_nil ts) (keeps (with_transport t o)) ∙ is_nil-snoc o.transports t

  both-Connects :
      (t v : Transport) (p : Options F C → Options F C)
      → ((o : Options F C) → (p o).transports ≡ o.transports)
      → Connects (with_transport t ∷ with_transport v ∷ p ∷ [])
  unfolding Connects Options.apply_options with_transport
  both-Connects t v p keeps o =
      ap (λ ts. is_nil ts) (keeps (with_transport v (with_transport t o)))
      ∙ is_nil-snoc (o.transports ++ t ∷ []) v

  combined :
      (c : Config) (hs us : Error ⊎ Settings F C) (x y z : Settings F C)
      → hs ≡ inr x
      → us ≡ inr y
      → policy_settings u F C std m fresh x y ≡ inr z
      → Connects (x ++ (y ++ z))
      → (opts : Settings F C) × (combine c hs us ≡ inr opts) × Connects opts
  unfolding combine and_then
  combined c hs us x y z e f g h = (
    base_settings u F C std m fresh c ++ (x ++ (y ++ z)),
    ap (λ r. combine c r us) e
        ∙ ap (λ r. combine c (inr x) r) f
        ∙ ap
            (λ r.
              and_then u F C std m fresh r
                (λ policies. inr (base_settings u F C std m fresh c ++ (x ++ (y ++ policies)))))
            g,
    append-Connects (base_settings u F C std m fresh c) (x ++ (y ++ z)) h,
  )

  combined-IsPlanned :
      (want : Bool × Bool) (c : Config)
      → is_nil c.http_url ≡ false
      → (want.0 || want.1) ≡ true
      → IsPlanned want c (
          combine c
            (http_settings u F C std m fresh want.0 c)
            (udp_settings u F C std m fresh want.1 c))
  unfolding IsPlanned policy_settings with_policy http_settings udp_settings
  combined-IsPlanned (false, false) c h w = cc
  combined-IsPlanned (false, true) c h w = elim (Bool-cases (is_nil c.udp_endpoint)) [
    | inl e ↦ inr (planned_none c e, refl, nil_of c.udp_endpoint e)
    | inr e ↦
        let (t, s) = udp_settings_on c e in
        inl (combined c _ _ [] (with_transport t ∷ []) _ refl s refl (one-Connects t _ (λ o. refl)))
  ]
  combined-IsPlanned (true, false) c h w =
      let (t, s) = http_settings_on c h in
      inl (combined c _ _ (with_transport t ∷ []) [] _ s refl refl (one-Connects t _ (λ o. refl)))
  combined-IsPlanned (true, true) c h w = elim (Bool-cases (is_nil c.udp_endpoint)) [
    | inl e ↦
        let (t, s) = http_settings_on c h in
        inl (
          combined c _ _ (with_transport t ∷ []) [] _ s (udp_settings_off c e) refl
            (one-Connects t _ (λ o. refl)))
    | inr e ↦
        let (t, s) = http_settings_on c h in
        let (v, s') = udp_settings_on c e in
        inl (
          combined c _ _ (with_transport t ∷ []) (with_transport v ∷ []) _ s s' refl
            (both-Connects t v _ (λ o. refl)))
  ]

  url_given : (cfg : Config) → is_nil (with_defaults u cfg).http_url ≡ false
  unfolding with_defaults
  url_given cfg = ground arith

  agent_options-IsPlanned :
      (cfg : Config)
      → IsPlanned
          (parse_transport u (with_defaults u cfg).transport)
          (with_defaults u cfg)
          (agent_options u F C std m fresh cfg)
  unfolding agent_options combine
  agent_options-IsPlanned cfg =
      combined-IsPlanned (parse_transport u (with_defaults u cfg).transport) (with_defaults u cfg)
        (url_given cfg) (parse_transport_some u (with_defaults u cfg).transport)

  -- What `startAgent` has to start: an agent that can work, or nothing, for one reason only.
  unfoldable pub IsStartable : Config → Error ⊎ Agent F C → Type 0
  IsStartable cfg r =
      ((a : Agent F C) × (r ≡ inr a) × IsReady a)
      ⊎ ((r ≡ inl no_transport)
          × (parse_transport u (with_defaults u cfg).transport ≡ (false, true))
          × (cfg.udp_endpoint ≡ []))

  agent_when_connected :
      (o : Options F C) (r : Error ⊎ Agent F C)
      → is_nil o.transports ≡ false
      → IsBuilt o r
      → (a : Agent F C) × (r ≡ inr a) × IsReady a
  unfolding IsBuilt
  agent_when_connected o r h (inl a) = a
  agent_when_connected o r h (inr (_, _, e)) = absurd (never (ap (λ ts. is_nil ts) (sym e) ∙ h))
    where
      never : true ≡ false → ⊥
      never q = cc

  built_from :
      (json : F) (cfg : Config) (r : Error ⊎ Settings F C)
      → IsPlanned (parse_transport u (with_defaults u cfg).transport) (with_defaults u cfg) r
      → IsStartable cfg (build_with u F C std m fresh json r)
  unfolding build_with IsStartable IsPlanned Connects with_defaults
  built_from json cfg r (inl (opts, e, connects)) =
      let (a, same, ready) =
        agent_when_connected (Options.apply_options opts (default_options json))
          (new_agent std u m (fresh + 2) json opts) (connects (default_options json))
          (new_agent-IsBuilt std u m (fresh + 2) json opts) in
      inl (a, ap (build_with u F C std m fresh json) e ∙ same, ready)
  built_from json cfg r (inr (e, want, none_given)) =
      inr (ap (build_with u F C std m fresh json) e, want, none_given)

  -- From every configuration `startAgent` has an agent to start that can work, with a service, a
  -- transport and a queue; but for one that asks for UDP alone and gives no UDP endpoint, where it
  -- fails for the lack of a transport.
  pub build_agent-IsStartable :
      (json : F) (cfg : Config) → IsStartable cfg (build_agent u F C std m fresh json cfg)
  unfolding build_agent
  build_agent-IsStartable json cfg = built_from json cfg _ (agent_options-IsPlanned cfg)
