-- ===== src/Sdk/Agent/Options/Laws.antt =====
-- sdk/agent/agent.go: when `NewAgent` fails, and that what it builds can work.
use opslog.Prelude.{
  ℕ, ◌<◌, ◌≡◌, refl, ap, ◌∙◌, ◌⊎◌, inl, inr, true, false, ◌||◌, List, [], ◌∷◌, ◌++◌, arith,
  Bool-cases, is_nil, Text, Error, text, has_prefix, trim_space, CaseMap, ℤ,
}
use opslog.Cfg.{Std}
use opslog.Sdk.Policy.{Transport}
use opslog.Sdk.Enricher.Diagnostic.{Machine}
use opslog.Transport.{Endpoint, new_http_transport}
use opslog.Transport.Laws.{helpers_build}
use opslog.Sdk.Agent.Options.{
  Options, Agent, normalize_http_ingest_url, default_options, apply_options, with_names,
  attach_http, add_endpoint, capacity, no_transport, make_agent, finish, new_agent,
}

-- An agent that can work: it has a service name, somewhere to send to, and room for signals.
pub record IsReady {F C : Type 0} (a : Agent F C) : Type 0 where
  pub named : is_nil a.service ≡ false
  pub connected : is_nil a.transports ≡ false
  pub has_room : 0 < a.queue_size

abbrev IsCons : Text → Type 0
IsCons s = (c : ℕ) × (r : Text) × (s ≡ c ∷ r)

not_nil-IsCons : (s : Text) → is_nil s ≡ false → IsCons s
not_nil-IsCons [] h = cc
not_nil-IsCons (c ∷ s) h = (c, s, refl)

normalize-not_nil : (e : Text) → is_nil (normalize_http_ingest_url e) ≡ false
unfolding normalize_http_ingest_url
normalize-not_nil e = elim (Bool-cases (is_nil (trim_space e))) [
  | inl n ↦ rw n refl
  | inr n ↦
      elim (Bool-cases (
        has_prefix (trim_space e) (text "http://")
        || has_prefix (trim_space e) (text "https://"))) [
          | inl p ↦ rw (n, p) n
          | inr p ↦ rw (n, p) refl
        ]
]

capacity_positive : (n : ℤ) → 0 < capacity n
unfolding capacity
capacity_positive n = ground arith

snoc_not_nil : (ts : List Transport) (t : Transport) → ts ++ t ∷ [] ≡ [] → ⊥
snoc_not_nil [] t e = cc
snoc_not_nil (x ∷ ts) t e = cc

nil_of : (s : Text) → is_nil s ≡ true → s ≡ []
nil_of [] h = refl
nil_of (c ∷ s) h = cc

-- The two ways in which `NewAgent` ends, from the options after all of them are applied.
unfoldable pub IsBuilt : {F C : Type 0} → Options F C → Error ⊎ Agent F C → Type 0
IsBuilt {F} {C} o r =
    ((a : Agent F C) × (r ≡ inr a) × IsReady a)
    ⊎ ((r ≡ inl no_transport) × (o.endpoint ≡ []) × (o.transports ≡ []))

module _ {F C : Type 0} (std : Std) (u : CaseMap) (m : Machine) (fresh : ℕ) where
  service_named : (h : Text) (o : Options F C) → is_nil (with_names h o).service ≡ false
  unfolding with_names
  service_named h o = ground arith

  make_agent-IsBuilt :
      (o o' : Options F C) (ts : List Transport)
      → is_nil o.service ≡ false
      → ((ts ≡ []) → (o'.endpoint ≡ []) × (o'.transports ≡ []))
      → IsBuilt o' (make_agent std u m fresh o ts)
  unfolding make_agent IsBuilt
  make_agent-IsBuilt o o' [] n h = inr (refl, (h refl).0, (h refl).1)
  make_agent-IsBuilt o o' (t ∷ ts) n h =
      inl
        (_, refl, record { named = n; connected = refl; has_room = capacity_positive o.queue_size })

  finish_attached :
      (o o' : Options F C) (r : Error ⊎ Endpoint) (e : Endpoint)
      → r ≡ inr e
      → is_nil o.service ≡ false
      → IsBuilt o' (finish std u m fresh (attach_http std u m fresh o r))
  unfolding finish attach_http
  finish_attached o o' (inl x) e h n = cc
  finish_attached o o' (inr t) e h n =
      make_agent-IsBuilt _ o' _ n (λ nil_. absurd (snoc_not_nil o.transports _ nil_))

  connected_by_endpoint :
      (o o' : Options F C) (c : ℕ) (r : Text)
      → normalize_http_ingest_url o.endpoint ≡ c ∷ r
      → is_nil o.endpoint ≡ false
      → is_nil o.service ≡ false
      → IsBuilt o' (finish std u m fresh (add_endpoint std u m fresh o))
  unfolding add_endpoint
  connected_by_endpoint o o' c r e given n = rw given (
      finish_attached o o'
        (new_http_transport std (text "http") (normalize_http_ingest_url o.endpoint) (o.token ∷ []))
        _
        (ap (λ url. new_http_transport std (text "http") url (o.token ∷ [])) e
          ∙ (helpers_build std (text "http") r (o.token ∷ []) c).0)
        n)

  connected_without :
      (o o' : Options F C)
      → is_nil o.endpoint ≡ true
      → is_nil o.service ≡ false
      → ((o.transports ≡ []) → (o'.endpoint ≡ []) × (o'.transports ≡ []))
      → IsBuilt o' (finish std u m fresh (add_endpoint std u m fresh o))
  unfolding add_endpoint finish
  connected_without o o' none_given n h = rw none_given (make_agent-IsBuilt o o' o.transports n h)

  -- With any options `NewAgent` either builds an agent that can work, with a service name, a
  -- transport and room in its queue, or fails for the lack of a transport, and then the options gave
  -- neither an endpoint nor a transport: no endpoint is refused.
  pub new_agent-IsBuilt :
      (json : F) (opts : List (Options F C → Options F C))
      → IsBuilt (apply_options opts (default_options json)) (new_agent std u m fresh json opts)
  unfolding new_agent with_names
  new_agent-IsBuilt json opts =
      let o = apply_options opts (default_options json) in
      let n = service_named m.hostname o in
      elim (Bool-cases (is_nil o.endpoint)) [
        | inl e ↦ connected_without (with_names m.hostname o) o e n (λ h. (nil_of o.endpoint e, h))
        | inr e ↦
            let (c, r, same) =
              not_nil-IsCons (normalize_http_ingest_url o.endpoint)
                (normalize-not_nil o.endpoint) in
            connected_by_endpoint (with_names m.hostname o) o c r same e n
      ]
