-- ===== src/Sdk/Enricher/Diagnostic/Laws.antt =====
-- sdk/enricher/diag.go: what the hook changes of an event, and that no secret goes out with it.
use opslog.Prelude.{
  ◌≡◌, refl, ap, ◌∙◌, inl, inr, Bool, true, false, Option, none, some, [], ◌∷◌, arith, ◌==◌,
  Bool-cases, Option-cases, All, Text, text, text_eq_iff, CaseMap, Dict, lookup, insert,
  lookup-insert, insert-All, lookup-All,
}
use opslog.Signal.{
  Value, str, environ, other, Event, event, foreign, view, clone, copy_into, get_attr,
}
use opslog.Signal.Laws.{IsMap, clone_same}
use opslog.Sdk.Enricher.{is_secret_env_key}
use opslog.Sdk.Enricher.Laws.{HasNoSecrets, collected_no_secrets}
use opslog.Sdk.Enricher.Diagnostic.{
  Machine, SysCache, Status, Diagnostic, static_attrs, ensure_static, freeze, put_text, put_environ,
  service_attrs, environ_attrs, put_status, sys_attrs, collect_system_status, frozen_attrs,
  build_attrs, fill, made, send_filled, before_send,
}

-- An attribute that is an environment without secrets, or no environment.
abbrev pub IsClean : CaseMap → Value → Type 0
IsClean u (environ m) = HasNoSecrets u m
IsClean u _ = Unit

abbrev pub HasCleanAttrs : CaseMap → Dict Value → Type 0
HasCleanAttrs u = All (λ e. IsClean u e.1)

-- What `ensureStatic` froze is clean; nothing is frozen at first.
abbrev pub HasCleanFrozen : CaseMap → Option (Dict Value × Dict Text) → Type 0
HasCleanFrozen u none = Unit
HasCleanFrozen u (some f) = HasCleanAttrs u f.0 × HasNoSecrets u f.1

copy_into-All :
    {V : Type 0} (P : Text × V → Type 0) (out m : Dict V)
    → All P out
    → All P m
    → All P (copy_into out m)
unfolding copy_into
copy_into-All P out [] h k = h
copy_into-All P out ((j, v) ∷ m) h (p, k) =
    copy_into-All P (insert j v out) m (insert-All P j v out p h) k

module _ (u : CaseMap) where
  put_text-clean :
      (k v : Text) (m : Dict Value) → HasCleanAttrs u m → HasCleanAttrs u (put_text u k v m)
  unfolding put_text
  put_text-clean k [] m h = h
  put_text-clean k (c ∷ v) m h = insert-All (λ e. IsClean u e.1) k (str (c ∷ v)) m tt h

  put_environ-clean :
      (k : Text) (env : Dict Text) (m : Dict Value)
      → HasNoSecrets u env
      → HasCleanAttrs u m
      → HasCleanAttrs u (put_environ u k env m)
  unfolding put_environ
  put_environ-clean k [] m p h = h
  put_environ-clean k (e ∷ env) m p h =
      insert-All (λ e'. IsClean u e'.1) k (environ (e ∷ env)) m p h

  service_attrs-clean :
      (m : Machine) (d : Diagnostic) (static : Dict Value)
      → HasCleanAttrs u static
      → HasCleanAttrs u (service_attrs u m d static)
  unfolding service_attrs
  service_attrs-clean m d static h =
      put_environ-clean _ _ _ (collected_no_secrets u m.os d.env_keys d.max_environ).0 (
        put_text-clean _ _ _ (
          put_text-clean _ _ _ (
            put_text-clean _ _ _
              (put_text-clean _ _ _ (copy_into-All (λ e. IsClean u e.1) [] static tt h)))))

  environ_attrs-clean :
      (m : Machine) (d : Diagnostic) (startup : Dict Text) (attrs : Dict Value)
      → HasNoSecrets u startup
      → HasCleanAttrs u attrs
      → HasCleanAttrs u (environ_attrs u m d startup attrs)
  unfolding environ_attrs
  environ_attrs-clean m d startup attrs p h =
      let (_, process, system) = collected_no_secrets u m.os d.env_keys d.max_environ in
      elim (Bool-cases d.include_environ) [
        | inl e ↦ simp e (
            put_environ-clean _ _ _ process (
              put_environ-clean _ _ _ process (
                put_environ-clean _ _ _ system (
                  put_environ-clean _ _ _
                    (copy_into-All (λ e'. is_secret e' ≡ false) [] startup tt p) h))))
        | inr e ↦ simp e h
      ]
    where
      is_secret : Text × Text → Bool
      is_secret e = is_secret_env_key u e.0

  sys_attrs-clean :
      (m : Machine) (d : Diagnostic) (cache : SysCache) (attrs : Dict Value)
      → HasCleanAttrs u attrs
      → HasCleanAttrs u (sys_attrs u m d cache attrs).0
  unfolding sys_attrs put_status
  sys_attrs-clean m d cache attrs h = elim (Bool-cases d.include_sys) [
    | inl e ↦ simp e (status_clean (collect_system_status m cache))
    | inr e ↦ simp e h
  ]
    where
      status_clean : (s : Status × SysCache) → HasCleanAttrs u (put_status u s attrs).0
      status_clean (s, c) = elim (Bool-cases (0 == s.size)) [
        | inl e ↦ simp e h
        | inr e ↦
            simp e (insert-All (λ e'. IsClean u e'.1) (text "sys") (other s.content) attrs tt h)
      ]

  static_attrs-clean : (m : Machine) → HasCleanAttrs u (static_attrs m)
  static_attrs-clean m = (tt, (tt, (tt, (tt, (tt, (tt, tt))))))

  freeze-clean :
      (m : Machine) (d : Diagnostic) (f : Option (Dict Value × Dict Text))
      → d.frozen ≡ f
      → HasCleanFrozen u f
      → HasCleanFrozen u (freeze u m d f).frozen
  unfolding freeze
  freeze-clean m d none e h =
      (static_attrs-clean m, (collected_no_secrets u m.os d.env_keys d.max_environ).1)
  freeze-clean m d (some f) e h = rw e h

  ensure_static-clean :
      (m : Machine) (d : Diagnostic)
      → HasCleanFrozen u d.frozen
      → HasCleanFrozen u (ensure_static u m d).frozen
  unfolding ensure_static
  ensure_static-clean m d h = freeze-clean m d d.frozen refl h

  frozen_attrs-clean :
      (f : Option (Dict Value × Dict Text))
      → HasCleanFrozen u f
      → HasCleanAttrs u (frozen_attrs u f).0 × HasNoSecrets u (frozen_attrs u f).1
  unfolding frozen_attrs
  frozen_attrs-clean none h = (tt, tt)
  frozen_attrs-clean (some f) h = h

  build_attrs-clean :
      (m : Machine) (d : Diagnostic) (cache : SysCache)
      → HasCleanFrozen u d.frozen
      → HasCleanAttrs u (build_attrs u m d cache).0
  unfolding build_attrs
  build_attrs-clean m d cache h =
      let (static, startup) = frozen_attrs-clean d.frozen h in
      sys_attrs-clean m d cache _
        (environ_attrs-clean m d _ _ startup (service_attrs-clean m d _ static))

  lookup-fill :
      (k : Text) (out attrs : Dict Value)
      → lookup k (fill u out attrs)
        ≡ elim (lookup k out) [ some v ↦ some v | none ↦ lookup k attrs ]
  unfolding fill lookup
  lookup-fill k out [] = ground arith
  lookup-fill k out ((j, v) ∷ attrs) = elim (Option-cases (lookup j out)) [
    | inr (w, e) ↦ ground (arith, e, text_eq_iff j k, lookup-fill k out attrs)
    | inl e ↦
        ground
          (arith, e, text_eq_iff j k, lookup-insert j k v out, lookup-fill k (insert j v out) attrs)
  ]

  lookup-made : (k : Text) (a : Option (Dict Value)) → lookup k (made u a) ≡ get_attr a k
  unfolding lookup
  lookup-made k none = refl
  lookup-made k (some m) = refl

  -- What the hook sends in place of an event.
  unfoldable pub sent_event : Machine → Diagnostic → SysCache → Event → Event
  sent_event m d cache e = view (before_send u m d cache (event e)).signal

  -- The hook keeps every signal. A signal that is not an event goes through unchanged. An event
  -- keeps its fields and every attribute that it has; the attributes it lacks are those that
  -- `buildAttrs` gives at that moment, after `ensureStatic`.
  pub before_send_lem :
      (m : Machine) (d : Diagnostic) (cache : SysCache) (e : Event) (k : Text)
      → IsMap e.attrs
      → ((before_send u m d cache (event e)).keep ≡ true)
        × ((before_send u m d cache (foreign e)).signal ≡ foreign e)
        × (record (sent_event m d cache e) { attrs = e.attrs } ≡ e)
        × (get_attr (sent_event m d cache e).attrs k ≡ elim (get_attr e.attrs k) [
          | some v ↦ some v
          | none ↦ lookup k (build_attrs u m (ensure_static u m d) cache).0
        ])
  unfolding before_send send_filled sent_event
  before_send_lem m d cache e k h =
      let attrs = (build_attrs u m (ensure_static u m d) cache).0 in
      let same = clone_same e k h in
      (
        refl,
        refl,
        same.1,
        lookup-fill k (made u (clone e).attrs) attrs
            ∙ ap (λ (o : Option Value). elim o [ some v ↦ some v | none ↦ lookup k attrs ])
                (lookup-made k (clone e).attrs ∙ same.0),
      )

  -- An environment that the hook adds to an event has no variable with a secret name, whatever it
  -- froze at its start, if that had none; and what it has frozen afterwards has none.
  pub before_send_no_secrets :
      (m : Machine) (d : Diagnostic) (cache : SysCache) (e : Event) (k : Text) (env : Dict Text)
      → HasCleanFrozen u d.frozen
      → IsMap e.attrs
      → get_attr e.attrs k ≡ none
      → get_attr (sent_event m d cache e).attrs k ≡ some (environ env)
      → HasNoSecrets u env × HasCleanFrozen u (before_send u m d cache (event e)).hook.frozen
  unfolding before_send send_filled
  before_send_no_secrets m d cache e k env clean h lacks sent = (
    lookup-All (IsClean u) k (environ env) (build_attrs u m (ensure_static u m d) cache).0
        (build_attrs-clean m (ensure_static u m d) cache (ensure_static-clean m d clean))
        (cc ((before_send_lem m d cache e k h).3, lacks, sent)),
    ensure_static-clean m d clean,
  )
