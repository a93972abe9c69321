-- ===== src/Sdk/Agent.antt =====
-- sdk/agent/agent.go: how the agent sends one signal.
pub mod Logger
pub mod Fallback
pub mod Queue
pub mod Options
pub mod Lifecycle
use opslog.Prelude.{
  ℕ, zero, suc, ◌+◌, ◌-◌, ◌*◌, ◌/◌, ◌%◌, ◌^◌, ◌≤◌, ◌<◌, ◌≡◌, refl, sym, ap, ◌∙◌, ◌≢◌, ◌↔◌, ◌⊎◌, inl,
  inr, Bool, true, false, not, ◌&&◌, ◌||◌, Option, none, some, List, [], ◌∷◌, ◌++◌, map,
  append_assoc, append-nil, arith, ltb, leb, ◌==◌, if◌then◌else◌, ltb→lt, leb→le, ==_iff,
  Bool-cases, Option-cases, length, take, drop, is_nil, select, replicate, any, flatten,
  flatten_snoc, length-replicate, length-append, take-append-drop, length-take, length-drop,
  take-append, drop-append, select-append, append_snoc, All, All-append, All-drop, All-take, Text,
  Error, text, text_eq, text_eq_refl, text_eq_sound, text_eq_iff, has_prefix, contains, has_suffix,
  is_space, trim_left, trim_right, trim_space, utf8_len, has_prefix_sound, has_prefix-append,
  HasPart, contains_sound, contains_complete, CaseMap, ascii_lower, ascii_upper, IsAscii, to_lower,
  to_upper, to_lower_ascii, to_upper_ascii, to_lower_idem, ascii, Dict, lookup, insert, without,
  lookup-insert, lookup-without, lookup-insert_self, lookup-append,
}
use opslog.Framer.{Bytes}
use opslog.Sdk.Policy.{Transport, is_error_level}

-- The transports' `Send` over the state of the network: the error, if any.
abbrev pub Send : Type 0 → Type 0
Send W = Transport → Bytes → W → Option Error × W

-- A `sdk.Hook`: the signal, and whether to keep it.
abbrev pub Hook : Type 0 → Type 0
Hook A = A → A × Bool

-- What `Format` returns.
pub data Formatted : Type 0 where
  payload : Bytes → Formatted
  bad : Error → Formatted

-- `isReliableLevel`
unfoldable pub is_reliable_level : CaseMap → Text → Bool
is_reliable_level u level = is_error_level (to_lower u level)

abbrev pub or_first : Option Error → Error → Option Error
or_first none e = some e
or_first (some f) e = some f

-- The loop of `BeforeSend`; `none` when a hook does not keep the signal.
unfoldable pub run_hooks : {A : Type 0} → List (Hook A) → A → Option A
run_hooks [] cur = some cur
run_hooks (h ∷ hooks) cur =
    let (out, keep) = h cur in elim keep [ false ↦ none | true ↦ run_hooks hooks out ]

-- `if err := t.Send(…); err != nil { … }`: goes on by the error of a send.
pub on_error : {W B : Type 0} → Option Error × W → (W → B) → (Error → W → B) → B
on_error (none, w) sent failed = sent w
on_error (some e, w) sent failed = failed e w

module _ {W : Type 0} (send : Send W) where
  -- The loop of `fallbackSend`: the transports but the failed one, until one succeeds. No transport
  -- is nil here. The error returned is the first.
  fallback_from : Transport → Bytes → Option Error → List Transport → W → Option Error × W
  unfolding on_error
  fallback_from failed p first [] w = (first, w)
  fallback_from failed p first (t ∷ ts) w =
      let skipped = fallback_from failed p first ts w in
      let tried =
        on_error (send t p w) (λ w'. (none, w'))
          (λ x w'. fallback_from failed p (or_first first x) ts w') in
      if t.id == failed.id then skipped else tried

  -- `fallbackSend`
  unfoldable pub fallback_send : List Transport → Transport → Bytes → W → Option Error × W
  unfolding fallback_from
  fallback_send transports failed p w = fallback_from failed p none transports w

  -- After a failed send: for a reliable level the fallback, whose success forgets the errors so far.
  after_failure : List Transport → Bool → Transport → Bytes → Option Error → W → Option Error × W
  unfolding fallback_send
  after_failure transports reliable t p first w =
      if reliable
      then (let (fb, w') = fallback_send transports t p w in
          (elim fb as (λ _. Option Error) [ none ↦ none | some _ ↦ first ], w'))
      else (first, w)

  -- The loop over the targets.
  pub send_targets :
      List Transport → Bool → Bytes → Option Error → List Transport → W → Option Error × W
  unfolding after_failure on_error
  send_targets transports reliable p first [] w = (first, w)
  send_targets transports reliable p first (t ∷ ts) w =
      on_error (send t p w) (λ w'. send_targets transports reliable p first ts w')
        (λ x w'.
          let (first', w'') = after_failure transports reliable t p (or_first first x) w' in
          send_targets transports reliable p first' ts w'')

  pub send_payload : List Transport → Bool → List Transport → Formatted → W → Option Error × W
  unfolding send_targets
  send_payload transports reliable targets (bad e) w = (some e, w)
  send_payload transports reliable [] (payload p) w =
      (some (text "sdk/agent: no transport selected"), w)
  send_payload transports reliable (t ∷ ts) (payload p) w =
      send_targets transports reliable p none (t ∷ ts) w

  -- `sendOne`, by its hooks, formatter, policy and the level of a signal.
  unfoldable pub send_one :
      {A : Type 0}
      → CaseMap
      → List (Hook A)
      → (A → Formatted)
      → (A → List Transport → List Transport)
      → (A → Text)
      → List Transport
      → A
      → W
      → Option Error × W
  send_one u hooks format choose level transports sig w = elim (run_hooks hooks sig) [
    | none ↦ (none, w)
    | some cur ↦
        send_payload transports (is_reliable_level u (level cur)) (choose cur transports)
          (format cur) w
  ]
