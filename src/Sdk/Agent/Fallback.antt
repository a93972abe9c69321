-- ===== src/Sdk/Agent/Fallback.antt =====
-- What sending guarantees: a reliable signal reaches a transport that works.
use opslog.Prelude.{
  ℕ, suc, ◌≡◌, refl, sym, ap, ◌∙◌, ◌≢◌, inl, inr, Bool, true, false, Option, none, some, List, [],
  ◌∷◌, arith, ◌==◌, ==_iff, Bool-cases, Error, CaseMap,
}
use mathlib.Core.List.{Memᴰ}
use opslog.Framer.{Bytes}
use opslog.Signal.{Event}
use opslog.Sdk.Policy.{Transport, LevelPolicy, select_transports}
use opslog.Sdk.Policy.Laws.{select-IsChoice}
use opslog.Sdk.Agent.{
  Send, Hook, Formatted, payload, is_reliable_level, run_hooks, on_error, or_first, fallback_from,
  fallback_send, after_failure, send_targets, send_payload, send_one,
}

-- A network that counts what it delivered. A successful send delivers the payload once, and a
-- failed one does not.
pub record Network (W : Type 0) : Type 0 where
  pub send : Send W
  pub delivered : W → ℕ
  pub send_ok :
      (t : Transport) (p : Bytes) (w : W)
      → (send t p w).0 ≡ none
      → delivered (send t p w).1 ≡ suc (delivered w)
  pub send_failed :
      (t : Transport) (p : Bytes) (w : W) (e : Error)
      → (send t p w).0 ≡ some e
      → delivered (send t p w).1 ≡ delivered w

none-ne-some : (x : Error) → ¬ (none ≡ some x)
none-ne-some x e = cc

-- To prove something of both ways to go on.
on_error_elim :
    {W B : Type 0} (P : B → Type 0) (r : Option Error × W) (sent : W → B) (failed : Error → W → B)
    → (r.0 ≡ none → P (sent r.1))
    → ((x : Error) → r.0 ≡ some x → P (failed x r.1))
    → P (on_error r sent failed)
unfolding on_error
on_error_elim P (none, w) sent failed h k = h refl
on_error_elim P (some x, w) sent failed h k = k x refl

on_error_ok :
    {W B : Type 0} (r : Option Error × W) (sent : W → B) (failed : Error → W → B)
    → r.0 ≡ none
    → on_error r sent failed ≡ sent r.1
unfolding on_error
on_error_ok (none, w) sent failed e = refl
on_error_ok (some x, w) sent failed e = cc

on_error_failed :
    {W B : Type 0} (r : Option Error × W) (sent : W → B) (failed : Error → W → B) (x : Error)
    → r.0 ≡ some x
    → on_error r sent failed ≡ failed x r.1
unfolding on_error
on_error_failed (none, w) sent failed x e = cc
on_error_failed (some y, w) sent failed x e = ground arith

on_error_same :
    {W : Type 0} (r : Option Error × W) → on_error r (λ w. (none, w)) (λ x w. (some x, w)) ≡ r
unfolding on_error
on_error_same (none, w) = refl
on_error_same (some x, w) = refl

module _ {W : Type 0} (net : Network W) where
  open net use {send, delivered, send_ok, send_failed}

  -- A transport that takes the payload in every state of the network.
  abbrev pub Works : Bytes → Transport → Type 0
  Works p t = (x : Transport) (w : W) → x.id ≡ t.id → (send x p w).0 ≡ none

  -- A success with exactly one copy delivered since a state.
  abbrev pub DeliveredOnce : W → Option Error × W → Type 0
  DeliveredOnce w r = (r.0 ≡ none) × (delivered r.1 ≡ suc (delivered w))

  fallback_from_delivers :
      (failed t : Transport) (p : Bytes) (first : Option Error) (ts : List Transport) (w : W)
      → Memᴰ t ts
      → t.id ≢ failed.id
      → Works p t
      → DeliveredOnce w (fallback_from send failed p first ts w)
  unfolding fallback_from
  fallback_from_delivers failed t p first [] w mem ne works = elim mem [ ]
  fallback_from_delivers failed t p first (x ∷ ts) w mem ne works =
      elim (Bool-cases (x.id == failed.id)) [
        | inl same ↦
            rw same (fallback_from_delivers failed t p first ts w (later same mem) ne works)
        | inr other ↦ rw other (
            on_error_elim (DeliveredOnce w) (send x p w) _ _ (λ e. (refl, send_ok x p w e))
              (λ y e.
                let (done, count) =
                  fallback_from_delivers failed t p (or_first first y) ts (send x p w).1
                    (not_this y e mem) ne works in
                (done, count ∙ ap suc (send_failed x p w y e))))
      ]
    where
      later : (x.id == failed.id) ≡ true → Memᴰ t (x ∷ ts) → Memᴰ t ts
      later same (Memᴰ.head e) =
          absurd (ne (ap (λ (y : Transport). y.id) e ∙ (==_iff x.id failed.id).0 same))
      later same (Memᴰ.tail m) = m

      not_this : (y : Error) → (send x p w).0 ≡ some y → Memᴰ t (x ∷ ts) → Memᴰ t ts
      not_this y e (Memᴰ.head h) =
          absurd (none-ne-some y (sym (works x w (ap (λ (z : Transport). z.id) (sym h))) ∙ e))
      not_this y e (Memᴰ.tail m) = m

  -- One target, in a list of transports of which one works.
  send_target_delivers :
      (transports : List Transport) (t0 t : Transport) (p : Bytes) (w : W)
      → Memᴰ t transports
      → Works p t
      → DeliveredOnce w (send_targets send transports true p none (t0 ∷ []) w)
  unfolding send_targets after_failure fallback_send
  send_target_delivers transports t0 t p w mem works =
      on_error_elim (DeliveredOnce w) (send t0 p w) _ _ (λ e. (refl, send_ok t0 p w e))
        (λ x e.
          let ne : t.id ≢ t0.id = λ same. none-ne-some x (sym (works t0 w (sym same)) ∙ e) in
          let (done, count) =
            fallback_from_delivers t0 t p none transports (send t0 p w).1 mem ne works in
          (rw done refl, count ∙ ap suc (send_failed t0 p w x e)))

  module _ (u : CaseMap) (hooks : List (Hook Event)) (format : Event → Formatted)
      (policy : LevelPolicy) where
    -- `sendOne` of an agent whose policy is a `LevelPolicy`.
    abbrev pub send_by_level : List Transport → Event → W → Option Error × W
    send_by_level transports sig w =
        send_one send u hooks format (select_transports u policy) (λ e. e.level) transports sig w

    send_one-kept :
        (transports targets : List Transport) (sig cur : Event) (p : Bytes) (w : W)
        (reliable : Bool)
        → run_hooks hooks sig ≡ some cur
        → format cur ≡ payload p
        → is_reliable_level u cur.level ≡ reliable
        → select_transports u policy cur transports ≡ targets
        → send_by_level transports sig w
          ≡ send_payload send transports reliable targets (payload p) w
    unfolding send_one
    send_one-kept transports targets sig cur p w reliable kept good level chosen =
        rw (kept, send_one) (rw (level, chosen, good))

    -- A signal of a reliable level that the hooks keep and the formatter encodes is delivered exactly
    -- once, and `sendOne` returns no error, if any one of the agent's transports works, whichever
    -- transport the policy prefers and however the others fail.
    pub reliable-DeliveredOnce :
        (first t : Transport) (rest : List Transport) (sig cur : Event) (p : Bytes) (w : W)
        → run_hooks hooks sig ≡ some cur
        → format cur ≡ payload p
        → is_reliable_level u cur.level ≡ true
        → Memᴰ t (first ∷ rest)
        → Works p t
        → DeliveredOnce w (send_by_level (first ∷ rest) sig w)
    reliable-DeliveredOnce first t rest sig cur p w kept good reliable mem works =
        let (t0, chosen, _) = select-IsChoice u policy cur first rest in
        rw (send_one-kept (first ∷ rest) (t0 ∷ []) sig cur p w true kept good reliable chosen)
          (unfold send_payload in send_target_delivers (first ∷ rest) t0 t p w mem works)

    -- A signal that a hook drops is not sent at all, and the call succeeds.
    pub dropped_not_sent :
        (transports : List Transport) (sig : Event) (w : W)
        → run_hooks hooks sig ≡ none
        → send_by_level transports sig w ≡ (none, w)
    unfolding send_one
    dropped_not_sent transports sig w h = rw (h, send_one)

    -- An agent with one transport reports success for a reliable signal whose send failed: the
    -- fallback, which has no other transport to try, returns no error, and nothing was delivered.
    pub lone_failure_reported_as_success :
        (t : Transport) (sig cur : Event) (p : Bytes) (w : W) (x : Error)
        → run_hooks hooks sig ≡ some cur
        → format cur ≡ payload p
        → is_reliable_level u cur.level ≡ true
        → (send t p w).0 ≡ some x
        → ((send_by_level (t ∷ []) sig w).0 ≡ none)
          × (delivered (send_by_level (t ∷ []) sig w).1 ≡ delivered w)
    unfolding send_payload send_targets after_failure fallback_send fallback_from
    lone_failure_reported_as_success t sig cur p w x kept good reliable e =
        let (t0, chosen, choice) = select-IsChoice u policy cur t [] in
        let same : t0 ≡ t = only choice.available in
        rw
          (
            send_one-kept (t ∷ []) (t ∷ []) sig cur p w true kept good reliable
                (chosen ∙ ap (λ (y : Transport). y ∷ []) same),
            on_error_failed (send t p w) _ _ x e,
            (==_iff t.id t.id).1 refl,
          )
          (refl, send_failed t p w x e)
      where
        only : {y : Transport} → Memᴰ y (t ∷ []) → y ≡ t
        only (Memᴰ.head h) = h
        only (Memᴰ.tail m) = elim m [ ]

    -- A signal of another level is tried on its one target only, and the error of that is returned.
    pub unreliable_tried_once :
        (first : Transport) (rest : List Transport) (sig cur : Event) (p : Bytes) (w : W)
        → run_hooks hooks sig ≡ some cur
        → format cur ≡ payload p
        → is_reliable_level u cur.level ≡ false
        → (t : Transport) × (select_transports u policy cur (first ∷ rest) ≡ t ∷ [])
          × (send_by_level (first ∷ rest) sig w ≡ send t p w)
    unfolding send_payload send_targets after_failure
    unreliable_tried_once first rest sig cur p w kept good unreliable =
        let (t, chosen, _) = select-IsChoice u policy cur first rest in
        (
          t,
          chosen,
          rw (send_one-kept (first ∷ rest) (t ∷ []) sig cur p w false kept good unreliable chosen)
              (on_error_same (send t p w)),
        )
