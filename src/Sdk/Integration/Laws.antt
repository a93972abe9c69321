-- ===== src/Sdk/Integration/Laws.antt =====
-- sdk/integration: at most one agent for the life of a process, when there is none, and what becomes
-- of a panic in `Main`.
use opslog.Prelude.{
  ℕ, ◌+◌, ◌≤◌, ◌≡◌, refl, ap, ◌∙◌, Bool, true, false, not, ◌||◌, Option, none, some, List, [], ◌∷◌,
  Text,
}
use opslog.Signal.{Attr}
use opslog.Sdk.Panic.{
  Reporting, panic_message, panic_attrs, guard, recover_panic, recovered, report_recovered,
  report_panic, log_panic, apply, apply_each, with_attrs,
}
use opslog.Sdk.Integration.{Config}
use opslog.Sdk.Integration.Process.{
  Runtime, Process, Call, init_call, close_call, init, close_held, close, enabled, step, run,
  deferred_guard, Ending, returned, panicked, end_with, run_main, after_main, main,
}

module _ {A W : Type 0} (io : Runtime A W) where
  open io use {start_agent, sync_agent, close_agent}

  init_done : (cfg : Config) (s : Process A W) → s.done ≡ true → init io cfg s ≡ (none, s)
  unfolding init
  init_done cfg s e = rw e refl

  close_none : (s : Process A W) → s.ag ≡ none → close io s ≡ s
  unfolding close close_held
  close_none s e = ap (λ o. close_held io o s) e

  step_settled : (c : Call) (s : Process A W) → s.done ≡ true → s.ag ≡ none → step io c s ≡ s
  unfolding step
  step_settled (init_call cfg) s d n = ap (λ r. r.1) (init_done cfg s d)
  step_settled close_call s d n = close_none s n

  -- Once `Init` has run and there is no agent, because it was disabled, or failed, or the agent has
  -- been closed, no sequence of calls changes anything again: there is never another agent.
  pub run_settled :
      (cs : List Call) (s : Process A W) → s.done ≡ true → s.ag ≡ none → run io cs s ≡ s
  unfolding run
  run_settled [] s d n = refl
  run_settled (c ∷ cs) s d n = ap (run io cs) (step_settled c s d n) ∙ run_settled cs s d n

  init_disabled :
      (cfg : Config) (s : Process A W)
      → s.done ≡ false
      → (cfg.skip || not cfg.enable) ≡ true
      → init io cfg s ≡ (none, record s { done = true })
  unfolding init
  init_disabled cfg s d e = rw (d, e) refl

  -- A first `Init` that is skipped or not enabled returns no error and uses up the one chance to
  -- start: whatever is called after it, an `Init` that enables the agent included, the process
  -- has no agent, and that later `Init` returns no error either.
  pub disabled_first :
      (cfg later : Config) (cs : List Call) (s : Process A W)
      → s.done ≡ false
      → s.ag ≡ none
      → (cfg.skip || not cfg.enable) ≡ true
      → let s' = run io (init_call cfg ∷ cs) s in
        ((init io cfg s).0 ≡ none) × (enabled io s' ≡ false) × (init io later s' ≡ (none, s'))
  unfolding run step enabled
  disabled_first cfg later cs s d n e =
      let first = ap (λ r. r.1) (init_disabled cfg s d e) in
      let all = ap (run io cs) first ∙ run_settled cs (record s { done = true }) refl n in
      (
        ap (λ r. r.0) (init_disabled cfg s d e),
        ap (λ q. elim q.ag as (λ _. Bool) [ none ↦ false | some a ↦ true ]) all
            ∙ ap (λ (o : Option A). elim o as (λ _. Bool) [ none ↦ false | some a ↦ true ]) n,
        init_done later (run io cs (init io cfg s).1) (ap (λ q. q.done) all),
      )

  -- The starts that are left.
  abbrev pub chances : Bool → ℕ
  chances true = 0
  chances false = 1

  -- `starts` reads from the world how often an agent has been started.
  module _ (starts : W → ℕ)
      (started : (cfg : Config) (w : W) → starts (start_agent cfg w).1 ≡ starts w + 1)
      (kept : (a : A) (w : W) → starts (close_agent a (sync_agent a w)) ≡ starts w) where
    -- What a call may do: nothing to the count, or one start where one is left.
    abbrev pub Fits : Process A W → Process A W → Type 0
    Fits s s' = starts s'.world + chances s'.done ≤ starts s.world + chances s.done

  close_some :
      (s : Process A W) (a : A)
      → s.ag ≡ some a
      → close io s ≡ record s { ag = none; world = close_agent a (sync_agent a s.world) }
  unfolding close close_held
  close_some s a e = ap (λ o. close_held io o s) e

  module _ {P : Type 0} (rep : Reporting P A W) where
    -- The guard of a panic: one error, then `Sync`, and the panic has ended.
    deferred_guard-some :
        (a : A) (r : P) (w : W)
        → (closed : (msg : Text) (attrs : List Attr) → rep.log_error a msg attrs w ≡ w)
        → deferred_guard io rep (some a) [] (some r) w ≡ (none, rep.sync_logger a w)
    unfolding deferred_guard guard recover_panic recovered report_recovered report_panic log_panic
        apply apply_each with_attrs
    deferred_guard-some a r w closed =
        ap (λ v. (none, rep.sync_logger a v)) (closed (panic_message rep r _) (panic_attrs rep r _))

    after_close :
        (a : A) (r : P) (s : Process A W) (w : W)
        → ((msg : Text) (attrs : List Attr) → rep.log_error a msg attrs w ≡ w)
        → close io s ≡ record s { ag = none; world = w }
        → after_main io rep (some a) (panicked r, s)
          ≡ (returned none, record s { ag = none; world = rep.sync_logger a w })
    unfolding after_main
    after_close a r s w silent e =
        ap
          (λ (q : Process A W).
            let (pending, v) = deferred_guard io rep (some a) [] (some r) q.world in
            (end_with io (panicked r) pending, record q { world = v }))
          e
        ∙ ap
            (λ (g : Option P × W).
              (end_with io (panicked r) g.0, record s { ag = none; world = g.1 }))
            (deferred_guard-some a r w silent)

    -- A function that panics under `Main` is not reported, where the logger of a closed agent does
    -- nothing: the agent is closed before the guard reports, so what is left of the process, and the
    -- nil error that `Main` returns, are the same whatever the panic was.
    pub main_panic_unreported :
        (fn : Process A W → Ending io P × Process A W) (s s' : Process A W) (a : A) (r : P)
        → ((msg : Text) (attrs : List Attr) (w : W)
            → rep.log_error a msg attrs (close_agent a w) ≡ close_agent a w)
        → s.ag ≡ some a
        → fn s ≡ (panicked r, s')
        → s'.ag ≡ some a
        → main io rep (some fn) s ≡ (
          returned none,
          record s' {
            ag = none;
            world = rep.sync_logger a (close_agent a (sync_agent a s'.world));
          },
        )
    unfolding main run_main
    main_panic_unreported fn s s' a r silent held panics still =
        ap (λ o. after_main io rep o (fn s)) held
        ∙ ap (after_main io rep (some a)) panics
        ∙ after_close a r s' (close_agent a (sync_agent a s'.world))
            (λ msg attrs. silent msg attrs (sync_agent a s'.world)) (close_some s' a still)
