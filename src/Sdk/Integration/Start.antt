-- ===== src/Sdk/Integration/Start.antt =====
-- sdk/integration/integration.go: `startAgent` as a whole, and the agent that the process keeps.
use opslog.Prelude.{
  ℕ, ◌≡◌, refl, sym, ap, ◌⊎◌, inl, inr, true, false, not, ◌||◌, Option, none, some, [], Error,
  CaseMap,
}
use mathlib.Core.Path.{subst}
use opslog.Cfg.{Std}
use opslog.Sdk.Enricher.Diagnostic.{Machine}
use opslog.Sdk.Agent.Options.{Agent}
use opslog.Sdk.Agent.Options.Laws.{IsReady}
use opslog.Sdk.Integration.{Config, no_transport, parse_transport, with_defaults, build_agent}
use opslog.Sdk.Integration.Build.{IsStartable, build_agent-IsStartable}
use opslog.Sdk.Integration.Process.{Runtime, Process, init, initialised}

-- The methods of an agent over the state `W` of the process.
pub record Methods (F C W : Type 0) : Type 0 where
  pub start : Agent F C → W → Option Error × W
  pub sync : Agent F C → W → W
  pub close : Agent F C → W → W

module _ (F C : Type 0) {W : Type 0} (u : CaseMap) (std : Std) (m : Machine) (fresh : ℕ) (json : F)
    (io : Methods F C W) where
  -- An agent that does not start is closed, and the error is returned.
  unfoldable pub kept_if_started : Agent F C → Option Error × W → (Error ⊎ Agent F C) × W
  kept_if_started a (some e, w) = (inl e, io.close a w)
  kept_if_started a (none, w) = (inr a, w)

  unfoldable pub start_built : Error ⊎ Agent F C → W → (Error ⊎ Agent F C) × W
  start_built (inl e) w = (inl e, w)
  start_built (inr a) w = kept_if_started a (io.start a w)

  -- `startAgent`
  unfoldable pub start_agent : Config → W → (Error ⊎ Agent F C) × W
  start_agent cfg w = start_built (build_agent u F C std m fresh json cfg) w

  -- What the process is run with.
  unfoldable pub runtime : Runtime (Agent F C) W
  runtime = record { start_agent = start_agent; sync_agent = io.sync; close_agent = io.close }

  -- What a first `Init` that is enabled leaves: an agent that can work and has started; or its error,
  -- with the agent closed and none kept; or the one configuration without a transport.
  pub IsInitialised : Config → Process (Agent F C) W → Option Error × Process (Agent F C) W → Type 0
  IsInitialised cfg s (e, s') =
      ((a : Agent F C) × (e ≡ none)
        × (s'.ag ≡ some a)
        × IsReady a
        × ((io.start a s.world).0 ≡ none))
      ⊎ (((a : Agent F C) × (x : Error) × (e ≡ some x)
            × (s'.ag ≡ none)
            × ((io.start a s.world).0 ≡ some x)
            × (s'.world ≡ io.close a (io.start a s.world).1))
          ⊎ ((e ≡ some no_transport)
              × (s'.ag ≡ none)
              × (s'.world ≡ s.world)
              × (parse_transport u (with_defaults u cfg).transport ≡ (false, true))
              × (cfg.udp_endpoint ≡ [])))

  kept-IsInitialised :
      (cfg : Config) (s : Process (Agent F C) W) (a : Agent F C) (r : Option Error × W)
      → io.start a s.world ≡ r
      → s.ag ≡ none
      → IsReady a
      → IsInitialised cfg s (initialised runtime cfg s (kept_if_started a r))
  unfolding IsInitialised initialised kept_if_started runtime
  kept-IsInitialised cfg s a (some x, w) e n ready =
      inr (inl (a, x, refl, n, ap (λ r. r.0) e, ap (λ r. io.close a r.1) (sym e)))
  kept-IsInitialised cfg s a (none, w) e n ready = inl (a, refl, refl, ready, ap (λ r. r.0) e)

  failed_build :
      (cfg : Config) (s : Process (Agent F C) W)
      → s.ag ≡ none
      → parse_transport u (with_defaults u cfg).transport ≡ (false, true)
      → cfg.udp_endpoint ≡ []
      → IsInitialised cfg s (initialised runtime cfg s (inl no_transport, s.world))
  unfolding IsInitialised initialised runtime
  failed_build cfg s n want bare = inr (inr (refl, n, refl, want, bare))

  built-IsInitialised :
      (cfg : Config) (s : Process (Agent F C) W) (b : Error ⊎ Agent F C)
      → IsStartable F C u std m fresh cfg b
      → s.ag ≡ none
      → IsInitialised cfg s (initialised runtime cfg s (start_built b s.world))
  unfolding IsStartable start_built
  built-IsInitialised cfg s b (inl (a, e, ready)) n =
      subst (λ q. IsInitialised cfg s (initialised runtime cfg s (start_built q s.world))) (sym e)
        (kept-IsInitialised cfg s a (io.start a s.world) refl n ready)
  built-IsInitialised cfg s b (inr (e, want, none_given)) n =
      subst (λ q. IsInitialised cfg s (initialised runtime cfg s (start_built q s.world))) (sym e)
        (failed_build cfg s n want none_given)

  -- The first `Init` that is enabled ends in one of three ways: without an error, and the process
  -- keeps an agent that can work and that started; with the error of an agent that did not start,
  -- which is closed and not kept; or without a transport, for UDP alone without an endpoint.
  pub init-IsInitialised :
      (cfg : Config) (s : Process (Agent F C) W)
      → s.done ≡ false
      → (cfg.skip || not cfg.enable) ≡ false
      → s.ag ≡ none
      → IsInitialised cfg s (init runtime cfg s)
  unfolding init runtime start_agent
  init-IsInitialised cfg s d on n =
      simp (d, on)
        (built-IsInitialised cfg s (build_agent u F C std m fresh json cfg)
          (build_agent-IsStartable F C u std m fresh json cfg) n)
