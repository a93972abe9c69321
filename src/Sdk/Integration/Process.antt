-- ===== src/Sdk/Integration/Process.antt =====
-- sdk/integration/integration.go: the agent of the process, its guard, and the bridge of the standard
-- logs.
use opslog.Prelude.{
  ◌⊎◌, inl, inr, Bool, true, false, not, ◌||◌, Option, none, some, List, [], ◌∷◌, ◌==◌,
  if◌then◌else◌, is_nil, Text, Error, text, text_eq, trim_right, CaseMap, to_lower,
}
use opslog.Signal.{Attr, str}
use opslog.Sdk.Panic.{Options, Reporting, guard, with_attrs}
use opslog.Sdk.Integration.{Config, bridge_enabled}

-- What the process does with an agent of type `A` over its state `W`: building and starting one by
-- `startAgent`, and the agent's `Sync` and `Close`.
pub record Runtime (A W : Type 0) : Type 0 where
  pub start_agent : Config → W → (Error ⊎ A) × W
  pub sync_agent : A → W → W
  pub close_agent : A → W → W

-- `once`, whether it has run, and `ag`. The logger is set and cleared with the agent, whose logger it
-- is. `bridged` holds the agent that the standard logs were redirected to.
pub record Process (A W : Type 0) : Type 0 where
  pub done : Bool
  pub ag : Option A
  pub bridged : Option A
  pub world : W

-- A call of the package from outside.
pub data Call : Type 0 where
  init_call : Config → Call
  close_call : Call

module _ {A W : Type 0} (io : Runtime A W) where
  open io use {start_agent, sync_agent, close_agent}

  unfoldable pub initialised : Config → Process A W → (Error ⊎ A) × W → Option Error × Process A W
  initialised cfg s (inl e, w) = (some e, record s { done = true; world = w })
  initialised cfg s (inr a, w) = (
    none,
    record {
      done = true;
      ag = some a;
      bridged = if bridge_enabled cfg then some a else s.bridged;
      world = w;
    },
  )

  -- `Init`: the function of `once` runs on the first call only, whatever comes of it.
  unfoldable pub init : Config → Process A W → Option Error × Process A W
  init cfg s =
      if s.done
      then (none, s)
      else if cfg.skip || not cfg.enable
      then (none, record s { done = true })
      else initialised cfg s (start_agent cfg s.world)

  unfoldable pub close_held : Option A → Process A W → Process A W
  close_held none s = s
  close_held (some a) s = record s { ag = none; world = close_agent a (sync_agent a s.world) }

  -- `Close`
  unfoldable pub close : Process A W → Process A W
  close s = close_held s.ag s

  -- `Enabled`; `Agent` and `Logger` return the agent and its logger if there is one.
  unfoldable pub enabled : Process A W → Bool
  enabled s = elim s.ag [ none ↦ false | some a ↦ true ]

  unfoldable pub step : Call → Process A W → Process A W
  step (init_call cfg) s = (init cfg s).1
  step close_call s = close s

  unfoldable pub run : List Call → Process A W → Process A W
  run [] s = s
  run (c ∷ cs) s = run cs (step c s)

  -- `Guard` at the moment of `defer Guard(opts...)()`: the closure holds the logger of that moment.
  unfoldable pub deferred_guard :
      {P : Type 0}
      → Reporting P A W
      → Option A
      → List (Option (Options → Options))
      → Option P
      → W
      → Option P × W
  deferred_guard rep none opts pending w = (pending, w)
  deferred_guard rep (some l) [] pending w =
      guard rep (some l)
        (some (with_attrs (record { key = text "component"; value = str (text "process") } ∷ []))
          ∷ [])
        pending w
  deferred_guard rep (some l) (o ∷ opts) pending w = guard rep (some l) (o ∷ opts) pending w

  -- How `Main` ends: with what it returns, or with a panic.
  pub data Ending (P : Type 0) : Type 0 where
    returned : Option Error → Ending P
    panicked : P → Ending P

  -- The panic of an ending, and what `Main` returns where a deferred function has ended the panic: the
  -- zero value of its result.
  abbrev pub pending_of : {P : Type 0} → Ending P → Option P
  pending_of (returned e) = none
  pending_of (panicked r) = some r

  abbrev pub end_with : {P : Type 0} → Ending P → Option P → Ending P
  end_with e (some r) = panicked r
  end_with (returned e) none = returned e
  end_with (panicked r) none = returned none

  unfoldable pub run_main :
      {P : Type 0}
      → Option (Process A W → Ending P × Process A W)
      → Process A W
      → Ending P × Process A W
  run_main none s = (returned none, s)
  run_main (some f) s = f s

  -- The deferred calls of `Main`, the last deferred one first: `Close`, then the guard.
  unfoldable pub after_main :
      {P : Type 0} → Reporting P A W → Option A → Ending P × Process A W → Ending P × Process A W
  after_main rep held (e, s) =
      let s' = close s in
      let (pending, w) = deferred_guard rep held [] (pending_of e) s'.world in
      (end_with e pending, record s' { world = w })

  -- `Main`; a nil function is `none`
  unfoldable pub main :
      {P : Type 0}
      → Reporting P A W
      → Option (Process A W → Ending P × Process A W)
      → Process A W
      → Ending P × Process A W
  main rep fn s = after_main rep s.ag (run_main fn s)

  unfoldable pub main_unless :
      {P : Type 0}
      → Reporting P A W
      → Option (Process A W → Ending P × Process A W)
      → Option Error × Process A W
      → Ending P × Process A W
  main_unless rep fn (some e, s) = (returned (some e), s)
  main_unless rep fn (none, s) = main rep fn s

  -- `MainWithConfig`
  unfoldable pub main_with_config :
      {P : Type 0}
      → Reporting P A W
      → Config
      → Option (Process A W → Ending P × Process A W)
      → Process A W
      → Ending P × Process A W
  main_with_config rep cfg fn s = main_unless rep fn (init cfg s)

-- `loggerWriter` of a logger that is not nil
pub record LoggerWriter : Type 0 where
  pub source : Text
  pub level : Text

-- `Write`: the call of the logger, by its level, with its message and attributes, if there is one.
-- It always returns the length of its argument.
unfoldable pub write : CaseMap → LoggerWriter → Text → Option (Text × Text × List Attr)
write u w p =
    let msg = trim_right (λ c. c == 13 || c == 10) p in
    let level = to_lower u w.level in
    if is_nil msg
    then none
    else some (
      if text_eq level (text "error") || text_eq level (text "warn")
          then text "error"
          else text "info",
      msg,
      record { key = text "source"; value = str w.source } ∷ [],
    )
