-- ===== src/Tests/Server.antt =====
-- Runs of the pipeline, the default processor and the dispatcher.
use opslog.Prelude.{
  ℕ, suc, ◌+◌, ◌-◌, ◌≡◌, refl, Bool, true, false, not, none, some, List, [], ◌∷◌, ◌++◌, arith, ◌==◌,
  if◌then◌else◌, flatten, text,
}
use opslog.Signal.{empty_event}
use opslog.Pipeline.{Processor, process}
use opslog.Processor.{Heap}
use opslog.Dispatcher.{Options, Output, dispatch, write}
use opslog.Dispatcher.Laws.{Explains, dispatch-Explains}
use opslog.Dispatcher.Loop.{
  LoopEvent, Async, running, stopped, offered, receive, tick, cancel, start, run,
}
use opslog.Dispatcher.Loop.Invariant.{Inv, run-start-Inv}
use opslog.Dispatcher.Loop.Drain.{drain_events, stop_writes_all}
use opslog.Dispatcher.Loop

-- An output that keeps the batches it is given, or refuses them all.
abbrev disk : Output (Bool × List (List ℕ)) ℕ
disk = record {
  write = λ o b. if o.0 then (o, some (text "disk full")) else ((o.0, o.1 ++ b ∷ []), none);
  flush = λ o. (o, if o.0 then some (text "disk full") else none);
}

abbrev disks : List (Bool × List (List ℕ))
disks = (true, []) ∷ (false, []) ∷ []

abbrev small : Options
small = record { queue_size = 2; batch_size = 2; flush_every = 5 }

-- Three signals, of which the third finds the queue full, one received, and one more.
abbrev events : List (LoopEvent ℕ)
events =
    offered 1 false false
    ∷ offered 2 false false
    ∷ offered 3 false false
    ∷ receive
    ∷ offered 4 false false
    ∷ receive
    ∷ []

run_test :
    (run disk small events (start disk small disks)).outputs
    ≡ (true, []) ∷ (false, (1 ∷ 2 ∷ []) ∷ []) ∷ []
unfolding run Loop.step write
run_test = refl

-- A processor that drops zero, and one that adds one.
abbrev nonzero : Processor ℕ ℕ
nonzero n s = ((n, not (n == 0), none), suc s)

abbrev bump : Processor ℕ ℕ
bump n s = ((n + 1, true, none), s)

run-start-Inv_example :
    Inv disk small disks (small.batch_size - 1) (run disk small events (start disk small disks))
run-start-Inv_example = run-start-Inv disk small disks events (omega arith)

stop_writes_all_example :
    let d = run disk small events (start disk small disks) in
    let d' = run disk small (cancel ∷ drain_events disk small d.queue) d in
    (d'.phase ≡ stopped) × (flatten d'.batches ≡ d.accepted)
unfolding run Loop.step
stop_writes_all_example = stop_writes_all disk small disks events (omega arith) refl

dispatch-Explains_example :
    let r = dispatch (nonzero ∷ bump ∷ []) 2 (7 ∷ []) false false 4 0 in
    Explains
      (nonzero ∷ bump ∷ [])
      2
      (7 ∷ [])
      false
      (process (nonzero ∷ bump ∷ []) 4 0).0
      r.0.0
      r.0.1
    × (r.1 ≡ (process (nonzero ∷ bump ∷ []) 4 0).1)
dispatch-Explains_example = dispatch-Explains (nonzero ∷ bump ∷ []) 2 (7 ∷ []) false false 4 0

-- One event with an upper-case level and no time behind the pointer 3.
abbrev heap : Heap
heap q = if q == 3 then record empty_event { level = text "ERROR" } else empty_event
