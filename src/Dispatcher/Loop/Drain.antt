-- ===== src/Dispatcher/Loop/Drain.antt =====
-- `Stop`: after the cancel the loop drains the queue, writes the last batch and returns.
use opslog.Prelude.{
  suc, ◌-◌, ◌<◌, ◌≡◌, refl, sym, ap, ◌∙◌, inl, inr, List, [], ◌∷◌, ◌++◌, arith, leb, Bool-cases,
  length, is_nil, replicate, flatten,
}
use mathlib.Core.Path.{subst}
use opslog.Dispatcher.{Options, Output}
use opslog.Dispatcher.Loop.{
  running, draining, stopped, Async, LoopEvent, receive, cancel, start, flush_batch, collect,
  receive_from, cancel_in, step, run,
}
use opslog.Dispatcher.Loop.Invariant.{Inv, Inv-empty, run-Inv, run-start-Inv}

module _ {O A : Type 0} (io : Output O A) (opt : Options) where
  -- What a drain leaves: nothing in hand, and the record of what was accepted as it was.
  abbrev pub IsDrained : List A → Async O A → Type 0
  IsDrained accepted d =
      (d.phase ≡ stopped) × (d.queue ≡ []) × (d.batch ≡ []) × (d.accepted ≡ accepted)

  flush_batch-rest :
      (d : Async O A)
      → ((flush_batch io opt d).queue ≡ d.queue)
        × ((flush_batch io opt d).phase ≡ d.phase)
        × ((flush_batch io opt d).accepted ≡ d.accepted)
        × ((flush_batch io opt d).batch ≡ [])
  unfolding flush_batch
  flush_batch-rest d = elim (Bool-cases (is_nil d.batch)) [
    | inl e ↦ simp e (refl, refl, refl, ground arith)
    | inr e ↦ simp e (refl, refl, refl, refl)
  ]

  collect-rest :
      (sig : A) (rest : List A) (d : Async O A)
      → ((collect io opt sig rest d).queue ≡ rest)
        × ((collect io opt sig rest d).phase ≡ d.phase)
        × ((collect io opt sig rest d).accepted ≡ d.accepted)
  unfolding collect
  collect-rest sig rest d =
      let d' : Async O A = record d { queue = rest; batch = d.batch ++ sig ∷ [] } in
      let (q, p, a, b) = flush_batch-rest d' in
      elim (Bool-cases (leb opt.batch_size (length d'.batch))) [
        | inl e ↦ simp e (q, p, a)
        | inr e ↦ simp e (refl, refl, refl)
      ]

  step-drain-cons :
      (sig : A) (rest : List A) (d : Async O A)
      → d.queue ≡ sig ∷ rest
      → d.phase ≡ draining
      → step io opt receive d ≡ collect io opt sig rest d
  unfolding step receive_from
  step-drain-cons sig rest d e p = λ i. receive_from io opt (p i) (e i) d

  step-drain-nil :
      (d : Async O A)
      → d.queue ≡ []
      → d.phase ≡ draining
      → step io opt receive d ≡ record (flush_batch io opt d) { phase = stopped }
  unfolding step receive_from
  step-drain-nil d e p = λ i. receive_from io opt (p i) (e i) d

  -- A round of the drain for each signal in the queue, and one for the default case.
  abbrev pub drain_events : List A → List (LoopEvent A)
  drain_events queue = replicate (suc (length queue)) receive

  drain-IsDrained :
      (q : List A) (d : Async O A)
      → d.queue ≡ q
      → d.phase ≡ draining
      → IsDrained d.accepted (run io opt (drain_events q) d)
  unfolding run replicate
  drain-IsDrained [] d e p =
      let (same, _, acc, none_left) = flush_batch-rest d in
      rw (step-drain-nil d e p) (refl, same ∙ e, none_left, acc)
  drain-IsDrained (sig ∷ rest) d e p =
      let (q, ph, acc) = collect-rest sig rest d in
      let after : Async O A → Async O A = run io opt (drain_events rest) in
      subst (λ t. IsDrained d.accepted (after t)) (sym (step-drain-cons sig rest d e p))
        (subst (λ a. IsDrained a (after (collect io opt sig rest d))) acc
          (drain-IsDrained rest (collect io opt sig rest d) q (ph ∙ p)))

  cancel-draining :
      (d : Async O A) → d.phase ≡ running → step io opt cancel d ≡ record d { phase = draining }
  unfolding step cancel_in
  cancel-draining d p = λ i. cancel_in io opt (p i) d

  -- If a running dispatcher is cancelled, and nothing is dispatched from then on, the loop returns
  -- after one round for each queued signal and one more, and by then the written batches together
  -- are all the signals that ever went into the queue, in order.
  pub stop_writes_all :
      (outputs : List O) (events : List (LoopEvent A))
      → 0 < opt.batch_size
      → (run io opt events (start io opt outputs)).phase ≡ running
      → let d = run io opt events (start io opt outputs) in
        let d' = run io opt (cancel ∷ drain_events d.queue) d in
        (d'.phase ≡ stopped) × (flatten d'.batches ≡ d.accepted)
  unfolding run
  stop_writes_all outputs events pos r =
      let d : Async O A = run io opt events (start io opt outputs) in
      let c : Async O A = step io opt cancel d in
      let cancelled : c ≡ record d { phase = draining } = cancel-draining d r in
      let (ended, no_queue, no_batch, acc) =
        drain-IsDrained d.queue c (ap (λ (t : Async O A). t.queue) cancelled)
          (ap (λ (t : Async O A). t.phase) cancelled) in
      let h : Inv io opt outputs (opt.batch_size - 1)
          (run io opt (cancel ∷ drain_events d.queue) d) =
        run-Inv io opt outputs pos (cancel ∷ drain_events d.queue) d
          (run-start-Inv io opt outputs events pos) in
      (
        ended,
        Inv-empty io opt outputs h no_batch no_queue
            ∙ (acc ∙ ap (λ (t : Async O A). t.accepted) cancelled),
      )
