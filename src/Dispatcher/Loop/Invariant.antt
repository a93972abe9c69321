-- ===== src/Dispatcher/Loop/Invariant.antt =====
-- What holds between two events of the dispatcher's queue and loop, in every order of events.
use opslog.Prelude.{
  ℕ, ◌-◌, ◌≤◌, ◌<◌, ◌≡◌, refl, sym, ap, ◌∙◌, inl, inr, Bool, false, ◌&&◌, List, [], ◌∷◌, ◌++◌,
  append_assoc, append-nil, arith, ltb, leb, ltb→lt, Bool-cases, length, is_nil, flatten,
  flatten_snoc, length-append, append_snoc, All, All-append,
}
use mathlib.Core.List.{foldl, foldl-append}
use opslog.Dispatcher.{Options, Output, offer, write}
use opslog.Dispatcher.Loop.{
  Phase, running, draining, stopped, Async, LoopEvent, offered, receive, tick, cancel, start,
  flush_batch, collect, receive_from, tick_in, cancel_in, add_offer, step, run,
}

module _ {O A : Type 0} (io : Output O A) (opt : Options) (outputs : List O) where
  abbrev IsBatch : List A → Type 0
  IsBatch b = (0 < length b) × (length b ≤ opt.batch_size)

  -- `room` is how long the loop's batch may be.
  pub record Inv (room : ℕ) (d : Async O A) : Type 0 where
    pub conserved : flatten d.batches ++ (d.batch ++ d.queue) ≡ d.accepted
    pub queue_fits : length d.queue ≤ opt.queue_size
    pub batch_fits : length d.batch ≤ room
    pub batches_fit : All IsBatch d.batches
    pub written : d.outputs ≡ foldl (write io) outputs d.batches

  -- With nothing in hand, the written batches are all that was accepted.
  pub Inv-empty :
      {room : ℕ} {d : Async O A}
      → Inv room d
      → d.batch ≡ []
      → d.queue ≡ []
      → flatten d.batches ≡ d.accepted
  Inv-empty {d = d} h b q =
      sym (append-nil (flatten d.batches))
      ∙ ((λ i. flatten d.batches ++ (sym b i ++ sym q i)) ∙ h.conserved)

  batches_snoc :
      (bs : List (List A)) (b : List A)
      → All IsBatch bs
      → is_nil b ≡ false
      → length b ≤ opt.batch_size
      → All IsBatch (bs ++ b ∷ [])
  batches_snoc bs b h n l = All-append IsBatch bs (b ∷ []) h ((ground arith, l), tt)

  flush_batch-Inv :
      (room : ℕ) (d : Async O A) → room ≤ opt.batch_size → Inv room d → Inv 0 (flush_batch io opt d)
  unfolding flush_batch
  flush_batch-Inv room d small h = elim (Bool-cases (is_nil d.batch)) [
    | inl e ↦ simp e (record {
      conserved = h.conserved;
      queue_fits = h.queue_fits;
      batch_fits = ground arith;
      batches_fit = h.batches_fit;
      written = h.written;
    })
    | inr e ↦ simp e (record {
      conserved =
          rw (flatten_snoc d.batches d.batch)
            (append_assoc (flatten d.batches) d.batch d.queue ∙ h.conserved);
      queue_fits = h.queue_fits;
      batch_fits = omega arith;
      batches_fit = batches_snoc d.batches d.batch h.batches_fit e (omega arith);
      written = rw (foldl-append (write io) outputs d.batches (d.batch ∷ [])) (rw (← h.written));
    })
  ]

  Inv-room : (room wide : ℕ) (d : Async O A) → length d.batch ≤ wide → Inv room d → Inv wide d
  Inv-room room wide d fits h = record {
    conserved = h.conserved;
    queue_fits = h.queue_fits;
    batch_fits = fits;
    batches_fit = h.batches_fit;
    written = h.written;
  }

  -- Changes of the phase alone.
  Inv-phase :
      (room : ℕ) (d : Async O A) (p : Phase) → Inv room d → Inv room (record d { phase = p })
  Inv-phase room d p h = record {
    conserved = h.conserved;
    queue_fits = h.queue_fits;
    batch_fits = h.batch_fits;
    batches_fit = h.batches_fit;
    written = h.written;
  }

  module _ (pos : 0 < opt.batch_size) where
    abbrev pub Holds : Async O A → Type 0
    Holds = Inv (opt.batch_size - 1)

    collect-Inv :
        (sig : A) (rest : List A) (d : Async O A)
        → d.queue ≡ sig ∷ rest
        → Holds d
        → Holds (collect io opt sig rest d)
    unfolding collect
    collect-Inv sig rest d e h = elim (Bool-cases (leb opt.batch_size (length d'.batch))) [
      | inl full ↦ simp full (Inv-room 0 _ _ (omega (arith, flushed.batch_fits)) flushed)
      | inr more ↦ simp more (Inv-room opt.batch_size _ d' (ground arith) wide)
    ]
      where
        d' : Async O A
        d' = record d { queue = rest; batch = d.batch ++ sig ∷ [] }

        wide : Inv opt.batch_size d'
        wide = record {
          conserved = rw (append_snoc d.batch rest sig) (rw e at h.conserved);
          queue_fits = omega (arith, ap length e, h.queue_fits);
          batch_fits = omega (arith, length-append d.batch (sig ∷ []), h.batch_fits);
          batches_fit = h.batches_fit;
          written = h.written;
        }

        flushed : Inv 0 (flush_batch io opt d')
        flushed = flush_batch-Inv opt.batch_size d' (omega arith) wide

    flush-Holds : (d : Async O A) → Holds d → Holds (flush_batch io opt d)
    flush-Holds d h =
        let f : Inv 0 (flush_batch io opt d) = flush_batch-Inv _ d (omega arith) h in
        Inv-room 0 _ _ (omega (arith, f.batch_fits)) f

    receive-Holds :
        (p : Phase) (q : List A) (d : Async O A)
        → d.queue ≡ q
        → Holds d
        → Holds (receive_from io opt p q d)
    unfolding receive_from
    receive-Holds stopped q d e h = h
    receive-Holds running [] d e h = h
    receive-Holds draining [] d e h = Inv-phase _ _ stopped (flush-Holds d h)
    receive-Holds running (sig ∷ rest) d e h = collect-Inv sig rest d e h
    receive-Holds draining (sig ∷ rest) d e h = collect-Inv sig rest d e h

    tick-Holds : (p : Phase) (d : Async O A) → Holds d → Holds (tick_in io opt p d)
    unfolding tick_in
    tick-Holds running d h = flush-Holds d h
    tick-Holds draining d h = h
    tick-Holds stopped d h = h

    cancel-Holds : (p : Phase) (d : Async O A) → Holds d → Holds (cancel_in io opt p d)
    unfolding cancel_in
    cancel-Holds running d h = Inv-phase _ d draining h
    cancel-Holds draining d h = h
    cancel-Holds stopped d h = h

    accept-Holds :
        (sig : A) (d : Async O A)
        → length d.queue < opt.queue_size
        → Holds d
        → Holds (record d { queue = d.queue ++ sig ∷ []; accepted = d.accepted ++ sig ∷ [] })
    accept-Holds sig d room h = record {
      conserved = rw (
        ← h.conserved,
        append_assoc (flatten d.batches) (d.batch ++ d.queue) (sig ∷ []),
        append_assoc d.batch d.queue (sig ∷ []),
      );
      queue_fits = omega (arith, length-append d.queue (sig ∷ []));
      batch_fits = h.batch_fits;
      batches_fit = h.batches_fit;
      written = h.written;
    }

    offer-Holds :
        (sig : A) (done pick_done : Bool) (d : Async O A)
        → Holds d
        → Holds (add_offer io opt sig (offer opt.queue_size d.queue done pick_done sig) d)
    unfolding offer add_offer
    offer-Holds sig done pick_done d h = elim (Bool-cases (ltb (length d.queue) opt.queue_size)) [
      | inl room ↦ rw room (elim (Bool-cases (done && pick_done)) [
        | inl away ↦ rw away h
        | inr here ↦ rw here (accept-Holds sig d (ltb→lt _ _ room) h)
      ])
      | inr none_left ↦ rw none_left (elim (Bool-cases done) [ inl e ↦ rw e h | inr e ↦ rw e h ])
    ]

    pub step-Inv : (e : LoopEvent A) (d : Async O A) → Holds d → Holds (step io opt e d)
    unfolding step
    step-Inv (offered sig done pick_done) d h = offer-Holds sig done pick_done d h
    step-Inv receive d h = receive-Holds d.phase d.queue d refl h
    step-Inv tick d h = tick-Holds d.phase d h
    step-Inv cancel d h = cancel-Holds d.phase d h

    pub run-Inv :
        (events : List (LoopEvent A)) (d : Async O A) → Holds d → Holds (run io opt events d)
    unfolding run
    run-Inv [] d h = h
    run-Inv (e ∷ events) d h = run-Inv events (step io opt e d) (step-Inv e d h)

  start-Inv : Inv (opt.batch_size - 1) (start io opt outputs)
  start-Inv = record {
    conserved = refl;
    queue_fits = omega arith;
    batch_fits = omega arith;
    batches_fit = tt;
    written = refl;
  }

  -- Whatever the order of the calls and of the loop's cases, from a new dispatcher: the batches that
  -- were written, the batch in the loop and the queue are, in this order, the signals that went into
  -- the queue, none lost, doubled or overtaken; the queue and every written batch keep to their
  -- sizes, and no empty batch is written; each output has been given every batch in order.
  pub run-start-Inv :
      (events : List (LoopEvent A))
      → 0 < opt.batch_size
      → Inv (opt.batch_size - 1) (run io opt events (start io opt outputs))
  run-start-Inv events pos = run-Inv pos events _ start-Inv
