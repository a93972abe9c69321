-- ===== src/Sdk/Agent/Lifecycle/Laws.antt =====
-- sdk/agent/agent.go: how far a failing start goes, that closing loses nothing, and the names of what
-- is collected.
use opslog.Prelude.{
  ◌&&◌, Bool, if◌then◌else◌, ◌<◌, ◌≡◌, refl, sym, ap, ◌∙◌, ◌⊎◌, inl, inr, true, false, Option, none,
  some, List, [], ◌∷◌, ◌++◌, append-nil, arith, ltb, ◌==◌, Bool-cases, length, is_nil, All,
  All-append, Error,
}
use opslog.Signal.{Signal, event, foreign}
use opslog.Sdk.Policy.{Transport}
use opslog.Sdk.Agent.Queue.{
  AgentState, agent_step, enqueue_signal, held_at, count_of, Balance, receive-Balance, sent-Balance,
  receive-keeps,
}
use opslog.Sdk.Agent.Lifecycle.{
  Parts, Setup, LiveAgent, Turn, receive, send_held, start_error, start_next, start_each, start,
  started, sent_by, turn, run_turns, flush_each, sync, or_first, close_each, wait, closed_with,
  close_waited, close, name_signal, enqueue_each, collected, run_collectors,
}

-- The network after an operation on each of a list, whatever the operations return.
abbrev pub after_all : {W B T : Type 0} → (T → W → B × W) → List T → W → W
after_all f [] w = w
after_all f (t ∷ ts) w = after_all f ts (f t w).1

-- Each of the operations in turn returns no error.
abbrev pub AllFine : {W T : Type 0} → (T → W → Option Error × W) → List T → W → Type 0
AllFine f [] w = Unit
AllFine f (t ∷ ts) w = ((f t w).0 ≡ none) × AllFine f ts (f t w).1

module _ {C W : Type 0} (io : Parts C W) (a : Setup C) where
  open io use {start_transport, flush_transport, close_transport, send_signal, collect}

  start_next-none :
      (t : Transport) (rest : W → Option Error × W) (r : Option Error × W)
      → r.0 ≡ none
      → start_next io a t rest r ≡ rest r.1
  unfolding start_next
  start_next-none t rest (none, w) e = refl
  start_next-none t rest (some x, w) e = cc

  start_next-some :
      (t : Transport) (rest : W → Option Error × W) (r : Option Error × W) (x : Error)
      → r.0 ≡ some x
      → start_next io a t rest r ≡ (some (start_error io a t x), r.1)
  unfolding start_next
  start_next-some t rest (none, w) x e = cc
  start_next-some t rest (some y, w) x e =
      ap
        (λ (o : Option Error). elim o as (λ _. Option Error × W) [
          | none ↦ (none, w)
          | some z ↦ (some (start_error io a t z), w)
        ])
        e

  start_each-fails :
      (ts rest : List Transport) (t : Transport) (x : Error) (w : W)
      → AllFine start_transport ts w
      → (start_transport t (after_all start_transport ts w)).0 ≡ some x
      → start_each io a (ts ++ t ∷ rest) w
        ≡ (some (start_error io a t x), (start_transport t (after_all start_transport ts w)).1)
  unfolding start_each
  start_each-fails [] rest t x w h e =
      start_next-some t (start_each io a rest) (start_transport t w) x e
  start_each-fails (s ∷ ts) rest t x w (one, h) e =
      start_next-none s (start_each io a (ts ++ t ∷ rest)) (start_transport s w) one
      ∙ start_each-fails ts rest t x (start_transport s w).1 h e

  started-some :
      (l : LiveAgent W) (r : Option Error × W) (x : Error) (w : W)
      → r ≡ (some x, w)
      → started io a l r ≡ (some x, record l { world = w })
  unfolding started
  started-some l r x w e = rw e refl

  -- Where a transport fails to start, `Start` returns its error under its name: the transports before
  -- it have been started and stay so, those after it have not been touched, and no worker and no
  -- collecting loop runs.
  pub start_fails :
      (l : LiveAgent W) (ts rest : List Transport) (t : Transport) (x : Error)
      → a.transports ≡ ts ++ t ∷ rest
      → AllFine start_transport ts l.world
      → (start_transport t (after_all start_transport ts l.world)).0 ≡ some x
      → start io a l ≡ (
        some (start_error io a t x),
        record l { world = (start_transport t (after_all start_transport ts l.world)).1 },
      )
  unfolding start
  start_fails l ts rest t x e h fails =
      started-some l (start_each io a a.transports l.world) _ _
        (ap (λ q. start_each io a q l.world) e ∙ start_each-fails ts rest t x l.world h fails)

  close_each-world :
      (first : Option Error) (ts : List Transport) (w : W)
      → (close_each io a first ts w).1 ≡ after_all close_transport ts w
  unfolding close_each
  close_each-world first [] w = refl
  close_each-world first (t ∷ ts) w =
      close_each-world (or_first first (close_transport t w).0) ts (close_transport t w).1

  flush_each-world :
      (ts : List Transport) (w : W) → flush_each io a ts w ≡ after_all flush_transport ts w
  unfolding flush_each
  flush_each-world [] w = refl
  flush_each-world (t ∷ ts) w = flush_each-world ts (flush_transport t w).1

  turn-Balance :
      (t : Turn) (l : LiveAgent W)
      → Balance l.handed l.queue
      → Balance (turn io a t l).handed (turn io a t l).queue
        × ((turn io a t l).queue.accepted ≡ l.queue.accepted)
        × ((turn io a t l).queue.closed ≡ l.queue.closed)
        × ((turn io a t l).workers ≡ l.workers)
  unfolding turn agent_step
  turn-Balance receive l h =
      let (acc, same) = receive-keeps a.queue_size l.workers l.queue in
      (receive-Balance a.queue_size l.workers l.handed l.queue h, acc, same, refl)
  turn-Balance (send_held i c) l h = go (held_at i l.queue.inflight) refl
    where
      go :
          (o : Option Signal)
          → held_at i l.queue.inflight ≡ o
          → Balance (sent_by io a i c o l).handed (sent_by io a i c o l).queue
            × ((sent_by io a i c o l).queue.accepted ≡ l.queue.accepted)
            × ((sent_by io a i c o l).queue.closed ≡ l.queue.closed)
            × ((sent_by io a i c o l).workers ≡ l.workers)
      go none e = (h, refl, refl, refl)
      go (some sig) e =
          (sent-Balance a.queue_size l.workers l.handed l.queue i sig e h, refl, refl, refl)

  run_turns-Balance :
      (turns : List Turn) (l : LiveAgent W)
      → Balance l.handed l.queue
      → let r = run_turns io a turns l in
        Balance r.handed r.queue
        × (r.queue.accepted ≡ l.queue.accepted)
        × (r.queue.closed ≡ l.queue.closed)
        × (r.workers ≡ l.workers)
  unfolding run_turns
  run_turns-Balance [] l h = (h, refl, refl, refl)
  run_turns-Balance (t ∷ turns) l h =
      let (h1, acc, same, busy) = turn-Balance t l h in
      let (h2, acc', same', busy') = run_turns-Balance turns (turn io a t l) h1 in
      (h2, acc' ∙ acc, same' ∙ same, busy' ∙ busy)

  settled :
      (b : Bool) (x l' : LiveAgent W)
      → (if b then some x else none) ≡ some l'
      → (b ≡ true) × (l' ≡ x)
  settled true x l' h = (refl, cc)
  settled false x l' h = cc

  both_nil : (xs ys : List Signal) → (is_nil xs && is_nil ys) ≡ true → (xs ≡ []) × (ys ≡ [])
  both_nil [] [] h = (refl, refl)
  both_nil [] (y ∷ ys) h = cc
  both_nil (x ∷ xs) ys h = cc

  -- What a wait that is over found, and what it leaves.
  wait_over :
      (l l' : LiveAgent W)
      → (0 == l.workers) ≡ false
      → wait io a l ≡ some l'
      → (l.queue.ch ≡ []) × (l.queue.inflight ≡ []) × (l' ≡ record l { workers = 0; loops = 0 })
  unfolding wait
  wait_over l l' busy h =
      let (empty, e) = settled (is_nil l.queue.ch && is_nil l.queue.inflight) _ l' (rw busy at h) in
      let (none_waits, none_sent) = both_nil l.queue.ch l.queue.inflight empty in
      (none_waits, none_sent, e)

  -- The agent as `Close` marks it before it waits.
  abbrev pub closing : LiveAgent W → LiveAgent W
  closing l = record l { queue = record (l.queue) { closed = true } }

  waited :
      (o : Option (LiveAgent W)) (e : Option Error) (l' : LiveAgent W)
      → close_waited io a o ≡ some (e, l')
      → (w : LiveAgent W) × (o ≡ some w)
        × (l'.queue ≡ w.queue)
        × (l'.handed ≡ w.handed)
        × (l'.world
            ≡ after_all close_transport a.transports
                (after_all flush_transport a.transports w.world))
  unfolding close_waited closed_with sync
  waited none e l' h = cc
  waited (some w) e l' h =
      let done = flush_each io a a.transports w.world in
      let same : record w { world = (close_each io a none a.transports done).1 } ≡ l' = cc in
      (
        w,
        refl,
        ap (λ q. q.queue) (sym same),
        ap (λ q. q.handed) (sym same),
        ap (λ q. q.world) (sym same)
            ∙ (close_each-world none a.transports done
                ∙ ap (after_all close_transport a.transports)
                    (flush_each-world a.transports w.world)),
      )

  close_open :
      (turns : List Turn) (l : LiveAgent W)
      → l.queue.closed ≡ false
      → close io a turns l ≡ close_waited io a (wait io a (run_turns io a turns (closing l)))
  unfolding close
  close_open turns l e = rw e refl

  close-again :
      (turns : List Turn) (l : LiveAgent W)
      → l.queue.closed ≡ true
      → close io a turns l ≡ some (none, l)
  unfolding close
  close-again turns l e = rw e refl

  -- Where no call of `enqueue` is between its two steps, and the signals that went into the queue of a
  -- running agent have been taken in order or wait,
  -- and those that were taken have been handed to `sendOne` or are being sent: whatever its workers do
  -- while `Close` waits, in any order and with any contexts, and whatever the sends return, once `Close`
  -- returns the channel is empty and every signal that ever went into it has been handed to `sendOne`,
  -- each as often as it went in and no other; the transports have then been flushed and after that
  -- closed, each of them whatever errors came; and closing again does nothing and returns no error.
  pub close_hands_all :
      (turns : List Turn) (l l' : LiveAgent W) (e : Option Error)
      → l.queue.closed ≡ false
      → l.queue.passed ≡ []
      → 0 < l.workers
      → Balance l.handed l.queue
      → close io a turns l ≡ some (e, l')
      → (l'.queue.ch ≡ [])
        × (l'.queue.accepted ≡ l.queue.accepted)
        × ((p : Signal → Bool) → count_of p l'.handed ≡ count_of p l.queue.accepted)
        × (l'.world
            ≡ after_all close_transport a.transports
                (after_all flush_transport a.transports (run_turns io a turns (closing l)).world))
        × ((later : List Turn) → close io a later l' ≡ some (none, l'))
  close_hands_all turns l l' e open_ none_calls running balance h =
      let r = run_turns io a turns (closing l) in
      let (after, acc, shut, busy) =
        run_turns-Balance turns (closing l)
          (record { in_order = balance.in_order; held = balance.held }) in
      let (w, over, same_queue, same_handed, world) =
        waited (wait io a r) e l' (sym (close_open turns l open_) ∙ h) in
      let (empty, idle, e_w) = wait_over r w (ground (arith, busy)) over in
      let queue = same_queue ∙ ap (λ q. q.queue) e_w in
      let all_taken =
        sym (append-nil r.queue.taken)
        ∙ (ap (λ ch. r.queue.taken ++ ch) (sym empty) ∙ (after.in_order ∙ acc)) in
      (
        ap (λ q. q.ch) queue ∙ empty,
        ap (λ q. q.accepted) queue ∙ acc,
        λ p.
            ap (count_of p) (same_handed ∙ ap (λ q. q.handed) e_w)
            ∙ omega (arith, after.held p, ap (count_of p) idle, ap (count_of p) all_taken),
        world
            ∙ ap
                (λ q.
                  after_all close_transport a.transports
                    (after_all flush_transport a.transports q.world))
                e_w,
        λ later. close-again later l' (ap (λ q. q.closed) queue ∙ shut),
      )

  -- An event with a service and a host.
  pub IsNamed : Signal → Type 0
  IsNamed (foreign e) = Unit
  IsNamed (event e) = (is_nil e.service ≡ false) × (is_nil e.host ≡ false)

  name_signal-IsNamed :
      (s : Signal) → is_nil a.service ≡ false → is_nil a.host ≡ false → IsNamed (name_signal io a s)
  unfolding name_signal IsNamed
  name_signal-IsNamed (foreign e) s h = tt
  name_signal-IsNamed (event e) s h = (ground arith, ground arith)

  enqueue-IsNamed :
      (s : Signal) (q : AgentState Signal)
      → IsNamed s
      → All IsNamed q.accepted
      → All IsNamed (enqueue_signal a.queue_size 2 s q).accepted
  unfolding enqueue_signal
  enqueue-IsNamed s q n h = elim (Bool-cases q.closed) [
    | inl c ↦ simp c h
    | inr c ↦ elim (Bool-cases (ltb (length q.ch) a.queue_size)) [
      | inl room ↦ simp (c, room) (All-append IsNamed q.accepted (s ∷ []) h (n, tt))
      | inr full ↦ simp (c, full) h
    ]
  ]

  enqueue_each-IsNamed :
      (sigs : List Signal) (q : AgentState Signal)
      → is_nil a.service ≡ false
      → is_nil a.host ≡ false
      → All IsNamed q.accepted
      → All IsNamed (enqueue_each io a sigs q).accepted
  unfolding enqueue_each
  enqueue_each-IsNamed [] q n m h = h
  enqueue_each-IsNamed (s ∷ sigs) q n m h =
      enqueue_each-IsNamed sigs _ n m
        (enqueue-IsNamed (name_signal io a s) q (name_signal-IsNamed s n m) h)

  collected-IsNamed :
      (l : LiveAgent W) (r : (Error ⊎ List Signal) × W)
      → is_nil a.service ≡ false
      → is_nil a.host ≡ false
      → All IsNamed l.queue.accepted
      → All IsNamed (collected io a l r).queue.accepted
  unfolding collected
  collected-IsNamed l (inl e, w) n m h = h
  collected-IsNamed l (inr sigs, w) n m h = enqueue_each-IsNamed sigs l.queue n m h

  -- Every event that the collectors of an agent with a name and a host put into its queue has a
  -- service and a host, whichever collectors fail and whatever the others return.
  pub run_collectors-IsNamed :
      (cs : List C) (l : LiveAgent W)
      → is_nil a.service ≡ false
      → is_nil a.host ≡ false
      → All IsNamed l.queue.accepted
      → All IsNamed (run_collectors io a cs l).queue.accepted
  unfolding run_collectors
  run_collectors-IsNamed [] l n m h = h
  run_collectors-IsNamed (c ∷ cs) l n m h =
      run_collectors-IsNamed cs _ n m (collected-IsNamed l (collect c l.world) n m h)
