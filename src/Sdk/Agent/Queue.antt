-- ===== src/Sdk/Agent/Queue.antt =====
-- sdk/agent/agent.go: the queue between the loggers and the workers, and closing.
use opslog.Prelude.{
  ℕ, zero, suc, ◌≤◌, ◌+◌, ◌%◌, ◌^◌, ◌≡◌, refl, ap, ◌∙◌, inl, inr, Bool, true, false, List, [],
  Option, none, some, select, select-append, ◌<◌, ◌∷◌, ◌++◌, arith, ltb, if◌then◌else◌, Bool-cases,
  length, length-append, append_snoc,
}

-- The channel, `closed`, `dropped`, the signals of the calls of `enqueue` that have found the agent open
-- and not yet sent, and the signals that workers have in `sendOne`. The last two fields record what
-- happened: what went into the channel, and what workers took.
pub record AgentState (A : Type 0) : Type 0 where
  pub ch : List A
  pub closed : Bool
  pub dropped : ℕ
  pub passed : List A
  pub inflight : List A
  pub accepted : List A
  pub taken : List A

-- What can happen, in any order: a call of `enqueue` that reads `closed`, one that goes on to the channel
-- (the one at a position), a worker that receives, a worker that returns
-- from `sendOne` (the one at a position), the swap at the head of `Close`.
pub data AgentEvent (A : Type 0) : Type 0 where
  enqueue : A → AgentEvent A
  push : ℕ → AgentEvent A
  take_one : AgentEvent A
  sent : ℕ → AgentEvent A
  close : AgentEvent A

-- `a.dropped.Add(1)` on an atomic.Uint64
abbrev pub add_uint64 : ℕ → ℕ
add_uint64 n = (n + 1) % 2 ^ 64

-- The member at a position left out.
abbrev remove_at : {A : Type 0} → ℕ → List A → List A
remove_at i [] = []
remove_at zero (x ∷ xs) = xs
remove_at (suc i) (x ∷ xs) = x ∷ remove_at i xs

-- The member at a position.
abbrev pub held_at : {A : Type 0} → ℕ → List A → Option A
held_at i [] = none
held_at zero (x ∷ xs) = some x
held_at (suc i) (x ∷ xs) = held_at i xs

-- How many members of a list have a property.
abbrev pub count_of : {A : Type 0} → (A → Bool) → List A → ℕ
count_of p xs = length (select p xs)

-- The signals that went in have been taken, in order, or wait; and those that were taken, each as often
-- as it was, have been handed on or are being sent.
pub record Balance {A : Type 0} (handed : List A) (a : AgentState A) : Type 0 where
  pub in_order : a.taken ++ a.ch ≡ a.accepted
  pub held : (p : A → Bool) → count_of p a.inflight + count_of p handed ≡ count_of p a.taken

count_of-snoc :
    {A : Type 0} (p : A → Bool) (xs : List A) (x : A)
    → count_of p (xs ++ x ∷ []) ≡ count_of p xs + count_of p (x ∷ [])
count_of-snoc p xs x =
    ap (λ l. length l) (select-append p xs (x ∷ []))
    ∙ length-append (select p xs) (select p (x ∷ []))

count_of-cons :
    {A : Type 0} (p : A → Bool) (x : A) (xs : List A)
    → count_of p (x ∷ xs) ≡ count_of p (x ∷ []) + count_of p xs
count_of-cons p x xs = elim (Bool-cases (p x)) [
  | inl e ↦ simp e (omega arith)
  | inr e ↦ simp e (omega arith)
]

count_of-remove_at :
    {A : Type 0} (p : A → Bool) (i : ℕ) (xs : List A) (x : A)
    → held_at i xs ≡ some x
    → count_of p (remove_at i xs) + count_of p (x ∷ []) ≡ count_of p xs
count_of-remove_at p i [] x h = cc
count_of-remove_at p zero (y ∷ xs) x h =
    let same : y ≡ x = cc in omega (arith, count_of-cons p y xs, ap (λ z. count_of p (z ∷ [])) same)
count_of-remove_at p (suc i) (y ∷ xs) x h =
    omega (
      arith,
      count_of-cons p y xs,
      count_of-cons p y (remove_at i xs),
      count_of-remove_at p i xs x h,
    )

module _ {A : Type 0} (queue_size workers : ℕ) where
  abbrev pub new_state : AgentState A
  new_state = record {
    ch = [];
    closed = false;
    dropped = 0;
    passed = [];
    inflight = [];
    accepted = [];
    taken = [];
  }

  -- The `select` of `enqueue`, and the count of what a full channel drops.
  unfoldable pub offer_signal : A → AgentState A → AgentState A
  offer_signal sig a =
      if ltb (length a.ch) queue_size
      then record a { ch = a.ch ++ sig ∷ []; accepted = a.accepted ++ sig ∷ [] }
      else record a { dropped = add_uint64 a.dropped }

  -- `enqueue` with nothing between its two steps.
  unfoldable pub enqueue_signal : A → AgentState A → AgentState A
  unfolding offer_signal
  enqueue_signal sig a = if a.closed then a else offer_signal sig a

  -- The first step of a call of `enqueue`, and the second.
  pub check_open : A → AgentState A → AgentState A
  check_open sig a = if a.closed then a else record a { passed = a.passed ++ sig ∷ [] }

  pub push_held : ℕ → Option A → AgentState A → AgentState A
  push_held i none a = a
  push_held i (some sig) a = offer_signal sig (record a { passed = remove_at i a.passed })

  -- A worker that is free receives the head of the channel.
  take_from : List A → AgentState A → AgentState A
  take_from [] a = a
  take_from (sig ∷ rest) a =
      if ltb (length a.inflight) workers
      then record a { ch = rest; inflight = sig ∷ a.inflight; taken = a.taken ++ sig ∷ [] }
      else a

  unfoldable pub agent_step : AgentEvent A → AgentState A → AgentState A
  unfolding check_open push_held take_from
  agent_step (enqueue sig) a = check_open sig a
  agent_step (push i) a = push_held i (held_at i a.passed) a
  agent_step take_one a = take_from a.ch a
  agent_step (sent i) a = record a { inflight = remove_at i a.inflight }
  agent_step close a = record a { closed = true }

  unfoldable pub agent_run : List (AgentEvent A) → AgentState A → AgentState A
  agent_run [] a = a
  agent_run (e ∷ events) a = agent_run events (agent_step e a)

  take_from-Balance :
      (handed q : List A) (a : AgentState A)
      → a.ch ≡ q
      → Balance handed a
      → Balance handed (take_from q a)
  unfolding take_from
  take_from-Balance handed [] a e h = h
  take_from-Balance handed (sig ∷ rest) a e h =
      elim (Bool-cases (ltb (length a.inflight) workers)) [
        | inl free ↦ simp free (record {
          in_order = rw (append_snoc a.taken rest sig) (rw e at h.in_order);
          held = λ p.
              omega (arith, h.held p, count_of-snoc p a.taken sig, count_of-cons p sig a.inflight);
        })
        | inr busy ↦ simp busy h
      ]

  pub receive-Balance :
      (handed : List A) (a : AgentState A)
      → Balance handed a
      → Balance handed (agent_step take_one a)
  unfolding agent_step
  receive-Balance handed a h = take_from-Balance handed a.ch a refl h

  pub sent-Balance :
      (handed : List A) (a : AgentState A) (i : ℕ) (sig : A)
      → held_at i a.inflight ≡ some sig
      → Balance handed a
      → Balance (sig ∷ handed) (agent_step (sent i) a)
  unfolding agent_step
  sent-Balance handed a i sig e h = record {
    in_order = h.in_order;
    held = λ p.
        omega
          (arith, h.held p, count_of-remove_at p i a.inflight sig e, count_of-cons p sig handed);
  }

  take_from-counts :
      (q : List A) (a : AgentState A)
      → ((take_from q a).accepted ≡ a.accepted)
        × ((take_from q a).dropped ≡ a.dropped)
        × ((take_from q a).closed ≡ a.closed)
        × ((take_from q a).passed ≡ a.passed)
  unfolding take_from
  take_from-counts [] a = (refl, refl, refl, refl)
  take_from-counts (sig ∷ rest) a = ground arith

  -- What a worker that receives leaves as it is.
  pub receive-keeps :
      (a : AgentState A)
      → ((agent_step take_one a).accepted ≡ a.accepted)
        × ((agent_step take_one a).closed ≡ a.closed)
  unfolding agent_step
  receive-keeps a = let (acc, drops, same, _) = take_from-counts a.ch a in (acc, same)

  -- A free worker receives the head of the channel.
  pub receive-head :
      (a : AgentState A) (sig : A) (rest : List A)
      → a.ch ≡ sig ∷ rest
      → a.inflight ≡ []
      → 0 < workers
      → ((agent_step take_one a).ch ≡ rest) × ((agent_step take_one a).inflight ≡ sig ∷ [])
  unfolding agent_step take_from
  receive-head a sig rest e idle free =
      let ready : ltb (length a.inflight) workers ≡ true = rw idle (ground arith) in
      rw e (simp ready (refl, ap (λ l. sig ∷ l) idle))

  -- The calls of `enqueue` in a run.
  abbrev pub enqueues : List (AgentEvent A) → ℕ
  enqueues [] = 0
  enqueues (enqueue sig ∷ events) = suc (enqueues events)
  enqueues (_ ∷ events) = enqueues events

  abbrev pub NeverCloses : List (AgentEvent A) → Type 0
  NeverCloses [] = Unit
  NeverCloses (close ∷ events) = ⊥
  NeverCloses (_ ∷ events) = NeverCloses events

  -- The calls of `enqueue` that a state accounts for.
  abbrev pub count : AgentState A → ℕ
  count a = length a.accepted + a.dropped + length a.passed

  length-remove_at :
      (i : ℕ) (xs : List A) (x : A)
      → held_at i xs ≡ some x
      → length (remove_at i xs) + 1 ≡ length xs
  length-remove_at i [] x h = cc
  length-remove_at zero (y ∷ xs) x h = omega arith
  length-remove_at (suc i) (y ∷ xs) x h = omega (arith, length-remove_at i xs x h)

  offer-counts :
      (sig : A) (a : AgentState A)
      → ((offer_signal sig a).closed ≡ a.closed)
        × (count (offer_signal sig a) % 2 ^ 64 ≡ (count a + 1) % 2 ^ 64)
        × ((offer_signal sig a).passed ≡ a.passed)
        × (length (offer_signal sig a).accepted ≤ length a.accepted + 1)
  unfolding offer_signal
  offer-counts sig a = elim (Bool-cases (ltb (length a.ch) queue_size)) [
    | inl room ↦
        let one = length-append a.accepted (sig ∷ []) in
        simp room (refl, omega (arith, one), refl, omega (arith, one))
    | inr full ↦ simp full (refl, omega arith, refl, omega arith)
  ]

  push-counts :
      (i : ℕ) (o : Option A) (a : AgentState A)
      → held_at i a.passed ≡ o
      → ((push_held i o a).closed ≡ a.closed)
        × (count (push_held i o a) % 2 ^ 64 ≡ count a % 2 ^ 64)
        × (length (push_held i o a).accepted + length (push_held i o a).passed
            ≤ length a.accepted + length a.passed)
  unfolding push_held
  push-counts i none a e = (refl, refl, omega arith)
  push-counts i (some sig) a e =
      let left = record a { passed = remove_at i a.passed } in
      let less = length-remove_at i a.passed sig e in
      let (same, n, kept, grown) = offer-counts sig left in
      (same, omega (arith, n, less), omega (arith, grown, ap length kept, less))

  check-counts :
      (sig : A) (a : AgentState A)
      → a.closed ≡ false
      → ((check_open sig a).closed ≡ false) × (count (check_open sig a) ≡ count a + 1)
  unfolding check_open
  check-counts sig a o = simp o (refl, omega (arith, length-append a.passed (sig ∷ [])))

  -- Every call of `enqueue` on an open agent is accounted for, modulo the counter's 2 ^ 64: it went
  -- into the channel, or it was counted as dropped, or it is still between its two steps.
  pub enqueues_counted :
      (events : List (AgentEvent A)) (a : AgentState A)
      → a.closed ≡ false
      → NeverCloses events
      → let b = agent_run events a in
        (length b.accepted + b.dropped + length b.passed) % 2 ^ 64
        ≡ (length a.accepted + a.dropped + length a.passed + enqueues events) % 2 ^ 64
  unfolding agent_run agent_step
  enqueues_counted [] a o n = omega arith
  enqueues_counted (enqueue sig ∷ events) a o n =
      let (o', one) = check-counts sig a o in
      let ih = enqueues_counted events (check_open sig a) o' n in omega (arith, one, ih)
  enqueues_counted (push i ∷ events) a o n =
      let (same, one, _) = push-counts i (held_at i a.passed) a refl in
      let ih = enqueues_counted events (push_held i (held_at i a.passed) a) (same ∙ o) n in
      omega (arith, one, ih)
  enqueues_counted (take_one ∷ events) a o n =
      let (acc, drops, same, kept) = take_from-counts a.ch a in
      let ih = enqueues_counted events (take_from a.ch a) (same ∙ o) n in
      omega (arith, ih, ap length acc, drops, ap length kept)
  enqueues_counted (sent i ∷ events) a o n =
      enqueues_counted events (record a { inflight = remove_at i a.inflight }) o n
  enqueues_counted (close ∷ events) a o n = absurd n

  check_closed : (sig : A) (a : AgentState A) → a.closed ≡ true → check_open sig a ≡ a
  unfolding check_open
  check_closed sig a c = simp c refl

  -- A closed agent stays closed, and takes at most the signals of the calls of `enqueue` that had
  -- found it open: no call that comes later puts anything into its queue.
  pub closed_accepts_nothing :
      (events : List (AgentEvent A)) (a : AgentState A)
      → a.closed ≡ true
      → ((agent_run events a).closed ≡ true)
        × (length (agent_run events a).accepted + length (agent_run events a).passed
            ≤ length a.accepted + length a.passed)
  unfolding agent_run agent_step
  closed_accepts_nothing [] a c = (c, omega arith)
  closed_accepts_nothing (enqueue sig ∷ events) a c =
      let same = check_closed sig a c in
      let (c', n) =
        closed_accepts_nothing events (check_open sig a) (ap (λ b. b.closed) same ∙ c) in
      (c', omega (arith, n, ap (λ b. length b.accepted + length b.passed) same))
  closed_accepts_nothing (push i ∷ events) a c =
      let (same, _, less) = push-counts i (held_at i a.passed) a refl in
      let (c', n) = closed_accepts_nothing events (push_held i (held_at i a.passed) a) (same ∙ c) in
      (c', omega (arith, n, less))
  closed_accepts_nothing (take_one ∷ events) a c =
      let (acc, drops, same, kept) = take_from-counts a.ch a in
      let (c', n) = closed_accepts_nothing events (take_from a.ch a) (same ∙ c) in
      (c', omega (arith, n, ap length acc, ap length kept))
  closed_accepts_nothing (sent i ∷ events) a c =
      closed_accepts_nothing events (record a { inflight = remove_at i a.inflight }) c
  closed_accepts_nothing (close ∷ events) a c =
      closed_accepts_nothing events (record a { closed = true }) refl
