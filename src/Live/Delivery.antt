-- ===== src/Live/Delivery.antt =====
-- What one subscriber receives of what is published.
use opslog.Prelude.{
  ℕ, ◌≡◌, refl, sym, ap, ◌∙◌, inl, inr, Bool, true, false, List, [], ◌∷◌, ◌++◌, map, append_assoc,
  append-nil, ltb, ◌==◌, if◌then◌else◌, Bool-cases, length, take, drop, select, take-append-drop,
  append_snoc, CaseMap,
}
use opslog.Prelude.Subsequence
use opslog.Prelude.Subsequence.{◌⊑◌, ⊑_refl, ⊑_nil, ⊑_trans, ⊑_append, ⊑_drop, ⊑_append_right}
use mathlib.Core.Path.{subst}
use opslog.Signal.{Event}
use opslog.Live.Match.{match}
use opslog.Live.{
  buffer, Sub, Hub, try_send, publish_to, publish, subscribe, cancel_sub, forward_from, forward_sub,
  done_sub, receive_sub, at_id, Action, published, subscribed, cancelled, forwarded, context_done,
  received, act,
}

module _ (u : CaseMap) where
  -- An action on one subscription, and on those of other ids.
  abbrev on_id : ℕ → (Sub → Sub) → Sub → Sub
  on_id i f s = if s.id == i then f s else s

  -- What an action does to a subscription that is there.
  abbrev pub act_sub : Action → Sub → Sub
  act_sub (published sig) s = publish_to sig s
  act_sub (subscribed f) s = s
  act_sub (cancelled i) s = on_id i cancel_sub s
  act_sub (forwarded i) s = on_id i (forward_sub u) s
  act_sub (context_done i) s = on_id i done_sub s
  act_sub (received i) s = on_id i receive_sub s

  -- The subscriptions that an action adds.
  abbrev pub added : Action → Hub → List Sub
  added (subscribed f) h =
      record { id = h.next; filter = f; registered = true; inbox = []; out = []; finished = false }
      ∷ []
  added _ h = []

  map-same : (subs : List Sub) → map (λ (s : Sub). s) subs ≡ subs
  map-same [] = refl
  map-same (s ∷ subs) = rw (map-same subs)

  -- Subscriptions are independent: an action changes each by its own state alone, so a subscriber
  -- that is slow, cancelled or gone changes nothing for another.
  pub act_independent :
      (a : Action) (h : Hub) → (act u a h).subs ≡ map (act_sub a) h.subs ++ added a h
  unfolding act publish subscribe at_id
  act_independent (published sig) h = sym (append-nil _)
  act_independent (subscribed f) h = rw (map-same h.subs)
  act_independent (cancelled i) h = sym (append-nil _)
  act_independent (forwarded i) h = sym (append-nil _)
  act_independent (context_done i) h = sym (append-nil _)
  act_independent (received i) h = sym (append-nil _)

  pub run_sub : List Action → Sub → Sub
  run_sub [] s = s
  run_sub (a ∷ actions) s = run_sub actions (act_sub a s)

  -- What the subscriber gets at one action: the head of `out`, if it receives.
  got_at : Action → Sub → List Event
  got_at (received i) s = if s.id == i then take 1 s.out else []
  got_at _ s = []

  -- What the subscriber has received in all.
  pub got : List Action → Sub → List Event
  unfolding got_at
  got [] s = []
  got (a ∷ actions) s = got_at a s ++ got actions (act_sub a s)

  -- What is published.
  abbrev pub publications : List Action → List Event
  publications [] = []
  publications (published sig ∷ actions) = sig ∷ publications actions
  publications (_ ∷ actions) = publications actions

  -- What the subscriber may still get: what waits in `out`, then what passes the filter of what
  -- waits in `ch` and of what is yet to be published.
  abbrev pub pending : Sub → List Event → List Event
  pending s future = s.out ++ select (match u s.filter) (s.inbox ++ future)

  try_send-⊑ :
      (q : List Event) (sig : Event) (rest : List Event) → try_send q sig ++ rest ⊑ q ++ sig ∷ rest
  unfolding try_send
  try_send-⊑ q sig rest = elim (Bool-cases (ltb (length q) buffer)) [
    | inl e ↦ rw (e, append_snoc q rest sig) (⊑_refl _)
    | inr e ↦ rw e (⊑_drop q rest sig)
  ]

  select-⊑ : (p : Event → Bool) {xs ys : List Event} → xs ⊑ ys → select p xs ⊑ select p ys
  select-⊑ p Subsequence.done = Subsequence.done
  select-⊑ p (Subsequence.keep a h) = elim (Bool-cases (p a)) [
    | inl e ↦ rw e (Subsequence.keep a (select-⊑ p h))
    | inr e ↦ rw e (select-⊑ p h)
  ]
  select-⊑ p (Subsequence.skip a h) = elim (Bool-cases (p a)) [
    | inl e ↦ rw e (Subsequence.skip a (select-⊑ p h))
    | inr e ↦ rw e (select-⊑ p h)
  ]

  publish-⊑ :
      (sig : Event) (s : Sub) (future : List Event)
      → pending (publish_to sig s) future ⊑ pending s (sig ∷ future)
  unfolding publish_to
  publish-⊑ sig s future = elim (Bool-cases s.registered) [
    | inl e ↦ simp e (⊑_append s.out (select-⊑ (match u s.filter) (try_send-⊑ s.inbox sig future)))
    | inr e ↦ simp e (⊑_append s.out (select-⊑ (match u s.filter) (⊑_drop s.inbox future sig)))
  ]

  forward_from-⊑ :
      (q : List Event) (s : Sub) (future : List Event)
      → s.inbox ≡ q
      → pending (forward_from u q s) future ⊑ pending s future
  unfolding forward_from
  forward_from-⊑ [] s future e = elim (Bool-cases s.registered) [
    | inl r ↦ simp r (⊑_refl _)
    | inr r ↦ simp r (⊑_refl _)
  ]
  forward_from-⊑ (sig ∷ rest) s future e = elim (Bool-cases (match u s.filter sig)) [
    | inl m ↦ simp (m, e) (try_send-⊑ s.out sig _)
    | inr m ↦ simp (m, e) (⊑_refl _)
  ]

  forward-⊑ : (s : Sub) (future : List Event) → pending (forward_sub u s) future ⊑ pending s future
  unfolding forward_sub
  forward-⊑ s future = elim (Bool-cases s.finished) [
    | inl e ↦ simp e (⊑_refl _)
    | inr e ↦ simp e (forward_from-⊑ s.inbox s future refl)
  ]

  done-pending : (s : Sub) (future : List Event) → pending (done_sub s) future ≡ pending s future
  unfolding done_sub
  done-pending s future = elim (Bool-cases s.finished) [ inl e ↦ simp e | inr e ↦ simp e ]

  receive-pending :
      (s : Sub) (future : List Event)
      → take 1 s.out ++ pending (receive_sub s) future ≡ pending s future
  unfolding receive_sub
  receive-pending s future =
      sym (append_assoc (take 1 s.out) (drop 1 s.out) _)
      ∙ ap (λ (l : List Event). l ++ select (match u s.filter) (s.inbox ++ future))
          (take-append-drop 1 s.out)

  -- One action: what it hands out, and what may come after it, comes out of what might have come.
  step-⊑ :
      (a : Action) (s : Sub) (rest : List Action)
      → got_at a s ++ pending (act_sub a s) (publications rest)
        ⊑ pending s (publications (a ∷ rest))
  unfolding got_at
  step-⊑ (published sig) s rest = publish-⊑ sig s (publications rest)
  step-⊑ (subscribed f) s rest = ⊑_refl _
  step-⊑ (cancelled i) s rest = elim (Bool-cases (s.id == i)) [
    | inl e ↦ simp e (unfold cancel_sub in ⊑_refl _)
    | inr e ↦ simp e (⊑_refl _)
  ]
  step-⊑ (forwarded i) s rest = elim (Bool-cases (s.id == i)) [
    | inl e ↦ simp e (forward-⊑ s _)
    | inr e ↦ simp e (⊑_refl _)
  ]
  step-⊑ (context_done i) s rest = elim (Bool-cases (s.id == i)) [
    | inl e ↦ simp (e, done-pending) (⊑_refl _)
    | inr e ↦ simp e (⊑_refl _)
  ]
  step-⊑ (received i) s rest = elim (Bool-cases (s.id == i)) [
    | inl e ↦ simp (e, receive-pending) (⊑_refl _)
    | inr e ↦ simp e (⊑_refl _)
  ]

  got-⊑ :
      (actions : List Action) (s : Sub)
      → got actions s ++ (run_sub actions s).out ⊑ pending s (publications actions)
  unfolding got run_sub
  got-⊑ [] s = ⊑_append_right s.out _
  got-⊑ (a ∷ actions) s =
      rw (append_assoc (got_at a s) (got actions (act_sub a s)) _)
        (⊑_trans (step-⊑ a s actions) (⊑_append (got_at a s) (got-⊑ actions (act_sub a s))))

  -- In every order of actions a fresh subscriber receives a subsequence of the published signals
  -- that match its filter: nothing else, nothing twice, nothing out of order.
  pub received_in_order :
      (actions : List Action) (s : Sub)
      → s.inbox ≡ []
      → s.out ≡ []
      → got actions s ⊑ select (match u s.filter) (publications actions)
  received_in_order actions s no_inbox no_out =
      let fits : pending s (publications actions)
          ≡ select (match u s.filter) (publications actions) =
        simp (no_inbox, no_out) in
      subst (λ l. got actions s ⊑ l) fits
        (⊑_trans (got-⊑ actions s) (⊑_append_right (got actions s) (run_sub actions s).out))
