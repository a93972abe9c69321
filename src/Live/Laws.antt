-- ===== src/Live/Laws.antt =====
-- What holds of every subscription of a hub, in every order of actions.
use opslog.Prelude.{
  ℕ, suc, ◌+◌, ◌≤◌, ◌≡◌, refl, sym, ap, ◌∙◌, inl, inr, true, false, List, [], ◌∷◌, ◌++◌, map, arith,
  ltb, ◌==◌, if◌then◌else◌, Bool-cases, length, length-append, length-drop, All, All-append,
  All-drop, CaseMap,
}
use opslog.Signal.{Event}
use opslog.Live.Match.{Filter, match}
use opslog.Live.{
  buffer, Sub, Hub, new_hub, try_send, publish_to, publish, subscribe, cancel_sub, forward_from,
  forward_sub, done_sub, receive_sub, at_id, Action, published, subscribed, cancelled, forwarded,
  context_done, received, act, run,
}

module _ (u : CaseMap) where
  -- Bounded buffers, only matching signals on the way out, and no goroutine that ends while its
  -- subscription stands.
  pub record IsSound (s : Sub) : Type 0 where
    pub inbox_fits : length s.inbox ≤ buffer
    pub out_fits : length s.out ≤ buffer
    pub out_matches : All (λ e. match u s.filter e ≡ true) s.out
    pub ended : s.finished ≡ true → s.registered ≡ false

  length-try_send :
      (q : List Event) (sig : Event) → length q ≤ buffer → length (try_send q sig) ≤ buffer
  unfolding try_send
  length-try_send q sig h = ground (arith, length-append q (sig ∷ []))

  All-try_send :
      (P : Event → Type 0) (q : List Event) (sig : Event) → All P q → P sig → All P (try_send q sig)
  unfolding try_send
  All-try_send P q sig h p = elim (Bool-cases (ltb (length q) buffer)) [
    | inl e ↦ rw e (All-append P q (sig ∷ []) h (p, tt))
    | inr e ↦ rw e h
  ]

  publish_to-IsSound : (sig : Event) (s : Sub) → IsSound s → IsSound (publish_to sig s)
  unfolding publish_to
  publish_to-IsSound sig s h = elim (Bool-cases s.registered) [
    | inl e ↦ simp e (record {
      inbox_fits = length-try_send s.inbox sig h.inbox_fits;
      out_fits = h.out_fits;
      out_matches = h.out_matches;
      ended = λ f. sym e ∙ h.ended f;
    })
    | inr e ↦ simp e h
  ]

  forward_from-IsSound :
      (q : List Event) (s : Sub) → s.inbox ≡ q → IsSound s → IsSound (forward_from u q s)
  unfolding forward_from
  forward_from-IsSound [] s e h = elim (Bool-cases s.registered) [
    | inl r ↦ simp r h
    | inr r ↦ simp r (record {
      inbox_fits = h.inbox_fits;
      out_fits = h.out_fits;
      out_matches = h.out_matches;
      ended = λ _. refl;
    })
  ]
  forward_from-IsSound (sig ∷ rest) s e h = elim (Bool-cases (match u s.filter sig)) [
    | inl m ↦ simp m (record {
      inbox_fits = omega (arith, ap length e, h.inbox_fits);
      out_fits = length-try_send s.out sig h.out_fits;
      out_matches = All-try_send (λ x. match u s.filter x ≡ true) s.out sig h.out_matches m;
      ended = h.ended;
    })
    | inr m ↦ simp m (record {
      inbox_fits = omega (arith, ap length e, h.inbox_fits);
      out_fits = h.out_fits;
      out_matches = h.out_matches;
      ended = h.ended;
    })
  ]

  forward_sub-IsSound : (s : Sub) → IsSound s → IsSound (forward_sub u s)
  unfolding forward_sub
  forward_sub-IsSound s h = elim (Bool-cases s.finished) [
    | inl e ↦ simp e h
    | inr e ↦ simp e (forward_from-IsSound s.inbox s refl h)
  ]

  cancel_sub-IsSound : (s : Sub) → IsSound s → IsSound (cancel_sub s)
  unfolding cancel_sub
  cancel_sub-IsSound s h = record {
    inbox_fits = h.inbox_fits;
    out_fits = h.out_fits;
    out_matches = h.out_matches;
    ended = λ _. refl;
  }

  done_sub-IsSound : (s : Sub) → IsSound s → IsSound (done_sub s)
  unfolding done_sub
  done_sub-IsSound s h = elim (Bool-cases s.finished) [
    | inl e ↦ simp e h
    | inr e ↦ simp e (record {
      inbox_fits = h.inbox_fits;
      out_fits = h.out_fits;
      out_matches = h.out_matches;
      ended = λ _. refl;
    })
  ]

  receive_sub-IsSound : (s : Sub) → IsSound s → IsSound (receive_sub s)
  unfolding receive_sub
  receive_sub-IsSound s h = record {
    inbox_fits = h.inbox_fits;
    out_fits = omega (arith, length-drop 1 s.out, h.out_fits);
    out_matches = All-drop _ 1 s.out h.out_matches;
    ended = h.ended;
  }

  -- The ids of the map, from one on.
  abbrev HasIds : ℕ → List Sub → ℕ → Type 0
  HasIds i [] next = i ≡ next
  HasIds i (s ∷ subs) next = (s.id ≡ i) × HasIds (suc i) subs next

  -- Every subscription is sound, and their ids are 0, 1, …, each once, with `next` free.
  pub record Inv (h : Hub) : Type 0 where
    pub sound : All IsSound h.subs
    pub ids : HasIds 0 h.subs h.next

  map-Inv :
      (f : Sub → Sub) (h : Hub)
      → ((s : Sub) → IsSound s → IsSound (f s))
      → ((s : Sub) → (f s).id ≡ s.id)
      → Inv h
      → Inv (record h { subs = map f h.subs })
  map-Inv f h keeps same inv = record { sound = all h.subs inv.sound; ids = kept 0 h.subs inv.ids }
    where
      all : (l : List Sub) → All IsSound l → All IsSound (map f l)
      all [] p = tt
      all (s ∷ l) (p, ps) = (keeps s p, all l ps)

      kept : (i : ℕ) (l : List Sub) → HasIds i l h.next → HasIds i (map f l) h.next
      kept i [] p = p
      kept i (s ∷ l) (p, ps) = (same s ∙ p, kept (suc i) l ps)

  at_id-Inv :
      (i : ℕ) (f : Sub → Sub) (h : Hub)
      → ((s : Sub) → IsSound s → IsSound (f s))
      → ((s : Sub) → (f s).id ≡ s.id)
      → Inv h
      → Inv (at_id i f h)
  unfolding at_id
  at_id-Inv i f h keeps same inv =
      map-Inv (λ s. if s.id == i then f s else s) h
        (λ s p. elim (Bool-cases (s.id == i)) [ inl e ↦ simp e (keeps s p) | inr e ↦ simp e p ])
        (λ s. elim (Bool-cases (s.id == i)) [ inl e ↦ simp e (same s) | inr e ↦ simp e ]) inv

  new_sub-IsSound :
      (i : ℕ) (f : Filter)
      → IsSound
          (record { id = i; filter = f; registered = true; inbox = []; out = []; finished = false })
  new_sub-IsSound i f = record {
    inbox_fits = omega arith;
    out_fits = omega arith;
    out_matches = tt;
    ended = λ e. cc;
  }

  subscribe-Inv : (f : Filter) (h : Hub) → Inv h → Inv (subscribe f h).1
  unfolding subscribe
  subscribe-Inv f h inv = record {
    sound = All-append IsSound h.subs _ inv.sound (new_sub-IsSound h.next f, tt);
    ids = kept 0 h.subs inv.ids;
  }
    where
      new : Sub
      new = record {
        id = h.next;
        filter = f;
        registered = true;
        inbox = [];
        out = [];
        finished = false;
      }

      kept : (i : ℕ) (l : List Sub) → HasIds i l h.next → HasIds i (l ++ new ∷ []) (h.next + 1)
      kept i [] e = (sym e, omega arith)
      kept i (s ∷ l) (p, ps) = (p, kept (suc i) l ps)

  same_forward_from : (q : List Event) (s : Sub) → (forward_from u q s).id ≡ s.id
  unfolding forward_from
  same_forward_from [] s = ground arith
  same_forward_from (x ∷ q) s = ground arith

  same_forward : (s : Sub) → (forward_sub u s).id ≡ s.id
  unfolding forward_sub
  same_forward s = ground (arith, same_forward_from s.inbox s)

  same_done : (s : Sub) → (done_sub s).id ≡ s.id
  unfolding done_sub
  same_done s = ground arith

  same_publish : (sig : Event) (s : Sub) → (publish_to sig s).id ≡ s.id
  unfolding publish_to
  same_publish sig s = ground arith

  act-Inv : (a : Action) (h : Hub) → Inv h → Inv (act u a h)
  unfolding act
  act-Inv (published sig) h inv =
      unfold publish in map-Inv (publish_to sig) h (publish_to-IsSound sig) (same_publish sig) inv
  act-Inv (subscribed f) h inv = subscribe-Inv f h inv
  act-Inv (cancelled i) h inv =
      at_id-Inv i cancel_sub h cancel_sub-IsSound (λ s. unfold cancel_sub in refl) inv
  act-Inv (forwarded i) h inv = at_id-Inv i (forward_sub u) h forward_sub-IsSound same_forward inv
  act-Inv (context_done i) h inv = at_id-Inv i done_sub h done_sub-IsSound same_done inv
  act-Inv (received i) h inv =
      at_id-Inv i receive_sub h receive_sub-IsSound (λ s. unfold receive_sub in refl) inv

  run-Inv : (actions : List Action) (h : Hub) → Inv h → Inv (run u actions h)
  unfolding run
  run-Inv [] h inv = inv
  run-Inv (a ∷ actions) h inv = run-Inv actions (act u a h) (act-Inv a h inv)

  -- Whatever happens to a new hub, in any order: no buffer ever holds more than 128 signals, every
  -- signal that waits for a subscriber matches its filter, no id is given twice, and a goroutine
  -- that has returned has no subscription left.
  pub run_new-Inv : (actions : List Action) → Inv (run u actions new_hub)
  run_new-Inv actions = run-Inv actions new_hub (record { sound = tt; ids = refl })
