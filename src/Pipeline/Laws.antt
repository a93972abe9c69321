-- ===== src/Pipeline/Laws.antt =====
-- How a chain composes, and where it stops.
use opslog.Prelude.{
  ◌≡◌, refl, ap, ◌∙◌, true, false, Option, none, some, List, [], ◌∷◌, ◌++◌, All, Error,
}
use mathlib.Core.Path.{fun_ext}
use opslog.Pipeline.{Outcome, Processor, after, process}

module _ {ℓ} {S A : Type ℓ} where
  -- Goes on with `next` after an outcome that kept its signal.
  abbrev pub continue : Outcome A × S → (A → S → Outcome A × S) → Outcome A × S
  continue ((cur, keep, some e), s) next = ((cur, keep, some e), s)
  continue ((cur, false, none), s) next = ((cur, false, none), s)
  continue ((cur, true, none), s) next = next cur s

  after-continue :
      (cur : A) (r : Outcome A × S) (f g : A → S → Outcome A × S)
      → after cur r (λ out s. continue (f out s) g) ≡ continue (after cur r f) g
  unfolding after
  after-continue cur ((out, keep, some e), s) f g = refl
  after-continue cur ((out, false, none), s) f g = refl
  after-continue cur ((out, true, none), s) f g = refl

  -- A chain of two lists runs the first, and then the second on the signal and the state that the
  -- first leaves, if it returned no error and kept the signal.
  pub process-append :
      (ps qs : List (Processor S A)) (cur : A) (s : S)
      → process (ps ++ qs) cur s ≡ continue (process ps cur s) (process qs)
  unfolding process
  process-append [] qs cur s = refl
  process-append (p ∷ ps) qs cur s =
      ap (after cur (p cur s)) (fun_ext λ out. fun_ext λ s'. process-append ps qs out s')
      ∙ after-continue cur (p cur s) (process ps) (process qs)

  -- No processor of the list drops a signal or returns an error, from any state.
  abbrev pub Keeps : Processor S A → Type ℓ
  Keeps p = (cur : A) (s : S) → (out : A) × (s' : S) × (p cur s ≡ ((out, true, none), s'))

  -- A chain of such processors returns a signal, keeps it and has no error.
  pub process-Keeps : (ps : List (Processor S A)) → All Keeps ps → Keeps (process ps)
  unfolding process
  process-Keeps [] h cur s = (cur, s, refl)
  process-Keeps (p ∷ ps) (hp, h) cur s =
      let (out, s', e) = hp cur s in
      let (out', s'', e') = process-Keeps ps h out s' in (out', s'', rw (e, e'))

  after-kept :
      (cur out : A) (s' : S) (failure : Option Error) (r : Outcome A × S)
      (next : A → S → Outcome A × S)
      → ((o : A) (t : S) → next o t ≡ ((out, true, failure), s') → failure ≡ none)
      → after cur r next ≡ ((out, true, failure), s')
      → failure ≡ none
  unfolding after
  after-kept cur out s' failure ((o, keep, some x), t) next h e = cc
  after-kept cur out s' failure ((o, false, none), t) next h e = cc
  after-kept cur out s' failure ((o, true, none), t) next h e = h o t e

  -- An outcome that keeps its signal carries no error, whatever the processors return.
  pub process-kept_no_error :
      (ps : List (Processor S A)) (cur out : A) (s s' : S) (failure : Option Error)
      → process ps cur s ≡ ((out, true, failure), s')
      → failure ≡ none
  unfolding process
  process-kept_no_error [] cur out s s' failure e = cc
  process-kept_no_error (p ∷ ps) cur out s s' failure e =
      after-kept cur out s' failure (p cur s) (process ps)
        (λ o t. process-kept_no_error ps o out t s' failure) e
