-- ===== src/Pipeline.antt =====
-- server/internal/pipeline/pipeline.go: a chain of processors over a state that they may change.
pub mod Laws
use opslog.Prelude.{
  ℕ, zero, suc, ◌+◌, ◌-◌, ◌*◌, ◌/◌, ◌%◌, ◌^◌, ◌≤◌, ◌<◌, ◌≡◌, refl, sym, ap, ◌∙◌, ◌≢◌, ◌↔◌, ◌⊎◌, inl,
  inr, Bool, true, false, not, ◌&&◌, ◌||◌, Option, none, some, List, [], ◌∷◌, ◌++◌, map,
  append_assoc, append-nil, arith, ltb, leb, ◌==◌, if◌then◌else◌, ltb→lt, leb→le, ==_iff,
  Bool-cases, Option-cases, length, take, drop, is_nil, select, replicate, any, flatten,
  flatten_snoc, length-replicate, length-append, take-append-drop, length-take, length-drop,
  take-append, drop-append, select-append, append_snoc, All, All-append, All-drop, All-take, Text,
  Error, text, text_eq, text_eq_refl, text_eq_sound, text_eq_iff, has_prefix, contains, has_suffix,
  is_space, trim_left, trim_right, trim_space, utf8_len, has_prefix_sound, has_prefix-append,
  HasPart, contains_sound, contains_complete, CaseMap, ascii_lower, ascii_upper, IsAscii, to_lower,
  to_upper, to_lower_ascii, to_upper_ascii, to_lower_idem, ascii, Dict, lookup, insert, without,
  lookup-insert, lookup-without, lookup-insert_self, lookup-append,
}

-- What `Process` returns: the signal, whether to keep it, the error.
abbrev pub Outcome {ℓ} : Type ℓ → Type ℓ
Outcome A = A × Bool × Option Error

-- `contract.Processor`: `Process` takes a signal and may change what its pointer refers to.
abbrev pub Processor {ℓ} : Type ℓ → Type ℓ → Type ℓ
Processor S A = A → S → Outcome A × S

module _ {ℓ} {S A : Type ℓ} where
  -- The end of one round: the two returns, or the next round on `out`.
  pub after : A → Outcome A × S → (A → S → Outcome A × S) → Outcome A × S
  after cur ((out, keep, some e), s) next = ((cur, false, some e), s)
  after cur ((out, false, none), s) next = ((out, false, none), s)
  after cur ((out, true, none), s) next = next out s

  -- The loop of `Chain.Process`, with `cur` and the state.
  unfoldable pub process : List (Processor S A) → A → S → Outcome A × S
  unfolding after
  process [] cur s = ((cur, true, none), s)
  process (p ∷ ps) cur s = after cur (p cur s) (process ps)

-- `Chain`, and `New` with the default name
pub record Chain {ℓ} (S A : Type ℓ) : Type ℓ where
  pub name : Text
  pub processors : List (Processor S A)

unfoldable pub new_chain {ℓ} : {S A : Type ℓ} → Text → List (Processor S A) → Chain S A
new_chain name ps = record { name = if is_nil name then text "default" else name; processors = ps }
