-- ===== src/Dispatcher.antt =====
-- server/internal/dispatcher/dispatcher.go: a bounded queue, a loop that collects batches, and the
-- outputs that each batch is written to.
pub mod Loop
pub mod Laws
use opslog.Prelude.{
  ℕ, zero, suc, ◌+◌, ◌-◌, ◌*◌, ◌/◌, ◌%◌, ◌^◌, ◌≤◌, ◌<◌, ◌≡◌, refl, sym, ap, ◌∙◌, ◌≢◌, ◌↔◌, ◌⊎◌, inl,
  inr, Bool, true, false, not, ◌&&◌, ◌||◌, Option, none, some, List, [], ◌∷◌, ◌++◌, map,
  append_assoc, append-nil, arith, ltb, leb, ◌==◌, if◌then◌else◌, ltb→lt, leb→le, ==_iff,
  Bool-cases, Option-cases, length, take, drop, is_nil, select, replicate, any, flatten,
  flatten_snoc, length-replicate, length-append, take-append-drop, length-take, length-drop,
  take-append, drop-append, select-append, append_snoc, All, All-append, All-drop, All-take, Text,
  Error, text, text_eq, text_eq_refl, text_eq_sound, text_eq_iff, has_prefix, contains, has_suffix,
  is_space, trim_left, trim_right, trim_space, utf8_len, has_prefix_sound, has_prefix-append,
  HasPart, contains_sound, contains_complete, CaseMap, ascii_lower, ascii_upper, IsAscii, to_lower,
  to_upper, to_lower_ascii, to_upper_ascii, to_lower_idem, ascii, Dict, lookup, insert, without,
  lookup-insert, lookup-without, lookup-insert_self, lookup-append,
}
use opslog.Pipeline.{Outcome, Processor, process}

-- `Options`; 0 stands for every number up to 0, which `New` treats alike. Times are in nanoseconds.
pub record Options : Type 0 where
  pub queue_size : ℕ
  pub batch_size : ℕ
  pub flush_every : ℕ

abbrev or_default : ℕ → ℕ → ℕ
or_default zero d = d
or_default (suc n) d = suc n

-- The defaults of `New`.
unfoldable pub with_defaults : Options → Options
with_defaults opt = record {
  queue_size = or_default opt.queue_size 4096;
  batch_size = or_default opt.batch_size 64;
  flush_every = or_default opt.flush_every 200000000;
}

-- `contract.Output` over a state of its own: `Write` and `Flush` return the error, if any. The name
-- and the type only label log lines.
pub record Output {ℓ} (O A : Type ℓ) : Type ℓ where
  pub write : O → List A → O × Option Error
  pub flush : O → O × Option Error

-- What `Dispatch` returns, and whether the signal went into the queue or was dropped.
pub data Dispatched : Type 0 where
  queued full filtered cancelled : Dispatched
  failed : Error → Dispatched

-- The error that `Dispatch` returns to its caller: nil unless the pipeline or the context failed.
abbrev pub returned : Dispatched → Option Error
returned queued = none
returned full = none
returned filtered = none
returned cancelled = some (text "context canceled")
returned (failed e) = some e

module _ {ℓ} {A : Type ℓ} where
  -- The select at the end of `Dispatch`. Where the queue has room and the context is done, Go picks
  -- either case: `pick_done` is that choice.
  unfoldable pub offer : ℕ → List A → Bool → Bool → A → Dispatched × List A
  offer size queue done pick_done sig =
      if ltb (length queue) size
      then (if done && pick_done then (cancelled, queue) else (queued, queue ++ sig ∷ []))
      else if done
      then (cancelled, queue)
      else (full, queue)

  offer_kept : {S : Type ℓ} → ℕ → List A → Bool → Bool → Outcome A × S → (Dispatched × List A) × S
  offer_kept size queue done pick_done ((out, keep, some e), s) = ((failed e, queue), s)
  offer_kept size queue done pick_done ((out, false, none), s) = ((filtered, queue), s)
  offer_kept size queue done pick_done ((out, true, none), s) =
      (offer size queue done pick_done out, s)

  -- `Dispatch` through a pipeline, which `New` is always given.
  unfoldable pub dispatch :
      {S : Type ℓ}
      → List (Processor S A)
      → ℕ
      → List A
      → Bool
      → Bool
      → A
      → S
      → (Dispatched × List A) × S
  unfolding offer offer_kept
  dispatch pipeline size queue done pick_done sig s =
      offer_kept size queue done pick_done (process pipeline sig s)

  -- `DispatchBatch`: stops at the first error that `Dispatch` returns. The choices are those of each
  -- call.
  unfoldable pub dispatch_batch :
      {S : Type ℓ}
      → List (Processor S A)
      → ℕ
      → List A
      → Bool
      → Bool
      → List A
      → S
      → (Option Error × List A) × S
  dispatch_batch pipeline size queue done pick_done [] s = ((none, queue), s)
  dispatch_batch pipeline size queue done pick_done (sig ∷ batch) s =
      let ((r, queue'), s') = dispatch pipeline size queue done pick_done sig s in
      elim (returned r) [
        | some e ↦ ((some e, queue'), s')
        | none ↦ dispatch_batch pipeline size queue' done pick_done batch s'
      ]

module _ {ℓ} {O A : Type ℓ} (io : Output O A) where
  -- `write`: every output gets the batch; an error is logged.
  unfoldable pub write : List O → List A → List O
  write [] batch = []
  write (o ∷ outputs) batch = (io.write o batch).0 ∷ write outputs batch

  flush_from : Option Error → List O → Option Error × List O
  flush_from first [] = (first, [])
  flush_from first (o ∷ outputs) =
      let (o', e) = io.flush o in
      let first' = elim first as (λ _. Option Error) [ none ↦ e | some f ↦ some f ] in
      let (r, rest) = flush_from first' outputs in (r, o' ∷ rest)

  -- `flushAll`
  unfoldable pub flush_all : List O → Option Error × List O
  unfolding flush_from
  flush_all outputs = flush_from none outputs
