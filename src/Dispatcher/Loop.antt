-- ===== src/Dispatcher/Loop.antt =====
-- The goroutine `loop` and `Stop`, as steps that may come in any order among the calls of `Dispatch`.
pub mod Invariant
pub mod Drain
use opslog.Prelude.{
  ℕ, zero, suc, ◌+◌, ◌-◌, ◌*◌, ◌/◌, ◌%◌, ◌^◌, ◌≤◌, ◌<◌, ◌≡◌, refl, sym, ap, ◌∙◌, ◌≢◌, ◌↔◌, ◌⊎◌, inl,
  inr, Bool, true, false, not, ◌&&◌, ◌||◌, Option, none, some, List, [], ◌∷◌, ◌++◌, map,
  append_assoc, append-nil, arith, ltb, leb, ◌==◌, if◌then◌else◌, ltb→lt, leb→le, ==_iff,
  Bool-cases, Option-cases, length, take, drop, is_nil, select, replicate, any, flatten,
  flatten_snoc, length-replicate, length-append, take-append-drop, length-take, length-drop,
  take-append, drop-append, select-append, append_snoc, All, All-append, All-drop, All-take, Text,
  Error, text, text_eq, text_eq_refl, text_eq_sound, text_eq_iff, has_prefix, contains, has_suffix,
  is_space, trim_left, trim_right, trim_space, utf8_len, has_prefix_sound, has_prefix-append,
  HasPart, contains_sound, contains_complete, CaseMap, ascii_lower, ascii_upper, IsAscii, to_lower,
  to_upper, to_lower_ascii, to_upper_ascii, to_lower_idem, ascii, Dict, lookup, insert, without,
  lookup-insert, lookup-without, lookup-insert_self, lookup-append,
}
use opslog.Dispatcher.{Options, Output, Dispatched, offer, write}

-- Where the loop stands: in its first select, in the drain after the context is done, returned.
pub data Phase : Type 0 where
  running draining stopped : Phase

-- The channel, the loop's batch and the outputs. The last two fields record what happened: the
-- signals that went into the channel, and the batches that were given to `write`.
pub record Async {ℓ} (O A : Type ℓ) : Type ℓ where
  pub queue : List A
  pub batch : List A
  pub outputs : List O
  pub phase : Phase
  pub accepted : List A
  pub batches : List (List A)

-- What can happen next: a call of `Dispatch` reaches its select with a signal, or a case of the
-- loop's select fires.
pub data LoopEvent {ℓ} (A : Type ℓ) : Type ℓ where
  offered : (sig : A) (done pick_done : Bool) → LoopEvent A
  receive tick cancel : LoopEvent A

module _ {ℓ} {O A : Type ℓ} (io : Output O A) (opt : Options) where
  abbrev pub start : List O → Async O A
  start outputs = record {
    queue = [];
    batch = [];
    outputs = outputs;
    phase = running;
    accepted = [];
    batches = [];
  }

  -- `flushBatch`
  pub flush_batch : Async O A → Async O A
  flush_batch d = if is_nil d.batch then d else record d {
    outputs = write io d.outputs d.batch;
    batches = d.batches ++ d.batch ∷ [];
    batch = [];
  }

  -- `batch = append(batch, s); if len(batch) >= d.batchN { flushBatch() }`
  pub collect : A → List A → Async O A → Async O A
  unfolding flush_batch
  collect sig rest d =
      let d' = record d { queue = rest; batch = d.batch ++ sig ∷ [] } in
      if leb opt.batch_size (length d'.batch) then flush_batch d' else d'

  -- `case s := <-d.ch`; the select of the drain has a default case, which ends the loop
  receive_from : Phase → List A → Async O A → Async O A
  unfolding collect flush_batch
  receive_from stopped queue d = d
  receive_from running [] d = d
  receive_from draining [] d = record (flush_batch d) { phase = stopped }
  receive_from _ (sig ∷ rest) d = collect sig rest d

  tick_in : Phase → Async O A → Async O A
  unfolding flush_batch
  tick_in running d = flush_batch d
  tick_in _ d = d

  cancel_in : Phase → Async O A → Async O A
  cancel_in running d = record d { phase = draining }
  cancel_in _ d = d

  add_offer : A → Dispatched × List A → Async O A → Async O A
  add_offer sig (Dispatched.queued, queue) d = record d {
    queue = queue;
    accepted = d.accepted ++ sig ∷ [];
  }
  add_offer sig (_, queue) d = record d { queue = queue }

  -- An event that the phase does not allow changes nothing.
  unfoldable pub step : LoopEvent A → Async O A → Async O A
  unfolding receive_from tick_in cancel_in add_offer offer
  step (offered sig done pick_done) d =
      add_offer sig (offer opt.queue_size d.queue done pick_done sig) d
  step receive d = receive_from d.phase d.queue d
  step tick d = tick_in d.phase d
  step cancel d = cancel_in d.phase d

  unfoldable pub run : List (LoopEvent A) → Async O A → Async O A
  run [] d = d
  run (e ∷ events) d = run events (step e d)
