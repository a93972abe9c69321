-- ===== src/Dispatcher/Laws.antt =====
-- What one call of `Dispatch`, of `write` and of `flushAll` does.
use opslog.Prelude.{
  ℕ, ◌≤◌, ◌<◌, ◌≡◌, refl, sym, ◌∙◌, ◌≢◌, ◌⊎◌, Bool, true, false, Option, none, some, List, [], ◌∷◌,
  ◌++◌, map, arith, length, Error,
}
use mathlib.Core.List.{foldl}
use opslog.Pipeline.{Outcome, Processor, process}
use opslog.Dispatcher.{
  Options, with_defaults, Output, Dispatched, queued, full, filtered, cancelled, failed, offer,
  offer_kept, dispatch, write, flush_from, flush_all,
}

-- `New` never makes a queue or a batch of size 0, and keeps every size that is given.
pub with_defaults_sizes :
    (opt : Options)
    → (0 < (with_defaults opt).queue_size)
      × (0 < (with_defaults opt).batch_size)
      × (opt.queue_size ≢ 0 → (with_defaults opt).queue_size ≡ opt.queue_size)
      × (opt.batch_size ≢ 0 → (with_defaults opt).batch_size ≡ opt.batch_size)
unfolding with_defaults
with_defaults_sizes opt = ground arith

module _ {S A : Type 0} (pipeline : List (Processor S A)) (size : ℕ) (queue : List A) where
  -- What a call of `Dispatch` did, by the outcome of the pipeline.
  abbrev pub Explains : Bool → Outcome A → Dispatched → List A → Type 0
  Explains done (out, keep, some e) r queue' = (r ≡ failed e) × (queue' ≡ queue)
  Explains done (out, false, none) r queue' = (r ≡ filtered) × (queue' ≡ queue)
  Explains done (out, true, none) r queue' =
      ((r ≡ queued) × (queue' ≡ queue ++ out ∷ []) × (length queue < size))
      ⊎ (((r ≡ full) × (queue' ≡ queue) × (size ≤ length queue) × (done ≡ false))
          ⊎ ((r ≡ cancelled) × (queue' ≡ queue) × (done ≡ true)))

  offer-Explains :
      (done pick_done : Bool) (out : A)
      → Explains done
          (out, true, none)
          (offer size queue done pick_done out).0
          (offer size queue done pick_done out).1
  unfolding offer
  offer-Explains done pick_done out = ground arith

  -- `Dispatch` on every branch: an error of the pipeline is returned and a signal that it does not
  -- keep is left out, both with the queue as it was; a kept signal goes to the end of the queue only
  -- if there is room, is dropped only if there is none and the context is live, and the call is
  -- cancelled only if the context is done. The state is what the pipeline leaves.
  pub dispatch-Explains :
      (done pick_done : Bool) (sig : A) (s : S)
      → let r = dispatch pipeline size queue done pick_done sig s in
        Explains done (process pipeline sig s).0 r.0.0 r.0.1 × (r.1 ≡ (process pipeline sig s).1)
  unfolding dispatch
  dispatch-Explains done pick_done sig s = go (process pipeline sig s)
    where
      go :
          (o : Outcome A × S)
          → Explains done o.0
              (offer_kept size queue done pick_done o).0.0
              (offer_kept size queue done pick_done o).0.1
            × ((offer_kept size queue done pick_done o).1 ≡ o.1)
      go ((out, keep, some e), s') = ((refl, refl), refl)
      go ((out, false, none), s') = ((refl, refl), refl)
      go ((out, true, none), s') = (offer-Explains done pick_done out, refl)

module _ {O A : Type 0} (io : Output O A) where
  -- An output's state after the batches, by its own writes alone.
  abbrev pub write_all : List (List A) → O → O
  write_all batches o = foldl (λ t b. (io.write t b).0) o batches

  map-write :
      (b : List A) (batches : List (List A)) (outputs : List O)
      → map (write_all batches) (write io outputs b) ≡ map (write_all (b ∷ batches)) outputs
  unfolding write
  map-write b batches [] = refl
  map-write b batches (o ∷ outputs) = rw (map-write b batches outputs)

  map-id : (outputs : List O) → map (write_all []) outputs ≡ outputs
  map-id [] = refl
  map-id (o ∷ outputs) = rw (map-id outputs)

  -- Each output ends as if it were the only one: neither another output's error nor its own keeps a
  -- later batch from it.
  pub outputs_independent :
      (outputs : List O) (batches : List (List A))
      → foldl (write io) outputs batches ≡ map (write_all batches) outputs
  outputs_independent outputs [] = sym (map-id outputs)
  outputs_independent outputs (b ∷ batches) =
      outputs_independent (write io outputs b) batches ∙ map-write b batches outputs

  abbrev pub first_error : List (Option Error) → Option Error
  first_error [] = none
  first_error (none ∷ l) = first_error l
  first_error (some e ∷ l) = some e

  flush_from_lem :
      (first : Option Error) (outputs : List O)
      → flush_from io first outputs ≡ (
        first_error (first ∷ map (λ o. (io.flush o).1) outputs),
        map (λ o. (io.flush o).0) outputs,
      )
  unfolding flush_from
  flush_from_lem none [] = refl
  flush_from_lem (some e) [] = refl
  flush_from_lem none (o ∷ outputs) = rw (flush_from_lem (io.flush o).1 outputs)
  flush_from_lem (some e) (o ∷ outputs) = rw (flush_from_lem (some e) outputs)

  -- `flushAll` flushes every output, failing or not, and returns the first error.
  pub flush_all_lem :
      (outputs : List O)
      → flush_all io outputs
        ≡ (first_error (map (λ o. (io.flush o).1) outputs), map (λ o. (io.flush o).0) outputs)
  unfolding flush_all
  flush_all_lem outputs = flush_from_lem none outputs
