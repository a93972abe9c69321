-- ===== src/App/Laws.antt =====
-- What a request to /ingest does.
use opslog.Prelude.{
  ℕ, ◌+◌, ◌≤◌, ◌<◌, ◌≡◌, ap, ◌∙◌, ◌⊎◌, inl, inr, List, [], ◌∷◌, ◌++◌, arith, length, take,
  length-append, length-take, take-append, Text, Error,
}
use opslog.Framer.{Bytes}
use opslog.Signal.{Event}
use opslog.Codec.{decode_batch_json, json_decode}
use opslog.App.{IngestRequest, body_limit, Ingest, truncate_for_log, dispatch_events}

take_cut : (max : ℕ) (s : Text) → max < length s → take max (take max s ++ 8230 ∷ []) ≡ take max s
take_cut max s h =
    let size : max ≡ length (take max s) = omega (arith, length-take max s) in
    ap (λ n. take n (take max s ++ 8230 ∷ [])) size ∙ take-append (take max s) (8230 ∷ [])

-- A text for the log is at most one code point longer than the limit, starts with the text, and is
-- the text itself if that fits.
pub truncate_for_log_lem :
    (s : Text) (max : ℕ)
    → 0 < max
    → (length (truncate_for_log s max) ≤ max + 1)
      × (take max (truncate_for_log s max) ≡ take max s)
      × (length s ≤ max → truncate_for_log s max ≡ s)
unfolding truncate_for_log
truncate_for_log_lem s max pos =
    ground (arith, length-take max s, take_cut max s, length-append (take max s) (8230 ∷ []))

module _ {S : Type 0} (i : Ingest) (dispatch : Event → S → S) where
  -- How a body was accepted: as a batch, each event of which is dispatched in order, with the peer's
  -- host where it has none, or else as one event.
  abbrev pub Accepts : Text → Bytes → S → S → Type 0
  Accepts remote body s s' =
      ((events : List Event) × (decode_batch_json i.json i.to_text body ≡ inr events)
        × (s' ≡ dispatch_events i dispatch remote events s))
      ⊎ ((e : Error) × (sig : Event) × (decode_batch_json i.json i.to_text body ≡ inl e)
          × (json_decode i.json i.now remote body ≡ inr sig)
          × (s' ≡ dispatch sig s))

  -- A body that decodes neither as a batch nor as one event.
  abbrev pub Fails : Text → Bytes → Type 0
  Fails remote body =
      (e : Error) × (x : Error) × (decode_batch_json i.json i.to_text body ≡ inl e)
      × (json_decode i.json i.now remote body ≡ inl x)

  -- A body that cannot be read, or whose first bytes up to the limit do not decode.
  abbrev pub Unreadable : IngestRequest → Type 0
  Unreadable r =
      ((e : Error) × (r.body ≡ inl e))
      ⊎ ((whole : Bytes) × (r.body ≡ inr whole) × Fails r.remote (take body_limit whole))

  -- The two ways for a part of the handler to end.
  abbrev Ends : Text → Bytes → S → ℕ × S → Type 0
  Ends remote body s r =
      ((r.0 ≡ 202) × Accepts remote body s r.1) ⊎ ((r.0 ≡ 400) × (r.1 ≡ s) × Fails remote body)
