-- ===== src/Input/Http.antt =====
-- server/internal/input/http.go: the handler of an HTTP input, beside that of /ingest.
use opslog.Prelude.{
  ℕ, ◌≡◌, refl, sym, ap, ◌∙◌, ◌++◌, ◌&&◌, ◌⊎◌, inl, inr, Bool, false, not, List, [], ◌∷◌,
  if◌then◌else◌, Bool-cases, take, is_nil, All, Text, Error, text, text_eq,
}
use opslog.Framer.{Bytes}
use opslog.Signal.{Event}
use opslog.Codec.{decode_batch_json, json_decode}
use opslog.App.{
  remote_host, IngestRequest, Ingest, body_limit, is_refused, with_host, dispatch_events,
  ingest_single, ingest_batch, ingest_body, ingest,
}

-- What an HTTP input is made with: its token, and `Decode` of its decoder.
pub record HttpInput : Type 0 where
  pub token : Text
  pub decode : Text → Bytes → Error ⊎ Event

module _ {S : Type 0} (i : Ingest) (h : HttpInput) (dispatch : Event → S → S) where
  -- The loop over a batch; an error of `Dispatch` is dropped.
  unfoldable pub handle_events : List Event → S → S
  handle_events [] s = s
  handle_events (ev ∷ events) s = handle_events events (dispatch ev s)

  unfoldable pub handle_single : Error ⊎ Event → S → ℕ × S
  handle_single (inl e) s = (400, s)
  handle_single (inr sig) s = (202, dispatch sig s)

  unfoldable pub handle_batch : Text → Bytes → Error ⊎ List Event → S → ℕ × S
  handle_batch remote body (inl e) s = handle_single (h.decode remote body) s
  handle_batch remote body (inr events) s = (202, handle_events events s)

  unfoldable pub handle_body : Text → Error ⊎ Bytes → S → ℕ × S
  handle_body remote (inl e) s = (400, s)
  handle_body remote (inr whole) s =
      let body = take body_limit whole in
      handle_batch remote body (decode_batch_json i.json i.to_text body) s

  -- `h.token != "" && auth != "Bearer "+h.token`
  unfoldable pub is_unauthorized : IngestRequest → Bool
  is_unauthorized r =
      not (is_nil h.token) && not (text_eq r.authorization (text "Bearer " ++ h.token))

  -- The handler that `HTTP.Start` mounts.
  unfoldable pub handle_request : IngestRequest → S → ℕ × S
  handle_request r s =
      if not (text_eq r.method (text "POST"))
      then (405, s)
      else if is_unauthorized r
      then (401, s)
      else handle_body r.remote r.body s

  -- The events of a batch that come with a host.
  abbrev pub HaveHosts : List Event → Type 0
  HaveHosts = All (λ ev. is_nil ev.host ≡ false)

  events_same :
      (remote : Text) (events : List Event) (s : S)
      → HaveHosts events
      → dispatch_events i dispatch remote events s ≡ handle_events events s
  unfolding dispatch_events handle_events with_host
  events_same remote [] s g = refl
  events_same remote (ev ∷ events) s (one, g) =
      ap (λ e. dispatch_events i dispatch remote events (dispatch e s)) (host_kept one)
      ∙ events_same remote events (dispatch ev s) g
    where
      host_kept : is_nil ev.host ≡ false → with_host i remote ev ≡ ev
      host_kept e = ap (λ (b : Bool). if b then record ev { host = remote_host i remote } else ev) e

  single_same : (d : Error ⊎ Event) (s : S) → ingest_single i dispatch d s ≡ handle_single d s
  unfolding ingest_single handle_single
  single_same (inl e) s = refl
  single_same (inr sig) s = refl

  -- The same token as that of /ingest, and the JSON decoder.
  module _ (same_token : h.token ≡ i.token)
      (is_json : (remote : Text) (body : Bytes)
        → h.decode remote body ≡ json_decode i.json i.now remote body) where
    batch_same :
        (remote : Text) (body : Bytes) (b : Error ⊎ List Event) (s : S)
        → ((ingest_batch i dispatch remote body b s).0 ≡ (handle_batch remote body b s).0)
          × (((events : List Event) → b ≡ inr events → HaveHosts events)
              → ingest_batch i dispatch remote body b s ≡ handle_batch remote body b s)
    unfolding ingest_batch handle_batch
    batch_same remote body (inl e) s =
        let same =
          single_same (json_decode i.json i.now remote body) s
          ∙ ap (λ d. handle_single d s) (sym (is_json remote body)) in
        (ap (λ r. r.0) same, λ g. same)
    batch_same remote body (inr events) s =
        (refl, λ g. ap (λ q. (202, q)) (events_same remote events s (g events refl)))

    body_same :
        (remote : Text) (b : Error ⊎ Bytes) (s : S)
        → ((ingest_body i dispatch remote b s).0 ≡ (handle_body remote b s).0)
          × (((whole : Bytes) (events : List Event)
                → b ≡ inr whole
                → decode_batch_json i.json i.to_text (take body_limit whole) ≡ inr events
                → HaveHosts events)
              → ingest_body i dispatch remote b s ≡ handle_body remote b s)
    unfolding ingest_body handle_body
    body_same remote (inl e) s = (refl, λ g. refl)
    body_same remote (inr whole) s =
        let body = take body_limit whole in
        let (status, all) = batch_same remote body (decode_batch_json i.json i.to_text body) s in
        (status, λ g. all (λ events e. g whole events refl e))

    refused_same : (r : IngestRequest) → is_unauthorized r ≡ is_refused i r
    unfolding is_unauthorized is_refused
    refused_same r =
        ap
          (λ (token : Text).
            not (is_nil token) && not (text_eq r.authorization (text "Bearer " ++ token)))
          same_token

    -- An HTTP input and /ingest answer every request with the same status, and alike in all where each
    -- event of a batch comes with a host.
    pub same_answer :
        (r : IngestRequest) (s : S)
        → ((ingest i dispatch r s).0 ≡ (handle_request r s).0)
          × (((whole : Bytes) (events : List Event)
                → r.body ≡ inr whole
                → decode_batch_json i.json i.to_text (take body_limit whole) ≡ inr events
                → HaveHosts events)
              → ingest i dispatch r s ≡ handle_request r s)
    unfolding ingest handle_request
    same_answer r s = elim (Bool-cases (text_eq r.method (text "POST"))) [
      | inr other ↦ rw other (refl, λ g. refl)
      | inl post ↦ elim (Bool-cases (is_refused i r)) [
        | inl refused ↦ rw (post, refused_same r, refused) (refl, λ g. refl)
        | inr granted ↦ rw (post, refused_same r, granted) (body_same r.remote r.body s)
      ]
    ]

    -- An HTTP input with the JSON decoder and the token of /ingest answers a request whose body is no
    -- batch, or a batch whose events all come with a host, with the status of /ingest, and leaves the
    -- same state: the same events are dispatched.
    pub ingest-handle_request :
        (r : IngestRequest) (s : S)
        → ((whole : Bytes) (events : List Event)
            → r.body ≡ inr whole
            → decode_batch_json i.json i.to_text (take body_limit whole) ≡ inr events
            → HaveHosts events)
        → ingest i dispatch r s ≡ handle_request r s
    ingest-handle_request r s g = (same_answer r s).1 g
