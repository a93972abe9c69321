-- ===== src/Transport/Httpx.antt =====
-- pkg/transport/httpx/http.go: one POST for a payload or a batch.
use opslog.Prelude.{
  ℕ, ◌<◌, ◌≡◌, refl, sym, ap, map, flatten, append-nil, ◌∙◌, ◌↔◌, ◌⊎◌, inl, inr, Bool, true, false,
  Option, none, some, List, [], ◌∷◌, ◌++◌, arith, leb, if◌then◌else◌, leb→le, Bool-cases, is_nil,
  Text, Error, text,
}
use opslog.Framer.{Bytes}
use opslog.Transport.{Endpoint}

-- The request of a `Send`; it has a JSON content type.
pub record Request : Type 0 where
  pub url : Text
  pub authorization : Option Text
  pub body : Bytes

-- What the code calls of package net/http: building a request, which fails for a bad address, and
-- `Do` with the status of the response. `N` is the state of the network.
pub record Client (N : Type 0) : Type 0 where
  pub new_request : Text → Option Error
  pub do_request : Request → N → (Error ⊎ ℕ) × N

pub record State (N : Type 0) : Type 0 where
  pub ok_flag : Bool
  pub first_ok : Bool
  pub net : N

-- The bytes of a status in the error's text.
abbrev status_error : (ℕ → Text) → ℕ → Error
status_error print status = text "http transport: status " ++ print status

module _ {N : Type 0} (io : Client N) (print : ℕ → Text) (t : Endpoint) where
  -- `Start`
  unfoldable pub start : State N → Option Error × State N
  start s = (none, record s { ok_flag = true })

  unfoldable pub request : Bytes → Request
  request payload = record {
    url = t.address;
    authorization = if is_nil t.token then none else some (text "Bearer " ++ t.token);
    body = payload;
  }

  answered : State N → (Error ⊎ ℕ) × N → Option Error × State N
  answered s (inl e, n) = (some e, record s { ok_flag = false; net = n })
  answered s (inr status, n) =
      if leb 300 status
      then (some (status_error print status), record s { ok_flag = false; net = n })
      else (none, record { ok_flag = true; first_ok = true; net = n })

  send_request : Option Error → Bytes → State N → Option Error × State N
  unfolding answered
  send_request (some e) payload s = (some e, s)
  send_request none payload s = answered s (io.do_request (request payload) s.net)

  -- `Send`
  unfoldable pub send : Bytes → State N → Option Error × State N
  unfolding send_request
  send payload s = send_request (io.new_request t.address) payload s

  pub join : List Bytes → Bytes
  join [] = []
  join (p ∷ []) = p
  join (p ∷ q ∷ ps) = p ++ (b',' ∷ join (q ∷ ps))

  unfoldable pub batch_body : List Bytes → Bytes
  unfolding join
  batch_body ps = text "{\"events\":[" ++ (join ps ++ text "]}")

  -- `SendBatch`
  unfoldable pub send_batch : List Bytes → State N → Option Error × State N
  unfolding send batch_body
  send_batch [] s = (none, s)
  send_batch (p ∷ []) s = send p s
  send_batch (p ∷ q ∷ ps) s = send (batch_body (p ∷ q ∷ ps)) s

  -- `Close`
  unfoldable pub close : State N → Option Error × State N
  close s = (none, record s { ok_flag = false })

  -- The body of a batch: the payload itself, or all payloads as the list of an object's events.
  pub whole_body : Bytes → List Bytes → Bytes
  whole_body p [] = p
  whole_body p (q ∷ ps) =
      text "{\"events\":[" ++ ((p ++ flatten (map (λ (b : Bytes). b',' ∷ b) (q ∷ ps))) ++ text "]}")

  -- The header of a token.
  pub bearer : Text → Option Text
  bearer [] = none
  bearer (c ∷ token) = some (text "Bearer " ++ c ∷ token)

  join_lem :
      (p : Bytes) (ps : List Bytes)
      → join (p ∷ ps) ≡ p ++ flatten (map (λ (b : Bytes). b',' ∷ b) ps)
  unfolding join
  join_lem p [] = sym (append-nil p)
  join_lem p (q ∷ ps) = ap (λ r. p ++ b',' ∷ r) (join_lem q ps)

  -- The one request of a batch.
  pub the_request : Bytes → List Bytes → Request
  the_request p ps = record {
    url = t.address;
    authorization = bearer t.token;
    body = whole_body p ps;
  }

  bearer_lem :
      (token : Text)
      → (if is_nil token then none else some (text "Bearer " ++ token)) ≡ bearer token
  unfolding bearer
  bearer_lem [] = refl
  bearer_lem (c ∷ token) = refl

  same_request :
      (p : Bytes) (ps : List Bytes) (b : Bytes) → b ≡ whole_body p ps → request b ≡ the_request p ps
  unfolding request the_request
  same_request p ps b e =
      ap (λ a. record { url = t.address; authorization = a; body = b }) (bearer_lem t.token)
      ∙ ap (λ r. record { url = t.address; authorization = bearer t.token; body = r }) e

  send_batch-send :
      (p : Bytes) (ps : List Bytes) (s : State N)
      → (b : Bytes) × (b ≡ whole_body p ps) × (send_batch (p ∷ ps) s ≡ send b s)
  unfolding send_batch whole_body batch_body
  send_batch-send p [] s = (p, refl, refl)
  send_batch-send p (q ∷ ps) s =
      (_, ap (λ r. text "{\"events\":[" ++ (r ++ text "]}")) (join_lem p (q ∷ ps)), refl)

  too_low :
      (status st : ℕ)
      → leb 300 status ≡ true
      → ◌≡◌ {A = Error ⊎ ℕ} (inr status) (inr st)
      → st < 300
      → ⊥
  too_low status st e h l = let j : status ≡ st = cc in omega (arith, leb→le _ _ e)

  answered_lem :
      (s : State N) (r : (Error ⊎ ℕ) × N)
      → ((answered s r).1.net ≡ r.1)
        × (((answered s r).0 ≡ none) ↔ ((status : ℕ) × (r.0 ≡ inr status) × (status < 300)))
        × (((answered s r).1.ok_flag ≡ true) ↔ ((answered s r).0 ≡ none))
  unfolding answered
  answered_lem s (inl e, n) = (refl, (λ h. cc, λ (st, h, l). cc), (λ h. cc, λ h. cc))
  answered_lem s (inr status, n) = elim (Bool-cases (leb 300 status)) [
    | inl e ↦
        simp e (refl, (λ h. cc, λ (st, h, l). absurd (too_low status st e h l)), (λ h. cc, λ h. cc))
    | inr e ↦ simp e (refl, (λ h. (status, refl, ground arith), λ h. refl), (λ h. refl, λ h. refl))
  ]

  -- Where the address makes a request, a batch, of one payload or of many, is one request to it with
  -- the token and all of the payloads, one after another: the network moves by that request alone. The
  -- batch is accepted exactly if the response has a status below 300, and the transport is healthy
  -- afterwards exactly if it was accepted.
  pub send_batch_lem :
      (p : Bytes) (ps : List Bytes) (s : State N)
      → io.new_request t.address ≡ none
      → let answer = io.do_request (the_request p ps) s.net in
        let out = send_batch (p ∷ ps) s in
        (out.1.net ≡ answer.1)
        × ((out.0 ≡ none) ↔ ((status : ℕ) × (answer.0 ≡ inr status) × (status < 300)))
        × ((out.1.ok_flag ≡ true) ↔ (out.0 ≡ none))
  unfolding send send_request
  send_batch_lem p ps s e =
      let (b, whole, sent) = send_batch-send p ps s in
      let step =
        sent
        ∙ ap (λ o. send_request o b s) e
        ∙ ap (λ q. answered s (io.do_request q s.net)) (same_request p ps b whole) in
      rw step (answered_lem s (io.do_request (the_request p ps) s.net))

  -- A bad address fails every send before the network is used, and the health stays.
  pub send_bad_address :
      (err : Error) (p : Bytes) (ps : List Bytes) (s : State N)
      → io.new_request t.address ≡ some err
      → send_batch (p ∷ ps) s ≡ (some err, s)
  unfolding send send_request
  send_bad_address err p ps s e =
      let (b, whole, sent) = send_batch-send p ps s in sent ∙ ap (λ o. send_request o b s) e
