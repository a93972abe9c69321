-- ===== src/Codec/Laws.antt =====
-- What a decoded event is sure to have, and what stripping a port leaves.
use opslog.Prelude.{
  ◌+◌, ◌≡◌, refl, ◌≢◌, ◌↔◌, ◌⊎◌, inl, inr, false, not, ◌&&◌, none, some, List, [], ◌∷◌, ◌++◌, arith,
  if◌then◌else◌, length, is_nil, take-append, Text, Error, Dict,
}
use opslog.Framer.{Bytes}
use opslog.Signal.{Time, Event}
use opslog.Codec.{
  Json, event_of, kind_field, decode_json, decode_items, add_decoded, last_colon, count_colons,
  strip_at, strip_port, json_decode,
}

module _ (json : Json) where
  -- Decoded one by one, in order.
  abbrev pub AllDecode : List Bytes → List Event → Type 0
  AllDecode [] [] = Unit
  AllDecode (b ∷ bs) (e ∷ es) = (decode_json json b ≡ inr e) × AllDecode bs es
  AllDecode _ _ = ⊥

  add_decoded-inr :
      (x : Error ⊎ Event) (xs : Error ⊎ List Event) (events : List Event)
      → add_decoded json x xs ≡ inr events
      → (e : Event) × (es : List Event) × (events ≡ e ∷ es) × (x ≡ inr e) × (xs ≡ inr es)
  unfolding add_decoded
  add_decoded-inr (inl x) xs events h = cc
  add_decoded-inr (inr e) (inl x) events h = cc
  add_decoded-inr (inr e) (inr es) events h = (e, es, ground arith, refl, refl)

  decode_items_back :
      (b : Bytes) (items : List Bytes) (events : List Event)
      → ((es : List Event) → AllDecode items es → decode_items json items ≡ inr es)
      → AllDecode (b ∷ items) events
      → add_decoded json (decode_json json b) (decode_items json items) ≡ inr events
  unfolding add_decoded
  decode_items_back b items [] ih h = absurd h
  decode_items_back b items (e ∷ es) ih (one, more) = rw (one, ih es more)

  -- A batch decodes exactly if every item does, into the items' events in their order: nothing is
  -- left out of a batch that is accepted.
  pub decode_items_iff :
      (items : List Bytes) (events : List Event)
      → (decode_items json items ≡ inr events) ↔ AllDecode items events
  unfolding decode_items
  decode_items_iff [] [] = (λ h. tt, λ h. refl)
  decode_items_iff [] (e ∷ events) = (λ h. cc, λ h. absurd h)
  decode_items_iff (b ∷ items) events = (
    λ h.
        let (e, es, split, one, more) =
          add_decoded-inr (decode_json json b) (decode_items json items) events h in
        rw split (one, (decode_items_iff items es).0 more),
    decode_items_back b items events (λ es. (decode_items_iff items es).1),
  )

  event_of-kind :
      (payload : Bytes) (raw : Dict Bytes) → is_nil (event_of json payload raw).kind ≡ false
  unfolding event_of kind_field
  event_of-kind payload raw = ground arith

  event_of-raw :
      (payload : Bytes) (raw : Dict Bytes) → (event_of json payload raw).raw ≡ some payload
  unfolding event_of
  event_of-raw payload raw = refl

  -- What the server's JSON decoder lets through has a kind, the payload that it came from, and a
  -- time, if the clock has one; a host in the payload is kept, and an event without one takes the
  -- peer's address without its port.
  pub json_decode_lem :
      (now : Time) (remote : Text) (payload : Bytes) (e : Event)
      → now ≢ 0
      → json_decode json now remote payload ≡ inr e
      → (is_nil e.kind ≡ false)
        × (e.raw ≡ some payload)
        × (e.time ≢ 0)
        × ((raw : Dict Bytes) × (json.unmarshal_object payload ≡ inr raw)
            × (e.host ≡ (
                if is_nil (event_of json payload raw).host && not (is_nil remote)
                then strip_port remote
                else (event_of json payload raw).host)))
  unfolding json_decode decode_json
  json_decode_lem now remote payload e pos h =
      ground (arith, event_of-kind payload, event_of-raw payload)

count_colons-append : (s t : Text) → count_colons (s ++ t) ≡ count_colons s + count_colons t
unfolding count_colons
count_colons-append [] t = omega arith
count_colons-append (c ∷ s) t = ground (arith, count_colons-append s t)

last_colon-none : (s : Text) → count_colons s ≡ 0 → last_colon s ≡ none
unfolding count_colons last_colon
last_colon-none [] h = refl
last_colon-none (c ∷ s) h = ground (arith, last_colon-none s)

last_colon-append :
    (host port : Text) → count_colons port ≡ 0 → last_colon (host ++ 58 ∷ port) ≡ some (length host)
unfolding last_colon
last_colon-append [] port h = rw (last_colon-none port h)
last_colon-append (c ∷ host) port h = rw (last_colon-append host port h)

one_colon :
    (host port : Text)
    → count_colons host ≡ 0
    → count_colons port ≡ 0
    → count_colons (host ++ 58 ∷ port) ≡ 1
unfolding count_colons
one_colon host port k k' = ground (arith, count_colons-append host (58 ∷ port))

-- The address of an IPv4 peer or of a host name, which has one colon and a host before it, loses
-- the colon and its port.
pub strip_port_host :
    (host port : Text)
    → host ≢ []
    → count_colons host ≡ 0
    → count_colons port ≡ 0
    → strip_port (host ++ 58 ∷ port) ≡ host
unfolding strip_port strip_at
strip_port_host [] port h k k' = absurd (h refl)
strip_port_host (c ∷ host) port h k k' = rw (
  last_colon-append (c ∷ host) port k',
  one_colon (c ∷ host) port k k',
  take-append (c ∷ host) (58 ∷ port),
)
