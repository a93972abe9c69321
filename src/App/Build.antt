-- ===== src/App/Build.antt =====
-- server/internal/app/app.go: building the server from its configuration, starting and stopping it.
pub mod Lifecycle
pub mod Laws
use opslog.Prelude.{
  ℕ, zero, suc, ◌+◌, ◌-◌, ◌*◌, ◌/◌, ◌%◌, ◌^◌, ◌≤◌, ◌<◌, ◌≡◌, refl, sym, ap, ◌∙◌, ◌≢◌, ◌↔◌, ◌⊎◌, inl,
  inr, Bool, true, false, not, ◌&&◌, ◌||◌, Option, none, some, List, [], ◌∷◌, ◌++◌, map,
  append_assoc, append-nil, arith, ltb, leb, ◌==◌, if◌then◌else◌, ltb→lt, leb→le, ==_iff,
  Bool-cases, Option-cases, length, take, drop, is_nil, select, replicate, any, flatten,
  flatten_snoc, length-replicate, length-append, take-append-drop, length-take, length-drop,
  take-append, drop-append, select-append, append_snoc, All, All-append, All-drop, All-take, Text,
  Error, text, text_eq, text_eq_refl, text_eq_sound, text_eq_iff, has_prefix, contains, has_suffix,
  is_space, trim_left, trim_right, trim_space, utf8_len, has_prefix_sound, has_prefix-append,
  HasPart, contains_sound, contains_complete, CaseMap, ascii_lower, ascii_upper, IsAscii, to_lower,
  to_upper, to_lower_ascii, to_upper_ascii, to_lower_idem, to_upper_idem, ascii, Dict, lookup,
  insert, without, lookup-insert, lookup-without, lookup-insert_self, lookup-append, ℤ, pos, negsuc,
  positive_part, cut_at, trim, trim_prefix, insert-All, lookup-All,
}
use opslog.Cfg.{Std, Config, get_string}
use opslog.Config.Load.{File, Component, parse_component}
use opslog.Registry.{Mem, build_output, build_processor}

-- What the server makes of its components: the registry's factories for outputs and processors, the
-- constructors of the inputs, which take the decoder, and the interfaces that an output has.
pub record Parts (I D P O T : Type 0) : Type 0 where
  pub quote : Text → Text
  pub registry : Mem I D P O T
  pub json : D
  pub plain : D
  pub normalize : P
  pub new_udp : Text → Config → D → Error ⊎ I
  pub new_tcp : Text → Config → D → Error ⊎ I
  pub new_grpc : Text → Config → D → Error ⊎ I
  pub is_queryable : O → Bool
  pub is_archiver : O → Bool
  pub is_restorer : O → Bool

-- `App` with the part of `api.Server` that `New` fills; `queryable` and the others are the outputs
-- that the API is given.
pub record App (I P O : Type 0) : Type 0 where
  pub inputs : List I
  pub procs : List P
  pub outs : List O
  pub queryable : Option O
  pub archiver : Option O
  pub restorer : Option O

-- `x, err := …; if err != nil { return nil, err }`
unfoldable pub bind : {X Y : Type 0} → Error ⊎ X → (X → Error ⊎ Y) → Error ⊎ Y
bind (inl e) f = inl e
bind (inr x) f = f x

-- The first of the outputs with an interface.
unfoldable pub first_with : {O : Type 0} → (O → Bool) → List O → Option O
first_with p [] = none
first_with p (o ∷ os) = let rest = first_with p os in if p o then some o else rest

-- A loop that builds each component, and stops at the first error.
unfoldable pub build_each : {X : Type 0} → (Config → Error ⊎ X) → List Config → Error ⊎ List X
build_each f [] = inr []
build_each f (raw ∷ raws) =
    let rest = build_each f raws in bind (f raw) (λ x. bind rest (λ xs. inr (x ∷ xs)))

module _ {I D P O T : Type 0} (std : Std) (k : Parts I D P O T) where
  unfoldable pub build_one_output : Config → Error ⊎ O
  build_one_output raw =
      bind (parse_component std raw) (λ c. build_output k.quote k.registry c.typ c.name c.cfg)

  unfoldable pub build_one_processor : Config → Error ⊎ P
  build_one_processor raw =
      bind (parse_component std raw) (λ c. build_processor k.quote k.registry c.typ c.name c.cfg)

  -- The processors; without a pipeline the normalizer alone.
  unfoldable pub build_procs : List Config → Error ⊎ List P
  build_procs raws =
      if is_nil raws then inr (k.normalize ∷ []) else build_each build_one_processor raws

  unfoldable pub decoder_for : Component → D
  decoder_for c =
      if text_eq (get_string std c.cfg (text "format") (text "json")) (text "plain")
      then k.plain
      else k.json

  unfoldable pub unsupported : Text → Error
  unsupported typ = text "unsupported input type " ++ k.quote typ

  -- The switch over the type of an input; `none` where the shared HTTP server stands for it.
  unfoldable pub build_typed : Component → Error ⊎ Option I
  build_typed c =
      if text_eq c.typ (text "udp")
      then bind (k.new_udp c.name c.cfg (decoder_for c)) (λ i. inr (some i))
      else if text_eq c.typ (text "tcp")
      then bind (k.new_tcp c.name c.cfg (decoder_for c)) (λ i. inr (some i))
      else if text_eq c.typ (text "grpc")
      then bind (k.new_grpc c.name c.cfg (decoder_for c)) (λ i. inr (some i))
      else if text_eq c.typ (text "http") || text_eq c.typ (text "websocket")
      then inr none
      else inl (unsupported c.typ)

  abbrev keep : Option I → List I → List I
  keep none is = is
  keep (some i) is = i ∷ is

  -- The loop over the inputs.
  unfoldable pub build_inputs : List Config → Error ⊎ List I
  build_inputs [] = inr []
  build_inputs (raw ∷ raws) =
      let rest = build_inputs raws in
      bind (parse_component std raw)
        (λ c. bind (build_typed c) (λ i. bind rest (λ is. inr (keep i is))))

  unfoldable pub assemble : List O → List P → List I → App I P O
  assemble outs procs inputs = record {
    inputs = inputs;
    procs = procs;
    outs = outs;
    queryable = first_with k.is_queryable outs;
    archiver = first_with k.is_archiver outs;
    restorer = first_with k.is_restorer outs;
  }

  -- `New` on what `Load` returns
  unfoldable pub new : Error ⊎ File → Error ⊎ App I P O
  new loaded = bind loaded (λ f. bind (build_each build_one_output f.outputs) (λ outs.
      bind (build_procs f.pipeline)
        (λ procs. bind (build_inputs f.inputs) (λ inputs. inr (assemble outs procs inputs)))))
