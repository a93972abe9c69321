-- ===== src/Registry/Laws.antt =====
-- server/internal/registry/registry.go: a registered factory is the one that builds, and what the
-- registry of the server builds.
use opslog.Prelude.{
  ◌≡◌, sym, ◌⊎◌, inl, inr, [], arith, if◌then◌else◌, Bool-cases, Text, Error, text, text_eq,
  text_eq_sound, Dict, lookup, insert, lookup-insert,
}
use opslog.Cfg.{Config}
use opslog.Registry.{
  Factory, Mem, Packages, call_factory, reserved_output, register_input, register_decoder,
  register_processor, register_output, register_transport, build_input, build_decoder,
  build_processor, build_output, build_transport, register_outputs, register_transports,
  new_registry,
}

call_registered :
    {B : Type 0} (typ typ' : Text) (f : Factory B) (err : Error) (m : Dict (Factory B))
    (name : Text) (cfg : Config)
    → call_factory err (lookup typ' (insert typ f m)) name cfg
      ≡ (if text_eq typ typ' then f name cfg else call_factory err (lookup typ' m) name cfg)
unfolding call_factory
call_registered typ typ' f err m name cfg = rw (lookup-insert typ typ' f m) (ground arith)

-- The outputs that the server builds: by one of three factories, under its name.
pub IsBuiltBy : {D P O T : Type 0} → Packages D P O T → Text → Text → Config → O → Type 0
IsBuiltBy k typ name cfg out =
    ((typ ≡ text "filesystem") × (k.new_filesystem name cfg ≡ inr out))
    ⊎ (((typ ≡ text "mysql") × (k.new_mysql name cfg ≡ inr out))
        ⊎ ((typ ≡ text "clickhouse") × (k.new_clickhouse name cfg ≡ inr out)))

registered :
    {B : Type 0} (err : Error) (typ typ' : Text) (f : Factory B) (m : Dict (Factory B))
    (name : Text) (cfg : Config) (out : B)
    → call_factory err (lookup typ' (insert typ f m)) name cfg ≡ inr out
    → ((typ' ≡ typ) × (f name cfg ≡ inr out))
      ⊎ (call_factory err (lookup typ' m) name cfg ≡ inr out)
registered err typ typ' f m name cfg out h = elim (Bool-cases (text_eq typ typ')) [
  | inl e ↦
      inl
        (sym (text_eq_sound typ typ' e), ground (arith, call_registered typ typ' f err m name cfg))
  | inr e ↦ inr (ground (arith, call_registered typ typ' f err m name cfg))
]

module _ {I D P O T : Type 0} (quote : Text → Text) where
  -- After a registration its factory builds its type, and every other type builds as before, for the
  -- five kinds of component alike; a factory registered before for the type is replaced.
  pub build_registered :
      (r : Mem I D P O T) (typ typ' name : Text) (cfg : Config) (i : Factory I) (d : Factory D)
      (p : Factory P) (o : Factory O) (t : Factory T)
      → (build_input quote (register_input quote typ i r) typ' name cfg
          ≡ (if text_eq typ typ' then i name cfg else build_input quote r typ' name cfg))
        × (build_decoder quote (register_decoder quote typ d r) typ' name cfg
            ≡ (if text_eq typ typ' then d name cfg else build_decoder quote r typ' name cfg))
        × (build_processor quote (register_processor quote typ p r) typ' name cfg
            ≡ (if text_eq typ typ' then p name cfg else build_processor quote r typ' name cfg))
        × (build_output quote (register_output quote typ o r) typ' name cfg
            ≡ (if text_eq typ typ' then o name cfg else build_output quote r typ' name cfg))
        × (build_transport quote (register_transport quote typ t r) typ' name cfg
            ≡ (if text_eq typ typ' then t name cfg else build_transport quote r typ' name cfg))
  unfolding register_input register_decoder register_processor register_output register_transport
      build_input build_decoder build_processor build_output build_transport
  build_registered r typ typ' name cfg i d p o t = (
    call_registered typ typ' i _ r.inputs name cfg,
    call_registered typ typ' d _ r.decoders name cfg,
    call_registered typ typ' p _ r.processors name cfg,
    call_registered typ typ' o _ r.outputs name cfg,
    call_registered typ typ' t _ r.transports name cfg,
  )

-- Whatever type a configuration names, an output of the server's registry is built by the factory
-- of the file system, of MySQL or of ClickHouse, under that name: the two reserved types, and
-- every type that is not registered, build none.
pub new_registry_outputs :
    {D P O T : Type 0} (I : Type 0) (quote : Text → Text) (k : Packages D P O T) (typ name : Text)
    (cfg : Config) (out : O)
    → build_output quote (new_registry {I = I} quote k) typ name cfg ≡ inr out
    → IsBuiltBy k typ name cfg out
unfolding build_output new_registry register_transports register_transport register_outputs
    register_output register_processor register_decoder IsBuiltBy reserved_output call_factory
    lookup
new_registry_outputs I quote k typ name cfg out h =
    elim (registered _ (text "elasticsearch") typ _ _ name cfg out h) [
      | inl (e, b) ↦ cc
      | inr h1 ↦ elim (registered _ (text "kafka") typ _ _ name cfg out h1) [
        | inl (e, b) ↦ cc
        | inr h2 ↦ elim (registered _ (text "clickhouse") typ _ _ name cfg out h2) [
          | inl q ↦ inr (inr q)
          | inr h3 ↦ elim (registered _ (text "mysql") typ _ _ name cfg out h3) [
            | inl q ↦ inr (inl q)
            | inr h4 ↦
                elim (registered _ (text "filesystem") typ k.new_filesystem [] name cfg out h4) [
                  | inl q ↦ inl q
                  | inr h5 ↦ cc
                ]
          ]
        ]
      ]
    ]
