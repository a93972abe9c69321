-- ===== src/Registry.antt =====
-- server/internal/registry/registry.go and server/internal/bootstrap/register.go: the factories by
-- the names that a configuration gives.
pub mod Laws
use opslog.Prelude.{
  ℕ, zero, suc, ◌+◌, ◌-◌, ◌*◌, ◌/◌, ◌%◌, ◌^◌, ◌≤◌, ◌<◌, ◌≡◌, refl, sym, ap, ◌∙◌, ◌≢◌, ◌↔◌, ◌⊎◌, inl,
  inr, Bool, true, false, not, ◌&&◌, ◌||◌, Option, none, some, List, [], ◌∷◌, ◌++◌, map,
  append_assoc, append-nil, arith, ltb, leb, ◌==◌, if◌then◌else◌, ltb→lt, leb→le, ==_iff,
  Bool-cases, Option-cases, length, take, drop, is_nil, select, replicate, any, flatten,
  flatten_snoc, length-replicate, length-append, take-append-drop, length-take, length-drop,
  take-append, drop-append, select-append, append_snoc, All, All-append, All-drop, All-take, Text,
  Error, text, text_eq, text_eq_refl, text_eq_sound, text_eq_iff, has_prefix, contains, has_suffix,
  is_space, trim_left, trim_right, trim_space, utf8_len, has_prefix_sound, has_prefix-append,
  HasPart, contains_sound, contains_complete, CaseMap, ascii_lower, ascii_upper, IsAscii, to_lower,
  to_upper, to_lower_ascii, to_upper_ascii, to_lower_idem, to_upper_idem, ascii, Dict, lookup,
  insert, without, lookup-insert, lookup-without, lookup-insert_self, lookup-append, ℤ, pos, negsuc,
  positive_part, cut_at, trim, trim_prefix, insert-All, lookup-All,
}
use opslog.Cfg.{Config}

-- A factory of components: from a name and a configuration.
abbrev pub Factory : Type 0 → Type 0
Factory B = Text → Config → Error ⊎ B

-- `Mem`, by the types of what it builds
pub record Mem (I D P O T : Type 0) : Type 0 where
  pub inputs : Dict (Factory I)
  pub decoders : Dict (Factory D)
  pub processors : Dict (Factory P)
  pub outputs : Dict (Factory O)
  pub transports : Dict (Factory T)

-- Calls a factory, or fails for its type; the text of the failure is given.
unfoldable pub call_factory : {B : Type 0} → Error → Option (Factory B) → Text → Config → Error ⊎ B
call_factory err none name cfg = inl err
call_factory err (some f) name cfg = f name cfg

-- `reservedOutput`; the parameter prints a text as `%q` does.
unfoldable pub reserved_output : {O : Type 0} → (Text → Text) → Text → Factory O
reserved_output quote typ name cfg =
    inl (text "output type " ++ (quote typ ++ text " is reserved and not implemented yet"))

-- The factories of the packages that `NewRegistry` names.
pub record Packages (D P O T : Type 0) : Type 0 where
  pub new_json : Factory D
  pub new_plain : Factory D
  pub new_normalize : Factory P
  pub new_filesystem : Factory O
  pub new_mysql : Factory O
  pub new_clickhouse : Factory O
  pub new_udp : Factory T
  pub new_tcp : Factory T
  pub new_http : Factory T
  pub new_ws : Factory T
  pub new_grpc : Factory T

module _ {I D P O T : Type 0} (quote : Text → Text) where
  -- `New`
  abbrev pub new : Mem I D P O T
  new = record { inputs = []; decoders = []; processors = []; outputs = []; transports = [] }

  unfoldable pub register_input : Text → Factory I → Mem I D P O T → Mem I D P O T
  register_input typ factory r = record r { inputs = insert typ factory r.inputs }

  unfoldable pub register_decoder : Text → Factory D → Mem I D P O T → Mem I D P O T
  register_decoder typ factory r = record r { decoders = insert typ factory r.decoders }

  unfoldable pub register_processor : Text → Factory P → Mem I D P O T → Mem I D P O T
  register_processor typ factory r = record r { processors = insert typ factory r.processors }

  unfoldable pub register_output : Text → Factory O → Mem I D P O T → Mem I D P O T
  register_output typ factory r = record r { outputs = insert typ factory r.outputs }

  unfoldable pub register_transport : Text → Factory T → Mem I D P O T → Mem I D P O T
  register_transport typ factory r = record r { transports = insert typ factory r.transports }

  -- `InputFactory` and `BuildInput`
  unfoldable pub build_input : Mem I D P O T → Text → Text → Config → Error ⊎ I
  build_input r typ =
      call_factory (text "registry: input type " ++ (quote typ ++ text " not registered"))
        (lookup typ r.inputs)

  -- `DecoderFactory` and `BuildDecoder`
  unfoldable pub build_decoder : Mem I D P O T → Text → Text → Config → Error ⊎ D
  build_decoder r typ =
      call_factory (text "registry: decoder type " ++ (quote typ ++ text " not registered"))
        (lookup typ r.decoders)

  -- `ProcessorFactory` and `BuildProcessor`
  unfoldable pub build_processor : Mem I D P O T → Text → Text → Config → Error ⊎ P
  build_processor r typ =
      call_factory (text "registry: processor type " ++ (quote typ ++ text " not registered"))
        (lookup typ r.processors)

  -- `OutputFactory` and `BuildOutput`
  unfoldable pub build_output : Mem I D P O T → Text → Text → Config → Error ⊎ O
  build_output r typ =
      call_factory
        (text "registry: output type "
          ++ (quote typ ++ text " is not registered (reserved or unimplemented)"))
        (lookup typ r.outputs)

  -- `TransportFactory` and `BuildTransport`
  unfoldable pub build_transport : Mem I D P O T → Text → Text → Config → Error ⊎ T
  build_transport r typ =
      call_factory (text "registry: transport type " ++ (quote typ ++ text " not registered"))
        (lookup typ r.transports)

  unfoldable pub register_outputs : Packages D P O T → Mem I D P O T → Mem I D P O T
  register_outputs k r =
      register_output (text "elasticsearch") (reserved_output quote (text "elasticsearch")) (
        register_output (text "kafka") (reserved_output quote (text "kafka")) (
          register_output (text "clickhouse") k.new_clickhouse (
            register_output (text "mysql") k.new_mysql
              (register_output (text "filesystem") k.new_filesystem r))))

  unfoldable pub register_transports : Packages D P O T → Mem I D P O T → Mem I D P O T
  register_transports k r = register_transport (text "grpc") k.new_grpc (
      register_transport (text "websocket") k.new_ws (
        register_transport (text "http") k.new_http (
          register_transport (text "tcp") k.new_tcp (register_transport (text "udp") k.new_udp r))))

  -- `NewRegistry`
  unfoldable pub new_registry : Packages D P O T → Mem I D P O T
  new_registry k = register_transports k (
      register_outputs k (
        register_processor (text "normalize") k.new_normalize (
          register_decoder (text "plain") k.new_plain
            (register_decoder (text "json") k.new_json new))))
