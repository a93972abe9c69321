-- ===== src/Config/Load.antt =====
-- server/internal/config/config.go: loading the file, and one component of its lists.
pub mod Laws
use opslog.Prelude.{
  ℕ, zero, suc, ◌+◌, ◌-◌, ◌*◌, ◌/◌, ◌%◌, ◌^◌, ◌≤◌, ◌<◌, ◌≡◌, refl, sym, ap, ◌∙◌, ◌≢◌, ◌↔◌, ◌⊎◌, inl,
  inr, Bool, true, false, not, ◌&&◌, ◌||◌, Option, none, some, List, [], ◌∷◌, ◌++◌, map,
  append_assoc, append-nil, arith, ltb, leb, ◌==◌, if◌then◌else◌, ltb→lt, leb→le, ==_iff,
  Bool-cases, Option-cases, length, take, drop, is_nil, select, replicate, any, flatten,
  flatten_snoc, length-replicate, length-append, take-append-drop, length-take, length-drop,
  take-append, drop-append, select-append, append_snoc, All, All-append, All-drop, All-take, Text,
  Error, text, text_eq, text_eq_refl, text_eq_sound, text_eq_iff, has_prefix, contains, has_suffix,
  is_space, trim_left, trim_right, trim_space, utf8_len, has_prefix_sound, has_prefix-append,
  HasPart, contains_sound, contains_complete, CaseMap, ascii_lower, ascii_upper, IsAscii, to_lower,
  to_upper, to_lower_ascii, to_upper_ascii, to_lower_idem, to_upper_idem, ascii, Dict, lookup,
  insert, without, lookup-insert, lookup-without, lookup-insert_self, lookup-append, ℤ, pos, negsuc,
  positive_part, cut_at, trim, trim_prefix, insert-All, lookup-All,
}
use opslog.Cfg.{Std, Config, Any, get_string, value_at}
use opslog.Config.{BasicAuthConfig, apply_web_basic_auth_defaults}

-- `File` with `HTTPConfig` and `WebConfig`
pub record File : Type 0 where
  pub listen : Text
  pub token : Text
  pub basic_auth : BasicAuthConfig
  pub inputs : List Config
  pub outputs : List Config
  pub pipeline : List Config

-- `Component`
pub record Component : Type 0 where
  pub name : Text
  pub typ : Text
  pub cfg : Config

abbrev pub no_outputs : Error
no_outputs = text "config: at least one output is required"

unfoldable pub with_defaults : File → File
with_defaults f = record f {
  listen = if is_nil f.listen then text ":8600" else f.listen;
  basic_auth = apply_web_basic_auth_defaults f.basic_auth;
}

unfoldable pub checked : File → Error ⊎ File
checked f = if is_nil f.outputs then inl no_outputs else inr f

-- `Load`, on what reading the file and parsing its YAML come to
unfoldable pub load : Error ⊎ File → Error ⊎ File
load (inl e) = inl e
load (inr f) = checked (with_defaults f)

-- `k == "name" || k == "type"`
unfoldable pub is_reserved : Text → Bool
is_reserved k = text_eq k (text "name") || text_eq k (text "type")

-- The copying loop of `ParseComponent`.
unfoldable pub copy_settings : Config → Config → Config
copy_settings out [] = out
copy_settings out ((k, v) ∷ m) =
    if is_reserved k then copy_settings out m else copy_settings (insert k v out) m

-- `ParseComponent`
unfoldable pub parse_component : Std → Config → Error ⊎ Component
parse_component std m =
    let name = get_string std m (text "name") [] in
    let typ = get_string std m (text "type") [] in
    if is_nil typ
    then inl (text "component type is required")
    else inr
        (record { name = if is_nil name then typ else name; typ = typ; cfg = copy_settings [] m })
