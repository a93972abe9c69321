-- ===== src/Config.antt =====
-- server/internal/config/config.go and server/internal/web/basicauth.go: who may see the console.
pub mod Laws
pub mod Load
use opslog.Prelude.{
  ℕ, zero, suc, ◌+◌, ◌-◌, ◌*◌, ◌/◌, ◌%◌, ◌^◌, ◌≤◌, ◌<◌, ◌≡◌, refl, sym, ap, ◌∙◌, ◌≢◌, ◌↔◌, ◌⊎◌, inl,
  inr, Bool, true, false, not, ◌&&◌, ◌||◌, Option, none, some, List, [], ◌∷◌, ◌++◌, map,
  append_assoc, append-nil, arith, ltb, leb, ◌==◌, if◌then◌else◌, ltb→lt, leb→le, ==_iff,
  Bool-cases, Option-cases, length, take, drop, is_nil, select, replicate, any, flatten,
  flatten_snoc, length-replicate, length-append, take-append-drop, length-take, length-drop,
  take-append, drop-append, select-append, append_snoc, All, All-append, All-drop, All-take, Text,
  Error, text, text_eq, text_eq_refl, text_eq_sound, text_eq_iff, has_prefix, contains, has_suffix,
  is_space, trim_left, trim_right, trim_space, utf8_len, has_prefix_sound, has_prefix-append,
  HasPart, contains_sound, contains_complete, CaseMap, ascii_lower, ascii_upper, IsAscii, to_lower,
  to_upper, to_lower_ascii, to_upper_ascii, to_lower_idem, ascii, Dict, lookup, insert, without,
  lookup-insert, lookup-without, lookup-insert_self, lookup-append,
}

-- `BasicAuthConfig`; `none` is a nil pointer
pub record BasicAuthConfig : Type 0 where
  pub enabled : Option Bool
  pub username : Text
  pub password : Text

abbrev is_off : Option Bool → Bool
is_off none = false
is_off (some on) = not on

-- `Active`
unfoldable pub active : BasicAuthConfig → Bool
active b = if is_off b.enabled then false else not (is_nil b.password)

abbrev is_unset : Option Bool → Bool
is_unset none = true
is_unset (some on) = false

-- `applyWebBasicAuthDefaults`
unfoldable pub apply_web_basic_auth_defaults : BasicAuthConfig → BasicAuthConfig
apply_web_basic_auth_defaults ba =
    if is_unset ba.enabled && (is_nil ba.username && is_nil ba.password)
    then record { enabled = some true; username = text "opslog"; password = text "opslog" }
    else record ba {
      enabled = if is_unset ba.enabled then some true else ba.enabled;
      username = if is_nil ba.username then text "opslog" else ba.username;
    }

-- What a request comes to: the console, or 401.
pub data Access : Type 0 where
  served unauthorized : Access

-- `BasicAuth` on the credentials that the request carries, if any.
unfoldable pub basic_auth : Text → Text → Option (Text × Text) → Access
basic_auth username password credentials = if is_nil password then served else elim credentials [
  | none ↦ unauthorized
  | some c ↦
      if not (text_eq c.0 username) || not (text_eq c.1 password) then unauthorized else served
]

-- The console of the server that `New` builds: the wrapper stands only if it is active.
unfoldable pub console : BasicAuthConfig → Option (Text × Text) → Access
unfolding basic_auth
console b credentials = if active b then basic_auth b.username b.password credentials else served
