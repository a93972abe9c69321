-- ===== src/Signal.antt =====
-- pkg/signal: the event model that the SDK and the server share.
pub mod Laws
use opslog.Prelude.{
  ℕ, zero, suc, ◌+◌, ◌-◌, ◌*◌, ◌/◌, ◌%◌, ◌^◌, ◌≤◌, ◌<◌, ◌≡◌, refl, sym, ap, ◌∙◌, ◌≢◌, ◌↔◌, ◌⊎◌, inl,
  inr, Bool, true, false, not, ◌&&◌, ◌||◌, Option, none, some, List, [], ◌∷◌, ◌++◌, map,
  append_assoc, append-nil, arith, ltb, leb, ◌==◌, if◌then◌else◌, ltb→lt, leb→le, ==_iff,
  Bool-cases, Option-cases, length, take, drop, is_nil, select, replicate, any, flatten,
  flatten_snoc, length-replicate, length-append, take-append-drop, length-take, length-drop,
  take-append, drop-append, select-append, append_snoc, All, All-append, All-drop, All-take, Text,
  Error, text, text_eq, text_eq_refl, text_eq_sound, text_eq_iff, has_prefix, contains, has_suffix,
  is_space, trim_left, trim_right, trim_space, utf8_len, has_prefix_sound, has_prefix-append,
  HasPart, contains_sound, contains_complete, CaseMap, ascii_lower, ascii_upper, IsAscii, to_lower,
  to_upper, to_lower_ascii, to_upper_ascii, to_lower_idem, ascii, Dict, lookup, insert, without,
  lookup-insert, lookup-without, lookup-insert_self, lookup-append,
}
use opslog.Framer.{Bytes}

-- An instant, in nanoseconds from year 1. 0 is the zero time, which `IsZero` recognises.
abbrev pub Time : Type 0
Time = ℕ

abbrev pub is_zero_time : Time → Bool
is_zero_time t = t == 0

-- What an `any` of an attribute holds. The program computes with texts only; a number stands for
-- any numeric value, and `other` for a value of another type by its identity.
pub data Value : Type 0 where
  null : Value
  str : Text → Value
  num : ℕ → Value
  flag : Bool → Value
  environ : List (Text × Text) → Value
  other : ℕ → Value

pub record Attr : Type 0 where
  pub key : Text
  pub value : Value

-- `type Kind string`, and its four known values
abbrev pub kind_log : Text
kind_log = text "log"

abbrev pub kind_metric : Text
kind_metric = text "metric"

abbrev pub kind_config : Text
kind_config = text "config"

abbrev pub kind_probe : Text
kind_probe = text "probe"

-- `Kind.Valid`
pub valid : Text → Bool
valid k =
    text_eq k kind_log || text_eq k kind_metric || text_eq k kind_config || text_eq k kind_probe

-- `Event`; `none` is a nil map or a nil slice
pub record Event : Type 0 where
  pub kind : Text
  pub time : Time
  pub level : Text
  pub service : Text
  pub host : Text
  pub message : Text
  pub trace_id : Text
  pub attrs : Option (Dict Value)
  pub raw : Option Bytes

-- `&Event{}`
abbrev pub empty_event : Event
empty_event = record {
  kind = [];
  time = 0;
  level = [];
  service = [];
  host = [];
  message = [];
  trace_id = [];
  attrs = none;
  raw = none;
}

-- A value of the interface `Signal`: a pointer to an `Event`, or another implementation, shown by
-- what its methods return.
pub data Signal : Type 0 where
  event : Event → Signal
  foreign : Event → Signal

abbrev pub view : Signal → Event
view (event e) = e
view (foreign e) = e

-- The copy loop of `Clone`: `for k, v := range m { out[k] = v }` into a new map.
unfoldable pub copy_into {ℓ} : {V : Type ℓ} → Dict V → Dict V → Dict V
copy_into out [] = out
copy_into out ((k, v) ∷ m) = copy_into (insert k v out) m

clone_attrs : Option (Dict Value) → Option (Dict Value)
clone_attrs none = none
clone_attrs (some m) = some (copy_into [] m)

-- `Event.Clone` on a pointer that is not nil; a copied slice has the same bytes
unfoldable pub clone : Event → Event
unfolding clone_attrs copy_into
clone e = record e { attrs = clone_attrs e.attrs }

add_attrs : Dict Value → List Attr → Dict Value
add_attrs m [] = m
add_attrs m (a ∷ rest) = add_attrs (if is_nil a.key then m else insert a.key a.value m) rest

-- `AttrsToMap`
unfoldable pub attrs_to_map : List Attr → Option (Dict Value)
unfolding add_attrs
attrs_to_map [] = none
attrs_to_map (a ∷ rest) = some (add_attrs [] (a ∷ rest))

-- Indexing a map that may be nil.
abbrev pub get_attr : Option (Dict Value) → Text → Option Value
get_attr none k = none
get_attr (some m) k = lookup k m
