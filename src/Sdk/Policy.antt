-- ===== src/Sdk/Policy.antt =====
-- sdk/policy/level.go: which transport a signal goes to, by its kind and level.
pub mod Laws
use opslog.Prelude.{
  ℕ, zero, suc, ◌+◌, ◌-◌, ◌*◌, ◌/◌, ◌%◌, ◌^◌, ◌≤◌, ◌<◌, ◌≡◌, refl, sym, ap, ◌∙◌, ◌≢◌, ◌↔◌, ◌⊎◌, inl,
  inr, Bool, true, false, not, ◌&&◌, ◌||◌, Option, none, some, List, [], ◌∷◌, ◌++◌, map,
  append_assoc, append-nil, arith, ltb, leb, ◌==◌, if◌then◌else◌, ltb→lt, leb→le, ==_iff,
  Bool-cases, Option-cases, length, take, drop, is_nil, select, replicate, any, flatten,
  flatten_snoc, length-replicate, length-append, take-append-drop, length-take, length-drop,
  take-append, drop-append, select-append, append_snoc, All, All-append, All-drop, All-take, Text,
  Error, text, text_eq, text_eq_refl, text_eq_sound, text_eq_iff, has_prefix, contains, has_suffix,
  is_space, trim_left, trim_right, trim_space, utf8_len, has_prefix_sound, has_prefix-append,
  HasPart, contains_sound, contains_complete, CaseMap, ascii_lower, ascii_upper, IsAscii, to_lower,
  to_upper, to_lower_ascii, to_upper_ascii, to_lower_idem, ascii, Dict, lookup, insert, without,
  lookup-insert, lookup-without, lookup-insert_self, lookup-append,
}
use opslog.Signal.{Event, kind_config}

-- A `transport.Transport` by its identity, with what `Name` and `Type` return.
pub record Transport : Type 0 where
  pub id : ℕ
  pub name : Text
  pub typ : Text

-- `LevelPolicy`
pub record LevelPolicy : Type 0 where
  pub default_name : Text
  pub error_name : Text
  pub config_name : Text

abbrev pub new_level_policy : Text → Text → LevelPolicy
new_level_policy default_name error_name = record {
  default_name = default_name;
  error_name = error_name;
  config_name = error_name;
}

-- `byName`: each transport under its name, then under its type; a later entry replaces an earlier.
unfoldable pub by_name : Dict Transport → List Transport → Dict Transport
by_name m [] = m
by_name m (t ∷ ts) = by_name (insert t.typ t (insert t.name t m)) ts

-- The three levels of `error`, `fatal` and `panic`, after lowering.
unfoldable pub is_error_level : Text → Bool
is_error_level level =
    text_eq level (text "error") || text_eq level (text "fatal") || text_eq level (text "panic")

-- `want`
unfoldable pub wanted : CaseMap → LevelPolicy → Event → Text
wanted u p sig =
    if text_eq sig.kind kind_config && not (is_nil p.config_name)
    then p.config_name
    else if is_error_level (to_lower u sig.level)
    then (if not (is_nil p.error_name) then p.error_name else p.default_name)
    else p.default_name

pick : Text → Dict Transport → Transport → List Transport
pick want m first =
    if not (is_nil want)
    then elim (lookup want m) [ none ↦ first ∷ [] | some t ↦ t ∷ [] ]
    else first ∷ []

-- `Select`
unfoldable pub select_transports : CaseMap → LevelPolicy → Event → List Transport → List Transport
unfolding pick
select_transports u p sig [] = []
select_transports u p sig (t ∷ ts) = pick (wanted u p sig) (by_name [] (t ∷ ts)) t
