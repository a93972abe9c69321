-- ===== src/Cfg.antt =====
-- pkg/cfgutil/cfgutil.go: typed reads of an untyped configuration.
pub mod Laws
use opslog.Prelude.{
  ℕ, zero, suc, ◌+◌, ◌-◌, ◌*◌, ◌/◌, ◌%◌, ◌^◌, ◌≤◌, ◌<◌, ◌≡◌, refl, sym, ap, ◌∙◌, ◌≢◌, ◌↔◌, ◌⊎◌, inl,
  inr, Bool, true, false, not, ◌&&◌, ◌||◌, Option, none, some, List, [], ◌∷◌, ◌++◌, map,
  append_assoc, append-nil, arith, ltb, leb, ◌==◌, if◌then◌else◌, ltb→lt, leb→le, ==_iff,
  Bool-cases, Option-cases, length, take, drop, is_nil, select, replicate, any, flatten,
  flatten_snoc, length-replicate, length-append, take-append-drop, length-take, length-drop,
  take-append, drop-append, select-append, append_snoc, All, All-append, All-drop, All-take, Text,
  Error, text, text_eq, text_eq_refl, text_eq_sound, text_eq_iff, has_prefix, contains, has_suffix,
  is_space, trim_left, trim_right, trim_space, utf8_len, has_prefix_sound, has_prefix-append,
  HasPart, contains_sound, contains_complete, CaseMap, ascii_lower, ascii_upper, IsAscii, to_lower,
  to_upper, to_lower_ascii, to_upper_ascii, to_lower_idem, to_upper_idem, ascii, Dict, lookup,
  insert, without, lookup-insert, lookup-without, lookup-insert_self, lookup-append, ℤ, pos, negsuc,
  positive_part, cut_at, trim, trim_prefix, insert-All, lookup-All,
}

-- What an `any` of a configuration holds; integers and durations are int64. A float64 is given by
-- its bits, the members of a `[]any` by what fmt.Sprint prints of them, and any other value by a
-- number.
pub data Any : Type 0 where
  nil : Any
  string : Text → Any
  int : ℤ → Any
  int64 : ℤ → Any
  float64 : ℕ → Any
  bool : Bool → Any
  duration : ℤ → Any
  strings : List Text → Any
  anys : List Text → Any
  other : ℕ → Any

-- `map[string]any`; a nil map reads as an empty one
abbrev pub Config : Type 0
Config = Dict Any

-- What the readers use of packages fmt and time and of the conversion of a float64 to int64.
pub record Std : Type 0 where
  pub sprint : Any → Text
  pub parse_duration : Text → Option ℤ
  pub truncate : ℕ → ℤ

-- The int64 that a natural number is congruent to.
unfoldable pub wrap : ℕ → ℤ
wrap m = let r = m % 2 ^ 64 in if ltb r (2 ^ 63) then pos r else negsuc (2 ^ 64 - 1 - r)

-- `time.Duration(t) * time.Second`, in int64
unfoldable pub seconds : ℤ → ℤ
unfolding wrap
seconds (pos n) = wrap (n * 1000000000)
seconds (negsuc n) = wrap (2 ^ 64 - ((n + 1) * 1000000000) % 2 ^ 64)

-- strconv.ParseBool
unfoldable pub parse_bool : Text → Option Bool
parse_bool s =
    if any (text_eq s)
      (text "1" ∷ text "t" ∷ text "T" ∷ text "TRUE" ∷ text "true" ∷ text "True" ∷ [])
    then some true
    else if any (text_eq s)
        (text "0" ∷ text "f" ∷ text "F" ∷ text "FALSE" ∷ text "false" ∷ text "False" ∷ [])
    then some false
    else none

digits : ℕ → Text → Option ℕ
digits acc [] = some acc
digits acc (c ∷ s) = if leb b'0' c && leb c b'9' then digits (acc * 10 + (c - b'0')) s else none

-- At least one digit.
unsigned : Text → Option ℕ
unsigned [] = none
unsigned (c ∷ s) = digits 0 (c ∷ s)

-- Values of an int64 only.
in_range : Bool → Option ℕ → Option ℤ
in_range negative none = none
in_range false (some n) = if ltb n (2 ^ 63) then some (pos n) else none
in_range true (some zero) = some (pos 0)
in_range true (some (suc n)) = if ltb n (2 ^ 63) then some (negsuc n) else none

-- strconv.Atoi
unfoldable pub atoi : Text → Option ℤ
unfolding in_range unsigned digits
atoi [] = none
atoi (c ∷ s) =
    if c == b'-'
    then in_range true (unsigned s)
    else if c == b'+'
    then in_range false (unsigned s)
    else in_range false (unsigned (c ∷ s))

abbrev pub or_default {ℓ} : {A : Type ℓ} → A → Option A → A
or_default def none = def
or_default def (some a) = a

-- `cfg[key]`; a missing key and a nil value are the same to every reader.
unfoldable pub value_at : Config → Text → Any
value_at cfg key = or_default nil (lookup key cfg)

module _ (std : Std) where
  read_string : Any → Text → Text
  read_string nil def = def
  read_string (string t) def = if is_nil t then def else t
  read_string v def = std.sprint v

  -- `String`
  unfoldable pub get_string : Config → Text → Text → Text
  unfolding read_string value_at
  get_string cfg key def = read_string (value_at cfg key) def

  read_int : Any → ℤ → ℤ
  read_int (int t) def = t
  read_int (int64 t) def = t
  read_int (float64 t) def = std.truncate t
  read_int (string t) def = or_default def (atoi t)
  read_int _ def = def

  -- `Int`, where an int has 64 bits
  unfoldable pub get_int : Config → Text → ℤ → ℤ
  unfolding read_int value_at
  get_int cfg key def = read_int (value_at cfg key) def

  read_bool : Any → Bool → Bool
  read_bool (bool t) def = t
  read_bool (string t) def = or_default def (parse_bool t)
  read_bool _ def = def

  -- `Bool`
  unfoldable pub get_bool : Config → Text → Bool → Bool
  unfolding read_bool value_at
  get_bool cfg key def = read_bool (value_at cfg key) def

  read_duration : Any → ℤ → ℤ
  read_duration (duration t) def = t
  read_duration (string t) def = or_default def (std.parse_duration t)
  read_duration (int t) def = seconds t
  read_duration (int64 t) def = seconds t
  read_duration (float64 t) def = seconds (std.truncate t)
  read_duration _ def = def

  -- `Duration`
  unfoldable pub get_duration : Config → Text → ℤ → ℤ
  unfolding read_duration value_at
  get_duration cfg key def = read_duration (value_at cfg key) def

  read_string_slice : Any → Option (List Text)
  read_string_slice (strings t) = some t
  read_string_slice (anys t) = some t
  read_string_slice _ = none

  -- `StringSlice`; `none` is nil
  unfoldable pub get_string_slice : Config → Text → Option (List Text)
  unfolding read_string_slice value_at
  get_string_slice cfg key = read_string_slice (value_at cfg key)
