-- ===== src/Prelude/Strings.antt =====
-- Go strings as lists of code points, with what the program uses of package strings.
use Prim.Native.Nat.{ℕ, ◌+◌, ◌-◌, ◌<◌}
use Prim.Native.Char.{code}
use Prim.Native.String.{String}
use mathlib.Core.Path.{◌≡◌, refl, ap}
use mathlib.Core.Logic.{◌↔◌, inl, inr}
use mathlib.Core.Bool.{Bool, true, false, ◌&&◌, ◌||◌}
use mathlib.Core.List.{List, [], ◌∷◌, ◌++◌, map, reverse}
use mathlib.Core.Option
use mathlib.Core.Option.{Option, none, some}
use native.Mathlib.Omega.{arith}
use opslog.Prelude.Tests.{ltb, leb, ◌==◌, if◌then◌else◌, Bool-cases}
use opslog.Prelude.Lists.{All, is_nil, length, drop}

abbrev pub Text : Type 0
Text = List ℕ

-- An error by its message.
abbrev pub Error : Type 0
Error = Text

-- The code points of a literal.
abbrev pub text : String → Text
text String.[] = []
text (String.◌∷◌ c s) = code c ∷ text s

unfoldable pub text_eq : Text → Text → Bool
text_eq [] [] = true
text_eq (c ∷ s) (d ∷ t) = c == d && text_eq s t
text_eq _ _ = false

pub text_eq_refl : (s : Text) → text_eq s s ≡ true
unfolding text_eq
text_eq_refl [] = refl
text_eq_refl (c ∷ s) = ground (arith, text_eq_refl s)

pub text_eq_sound : (s t : Text) → text_eq s t ≡ true → s ≡ t
unfolding text_eq
text_eq_sound [] [] h = refl
text_eq_sound [] (d ∷ t) h = cc
text_eq_sound (c ∷ s) [] h = cc
text_eq_sound (c ∷ s) (d ∷ t) h = ground (arith, text_eq_sound s t)

pub text_eq_iff : (s t : Text) → (text_eq s t ≡ true) ↔ (s ≡ t)
text_eq_iff s t = (text_eq_sound s t, λ e. rw e (text_eq_refl t))

unfoldable pub has_prefix : Text → Text → Bool
has_prefix s [] = true
has_prefix [] (d ∷ t) = false
has_prefix (c ∷ s) (d ∷ t) = c == d && has_prefix s t

-- strings.Contains
unfoldable pub contains : Text → Text → Bool
unfolding has_prefix
contains [] t = is_nil t
contains (c ∷ s) t = has_prefix (c ∷ s) t || contains s t

unfoldable pub has_suffix : Text → Text → Bool
unfolding has_prefix
has_suffix s t = has_prefix (reverse s) (reverse t)

-- unicode.IsSpace
unfoldable pub is_space : ℕ → Bool
is_space c =
    (leb 9 c && leb c 13)
    || c == 32
    || c == 0x85
    || c == 0xA0
    || c == 0x1680
    || (leb 0x2000 c && leb c 0x200a)
    || c == 0x2028
    || c == 0x2029
    || c == 0x202f
    || c == 0x205f
    || c == 0x3000

unfoldable pub trim_left : (ℕ → Bool) → Text → Text
trim_left p [] = []
trim_left p (c ∷ s) = if p c then trim_left p s else c ∷ s

unfoldable pub trim_right : (ℕ → Bool) → Text → Text
unfolding trim_left
trim_right p s = reverse (trim_left p (reverse s))

unfoldable pub trim_space : Text → Text
unfolding trim_right is_space
trim_space s = trim_right is_space (trim_left is_space s)

-- strings.Trim, by the test for its cutset
unfoldable pub trim : (ℕ → Bool) → Text → Text
unfolding trim_left trim_right
trim p s = trim_right p (trim_left p s)

-- strings.TrimPrefix
unfoldable pub trim_prefix : Text → Text → Text
unfolding has_prefix
trim_prefix s t = if has_prefix s t then drop (length t) s else s

-- strings.Cut at a separator of one character: `none` where it is not found.
unfoldable pub cut_at : ℕ → Text → Option (Text × Text)
cut_at sep [] = none
cut_at sep (c ∷ s) =
    let rest = cut_at sep s in
    if c == sep then some ([], s) else Option.map (λ r. (c ∷ r.0, r.1)) rest

-- The length in bytes of the UTF-8 form, which is what `len` counts.
unfoldable pub utf8_len : Text → ℕ
utf8_len [] = 0
utf8_len (c ∷ s) =
    (if ltb c 0x80 then 1 else if ltb c 0x800 then 2 else if ltb c 0x10000 then 3 else 4)
    + utf8_len s

abbrev pub ascii_lower : ℕ → ℕ
ascii_lower c = if leb b'A' c && leb c b'Z' then c + 32 else c

abbrev pub ascii_upper : ℕ → ℕ
ascii_upper c = if leb b'a' c && leb c b'z' then c - 32 else c

-- Go's unicode tables, which strings.ToLower and strings.ToUpper apply to each code point. What is
-- used of them: within ASCII they move the letters, and a second lowering changes nothing.
pub record CaseMap : Type 0 where
  pub lower : ℕ → ℕ
  pub upper : ℕ → ℕ
  pub lower_ascii : (c : ℕ) → c < 128 → lower c ≡ ascii_lower c
  pub upper_ascii : (c : ℕ) → c < 128 → upper c ≡ ascii_upper c
  pub lower_idem : (c : ℕ) → lower (lower c) ≡ lower c
  pub upper_idem : (c : ℕ) → upper (upper c) ≡ upper c

abbrev pub IsAscii : Text → Type 0
IsAscii = All (λ c. c < 128)

module _ (u : CaseMap) where
  unfoldable pub to_lower : Text → Text
  to_lower s = map u.lower s

  unfoldable pub to_upper : Text → Text
  to_upper s = map u.upper s

  pub to_lower_ascii : (s : Text) → IsAscii s → to_lower s ≡ map ascii_lower s
  unfolding to_lower
  to_lower_ascii [] h = refl
  to_lower_ascii (c ∷ s) (p, h) = cc (u.lower_ascii c p, to_lower_ascii s h)

  pub to_upper_ascii : (s : Text) → IsAscii s → to_upper s ≡ map ascii_upper s
  unfolding to_upper
  to_upper_ascii [] h = refl
  to_upper_ascii (c ∷ s) (p, h) = cc (u.upper_ascii c p, to_upper_ascii s h)

  pub to_lower_idem : (s : Text) → to_lower (to_lower s) ≡ to_lower s
  unfolding to_lower
  to_lower_idem [] = refl
  to_lower_idem (c ∷ s) = cc (u.lower_idem c, to_lower_idem s)

pub to_upper_idem : (u : CaseMap) (s : Text) → to_upper u (to_upper u s) ≡ to_upper u s
unfolding to_upper
to_upper_idem u [] = refl
to_upper_idem u (c ∷ s) = cc (u.upper_idem c, to_upper_idem u s)

pub ascii_lower_idem : (c : ℕ) → ascii_lower (ascii_lower c) ≡ ascii_lower c
ascii_lower_idem c = ground arith

pub ascii_upper_idem : (c : ℕ) → ascii_upper (ascii_upper c) ≡ ascii_upper c
ascii_upper_idem c = ground arith

-- The tables of a program whose texts are ASCII.
abbrev pub ascii : CaseMap
ascii = record {
  lower = ascii_lower;
  upper = ascii_upper;
  lower_ascii = λ c h. refl;
  upper_ascii = λ c h. refl;
  lower_idem = ascii_lower_idem;
  upper_idem = ascii_upper_idem;
}

pub has_prefix_sound : (s t : Text) → has_prefix s t ≡ true → (rest : Text) × (s ≡ t ++ rest)
unfolding has_prefix
has_prefix_sound s [] h = (s, refl)
has_prefix_sound [] (d ∷ t) h = cc
has_prefix_sound (c ∷ s) (d ∷ t) h =
    let (rest, e) = has_prefix_sound s t (ground arith) in (rest, ground arith)

pub has_prefix-append : (t rest : Text) → has_prefix (t ++ rest) t ≡ true
unfolding has_prefix
has_prefix-append [] [] = refl
has_prefix-append [] (c ∷ rest) = refl
has_prefix-append (d ∷ t) rest = ground (arith, has_prefix-append t rest)

-- A part of a text, and where it stands.
abbrev pub HasPart : Text → Text → Type 0
HasPart s t = (before : Text) × (after : Text) × (s ≡ before ++ (t ++ after))

pub contains_sound : (s t : Text) → contains s t ≡ true → HasPart s t
unfolding contains
contains_sound [] [] h = ([], [], refl)
contains_sound [] (d ∷ t) h = cc
contains_sound (c ∷ s) t h = elim (Bool-cases (has_prefix (c ∷ s) t)) [
  | inl here ↦ let (rest, e) = has_prefix_sound (c ∷ s) t here in ([], rest, e)
  | inr later ↦
      let (before, after, e) = contains_sound s t (ground arith) in
      (c ∷ before, after, ap (λ (r : Text). c ∷ r) e)
]

pub contains_complete : (before t after : Text) → contains (before ++ (t ++ after)) t ≡ true
unfolding contains
contains_complete [] [] [] = refl
contains_complete [] [] (c ∷ after) = refl
contains_complete [] (d ∷ t) after = rw (has_prefix-append (d ∷ t) after)
contains_complete (c ∷ before) t after = rw (contains_complete before t after) (ground arith)
