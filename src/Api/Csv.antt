-- ===== src/Api/Csv.antt =====
-- `splitCSV` of server/internal/api/api.go.
use opslog.Prelude.{
  ℕ, ◌≡◌, refl, ◌∙◌, ◌≢◌, true, false, not, List, [], ◌∷◌, ◌++◌, arith, ◌==◌, if◌then◌else◌, is_nil,
  All, Text, trim_space,
}

abbrev pub cons_char : ℕ → List Text → List Text
cons_char c [] = (c ∷ []) ∷ []
cons_char c (p ∷ ps) = (c ∷ p) ∷ ps

-- strings.Split(s, ","); 44 is the comma
unfoldable pub split_commas : Text → List Text
split_commas [] = [] ∷ []
split_commas (c ∷ s) = let rest = split_commas s in if c == 44 then [] ∷ rest else cons_char c rest

-- The loop over the parts.
pub keep_parts : List Text → List Text
keep_parts [] = []
keep_parts (p ∷ ps) =
    let rest = keep_parts ps in if not (is_nil (trim_space p)) then trim_space p ∷ rest else rest

unfoldable pub split_csv : Text → List Text
unfolding keep_parts split_commas
split_csv [] = []
split_csv (c ∷ s) = keep_parts (split_commas (c ∷ s))

-- strings.Join(parts, ",")
abbrev pub join_commas : List Text → Text
join_commas [] = []
join_commas (p ∷ []) = p
join_commas (p ∷ q ∷ ps) = p ++ 44 ∷ join_commas (q ∷ ps)

-- A part that stands as it is in a list: not empty, no space around it, no comma in it.
pub record IsPart (p : Text) : Type 0 where
  pub not_empty : is_nil p ≡ false
  pub is_trimmed : trim_space p ≡ p
  pub no_comma : All (λ c. c ≢ 44) p

split_commas-cons :
    (p s : Text) → All (λ c. c ≢ 44) p → split_commas (p ++ 44 ∷ s) ≡ p ∷ split_commas s
unfolding split_commas
split_commas-cons [] s h = refl
split_commas-cons (c ∷ p) s (ne, h) = ground (arith, split_commas-cons p s h)

split_commas-one : (p : Text) → All (λ c. c ≢ 44) p → split_commas p ≡ p ∷ []
unfolding split_commas
split_commas-one [] h = refl
split_commas-one (c ∷ p) (ne, h) = ground (arith, split_commas-one p h)

keep_split-join :
    (p : Text) (ps : List Text)
    → All IsPart (p ∷ ps)
    → keep_parts (split_commas (join_commas (p ∷ ps))) ≡ p ∷ ps
unfolding keep_parts
keep_split-join p [] (one, h) =
    rw (split_commas-one p one.no_comma) (rw (one.is_trimmed, one.not_empty) refl)
keep_split-join p (q ∷ ps) (one, h) =
    rw (split_commas-cons p (join_commas (q ∷ ps)) one.no_comma)
      (rw (one.is_trimmed, one.not_empty, keep_split-join q ps h) refl)

split_csv_lem : (s : Text) → is_nil s ≡ false → split_csv s ≡ keep_parts (split_commas s)
unfolding split_csv
split_csv_lem [] h = cc
split_csv_lem (c ∷ s) h = refl

is_nil-join : (p : Text) (ps : List Text) → IsPart p → is_nil (join_commas (p ∷ ps)) ≡ false
is_nil-join [] ps h = absurd (absurd_nil h.not_empty)
  where
    absurd_nil : (true ≡ false) → ⊥
    absurd_nil e = cc
is_nil-join (c ∷ p) [] h = refl
is_nil-join (c ∷ p) (q ∷ ps) h = refl

-- A list of parts that is joined by commas, as the console sends it, is split into the same list.
pub split_csv-join_commas : (ps : List Text) → All IsPart ps → split_csv (join_commas ps) ≡ ps
unfolding split_csv
split_csv-join_commas [] h = refl
split_csv-join_commas (p ∷ ps) (one, h) =
    split_csv_lem (join_commas (p ∷ ps)) (is_nil-join p ps one) ∙ keep_split-join p ps (one, h)
