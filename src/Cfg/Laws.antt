-- ===== src/Cfg/Laws.antt =====
-- pkg/cfgutil/cfgutil.go: defaults, the range of what is read, and durations in seconds.
use opslog.Prelude.{
  ℕ, zero, suc, ◌+◌, ◌-◌, ◌*◌, ◌%◌, ◌^◌, ◌<◌, ◌≡◌, refl, ap, ◌∙◌, inl, inr, Bool, true, false,
  Option, none, some, [], ◌∷◌, arith, ltb, ◌==◌, ltb→lt, Bool-cases, All, Text, lookup, ℤ, pos,
  negsuc, lookup-All,
}
use opslog.Cfg.{
  Any, nil, string, int, int64, float64, bool, duration, strings, anys, other, Config, Std, wrap,
  seconds, unsigned, in_range, atoi, value_at, or_default, read_int, get_int, read_duration,
  get_duration,
}

-- The values of an int64.
abbrev pub IsInt64 : ℤ → Type 0
IsInt64 (pos n) = n < 2 ^ 63
IsInt64 (negsuc n) = n < 2 ^ 63

abbrev pub IsInt64Option : Option ℤ → Type 0
IsInt64Option none = Unit
IsInt64Option (some z) = IsInt64 z

-- The integers of a configuration are int64.
abbrev pub IsInt64Any : Any → Type 0
IsInt64Any (int t) = IsInt64 t
IsInt64Any (int64 t) = IsInt64 t
IsInt64Any (duration t) = IsInt64 t
IsInt64Any _ = Unit

wrap-IsInt64 : (m : ℕ) → IsInt64 (wrap m)
unfolding wrap
wrap-IsInt64 m = elim (Bool-cases (ltb (m % 2 ^ 64) (2 ^ 63))) [
  | inl e ↦ simp e (ltb→lt _ _ e)
  | inr e ↦ simp e (ground arith)
]

seconds-IsInt64 : (z : ℤ) → IsInt64 (seconds z)
unfolding seconds
seconds-IsInt64 (pos n) = wrap-IsInt64 (n * 1000000000)
seconds-IsInt64 (negsuc n) = wrap-IsInt64 (2 ^ 64 - ((n + 1) * 1000000000) % 2 ^ 64)

in_range-IsInt64 : (neg : Bool) (o : Option ℕ) → IsInt64Option (in_range neg o)
unfolding in_range
in_range-IsInt64 neg none = tt
in_range-IsInt64 false (some n) = elim (Bool-cases (ltb n (2 ^ 63))) [
  | inl e ↦ simp e (ltb→lt _ _ e)
  | inr e ↦ simp e tt
]
in_range-IsInt64 true (some zero) = omega arith
in_range-IsInt64 true (some (suc n)) = elim (Bool-cases (ltb n (2 ^ 63))) [
  | inl e ↦ simp e (ltb→lt _ _ e)
  | inr e ↦ simp e tt
]

atoi-IsInt64 : (s : Text) → IsInt64Option (atoi s)
unfolding atoi
atoi-IsInt64 [] = tt
atoi-IsInt64 (c ∷ s) = elim (Bool-cases (c == b'-')) [
  | inl e ↦ simp e (in_range-IsInt64 true (unsigned s))
  | inr e ↦ elim (Bool-cases (c == b'+')) [
    | inl p ↦ simp (e, p) (in_range-IsInt64 false (unsigned s))
    | inr p ↦ simp (e, p) (in_range-IsInt64 false (unsigned (c ∷ s)))
  ]
]

or_default-IsInt64 :
    (def : ℤ) (o : Option ℤ) → IsInt64 def → IsInt64Option o → IsInt64 (or_default def o)
or_default-IsInt64 def none d h = d
or_default-IsInt64 def (some z) d h = h

value_of-IsInt64 :
    (cfg : Config) (key : Text) (o : Option Any)
    → lookup key cfg ≡ o
    → All (λ e. IsInt64Any e.1) cfg
    → IsInt64Any (or_default nil o)
value_of-IsInt64 cfg key none e h = tt
value_of-IsInt64 cfg key (some v) e h = lookup-All IsInt64Any key v cfg h e

value_at-IsInt64 :
    (cfg : Config) (key : Text) → All (λ e. IsInt64Any e.1) cfg → IsInt64Any (value_at cfg key)
unfolding value_at
value_at-IsInt64 cfg key h = value_of-IsInt64 cfg key (lookup key cfg) refl h

value_at-some :
    (cfg : Config) (key : Text) (v : Any) → lookup key cfg ≡ some v → value_at cfg key ≡ v
unfolding value_at
value_at-some cfg key v e = ap (or_default nil) e

seconds_exact :
    (n : ℕ)
    → (n + 1) * 1000000000 < 2 ^ 63
    → (seconds (pos n) ≡ pos (n * 1000000000))
      × (seconds (negsuc n) ≡ negsuc ((n + 1) * 1000000000 - 1))
unfolding seconds wrap
seconds_exact n h = (ground arith, ground arith)

module _ (std : Std) where
  read_int-IsInt64 :
      (v : Any) (def : ℤ)
      → ((bits : ℕ) → IsInt64 (std.truncate bits))
      → IsInt64 def
      → IsInt64Any v
      → IsInt64 (read_int std v def)
  unfolding read_int
  read_int-IsInt64 (int t) def tr d h = h
  read_int-IsInt64 (int64 t) def tr d h = h
  read_int-IsInt64 (float64 t) def tr d h = tr t
  read_int-IsInt64 (string t) def tr d h = or_default-IsInt64 def (atoi t) d (atoi-IsInt64 t)
  read_int-IsInt64 nil def tr d h = d
  read_int-IsInt64 (bool t) def tr d h = d
  read_int-IsInt64 (duration t) def tr d h = d
  read_int-IsInt64 (strings t) def tr d h = d
  read_int-IsInt64 (anys t) def tr d h = d
  read_int-IsInt64 (other t) def tr d h = d

  read_duration-IsInt64 :
      (v : Any) (def : ℤ)
      → ((s : Text) → IsInt64Option (std.parse_duration s))
      → IsInt64 def
      → IsInt64Any v
      → IsInt64 (read_duration std v def)
  unfolding read_duration
  read_duration-IsInt64 (duration t) def p d h = h
  read_duration-IsInt64 (string t) def p d h = or_default-IsInt64 def (std.parse_duration t) d (p t)
  read_duration-IsInt64 (int t) def p d h = seconds-IsInt64 t
  read_duration-IsInt64 (int64 t) def p d h = seconds-IsInt64 t
  read_duration-IsInt64 (float64 t) def p d h = seconds-IsInt64 (std.truncate t)
  read_duration-IsInt64 nil def p d h = d
  read_duration-IsInt64 (bool t) def p d h = d
  read_duration-IsInt64 (strings t) def p d h = d
  read_duration-IsInt64 (anys t) def p d h = d
  read_duration-IsInt64 (other t) def p d h = d

  -- From a configuration whose integers are int64, with a default that is one, both readers of
  -- numbers return an int64, whatever text or number stands at the key; of the library this needs
  -- that ParseDuration and the conversion of a float64 return one.
  pub numbers_in_range :
      (cfg : Config) (key : Text) (def : ℤ)
      → ((bits : ℕ) → IsInt64 (std.truncate bits))
      → ((s : Text) → IsInt64Option (std.parse_duration s))
      → All (λ e. IsInt64Any e.1) cfg
      → IsInt64 def
      → IsInt64 (get_int std cfg key def) × IsInt64 (get_duration std cfg key def)
  unfolding get_int get_duration
  numbers_in_range cfg key def tr p h d =
      let v = value_at-IsInt64 cfg key h in
      (
        read_int-IsInt64 (value_at cfg key) def tr d v,
        read_duration-IsInt64 (value_at cfg key) def p d v,
      )

  -- A number of seconds that int64 can hold in nanoseconds is read exactly, and its negative too.
  pub get_duration_exact :
      (cfg : Config) (key : Text) (def : ℤ) (n : ℕ)
      → (n + 1) * 1000000000 < 2 ^ 63
      → (lookup key cfg ≡ some (int (pos n)) → get_duration std cfg key def ≡ pos (n * 1000000000))
        × (lookup key cfg ≡ some (int (negsuc n))
            → get_duration std cfg key def ≡ negsuc ((n + 1) * 1000000000 - 1))
  unfolding get_duration read_duration
  get_duration_exact cfg key def n h =
      let (up, down) = seconds_exact n h in
      (
        λ e. ap (λ v. read_duration std v def) (value_at-some cfg key (int (pos n)) e) ∙ up,
        λ e. ap (λ v. read_duration std v def) (value_at-some cfg key (int (negsuc n)) e) ∙ down,
      )
