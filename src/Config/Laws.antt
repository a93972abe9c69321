-- ===== src/Config/Laws.antt =====
-- The policy of the console's basic authentication.
use opslog.Prelude.{
  ◌≡◌, refl, ◌≢◌, ◌↔◌, ◌⊎◌, inl, inr, Bool, true, false, Option, none, some, [], ◌∷◌, arith,
  Bool-cases, is_nil, Text, text_eq_iff,
}
use opslog.Config.{
  BasicAuthConfig, active, apply_web_basic_auth_defaults, served, basic_auth, console,
}

abbrev config : Option Bool → Text → Text → BasicAuthConfig
config e u p = record { enabled = e; username = u; password = p }

active_parts :
    (e : Option Bool) (u p : Text)
    → let d = apply_web_basic_auth_defaults (config e u p) in
      ((active d ≡ true) ↔ ((e ≢ some false) × ((is_nil p ≡ false) ⊎ ((e ≡ none) × (u ≡ [])))))
      × (is_nil d.username ≡ false)
unfolding active apply_web_basic_auth_defaults
active_parts none [] [] = ((λ h. ((λ x. cc), inr (refl, refl)), λ h. refl), refl)
active_parts none [] (c ∷ p) = ((λ h. ((λ x. cc), inl refl), λ h. refl), refl)
active_parts none (c ∷ u) [] = ((λ h. cc, λ (a, h). elim h [ inl x ↦ cc | inr (x, y) ↦ cc ]), refl)
active_parts none (c ∷ u) (d ∷ p) = ((λ h. ((λ x. cc), inl refl), λ h. refl), refl)
active_parts (some true) [] [] =
    ((λ h. cc, λ (a, h). elim h [ inl x ↦ cc | inr (x, y) ↦ cc ]), refl)
active_parts (some true) (c ∷ u) [] =
    ((λ h. cc, λ (a, h). elim h [ inl x ↦ cc | inr (x, y) ↦ cc ]), refl)
active_parts (some true) [] (d ∷ p) = ((λ h. ((λ x. cc), inl refl), λ h. refl), refl)
active_parts (some true) (c ∷ u) (d ∷ p) = ((λ h. ((λ x. cc), inl refl), λ h. refl), refl)
active_parts (some false) [] p = ((λ h. cc, λ (a, h). absurd (a refl)), refl)
active_parts (some false) (c ∷ u) p = ((λ h. cc, λ (a, h). absurd (a refl)), refl)

basic_auth_iff :
    (u p : Text) (credentials : Option (Text × Text))
    → is_nil p ≡ false
    → (basic_auth u p credentials ≡ served) ↔ (credentials ≡ some (u, p))
unfolding basic_auth
basic_auth_iff u [] credentials h = (λ x. cc, λ x. cc)
basic_auth_iff u (d ∷ p) none h = (λ x. cc, λ x. cc)
basic_auth_iff u (d ∷ p) (some (a, b)) h = (
  λ x. ground (arith, text_eq_iff a u, text_eq_iff b (d ∷ p)),
  λ x. ground (arith, text_eq_iff a u, text_eq_iff b (d ∷ p)),
)

has_password : (b : BasicAuthConfig) → active b ≡ true → is_nil b.password ≡ false
unfolding active
has_password b h = ground arith

-- After the defaults, authentication is on exactly if it is not switched off and there is a
-- password, or nothing about it is configured at all; and a name is always there to compare with.
pub active_iff :
    (b : BasicAuthConfig)
    → let d = apply_web_basic_auth_defaults b in
      ((active d ≡ true) ↔ (
        (b.enabled ≢ some false)
        × ((is_nil b.password ≡ false) ⊎ ((b.enabled ≡ none) × (b.username ≡ [])))))
      × (is_nil d.username ≡ false)
unfolding active apply_web_basic_auth_defaults
active_iff b = active_parts b.enabled b.username b.password

-- The console is served, with authentication on, to exactly the requests with the configured name
-- and password, and to every request with it off.
pub console_iff :
    (b : BasicAuthConfig) (credentials : Option (Text × Text))
    → (console b credentials ≡ served)
      ↔ ((active b ≡ false) ⊎ (credentials ≡ some (b.username, b.password)))
unfolding console
console_iff b credentials = elim (Bool-cases (active b)) [
  | inr off ↦ rw (off, console) (λ h. inl refl, λ h. refl)
  | inl on ↦
      let iff = basic_auth_iff b.username b.password credentials (has_password b on) in
      rw (on, console) (λ h. inr (iff.0 h), elim [ inl e ↦ cc | inr e ↦ iff.1 e ])
]
