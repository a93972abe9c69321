-- ===== src/Config/Load/Laws.antt =====
-- server/internal/config/config.go: what a component of the configuration is made of.
use opslog.Prelude.{
  ◌≡◌, refl, ◌∙◌, ◌⊎◌, inl, inr, true, false, none, some, [], ◌∷◌, arith, if◌then◌else◌, Bool-cases,
  is_nil, Text, text, text_eq_iff, lookup, insert, lookup-insert,
}
use opslog.Cfg.{Std, Config, get_string}
use opslog.Signal.Laws.{HasDistinctKeys}
use opslog.Config.Load.{Component, is_reserved, copy_settings, parse_component}

lookup-copy_settings :
    (k : Text) (out m : Config)
    → HasDistinctKeys m
    → lookup k (copy_settings out m) ≡ (
        if is_reserved k
        then lookup k out
        else elim (lookup k m) [ some v ↦ some v | none ↦ lookup k out ])
unfolding copy_settings lookup
lookup-copy_settings k out [] d = ground arith
lookup-copy_settings k out ((j, v) ∷ m) (fresh, d) = ground (
  arith,
  lookup-copy_settings k out m d,
  lookup-copy_settings k (insert j v out) m d,
  lookup-insert j k v out,
  text_eq_iff j k,
)

-- A component has a type, which is not empty, a name, the type if none is given, and the settings of
-- its map at every key but those of the two; a map without a type is refused, and no other.
pub parse_component_lem :
    (std : Std) (m : Config) (k : Text)
    → HasDistinctKeys m
    → let typ = get_string std m (text "type") [] in
      let name = get_string std m (text "name") [] in
      ((typ ≡ []) × (parse_component std m ≡ inl (text "component type is required")))
      ⊎ ((c : Component) × (parse_component std m ≡ inr c)
          × (c.typ ≡ typ)
          × (is_nil c.typ ≡ false)
          × (c.name ≡ (if is_nil name then typ else name))
          × (lookup k c.cfg ≡ (if is_reserved k then none else lookup k m)))
unfolding parse_component lookup
parse_component_lem std m k d = elim (Bool-cases (is_nil (get_string std m (text "type") []))) [
  | inl e ↦ inl (nil_of _ e, rw e refl)
  | inr e ↦ inr (_, rw e refl, refl, e, refl, lookup-copy_settings k [] m d ∙ ground arith)
]
  where
    nil_of : (s : Text) → is_nil s ≡ true → s ≡ []
    nil_of [] h = refl
    nil_of (c ∷ s) h = cc
