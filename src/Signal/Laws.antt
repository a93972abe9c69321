-- ===== src/Signal/Laws.antt =====
-- A clone reads as the original; attributes become a map in which the last of a key wins.
use opslog.Prelude.{
  ◌≡◌, refl, ◌≢◌, ◌↔◌, ◌⊎◌, true, Option, none, some, List, [], ◌∷◌, arith, if◌then◌else◌, Text,
  text_eq, text_eq_iff, Dict, lookup, insert, lookup-insert,
}
use opslog.Signal.{
  Value, Attr, Event, get_attr, copy_into, clone_attrs, clone, add_attrs, attrs_to_map, valid,
  kind_log, kind_metric, kind_config, kind_probe,
}

-- In a Go map a key stands once.
abbrev pub HasDistinctKeys {ℓ} : {V : Type ℓ} → Dict V → Type ℓ
HasDistinctKeys [] = Unit
HasDistinctKeys ((k, v) ∷ m) = (lookup k m ≡ none) × HasDistinctKeys m

lookup-copy_into {ℓ} :
    {V : Type ℓ} (k : Text) (out m : Dict V)
    → HasDistinctKeys m
    → lookup k (copy_into out m) ≡ elim (lookup k m) [ none ↦ lookup k out | some v ↦ some v ]
unfolding copy_into lookup
lookup-copy_into k out [] h = refl
lookup-copy_into k out ((j, v) ∷ m) (fresh, h) =
    ground
      (arith, lookup-copy_into k (insert j v out) m h, lookup-insert j k v out, text_eq_iff j k)

abbrev pub IsMap : Option (Dict Value) → Type 0
IsMap none = Unit
IsMap (some m) = HasDistinctKeys m

-- A clone has the fields of the original and reads the same at every attribute, nil maps included.
pub clone_same :
    (e : Event) (k : Text)
    → IsMap e.attrs
    → (get_attr (clone e).attrs k ≡ get_attr e.attrs k) × (record (clone e) { attrs = e.attrs } ≡ e)
unfolding clone lookup
clone_same e k h = (attrs_same e.attrs h, refl)
  where
    attrs_same : (m : Option (Dict Value)) → IsMap m → get_attr (clone_attrs m) k ≡ get_attr m k
    attrs_same none h = refl
    attrs_same (some m) h = ground (arith, lookup-copy_into k [] m h)

-- The value of the last attribute with a key.
abbrev pub last_value : Text → List Attr → Option Value
last_value k [] = none
last_value k (a ∷ rest) = elim (last_value k rest) [
  | none ↦ if text_eq a.key k then some a.value else none
  | some v ↦ some v
]

lookup-add_attrs :
    (k : Text) (m : Dict Value) (l : List Attr)
    → k ≢ []
    → lookup k (add_attrs m l) ≡ elim (last_value k l) [ none ↦ lookup k m | some v ↦ some v ]
unfolding add_attrs
lookup-add_attrs k m [] h = refl
lookup-add_attrs k m (a ∷ l) h = ground (
  arith,
  lookup-add_attrs k m l h,
  lookup-add_attrs k (insert a.key a.value m) l h,
  lookup-insert a.key k a.value m,
  text_eq_iff a.key k,
)

-- Attributes become a map that has, at each key but the empty one, the value of its last attribute,
-- and nothing else.
pub lookup-attrs_to_map :
    (k : Text) (l : List Attr) → k ≢ [] → get_attr (attrs_to_map l) k ≡ last_value k l
unfolding attrs_to_map lookup
lookup-attrs_to_map k [] h = refl
lookup-attrs_to_map k (a ∷ l) h = ground (arith, lookup-add_attrs k [] (a ∷ l) h)

lookup-nil-add_attrs : (m : Dict Value) (l : List Attr) → lookup [] (add_attrs m l) ≡ lookup [] m
unfolding add_attrs
lookup-nil-add_attrs m [] = refl
lookup-nil-add_attrs m (a ∷ l) = ground (
  arith,
  lookup-nil-add_attrs m l,
  lookup-nil-add_attrs (insert a.key a.value m) l,
  lookup-insert a.key [] a.value m,
  text_eq_iff a.key [],
)

-- The empty key never gets in.
pub attrs_to_map_no_empty_key : (l : List Attr) → get_attr (attrs_to_map l) [] ≡ none
unfolding attrs_to_map lookup
attrs_to_map_no_empty_key [] = refl
attrs_to_map_no_empty_key (a ∷ l) = lookup-nil-add_attrs [] (a ∷ l)

-- The four kinds are what `Valid` accepts.
pub valid_iff :
    (k : Text)
    → (valid k ≡ true)
      ↔ ((k ≡ kind_log) ⊎ ((k ≡ kind_metric) ⊎ ((k ≡ kind_config) ⊎ (k ≡ kind_probe))))
unfolding valid
valid_iff k = ground (
  arith,
  text_eq_iff k kind_log,
  text_eq_iff k kind_metric,
  text_eq_iff k kind_config,
  text_eq_iff k kind_probe,
)
