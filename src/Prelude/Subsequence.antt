-- ===== src/Prelude/Subsequence.antt =====
-- Lists that come out of others by leaving members out.
use mathlib.Core.List.{List, [], ◌∷◌, ◌++◌}

module _ {ℓ} {A : Type ℓ} where
  infix 40 ◌⊑◌
  pub data ◌⊑◌ : List A → List A → Type ℓ where
    done : [] ⊑ []
    keep : {xs ys : List A} (a : A) → xs ⊑ ys → a ∷ xs ⊑ a ∷ ys
    skip : {xs ys : List A} (a : A) → xs ⊑ ys → xs ⊑ a ∷ ys

  pub ⊑_refl : (xs : List A) → xs ⊑ xs
  ⊑_refl [] = done
  ⊑_refl (x ∷ xs) = keep x (⊑_refl xs)

  pub ⊑_nil : (xs : List A) → [] ⊑ xs
  ⊑_nil [] = done
  ⊑_nil (x ∷ xs) = skip x (⊑_nil xs)

  pub ⊑_trans : {ys zs : List A} → ys ⊑ zs → {xs : List A} → xs ⊑ ys → xs ⊑ zs
  ⊑_trans done p = p
  ⊑_trans (keep a q) (keep _ p) = keep a (⊑_trans q p)
  ⊑_trans (keep a q) (skip _ p) = skip a (⊑_trans q p)
  ⊑_trans (skip a q) p = skip a (⊑_trans q p)

  pub ⊑_append : (zs : List A) {xs ys : List A} → xs ⊑ ys → zs ++ xs ⊑ zs ++ ys
  ⊑_append [] p = p
  ⊑_append (z ∷ zs) p = keep z (⊑_append zs p)

  -- One member left out.
  pub ⊑_drop : (xs ys : List A) (a : A) → xs ++ ys ⊑ xs ++ a ∷ ys
  ⊑_drop xs ys a = ⊑_append xs (skip a (⊑_refl ys))

  pub ⊑_append_right : (xs ys : List A) → xs ⊑ xs ++ ys
  ⊑_append_right [] ys = ⊑_nil ys
  ⊑_append_right (x ∷ xs) ys = keep x (⊑_append_right xs ys)
