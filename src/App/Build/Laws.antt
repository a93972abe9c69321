-- ===== src/App/Build/Laws.antt =====
-- server/internal/app/app.go: what a server that is built has, and which inputs cannot be built.
use opslog.Prelude.{
  ◌≡◌, refl, sym, ap, ◌∙◌, ◌⊎◌, inl, inr, Bool, true, false, Option, none, some, List, [], ◌∷◌,
  ◌++◌, Bool-cases, All, is_nil, Error,
}
use mathlib.Core.Path.{subst}
use opslog.Cfg.{Std, Config}
use opslog.Registry.{build_output, build_processor}
use opslog.Config.Load.{Component, File, parse_component, load, checked, with_defaults, no_outputs}
use opslog.App.Build.{
  App, Parts, bind, first_with, build_each, build_one_output, build_one_processor, build_procs,
  build_inputs, assemble, new,
}

-- A result that is there comes from one that is there.
bind-inr :
    {X Y : Type 0} (r : Error ⊎ X) (f : X → Error ⊎ Y) (y : Y)
    → bind r f ≡ inr y
    → (x : X) × (r ≡ inr x) × (f x ≡ inr y)
unfolding bind
bind-inr (inl e) f y h = cc
bind-inr (inr x) f y h = (x, refl, h)

inr_inj : {X : Type 0} (x y : X) → ◌≡◌ {A = Error ⊎ X} (inr x) (inr y) → x ≡ y
inr_inj x y h = cc

-- Each of a list is what a configuration yields, in the same order.
pub Yields : {X : Type 0} → (Config → X → Type 0) → List Config → List X → Type 0
Yields R [] [] = Unit
Yields R [] (x ∷ xs) = ⊥
Yields R (raw ∷ raws) [] = ⊥
Yields R (raw ∷ raws) (x ∷ xs) = R raw x × Yields R raws xs

build_each-Yields :
    {X : Type 0} (f : Config → Error ⊎ X) (R : Config → X → Type 0)
    → ((raw : Config) (x : X) → f raw ≡ inr x → R raw x)
    → (raws : List Config) (xs : List X) → build_each f raws ≡ inr xs
    → Yields R raws xs
unfolding build_each Yields
build_each-Yields f R one [] [] h = tt
build_each-Yields f R one [] (x ∷ xs) h = absurd (none_left (inr_inj _ _ h))
  where
    none_left : [] ≡ x ∷ xs → ⊥
    none_left e = cc
build_each-Yields f R one (raw ∷ raws) xs h =
    let (y, e, h1) = bind-inr (f raw) _ xs h in
    let (ys, e1, h2) = bind-inr (build_each f raws) _ xs h1 in
    subst (Yields R (raw ∷ raws)) (inr_inj _ _ h2)
      (one raw y e, build_each-Yields f R one raws ys e1)

is_nil-Yields :
    {X : Type 0} (R : Config → X → Type 0) (raws : List Config) (xs : List X)
    → Yields R raws xs
    → is_nil xs ≡ is_nil raws
unfolding Yields
is_nil-Yields R [] [] h = refl
is_nil-Yields R [] (x ∷ xs) h = absurd h
is_nil-Yields R (raw ∷ raws) [] h = absurd h
is_nil-Yields R (raw ∷ raws) (x ∷ xs) h = refl

-- The first of a list with a property: none has it, or the one that is meant has it and none before.
pub IsFirst : {O : Type 0} → (O → Bool) → List O → Option O → Type 0
IsFirst {O} p os none = All (λ o. p o ≡ false) os
IsFirst {O} p os (some o) =
    (before : List O) × (after : List O) × (os ≡ before ++ o ∷ after)
    × All (λ q. p q ≡ false) before
    × (p o ≡ true)

IsFirst-after :
    {O : Type 0} (p : O → Bool) (o : O) (os : List O) (r : Option O)
    → p o ≡ false
    → IsFirst p os r
    → IsFirst p (o ∷ os) r
unfolding IsFirst
IsFirst-after p o os none e h = (e, h)
IsFirst-after p o os (some q) e (before, after, split, h, t) =
    (o ∷ before, after, ap (λ l. o ∷ l) split, (e, h), t)

first_with-IsFirst : {O : Type 0} (p : O → Bool) (os : List O) → IsFirst p os (first_with p os)
unfolding first_with
first_with-IsFirst p [] = unfold IsFirst in tt
first_with-IsFirst p (o ∷ os) = elim (Bool-cases (p o)) [
  | inl e ↦ rw e (unfold IsFirst in ([], os, refl, tt, e))
  | inr e ↦ rw e (IsFirst-after p o os (first_with p os) e (first_with-IsFirst p os))
]

module _ {I D P O T : Type 0} (std : Std) (k : Parts I D P O T) where
  -- What the registry makes of a configuration that it can read.
  pub IsOutput : Config → O → Type 0
  IsOutput raw o =
      (c : Component) × (parse_component std raw ≡ inr c)
      × (build_output k.quote k.registry c.typ c.name c.cfg ≡ inr o)

  pub IsProcessor : Config → P → Type 0
  IsProcessor raw p =
      (c : Component) × (parse_component std raw ≡ inr c)
      × (build_processor k.quote k.registry c.typ c.name c.cfg ≡ inr p)

  one-IsOutput : (raw : Config) (o : O) → build_one_output std k raw ≡ inr o → IsOutput raw o
  unfolding build_one_output IsOutput
  one-IsOutput raw o h = bind-inr (parse_component std raw) _ o h

  one-IsProcessor :
      (raw : Config) (p : P) → build_one_processor std k raw ≡ inr p → IsProcessor raw p
  unfolding build_one_processor IsProcessor
  one-IsProcessor raw p h = bind-inr (parse_component std raw) _ p h

  -- The processors of a pipeline, or the normalizer alone.
  pub IsPipeline : List Config → List P → Type 0
  IsPipeline [] procs = procs ≡ k.normalize ∷ []
  IsPipeline (raw ∷ raws) procs = Yields IsProcessor (raw ∷ raws) procs

  build_procs-IsPipeline :
      (raws : List Config) (procs : List P)
      → build_procs std k raws ≡ inr procs
      → IsPipeline raws procs
  unfolding build_procs IsPipeline
  build_procs-IsPipeline [] procs h = sym (inr_inj _ _ h)
  build_procs-IsPipeline (raw ∷ raws) procs h =
      build_each-Yields (build_one_processor std k) IsProcessor one-IsProcessor (raw ∷ raws) procs h

  outputs_given : (r : Error ⊎ File) (f : File) → load r ≡ inr f → is_nil f.outputs ≡ false
  unfolding load checked
  outputs_given (inl e) f h = cc
  outputs_given (inr g) f h = elim (Bool-cases (is_nil (with_defaults g).outputs)) [
    | inl e ↦ absurd (refused (rw e at h))
    | inr e ↦ ap (λ q. is_nil q.outputs) (sym (inr_inj _ _ (rw e at h))) ∙ e
  ]
    where
      refused : ◌≡◌ {A = Error ⊎ File} (inl no_outputs) (inr f) → ⊥
      refused q = cc

  -- What a server has that `New` builds.
  pub record IsServing (f : File) (a : App I P O) : Type 0 where
    pub all_outputs : Yields IsOutput f.outputs a.outs
    pub some_output : is_nil a.outs ≡ false
    pub pipeline : IsPipeline f.pipeline a.procs
    pub queries : IsFirst k.is_queryable a.outs a.queryable
    pub archives : IsFirst k.is_archiver a.outs a.archiver
    pub restores : IsFirst k.is_restorer a.outs a.restorer

  assembled-IsServing :
      (f : File) (outs : List O) (procs : List P) (inputs : List I)
      → build_each (build_one_output std k) f.outputs ≡ inr outs
      → build_procs std k f.pipeline ≡ inr procs
      → is_nil f.outputs ≡ false
      → IsServing f (assemble std k outs procs inputs)
  unfolding assemble
  assembled-IsServing f outs procs inputs e1 e2 given =
      let all =
        build_each-Yields (build_one_output std k) IsOutput one-IsOutput f.outputs outs e1 in
      record {
        all_outputs = all;
        some_output = is_nil-Yields IsOutput f.outputs outs all ∙ given;
        pipeline = build_procs-IsPipeline f.pipeline procs e2;
        queries = first_with-IsFirst k.is_queryable outs;
        archives = first_with-IsFirst k.is_archiver outs;
        restores = first_with-IsFirst k.is_restorer outs;
      }

  -- A server that is built from a loaded configuration has, in the order of the configuration, the
  -- output that the registry makes of each that it lists, and at least one; the processors that the
  -- registry makes of its pipeline, or the normalizer alone where it has none; and its API queries,
  -- archives and restores by the first output that can, and by none only if none can.
  pub new-IsServing :
      (r : Error ⊎ File) (f : File) (a : App I P O)
      → load r ≡ inr f
      → new std k (inr f) ≡ inr a
      → IsServing f a
  unfolding new bind
  new-IsServing r f a loaded built =
      let (outs, e1, h1) = bind-inr (build_each (build_one_output std k) f.outputs) _ a built in
      let (procs, e2, h2) = bind-inr (build_procs std k f.pipeline) _ a h1 in
      let (inputs, e3, h3) = bind-inr (build_inputs std k f.inputs) _ a h2 in
      subst (IsServing f) (inr_inj _ _ h3)
        (assembled-IsServing f outs procs inputs e1 e2 (outputs_given r f loaded))
