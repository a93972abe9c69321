-- ===== src/Sdk/Policy/Laws.antt =====
-- The policy always names one transport that is there, and the wanted one if there is one.
use opslog.Prelude.{
  ◌≡◌, refl, sym, ◌∙◌, ◌≢◌, ◌⊎◌, inl, inr, none, some, List, [], ◌∷◌, arith, if◌then◌else◌,
  Bool-cases, Option-cases, Text, text_eq, text_eq_sound, text_eq_iff, CaseMap, Dict, lookup,
  insert, lookup-insert,
}
use mathlib.Core.List.{Memᴰ}
use opslog.Signal.{Event}
use opslog.Sdk.Policy.{Transport, LevelPolicy, by_name, wanted, pick, select_transports}

-- A transport answers to its name and to its type.
abbrev pub Answers : Text → Transport → Type 0
Answers want t = (t.name ≡ want) ⊎ (t.typ ≡ want)

-- The two entries that a transport makes.
lookup-entries :
    (want : Text) (x : Transport) (m : Dict Transport)
    → lookup want (insert x.typ x (insert x.name x m)) ≡ (
        if text_eq x.typ want
        then some x
        else if text_eq x.name want
        then some x
        else lookup want m)
lookup-entries want x m = simp lookup-insert

-- What `byName` has under a text: a transport of the list that answers to it, or an older entry.
lookup-by_name :
    (want : Text) (m : Dict Transport) (ts : List Transport) {t : Transport}
    → lookup want (by_name m ts) ≡ some t
    → (Memᴰ t ts × Answers want t) ⊎ (lookup want m ≡ some t)
unfolding by_name
lookup-by_name want m [] e = inr e
lookup-by_name want m (x ∷ ts) {t} e =
    elim (lookup-by_name want (insert x.typ x (insert x.name x m)) ts e) [
      | inl (later, answers) ↦ inl (Memᴰ.tail later, answers)
      | inr here ↦ found (sym (lookup-entries want x m) ∙ here)
    ]
  where
    found :
        (if text_eq x.typ want
            then some x
            else if text_eq x.name want
            then some x
            else lookup want m)
          ≡ some t
        → (Memᴰ t (x ∷ ts) × Answers want t) ⊎ (lookup want m ≡ some t)
    found h = elim (Bool-cases (text_eq x.typ want)) [
      | inl same ↦
          let e : x ≡ t = ground arith in
          inl (Memᴰ.head (sym e), rw (← e) (inr (text_eq_sound x.typ want same)))
      | inr other ↦ elim (Bool-cases (text_eq x.name want)) [
        | inl same ↦
            let e : x ≡ t = ground arith in
            inl (Memᴰ.head (sym e), rw (← e) (inl (text_eq_sound x.name want same)))
        | inr neither ↦ inr (ground arith)
      ]
    ]

entries_keep :
    (want : Text) (x : Transport) (m : Dict Transport)
    → (lookup want m ≢ none) ⊎ Answers want x
    → lookup want (insert x.typ x (insert x.name x m)) ≢ none
entries_keep want x m h =
    ground (arith, lookup-entries want x m, text_eq_iff x.typ want, text_eq_iff x.name want)

-- If a transport of the list answers to a text, `byName` has one under it.
by_name-has :
    (want : Text) (m : Dict Transport) (ts : List Transport)
    → (lookup want m ≢ none) ⊎ ((t : Transport) × Memᴰ t ts × Answers want t)
    → lookup want (by_name m ts) ≢ none
unfolding by_name
by_name-has want m [] (inl h) = h
by_name-has want m [] (inr (t, mem, answers)) = elim mem [ ]
by_name-has want m (x ∷ ts) (inl h) =
    by_name-has want (insert x.typ x (insert x.name x m)) ts (inl (entries_keep want x m (inl h)))
by_name-has want m (x ∷ ts) (inr (t, Memᴰ.head e, answers)) =
    by_name-has want (insert x.typ x (insert x.name x m)) ts
      (inl (entries_keep want x m (inr (rw e at answers))))
by_name-has want m (x ∷ ts) (inr (t, Memᴰ.tail later, answers)) =
    by_name-has want (insert x.typ x (insert x.name x m)) ts (inr (t, later, answers))

none-ne-some : (want : Text) {t : Transport} → ¬ (lookup want [] ≡ some t)
unfolding lookup
none-ne-some want e = cc

-- What `Select` chose: one transport of the list, which answers to the wanted text, if it has any,
-- whenever one of the list does, and is the first of the list otherwise.
pub record IsChoice (want : Text) (first : Transport) (ts : List Transport) (t : Transport)
    : Type 0 where
  pub available : Memᴰ t (first ∷ ts)
  pub wanted_or_first : (want ≢ [] × Answers want t) ⊎ (t ≡ first)
  pub not_missed :
      want ≢ [] → (o : Transport) → Memᴰ o (first ∷ ts) → Answers want o → Answers want t

-- `Select` on transports that are not empty returns exactly one, chosen so.
pub select-IsChoice :
    (u : CaseMap) (p : LevelPolicy) (sig : Event) (first : Transport) (ts : List Transport)
    → (t : Transport) × (select_transports u p sig (first ∷ ts) ≡ t ∷ [])
      × IsChoice (wanted u p sig) first ts t
unfolding select_transports
select-IsChoice u p sig first ts = go (wanted u p sig)
  where
    go :
        (want : Text)
        → (t : Transport) × (pick want (by_name [] (first ∷ ts)) first ≡ t ∷ [])
          × IsChoice want first ts t
    go [] = (
      first,
      refl,
      record {
        available = Memᴰ.head refl;
        wanted_or_first = inr refl;
        not_missed = λ h. absurd (h refl);
      },
    )
    go (c ∷ w) = elim (Option-cases (lookup (c ∷ w) (by_name [] (first ∷ ts)))) [
      | inl missing ↦ (
        first,
        rw missing,
        record {
          available = Memᴰ.head refl;
          wanted_or_first = inr refl;
          not_missed = λ _ o mem answers.
              absurd (by_name-has (c ∷ w) [] (first ∷ ts) (inr (o, mem, answers)) missing);
        },
      )
      | inr (t, found) ↦
          let (mem, answers) = of_found (c ∷ w) t found in
          (
            t,
            rw found,
            record {
              available = mem;
              wanted_or_first = inl (cc, answers);
              not_missed = λ _ o _ _. answers;
            },
          )
    ]
      where
        of_found :
            (want : Text) (t : Transport)
            → lookup want (by_name [] (first ∷ ts)) ≡ some t
            → Memᴰ t (first ∷ ts) × Answers want t
        of_found want t found = elim (lookup-by_name want [] (first ∷ ts) found) [
          | inl here ↦ here
          | inr nothing ↦ absurd (none-ne-some want nothing)
        ]
