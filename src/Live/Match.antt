-- ===== src/Live/Match.antt =====
-- `match` and `contains` of server/internal/live/hub.go, with pkg/query's Filter.
use opslog.Prelude.{
  ◌≡◌, refl, sym, ◌↔◌, ◌⊎◌, inl, inr, Bool, true, false, not, ◌&&◌, ◌||◌, List, [], ◌∷◌, arith,
  if◌then◌else◌, Bool-cases, is_nil, Text, text_eq, text_eq_refl, text_eq_sound, contains, HasPart,
  contains_sound, contains_complete, CaseMap, to_lower,
}
use mathlib.Core.List.{Memᴰ}
use opslog.Signal.{Event}

pub record Filter : Type 0 where
  pub kind : Text
  pub levels : List Text
  pub services : List Text
  pub hosts : List Text
  pub keyword : Text

-- `contains`, and `in` of the file system output, which has the same text
unfoldable pub text_in : List Text → Text → Bool
text_in [] v = false
text_in (s ∷ ss) v = text_eq s v || text_in ss v

-- `len(ss) > 0 && !contains(ss, v)`
abbrev pub excludes : List Text → Text → Bool
excludes ss v = not (is_nil ss) && not (text_in ss v)

-- `keyword != "" && !strings.Contains(strings.ToLower(msg), strings.ToLower(keyword))`
abbrev pub misses : CaseMap → Text → Text → Bool
misses u keyword msg = not (is_nil keyword) && not (contains (to_lower u msg) (to_lower u keyword))

unfoldable pub match : CaseMap → Filter → Event → Bool
match u f sig =
    if not (is_nil f.kind) && not (text_eq sig.kind f.kind)
    then false
    else if excludes f.levels sig.level
    then false
    else if excludes f.services sig.service
    then false
    else if excludes f.hosts sig.host
    then false
    else if misses u f.keyword sig.message
    then false
    else true

-- What a list of allowed texts means: any text, or one of the list.
abbrev pub Allows : List Text → Text → Type 0
Allows ss v = (ss ≡ []) ⊎ Memᴰ v ss

-- What a keyword means: the message holds it, without regard to case.
abbrev pub Mentions : CaseMap → Text → Text → Type 0
Mentions u keyword msg = (keyword ≡ []) ⊎ HasPart (to_lower u msg) (to_lower u keyword)

pub text_in_sound : (ss : List Text) (v : Text) → text_in ss v ≡ true → Memᴰ v ss
unfolding text_in
text_in_sound [] v h = cc
text_in_sound (s ∷ ss) v h = elim (Bool-cases (text_eq s v)) [
  | inl same ↦ Memᴰ.head (sym (text_eq_sound s v same))
  | inr other ↦ Memᴰ.tail (text_in_sound ss v (ground arith))
]

pub text_in_complete : (ss : List Text) (v : Text) → Memᴰ v ss → text_in ss v ≡ true
unfolding text_in
text_in_complete [] v m = elim m [ ]
text_in_complete (s ∷ ss) v (Memᴰ.head e) = rw (e, text_eq_refl s)
text_in_complete (s ∷ ss) v (Memᴰ.tail m) = ground (arith, text_in_complete ss v m)

pub excludes-false_iff : (ss : List Text) (v : Text) → (excludes ss v ≡ false) ↔ Allows ss v
excludes-false_iff [] v = (λ h. inl refl, λ h. refl)
excludes-false_iff (s ∷ ss) v = (
  λ h. inr (text_in_sound (s ∷ ss) v (ground arith)),
  elim [ inl e ↦ cc | inr m ↦ rw (text_in_complete (s ∷ ss) v m) ],
)

pub misses-false_iff : (u : CaseMap) (k msg : Text) → (misses u k msg ≡ false) ↔ Mentions u k msg
misses-false_iff u [] msg = (λ h. inl refl, λ h. refl)
misses-false_iff u (c ∷ k) msg = (
  λ h. inr (contains_sound (to_lower u msg) (to_lower u (c ∷ k)) (ground arith)),
  elim [
    | inl e ↦ cc
    | inr (before, after, e) ↦ rw (e, contains_complete before (to_lower u (c ∷ k)) after)
  ],
)

-- `kind != "" && sig.Kind() != kind`
abbrev pub other_kind : Text → Text → Bool
other_kind k kind = not (is_nil k) && not (text_eq kind k)

pub other_kind-false_iff : (k kind : Text) → (other_kind k kind ≡ false) ↔ ((k ≡ []) ⊎ (kind ≡ k))
other_kind-false_iff [] kind = (λ h. inl refl, λ h. refl)
other_kind-false_iff (c ∷ k) kind = (
  λ h. inr (text_eq_sound kind (c ∷ k) (ground arith)),
  elim [ inl e ↦ cc | inr e ↦ rw (e, text_eq_refl (c ∷ k)) ],
)

match-parts :
    (u : CaseMap) (f : Filter) (sig : Event)
    → (match u f sig ≡ true) ↔ (
        (other_kind f.kind sig.kind ≡ false)
        × (excludes f.levels sig.level ≡ false)
        × (excludes f.services sig.service ≡ false)
        × (excludes f.hosts sig.host ≡ false)
        × (misses u f.keyword sig.message ≡ false))
unfolding match
match-parts u f sig = (λ h. ground arith, λ (a, b, c, d, e). rw (a, b, c, d, e))

-- A filter lets a signal through exactly if each of its parts is left empty or met: the kind, the
-- level, the service, the host, and the keyword somewhere in the message.
pub match_iff :
    (u : CaseMap) (f : Filter) (sig : Event)
    → (match u f sig ≡ true) ↔ (
        ((f.kind ≡ []) ⊎ (sig.kind ≡ f.kind))
        × Allows f.levels sig.level
        × Allows f.services sig.service
        × Allows f.hosts sig.host
        × Mentions u f.keyword sig.message)
match_iff u f sig = (
  λ h.
      let (k, l, s, o, m) = (match-parts u f sig).0 h in
      (
        (other_kind-false_iff f.kind sig.kind).0 k,
        (excludes-false_iff f.levels sig.level).0 l,
        (excludes-false_iff f.services sig.service).0 s,
        (excludes-false_iff f.hosts sig.host).0 o,
        (misses-false_iff u f.keyword sig.message).0 m,
      ),
  λ (k, l, s, o, m). (match-parts u f sig).1 (
    (other_kind-false_iff f.kind sig.kind).1 k,
    (excludes-false_iff f.levels sig.level).1 l,
    (excludes-false_iff f.services sig.service).1 s,
    (excludes-false_iff f.hosts sig.host).1 o,
    (misses-false_iff u f.keyword sig.message).1 m,
  ),
)
