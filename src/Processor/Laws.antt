-- ===== src/Processor/Laws.antt =====
-- What the default processor guarantees of the events that it lets through.
use opslog.Prelude.{
  ℕ, ◌≡◌, refl, ◌≢◌, false, [], ◌∷◌, arith, is_nil, Text, text, CaseMap, to_lower, to_lower_ascii,
  to_lower_idem,
}
use mathlib.Core.Path.{fun_ext}
use opslog.Signal.{Time, Event}
use opslog.Pipeline.{process}
use opslog.Pipeline.Laws.{Keeps}
use opslog.Processor.{Heap, Ref, pointer, foreign, write_event, normalize_event, normalize}

write_event_self : (h : Heap) (p : ℕ) (e : Event) → write_event h p e p ≡ e
unfolding write_event
write_event_self h p e = ground arith

write_event_again :
    (h : Heap) (p : ℕ) (e : Event) → write_event (write_event h p e) p e ≡ write_event h p e
unfolding write_event
write_event_again h p e = fun_ext λ q. ground arith

module _ (u : CaseMap) where
  -- An event with a kind, a time and a level in lower case.
  pub record IsNormal (e : Event) : Type 0 where
    pub has_kind : is_nil e.kind ≡ false
    pub has_time : e.time ≢ 0
    pub has_level : is_nil e.level ≡ false
    pub is_lower : to_lower u e.level ≡ e.level

  is_nil-to_lower : (s : Text) → is_nil (to_lower u s) ≡ is_nil s
  unfolding to_lower
  is_nil-to_lower [] = refl
  is_nil-to_lower (c ∷ s) = refl

  lower_info : to_lower u (text "info") ≡ text "info"
  lower_info = to_lower_ascii u (text "info") (omega arith)

  normalize_event-IsNormal : (now : Time) (e : Event) → now ≢ 0 → IsNormal (normalize_event u now e)
  unfolding normalize_event
  normalize_event-IsNormal now e h = record {
    has_kind = ground arith;
    has_time = ground arith;
    has_level = ground (arith, is_nil-to_lower e.level);
    is_lower = ground (arith, lower_info, to_lower_idem u e.level);
  }

  normalize_event_of_IsNormal : (now : Time) (e : Event) → IsNormal e → normalize_event u now e ≡ e
  unfolding normalize_event
  normalize_event_of_IsNormal now e h = ground arith

  -- The event that is left of `e`: each field that was set is as it was, but for the level, which is
  -- in lower case; a kind, a time and a level that were not set are log, the present and info.
  pub record IsFilled (now : Time) (e e' : Event) : Type 0 where
    pub kind_kept : e.kind ≢ [] → e'.kind ≡ e.kind
    pub kind_filled : e.kind ≡ [] → e'.kind ≡ text "log"
    pub time_kept : e.time ≢ 0 → e'.time ≡ e.time
    pub time_filled : e.time ≡ 0 → e'.time ≡ now
    pub level_lowered : e.level ≢ [] → e'.level ≡ to_lower u e.level
    pub level_filled : e.level ≡ [] → e'.level ≡ text "info"
    pub others_kept : record e' { kind = e.kind; time = e.time; level = e.level } ≡ e

  -- Normalizing a normal event a second time, at any later time, changes no event at all.
  pub normalize_idempotent :
      (now later : Time) (r : Ref) (h : Heap)
      → now ≢ 0
      → process (normalize u now ∷ normalize u later ∷ []) r h ≡ process (normalize u now ∷ []) r h
  unfolding process normalize
  normalize_idempotent now later (foreign e) h pos = refl
  normalize_idempotent now later (pointer p) h pos =
      let e : Event = normalize_event u now (h p) in
      rw (
        write_event_self h p e,
        normalize_event_of_IsNormal later e (normalize_event-IsNormal now (h p) pos),
        write_event_again h p e,
      )

  -- The default pipeline never drops a signal and never fails.
  pub normalize-Keeps : (now : Time) → Keeps (normalize u now)
  unfolding normalize
  normalize-Keeps now (pointer p) h = (_, _, refl)
  normalize-Keeps now (foreign e) h = (_, _, refl)
