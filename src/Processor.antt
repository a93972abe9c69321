-- ===== src/Processor.antt =====
-- server/internal/processor/normalize.go: the default processor, which fills an event in place.
pub mod Laws
use opslog.Prelude.{
  ℕ, zero, suc, ◌+◌, ◌-◌, ◌*◌, ◌/◌, ◌%◌, ◌^◌, ◌≤◌, ◌<◌, ◌≡◌, refl, sym, ap, ◌∙◌, ◌≢◌, ◌↔◌, ◌⊎◌, inl,
  inr, Bool, true, false, not, ◌&&◌, ◌||◌, Option, none, some, List, [], ◌∷◌, ◌++◌, map,
  append_assoc, append-nil, arith, ltb, leb, ◌==◌, if◌then◌else◌, ltb→lt, leb→le, ==_iff,
  Bool-cases, Option-cases, length, take, drop, is_nil, select, replicate, any, flatten,
  flatten_snoc, length-replicate, length-append, take-append-drop, length-take, length-drop,
  take-append, drop-append, select-append, append_snoc, All, All-append, All-drop, All-take, Text,
  Error, text, text_eq, text_eq_refl, text_eq_sound, text_eq_iff, has_prefix, contains, has_suffix,
  is_space, trim_left, trim_right, trim_space, utf8_len, has_prefix_sound, has_prefix-append,
  HasPart, contains_sound, contains_complete, CaseMap, ascii_lower, ascii_upper, IsAscii, to_lower,
  to_upper, to_lower_ascii, to_upper_ascii, to_lower_idem, ascii, Dict, lookup, insert, without,
  lookup-insert, lookup-without, lookup-insert_self, lookup-append,
}
use opslog.Signal.{Time, is_zero_time, kind_log, Event}
use opslog.Pipeline.{Processor}

-- The events that pointers refer to.
abbrev pub Heap : Type 0
Heap = ℕ → Event

unfoldable pub write_event : Heap → ℕ → Event → Heap
write_event h p e q = if q == p then e else h q

-- A `signal.Signal` on the heap: a `*signal.Event`, or another implementation, which no code here
-- changes.
pub data Ref : Type 0 where
  pointer : ℕ → Ref
  foreign : Event → Ref

-- What the methods of a signal return.
unfoldable pub read_event : Heap → Ref → Event
read_event h (pointer p) = h p
read_event h (foreign e) = e

module _ (u : CaseMap) where
  -- The assignments of `Process` on the event; `now` is what time.Now returns.
  pub normalize_event : Time → Event → Event
  normalize_event now e = record e {
    kind = if is_nil e.kind then kind_log else e.kind;
    time = if is_zero_time e.time then now else e.time;
    level = if is_nil e.level then text "info" else to_lower u e.level;
  }

  -- `Normalize.Process`
  unfoldable pub normalize : Time → Processor Heap Ref
  unfolding normalize_event write_event
  normalize now (pointer p) h =
      ((pointer p, true, none), write_event h p (normalize_event now (h p)))
  normalize now (foreign e) h = ((foreign e, true, none), h)
