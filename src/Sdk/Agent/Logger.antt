-- ===== src/Sdk/Agent/Logger.antt =====
-- sdk/agent/logger.go: the level test, and the event that a call of the logger makes.
use opslog.Prelude.{
  ℕ, ◌≡◌, refl, ◌∙◌, ◌≢◌, ◌↔◌, ◌⊎◌, Bool, true, false, not, Option, none, some, List, [], ◌∷◌, ◌++◌,
  arith, leb, if◌then◌else◌, Text, text, text_eq, CaseMap, to_lower,
}
use opslog.Signal.{Time, Value, str, Attr, Event, kind_log, get_attr, attrs_to_map}
use opslog.Signal.Laws.{last_value, lookup-attrs_to_map}

-- `order[level]` of `levelEnabled`: 0 for a level that is not in the map.
unfoldable pub order : Text → ℕ
order level =
    if text_eq level (text "debug")
    then 10
    else if text_eq level (text "info")
    then 20
    else if text_eq level (text "warn")
    then 30
    else if text_eq level (text "error")
    then 40
    else if text_eq level (text "fatal")
    then 50
    else if text_eq level (text "panic")
    then 60
    else 0

-- `levelEnabled(min, level)`
unfoldable pub level_enabled : CaseMap → Text → Text → Bool
level_enabled u min level = leb (order (to_lower u min)) (order (to_lower u level))

-- What `log` reads of the logger and its agent.
pub record Logger : Type 0 where
  pub closed : Bool
  pub min_level : Text
  pub service : Text
  pub host : Text
  pub attrs : List Attr

-- `With`
unfoldable pub with_attrs : List Attr → Logger → Logger
with_attrs attrs l = record l { attrs = l.attrs ++ attrs }

-- `ev.AttrsValue["trace_id"].(string)`, or the empty text
trace_of : Option Value → Text
trace_of (some (str s)) = s
trace_of _ = []

-- The event of `log`; `now` is what time.Now returns.
pub log_event : Time → Logger → Text → Text → List Attr → Event
unfolding trace_of
log_event now l level msg attrs =
    let m = attrs_to_map (l.attrs ++ attrs) in
    record {
      kind = kind_log;
      time = now;
      level = level;
      service = l.service;
      host = l.host;
      message = msg;
      trace_id = trace_of (get_attr m (text "trace_id"));
      attrs = m;
      raw = none;
    }

-- The event that `log` enqueues; `none` where it returns before.
unfoldable pub log : CaseMap → Time → Logger → Text → Text → List Attr → Option Event
unfolding log_event
log u now l level msg attrs =
    if l.closed
    then none
    else if not (level_enabled u l.min_level level)
    then none
    else some (log_event now l level msg attrs)

-- A level that is enabled under a minimum is enabled under every minimum that this one is enabled
-- under: raising the minimum only silences.
pub level_enabled_trans :
    (u : CaseMap) (low min level : Text)
    → level_enabled u low min ≡ true
    → level_enabled u min level ≡ true
    → level_enabled u low level ≡ true
unfolding level_enabled
level_enabled_trans u low min level h k = ground arith

last_value-append :
    (k : Text) (xs ys : List Attr)
    → last_value k (xs ++ ys) ≡ elim (last_value k ys) [ none ↦ last_value k xs | some v ↦ some v ]
last_value-append k [] ys = ground arith
last_value-append k (x ∷ xs) ys = ground (arith, last_value-append k xs ys)

-- An open logger with its level enabled makes one event, with the call's message and level and the
-- logger's service and host; at every key but the empty one the event has the call's attribute, the
-- last one given, or else that of the innermost `With` that gave the key.
pub log_attrs :
    (u : CaseMap) (now : Time) (l : Logger) (inner attrs : List Attr) (level msg : Text)
    → l.closed ≡ false
    → level_enabled u l.min_level level ≡ true
    → (e : Event) × (log u now (with_attrs inner l) level msg attrs ≡ some e)
      × (e.level ≡ level)
      × (e.message ≡ msg)
      × (e.service ≡ l.service)
      × (e.host ≡ l.host)
      × ((k : Text)
          → k ≢ []
          → get_attr e.attrs k ≡ elim (last_value k attrs) [
            | some v ↦ some v
            | none ↦ elim (last_value k inner) [ some v ↦ some v | none ↦ last_value k l.attrs ]
          ])
unfolding log with_attrs
log_attrs u now l inner attrs level msg open_ enabled = (
  log_event now (with_attrs inner l) level msg attrs,
  rw (open_, enabled),
  refl,
  refl,
  refl,
  refl,
  λ k h.
      lookup-attrs_to_map k ((l.attrs ++ inner) ++ attrs) h
      ∙ last_value-append k (l.attrs ++ inner) attrs
      ∙ ground (arith, last_value-append k l.attrs inner),
)

-- A closed logger, or a level below the minimum, makes no event.
pub log_silent :
    (u : CaseMap) (now : Time) (l : Logger) (level msg : Text) (attrs : List Attr)
    → (log u now l level msg attrs ≡ none)
      ↔ ((l.closed ≡ true) ⊎ (level_enabled u l.min_level level ≡ false))
unfolding log
log_silent u now l level msg attrs = (λ h. ground arith, λ h. ground arith)
