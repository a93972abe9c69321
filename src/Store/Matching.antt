-- ===== src/Store/Matching.antt =====
-- `matchQuery`, by what each part of a query asks for.
use opslog.Prelude.{◌≤◌, ◌≡◌, ◌↔◌, ◌⊎◌, true, false, [], arith, CaseMap}
use opslog.Signal.{Event}
use opslog.Live.Match.{
  excludes, misses, other_kind, Allows, Mentions, excludes-false_iff, misses-false_iff,
  other_kind-false_iff,
}
use opslog.Store.{Query, match_query}

match_query-parts :
    (u : CaseMap) (q : Query) (ev : Event)
    → (match_query u q ev ≡ true) ↔ (
        ((q.from ≡ 0) ⊎ (q.from ≤ ev.time))
        × ((q.to ≡ 0) ⊎ (ev.time ≤ q.to))
        × (excludes q.levels ev.level ≡ false)
        × (excludes q.services ev.service ≡ false)
        × (excludes q.hosts ev.host ≡ false)
        × (other_kind q.trace_id ev.trace_id ≡ false)
        × (misses u q.keyword ev.message ≡ false))
unfolding match_query
match_query-parts u q ev = (λ h. ground arith, λ (a, b, c, d, e, f, g). ground arith)

-- An event answers a query exactly if it is in the span of time, both ends included, has one of the
-- levels, services and hosts asked for, the trace asked for, and the keyword in its message; a part
-- of the query that is left empty asks for nothing.
pub match_query_iff :
    (u : CaseMap) (q : Query) (ev : Event)
    → (match_query u q ev ≡ true) ↔ (
        ((q.from ≡ 0) ⊎ (q.from ≤ ev.time))
        × ((q.to ≡ 0) ⊎ (ev.time ≤ q.to))
        × Allows q.levels ev.level
        × Allows q.services ev.service
        × Allows q.hosts ev.host
        × ((q.trace_id ≡ []) ⊎ (ev.trace_id ≡ q.trace_id))
        × Mentions u q.keyword ev.message)
match_query_iff u q ev = (
  λ h.
      let (a, b, l, s, o, t, m) = (match_query-parts u q ev).0 h in
      (
        a,
        b,
        (excludes-false_iff q.levels ev.level).0 l,
        (excludes-false_iff q.services ev.service).0 s,
        (excludes-false_iff q.hosts ev.host).0 o,
        (other_kind-false_iff q.trace_id ev.trace_id).0 t,
        (misses-false_iff u q.keyword ev.message).0 m,
      ),
  λ (a, b, l, s, o, t, m). (match_query-parts u q ev).1 (
    a,
    b,
    (excludes-false_iff q.levels ev.level).1 l,
    (excludes-false_iff q.services ev.service).1 s,
    (excludes-false_iff q.hosts ev.host).1 o,
    (other_kind-false_iff q.trace_id ev.trace_id).1 t,
    (misses-false_iff u q.keyword ev.message).1 m,
  ),
)
