-- ===== src/Api.antt =====
-- server/internal/api/api.go: from requests to queries and restores, and the answers.
pub mod Csv
pub mod Laws
use opslog.Prelude.{
  ℕ, zero, suc, ◌+◌, ◌-◌, ◌*◌, ◌/◌, ◌%◌, ◌^◌, ◌≤◌, ◌<◌, ◌≡◌, refl, sym, ap, ◌∙◌, ◌≢◌, ◌↔◌, ◌⊎◌, inl,
  inr, Bool, true, false, not, ◌&&◌, ◌||◌, Option, none, some, List, [], ◌∷◌, ◌++◌, map,
  append_assoc, append-nil, arith, ltb, leb, ◌==◌, if◌then◌else◌, ltb→lt, leb→le, ==_iff,
  Bool-cases, Option-cases, length, take, drop, is_nil, select, replicate, any, flatten,
  flatten_snoc, length-replicate, length-append, take-append-drop, length-take, length-drop,
  take-append, drop-append, select-append, append_snoc, All, All-append, All-drop, All-take, Text,
  Error, text, text_eq, text_eq_refl, text_eq_sound, text_eq_iff, has_prefix, contains, has_suffix,
  is_space, trim_left, trim_right, trim_space, utf8_len, has_prefix_sound, has_prefix-append,
  HasPart, contains_sound, contains_complete, CaseMap, ascii_lower, ascii_upper, IsAscii, to_lower,
  to_upper, to_lower_ascii, to_upper_ascii, to_lower_idem, ascii, Dict, lookup, insert, without,
  lookup-insert, lookup-without, lookup-insert_self, lookup-append,
}
use opslog.Signal.{Time, kind_log, kind_metric, kind_config, kind_probe}
use opslog.Live.Match.{Filter}
use opslog.Store.{Query, Page}
use opslog.Store.Segments.{RestoreOptions, ArchiveInfo}
use opslog.Api.Csv.{split_csv}

-- What a handler answers: an error with its status, or a value in JSON.
pub data Answer : Type 0 where
  http_error : ℕ → Text → Answer
  page_json : Page → Answer
  archives_json : List ArchiveInfo → Answer
  ok_json : Answer

-- A request: its method, `r.URL.Query().Get`, and the body of a restore, if it decodes.
pub record Request : Type 0 where
  pub method : Text
  pub get : Text → Text
  pub restore_body : Option (Text × Bool)

-- What the code calls of strconv and time: the number of a text, 0 if it has none that is positive,
-- and its time, the zero time if it has none.
pub record Parse : Type 0 where
  pub atoi : Text → ℕ
  pub parse_rfc3339 : Text → Time

module _ (parse : Parse) where
  -- `parseQuery`
  unfoldable pub parse_query : Request → Query
  parse_query r = record {
    kind = [];
    from =
        if not (is_nil (r.get (text "from"))) then parse.parse_rfc3339 (r.get (text "from")) else 0;
    to = if not (is_nil (r.get (text "to"))) then parse.parse_rfc3339 (r.get (text "to")) else 0;
    levels = split_csv (r.get (text "level"));
    services = split_csv (r.get (text "service"));
    hosts = split_csv (r.get (text "host"));
    trace_id = r.get (text "trace_id");
    keyword = r.get (text "keyword");
    offset = parse.atoi (r.get (text "offset"));
    limit = parse.atoi (r.get (text "limit"));
  }

  abbrev pub or_log : Text → Text
  or_log kind = if is_nil kind then kind_log else kind

  answer_page : Error ⊎ Page → Answer
  answer_page (inl e) = http_error 500 e
  answer_page (inr p) = page_json p

  -- `queryKind`, where the server may have no output that can be queried
  unfoldable pub query_kind : Option (Query → Error ⊎ Page) → Request → Text → Answer
  unfolding answer_page
  query_kind none r kind = http_error 503 (text "queryable output not configured")
  query_kind (some run) r kind =
      let q = parse_query r in
      let q' = if not (is_nil kind) then record q { kind = kind } else q in
      answer_page (run (if is_nil q'.kind then record q' { kind = kind_log } else q'))

  abbrev pub handle_query : Option (Query → Error ⊎ Page) → Request → Answer
  handle_query run r = query_kind run r (r.get (text "kind"))

  abbrev pub handle_metrics : Option (Query → Error ⊎ Page) → Request → Answer
  handle_metrics run r = query_kind run r kind_metric

  abbrev pub handle_probes : Option (Query → Error ⊎ Page) → Request → Answer
  handle_probes run r = query_kind run r kind_probe

  abbrev pub handle_configs : Option (Query → Error ⊎ Page) → Request → Answer
  handle_configs run r = query_kind run r kind_config

-- `handleArchives`
unfoldable pub handle_archives : Option (Error ⊎ List ArchiveInfo) → Answer
handle_archives none = archives_json []
handle_archives (some (inl e)) = http_error 500 e
handle_archives (some (inr list)) = archives_json list

-- The filter of `handleTail`
unfoldable pub tail_filter : Request → Filter
tail_filter r = record {
  kind = r.get (text "kind");
  levels = split_csv (r.get (text "level"));
  services = split_csv (r.get (text "service"));
  hosts = split_csv (r.get (text "host"));
  keyword = r.get (text "keyword");
}

-- A `contract.Restorer` over the state of the output.
abbrev pub Restorer : Type 0 → Type 0
Restorer D = Text → RestoreOptions → D → Option Error × D

answer_restore : {D : Type 0} → Option Error × D → Answer × D
answer_restore (some e, d) = (http_error 500 e, d)
answer_restore (none, d) = (ok_json, d)

restore_id : {D : Type 0} → Restorer D → Option (Text × Bool) → D → Answer × D
unfolding answer_restore
restore_id restore none d = (http_error 400 (text "id required"), d)
restore_id restore (some (id, overwrite)) d =
    if is_nil id
    then (http_error 400 (text "id required"), d)
    else answer_restore
        (restore id (record { to_hot = true; read_only = false; overwrite = overwrite }) d)

with_restorer : {D : Type 0} → Option (Restorer D) → Option (Text × Bool) → D → Answer × D
unfolding restore_id
with_restorer none body d = (http_error 503 (text "restore not supported"), d)
with_restorer (some restore) body d = restore_id restore body d

-- `handleRestore`
unfoldable pub handle_restore : {D : Type 0} → Option (Restorer D) → Request → D → Answer × D
unfolding with_restorer
handle_restore restorer r d =
    if not (text_eq r.method (text "POST"))
    then (http_error 405 (text "method not allowed"), d)
    else with_restorer restorer r.restore_body d
