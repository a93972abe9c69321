-- ===== src/Store.antt =====
-- server/internal/output/filesystem/filesystem.go: signals in files of lines, by kind and day, which
-- are queried, archived and restored.
pub mod Lines
pub mod Matching
pub mod Pages
pub mod Segments
pub mod Handles
pub mod Archive
use opslog.Prelude.{
  ℕ, zero, suc, ◌+◌, ◌-◌, ◌*◌, ◌/◌, ◌%◌, ◌^◌, ◌≤◌, ◌<◌, ◌≡◌, refl, sym, ap, ◌∙◌, ◌≢◌, ◌↔◌, ◌⊎◌, inl,
  inr, Bool, true, false, not, ◌&&◌, ◌||◌, Option, none, some, List, [], ◌∷◌, ◌++◌, map,
  append_assoc, append-nil, arith, ltb, leb, ◌==◌, if◌then◌else◌, ltb→lt, leb→le, ==_iff,
  Bool-cases, Option-cases, length, take, drop, is_nil, select, replicate, any, flatten,
  flatten_snoc, length-replicate, length-append, take-append-drop, length-take, length-drop,
  take-append, drop-append, select-append, append_snoc, All, All-append, All-drop, All-take, Text,
  Error, text, text_eq, text_eq_refl, text_eq_sound, text_eq_iff, has_prefix, contains, has_suffix,
  is_space, trim_left, trim_right, trim_space, utf8_len, has_prefix_sound, has_prefix-append,
  HasPart, contains_sound, contains_complete, CaseMap, ascii_lower, ascii_upper, IsAscii, to_lower,
  to_upper, to_lower_ascii, to_upper_ascii, to_lower_idem, ascii, Dict, lookup, insert, without,
  lookup-insert, lookup-without, lookup-insert_self, lookup-append,
}
use opslog.Framer.{Bytes}
use opslog.Signal.{Time, is_zero_time, Event, kind_log}
use opslog.Live.Match.{excludes, misses}
use opslog.Store.Lines.{scan_lines}

-- `query.Query`, less AttrMatch, which no output reads. 0 stands for a limit or an offset that is
-- not positive.
pub record Query : Type 0 where
  pub kind : Text
  pub from : Time
  pub to : Time
  pub levels : List Text
  pub services : List Text
  pub hosts : List Text
  pub trace_id : Text
  pub keyword : Text
  pub offset : ℕ
  pub limit : ℕ

-- `query.Page`
pub record Page : Type 0 where
  pub total : ℕ
  pub items : List Event
  pub has_more : Bool

-- `matchQuery`; its `in` has the text of the hub's `contains`
unfoldable pub match_query : CaseMap → Query → Event → Bool
match_query u q ev =
    if not (is_zero_time q.from) && ltb ev.time q.from
    then false
    else if not (is_zero_time q.to) && ltb q.to ev.time
    then false
    else if excludes q.levels ev.level
    then false
    else if excludes q.services ev.service
    then false
    else if excludes q.hosts ev.host
    then false
    else if not (is_nil q.trace_id) && not (text_eq ev.trace_id q.trace_id)
    then false
    else if misses u q.keyword ev.message
    then false
    else true

-- An entry of a directory: a folder, or a file with what opening and reading it yields.
pub record Entry : Type 0 where
  pub name : Text
  pub is_dir : Bool
  pub content : Option Bytes

-- What os.ReadDir returns.
pub data Listing : Type 0 where
  missing : Listing
  unreadable : Error → Listing
  entries : List Entry → Listing

-- `e.IsDir() || !strings.HasSuffix(e.Name(), ".ndjson")` is not so
abbrev pub is_segment : Entry → Bool
is_segment e = not e.is_dir && has_suffix e.name (text ".ndjson")

module _ (u : CaseMap) (decode : Bytes → Error ⊎ Event) where
  add_matching : Query → Error ⊎ Event → List Event → List Event
  add_matching q (inl e) rest = rest
  add_matching q (inr ev) rest = if match_query u q ev then ev ∷ rest else rest

  -- The loop over the lines of a file; a line that does not decode is left out.
  pub matching_lines : Query → List Bytes → List Event
  unfolding add_matching
  matching_lines q [] = []
  matching_lines q (line ∷ lines) = add_matching q (decode line) (matching_lines q lines)

  content_lines : Option Bytes → List Bytes
  content_lines none = []
  content_lines (some b) = scan_lines b

  -- The loop over the paths; a file that does not open is left out.
  pub collect_items : Query → List Entry → List Event
  unfolding content_lines
  collect_items q [] = []
  collect_items q (e ∷ es) = matching_lines q (content_lines e.content) ++ collect_items q es

  -- `items = items[q.Offset:]`, or nil from the end on
  pub skip_offset : ℕ → List Event → List Event
  skip_offset offset items =
      if ltb 0 offset && ltb offset (length items)
      then drop offset items
      else if leb (length items) offset
      then []
      else items

  abbrev pub limit_of : Query → ℕ
  limit_of q = if q.limit == 0 then 100 else q.limit

  -- The end of `Query`, on the items in order.
  unfoldable pub page_of : Query → List Event → Page
  unfolding skip_offset
  page_of q items =
      let rest = skip_offset q.offset items in
      let more = ltb (limit_of q) (length rest) in
      record {
        total = length items;
        items = if more then take (limit_of q) rest else rest;
        has_more = more;
      }

  abbrev pub empty_page : Page
  empty_page = record { total = 0; items = []; has_more = false }

  abbrev pub query_kind : Query → Text
  query_kind q = if is_nil q.kind then kind_log else q.kind

  -- `Output.Query`: `read_dir` is the folder of a kind, and the two sorts are Go's, which are not
  -- stable, by falling name and by falling time.
  query_listing :
      (List Entry → List Entry) → (List Event → List Event) → Query → Listing → Error ⊎ Page
  unfolding page_of collect_items
  query_listing sort_names sort_items q missing = inr empty_page
  query_listing sort_names sort_items q (unreadable e) = inl e
  query_listing sort_names sort_items q (entries es) =
      inr (page_of q (sort_items (collect_items q (sort_names (select is_segment es)))))

  unfoldable pub query :
      (Text → Listing)
      → (List Entry → List Entry)
      → (List Event → List Event)
      → Query
      → Error ⊎ Page
  unfolding query_listing
  query read_dir sort_names sort_items q =
      query_listing sort_names sort_items q (read_dir (query_kind q))
