-- ===== src/Tests/Storage.antt =====
-- Queries, archives and restores of a small store.
use opslog.Prelude.{
  ◌≤◌, ◌≡◌, refl, ◌↔◌, ◌⊎◌, inr, true, ◌&&◌, none, some, List, [], ◌∷◌, ◌++◌, map, arith,
  if◌then◌else◌, length, drop, select, replicate, flatten, Text, Error, text, text_eq, has_prefix,
  has_suffix, ascii, lookup,
}
use opslog.Framer.{Bytes}
use opslog.Signal.{Event, empty_event}
use opslog.Live.Match.{Allows, Mentions}
use opslog.Store.{Query, match_query, Entry, entries, page_of, query}
use opslog.Store.Lines.{IsLine, drop_cr}
use opslog.Store.Matching.{match_query_iff}
use opslog.Store.Pages.{segment, query_written}
use opslog.Store.Segments.{Disk, Env, Stamped, segment_ext, folder}
use opslog.Store.Archive.{segment_info, archive_id, gz_name, archive_segment, restore}
use opslog.Store.Archive.Laws.{later_archive_replaces, archive_then_restore, to_hot_only}

abbrev hello : Bytes
hello = 104 ∷ 105 ∷ []

-- A codec of which only the message is read back.
abbrev encode : Event → Bytes
encode e = e.message

abbrev decode : Bytes → Error ⊎ Event
decode b = inr (record empty_event { message = b })

abbrev read_back : Event → Event
read_back e = record empty_event { message = e.message }

abbrev greeting : Event
greeting = record empty_event { message = hello; time = 5; kind = text "log" }

abbrev any_hello : Query
any_hello = record {
  kind = [];
  from = 0;
  to = 9;
  levels = [];
  services = [];
  hosts = [];
  trace_id = [];
  keyword = text "HI";
  offset = 0;
  limit = 1;
}

hello-IsLine : IsLine hello
hello-IsLine = record {
  no_newline = omega arith;
  no_cr = unfold drop_cr in refl;
  fits = omega arith;
}

match_query_iff_example : (match_query ascii any_hello greeting ≡ true) ↔ (
    ((any_hello.from ≡ 0) ⊎ (any_hello.from ≤ greeting.time))
    × ((any_hello.to ≡ 0) ⊎ (greeting.time ≤ any_hello.to))
    × Allows any_hello.levels greeting.level
    × Allows any_hello.services greeting.service
    × Allows any_hello.hosts greeting.host
    × ((any_hello.trace_id ≡ []) ⊎ (greeting.trace_id ≡ any_hello.trace_id))
    × Mentions ascii any_hello.keyword greeting.message)
match_query_iff_example = match_query_iff ascii any_hello greeting

abbrev three : List Event
three = greeting ∷ empty_event ∷ greeting ∷ []

-- One segment, and a folder beside it.
abbrev files : List (Text × List Event)
files = (text "d.ndjson", greeting ∷ greeting ∷ []) ∷ []

abbrev listed : List Entry
listed =
    record { name = text "old"; is_dir = true; content = none }
    ∷ segment ascii decode encode read_back (text "d.ndjson", greeting ∷ greeting ∷ [])
    ∷ []

query_written_example :
    query ascii decode (λ k. entries listed) (λ l. l) (λ l. l) any_hello
    ≡ inr (
        page_of ascii decode any_hello
          (select (match_query ascii any_hello) (map read_back (flatten (map (λ f. f.1) files)))))
unfolding has_suffix has_prefix
query_written_example =
    query_written ascii decode encode read_back (λ k. entries listed) (λ l. l) (λ l. l) any_hello
      listed files refl refl (((hello-IsLine, refl), ((hello-IsLine, refl), tt)), tt)

-- A disk that never fails, with days named by their number of `d`s.
abbrev env : Env
env = record {
  format_day = λ t. replicate t 100;
  day_in = λ zone t. replicate t 100;
  local_zone = 0;
  join_kind = λ k. k;
  parse_day = λ s. some (length s);
  compress = λ b. (0 ∷ b, none);
  expand = λ z. inr (drop 1 z, none);
  put_info = λ i. i.id;
  get_info = λ b. inr (segment_info 9 (text "log") (100 ∷ 100 ∷ []) 2);
  open_error = λ k n. none;
  append_file = λ old new. (old ++ new, none);
  write_file = λ b. some b;
  removes = λ k n. true;
}

abbrev empty_disk : Disk
empty_disk = record { hot = []; restored = []; archive = [] }

archive_then_restore_example :
    let archived =
      archive_segment env 9 5 (text "log") ((100 ∷ 100 ∷ []) ++ segment_ext, hello) empty_disk in
    let restored =
      restore env (archive_id (text "log") (100 ∷ 100 ∷ [])) (to_hot_only env) archived.1 in
    (archived.0 ≡ none)
    × (lookup ((100 ∷ 100 ∷ []) ++ segment_ext) (folder (text "log") archived.1.hot) ≡ none)
    × (restored.0 ≡ none)
    × ((k n : Text)
        → lookup n (folder k restored.1.hot) ≡ (
            if text_eq (text "log") k && text_eq ((100 ∷ 100 ∷ []) ++ segment_ext) n
            then some hello
            else lookup n (folder k empty_disk.hot)))
unfolding replicate
archive_then_restore_example =
    archive_then_restore env 9 5 2 (text "log") (100 ∷ 100 ∷ []) hello (0 ∷ hello) empty_disk refl
      (omega arith)
      (record {
        parsed = refl;
        printed = refl;
        zipped = refl;
        described = refl;
        removed = refl;
        expanded = refl;
        decoded = refl;
      })

abbrev stamped : Stamped
stamped = record { event = greeting; zone = 1 }

abbrev encode_stamped : Stamped → Error ⊎ Bytes
encode_stamped e = inr (encode e.event)

later_archive_replaces_example :
    let once =
      archive_segment env 9 5 (text "log") ((100 ∷ 100 ∷ []) ++ segment_ext, hello) empty_disk in
    let twice =
      archive_segment env 9 5 (text "log") ((100 ∷ 100 ∷ []) ++ segment_ext, 33 ∷ []) once.1 in
    (once.0 ≡ none)
    × (twice.0 ≡ none)
    × (lookup (gz_name (archive_id (text "log") (100 ∷ 100 ∷ []))) once.1.archive
        ≡ some (0 ∷ hello))
    × (lookup (gz_name (archive_id (text "log") (100 ∷ 100 ∷ []))) twice.1.archive
        ≡ some (0 ∷ 33 ∷ []))
later_archive_replaces_example =
    later_archive_replaces env 9 9 5 2 (text "log") (100 ∷ 100 ∷ []) hello (0 ∷ hello) (33 ∷ [])
      (0 ∷ 33 ∷ []) empty_disk refl (omega arith) refl refl
