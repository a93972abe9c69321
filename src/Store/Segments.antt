-- ===== src/Store/Segments.antt =====
-- The folders of the file system output, and `Write`.
pub mod Files
pub mod Appends
use opslog.Prelude.{
  ℕ, zero, suc, ◌+◌, ◌-◌, ◌*◌, ◌/◌, ◌%◌, ◌^◌, ◌≤◌, ◌<◌, ◌≡◌, refl, sym, ap, ◌∙◌, ◌≢◌, ◌↔◌, ◌⊎◌, inl,
  inr, Bool, true, false, not, ◌&&◌, ◌||◌, Option, none, some, List, [], ◌∷◌, ◌++◌, map,
  append_assoc, append-nil, arith, ltb, leb, ◌==◌, if◌then◌else◌, ltb→lt, leb→le, ==_iff,
  Bool-cases, Option-cases, length, take, drop, is_nil, select, replicate, any, flatten,
  flatten_snoc, length-replicate, length-append, take-append-drop, length-take, length-drop,
  take-append, drop-append, select-append, append_snoc, All, All-append, All-drop, All-take, Text,
  Error, text, text_eq, text_eq_refl, text_eq_sound, text_eq_iff, has_prefix, contains, has_suffix,
  is_space, trim_left, trim_right, trim_space, utf8_len, has_prefix_sound, has_prefix-append,
  HasPart, contains_sound, contains_complete, CaseMap, ascii_lower, ascii_upper, IsAscii, to_lower,
  to_upper, to_lower_ascii, to_upper_ascii, to_lower_idem, ascii, Dict, lookup, insert, without,
  lookup-insert, lookup-without, lookup-insert_self, lookup-append,
}
use opslog.Framer.{Bytes}
use opslog.Signal.{Time, is_zero_time, Event, kind_log}

-- The folders under the root: `hot/<kind>` and `archive/restored/<kind>` by kind and file name, and
-- `archive` by file name. The folders of `hot` are named by their paths from there.
pub record Disk : Type 0 where
  pub hot : Dict (Dict Bytes)
  pub restored : Dict (Dict Bytes)
  pub archive : Dict Bytes

-- `query.ArchiveInfo`, less the file's size and checksum, which nothing reads.
pub record ArchiveInfo : Type 0 where
  pub id : Text
  pub path : Text
  pub kind : Text
  pub from : Time
  pub to : Time
  pub created_at : Time

-- `query.RestoreOptions`
pub record RestoreOptions : Type 0 where
  pub to_hot : Bool
  pub read_only : Bool
  pub overwrite : Bool

-- What the code calls outside the repository: the layout "2006-01-02", gzip over a whole file, the
-- JSON of an ArchiveInfo, and opening a file and appending to it. `compress` is what the new file
-- holds, and the error; `expand` fails at the header, or gives what the new file holds and the
-- error. `write_file` is what os.WriteFile leaves under the name, `none` for nothing, and `removes`
-- whether os.Remove removes a file of `hot`; both errors are dropped. `day_in` is `format_day` for a time in a location, given by its number; `join_kind` is the
-- path from `hot` that filepath.Join makes for a kind, which it cleans: the kind itself where that is
-- the name of one folder, but log for `metric/../log`.
pub record Env : Type 0 where
  pub format_day : Time → Text
  pub day_in : ℕ → Time → Text
  pub local_zone : ℕ
  pub join_kind : Text → Text
  pub parse_day : Text → Option Time
  pub compress : Bytes → Bytes × Option Error
  pub expand : Bytes → Error ⊎ (Bytes × Option Error)
  pub put_info : ArchiveInfo → Bytes
  pub get_info : Bytes → Error ⊎ ArchiveInfo
  pub open_error : Text → Text → Option Error
  pub append_file : Bytes → Bytes → Bytes × Option Error
  pub write_file : Bytes → Option Bytes
  pub removes : Text → Text → Bool

abbrev pub segment_ext : Text
segment_ext = text ".ndjson"

abbrev pub folder : {A : Type 0} → Text → Dict (Dict A) → Dict A
folder k m = elim (lookup k m) [ none ↦ [] | some d ↦ d ]

abbrev pub put_file : Text → Text → Bytes → Dict (Dict Bytes) → Dict (Dict Bytes)
put_file kind name content m = insert kind (insert name content (folder kind m)) m

abbrev pub remove_file : Text → Text → Dict (Dict Bytes) → Dict (Dict Bytes)
remove_file kind name m = insert kind (without name (folder kind m)) m

-- What writing a file leaves of its folder.
abbrev pub put_written : Text → Option Bytes → Dict Bytes → Dict Bytes
put_written name none files = files
put_written name (some b) files = insert name b files

-- What os.Remove leaves of `hot`.
abbrev pub remove_if : Bool → Text → Text → Dict (Dict Bytes) → Dict (Dict Bytes)
remove_if gone kind name m = if gone then remove_file kind name m else m

-- A file that is not there is created, empty.
abbrev pub content_of : Option Bytes → Bytes
content_of none = []
content_of (some b) = b

-- `if err != nil { return err }` between two steps.
unfoldable pub go_on : Option Error × Disk → (Disk → Option Error × Disk) → Option Error × Disk
go_on (some x, disk) next = (some x, disk)
go_on (none, disk) next = next disk

-- A signal of `Write`, with the location of its time, by number.
pub record Stamped : Type 0 where
  pub event : Event
  pub zone : ℕ

-- The kind that `Write` takes a signal for.
abbrev pub written_kind : Stamped → Text
written_kind e = if is_nil e.event.kind then kind_log else e.event.kind

module _ (env : Env) where
  open env use {day_in, local_zone, join_kind, open_error, append_file}

  -- The file that a signal goes to: a folder, and a name by the day in the location of its time, or in
  -- the local one today.
  abbrev pub kind_of : Stamped → Text
  kind_of e = join_kind (written_kind e)

  abbrev pub name_of : Time → Stamped → Text
  name_of now e =
      (if is_zero_time e.event.time then day_in local_zone now else day_in e.zone e.event.time)
      ++ segment_ext

  -- One round of the loop of `Write`, after its file is open and its line encoded.
  pub append_line : Time → Stamped → Bytes → Disk → Option Error × Disk
  append_line now e line disk =
      let file = lookup (name_of now e) (folder (kind_of e) disk.hot) in
      let (content, failed) = append_file (content_of file) (line ++ 10 ∷ []) in
      (failed, record disk { hot = put_file (kind_of e) (name_of now e) content disk.hot })

  pub write_one : Option Error → Error ⊎ Bytes → Time → Stamped → Disk → Option Error × Disk
  unfolding append_line
  write_one (some x) line now e disk = (some x, disk)
  write_one none (inl x) now e disk = (some x, disk)
  write_one none (inr line) now e disk = append_line now e line disk

  -- `Write`: the first error ends it.
  unfoldable pub write_batch :
      (Stamped → Error ⊎ Bytes) → Time → List Stamped → Disk → Option Error × Disk
  unfolding go_on write_one
  write_batch encode now [] disk = (none, disk)
  write_batch encode now (e ∷ batch) disk =
      go_on (write_one (open_error (kind_of e) (name_of now e)) (encode e) now e disk)
        (write_batch encode now batch)
