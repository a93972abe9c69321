-- ===== src/Store/Archive.antt =====
-- `Archive`, `ListArchives`, `Restore` and pruning of the file system output.
pub mod Laws
use opslog.Prelude.{
  ℕ, zero, suc, ◌+◌, ◌-◌, ◌*◌, ◌/◌, ◌%◌, ◌^◌, ◌≤◌, ◌<◌, ◌≡◌, refl, sym, ap, ◌∙◌, ◌≢◌, ◌↔◌, ◌⊎◌, inl,
  inr, Bool, true, false, not, ◌&&◌, ◌||◌, Option, none, some, List, [], ◌∷◌, ◌++◌, map,
  append_assoc, append-nil, arith, ltb, leb, ◌==◌, if◌then◌else◌, ltb→lt, leb→le, ==_iff,
  Bool-cases, Option-cases, length, take, drop, is_nil, select, replicate, any, flatten,
  flatten_snoc, length-replicate, length-append, take-append-drop, length-take, length-drop,
  take-append, drop-append, select-append, append_snoc, All, All-append, All-drop, All-take, Text,
  Error, text, text_eq, text_eq_refl, text_eq_sound, text_eq_iff, has_prefix, contains, has_suffix,
  is_space, trim_left, trim_right, trim_space, utf8_len, has_prefix_sound, has_prefix-append,
  HasPart, contains_sound, contains_complete, CaseMap, ascii_lower, ascii_upper, IsAscii, to_lower,
  to_upper, to_lower_ascii, to_upper_ascii, to_lower_idem, ascii, Dict, lookup, insert, without,
  lookup-insert, lookup-without, lookup-insert_self, lookup-append,
}
use opslog.Framer.{Bytes}
use opslog.Signal.{Time, kind_log, kind_metric, kind_config, kind_probe}
use opslog.Store.Segments.{
  put_written, remove_if, Disk, ArchiveInfo, RestoreOptions, Env, segment_ext, folder, put_file,
  remove_file, go_on,
}

-- strings.TrimSuffix of a name that has the suffix
abbrev pub day_of_name : Text → Text
day_of_name name = take (length name - length segment_ext) name

abbrev pub archive_id : Text → Text → Text
archive_id kind day = kind ++ text "-" ++ day

abbrev pub gz_name : Text → Text
gz_name id = id ++ text ".ndjson.gz"

abbrev pub meta_name : Text → Text
meta_name id = id ++ text ".meta.json"

-- The ArchiveInfo of a segment; its day ends a nanosecond before the next.
abbrev pub segment_info : Time → Text → Text → Time → ArchiveInfo
segment_info now kind day t = record {
  id = archive_id kind day;
  path = gz_name (archive_id kind day);
  kind = kind;
  from = t;
  to = t + 86399999999999;
  created_at = now;
}

module _ (env : Env) where
  open env use {format_day, parse_day, compress, expand, put_info, get_info, write_file, removes}

  archive_zipped :
      Time → Text → Text → Text → Time → Bytes × Option Error → Disk → Option Error × Disk
  archive_zipped now kind name day t (z, some x) disk =
      (some x, record disk { archive = insert (gz_name (archive_id kind day)) z disk.archive })
  archive_zipped now kind name day t (z, none) disk =
      let id = archive_id kind day in
      (
        none,
        record disk {
          archive =
              put_written (meta_name id) (write_file (put_info (segment_info now kind day t)))
                (insert (gz_name id) z disk.archive);
          hot = remove_if (removes kind name) kind name disk.hot;
        },
      )

  -- What `Archive` does with a segment that is old enough.
  pub archive_old : Time → Text → Text → Text → Time → Bytes → Disk → Option Error × Disk
  unfolding archive_zipped
  archive_old now kind name day t content disk =
      archive_zipped now kind name day t (compress content) disk

  archive_dated : Time → Time → Text → Text → Option Time → Bytes → Disk → Option Error × Disk
  unfolding archive_old
  archive_dated now before kind name none content disk = (none, disk)
  archive_dated now before kind name (some t) content disk =
      if ltb t before
      then archive_old now kind name (day_of_name name) t content disk
      else (none, disk)

  -- One file of a kind's folder.
  unfoldable pub archive_segment : Time → Time → Text → Text × Bytes → Disk → Option Error × Disk
  unfolding archive_dated
  archive_segment now before kind (name, content) disk =
      if has_suffix name segment_ext
      then archive_dated now before kind name (parse_day (day_of_name name)) content disk
      else (none, disk)

  archive_files : Time → Time → Text → List (Text × Bytes) → Disk → Option Error × Disk
  unfolding archive_segment go_on
  archive_files now before kind [] disk = (none, disk)
  archive_files now before kind (f ∷ fs) disk =
      go_on (archive_segment now before kind f disk) (archive_files now before kind fs)

  archive_kinds : Time → Time → List Text → Disk → Option Error × Disk
  unfolding archive_files go_on
  archive_kinds now before [] disk = (none, disk)
  archive_kinds now before (k ∷ ks) disk =
      go_on (archive_files now before k (folder k disk.hot) disk) (archive_kinds now before ks)

  info_of : Error ⊎ ArchiveInfo → List ArchiveInfo → List ArchiveInfo
  info_of (inl e) rest = rest
  info_of (inr i) rest = i ∷ rest

  -- `ListArchives`, before it sorts: a file that does not parse is left out.
  unfoldable pub list_archives : Dict Bytes → List ArchiveInfo
  unfolding info_of
  list_archives [] = []
  list_archives ((name, content) ∷ files) =
      let rest = list_archives files in
      if has_suffix name (text ".meta.json") then info_of (get_info content) rest else rest

  prune_each : Time → List ArchiveInfo → Dict Bytes → Dict Bytes
  prune_each cutoff [] files = files
  prune_each cutoff (a ∷ infos) files =
      prune_each cutoff infos
        (if ltb a.from cutoff then without (meta_name a.id) (without a.path files) else files)

  -- `pruneArchives`
  unfoldable pub prune_archives : Time → Disk → Disk
  unfolding prune_each
  prune_archives cutoff disk = record disk {
    archive = prune_each cutoff (list_archives disk.archive) disk.archive;
  }

  -- `Archive`; the cut-off is there if `archive_retain_days` is positive.
  unfoldable pub archive : Time → Time → Option Time → Disk → Option Error × Disk
  unfolding archive_kinds go_on
  archive now before cutoff disk =
      go_on (archive_kinds now before (kind_log ∷ kind_metric ∷ kind_config ∷ kind_probe ∷ []) disk)
        (λ d. elim cutoff [ none ↦ (none, d) | some c ↦ (none, prune_archives c d) ])

  abbrev pub restore_target : RestoreOptions → Disk → Dict (Dict Bytes)
  restore_target opts disk = if not opts.to_hot && opts.read_only then disk.restored else disk.hot

  abbrev pub put_target : RestoreOptions → Text → Text → Bytes → Disk → Disk
  put_target opts kind name content disk =
      if not opts.to_hot && opts.read_only
      then record disk { restored = put_file kind name content disk.restored }
      else record disk { hot = put_file kind name content disk.hot }

  -- `gunzipFile`
  pub expand_to : RestoreOptions → Text → Text → Option Bytes → Disk → Option Error × Disk
  expand_to opts kind name none disk = (some (text "no such file"), disk)
  expand_to opts kind name (some z) disk = elim (expand z) [
    | inl e ↦ (some e, disk)
    | inr r ↦ (r.1, put_target opts kind name r.0 disk)
  ]

  pub restore_info : RestoreOptions → Text → Error ⊎ ArchiveInfo → Disk → Option Error × Disk
  unfolding expand_to
  restore_info opts id (inl e) disk = (some e, disk)
  restore_info opts id (inr info) disk =
      let kind = if is_nil info.kind then kind_log else info.kind in
      let name = format_day info.from ++ segment_ext in
      elim (lookup name (folder kind (restore_target opts disk))) [
        | none ↦ expand_to opts kind name (lookup (gz_name id) disk.archive) disk
        | some _ ↦
            if not opts.overwrite
            then (some (text "restore target exists"), disk)
            else expand_to opts kind name (lookup (gz_name id) disk.archive) disk
      ]

  restore_meta : RestoreOptions → Text → Option Bytes → Disk → Option Error × Disk
  unfolding restore_info
  restore_meta opts id none disk = (some (text "no such file"), disk)
  restore_meta opts id (some b) disk = restore_info opts id (get_info b) disk

  -- `Restore`
  unfoldable pub restore : Text → RestoreOptions → Disk → Option Error × Disk
  unfolding restore_meta
  restore id opts disk = restore_meta opts id (lookup (meta_name id) disk.archive) disk
