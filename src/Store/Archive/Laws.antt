-- ===== src/Store/Archive/Laws.antt =====
-- Archiving and restoring one segment.
use opslog.Prelude.{
  ◌-◌, ◌<◌, ◌≡◌, Option, Bool, refl, ap, ◌∙◌, inr, true, false, ◌&&◌, none, some, [], ◌∷◌, ◌++◌,
  arith, ltb, if◌then◌else◌, length, take, is_nil, length-append, take-append, Text, text, text_eq,
  text_eq_refl, has_suffix, has_prefix-append, Dict, lookup, insert, lookup-insert,
  lookup-insert_self,
}
use mathlib.Core.List.{reverse, reverse-append}
use opslog.Framer.{Bytes}
use opslog.Signal.{Time}
use opslog.Store.Segments.{
  put_written, remove_if, Disk, RestoreOptions, Env, segment_ext, folder, put_file,
}
use opslog.Store.Archive.{
  day_of_name, archive_id, segment_info, gz_name, meta_name, archive_zipped, archive_old,
  archive_dated, archive_segment, expand_to, restore_info, restore_meta, restore,
}
use opslog.Store.Segments.Files.{lookup-put_file, lookup-remove_file}

has_suffix-append : (s t : Text) → has_suffix (s ++ t) t ≡ true
unfolding has_suffix
has_suffix-append s t = rw (reverse-append s t) (has_prefix-append (reverse t) (reverse s))

day_of_name-append : (day : Text) → day_of_name (day ++ segment_ext) ≡ day
day_of_name-append day =
    let e : length (day ++ segment_ext) - length segment_ext ≡ length day =
      omega (arith, length-append day segment_ext) in
    ap (λ n. take n (day ++ segment_ext)) e ∙ take-append day segment_ext

text_eq-append : (s a b : Text) → text_eq (s ++ a) (s ++ b) ≡ text_eq a b
unfolding text_eq
text_eq-append [] a b = refl
text_eq-append (c ∷ s) a b = ground (arith, text_eq-append s a b)

other_name : (id : Text) → text_eq (meta_name id) (gz_name id) ≡ false
other_name id = text_eq-append id (text ".meta.json") (text ".ndjson.gz") ∙ (unfold text_eq in refl)

module _ (env : Env) where
  open env use {format_day, parse_day, compress, expand, put_info, get_info, write_file, removes}

  archive_old_lem :
      (now t : Time) (kind name day : Text) (content z : Bytes) (disk : Disk)
      → compress content ≡ (z, none)
      → archive_old env now kind name day t content disk ≡ (
        none,
        record disk {
          archive =
              put_written
                (meta_name (archive_id kind day))
                (write_file (put_info (segment_info now kind day t)))
                (insert (gz_name (archive_id kind day)) z disk.archive);
          hot = remove_if (removes kind name) kind name disk.hot;
        },
      )
  unfolding archive_old archive_zipped
  archive_old_lem now t kind name day content z disk zipped =
      ap (λ r. archive_zipped env now kind name day t r disk) zipped

  gz_there :
      (o : Option Bytes) (kind day : Text) (z : Bytes) (files : Dict Bytes)
      → lookup (gz_name (archive_id kind day)) (
          put_written
            (meta_name (archive_id kind day))
            o
            (insert (gz_name (archive_id kind day)) z files))
        ≡ some z
  gz_there none kind day z files = lookup-insert_self _ _ _
  gz_there (some info) kind day z files =
      lookup-insert _ _ _ _ ∙ rw (other_name (archive_id kind day)) (lookup-insert_self _ _ _)

  -- What `Archive` leaves of a segment that is old enough.
  archive_segment_old :
      (now before t : Time) (kind day : Text) (content z : Bytes) (disk : Disk)
      → parse_day day ≡ some t
      → ltb t before ≡ true
      → compress content ≡ (z, none)
      → archive_segment env now before kind (day ++ segment_ext, content) disk ≡ (
        none,
        record disk {
          archive =
              put_written
                (meta_name (archive_id kind day))
                (write_file (put_info (segment_info now kind day t)))
                (insert (gz_name (archive_id kind day)) z disk.archive);
          hot = remove_if (removes kind (day ++ segment_ext)) kind (day ++ segment_ext) disk.hot;
        },
      )
  unfolding archive_segment archive_dated
  archive_segment_old now before t kind day content z disk dated old zipped =
      rw (has_suffix-append day segment_ext, day_of_name-append day)
        (rw (dated, archive_dated)
          (rw old (
            rw (day_of_name-append day)
              (archive_old_lem now t kind (day ++ segment_ext) day content z disk zipped))))

  -- The time of a segment and what gzip and JSON wrote read back, the description is written, and the
  -- segment is removed.
  pub record ReadsBack (now t : Time) (kind day : Text) (content z : Bytes) : Type 0 where
    pub parsed : parse_day day ≡ some t
    pub printed : format_day t ≡ day
    pub zipped : compress content ≡ (z, none)
    pub described :
        write_file (put_info (segment_info now kind day t))
        ≡ some (put_info (segment_info now kind day t))
    pub removed : removes kind (day ++ segment_ext) ≡ true
    pub expanded : expand z ≡ inr (content, none)
    pub decoded :
        get_info (put_info (segment_info now kind day t)) ≡ inr (segment_info now kind day t)

  abbrev pub to_hot_only : RestoreOptions
  to_hot_only = record { to_hot = true; read_only = false; overwrite = false }

  -- Restoring from an archive that has the two files of an id, to a name that is free.
  restore_archived :
      (now t : Time) (kind day : Text) (content z : Bytes) (disk : Disk)
      → is_nil kind ≡ false
      → ReadsBack now t kind day content z
      → lookup (meta_name (archive_id kind day)) disk.archive
        ≡ some (put_info (segment_info now kind day t))
      → lookup (gz_name (archive_id kind day)) disk.archive ≡ some z
      → lookup (day ++ segment_ext) (folder kind disk.hot) ≡ none
      → restore env (archive_id kind day) to_hot_only disk
        ≡ (none, record disk { hot = put_file kind (day ++ segment_ext) content disk.hot })
  unfolding restore restore_meta restore_info expand_to
  restore_archived now t kind day content z disk has_kind h meta zipped free =
      rw (meta, restore_meta)
        (rw (h.decoded, restore_info)
          (rw (has_kind, h.printed)
            (rw (free, zipped, expand_to) (rw h.expanded (rw (has_kind, h.printed) refl)))))

  -- An archived segment can be restored, where what is written reads back, the description of the
  -- archive is written and the segment is removed, whose errors the code drops: a segment whose day is
  -- before the date is archived without an error and leaves the hot folder; restoring its id to the hot folder, even without leave to
  -- overwrite, then succeeds and brings back its content, and every other hot file is as it was.
  pub archive_then_restore :
      (now before t : Time) (kind day : Text) (content z : Bytes) (disk : Disk)
      → is_nil kind ≡ false
      → t < before
      → ReadsBack now t kind day content z
      → let archived = archive_segment env now before kind (day ++ segment_ext, content) disk in
        let restored = restore env (archive_id kind day) to_hot_only archived.1 in
        (archived.0 ≡ none)
        × (lookup (day ++ segment_ext) (folder kind archived.1.hot) ≡ none)
        × (restored.0 ≡ none)
        × ((k n : Text)
            → lookup n (folder k restored.1.hot) ≡ (
                if text_eq kind k && text_eq (day ++ segment_ext) n
                then some content
                else lookup n (folder k disk.hot)))
  archive_then_restore now before t kind day content z disk has_kind old h =
      let name : Text = day ++ segment_ext in
      let left_by : Option Bytes → Bool → Disk = λ o b. record disk {
        archive =
            put_written (meta_name (archive_id kind day)) o
              (insert (gz_name (archive_id kind day)) z disk.archive);
        hot = remove_if b kind name disk.hot;
      } in
      let left : Disk = left_by (some (put_info (segment_info now kind day t))) true in
      let gone : lookup name (folder kind left.hot) ≡ none =
        lookup-remove_file kind name disk.hot kind name
        ∙ rw (text_eq_refl kind, text_eq_refl name) refl in
      rw
        (
          archive_segment_old now before t kind day content z disk h.parsed (ground arith) h.zipped
              ∙ ap (λ (o : Option Bytes). (none, left_by o (removes kind name))) h.described
              ∙ ap (λ b. (none, left_by (some (put_info (segment_info now kind day t))) b))
                  h.removed,
          restore_archived now t kind day content z left has_kind h (lookup-insert_self _ _ _)
              (gz_there (some (put_info (segment_info now kind day t))) kind day z disk.archive)
              gone,
        )
        (
          refl,
          gone,
          refl,
          λ k n.
              lookup-put_file kind name content left.hot k n
              ∙ ground (arith, lookup-remove_file kind name disk.hot k n),
        )

  -- Archiving a day's segment when that day is already archived succeeds, and the archive then holds
  -- the later content alone.
  pub later_archive_replaces :
      (now later before t : Time) (kind day : Text) (content z content' z' : Bytes) (disk : Disk)
      → parse_day day ≡ some t
      → t < before
      → compress content ≡ (z, none)
      → compress content' ≡ (z', none)
      → let once = archive_segment env now before kind (day ++ segment_ext, content) disk in
        let twice = archive_segment env later before kind (day ++ segment_ext, content') once.1 in
        (once.0 ≡ none)
        × (twice.0 ≡ none)
        × (lookup (gz_name (archive_id kind day)) once.1.archive ≡ some z)
        × (lookup (gz_name (archive_id kind day)) twice.1.archive ≡ some z')
  later_archive_replaces now later before t kind day content z content' z' disk dated old zipped
        zipped' =
      let first =
        archive_segment_old now before t kind day content z disk dated (ground arith) zipped in
      rw first (
        rw (archive_segment_old later before t kind day content' z' _ dated (ground arith) zipped')
          (refl, refl, gz_there _ kind day z disk.archive, gz_there _ kind day z' _))
