-- ===== src/Store/Segments/Appends.antt =====
-- `Write` adds each signal's line to the file of its kind and day.
use opslog.Prelude.{
  ◌≡◌, ◌≢◌, refl, ◌⊎◌, inr, Bool, false, text, contains, ◌&&◌, none, List, [], ◌∷◌, ◌++◌,
  append_assoc, Text, Error, text_eq, lookup,
}
use opslog.Framer.{Bytes}
use opslog.Signal.{Time}
use opslog.Store.Lines.{lines_of}
use opslog.Store.Segments.{
  Disk, Env, Stamped, written_kind, folder, put_file, content_of, kind_of, name_of,
}

lines_of-append : (xs ys : List Bytes) → lines_of (xs ++ ys) ≡ lines_of xs ++ lines_of ys
lines_of-append [] ys = refl
lines_of-append (x ∷ xs) ys =
    rw (lines_of-append xs ys, append_assoc x (10 ∷ lines_of xs) (lines_of ys)) refl

-- A kind that is the name of one folder.
abbrev pub IsFolderName : Text → Type 0
IsFolderName kind = (contains kind (text "/") ≡ false) × (kind ≢ text ".") × (kind ≢ text "..")

module _ (env : Env) (encode : Stamped → Error ⊎ Bytes) (line : Stamped → Bytes) (now : Time) where
  open env use {open_error, append_file}

  -- No error of the disk or the codec: a file opens, and an append adds the bytes at the end.
  pub record Succeeds : Type 0 where
    pub opens : (kind name : Text) → open_error kind name ≡ none
    pub appends : (old data_ : Bytes) → append_file old data_ ≡ (old ++ data_, none)
    pub encodes : (e : Stamped) → encode e ≡ inr (line e)

  -- Whether a signal's file is the one of a kind and a name.
  abbrev pub goes_to : Text → Text → Stamped → Bool
  goes_to kind name e = text_eq (kind_of env e) kind && text_eq (name_of env now e) name

  -- The bytes of a file, none if it is not there.
  abbrev pub bytes_at : Text → Text → Disk → Bytes
  bytes_at kind name disk = content_of (lookup name (folder kind disk.hot))

  -- The disk after the append of one line.
  abbrev added : Stamped → Disk → Disk
  added e disk = record disk {
    hot =
        put_file (kind_of env e) (name_of env now e)
          (bytes_at (kind_of env e) (name_of env now e) disk ++ (line e ++ 10 ∷ [])) disk.hot;
  }

  -- Whether a signal is of a kind and goes to the file of a name, by its day.
  abbrev pub is_of : Text → Text → Stamped → Bool
  is_of kind name e = text_eq (written_kind e) kind && text_eq (name_of env now e) name
