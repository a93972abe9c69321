-- ===== src/Store/Handles.antt =====
-- server/internal/output/filesystem/filesystem.go: the open files that `Write` keeps, and what
-- `Archive` does to them.
use opslog.Prelude.{
  ℕ, ◌+◌, ◌≡◌, refl, ap, ◌∙◌, true, Option, none, some, [], ◌++◌, ◌==◌, if◌then◌else◌, ==_iff, Text,
  text_eq_refl, Dict, lookup, insert, without, lookup-without, lookup-insert_self,
}
use opslog.Framer.{Bytes}

-- The paths of the folder with the files that they name, the bytes of the files by number, the next
-- number, and `files`: the open file of a path. Nothing fails here.
record Files : Type 0 where
  names : Dict ℕ
  content : ℕ → Bytes
  next : ℕ
  files : Dict ℕ

-- os.OpenFile with O_CREATE and O_APPEND: the file of a path, a new one where it has none.
unfoldable open_file : Option ℕ → Text → Files → ℕ × Files
open_file (some n) path s = (n, record s { files = insert path n s.files })
open_file none path s = (
  s.next,
  record {
    names = insert path s.next s.names;
    content = λ k. if k == s.next then [] else s.content k;
    next = s.next + 1;
    files = insert path s.next s.files;
  },
)

unfoldable open_unless : Option ℕ → Text → Files → ℕ × Files
open_unless (some n) path s = (n, s)
open_unless none path s = open_file (lookup path s.names) path s

-- `openLocked`
unfoldable open_locked : Text → Files → ℕ × Files
open_locked path s = open_unless (lookup path s.files) path s

unfoldable append_to : Bytes → ℕ × Files → Files
append_to line (n, s) = record s {
  content = λ k. if k == n then s.content n ++ line else s.content k;
}

-- A round of `Write`: one line into the file of its segment.
unfoldable write_line : Text → Bytes → Files → Files
write_line path line s = append_to line (open_locked path s)

-- The loop at the head of `Archive`, and that of `Close`
unfoldable close_files : Files → Files
close_files s = record s { files = [] }

-- `os.Remove(src)`; an open file keeps its bytes without a name.
unfoldable remove : Text → Files → Files
remove path s = record s { names = without path s.names }

-- What is found under a path.
abbrev content_at : Option ℕ → Files → Bytes
content_at none s = []
content_at (some n) s = s.content n

unfoldable read : Text → Files → Bytes
read path s = content_at (lookup path s.names) s

open_file-names :
    (o : Option ℕ) (path : Text) (s : Files)
    → lookup path s.names ≡ o
    → (lookup path (open_file o path s).1.names ≡ some (open_file o path s).0)
      × (lookup path (open_file o path s).1.files ≡ some (open_file o path s).0)
unfolding open_file
open_file-names (some n) path s e = (e, lookup-insert_self path n s.files)
open_file-names none path s e =
    (lookup-insert_self path s.next s.names, lookup-insert_self path s.next s.files)

-- After a round of `Write` the path has an open file.
open_unless-files :
    (o : Option ℕ) (path : Text) (s : Files)
    → lookup path s.files ≡ o
    → lookup path (open_unless o path s).1.files ≡ some (open_unless o path s).0
unfolding open_unless
open_unless-files (some n) path s e = e
open_unless-files none path s e = (open_file-names (lookup path s.names) path s refl).1

written_open :
    (path : Text) (line : Bytes) (s : Files)
    → (n : ℕ) × (lookup path (write_line path line s).files ≡ some n)
unfolding write_line append_to open_locked
written_open path line s =
    ((open_locked path s).0, open_unless-files (lookup path s.files) path s refl)

unless_open :
    (o : Option ℕ) (n : ℕ) (path : Text) (line : Bytes) (s : Files)
    → o ≡ some n
    → (append_to line (open_unless o path s)).names ≡ s.names
unfolding append_to open_unless
unless_open none n path line s e = cc
unless_open (some k) n path line s e = refl

lost :
    (path : Text) (line : Bytes) (s : Files) (n : ℕ)
    → lookup path s.files ≡ some n
    → lookup path s.names ≡ none
    → read path (write_line path line s) ≡ []
unfolding read write_line open_locked
lost path line s n open_ gone =
    ap (λ names. content_at (lookup path names) (write_line path line s))
      (unless_open (lookup path s.files) n path line s open_)
    ∙ ap (λ o. content_at o (write_line path line s)) gone

text_removed : (path : Text) (m : Dict ℕ) → lookup path (without path m) ≡ none
text_removed path m = simp (lookup-without, text_eq_refl)

-- If a line of a segment is written after `Archive` has closed the open files and before it removes
-- the segment, the output keeps the removed file open: nothing of what is written to the segment
-- later is found under its path.
write_during_archive :
    (path : Text) (line later : Bytes) (s : Files)
    → read path (write_line path later (remove path (write_line path line (close_files s)))) ≡ []
unfolding remove
write_during_archive path line later s =
    let (n, e) = written_open path line (close_files s) in
    lost path later (remove path (write_line path line (close_files s))) n e
      (text_removed path (write_line path line (close_files s)).names)

opened_fresh :
    (path : Text) (line : Bytes) (s : Files)
    → lookup path s.files ≡ none
    → lookup path s.names ≡ none
    → write_line path line s ≡ append_to line (open_file none path s)
unfolding write_line open_locked open_unless
opened_fresh path line s f n =
    ap (λ o. append_to line (open_unless o path s)) f
    ∙ ap (λ o. append_to line (open_file o path s)) n

same_number : (k : ℕ) → (k == k) ≡ true
same_number k = (==_iff k k).1 refl

fresh_content :
    (path : Text) (line : Bytes) (s : Files)
    → (append_to line (open_file none path s)).content s.next ≡ line
unfolding append_to open_file
fresh_content path line s = simp (same_number)

fresh_names :
    (path : Text) (line : Bytes) (s : Files)
    → lookup path (append_to line (open_file none path s)).names ≡ some s.next
unfolding append_to open_file
fresh_names path line s = lookup-insert_self path s.next s.names

fresh_line :
    (path : Text) (line : Bytes) (s : Files)
    → lookup path s.files ≡ none
    → lookup path s.names ≡ none
    → read path (write_line path line s) ≡ line
unfolding read
fresh_line path line s f n =
    ap (read path) (opened_fresh path line s f n)
    ∙ ap (λ o. content_at o (append_to line (open_file none path s))) (fresh_names path line s)
    ∙ fresh_content path line s

-- Without such a write, a line that is written after the archiving is found, in a new file.
write_after_archive :
    (path : Text) (later : Bytes) (s : Files)
    → read path (write_line path later (remove path (close_files s))) ≡ later
unfolding remove close_files lookup
write_after_archive path later s =
    fresh_line path later (remove path (close_files s)) refl (text_removed path s.names)
