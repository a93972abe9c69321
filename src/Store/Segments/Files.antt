-- ===== src/Store/Segments/Files.antt =====
-- Reading the files of a folder after one is put or removed.
use opslog.Prelude.{
  ◌≡◌, ◌&&◌, none, some, arith, if◌then◌else◌, Text, text_eq, text_eq_iff, Dict, lookup, insert,
  without, lookup-insert, lookup-without,
}
use opslog.Framer.{Bytes}
use opslog.Store.Segments.{folder, put_file, remove_file}

pub lookup-put_file :
    (kind name : Text) (c : Bytes) (m : Dict (Dict Bytes)) (k n : Text)
    → lookup n (folder k (put_file kind name c m))
      ≡ (if text_eq kind k && text_eq name n then some c else lookup n (folder k m))
lookup-put_file kind name c m k n = ground (
  arith,
  lookup-insert kind k (insert name c (folder kind m)) m,
  lookup-insert name n c (folder kind m),
  text_eq_iff kind k,
)

pub lookup-remove_file :
    (kind name : Text) (m : Dict (Dict Bytes)) (k n : Text)
    → lookup n (folder k (remove_file kind name m))
      ≡ (if text_eq kind k && text_eq name n then none else lookup n (folder k m))
lookup-remove_file kind name m k n = ground (
  arith,
  lookup-insert kind k (without name (folder kind m)) m,
  lookup-without name n (folder kind m),
  text_eq_iff kind k,
)
