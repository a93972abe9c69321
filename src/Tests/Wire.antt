-- ===== src/Tests/Wire.antt =====
-- Frames and attributes of concrete bytes and texts.
use opslog.Prelude.{
  ◌≡◌, refl, ◌||◌, none, some, List, [], ◌∷◌, ◌++◌, arith, ◌==◌, if◌then◌else◌, take, text, text_eq,
}
use opslog.Framer.{
  Bytes, ok, err, eof, unexpected_eof, put_uint32, write_length_prefixed, read_length_prefixed,
}
use opslog.Framer.RoundTrip.{append_writer, frame, write_then_read}
use opslog.Framer.Errors.{read-truncated}
use opslog.Signal.{Attr, str, num, empty_event, Event}
use opslog.Signal.Laws.{last_value}

abbrev hello : Bytes
hello = 104 ∷ 105 ∷ []

frame_test : frame hello ≡ 0 ∷ 0 ∷ 0 ∷ 2 ∷ 104 ∷ 105 ∷ []
unfolding put_uint32
frame_test = refl

write_then_read_example :
    (s : Bytes) × (write_length_prefixed append_writer (7 ∷ []) hello ≡ ((7 ∷ []) ++ s, none))
    × (read_length_prefixed (s ++ 9 ∷ []) ≡ ok (hello, 9 ∷ []))
write_then_read_example = write_then_read (7 ∷ []) hello (9 ∷ []) (omega arith)

read-truncated_example :
    read_length_prefixed (take 5 (frame hello))
    ≡ err (if 5 == 0 || 5 == 4 then eof else unexpected_eof)
unfolding put_uint32
read-truncated_example = read-truncated hello 5 (omega arith) (omega arith)

-- The key `user` twice, and an empty key.
abbrev attrs : List Attr
attrs =
    record { key = text "user"; value = str (text "a") }
    ∷ record { key = []; value = num 1 }
    ∷ record { key = text "user"; value = str (text "b") }
    ∷ []

last_value_test : last_value (text "user") attrs ≡ some (str (text "b"))
unfolding text_eq
last_value_test = refl

abbrev tagged : Event
tagged = record empty_event { attrs = some ((text "a", num 1) ∷ []) }
