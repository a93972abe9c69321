-- ===== src/Store/Pages.antt =====
-- Pages of a query: what they hold, the flag, and walking through them.
use opslog.Prelude.{
  ℕ, zero, suc, ◌+◌, ◌-◌, ◌≤◌, ◌≡◌, refl, sym, ◌⊎◌, inr, false, some, List, [], ◌∷◌, ◌++◌, map,
  arith, ltb, if◌then◌else◌, length, take, drop, select, flatten, length-drop, select-append, All,
  Text, Error, CaseMap,
}
use opslog.Framer.{Bytes}
use opslog.Signal.{Event}
use opslog.Store.Lines.{lines_of, IsLine, scan_lines-lines_of}
use opslog.Store.{
  Query, match_query, Entry, Listing, entries, is_segment, add_matching, matching_lines,
  content_lines, collect_items, skip_offset, limit_of, page_of, query_kind, query_listing, query,
}

drop-all : (n : ℕ) (l : List Event) → length l ≤ n → drop n l ≡ []
drop-all zero [] h = refl
drop-all zero (x ∷ l) h = absurd (omega arith)
drop-all (suc n) [] h = refl
drop-all (suc n) (x ∷ l) h = drop-all n l (omega arith)

take-all : (n : ℕ) (l : List Event) → length l ≤ n → take n l ≡ l
take-all zero [] h = refl
take-all zero (x ∷ l) h = absurd (omega arith)
take-all (suc n) [] h = refl
take-all (suc n) (x ∷ l) h = rw (take-all n l (omega arith))

module _ (u : CaseMap) (decode : Bytes → Error ⊎ Event) where
  skip_offset_lem : (n : ℕ) (l : List Event) → skip_offset u decode n l ≡ drop n l
  unfolding skip_offset
  skip_offset_lem zero [] = refl
  skip_offset_lem zero (x ∷ l) = ground arith
  skip_offset_lem (suc n) l = ground (arith, drop-all (suc n) l)

  -- A page is the window of the items at the offset, of the limit's length, cut at the end; the total
  -- counts all the items, and the flag says exactly that items stand after the window.
  pub page_of_lem :
      (q : Query) (items : List Event)
      → page_of u decode q items ≡ record {
        total = length items;
        items = take (limit_of u decode q) (drop q.offset items);
        has_more = ltb (q.offset + limit_of u decode q) (length items);
      }
  unfolding page_of
  page_of_lem q items =
      let rest : List Event = drop q.offset items in
      let size : length rest ≡ length items - q.offset = length-drop q.offset items in
      rw (skip_offset_lem q.offset items)
        (ground (arith, size, take-all (limit_of u decode q) rest))

  -- A client that asks for the next page while the flag is set, at most `fuel` times.
  pub walk : ℕ → Query → List Event → List Event
  walk zero q items = []
  walk (suc fuel) q items =
      let rest = walk fuel (record q { offset = q.offset + limit_of u decode q }) items in
      let page = page_of u decode q items in
      if page.has_more then page.items ++ rest else page.items

  module _ (encode : Event → Bytes) (read_back : Event → Event) where
    -- What is asked of the codec: a line that was encoded is one line, and decodes.
    abbrev pub IsStored : Event → Type 0
    IsStored ev = IsLine (encode ev) × (decode (encode ev) ≡ inr (read_back ev))

    -- A segment with a name, to which events were appended.
    abbrev pub segment : Text × List Event → Entry
    segment (name, evs) = record {
      name = name;
      is_dir = false;
      content = some (lines_of (map encode evs));
    }

    All-IsLine : (evs : List Event) → All IsStored evs → All IsLine (map encode evs)
    All-IsLine [] h = tt
    All-IsLine (ev ∷ evs) ((line, _), h) = (line, All-IsLine evs h)

    matching-encoded :
        (q : Query) (evs : List Event)
        → All IsStored evs
        → matching_lines u decode q (map encode evs) ≡ select (match_query u q) (map read_back evs)
    unfolding matching_lines add_matching
    matching-encoded q [] h = refl
    matching-encoded q (ev ∷ evs) ((_, back), h) = rw (back, matching-encoded q evs h)

    collect-segments :
        (q : Query) (files : List (Text × List Event))
        → All (λ f. All IsStored f.1) files
        → collect_items u decode q (map segment files)
          ≡ select (match_query u q) (map read_back (flatten (map (λ f. f.1) files)))
    unfolding collect_items content_lines
    collect-segments q [] h = refl
    collect-segments q ((name, evs) ∷ files) (one, h) =
        let rest : List Event = flatten (map (λ f. f.1) files) in
        rw
          (
            scan_lines-lines_of (map encode evs) (All-IsLine evs one),
            matching-encoded q evs one,
            collect-segments q files h,
            map-append evs rest,
          )
          (sym (select-append (match_query u q) (map read_back evs) (map read_back rest)))
      where
        map-append :
            (xs ys : List Event) → map read_back (xs ++ ys) ≡ map read_back xs ++ map read_back ys
        map-append [] ys = refl
        map-append (x ∷ xs) ys = rw (map-append xs ys)

    -- A query answers with a page of just the events that were written to the segments of its kind
    -- and match it: none is missing, none is doubled and no other is there.
    pub query_written :
        (read_dir : Text → Listing) (sort_names : List Entry → List Entry)
        (sort_items : List Event → List Event) (q : Query) (es : List Entry)
        (files : List (Text × List Event))
        → read_dir (query_kind u decode q) ≡ entries es
        → sort_names (select is_segment es) ≡ map segment files
        → All (λ f. All IsStored f.1) files
        → query u decode read_dir sort_names sort_items q
          ≡ inr (
              page_of u decode q (
                sort_items
                  (select (match_query u q) (map read_back (flatten (map (λ f. f.1) files))))))
    unfolding query query_listing
    query_written read_dir sort_names sort_items q es files listing sorted h =
        rw (listing, query_listing) (rw (sorted, collect-segments q files h))
