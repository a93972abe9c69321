-- ===== src/Sql/Laws.antt =====
-- Placeholders and arguments agree; what the conditions leave out.
use opslog.Prelude.{
  ℕ, zero, suc, ◌+◌, ◌≡◌, refl, sym, ap, ◌∙◌, Bool, true, false, not, some, List, [], ◌∷◌, ◌++◌,
  map, arith, ◌==◌, if◌then◌else◌, length, is_nil, length-append, Text, text, trim_left, trim_right,
}
use mathlib.Core.List.{reverse, reverse-cons}
use opslog.Signal.{Time, is_zero_time, Event}
use opslog.Store.{Query}
use opslog.Sql.{
  Arg, text_arg, time_arg, int_arg, Where, first_where, add_if, repeat_text, placeholders,
  add_service, add_span, level_clause, mysql_where, clickhouse_where, join_and, Statement,
  page_statement, count_statement, row_args, add_rows, insert_statement,
}

-- The question marks of a statement; 63 is the question mark.
abbrev pub marks : Text → ℕ
marks [] = 0
marks (c ∷ s) = if c == 63 then suc (marks s) else marks s

abbrev all_marks : List Text → ℕ
all_marks [] = 0
all_marks (c ∷ cs) = marks c + all_marks cs

-- As many arguments as question marks.
abbrev Agrees : Where → Type 0
Agrees w = all_marks w.clauses ≡ length w.args

marks-append : (s t : Text) → marks (s ++ t) ≡ marks s + marks t
marks-append [] t = omega arith
marks-append (c ∷ s) t = ground (arith, marks-append s t)

all_marks-append : (cs ds : List Text) → all_marks (cs ++ ds) ≡ all_marks cs + all_marks ds
all_marks-append [] ds = omega arith
all_marks-append (c ∷ cs) ds = omega (arith, all_marks-append cs ds)

marks-join_and : (cs : List Text) → marks (join_and cs) ≡ all_marks cs
unfolding join_and
marks-join_and [] = refl
marks-join_and (c ∷ []) = omega arith
marks-join_and (c ∷ d ∷ cs) =
    marks-append c (text " AND " ++ join_and (d ∷ cs))
    ∙ ap (λ n. marks c + n) (marks-join_and (d ∷ cs))

add_if-Agrees :
    (test : Bool) (clause : Text) (args : List Arg) (w : Where)
    → (test ≡ true → marks clause ≡ length args)
    → Agrees w
    → Agrees (add_if test clause args w)
unfolding add_if
add_if-Agrees false clause args w h a = a
add_if-Agrees true clause args w h a =
    omega (arith, h refl, all_marks-append w.clauses (clause ∷ []), length-append w.args args)

add_service-Agrees : (ss : List Text) (w : Where) → Agrees w → Agrees (add_service ss w)
unfolding add_service
add_service-Agrees [] w a = a
add_service-Agrees (s ∷ []) w a =
    add_if-Agrees true (text "service=?") (text_arg s ∷ []) w (λ _. refl) a
add_service-Agrees (s ∷ t ∷ ss) w a = a

add_span-Agrees : (q : Query) (w : Where) → Agrees w → Agrees (add_span q w)
unfolding add_span
add_span-Agrees q w a =
    let w1 : Where = add_if (not (is_nil q.kind)) (text "kind=?") (text_arg q.kind ∷ []) w in
    let w2 : Where = add_if (not (is_zero_time q.from)) (text "ts>=?") (time_arg q.from ∷ []) w1 in
    add_if-Agrees (not (is_zero_time q.to)) (text "ts<=?") (time_arg q.to ∷ []) w2 (λ _. refl)
      (add_if-Agrees (not (is_zero_time q.from)) (text "ts>=?") (time_arg q.from ∷ []) w1
        (λ _. refl)
        (add_if-Agrees (not (is_nil q.kind)) (text "kind=?") (text_arg q.kind ∷ []) w (λ _. refl)
          a))

marks-reverse : (s : Text) → marks (reverse s) ≡ marks s
marks-reverse [] = refl
marks-reverse (c ∷ s) =
    rw (reverse-cons c s) (ground (arith, marks-append (reverse s) (c ∷ []), marks-reverse s))

marks-trim_left : (s : Text) → marks (trim_left (λ c. c == 44) s) ≡ marks s
unfolding trim_left
marks-trim_left [] = refl
marks-trim_left (c ∷ s) = ground (arith, marks-trim_left s)

marks-repeat_text : (n : ℕ) → marks (repeat_text n (text "?,")) ≡ n
unfolding repeat_text
marks-repeat_text zero = refl
marks-repeat_text (suc n) = rw (marks-repeat_text n) refl

marks-placeholders : (n : ℕ) → marks (placeholders n) ≡ n
unfolding placeholders trim_right
marks-placeholders zero = refl
marks-placeholders (suc n) =
    marks-reverse (trim_left (λ c. c == 44) (reverse (repeat_text (suc n) (text "?,"))))
    ∙ (marks-trim_left (reverse (repeat_text (suc n) (text "?,")))
        ∙ (marks-reverse (repeat_text (suc n) (text "?,")) ∙ marks-repeat_text (suc n)))

marks-level_clause : (n : ℕ) → marks (level_clause n) ≡ n
unfolding level_clause
marks-level_clause n =
    rw (marks-append (placeholders n) (text ")"), marks-placeholders n) (omega arith)

length-map-text : (ss : List Text) → length (map text_arg ss) ≡ length ss
length-map-text [] = refl
length-map-text (s ∷ ss) = rw (length-map-text ss)

mysql_where-Agrees : (q : Query) → Agrees (mysql_where q)
unfolding mysql_where
mysql_where-Agrees q =
    let w1 : Where = add_span q first_where in
    let w2 : Where =
      add_if (not (is_nil q.levels)) (level_clause (length q.levels)) (map text_arg q.levels) w1 in
    let w3 : Where = add_service q.services w2 in
    let like : List Arg = text_arg (text "%" ++ q.keyword ++ text "%") ∷ [] in
    let w4 : Where = add_if (not (is_nil q.keyword)) (text "message LIKE ?") like w3 in
    add_if-Agrees (not (is_nil q.trace_id)) (text "trace_id=?") (text_arg q.trace_id ∷ []) w4
      (λ _. refl)
      (add_if-Agrees (not (is_nil q.keyword)) (text "message LIKE ?") like w3 (λ _. refl)
        (add_service-Agrees q.services w2 (
          add_if-Agrees (not (is_nil q.levels)) (level_clause (length q.levels))
            (map text_arg q.levels) w1
            (λ _. marks-level_clause (length q.levels) ∙ sym (length-map-text q.levels))
            (add_span-Agrees q first_where refl))))

clickhouse_where-Agrees : (q : Query) → Agrees (clickhouse_where q)
unfolding clickhouse_where
clickhouse_where-Agrees q =
    let w1 : Where = add_span q first_where in
    let w2 : Where = add_service q.services w1 in
    add_if-Agrees (not (is_nil q.keyword)) (text "positionCaseInsensitive(message, ?) > 0")
      (text_arg q.keyword ∷ []) w2 (λ _. refl)
      (add_service-Agrees q.services w1 (add_span-Agrees q first_where refl))

-- A statement with as many arguments as question marks.
abbrev pub IsBalanced : Statement → Type 0
IsBalanced st = marks st.sql ≡ length st.args

count_statement-IsBalanced :
    (count : Text) (w : Where) → marks count ≡ 0 → Agrees w → IsBalanced (count_statement count w)
unfolding count_statement
count_statement-IsBalanced count w none_there a =
    let e : marks count + marks (join_and w.clauses) ≡ length w.args =
      omega (arith, none_there, marks-join_and w.clauses, a) in
    marks-append count (text " FROM signals WHERE " ++ join_and w.clauses) ∙ e

page_statement-IsBalanced :
    (columns : Text) (w : Where) (q : Query)
    → marks columns ≡ 0
    → Agrees w
    → IsBalanced (page_statement columns w q)
unfolding page_statement
page_statement-IsBalanced columns w q none_there a =
    let bounds : List Arg =
      int_arg (if q.limit == 0 then 100 else q.limit) ∷ int_arg q.offset ∷ [] in
    let window : Text = text " ORDER BY ts DESC LIMIT ? OFFSET ?" in
    let e : marks columns + marks (join_and w.clauses ++ window) ≡ length (w.args ++ bounds) =
      omega (
        arith,
        none_there,
        marks-append (join_and w.clauses) window,
        marks-join_and w.clauses,
        a,
        length-append w.args bounds,
      ) in
    marks-append columns (text " FROM signals WHERE " ++ (join_and w.clauses ++ window)) ∙ e

-- Whatever a query asks for, the statements that count and page it in both databases have exactly
-- one argument for each question mark, with a list of columns that has none.
pub statements-IsBalanced :
    (columns : Text) (q : Query)
    → marks columns ≡ 0
    → IsBalanced (count_statement columns (mysql_where q))
      × IsBalanced (page_statement columns (mysql_where q) q)
      × IsBalanced (count_statement columns (clickhouse_where q))
      × IsBalanced (page_statement columns (clickhouse_where q) q)
statements-IsBalanced columns q h = (
  count_statement-IsBalanced columns (mysql_where q) h (mysql_where-Agrees q),
  page_statement-IsBalanced columns (mysql_where q) q h (mysql_where-Agrees q),
  count_statement-IsBalanced columns (clickhouse_where q) h (clickhouse_where-Agrees q),
  page_statement-IsBalanced columns (clickhouse_where q) q h (clickhouse_where-Agrees q),
)

-- The hosts of a query, and its services if there are two or more, change nothing of the conditions
-- in either database; in ClickHouse neither do its levels and its trace.
pub conditions_left_out :
    (q : Query) (hosts levels : List Text) (trace s t : Text) (services : List Text)
    → (mysql_where (record q { hosts = hosts; services = s ∷ t ∷ services })
        ≡ mysql_where (record q { services = [] }))
      × (clickhouse_where (record q {
        hosts = hosts;
        levels = levels;
        trace_id = trace;
        services = s ∷ t ∷ services;
      })
          ≡ clickhouse_where (record q { services = [] }))
unfolding mysql_where clickhouse_where add_service add_span
conditions_left_out q hosts levels trace s t services = (refl, refl)

add_rows-IsBalanced :
    (now : Time) (batch : List Event) (st : Statement)
    → IsBalanced st
    → IsBalanced (add_rows now batch st)
unfolding add_rows row_args
add_rows-IsBalanced now [] st h = h
add_rows-IsBalanced now (e ∷ batch) st h =
    add_rows-IsBalanced now batch
      (record { sql = st.sql ++ text ",(?,?,?,?,?,?,?,?)"; args = st.args ++ row_args now e })
      (omega (
        arith,
        marks-append st.sql (text ",(?,?,?,?,?,?,?,?)"),
        length-append st.args (row_args now e),
      ))

-- A batch that is not empty is written by one statement with one argument for each question mark.
pub insert_statement-IsBalanced :
    (now : Time) (e : Event) (batch : List Event)
    → (st : Statement) × (insert_statement now (e ∷ batch) ≡ some st) × IsBalanced st
unfolding insert_statement row_args
insert_statement-IsBalanced now e batch = (_, refl, add_rows-IsBalanced now batch _ refl)
