-- ===== src/Sql.antt =====
-- server/internal/output/mysql/mysql.go and clickhouse/clickhouse.go: the statements and their
-- arguments. The databases that run them are not modelled.
pub mod Laws
use opslog.Prelude.{
  ℕ, zero, suc, ◌+◌, ◌-◌, ◌*◌, ◌/◌, ◌%◌, ◌^◌, ◌≤◌, ◌<◌, ◌≡◌, refl, sym, ap, ◌∙◌, ◌≢◌, ◌↔◌, ◌⊎◌, inl,
  inr, Bool, true, false, not, ◌&&◌, ◌||◌, Option, none, some, List, [], ◌∷◌, ◌++◌, map,
  append_assoc, append-nil, arith, ltb, leb, ◌==◌, if◌then◌else◌, ltb→lt, leb→le, ==_iff,
  Bool-cases, Option-cases, length, take, drop, is_nil, select, replicate, any, flatten,
  flatten_snoc, length-replicate, length-append, take-append-drop, length-take, length-drop,
  take-append, drop-append, select-append, append_snoc, All, All-append, All-drop, All-take, Text,
  Error, text, text_eq, text_eq_refl, text_eq_sound, text_eq_iff, has_prefix, contains, has_suffix,
  is_space, trim_left, trim_right, trim_space, utf8_len, has_prefix_sound, has_prefix-append,
  HasPart, contains_sound, contains_complete, CaseMap, ascii_lower, ascii_upper, IsAscii, to_lower,
  to_upper, to_lower_ascii, to_upper_ascii, to_lower_idem, ascii, Dict, lookup, insert, without,
  lookup-insert, lookup-without, lookup-insert_self, lookup-append,
}
use opslog.Signal.{Time, is_zero_time, Event}
use opslog.Store.{Query}

-- An argument of a statement; attributes are given as the JSON of a map, by the event they are of.
pub data Arg : Type 0 where
  text_arg : Text → Arg
  time_arg : Time → Arg
  int_arg : ℕ → Arg
  attrs_arg : Event → Arg

-- `where` and `args`
pub record Where : Type 0 where
  pub clauses : List Text
  pub args : List Arg

abbrev pub first_where : Where
first_where = record { clauses = text "1=1" ∷ []; args = [] }

-- `if test { where = append(where, clause); args = append(args, …) }`
pub add_if : Bool → Text → List Arg → Where → Where
add_if test clause args w =
    if test then record { clauses = w.clauses ++ clause ∷ []; args = w.args ++ args } else w

-- strings.Repeat(s, n)
pub repeat_text : ℕ → Text → Text
repeat_text zero s = []
repeat_text (suc n) s = s ++ repeat_text n s

-- `placeholders`; 44 is the comma
unfoldable pub placeholders : ℕ → Text
unfolding repeat_text
placeholders zero = []
placeholders (suc n) = trim_right (λ c. c == 44) (repeat_text (suc n) (text "?,"))

-- `len(q.Services) == 1`
add_service : List Text → Where → Where
unfolding add_if
add_service (s ∷ []) w = add_if true (text "service=?") (text_arg s ∷ []) w
add_service _ w = w

add_span : Query → Where → Where
unfolding add_if
add_span q w = add_if (not (is_zero_time q.to)) (text "ts<=?") (time_arg q.to ∷ []) (
    add_if (not (is_zero_time q.from)) (text "ts>=?") (time_arg q.from ∷ [])
      (add_if (not (is_nil q.kind)) (text "kind=?") (text_arg q.kind ∷ []) w))

level_clause : ℕ → Text
unfolding placeholders
level_clause n = text "level IN (" ++ (placeholders n ++ text ")")

-- The conditions of MySQL's `Query`.
unfoldable pub mysql_where : Query → Where
unfolding add_if add_span add_service level_clause
mysql_where q = add_if (not (is_nil q.trace_id)) (text "trace_id=?") (text_arg q.trace_id ∷ []) (
    add_if (not (is_nil q.keyword)) (text "message LIKE ?")
      (text_arg (text "%" ++ q.keyword ++ text "%") ∷ [])
      (add_service q.services (
        add_if (not (is_nil q.levels)) (level_clause (length q.levels)) (map text_arg q.levels)
          (add_span q first_where))))

-- The conditions of ClickHouse's `Query`.
unfoldable pub clickhouse_where : Query → Where
unfolding add_if add_span add_service
clickhouse_where q =
    add_if (not (is_nil q.keyword)) (text "positionCaseInsensitive(message, ?) > 0")
      (text_arg q.keyword ∷ []) (add_service q.services (add_span q first_where))

-- strings.Join(where, " AND ")
pub join_and : List Text → Text
join_and [] = []
join_and (c ∷ []) = c
join_and (c ∷ d ∷ cs) = c ++ (text " AND " ++ join_and (d ∷ cs))

-- A statement with its arguments.
pub record Statement : Type 0 where
  pub sql : Text
  pub args : List Arg

abbrev sql_limit : Query → ℕ
sql_limit q = if q.limit == 0 then 100 else q.limit

-- The count and the page of a query on a table with the given columns.
unfoldable pub count_statement : Text → Where → Statement
unfolding join_and
count_statement count w = record {
  sql = text "SELECT " ++ (count ++ (text " FROM signals WHERE " ++ join_and w.clauses));
  args = w.args;
}

unfoldable pub page_statement : Text → Where → Query → Statement
unfolding join_and
page_statement columns w q = record {
  sql =
      text "SELECT "
      ++ (columns
          ++ (text " FROM signals WHERE "
              ++ (join_and w.clauses ++ text " ORDER BY ts DESC LIMIT ? OFFSET ?")));
  args = w.args ++ int_arg (sql_limit q) ∷ int_arg q.offset ∷ [];
}

-- `HasMore: int64(q.Offset+len(items)) < total`
unfoldable pub more_rows : Query → ℕ → ℕ → Bool
more_rows q items total = ltb (q.offset + items) total

row_args : Time → Event → List Arg
row_args now e =
    text_arg e.kind
    ∷ time_arg (if is_zero_time e.time then now else e.time)
    ∷ text_arg e.level
    ∷ text_arg e.service
    ∷ text_arg e.host
    ∷ text_arg e.message
    ∷ text_arg e.trace_id
    ∷ attrs_arg e
    ∷ []

pub add_rows : Time → List Event → Statement → Statement
unfolding row_args
add_rows now [] st = st
add_rows now (e ∷ batch) st =
    add_rows now batch
      (record { sql = st.sql ++ text ",(?,?,?,?,?,?,?,?)"; args = st.args ++ row_args now e })

-- The statement of MySQL's `Write`; none for an empty batch, which is not written at all.
unfoldable pub insert_statement : Time → List Event → Option Statement
unfolding add_rows row_args
insert_statement now [] = none
insert_statement now (e ∷ batch) = some (
    add_rows now batch (record {
      sql =
          text
            "INSERT INTO signals (kind, ts, level, service, host, message, trace_id, attrs) VALUES "
          ++ text "(?,?,?,?,?,?,?,?)";
      args = row_args now e;
    }))
