-- ===== src/Sdk/Panic.antt =====
-- sdk/middleware: recovering panics in deferred functions, in goroutines and in gin handlers.
pub mod Laws
use opslog.Prelude.{
  ℕ, zero, suc, ◌+◌, ◌-◌, ◌*◌, ◌/◌, ◌%◌, ◌^◌, ◌≤◌, ◌<◌, ◌≡◌, refl, sym, ap, ◌∙◌, ◌≢◌, ◌↔◌, ◌⊎◌, inl,
  inr, Bool, true, false, not, ◌&&◌, ◌||◌, Option, none, some, List, [], ◌∷◌, ◌++◌, map,
  append_assoc, append-nil, arith, ltb, leb, ◌==◌, if◌then◌else◌, ltb→lt, leb→le, ==_iff,
  Bool-cases, Option-cases, length, take, drop, is_nil, select, replicate, any, flatten,
  flatten_snoc, length-replicate, length-append, take-append-drop, length-take, length-drop,
  take-append, drop-append, select-append, append_snoc, All, All-append, All-drop, All-take, Text,
  Error, text, text_eq, text_eq_refl, text_eq_sound, text_eq_iff, has_prefix, contains, has_suffix,
  is_space, trim_left, trim_right, trim_space, utf8_len, has_prefix_sound, has_prefix-append,
  HasPart, contains_sound, contains_complete, CaseMap, ascii_lower, ascii_upper, IsAscii, to_lower,
  to_upper, to_lower_ascii, to_upper_ascii, to_lower_idem, to_upper_idem, ascii, Dict, lookup,
  insert, without, lookup-insert, lookup-without, lookup-insert_self, lookup-append, ℤ, pos, negsuc,
  positive_part, cut_at, trim, trim_prefix, insert-All, lookup-All,
}
use opslog.Signal.{Attr, str, flag}

-- `panicopt.Options`
pub record Options : Type 0 where
  pub continue_panic : Bool
  pub attrs : List Attr
  pub msg : Text

-- `WithContinuePanic`
unfoldable pub with_continue_panic : Bool → Options → Options
with_continue_panic b o = record o { continue_panic = b }

-- `WithAttrs`
unfoldable pub with_attrs : List Attr → Options → Options
with_attrs attrs o = record o { attrs = o.attrs ++ attrs }

-- `WithMessage`
unfoldable pub with_message : Text → Options → Options
with_message msg o = record o { msg = msg }

unfoldable pub apply_each : List (Option (Options → Options)) → Options → Options
apply_each [] o = o
apply_each (none ∷ opts) o = apply_each opts o
apply_each (some f ∷ opts) o = apply_each opts (f o)

-- `Apply`; a nil option is `none`
unfoldable pub apply : List (Option (Options → Options)) → Options
apply opts = apply_each opts (record { continue_panic = false; attrs = []; msg = [] })

-- How `recover` is called: by the deferred function itself, or by a function that it calls. The
-- language stops a panic in the first case only.
pub data Frame : Type 0 where
  direct nested : Frame

-- What `recover()` returns of the panic that is under way.
unfoldable pub recovered : {P : Type 0} → Frame → Option P → Option P
recovered direct pending = pending
recovered nested pending = none

-- A panic with what fmt prints of its value, the stack at the time, and an `sdk.Logger` of a type
-- `L`, whose `Error` and `Sync` change the state `W` of the program.
pub record Reporting (P L W : Type 0) : Type 0 where
  pub sprint : P → Text
  pub stack : Text
  pub log_error : L → Text → List Attr → W → W
  pub sync_logger : L → W → W

module _ {P L W : Type 0} (io : Reporting P L W) where
  open io use {sprint, stack, log_error, sync_logger}

  -- The attributes that `ReportPanic` logs.
  unfoldable pub panic_attrs : P → Options → List Attr
  panic_attrs r o =
      record { key = text "panic"; value = str (sprint r) }
      ∷ record { key = text "stack"; value = str stack }
      ∷ record { key = text "recovered"; value = flag true }
      ∷ o.attrs

  unfoldable pub panic_message : P → Options → Text
  panic_message r o =
      (if is_nil o.msg then text "panic recovered" else o.msg) ++ (text ": " ++ sprint r)

  unfoldable pub log_panic : Option L → P → Options → W → W
  log_panic none r o w = w
  log_panic (some l) r o w = sync_logger l (log_error l (panic_message r o) (panic_attrs r o) w)

  -- `ReportPanic`: the panic that it starts again, if any.
  unfoldable pub report_panic : Option L → P → List (Option (Options → Options)) → W → Option P × W
  report_panic logger r opts w =
      let o = apply opts in (if o.continue_panic then some r else none, log_panic logger r o w)

  unfoldable pub report_recovered :
      Option P → Option P → Option L → List (Option (Options → Options)) → W → Option P × W
  report_recovered pending none logger opts w = (pending, w)
  report_recovered pending (some r) logger opts w = report_panic logger r opts w

  -- `panicx.Recover` and the closure of `Guard`: the panic that goes on afterwards. The panic under
  -- way, if any, goes on where `recover` does not see it.
  unfoldable pub recover_panic :
      Frame → Option L → List (Option (Options → Options)) → Option P → W → Option P × W
  recover_panic frame logger opts pending w =
      report_recovered pending (recovered frame pending) logger opts w

  -- `defer Guard(logger, opts...)()` of panicx and of opslog4proc
  unfoldable pub guard : Option L → List (Option (Options → Options)) → Option P → W → Option P × W
  guard = recover_panic direct

  -- `defer opslog4proc.Recover(logger, opts...)`, which calls `panicx.Recover`
  unfoldable pub proc_recover :
      Option L → List (Option (Options → Options)) → Option P → W → Option P × W
  proc_recover = recover_panic nested

  unfoldable pub report_to_agent :
      Option P → Option P → Option L → List (Option (Options → Options)) → W → Option P × W
  report_to_agent pending none agent opts w = (pending, w)
  report_to_agent pending (some r) none opts w =
      (if (apply opts).continue_panic then some r else none, w)
  report_to_agent pending (some r) (some l) opts w = report_panic (some l) r opts w

  -- `RecoverAgent` of panicx and the closure of `GuardAgent`, by the agent's logger, if the agent is
  -- not nil
  unfoldable pub recover_agent :
      Frame → Option L → List (Option (Options → Options)) → Option P → W → Option P × W
  recover_agent frame agent opts pending w =
      report_to_agent pending (recovered frame pending) agent opts w

  -- `Do`: a function that changes the state and may panic; `none` is a nil function.
  unfoldable pub do_fn :
      Option L → Option (W → Option P × W) → List (Option (Options → Options)) → W → Option P × W
  do_fn logger none opts w = (none, w)
  do_fn logger (some fn) opts w =
      let (pending, w') = fn w in recover_panic direct logger opts pending w'

-- `Response`
pub record Response : Type 0 where
  pub status : ℕ
  pub plain_text : Bool
  pub message : Text

-- `normalized`
unfoldable pub normalized : Response → Response
normalized r = record r {
  status = if 0 == r.status then 500 else r.status;
  message = if is_nil r.message then text "internal server error" else r.message;
}

-- What the middleware reads of `*gin.Context`: the pattern of the route, the path and the text of
-- the URL, if it is not nil, the method, and whether the response was begun.
pub record Context : Type 0 where
  pub full_path : Text
  pub url : Option (Text × Text)
  pub method : Text
  pub written : Bool

-- What becomes of the response: what the handler did, an abort without a response, or an answer.
pub data Reply : Type 0 where
  handled aborted : Reply
  json_error : ℕ → Text → Reply
  plain_error : ℕ → Text → Reply

abbrev url_path : Option (Text × Text) → Text
url_path none = []
url_path (some u) = u.0

abbrev url_text : Option (Text × Text) → Text
url_text none = []
url_text (some u) = u.1

-- The options of the report: the middleware's own come last.
unfoldable pub gin_options :
    Context → List (Option (Options → Options)) → List (Option (Options → Options))
gin_options c opts =
    opts
    ++ (some (with_message (text "gin panic recovered"))
        ∷ some (
            with_attrs (
              record { key = text "http.method"; value = str c.method }
              ∷ record {
                key = text "http.path";
                value = str (if is_nil c.full_path then url_path c.url else c.full_path);
              }
              ∷ record { key = text "http.url"; value = str (url_text c.url) }
              ∷ []))
        ∷ [])

-- The answer to a request whose handler panicked.
unfoldable pub reply_to : Response → Context → Reply
reply_to cfg c =
    if c.written
    then aborted
    else if not cfg.plain_text
    then json_error cfg.status cfg.message
    else plain_error cfg.status cfg.message

module _ {P L W : Type 0} (io : Reporting P L W) where
  unfoldable pub after_report : Response → Context → Option P × W → Option P × Reply × W
  after_report cfg c (some r, w) = (some r, handled, w)
  after_report cfg c (none, w) = (none, reply_to cfg c, w)

  unfoldable pub respond :
      Option L
      → Response
      → List (Option (Options → Options))
      → Context
      → Option P × W
      → Option P × Reply × W
  respond logger cfg opts c (none, w) = (none, handled, w)
  respond logger cfg opts c (some r, w) =
      after_report cfg c (report_panic io logger r (gin_options c opts) w)

  -- `RecoveryResponse` around the rest of the handlers, `c.Next()`
  unfoldable pub recovery_response :
      Option L
      → Response
      → List (Option (Options → Options))
      → Context
      → (W → Option P × W)
      → W
      → Option P × Reply × W
  recovery_response logger resp opts c next w = respond logger (normalized resp) opts c (next w)
