-- ===== src/Sdk/Panic/Laws.antt =====
-- sdk/middleware: which panics are reported, which go on, and what a client is answered.
use opslog.Prelude.{
  ℕ, ◌≡◌, ◌≢◌, refl, ap, ◌∙◌, inl, inr, Bool, true, false, not, arith, ◌==◌, Option, none, some,
  List, [], ◌∷◌, ◌++◌, if◌then◌else◌, Bool-cases, length, is_nil, Text, text,
}
use opslog.Signal.{Attr}
use opslog.Sdk.Panic.{
  Options, with_attrs, with_message, apply_each, apply, recovered, Reporting, panic_attrs,
  panic_message, log_panic, report_panic, report_recovered, recover_panic, guard, proc_recover,
  Response, Reply, aborted, json_error, plain_error, normalized, Context, handled, gin_options,
  reply_to, after_report, respond, recovery_response,
}

apply_each-append :
    (xs ys : List (Option (Options → Options))) (o : Options)
    → apply_each (xs ++ ys) o ≡ apply_each ys (apply_each xs o)
unfolding apply_each
apply_each-append [] ys o = refl
apply_each-append (none ∷ xs) ys o = apply_each-append xs ys o
apply_each-append (some f ∷ xs) ys o = apply_each-append xs ys (f o)

-- The options of the gin middleware keep those of the program, but for the message, which is always
-- the middleware's own; its three attributes follow the program's.
pub gin_options_lem :
    (c : Context) (opts : List (Option (Options → Options)))
    → let o = apply (gin_options c opts) in
      (o.continue_panic ≡ (apply opts).continue_panic)
      × (o.msg ≡ text "gin panic recovered")
      × ((extra : List Attr) × (o.attrs ≡ (apply opts).attrs ++ extra) × (length extra ≡ 3))
unfolding apply gin_options apply_each with_message with_attrs
gin_options_lem c opts =
    let e = apply_each-append opts _ (record { continue_panic = false; attrs = []; msg = [] }) in
    (ap (λ o. o.continue_panic) e, ap (λ o. o.msg) e, (_, ap (λ o. o.attrs) e, refl))

module _ {P L W : Type 0} (io : Reporting P L W) where
  open io use {log_error, sync_logger}

  -- A deferred guard ends a panic and reports it once, then syncs the logger; the panic goes on only
  -- if the options say so. Without a panic nothing happens; and a deferred call of
  -- `opslog4proc.Recover`, which does not call `recover` itself, lets the panic go on unreported.
  pub guard_lem :
      (l : L) (opts : List (Option (Options → Options))) (r : P) (w : W)
      → (guard io (some l) opts (some r) w ≡ (
        if (apply opts).continue_panic then some r else none,
        sync_logger l
            (log_error l (panic_message io r (apply opts)) (panic_attrs io r (apply opts)) w),
      ))
        × (guard io (some l) opts none w ≡ (none, w))
        × (proc_recover io (some l) opts (some r) w ≡ (some r, w))
  unfolding guard recover_panic recovered report_recovered report_panic log_panic proc_recover
  guard_lem l opts r w = (refl, refl, refl)

  -- The end of the middleware by what the report's options say.
  respond_lem :
      (l : L) (cfg : Response) (opts : List (Option (Options → Options))) (c : Context) (r : P)
      (w : W)
      → respond io (some l) cfg opts c (some r, w) ≡ (
          if (apply (gin_options c opts)).continue_panic
          then (some r, handled, log_panic io (some l) r (apply (gin_options c opts)) w)
          else (none, reply_to cfg c, log_panic io (some l) r (apply (gin_options c opts)) w))
  unfolding respond after_report report_panic
  respond_lem l cfg opts c r w = elim (Bool-cases (apply (gin_options c opts)).continue_panic) [
    | inl e ↦ simp e refl
    | inr e ↦ simp e refl
  ]

  log_panic_message :
      (l : L) (r : P) (o : Options) (w : W)
      → o.msg ≡ text "gin panic recovered"
      → log_panic io (some l) r o w
        ≡ sync_logger l
            (log_error l (text "gin panic recovered: " ++ io.sprint r) (panic_attrs io r o) w)
  unfolding log_panic panic_message
  log_panic_message l r o w e =
      ap
        (λ (msg : Text). sync_logger l (
          log_error l
            ((if is_nil msg then text "panic recovered" else msg) ++ (text ": " ++ io.sprint r))
            (panic_attrs io r o) w))
        e

  -- What the client gets: of a response that the handlers have begun, no more, the request being
  -- aborted; or else an answer with the status and the message of the program's response, 500 and
  -- "internal server error" where they are not set, as JSON or as plain text.
  pub record IsAnswered (resp : Response) (c : Context) (out : Reply) : Type 0 where
    pub begun : c.written ≡ true → out ≡ aborted
    pub answer :
        c.written ≡ false
        → (status : ℕ) × (message : Text) × (out
            ≡ (if resp.plain_text then plain_error status message else json_error status message))
          × (resp.status ≢ 0 → status ≡ resp.status)
          × (resp.status ≡ 0 → status ≡ 500)
          × (resp.message ≢ [] → message ≡ resp.message)
          × (resp.message ≡ [] → message ≡ text "internal server error")

  kept_status : (n : ℕ) → n ≢ 0 → (if 0 == n then 500 else n) ≡ n
  kept_status n h = ground arith

  kept_message : (m : Text) → m ≢ [] → (if is_nil m then text "internal server error" else m) ≡ m
  kept_message [] h = absurd (h refl)
  kept_message (c ∷ m) h = refl

  by_format :
      (b : Bool) (status : ℕ) (message : Text)
      → (if not b then json_error status message else plain_error status message)
        ≡ (if b then plain_error status message else json_error status message)
  by_format true status message = refl
  by_format false status message = refl

  reply_to-IsAnswered :
      (resp : Response) (c : Context) → IsAnswered resp c (reply_to (normalized resp) c)
  unfolding reply_to normalized
  reply_to-IsAnswered resp c = record {
    begun = λ h. rw h refl;
    answer = λ h. (
      _,
      _,
      rw h (by_format resp.plain_text _ _),
      kept_status resp.status,
      λ e. rw e refl,
      kept_message resp.message,
      λ e. rw e refl,
    );
  }

  -- Around handlers that panic, the middleware reports once, under its own message whatever message
  -- the options give, and syncs. If the options let the panic go on, it goes on and there is no
  -- answer; if not, it ends, and the client is answered as the program's response says, unless the
  -- handlers had begun a response, which is aborted.
  pub recovery_response_lem :
      (l : L) (resp : Response) (opts : List (Option (Options → Options))) (c : Context)
      (next : W → Option P × W) (w : W) (r : P)
      → (next w).0 ≡ some r
      → let report = sync_logger l (
          log_error l
            (text "gin panic recovered: " ++ io.sprint r)
            (panic_attrs io r (apply (gin_options c opts)))
            (next w).1) in
        (out : Reply) × (recovery_response io (some l) resp opts c next w ≡ (
          if (apply opts).continue_panic then (some r, handled, report) else (none, out, report)))
        × IsAnswered resp c out
  unfolding recovery_response
  recovery_response_lem l resp opts c next w r e =
      let (go_on, msg, _) = gin_options_lem c opts in
      (
        reply_to (normalized resp) c,
        ap (λ (o : Option P). respond io (some l) (normalized resp) opts c (o, (next w).1)) e
            ∙ respond_lem l (normalized resp) opts c r (next w).1
            ∙ simp (go_on, log_panic_message l r (apply (gin_options c opts)) (next w).1 msg) refl,
        reply_to-IsAnswered resp c,
      )
