-- ===== src/Tests/Client.antt =====
-- An agent with two transports, one of which is down.
use opslog.Prelude.{
  ℕ, suc, ◌+◌, ◌%◌, ◌^◌, ◌≡◌, ◌≤◌, refl, ◌≢◌, true, false, none, some, List, [], ◌∷◌, arith, ◌==◌,
  if◌then◌else◌, length, Text, Error, text, text_eq, to_lower, ascii,
}
use mathlib.Core.List.{Memᴰ}
use opslog.Framer.{Bytes}
use opslog.Signal.{Event, empty_event, Attr, str, get_attr}
use opslog.Signal.Laws.{last_value}
use opslog.Sdk.Policy.{
  Transport, LevelPolicy, new_level_policy, is_error_level, wanted, select_transports,
}
use opslog.Sdk.Policy.Laws.{IsChoice, select-IsChoice}
use opslog.Sdk.Agent.{Send, Hook, Formatted, payload, is_reliable_level, run_hooks}
use opslog.Sdk.Agent.Fallback.{
  Network, DeliveredOnce, send_by_level, reliable-DeliveredOnce, lone_failure_reported_as_success,
}
use opslog.Sdk.Agent.Logger.{Logger, order, with_attrs, level_enabled, log, log_attrs}
use opslog.Sdk.Agent.Queue.{
  AgentState, AgentEvent, enqueue, push, take_one, sent, new_state, agent_run, enqueues,
  enqueues_counted, closed_accepts_nothing,
}

abbrev udp : Transport
udp = record { id = 0; name = text "udp"; typ = text "udp" }

abbrev tcp : Transport
tcp = record { id = 1; name = text "main"; typ = text "tcp" }

abbrev send : Send ℕ
send t p w = if t.id == 0 then (some (text "refused"), w) else (none, suc w)

send_ok : (t : Transport) (p : Bytes) (w : ℕ) → (send t p w).0 ≡ none → (send t p w).1 ≡ suc w
send_ok t p w e = ground arith

send_failed :
    (t : Transport) (p : Bytes) (w : ℕ) (x : Error) → (send t p w).0 ≡ some x → (send t p w).1 ≡ w
send_failed t p w x e = ground arith

-- Only the transports with an id above 0 work.
abbrev network : Network ℕ
network = record { send = send; delivered = λ w. w; send_ok = send_ok; send_failed = send_failed }

abbrev format : Event → Formatted
format e = payload e.message

abbrev policy : LevelPolicy
policy = new_level_policy (text "main") (text "udp")

abbrev failure : Event
failure = record empty_event { level = text "ERROR"; message = text "disk full" }

abbrev notice : Event
notice = record empty_event { level = text "info"; message = text "ok" }

abbrev drop_all : Hook Event
drop_all e = (e, false)

reliable-DeliveredOnce_example :
    DeliveredOnce network 5
      (send_by_level network ascii [] format policy (udp ∷ tcp ∷ []) failure 5)
unfolding is_reliable_level run_hooks is_error_level to_lower text_eq
reliable-DeliveredOnce_example =
    reliable-DeliveredOnce network ascii [] format policy udp tcp (tcp ∷ []) failure failure
      (text "disk full") 5 refl refl refl (Memᴰ.tail (Memᴰ.head refl)) (λ x w e. rw e)

lone_failure_reported_as_success_example :
    ((send_by_level network ascii [] format policy (udp ∷ []) failure 5).0 ≡ none)
    × ((send_by_level network ascii [] format policy (udp ∷ []) failure 5).1 ≡ 5)
unfolding is_reliable_level run_hooks is_error_level to_lower text_eq
lone_failure_reported_as_success_example =
    lone_failure_reported_as_success network ascii [] format policy udp failure failure
      (text "disk full") 5 (text "refused") refl refl refl refl

select-IsChoice_example :
    (t : Transport) × (select_transports ascii policy notice (udp ∷ tcp ∷ []) ≡ t ∷ [])
    × IsChoice (wanted ascii policy notice) udp (tcp ∷ []) t
select-IsChoice_example = select-IsChoice ascii policy notice udp (tcp ∷ [])

-- Two workers behind a channel of one.
abbrev steps : List (AgentEvent ℕ)
steps = enqueue 1 ∷ enqueue 2 ∷ push 1 ∷ take_one ∷ enqueue 3 ∷ push 0 ∷ sent 0 ∷ []

enqueues_counted_example :
    let b = agent_run 1 2 steps (new_state 1 2) in
    (length b.accepted + b.dropped + length b.passed) % 2 ^ 64
    ≡ (0 + 0 + 0 + enqueues 1 2 steps) % 2 ^ 64
enqueues_counted_example = enqueues_counted 1 2 steps (new_state 1 2) refl tt

-- An agent that is closed while a call of `enqueue` is between its two steps.
abbrev shut : AgentState ℕ
shut = record (new_state 1 2) { closed = true; passed = 7 ∷ [] }

closed_accepts_nothing_example :
    ((agent_run 1 2 steps shut).closed ≡ true)
    × (length (agent_run 1 2 steps shut).accepted + length (agent_run 1 2 steps shut).passed ≤ 1)
closed_accepts_nothing_example = closed_accepts_nothing 1 2 steps shut refl

abbrev logger : Logger
logger = record {
  closed = false;
  min_level = text "info";
  service = text "api";
  host = text "h1";
  attrs = [];
}

abbrev user : Text → List Attr
user name = record { key = text "user"; value = str name } ∷ []

log_attrs_example :
    (e : Event) × (log ascii 7
        (with_attrs (user (text "a")) logger)
        (text "warn")
        (text "slow")
        (user (text "b"))
      ≡ some e)
    × (e.level ≡ text "warn")
    × (e.message ≡ text "slow")
    × (e.service ≡ text "api")
    × (e.host ≡ text "h1")
    × ((k : Text)
        → k ≢ []
        → get_attr e.attrs k ≡ elim (last_value k (user (text "b"))) [
          | some v ↦ some v
          | none ↦ elim (last_value k (user (text "a"))) [ some v ↦ some v | none ↦ none ]
        ])
unfolding level_enabled order to_lower text_eq
log_attrs_example =
    log_attrs ascii 7 logger (user (text "a")) (user (text "b")) (text "warn") (text "slow") refl
      refl
