-- ===== src/Tests/Agents.antt =====
-- An agent with one transport, the agent of a process, and a handler that panics.
use opslog.Prelude.{
  ℕ, zero, suc, ◌+◌, ◌≡◌, refl, inr, Bool, true, false, none, some, List, [], ◌∷◌, ◌++◌, arith,
  if◌then◌else◌, text, text_eq, is_space, trim_left, trim_right, trim_space, to_lower, ascii, pos,
}
use opslog.Signal.{Signal, empty_event, event}
use opslog.Cfg.{Std}
use opslog.Sdk.Policy.{Transport}
use opslog.Sdk.Enricher.Diagnostic.{Machine}
use opslog.Sdk.Agent.Lifecycle
use opslog.Sdk.Agent.Lifecycle.{
  Parts, Setup, LiveAgent, Turn, receive, send_held, draining, cancelled,
}
use opslog.Sdk.Agent.Queue.{count_of, agent_step}
use opslog.Sdk.Agent.Lifecycle.Laws.{after_all, closing, close_hands_all, start_fails}
use opslog.Sdk.Panic.{Reporting, Response, Reply, Context, apply, handled, recovery_response}
use opslog.Sdk.Panic.Laws.{IsAnswered, recovery_response_lem}
use opslog.Api.Csv.{split_commas}
use opslog.Sdk.Integration.{Config, parse_transport, transports_of}
use opslog.Sdk.Agent.Options.{Agent}
use opslog.Sdk.Integration.Start
use opslog.Sdk.Integration.Start.{Methods, IsInitialised, init-IsInitialised}
use opslog.Sdk.Integration.Process.{
  Runtime, Process, init_call, init, enabled, run, returned, panicked, main,
}
use opslog.Sdk.Integration.Laws.{disabled_first, main_panic_unreported}

abbrev main_transport : Transport
main_transport = record { id = 0; name = text "http"; typ = text "http" }

-- A network that records what is done: 1 for a flush, 2 for a close, 3 for a signal.
abbrev recorder : Parts ℕ (List ℕ)
recorder = record {
  start_transport = λ t w. (none, w);
  flush_transport = λ t w. (some (text "late"), w ++ 1 ∷ []);
  close_transport = λ t w. (none, w ++ 2 ∷ []);
  send_signal = λ c s w. (none, w ++ 3 ∷ []);
  collect = λ c w. (inr [], w);
}

abbrev setup : Setup ℕ
setup = record {
  service = text "app";
  host = text "h";
  transports = main_transport ∷ [];
  collectors = [];
  queue_size = 8;
}

abbrev waiting : LiveAgent (List ℕ)
waiting = record {
  queue = record {
    ch = event empty_event ∷ event empty_event ∷ [];
    closed = false;
    dropped = 0;
    passed = [];
    inflight = [];
    accepted = event empty_event ∷ event empty_event ∷ [];
    taken = [];
  };
  workers = 2;
  loops = 0;
  world = [];
  handed = [];
}

-- The two workers take both signals and send them in the other order, one in each context.
abbrev turns : List Turn
turns = receive ∷ receive ∷ send_held 0 draining ∷ send_held 0 cancelled ∷ []

abbrev shut : LiveAgent (List ℕ)
shut = record {
  queue = record {
    ch = [];
    closed = true;
    dropped = 0;
    passed = [];
    inflight = [];
    accepted = event empty_event ∷ event empty_event ∷ [];
    taken = event empty_event ∷ event empty_event ∷ [];
  };
  workers = 0;
  loops = 0;
  world = 3 ∷ 3 ∷ 1 ∷ 2 ∷ [];
  handed = event empty_event ∷ event empty_event ∷ [];
}

close_test : Lifecycle.close recorder setup turns waiting ≡ some (none, shut)
unfolding Lifecycle.close Lifecycle.run_turns Lifecycle.turn agent_step Lifecycle.wait
    Lifecycle.close_waited Lifecycle.closed_with Lifecycle.sync Lifecycle.flush_each
    Lifecycle.close_each
close_test = refl

close_hands_all_example :
    (shut.queue.ch ≡ [])
    × (shut.queue.accepted ≡ waiting.queue.accepted)
    × ((p : Signal → Bool) → count_of p shut.handed ≡ count_of p waiting.queue.accepted)
    × (shut.world
        ≡ after_all recorder.close_transport setup.transports (
            after_all recorder.flush_transport setup.transports
              (Lifecycle.run_turns recorder setup turns (closing recorder setup waiting)).world))
    × ((later : List Turn) → Lifecycle.close recorder setup later shut ≡ some (none, shut))
close_hands_all_example =
    close_hands_all recorder setup turns waiting shut none refl refl (omega arith)
      (record { in_order = refl; held = λ p. omega arith }) close_test

-- A network on which nothing starts.
abbrev unreachable : Parts ℕ (List ℕ)
unreachable = record recorder { start_transport = λ t w. (some (text "refused"), w ++ 4 ∷ []) }

start_fails_example : Lifecycle.start unreachable setup waiting ≡ (
  some (text "start transport " ++ (text "http" ++ (text ": " ++ text "refused"))),
  record waiting { world = 4 ∷ [] },
)
start_fails_example =
    start_fails unreachable setup waiting [] [] main_transport (text "refused") refl tt refl

-- A program that counts the errors it logs; its agent is 1.
abbrev reporting : Reporting ℕ ℕ ℕ
reporting = record {
  sprint = λ r. text "boom";
  stack = text "main";
  log_error = λ l msg attrs w. suc w;
  sync_logger = λ l w. w;
}

abbrev context : Context
context = record { full_path = text "/a"; url = none; method = text "GET"; written = false }

abbrev response : Response
response = record { status = 0; plain_text = false; message = [] }

recovery_response_lem_example :
    (out : Reply) × (recovery_response reporting (some 1) response [] context (λ w. (some 9, w)) 4
      ≡ (if (apply []).continue_panic then (some 9, handled, 5) else (none, out, 5)))
    × IsAnswered reporting response context out
recovery_response_lem_example =
    recovery_response_lem reporting 1 response [] context (λ w. (some 9, w)) 4 9 refl

abbrev config : Config
config = record {
  enable = true;
  skip = false;
  service = [];
  version = [];
  level = [];
  http_url = [];
  http_token = [];
  transport = text "http,udp";
  udp_endpoint = [];
  bridge_stdlog = none;
}

parse_transport_test : parse_transport ascii (text " HTTP, udp") ≡ (true, true)
unfolding parse_transport transports_of split_commas trim_space trim_right trim_left is_space
    to_lower text_eq
parse_transport_test = refl

abbrev std : Std
std = record { sprint = λ v. []; parse_duration = λ s. none; truncate = λ bits. pos 0 }

abbrev machine : Machine
machine = record {
  os = record { environ = []; lookup_env = λ k. none; etc_environment = none };
  hostname = text "h";
  pid = 7;
  go_version = [];
  goos = [];
  goarch = [];
  cwd = [];
  now = 0;
  build_system_status = record { size = 0; content = 0 };
}

-- Agents that start; the state counts what is called.
abbrev methods : Methods ℕ ℕ ℕ
methods = record { start = λ a w. (none, suc w); sync = λ a w. suc w; close = λ a w. suc w }

abbrev unstarted : Process (Agent ℕ ℕ) ℕ
unstarted = record { done = false; ag = none; bridged = none; world = 0 }

init-IsInitialised_example :
    IsInitialised ℕ ℕ ascii std machine 0 5 methods config unstarted
      (init (Start.runtime ℕ ℕ ascii std machine 0 5 methods) config unstarted)
init-IsInitialised_example =
    init-IsInitialised ℕ ℕ ascii std machine 0 5 methods config unstarted refl refl refl

-- Starting always succeeds with the agent 1; a closed agent leaves an even state.
abbrev runtime : Runtime ℕ ℕ
runtime = record {
  start_agent = λ cfg w. (inr 1, w);
  sync_agent = λ a w. w;
  close_agent = λ a w. 0;
}

abbrev fresh_process : Process ℕ ℕ
fresh_process = record { done = false; ag = none; bridged = none; world = 0 }

-- The state counts the starts.
abbrev counting : Runtime ℕ ℕ
counting = record {
  start_agent = λ cfg w. (inr 1, w + 1);
  sync_agent = λ a w. w;
  close_agent = λ a w. w;
}

abbrev disabled : Config
disabled = record config { enable = false }

disabled_first_example :
    let s' = run runtime (init_call disabled ∷ init_call config ∷ []) fresh_process in
    ((init runtime disabled fresh_process).0 ≡ none)
    × (enabled runtime s' ≡ false)
    × (init runtime config s' ≡ (none, s'))
disabled_first_example =
    disabled_first runtime disabled config (init_call config ∷ []) fresh_process refl refl refl

-- The logger of an agent that is closed, at state 0, logs nothing.
abbrev count_open : ℕ → ℕ
count_open zero = 0
count_open (suc w) = suc (suc w)

abbrev process_reporting : Reporting ℕ ℕ ℕ
process_reporting = record {
  sprint = λ r. text "boom";
  stack = text "main";
  log_error = λ l msg attrs w. count_open w;
  sync_logger = λ l w. w;
}

abbrev running : Process ℕ ℕ
running = record { done = true; ag = some 1; bridged = none; world = 6 }

main_panic_unreported_example :
    main runtime process_reporting (some (λ s. (panicked 9, s))) running
    ≡ (returned none, record running { ag = none; world = 0 })
main_panic_unreported_example =
    main_panic_unreported runtime process_reporting (λ s. (panicked 9, s)) running running 1 9
      (λ msg attrs w. refl) refl refl refl
