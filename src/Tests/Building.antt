-- ===== src/Tests/Building.antt =====
-- Transports and inputs on networks that answer, and a server with one output.
use opslog.Prelude.{
  ℕ, suc, ◌%◌, ◌^◌, ◌<◌, ◌≡◌, refl, ◌↔◌, ◌⊎◌, inl, inr, true, false, Option, none, some, [], ◌∷◌,
  Text, Error, text, text_eq, lookup, pos,
}
use opslog.Framer.{Bytes}
use opslog.Cfg.{Std, string, Config, get_string, value_at}
use opslog.Config.{apply_web_basic_auth_defaults}
use opslog.Config.Load.{
  File, load, checked, with_defaults, parse_component, copy_settings, is_reserved,
}
use opslog.Transport.{Endpoint}
use opslog.Transport.Httpx.{Client, send_batch, send_batch_lem}
use opslog.Transport.Httpx
use opslog.Input.Servers.{grpc_send_stream, send_all, stream_from, stream_round, counted}
use opslog.Input.Intake.{grpc_send_stream_lem}
use opslog.Registry.{build_output, call_factory}
use opslog.App.Build.{
  App, Parts, bind, build_each, build_one_output, build_procs, build_inputs, assemble, first_with,
  new,
}
use opslog.App.Build.Laws.{IsServing, new-IsServing}

abbrev endpoint : Endpoint
endpoint = record {
  typ = text "http";
  name = text "main";
  address = text "http://h";
  token = [];
  timeout = pos 0;
}

-- A server that accepts everything; its state counts the requests.
abbrev accepting : Client ℕ
accepting = record { new_request = λ url. none; do_request = λ r n. (inr 202, suc n) }

abbrev idle : Httpx.State ℕ
idle = record { ok_flag = false; first_ok = false; net = 0 }

abbrev print : ℕ → Text
print n = []

send_batch_lem_example :
    let out = send_batch accepting print endpoint ((1 ∷ []) ∷ (2 ∷ []) ∷ []) idle in
    (out.1.net ≡ 1)
    × ((out.0 ≡ none)
        ↔ ((status : ℕ) × (◌≡◌ {A = Error ⊎ ℕ} (inr 202) (inr status)) × (status < 300)))
    × ((out.1.ok_flag ≡ true) ↔ (out.0 ≡ none))
send_batch_lem_example = send_batch_lem accepting print endpoint (1 ∷ []) ((2 ∷ []) ∷ []) idle refl

-- Payloads that decode unless they are empty; the state counts the dispatches.
abbrev decode : Text → Bytes → Error ⊎ ℕ
decode remote [] = inl (text "empty")
decode remote (b ∷ bs) = inr b

abbrev dispatch : ℕ → ℕ → Option Error × ℕ
dispatch sig n = (none, suc n)

stream_test : grpc_send_stream decode dispatch [] ((1 ∷ []) ∷ [] ∷ (2 ∷ []) ∷ []) 5 ≡ (2, 7)
unfolding grpc_send_stream stream_from stream_round counted
stream_test = refl

grpc_send_stream_lem_example :
    let r = grpc_send_stream decode dispatch [] ((1 ∷ []) ∷ [] ∷ []) 5 in
    let one_by_one = send_all decode dispatch [] ((1 ∷ []) ∷ [] ∷ []) 5 in
    (r.1 ≡ one_by_one.1) × (r.0 % 2 ^ 32 ≡ one_by_one.0 % 2 ^ 32)
grpc_send_stream_lem_example = grpc_send_stream_lem decode dispatch [] ((1 ∷ []) ∷ [] ∷ []) 5

abbrev std : Std
std = record { sprint = λ v. []; parse_duration = λ s. none; truncate = λ bits. pos 0 }

abbrev store : Config
store = (text "type", string (text "fs")) ∷ []

abbrev file : File
file = record {
  listen = text ":1";
  token = [];
  basic_auth = record { enabled = some false; username = text "u"; password = [] };
  inputs = [];
  outputs = store ∷ [];
  pipeline = [];
}

-- One kind of output, which is the number 7.
abbrev parts : Parts ℕ ℕ ℕ ℕ ℕ
parts = record {
  quote = λ t. t;
  registry = record {
    inputs = [];
    decoders = [];
    processors = [];
    outputs = (text "fs", λ name cfg. inr 7) ∷ [];
    transports = [];
  };
  json = 1;
  plain = 2;
  normalize = 3;
  new_udp = λ name cfg d. inr 4;
  new_tcp = λ name cfg d. inr 5;
  new_grpc = λ name cfg d. inr 6;
  is_queryable = λ o. true;
  is_archiver = λ o. false;
  is_restorer = λ o. false;
}

abbrev served : App ℕ ℕ ℕ
served = record {
  inputs = [];
  procs = 3 ∷ [];
  outs = 7 ∷ [];
  queryable = some 7;
  archiver = none;
  restorer = none;
}

new-IsServing_example : IsServing std parts file served
unfolding load checked with_defaults apply_web_basic_auth_defaults new bind build_each
    build_one_output parse_component copy_settings is_reserved get_string value_at lookup text_eq
    build_output call_factory build_procs build_inputs assemble first_with
new-IsServing_example = new-IsServing std parts (inr file) file served refl refl
