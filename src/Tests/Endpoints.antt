-- ===== src/Tests/Endpoints.antt =====
-- A transport, the API, the ingest handler, the console and the statements of the databases.
use opslog.Prelude.{
  ℕ, suc, ◌≡◌, refl, ◌↔◌, ◌⊎◌, inl, inr, Bool, true, false, Option, none, some, List, [], ◌∷◌, take,
  is_nil, Text, Error, text, text_eq, has_prefix, is_space, trim_left, trim_right, trim_space,
  lookup,
}
use opslog.Framer.{Bytes, write_failed, write_length_prefixed}
use opslog.Signal.{Event}
use mathlib.Core.Path.{subst}
use opslog.Codec.{Json, json_decode, decode_batch_json, decode_json}
use opslog.Input.Http.{HttpInput, HaveHosts, handle_request, ingest-handle_request}
use opslog.Tcp.{Net, State, write_error, panicked, ensure, locked_write, send}
use opslog.Tcp.Laws.{Explains, IsHonest, send_explained, overlapping_sends_panic}
use opslog.Store.{Query}
use opslog.Api.{Request, Restorer, ok_json, handle_restore}
use opslog.Api.Laws.{Shows, hot_options, handle_restore_lem}
use opslog.App.{IngestRequest, Ingest, body_limit, ingest}
use opslog.Config.{BasicAuthConfig, active, served, console}
use opslog.Config.Laws.{console_iff}

-- A network on which every write fails; its state counts the calls.
abbrev broken : Net ℕ ℕ
broken = record {
  dial = λ n. (inr 1, suc n);
  conn_write = λ c n b. (suc n, true);
  close = λ c n. (suc n, none);
}

abbrev live : State ℕ ℕ
live = record { conn = some 1; ok_flag = true; net = 0 }

send_explained_example :
    Explains broken (send broken (7 ∷ []) live).0 (send broken (7 ∷ []) live).1
    × IsHonest broken (send broken (7 ∷ []) live).1
send_explained_example = send_explained broken (7 ∷ []) live

overlapping_sends_panic_example :
    let ensured = (ensure broken (ensure broken live).1).1 in
    let failed = locked_write broken (7 ∷ []) ensured in
    (failed.0 ≡ write_error write_failed) × ((locked_write broken (8 ∷ []) failed.1).0 ≡ panicked)
unfolding write_length_prefixed
overlapping_sends_panic_example =
    overlapping_sends_panic broken 1 (7 ∷ []) (8 ∷ []) live write_failed refl refl

-- A restorer that counts what it restores.
abbrev count_restores : Restorer ℕ
count_restores id opts d = (none, suc d)

abbrev restore_request : Request
restore_request = record {
  method = text "POST";
  get = λ k. [];
  restore_body = some (text "log-2024", false);
}

restore_test : handle_restore (some count_restores) restore_request 4 ≡ (ok_json, 5)
unfolding handle_restore text_eq
restore_test = refl

handle_restore_lem_example :
    (((handle_restore (some count_restores) restore_request 4).1 ≡ 4)
      × ¬ ((handle_restore (some count_restores) restore_request 4).0 ≡ ok_json))
    ⊎ ((text_eq restore_request.method (text "POST") ≡ true)
        × ((id : Text) × (overwrite : Bool) × (restore_request.restore_body ≡ some (id, overwrite))
            × (is_nil id ≡ false)
            × Shows count_restores restore_request 4
                (count_restores id (hot_options count_restores restore_request 4 overwrite) 4)
                (handle_restore (some count_restores) restore_request 4)))
handle_restore_lem_example = handle_restore_lem count_restores restore_request 4

-- A codec to which every payload is an empty object.
abbrev lenient : Json
lenient = record {
  unmarshal_object = λ b. inr [];
  unmarshal_array = λ b. inr (b ∷ b ∷ []);
  unmarshal_envelope = λ b. inr [];
  unmarshal_text = λ b s. (s, true);
  unmarshal_attrs = λ b m. m;
  parse_nano = λ s. none;
  parse_rfc3339 = λ s. none;
}

abbrev guarded : Ingest
guarded = record {
  token = text "t";
  json = lenient;
  to_text = λ b. b;
  split_host = λ a. none;
  now = 9;
}

abbrev ingest_request : IngestRequest
ingest_request = record {
  method = text "POST";
  authorization = text "Bearer t";
  remote = text "h";
  body = inr (text "[]");
}

abbrev count_event : Event → ℕ → ℕ
count_event e s = suc s

-- A block that sets the password only.
abbrev password_only : BasicAuthConfig
password_only = record { enabled = none; username = []; password = text "p" }

abbrev visitor : Option (Text × Text)
visitor = some (text "opslog", text "p")

console_iff_example : (console password_only visitor ≡ served) ↔ (
    (active password_only ≡ false)
    ⊎ (visitor ≡ some (password_only.username, password_only.password)))
console_iff_example = console_iff password_only visitor

abbrev two_levels : Query
two_levels = record {
  kind = text "log";
  from = 3;
  to = 0;
  levels = text "warn" ∷ text "error" ∷ [];
  services = text "api" ∷ [];
  hosts = [];
  trace_id = [];
  keyword = text "disk";
  offset = 0;
  limit = 0;
}

-- A codec to which every payload is an object with a host, and no envelope.
abbrev named : Ingest
named = record guarded {
  json = record lenient {
    unmarshal_object = λ b. inr ((text "host", b) ∷ []);
    unmarshal_envelope = λ b. inl (text "no envelope");
    unmarshal_text = λ b s. (text "h", true);
  };
  to_text = λ b. text "x";
}

-- The HTTP input with the JSON decoder.
abbrev json_input : HttpInput
json_input = record { token = text "t"; decode = json_decode named.json named.now }

inr_inj : (xs ys : List Event) → ◌≡◌ {A = Error ⊎ List Event} (inr xs) (inr ys) → xs ≡ ys
inr_inj xs ys e = cc

hosts_given :
    (whole : Bytes) (events : List Event)
    → decode_batch_json named.json named.to_text (take body_limit whole) ≡ inr events
    → HaveHosts named json_input count_event events
unfolding decode_batch_json decode_json trim_space trim_left trim_right is_space has_prefix lookup
    text_eq
hosts_given whole events e =
    subst (HaveHosts named json_input count_event) (inr_inj _ events e) (refl, tt)

ingest-handle_request_example :
    ingest named count_event ingest_request 0
    ≡ handle_request named json_input count_event ingest_request 0
ingest-handle_request_example =
    ingest-handle_request named json_input count_event refl (λ remote body. refl) ingest_request 0
      (λ whole events b e. hosts_given whole events e)
