-- ===== src/Tests/Enrich.antt =====
-- The environment of a process with a secret in it, and a small configuration.
use opslog.Prelude.{
  ◌≤◌, ◌≡◌, refl, true, false, none, some, [], ◌∷◌, arith, length, Text, text, text_eq, has_prefix,
  contains, has_suffix, is_space, trim_left, trim_right, trim_space, utf8_len, to_upper, ascii,
  Dict, lookup, insert, pos, cut_at, trim, trim_prefix,
}
use opslog.Signal.{empty_event, event, clone, copy_into}
use opslog.Cfg.{Std}
use opslog.Sdk.Enricher.{
  Os, is_secret_env_key, is_system_env_key, hidden, collect_filtered_environ, collect_keys,
  collect_environ, collect_allow_listed_env, collect_system, collect_system_environ, merge_etc,
  read_etc_environment, first_set, lookup_profile, etc_line,
}
use opslog.Sdk.Enricher.Laws.{HasNoSecrets, collect_filtered-length}
use opslog.Sdk.Enricher.Diagnostic.{
  Machine, Diagnostic, ensure_static, freeze, put_text, put_environ, service_attrs, environ_attrs,
  put_status, sys_attrs, frozen_attrs, build_attrs, fill, send_filled, before_send,
}
use opslog.Sdk.Enricher.Diagnostic.Laws.{HasCleanFrozen, sent_event, before_send_no_secrets}

abbrev os : Os
os = record {
  environ = text "A=1" ∷ text "DB_PASSWORD=x" ∷ text "B=2" ∷ [];
  lookup_env = λ k. none;
  etc_environment = none;
}

environ_test :
    collect_filtered_environ ascii os (pos 0) ≡ (text "A", text "1") ∷ (text "B", text "2") ∷ []
unfolding collect_filtered_environ collect_environ hidden is_secret_env_key cut_at insert text_eq
    contains has_prefix has_suffix to_upper
environ_test = refl

etc_line_test : etc_line ascii os (text " export A=\"b\" ") ≡ some (text "A", text "b")
unfolding etc_line trim_space trim_right trim_left trim trim_prefix has_prefix cut_at is_space
etc_line_test = refl

collect_filtered-length_example : length (collect_filtered_environ ascii os (pos 1)) ≤ 1
collect_filtered-length_example = collect_filtered-length ascii os (pos 1) (omega arith)

abbrev machine : Machine
machine = record {
  os = os;
  hostname = text "h";
  pid = 7;
  go_version = [];
  goos = [];
  goarch = [];
  cwd = [];
  now = 0;
  build_system_status = record { size = 0; content = 0 };
}

abbrev hook : Diagnostic
hook = record {
  version = [];
  git_sha = [];
  env_keys = text "A" ∷ [];
  include_environ = true;
  include_sys = false;
  max_environ = pos 0;
  service = [];
  frozen = none;
}

abbrev public_part : Dict Text
public_part = (text "A", text "1") ∷ (text "B", text "2") ∷ []

before_send_no_secrets_example :
    HasNoSecrets ascii public_part
    × HasCleanFrozen ascii (before_send ascii machine hook none (event empty_event)).hook.frozen
unfolding sent_event before_send send_filled ensure_static freeze build_attrs service_attrs
    environ_attrs sys_attrs frozen_attrs put_text put_environ put_status fill clone copy_into
    collect_filtered_environ collect_environ collect_keys collect_allow_listed_env collect_system
    collect_system_environ merge_etc read_etc_environment first_set lookup_profile hidden
    is_secret_env_key is_system_env_key cut_at insert lookup text_eq contains has_prefix has_suffix
    to_upper utf8_len
before_send_no_secrets_example =
    before_send_no_secrets ascii machine hook none empty_event (text "process_environ") public_part
      tt tt refl refl

abbrev std : Std
std = record { sprint = λ v. []; parse_duration = λ s. none; truncate = λ bits. pos 0 }
