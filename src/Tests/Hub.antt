-- ===== src/Tests/Hub.antt =====
-- A hub with two subscribers.
use opslog.Prelude.{
  ◌≡◌, refl, ◌↔◌, ◌⊎◌, true, false, List, [], ◌∷◌, select, Text, text, text_eq, has_prefix,
  contains, to_lower, ascii,
}
use opslog.Prelude.Subsequence.{◌⊑◌}
use opslog.Signal.{Event, empty_event, kind_log}
use opslog.Live.Match.{Filter, text_in, match, Allows, Mentions, match_iff}
use opslog.Live.{
  Sub, new_hub, Action, published, subscribed, forwarded, context_done, received, run,
}
use opslog.Live.Laws.{Inv, run_new-Inv}
use opslog.Live.Delivery.{got, publications, received_in_order}

abbrev errors : Filter
errors = record {
  kind = [];
  levels = text "error" ∷ [];
  services = [];
  hosts = [];
  keyword = text "Disk";
}

abbrev an_event : Text → Text → Event
an_event level message = record empty_event { kind = kind_log; level = level; message = message }

abbrev actions : List Action
actions =
    subscribed errors
    ∷ published (an_event (text "info") (text "ok"))
    ∷ published (an_event (text "error") (text "disk full"))
    ∷ forwarded 0
    ∷ forwarded 0
    ∷ received 0
    ∷ context_done 0
    ∷ []

run_new-Inv_example : Inv ascii (run ascii actions new_hub)
run_new-Inv_example = run_new-Inv ascii actions

-- The subscriber that `subscribed` adds.
abbrev fresh : Sub
fresh = record {
  id = 0;
  filter = errors;
  registered = true;
  inbox = [];
  out = [];
  finished = false;
}

received_in_order_example :
    got ascii actions fresh ⊑ select (match ascii errors) (publications ascii actions)
received_in_order_example = received_in_order ascii actions fresh refl refl

match_iff_example :
    let sig = an_event (text "error") (text "disk full") in
    (match ascii errors sig ≡ true) ↔ (
      ((errors.kind ≡ []) ⊎ (sig.kind ≡ errors.kind))
      × Allows errors.levels sig.level
      × Allows errors.services sig.service
      × Allows errors.hosts sig.host
      × Mentions ascii errors.keyword sig.message)
match_iff_example = match_iff ascii errors (an_event (text "error") (text "disk full"))

match_test : match ascii errors (an_event (text "error") (text "disk full")) ≡ true
unfolding match text_in text_eq contains to_lower has_prefix
match_test = refl
