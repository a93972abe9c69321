-- ===== src/Live.antt =====
-- server/internal/live/hub.go: subscribers of the live stream, each behind two bounded buffers.
pub mod Match
pub mod Laws
pub mod Delivery
use opslog.Prelude.{
  ℕ, zero, suc, ◌+◌, ◌-◌, ◌*◌, ◌/◌, ◌%◌, ◌^◌, ◌≤◌, ◌<◌, ◌≡◌, refl, sym, ap, ◌∙◌, ◌≢◌, ◌↔◌, ◌⊎◌, inl,
  inr, Bool, true, false, not, ◌&&◌, ◌||◌, Option, none, some, List, [], ◌∷◌, ◌++◌, map,
  append_assoc, append-nil, arith, ltb, leb, ◌==◌, if◌then◌else◌, ltb→lt, leb→le, ==_iff,
  Bool-cases, Option-cases, length, take, drop, is_nil, select, replicate, any, flatten,
  flatten_snoc, length-replicate, length-append, take-append-drop, length-take, length-drop,
  take-append, drop-append, select-append, append_snoc, All, All-append, All-drop, All-take, Text,
  Error, text, text_eq, text_eq_refl, text_eq_sound, text_eq_iff, has_prefix, contains, has_suffix,
  is_space, trim_left, trim_right, trim_space, utf8_len, has_prefix_sound, has_prefix-append,
  HasPart, contains_sound, contains_complete, CaseMap, ascii_lower, ascii_upper, IsAscii, to_lower,
  to_upper, to_lower_ascii, to_upper_ascii, to_lower_idem, ascii, Dict, lookup, insert, without,
  lookup-insert, lookup-without, lookup-insert_self, lookup-append,
}
use opslog.Signal.{Event}
use opslog.Live.Match.{Filter, match}

-- The capacity of both channels of a subscription.
abbrev pub buffer : ℕ
buffer = 128

-- A subscription: whether `subs` still has it, which also says that `ch` is open; what waits in `ch`
-- and in `out`; whether the forwarding goroutine has returned, which closes `out`.
pub record Sub : Type 0 where
  pub id : ℕ
  pub filter : Filter
  pub registered : Bool
  pub inbox : List Event
  pub out : List Event
  pub finished : Bool

-- `Hub`, with the subscriptions in the order of their ids; the map is those that are registered.
pub record Hub : Type 0 where
  pub subs : List Sub
  pub next : ℕ

abbrev pub new_hub : Hub
new_hub = record { subs = []; next = 0 }

-- A send that gives up when the buffer is full: `select { case ch <- sig: default: }`
unfoldable pub try_send : List Event → Event → List Event
try_send queue sig = if ltb (length queue) buffer then queue ++ sig ∷ [] else queue

-- The body of the loop of `Publish`, which ranges over the registered channels.
unfoldable pub publish_to : Event → Sub → Sub
unfolding try_send
publish_to sig s = if s.registered then record s { inbox = try_send s.inbox sig } else s

unfoldable pub publish : Event → Hub → Hub
publish sig h = record h { subs = map (publish_to sig) h.subs }

-- `Subscribe` returns the id that its `cancel` closes over.
unfoldable pub subscribe : Filter → Hub → ℕ × Hub
subscribe f h = (
  h.next,
  record {
    subs =
        h.subs
        ++ record {
          id = h.next;
          filter = f;
          registered = true;
          inbox = [];
          out = [];
          finished = false;
        }
          ∷ [];
    next = h.next + 1;
  },
)

pub cancel_sub : Sub → Sub
cancel_sub s = record s { registered = false }

-- `case sig, ok := <-ch`: a signal goes on if it matches; a closed and empty channel ends the loop.
-- With nothing to receive from an open channel the goroutine waits.
forward_from : CaseMap → List Event → Sub → Sub
unfolding try_send
forward_from u [] s = if s.registered then s else record s { finished = true }
forward_from u (sig ∷ rest) s =
    if match u s.filter sig
    then record s { inbox = rest; out = try_send s.out sig }
    else record s { inbox = rest }

-- One round of the forwarding goroutine; none after it has returned.
unfoldable pub forward_sub : CaseMap → Sub → Sub
unfolding forward_from
forward_sub u s = if s.finished then s else forward_from u s.inbox s

-- `case <-ctx.Done()`: cancel, and return.
unfoldable pub done_sub : Sub → Sub
done_sub s = if s.finished then s else record s { registered = false; finished = true }

-- The subscriber receives the head of `out`.
unfoldable pub receive_sub : Sub → Sub
receive_sub s = record s { out = drop 1 s.out }

-- An action on the subscription with an id.
unfoldable pub at_id : ℕ → (Sub → Sub) → Hub → Hub
at_id i f h = record h { subs = map (λ s. if s.id == i then f s else s) h.subs }

-- What can happen to a hub, in any order.
pub data Action : Type 0 where
  published : Event → Action
  subscribed : Filter → Action
  cancelled forwarded context_done received : ℕ → Action

unfoldable pub act : CaseMap → Action → Hub → Hub
unfolding publish publish_to subscribe cancel_sub forward_sub done_sub receive_sub at_id
act u (published sig) h = publish sig h
act u (subscribed f) h = (subscribe f h).1
act u (cancelled i) h = at_id i cancel_sub h
act u (forwarded i) h = at_id i (forward_sub u) h
act u (context_done i) h = at_id i done_sub h
act u (received i) h = at_id i receive_sub h

unfoldable pub run : CaseMap → List Action → Hub → Hub
run u [] h = h
run u (a ∷ actions) h = run u actions (act u a h)
