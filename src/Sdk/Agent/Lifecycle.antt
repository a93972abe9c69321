-- ===== src/Sdk/Agent/Lifecycle.antt =====
-- sdk/agent/agent.go: starting and closing an agent, and its collectors.
pub mod Laws
use opslog.Prelude.{
  ℕ, zero, suc, ◌+◌, ◌-◌, ◌*◌, ◌/◌, ◌%◌, ◌^◌, ◌≤◌, ◌<◌, ◌≡◌, refl, sym, ap, ◌∙◌, ◌≢◌, ◌↔◌, ◌⊎◌, inl,
  inr, Bool, true, false, not, ◌&&◌, ◌||◌, Option, none, some, List, [], ◌∷◌, ◌++◌, map,
  append_assoc, append-nil, arith, ltb, leb, ◌==◌, if◌then◌else◌, ltb→lt, leb→le, ==_iff,
  Bool-cases, Option-cases, length, take, drop, is_nil, select, replicate, any, flatten,
  flatten_snoc, length-replicate, length-append, take-append-drop, length-take, length-drop,
  take-append, drop-append, select-append, append_snoc, All, All-append, All-drop, All-take, Text,
  Error, text, text_eq, text_eq_refl, text_eq_sound, text_eq_iff, has_prefix, contains, has_suffix,
  is_space, trim_left, trim_right, trim_space, utf8_len, has_prefix_sound, has_prefix-append,
  HasPart, contains_sound, contains_complete, CaseMap, ascii_lower, ascii_upper, IsAscii, to_lower,
  to_upper, to_lower_ascii, to_upper_ascii, to_lower_idem, to_upper_idem, ascii, Dict, lookup,
  insert, without, lookup-insert, lookup-without, lookup-insert_self, lookup-append, ℤ, pos, negsuc,
  positive_part, cut_at, trim, trim_prefix, insert-All, lookup-All,
}
use opslog.Signal.{Signal, event, foreign}
use opslog.Sdk.Policy.{Transport}
use opslog.Sdk.Agent.Queue.{AgentState, enqueue_signal, sent, take_one, agent_step, held_at}

-- The context of a send: that of the agent before or after `Close` has cancelled it, or that of a
-- worker's last loop, before or after its two seconds.
pub data SendContext : Type 0 where
  live cancelled draining expired : SendContext

-- What the transports do to the state `W` of the network, `sendOne` in a context, and the collectors.
pub record Parts (C W : Type 0) : Type 0 where
  pub start_transport : Transport → W → Option Error × W
  pub flush_transport : Transport → W → Option Error × W
  pub close_transport : Transport → W → Option Error × W
  pub send_signal : SendContext → Signal → W → Option Error × W
  pub collect : C → W → (Error ⊎ List Signal) × W

-- The fields of `agentImpl` that do not change.
pub record Setup (C : Type 0) : Type 0 where
  pub service : Text
  pub host : Text
  pub transports : List Transport
  pub collectors : List C
  pub queue_size : ℕ

-- A live agent: its queue with `closed`, the workers and collecting loops that run, and the network.
-- `handed` records the signals for which `sendOne` has run, in the order in which it did.
pub record LiveAgent (W : Type 0) : Type 0 where
  pub queue : AgentState Signal
  pub workers : ℕ
  pub loops : ℕ
  pub world : W
  pub handed : List Signal

-- What the workers may do next while `Close` waits for them: one that is free receives the head of the
-- channel, or the one that holds the signal at a position runs `sendOne` for it, in a context.
pub data Turn : Type 0 where
  receive : Turn
  send_held : ℕ → SendContext → Turn

abbrev pub or_first : Option Error → Option Error → Option Error
or_first none e = e
or_first (some f) e = some f

module _ {C W : Type 0} (io : Parts C W) (a : Setup C) where
  open io use {start_transport, flush_transport, close_transport, send_signal, collect}

  abbrev pub start_error : Transport → Error → Error
  start_error t e = text "start transport " ++ (t.name ++ (text ": " ++ e))

  -- The loop of `Start`: it stops at the first transport that fails.
  unfoldable pub start_next :
      Transport → (W → Option Error × W) → Option Error × W → Option Error × W
  start_next t rest (some e, w) = (some (start_error t e), w)
  start_next t rest (none, w) = rest w

  unfoldable pub start_each : List Transport → W → Option Error × W
  start_each [] w = (none, w)
  start_each (t ∷ ts) w = start_next t (start_each ts) (start_transport t w)

  unfoldable pub started : LiveAgent W → Option Error × W → Option Error × LiveAgent W
  started l (some e, w) = (some e, record l { world = w })
  started l (none, w) = (
    none,
    record l {
      workers = l.workers + 2;
      loops = if is_nil a.collectors then l.loops else l.loops + 1;
      world = w;
    },
  )

  -- `Start`
  unfoldable pub start : LiveAgent W → Option Error × LiveAgent W
  start l = started l (start_each a.transports l.world)

  pub sent_by : ℕ → SendContext → Option Signal → LiveAgent W → LiveAgent W
  sent_by i c none l = l
  sent_by i c (some sig) l = record l {
    queue = agent_step a.queue_size l.workers (sent i) l.queue;
    world = (send_signal c sig l.world).1;
    handed = sig ∷ l.handed;
  }

  -- The loops of `worker`, which receive as well before as after the context is done, and return only
  -- when they find the channel empty.
  unfoldable pub turn : Turn → LiveAgent W → LiveAgent W
  unfolding sent_by
  turn receive l = record l { queue = agent_step a.queue_size l.workers take_one l.queue }
  turn (send_held i c) l = sent_by i c (held_at i l.queue.inflight) l

  unfoldable pub run_turns : List Turn → LiveAgent W → LiveAgent W
  run_turns [] l = l
  run_turns (t ∷ turns) l = run_turns turns (turn t l)

  -- The flushes of `Sync`, whose errors are only logged.
  unfoldable pub flush_each : List Transport → W → W
  flush_each [] w = w
  flush_each (t ∷ ts) w = flush_each ts (flush_transport t w).1

  -- `Sync` once no signal is on its way, or after its deadline
  unfoldable pub sync : LiveAgent W → LiveAgent W
  sync l = record l { world = flush_each a.transports l.world }

  -- The closing of the transports, and the first error.
  unfoldable pub close_each : Option Error → List Transport → W → Option Error × W
  close_each first [] w = (first, w)
  close_each first (t ∷ ts) w =
      let (e, w') = close_transport t w in close_each (or_first first e) ts w'

  -- `a.wg.Wait()` at some moment: the workers have returned once the channel is empty and nothing is
  -- being sent, or where none was started. `none` says that it still waits.
  unfoldable pub wait : LiveAgent W → Option (LiveAgent W)
  wait l =
      if 0 == l.workers || (is_nil l.queue.ch && is_nil l.queue.inflight)
      then some (record l { workers = 0; loops = 0 })
      else none

  unfoldable pub closed_with : LiveAgent W → Option Error × W → Option Error × LiveAgent W
  closed_with l (e, w) = (e, record l { world = w })

  unfoldable pub close_waited : Option (LiveAgent W) → Option (Option Error × LiveAgent W)
  close_waited none = none
  close_waited (some l) = some (closed_with (sync l) (close_each none a.transports (sync l).world))

  -- `Close`, by what the workers do before the wait is over, in any order; `none` says that it has not
  -- returned. No call of `enqueue` goes on to the channel meanwhile.
  unfoldable pub close : List Turn → LiveAgent W → Option (Option Error × LiveAgent W)
  close turns l =
      if l.queue.closed
      then some (none, l)
      else close_waited
          (wait (run_turns turns (record l { queue = record (l.queue) { closed = true } })))

  -- The names that `runCollectors` gives to an event without them.
  unfoldable pub name_signal : Signal → Signal
  name_signal (foreign e) = foreign e
  name_signal (event e) = event (record e {
    service = if is_nil e.service then a.service else e.service;
    host = if is_nil e.host then a.host else e.host;
  })

  -- The inner loop, with its calls of `enqueue`.
  unfoldable pub enqueue_each : List Signal → AgentState Signal → AgentState Signal
  enqueue_each [] q = q
  enqueue_each (s ∷ sigs) q = enqueue_each sigs (enqueue_signal a.queue_size 2 (name_signal s) q)

  unfoldable pub collected : LiveAgent W → (Error ⊎ List Signal) × W → LiveAgent W
  collected l (inl e, w) = record l { world = w }
  collected l (inr sigs, w) = record l { queue = enqueue_each sigs l.queue; world = w }

  -- `runCollectors`
  unfoldable pub run_collectors : List C → LiveAgent W → LiveAgent W
  run_collectors [] l = l
  run_collectors (c ∷ cs) l = run_collectors cs (collected l (collect c l.world))
