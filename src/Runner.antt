-- ===== src/Runner.antt =====
-- orxhestra/runner.py: `Runner.astream`, over the in-memory session service. An agent's `astream` is a
-- stream that the runner resumes: it yields an event, and goes on with the heap and the world as they are after the
-- runner has stored the event and the middleware has seen it. Agents and middleware read the heap and change
-- the world, which holds the invocation context; the session they change only through the events. The caller takes every
-- event, so the generator is not closed early. Tracing spans, the run configuration and the artifact service have
-- no effect on what is modelled. The time, the ids and what agents do come from the host.
pub mod Turns
pub mod Whole
pub mod Log
pub mod Persist
pub mod Marked
pub mod Resume
pub mod Restart
pub mod Tests
use orxhestra.Prelude.{
  ℕ, zero, suc, Bool, true, false, Option, none, some, List, [], ◌∷◌, ◌++◌, map, Text, codes, ◌==ₜ◌,
  Dict, lookup, ltb, nonempty, if◌then◌else◌,
}
use orxhestra.Values.{Value, null, bool, text}
use orxhestra.Events.{
  Event, no_actions, user_message, agent_message, new_event, from_text, empty_content,
}
use orxhestra.Sessions.{Heap, append_event, get_or_create_session, events_at, state_at}
use orxhestra.Compaction.{Config, candidates, total_chars, compact_session}
use orxhestra.Middleware.{Result, return, raise, Stack, before_invoke, after_invoke, on_event}
use orxhestra.Agents.{Agent, find_agent, Scope}
use orxhestra.Agents.Tree.{name_of}

pub data Stream (S : Type 0) : Type 0 where
  finish : S → Stream S
  fail : Text → S → Stream S
  emit : Event → S → (Heap → S → Stream S) → Stream S

-- What the runner's loop sees, in order: an agent's event with the middleware's answer, an agent's event at which
-- the middleware raised, and the runner's own events.
pub data Entry : Type 0 where
  seen : Event → Option Event → Entry
  refused : Event → Entry
  marked : Event → Entry
  status : Event → Entry

pub data Ending : Type 0 where
  finished : Ending
  raised : Text → Ending
  out_of_fuel : Ending

-- One agent's turn.
pub record Turn (S : Type 0) : Type 0 where
  pub entries : List Entry
  pub transfer_target : Option Text
  pub ending : Ending
  pub heap : Heap
  pub world : S

-- A whole run, with the agent that ran last.
pub record Run (S : Type 0) : Type 0 where
  pub entries : List Entry
  pub current_agent : Agent
  pub ending : Ending
  pub heap : Heap
  pub world : S

pub record Host (S : Type 0) : Type 0 where
  pub astream : Agent → Scope → Text → Heap → S → Stream S
  pub now : Heap → S → ℕ
  pub fresh : Heap → S → Text
  -- `ctx.invocation_id`, of the context that the world holds
  pub invocation_id : S → Text
  pub str_args : Dict Value → Text
  pub is_space : ℕ → Bool

-- `active_agent_state_key` is empty where it is None.
pub record Runner (S Request Response Call Answer : Type 0) : Type 0 where
  pub agent : Agent
  pub app_name : Text
  pub compaction_config : Option Config
  pub active_agent_state_key : Text
  pub middleware : Stack S Request Response Call Answer

unfoldable pub yielded : List Entry → List Event
yielded [] = []
yielded (seen e none ∷ es) = yielded es
yielded (seen e (some answer) ∷ es) = answer ∷ yielded es
yielded (refused e ∷ es) = yielded es
yielded (marked e ∷ es) = yielded es
yielded (status e ∷ es) = e ∷ yielded es

-- `if event.actions and event.actions.transfer_to_agent`
unfoldable pub new_target : Option Text → Option Text → Option Text
new_target none before = before
new_target (some t) before = if nonempty t then some t else before

unfoldable pub or_root : Agent → Option Agent → Agent
or_root root none = root
or_root root (some a) = a

unfoldable pub named_agent : Agent → Option Value → Agent
unfolding or_root
named_agent root (some (text name)) =
    if nonempty name
    then if name ==ₜ name_of root then root else or_root root (find_agent name root)
    else root
named_agent root _ = root

unfoldable pub starting_agent : Agent → Text → Dict Value → Agent
unfolding named_agent
starting_agent root key state = if nonempty key then named_agent root (lookup key state) else root

unfoldable pub initial_scope : Agent → Scope
initial_scope a = record { agent_name = name_of a; branch = [] }

-- `self.agent.find_agent(transfer_target)`, where the turn has finished and there is a target.
unfoldable pub next_agent : Agent → Ending → Option Text → Option Agent
next_agent root finished (some target) = find_agent target root
next_agent root _ _ = none

unfoldable pub error_of : Ending → Option Text
error_of (raised error) = some error
error_of _ = none

unfoldable pub settled : Ending → Result (Unit {0}) → Ending
settled ending (return u) = ending
settled ending (raise error) = raised error

unfoldable pub is_out_of_fuel : Ending → Bool
is_out_of_fuel out_of_fuel = true
is_out_of_fuel _ = false

module _ {S : Type 0} where
  unfoldable pub after_entry : Entry → Turn S → Turn S
  after_entry entry t = record t { entries = entry ∷ t.entries }

  unfoldable pub after_entries : List Entry → Run S → Run S
  after_entries entries r = record r { entries = entries ++ r.entries }

  unfoldable pub stop : Agent → Turn S → Run S
  stop a t = record {
    entries = t.entries;
    current_agent = a;
    ending = t.ending;
    heap = t.heap;
    world = t.world;
  }
