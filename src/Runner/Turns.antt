-- ===== src/Runner/Turns.antt =====
-- The loop of `Runner.astream` in orxhestra/runner.py: an agent's events, and the transfers from agent to agent.
use orxhestra.Prelude.{
  ℕ, zero, suc, Option, none, some, List, [], ◌∷◌, ◌++◌, map, Text, codes, ◌==ₜ◌, nonempty,
  if◌then◌else◌,
}
use orxhestra.Values.{null, text}
use orxhestra.Events.{Event, no_actions, agent_message, new_event, empty_content}
use orxhestra.Sessions.{Heap, append_event}
use orxhestra.Middleware.{Result, return, raise, on_event}
use orxhestra.Agents.{Agent}
use orxhestra.Agents.Tree.{name_of}
use orxhestra.Runner.{
  Stream, finish, fail, emit, seen, refused, marked, finished, raised, out_of_fuel, Turn, Run, Host,
  Runner, new_target, initial_scope, next_agent, after_entry, after_entries, stop,
}

module _ {S : Type 0} where
  -- What follows the middleware's answer to an event.
  unfoldable pub react :
      Event → Option Text → Heap → Result (Option Event) × S → (Option Text → S → Turn S) → Turn S
  unfolding after_entry new_target
  react e target h (return none, w) continue = after_entry (seen e none) (continue target w)
  react e target h (return (some answer), w) continue =
      after_entry (seen e (some answer))
        (continue (new_target e.actions.transfer_to_agent target) w)
  react e target h (raise error, w) continue = record {
    entries = refused e ∷ [];
    transfer_target = target;
    ending = raised error;
    heap = h;
    world = w;
  }

module _ {S Request Response Call Answer : Type 0} (host : Host S)
    (runner : Runner S Request Response Call Answer) (address : ℕ) where
  unfoldable pub consume : Stream S → Option Text → Heap → Turn S
  consume (finish w) target h = record {
    entries = [];
    transfer_target = target;
    ending = finished;
    heap = h;
    world = w;
  }
  consume (fail error w) target h = record {
    entries = [];
    transfer_target = target;
    ending = raised error;
    heap = h;
    world = w;
  }
  consume (emit e w more) target h =
      let h' = append_event (host.now h w) address e h in
      react e target h' (on_event runner.middleware (some e) w)
        (λ target' w'. consume (more h' w') target' h')

  -- The event that marks a transfer in the session's state.
  unfoldable pub marker_event : Heap → S → Agent → Event
  marker_event h w target = record (new_event (host.fresh h w) (host.now h w) agent_message) {
    invocation_id = host.invocation_id w;
    author = codes "system";
    session_id = some (h.session address).id;
    content = empty_content;
    actions = record no_actions {
      state_delta =
          (
            runner.active_agent_state_key,
            if name_of target ==ₜ name_of runner.agent then null else text (name_of target),
          )
          ∷ [];
    };
  }

  -- The marker that a transfer appends: none where active agents are not kept.
  unfoldable pub markers : Heap → S → Agent → List Event
  unfolding marker_event
  markers h w target =
      if nonempty runner.active_agent_state_key then marker_event h w target ∷ [] else []

  unfoldable pub append_all : List Event → Heap → S → Heap
  append_all [] h w = h
  append_all (e ∷ es) h w = append_all es (append_event (host.now h w) address e h) w

  unfoldable pub hand_over : Agent → Turn S → Option Agent → (Agent → Heap → S → Run S) → Run S
  unfolding stop after_entries markers append_all
  hand_over current turn none continue = stop current turn
  hand_over current turn (some target) continue =
      let marks = markers turn.heap turn.world target in
      after_entries (turn.entries ++ map marked marks)
        (continue target (append_all marks turn.heap turn.world) turn.world)

  -- The `while True` loop, from an agent on.
  unfoldable pub converse : Text → ℕ → Agent → Heap → S → Run S
  unfolding consume hand_over next_agent initial_scope
  converse message zero current h w = record {
    entries = [];
    current_agent = current;
    ending = out_of_fuel;
    heap = h;
    world = w;
  }
  converse message (suc fuel) current h w =
      let turn = consume (host.astream current (initial_scope current) message h w) none h in
      hand_over current turn (next_agent runner.agent turn.ending turn.transfer_target)
        (λ target h' w'. converse message fuel target h' w')
