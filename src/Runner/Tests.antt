-- ===== src/Runner/Tests.antt =====
-- Runs of a root agent that transfers to its sub-agent, and the theorems on them.
use orxhestra.Prelude.{
  ℕ, ◌+◌, false, none, some, [], ◌∷◌, ◌++◌, ◌≡◌, refl, ◌==ₜ◌, codes, keep, lookup, has_key, insert,
  merge, if◌then◌else◌,
}
use orxhestra.Events.{Event, no_actions, agent_message, new_event}
use orxhestra.Sessions.{
  Heap, empty_heap, create_session, get_session, get_or_create_session, append_event, events_at,
  state_at,
}
use orxhestra.Middleware.{Middleware, return, on_event, before_invoke, after_invoke, after_each}
use orxhestra.Agents.{Agent, agent, no_agents, with_agent, find_agent, find_among}
use orxhestra.Agents.Tree.{name_of}
use orxhestra.Runner.{
  finish, emit, Host, Runner, finished, yielded, starting_agent, named_agent, or_root, next_agent,
  initial_scope, new_target, after_entry, after_entries, stop, settled, error_of, is_out_of_fuel,
}
use orxhestra.Runner.Turns.{react, consume, hand_over, converse, markers, append_all, marker_event}
use orxhestra.Runner.Whole.{before_turns, invoke, settle, user_event, compact_if, astream}
use orxhestra.Runner.Log.{recorded, is_complete}
use orxhestra.Runner.Persist.{CompactedTo, astream-events}
use orxhestra.Runner.Marked.{agent_events}
use orxhestra.Runner.Restart.{astream-starting_agent}
use orxhestra.Samples.{answer, str_args}

abbrev billing : Agent
billing = agent (codes "billing") no_agents

abbrev root : Agent
root = agent (codes "root") (with_agent billing no_agents)

abbrev transferring : Event
transferring = record (new_event (codes "e7") 3 agent_message) {
  actions = record no_actions { transfer_to_agent = some (codes "billing") };
}

-- The root transfers, the sub-agent answers; the world counts the events that the middleware saw.
abbrev host : Host ℕ
host = record {
  astream = λ a c m h w.
      emit (if name_of a ==ₜ codes "root" then transferring else answer) w (λ h' w'. finish w');
  now = λ h w. w;
  fresh = λ h w. codes "id";
  invocation_id = λ w. codes "i1";
  str_args = str_args;
  is_space = λ c. false;
}

abbrev counting : Middleware ℕ ℕ ℕ ℕ ℕ
counting = record {
  before_invoke = none;
  after_invoke = none;
  on_event = some (λ e w. (return (some e), w + 1));
  before_model = none;
  after_model = none;
  wrap_tool = none;
}

abbrev runner : Runner ℕ ℕ ℕ ℕ ℕ
runner = record {
  agent = root;
  app_name = codes "shop";
  compaction_config = none;
  active_agent_state_key = codes "active";
  middleware = counting ∷ [];
}

-- Both agents' events reach the caller, and the sub-agent ran last.
transfers :
    let r = astream host runner 3 (codes "ann") (codes "s1") (codes "hey") empty_heap 0 in
    (yielded r.entries ≡ transferring ∷ answer ∷ [])
    × (r.current_agent ≡ billing)
    × (r.ending ≡ finished)
unfolding astream invoke compact_if get_or_create_session get_session create_session lookup
    append_event before_turns settle user_event starting_agent named_agent or_root next_agent
    initial_scope new_target after_entry after_entries stop settled error_of is_out_of_fuel react
    consume hand_over converse markers append_all marker_event on_event before_invoke after_invoke
    after_each find_agent find_among name_of yielded has_key insert merge ◌==ₜ◌
transfers = (refl, refl, refl)

abbrev opened : Heap × ℕ
opened =
    get_or_create_session (codes "id") 0 (codes "shop") (codes "ann") (codes "s1") (some [])
      empty_heap

astream-events_example :
    CompactedTo host runner opened.1
      (events_at opened.0 opened.1
        ++ keep is_complete (
            recorded
              (astream host runner 3
                (codes "ann")
                (codes "s1")
                (codes "hey")
                empty_heap
                0).entries))
      (events_at
        (astream host runner 3 (codes "ann") (codes "s1") (codes "hey") empty_heap 0).heap
        opened.1)
astream-events_example =
    astream-events host runner 3 (codes "ann") (codes "s1") (codes "hey") empty_heap 0

astream-starting_agent_example :
    starting_agent root (codes "active") (
      state_at
        (astream host runner 3 (codes "ann") (codes "s1") (codes "hey") empty_heap 0).heap
        opened.1)
    ≡ (astream host runner 3 (codes "ann") (codes "s1") (codes "hey") empty_heap 0).current_agent
unfolding astream invoke compact_if get_or_create_session get_session create_session lookup
    append_event before_turns settle user_event starting_agent named_agent or_root next_agent
    initial_scope new_target after_entry after_entries stop settled error_of is_out_of_fuel react
    consume hand_over converse markers append_all marker_event on_event before_invoke after_invoke
    after_each find_agent find_among name_of yielded has_key insert merge ◌==ₜ◌ agent_events
astream-starting_agent_example =
    astream-starting_agent host runner 3 (codes "ann") (codes "s1") (codes "hey") empty_heap 0 refl
      (refl, (refl, tt))
