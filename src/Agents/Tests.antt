-- ===== src/Agents/Tests.antt =====
-- Runs of composite agents over scripted sub-agents, and the theorems on them at concrete agents.
use orxhestra.Prelude.{
  ℕ, zero, suc, ◌<◌, ◌≡◌, refl, true, false, none, some, List, [], ◌∷◌, ◌++◌, Text, codes, ◌==ₜ◌,
  length, keep, inl, inr,
}
use orxhestra.Events.{Event, is_final_response}
use orxhestra.Agents.{
  Agent, agent, no_agents, with_agent, find_agent, Scope, derive, Script, finish, emit, Host,
  LoopAgent, sequential_astream, loop_astream,
}
use orxhestra.Agents.Tree.{preorder, first_named, find_agent-preorder}
use orxhestra.Agents.Streams.{events, final, handed_on, sequential_astream-events}
use orxhestra.Agents.Loops.{ends, loop_astream-ends}
use orxhestra.Agents.Parallel.{
  SubAgent, Move, child_turn, loop_turn, parallel_astream, tasks_of, start, run_moves, step,
  forward, take_next, put_at, put_by, advance_at, advance, child_of,
}
use orxhestra.Agents.Merged.{fails, parallel_astream_waits}
use orxhestra.Agents.Demultiplexed.{left, IsAlone, yields, parallel_astream_demultiplexed}
use orxhestra.Agents.Drained.{parallel_astream_ends}
use orxhestra.Samples.{hello, answer, escalating}

abbrev tree : Agent
tree = agent (codes "root") (
    with_agent (agent (codes "a") (with_agent (agent (codes "b") no_agents) no_agents)) (
      with_agent (agent (codes "b") (with_agent (agent (codes "c") no_agents) no_agents))
        no_agents))

find_agent-preorder_example : find_agent (codes "b") tree ≡ first_named (codes "b") (preorder tree)
find_agent-preorder_example = find_agent-preorder (codes "b") tree

-- The world counts the runs of sub-agents; the third run escalates.
abbrev run : ℕ → Script ℕ
run zero = emit answer 1 (finish 1)
run (suc zero) = emit answer 2 (finish 2)
run (suc (suc n)) = emit answer 3 (emit escalating 3 (emit answer 3 (finish 3)))

abbrev host : Host ℕ
host = record {
  end_invocation = λ w. false;
  astream = λ a i c w. run w;
  emit_error = λ c t w. (hello, w);
  reset_sub_agent_states = λ n w. w;
  str_of = λ n. n ∷ [];
}

abbrev scope : Scope
scope = record { agent_name = codes "root"; branch = [] }

abbrev looping : LoopAgent
looping = record {
  name = codes "loop";
  sub_agents = codes "a" ∷ codes "b" ∷ [];
  max_iterations = some 3;
  should_continue = none;
}

run-ends : (w : ℕ) → ends (run w) ≡ true
unfolding ends
run-ends zero = refl
run-ends (suc zero) = refl
run-ends (suc (suc n)) = refl

loop_astream-ends_example : ends (loop_astream host looping (codes "go") scope 4 0) ≡ true
loop_astream-ends_example =
    loop_astream-ends host looping (codes "go") scope (λ a i c w. run-ends w) 3 refl 0

sequential_astream-events_example :
    events (sequential_astream host (codes "a" ∷ codes "b" ∷ []) (codes "go") scope 0)
    ≡ answer ∷ []
      ++ events
          (sequential_astream host (codes "b" ∷ []) (handed_on (codes "go") (answer ∷ [])) scope 1)
unfolding events final derive
sequential_astream-events_example =
    sequential_astream-events host (codes "a") (codes "b" ∷ []) (codes "go") scope 0 1 refl refl

-- One sub-agent says hello, one answers, and one raises.
abbrev yielding_once : Text → Event → SubAgent
yielding_once name e = record { name = name; astream = λ input ctx. (e ∷ [], none) }

abbrev failing : SubAgent
failing = record { name = codes "c"; astream = λ input ctx. ([], some (codes "no")) }

abbrev pair : List SubAgent
pair = yielding_once (codes "a") hello ∷ yielding_once (codes "b") answer ∷ []

-- The second one's answer comes first.
abbrev turn_list : List Move
turn_list =
    child_turn 1
    ∷ loop_turn
    ∷ child_turn 0
    ∷ child_turn 1
    ∷ child_turn 0
    ∷ loop_turn
    ∷ loop_turn
    ∷ loop_turn
    ∷ []

merged_stream : (parallel_astream pair (codes "go") scope turn_list).stream ≡ answer ∷ hello ∷ []
unfolding parallel_astream tasks_of start run_moves step forward take_next put_at put_by advance_at
    advance child_of ◌==ₜ◌
merged_stream = refl

parallel_astream_waits_example :
    let m = parallel_astream (failing ∷ pair) (codes "go") scope turn_list in
    m.done_count < length m.children
unfolding tasks_of child_of fails ◌==ₜ◌
parallel_astream_waits_example =
    parallel_astream_waits (codes "go") scope (failing ∷ pair) turn_list refl

parallel_astream_demultiplexed_example :
    keep is_final_response (parallel_astream pair (codes "go") scope turn_list).stream
    ≡ left is_final_response (tasks_of (codes "go") scope pair)
unfolding parallel_astream tasks_of start run_moves step forward take_next put_at put_by advance_at
    advance child_of ◌==ₜ◌ IsAlone left yields is_final_response
parallel_astream_demultiplexed_example =
    parallel_astream_demultiplexed is_final_response (codes "go") scope pair turn_list
      (inl (refl, inr refl)) refl

parallel_astream_ends_example :
    (more : List Move) × (let m = parallel_astream pair (codes "go") scope (turn_list ++ more) in
      m.done_count ≡ length m.children)
unfolding tasks_of child_of fails ◌==ₜ◌
parallel_astream_ends_example = parallel_astream_ends (codes "go") scope pair turn_list refl
