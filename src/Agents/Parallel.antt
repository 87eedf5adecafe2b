-- ===== src/Agents/Parallel.antt =====
-- `ParallelAgent.astream` of orxhestra/agents/parallel_agent.py: sub-agents that run as tasks and put their events on one queue, and the loop
-- that takes them off. The event loop chooses who goes on, so a run is a list of moves. What a sub-agent yields, and
-- the error that ends it, if any, is an argument; its other effects are outside the model. The caller takes every event.
use orxhestra.Prelude.{
  ℕ, zero, suc, Option, none, some, List, [], ◌∷◌, ◌++◌, map, Text, ltb, length, if◌then◌else◌,
}
use orxhestra.Events.{Event}
use orxhestra.Agents.{Scope, derive}

-- A task of `run_and_forward`, with what its sub-agent has still to yield.
pub data Child : Type 0 where
  running : List Event → Option Text → Child
  ended : Child
  crashed : Child

-- `merged` is the queue, none for the end of a sub-agent; `stream` is what was yielded so far.
pub record Merging : Type 0 where
  pub children : List Child
  pub merged : List (Option Event)
  pub done_count : ℕ
  pub stream : List Event

pub data Move : Type 0 where
  child_turn : ℕ → Move
  loop_turn : Move

-- What one turn of `run_and_forward` puts on the queue.
unfoldable pub put_by : Child → List (Option Event)
put_by (running (e ∷ es) error) = some e ∷ []
put_by (running [] none) = none ∷ []
put_by (running [] (some error)) = []
put_by ended = []
put_by crashed = []

unfoldable pub advance : Child → Child
advance (running (e ∷ es) error) = running es error
advance (running [] none) = ended
advance (running [] (some error)) = crashed
advance ended = ended
advance crashed = crashed

unfoldable pub put_at : ℕ → List Child → List (Option Event)
unfolding put_by
put_at i [] = []
put_at zero (c ∷ cs) = put_by c
put_at (suc i) (c ∷ cs) = put_at i cs

unfoldable pub advance_at : ℕ → List Child → List Child
unfolding advance
advance_at i [] = []
advance_at zero (c ∷ cs) = advance c ∷ cs
advance_at (suc i) (c ∷ cs) = c ∷ advance_at i cs

unfoldable pub forward : ℕ → Merging → Merging
unfolding put_at advance_at
forward i m = record m {
  children = advance_at i m.children;
  merged = m.merged ++ put_at i m.children;
}

-- The loop's turn, on what is on the queue; on an empty queue it waits.
unfoldable pub take_next : List (Option Event) → Merging → Merging
take_next [] m = m
take_next (none ∷ rest) m = record m { merged = rest; done_count = suc m.done_count }
take_next (some e ∷ rest) m = record m { merged = rest; stream = m.stream ++ e ∷ [] }

unfoldable pub step : Move → Merging → Merging
unfolding forward take_next
step (child_turn i) m = forward i m
step loop_turn m = if ltb m.done_count (length m.children) then take_next m.merged m else m

unfoldable pub run_moves : List Move → Merging → Merging
unfolding step
run_moves [] m = m
run_moves (move ∷ moves) m = run_moves moves (step move m)

unfoldable pub start : List Child → Merging
start children = record { children = children; merged = []; done_count = 0; stream = [] }

-- A sub-agent, with what it yields on an input and in a context, and the error that ends it.
pub record SubAgent : Type 0 where
  pub name : Text
  pub astream : Text → Scope → List Event × Option Text

unfoldable pub child_of : List Event × Option Text → Child
child_of (events, error) = running events error

-- The tasks that are made for the sub-agents.
unfoldable pub tasks_of : (input : Text) → Scope → List SubAgent → List Child
unfolding child_of derive
tasks_of input ctx sub_agents =
    map (λ (a : SubAgent). child_of (a.astream input (derive ctx a.name []))) sub_agents

-- `ParallelAgent.astream` after some moves.
unfoldable pub parallel_astream : List SubAgent → (input : Text) → Scope → List Move → Merging
unfolding tasks_of start run_moves
parallel_astream sub_agents input ctx moves =
    run_moves moves (start (tasks_of input ctx sub_agents))
