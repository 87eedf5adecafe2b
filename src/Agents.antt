-- ===== src/Agents.antt =====
-- The tree of agents (orxhestra/agents/base_agent.py), the branch of a child context
-- (orxhestra/agents/invocation_context.py), and the composite agents of sequential_agent.py and loop_agent.py.
-- An agent's event stream is a script: the events it yields, each with the state of the world
-- after it, and how it ends. The state that contexts share by reference is the world; a context keeps
-- the name and the branch, which `derive` changes. What a sub-agent does is an argument.
pub mod Tree
pub mod Streams
pub mod Loops
pub mod Parallel
pub mod Merged
pub mod Demultiplexed
pub mod Drained
pub mod Tests
use orxhestra.Prelude.{
  ℕ, zero, suc, Bool, true, false, Option, none, some, List, [], ◌∷◌, ◌++◌, Text, codes, leb, ◌==ₜ◌,
  nonempty, if◌then◌else◌,
}
use orxhestra.Events.{Event, EventActions, is_final_response, event_text}

-- A `BaseAgent`, as far as its place in the tree.
mutual
  pub data Agent : Type 0 where
    agent : Text → Agents → Agent

  pub data Agents : Type 0 where
    no_agents : Agents
    with_agent : Agent → Agents → Agents

unfoldable pub register_sub_agent : Agent → Agents → Agents
register_sub_agent a no_agents = with_agent a no_agents
register_sub_agent a (with_agent b bs) = with_agent b (register_sub_agent a bs)

abbrev pub first_found : Option Agent → Option Agent → Option Agent
first_found (some a) other = some a
first_found none other = other

unfoldable mutual
  pub find_agent : Text → Agent → Option Agent
  find_agent name (agent n children) =
      if n ==ₜ name then some (agent n children) else find_among name children

  pub find_among : Text → Agents → Option Agent
  find_among name no_agents = none
  find_among name (with_agent a rest) = first_found (find_agent name a) (find_among name rest)

pub record Scope : Type 0 where
  pub agent_name : Text
  pub branch : Text

unfoldable pub derive : Scope → Text → Text → Scope
derive scope agent_name branch_suffix =
    let suffix = if nonempty branch_suffix then branch_suffix else agent_name in
    record {
      agent_name = agent_name;
      branch = if nonempty scope.branch then scope.branch ++ codes "." ++ suffix else suffix;
    }

pub data Script (W : Type 0) : Type 0 where
  finish : W → Script W
  fail : Text → W → Script W
  out_of_fuel : Script W
  emit : Event → W → Script W → Script W

-- What the composite agents call.
pub record Host (W : Type 0) : Type 0 where
  pub end_invocation : W → Bool
  -- A sub-agent's `astream`, by the sub-agent's name, with its input and its context.
  pub astream : Text → Text → Scope → W → Script W
  -- `_emit_event`, of an agent message with this text and the metadata `{"error": True}`.
  pub emit_error : Scope → Text → W → Event × W
  -- `ctx.reset_sub_agent_states`
  pub reset_sub_agent_states : Text → W → W
  -- `str` of a number
  pub str_of : ℕ → Text

pub record LoopAgent : Type 0 where
  pub name : Text
  pub sub_agents : List Text
  pub max_iterations : Option ℕ
  pub should_continue : Option (Event → Bool)

module _ {W : Type 0} where
  -- The sequential agent's `async for` over one sub-agent, and what follows it.
  unfoldable pub chain : Text → Script W → (Text → W → Script W) → Script W
  chain current (finish w) rest = rest current w
  chain current (fail e w) rest = fail e w
  chain current out_of_fuel rest = out_of_fuel
  chain current (emit e w s) rest =
      emit e w (chain (if is_final_response e then event_text e else current) s rest)

  -- The loop agent's.
  unfoldable pub pass : Option Event → Script W → (Option Event → W → Script W) → Script W
  pass last (finish w) rest = rest last w
  pass last (fail e w) rest = fail e w
  pass last out_of_fuel rest = out_of_fuel
  pass last (emit e w s) rest =
      let more = pass (some e) s rest in emit e w (if e.actions.escalate then finish w else more)

module _ {W : Type 0} (host : Host W) where
  -- `SequentialAgent.astream`
  unfoldable pub sequential_astream : List Text → Text → Scope → W → Script W
  sequential_astream [] input ctx w = finish w
  sequential_astream (a ∷ sub_agents) input ctx w =
      let more =
        chain input (host.astream a input (derive ctx a []) w)
          (λ current w'. sequential_astream sub_agents current ctx w') in
      if host.end_invocation w then finish w else more

  module _ (self : LoopAgent) (input : Text) (ctx : Scope) where
    unfoldable pub reached : Option ℕ → ℕ → Bool
    reached none iteration = false
    reached (some m) iteration = leb m iteration

    unfoldable pub limit_text : Option ℕ → Text
    limit_text none = []
    limit_text (some m) =
        codes "LoopAgent '"
        ++ self.name
        ++ codes "' reached max_iterations ("
        ++ host.str_of m
        ++ codes ") without escalating."

    unfoldable pub stop_at_limit : W → Script W
    stop_at_limit w =
        let message = host.emit_error ctx (limit_text self.max_iterations) w in
        emit message.0 message.1 (finish message.1)

    -- `for sub_agent in self.sub_agents`
    unfoldable pub each :
        List Text → ℕ → Option Event → W → (Option Event → W → Script W) → Script W
    each [] iteration last w rest = rest last w
    each (a ∷ sub_agents) iteration last w rest =
        pass last
          (host.astream a input (derive ctx a (a ++ codes ".iter_" ++ host.str_of iteration)) w)
          (λ last' w'. each sub_agents iteration last' w' rest)

    unfoldable pub stops : Option (Event → Bool) → Option Event → Bool
    stops none last = false
    stops (some continue) none = false
    stops (some continue) (some e) = if continue e then false else true

    -- `while True`, from an iteration on.
    unfoldable pub loop : ℕ → ℕ → Option Event → W → Script W
    loop zero iteration last w = out_of_fuel
    loop (suc fuel) iteration last w =
        let turn = each self.sub_agents iteration last w (λ last' w'.
          if stops self.should_continue last'
          then finish w'
          else loop fuel (suc iteration) last' (host.reset_sub_agent_states self.name w')) in
        if host.end_invocation w
        then finish w
        else if reached self.max_iterations iteration
        then stop_at_limit w
        else turn

    -- `LoopAgent.astream`
    unfoldable pub loop_astream : ℕ → W → Script W
    loop_astream fuel w = if nonempty self.sub_agents then loop fuel 0 none w else finish w
