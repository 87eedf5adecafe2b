-- ===== src/Llm/Loop.antt =====
-- The loop of `LlmAgent.astream` in orxhestra/agents/llm_agent.py, its final answer, and the planner's part in
-- orxhestra/agents/planner_adapter.py.
use orxhestra.Prelude.{
  ℕ, zero, suc, Bool, true, false, ◌&&◌, Option, none, some, List, [], ◌∷◌, ◌++◌, map, Text, codes,
  nonempty, if◌then◌else◌,
}
use orxhestra.Values.{bool, text}
use orxhestra.Events.{Event, no_actions, text_part, from_text}
use orxhestra.Llm.{Message, ai, truncate_tool_message}
use orxhestra.Llm.Calls.{
  Reply, Ended, Planner, Env, Outcome, Called, plain_emission, with_prompt, data_parts, or_same,
  pending_prompt, yielding, asking, over, call_llm_with_recovery, whole, threw,
}

module _ {W : Type 0} (env : Env W) where
  unfoldable pub error_event : Text → W → Event × W
  error_event exc w =
      env.emit
        (record (plain_emission (from_text exc)) {
          metadata =
              (codes "error", bool true) ∷ (codes "exception_type", text (env.type_name exc)) ∷ [];
        })
        w

  unfoldable pub fails_with : Text → W → Outcome W
  unfolding error_event over
  fails_with exc w = let (e, w') = error_event exc w in over (e ∷ []) w'

  unfoldable pub should_continue : Option (Planner W) → W → Bool
  should_continue none w = false
  should_continue (some planner) w = planner.has_pending_tasks w

  unfoldable pub process_response : Option (Planner W) → Reply → W → Reply
  unfolding or_same
  process_response none r w = r
  process_response (some planner) r w = or_same r (planner.process r w)

  unfoldable pub enriched : Option (Planner W) → Text → List Message → W → List Message
  unfolding with_prompt
  enriched none system_prompt messages w = messages
  enriched (some planner) system_prompt messages w =
      let instruction = planner.instruction messages w in
      if nonempty instruction
      then with_prompt (system_prompt ++ (codes "\n\n" ++ instruction)) messages
      else messages

  -- `_handle_final_response`, when the planner does not go on.
  unfoldable pub final_response : List Message → Reply → W → Outcome W
  unfolding data_parts over
  final_response messages r w =
      let (structured, w') = env.parse r.text messages w in
      let saves = nonempty env.output_key && nonempty r.text in
      let (e, w'') =
        env.emit
          record {
            content = record {
              role = none;
              parts =
                  (if nonempty r.text then text_part r.text ∷ [] else []) ++ data_parts structured;
            };
            partial = false;
            turn_complete = true;
            actions =
                if saves
                then record no_actions { state_delta = (env.output_key, text r.text) ∷ [] }
                else no_actions;
            metadata = [];
            llm_response = some r.response;
          }
          (if saves then env.set_state env.output_key r.text w' else w') in
      over (e ∷ []) w''

  unfoldable pub truncated : List Message → List Message
  truncated ms = map (truncate_tool_message env.comma env.tool_response_max_chars) ms

  -- What follows the model's reply: the final answer, or another turn on the longer conversation.
  unfoldable pub use_reply :
      List Message → Reply → Reply → W → (List Message → W → Outcome W) → Outcome W
  unfolding should_continue final_response truncated yielding
  use_reply messages raw r w continue =
      let messages' = messages ++ ai raw.text raw.calls ∷ [] in
      let ((events, answers), w') = env.run_tools r w in
      let after_tools = yielding events (continue (messages' ++ truncated answers) w') in
      let going_on = continue (messages' ++ pending_prompt ∷ []) w in
      if nonempty r.calls
      then after_tools
      else if should_continue env.planner w
      then going_on
      else final_response messages' r w

  unfoldable pub use_called :
      List Message → Called W → Ended → (List Message → W → Outcome W) → Outcome W
  unfolding use_reply process_response fails_with asking
  use_called messages c (threw exc) continue =
      asking c.prompts (yielding c.events (fails_with exc c.world))
  use_called messages c (whole raw) continue =
      let r = process_response env.planner raw c.world in
      asking c.prompts
        (yielding c.events (use_reply messages raw r (env.after_model r c.world) continue))

  unfoldable pub use_before :
      List Message → Option Text × W → (List Message → W → Outcome W) → Outcome W
  unfolding use_called call_llm_with_recovery
  use_before messages (some exc, w) continue = fails_with exc w
  use_before messages (none, w) continue =
      let c = call_llm_with_recovery env messages w in use_called messages c c.reply continue

  -- The `for` loop, with the iterations that are left.
  unfoldable pub turns : ℕ → Text → List Message → W → Outcome W
  unfolding enriched use_before
  turns zero system_prompt messages w =
      let (e, w') =
        env.emit
          (record (plain_emission (
            from_text (
              codes "Max iterations ("
              ++ (env.str_of env.max_iterations ++ codes ") reached without a final answer.")))) {
                metadata = (codes "error", bool true) ∷ [];
              })
          w in
      over (e ∷ []) w'
  turns (suc n) system_prompt messages w =
      let messages' = enriched env.planner system_prompt messages w in
      let more =
        use_before messages' (env.before_model messages' w)
          (λ ms w'. turns n system_prompt ms w') in
      if env.end_invocation w then over [] w else more

  -- `astream`, on the conversation that the message builder made.
  unfoldable pub llm_astream : Text → List Message → W → Outcome W
  unfolding turns
  llm_astream system_prompt messages w = turns env.max_iterations system_prompt messages w
