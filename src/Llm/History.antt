-- ===== src/Llm/History.antt =====
-- orxhestra/agents/message_builder.py, with `get_events` and `get_previous_final_responses` of orxhestra/agents/invocation_context.py. The
-- resolved system prompt is an argument, as are Python's `str` of a number and the id and time of a summary's event.
use orxhestra.Prelude.{
  ℕ, ◌+◌, ◌-◌, min, Bool, not, ◌&&◌, Option, none, some, List, [], ◌∷◌, ◌++◌, Text, codes, ◌==ₜ◌,
  mem_text, Dict, insert, leb, length, keep, nonempty, if◌then◌else◌,
}
use orxhestra.Events.{
  Event, EventType, user_message, agent_message, tool_response, agent_start, agent_end,
  ToolCallPart, event_text, tool_calls, tool_responses, has_tool_calls, is_final_response,
  is_tool_response,
}
use orxhestra.Events.Filters.{should_include_event, apply_compaction}
use orxhestra.Compaction.{response_ids}
use orxhestra.Llm.{
  Message, system, human, ai, truncate_output, truncate_tool_message, to_langchain_message,
}

-- What the builder reads of an `InvocationContext`; `session.events`, none without a session.
pub record Context : Type 0 where
  pub invocation_id : Text
  pub branch : Text
  pub events : Option (List Event)

unfoldable pub events_of : Option (List Event) → List Event
events_of none = []
events_of (some es) = es

unfoldable pub get_events : Context → (current_branch current_invocation : Bool) → List Event
unfolding events_of
get_events ctx current_branch current_invocation =
    let of_invocation =
      if current_invocation
      then keep (λ (e : Event). e.invocation_id ==ₜ ctx.invocation_id) (events_of ctx.events)
      else events_of ctx.events in
    if current_branch
    then keep (λ (e : Event). e.branch ==ₜ ctx.branch) of_invocation
    else of_invocation

unfoldable pub get_previous_final_responses : Context → List Event
unfolding events_of
get_previous_final_responses ctx =
    keep
      (λ (e : Event).
        not (e.invocation_id ==ₜ ctx.invocation_id)
        && (is_final_response e && nonempty (event_text e)))
      (events_of ctx.events)

-- `event.agent_name or "agent"`
unfoldable pub agent_of : Option Text → Text
agent_of none = codes "agent"
agent_of (some name) = if nonempty name then name else codes "agent"

unfoldable pub latest_by_agent : Dict Event → List Event → Dict Event
unfolding agent_of
latest_by_agent latest [] = latest
latest_by_agent latest (e ∷ es) = latest_by_agent (insert (agent_of e.agent_name) e latest) es

-- The ids of the responses of complete response events.
unfoldable pub responded_ids : List Event → List Text
unfolding response_ids
responded_ids [] = []
responded_ids (e ∷ es) =
    if not e.partial && is_tool_response e.type
    then response_ids (tool_responses e) ++ responded_ids es
    else responded_ids es

unfoldable pub paired_message : List ToolCallPart → List Message
paired_message [] = []
paired_message (tc ∷ tcs) = ai [] (tc ∷ tcs) ∷ []

module _ (comma : ℕ → Text) where
  abbrev pub said : Text → Text → Text
  said agent text = codes "[" ++ (agent ++ (codes "] said: " ++ text))

  unfoldable pub context_messages : ℕ → ℕ → ℕ → Dict Event → List Message
  context_messages max_chars total_max_chars total_chars [] = []
  context_messages max_chars total_max_chars total_chars ((agent, e) ∷ rest) =
      let content =
        said agent
          (truncate_output comma (event_text e) (min max_chars (total_max_chars - total_chars))) in
      let more = context_messages max_chars total_max_chars (total_chars + length content) rest in
      if leb total_max_chars total_chars then [] else human content ∷ more

  unfoldable pub build_previous_context : List Event → ℕ → ℕ → List Message
  unfolding latest_by_agent context_messages
  build_previous_context events max_chars total_max_chars =
      context_messages max_chars total_max_chars 0 (latest_by_agent [] events)

  module _ (tool_response_max_chars : ℕ) where
    unfoldable pub shown_as : List Text → EventType → Event → List Message
    unfolding paired_message
    shown_as responded user_message e = to_langchain_message e ∷ []
    shown_as responded agent_message e =
        if has_tool_calls e
        then paired_message (keep (λ tc. mem_text tc.tool_call_id responded) (tool_calls e))
        else if nonempty (event_text e)
        then to_langchain_message e ∷ []
        else []
    shown_as responded tool_response e =
        truncate_tool_message comma tool_response_max_chars (to_langchain_message e) ∷ []
    shown_as responded agent_start e = []
    shown_as responded agent_end e = []

    unfoldable pub messages_from : List Text → List Event → List Message
    unfolding shown_as
    messages_from responded [] = []
    messages_from responded (e ∷ es) =
        if should_include_event e
        then shown_as responded e.type e ++ messages_from responded es
        else messages_from responded es

    module _ (str_of : ℕ → Text) (fresh_id : Event → Text) (now : ℕ) where
      unfoldable pub events_to_messages : List Event → List Message
      unfolding messages_from responded_ids
      events_to_messages events =
          let compacted = apply_compaction str_of fresh_id now events in
          messages_from (responded_ids compacted) compacted

      -- `build_conversation_history`; `use_history` is `include_contents != "none"`.
      unfoldable pub build_conversation_history :
          (system_prompt : Text) (use_history : Bool) (max_chars total_max_chars : ℕ)
          → Context
          → (input_text : Text) → List Message
      unfolding build_previous_context get_previous_final_responses get_events events_to_messages
      build_conversation_history system_prompt use_history max_chars total_max_chars ctx
            input_text =
          let in_branch = nonempty ctx.branch in
          let filtered =
            keep (λ (e : Event). not (e.invocation_id ==ₜ ctx.invocation_id))
              (get_events ctx in_branch in_branch) in
          let history =
            build_previous_context (get_previous_final_responses ctx) max_chars total_max_chars
            ++ (if nonempty filtered then events_to_messages filtered else []) in
          (if nonempty system_prompt then system system_prompt ∷ [] else [])
          ++ ((if use_history then history else []) ++ human input_text ∷ [])
