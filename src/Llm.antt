-- ===== src/Llm.antt =====
-- The messages that the language model gets: `Event.to_langchain_message` of orxhestra/events/event.py, `truncate_output` of
-- orxhestra/tools/output.py and `_truncate_tool_message` of orxhestra/agents/message_builder.py. A LangChain message is the arguments that the
-- source gives its constructor. `comma` is Python's `{n:,}`. A bound on characters is a natural number.
pub mod History
pub mod Chunks
pub mod Executor
pub mod Emitted
pub mod Replay
pub mod Paired
pub mod Budget
pub mod Calls
pub mod Loop
pub mod Answered
pub mod Prompts
pub mod Executed
pub mod Tests
use orxhestra.Prelude.{
  ℕ, zero, suc, ◌+◌, ◌-◌, Bool, true, false, Option, none, some, List, [], ◌∷◌, ◌++◌, Text, codes,
  leb, ltb, ◌==◌, length, take, nonempty, if◌then◌else◌,
}
use orxhestra.Events.{
  Event, EventType, user_message, agent_message, tool_response, agent_start, agent_end,
  ToolCallPart, ToolResponsePart, event_text, tool_calls, tool_responses, has_tool_calls,
}

-- A tool call in an `AIMessage` is a dict of the id, the name and the arguments of a `ToolCallPart`.
pub data Message : Type 0 where
  system : Text → Message
  human : Text → Message
  ai : Text → List ToolCallPart → Message
  -- with whether its status is "error"
  tool : (content tool_call_id : Text) (is_error : Bool) → Message

-- `xs.rfind(c)`, none for -1.
unfoldable pub after_first : Bool → Option ℕ → Option ℕ
after_first here none = if here then some 0 else none
after_first here (some i) = some (suc i)

unfoldable pub rfind : ℕ → Text → Option ℕ
unfolding after_first
rfind c [] = none
rfind c (x ∷ xs) = after_first (x == c) (rfind c xs)

-- `last_nl > max_chars * 0.5`
unfoldable pub cut_at : ℕ → Text → Option ℕ → Text
cut_at max_chars cut none = cut
cut_at max_chars cut (some last_nl) =
    if ltb max_chars (last_nl + last_nl) then take last_nl cut else cut

-- What is kept of a text that is too long.
unfoldable pub kept : Text → ℕ → Text
unfolding cut_at rfind
kept text max_chars = cut_at max_chars (take max_chars text) (rfind 10 (take max_chars text))

-- `result or error or ""`
unfoldable pub first_full : Text → Option Text → Text
first_full result none = result
first_full result (some error) = if nonempty result then result else error

module _ (comma : ℕ → Text) where
  unfoldable pub truncate_output : Text → ℕ → Text
  unfolding kept
  truncate_output text max_chars =
      if leb (length text) max_chars
      then text
      else kept text max_chars
        ++ (codes "\n\n[... truncated "
            ++ (comma (length text - length (kept text max_chars)) ++ codes " chars]"))

  unfoldable pub truncate_tool_message : ℕ → Message → Message
  unfolding truncate_output
  truncate_tool_message max_chars (tool content id is_error) =
      if ltb max_chars (length content)
      then tool (truncate_output content max_chars) id false
      else tool content id is_error
  truncate_tool_message max_chars m = m

unfoldable pub response_message : Text → List ToolResponsePart → Message
unfolding first_full
response_message shown [] = tool shown [] false
response_message shown (r ∷ rs) = tool (first_full r.result r.error) r.tool_call_id false

unfoldable pub message_of : EventType → Event → Message
unfolding response_message
message_of user_message e = human (event_text e)
message_of tool_response e = response_message (event_text e) (tool_responses e)
message_of agent_message e = if has_tool_calls e then ai [] (tool_calls e) else ai (event_text e) []
message_of agent_start e = if has_tool_calls e then ai [] (tool_calls e) else ai (event_text e) []
message_of agent_end e = if has_tool_calls e then ai [] (tool_calls e) else ai (event_text e) []

unfoldable pub to_langchain_message : Event → Message
unfolding message_of
to_langchain_message e = message_of e.type e
