-- ===== src/Samples.antt =====
-- Events, logs and texts that the tests share.
use orxhestra.Prelude.{none, List, [], ◌∷◌, Text, codes, Dict, true}
use orxhestra.Values.{Value, text}
use orxhestra.Events.{
  Event, no_actions, user_message, agent_message, new_event, from_text, ToolCallPart,
  ToolResponsePart, tool_call_part, tool_response_part, tool_response,
}

abbrev pub hello : Event
hello = record (new_event (codes "e1") 1 user_message) { content = from_text (codes "hey") }

abbrev pub answer : Event
answer = record (new_event (codes "e2") 2 agent_message) { content = from_text (codes "hi") }

abbrev pub city : Dict Value
city = (codes "city", text (codes "Oslo")) ∷ []

abbrev pub moved : Event
moved = record (new_event (codes "e3") 6 agent_message) {
  actions = record no_actions { state_delta = city };
}

abbrev pub call : ToolCallPart
call = record { tool_call_id = codes "c1"; tool_name = codes "search"; args = city }

abbrev pub result : ToolResponsePart
result = record {
  tool_call_id = codes "c1";
  tool_name = codes "search";
  result = codes "found";
  error = none;
}

abbrev pub other_result : ToolResponsePart
other_result = record {
  tool_call_id = codes "c1";
  tool_name = codes "search";
  result = codes "nothing";
  error = none;
}

abbrev pub calling : Event
calling = record (new_event (codes "e4") 4 agent_message) {
  content = record { role = none; parts = tool_call_part call ∷ [] };
}

abbrev pub responding : Event
responding = record (new_event (codes "e5") 5 tool_response) {
  content = record { role = none; parts = tool_response_part result ∷ [] };
}

abbrev pub escalating : Event
escalating = record (new_event (codes "e6") 7 agent_message) {
  actions = record no_actions { escalate = true };
}

abbrev pub conversation : List Event
conversation = hello ∷ answer ∷ calling ∷ responding ∷ moved ∷ []

abbrev pub str_args : Dict Value → Text
str_args d = codes "{}"
