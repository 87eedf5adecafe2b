-- ===== src/Events.antt =====
-- orxhestra/models/part.py, orxhestra/events/event.py and orxhestra/events/event_actions.py: the
-- event record and its content. A time stamp is a natural number of ticks. A flag of type
-- `bool | None` is a `Bool`, since the code only asks whether it is true. The `metadata` of single
-- parts, which no modelled code reads, is left out, and so are `invocation`-side objects of the
-- language model's library (`raw_message`, token counts).
pub mod Filters
use orxhestra.Prelude.{
  ℕ, Bool, true, false, not, ◌&&◌, ◌||◌, Option, none, some, List, [], ◌∷◌, ◌++◌, Text, codes, Dict,
  lookup, nonempty, if◌then◌else◌,
}
use orxhestra.Values.{Value, is_truthy}

pub record ToolCallPart : Type 0 where
  pub tool_call_id : Text
  pub tool_name : Text
  pub args : Dict Value

pub record ToolResponsePart : Type 0 where
  pub tool_call_id : Text
  pub tool_name : Text
  pub result : Text
  pub error : Option Text

pub data Part : Type 0 where
  text_part : Text → Part
  data_part : Dict Value → Part
  file_part : (uri inline_bytes mime_type name : Option Text) → Part
  thinking_part : Text → Part
  tool_call_part : ToolCallPart → Part
  tool_response_part : ToolResponsePart → Part

pub record Content : Type 0 where
  pub role : Option Text
  pub parts : List Part

abbrev pub empty_content : Content
empty_content = record { role = none; parts = [] }

abbrev pub from_text : Text → Content
from_text t = record { role = none; parts = text_part t ∷ [] }

unfoldable pub texts_of : List Part → Text
texts_of [] = []
texts_of (text_part t ∷ ps) = t ++ texts_of ps
texts_of (_ ∷ ps) = texts_of ps

unfoldable pub data_of : List Part → Option (Dict Value)
data_of [] = none
data_of (data_part d ∷ ps) = some d
data_of (_ ∷ ps) = data_of ps

unfoldable pub tool_calls_of : List Part → List ToolCallPart
tool_calls_of [] = []
tool_calls_of (tool_call_part tc ∷ ps) = tc ∷ tool_calls_of ps
tool_calls_of (_ ∷ ps) = tool_calls_of ps

unfoldable pub tool_responses_of : List Part → List ToolResponsePart
tool_responses_of [] = []
tool_responses_of (tool_response_part tr ∷ ps) = tr ∷ tool_responses_of ps
tool_responses_of (_ ∷ ps) = tool_responses_of ps

unfoldable pub has_tool_calls_in : List Part → Bool
has_tool_calls_in [] = false
has_tool_calls_in (tool_call_part tc ∷ ps) = true
has_tool_calls_in (_ ∷ ps) = has_tool_calls_in ps

pub record EventCompaction : Type 0 where
  pub start_timestamp : ℕ
  pub end_timestamp : ℕ
  pub summary : Text
  pub event_count : ℕ

pub record EventActions : Type 0 where
  pub state_delta : Dict Value
  pub artifact_delta : Dict ℕ
  pub transfer_to_agent : Option Text
  pub escalate : Bool
  pub skip_summarization : Bool
  pub end_of_agent : Bool
  pub compaction : Option EventCompaction

abbrev pub no_actions : EventActions
no_actions = record {
  state_delta = [];
  artifact_delta = [];
  transfer_to_agent = none;
  escalate = false;
  skip_summarization = false;
  end_of_agent = false;
  compaction = none;
}

pub data EventType : Type 0 where
  user_message agent_message tool_response agent_start agent_end : EventType

abbrev pub type_value : EventType → Text
type_value user_message = codes "user_message"
type_value agent_message = codes "agent_message"
type_value tool_response = codes "tool_response"
type_value agent_start = codes "agent_start"
type_value agent_end = codes "agent_end"

pub record LlmResponse : Type 0 where
  pub text : Text
  pub model_version : Option Text

pub record Event : Type 0 where
  pub id : Text
  pub type : EventType
  pub timestamp : ℕ
  pub invocation_id : Text
  pub session_id : Option Text
  pub author : Text
  pub agent_name : Option Text
  pub branch : Text
  pub partial : Bool
  pub turn_complete : Bool
  pub content : Content
  pub actions : EventActions
  pub metadata : Dict Value
  pub llm_response : Option LlmResponse
  pub signature : Option Text
  pub signer_did : Text
  pub prev_signature : Option Text

-- `Event(type=…)` with the defaults of the model; the id and the time come from outside.
abbrev pub new_event : Text → ℕ → EventType → Event
new_event id now type = record {
  id = id;
  type = type;
  timestamp = now;
  invocation_id = [];
  session_id = none;
  author = [];
  agent_name = none;
  branch = [];
  partial = false;
  turn_complete = true;
  content = empty_content;
  actions = no_actions;
  metadata = [];
  llm_response = none;
  signature = none;
  signer_did = [];
  prev_signature = none;
}

abbrev pub event_text : Event → Text
event_text e = texts_of e.content.parts

abbrev pub event_data : Event → Option (Dict Value)
event_data e = data_of e.content.parts

abbrev pub tool_calls : Event → List ToolCallPart
tool_calls e = tool_calls_of e.content.parts

abbrev pub tool_responses : Event → List ToolResponsePart
tool_responses e = tool_responses_of e.content.parts

abbrev pub has_tool_calls : Event → Bool
has_tool_calls e = has_tool_calls_in e.content.parts

abbrev truthy_entry : Option Value → Bool
truthy_entry none = false
truthy_entry (some v) = is_truthy v

-- `bool(metadata.get(key))`
abbrev pub flagged : Event → Text → Bool
flagged e key = truthy_entry (lookup key e.metadata)

-- `bool(data)`, for `dict | None`
abbrev pub has_entries : Option (Dict Value) → Bool
has_entries none = false
has_entries (some d) = nonempty d

abbrev pub is_agent_message : EventType → Bool
is_agent_message agent_message = true
is_agent_message _ = false

abbrev pub is_tool_response : EventType → Bool
is_tool_response tool_response = true
is_tool_response _ = false

unfoldable pub is_final_response : Event → Bool
is_final_response e =
    if e.partial
    then false
    else if not (is_agent_message e.type)
    then false
    else if has_tool_calls e
    then false
    else if flagged e (codes "react_step")
    then false
    else if flagged e (codes "error")
    then false
    else if e.actions.skip_summarization
    then true
    else nonempty (event_text e) || has_entries (event_data e)

abbrev pub signed_by : Option Text → Text → Bool
signed_by none did = false
signed_by (some s) did = nonempty did

unfoldable pub is_signed : Event → Bool
is_signed e = signed_by e.signature e.signer_did
