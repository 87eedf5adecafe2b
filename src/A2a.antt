-- ===== src/A2a.antt =====
-- The messages of orxhestra/a2a/types.py that the A2A server handles, `_extract_text` of orxhestra/a2a/server.py and the
-- conversion of agent events in orxhestra/a2a/converters.py. A default id is an argument. A task is
-- `Task` of the task store, over these messages and artifacts.
pub mod Messages
pub mod Verified
pub mod Notifications
pub mod Server
pub mod Handlers
pub mod Dispatch
pub mod Stored
pub mod Tasks
pub mod Cancel
pub mod Frames
pub mod Guards
pub mod Webhooks
pub mod Configs
pub mod Reached
pub mod Keyed
pub mod Tests
use orxhestra.Prelude.{
  ℕ, suc, Bool, true, false, Option, none, some, List, [], ◌∷◌, ◌++◌, Text, codes, Dict, nonempty,
  if◌then◌else◌,
}
use orxhestra.Values.{Value, Fields, text, obj, arr, nil, cons, end, field, object}
use orxhestra.Events.{
  Event, ToolCallPart, ToolResponsePart, event_text, tool_calls, tool_responses, has_tool_calls,
  is_final_response, is_tool_response,
}
use orxhestra.TaskStore.{
  TaskState, TaskStatus, Task, working, completed, canceled, failed, rejected,
}

pub record Part : Type 0 where
  pub text : Option Text
  pub raw : Option Text
  pub url : Option Text
  pub content : Option Value
  pub media_type : Option Text
  pub filename : Option Text
  pub metadata : Option (Dict Value)

pub data Role : Type 0 where
  user : Role
  agent : Role

pub record Message : Type 0 where
  pub message_id : Text
  pub role : Role
  pub parts : List Part
  pub context_id : Option Text
  pub task_id : Option Text
  pub reference_task_ids : Option (List Text)
  pub extensions : Option (List Text)
  pub metadata : Option (Dict Value)

pub record Artifact : Type 0 where
  pub artifact_id : Text
  pub name : Option Text
  pub description : Option Text
  pub parts : List Part
  pub extensions : Option (List Text)
  pub metadata : Option (Dict Value)

-- `TaskStatusUpdateEvent` and `TaskArtifactUpdateEvent`
pub data Update : Type 0 where
  status_update :
      (task_id context_id : Text) (status : TaskStatus Message Artifact) (final : Bool)
      → (metadata : Option (Dict Value)) → Update
  artifact_update : (task_id context_id : Text) (artifact : Artifact) (last_chunk : Bool) → Update

-- `state in TERMINAL_STATES`
unfoldable pub is_terminal : TaskState → Bool
is_terminal completed = true
is_terminal canceled = true
is_terminal failed = true
is_terminal rejected = true
is_terminal _ = false

unfoldable pub role_value : Role → Text
role_value user = codes "user"
role_value agent = codes "agent"

-- `Part(text=t, media_type="text/plain")`
abbrev pub plain_text : Text → Part
plain_text t = record {
  text = some t;
  raw = none;
  url = none;
  content = none;
  media_type = some (codes "text/plain");
  filename = none;
  metadata = none;
}

unfoldable pub add_text : Option Text → List Text → List Text
add_text none ts = ts
add_text (some t) ts = t ∷ ts

unfoldable pub texts : List Part → List Text
unfolding add_text
texts [] = []
texts (p ∷ ps) = add_text p.text (texts ps)

-- `" ".join(texts)`
unfoldable pub join_spaces : List Text → Text
join_spaces [] = []
join_spaces (t ∷ []) = t
join_spaces (t ∷ u ∷ ts) = t ++ (codes " " ++ join_spaces (u ∷ ts))

unfoldable pub extract_text : Message → Text
unfolding texts join_spaces
extract_text m = join_spaces (texts m.parts)

abbrev pub text_artifact : Text → Option Text → Text → Artifact
text_artifact fresh name t = record {
  artifact_id = fresh;
  name = name;
  description = none;
  parts = plain_text t ∷ [];
  extensions = none;
  metadata = none;
}

abbrev working_status : TaskStatus Message Artifact
working_status = record { state = working; message = none; timestamp = none }

unfoldable pub or_error : Text → Option Text → Text
or_error result none = result
or_error result (some error) = if nonempty result then result else error

module _ (task_id context_id : Text) where
  unfoldable pub call_update : List ToolCallPart → List Update
  call_update [] = []
  call_update (tc ∷ tcs) =
      status_update task_id context_id working_status false
        (some ((codes "tool_name", text tc.tool_name) ∷ (codes "tool_input", object tc.args) ∷ []))
      ∷ []

  unfoldable pub response_update : Text → Text → List ToolResponsePart → Update
  unfolding or_error
  response_update fresh shown [] =
      artifact_update task_id context_id
        (text_artifact fresh (some (codes "tool_result:unknown")) shown) true
  response_update fresh shown (tr ∷ trs) =
      artifact_update task_id context_id
        (text_artifact fresh (some (codes "tool_result:" ++ tr.tool_name))
          (or_error tr.result tr.error))
        true

  -- What `events_to_a2a_stream` yields for one event.
  unfoldable pub updates_of : Text → Event → List Update
  unfolding call_update response_update
  updates_of fresh e =
      if is_final_response e
      then artifact_update task_id context_id
          (text_artifact fresh (some (codes "answer")) (event_text e)) true
        ∷ []
      else if has_tool_calls e
      then call_update (tool_calls e)
      else if is_tool_response e.type
      then response_update fresh (event_text e) (tool_responses e) ∷ []
      else []

  -- The artifact ids are generated: `fresh` gives them by the number of the event.
  unfoldable pub events_to_a2a_stream : (ℕ → Text) → ℕ → List Event → List Update
  unfolding updates_of
  events_to_a2a_stream fresh n [] = []
  events_to_a2a_stream fresh n (e ∷ es) =
      updates_of (fresh n) e ++ events_to_a2a_stream fresh (suc n) es
