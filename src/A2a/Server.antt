-- ===== src/A2a/Server.antt =====
-- `A2AServer` of orxhestra/a2a/server.py: the life of a task and the stream of its updates. A task is a shared object in the code; here the
-- handlers pass it by value, which shows the same states, since every change of a task is followed by
-- `put` before anything else runs. An agent's run is the events that it yields, with the error that ends it, if any. The session
-- that is made for each task is kept by the session service. Ids and times come from the server's environment. A stream is
-- taken to its end by the client.
use orxhestra.Prelude.{
  ℕ, ◌+◌, Bool, true, false, Option, none, some, List, [], ◌∷◌, ◌++◌, Text, Dict, nonempty,
  if◌then◌else◌, ℤ,
}
use orxhestra.Values.{Value}
use orxhestra.Events.{Event, is_final_response, event_text}
use orxhestra.Crypto.{Primitives}
use orxhestra.TaskStore.{TaskState, submitted, working, completed, Task, TaskStore, Tokens, put}
use orxhestra.A2a.{
  Message, Artifact, Update, status_update, artifact_update, agent, plain_text, text_artifact,
  is_terminal, events_to_a2a_stream,
}
use orxhestra.A2a.Messages.{sign_message}
use orxhestra.A2a.Notifications.{Configs, PushNotificationConfig, Parser, scheduled}

abbrev pub A2aTask : Type 0
A2aTask = Task Message Artifact

pub record State : Type 0 where
  pub tasks : TaskStore Message Artifact
  pub push : Configs

-- What an agent's `astream` does for one message.
pub record AgentRun : Type 0 where
  pub events : List Event
  pub error : Option Text

-- `str | int | None`
pub data RequestId : Type 0 where
  text_id : Text → RequestId
  int_id : ℤ → RequestId
  no_id : RequestId

pub data Payload : Type 0 where
  task_result : A2aTask → Payload
  tasks_result : List A2aTask → (next_cursor : Option Text) → Payload
  card_result : Dict Value → Payload
  config_result : (task_id : Text) → PushNotificationConfig → Payload
  configs_result : (task_id : Text) → List PushNotificationConfig → Payload
  deleted_result : Bool → Payload

-- A line of the event stream, with the push configs that the update is posted to.
pub record Frame : Type 0 where
  pub update : Update
  pub posted : List PushNotificationConfig

-- What the client gets: an envelope, or a stream with the error that breaks it off, if any, or the server's failure.
pub data Reply : Type 0 where
  success : RequestId → Payload → Reply
  rpc_error : RequestId → (code : ℤ) (message : Text) (http_status : ℕ) → Reply
  stream : RequestId → List Frame → Option Text → Reply
  raises : Text → Reply

pub record Server (p : Primitives) : Type 0 where
  pub astream : Text → AgentRun
  pub signing_key : Option p.PrivateKey
  pub signer_did : Text
  pub require_signed : Bool
  -- `verify_message` with the server's resolver
  pub verify : Message → Option Bool
  pub parser : Parser
  pub allow_insecure_webhooks : Bool
  pub tokens : Tokens
  -- The agent card as a dict, and the extras that the operator adds.
  pub card : Dict Value
  pub extended_card_extras : Dict Value
  -- `uuid.uuid4()`, by its use; `_now_iso()`; `time.time()`
  pub fresh : State → ℕ → Text
  pub now : State → Text
  pub time : State → ℕ

-- `final_answer` after the loop.
unfoldable pub final_answer : Text → List Event → Text
final_answer answer [] = answer
final_answer answer (e ∷ es) =
    final_answer (if is_final_response e then event_text e else answer) es

-- `context_id or str(uuid.uuid4())`
unfoldable pub given_or : Text → Option Text → Text
given_or fresh none = fresh
given_or fresh (some c) = if nonempty c then c else fresh

unfoldable pub with_message : Option (List Message) → Message → Option (List Message)
with_message none m = none
with_message (some history) m = some (history ++ m ∷ [])

module _ (p : Primitives) (server : Server p) where
  unfoldable pub signed_with : Message → Option p.PrivateKey → ℕ → Message
  signed_with m none time = m
  signed_with m (some key) time =
      if nonempty server.signer_did then sign_message p m key server.signer_did time else m

  -- `_maybe_sign`
  unfoldable pub maybe_sign : Message → ℕ → Message
  unfolding signed_with
  maybe_sign m time = signed_with m server.signing_key time

  unfoldable pub create_task : Message → Option Text → State → A2aTask × State
  unfolding given_or
  create_task m context_id s =
      let task : A2aTask = record {
        id = server.fresh s 0;
        context_id = given_or (server.fresh s 1) context_id;
        status = record { state = submitted; message = none; timestamp = some (server.now s) };
        history = some (m ∷ []);
        artifacts = none;
        metadata = none;
      } in
      (task, record s { tasks = put task s.tasks })

  unfoldable pub update_task_status : A2aTask → TaskState → Option Message → State → A2aTask × State
  update_task_status task state agent_message s =
      let task' : A2aTask = record task {
        status = record { state = state; message = agent_message; timestamp = some (server.now s) };
      } in
      (task', record s { tasks = put task' s.tasks })

  -- The agent's answer as a message of the task.
  unfoldable pub agent_message : A2aTask → Text → State → Message
  unfolding maybe_sign
  agent_message task answer s =
      maybe_sign
        record {
          message_id = server.fresh s 2;
          role = agent;
          parts = plain_text answer ∷ [];
          context_id = some task.context_id;
          task_id = some task.id;
          reference_task_ids = none;
          extensions = none;
          metadata = none;
        }
        (server.time s)

  -- `_run_agent_for_task`, after the agent's last event.
  unfoldable pub finish_task : A2aTask → Text → State → A2aTask × State
  unfolding agent_message with_message update_task_status
  finish_task task answer s =
      let m = agent_message task answer s in
      update_task_status
        (record task {
          artifacts = some (text_artifact (server.fresh s 3) none answer ∷ []);
          history = with_message task.history m;
        })
        completed (some m) s

  unfoldable pub run_result : A2aTask → List Event → Option Text → State → Option A2aTask × State
  unfolding finish_task final_answer
  run_result task events (some error) s = (none, s)
  run_result task events none s =
      let (task', s') = finish_task task (final_answer [] events) s in (some task', s')

  -- None where the agent raises.
  unfoldable pub run_agent_for_task : A2aTask → Text → State → Option A2aTask × State
  unfolding run_result update_task_status
  run_agent_for_task task user_message s =
      let (task', s') = update_task_status task working none s in
      run_result task' (server.astream user_message).events (server.astream user_message).error s'

  unfoldable pub frame_of : A2aTask → State → Update → Frame
  frame_of task s update = record {
    update = update;
    posted = scheduled server.parser server.allow_insecure_webhooks task.id s.push;
  }

  unfoldable pub status_of : A2aTask → TaskState → Bool → State → Update
  status_of task state final s =
      status_update task.id task.context_id
        record { state = state; message = none; timestamp = some (server.now s) } final none

  unfoldable pub frames_of : A2aTask → State → List Update → List Frame
  unfolding frame_of
  frames_of task s [] = []
  frames_of task s (u ∷ us) = frame_of task s u ∷ frames_of task s us

  unfoldable pub stream_result :
      A2aTask → List Event → Option Text → State → (List Frame × Option Text) × State
  unfolding status_of frames_of update_task_status
  stream_result task events (some error) s = (
    (
      frames_of task s (
          status_of task working false s
          ∷ events_to_a2a_stream task.id task.context_id (λ n. server.fresh s (4 + n)) 0 events),
      some error,
    ),
    s,
  )
  stream_result task events none s =
      let (task', s') = update_task_status task completed none s in
      (
        (
          frames_of task s (
              status_of task working false s
              ∷ (events_to_a2a_stream task.id task.context_id (λ n. server.fresh s (4 + n)) 0 events
                  ++ status_of task completed true s' ∷ [])),
          none,
        ),
        s',
      )

  unfoldable pub stream_task : A2aTask → Text → State → (List Frame × Option Text) × State
  unfolding stream_result update_task_status
  stream_task task user_text s =
      let (task', s') = update_task_status task working none s in
      stream_result task' (server.astream user_text).events (server.astream user_text).error s'

  unfoldable pub artifact_frames : A2aTask → List Artifact → List Frame
  artifact_frames task [] = []
  artifact_frames task (a ∷ as') =
      record { update = artifact_update task.id task.context_id a true; posted = [] }
      ∷ artifact_frames task as'

  unfoldable pub artifacts_of : Option (List Artifact) → List Artifact
  artifacts_of none = []
  artifacts_of (some as') = as'

  unfoldable pub replay_task_stream : A2aTask → List Frame
  unfolding artifact_frames artifacts_of
  replay_task_stream task =
      record {
        update =
            status_update task.id task.context_id task.status (is_terminal task.status.state) none;
        posted = [];
      }
      ∷ artifact_frames task (artifacts_of task.artifacts)
