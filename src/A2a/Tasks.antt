-- ===== src/A2a/Tasks.antt =====
-- The task that a message starts, in orxhestra/a2a/server.py: when the agent finishes, and when it raises.
use orxhestra.Prelude.{
  ℕ, ◌<◌, Bool, true, false, Option, none, some, List, [], ◌∷◌, ◌≡◌, refl, ap, ◌∙◌, arith, subst,
  Text, codes, lookup, keep, if◌then◌else◌,
}
use orxhestra.Events.{Event, is_final_response, event_text}
use orxhestra.Crypto.{Primitives}
use orxhestra.TaskStore.{working, completed, put}
use orxhestra.Agents.Streams.{handed_on, last_text}
use orxhestra.A2a.{Message, extract_text, text_artifact, plain_text}
use orxhestra.A2a.Messages.{sign_message}
use orxhestra.A2a.Server.{
  A2aTask, State, RequestId, success, raises, task_result, Server, final_answer, create_task,
  update_task_status, finish_task, run_result, run_agent_for_task, agent_message, with_message,
  maybe_sign, signed_with,
}
use orxhestra.A2a.Handlers.{verify_incoming, send_accepted, reply_task, handle_send_message}
use orxhestra.A2a.Stored.{lookup-put}

-- The answer is the text of the last final response.
final_answer-handed_on :
    (answer : Text) (es : List Event) → final_answer answer es ≡ handed_on answer es
unfolding final_answer handed_on last_text
final_answer-handed_on answer [] = refl
final_answer-handed_on answer (e ∷ es) =
    final_answer-handed_on (if is_final_response e then event_text e else answer) es
    ∙ by_case (is_final_response e)
  where
    by_case :
        (b : Bool)
        → handed_on (if b then event_text e else answer) es
          ≡ last_text answer
              (if b then e ∷ keep is_final_response es else keep is_final_response es)
    by_case true = refl
    by_case false = refl

module _ (p : Primitives) (server : Server p) where
  signed_with-parts :
      (m : Message) (key : Option p.PrivateKey) (time : ℕ)
      → (signed_with p server m key time).parts ≡ m.parts
  unfolding signed_with sign_message
  signed_with-parts m none time = refl
  signed_with-parts m (some key) time = ground arith

  agent_message-parts :
      (task : A2aTask) (answer : Text) (s : State)
      → (agent_message p server task answer s).parts ≡ plain_text answer ∷ []
  unfolding agent_message maybe_sign
  agent_message-parts task answer s = signed_with-parts _ server.signing_key (server.time s)

module _ (p : Primitives) (server : Server p) (m : Message) (request_id : RequestId)
    (s : State) where
  -- The reply to the request is a completed task, which is stored: its history is the message and the
  -- agent's reply, and the reply and the one artifact carry the answer.
  pub record Completes (answer : Text) : Type 0 where
    pub task : A2aTask
    pub reply : Message
    pub artifact_id : Text
    pub replied :
        (handle_send_message p server m request_id s).0 ≡ success request_id (task_result task)
    pub state : task.status.state ≡ completed
    pub shown : task.status.message ≡ some reply
    pub history : task.history ≡ some (m ∷ reply ∷ [])
    pub says : reply.parts ≡ plain_text answer ∷ []
    pub artifacts : task.artifacts ≡ some (text_artifact artifact_id none answer ∷ [])
    pub stored :
        lookup task.id (handle_send_message p server m request_id s).1.tasks.tasks ≡ some task

  -- The task as it is while the agent runs, with the server's state.
  abbrev pub started : A2aTask × State
  started =
      let created = create_task p server m m.context_id s in
      update_task_status p server created.0 working none created.1

  finished : A2aTask × State
  finished =
      finish_task p server started.0 (final_answer [] (server.astream (extract_text m)).events)
        started.1

  handle_send_message_finished :
      verify_incoming p server m request_id ≡ none
      → (server.astream (extract_text m)).error ≡ none
      → handle_send_message p server m request_id s
        ≡ (success request_id (task_result finished.0), finished.1)
  unfolding handle_send_message send_accepted run_agent_for_task run_result reply_task finished
  handle_send_message_finished accepted fine = rw (accepted, fine) refl

  -- When the agent finishes, a message that is accepted gets the completed task as its reply, which is also what the
  -- store holds under the task's id. The answer is the text of the agent's last final response, and empty without one.
  pub handle_send_message-Completes :
      verify_incoming p server m request_id ≡ none
      → (server.astream (extract_text m)).error ≡ none
      → 0 < s.tasks.max_tasks
      → Completes (handed_on [] (server.astream (extract_text m)).events)
  unfolding finished finish_task with_message update_task_status create_task put
  handle_send_message-Completes accepted fine pos =
      let e = handle_send_message_finished accepted fine in
      subst Completes (final_answer-handed_on [] (server.astream (extract_text m)).events) record {
        task = finished.0;
        reply =
            agent_message p server started.0
              (final_answer [] (server.astream (extract_text m)).events) started.1;
        artifact_id = server.fresh started.1 3;
        replied = ap (λ r. r.0) e;
        state = refl;
        shown = refl;
        history = refl;
        says = agent_message-parts p server started.0 _ started.1;
        artifacts = refl;
        stored = rw e (lookup-put finished.0 started.1.tasks pos);
      }

  -- When the agent raises, the request of a message that is accepted fails with no envelope, and the store is left
  -- with a task that is working.
  pub handle_send_message_stuck :
      (failure : Text)
      → verify_incoming p server m request_id ≡ none
      → (server.astream (extract_text m)).error ≡ some failure
      → 0 < s.tasks.max_tasks
      → ((handle_send_message p server m request_id s).0 ≡ raises (codes "astream"))
        × (task : A2aTask) × (task.status.state ≡ working)
        × (lookup task.id (handle_send_message p server m request_id s).1.tasks.tasks ≡ some task)
  unfolding handle_send_message send_accepted run_agent_for_task run_result reply_task
      update_task_status create_task put
  handle_send_message_stuck failure accepted fails pos =
      rw (accepted, fails)
        (
          refl,
          started.0,
          refl,
          lookup-put started.0 (create_task p server m m.context_id s).1.tasks pos,
        )
