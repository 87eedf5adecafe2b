-- ===== src/A2a/Frames.antt =====
-- The update stream of a task in orxhestra/a2a/server.py, over the conversion of orxhestra/a2a/converters.py.
use orxhestra.Prelude.{
  ℕ, suc, ◌+◌, ◌<◌, Bool, true, false, not, ◌&&◌, Option, none, some, List, [], ◌∷◌, ◌++◌, ◌≡◌,
  refl, ap, ◌∙◌, arith, Text, lookup, all, all-append, ◌==ₜ◌, eq_refl,
}
use orxhestra.Events.{Event, ToolCallPart, ToolResponsePart, tool_calls, tool_responses, event_text}
use orxhestra.Crypto.{Primitives}
use orxhestra.TaskStore.{working, completed, put}
use orxhestra.A2a.{
  Update, status_update, artifact_update, call_update, response_update, updates_of,
  events_to_a2a_stream,
}
use orxhestra.A2a.Server.{
  A2aTask, State, Frame, Server, frame_of, frames_of, status_of, update_task_status, stream_result,
  stream_task,
}
use orxhestra.A2a.Stored.{lookup-put}

unfoldable pub is_final : Update → Bool
is_final (status_update task_id context_id status final metadata) = final
is_final (artifact_update task_id context_id artifact last_chunk) = false

unfoldable pub is_of : Text → Text → Update → Bool
is_of id context (status_update task_id context_id status final metadata) =
    task_id ==ₜ id && context_id ==ₜ context
is_of id context (artifact_update task_id context_id artifact last_chunk) =
    task_id ==ₜ id && context_id ==ₜ context

-- An update of the task that is not the last one.
abbrev pub goes_on : Text → Text → Update → Bool
goes_on id context u = is_of id context u && not (is_final u)

unfoldable pub updates : List Frame → List Update
updates [] = []
updates (f ∷ fs) = f.update ∷ updates fs

module _ (id context : Text) where
  call_update-goes_on :
      (tcs : List ToolCallPart) → all (goes_on id context) (call_update id context tcs) ≡ true
  unfolding call_update is_of is_final
  call_update-goes_on [] = refl
  call_update-goes_on (tc ∷ tcs) = ground (arith, eq_refl id, eq_refl context)

  response_update-goes_on :
      (fresh shown : Text) (trs : List ToolResponsePart)
      → goes_on id context (response_update id context fresh shown trs) ≡ true
  unfolding response_update is_of is_final
  response_update-goes_on fresh shown [] = ground (arith, eq_refl id, eq_refl context)
  response_update-goes_on fresh shown (tr ∷ trs) = ground (arith, eq_refl id, eq_refl context)

  updates_of-goes_on :
      (fresh : Text) (e : Event) → all (goes_on id context) (updates_of id context fresh e) ≡ true
  unfolding updates_of is_of is_final
  updates_of-goes_on fresh e = ground (
    arith,
    eq_refl id,
    eq_refl context,
    call_update-goes_on (tool_calls e),
    response_update-goes_on fresh (event_text e) (tool_responses e),
  )

  events_go_on :
      (fresh : ℕ → Text) (n : ℕ) (es : List Event)
      → all (goes_on id context) (events_to_a2a_stream id context fresh n es) ≡ true
  unfolding events_to_a2a_stream
  events_go_on fresh n [] = refl
  events_go_on fresh n (e ∷ es) =
      all-append (goes_on id context) (updates_of id context (fresh n) e)
        (events_to_a2a_stream id context fresh (suc n) es)
      ∙ ground (arith, updates_of-goes_on (fresh n) e, events_go_on fresh (suc n) es)

module _ (p : Primitives) (server : Server p) where
  updates-frames_of :
      (task : A2aTask) (s : State) (us : List Update) → updates (frames_of p server task s us) ≡ us
  unfolding frames_of frame_of updates
  updates-frames_of task s [] = refl
  updates-frames_of task s (u ∷ us) = ap (λ l. u ∷ l) (updates-frames_of task s us)

  -- What a client sees of a task that is streamed to its end.
  pub record Streams (task : A2aTask) (frames : List Frame) (failure : Option Text) (s : State)
      : Type 0 where
    pub before : List Update
    pub last : Update
    pub whole : updates frames ≡ before ++ last ∷ []
    pub unbroken : failure ≡ none
    pub going : all (goes_on task.id task.context_id) before ≡ true
    pub final : is_final last ≡ true
    pub own : is_of task.id task.context_id last ≡ true
    pub stored_task : A2aTask
    pub stored : lookup task.id s.tasks.tasks ≡ some stored_task
    pub state : stored_task.status.state ≡ completed
    pub artifacts : stored_task.artifacts ≡ task.artifacts
    pub history : stored_task.history ≡ task.history

  -- When the agent finishes, the stream of a task is unbroken: every update is one of the task's, and the last one and no other is
  -- final. The task is then stored as completed, with the artifacts and the history that it had before.
  pub stream_task-Streams :
      (task : A2aTask) (user_text : Text) (s : State)
      → (server.astream user_text).error ≡ none
      → 0 < s.tasks.max_tasks
      → let r = stream_task p server task user_text s in Streams task r.0.0 r.0.1 r.1
  unfolding stream_task stream_result status_of update_task_status is_final is_of put
  stream_task-Streams task user_text s fine pos =
      let started = update_task_status p server task working none s in
      let done = update_task_status p server started.0 completed none started.1 in
      let middle =
        events_to_a2a_stream task.id task.context_id (λ n. server.fresh started.1 (4 + n)) 0
          (server.astream user_text).events in
      rw fine record {
        before = status_of p server task working false started.1 ∷ middle;
        last = status_of p server task completed true done.1;
        whole = updates-frames_of started.0 started.1 _;
        unbroken = refl;
        going = ground (
          arith,
          eq_refl task.id,
          eq_refl task.context_id,
          events_go_on task.id task.context_id (λ n. server.fresh started.1 (4 + n)) 0
              (server.astream user_text).events,
        );
        final = refl;
        own = ground (arith, eq_refl task.id, eq_refl task.context_id);
        stored_task = done.0;
        stored = lookup-put done.0 started.1.tasks pos;
        state = refl;
        artifacts = refl;
        history = refl;
      }
