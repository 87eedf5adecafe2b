-- ===== src/A2a/Cancel.antt =====
-- `CancelTask` and the requests for a task that is not there, in orxhestra/a2a/server.py.
use orxhestra.Prelude.{
  ◌<◌, true, false, Option, none, some, List, [], ◌++◌, ◌≡◌, refl, sym, ◌∙◌, subst, Text, codes,
  lookup, Bool-cases, inl, inr,
}
use orxhestra.Events.{Event}
use orxhestra.Crypto.{Primitives}
use orxhestra.TaskStore.{working, completed, canceled, state_value, put}
use orxhestra.A2a.{is_terminal}
use orxhestra.A2a.Notifications.{PushNotificationConfig}
use orxhestra.A2a.Server.{
  A2aTask, State, RequestId, Reply, success, task_result, Server, update_task_status, run_result,
  finish_task, final_answer,
}
use orxhestra.A2a.Handlers.{
  not_found, jsonrpc_error, task_not_cancelable, get_in, shown, replayed, cancel_found,
  create_config, handle_get_task, handle_cancel_task, handle_subscribe_to_task,
  handle_create_push_notification_config,
}
use orxhestra.A2a.Stored.{lookup-put, get_lem, get_missing}

module _ (p : Primitives) (server : Server p) where
  -- For an id that is not stored, each of `GetTask`, `CancelTask`, `SubscribeToTask` and
  -- `CreateTaskPushNotificationConfig` answers TASK_NOT_FOUND and leaves the server's state as it is.
  pub handlers_not_found :
      (id : Text) (config : PushNotificationConfig) (request_id : RequestId) (s : State)
      → lookup id s.tasks.tasks ≡ none
      → (handle_get_task p server id request_id s ≡ (not_found request_id id, s))
        × (handle_cancel_task p server id request_id s ≡ (not_found request_id id, s))
        × (handle_subscribe_to_task p server id request_id s ≡ (not_found request_id id, s))
        × (handle_create_push_notification_config p server id config request_id s
            ≡ (not_found request_id id, s))
  unfolding handle_get_task handle_cancel_task handle_subscribe_to_task
      handle_create_push_notification_config shown cancel_found replayed create_config
  handlers_not_found id config request_id s missing =
      let e = get_missing id s.tasks missing in rw e (refl, refl, refl, refl)

  canceled_task : A2aTask → State → A2aTask
  canceled_task task s = (update_task_status p server task canceled none s).0

  -- What `CancelTask` does with a stored task.
  pub record Cancels (id : Text) (request_id : RequestId) (task : A2aTask) (result : Reply × State)
      : Type 0 where
    pub rejected :
        is_terminal task.status.state ≡ true
        → (result.0
            ≡ jsonrpc_error request_id task_not_cancelable (
                codes "Task "
                ++ (id ++ (codes " is in terminal state " ++ state_value task.status.state))))
          × (lookup id result.1.tasks.tasks ≡ some task)
    pub accepted :
        is_terminal task.status.state ≡ false
        → (task' : A2aTask) × (result.0 ≡ success request_id (task_result task'))
          × (task'.status.state ≡ canceled)
          × (task'.history ≡ task.history)
          × (task'.artifacts ≡ task.artifacts)
          × (lookup id result.1.tasks.tasks ≡ some task')

  cancel_found-Cancels :
      (id : Text) (request_id : RequestId) (task : A2aTask) (s : State)
      → task.id ≡ id
      → 0 < s.tasks.max_tasks
      → lookup id s.tasks.tasks ≡ some task
      → Cancels id request_id task (cancel_found p server id request_id (some task) s)
  unfolding cancel_found canceled_task update_task_status
  cancel_found-Cancels id request_id task s same pos found =
      let task' = canceled_task task s in
      record {
        rejected = λ t. rw t (refl, found);
        accepted = λ t. rw t (
          task',
          refl,
          refl,
          refl,
          refl,
          subst (λ k. lookup k (put task' s.tasks).tasks ≡ some task') same
              (lookup-put task' s.tasks pos),
        );
      }

  -- `CancelTask` on a stored task in a terminal state answers TASK_NOT_CANCELABLE and leaves the task as it is. In any
  -- other state the task is stored as canceled, with its history and artifacts, and is the reply.
  pub handle_cancel_task-Cancels :
      (id : Text) (request_id : RequestId) (task : A2aTask) (s : State)
      → task.id ≡ id
      → 0 < s.tasks.max_tasks
      → lookup id s.tasks.tasks ≡ some task
      → Cancels id request_id task (handle_cancel_task p server id request_id s)
  unfolding handle_cancel_task
  handle_cancel_task-Cancels id request_id task s same pos found =
      let g = get_lem id s.tasks id in
      let s' = (get_in id s).1 in
      subst (λ o. Cancels id request_id task (cancel_found p server id request_id o s'))
        (sym (g.0 ∙ found))
        (cancel_found-Cancels id request_id task s' same (rw g.2 pos) (g.1 ∙ found))

  cancel_found_room :
      (id : Text) (request_id : RequestId) (o : Option A2aTask) (s : State)
      → (cancel_found p server id request_id o s).1.tasks.max_tasks ≡ s.tasks.max_tasks
  unfolding cancel_found update_task_status put
  cancel_found_room id request_id none s = refl
  cancel_found_room id request_id (some task) s =
      elim (Bool-cases (is_terminal task.status.state)) [ inl t ↦ rw t refl | inr t ↦ rw t refl ]

  cancel_room :
      (id : Text) (request_id : RequestId) (s : State)
      → (handle_cancel_task p server id request_id s).1.tasks.max_tasks ≡ s.tasks.max_tasks
  unfolding handle_cancel_task
  cancel_room id request_id s =
      cancel_found_room id request_id (get_in id s).0 (get_in id s).1 ∙ (get_lem id s.tasks id).2

  -- A task that is canceled while its agent runs is canceled for the client, but stored as completed once the agent
  -- has finished, although canceled is a terminal state.
  pub handle_cancel_task_lost :
      (task : A2aTask) (request_id : RequestId) (events : List Event) (s : State)
      → task.status.state ≡ working
      → 0 < s.tasks.max_tasks
      → lookup task.id s.tasks.tasks ≡ some task
      → let canceling = handle_cancel_task p server task.id request_id s in
        let finishing = run_result p server task events none canceling.1 in
        ((task' : A2aTask) × (canceling.0 ≡ success request_id (task_result task'))
          × (task'.status.state ≡ canceled))
        × ((task' : A2aTask) × (lookup task.id finishing.1.tasks.tasks ≡ some task')
            × (task'.status.state ≡ completed))
  unfolding run_result finish_task update_task_status is_terminal
  handle_cancel_task_lost task request_id events s runs pos found =
      let c = handle_cancel_task-Cancels task.id request_id task s refl pos found in
      let a = c.accepted (rw runs refl) in
      let s' = (handle_cancel_task p server task.id request_id s).1 in
      let last = (finish_task p server task (final_answer [] events) s').0 in
      (
        (a.0, a.1, a.2),
        (last, lookup-put last s'.tasks (rw (cancel_room task.id request_id s) pos), refl),
      )
