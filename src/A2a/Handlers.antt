-- ===== src/A2a/Handlers.antt =====
-- The request handlers of `A2AServer` in orxhestra/a2a/server.py, each from its validated parameters, and the envelopes of
-- `_jsonrpc_success` and `_jsonrpc_error`.
use orxhestra.Prelude.{
  ℕ, Bool, true, false, Option, none, some, ◌++◌, Text, codes, merge, nonempty, ◌==◌, if◌then◌else◌,
  ℤ, pos, negsuc,
}
use orxhestra.Crypto.{Primitives}
use orxhestra.TaskStore.{TaskState, state_value, canceled, get, list}
use orxhestra.A2a.{Message, extract_text, is_terminal}
use orxhestra.A2a.Notifications.{
  PushNotificationConfig, set_config, get_config, list_configs, delete_config,
}
use orxhestra.A2a.Server.{
  A2aTask, State, RequestId, text_id, int_id, no_id, task_result, tasks_result, card_result,
  config_result, configs_result, deleted_result, Reply, success, rpc_error, stream, raises, Server,
  create_task, update_task_status, run_agent_for_task, stream_task, replay_task_stream,
}

-- `A2AErrorCode`; `negsuc n` is -(n + 1).
abbrev pub parse_error : ℤ
parse_error = negsuc 32699

abbrev pub invalid_request : ℤ
invalid_request = negsuc 32599

abbrev pub method_not_found : ℤ
method_not_found = negsuc 32600

abbrev pub task_not_found : ℤ
task_not_found = negsuc 32000

abbrev pub task_not_cancelable : ℤ
task_not_cancelable = negsuc 32001

-- `request_id or 0`
unfoldable pub or_zero : RequestId → RequestId
or_zero no_id = int_id (pos 0)
or_zero (int_id i) = int_id i
or_zero (text_id t) = if nonempty t then text_id t else int_id (pos 0)

-- `400 if code != A2AErrorCode.INTERNAL_ERROR else 500`
unfoldable pub http_status : ℤ → ℕ
http_status (pos n) = 400
http_status (negsuc n) = if n == 32602 then 500 else 400

unfoldable pub jsonrpc_error : RequestId → ℤ → Text → Reply
unfolding or_zero http_status
jsonrpc_error request_id code message =
    rpc_error (or_zero request_id) code message (http_status code)

unfoldable pub not_found : RequestId → Text → Reply
unfolding jsonrpc_error
not_found request_id id =
    jsonrpc_error request_id task_not_found (codes "Task " ++ (id ++ codes " not found"))

-- The store after `get`, with what it found.
abbrev pub get_in : Text → State → Option A2aTask × State
get_in id s = let (found, tasks) = get id s.tasks in (found, record s { tasks = tasks })

module _ (p : Primitives) (server : Server p) where
  unfoldable pub judge : RequestId → Option Bool → Option Reply
  unfolding jsonrpc_error
  judge request_id none = some (raises (codes "verify_message"))
  judge request_id (some true) = none
  judge request_id (some false) = some (
      jsonrpc_error request_id invalid_request
        (codes "Message signature missing or invalid; server requires signed messages."))

  -- `_verify_incoming`
  unfoldable pub verify_incoming : Message → RequestId → Option Reply
  unfolding judge
  verify_incoming m request_id =
      if server.require_signed then judge request_id (server.verify m) else none

  unfoldable pub reply_task : RequestId → Option A2aTask → Reply
  reply_task request_id none = raises (codes "astream")
  reply_task request_id (some task) = success request_id (task_result task)

  unfoldable pub send_accepted : Message → RequestId → Option Reply → State → Reply × State
  unfolding create_task run_agent_for_task reply_task
  send_accepted m request_id (some rejection) s = (rejection, s)
  send_accepted m request_id none s =
      let (task, s') = create_task p server m m.context_id s in
      let (result, s'') = run_agent_for_task p server task (extract_text m) s' in
      (reply_task request_id result, s'')

  unfoldable pub handle_send_message : Message → RequestId → State → Reply × State
  unfolding verify_incoming send_accepted
  handle_send_message m request_id s = send_accepted m request_id (verify_incoming m request_id) s

  unfoldable pub stream_accepted : Message → RequestId → Option Reply → State → Reply × State
  unfolding create_task stream_task
  stream_accepted m request_id (some rejection) s = (rejection, s)
  stream_accepted m request_id none s =
      let (task, s') = create_task p server m m.context_id s in
      let ((frames, failure), s'') = stream_task p server task (extract_text m) s' in
      (stream request_id frames failure, s'')

  unfoldable pub handle_send_streaming_message : Message → RequestId → State → Reply × State
  unfolding verify_incoming stream_accepted
  handle_send_streaming_message m request_id s =
      stream_accepted m request_id (verify_incoming m request_id) s

  unfoldable pub shown : Text → RequestId → Option A2aTask → Reply
  unfolding not_found
  shown id request_id none = not_found request_id id
  shown id request_id (some task) = success request_id (task_result task)

  unfoldable pub handle_get_task : Text → RequestId → State → Reply × State
  unfolding shown
  handle_get_task id request_id s = let (found, s') = get_in id s in (shown id request_id found, s')

  unfoldable pub cancel_found : Text → RequestId → Option A2aTask → State → Reply × State
  unfolding not_found update_task_status jsonrpc_error
  cancel_found id request_id none s = (not_found request_id id, s)
  cancel_found id request_id (some task) s =
      let (task', s') = update_task_status p server task canceled none s in
      if is_terminal task.status.state
      then (
        jsonrpc_error request_id task_not_cancelable (
            codes "Task "
            ++ (id ++ (codes " is in terminal state " ++ state_value task.status.state))),
        s,
      )
      else (success request_id (task_result task'), s')

  unfoldable pub handle_cancel_task : Text → RequestId → State → Reply × State
  unfolding cancel_found
  handle_cancel_task id request_id s =
      let (found, s') = get_in id s in cancel_found id request_id found s'

  unfoldable pub handle_list_tasks :
      (context_id : Option Text) (state : Option TaskState) (limit : ℤ) (cursor : Option Text)
      → RequestId
      → State
      → Reply × State
  handle_list_tasks context_id state limit cursor request_id s =
      let (tasks, next_cursor) = list server.tokens context_id state limit cursor s.tasks in
      (success request_id (tasks_result tasks next_cursor), s)

  unfoldable pub replayed : Text → RequestId → Option A2aTask → Reply
  unfolding not_found replay_task_stream
  replayed id request_id none = not_found request_id id
  replayed id request_id (some task) = stream request_id (replay_task_stream p server task) none

  unfoldable pub handle_subscribe_to_task : Text → RequestId → State → Reply × State
  unfolding replayed
  handle_subscribe_to_task id request_id s =
      let (found, s') = get_in id s in (replayed id request_id found, s')

  unfoldable pub handle_get_extended_agent_card : RequestId → State → Reply × State
  handle_get_extended_agent_card request_id s =
      (success request_id (card_result (merge server.card server.extended_card_extras)), s)

  unfoldable pub create_config :
      Text → PushNotificationConfig → RequestId → Option A2aTask → State → Reply × State
  unfolding not_found
  create_config task_id config request_id none s = (not_found request_id task_id, s)
  create_config task_id config request_id (some task) s = (
    success request_id (config_result task_id config),
    record s { push = set_config task_id config s.push },
  )

  unfoldable pub handle_create_push_notification_config :
      Text → PushNotificationConfig → RequestId → State → Reply × State
  unfolding create_config
  handle_create_push_notification_config task_id config request_id s =
      let (found, s') = get_in task_id s in create_config task_id config request_id found s'

  unfoldable pub shown_config : Text → RequestId → Option PushNotificationConfig → Reply
  unfolding jsonrpc_error
  shown_config task_id request_id none =
      jsonrpc_error request_id task_not_found
        (codes "No push-notification config for task " ++ task_id)
  shown_config task_id request_id (some config) = success request_id (config_result task_id config)

  unfoldable pub handle_get_push_notification_config :
      Text → Option Text → RequestId → State → Reply × State
  unfolding shown_config
  handle_get_push_notification_config task_id config_id request_id s =
      (shown_config task_id request_id (get_config task_id config_id s.push), s)

  unfoldable pub handle_list_push_notification_configs : Text → RequestId → State → Reply × State
  handle_list_push_notification_configs task_id request_id s =
      (success request_id (configs_result task_id (list_configs task_id s.push)), s)

  unfoldable pub handle_delete_push_notification_config :
      Text → Text → RequestId → State → Reply × State
  handle_delete_push_notification_config task_id config_id request_id s =
      let (deleted, push) = delete_config task_id config_id s.push in
      (success request_id (deleted_result deleted), record s { push = push })
