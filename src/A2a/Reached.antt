-- ===== src/A2a/Reached.antt =====
-- What requests to the server of orxhestra/a2a/server.py do to its task store (orxhestra/a2a/store.py): the store's own operations, in some order.
use orxhestra.Prelude.{
  ℕ, Option, none, some, List, [], ◌≡◌, sym, subst, Text, Dict, lookup, Bool-cases, inl, inr,
}
use orxhestra.Values.{Value}
use orxhestra.Events.{Event}
use orxhestra.Crypto.{Primitives}
use orxhestra.TaskStore.{canceled, working}
use orxhestra.TaskStore.Recency.{Reach, start, next, put_step, get_step}
use orxhestra.A2a.{Message, extract_text, is_terminal}
use orxhestra.A2a.Notifications.{PushNotificationConfig}
use orxhestra.A2a.Server.{
  A2aTask, State, RequestId, Reply, Server, create_task, update_task_status, finish_task,
  run_result, run_agent_for_task, stream_result, stream_task,
}
use orxhestra.A2a.Handlers.{
  get_in, verify_incoming, send_accepted, stream_accepted, cancel_found, create_config,
  handle_send_message, handle_send_streaming_message, handle_get_task, handle_cancel_task,
  handle_list_tasks, handle_subscribe_to_task, handle_get_extended_agent_card,
  handle_create_push_notification_config, handle_get_push_notification_config,
  handle_list_push_notification_configs, handle_delete_push_notification_config,
}
use orxhestra.A2a.Dispatch.{
  Models, Method, send_message, send_streaming_message, get_task, cancel_task, list_tasks,
  subscribe_to_task, get_extended_agent_card, create_push_config, get_push_config,
  list_push_configs, delete_push_config, RpcRequest, validated, method_map, or_no_params, handle,
  route, dispatch_request, dispatch,
}

module _ (p : Primitives) (server : Server p) (m : ℕ) where
  run_result-Reach :
      (task : A2aTask) (events : List Event) (o : Option Text) (s : State)
      → Reach m s.tasks
      → Reach m (run_result p server task events o s).1.tasks
  unfolding run_result finish_task update_task_status
  run_result-Reach task events none s r = next r (put_step _)
  run_result-Reach task events (some error) s r = r

  stream_result-Reach :
      (task : A2aTask) (events : List Event) (o : Option Text) (s : State)
      → Reach m s.tasks
      → Reach m (stream_result p server task events o s).1.tasks
  unfolding stream_result update_task_status
  stream_result-Reach task events none s r = next r (put_step _)
  stream_result-Reach task events (some error) s r = r

  send_accepted-Reach :
      (message : Message) (id : RequestId) (o : Option Reply) (s : State)
      → Reach m s.tasks
      → Reach m (send_accepted p server message id o s).1.tasks
  unfolding send_accepted run_agent_for_task create_task update_task_status
  send_accepted-Reach message id none s r =
      let created = create_task p server message message.context_id s in
      let started = update_task_status p server created.0 working none created.1 in
      let run = server.astream (extract_text message) in
      run_result-Reach started.0 run.events run.error started.1
        (next (next r (put_step created.0)) (put_step started.0))
  send_accepted-Reach message id (some rejection) s r = r

  stream_accepted-Reach :
      (message : Message) (id : RequestId) (o : Option Reply) (s : State)
      → Reach m s.tasks
      → Reach m (stream_accepted p server message id o s).1.tasks
  unfolding stream_accepted stream_task create_task update_task_status
  stream_accepted-Reach message id none s r =
      let created = create_task p server message message.context_id s in
      let started = update_task_status p server created.0 working none created.1 in
      let run = server.astream (extract_text message) in
      stream_result-Reach started.0 run.events run.error started.1
        (next (next r (put_step created.0)) (put_step started.0))
  stream_accepted-Reach message id (some rejection) s r = r

  cancel_found-Reach :
      (k : Text) (id : RequestId) (o : Option A2aTask) (s : State)
      → Reach m s.tasks
      → Reach m (cancel_found p server k id o s).1.tasks
  unfolding cancel_found update_task_status
  cancel_found-Reach k id none s r = r
  cancel_found-Reach k id (some task) s r =
      let put' = next r (put_step (update_task_status p server task canceled none s).0) in
      elim (Bool-cases (is_terminal task.status.state)) [ inl t ↦ rw t r | inr t ↦ rw t put' ]

  create_config-Reach :
      (k : Text) (config : PushNotificationConfig) (id : RequestId) (o : Option A2aTask) (s : State)
      → Reach m s.tasks
      → Reach m (create_config p server k config id o s).1.tasks
  unfolding create_config
  create_config-Reach k config id none s r = r
  create_config-Reach k config id (some task) s r = r

  validated-Reach :
      {A : Type 0} (o : Option A) (handler : A → State → Reply × State) (s : State)
      → Reach m s.tasks
      → ((a : A) → Reach m (handler a s).1.tasks)
      → Reach m (validated o handler s).1.tasks
  unfolding validated
  validated-Reach none handler s r h = r
  validated-Reach (some a) handler s r h = h a

  handle-Reach :
      (models : Models) (method : Method) (params : Dict Value) (id : RequestId) (s : State)
      → Reach m s.tasks
      → Reach m (handle p server models method params id s).1.tasks
  unfolding handle handle_send_message handle_send_streaming_message handle_get_task
      handle_cancel_task handle_list_tasks handle_subscribe_to_task handle_get_extended_agent_card
      handle_create_push_notification_config handle_get_push_notification_config
      handle_list_push_notification_configs handle_delete_push_notification_config
  handle-Reach models send_message params id s r =
      validated-Reach (models.read_send params) _ s r
        (λ q. send_accepted-Reach q id (verify_incoming p server q id) s r)
  handle-Reach models send_streaming_message params id s r =
      validated-Reach (models.read_send params) _ s r
        (λ q. stream_accepted-Reach q id (verify_incoming p server q id) s r)
  handle-Reach models get_task params id s r =
      validated-Reach (models.read_task_query params) _ s r (λ k. next r (get_step k))
  handle-Reach models cancel_task params id s r =
      validated-Reach (models.read_task_id params) _ s r
        (λ k. cancel_found-Reach k id (get_in k s).0 (get_in k s).1 (next r (get_step k)))
  handle-Reach models list_tasks params id s r =
      validated-Reach (models.read_list params) _ s r (λ q. r)
  handle-Reach models subscribe_to_task params id s r =
      validated-Reach (models.read_task_id params) _ s r (λ k. next r (get_step k))
  handle-Reach models get_extended_agent_card params id s r = r
  handle-Reach models create_push_config params id s r =
      validated-Reach (models.read_push params) _ s r (λ q.
        create_config-Reach q.0 q.1 id (get_in q.0 s).0 (get_in q.0 s).1 (next r (get_step q.0)))
  handle-Reach models get_push_config params id s r =
      validated-Reach (models.read_push_query params) _ s r (λ q. r)
  handle-Reach models list_push_configs params id s r =
      validated-Reach (models.read_push_task params) _ s r (λ k. r)
  handle-Reach models delete_push_config params id s r =
      validated-Reach (models.read_push_delete params) _ s r (λ q. r)

  route-Reach :
      (models : Models) (rpc : RpcRequest) (o : Option Method) (s : State)
      → Reach m s.tasks
      → Reach m (route p server models rpc o s).1.tasks
  unfolding route
  route-Reach models rpc none s r = r
  route-Reach models rpc (some method) s r =
      handle-Reach models method (or_no_params rpc.params) rpc.id s r

  dispatch_request-Reach :
      (models : Models) (body : Value) (o : Option RpcRequest) (s : State)
      → Reach m s.tasks
      → Reach m (dispatch_request p server models body o s).1.tasks
  unfolding dispatch_request
  dispatch_request-Reach models body none s r = r
  dispatch_request-Reach models body (some rpc) s r =
      route-Reach models rpc (lookup rpc.method method_map) s r

  -- The states of the server after any requests, from an empty task store with the bound.
  pub data Served (models : Models) : State → Type 0 where
    begin : (s : State) → s.tasks ≡ record { tasks = []; max_tasks = m } → Served models s
    request :
        (body : Option Value) (s : State)
        → Served models s
        → Served models (dispatch p server models body s).1

  -- Whatever requests the server gets, valid or not, its task store only goes through operations of its own: it is
  -- always one that the store's operations reach from the empty store.
  pub Served-Reach : (models : Models) (s : State) → Served models s → Reach m s.tasks
  unfolding dispatch
  Served-Reach models s (begin _ e) = subst (Reach m) (sym e) start
  Served-Reach models s (request none s' r) = Served-Reach models s' r
  Served-Reach models s (request (some body) s' r) =
      dispatch_request-Reach models body (models.read_request body) s' (Served-Reach models s' r)
