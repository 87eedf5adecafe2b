-- ===== src/A2a/Dispatch.antt =====
-- `A2AServer._dispatch` of orxhestra/a2a/server.py: from the body of a request to its handler. JSON and the models of pydantic are
-- parameters: `read_…` is none where `model_validate` raises.
use orxhestra.Prelude.{Option, none, some, [], ◌∷◌, ◌++◌, Text, codes, Dict, lookup, ℤ}
use orxhestra.Values.{Value, obj}
use orxhestra.Crypto.{Primitives}
use orxhestra.TaskStore.{TaskState}
use orxhestra.A2a.{Message}
use orxhestra.A2a.Notifications.{PushNotificationConfig}
use orxhestra.A2a.Server.{State, RequestId, no_id, Reply, raises, Server}
use orxhestra.A2a.Handlers.{
  parse_error, invalid_request, method_not_found, jsonrpc_error, handle_send_message,
  handle_send_streaming_message, handle_get_task, handle_cancel_task, handle_list_tasks,
  handle_subscribe_to_task, handle_get_extended_agent_card, handle_create_push_notification_config,
  handle_get_push_notification_config, handle_list_push_notification_configs,
  handle_delete_push_notification_config,
}

pub record RpcRequest : Type 0 where
  pub id : RequestId
  pub method : Text
  pub params : Option (Dict Value)

pub record ListParams : Type 0 where
  pub context_id : Option Text
  pub state : Option TaskState
  pub limit : ℤ
  pub cursor : Option Text

-- The models of the requests.
pub record Models : Type 0 where
  pub read_request : Value → Option RpcRequest
  -- `body.get("id")`, of a JSON object
  pub read_id : Value → RequestId
  pub read_send : Dict Value → Option Message
  pub read_task_query : Dict Value → Option Text
  pub read_task_id : Dict Value → Option Text
  pub read_list : Dict Value → Option ListParams
  pub read_push : Dict Value → Option (Text × PushNotificationConfig)
  pub read_push_query : Dict Value → Option (Text × Option Text)
  pub read_push_task : Dict Value → Option Text
  pub read_push_delete : Dict Value → Option (Text × Text)
  -- `repr` of a text
  pub repr : Text → Text

pub data Method : Type 0 where
  send_message : Method
  send_streaming_message : Method
  get_task : Method
  cancel_task : Method
  list_tasks : Method
  subscribe_to_task : Method
  get_extended_agent_card : Method
  create_push_config : Method
  get_push_config : Method
  list_push_configs : Method
  delete_push_config : Method

-- `_METHOD_MAP`
abbrev pub method_map : Dict Method
method_map =
    (codes "SendMessage", send_message)
    ∷ (codes "SendStreamingMessage", send_streaming_message)
    ∷ (codes "GetTask", get_task)
    ∷ (codes "CancelTask", cancel_task)
    ∷ (codes "ListTasks", list_tasks)
    ∷ (codes "SubscribeToTask", subscribe_to_task)
    ∷ (codes "GetExtendedAgentCard", get_extended_agent_card)
    ∷ (codes "CreateTaskPushNotificationConfig", create_push_config)
    ∷ (codes "GetTaskPushNotificationConfig", get_push_config)
    ∷ (codes "ListTaskPushNotificationConfigs", list_push_configs)
    ∷ (codes "DeleteTaskPushNotificationConfig", delete_push_config)
    ∷ (codes "message/send", send_message)
    ∷ (codes "message/stream", send_streaming_message)
    ∷ (codes "tasks/get", get_task)
    ∷ (codes "tasks/cancel", cancel_task)
    ∷ (codes "tasks/list", list_tasks)
    ∷ (codes "tasks/resubscribe", subscribe_to_task)
    ∷ (codes "agent/getAuthenticatedExtendedCard", get_extended_agent_card)
    ∷ (codes "tasks/pushNotificationConfig/set", create_push_config)
    ∷ (codes "tasks/pushNotificationConfig/get", get_push_config)
    ∷ (codes "tasks/pushNotificationConfig/list", list_push_configs)
    ∷ (codes "tasks/pushNotificationConfig/delete", delete_push_config)
    ∷ []

unfoldable pub or_no_params : Option (Dict Value) → Dict Value
or_no_params none = []
or_no_params (some d) = d

-- A handler on its parameters, where they are valid.
unfoldable pub validated :
    {A : Type 0} → Option A → (A → State → Reply × State) → State → Reply × State
validated none handler s = (raises (codes "ValidationError"), s)
validated (some a) handler s = handler a s

module _ (p : Primitives) (server : Server p) (models : Models) where
  unfoldable pub handle : Method → Dict Value → RequestId → State → Reply × State
  unfolding validated
  handle send_message params id =
      validated (models.read_send params) (λ m. handle_send_message p server m id)
  handle send_streaming_message params id =
      validated (models.read_send params) (λ m. handle_send_streaming_message p server m id)
  handle get_task params id =
      validated (models.read_task_query params) (λ t. handle_get_task p server t id)
  handle cancel_task params id =
      validated (models.read_task_id params) (λ t. handle_cancel_task p server t id)
  handle list_tasks params id =
      validated (models.read_list params)
        (λ q. handle_list_tasks p server q.context_id q.state q.limit q.cursor id)
  handle subscribe_to_task params id =
      validated (models.read_task_id params) (λ t. handle_subscribe_to_task p server t id)
  handle get_extended_agent_card params id = handle_get_extended_agent_card p server id
  handle create_push_config params id =
      validated (models.read_push params)
        (λ q. handle_create_push_notification_config p server q.0 q.1 id)
  handle get_push_config params id =
      validated (models.read_push_query params)
        (λ q. handle_get_push_notification_config p server q.0 q.1 id)
  handle list_push_configs params id =
      validated (models.read_push_task params)
        (λ t. handle_list_push_notification_configs p server t id)
  handle delete_push_config params id =
      validated (models.read_push_delete params)
        (λ q. handle_delete_push_notification_config p server q.0 q.1 id)

  unfoldable pub route : RpcRequest → Option Method → State → Reply × State
  unfolding handle jsonrpc_error or_no_params
  route rpc none s = (
    jsonrpc_error rpc.id method_not_found
        (codes "Method " ++ (models.repr rpc.method ++ codes " not found")),
    s,
  )
  route rpc (some method) s = handle method (or_no_params rpc.params) rpc.id s

  -- `body.get` is there only for an object.
  unfoldable pub malformed : Value → Reply
  unfolding jsonrpc_error
  malformed (obj fs) =
      jsonrpc_error (models.read_id (obj fs)) invalid_request (codes "Invalid JSON-RPC request")
  malformed _ = raises (codes "AttributeError")

  unfoldable pub dispatch_request : Value → Option RpcRequest → State → Reply × State
  unfolding malformed route
  dispatch_request body none s = (malformed body, s)
  dispatch_request body (some rpc) s = route rpc (lookup rpc.method method_map) s

  -- `_dispatch`, of the body that `request.json()` returns, none where it raises.
  unfoldable pub dispatch : Option Value → State → Reply × State
  unfolding dispatch_request jsonrpc_error
  dispatch none s = (jsonrpc_error no_id parse_error (codes "Invalid JSON"), s)
  dispatch (some body) s = dispatch_request body (models.read_request body) s
