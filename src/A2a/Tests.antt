-- ===== src/A2a/Tests.antt =====
-- Requests to a server with a toy signature scheme, and the theorems on the A2A server at concrete requests.
use orxhestra.Prelude.{
  if◌then◌else◌, values, ◌≡◌, refl, true, false, none, some, [], ◌∷◌, Text, codes, ◌==ₜ◌, lookup,
  insert, remove, arith, pos,
}
use orxhestra.Values.{text}
use orxhestra.TaskStore.{working, completed, canceled, put, move_to_end, to_end, evict}
use orxhestra.TaskStore.Recency.{IsBounded}
use orxhestra.Agents.Streams.{handed_on}
use orxhestra.Trust.Tests.{toy, toy-Genuine}
use orxhestra.A2a.{Message, user, plain_text, extract_text, texts, add_text, join_spaces}
use orxhestra.A2a.Messages.{verify_message}
use orxhestra.A2a.Notifications.{
  PushNotificationConfig, Parser, set_config, delete_config, scheduled, Configs, Address,
  list_configs, validate_url, valid_host, valid_address, is_local, bucket_of,
}
use orxhestra.A2a.Server.{
  A2aTask, State, AgentRun, create_task, update_task_status, RequestId, int_id, success, raises,
  task_result, Server, run_result, agent_message, stream_task,
}
use orxhestra.A2a.Handlers.{verify_incoming, handle_send_message, handle_cancel_task}
use orxhestra.A2a.Dispatch.{Models, dispatch}
use orxhestra.A2a.Tasks.{
  Completes, handle_send_message-Completes, handle_send_message_stuck, started,
}
use orxhestra.A2a.Cancel.{Cancels, handle_cancel_task-Cancels, handle_cancel_task_lost}
use orxhestra.A2a.Frames.{Streams, stream_task-Streams}
use orxhestra.A2a.Guards.{agent_message-verifies}
use orxhestra.A2a.Webhooks.{IsPublic, Selects, scheduled-Selects}
use orxhestra.A2a.Configs.{map_of, assign, is_there, push_store_refines}
use orxhestra.A2a.Reached.{begin, request}
use orxhestra.A2a.Keyed.{Served-IsBounded}
use orxhestra.Samples.{answer, calling, responding}

abbrev question : Message
question = record {
  message_id = codes "m1";
  role = user;
  parts = plain_text (codes "hi") ∷ [];
  context_id = none;
  task_id = none;
  reference_task_ids = none;
  extensions = none;
  metadata = none;
}

abbrev global_address : Address
global_address = record {
  is_loopback = false;
  is_link_local = false;
  is_private = false;
  is_multicast = false;
  is_reserved = false;
}

abbrev urls : Parser
urls = record {
  scheme = λ u. codes "https";
  hostname = λ u. some u;
  lower = λ t. t;
  ip_address = λ t.
      if t ==ₜ codes "10.0.0.1"
      then some (record global_address { is_private = true })
      else if t ==ₜ codes "8.8.8.8"
      then some global_address
      else none;
}

-- The agent calls a tool and answers, unless the message is empty.
abbrev agent_run : Text → AgentRun
agent_run [] = record { events = []; error = some (codes "empty") }
agent_run (c ∷ t) = record { events = calling ∷ responding ∷ answer ∷ []; error = none }

abbrev server : Server toy
server = record {
  astream = agent_run;
  signing_key = some 7;
  signer_did = codes "did:key:z7";
  require_signed = false;
  verify = λ m. some false;
  parser = urls;
  allow_insecure_webhooks = false;
  tokens = record {
    encode64 = λ t. t;
    decode64 = λ t. some t;
    print_offset = λ i. [];
    read_offset = λ t. some (pos 0);
  };
  card = [];
  extended_card_extras = [];
  fresh = λ s n. n ∷ [];
  now = λ s. codes "now";
  time = λ s. 1;
}

abbrev guarded : Server toy
guarded = record server { require_signed = true }

abbrev initial : State
initial = record { tasks = record { tasks = []; max_tasks = 4 }; push = [] }

abbrev silent : Message
silent = record question { parts = [] }

abbrev one : RequestId
one = int_id (pos 1)

handle_send_message-Completes_example :
    Completes toy server question one initial (handed_on [] (calling ∷ responding ∷ answer ∷ []))
unfolding verify_incoming extract_text texts add_text join_spaces
handle_send_message-Completes_example =
    handle_send_message-Completes toy server question one initial refl refl (omega arith)

handle_send_message_stuck_example :
    ((handle_send_message toy server silent one initial).0 ≡ raises (codes "astream"))
    × (task : A2aTask) × (task.status.state ≡ working)
    × (lookup task.id (handle_send_message toy server silent one initial).1.tasks.tasks ≡ some task)
unfolding verify_incoming extract_text texts add_text join_spaces
handle_send_message_stuck_example =
    handle_send_message_stuck toy server silent one initial (codes "empty") refl refl (omega arith)

abbrev config : PushNotificationConfig
config = record {
  id = codes "p1";
  url = codes "example.com";
  token = none;
  authentication = none;
  metadata = none;
}

-- The task of the question while the agent runs.
abbrev running : A2aTask × State
running = started toy server question one initial

handle_cancel_task-Cancels_example :
    Cancels toy server running.0.id one running.0
      (handle_cancel_task toy server running.0.id one running.1)
unfolding create_task update_task_status put move_to_end to_end insert remove evict lookup ◌==ₜ◌
handle_cancel_task-Cancels_example =
    handle_cancel_task-Cancels toy server running.0.id one running.0 running.1 refl (omega arith)
      refl

handle_cancel_task_lost_example :
    let canceling = handle_cancel_task toy server running.0.id one running.1 in
    let finishing = run_result toy server running.0 (answer ∷ []) none canceling.1 in
    ((task' : A2aTask) × (canceling.0 ≡ success one (task_result task'))
      × (task'.status.state ≡ canceled))
    × ((task' : A2aTask) × (lookup running.0.id finishing.1.tasks.tasks ≡ some task')
        × (task'.status.state ≡ completed))
unfolding create_task update_task_status put move_to_end to_end insert remove evict lookup ◌==ₜ◌
handle_cancel_task_lost_example =
    handle_cancel_task_lost toy server running.0 one (answer ∷ []) running.1 refl (omega arith) refl

stream_task-Streams_example :
    let r = stream_task toy server running.0 (codes "hi") running.1 in
    Streams toy server running.0 r.0.0 r.0.1 r.1
unfolding create_task update_task_status put
stream_task-Streams_example =
    stream_task-Streams toy server running.0 (codes "hi") running.1 refl (omega arith)

agent_message-verifies_example :
    verify_message toy
      (λ t. none)
      (λ did. some 7)
      (agent_message toy server running.0 (codes "hi") running.1)
    ≡ some true
agent_message-verifies_example =
    agent_message-verifies toy server (λ t. none) (λ did. some 7) 7 7 running.0 (codes "hi")
      running.1 refl toy-Genuine refl refl

abbrev hook : Text → PushNotificationConfig
hook url = record config { id = url; url = url }

-- A name, a private address, a public address and the local host.
abbrev hooks : Configs
hooks = set_config (codes "t") (hook (codes "localhost")) (
    set_config (codes "t") (hook (codes "8.8.8.8")) (
      set_config (codes "t") (hook (codes "10.0.0.1"))
        (set_config (codes "t") (hook (codes "example.com")) [])))

posted_hooks :
    scheduled urls false (codes "t") hooks
    ≡ hook (codes "example.com") ∷ hook (codes "8.8.8.8") ∷ []
unfolding set_config scheduled list_configs validate_url valid_host valid_address is_local insert
    lookup values bucket_of ◌==ₜ◌
posted_hooks = refl

scheduled-Selects_example :
    Selects
      (λ c. IsPublic urls c.url)
      (list_configs (codes "t") hooks)
      (scheduled urls false (codes "t") hooks)
    × (scheduled urls true (codes "t") hooks ≡ list_configs (codes "t") hooks)
scheduled-Selects_example = scheduled-Selects urls (codes "t") hooks

push_store_refines_example :
    (map_of (set_config (codes "t") config []) (codes "t") (codes "p1")
      ≡ assign (codes "t") config.id (some config) (map_of []) (codes "t") (codes "p1"))
    × (map_of (delete_config (codes "t") (codes "p1") []).1 (codes "t") (codes "p1")
        ≡ assign (codes "t") (codes "p1") none (map_of []) (codes "t") (codes "p1"))
    × ((delete_config (codes "t") (codes "p1") []).0
        ≡ is_there (map_of [] (codes "t") (codes "p1")))
push_store_refines_example =
    push_store_refines (codes "t") (codes "p1") config [] (codes "t") (codes "p1")

-- Every request is read as the sending of the question.
abbrev models : Models
models = record {
  read_request = λ v. some (record { id = one; method = codes "SendMessage"; params = none });
  read_id = λ v. one;
  read_send = λ d. some question;
  read_task_query = λ d. none;
  read_task_id = λ d. none;
  read_list = λ d. none;
  read_push = λ d. none;
  read_push_query = λ d. none;
  read_push_task = λ d. none;
  read_push_delete = λ d. none;
  repr = λ t. t;
}

abbrev served : State
served = (dispatch toy server models (some (text (codes "body"))) initial).1

Served-IsBounded_example :
    IsBounded served.tasks
    × ((id : Text) (task : A2aTask) → lookup id served.tasks.tasks ≡ some task → task.id ≡ id)
Served-IsBounded_example =
    Served-IsBounded toy server 4 models served
      (request (some (text (codes "body"))) initial (begin initial refl))
