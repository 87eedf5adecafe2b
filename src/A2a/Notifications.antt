-- ===== src/A2a/Notifications.antt =====
-- orxhestra/a2a/notifications.py: the in-memory store of push-notification configs, the check of a webhook's URL, and the
-- choice of the configs that an event is posted to. `urlparse` and `ipaddress` are parameters; the delivery itself is
-- HTTP. The store's lock makes every operation atomic.
use orxhestra.Prelude.{
  Bool, true, false, not, ◌&&◌, ◌||◌, Option, none, some, List, [], ◌∷◌, Text, codes, ◌==ₜ◌, Dict,
  lookup, insert, remove, has_key, values, keep, if◌then◌else◌,
}
use orxhestra.Values.{Value}

pub record PushNotificationAuthentication : Type 0 where
  pub type : Text
  pub credential : Option Text
  pub metadata : Option (Dict Value)

pub record PushNotificationConfig : Type 0 where
  pub id : Text
  pub url : Text
  pub token : Option Text
  pub authentication : Option PushNotificationAuthentication
  pub metadata : Option (Dict Value)

-- task id → {config id → config}
abbrev pub Configs : Type 0
Configs = Dict (Dict PushNotificationConfig)

unfoldable pub bucket_of : Option (Dict PushNotificationConfig) → Dict PushNotificationConfig
bucket_of none = []
bucket_of (some bucket) = bucket

-- `set`; the outer dict makes an empty bucket for a new task.
unfoldable pub set_config : Text → PushNotificationConfig → Configs → Configs
unfolding bucket_of
set_config task_id config configs =
    insert task_id (insert config.id config (bucket_of (lookup task_id configs))) configs

unfoldable pub first_of : List PushNotificationConfig → Option PushNotificationConfig
first_of [] = none
first_of (c ∷ cs) = some c

unfoldable pub pick : Option Text → Dict PushNotificationConfig → Option PushNotificationConfig
unfolding first_of
pick none bucket = first_of (values bucket)
pick (some config_id) bucket = lookup config_id bucket

unfoldable pub get_config : Text → Option Text → Configs → Option PushNotificationConfig
unfolding pick bucket_of
get_config task_id config_id configs = pick config_id (bucket_of (lookup task_id configs))

unfoldable pub list_configs : Text → Configs → List PushNotificationConfig
unfolding bucket_of
list_configs task_id configs = values (bucket_of (lookup task_id configs))

unfoldable pub delete_in :
    Text → Text → Configs → Option (Dict PushNotificationConfig) → Bool × Configs
delete_in task_id config_id configs none = (false, configs)
delete_in task_id config_id configs (some bucket) =
    if has_key config_id bucket
    then (true, insert task_id (remove config_id bucket) configs)
    else (false, configs)

unfoldable pub delete_config : Text → Text → Configs → Bool × Configs
unfolding delete_in
delete_config task_id config_id configs =
    delete_in task_id config_id configs (lookup task_id configs)

-- What the code asks of an `ipaddress` object.
pub record Address : Type 0 where
  pub is_loopback : Bool
  pub is_link_local : Bool
  pub is_private : Bool
  pub is_multicast : Bool
  pub is_reserved : Bool

pub record Parser : Type 0 where
  pub scheme : Text → Text
  pub hostname : Text → Option Text
  pub lower : Text → Text
  -- `ipaddress.ip_address`, none for a text that is no address.
  pub ip_address : Text → Option Address

unfoldable pub is_local : Address → Bool
is_local a = a.is_loopback || a.is_link_local || a.is_private || a.is_multicast || a.is_reserved

unfoldable pub valid_address : Option Address → Bool
unfolding is_local
valid_address none = true
valid_address (some a) = not (is_local a)

module _ (parser : Parser) (allow_insecure : Bool) where
  unfoldable pub valid_host : Option Text → Bool
  unfolding valid_address
  valid_host none = false
  valid_host (some host) =
      if parser.lower host ==ₜ codes "localhost" || parser.lower host ==ₜ codes "ip6-localhost"
      then false
      else valid_address (parser.ip_address host)

  -- `_validate_url`, as whether it returns.
  unfoldable pub validate_url : Text → Bool
  unfolding valid_host
  validate_url url =
      if allow_insecure
      then true
      else parser.scheme url ==ₜ codes "https" && valid_host (parser.hostname url)

  -- `dispatch`: the configs for which a POST is scheduled.
  unfoldable pub scheduled : Text → Configs → List PushNotificationConfig
  unfolding validate_url list_configs
  scheduled task_id configs = keep (λ c. validate_url c.url) (list_configs task_id configs)

  unfoldable pub credential_of : PushNotificationAuthentication → Option Text
  credential_of a = if parser.lower a.type ==ₜ codes "bearer" then a.credential else none

  unfoldable pub token_of : Option PushNotificationAuthentication → Option Text → Option Text
  unfolding credential_of
  token_of none token = token
  token_of (some a) token = credential_of a

  unfoldable pub extract_bearer_token : PushNotificationConfig → Option Text
  unfolding token_of
  extract_bearer_token config = token_of config.authentication config.token
