-- ===== src/A2a/Configs.antt =====
-- The in-memory store of push-notification configs in orxhestra/a2a/notifications.py as a map from a task's id and a config's id.
use orxhestra.Prelude.{
  Bool, true, false, ◌&&◌, Option, none, some, [], ◌∷◌, ◌≡◌, refl, sym, ◌∙◌, arith, Text, Dict,
  lookup, insert, remove, has_key, lookup-insert, lookup-remove, ◌==ₜ◌, eq_iff, if◌then◌else◌,
  Bool-cases, inl, inr,
}
use orxhestra.A2a.Notifications.{
  PushNotificationConfig, Configs, bucket_of, set_config, pick, get_config, delete_in,
  delete_config,
}

-- The store that is specified.
abbrev pub ConfigMap : Type 0
ConfigMap = Text → Text → Option PushNotificationConfig

abbrev pub map_of : Configs → ConfigMap
map_of configs task_id config_id = get_config task_id (some config_id) configs

abbrev pub assign : Text → Text → Option PushNotificationConfig → ConfigMap → ConfigMap
assign task_id config_id value m t c = if task_id ==ₜ t && config_id ==ₜ c then value else m t c

abbrev pub is_there : Option PushNotificationConfig → Bool
is_there none = false
is_there (some c) = true

has_key-lookup : (k : Text) (d : Dict PushNotificationConfig) → has_key k d ≡ is_there (lookup k d)
unfolding has_key lookup
has_key-lookup k [] = refl
has_key-lookup k ((j, v) ∷ d) = ground (arith, has_key-lookup k d)

get_config-insert :
    (task_id : Text) (bucket : Dict PushNotificationConfig) (configs : Configs) (t c : Text)
    → get_config t (some c) (insert task_id bucket configs)
      ≡ (if task_id ==ₜ t then lookup c bucket else get_config t (some c) configs)
unfolding get_config pick bucket_of
get_config-insert task_id bucket configs t c =
    ground (arith, lookup-insert task_id t bucket configs)

in_bucket :
    (configs : Configs) (t c : Text) → lookup c (bucket_of (lookup t configs)) ≡ map_of configs t c
unfolding get_config pick
in_bucket configs t c = refl

set_lem :
    (task_id : Text) (config : PushNotificationConfig) (configs : Configs) (t c : Text)
    → map_of (set_config task_id config configs) t c
      ≡ assign task_id config.id (some config) (map_of configs) t c
unfolding set_config
set_lem task_id config configs t c = ground (
  arith,
  get_config-insert task_id (insert config.id config (bucket_of (lookup task_id configs))) configs t
      c,
  lookup-insert config.id c config (bucket_of (lookup task_id configs)),
  in_bucket configs t c,
  eq_iff task_id t,
)

-- What `delete` does where the task has no such config: the specified store stays as it is.
assign_absent :
    (task_id config_id : Text) (m : ConfigMap) (t c : Text)
    → m task_id config_id ≡ none
    → m t c ≡ assign task_id config_id none m t c
assign_absent task_id config_id m t c absent = ground (arith, eq_iff task_id t, eq_iff config_id c)

removed_lem :
    (task_id config_id : Text) (bucket : Dict PushNotificationConfig) (configs : Configs)
    (t c : Text)
    → lookup task_id configs ≡ some bucket
    → map_of (insert task_id (remove config_id bucket) configs) t c
      ≡ assign task_id config_id none (map_of configs) t c
unfolding get_config pick bucket_of
removed_lem task_id config_id bucket configs t c e =
    get_config-insert task_id (remove config_id bucket) configs t c
    ∙ ground (arith, lookup-remove config_id c bucket, eq_iff task_id t)

delete_in_lem :
    (task_id config_id : Text) (configs : Configs) (o : Option (Dict PushNotificationConfig))
    (t c : Text)
    → lookup task_id configs ≡ o
    → (map_of (delete_in task_id config_id configs o).1 t c
        ≡ assign task_id config_id none (map_of configs) t c)
      × ((delete_in task_id config_id configs o).0 ≡ is_there (map_of configs task_id config_id))
unfolding delete_in get_config pick bucket_of lookup
delete_in_lem task_id config_id configs none t c e =
    (assign_absent task_id config_id (map_of configs) t c (rw e refl), rw e refl)
delete_in_lem task_id config_id configs (some bucket) t c e =
    elim (Bool-cases (has_key config_id bucket)) [
      | inl there ↦ (
        rw there (removed_lem task_id config_id bucket configs t c e),
        rw (there, e) (sym there ∙ has_key-lookup config_id bucket),
      )
      | inr absent ↦
          let missing = sym (has_key-lookup config_id bucket) ∙ absent in
          (
            rw absent (assign_absent task_id config_id (map_of configs) t c (rw e (ground arith))),
            rw (absent, e) (sym missing),
          )
    ]

-- The store of push configs implements a map from pairs of a task's id and a config's id, which `get` reads: `set` and
-- `delete` are assignments of the map, and `delete` reports whether there was something to delete.
pub push_store_refines :
    (task_id config_id : Text) (config : PushNotificationConfig) (configs : Configs) (t c : Text)
    → (map_of (set_config task_id config configs) t c
        ≡ assign task_id config.id (some config) (map_of configs) t c)
      × (map_of (delete_config task_id config_id configs).1 t c
          ≡ assign task_id config_id none (map_of configs) t c)
      × ((delete_config task_id config_id configs).0 ≡ is_there (map_of configs task_id config_id))
unfolding delete_config
push_store_refines task_id config_id config configs t c =
    let d = delete_in_lem task_id config_id configs (lookup task_id configs) t c refl in
    (set_lem task_id config configs t c, d.0, d.1)
