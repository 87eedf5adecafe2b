-- ===== src/TaskStore.antt =====
-- orxhestra/a2a/store.py with the task of orxhestra/a2a/types.py: the in-memory task store of the A2A
-- server. The `OrderedDict` is a `Dict` whose first entry is the oldest. The store's lock makes every
-- operation atomic, so each is one function of the state. The messages and artifacts of a task are whatever
-- types the caller uses. base64 and JSON are parameters: `decode64` and `read_offset` return none where
-- the Python functions raise.
pub mod Paging
pub mod Tests
pub mod Entries
pub mod Eviction
pub mod Recency
use orxhestra.Prelude.{
  ℕ, zero, suc, ◌+◌, ◌-◌, Bool, true, false, ◌&&◌, not, Option, none, some, List, [], ◌∷◌, ◌++◌,
  ◌≡◌, refl, Text, Dict, codes, lookup, insert, remove, values, has_key, leb, ltb, ◌==◌, ◌==ₜ◌,
  length, keep, nonempty, if◌then◌else◌, ℤ, pos, negsuc, ◌+ℤ◌, at_least_one, below, slice,
}
use Prim.Native.Nat.{◌%◌}
use mathlib.Core.List.{reverse}
use orxhestra.Values.{Value}

pub data TaskState : Type 0 where
  unspecified : TaskState
  submitted : TaskState
  working : TaskState
  completed : TaskState
  failed : TaskState
  canceled : TaskState
  input_required : TaskState
  rejected : TaskState
  auth_required : TaskState

unfoldable pub state_value : TaskState → Text
state_value unspecified = codes "TASK_STATE_UNSPECIFIED"
state_value submitted = codes "TASK_STATE_SUBMITTED"
state_value working = codes "TASK_STATE_WORKING"
state_value completed = codes "TASK_STATE_COMPLETED"
state_value failed = codes "TASK_STATE_FAILED"
state_value canceled = codes "TASK_STATE_CANCELED"
state_value input_required = codes "TASK_STATE_INPUT_REQUIRED"
state_value rejected = codes "TASK_STATE_REJECTED"
state_value auth_required = codes "TASK_STATE_AUTH_REQUIRED"

module _ (Message Artifact : Type 0) where
  pub record TaskStatus : Type 0 where
    pub state : TaskState
    pub message : Option Message
    pub timestamp : Option Text

  pub record Task : Type 0 where
    pub id : Text
    pub context_id : Text
    pub status : TaskStatus
    pub history : Option (List Message)
    pub artifacts : Option (List Artifact)
    pub metadata : Option Value

  pub record TaskStore : Type 0 where
    pub tasks : Dict Task
    pub max_tasks : ℕ

module _ {ℓ} {V : Type ℓ} where
  -- `OrderedDict.move_to_end`, of a key that is present.
  unfoldable pub to_end : Text → Dict V → Option V → Dict V
  to_end k d none = d
  to_end k d (some v) = remove k d ++ (k, v) ∷ []

  unfoldable pub move_to_end : Text → Dict V → Dict V
  move_to_end k d = to_end k d (lookup k d)

  -- `while len(d) > m: d.popitem(last=False)`
  unfoldable pub evict : ℕ → Dict V → Dict V
  evict m [] = []
  evict m (x ∷ d) = if ltb m (length (x ∷ d)) then evict m d else x ∷ d

module _ {Message Artifact : Type 0} where
  unfoldable pub put :
      Task Message Artifact → TaskStore Message Artifact → TaskStore Message Artifact
  put task store = record {
    tasks = evict store.max_tasks (move_to_end task.id (insert task.id task store.tasks));
    max_tasks = store.max_tasks;
  }

  unfoldable pub touched :
      Text
      → TaskStore Message Artifact
      → Option (Task Message Artifact)
      → Option (Task Message Artifact) × TaskStore Message Artifact
  touched k store none = (none, store)
  touched k store (some task) =
      (some task, record { tasks = move_to_end k store.tasks; max_tasks = store.max_tasks })

  unfoldable pub get :
      Text
      → TaskStore Message Artifact
      → Option (Task Message Artifact) × TaskStore Message Artifact
  get k store = touched k store (lookup k store.tasks)

  unfoldable pub delete : Text → TaskStore Message Artifact → Bool × TaskStore Message Artifact
  delete k store =
      (has_key k store.tasks, record { tasks = remove k store.tasks; max_tasks = store.max_tasks })

  unfoldable pub in_context : Option Text → Task Message Artifact → Bool
  in_context none task = true
  in_context (some c) task = task.context_id ==ₜ c

  unfoldable pub in_state : Option TaskState → Task Message Artifact → Bool
  in_state none task = true
  in_state (some s) task = state_value task.status.state ==ₜ state_value s

  -- The tasks that pass the filters of `list`, newest first.
  unfoldable pub matching :
      Option Text → Option TaskState → TaskStore Message Artifact → List (Task Message Artifact)
  matching context state store =
      keep (in_state state) (keep (in_context context) (reverse (values store.tasks)))

-- `t.rstrip(c)`, for one character.
unfoldable pub rstrip : ℕ → Text → Text
rstrip c [] = []
rstrip c (x ∷ t) = let rest = rstrip c t in if x == c && not (nonempty rest) then [] else x ∷ rest

unfoldable pub replicate : ℕ → ℕ → Text
replicate zero c = []
replicate (suc n) c = c ∷ replicate n c

-- base64 and JSON, as the cursors use them.
pub record Tokens : Type 0 where
  pub encode64 : Text → Text
  pub decode64 : Text → Option Text
  pub print_offset : ℤ → Text
  pub read_offset : Text → Option ℤ

module _ (t : Tokens) where
  unfoldable pub encode_cursor : ℤ → Text
  encode_cursor offset = rstrip 61 (t.encode64 (t.print_offset offset))

  -- `"=" * (-len(cursor) % 4)`
  unfoldable pub padding : Text → Text
  padding cursor = replicate ((4 - length cursor % 4) % 4) 61

  unfoldable pub or_start : Option ℤ → ℤ
  or_start none = pos 0
  or_start (some i) = i

  unfoldable pub or_read : Option Text → ℤ
  or_read none = pos 0
  or_read (some raw) = or_start (t.read_offset raw)

  unfoldable pub decode_cursor : Option Text → ℤ
  decode_cursor none = pos 0
  decode_cursor (some cursor) = or_read (t.decode64 (cursor ++ padding cursor))

  module _ {Message Artifact : Type 0} where
    -- `end < len(all_tasks)`
    unfoldable pub next_cursor : ℤ → List (Task Message Artifact) → Option Text
    next_cursor end tasks = if below end (length tasks) then some (encode_cursor end) else none

    unfoldable pub list :
        Option Text
        → Option TaskState
        → ℤ
        → Option Text
        → TaskStore Message Artifact
        → List (Task Message Artifact) × Option Text
    list context state limit cursor store =
        let all_tasks = matching context state store in
        let start = decode_cursor cursor in
        let end = start +ℤ at_least_one limit in
        (slice all_tasks start end, next_cursor end all_tasks)
