-- ===== src/Sessions.antt =====
-- orxhestra/sessions/session.py, orxhestra/sessions/base_session_service.py (`append_event`) and
-- orxhestra/sessions/in_memory_session_service.py. Sessions are Python objects that the service and
-- its callers share, so they stand on a heap: a `Session` object holds references to its `state`
-- dict and to its `events` list, and `model_copy` copies the references. The time and the generated
-- id are arguments.
pub mod Store
pub mod Reach
pub mod Sharing
pub mod Tests
use orxhestra.Prelude.{
  ℕ, ◌+◌, ◌==◌, Bool, ◌&&◌, Option, none, some, List, [], ◌∷◌, ◌++◌, Text, ◌==ₜ◌, Dict, lookup,
  insert, remove, merge, values, nonempty, if◌then◌else◌,
}
use orxhestra.Values.{Value}
use orxhestra.Events.{Event}

pub record Session : Type 0 where
  pub id : Text
  pub app_name : Text
  pub user_id : Text
  pub state : ℕ
  pub events : ℕ
  pub last_update_time : ℕ

-- The heap, by addresses below `next`, and the service's `_store`, which maps ids to addresses.
pub record Heap : Type 0 where
  pub next : ℕ
  pub session : ℕ → Session
  pub state : ℕ → Dict Value
  pub events : ℕ → List Event
  pub store : Dict ℕ

abbrev pub update_at {ℓ} : {A : Type ℓ} → (ℕ → A) → ℕ → A → ℕ → A
update_at f a v b = if a == b then v else f b

abbrev pub empty_session : Session
empty_session = record {
  id = [];
  app_name = [];
  user_id = [];
  state = 0;
  events = 0;
  last_update_time = 0;
}

abbrev pub empty_heap : Heap
empty_heap = record {
  next = 0;
  session = λ a. empty_session;
  state = λ a. [];
  events = λ a. [];
  store = [];
}

abbrev or_empty : Option (Dict Value) → Dict Value
or_empty none = []
or_empty (some d) = d

-- `if session_id: …`
abbrev pub chosen_id : Text → Option Text → Text
chosen_id fresh none = fresh
chosen_id fresh (some s) = if nonempty s then s else fresh

-- The new heap, with the address of the new session.
unfoldable pub create_session :
    (fresh : Text) (now : ℕ) (app_name user_id : Text) (state : Option (Dict Value))
    → (session_id : Option Text) → Heap
    → Heap × ℕ
create_session fresh now app_name user_id state session_id h =
    let sid = chosen_id fresh session_id in
    let made : Session = record {
      id = sid;
      app_name = app_name;
      user_id = user_id;
      state = h.next;
      events = h.next;
      last_update_time = now;
    } in
    (
      record {
        next = h.next + 1;
        session = update_at h.session h.next made;
        state = update_at h.state h.next (or_empty state);
        events = update_at h.events h.next [];
        store = insert sid h.next h.store;
      },
      h.next,
    )

abbrev pub owned_by : Text → Text → Session → Bool
owned_by app_name user_id s = s.app_name ==ₜ app_name && s.user_id ==ₜ user_id

abbrev pub if_owned : Text → Text → Heap → Option ℕ → Option ℕ
if_owned app_name user_id h none = none
if_owned app_name user_id h (some a) =
    if owned_by app_name user_id (h.session a) then some a else none

unfoldable pub get_session : (app_name user_id session_id : Text) → Heap → Option ℕ
get_session app_name user_id session_id h = if_owned app_name user_id h (lookup session_id h.store)

pub data Updated : Type 0 where
  updated : Heap → ℕ → Updated
  session_not_found : Text → Updated

-- `state is not None` makes a new dict; otherwise the copy shares the dict of the original.
abbrev new_state : Option (Dict Value) → Heap → Session → Heap × ℕ
new_state none h s = (h, s.state)
new_state (some d) h s =
    (record h { state = update_at h.state h.next (merge (h.state s.state) d) }, h.next)

-- `session.model_copy(update=updates)`, stored under the id.
abbrev pub updated_heap : ℕ → Text → Option (Dict Value) → Heap → ℕ → Heap
updated_heap now session_id state h a =
    let (h', state') = new_state state h (h.session a) in
    record h' {
      next = h.next + 1;
      session =
          update_at h.session h.next
            (record (h.session a) { state = state'; last_update_time = now });
      store = insert session_id h.next h.store;
    }

abbrev pub update_found : ℕ → Text → Option (Dict Value) → Heap → Option ℕ → Updated
update_found now session_id state h none = session_not_found session_id
update_found now session_id state h (some a) =
    updated (updated_heap now session_id state h a) h.next

unfoldable pub update_session : (now : ℕ) (session_id : Text) → Option (Dict Value) → Heap → Updated
update_session now session_id state h =
    update_found now session_id state h (lookup session_id h.store)

unfoldable pub delete_session : Text → Heap → Heap
delete_session session_id h = record h { store = remove session_id h.store }

abbrev owned_sessions : Text → Text → Heap → List ℕ → List ℕ
owned_sessions app_name user_id h [] = []
owned_sessions app_name user_id h (a ∷ rest) =
    if owned_by app_name user_id (h.session a)
    then a ∷ owned_sessions app_name user_id h rest
    else owned_sessions app_name user_id h rest

unfoldable pub list_sessions : (app_name user_id : Text) → Heap → List ℕ
list_sessions app_name user_id h = owned_sessions app_name user_id h (values h.store)

-- `BaseSessionService.append_event`, which the in-memory service inherits.
unfoldable pub append_event : (now address : ℕ) → Event → Heap → Heap
append_event now address e h =
    let s = h.session address in
    if e.partial then h else record h {
      state =
          if nonempty e.actions.state_delta
          then update_at h.state s.state (merge (h.state s.state) e.actions.state_delta)
          else h.state;
      events = update_at h.events s.events (h.events s.events ++ e ∷ []);
      session = update_at h.session address (record s { last_update_time = now });
    }

-- What a client reads through an address.
abbrev pub events_at : Heap → ℕ → List Event
events_at h a = h.events (h.session a).events

abbrev pub state_at : Heap → ℕ → Dict Value
state_at h a = h.state (h.session a).state

-- `Runner.get_or_create_session`, over this service.
abbrev pub or_create :
    (fresh : Text) (now : ℕ) (app_name user_id session_id : Text) (initial : Option (Dict Value))
    → Heap
    → Option ℕ
    → Heap × ℕ
or_create fresh now app_name user_id session_id initial h (some a) = (h, a)
or_create fresh now app_name user_id session_id initial h none =
    create_session fresh now app_name user_id initial (some session_id) h

unfoldable pub get_or_create_session :
    (fresh : Text) (now : ℕ) (app_name user_id session_id : Text) (initial : Option (Dict Value))
    → Heap
    → Heap × ℕ
get_or_create_session fresh now app_name user_id session_id initial h =
    or_create fresh now app_name user_id session_id initial h
      (get_session app_name user_id session_id h)
