-- ===== src/A2a/Stored.antt =====
-- The task that was put last is in the store (orxhestra/a2a/store.py), as the handlers of orxhestra/a2a/server.py need it.
use orxhestra.Prelude.{
  ℕ, ◌<◌, false, Option, none, some, [], ◌∷◌, ◌++◌, ◌≡◌, refl, ap, ◌∙◌, arith, Text, Dict, eq_refl,
  eq_iff, lookup, remove, has_key,
}
use orxhestra.TaskStore.{TaskStore, to_end, move_to_end, evict, put, get, touched}
use orxhestra.TaskStore.Entries.{remove-absent, lookup-moved}
use orxhestra.TaskStore.Recency.{put_tasks}
use orxhestra.A2a.{Message, Artifact}
use orxhestra.A2a.Server.{A2aTask}

module _ {V : Type 0} where
  lookup-last :
      (k : Text) (v : V) (d : Dict V) → has_key k d ≡ false → lookup k (d ++ (k, v) ∷ []) ≡ some v
  unfolding lookup has_key
  lookup-last k v [] h = ground (arith, eq_refl k)
  lookup-last k v ((j, w) ∷ d) h = ground (arith, lookup-last k v d)

  lookup-evict_last :
      (m : ℕ) (k : Text) (v : V) (d : Dict V)
      → 0 < m
      → has_key k d ≡ false
      → lookup k (evict m (d ++ (k, v) ∷ [])) ≡ some v
  unfolding evict lookup has_key
  lookup-evict_last m k v [] pos h = ground (arith, eq_refl k)
  lookup-evict_last m k v ((j, w) ∷ d) pos h =
      ground (arith, lookup-evict_last m k v d, lookup-last k v ((j, w) ∷ d))

pub lookup-put :
    (task : A2aTask) (store : TaskStore Message Artifact)
    → 0 < store.max_tasks
    → lookup task.id (put task store).tasks ≡ some task
lookup-put task store pos =
    ap (lookup task.id) (put_tasks task store)
    ∙ lookup-evict_last store.max_tasks task.id task (remove task.id store.tasks) pos
        (remove-absent task.id store.tasks)

moved_same :
    (id : Text) (d : Dict A2aTask) (task : A2aTask) (j : Text)
    → lookup id d ≡ some task
    → lookup j (move_to_end id d) ≡ lookup j d
unfolding move_to_end to_end
moved_same id d task j e = rw e (lookup-moved id j task d ∙ ground (arith, eq_iff id j))

touched_lem :
    (id : Text) (store : TaskStore Message Artifact) (o : Option A2aTask) (j : Text)
    → lookup id store.tasks ≡ o
    → ((touched id store o).0 ≡ o)
      × (lookup j (touched id store o).1.tasks ≡ lookup j store.tasks)
      × ((touched id store o).1.max_tasks ≡ store.max_tasks)
unfolding touched
touched_lem id store none j e = (refl, refl, refl)
touched_lem id store (some task) j e = (refl, moved_same id store.tasks task j e, refl)

-- `get` returns what is stored under the id, and leaves what is stored as it is.
pub get_lem :
    (id : Text) (store : TaskStore Message Artifact) (j : Text)
    → ((get id store).0 ≡ lookup id store.tasks)
      × (lookup j (get id store).1.tasks ≡ lookup j store.tasks)
      × ((get id store).1.max_tasks ≡ store.max_tasks)
unfolding get
get_lem id store j = touched_lem id store (lookup id store.tasks) j refl

-- An id that is not stored: `get` changes nothing.
pub get_missing :
    (id : Text) (store : TaskStore Message Artifact)
    → lookup id store.tasks ≡ none
    → get id store ≡ (none, store)
unfolding get touched
get_missing id store e = rw e refl
