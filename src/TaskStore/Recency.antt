-- ===== src/TaskStore/Recency.antt =====
-- What `InMemoryTaskStore` in orxhestra/a2a/store.py keeps: the bound on its size, the order of eviction, and what
-- `get` finds after a `put`.
use orxhestra.Prelude.{
  ℕ, ◌≤◌, ◌<◌, true, Option, none, some, [], ◌∷◌, ◌++◌, ◌≡◌, refl, sym, ap, ◌∙◌, subst, arith, Text,
  length, length-append, ◌==ₜ◌, if◌then◌else◌, lookup, insert, remove,
}
use orxhestra.TaskStore.{Task, TaskStore, to_end, move_to_end, evict, put, get, touched, delete}
use orxhestra.TaskStore.Entries.{
  length-evict, evict_fits, move_to_end-insert, lookup-moved, length-remove, length-remove_key,
  is_distinct, is_distinct-remove, remove-absent, is_distinct-last, is_distinct-evict,
  has_key-lookup,
}

module _ {Message Artifact : Type 0} where
  -- Every id stands once, and the store is within its bound.
  pub record IsBounded (store : TaskStore Message Artifact) : Type 0 where
    pub distinct : is_distinct store.tasks ≡ true
    pub bounded : length store.tasks ≤ store.max_tasks

  pub put_tasks :
      (task : Task Message Artifact) (store : TaskStore Message Artifact)
      → (put task store).tasks
        ≡ evict store.max_tasks (remove task.id store.tasks ++ (task.id, task) ∷ [])
  unfolding put
  put_tasks task store = ap (evict store.max_tasks) (move_to_end-insert task.id task store.tasks)

  put_bounded :
      (task : Task Message Artifact) (store : TaskStore Message Artifact)
      → length (put task store).tasks ≤ store.max_tasks
  unfolding put
  put_bounded task store =
      length-evict store.max_tasks (move_to_end task.id (insert task.id task store.tasks))

  put-IsBounded :
      (task : Task Message Artifact) (store : TaskStore Message Artifact)
      → IsBounded store
      → IsBounded (put task store)
  unfolding put
  put-IsBounded task store h = record {
    distinct =
        subst (λ d. is_distinct d ≡ true) (sym (put_tasks task store))
          (is_distinct-evict store.max_tasks (remove task.id store.tasks ++ (task.id, task) ∷ []) (
            is_distinct-last task.id task (remove task.id store.tasks)
              (remove-absent task.id store.tasks)
              (is_distinct-remove task.id store.tasks h.distinct)));
    bounded = put_bounded task store;
  }

  delete-IsBounded :
      (k : Text) (store : TaskStore Message Artifact)
      → IsBounded store
      → IsBounded (delete k store).1
  unfolding delete
  delete-IsBounded k store h = record {
    distinct = is_distinct-remove k store.tasks h.distinct;
    bounded = omega (arith, length-remove k store.tasks, h.bounded);
  }

  touched-IsBounded :
      (k : Text) (store : TaskStore Message Artifact) (o : Option (Task Message Artifact))
      → lookup k store.tasks ≡ o
      → IsBounded store
      → IsBounded (touched k store o).1
  unfolding touched move_to_end to_end
  touched-IsBounded k store none e h = h
  touched-IsBounded k store (some task) e h =
      subst (λ d. IsBounded record { tasks = d; max_tasks = store.max_tasks })
        (sym (ap (to_end k store.tasks) e))
        record {
          distinct =
              is_distinct-last k task (remove k store.tasks) (remove-absent k store.tasks)
                (is_distinct-remove k store.tasks h.distinct);
          bounded = omega (
            arith,
            length-append (remove k store.tasks) ((k, task) ∷ []),
            length-remove_key k store.tasks (has_key-lookup k task store.tasks e),
            h.bounded,
          );
        }

  -- What the server does with its store.
  pub data Step : TaskStore Message Artifact → TaskStore Message Artifact → Type 0 where
    put_step :
        {store : TaskStore Message Artifact} (task : Task Message Artifact)
        → Step store (put task store)
    get_step : {store : TaskStore Message Artifact} (k : Text) → Step store (get k store).1
    delete_step : {store : TaskStore Message Artifact} (k : Text) → Step store (delete k store).1

  pub data Reach (m : ℕ) : TaskStore Message Artifact → Type 0 where
    start : Reach m record { tasks = []; max_tasks = m }
    next :
        {store store' : TaskStore Message Artifact}
        → Reach m store
        → Step store store'
        → Reach m store'

  Step-IsBounded :
      {store store' : TaskStore Message Artifact}
      → Step store store'
      → IsBounded store
      → IsBounded store'
  unfolding get
  Step-IsBounded {store} (put_step task) h = put-IsBounded task store h
  Step-IsBounded {store} (get_step k) h = touched-IsBounded k store (lookup k store.tasks) refl h
  Step-IsBounded {store} (delete_step k) h = delete-IsBounded k store h

  -- Whatever tasks are put, fetched and deleted in whatever order, no id ever stands twice in the store
  -- and the store never holds more tasks than its bound.
  pub Reach-IsBounded :
      {m : ℕ} {store : TaskStore Message Artifact} → Reach m store → IsBounded store
  unfolding is_distinct
  Reach-IsBounded {m} start = record { distinct = refl; bounded = omega arith }
  Reach-IsBounded (next r s) = Step-IsBounded s (Reach-IsBounded r)

  touched_value :
      (k : Text) (store : TaskStore Message Artifact) (o : Option (Task Message Artifact))
      → (touched k store o).0 ≡ o
  unfolding touched
  touched_value k store none = refl
  touched_value k store (some task) = refl

  -- When fewer other tasks are stored than the bound allows, `put` evicts nothing: `get` then
  -- finds the new task under its id, and under every other id what it found before.
  pub get-put :
      (task : Task Message Artifact) (j : Text) (store : TaskStore Message Artifact)
      → length (remove task.id store.tasks) < store.max_tasks
      → (get j (put task store)).0 ≡ (if task.id ==ₜ j then some task else (get j store).0)
  unfolding get
  get-put task j store h =
      touched_value j (put task store) (lookup j (put task store).tasks)
      ∙ ap (lookup j) (
          put_tasks task store
          ∙ evict_fits store.max_tasks (remove task.id store.tasks ++ (task.id, task) ∷ [])
              (omega (arith, length-append (remove task.id store.tasks) ((task.id, task) ∷ []))))
      ∙ lookup-moved task.id j task store.tasks
      ∙ ap (λ o. if task.id ==ₜ j then some task else o)
          (sym (touched_value j store (lookup j store.tasks)))
