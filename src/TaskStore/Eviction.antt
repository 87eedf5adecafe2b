-- ===== src/TaskStore/Eviction.antt =====
-- Which task `InMemoryTaskStore` in orxhestra/a2a/store.py evicts: the one that was touched the longest ago.
use orxhestra.Prelude.{
  ℕ, suc, ◌+◌, ◌≤◌, ◌<◌, true, false, some, List, [], ◌∷◌, ◌++◌, ◌≡◌, refl, sym, ap, ◌∙◌, subst,
  arith, Text, Dict, length, length-append, ltb, Bool-cases, Option-cases, ◌==ₜ◌, eq_iff, eq_refl,
  inl, inr, lookup, remove, has_key,
}
use mathlib.Core.List.{append_assoc}
use orxhestra.TaskStore.{Task, TaskStore, to_end, move_to_end, evict, put, get, touched}
use orxhestra.TaskStore.Entries.{length-remove, evict_fits, lookup-none}
use orxhestra.TaskStore.Recency.{put_tasks}

-- The key stands in the entries, with at most j entries behind it.
record IsRecent {V : Type 0} (k : Text) (j : ℕ) (d : Dict V) : Type 0 where
  front : Dict V
  value : V
  back : Dict V
  shape : d ≡ front ++ (k, value) ∷ back
  short : length back ≤ j

module _ {V : Type 0} where
  remove-past :
      (i k : Text) (front : Dict V) (v : V) (back : Dict V)
      → i ==ₜ k ≡ false
      → remove i (front ++ (k, v) ∷ back) ≡ remove i front ++ (k, v) ∷ remove i back
  unfolding remove
  remove-past i k [] v back e = ground (arith, eq_iff i k, eq_iff k i)
  remove-past i k (x ∷ front) v back e = ground (arith, remove-past i k front v back)

  evict-IsRecent :
      (m j : ℕ) (k : Text) (front : Dict V) (v : V) (back : Dict V)
      → length back ≤ j
      → j < m
      → IsRecent k j (evict m (front ++ (k, v) ∷ back))
  unfolding evict
  evict-IsRecent m j k [] v back h l =
      subst (IsRecent k j) (sym (evict_fits m ((k, v) ∷ back) (omega arith)))
        record { front = []; value = v; back = back; shape = refl; short = h }
  evict-IsRecent m j k (x ∷ front) v back h l =
      elim (Bool-cases (ltb m (length (x ∷ front ++ (k, v) ∷ back)))) [
        | inl e ↦ rw e (evict-IsRecent m j k front v back h l)
        | inr e ↦ rw e record { front = x ∷ front; value = v; back = back; shape = refl; short = h }
      ]

  has_key-middle :
      (k : Text) (front : Dict V) (v : V) (back : Dict V)
      → has_key k (front ++ (k, v) ∷ back) ≡ true
  unfolding has_key
  has_key-middle k [] v back = ground (arith, eq_refl k)
  has_key-middle k (x ∷ front) v back = ground (arith, has_key-middle k front v back)

  IsRecent-has_key : (k : Text) (j : ℕ) (d : Dict V) → IsRecent k j d → has_key k d ≡ true
  IsRecent-has_key k j d r = rw r.shape (has_key-middle k r.front r.value r.back)

module _ {Message Artifact : Type 0} where
  room :
      (task : Task Message Artifact) (j : ℕ) (back : Dict (Task Message Artifact))
      → length back ≤ j
      → length (remove task.id back ++ (task.id, task) ∷ []) ≤ suc j
  room task j back h = omega (
    arith,
    length-append (remove task.id back) ((task.id, task) ∷ []),
    length-remove task.id back,
  )

  shifted :
      (task : Task Message Artifact) (k : Text) (j : ℕ) (store : TaskStore Message Artifact)
      → task.id ==ₜ k ≡ false
      → (r : IsRecent k j store.tasks)
      → remove task.id store.tasks ++ (task.id, task) ∷ []
        ≡ remove task.id r.front ++ (k, r.value) ∷ (remove task.id r.back ++ (task.id, task) ∷ [])
  shifted task k j store e r =
      ap (λ d. d ++ (task.id, task) ∷ [])
        (ap (remove task.id) r.shape ∙ remove-past task.id k r.front r.value r.back e)
      ∙ append_assoc (remove task.id r.front) ((k, r.value) ∷ remove task.id r.back)
          ((task.id, task) ∷ [])

  put-IsRecent :
      (task : Task Message Artifact) (k : Text) (j : ℕ) (store : TaskStore Message Artifact)
      → suc j < store.max_tasks
      → IsRecent k j store.tasks
      → IsRecent k (suc j) (put task store).tasks
  put-IsRecent task k j store h r =
      subst (IsRecent k (suc j)) (sym (put_tasks task store)) (elim (Bool-cases (task.id ==ₜ k)) [
        | inl e ↦
            subst
              (λ i.
                IsRecent i (suc j)
                  (evict store.max_tasks (remove task.id store.tasks ++ (task.id, task) ∷ [])))
              ((eq_iff task.id k).0 e)
              (evict-IsRecent store.max_tasks (suc j) task.id (remove task.id store.tasks) task []
                (omega arith) h)
        | inr e ↦
            subst (λ d. IsRecent k (suc j) (evict store.max_tasks d))
              (sym (shifted task k j store e r))
              (evict-IsRecent store.max_tasks (suc j) k (remove task.id r.front) r.value
                (remove task.id r.back ++ (task.id, task) ∷ []) (room task j r.back r.short) h)
      ])

  touched-IsRecent :
      (k : Text) (task : Task Message Artifact) (store : TaskStore Message Artifact)
      → lookup k store.tasks ≡ some task
      → IsRecent k 0 (touched k store (some task)).1.tasks
  unfolding touched move_to_end to_end
  touched-IsRecent k task store f = record {
    front = remove k store.tasks;
    value = task;
    back = [];
    shape = ap (to_end k store.tasks) f;
    short = omega arith;
  }

  bound_kept :
      (task : Task Message Artifact) (k : Text) (store : TaskStore Message Artifact)
      (tasks : List (Task Message Artifact))
      → length tasks < store.max_tasks
      → 0 + length tasks < (touched k store (some task)).1.max_tasks
  unfolding touched
  bound_kept task k store tasks h = omega arith

  unfoldable pub put_all :
      List (Task Message Artifact) → TaskStore Message Artifact → TaskStore Message Artifact
  put_all [] store = store
  put_all (task ∷ tasks) store = put_all tasks (put task store)

  put_all-IsRecent :
      (tasks : List (Task Message Artifact)) (k : Text) (j : ℕ) (store : TaskStore Message Artifact)
      → j + length tasks < store.max_tasks
      → IsRecent k j store.tasks
      → has_key k (put_all tasks store).tasks ≡ true
  unfolding put_all put
  put_all-IsRecent [] k j store h r = IsRecent-has_key k j store.tasks r
  put_all-IsRecent (task ∷ tasks) k j store h r =
      put_all-IsRecent tasks k (suc j) (put task store) (omega arith)
        (put-IsRecent task k j store (omega arith) r)

  -- A task that `get` found is not evicted by the next puts, of whatever tasks, as long as there are
  -- fewer of them than the store's bound.
  pub get_survives :
      (k : Text) (store : TaskStore Message Artifact) (tasks : List (Task Message Artifact))
      → has_key k store.tasks ≡ true
      → length tasks < store.max_tasks
      → has_key k (put_all tasks (get k store).1).tasks ≡ true
  unfolding get
  get_survives k store tasks e h = elim (Option-cases (lookup k store.tasks)) [
    | inl n ↦ grind (arith, lookup-none k store.tasks n)
    | inr (task, f) ↦
        subst (λ o. has_key k (put_all tasks (touched k store o).1).tasks ≡ true) (sym f)
          (put_all-IsRecent tasks k 0 (touched k store (some task)).1
            (bound_kept task k store tasks h) (touched-IsRecent k task store f))
  ]
