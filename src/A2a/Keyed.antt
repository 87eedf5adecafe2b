-- ===== src/A2a/Keyed.antt =====
-- Every task of the server in orxhestra/a2a/server.py is stored under its own id, and the store is within its bound.
use orxhestra.Prelude.{
  ℕ, Option, none, some, [], ◌∷◌, ◌++◌, ◌≡◌, refl, sym, subst, arith, Text, Dict, lookup, remove,
  ◌==ₜ◌, eq_iff, ltb, length, All, All-append, Bool-cases, inl, inr,
}
use orxhestra.Crypto.{Primitives}
use orxhestra.TaskStore.{TaskStore, to_end, move_to_end, evict, get, touched, delete}
use orxhestra.TaskStore.Recency.{
  IsBounded, put_tasks, Step, put_step, get_step, delete_step, Reach, start, next, Reach-IsBounded,
}
use orxhestra.A2a.{Message, Artifact}
use orxhestra.A2a.Server.{A2aTask, State, Server}
use orxhestra.A2a.Dispatch.{Models}
use orxhestra.A2a.Reached.{Served, Served-Reach}

abbrev Own : Text × A2aTask → Type 0
Own e = e.1.id ≡ e.0

abbrev IsKeyed : Dict A2aTask → Type 0
IsKeyed d = All Own d

remove-IsKeyed : (k : Text) (d : Dict A2aTask) → IsKeyed d → IsKeyed (remove k d)
unfolding remove
remove-IsKeyed k [] h = tt
remove-IsKeyed k ((j, task) ∷ d) h = elim (Bool-cases (j ==ₜ k)) [
  | inl e ↦ rw e (remove-IsKeyed k d h.1)
  | inr e ↦ rw e (h.0, remove-IsKeyed k d h.1)
]

evict-IsKeyed : (m : ℕ) (d : Dict A2aTask) → IsKeyed d → IsKeyed (evict m d)
unfolding evict
evict-IsKeyed m [] h = tt
evict-IsKeyed m (x ∷ d) h = elim (Bool-cases (ltb m (length (x ∷ d)))) [
  | inl e ↦ rw e (evict-IsKeyed m d h.1)
  | inr e ↦ rw e h
]

lookup-IsKeyed :
    (k : Text) (d : Dict A2aTask) (task : A2aTask)
    → IsKeyed d
    → lookup k d ≡ some task
    → task.id ≡ k
unfolding lookup
lookup-IsKeyed k [] task h e = cc
lookup-IsKeyed k ((j, t) ∷ d) task h e =
    ground (arith, lookup-IsKeyed k d task h.1, eq_iff j k, h.0)

last-IsKeyed :
    (k : Text) (d : Dict A2aTask) (task : A2aTask)
    → IsKeyed d
    → task.id ≡ k
    → IsKeyed (remove k d ++ (k, task) ∷ [])
last-IsKeyed k d task h e =
    All-append Own (remove k d) ((k, task) ∷ []) (remove-IsKeyed k d h) (e, tt)

to_end-IsKeyed :
    (k : Text) (d : Dict A2aTask) (o : Option A2aTask)
    → lookup k d ≡ o
    → IsKeyed d
    → IsKeyed (to_end k d o)
unfolding to_end
to_end-IsKeyed k d none e h = h
to_end-IsKeyed k d (some task) e h = last-IsKeyed k d task h (lookup-IsKeyed k d task h e)

touched-IsKeyed :
    (k : Text) (store : TaskStore Message Artifact) (o : Option A2aTask)
    → IsKeyed store.tasks
    → IsKeyed (touched k store o).1.tasks
unfolding touched move_to_end
touched-IsKeyed k store none h = h
touched-IsKeyed k store (some task) h = to_end-IsKeyed k store.tasks (lookup k store.tasks) refl h

Step-IsKeyed :
    {store store' : TaskStore Message Artifact}
    → Step store store'
    → IsKeyed store.tasks
    → IsKeyed store'.tasks
unfolding get delete
Step-IsKeyed {store} (put_step task) h =
    subst IsKeyed (sym (put_tasks task store))
      (evict-IsKeyed store.max_tasks _ (last-IsKeyed task.id store.tasks task h refl))
Step-IsKeyed {store} (get_step k) h = touched-IsKeyed k store (lookup k store.tasks) h
Step-IsKeyed {store} (delete_step k) h = remove-IsKeyed k store.tasks h

Reach-IsKeyed : {m : ℕ} {store : TaskStore Message Artifact} → Reach m store → IsKeyed store.tasks
Reach-IsKeyed start = tt
Reach-IsKeyed (next r s) = Step-IsKeyed s (Reach-IsKeyed r)

-- Whatever requests the server has had, valid or not, from an empty task store on: no task id stands twice in the store, the
-- store is within its bound, and a task that is found under an id has that id.
pub Served-IsBounded :
    (p : Primitives) (server : Server p) (m : ℕ) (models : Models) (s : State)
    → Served p server m models s
    → IsBounded s.tasks
      × ((id : Text) (task : A2aTask) → lookup id s.tasks.tasks ≡ some task → task.id ≡ id)
Served-IsBounded p server m models s served =
    let r = Served-Reach p server m models s served in
    (
      Reach-IsBounded r,
      λ id task found. lookup-IsKeyed id s.tasks.tasks task (Reach-IsKeyed r) found,
    )
