-- ===== src/Sessions/Reach.antt =====
-- Any sequence of service calls, by any callers, from the empty service.
use orxhestra.Prelude.{ℕ, ◌≡◌, Option, Text, Dict}
use orxhestra.Values.{Value}
use orxhestra.Events.{Event}
use orxhestra.Sessions.{
  Heap, empty_heap, create_session, updated, update_session, delete_session, append_event,
}
use orxhestra.Sessions.Store.{
  IsStore, empty_heap-IsStore, create_session-IsStore, update_session-IsStore,
  delete_session-IsStore, append_event-IsStore,
}

-- One call. An append may go to any address, also to one that the store no longer holds.
pub data Step : Heap → Heap → Type 0 where
  create_step :
      (fresh : Text) (now : ℕ) (app user : Text) (state : Option (Dict Value)) (sid : Option Text)
      → (h : Heap) → Step h (create_session fresh now app user state sid h).0
  update_step :
      (now : ℕ) (sid : Text) (state : Option (Dict Value)) (h h' : Heap) (a : ℕ)
      → update_session now sid state h ≡ updated h' a
      → Step h h'
  delete_step : (sid : Text) (h : Heap) → Step h (delete_session sid h)
  append_step : (now address : ℕ) (e : Event) (h : Heap) → Step h (append_event now address e h)

pub data Reach (h : Heap) : Heap → Type 0 where
  here : Reach h h
  next : {i j : Heap} → Reach h i → Step i j → Reach h j

Step-IsStore : {h i : Heap} → Step h i → IsStore h → IsStore i
Step-IsStore (create_step fresh now app user state sid h) w =
    create_session-IsStore fresh now app user state sid h w
Step-IsStore (update_step now sid state h h' a e) w =
    update_session-IsStore now sid state h h' a w e
Step-IsStore (delete_step sid h) w = delete_session-IsStore sid h w
Step-IsStore (append_step now address e h) w = append_event-IsStore now address e h w

Reach-keeps : {h i : Heap} → IsStore h → Reach h i → IsStore i
Reach-keeps w here = w
Reach-keeps w (next r s) = Step-IsStore s (Reach-keeps w r)

-- After any sequence of calls from the empty service, every stored session lies on the heap under its
-- own id, and two sessions stored under different ids share neither state nor events.
pub Reach-IsStore : {h : Heap} → Reach empty_heap h → IsStore h
Reach-IsStore r = Reach-keeps empty_heap-IsStore r
