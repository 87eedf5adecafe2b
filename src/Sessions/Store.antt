-- ===== src/Sessions/Store.antt =====
-- The session store keeps its invariant, and serves a session to its owner only.
use orxhestra.Prelude.{
  ℕ, ◌<◌, ◌≡◌, ◌≢◌, sym, ap, ◌∙◌, subst, inl, inr, Option-cases, Option, none, some, arith, Text,
  eq_iff, Dict, lookup, lookup-insert, lookup-remove,
}
use orxhestra.Values.{Value}
use orxhestra.Events.{Event}
use orxhestra.Sessions.{
  Heap, empty_heap, create_session, updated, update_session, delete_session, append_event,
  updated_heap, update_found, chosen_id,
}

-- Each stored session lies on the heap under its own id, and two stored sessions share neither
-- their state nor their events.
pub record IsStore (h : Heap) : Type 0 where
  pub below : (k : Text) (a : ℕ) → lookup k h.store ≡ some a → a < h.next
  pub refs :
      (k : Text) (a : ℕ)
      → lookup k h.store ≡ some a
      → ((h.session a).state < h.next) × ((h.session a).events < h.next)
  pub own_id : (k : Text) (a : ℕ) → lookup k h.store ≡ some a → (h.session a).id ≡ k
  pub apart :
      (j k : Text) (a b : ℕ)
      → lookup j h.store ≡ some a
      → lookup k h.store ≡ some b
      → j ≢ k
      → ((h.session a).state ≢ (h.session b).state) × ((h.session a).events ≢ (h.session b).events)

pub empty_heap-IsStore : IsStore empty_heap
unfolding lookup
empty_heap-IsStore = record {
  below = λ k a e. cc;
  refs = λ k a e. cc;
  own_id = λ k a e. cc;
  apart = λ j k a b e f n. cc;
}

module _ (fresh : Text) (now : ℕ) (app_name user_id : Text) (state : Option (Dict Value))
    (session_id : Option Text) where
  pub create_session-IsStore :
      (h : Heap)
      → IsStore h
      → IsStore (create_session fresh now app_name user_id state session_id h).0
  unfolding create_session
  create_session-IsStore h w =
      let sid = chosen_id fresh session_id in
      record {
        below = λ k a. rw lookup-insert (λ e. ground (arith, w.below k a));
        refs = λ k a. rw lookup-insert (λ e. ground (arith, w.below k a, w.refs k a));
        own_id =
            λ k a. rw lookup-insert (λ e. ground (arith, eq_iff sid k, w.below k a, w.own_id k a));
        apart = λ j k a b. rw (lookup-insert sid j) (
            rw (lookup-insert sid k) (λ e f n. ground (
              arith,
              eq_iff sid j,
              eq_iff sid k,
              w.below j a,
              w.below k b,
              w.refs j a,
              w.refs k b,
              w.apart j k a b,
            )));
      }

updated_heap-IsStore :
    (now : ℕ) (sid : Text) (state : Option (Dict Value)) (h : Heap) (at : ℕ)
    → IsStore h
    → lookup sid h.store ≡ some at
    → IsStore (updated_heap now sid state h at)
updated_heap-IsStore now sid none h at w found = record {
  below = λ k a. rw lookup-insert (λ e. ground (arith, w.below k a));
  refs = λ k a.
      rw lookup-insert
        (λ e. ground (arith, w.below k a, w.refs k a, w.below sid at, w.refs sid at));
  own_id = λ k a.
      rw lookup-insert
        (λ e. ground (arith, eq_iff sid k, w.below k a, w.own_id k a, w.own_id sid at));
  apart = λ j k a b. rw (lookup-insert sid j) (
      rw (lookup-insert sid k) (λ e f n. ground (
        arith,
        eq_iff sid j,
        eq_iff sid k,
        w.below j a,
        w.below k b,
        w.refs j a,
        w.refs k b,
        w.apart j k a b,
        w.apart sid k at b,
        w.apart j sid a at,
      )));
}
updated_heap-IsStore now sid (some d) h at w found = record {
  below = λ k a. rw lookup-insert (λ e. ground (arith, w.below k a));
  refs = λ k a.
      rw lookup-insert
        (λ e. ground (arith, w.below k a, w.refs k a, w.below sid at, w.refs sid at));
  own_id = λ k a.
      rw lookup-insert
        (λ e. ground (arith, eq_iff sid k, w.below k a, w.own_id k a, w.own_id sid at));
  apart = λ j k a b. rw (lookup-insert sid j) (
      rw (lookup-insert sid k) (λ e f n. ground (
        arith,
        eq_iff sid j,
        eq_iff sid k,
        w.below j a,
        w.below k b,
        w.refs j a,
        w.refs k b,
        w.apart j k a b,
        w.apart sid k at b,
        w.apart j sid a at,
      )));
}

updated_heap-eq :
    (now : ℕ) (sid : Text) (state : Option (Dict Value)) (h : Heap) (at : ℕ) {h' : Heap} {a : ℕ}
    → updated (updated_heap now sid state h at) h.next ≡ updated h' a
    → updated_heap now sid state h at ≡ h'
updated_heap-eq now sid state h at e = cc

pub update_session-IsStore :
    (now : ℕ) (sid : Text) (state : Option (Dict Value)) (h h' : Heap) (a : ℕ)
    → IsStore h
    → update_session now sid state h ≡ updated h' a
    → IsStore h'
unfolding update_session
update_session-IsStore now sid state h h' a w e = elim (Option-cases (lookup sid h.store)) [
  | inl missing ↦ cc (ap (update_found now sid state h) missing)
  | inr (at, found) ↦
      subst IsStore
        (updated_heap-eq now sid state h at (sym (ap (update_found now sid state h) found) ∙ e))
        (updated_heap-IsStore now sid state h at w found)
]

pub delete_session-IsStore : (sid : Text) (h : Heap) → IsStore h → IsStore (delete_session sid h)
unfolding delete_session
delete_session-IsStore sid h w = record {
  below = λ k a. rw lookup-remove (λ e. ground (arith, w.below k a));
  refs = λ k a. rw lookup-remove (λ e. ground (arith, w.refs k a));
  own_id = λ k a. rw lookup-remove (λ e. ground (arith, w.own_id k a));
  apart = λ j k a b.
      rw (lookup-remove sid j)
        (rw (lookup-remove sid k) (λ e f n. ground (arith, w.apart j k a b)));
}

pub append_event-IsStore :
    (now address : ℕ) (e : Event) (h : Heap) → IsStore h → IsStore (append_event now address e h)
unfolding append_event
append_event-IsStore now address e h w = record {
  below = λ k a p. ground (arith, w.below k a);
  refs = λ k a p. ground (arith, w.refs k a);
  own_id = λ k a p. ground (arith, w.own_id k a);
  apart = λ j k a b p q n. ground (arith, w.apart j k a b);
}
