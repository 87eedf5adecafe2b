-- ===== src/Sessions/Sharing.antt =====
-- What a caller sees of a session through the service: ownership, appended events, and the effect of
-- one session's calls on another.
use orxhestra.Prelude.{
  ℕ, ◌≡◌, ◌≢◌, refl, true, false, ◌&&◌, Option, none, some, [], ◌∷◌, ◌++◌, arith, Text, ◌==ₜ◌,
  eq_iff, eq_refl, Dict, lookup, lookup-insert, merge, nonempty, if◌then◌else◌, Option-cases, inl,
  inr, ◌⊎◌,
}
use orxhestra.Values.{Value}
use orxhestra.Events.{Event}
use orxhestra.Sessions.{
  Heap, create_session, get_session, updated_heap, append_event, get_or_create_session, events_at,
  state_at,
}
use orxhestra.Sessions.Store.{IsStore}

-- A session that was just created under a non-empty id is found by exactly the app and user that
-- created it: any other app or user gets `None`.
pub get_session-create_session :
    (fresh : Text) (now : ℕ) (app user sid : Text) (state : Option (Dict Value)) (app' user' : Text)
    (h : Heap)
    → nonempty sid ≡ true
    → get_session app' user' sid (create_session fresh now app user state (some sid) h).0
      ≡ (if app ==ₜ app' && user ==ₜ user' then some h.next else none)
unfolding get_session create_session
get_session-create_session fresh now app user sid state app' user' h full =
    rw full (rw (lookup-insert sid sid) (ground (arith, eq_iff sid sid)))

-- `if delta: state.update(delta)` is the update in both cases.
nonempty-or-merge : (d delta : Dict Value) → (nonempty delta ≡ true) ⊎ (merge d delta ≡ d)
unfolding merge
nonempty-or-merge d [] = inr refl
nonempty-or-merge d (kv ∷ delta) = inl refl

-- A complete event that is appended to a session stands at the end of its event list and its
-- state delta is merged into its state; a partial event changes nothing.
pub append_event_lem :
    (now a : ℕ) (e : Event) (h : Heap)
    → (events_at (append_event now a e h) a
        ≡ (if e.partial then events_at h a else events_at h a ++ e ∷ []))
      × (state_at (append_event now a e h) a
          ≡ (if e.partial then state_at h a else merge (state_at h a) e.actions.state_delta))
unfolding append_event merge
append_event_lem now a e h =
    (ground arith, ground (arith, nonempty-or-merge (state_at h a) e.actions.state_delta))

-- Appending to one stored session leaves the events and the state of every other stored session
-- as they are.
pub append_event_apart :
    (now : ℕ) (j k : Text) (a b : ℕ) (e : Event) (h : Heap)
    → IsStore h
    → lookup j h.store ≡ some a
    → lookup k h.store ≡ some b
    → j ≢ k
    → (events_at (append_event now a e h) b ≡ events_at h b)
      × (state_at (append_event now a e h) b ≡ state_at h b)
unfolding append_event
append_event_apart now j k a b e h w p q n =
    (ground (arith, w.apart j k a b p q n), ground (arith, w.apart j k a b p q n))

module _ (fresh : Text) (now : ℕ) (app user sid : Text) (initial : Option (Dict Value)) where
  not_owner :
      (owner : Text) (a : ℕ) (h : Heap)
      → owner ≢ user
      → get_session app owner sid h ≡ some a
      → get_session app user sid h ≡ none
  unfolding get_session
  not_owner owner a h other owned =
      ground (arith, eq_iff (h.session a).user_id owner, eq_iff (h.session a).user_id user)

  create_session_address :
      (h : Heap) → (create_session fresh now app user initial (some sid) h).1 ≡ h.next
  unfolding create_session
  create_session_address h = refl

  -- `get_or_create_session` under a non-empty id is stable: the address it returns is what
  -- `get_session` finds afterwards, and a second call returns it again and changes nothing.
  pub get_or_create_session_stable :
      (h : Heap)
      → nonempty sid ≡ true
      → (get_session app user sid (get_or_create_session fresh now app user sid initial h).0
          ≡ some (get_or_create_session fresh now app user sid initial h).1)
        × (get_or_create_session fresh now app user sid initial
              (get_or_create_session fresh now app user sid initial h).0
            ≡ get_or_create_session fresh now app user sid initial h)
  unfolding get_or_create_session create_session
  get_or_create_session_stable h full = elim (Option-cases (get_session app user sid h)) [
    | inl missing ↦
        let found = get_session-create_session fresh now app user sid initial app user h full in
        let again = rw (eq_refl app, eq_refl user, ← create_session_address h) at found in
        rw missing (again, rw again)
    | inr (a, e) ↦ rw e (e, rw e)
  ]

  -- A caller who names the non-empty id of a session that another user of the app owns gets a new session,
  -- which takes the place of the owner's: the owner no longer finds it.
  pub get_or_create_session_takes_over :
      (owner : Text) (a : ℕ) (h : Heap)
      → nonempty sid ≡ true
      → owner ≢ user
      → get_session app owner sid h ≡ some a
      → ((get_or_create_session fresh now app user sid initial h).1 ≡ h.next)
        × (get_session app owner sid (get_or_create_session fresh now app user sid initial h).0
            ≡ none)
  unfolding get_or_create_session
  get_or_create_session_takes_over owner a h full other owned =
      rw (not_owner owner a h other owned) (
        create_session_address h,
        rw (get_session-create_session fresh now app user sid initial app owner h full)
            (ground (arith, eq_iff user owner)),
      )

-- After `update_session` with a state, an event appended through the old session object is in the
-- stored session's events, but its state delta is not in the stored session's state.
pub append_event_after_update :
    (now : ℕ) (sid : Text) (d : Dict Value) (a : ℕ) (e : Event) (h : Heap)
    → IsStore h
    → lookup sid h.store ≡ some a
    → e.partial ≡ false
    → (lookup sid (append_event now a e (updated_heap now sid (some d) h a)).store ≡ some h.next)
      × (events_at (append_event now a e (updated_heap now sid (some d) h a)) h.next
          ≡ events_at h a ++ e ∷ [])
      × (state_at (append_event now a e (updated_heap now sid (some d) h a)) h.next
          ≡ merge (state_at h a) d)
unfolding append_event
append_event_after_update now sid d a e h w p q = (
  rw q (rw (lookup-insert sid sid) (ground (arith, eq_iff sid sid))),
  ground (arith, w.below sid a p, w.refs sid a p),
  ground (arith, w.below sid a p, w.refs sid a p),
)
