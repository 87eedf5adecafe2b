-- ===== src/Sessions/Tests.antt =====
-- Runs of the session service, and its theorems at concrete calls.
use orxhestra.Prelude.{
  ◌≡◌, ◌≢◌, refl, Bool, true, false, ◌&&◌, Option, none, some, List, [], ◌∷◌, ◌++◌, Text, codes,
  ◌==ₜ◌, Dict, lookup, merge, if◌then◌else◌, arith, ℕ,
}
use orxhestra.Sessions.{
  Heap, empty_heap, create_session, get_session, append_event, updated_heap, events_at, state_at,
}
use orxhestra.Sessions.Store.{IsStore}
use orxhestra.Sessions.Reach.{create_step, Reach, here, next, Reach-IsStore}
use orxhestra.Sessions.Sharing.{append_event_after_update}
use orxhestra.Samples.{moved, city}

abbrev app : Text
app = codes "app"

abbrev ann : Text
ann = codes "ann"

abbrev bob : Text
bob = codes "bob"

abbrev one_session : Heap
one_session = (create_session (codes "f1") 1 app ann none (some (codes "s1")) empty_heap).0

abbrev two_sessions : Heap
two_sessions = (create_session (codes "f2") 2 app bob none (some (codes "s2")) one_session).0

abbrev two_reached : Reach empty_heap two_sessions
two_reached =
    next (next here (create_step (codes "f1") 1 app ann none (some (codes "s1")) empty_heap))
      (create_step (codes "f2") 2 app bob none (some (codes "s2")) one_session)

Reach-IsStore_example : IsStore two_sessions
Reach-IsStore_example = Reach-IsStore two_reached

stored_first : lookup (codes "s1") two_sessions.store ≡ some 0
unfolding create_session lookup orxhestra.Prelude.insert ◌==ₜ◌
stored_first = refl

stored_second : lookup (codes "s2") two_sessions.store ≡ some 1
unfolding create_session lookup orxhestra.Prelude.insert ◌==ₜ◌
stored_second = refl

ann_finds : get_session app ann (codes "s1") two_sessions ≡ some 0
unfolding get_session create_session lookup orxhestra.Prelude.insert ◌==ₜ◌
ann_finds = refl

append_event_after_update_example :
    (lookup
        (codes "s1")
        (append_event 4 0 moved (updated_heap 4 (codes "s1") (some city) two_sessions 0)).store
      ≡ some two_sessions.next)
    × (events_at
          (append_event 4 0 moved (updated_heap 4 (codes "s1") (some city) two_sessions 0))
          two_sessions.next
        ≡ events_at two_sessions 0 ++ moved ∷ [])
    × (state_at
          (append_event 4 0 moved (updated_heap 4 (codes "s1") (some city) two_sessions 0))
          two_sessions.next
        ≡ merge (state_at two_sessions 0) city)
append_event_after_update_example =
    append_event_after_update 4 (codes "s1") city 0 moved two_sessions (Reach-IsStore two_reached)
      stored_first refl
