-- ===== src/Runner/Resume.antt =====
-- The loop of `Runner.astream` (orxhestra/runner.py) keeps the active agent in the session's state.
use orxhestra.Prelude.{
  ℕ, zero, suc, Bool, true, Option, none, some, ◌∷◌, ◌≡◌, refl, sym, ap, ◌∙◌, arith, subst, Text,
  lookup, nonempty,
}
use orxhestra.Events.{Event}
use orxhestra.Sessions.{Heap, state_at}
use orxhestra.Middleware.{Result, return, raise, on_event}
use orxhestra.Agents.{Agent, find_agent}
use orxhestra.Agents.Tree.{name_of}
use orxhestra.Runner.{
  Stream, finish, fail, emit, Ending, finished, raised, out_of_fuel, Turn, Run, Host, Runner,
  named_agent, next_agent, new_target, initial_scope,
}
use orxhestra.Runner.Turns.{react, consume, hand_over, converse, markers, append_all, marker_event}
use orxhestra.Runner.Log.{recorded, consume-Appended}
use orxhestra.Runner.Marked.{
  agent_events, leaves_split, LeavesKey, lookup_kept, lookup_set, find_agent-name,
  named_agent_marked,
}

-- A transfer's target is not empty.
unfoldable is_full : Option Text → Bool
is_full none = true
is_full (some t) = nonempty t

new_target-is_full :
    (o before : Option Text) → is_full before ≡ true → is_full (new_target o before) ≡ true
unfolding new_target is_full
new_target-is_full none before h = h
new_target-is_full (some t) before h = ground arith

module _ {S Request Response Call Answer : Type 0} (host : Host S)
    (runner : Runner S Request Response Call Answer) (address : ℕ) where
  react_lem :
      (e : Event) (target : Option Text) (h : Heap) (answer : Result (Option Event) × S)
      (continue : Option Text → S → Turn S)
      → is_full target ≡ true
      → ((t : Option Text) (w : S)
          → is_full t ≡ true
          → (is_full (continue t w).transfer_target ≡ true)
            × (recorded (continue t w).entries ≡ agent_events (continue t w).entries))
      → (is_full (react e target h answer continue).transfer_target ≡ true)
        × (recorded (react e target h answer continue).entries
            ≡ agent_events (react e target h answer continue).entries)
  unfolding react recorded agent_events
  react_lem e target h (return none, w) continue full rest =
      let (f, r) = rest target w full in (f, ap (λ l. e ∷ l) r)
  react_lem e target h (return (some answer), w) continue full rest =
      let (f, r) = rest _ w (new_target-is_full e.actions.transfer_to_agent target full) in
      (f, ap (λ l. e ∷ l) r)
  react_lem e target h (raise error, w) continue full rest = (full, refl)

  consume_lem :
      (s : Stream S) (target : Option Text) (h : Heap)
      → is_full target ≡ true
      → (is_full (consume host runner address s target h).transfer_target ≡ true)
        × (recorded (consume host runner address s target h).entries
            ≡ agent_events (consume host runner address s target h).entries)
  unfolding consume recorded agent_events
  consume_lem (finish w) target h full = (full, refl)
  consume_lem (fail error w) target h full = (full, refl)
  consume_lem (emit e w more) target h full =
      react_lem e target _ (on_event runner.middleware (some e) w) _ full
        (λ t w' f. consume_lem (more _ w') t _ f)

  next_agent_found :
      (ending : Ending) (o : Option Text) (target : Agent)
      → is_full o ≡ true
      → next_agent runner.agent ending o ≡ some target
      → (nonempty (name_of target) ≡ true)
        × (find_agent (name_of target) runner.agent ≡ some target)
  unfolding next_agent is_full
  next_agent_found finished (some t) target full found =
      let same = find_agent-name t runner.agent target found in rw same (full, found)
  next_agent_found finished none target full found = cc
  next_agent_found (raised error) o target full found = cc
  next_agent_found out_of_fuel o target full found = cc

  module _ (keeps : nonempty runner.active_agent_state_key ≡ true) where
    -- The agent that a run on the heap would start with.
    abbrev pub start_in : Heap → Agent
    start_in h =
        named_agent runner.agent (lookup runner.active_agent_state_key (state_at h address))

    marks-start :
        (h : Heap) (w : S) (target : Agent)
        → nonempty (name_of target) ≡ true
        → find_agent (name_of target) runner.agent ≡ some target
        → start_in (append_all host runner address (markers host runner address h w target) h w)
          ≡ target
    unfolding markers append_all marker_event
    marks-start h w target full found = rw keeps (
        ap (named_agent runner.agent) (
          lookup_set address runner.active_agent_state_key (host.now h w)
            (marker_event host runner address h w target) h _ refl refl)
        ∙ named_agent_marked runner.agent target full found)

    consume-start :
        (s : Stream S) (h : Heap)
        → LeavesKey runner.active_agent_state_key
            (agent_events (consume host runner address s none h).entries)
        → start_in (consume host runner address s none h).heap ≡ start_in h
    unfolding is_full
    consume-start s h leaves = ap (named_agent runner.agent) (
        lookup_kept address runner.active_agent_state_key h _ _
          (consume-Appended host runner address s none h)
          (subst (LeavesKey runner.active_agent_state_key) (sym (consume_lem s none h refl).1)
            leaves))

    hand_over-start :
        (current : Agent) (turn : Turn S) (o : Option Agent) (continue : Agent → Heap → S → Run S)
        → start_in turn.heap ≡ current
        → ((target : Agent)
            → o ≡ some target
            → (nonempty (name_of target) ≡ true)
              × (find_agent (name_of target) runner.agent ≡ some target))
        → LeavesKey runner.active_agent_state_key
            (agent_events (hand_over host runner address current turn o continue).entries)
        → ((t : Agent) (h : Heap) (w : S)
            → start_in h ≡ t
            → LeavesKey runner.active_agent_state_key (agent_events (continue t h w).entries)
            → start_in (continue t h w).heap ≡ (continue t h w).current_agent)
        → start_in (hand_over host runner address current turn o continue).heap
          ≡ (hand_over host runner address current turn o continue).current_agent
    unfolding hand_over
    hand_over-start current turn none continue here known leaves rest = here
    hand_over-start current turn (some target) continue here known leaves rest =
        let marks = markers host runner address turn.heap turn.world target in
        let h' = append_all host runner address marks turn.heap turn.world in
        let last = continue target h' turn.world in
        rest target h' turn.world
          (marks-start turn.heap turn.world target (known target refl).0 (known target refl).1)
          (leaves_split runner.active_agent_state_key turn.entries marks last.entries leaves).1

    turn_leaves :
        (current : Agent) (turn : Turn S) (o : Option Agent) (continue : Agent → Heap → S → Run S)
        → LeavesKey runner.active_agent_state_key
            (agent_events (hand_over host runner address current turn o continue).entries)
        → LeavesKey runner.active_agent_state_key (agent_events turn.entries)
    unfolding hand_over
    turn_leaves current turn none continue leaves = leaves
    turn_leaves current turn (some target) continue leaves =
        (leaves_split runner.active_agent_state_key turn.entries _ _ leaves).0

    pub converse-start :
        (message : Text) (fuel : ℕ) (current : Agent) (h : Heap) (w : S)
        → start_in h ≡ current
        → LeavesKey runner.active_agent_state_key
            (agent_events (converse host runner address message fuel current h w).entries)
        → start_in (converse host runner address message fuel current h w).heap
          ≡ (converse host runner address message fuel current h w).current_agent
    unfolding converse is_full
    converse-start message zero current h w here leaves = here
    converse-start message (suc fuel) current h w here leaves =
        let s = host.astream current (initial_scope current) message h w in
        let turn = consume host runner address s none h in
        let next = next_agent runner.agent turn.ending turn.transfer_target in
        hand_over-start current turn next _
          (consume-start s h (turn_leaves current turn next _ leaves) ∙ here)
          (λ target found.
            next_agent_found turn.ending turn.transfer_target target (consume_lem s none h refl).0
              found)
          leaves (λ t h' w' here' leaves'. converse-start message fuel t h' w' here' leaves')
