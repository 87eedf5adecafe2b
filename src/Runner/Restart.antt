-- ===== src/Runner/Restart.antt =====
-- Where the next run of `Runner.astream` (orxhestra/runner.py) starts, when `active_agent_state_key` is set.
use mathlib.Core.List.{append-nil}
use orxhestra.Prelude.{
  ℕ, Bool, true, false, Option, none, some, [], ◌++◌, ◌≡◌, refl, sym, ap, ◌∙◌, arith, subst, Text,
  has_key, nonempty, Option-cases, inl, inr,
}
use orxhestra.Sessions.{Heap, append_event, state_at, events_at, get_or_create_session}
use orxhestra.Middleware.{Result, return, raise, before_invoke}
use orxhestra.Compaction.{Config, compaction_event, compact_session}
use orxhestra.Compaction.Round.{compaction_event-Describes}
use orxhestra.Agents.{Agent}
use orxhestra.Runner.{
  Ending, finished, raised, out_of_fuel, Run, Host, Runner, named_agent, starting_agent,
}
use orxhestra.Runner.Turns.{converse}
use orxhestra.Runner.Whole.{
  before_turns, invoke, settle, user_event, compacted, compact_if, astream, before_compaction,
  after_compaction,
}
use orxhestra.Runner.Resume.{start_in, converse-start}
use orxhestra.Runner.Log.{settle_keeps, settle_agent}
use orxhestra.Runner.Marked.{agent_events, agent_events-append, LeavesKey, lookup-append_event}

module _ {S Request Response Call Answer : Type 0} (host : Host S)
    (runner : Runner S Request Response Call Answer) (address : ℕ) where
  quiet_before :
      (config : Config) (r : Run S)
      → agent_events (before_compaction host runner address config r) ≡ []
  unfolding before_compaction agent_events
  quiet_before config r = ground arith

  quiet_after :
      (b : Bool) (h : Heap) (w : S) → agent_events (after_compaction host runner address b h w) ≡ []
  unfolding after_compaction agent_events
  quiet_after true h w = refl
  quiet_after false h w = refl

  module _ (keeps : nonempty runner.active_agent_state_key ≡ true) where
    settled-start :
        (message : Text) (fuel : ℕ) (current : Agent) (h : Heap) (w : S)
        → start_in host runner address keeps h ≡ current
        → let r =
            settle host runner address (converse host runner address message fuel current h w) in
          LeavesKey runner.active_agent_state_key (agent_events r.entries)
          → start_in host runner address keeps r.heap ≡ r.current_agent
    settled-start message fuel current h w here =
        let r = converse host runner address message fuel current h w in
        let k = settle_keeps host runner address r in
        rw (k.0, k.1, settle_agent host runner address r)
          (converse-start host runner address keeps message fuel current h w here)

    before_turns-start :
        (start : Agent) (h : Heap) (answer : Result (Unit {0}) × S) (continue : S → Run S)
        → start_in host runner address keeps h ≡ start
        → ((w : S)
            → LeavesKey runner.active_agent_state_key (agent_events (continue w).entries)
            → start_in host runner address keeps (continue w).heap ≡ (continue w).current_agent)
        → LeavesKey runner.active_agent_state_key
            (agent_events (before_turns start h answer continue).entries)
        → start_in host runner address keeps (before_turns start h answer continue).heap
          ≡ (before_turns start h answer continue).current_agent
    unfolding before_turns
    before_turns-start start h (return u, w) continue here rest leaves = rest w leaves
    before_turns-start start h (raise error, w) continue here rest leaves = here

    pub start-eq :
        (h : Heap)
        → starting_agent runner.agent runner.active_agent_state_key (state_at h address)
          ≡ start_in host runner address keeps h
    unfolding starting_agent
    start-eq h = rw keeps refl

    user_event-start :
        (message : Text) (h : Heap) (w : S)
        → start_in host runner address keeps
            (append_event (host.now h w) address (user_event host runner address message h w) h)
          ≡ starting_agent runner.agent runner.active_agent_state_key (state_at h address)
    unfolding has_key user_event
    user_event-start message h w =
        ap (named_agent runner.agent) (
          lookup-append_event address runner.active_agent_state_key (host.now h w)
            (user_event host runner address message h w) h refl)
        ∙ sym (start-eq h)

    invoke-start :
        (fuel : ℕ) (message : Text) (h : Heap) (w : S)
        → let r = invoke host runner address fuel message h w in
          LeavesKey runner.active_agent_state_key (agent_events r.entries)
          → start_in host runner address keeps r.heap ≡ r.current_agent
    unfolding invoke agent_events
    invoke-start fuel message h w leaves =
        let here = user_event-start message h w in
        before_turns-start _ _ (before_invoke runner.middleware w) _ here
          (λ w' l. settled-start message fuel _ _ w' here l) leaves

    compacted-start :
        (config : Config) (r : Run S)
        → start_in host runner address keeps (compacted host runner address config r).heap
          ≡ start_in host runner address keeps r.heap
    unfolding compacted compact_session has_key
    compacted-start config r =
        let id = host.fresh r.heap r.world in
        let now = host.now r.heap r.world in
        let sid = (r.heap.session address).id in
        let log = events_at r.heap address in
        elim (Option-cases (compaction_event host.str_args host.is_space id now sid config log)) [
          | inl kept ↦ rw kept refl
          | inr (ev, made) ↦
              let d =
                compaction_event-Describes host.str_args host.is_space id now config sid log ev
                  made in
              rw made (
                ap (named_agent runner.agent) (
                  lookup-append_event address runner.active_agent_state_key now ev r.heap
                    (ap (has_key runner.active_agent_state_key) d.stateless)))
        ]

    compacted-agent_events :
        (config : Config) (r : Run S)
        → agent_events (compacted host runner address config r).entries ≡ agent_events r.entries
    unfolding compacted
    compacted-agent_events config r =
        rw
          (
            agent_events-append r.entries (
                before_compaction host runner address config r
                ++ after_compaction host runner address _ _ r.world),
            agent_events-append (before_compaction host runner address config r) _,
            quiet_before config r,
            quiet_after _ _ r.world,
          )
          (append-nil (agent_events r.entries))

    compact_if-start :
        (o : Option Config) (ending : Ending) (r : Run S)
        → (start_in host runner address keeps (compact_if host runner address o ending r).heap
            ≡ start_in host runner address keeps r.heap)
          × ((compact_if host runner address o ending r).current_agent ≡ r.current_agent)
          × (agent_events (compact_if host runner address o ending r).entries
              ≡ agent_events r.entries)
    unfolding compact_if compacted
    compact_if-start (some config) finished r =
        (compacted-start config r, refl, compacted-agent_events config r)
    compact_if-start (some config) (raised error) r = (refl, refl, refl)
    compact_if-start (some config) out_of_fuel r = (refl, refl, refl)
    compact_if-start none ending r = (refl, refl, refl)

module _ {S Request Response Call Answer : Type 0} (host : Host S)
    (runner : Runner S Request Response Call Answer) where
  -- With `active_agent_state_key` set, the next run on the session starts with the agent that this run ended
  -- with, however it ended, when no agent's event sets that key itself.
  pub astream-starting_agent :
      (fuel : ℕ) (user_id session_id message : Text) (h : Heap) (w : S)
      → nonempty runner.active_agent_state_key ≡ true
      → let found =
          get_or_create_session
            (host.fresh h w)
            (host.now h w)
            runner.app_name
            user_id
            session_id
            (some [])
            h in
        let r = astream host runner fuel user_id session_id message h w in
        LeavesKey runner.active_agent_state_key (agent_events r.entries)
        → starting_agent runner.agent runner.active_agent_state_key (state_at r.heap found.1)
          ≡ r.current_agent
  unfolding astream
  astream-starting_agent fuel user_id session_id message h w keeps leaves =
      let found =
        get_or_create_session (host.fresh h w) (host.now h w) runner.app_name user_id session_id
          (some []) h in
      let r = invoke host runner found.1 fuel message found.0 w in
      let after = compact_if-start host runner found.1 keeps runner.compaction_config r.ending r in
      start-eq host runner found.1 keeps
        (compact_if host runner found.1 runner.compaction_config r.ending r).heap
      ∙ after.0
      ∙ invoke-start host runner found.1 keeps fuel message found.0 w
          (subst (LeavesKey runner.active_agent_state_key) after.2 leaves)
      ∙ sym after.1
