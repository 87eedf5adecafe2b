-- ===== src/Runner/Whole.antt =====
-- What `Runner.astream` in orxhestra/runner.py does around its loop: the session, the user's message, the hooks and the
-- compaction.
use orxhestra.Prelude.{
  ℕ, Bool, true, Option, some, List, [], ◌∷◌, ◌++◌, Text, codes, ltb, if◌then◌else◌,
}
use orxhestra.Values.{bool}
use orxhestra.Events.{Event, user_message, agent_message, new_event, from_text}
use orxhestra.Sessions.{Heap, append_event, get_or_create_session, events_at, state_at}
use orxhestra.Compaction.{Config, candidates, total_chars, compact_session}
use orxhestra.Middleware.{Result, return, raise, before_invoke, after_invoke}
use orxhestra.Agents.{Agent}
use orxhestra.Agents.Tree.{name_of}
use orxhestra.Runner.{
  Entry, marked, status, Ending, finished, raised, Run, Host, Runner, starting_agent, error_of,
  settled, is_out_of_fuel, after_entries,
}
use orxhestra.Runner.Turns.{converse}

module _ {S : Type 0} where
  unfoldable pub before_turns : Agent → Heap → Result (Unit {0}) × S → (S → Run S) → Run S
  before_turns start h (return u, w) continue = continue w
  before_turns start h (raise error, w) continue = record {
    entries = [];
    current_agent = start;
    ending = raised error;
    heap = h;
    world = w;
  }

module _ {S Request Response Call Answer : Type 0} (host : Host S)
    (runner : Runner S Request Response Call Answer) (address : ℕ) where
  -- The `except` and `else` branches: the hooks see the error, which is raised again unless they raise another.
  unfoldable pub settle : Run S → Run S
  unfolding error_of settled is_out_of_fuel
  settle r =
      let answer = after_invoke (error_of r.ending) runner.middleware r.world in
      if is_out_of_fuel r.ending
      then r
      else record r { ending = settled r.ending answer.0; world = answer.1 }

  unfoldable pub status_event : Heap → S → Text → Text → Event
  status_event h w message flag = record (new_event (host.fresh h w) (host.now h w) agent_message) {
    session_id = some (h.session address).id;
    invocation_id = host.invocation_id w;
    agent_name = some (name_of runner.agent);
    content = from_text message;
    metadata = (flag, bool true) ∷ [];
  }

  unfoldable pub before_compaction : Config → Run S → List Entry
  unfolding status_event
  before_compaction config r =
      if ltb config.char_threshold
        (total_chars host.str_args (candidates (events_at r.heap address)))
      then status (status_event r.heap r.world (codes "Compacting context...") (codes "compacting"))
        ∷ []
      else []

  unfoldable pub after_compaction : Bool → Heap → S → List Entry
  unfolding status_event
  after_compaction compacted h w =
      if compacted
      then status (
          status_event h w (codes "Session history compacted to save context.")
            (codes "compaction"))
        ∷ []
      else []

  unfoldable pub compacted : Config → Run S → Run S
  unfolding before_compaction after_compaction
  compacted config r =
      let answer =
        compact_session host.str_args host.is_space (host.fresh r.heap r.world)
          (host.now r.heap r.world) address config r.heap in
      record r {
        entries =
            r.entries ++ (before_compaction config r ++ after_compaction answer.1 answer.0 r.world);
        heap = answer.0;
      }

  unfoldable pub compact_if : Option Config → Ending → Run S → Run S
  unfolding compacted
  compact_if (some config) finished r = compacted config r
  compact_if _ _ r = r

  unfoldable pub user_event : Text → Heap → S → Event
  user_event message h w = record (new_event (host.fresh h w) (host.now h w) user_message) {
    invocation_id = host.invocation_id w;
    author = codes "user";
    session_id = some (h.session address).id;
    content = from_text message;
  }

  -- The part of `astream` before the compaction, once the session stands at the address.
  unfoldable pub invoke : ℕ → Text → Heap → S → Run S
  unfolding starting_agent user_event before_turns settle converse after_entries
  invoke fuel message h w =
      let start = starting_agent runner.agent runner.active_agent_state_key (state_at h address) in
      let e = user_event message h w in
      let h' = append_event (host.now h w) address e h in
      after_entries (marked e ∷ []) (
        before_turns start h' (before_invoke runner.middleware w)
          (λ w'. settle (converse host runner address message fuel start h' w')))

module _ {S Request Response Call Answer : Type 0} (host : Host S)
    (runner : Runner S Request Response Call Answer) where
  -- `Runner.astream`
  unfoldable pub astream : ℕ → (user_id session_id message : Text) → Heap → S → Run S
  unfolding invoke compact_if
  astream fuel user_id session_id message h w =
      let found =
        get_or_create_session (host.fresh h w) (host.now h w) runner.app_name user_id session_id
          (some []) h in
      let r = invoke host runner found.1 fuel message found.0 w in
      compact_if host runner found.1 runner.compaction_config r.ending r
