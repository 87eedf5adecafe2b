-- ===== src/Events/Filters.antt =====
-- orxhestra/events/filters.py: what of the session log the language model gets to see.
use orxhestra.Prelude.{
  ℕ, Bool, true, false, not, ◌&&◌, Option, none, some, List, [], ◌∷◌, ◌++◌, Text, codes, leb, any,
  nonempty, if◌then◌else◌,
}
use orxhestra.Events.{
  Event, EventType, EventCompaction, user_message, agent_start, agent_end, new_event, from_text,
  event_text, event_data, has_tool_calls, flagged, has_entries, is_agent_message,
}

abbrev is_lifecycle : EventType → Bool
is_lifecycle agent_start = true
is_lifecycle agent_end = true
is_lifecycle _ = false

unfoldable pub should_include_event : Event → Bool
should_include_event e =
    if e.partial
    then false
    else if is_lifecycle e.type
    then false
    else if flagged e (codes "error")
    then false
    else if flagged e (codes "scratchpad")
    then false
    else if is_agent_message e.type
    then (if not (nonempty (event_text e))
          && not (has_entries (event_data e))
          && not (has_tool_calls e)
        then false
        else true)
    else true

pub record Range : Type 0 where
  pub start : ℕ
  pub end : ℕ

abbrev pub range_of : Option EventCompaction → List Range
range_of none = []
range_of (some c) = record { start = c.start_timestamp; end = c.end_timestamp } ∷ []

-- The first loop: the ranges of all compaction events.
unfoldable pub compactions : List Event → List Range
compactions [] = []
compactions (e ∷ es) = range_of e.actions.compaction ++ compactions es

abbrev pub in_range : ℕ → Range → Bool
in_range ts r = leb r.start ts && leb ts r.end

-- `str(n)`, a fresh id and the time come from outside.
module _ (str_of : ℕ → Text) (fresh_id : Event → Text) (now : ℕ) where
  unfoldable pub summary_event : Event → EventCompaction → Event
  summary_event e c = record (new_event (fresh_id e) now user_message) {
    session_id = e.session_id;
    agent_name = e.agent_name;
    branch = e.branch;
    invocation_id = e.invocation_id;
    content = from_text (
        codes "[Compacted summary of "
        ++ (str_of c.event_count ++ (codes " previous events]\n\n" ++ c.summary)));
  }

  abbrev pub visible : List Range → Event → Option EventCompaction → List Event
  visible ranges e (some c) = summary_event e c ∷ []
  visible ranges e none = if any (in_range e.timestamp) ranges then [] else e ∷ []

  -- The second loop.
  unfoldable pub replace_compacted : List Range → List Event → List Event
  replace_compacted ranges [] = []
  replace_compacted ranges (e ∷ es) =
      visible ranges e e.actions.compaction ++ replace_compacted ranges es

  abbrev pub unless_empty : List Event → List Range → List Event
  unless_empty events [] = events
  unless_empty events (r ∷ rs) = replace_compacted (r ∷ rs) events

  unfoldable pub apply_compaction : List Event → List Event
  unfolding compactions replace_compacted
  apply_compaction events = unless_empty events (compactions events)
