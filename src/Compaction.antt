-- ===== src/Compaction.antt =====
-- orxhestra/sessions/compaction.py. `str(args)` of a tool call's arguments and `str.isspace` are
-- Python's, and the summarising model (with its prompt) is outside the program: all three are
-- arguments. `-1.0`, the boundary before any compaction, is `none`. A Python set of ids is the list
-- of its insertions, read only by `in`.
pub mod Split
pub mod Boundary
pub mod View
pub mod Round
pub mod Pending
pub mod Due
pub mod Tests
use orxhestra.Prelude.{
  ℕ, zero, suc, ◌+◌, max, Bool, true, false, not, ◌&&◌, ◌||◌, Option, none, some, List, [], ◌∷◌,
  ◌++◌, Text, codes, mem_text, Dict, leb, ltb, length, take, drop, keep, any, all, nonempty,
  if◌then◌else◌,
}
use mathlib.Core.List.{reverse}
use orxhestra.Values.{Value}
use orxhestra.Events.{
  Event, EventCompaction, agent_message, type_value, new_event, no_actions, from_text, ToolCallPart,
  ToolResponsePart, event_text, tool_calls, tool_responses, has_tool_calls, is_tool_response,
}
use orxhestra.Sessions.{Heap, append_event, events_at}

-- `for part in …: if part.tool_call_id: ids.add(part.tool_call_id)`
unfoldable pub call_ids : List ToolCallPart → List Text
call_ids [] = []
call_ids (tc ∷ tcs) =
    if nonempty tc.tool_call_id then tc.tool_call_id ∷ call_ids tcs else call_ids tcs

unfoldable pub response_ids : List ToolResponsePart → List Text
response_ids [] = []
response_ids (tr ∷ trs) =
    if nonempty tr.tool_call_id then tr.tool_call_id ∷ response_ids trs else response_ids trs

abbrev pub event_call_ids : Event → List Text
event_call_ids e = if has_tool_calls e then call_ids (tool_calls e) else []

abbrev pub event_response_ids : Event → List Text
event_response_ids e = if is_tool_response e.type then response_ids (tool_responses e) else []

unfoldable pub all_call_ids : List Event → List Text
all_call_ids [] = []
all_call_ids (e ∷ es) = event_call_ids e ++ all_call_ids es

unfoldable pub all_response_ids : List Event → List Text
all_response_ids [] = []
all_response_ids (e ∷ es) = event_response_ids e ++ all_response_ids es

-- Some response of `recent` answers a call of `old`.
unfoldable pub is_orphaned : List Event → List Event → Bool
is_orphaned old recent = any (λ id. mem_text id (all_call_ids old)) (all_response_ids recent)

-- The `while` loop: the split point moves earlier until no response is orphaned.
unfoldable pub adjust_split : List Event → ℕ → ℕ
adjust_split events zero = zero
adjust_split events (suc n) =
    let earlier = adjust_split events n in
    if is_orphaned (take (suc n) events) (drop (suc n) events) then earlier else suc n

abbrev pub max_end : Option ℕ → Option EventCompaction → Option ℕ
max_end b none = b
max_end none (some c) = some c.end_timestamp
max_end (some b) (some c) = some (max b c.end_timestamp)

unfoldable pub boundary_from : Option ℕ → List Event → Option ℕ
boundary_from b [] = b
boundary_from b (e ∷ es) = boundary_from (max_end b e.actions.compaction) es

unfoldable pub find_compaction_boundary : List Event → Option ℕ
unfolding boundary_from
find_compaction_boundary = boundary_from none

abbrev pub after : Option ℕ → ℕ → Bool
after none t = true
after (some b) t = ltb b t

abbrev pub is_raw : Event → Bool
is_raw e = elim e.actions.compaction [ none ↦ true | some c ↦ false ]

unfoldable pub candidates : List Event → List Event
candidates events =
    keep (λ e. after (find_compaction_boundary events) e.timestamp && is_raw e) events

pub record Config : Type 0 where
  pub char_threshold : ℕ
  pub retention_chars : ℕ
  -- `none` is no model; a reply of `none` is a call that raised.
  pub model : Option (Text → Option Text)

abbrev pub first_timestamp : List Event → ℕ
first_timestamp [] = 0
first_timestamp (e ∷ es) = e.timestamp

abbrev pub last_timestamp : List Event → ℕ
last_timestamp [] = 0
last_timestamp (e ∷ []) = e.timestamp
last_timestamp (e ∷ f ∷ es) = last_timestamp (f ∷ es)

-- `"\n".join(lines)`
unfoldable pub join_lines : List Text → Text
join_lines [] = []
join_lines (l ∷ []) = l
join_lines (l ∷ m ∷ ls) = l ++ (codes "\n" ++ join_lines (m ∷ ls))

module _ (str_args : Dict Value → Text) where
  unfoldable pub call_chars : List ToolCallPart → ℕ
  call_chars [] = 0
  call_chars (tc ∷ tcs) = length tc.tool_name + length (str_args tc.args) + call_chars tcs

  unfoldable pub response_chars : List ToolResponsePart → ℕ
  response_chars [] = 0
  response_chars (tr ∷ trs) = length tr.result + response_chars trs

  unfoldable pub estimate_event_chars : Event → ℕ
  unfolding call_chars response_chars
  estimate_event_chars e =
      length (event_text e)
      + (if has_tool_calls e then call_chars (tool_calls e) else 0)
      + (if is_tool_response e.type then response_chars (tool_responses e) else 0)

  unfoldable pub total_chars : List Event → ℕ
  total_chars [] = 0
  total_chars (e ∷ es) = estimate_event_chars e + total_chars es

  -- The backward `for` loop, over the events in reverse: `i` is the number of events still behind.
  unfoldable pub retention_index : (retention cumulative : ℕ) → List Event → ℕ
  retention_index retention cumulative [] = 0
  retention_index retention cumulative (e ∷ before) =
      let cumulative' = cumulative + estimate_event_chars e in
      let further = retention_index retention cumulative' before in
      if leb retention cumulative' then suc (length before) else further

  unfoldable pub split_index : List Event → ℕ → ℕ
  unfolding retention_index adjust_split
  split_index events retention = adjust_split events (retention_index retention 0 (reverse events))

  unfoldable pub split_by_retention_chars : List Event → ℕ → List Event × List Event
  unfolding split_index
  split_by_retention_chars events retention =
      (take (split_index events retention) events, drop (split_index events retention) events)

  abbrev prefix : Event → Text
  prefix e =
      codes "["
      ++ (type_value e.type
          ++ (codes "]" ++ elim e.agent_name [
            | none ↦ []
            | some n ↦ if nonempty n then codes " (" ++ (n ++ codes ")") else []
          ]))

  abbrev call_line : Text → ToolCallPart → Text
  call_line pre tc =
      pre
      ++ (codes " tool_call: "
          ++ (tc.tool_name ++ (codes "(" ++ (take 500 (str_args tc.args) ++ codes ")"))))

  abbrev response_line : Text → ToolResponsePart → Text
  response_line pre tr =
      pre ++ (codes " tool_response: " ++ (tr.tool_name ++ (codes " → " ++ take 1000 tr.result)))

  unfoldable pub call_lines : Text → List ToolCallPart → List Text
  call_lines pre [] = []
  call_lines pre (tc ∷ tcs) = call_line pre tc ∷ call_lines pre tcs

  unfoldable pub response_lines : Text → List ToolResponsePart → List Text
  response_lines pre [] = []
  response_lines pre (tr ∷ trs) = response_line pre tr ∷ response_lines pre trs

  abbrev event_lines : Event → List Text
  event_lines e =
      if nonempty (event_text e)
      then (prefix e ++ (codes ": " ++ take 2000 (event_text e))) ∷ []
      else if has_tool_calls e
      then call_lines (prefix e) (tool_calls e)
      else if is_tool_response e.type
      then response_lines (prefix e) (tool_responses e)
      else []

  unfoldable pub all_lines : List Event → List Text
  unfolding call_lines response_lines
  all_lines [] = []
  all_lines (e ∷ es) = event_lines e ++ all_lines es

  unfoldable pub events_to_text : List Event → Text
  unfolding all_lines join_lines
  events_to_text events = join_lines (all_lines events)

module _ (str_args : Dict Value → Text) (is_space : ℕ → Bool) where
  -- The summary, or `none` where the session is left alone.
  abbrev pub summarize : Option (Text → Option Text) → Text → Option Text
  summarize none text = some (take 2000 text)
  summarize (some model) text = model text

  abbrev pub summary_of : Config → Text → Option Text
  summary_of config text =
      if any (λ c. not (is_space c)) text then summarize config.model text else none

  abbrev pub event_for : Text → ℕ → Text → List Event → Text → Event
  event_for fresh now session_id old summary = record (new_event fresh now agent_message) {
    session_id = some session_id;
    agent_name = some (codes "compaction");
    content = from_text summary;
    actions = record no_actions {
      compaction = some (record {
        start_timestamp = first_timestamp old;
        end_timestamp = last_timestamp old;
        summary = summary;
        event_count = length old;
      });
    };
  }

  -- The compaction event for a log, with the early returns as `none`.
  abbrev pub compact_old : Text → ℕ → Text → Config → List Event → List Event → Option Event
  compact_old fresh now session_id config events [] = none
  compact_old fresh now session_id config events (o ∷ old) =
      if all (λ id. mem_text id (all_response_ids events)) (all_call_ids (o ∷ old))
      then elim (summary_of config (events_to_text str_args (o ∷ old))) [
        | none ↦ none
        | some summary ↦ some (event_for fresh now session_id (o ∷ old) summary)
      ]
      else none

  unfoldable pub compaction_event : Text → ℕ → Text → Config → List Event → Option Event
  compaction_event fresh now session_id config events =
      if leb (total_chars str_args (candidates events)) config.char_threshold
      then none
      else compact_old fresh now session_id config events
          (split_by_retention_chars str_args (candidates events) config.retention_chars).0

  abbrev pub append_if : ℕ → ℕ → Heap → Option Event → Heap × Bool
  append_if now address h none = (h, false)
  append_if now address h (some e) = (append_event now address e h, true)

  unfoldable pub compact_session : Text → ℕ → ℕ → Config → Heap → Heap × Bool
  compact_session fresh now address config h =
      append_if now address h
        (compaction_event fresh now (h.session address).id config (events_at h address))
