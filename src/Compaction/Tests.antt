-- ===== src/Compaction/Tests.antt =====
-- Runs of the compaction of a log, and its theorems at concrete logs.
use mathlib.Core.List.{reverse}
use orxhestra.Prelude.{
  ℕ, ◌-◌, ◌≤◌, ◌<◌, ◌≡◌, refl, ◌⊎◌, Bool, true, false, Option, none, some, List, [], ◌∷◌, ◌++◌,
  Text, codes, ◌==◌, ltb, mem_text, ◌==ₜ◌, keep, any, All, drop, arith,
}
use orxhestra.Events.{
  Event, EventCompaction, no_actions, texts_of, has_tool_calls_in, tool_calls_of, tool_responses_of,
}
use orxhestra.Events.Filters.{compactions, in_range}
use orxhestra.Sessions.{Heap, empty_heap, create_session, append_event, events_at}
use orxhestra.Compaction.{
  Config, candidates, last_timestamp, total_chars, retention_index, split_index,
  split_by_retention_chars, is_orphaned, compaction_event, compact_session, events_to_text,
  find_compaction_boundary, boundary_from, estimate_event_chars, call_chars, response_chars,
  adjust_split, all_response_ids, all_call_ids, call_ids, response_ids,
}
use orxhestra.Compaction.Split.{
  retention_index_lem, split_by_retention_chars_lem, split_index_latest,
}
use orxhestra.Compaction.Boundary.{IsSorted, candidates-not_hidden}
use orxhestra.Compaction.Round.{compaction_event_round}
use orxhestra.Compaction.Due.{IsDue, IsCompacted, compact_session_lem}
use orxhestra.Samples.{hello, answer, moved, conversation, str_args}

abbrev is_space : ℕ → Bool
is_space c = c == 32

abbrev config : Config
config = record {
  char_threshold = 3;
  retention_chars = 2;
  model = some (λ prompt. some (codes "ok"));
}

abbrev log : List Event
log = hello ∷ answer ∷ []

abbrev sid : Text
sid = codes "s1"

abbrev or_hello : Option Event → Event
or_hello none = hello
or_hello (some e) = e

abbrev summary : Event
summary = or_hello (compaction_event str_args is_space (codes "x") 9 sid config log)

summary_made : compaction_event str_args is_space (codes "x") 9 sid config log ≡ some summary
unfolding compaction_event total_chars candidates find_compaction_boundary boundary_from
    estimate_event_chars call_chars response_chars texts_of has_tool_calls_in tool_calls_of
    tool_responses_of split_by_retention_chars split_index adjust_split retention_index is_orphaned
    all_response_ids all_call_ids call_ids response_ids mem_text ◌==ₜ◌ events_to_text
summary_made = refl

log-IsSorted : IsSorted (candidates log)
unfolding candidates find_compaction_boundary boundary_from
log-IsSorted = ground arith

abbrev split : List Event × List Event
split = split_by_retention_chars str_args (candidates log) config.retention_chars

compaction_event_round_example :
    All (λ e. any (in_range e.timestamp) (compactions (log ++ summary ∷ [])) ≡ true) split.0
    × (candidates (log ++ summary ∷ [])
        ≡ keep (λ f. ltb (last_timestamp split.0) f.timestamp) split.1)
compaction_event_round_example =
    compaction_event_round str_args is_space (codes "x") 9 config sid log summary log-IsSorted
      summary_made

abbrev service : Heap
service = append_event 6 0 moved (
    append_event 5 0 answer (
      append_event 4 0 hello
        (create_session (codes "f1") 1 (codes "app") (codes "ann") none (some sid) empty_heap).0))

compact_session_lem_example :
    let done = compact_session str_args is_space (codes "x") 9 0 config service in
    ((summary : Text) × IsDue str_args is_space config (events_at service 0) summary
      × (done.1 ≡ true)
      × IsCompacted str_args is_space config 0 (events_at service 0) summary service done.0)
    ⊎ (((summary : Text) → ¬ IsDue str_args is_space config (events_at service 0) summary)
        × (done ≡ (service, false)))
compact_session_lem_example = compact_session_lem str_args is_space config (codes "x") 9 0 service

retention_index_lem_example :
    ((retention_index str_args 4 0 (reverse conversation) ≡ 0)
      × (total_chars str_args conversation < 4))
    ⊎ ((0 < retention_index str_args 4 0 (reverse conversation))
        × (total_chars str_args
              (drop (retention_index str_args 4 0 (reverse conversation)) conversation)
            < 4)
        × (4
            ≤ total_chars str_args
                (drop (retention_index str_args 4 0 (reverse conversation) - 1) conversation)))
retention_index_lem_example = retention_index_lem str_args 4 conversation (omega arith)

split_by_retention_chars_lem_example :
    ((split_by_retention_chars str_args conversation 8).0
        ++ (split_by_retention_chars str_args conversation 8).1
      ≡ conversation)
    × (is_orphaned
          (split_by_retention_chars str_args conversation 8).0
          (split_by_retention_chars str_args conversation 8).1
        ≡ false)
split_by_retention_chars_lem_example = split_by_retention_chars_lem str_args conversation 8

split_index_latest_example : 2 ≤ split_index str_args conversation 4
unfolding is_orphaned retention_index estimate_event_chars response_chars call_chars texts_of
    tool_calls_of tool_responses_of has_tool_calls_in call_ids response_ids all_call_ids
    all_response_ids mem_text ◌==ₜ◌
split_index_latest_example = split_index_latest str_args conversation 4 2 (omega arith) refl

abbrev short_range : EventCompaction
short_range = record {
  start_timestamp = 1;
  end_timestamp = 2;
  summary = codes "short";
  event_count = 2;
}

abbrev marker : Event
marker = record answer { actions = record no_actions { compaction = some short_range } }

candidates-not_hidden_example :
    All
      (λ e. any (in_range e.timestamp) (compactions (hello ∷ marker ∷ moved ∷ [])) ≡ false)
      (candidates (hello ∷ marker ∷ moved ∷ []))
candidates-not_hidden_example = candidates-not_hidden (hello ∷ marker ∷ moved ∷ [])

abbrev str_of : ℕ → Text
str_of n = n ∷ []

abbrev fresh_id : Event → Text
fresh_id e = codes "v"
