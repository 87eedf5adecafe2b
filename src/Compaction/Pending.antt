-- ===== src/Compaction/Pending.antt =====
-- The test for pending tool calls in `compact_session` (orxhestra/sessions/compaction.py), read event by event.
use orxhestra.Prelude.{
  Bool, true, false, not, ◌&&◌, ◌||◌, List, [], ◌∷◌, ◌++◌, ◌≡◌, refl, arith, Text, ◌==ₜ◌, mem_text,
  any, all, all-append, nonempty, Bool-cases, inl, inr,
}
use orxhestra.Events.{
  Event, Part, tool_call_part, text_part, data_part, file_part, thinking_part, tool_response_part,
  ToolCallPart, ToolResponsePart, tool_calls, tool_responses, has_tool_calls, has_tool_calls_in,
  tool_calls_of, is_tool_response,
}
use orxhestra.Compaction.{
  call_ids, response_ids, event_response_ids, all_call_ids, all_response_ids,
}

-- The event is a tool response that answers the call with this id.
abbrev pub responds : Text → Event → Bool
responds id e =
    is_tool_response e.type
    && any (λ (r : ToolResponsePart). r.tool_call_id ==ₜ id) (tool_responses e)

-- The call has no id, or some event of the log answers it.
abbrev pub is_answered : List Event → ToolCallPart → Bool
is_answered log tc = not (nonempty tc.tool_call_id) || any (responds tc.tool_call_id) log

differ_empty : (s t : Text) → nonempty s ≡ false → nonempty t ≡ true → (s ==ₜ t) ≡ false
unfolding ◌==ₜ◌
differ_empty [] [] h k = cc
differ_empty [] (c ∷ t) h k = refl
differ_empty (c ∷ s) t h k = cc

mem-response_ids :
    (id : Text) (rs : List ToolResponsePart)
    → nonempty id ≡ true
    → mem_text id (response_ids rs) ≡ any (λ (r : ToolResponsePart). r.tool_call_id ==ₜ id) rs
unfolding mem_text response_ids
mem-response_ids id [] full = refl
mem-response_ids id (r ∷ rs) full = elim (Bool-cases (nonempty r.tool_call_id)) [
  | inl some_id ↦ rw (some_id, mem-response_ids id rs full) refl
  | inr no_id ↦ rw (no_id, differ_empty r.tool_call_id id no_id full) (mem-response_ids id rs full)
]

mem-append :
    (id : Text) (xs ys : List Text) → mem_text id (xs ++ ys) ≡ (mem_text id xs || mem_text id ys)
unfolding mem_text
mem-append id [] ys = refl
mem-append id (x ∷ xs) ys = ground (arith, mem-append id xs ys)

mem-all_response_ids :
    (id : Text) (log : List Event)
    → nonempty id ≡ true
    → mem_text id (all_response_ids log) ≡ any (responds id) log
unfolding all_response_ids mem_text
mem-all_response_ids id [] full = refl
mem-all_response_ids id (e ∷ es) full = ground (
  arith,
  mem-append id (event_response_ids e) (all_response_ids es),
  mem-response_ids id (tool_responses e) full,
  mem-all_response_ids id es full,
)

all-call_ids :
    (log : List Event) (tcs : List ToolCallPart)
    → all (λ id. mem_text id (all_response_ids log)) (call_ids tcs) ≡ all (is_answered log) tcs
unfolding call_ids
all-call_ids log [] = refl
all-call_ids log (tc ∷ tcs) = elim (Bool-cases (nonempty tc.tool_call_id)) [
  | inl full ↦ rw (full, mem-all_response_ids tc.tool_call_id log full, all-call_ids log tcs) refl
  | inr empty ↦ rw (empty, all-call_ids log tcs) refl
]

no_calls : (ps : List Part) → has_tool_calls_in ps ≡ false → tool_calls_of ps ≡ []
unfolding has_tool_calls_in tool_calls_of
no_calls [] h = refl
no_calls (tool_call_part tc ∷ ps) h = cc
no_calls (text_part t ∷ ps) h = no_calls ps h
no_calls (data_part d ∷ ps) h = no_calls ps h
no_calls (file_part u b m n ∷ ps) h = no_calls ps h
no_calls (thinking_part t ∷ ps) h = no_calls ps h
no_calls (tool_response_part r ∷ ps) h = no_calls ps h

-- No tool call of the old events is pending, as the code tests it with its sets of ids.
pub all-all_call_ids :
    (log old : List Event)
    → all (λ id. mem_text id (all_response_ids log)) (all_call_ids old)
      ≡ all (λ e. all (is_answered log) (tool_calls e)) old
unfolding all_call_ids
all-all_call_ids log [] = refl
all-all_call_ids log (e ∷ es) = elim (Bool-cases (has_tool_calls e)) [
  | inl some_call ↦
      rw
        (
          some_call,
          all-append (λ id. mem_text id (all_response_ids log)) (call_ids (tool_calls e))
              (all_call_ids es),
          all-call_ids log (tool_calls e),
          all-all_call_ids log es,
        )
        refl
  | inr none' ↦ rw (none', no_calls e.content.parts none', all-all_call_ids log es) refl
]
