-- ===== src/Llm/Paired.antt =====
-- Every tool call that `events_to_messages` (orxhestra/agents/message_builder.py) shows the model is answered by a tool message.
use orxhestra.Prelude.{
  ℕ, Bool, true, false, not, ◌&&◌, ◌||◌, Option, none, some, List, [], ◌∷◌, ◌++◌, ◌≡◌, refl, ap,
  arith, Text, ◌==ₜ◌, mem_text, keep, any, any-append, all, nonempty, All, All-append,
  if◌then◌else◌, Bool-cases, inl, inr,
}
use orxhestra.Events.{
  Event, EventType, EventCompaction, user_message, agent_message, tool_response, agent_start,
  agent_end, ToolCallPart, ToolResponsePart, event_text, has_tool_calls, tool_calls, tool_responses,
  is_tool_response,
}
use orxhestra.Events.Filters.{
  Range, in_range, should_include_event, summary_event, visible, replace_compacted, unless_empty,
  compactions, apply_compaction,
}
use orxhestra.Compaction.{response_ids}
use orxhestra.Llm.{
  Message, ai, tool, first_full, truncate_tool_message, response_message, message_of,
  to_langchain_message,
}
use orxhestra.Llm.History.{
  responded_ids, paired_message, shown_as, messages_from, events_to_messages,
}

-- A complete response event carries one response and is not filtered out, as `_build_response` of the tool executor makes it.
pub record IsSingle (e : Event) : Type 0 where
  pub shown : should_include_event e ≡ true
  pub response : ToolResponsePart
  pub one : tool_responses e ≡ response ∷ []

abbrev pub OneResponse : Event → Type 0
OneResponse e = (not e.partial && is_tool_response e.type) ≡ true → IsSingle e

unfoldable pub calls_of : Message → List ToolCallPart
calls_of (ai t calls) = calls
calls_of _ = []

unfoldable pub answers : Text → Message → Bool
answers id (tool content tool_call_id failed) = tool_call_id ==ₜ id
answers id _ = false

any_behind :
    (p : Message → Bool) (b : Bool) (xs ys : List Message)
    → any p ys ≡ true
    → any p (if b then xs ++ ys else ys) ≡ true
any_behind p b xs ys h = ground (arith, any-append p xs ys)

module _ (comma : ℕ → Text) (limit : ℕ) where
  tool_answers :
      (id content rid : Text) (failed : Bool)
      → answers id (truncate_tool_message comma limit (tool content rid failed)) ≡ rid ==ₜ id
  unfolding truncate_tool_message answers
  tool_answers id content rid failed = ground arith

  response_answers :
      (id : Text) (e : Event) (r : ToolResponsePart) (responded : List Text) (type : EventType)
      → is_tool_response type ≡ true
      → e.type ≡ type
      → tool_responses e ≡ r ∷ []
      → any (answers id) (shown_as comma limit responded type e) ≡ r.tool_call_id ==ₜ id
  unfolding shown_as to_langchain_message message_of response_message
  response_answers id e r responded user_message h t one = cc
  response_answers id e r responded agent_message h t one = cc
  response_answers id e r responded agent_start h t one = cc
  response_answers id e r responded agent_end h t one = cc
  response_answers id e r responded tool_response h t one =
      rw (t, one)
        (ground (arith, tool_answers id (first_full r.result r.error) r.tool_call_id false))

  found_or_later :
      (id : Text) (r : ToolResponsePart) (ids : List Text) (here later : Bool)
      → here ≡ r.tool_call_id ==ₜ id
      → (mem_text id ids ≡ true → later ≡ true)
      → mem_text id (response_ids (r ∷ []) ++ ids) ≡ true
      → (here || later) ≡ true
  unfolding response_ids mem_text
  found_or_later id r ids here later e l m = ground arith

  answered :
      (id : Text) (responded : List Text) (es : List Event)
      → All OneResponse es
      → mem_text id (responded_ids es) ≡ true
      → any (answers id) (messages_from comma limit responded es) ≡ true
  unfolding responded_ids messages_from response_ids mem_text
  answered id responded [] h m = cc
  answered id responded (e ∷ es) h m =
      elim (Bool-cases (not e.partial && is_tool_response e.type)) [
        | inl complete ↦
            let s = h.0 complete in
            let ih = answered id responded es h.1 in
            let m' = rw (complete, s.one) at m in
            let here =
              response_answers id e s.response responded e.type (ground arith) refl s.one in
            rw
              (
                s.shown,
                any-append (answers id) (shown_as comma limit responded e.type e)
                    (messages_from comma limit responded es),
              )
              (found_or_later id s.response (responded_ids es) _ _ here ih m')
        | inr other ↦
            any_behind (answers id) (should_include_event e)
              (shown_as comma limit responded e.type e) _
              (answered id responded es h.1 (rw other at m))
      ]

all-keep : (p : ToolCallPart → Bool) (calls : List ToolCallPart) → all p (keep p calls) ≡ true
all-keep p [] = refl
all-keep p (c ∷ cs) = ground (arith, all-keep p cs)

pub all_weaker :
    (p q : ToolCallPart → Bool) (calls : List ToolCallPart)
    → ((c : ToolCallPart) → p c ≡ true → q c ≡ true)
    → all p calls ≡ true
    → all q calls ≡ true
all_weaker p q [] h a = refl
all_weaker p q (c ∷ cs) h a = ground (arith, h c, all_weaker p q cs h)

-- All calls of a message satisfy the test.
abbrev pub AllCalls : (ToolCallPart → Bool) → Message → Type 0
AllCalls p m = all p (calls_of m) ≡ true

pub AllCalls-weaker :
    (p q : ToolCallPart → Bool) (ms : List Message)
    → ((c : ToolCallPart) → p c ≡ true → q c ≡ true)
    → All (AllCalls p) ms
    → All (AllCalls q) ms
AllCalls-weaker p q [] h a = tt
AllCalls-weaker p q (m ∷ ms) h a = (all_weaker p q (calls_of m) h a.0, AllCalls-weaker p q ms h a.1)

paired-AllCalls :
    (p : ToolCallPart → Bool) (calls : List ToolCallPart)
    → all p calls ≡ true
    → All (AllCalls p) (paired_message calls)
unfolding paired_message calls_of
paired-AllCalls p [] h = tt
paired-AllCalls p (c ∷ cs) h = (h, tt)

module _ (comma : ℕ → Text) (limit : ℕ) (responded : List Text) where
  abbrev is_paired : ToolCallPart → Bool
  is_paired tc = mem_text tc.tool_call_id responded

  truncated_no_calls :
      (shown : Text) (rs : List ToolResponsePart)
      → calls_of (truncate_tool_message comma limit (response_message shown rs)) ≡ []
  unfolding truncate_tool_message response_message calls_of
  truncated_no_calls shown [] = ground arith
  truncated_no_calls shown (r ∷ rs) = ground arith

  shown-AllCalls :
      (type : EventType) (e : Event)
      → e.type ≡ type
      → All (AllCalls is_paired) (shown_as comma limit responded type e)
  unfolding shown_as to_langchain_message message_of calls_of
  shown-AllCalls user_message e t = rw t (refl, tt)
  shown-AllCalls agent_message e t = elim (Bool-cases (has_tool_calls e)) [
    | inl calling ↦ rw calling (
        paired-AllCalls is_paired (keep is_paired (tool_calls e))
          (all-keep is_paired (tool_calls e)))
    | inr silent ↦ rw silent (elim (Bool-cases (nonempty (event_text e))) [
      | inl full ↦ rw (full, t, silent) (refl, tt)
      | inr blank ↦ rw blank tt
    ])
  ]
  shown-AllCalls tool_response e t =
      rw t (ap (all is_paired) (truncated_no_calls (event_text e) (tool_responses e)), tt)
  shown-AllCalls agent_start e t = tt
  shown-AllCalls agent_end e t = tt

  messages_from-AllCalls :
      (es : List Event) → All (AllCalls is_paired) (messages_from comma limit responded es)
  unfolding messages_from
  messages_from-AllCalls [] = tt
  messages_from-AllCalls (e ∷ es) = elim (Bool-cases (should_include_event e)) [
    | inl included ↦ rw included (
        All-append (AllCalls is_paired) (shown_as comma limit responded e.type e) _
          (shown-AllCalls e.type e refl) (messages_from-AllCalls es))
    | inr left_out ↦ rw left_out (messages_from-AllCalls es)
  ]

module _ (str_of : ℕ → Text) (fresh_id : Event → Text) (now : ℕ) where
  visible-OneResponse :
      (ranges : List Range) (e : Event) (o : Option EventCompaction)
      → OneResponse e
      → All OneResponse (visible str_of fresh_id now ranges e o)
  unfolding summary_event
  visible-OneResponse ranges e (some c) h = (λ absent. cc, tt)
  visible-OneResponse ranges e none h = elim (Bool-cases (any (in_range e.timestamp) ranges)) [
    | inl hidden ↦ rw hidden tt
    | inr clear ↦ rw clear (h, tt)
  ]

  replace_compacted-OneResponse :
      (ranges : List Range) (es : List Event)
      → All OneResponse es
      → All OneResponse (replace_compacted str_of fresh_id now ranges es)
  unfolding replace_compacted
  replace_compacted-OneResponse ranges [] h = tt
  replace_compacted-OneResponse ranges (e ∷ es) h =
      All-append OneResponse (visible str_of fresh_id now ranges e e.actions.compaction) _
        (visible-OneResponse ranges e e.actions.compaction h.0)
        (replace_compacted-OneResponse ranges es h.1)

  unless_empty-OneResponse :
      (es : List Event) (ranges : List Range)
      → All OneResponse es
      → All OneResponse (unless_empty str_of fresh_id now es ranges)
  unless_empty-OneResponse es [] h = h
  unless_empty-OneResponse es (r ∷ rs) h = replace_compacted-OneResponse (r ∷ rs) es h

  -- When every complete tool response event of the log carries one response and is not filtered out, then, whatever was
  -- compacted or interrupted, each tool call in the messages is answered by a tool message among them.
  pub events_to_messages-AllCalls :
      (comma : ℕ → Text) (limit : ℕ) (events : List Event)
      → All OneResponse events
      → let messages = events_to_messages comma limit str_of fresh_id now events in
        All (AllCalls (λ tc. any (answers tc.tool_call_id) messages)) messages
  unfolding events_to_messages apply_compaction
  events_to_messages-AllCalls comma limit events h =
      let compacted = unless_empty str_of fresh_id now events (compactions events) in
      let responded = responded_ids compacted in
      AllCalls-weaker (λ tc. mem_text tc.tool_call_id responded) _
        (messages_from comma limit responded compacted)
        (λ tc m.
          answered comma limit tc.tool_call_id responded compacted
            (unless_empty-OneResponse events (compactions events) h) m)
        (messages_from-AllCalls comma limit responded compacted)
