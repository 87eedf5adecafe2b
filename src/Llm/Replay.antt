-- ===== src/Llm/Replay.antt =====
-- What the message builder (orxhestra/agents/message_builder.py) makes of the events of the tool executor (orxhestra/agents/tool_executor.py).
use orxhestra.Prelude.{
  ℕ, suc, true, false, Option, none, some, List, [], ◌∷◌, ◌++◌, map, ◌≡◌, refl, ap, ◌∙◌, arith,
  Text, eq_refl, mem_text, Dict, keep, all, nonempty,
}
use orxhestra.Events.{
  Event, agent_message, tool_response, no_actions, ToolCallPart, LlmResponse, tool_responses_of,
}
use orxhestra.Events.Filters.{compactions, apply_compaction}
use orxhestra.Compaction.{response_ids}
use orxhestra.Crypto.{Primitives}
use orxhestra.Signing.{Signer, Context}
use orxhestra.Llm.{Message, ai, tool, first_full, truncate_tool_message}
use orxhestra.Llm.History.{responded_ids, paired_message, messages_from, events_to_messages}
use orxhestra.Llm.Executor.{
  Tools, Answer, or_blank_result, call_parts, answer_of, actions_of, build_response, responses,
  call_event, events_of_responses, messages_of_responses, execute,
}
use orxhestra.Llm.Emitted.{
  without_status, Carries, Answers, emitted-Carries, shown_response, shown_call,
}

-- The ids of calls.
unfoldable pub ids_of : List ToolCallPart → List Text
ids_of [] = []
ids_of (tc ∷ tcs) = tc.tool_call_id ∷ ids_of tcs

keep-ids_of :
    (calls : List ToolCallPart) (responded : List Text)
    → ((t : Text) → mem_text t (ids_of calls) ≡ true → mem_text t responded ≡ true)
    → keep (λ tc. mem_text tc.tool_call_id responded) calls ≡ calls
unfolding ids_of mem_text
keep-ids_of [] responded h = refl
keep-ids_of (tc ∷ tcs) responded h =
    rw (h tc.tool_call_id (ground (arith, eq_refl tc.tool_call_id)))
      (ap (λ l. tc ∷ l) (keep-ids_of tcs responded (λ t m. h t (ground (arith, m)))))

paired_some :
    {rest : List Message} (calls : List ToolCallPart)
    → nonempty calls ≡ true
    → paired_message calls ++ rest ≡ ai [] calls ∷ rest
unfolding paired_message
paired_some [] h = cc
paired_some (c ∷ cs) h = refl

apply_compaction_raw :
    (str_of : ℕ → Text) (fresh_id : Event → Text) (now : ℕ) (es : List Event)
    → compactions es ≡ []
    → apply_compaction str_of fresh_id now es ≡ es
unfolding apply_compaction
apply_compaction_raw str_of fresh_id now es h = rw h refl

module _ (p : Primitives) (tools : Tools) (name : Text) (self : Signer p) (ctx : Context p)
    (id : ℕ → Text) (time : ℕ → ℕ) (heads : ℕ → Dict Text) where
  actions_of_uncompacted : (result : Option Text) → (actions_of tools result).compaction ≡ none
  unfolding actions_of
  actions_of_uncompacted none = refl
  actions_of_uncompacted (some r) = ground arith

  build_response-Answers :
      (slot : ℕ) (tc : ToolCallPart) (a : Answer)
      → Answers tc a (build_response tools p name self ctx id time heads slot tc a).0
  unfolding build_response
  build_response-Answers slot tc a = record {
    actions = actions_of tools a.result;
    carries =
        emitted-Carries p tools name self ctx id time heads slot tool_response _
          (actions_of tools a.result) none;
    uncompacted = actions_of_uncompacted a.result;
  }

  abbrev rest_of : ℕ → List ToolCallPart → List Event
  rest_of slot calls =
      events_of_responses (responses tools p name self ctx id time heads slot calls)

  responded-ids_of :
      (slot : ℕ) (calls : List ToolCallPart)
      → all (λ tc. nonempty tc.tool_call_id) calls ≡ true
      → responded_ids (rest_of slot calls) ≡ ids_of calls
  unfolding responded_ids responses events_of_responses ids_of response_ids tool_responses_of
  responded-ids_of slot [] h = refl
  responded-ids_of slot (tc ∷ tcs) h =
      let c = (build_response-Answers slot tc (answer_of tools tc)).carries in
      rw (c.type_is, c.whole, c.parts_are) (ground (arith, responded-ids_of (suc slot) tcs))

  rest_uncompacted : (slot : ℕ) (calls : List ToolCallPart) → compactions (rest_of slot calls) ≡ []
  unfolding compactions responses events_of_responses
  rest_uncompacted slot [] = refl
  rest_uncompacted slot (tc ∷ tcs) =
      let a = build_response-Answers slot tc (answer_of tools tc) in
      rw (a.carries.actions_are, a.uncompacted) (rest_uncompacted (suc slot) tcs)

  rest_messages :
      (comma : ℕ → Text) (limit slot : ℕ) (calls : List ToolCallPart) (responded : List Text)
      → messages_from comma limit responded (rest_of slot calls)
        ≡ map
            (λ m. truncate_tool_message comma limit (without_status m))
            (messages_of_responses (responses tools p name self ctx id time heads slot calls))
  unfolding messages_from responses events_of_responses messages_of_responses without_status
      build_response
  rest_messages comma limit slot [] responded = refl
  rest_messages comma limit slot (tc ∷ tcs) responded =
      let s =
        shown_response comma limit tc (answer_of tools tc) _ responded
          (build_response-Answers slot tc (answer_of tools tc)) in
      let a = answer_of tools tc in
      let m = tool (first_full (or_blank_result a.result) a.error) tc.tool_call_id false in
      rw (s.0, s.1)
        (ap (λ l. truncate_tool_message comma limit m ∷ l)
          (rest_messages comma limit (suc slot) tcs responded))

  log_uncompacted :
      (e : Event) (calls : List ToolCallPart)
      → Carries e agent_message (call_parts calls) no_actions
      → compactions (e ∷ rest_of 1 calls) ≡ []
  unfolding compactions
  log_uncompacted e calls c = rw c.actions_are (rest_uncompacted 1 calls)

  log_responded :
      (e : Event) (calls : List ToolCallPart)
      → Carries e agent_message (call_parts calls) no_actions
      → all (λ tc. nonempty tc.tool_call_id) calls ≡ true
      → responded_ids (e ∷ rest_of 1 calls) ≡ ids_of calls
  unfolding responded_ids
  log_responded e calls c full = rw (c.type_is, c.whole) (responded-ids_of 1 calls full)

  log_messages :
      (comma : ℕ → Text) (limit : ℕ) (e : Event) (calls : List ToolCallPart)
      → Carries e agent_message (call_parts calls) no_actions
      → nonempty calls ≡ true
      → messages_from comma limit (ids_of calls) (e ∷ rest_of 1 calls)
        ≡ ai [] calls
          ∷ map
              (λ m. truncate_tool_message comma limit (without_status m))
              (messages_of_responses (responses tools p name self ctx id time heads 1 calls))
  unfolding messages_from
  log_messages comma limit e calls c some_call =
      let s = shown_call comma limit calls e (ids_of calls) some_call c in
      rw
        (
          s.0,
          s.1,
          keep-ids_of calls (ids_of calls) (λ t m. m),
          rest_messages comma limit 1 calls (ids_of calls),
        )
        (paired_some calls some_call)

  -- The messages of the executor's own events in the log, when every call has an id and there is one at least: an
  -- AI message with exactly the calls, in order, and then for each call, in order, the tool message that the executor
  -- handed to the running agent, cut to the limit, without its status. What the tools did makes no difference.
  pub events_to_messages-execute :
      (comma : ℕ → Text) (limit : ℕ) (str_of : ℕ → Text) (fresh_id : Event → Text) (now : ℕ)
      (calls : List ToolCallPart) (r : LlmResponse)
      → nonempty calls ≡ true
      → all (λ tc. nonempty tc.tool_call_id) calls ≡ true
      → let done = execute tools p name self ctx id time heads calls r in
        events_to_messages comma limit str_of fresh_id now (done.0 ∷ events_of_responses done.1)
        ≡ ai [] calls
          ∷ map
              (λ m. truncate_tool_message comma limit (without_status m))
              (messages_of_responses done.1)
  unfolding events_to_messages execute call_event
  events_to_messages-execute comma limit str_of fresh_id now calls r some_call full =
      let e = call_event tools p name self ctx id time heads calls r in
      let c : Carries e agent_message (call_parts calls) no_actions =
        emitted-Carries p tools name self ctx id time heads 0 agent_message (call_parts calls)
          no_actions (some r) in
      ap (λ es. messages_from comma limit (responded_ids es) es)
        (apply_compaction_raw str_of fresh_id now (e ∷ rest_of 1 calls) (log_uncompacted e calls c))
      ∙ ap (λ ids. messages_from comma limit ids (e ∷ rest_of 1 calls))
          (log_responded e calls c full)
      ∙ log_messages comma limit e calls c some_call
