-- ===== src/Llm/Emitted.antt =====
-- Single events of the tool executor, and how each is shown: what the message builder (orxhestra/agents/message_builder.py) makes of the events of the tool executor (orxhestra/agents/tool_executor.py).
use orxhestra.Prelude.{
  ℕ, true, false, Option, none, some, List, [], ◌∷◌, ◌≡◌, refl, ap, arith, Text, mem_text, Dict,
  lookup, keep, nonempty, if◌then◌else◌, Bool-cases, inl, inr,
}
use orxhestra.Events.{
  Event, EventType, agent_message, tool_response, EventActions, no_actions, ToolCallPart, Part,
  tool_response_part, LlmResponse, tool_calls_of, tool_responses_of, has_tool_calls_in,
}
use orxhestra.Events.Filters.{should_include_event}
use orxhestra.Crypto.{Primitives}
use orxhestra.Signing.{Signer, Context, Draft, emit_event, emit_with, first_key, unsigned_event}
use orxhestra.Llm.{
  Message, tool, first_full, truncate_tool_message, response_message, message_of,
  to_langchain_message,
}
use orxhestra.Llm.History.{paired_message, shown_as}
use orxhestra.Llm.Executor.{Tools, Answer, or_blank_result, call_parts, emitted}

-- A message of the log has no status.
unfoldable pub without_status : Message → Message
without_status (tool content id failed) = tool content id false
without_status m = m

-- What an event has to be for the message builder, apart from its id, time and signature.
pub record Carries (e : Event) (type : EventType) (parts : List Part) (actions : EventActions)
    : Type 0 where
  pub type_is : e.type ≡ type
  pub parts_are : e.content.parts ≡ parts
  pub whole : e.partial ≡ false
  pub plain : e.metadata ≡ []
  pub actions_are : e.actions ≡ actions

module _ (p : Primitives) where
  emit_with-Carries :
      (key : Option p.PrivateKey) (did : Text) (e : Event) (heads : Dict Text) (type : EventType)
      (parts : List Part) (actions : EventActions)
      → Carries e type parts actions
      → Carries (emit_with p key did e heads).0 type parts actions
  emit_with-Carries none did e heads type parts actions c = c
  emit_with-Carries (some key) did e heads type parts actions c = elim (Bool-cases (nonempty did)) [
    | inl named ↦ rw named (record {
      type_is = c.type_is;
      parts_are = c.parts_are;
      whole = c.whole;
      plain = c.plain;
      actions_are = c.actions_are;
    })
    | inr blank ↦ rw blank c
  ]

  module _ (tools : Tools) (name : Text) (self : Signer p) (ctx : Context p) (id : ℕ → Text)
      (time : ℕ → ℕ) (heads : ℕ → Dict Text) where
    pub emitted-Carries :
        (slot : ℕ) (type : EventType) (parts : List Part) (actions : EventActions)
        (r : Option LlmResponse)
        → Carries
            (emitted tools p name self ctx id time heads slot type parts actions r)
            type
            parts
            actions
    unfolding emitted emit_event
    emitted-Carries slot type parts actions r =
        let draft : Draft = record {
          id = id slot;
          timestamp = time slot;
          author = none;
          partial = false;
          turn_complete = true;
          content = record { role = none; parts = parts };
          actions = actions;
          metadata = [];
          llm_response = r;
        } in
        emit_with-Carries (first_key p self.signing_key ctx.signer.signing_key)
          (if nonempty self.signing_did then self.signing_did else ctx.signer.signing_did)
          (unsigned_event p name ctx type draft) (heads slot) type parts actions
          record {
            type_is = refl;
            parts_are = refl;
            whole = refl;
            plain = refl;
            actions_are = refl;
          }

-- A response event, and the message that it becomes.
pub record Answers (tc : ToolCallPart) (a : Answer) (e : Event) : Type 0 where
  pub actions : EventActions
  pub carries :
      Carries e tool_response
        (tool_response_part (record {
          tool_call_id = tc.tool_call_id;
          tool_name = tc.tool_name;
          result = or_blank_result a.result;
          error = a.error;
        })
          ∷ [])
        actions
  pub uncompacted : actions.compaction ≡ none

module _ (comma : ℕ → Text) (limit : ℕ) where
  pub shown_response :
      (tc : ToolCallPart) (a : Answer) (e : Event) (responded : List Text)
      → Answers tc a e
      → (should_include_event e ≡ true)
        × (shown_as comma limit responded e.type e
            ≡ truncate_tool_message comma limit
                (tool (first_full (or_blank_result a.result) a.error) tc.tool_call_id false)
              ∷ [])
  unfolding should_include_event shown_as to_langchain_message message_of response_message
      tool_responses_of lookup
  shown_response tc a e responded c =
      rw (c.carries.type_is, c.carries.whole, c.carries.plain, c.carries.parts_are) (refl, refl)

pub calls_shown : (calls : List ToolCallPart) → tool_calls_of (call_parts calls) ≡ calls
unfolding tool_calls_of call_parts
calls_shown [] = refl
calls_shown (c ∷ cs) = ap (λ l. c ∷ l) (calls_shown cs)

pub calls_there :
    (calls : List ToolCallPart) → has_tool_calls_in (call_parts calls) ≡ nonempty calls
unfolding has_tool_calls_in call_parts
calls_there [] = refl
calls_there (c ∷ cs) = refl

module _ (comma : ℕ → Text) (limit : ℕ) where
  pub shown_call :
      (calls : List ToolCallPart) (e : Event) (responded : List Text)
      → nonempty calls ≡ true
      → Carries e agent_message (call_parts calls) no_actions
      → (should_include_event e ≡ true)
        × (shown_as comma limit responded e.type e
            ≡ paired_message (keep (λ tc. mem_text tc.tool_call_id responded) calls))
  unfolding should_include_event shown_as lookup
  shown_call calls e responded some_call c =
      rw (c.type_is, c.whole, c.plain, c.parts_are, calls_there calls, some_call, calls_shown calls)
        (ground arith, refl)
