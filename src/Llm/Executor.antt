-- ===== src/Llm/Executor.antt =====
-- orxhestra/agents/tool_executor.py. The tools run concurrently; what a tool and the callbacks around it do is the outcome of its call, whose
-- effects are outside the model, and so are the events that child agents put on the queue. Every event is emitted by `_emit_event` with
-- the id, the time and the chain heads of that moment, which depend on the order in which the tools end: the slot of
-- the event stands for them, 0 for the call event. The metadata of the call parts is left out, as in the events.
use orxhestra.Prelude.{
  ℕ, suc, Bool, true, false, Option, none, some, List, [], ◌∷◌, ◌++◌, Text, codes, ◌==ₜ◌,
  starts_with, Dict, drop, length, nonempty, if◌then◌else◌,
}
use orxhestra.Events.{
  Event, EventType, agent_message, tool_response, EventActions, no_actions, ToolCallPart,
  tool_call_part, tool_response_part, Part, LlmResponse,
}
use orxhestra.Crypto.{Primitives}
use orxhestra.Signing.{Signer, Context, emit_event}
use orxhestra.Llm.{Message, tool, first_full}

abbrev pub transfer_sentinel : Text
transfer_sentinel = codes "__TRANSFER_TO__"

abbrev pub exit_loop_sentinel : Text
exit_loop_sentinel = codes "__EXIT_LOOP__"

-- How a call of a tool or of a callback ends; `raised` has `str(exc)`.
pub data Outcome : Type 0 where
  returned : Text → Outcome
  raised : Text → Outcome

-- The environment of the executor.
pub record Tools : Type 0 where
  -- `self._tools.get(name) is not None`
  pub has_tool : Text → Bool
  -- `str(list(self._tools))`
  pub available : Text
  -- `before_tool`, none where there is no callback or it returns.
  pub before_tool : ToolCallPart → Option Text
  pub ainvoke : ToolCallPart → Outcome
  -- `str.strip`
  pub strip : Text → Text

-- The keyword arguments of `_build_response`.
pub record Answer : Type 0 where
  pub result : Option Text
  pub error : Option Text

unfoldable pub or_blank_result : Option Text → Text
or_blank_result none = []
or_blank_result (some r) = r

unfoldable pub is_error : Option Text → Bool
is_error none = false
is_error (some e) = nonempty e

unfoldable pub answered : Outcome → Answer
answered (returned r) = record { result = some r; error = none }
answered (raised e) = record { result = none; error = some e }

unfoldable pub invoked : Option Text → Outcome → Answer
unfolding answered
invoked none outcome = answered outcome
invoked (some e) outcome = record { result = none; error = some e }

unfoldable pub call_parts : List ToolCallPart → List Part
call_parts [] = []
call_parts (tc ∷ tcs) = tool_call_part tc ∷ call_parts tcs

-- The events of `execute` that are its own.
unfoldable pub events_of_responses : List (Event × Message) → List Event
events_of_responses [] = []
events_of_responses ((e, m) ∷ rs) = e ∷ events_of_responses rs

unfoldable pub messages_of_responses : List (Event × Message) → List Message
messages_of_responses [] = []
messages_of_responses ((e, m) ∷ rs) = m ∷ messages_of_responses rs

module _ (tools : Tools) where
  -- What `_execute_one` hands to `_build_response`.
  unfoldable pub answer_of : ToolCallPart → Answer
  unfolding invoked
  answer_of tc =
      if tools.has_tool tc.tool_name
      then invoked (tools.before_tool tc) (tools.ainvoke tc)
      else record {
        result = none;
        error = some (
            codes "Tool '"
            ++ (tc.tool_name ++ (codes "' not found. Available: " ++ tools.available)));
      }

  unfoldable pub actions_of : Option Text → EventActions
  actions_of none = no_actions
  actions_of (some result) =
      if starts_with result transfer_sentinel
      then record no_actions {
        transfer_to_agent = some (tools.strip (drop (length transfer_sentinel) result));
      }
      else if result ==ₜ exit_loop_sentinel
      then record no_actions { escalate = true }
      else no_actions

  module _ (p : Primitives) (name : Text) (self : Signer p) (ctx : Context p) (id : ℕ → Text)
      (time : ℕ → ℕ) (heads : ℕ → Dict Text) where
    unfoldable pub emitted : ℕ → EventType → List Part → EventActions → Option LlmResponse → Event
    emitted slot type parts actions llm_response =
        (emit_event p name self ctx type
          record {
            id = id slot;
            timestamp = time slot;
            author = none;
            partial = false;
            turn_complete = true;
            content = record { role = none; parts = parts };
            actions = actions;
            metadata = [];
            llm_response = llm_response;
          }
          (heads slot)).0

    -- `_build_response`; its `result or error or ""` is the content of the message.
    unfoldable pub build_response : ℕ → ToolCallPart → Answer → Event × Message
    unfolding emitted or_blank_result is_error actions_of
    build_response slot tc a = (
      emitted slot tool_response
          (tool_response_part (record {
            tool_call_id = tc.tool_call_id;
            tool_name = tc.tool_name;
            result = or_blank_result a.result;
            error = a.error;
          })
            ∷ [])
          (actions_of a.result) none,
      tool (first_full (or_blank_result a.result) a.error) tc.tool_call_id (is_error a.error),
    )

    -- The results of `gather_with_event_queue`, in the order of the calls.
    unfoldable pub responses : ℕ → List ToolCallPart → List (Event × Message)
    unfolding build_response answer_of
    responses slot [] = []
    responses slot (tc ∷ tcs) = build_response slot tc (answer_of tc) ∷ responses (suc slot) tcs

    unfoldable pub call_event : List ToolCallPart → LlmResponse → Event
    unfolding emitted call_parts
    call_event calls r = emitted 0 agent_message (call_parts calls) no_actions (some r)

    unfoldable pub execute : List ToolCallPart → LlmResponse → Event × List (Event × Message)
    unfolding call_event responses
    execute calls r = (call_event calls r, responses 1 calls)
