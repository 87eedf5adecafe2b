-- ===== src/Llm/Answered.antt =====
-- Conversations of `LlmAgent.astream` (orxhestra/agents/llm_agent.py), and when their tool calls are answered.
use orxhestra.Prelude.{
  Bool, true, false, List, [], ◌∷◌, ◌++◌, ◌≡◌, refl, ap, ◌∙◌, arith, Text, any, any-append, all,
  nonempty, All, All-append,
}
use orxhestra.Events.{ToolCallPart}
use orxhestra.Llm.{Message, system, human, ai, tool, truncate_tool_message}
use orxhestra.Llm.Paired.{calls_of, answers, AllCalls, AllCalls-weaker}
use orxhestra.Llm.Calls.{Env, with_prompt, pending_prompt}
use orxhestra.Llm.Loop.{truncated}

-- A call is answered by some message.
abbrev pub answered_in : List Message → ToolCallPart → Bool
answered_in ms tc = any (answers tc.tool_call_id) ms

-- Every tool call of the conversation is answered in it.
abbrev pub AllAnswered : List Message → Type 0
AllAnswered ms = All (AllCalls (answered_in ms)) ms

answered_longer :
    (ms more : List Message) (tc : ToolCallPart)
    → answered_in ms tc ≡ true
    → answered_in (ms ++ more) tc ≡ true
answered_longer ms more tc h = ground (arith, any-append (answers tc.tool_call_id) ms more)

answered_later :
    (ms more : List Message) (tc : ToolCallPart)
    → answered_in more tc ≡ true
    → answered_in (ms ++ more) tc ≡ true
answered_later ms more tc h = ground (arith, any-append (answers tc.tool_call_id) ms more)

pub AllAnswered-append :
    (ms more : List Message)
    → AllAnswered ms
    → All (AllCalls (answered_in more)) more
    → AllAnswered (ms ++ more)
AllAnswered-append ms more h k =
    All-append (AllCalls (answered_in (ms ++ more))) ms more
      (AllCalls-weaker (answered_in ms) (answered_in (ms ++ more)) ms (answered_longer ms more) h)
      (AllCalls-weaker (answered_in more) (answered_in (ms ++ more)) more (answered_later ms more)
        k)

pub with_prompt-AllAnswered :
    (prompt : Text) (ms : List Message) → AllAnswered ms → AllAnswered (with_prompt prompt ms)
unfolding with_prompt calls_of answers
with_prompt-AllAnswered prompt [] h = h
with_prompt-AllAnswered prompt (system t ∷ ms) h = h
with_prompt-AllAnswered prompt (human t ∷ ms) h = h
with_prompt-AllAnswered prompt (ai t calls ∷ ms) h = h
with_prompt-AllAnswered prompt (tool t id failed ∷ ms) h = h

-- The tool messages that answer the calls of a reply.
pub record Answering (calls : List ToolCallPart) (ms : List Message) : Type 0 where
  pub each : all (answered_in ms) calls ≡ true
  pub silent : All (λ m. calls_of m ≡ []) ms

module _ {W : Type 0} (env : Env W) where
  truncate_keeps :
      (m : Message) (id : Text)
      → (answers id (truncate_tool_message env.comma env.tool_response_max_chars m) ≡ answers id m)
        × (calls_of (truncate_tool_message env.comma env.tool_response_max_chars m) ≡ calls_of m)
  unfolding truncate_tool_message answers calls_of
  truncate_keeps (system t) id = (refl, refl)
  truncate_keeps (human t) id = (refl, refl)
  truncate_keeps (ai t calls) id = (refl, refl)
  truncate_keeps (tool t i failed) id = (ground arith, ground arith)

  any-truncated :
      (ms : List Message) (id : Text) → any (answers id) (truncated env ms) ≡ any (answers id) ms
  unfolding truncated
  any-truncated [] id = refl
  any-truncated (m ∷ ms) id = rw ((truncate_keeps m id).0, any-truncated ms id) refl

  all-truncated :
      (ms : List Message) (calls : List ToolCallPart)
      → all (answered_in (truncated env ms)) calls ≡ all (answered_in ms) calls
  all-truncated ms [] = refl
  all-truncated ms (c ∷ cs) = rw (any-truncated ms c.tool_call_id, all-truncated ms cs) refl

  silent-AllCalls :
      (p : ToolCallPart → Bool) (ms : List Message)
      → All (λ m. calls_of m ≡ []) ms
      → All (AllCalls p) (truncated env ms)
  unfolding truncated
  silent-AllCalls p [] h = tt
  silent-AllCalls p (m ∷ ms) h =
      (ap (all p) ((truncate_keeps m []).1 ∙ h.0), silent-AllCalls p ms h.1)

  pub replied-AllCalls :
      (t : Text) (calls : List ToolCallPart) (ms : List Message)
      → Answering calls ms
      → All (AllCalls (answered_in (ai t calls ∷ truncated env ms))) (ai t calls ∷ truncated env ms)
  unfolding calls_of answers
  replied-AllCalls t calls ms a = (all-truncated ms calls ∙ a.each, silent-AllCalls _ ms a.silent)

  pub pending-AllCalls :
      (t : Text) (calls : List ToolCallPart)
      → nonempty calls ≡ false
      → All
          (AllCalls (answered_in (ai t calls ∷ pending_prompt ∷ [])))
          (ai t calls ∷ pending_prompt ∷ [])
  unfolding calls_of
  pending-AllCalls t [] h = (refl, (refl, tt))
  pending-AllCalls t (c ∷ cs) h = cc
