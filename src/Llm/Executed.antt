-- ===== src/Llm/Executed.antt =====
-- The answers of the tool executor (orxhestra/agents/tool_executor.py).
use orxhestra.Prelude.{ℕ, suc, true, List, [], ◌∷◌, ◌≡◌, refl, arith, Text, eq_refl, all, All, Dict}
use orxhestra.Events.{ToolCallPart}
use orxhestra.Crypto.{Primitives}
use orxhestra.Signing.{Signer, Context}
use orxhestra.Llm.{Message}
use orxhestra.Llm.Paired.{calls_of, answers, all_weaker}
use orxhestra.Llm.Executor.{Tools, build_response, responses, messages_of_responses}
use orxhestra.Llm.Answered.{answered_in, Answering}

module _ (p : Primitives) (tools : Tools) (name : Text) (self : Signer p) (ctx : Context p)
    (id : ℕ → Text) (time : ℕ → ℕ) (heads : ℕ → Dict Text) where
  abbrev messages : ℕ → List ToolCallPart → List Message
  messages slot calls =
      messages_of_responses (responses tools p name self ctx id time heads slot calls)

  silent : (slot : ℕ) (calls : List ToolCallPart) → All (λ m. calls_of m ≡ []) (messages slot calls)
  unfolding messages_of_responses responses build_response calls_of
  silent slot [] = tt
  silent slot (c ∷ cs) = (refl, silent (suc slot) cs)

  answered :
      (slot : ℕ) (calls : List ToolCallPart) → all (answered_in (messages slot calls)) calls ≡ true
  unfolding messages_of_responses responses build_response answers
  answered slot [] = refl
  answered slot (c ∷ cs) = rw (eq_refl c.tool_call_id) (
      all_weaker (answered_in (messages (suc slot) cs)) _ cs (λ d h. ground arith)
        (answered (suc slot) cs))

  -- Whatever its tools do, the executor answers each of the calls with a tool message.
  pub responses-Answering :
      (slot : ℕ) (calls : List ToolCallPart) → Answering calls (messages slot calls)
  responses-Answering slot calls = record { each = answered slot calls; silent = silent slot calls }
