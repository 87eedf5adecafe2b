-- ===== src/Llm/Prompts.antt =====
-- What `LlmAgent.astream` (orxhestra/agents/llm_agent.py) sends to the model, turn by turn.
use mathlib.Core.List.{append_assoc}
use orxhestra.Prelude.{
  ℕ, zero, suc, false, Option, none, some, List, [], ◌∷◌, ◌++◌, ◌≡◌, sym, ap, ◌∙◌, subst, Text,
  nonempty, All, All-append, Bool-cases, inl, inr,
}
use orxhestra.Llm.{Message, ai}
use orxhestra.Llm.Calls.{
  Reply, Ended, whole, threw, Planner, Env, Outcome, Called, yielding, asking, over, call_llm,
  handle_llm_error, last_attempt, after_call, first_attempt, call_llm_with_recovery, pending_prompt,
  is_retryable,
}
use orxhestra.Llm.Loop.{
  fails_with, should_continue, process_response, enriched, final_response, truncated, use_reply,
  use_called, use_before, turns, llm_astream,
}
use orxhestra.Llm.Answered.{
  AllAnswered, AllAnswered-append, with_prompt-AllAnswered, Answering, replied-AllCalls,
  pending-AllCalls,
}

module _ {W : Type 0} (env : Env W) where
  AllPrompts : Outcome W → Type 0
  AllPrompts o = All AllAnswered o.prompts

  module _ (answering : (r : Reply) (w : W) → Answering r.calls (env.run_tools r w).0.1)
      (same_calls : (r : Reply) (w : W)
        → (process_response env env.planner r w).calls ≡ r.calls) where
    after_reply :
        (messages : List Message) (raw r : Reply) (w : W)
        → r.calls ≡ raw.calls
        → AllAnswered messages
        → AllAnswered
            (messages ++ ai raw.text raw.calls ∷ [] ++ truncated env (env.run_tools r w).0.1)
    after_reply messages raw r w same h =
        rw
          (append_assoc messages (ai raw.text raw.calls ∷ [])
            (truncated env (env.run_tools r w).0.1))
          (AllAnswered-append messages
            (ai raw.text raw.calls ∷ truncated env (env.run_tools r w).0.1) h
            (replied-AllCalls env raw.text raw.calls (env.run_tools r w).0.1
              (subst (λ cs. Answering cs (env.run_tools r w).0.1) same (answering r w))))

    after_pending :
        (messages : List Message) (raw : Reply)
        → nonempty raw.calls ≡ false
        → AllAnswered messages
        → AllAnswered (messages ++ ai raw.text raw.calls ∷ [] ++ pending_prompt ∷ [])
    after_pending messages raw none' h =
        rw (append_assoc messages (ai raw.text raw.calls ∷ []) (pending_prompt ∷ [])) (
          AllAnswered-append messages (ai raw.text raw.calls ∷ pending_prompt ∷ []) h
            (pending-AllCalls env raw.text raw.calls none'))

    call_llm-prompts :
        (messages : List Message) (w : W)
        → AllAnswered messages
        → All AllAnswered (call_llm env messages w).prompts
    unfolding call_llm
    call_llm-prompts messages w h = (h, tt)

    last_attempt-prompts :
        (c : Called W) (e : Ended)
        → All AllAnswered c.prompts
        → All AllAnswered (last_attempt env c e).prompts
    unfolding last_attempt handle_llm_error
    last_attempt-prompts c (whole r) h = h
    last_attempt-prompts c (threw exc) h = h

    first_attempt-prompts :
        (messages : List Message) (c : Called W) (e : Ended)
        → AllAnswered messages
        → All AllAnswered c.prompts
        → All AllAnswered (first_attempt env messages c e).prompts
    unfolding first_attempt handle_llm_error after_call
    first_attempt-prompts messages c (whole r) h k = k
    first_attempt-prompts messages c (threw exc) h k =
        let again = call_llm env messages c.world in
        elim (Bool-cases (is_retryable env exc)) [
          | inl retry ↦ rw retry (
              All-append AllAnswered c.prompts (last_attempt env again again.reply).prompts k
                (last_attempt-prompts again again.reply (call_llm-prompts messages c.world h)))
          | inr final ↦ rw final k
        ]

    use_reply-prompts :
        (messages : List Message) (raw r : Reply) (w : W) (continue : List Message → W → Outcome W)
        → r.calls ≡ raw.calls
        → AllAnswered messages
        → ((ms : List Message) (w' : W) → AllAnswered ms → AllPrompts (continue ms w'))
        → AllPrompts (use_reply env messages raw r w continue)
    unfolding use_reply yielding final_response over AllPrompts
    use_reply-prompts messages raw r w continue same h rest = elim (Bool-cases (nonempty r.calls)) [
      | inl calling ↦ rw calling (rest _ _ (after_reply messages raw r w same h))
      | inr silent ↦ rw silent (elim (Bool-cases (should_continue env env.planner w)) [
        | inl pending ↦
            rw pending (rest _ w (after_pending messages raw (ap nonempty (sym same) ∙ silent) h))
        | inr done ↦ rw done tt
      ])
    ]

    use_called-prompts :
        (messages : List Message) (c : Called W) (e : Ended)
        (continue : List Message → W → Outcome W)
        → AllAnswered messages
        → All AllAnswered c.prompts
        → ((ms : List Message) (w' : W) → AllAnswered ms → AllPrompts (continue ms w'))
        → AllPrompts (use_called env messages c e continue)
    unfolding use_called asking yielding fails_with over AllPrompts
    use_called-prompts messages c (threw exc) continue h k rest =
        All-append AllAnswered c.prompts [] k tt
    use_called-prompts messages c (whole raw) continue h k rest =
        let r = process_response env env.planner raw c.world in
        All-append AllAnswered c.prompts
          (use_reply env messages raw r (env.after_model r c.world) continue).prompts k
          (use_reply-prompts messages raw r (env.after_model r c.world) continue
            (same_calls raw c.world) h rest)

    use_before-prompts :
        (messages : List Message) (o : Option Text × W) (continue : List Message → W → Outcome W)
        → AllAnswered messages
        → ((ms : List Message) (w' : W) → AllAnswered ms → AllPrompts (continue ms w'))
        → AllPrompts (use_before env messages o continue)
    unfolding use_before call_llm_with_recovery fails_with over AllPrompts
    use_before-prompts messages (some exc, w) continue h rest = tt
    use_before-prompts messages (none, w) continue h rest =
        let c = call_llm env messages w in
        let d = first_attempt env messages c c.reply in
        use_called-prompts messages d d.reply continue h
          (first_attempt-prompts messages c c.reply h (call_llm-prompts messages w h)) rest

    enriched-AllAnswered :
        (o : Option (Planner W)) (prompt : Text) (messages : List Message) (w : W)
        → AllAnswered messages
        → AllAnswered (enriched env o prompt messages w)
    unfolding enriched
    enriched-AllAnswered none prompt messages w h = h
    enriched-AllAnswered (some planner) prompt messages w h =
        elim (Bool-cases (nonempty (planner.instruction messages w))) [
          | inl some' ↦ rw some' (with_prompt-AllAnswered _ messages h)
          | inr none' ↦ rw none' h
        ]

    turns-prompts :
        (n : ℕ) (prompt : Text) (messages : List Message) (w : W)
        → AllAnswered messages
        → AllPrompts (turns env n prompt messages w)
    unfolding turns over AllPrompts
    turns-prompts zero prompt messages w h = tt
    turns-prompts (suc n) prompt messages w h =
        let messages' = enriched env env.planner prompt messages w in
        elim (Bool-cases (env.end_invocation w)) [
          | inl ended ↦ rw ended tt
          | inr going ↦ rw going (
              use_before-prompts messages' (env.before_model messages' w) _
                (enriched-AllAnswered env.planner prompt messages w h)
                (λ ms w' k. turns-prompts n prompt ms w' k))
        ]

    -- In every call of the model, retries included, each tool call of the conversation is answered by a tool message of it,
    -- when that is so of the conversation at the start, the tools answer each call of a reply with messages that call
    -- nothing, and the planner leaves the calls of a reply as they are.
    pub llm_astream-AllAnswered :
        (prompt : Text) (messages : List Message) (w : W)
        → AllAnswered messages
        → All AllAnswered (llm_astream env prompt messages w).prompts
    unfolding llm_astream AllPrompts
    llm_astream-AllAnswered prompt messages w h =
        turns-prompts env.max_iterations prompt messages w h
