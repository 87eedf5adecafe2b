-- ===== src/Llm/Budget.antt =====
-- What `build_conversation_history` of orxhestra/agents/message_builder.py takes from the log: the budget of the agents' earlier answers, and the
-- history of an agent on a branch.
use mathlib.Core.List.{append-nil}
use orxhestra.Prelude.{
  ℕ, ◌+◌, ◌-◌, ◌<◌, min, Bool, true, not, List, [], ◌∷◌, ◌++◌, ◌≡◌, refl, ap, arith, Text, ◌==ₜ◌,
  Dict, keep, length, leb, nonempty, if◌then◌else◌, Bool-cases, inl, inr, ◌⊎◌,
}
use orxhestra.Events.{Event, event_text}
use orxhestra.Llm.{Message, system, human, ai, tool, truncate_output}
use orxhestra.Llm.History.{
  Context, events_of, get_events, get_previous_final_responses, latest_by_agent, said,
  context_messages, build_previous_context, build_conversation_history,
}

unfoldable pub content_of : Message → Text
content_of (system t) = t
content_of (human t) = t
content_of (ai t calls) = t
content_of (tool t id failed) = t

-- The characters of all messages but the last one.
unfoldable pub before_last : List Message → ℕ
before_last [] = 0
before_last (m ∷ []) = 0
before_last (m ∷ n ∷ ms) = length (content_of m) + before_last (n ∷ ms)

before_last-cons :
    (m : Message) (ms : List Message)
    → (ms ≡ []) ⊎ (before_last (m ∷ ms) ≡ length (content_of m) + before_last ms)
unfolding before_last
before_last-cons m [] = inl refl
before_last-cons m (n ∷ ms) = inr refl

module _ (comma : ℕ → Text) (max_chars total_max_chars : ℕ) where
  grown :
      (m : Message) (ms : List Message) (total : ℕ)
      → total < total_max_chars
      → (ms ≡ []) ⊎ (total + length (content_of m) + before_last ms < total_max_chars)
      → total + before_last (m ∷ ms) < total_max_chars
  unfolding before_last
  grown m [] total h r = omega arith
  grown m (n ∷ ms) total h (inl e) = cc
  grown m (n ∷ ms) total h (inr l) = omega (arith, l)

  context_messages-budget :
      (d : Dict Event) (total : ℕ)
      → (context_messages comma max_chars total_max_chars total d ≡ [])
        ⊎ (total + before_last (context_messages comma max_chars total_max_chars total d)
            < total_max_chars)
  unfolding context_messages content_of
  context_messages-budget [] total = inl refl
  context_messages-budget ((agent, e) ∷ rest) total =
      elim (Bool-cases (leb total_max_chars total)) [
        | inl full ↦ rw full (inl refl)
        | inr room ↦
            let content =
              said comma agent
                (truncate_output comma (event_text e) (min max_chars (total_max_chars - total))) in
            rw room (
              inr (
                grown (human content) _ total (ground arith)
                  (context_messages-budget rest (total + length content))))
      ]

  -- The messages with the agents' earlier answers, all but the last of them, together stay below the total budget.
  pub build_previous_context-budget :
      (events : List Event)
      → 0 < total_max_chars
      → before_last (build_previous_context comma events max_chars total_max_chars)
        < total_max_chars
  unfolding build_previous_context before_last
  build_previous_context-budget events pos =
      elim (context_messages-budget (latest_by_agent [] events) 0) [
        | inl none_left ↦ rw none_left pos
        | inr below ↦ omega (arith, below)
      ]

none_left : (p q : Event → Bool) (es : List Event) → keep (λ e. not (p e)) (keep q (keep p es)) ≡ []
none_left p q [] = refl
none_left p q (e ∷ es) = ground (arith, none_left p q es)

module _ (comma : ℕ → Text) (tool_response_max_chars : ℕ) (str_of : ℕ → Text)
    (fresh_id : Event → Text) (now : ℕ) where
  -- An agent on a branch whose `include_contents` is not "none" gets no event of the log converted to history, whatever
  -- the log holds: besides the system prompt and the input there are only the messages made of the final
  -- responses of earlier invocations, which are those of all agents, its own included.
  pub build_conversation_history_on_branch :
      (system_prompt : Text) (max_chars total_max_chars : ℕ) (ctx : Context) (input_text : Text)
      → nonempty ctx.branch ≡ true
      → build_conversation_history comma tool_response_max_chars str_of fresh_id now system_prompt
          true max_chars total_max_chars ctx input_text
        ≡ (if nonempty system_prompt then system system_prompt ∷ [] else [])
          ++ (build_previous_context comma
                (get_previous_final_responses ctx)
                max_chars
                total_max_chars
              ++ human input_text ∷ [])
  unfolding build_conversation_history get_events
  build_conversation_history_on_branch system_prompt max_chars total_max_chars ctx input_text
        branched =
      let previous =
        build_previous_context comma (get_previous_final_responses ctx) max_chars total_max_chars in
      rw
        (
          branched,
          none_left (λ e. e.invocation_id ==ₜ ctx.invocation_id) (λ e. e.branch ==ₜ ctx.branch)
              (events_of ctx.events),
        )
        (ap
          (λ l.
            (if nonempty system_prompt then system system_prompt ∷ [] else [])
            ++ (l ++ human input_text ∷ []))
          (append-nil previous))
