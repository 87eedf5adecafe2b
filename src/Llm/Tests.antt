-- ===== src/Llm/Tests.antt =====
-- A run of two tools and what the model is shown of it, and the theorems on the messages at concrete logs.
use orxhestra.Prelude.{
  ℕ, zero, suc, ◌≡◌, refl, true, false, none, some, List, [], ◌∷◌, ◌++◌, map, Text, codes, ◌==ₜ◌,
  any, All, lookup, if◌then◌else◌,
}
use orxhestra.Events.{Event, ToolCallPart, LlmResponse, tool_responses_of}
use orxhestra.Events.Filters.{should_include_event}
use orxhestra.Signing.{Signer, Context}
use orxhestra.Trust.Tests.{toy}
use orxhestra.Llm.{Message, system, human, ai, truncate_output, truncate_tool_message}
use orxhestra.Llm.History.{
  build_previous_context, build_conversation_history, get_previous_final_responses,
  events_to_messages,
}
use orxhestra.Llm.Executor.{
  Tools, returned, raised, execute, events_of_responses, messages_of_responses,
}
use orxhestra.Llm.Emitted.{without_status}
use orxhestra.Llm.Replay.{events_to_messages-execute}
use orxhestra.Llm.Paired.{calls_of, IsSingle, AllCalls, answers, events_to_messages-AllCalls}
use orxhestra.Llm.Budget.{build_conversation_history_on_branch}
use orxhestra.Llm.Calls.{Attempt, Env, Reply, whole, threw}
use orxhestra.Llm.Loop.{process_response, llm_astream}
use orxhestra.Llm.Answered.{AllAnswered}
use orxhestra.Llm.Prompts.{llm_astream-AllAnswered}
use orxhestra.Llm.Executor.{responses}
use orxhestra.Llm.Executed.{responses-Answering}
use orxhestra.Samples.{hello, answer, call, calling, responding, result, city}

abbrev digits : ℕ → Text
digits n = n ∷ []

-- The cut stands at the last newline when that is in the second half.
cut_at_newline :
    truncate_output digits (codes "abc\ndef") 5
    ≡ codes "abc" ++ (codes "\n\n[... truncated " ++ (4 ∷ codes " chars]"))
unfolding truncate_output
cut_at_newline = refl

abbrev other_call : ToolCallPart
other_call = record { tool_call_id = codes "c2"; tool_name = codes "search"; args = city }

-- The second call fails.
abbrev tools : Tools
tools = record {
  has_tool = λ n. true;
  available = [];
  before_tool = λ tc. none;
  ainvoke =
      λ tc. if tc.tool_call_id ==ₜ codes "c1" then returned (codes "ok") else raised (codes "no");
  strip = λ t. t;
}

abbrev signer : Signer toy
signer = record { signing_key = none; signing_did = [] }

abbrev context : Context toy
context = record {
  session_id = codes "s1";
  invocation_id = codes "i1";
  branch = [];
  signer = signer;
}

abbrev reply : LlmResponse
reply = record { text = []; model_version = none }

abbrev done : Event × List (Event × Message)
done =
    execute tools toy (codes "agent") signer context digits (λ n. n) (λ n. [])
      (call ∷ other_call ∷ []) reply

events_to_messages-execute_example :
    events_to_messages digits 100 digits (λ e. []) 9 (done.0 ∷ events_of_responses done.1)
    ≡ ai [] (call ∷ other_call ∷ [])
      ∷ map
          (λ m. truncate_tool_message digits 100 (without_status m))
          (messages_of_responses done.1)
events_to_messages-execute_example =
    events_to_messages-execute toy tools (codes "agent") signer context digits (λ n. n) (λ n. [])
      digits 100 digits (λ e. []) 9 (call ∷ other_call ∷ []) reply refl refl

responding-IsSingle : IsSingle responding
unfolding should_include_event tool_responses_of lookup
responding-IsSingle = record { shown = refl; response = result; one = refl }

events_to_messages-AllCalls_example :
    let messages =
      events_to_messages digits 100 digits (λ e. []) 9 (hello ∷ calling ∷ responding ∷ []) in
    All (AllCalls (λ tc. any (answers tc.tool_call_id) messages)) messages
events_to_messages-AllCalls_example =
    events_to_messages-AllCalls digits (λ e. []) 9 digits 100 (hello ∷ calling ∷ responding ∷ [])
      ((λ h. cc), ((λ h. cc), ((λ h. responding-IsSingle), tt)))

build_conversation_history_on_branch_example :
    build_conversation_history digits 100 digits
      (λ e. [])
      9
      (codes "sys")
      true
      10
      20
      record { invocation_id = codes "i2"; branch = codes "b"; events = some (hello ∷ answer ∷ []) }
      (codes "go")
    ≡ system (codes "sys") ∷ []
      ++ (build_previous_context digits
            (get_previous_final_responses record {
              invocation_id = codes "i2";
              branch = codes "b";
              events = some (hello ∷ answer ∷ []);
            })
            10
            20
          ++ human (codes "go") ∷ [])
build_conversation_history_on_branch_example =
    build_conversation_history_on_branch digits 100 digits (λ e. []) 9 (codes "sys") 10 20
      record { invocation_id = codes "i2"; branch = codes "b"; events = some (hello ∷ answer ∷ []) }
      (codes "go") refl

abbrev reply_with : List ToolCallPart → Reply
reply_with calls = record { text = []; calls = calls; response = reply }

-- The model is overloaded at first, then calls both tools, then answers.
abbrev model_run : ℕ → Attempt
model_run zero = record { chunks = []; ended = threw (codes "503") }
model_run (suc zero) = record { chunks = []; ended = whole (reply_with (call ∷ other_call ∷ [])) }
model_run (suc (suc n)) = record { chunks = []; ended = whole (reply_with []) }

abbrev env : Env ℕ
env = record {
  end_invocation = λ w. false;
  planner = none;
  before_model = λ ms w. (none, w);
  attempt = λ ms w. (model_run w, suc w);
  on_model_error = λ exc w. (none, w);
  after_model = λ r w. w;
  emit = λ e w. (hello, w);
  parse = λ t ms w. (none, w);
  set_state = λ k t w. w;
  run_tools = λ r w.
      let rs =
        responses tools toy (codes "agent") signer context digits (λ n. n) (λ n. []) 1 r.calls in
      ((events_of_responses rs, messages_of_responses rs), w);
  output_key = [];
  max_iterations = 4;
  tool_response_max_chars = 100;
  str_of = digits;
  comma = digits;
  lower = λ t. t;
  type_name = λ t. t;
}

llm_astream-AllAnswered_example :
    All AllAnswered (llm_astream env (codes "sys") (human (codes "hi") ∷ []) 0).prompts
unfolding process_response calls_of
llm_astream-AllAnswered_example =
    llm_astream-AllAnswered env
      (λ r w.
        responses-Answering toy tools (codes "agent") signer context digits (λ n. n) (λ n. []) 1
          r.calls)
      (λ r w. refl) (codes "sys") (human (codes "hi") ∷ []) 0 (refl, tt)
