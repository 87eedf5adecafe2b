-- ===== src/Llm/Calls.antt =====
-- The calls of the model in `LlmAgent.astream` of orxhestra/agents/llm_agent.py, with their retry. The chat model, the callbacks, the planner, the parser of structured output and the tools act on
-- a world of the caller's; an exception is its text. Planner and tools do not raise. `LlmResponse.from_ai_message`
-- gives the text and the calls of the message. The messages of each call of the model are recorded with the events.
use orxhestra.Prelude.{
  ℕ, Bool, true, false, ◌||◌, Option, none, some, List, [], ◌∷◌, ◌++◌, Text, codes, starts_with,
  Dict, any, if◌then◌else◌,
}
use orxhestra.Values.{Value}
use orxhestra.Events.{
  Event, EventActions, no_actions, Content, Part, data_part, thinking_part, from_text, ToolCallPart,
  LlmResponse,
}
use orxhestra.Llm.{Message, system, human}
use orxhestra.Llm.Chunks.{Chunk, Piece, thinking_piece, text_piece, stream_chunks}

-- What the agent passes to `_emit_event` for an agent message.
pub record Emission : Type 0 where
  pub content : Content
  pub partial : Bool
  pub turn_complete : Bool
  pub actions : EventActions
  pub metadata : Dict Value
  pub llm_response : Option LlmResponse

-- A message of the model, and the `LlmResponse` that is read of it.
pub record Reply : Type 0 where
  pub text : Text
  pub calls : List ToolCallPart
  pub response : LlmResponse

pub data Ended : Type 0 where
  whole : Reply → Ended
  threw : Text → Ended

-- One run of `model.astream`: its chunks, and their sum, an empty message without any, or the exception that ends it.
pub record Attempt : Type 0 where
  pub chunks : List Chunk
  pub ended : Ended

pub record Planner (W : Type 0) : Type 0 where
  -- `build_planning_instruction`, empty for none
  pub instruction : List Message → W → Text
  pub process : Reply → W → Option Reply
  pub has_pending_tasks : W → Bool

pub record Env (W : Type 0) : Type 0 where
  pub end_invocation : W → Bool
  pub planner : Option (Planner W)
  -- none where there is no callback or it returns
  pub before_model : List Message → W → Option Text × W
  pub attempt : List Message → W → Attempt × W
  -- none where there is no callback or it returns None
  pub on_model_error : Text → W → Option Reply × W
  pub after_model : Reply → W → W
  pub emit : Emission → W → Event × W
  -- the structured output, none without a schema
  pub parse : Text → List Message → W → Option (Dict Value) × W
  pub set_state : Text → Text → W → W
  -- `ToolExecutor.execute`: its events, and the tool messages
  pub run_tools : Reply → W → (List Event × List Message) × W
  pub output_key : Text
  pub max_iterations : ℕ
  pub tool_response_max_chars : ℕ
  pub str_of : ℕ → Text
  pub comma : ℕ → Text
  pub lower : Text → Text
  -- `type(exc).__name__`
  pub type_name : Text → Text

pub record Outcome (W : Type 0) : Type 0 where
  pub events : List Event
  pub prompts : List (List Message)
  pub world : W

-- What a call of the model leaves: its reply, or the exception.
pub record Called (W : Type 0) : Type 0 where
  pub events : List Event
  pub prompts : List (List Message)
  pub reply : Ended
  pub world : W

unfoldable pub contains : Text → Text → Bool
contains t [] = true
contains [] (c ∷ p) = false
contains (d ∷ t) (c ∷ p) = starts_with (d ∷ t) (c ∷ p) || contains t (c ∷ p)

abbrev pub retryable_patterns : List Text
retryable_patterns =
    codes "rate_limit"
    ∷ codes "rate limit"
    ∷ codes "429"
    ∷ codes "overloaded"
    ∷ codes "503"
    ∷ codes "502"
    ∷ codes "timeout"
    ∷ codes "timed out"
    ∷ codes "connection"
    ∷ codes "temporarily unavailable"
    ∷ []

unfoldable pub piece_content : Piece → Content
piece_content (thinking_piece t) = record { role = none; parts = thinking_part t ∷ [] }
piece_content (text_piece t) = from_text t

abbrev pub plain_emission : Content → Emission
plain_emission content = record {
  content = content;
  partial = false;
  turn_complete = true;
  actions = no_actions;
  metadata = [];
  llm_response = none;
}

unfoldable pub with_prompt : Text → List Message → List Message
with_prompt prompt (system t ∷ ms) = system prompt ∷ ms
with_prompt prompt ms = ms

unfoldable pub data_parts : Option (Dict Value) → List Part
data_parts none = []
data_parts (some d) = data_part d ∷ []

unfoldable pub or_same : Reply → Option Reply → Reply
or_same reply none = reply
or_same reply (some r) = r

abbrev pub pending_prompt : Message
pending_prompt = human (
    codes
      "You still have pending tasks on the task board. Continue working on the next task — call the appropriate tools to make progress.")

module _ {W : Type 0} where
  unfoldable pub yielding : List Event → Outcome W → Outcome W
  yielding es o = record o { events = es ++ o.events }

  unfoldable pub asking : List (List Message) → Outcome W → Outcome W
  asking ps o = record o { prompts = ps ++ o.prompts }

  unfoldable pub over : List Event → W → Outcome W
  over es w = record { events = es; prompts = []; world = w }

module _ {W : Type 0} (env : Env W) where
  unfoldable pub is_retryable : Text → Bool
  unfolding contains
  is_retryable exc = any (contains (env.lower exc)) retryable_patterns

  unfoldable pub emit_pieces : List Piece → W → List Event × W
  unfolding piece_content
  emit_pieces [] w = ([], w)
  emit_pieces (p ∷ ps) w =
      let (e, w') =
        env.emit
          (record (plain_emission (piece_content p)) { partial = true; turn_complete = false }) w in
      let (es, w'') = emit_pieces ps w' in (e ∷ es, w'')

  -- `_call_llm`
  unfoldable pub call_llm : List Message → W → Called W
  unfolding emit_pieces stream_chunks
  call_llm messages w =
      let (a, w') = env.attempt messages w in
      let (es, w'') = emit_pieces (stream_chunks false [] [] a.chunks) w' in
      record { events = es; prompts = messages ∷ []; reply = a.ended; world = w'' }

  unfoldable pub recovered : Text → Option Reply → Ended
  recovered exc none = threw exc
  recovered exc (some r) = whole r

  -- `_handle_llm_error`
  unfoldable pub handle_llm_error : Text → Called W → Called W
  unfolding recovered
  handle_llm_error exc c =
      let (o, w) = env.on_model_error exc c.world in record c { reply = recovered exc o; world = w }

  unfoldable pub last_attempt : Called W → Ended → Called W
  unfolding handle_llm_error
  last_attempt c (whole r) = c
  last_attempt c (threw exc) = handle_llm_error exc c

  unfoldable pub after_call : Called W → Called W → Called W
  after_call c d = record d { events = c.events ++ d.events; prompts = c.prompts ++ d.prompts }

  unfoldable pub first_attempt : List Message → Called W → Ended → Called W
  unfolding last_attempt after_call call_llm is_retryable
  first_attempt messages c (whole r) = c
  first_attempt messages c (threw exc) =
      let again = call_llm messages c.world in
      if is_retryable exc
      then after_call c (last_attempt again again.reply)
      else handle_llm_error exc c

  -- `_call_llm_with_recovery`
  unfoldable pub call_llm_with_recovery : List Message → W → Called W
  unfolding first_attempt
  call_llm_with_recovery messages w =
      let c = call_llm messages w in first_attempt messages c c.reply
