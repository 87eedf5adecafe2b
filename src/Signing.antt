-- ===== src/Signing.antt =====
-- `Event.signable_payload` and its helpers of orxhestra/events/event.py, and `BaseAgent._emit_event` of
-- orxhestra/agents/base_agent.py, with the `auth` extra installed (no ImportError). The entry
-- `ctx.state["_orx_chain_heads"]` is a dict from branches to signatures, which `_emit_event` gets
-- and returns. The id and the time of an event are part of the draft.
pub mod Coverage
use orxhestra.Prelude.{
  ℕ, Bool, true, false, not, Option, none, some, List, [], ◌∷◌, Text, codes, Dict, lookup, insert,
  nonempty, if◌then◌else◌,
}
use orxhestra.Values.{Value, Items, null, text, num, arr, obj, nil, cons, end, object}
use orxhestra.Events.{
  Event, EventType, EventActions, Content, LlmResponse, ToolCallPart, type_value, event_text,
  tool_calls,
}
use orxhestra.Crypto.{Primitives, canonicalize_json, sign_json_payload}

-- `s or ""`
abbrev pub or_blank : Option Text → Text
or_blank none = []
or_blank (some s) = s

-- What an agent adds to an event: the keyword arguments of `_emit_event`, with the generated id and
-- time.
pub record Draft : Type 0 where
  pub id : Text
  pub timestamp : ℕ
  pub author : Option Text
  pub partial : Bool
  pub turn_complete : Bool
  pub content : Content
  pub actions : EventActions
  pub metadata : Dict Value
  pub llm_response : Option LlmResponse

module _ (p : Primitives) where
  open p use {PrivateKey, sha256}

  unfoldable pub hash_json : Dict Value → Text
  hash_json d = if nonempty d then sha256 (canonicalize_json p (object d)) else []

  abbrev text_hash : Text → Text
  text_hash t = if nonempty t then sha256 t else []

  unfoldable pub llm_response_fingerprint : Option LlmResponse → Value
  llm_response_fingerprint none = obj end
  llm_response_fingerprint (some r) = object (
      (codes "model", text (or_blank r.model_version))
      ∷ (codes "text_hash", text (text_hash r.text))
      ∷ [])

  abbrev call_fingerprint : ToolCallPart → Value
  call_fingerprint tc = object (
      (codes "tool_call_id", text tc.tool_call_id)
      ∷ (codes "tool_name", text tc.tool_name)
      ∷ (codes "args_hash", text (hash_json tc.args))
      ∷ [])

  unfoldable pub call_fingerprints : List ToolCallPart → Items
  call_fingerprints [] = nil
  call_fingerprints (tc ∷ tcs) = cons (call_fingerprint tc) (call_fingerprints tcs)

  unfoldable pub signable_payload : Event → Value
  unfolding hash_json llm_response_fingerprint call_fingerprints
  signable_payload e = object (
      (codes "id", text e.id)
      ∷ (codes "type", text (type_value e.type))
      ∷ (codes "timestamp", num e.timestamp)
      ∷ (codes "agent_name", text (or_blank e.agent_name))
      ∷ (codes "branch", text e.branch)
      ∷ (codes "content_text", text (event_text e))
      ∷ (codes "prev_signature", text (or_blank e.prev_signature))
      ∷ (codes "tool_calls", arr (call_fingerprints (tool_calls e)))
      ∷ (
        codes "actions",
        object (
            (codes "transfer_to_agent", text (or_blank e.actions.transfer_to_agent))
            ∷ (codes "state_delta_hash", text (hash_json e.actions.state_delta))
            ∷ []),
      )
      ∷ (codes "llm_response", llm_response_fingerprint e.llm_response)
      ∷ [])

  -- The fields of an agent, or of an invocation context, that signing reads.
  pub record Signer : Type 0 where
    pub signing_key : Option PrivateKey
    pub signing_did : Text

  pub record Context : Type 0 where
    pub session_id : Text
    pub invocation_id : Text
    pub branch : Text
    pub signer : Signer

  abbrev pub first_key : Option PrivateKey → Option PrivateKey → Option PrivateKey
  first_key (some k) other = some k
  first_key none other = other

  abbrev pub unsigned_event : Text → Context → EventType → Draft → Event
  unsigned_event name ctx type d = record {
    id = d.id;
    type = type;
    timestamp = d.timestamp;
    invocation_id = ctx.invocation_id;
    session_id = some ctx.session_id;
    author = elim d.author [ none ↦ name | some a ↦ a ];
    agent_name = some name;
    branch = ctx.branch;
    partial = d.partial;
    turn_complete = d.turn_complete;
    content = d.content;
    actions = d.actions;
    metadata = d.metadata;
    llm_response = d.llm_response;
    signature = none;
    signer_did = [];
    prev_signature = none;
  }

  abbrev pub linked : Event → Option Text → Event
  linked e prev = record e { prev_signature = prev }

  abbrev pub sealed : Event → Text → Text → Event
  sealed e signature did = record e { signature = some signature; signer_did = did }

  -- The signed branch of `_emit_event`.
  abbrev pub emit_signed : PrivateKey → Text → Event → Dict Text → Event × Dict Text
  emit_signed key did e heads =
      let e' = linked e (lookup e.branch heads) in
      let signature = sign_json_payload p key (signable_payload e') in
      (sealed e' signature did, if not e.partial then insert e.branch signature heads else heads)

  abbrev pub emit_with : Option PrivateKey → Text → Event → Dict Text → Event × Dict Text
  emit_with none did e heads = (e, heads)
  emit_with (some key) did e heads =
      if nonempty did then emit_signed key did e heads else (e, heads)

  unfoldable pub emit_event :
      (name : Text) → Signer → Context → EventType → Draft → Dict Text → Event × Dict Text
  emit_event name self ctx type d heads =
      emit_with (first_key self.signing_key ctx.signer.signing_key)
        (if nonempty self.signing_did then self.signing_did else ctx.signer.signing_did)
        (unsigned_event name ctx type d) heads
