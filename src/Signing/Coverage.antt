-- ===== src/Signing/Coverage.antt =====
-- Which changes of an event its signature does not see.
use orxhestra.Prelude.{◌≡◌, refl, ap, Bool, Option, List, [], ◌∷◌, ◌++◌, Text}
use orxhestra.Events.{
  Event, EventCompaction, Part, text_part, tool_call_part, ToolResponsePart, tool_response_part,
  texts_of, tool_calls_of,
}
use orxhestra.Crypto.{Primitives, verify_json_signature}
use orxhestra.Signing.{signable_payload}

texts_of-response :
    (before after : List Part) (r r' : ToolResponsePart)
    → texts_of (before ++ tool_response_part r ∷ after)
      ≡ texts_of (before ++ tool_response_part r' ∷ after)
unfolding texts_of
texts_of-response [] after r r' = refl
texts_of-response (text_part t ∷ ps) after r r' = ap (λ l. t ++ l) (texts_of-response ps after r r')
texts_of-response (_ ∷ ps) after r r' = texts_of-response ps after r r'

tool_calls_of-response :
    (before after : List Part) (r r' : ToolResponsePart)
    → tool_calls_of (before ++ tool_response_part r ∷ after)
      ≡ tool_calls_of (before ++ tool_response_part r' ∷ after)
unfolding tool_calls_of
tool_calls_of-response [] after r r' = refl
tool_calls_of-response (tool_call_part t ∷ ps) after r r' =
    ap (λ l. t ∷ l) (tool_calls_of-response ps after r r')
tool_calls_of-response (_ ∷ ps) after r r' = tool_calls_of-response ps after r r'

abbrev pub with_parts : Event → List Part → Event
with_parts e parts = record e { content = record { role = e.content.role; parts = parts } }

-- The signature of an event says nothing of its tool results, of its escalation flag and of its
-- compaction: an event in which a tool response, the flag and the compaction are replaced verifies
-- exactly as the original does, under every key and signature.
pub signable_payload_blind :
    (p : Primitives) (key : p.PublicKey) (signature : Text) (e : Event) (before after : List Part)
    (r r' : ToolResponsePart) (escalate : Bool) (compaction : Option EventCompaction)
    → verify_json_signature p key
        (signable_payload p (record (with_parts e (before ++ tool_response_part r' ∷ after)) {
          actions = record e.actions { escalate = escalate; compaction = compaction };
        }))
        signature
      ≡ verify_json_signature p key
          (signable_payload p (with_parts e (before ++ tool_response_part r ∷ after)))
          signature
unfolding signable_payload
signable_payload_blind p key signature e before after r r' escalate compaction =
    rw (texts_of-response before after r' r, tool_calls_of-response before after r' r)
