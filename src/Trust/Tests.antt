-- ===== src/Trust/Tests.antt =====
-- Runs of the trust middleware with a toy signature scheme, and its theorems at concrete events.
use mathlib.Core.List.{map}
use orxhestra.Prelude.{
  ℕ, ◌≡◌, ◌≢◌, refl, ◌⊎◌, true, false, Option, none, some, List, [], ◌∷◌, ◌++◌, Text, codes, ◌==ₜ◌,
  eq_refl, mem_text, lookup,
}
use orxhestra.Values.{Value, Items, Fields, null, bool, num, text, arr, obj, nil, cons, end, field}
use orxhestra.Events.{Event, is_signed, tool_response_part}
use orxhestra.Crypto.{Primitives, Genuine, verify_json_signature}
use orxhestra.Signing.{emit_signed, signable_payload}
use orxhestra.Signing.Coverage.{signable_payload_blind, with_parts}
use orxhestra.Trust.{
  TrustPolicy, Resolved, key, failed, dropped, delivered, on_event, pass_verified, annotated,
  requires_signature, check_signer,
}
use orxhestra.Trust.Delivered.{IsTrusted, strict_delivers}
use orxhestra.Trust.Chain.{delivered_by, IsLinked, delivered_by-IsLinked}
use orxhestra.Trust.Accept.{emit_all, delivered_by-emit_all}
use orxhestra.Samples.{hello, answer, result, other_result}

-- The texts and numbers of a value, in order.
unfoldable mutual
  pub flat : Value → Text
  flat null = []
  flat (bool true) = 1 ∷ []
  flat (bool false) = 0 ∷ []
  flat (num n) = n ∷ []
  flat (text s) = s
  flat (arr vs) = flat_items vs
  flat (obj fs) = flat_fields fs

  pub flat_items : Items → Text
  flat_items nil = []
  flat_items (cons v vs) = flat v ++ flat_items vs

  pub flat_fields : Fields → Text
  flat_fields end = []
  flat_fields (field k v fs) = flat v ++ flat_fields fs

-- A key signs by standing in front of the message.
abbrev pub toy : Primitives
toy = record {
  PrivateKey = ℕ;
  PublicKey = ℕ;
  nfc = λ t. t;
  dumps = flat;
  sign = λ k m. k ∷ m;
  verify = λ k s m. s ==ₜ k ∷ m;
  b64encode = λ t. t;
  b64decode = λ t. some t;
  sha256 = λ t. 35 ∷ t;
}

pub toy-Genuine : Genuine toy 7 7
toy-Genuine = record { decodes = λ t. refl; signed = λ t. refl; accepts = λ t. eq_refl (7 ∷ t) }

toy_blank : (k : ℕ) (payload : Value) → verify_json_signature toy k payload [] ≢ some true
unfolding verify_json_signature ◌==ₜ◌
toy_blank k payload h = cc

abbrev policy : TrustPolicy
policy = record {
  strict = true;
  trusted_dids = [];
  denied_dids = codes "mallory" ∷ [];
  require_signed_event_types = [];
  require_chain = true;
  allow_unsigned = true;
}

abbrev lenient : TrustPolicy
lenient = record policy { strict = false }

abbrev show : Option Text → Text
show none = codes "None"
show (some t) = t

abbrev resolve : Text → Resolved toy
resolve did = key 7

abbrev alice : Text
alice = codes "alice"

abbrev emitted : List Event
emitted = emit_all toy show resolve policy 7 7 alice [] (hello ∷ answer ∷ [])

alice_welcome : check_signer policy alice ≡ none
unfolding check_signer mem_text ◌==ₜ◌
alice_welcome = refl

delivered_by-emit_all_example :
    delivered_by toy show resolve policy [] emitted
    ≡ map (λ e. annotated toy show resolve policy e pass_verified) emitted
delivered_by-emit_all_example =
    delivered_by-emit_all toy show resolve policy 7 7 alice toy-Genuine refl alice_welcome refl []
      (hello ∷ answer ∷ [])

delivered_by-IsLinked_example : IsLinked [] none (delivered_by toy show resolve policy [] emitted)
unfolding lookup
delivered_by-IsLinked_example =
    delivered_by-IsLinked toy show resolve policy refl refl toy_blank [] [] emitted

signable_payload_blind_example :
    verify_json_signature toy 7
      (signable_payload toy
        (record (with_parts answer ([] ++ tool_response_part other_result ∷ [])) {
          actions = record answer.actions { escalate = true; compaction = none };
        }))
      (codes "sig")
    ≡ verify_json_signature toy 7
        (signable_payload toy (with_parts answer ([] ++ tool_response_part result ∷ [])))
        (codes "sig")
signable_payload_blind_example =
    signable_payload_blind toy 7 (codes "sig") answer [] [] result other_result true none

abbrev signed_hello : Event
signed_hello = (emit_signed toy 7 alice hello []).0

signed_hello_passes :
    (on_event toy show resolve policy [] signed_hello).0
    ≡ delivered (annotated toy show resolve policy signed_hello pass_verified)
unfolding on_event orxhestra.Trust.evaluate is_signed check_signer mem_text ◌==ₜ◌ lookup
    verify_json_signature signable_payload orxhestra.Crypto.sign_json_payload
    orxhestra.Crypto.canonicalize_json orxhestra.Crypto.normalize_for_signing
    orxhestra.Crypto.put_field flat orxhestra.Signing.hash_json
    orxhestra.Signing.llm_response_fingerprint orxhestra.Signing.call_fingerprints
    orxhestra.Events.texts_of orxhestra.Events.tool_calls_of
signed_hello_passes = refl

strict_delivers_example :
    ((is_signed signed_hello ≡ false) × (requires_signature policy signed_hello.type ≡ false))
    ⊎ IsTrusted toy show resolve policy [] signed_hello
strict_delivers_example =
    strict_delivers toy show resolve policy [] signed_hello
      (annotated toy show resolve policy signed_hello pass_verified) refl signed_hello_passes
