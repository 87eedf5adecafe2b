-- ===== src/Trust.antt =====
-- orxhestra/trust/policy.py and orxhestra/middleware/trust.py. A mode of `strict` is true for "strict".
-- A set of DIDs or of event types is a list, read only by `in`. The resolver is an argument, which
-- answers with a key or with the text of the error that it raised (ValueError, LookupError or
-- ImportError), and `repr` of an optional text is Python's. The entry
-- `ctx.state["_orx_trust_chain_heads"]` is a dict from branches to signatures.

pub mod Delivered
pub mod Chain
pub mod Accept
pub mod Tests
use orxhestra.Prelude.{
  ℕ, Bool, true, false, not, ◌&&◌, ◌||◌, Option, none, some, List, [], ◌∷◌, ◌++◌, Text, codes,
  ◌==ₜ◌, mem_text, Dict, lookup, insert, nonempty, if◌then◌else◌,
}
use orxhestra.Values.{Value, bool, text, object}
use orxhestra.Events.{
  Event, EventType, user_message, agent_message, tool_response, agent_start, agent_end, type_value,
  is_signed,
}
use orxhestra.Crypto.{Primitives, verify_json_signature}
use orxhestra.Signing.{signable_payload, or_blank}

pub record PolicyDecision : Type 0 where
  pub allow : Bool
  pub reason : Text
  pub verified : Bool

pub record TrustPolicy : Type 0 where
  pub strict : Bool
  pub trusted_dids : List Text
  pub denied_dids : List Text
  pub require_signed_event_types : List EventType
  pub require_chain : Bool
  pub allow_unsigned : Bool

abbrev pub same_type : EventType → EventType → Bool
same_type user_message user_message = true
same_type agent_message agent_message = true
same_type tool_response tool_response = true
same_type agent_start agent_start = true
same_type agent_end agent_end = true
same_type _ _ = false

unfoldable pub mem_type : EventType → List EventType → Bool
mem_type t [] = false
mem_type t (x ∷ xs) = same_type x t || mem_type t xs

-- A failed rule: the event passes in permissive mode only.
abbrev pub reject : TrustPolicy → Text → PolicyDecision
reject policy reason = record { allow = not policy.strict; reason = reason; verified = false }

unfoldable pub check_signer : TrustPolicy → Text → Option PolicyDecision
check_signer policy did =
    if mem_text did policy.denied_dids
    then some (reject policy (codes "signer " ++ (did ++ codes " is denylisted")))
    else if nonempty policy.trusted_dids && not (mem_text did policy.trusted_dids)
    then some (reject policy (codes "signer " ++ (did ++ codes " not in allowlist")))
    else none

unfoldable pub requires_signature : TrustPolicy → EventType → Bool
requires_signature policy type =
    if not policy.allow_unsigned then true else mem_type type policy.require_signed_event_types

abbrev pub same_link : Option Text → Option Text → Bool
same_link none none = true
same_link (some s) (some t) = s ==ₜ t
same_link _ _ = false

module _ (p : Primitives) where
  open p use {PublicKey}

  pub data Resolved : Type 0 where
    key : PublicKey → Resolved
    failed : Text → Resolved

  pub data Outcome : Type 0 where
    delivered : Event → Outcome
    dropped raised : Outcome

abbrev pub pass_unverified : PolicyDecision
pass_unverified = record { allow = true; reason = []; verified = false }

abbrev pub pass_verified : PolicyDecision
pass_verified = record { allow = true; reason = []; verified = true }

module _ (p : Primitives) (repr : Option Text → Text) (resolve : Text → Resolved p)
    (policy : TrustPolicy) where
  -- Step 5 of `_evaluate`.
  abbrev pub check_chain : Dict Text → Event → PolicyDecision
  check_chain heads e =
      if policy.require_chain && not e.partial
      then (if same_link (lookup e.branch heads) e.prev_signature
          then pass_verified
          else reject policy (
              codes "chain broken on branch "
              ++ (repr (some e.branch)
                  ++ (codes ": expected prev_signature="
                      ++ (repr (lookup e.branch heads)
                          ++ (codes " got " ++ repr e.prev_signature))))))
      else pass_verified

  -- Step 4; `none` where the decoding of the signature raises.
  abbrev pub check_signature : Dict Text → Event → Option Bool → Option PolicyDecision
  check_signature heads e none = none
  check_signature heads e (some false) =
      some (reject policy (codes "signature verification failed"))
  check_signature heads e (some true) = some (check_chain heads e)

  abbrev pub check_key : Dict Text → Event → Resolved p → Option PolicyDecision
  check_key heads e (failed why) =
      some (reject policy (codes "could not resolve signer DID: " ++ why))
  check_key heads e (key k) =
      check_signature heads e
        (verify_json_signature p k (signable_payload p e) (or_blank e.signature))

  abbrev pub check_signed : Dict Text → Event → Option PolicyDecision → Option PolicyDecision
  check_signed heads e (some decision) = some decision
  check_signed heads e none = check_key heads e (resolve e.signer_did)

  unfoldable pub evaluate : Dict Text → Event → Option PolicyDecision
  evaluate heads e =
      if not (is_signed e)
      then (if requires_signature policy e.type
          then some (
              reject policy
                (type_value e.type ++ codes " requires a signature but event is unsigned"))
          else some pass_unverified)
      else check_signed heads e (check_signer policy e.signer_did)

  abbrev pub trust_note : PolicyDecision → Value
  trust_note d =
      if d.verified
      then object ((codes "verified", bool true) ∷ [])
      else object ((codes "verified", bool false) ∷ (codes "reason", text d.reason) ∷ [])

  abbrev pub annotated : Event → PolicyDecision → Event
  annotated e d =
      if d.verified || nonempty d.reason
      then record e { metadata = insert (codes "trust") (trust_note d) e.metadata }
      else e

  abbrev pub advance : Event → PolicyDecision → Dict Text → Dict Text
  advance e d heads =
      if d.verified && (nonempty (or_blank e.signature) && not e.partial)
      then insert e.branch (or_blank e.signature) heads
      else heads

  abbrev pub conclude : Event → Dict Text → Option PolicyDecision → Outcome p × Dict Text
  conclude e heads none = (raised, heads)
  conclude e heads (some d) =
      (if d.allow then delivered (annotated e d) else dropped, advance e d heads)

  -- What `on_event` returns, with the chain heads that it leaves.
  unfoldable pub on_event : Dict Text → Event → Outcome p × Dict Text
  on_event heads e = conclude e heads (evaluate heads e)
