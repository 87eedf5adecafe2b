-- ===== src/Trust/Delivered.antt =====
-- What `TrustMiddleware.on_event` lets through.
use orxhestra.Prelude.{
  ◌≡◌, ◌≢◌, refl, ◌⊎◌, inl, inr, Bool, true, false, not, ◌&&◌, Option, none, some, arith, Text,
  mem_text, Dict, lookup, nonempty, Bool-cases, Option-cases,
}
use orxhestra.Events.{Event, is_signed}
use orxhestra.Crypto.{Primitives, verify_json_signature}
use orxhestra.Signing.{signable_payload, or_blank}
use orxhestra.Trust.{
  TrustPolicy, PolicyDecision, same_link, Resolved, key, failed, delivered, dropped, check_signer,
  requires_signature, evaluate, on_event, check_key, check_signed, check_signature, conclude,
}

module _ (p : Primitives) (repr : Option Text → Text) (resolve : Text → Resolved p)
    (policy : TrustPolicy) (heads : Dict Text) (e : Event) where
  permissive_signature :
      (o : Option Bool)
      → policy.strict ≡ false
      → (d : PolicyDecision) → check_signature p repr resolve policy heads e o ≡ some d
      → d.allow ≡ true
  permissive_signature none mode d h = cc
  permissive_signature (some false) mode d h = ground arith
  permissive_signature (some true) mode d h = ground arith

  permissive_key :
      (r : Resolved p)
      → policy.strict ≡ false
      → (d : PolicyDecision) → check_key p repr resolve policy heads e r ≡ some d
      → d.allow ≡ true
  permissive_key (failed why) mode d h = ground arith
  permissive_key (key k) mode d h = permissive_signature _ mode d h

  permissive_evaluate :
      policy.strict ≡ false
      → (d : PolicyDecision) → evaluate p repr resolve policy heads e ≡ some d
      → d.allow ≡ true
  unfolding evaluate check_signer
  permissive_evaluate mode d h = ground (arith, permissive_key (resolve e.signer_did) mode d)

  -- In permissive mode no event is dropped.
  pub permissive_keeps :
      policy.strict ≡ false → (on_event p repr resolve policy heads e).0 ≢ dropped
  unfolding on_event
  permissive_keeps mode = elim (Option-cases (evaluate p repr resolve policy heads e)) [
    | inl none' ↦ rw none' (ground arith)
    | inr (d, made) ↦ rw made (ground (arith, permissive_evaluate mode d made))
  ]

  allowed_if_delivered :
      (d : PolicyDecision) (e' : Event)
      → (conclude p repr resolve policy e heads (some d)).0 ≡ delivered e'
      → d.allow ≡ true
  allowed_if_delivered d e' h = ground arith

  pub record IsTrusted : Type 0 where
    pub signed : is_signed e ≡ true
    pub not_denied : mem_text e.signer_did policy.denied_dids ≡ false
    pub allowed :
        (nonempty policy.trusted_dids && not (mem_text e.signer_did policy.trusted_dids)) ≡ false
    pub public : p.PublicKey
    pub resolved : resolve e.signer_did ≡ key public
    pub valid :
        verify_json_signature p public (signable_payload p e) (or_blank e.signature) ≡ some true
    pub chained :
        (policy.require_chain
          && (not e.partial && not (same_link (lookup e.branch heads) e.prev_signature)))
        ≡ false

  -- The part of `IsTrusted` that the key and the signature decide.
  abbrev pub Verified : Resolved p → Type 0
  Verified r =
      (k : p.PublicKey) × (r ≡ key k)
      × (verify_json_signature p k (signable_payload p e) (or_blank e.signature) ≡ some true)
      × ((policy.require_chain
            && (not e.partial && not (same_link (lookup e.branch heads) e.prev_signature)))
          ≡ false)

  strict_signature :
      (k : p.PublicKey) (o : Option Bool)
      → verify_json_signature p k (signable_payload p e) (or_blank e.signature) ≡ o
      → policy.strict ≡ true
      → (d : PolicyDecision) → check_signature p repr resolve policy heads e o ≡ some d
      → d.allow ≡ true
      → Verified (key k)
  strict_signature k none v mode d h allow = cc
  strict_signature k (some false) v mode d h allow = absurd (ground arith)
  strict_signature k (some true) v mode d h allow = (k, refl, v, ground arith)

  strict_key :
      (r : Resolved p)
      → policy.strict ≡ true
      → (d : PolicyDecision) → check_key p repr resolve policy heads e r ≡ some d
      → d.allow ≡ true
      → Verified r
  strict_key (failed why) mode d h allow = absurd (ground arith)
  strict_key (key k) mode d h allow = strict_signature k _ refl mode d h allow

  strict_signer :
      (o : Option PolicyDecision)
      → check_signer policy e.signer_did ≡ o
      → is_signed e ≡ true
      → policy.strict ≡ true
      → (d : PolicyDecision) → check_signed p repr resolve policy heads e o ≡ some d
      → d.allow ≡ true
      → IsTrusted
  unfolding check_signer
  strict_signer (some r) c signed mode d h allow = absurd (ground arith)
  strict_signer none c signed mode d h allow =
      let (k, resolved, valid, chained) = strict_key (resolve e.signer_did) mode d h allow in
      record {
        signed = signed;
        not_denied = ground arith;
        allowed = ground arith;
        public = k;
        resolved = resolved;
        valid = valid;
        chained = chained;
      }

  pub strict_evaluate :
      policy.strict ≡ true
      → (d : PolicyDecision) → evaluate p repr resolve policy heads e ≡ some d
      → d.allow ≡ true
      → ((is_signed e ≡ false) × (requires_signature policy e.type ≡ false)) ⊎ IsTrusted
  unfolding evaluate
  strict_evaluate mode d h allow = elim (Bool-cases (is_signed e)) [
    | inl signed ↦ inr (strict_signer _ refl signed mode d (rw signed at h) allow)
    | inr unsigned ↦ inl (unsigned, ground arith)
  ]

  -- In strict mode, an event that is delivered either is unsigned and of a type that needs no
  -- signature, or is signed by a DID that is not denied and is on the allowlist if there is one,
  -- resolves to a key that accepts its signature, and, where the policy asks for a chain and the
  -- event is complete, links to the head of its branch.
  pub strict_delivers :
      (e' : Event)
      → policy.strict ≡ true
      → (on_event p repr resolve policy heads e).0 ≡ delivered e'
      → ((is_signed e ≡ false) × (requires_signature policy e.type ≡ false)) ⊎ IsTrusted
  unfolding on_event
  strict_delivers e' mode h = elim (Option-cases (evaluate p repr resolve policy heads e)) [
    | inl none' ↦ cc (rw none' at h)
    | inr (d, made) ↦ strict_evaluate mode d made (allowed_if_delivered d e' (rw made at h))
  ]
