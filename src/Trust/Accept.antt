-- ===== src/Trust/Accept.antt =====
-- From `BaseAgent._emit_event` to `TrustMiddleware.on_event`: honest events pass.
use orxhestra.Prelude.{
  ◌≡◌, refl, ap, true, Option, none, some, List, [], ◌∷◌, map, arith, Text, eq_refl, Dict, lookup,
  nonempty,
}
use orxhestra.Events.{Event, is_signed}
use orxhestra.Crypto.{Primitives, Genuine, verify_json_signature, verify-sign, sign_json_payload}
use orxhestra.Signing.{signable_payload, emit_signed, or_blank}
use orxhestra.Trust.{
  TrustPolicy, pass_verified, same_link, Resolved, key, check_signer, evaluate, on_event, conclude,
  check_chain, annotated,
}
use orxhestra.Trust.Chain.{delivered_by}

same_link_refl : (o : Option Text) → same_link o o ≡ true
same_link_refl none = refl
same_link_refl (some s) = eq_refl s

module _ (p : Primitives) (repr : Option Text → Text) (resolve : Text → Resolved p)
    (policy : TrustPolicy) (private' : p.PrivateKey) (public : p.PublicKey) (did : Text) where
  -- The events that one identity emits, in order, with the chain heads passed along.
  pub emit_all : Dict Text → List Event → List Event
  emit_all heads [] = []
  emit_all heads (e ∷ es) =
      (emit_signed p private' did e heads).0 ∷ emit_all (emit_signed p private' did e heads).1 es

  abbrev emitted : Dict Text → Event → Event
  emitted heads e = (emit_signed p private' did e heads).0

  module _ (genuine : Genuine p private' public) (named : nonempty did ≡ true)
      (welcome : check_signer policy did ≡ none) (resolved : resolve did ≡ key public) where
    emitted_valid :
        (heads : Dict Text) (e : Event)
        → verify_json_signature p public
            (signable_payload p (emitted heads e))
            (or_blank (emitted heads e).signature)
          ≡ some true
    unfolding signable_payload
    emitted_valid heads e = verify-sign p genuine _

    chain_holds :
        (heads : Dict Text) (e : Event)
        → check_chain p repr resolve policy heads (emitted heads e) ≡ pass_verified
    chain_holds heads e = ground (arith, same_link_refl (lookup e.branch heads))

    evaluate-emitted :
        (heads : Dict Text) (e : Event)
        → evaluate p repr resolve policy heads (emitted heads e) ≡ some pass_verified
    unfolding evaluate is_signed
    evaluate-emitted heads e =
        rw (named, welcome, resolved, emitted_valid heads e, chain_holds heads e)

    emitted_heads :
        (heads : Dict Text) (e : Event)
        → (conclude p repr resolve policy (emitted heads e) heads (some pass_verified)).1
          ≡ (emit_signed p private' did e heads).1
    unfolding sign_json_payload
    emitted_heads heads e = rw (genuine.signed)

    -- What an identity signs and emits, the middleware delivers: if the signer is acceptable to the
    -- policy and its DID resolves to the public key of the signing key, then every emitted event,
    -- in its order, is delivered with the note that it was verified, in both modes and with or
    -- without `require_chain`, when both sides start from the same chain heads.
    pub delivered_by-emit_all :
        (heads : Dict Text) (es : List Event)
        → delivered_by p repr resolve policy heads (emit_all heads es)
          ≡ map (λ e. annotated p repr resolve policy e pass_verified) (emit_all heads es)
    unfolding delivered_by emit_all on_event
    delivered_by-emit_all heads [] = refl
    delivered_by-emit_all heads (e ∷ es) = rw (evaluate-emitted heads e) (
        rw (emitted_heads heads e) (
          ap (λ l. annotated p repr resolve policy (emitted heads e) pass_verified ∷ l)
            (delivered_by-emit_all (emit_signed p private' did e heads).1 es)))
