-- ===== src/A2a/Verified.antt =====
-- Signed A2A messages verify: orxhestra/a2a/signing.py.
use orxhestra.Prelude.{
  ℕ, true, Option, some, ◌≡◌, refl, Text, ◌==ₜ◌, Dict, lookup, insert, lookup-insert, nonempty,
}
use orxhestra.Values.{Value, num, text}
use orxhestra.Crypto.{Primitives, Genuine, verify-sign, sign_json_payload}
use orxhestra.A2a.{Message}
use orxhestra.A2a.Messages.{
  signature_key, signer_did_key, timestamp_key, entries_of, truthy_value, extract_time, float_of,
  all_three, extract_signature, message_signable_payload, sign_message, check_resolved,
  check_extracted, verify_message,
}

signed_metadata :
    (s d t : Value) (e : Dict Value)
    → let signed = insert timestamp_key t (insert signer_did_key d (insert signature_key s e)) in
      (lookup signature_key signed ≡ some s)
      × (lookup signer_did_key signed ≡ some d)
      × (lookup timestamp_key signed ≡ some t)
unfolding ◌==ₜ◌
signed_metadata s d t e = (simp lookup-insert, simp lookup-insert, simp lookup-insert)

module _ (p : Primitives) (read_float : Text → Option ℕ) where
  open p use {PrivateKey, PublicKey}

  module _ (resolve : Text → Option PublicKey) where
    extract_signature-sign_message :
        (m : Message) (key : PrivateKey) (public : PublicKey) (did : Text) (ts : ℕ)
        → Genuine p key public
        → nonempty did ≡ true
        → extract_signature p read_float resolve (sign_message p m key did ts)
          ≡ some
              (text (sign_json_payload p key (message_signable_payload p m did ts)), text did, ts)
    unfolding extract_signature sign_message entries_of truthy_value extract_time float_of all_three
        sign_json_payload
    extract_signature-sign_message m key public did ts g full =
        let found =
          signed_metadata (text (sign_json_payload p key (message_signable_payload p m did ts)))
            (text did) (num ts) (entries_of m.metadata) in
        rw (found.0, found.1, found.2, g.signed, full) refl

    -- The signature is not part of the payload.
    payload-sign_message :
        (m : Message) (key : PrivateKey) (did : Text) (ts : ℕ)
        → message_signable_payload p (sign_message p m key did ts) did ts
          ≡ message_signable_payload p m did ts
    unfolding sign_message message_signable_payload
    payload-sign_message m key did ts = refl

    -- A message that was signed with a key verifies, when the resolver finds the public key of that key under the
    -- signer's DID, which is not empty.
    pub verify_message-sign_message :
        (m : Message) (key : PrivateKey) (public : PublicKey) (did : Text) (ts : ℕ)
        → Genuine p key public
        → nonempty did ≡ true
        → resolve did ≡ some public
        → verify_message p read_float resolve (sign_message p m key did ts) ≡ some true
    unfolding verify_message check_extracted check_resolved
    verify_message-sign_message m key public did ts g full found =
        rw
          (
            extract_signature-sign_message m key public did ts g full,
            found,
            payload-sign_message m key did ts,
          )
          (verify-sign p g (message_signable_payload p m did ts))
