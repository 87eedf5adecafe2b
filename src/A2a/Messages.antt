-- ===== src/A2a/Messages.antt =====
-- orxhestra/a2a/signing.py: detached signatures of A2A messages, over the canonical JSON of orxhestra/security/crypto.py.
-- A time stamp is a natural number. The resolver answers none where it raises one of the errors that are
-- caught; `read_float` is Python's `float` of a text.
use orxhestra.Prelude.{
  ℕ, Bool, true, false, Option, none, some, List, [], ◌∷◌, ◌++◌, Text, codes, Dict, lookup, insert,
  if◌then◌else◌,
}
use orxhestra.Values.{Value, Items, bool, num, text, arr, nil, cons, object, is_truthy}
use orxhestra.Crypto.{Primitives, canonicalize_json, sign_json_payload, verify_json_signature}
use orxhestra.Signing.{or_blank}
use orxhestra.A2a.{Part, Message, role_value}

abbrev pub signature_key : Text
signature_key = codes "orxSignature"

abbrev pub signer_did_key : Text
signer_did_key = codes "orxSignerDid"

abbrev pub timestamp_key : Text
timestamp_key = codes "orxSignedAt"

-- An entry of `model_dump(exclude_none=True)`.
unfoldable pub entry : Text → Option Value → Dict Value
entry k none = []
entry k (some v) = (k, v) ∷ []

unfoldable pub text_value : Option Text → Option Value
text_value none = none
text_value (some t) = some (text t)

unfoldable pub dict_value : Option (Dict Value) → Option Value
dict_value none = none
dict_value (some d) = some (object d)

unfoldable pub dump_part : Part → Value
unfolding entry text_value dict_value
dump_part p = object (
    entry (codes "text") (text_value p.text)
    ++ (entry (codes "raw") (text_value p.raw)
        ++ (entry (codes "url") (text_value p.url)
            ++ (entry (codes "data") p.content
                ++ (entry (codes "mediaType") (text_value p.media_type)
                    ++ (entry (codes "filename") (text_value p.filename)
                        ++ entry (codes "metadata") (dict_value p.metadata)))))))

unfoldable pub dump_parts : List Part → Items
unfolding dump_part
dump_parts [] = nil
dump_parts (p ∷ ps) = cons (dump_part p) (dump_parts ps)

unfoldable pub text_items : List Text → Items
text_items [] = nil
text_items (t ∷ ts) = cons (text t) (text_items ts)

-- `xs or []`
unfoldable pub or_nothing : Option (List Text) → List Text
or_nothing none = []
or_nothing (some ts) = ts

unfoldable pub entries_of : Option (Dict Value) → Dict Value
entries_of none = []
entries_of (some d) = d

-- Whether the code finds a truthy value under a key.
unfoldable pub truthy_value : Option Value → Option Value
truthy_value none = none
truthy_value (some v) = if is_truthy v then some v else none

module _ (p : Primitives) where
  open p use {PrivateKey, PublicKey, sha256}

  unfoldable pub message_signable_payload : Message → Text → ℕ → Value
  unfolding dump_parts text_items or_nothing role_value
  message_signable_payload m signer_did timestamp = object (
      (codes "message_id", text m.message_id)
      ∷ (codes "role", text (role_value m.role))
      ∷ (codes "parts_hash", text (sha256 (canonicalize_json p (arr (dump_parts m.parts)))))
      ∷ (codes "context_id", text (or_blank m.context_id))
      ∷ (codes "task_id", text (or_blank m.task_id))
      ∷ (codes "reference_task_ids", arr (text_items (or_nothing m.reference_task_ids)))
      ∷ (codes "extensions", arr (text_items (or_nothing m.extensions)))
      ∷ (codes "signer_did", text signer_did)
      ∷ (codes "timestamp", num timestamp)
      ∷ [])

  unfoldable pub sign_message : Message → PrivateKey → Text → ℕ → Message
  unfolding message_signable_payload entries_of
  sign_message m signing_key signer_did ts =
      let signature = sign_json_payload p signing_key (message_signable_payload m signer_did ts) in
      record m {
        metadata = some (
            insert timestamp_key (num ts) (
              insert signer_did_key (text signer_did)
                (insert signature_key (text signature) (entries_of m.metadata))));
      }

  module _ (read_float : Text → Option ℕ) (resolve : Text → Option PublicKey) where
    -- `float(timestamp)`, none where it raises.
    unfoldable pub float_of : Value → Option ℕ
    float_of (num n) = some n
    float_of (bool true) = some 1
    float_of (bool false) = some 0
    float_of (text t) = read_float t
    float_of _ = none

    unfoldable pub extract_time : Option Value → Option ℕ
    unfolding float_of
    extract_time none = none
    extract_time (some v) = float_of v

    unfoldable pub all_three : Option Value → Option Value → Option ℕ → Option (Value × Value × ℕ)
    all_three (some s) (some d) (some t) = some (s, d, t)
    all_three _ _ _ = none

    unfoldable pub extract_signature : Message → Option (Value × Value × ℕ)
    unfolding entries_of truthy_value extract_time all_three
    extract_signature m =
        let metadata = entries_of m.metadata in
        all_three (truthy_value (lookup signature_key metadata))
          (truthy_value (lookup signer_did_key metadata))
          (extract_time (lookup timestamp_key metadata))

    unfoldable pub check_resolved : Message → Value → Text → ℕ → Option PublicKey → Option Bool
    unfolding message_signable_payload
    check_resolved m signature did ts none = some false
    check_resolved m (text signature) did ts (some key) =
        verify_json_signature p key (message_signable_payload m did ts) signature
    check_resolved m _ did ts (some key) = none

    unfoldable pub check_extracted : Message → Option (Value × Value × ℕ) → Option Bool
    unfolding check_resolved
    check_extracted m none = some false
    check_extracted m (some (signature, text did, ts)) =
        check_resolved m signature did ts (resolve did)
    check_extracted m (some (signature, _, ts)) = none

    -- `none` where it raises: the signature or the DID is no text, or the signature is not base64.
    unfoldable pub verify_message : Message → Option Bool
    unfolding extract_signature check_extracted
    verify_message m = check_extracted m (extract_signature m)
