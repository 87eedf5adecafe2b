-- ===== src/Audit.antt =====
-- The audit log of orxhestra/trust/attestation/local.py: `append_audit`, `_read_last_hash` and `verify_audit_log`. The log
-- file is the list of its lines, empty where the file does not exist. `json.dumps` and `json.loads` of a line
-- and the decoding of a did:key are parameters, where none is a `JSONDecodeError` or a `ValueError`; a line is what
-- `json.dumps` makes of an object.
pub mod Replay
pub mod Tests
use orxhestra.Prelude.{
  Bool, true, false, not, Option, none, some, List, [], ◌∷◌, ◌++◌, Text, codes, ◌==ₜ◌, Dict, lookup,
  insert, remove, nonempty, any, if◌then◌else◌, ℕ,
}
use orxhestra.Values.{Value, text, num, object}
use orxhestra.Events.{Event, type_value}
use orxhestra.Crypto.{Primitives, canonicalize_json, sign_json_payload, verify_json_signature}
use orxhestra.Signing.{signable_payload, or_blank}

module _ (p : Primitives) where
  open p use {PrivateKey, PublicKey, sha256}

  -- The libraries that read and write a line.
  pub record Lines : Type 1 where
    pub Line : Type 0
    pub print_line : Dict Value → Line
    pub parse_line : Line → Option (Dict Value)
    pub is_blank : Line → Bool
    pub public_key_of : Text → Option PublicKey

  -- `LocalAttestationProvider`, as far as the audit log needs it.
  pub record Provider : Type 0 where
    pub signing_key : PrivateKey
    pub issuer_did : Text

  unfoldable pub signed_payload : Provider → Text → Event → Dict Value
  signed_payload self prev_hash e =
      (codes "prev_hash", text prev_hash)
      ∷ (codes "event_id", text e.id)
      ∷ (codes "event_type", text (type_value e.type))
      ∷ (codes "agent_name", text (or_blank e.agent_name))
      ∷ (codes "branch", text e.branch)
      ∷ (codes "timestamp", num e.timestamp)
      ∷ (codes "signer_did", text e.signer_did)
      ∷ (codes "event_fingerprint", signable_payload p e)
      ∷ (codes "issuer_did", text self.issuer_did)
      ∷ []

  unfoldable pub entry_hash : Dict Value → Text → Text
  entry_hash payload signature =
      sha256 (canonicalize_json p (object (insert (codes "signature") (text signature) payload)))

  unfoldable pub entry_of : Provider → Dict Value → Dict Value
  entry_of self payload =
      let signature = sign_json_payload p self.signing_key (object payload) in
      insert (codes "hash") (text (entry_hash payload signature))
        (insert (codes "signature") (text signature) payload)

  abbrev pub text_or : Text → Option Value → Text
  text_or last (some (text t)) = if nonempty t then t else last
  text_or last _ = last

  module _ (l : Lines) where
    abbrev pub hash_in : Text → Option (Dict Value) → Text
    hash_in last none = last
    hash_in last (some entry) = text_or last (lookup (codes "hash") entry)

    -- `_read_last_hash`, from a hash on.
    unfoldable pub last_hash : Text → List l.Line → Text
    last_hash last [] = last
    last_hash last (line ∷ lines) =
        last_hash (if l.is_blank line then last else hash_in last (l.parse_line line)) lines

    unfoldable pub append_audit : Provider → Event → List l.Line → List l.Line
    append_audit self e log =
        log ++ l.print_line (entry_of self (signed_payload self (last_hash [] log) e)) ∷ []

    -- `entry.get(k, "")` of an entry whose values are texts there, and none where it is not.
    abbrev pub text_at : Option Value → Option Text
    text_at none = some []
    text_at (some (text t)) = some t
    text_at (some _) = none

    -- `a != b`, for a value that the entry has under a key.
    abbrev pub differs : Option Text → Text → Bool
    differs none t = true
    differs (some s) t = not (s ==ₜ t)

    abbrev pub without_proof : Dict Value → Dict Value
    without_proof entry = remove (codes "hash") (remove (codes "signature") entry)

    -- Whether the signature and the hash of an entry hold; none where Python raises.
    abbrev pub check_hash : Dict Value → Text → Option Text → Option Bool → Option Bool
    check_hash entry signature claimed none = none
    check_hash entry signature claimed (some false) = some false
    check_hash entry signature claimed (some true) =
        some (not (differs claimed (entry_hash (without_proof entry) signature)))

    abbrev pub check_proof : Dict Value → Option Text → Option Text → Option PublicKey → Option Bool
    check_proof entry none claimed (some key) = none
    check_proof entry signature claimed none = some false
    check_proof entry (some signature) claimed (some key) =
        check_hash entry signature claimed
          (verify_json_signature p key (object (without_proof entry)) signature)

    abbrev pub check_issuer : Dict Value → Option Text → Option Bool
    check_issuer entry none = none
    check_issuer entry (some did) =
        check_proof entry (text_at (lookup (codes "signature") entry))
          (text_at (lookup (codes "hash") entry)) (l.public_key_of did)

    abbrev pub check_entry : Text → Dict Value → Option Bool
    check_entry prev entry =
        if differs (text_at (lookup (codes "prev_hash") entry)) prev
        then some false
        else check_issuer entry (text_at (lookup (codes "issuer_did") entry))

    abbrev pub go_on : Option Bool → Option Bool → Option Bool
    go_on (some true) rest = rest
    go_on (some false) rest = some false
    go_on none rest = none

    abbrev pub claimed_hash : Dict Value → Text
    claimed_hash entry = text_or [] (lookup (codes "hash") entry)

    abbrev pub check_line : Text → Option (Dict Value) → (Text → Option Bool) → Option Bool
    check_line prev none rest = some false
    check_line prev (some entry) rest = go_on (check_entry prev entry) (rest (claimed_hash entry))

    -- The loop of `verify_audit_log`, from a hash on.
    unfoldable pub verify_from : Text → List l.Line → Option Bool
    verify_from prev [] = some true
    verify_from prev (line ∷ lines) =
        let blank = verify_from prev lines in
        if l.is_blank line
        then blank
        else check_line prev (l.parse_line line) (λ hash. verify_from hash lines)

    unfoldable pub verify_audit_log : List l.Line → Option Bool
    verify_audit_log log = verify_from [] log
