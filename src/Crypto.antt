-- ===== src/Crypto.antt =====
-- orxhestra/security/crypto.py: canonical JSON and signatures over it. Ed25519, base64, SHA-256, NFC
-- and `json.dumps` are libraries: the fields of `Primitives`. `Genuine` states what their documents
-- promise of a key pair.
use orxhestra.Prelude.{◌≡◌, Bool, true, Option, none, some, Text, ◌==ₜ◌, nonempty, if◌then◌else◌}
use orxhestra.Values.{Value, Items, Fields, null, bool, num, text, arr, obj, nil, cons, end, field}

pub record Primitives : Type 1 where
  pub PrivateKey : Type 0
  pub PublicKey : Type 0
  -- `unicodedata.normalize("NFC", s)`
  pub nfc : Text → Text
  -- `json.dumps(v, sort_keys=True, …).encode("utf-8")`
  pub dumps : Value → Text
  pub sign : PrivateKey → Text → Text
  -- `public_key.verify(signature, message)`, as whether it returns.
  pub verify : PublicKey → Text → Text → Bool
  pub b64encode : Text → Text
  -- `none` is `binascii.Error`.
  pub b64decode : Text → Option Text
  -- the hex digest
  pub sha256 : Text → Text

-- The item of a dict display: a later entry with the same key keeps the place of the first.
unfoldable pub put_field : Text → Value → Fields → Fields
put_field k v end = field k v end
put_field k v (field j w fs) = if j ==ₜ k then field j v fs else field j w (put_field k v fs)

module _ (p : Primitives) where
  open p use {PrivateKey, PublicKey, nfc, dumps, sign, verify, b64encode, b64decode}

  unfoldable mutual
    pub normalize_for_signing : Value → Value
    normalize_for_signing null = null
    normalize_for_signing (bool b) = bool b
    normalize_for_signing (num n) = num n
    normalize_for_signing (text s) = text (nfc s)
    normalize_for_signing (arr vs) = arr (normalize_items vs)
    normalize_for_signing (obj fs) = obj (normalize_fields end fs)

    pub normalize_items : Items → Items
    normalize_items nil = nil
    normalize_items (cons v vs) = cons (normalize_for_signing v) (normalize_items vs)

    pub normalize_fields : Fields → Fields → Fields
    normalize_fields done end = done
    normalize_fields done (field k v fs) =
        normalize_fields (put_field (nfc k) (normalize_for_signing v) done) fs

  unfoldable pub canonicalize_json : Value → Text
  canonicalize_json payload = dumps (normalize_for_signing payload)

  unfoldable pub sign_json_payload : PrivateKey → Value → Text
  sign_json_payload key payload = b64encode (sign key (canonicalize_json payload))

  abbrev verify_decoded : PublicKey → Text → Option Text → Option Bool
  verify_decoded key message none = none
  verify_decoded key message (some sig) = some (verify key sig message)

  -- `none` where the signature is not base64 and the decoder raises.
  unfoldable pub verify_json_signature : PublicKey → Value → Text → Option Bool
  verify_json_signature key payload signature =
      verify_decoded key (canonicalize_json payload) (b64decode signature)

  -- A private key with its public key: base64 decodes what it encoded, a signature is not the empty
  -- text, and the public key accepts what the private key signed.
  pub record Genuine (key : PrivateKey) (public : PublicKey) : Type 0 where
    pub decodes : (bytes : Text) → b64decode (b64encode bytes) ≡ some bytes
    pub signed : (message : Text) → nonempty (b64encode (sign key message)) ≡ true
    pub accepts : (message : Text) → verify public (sign key message) message ≡ true

  pub verify-sign :
      {key : PrivateKey} {public : PublicKey}
      → Genuine key public
      → (payload : Value)
      → verify_json_signature public payload (sign_json_payload key payload) ≡ some true
  unfolding verify_json_signature sign_json_payload
  verify-sign g payload = rw (g.decodes, g.accepts)
