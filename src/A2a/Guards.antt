-- ===== src/A2a/Guards.antt =====
-- The guards of orxhestra/a2a/server.py on messages: unsigned messages and signed replies.
use orxhestra.Prelude.{ℕ, true, false, Option, some, ◌≡◌, refl, Text, codes, nonempty}
use orxhestra.Crypto.{Primitives, Genuine}
use orxhestra.A2a.{Message}
use orxhestra.A2a.Messages.{verify_message}
use orxhestra.A2a.Verified.{verify_message-sign_message}
use orxhestra.A2a.Server.{A2aTask, State, RequestId, Server, signed_with, maybe_sign, agent_message}
use orxhestra.A2a.Handlers.{
  invalid_request, jsonrpc_error, judge, verify_incoming, send_accepted, stream_accepted,
  handle_send_message, handle_send_streaming_message,
}

module _ (p : Primitives) (server : Server p) where
  -- A server that requires signatures answers INVALID_REQUEST to a message that does not verify, sent or streamed, and
  -- its state stays as it is: no task is made.
  pub unverified_rejected :
      (m : Message) (request_id : RequestId) (s : State)
      → server.require_signed ≡ true
      → server.verify m ≡ some false
      → let rejection =
          jsonrpc_error request_id invalid_request
            (codes "Message signature missing or invalid; server requires signed messages.") in
        (handle_send_message p server m request_id s ≡ (rejection, s))
        × (handle_send_streaming_message p server m request_id s ≡ (rejection, s))
  unfolding handle_send_message handle_send_streaming_message verify_incoming judge send_accepted
      stream_accepted
  unverified_rejected m request_id s strict bad = rw (strict, bad) (refl, refl)

  -- The agent's reply verifies, when the server has a signing key and a DID that is not empty, and the resolver finds the
  -- public key of that key under the DID.
  pub agent_message-verifies :
      (read_float : Text → Option ℕ) (resolve : Text → Option p.PublicKey) (key : p.PrivateKey)
      (public : p.PublicKey) (task : A2aTask) (answer : Text) (s : State)
      → server.signing_key ≡ some key
      → Genuine p key public
      → nonempty server.signer_did ≡ true
      → resolve server.signer_did ≡ some public
      → verify_message p read_float resolve (agent_message p server task answer s) ≡ some true
  unfolding agent_message maybe_sign signed_with
  agent_message-verifies read_float resolve key public task answer s signs g full found =
      rw (signs, full)
        (verify_message-sign_message p read_float resolve _ key public server.signer_did
          (server.time s) g full found)
