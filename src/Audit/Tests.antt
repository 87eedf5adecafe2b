-- ===== src/Audit/Tests.antt =====
-- Runs of the audit log with toy libraries, and its theorems at concrete events.
use orxhestra.Prelude.{
  true, false, none, some, [], ◌∷◌, ◌++◌, ◌≡◌, refl, codes, ◌==ₜ◌, Dict, drop, length,
  if◌then◌else◌,
}
use orxhestra.Values.{Value}
use orxhestra.Audit.{Lines, Provider, verify_audit_log}
use orxhestra.Audit.Replay.{
  IsFaithful, append_all, verify_audit_log-append_all, verify_audit_log-drop,
}
use orxhestra.Trust.Tests.{toy, toy-Genuine}
use orxhestra.Samples.{hello, answer, moved}

abbrev lines : Lines toy
lines = record {
  Line = Dict Value;
  print_line = λ entry. entry;
  parse_line = λ entry. some entry;
  is_blank = λ entry. false;
  public_key_of = λ did. if did ==ₜ codes "alice" then some 7 else none;
}

abbrev provider : Provider toy
provider = record { signing_key = 7; issuer_did = codes "alice" }

lines-IsFaithful : IsFaithful toy lines
lines-IsFaithful = record {
  parse-print = λ entry. refl;
  not_blank = λ entry. refl;
  digest = λ t. refl;
}

alice_known : lines.public_key_of provider.issuer_did ≡ some 7
unfolding ◌==ₜ◌
alice_known = refl

verify_audit_log-append_all_example :
    verify_audit_log toy lines (append_all toy lines provider (hello ∷ answer ∷ moved ∷ []) [])
    ≡ some true
verify_audit_log-append_all_example =
    verify_audit_log-append_all toy lines provider 7 lines-IsFaithful toy-Genuine alice_known
      (hello ∷ answer ∷ moved ∷ [])

verify_audit_log-drop_example :
    verify_audit_log toy lines (
      drop
        (length (hello ∷ []))
        (append_all toy lines provider ((hello ∷ []) ++ answer ∷ moved ∷ []) []))
    ≡ some false
verify_audit_log-drop_example =
    verify_audit_log-drop toy lines provider 7 lines-IsFaithful toy-Genuine alice_known hello []
      answer (moved ∷ [])
