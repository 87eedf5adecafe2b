-- ===== src/Audit/Replay.antt =====
-- A log that `append_audit` wrote is accepted by `verify_audit_log`: orxhestra/trust/attestation/local.py.
use mathlib.Core.List.{append_assoc, append-nil}
use orxhestra.Prelude.{
  true, false, not, some, List, [], ◌∷◌, ◌++◌, ◌≡◌, refl, sym, ap, ◌∙◌, drop, length, Text, codes,
  ◌==ₜ◌, eq_refl, Dict, lookup, insert, remove, nonempty,
}
use orxhestra.Values.{Value, object}
use orxhestra.Events.{Event}
use orxhestra.Crypto.{Primitives, Genuine, sign_json_payload, verify-sign}
use orxhestra.Audit.{
  Lines, Provider, signed_payload, entry_hash, entry_of, text_or, last_hash, append_audit,
  check_entry, verify_from, verify_audit_log,
}

-- What the log relies on: a printed entry is read back, no printed line is blank, and a digest is not empty.
pub record IsFaithful (p : Primitives) (l : Lines p) : Type 0 where
  pub parse-print : (entry : Dict Value) → l.parse_line (l.print_line entry) ≡ some entry
  pub not_blank : (entry : Dict Value) → l.is_blank (l.print_line entry) ≡ false
  pub digest : (t : Text) → nonempty (p.sha256 t) ≡ true

module _ (p : Primitives) (l : Lines p) (self : Provider p) where
  -- The log after appending the events, in order.
  unfoldable pub append_all : List Event → List l.Line → List l.Line
  append_all [] log = log
  append_all (e ∷ es) log = append_all es (append_audit p l self e log)

  abbrev hash_of : Text → Event → Text
  hash_of prev e =
      entry_hash p (signed_payload p self prev e)
        (sign_json_payload p self.signing_key (object (signed_payload p self prev e)))

  abbrev line_of : Text → Event → l.Line
  line_of prev e = l.print_line (entry_of p self (signed_payload p self prev e))

  module _ (public : p.PublicKey) (faithful : IsFaithful p l)
      (genuine : Genuine p self.signing_key public)
      (known : l.public_key_of self.issuer_did ≡ some public) where
    entry_valid :
        (prev : Text) (e : Event)
        → check_entry p l prev (entry_of p self (signed_payload p self prev e)) ≡ some true
    unfolding signed_payload entry_of lookup insert remove ◌==ₜ◌
    entry_valid prev e =
        rw (eq_refl prev, known, verify-sign p genuine (object (signed_payload p self prev e)))
          (ap (λ b. some (not (not b))) (eq_refl (hash_of prev e)))

    claimed_hash_lem :
        (prev : Text) (e : Event)
        → text_or p [] (lookup (codes "hash") (entry_of p self (signed_payload p self prev e)))
          ≡ hash_of prev e
    unfolding signed_payload entry_of lookup insert ◌==ₜ◌ entry_hash
    claimed_hash_lem prev e = rw (faithful.digest _) refl

    -- The lines that the events add to a log whose last hash is given.
    abbrev added : Text → List Event → List l.Line
    added prev [] = []
    added prev (e ∷ es) = line_of prev e ∷ added (hash_of prev e) es

    abbrev last_of : Text → List Event → Text
    last_of prev [] = prev
    last_of prev (e ∷ es) = last_of (hash_of prev e) es

    verify_from-line :
        (prev : Text) (e : Event) (lines : List l.Line)
        → verify_from p l prev (line_of prev e ∷ lines) ≡ verify_from p l (hash_of prev e) lines
    unfolding verify_from
    verify_from-line prev e lines =
        rw
          (
            faithful.not_blank (entry_of p self (signed_payload p self prev e)),
            faithful.parse-print (entry_of p self (signed_payload p self prev e)),
            entry_valid prev e,
          )
          (ap (λ h. verify_from p l h lines) (claimed_hash_lem prev e))

    verify_from-added :
        (prev : Text) (es : List Event) → verify_from p l prev (added prev es) ≡ some true
    unfolding verify_from
    verify_from-added prev [] = refl
    verify_from-added prev (e ∷ es) =
        verify_from-line prev e (added (hash_of prev e) es) ∙ verify_from-added (hash_of prev e) es

    added-append :
        (prev : Text) (ds es : List Event)
        → added prev (ds ++ es) ≡ added prev ds ++ added (last_of prev ds) es
    added-append prev [] es = refl
    added-append prev (d ∷ ds) es =
        ap (λ lines. line_of prev d ∷ lines) (added-append (hash_of prev d) ds es)

    last_hash-line :
        (prev : Text) (e : Event) (lines : List l.Line)
        → last_hash p l prev (line_of prev e ∷ lines) ≡ last_hash p l (hash_of prev e) lines
    unfolding last_hash signed_payload entry_of lookup insert ◌==ₜ◌ entry_hash
    last_hash-line prev e lines =
        rw
          (
            faithful.not_blank (entry_of p self (signed_payload p self prev e)),
            faithful.parse-print (entry_of p self (signed_payload p self prev e)),
            faithful.digest _,
          )
          refl

    last_hash-added :
        (prev : Text) (es : List Event) → last_hash p l prev (added prev es) ≡ last_of prev es
    unfolding last_hash
    last_hash-added prev [] = refl
    last_hash-added prev (e ∷ es) =
        last_hash-line prev e (added (hash_of prev e) es) ∙ last_hash-added (hash_of prev e) es

    append_audit-added :
        (ds : List Event) (e : Event)
        → append_audit p l self e (added [] ds) ≡ added [] (ds ++ e ∷ [])
    unfolding append_audit
    append_audit-added ds e =
        ap (λ h. added [] ds ++ line_of h e ∷ []) (last_hash-added [] ds)
        ∙ sym (added-append [] ds (e ∷ []))

    append_all-added : (ds es : List Event) → append_all es (added [] ds) ≡ added [] (ds ++ es)
    unfolding append_all
    append_all-added ds [] = ap (added []) (sym (append-nil ds))
    append_all-added ds (e ∷ es) =
        ap (append_all es) (append_audit-added ds e)
        ∙ append_all-added (ds ++ e ∷ []) es
        ∙ ap (added []) (append_assoc ds (e ∷ []) es)

    -- A log that starts empty and to which only `append_audit` writes is accepted by `verify_audit_log`,
    -- whatever events it records.
    pub verify_audit_log-append_all :
        (es : List Event) → verify_audit_log p l (append_all es []) ≡ some true
    unfolding verify_audit_log
    verify_audit_log-append_all es =
        ap (verify_from p l []) (append_all-added [] es) ∙ verify_from-added [] es

    last_of-nonempty :
        (prev : Text) (d : Event) (ds : List Event) → nonempty (last_of prev (d ∷ ds)) ≡ true
    unfolding entry_hash
    last_of-nonempty prev d [] = faithful.digest _
    last_of-nonempty prev d (e ∷ ds) = last_of-nonempty (hash_of prev d) e ds

    verify_from-orphan :
        (prev : Text) (e : Event) (lines : List l.Line)
        → nonempty prev ≡ true
        → verify_from p l [] (line_of prev e ∷ lines) ≡ some false
    unfolding verify_from signed_payload entry_of lookup insert ◌==ₜ◌
    verify_from-orphan [] e lines h = cc
    verify_from-orphan (c ∷ prev) e lines h =
        rw
          (
            faithful.not_blank (entry_of p self (signed_payload p self (c ∷ prev) e)),
            faithful.parse-print (entry_of p self (signed_payload p self (c ∷ prev) e)),
          )
          refl

    drop-added :
        (prev : Text) (ds : List Event) (lines : List l.Line)
        → drop (length ds) (added prev ds ++ lines) ≡ lines
    drop-added prev [] lines = refl
    drop-added prev (d ∷ ds) lines = drop-added (hash_of prev d) ds lines

    -- A log that starts empty, to which only `append_audit` writes and from which the oldest entries were then
    -- removed, at least one of them and not all, is rejected.
    pub verify_audit_log-drop :
        (d : Event) (ds : List Event) (e : Event) (es : List Event)
        → verify_audit_log p l (drop (length (d ∷ ds)) (append_all ((d ∷ ds) ++ e ∷ es) []))
          ≡ some false
    unfolding verify_audit_log
    verify_audit_log-drop d ds e es =
        ap (λ log. verify_from p l [] (drop (length (d ∷ ds)) log))
          (append_all-added [] ((d ∷ ds) ++ e ∷ es) ∙ added-append [] (d ∷ ds) (e ∷ es))
        ∙ ap (verify_from p l []) (drop-added [] (d ∷ ds) (added (last_of [] (d ∷ ds)) (e ∷ es)))
        ∙ verify_from-orphan (last_of [] (d ∷ ds)) e _ (last_of-nonempty [] d ds)
