-- ===== src/Trust/Chain.antt =====
-- The hash chain over a whole run: what strict mode with `require_chain` delivers.
use orxhestra.Prelude.{
  ◌≡◌, ◌≢◌, refl, sym, ap, subst, ◌⊎◌, inl, inr, Bool, true, false, not, ◌&&◌, Option, none, some,
  List, [], ◌∷◌, arith, Text, ◌==ₜ◌, eq_iff, Dict, lookup, lookup-insert, nonempty, if◌then◌else◌,
  Bool-cases, Option-cases,
}
use orxhestra.Values.{Value}
use orxhestra.Events.{Event, is_signed}
use orxhestra.Crypto.{Primitives, verify_json_signature}
use orxhestra.Signing.{signable_payload, or_blank}
use orxhestra.Trust.{
  TrustPolicy, PolicyDecision, pass_verified, pass_unverified, same_link, Resolved, key, failed,
  Outcome, delivered, dropped, raised, check_signer, evaluate, on_event, conclude, check_key,
  check_signature, advance,
}
use orxhestra.Trust.Delivered.{IsTrusted, strict_evaluate}

module _ (p : Primitives) (repr : Option Text → Text) (resolve : Text → Resolved p)
    (policy : TrustPolicy) where
  abbrev deliver : Outcome p → List Event → List Event
  deliver (delivered e) rest = e ∷ rest
  deliver dropped rest = rest
  deliver raised rest = []

  -- The events that a run of the middleware passes on, of those that an agent emits.
  unfoldable pub delivered_by : Dict Text → List Event → List Event
  delivered_by heads [] = []
  delivered_by heads (e ∷ es) =
      deliver (on_event p repr resolve policy heads e).0
        (delivered_by (on_event p repr resolve policy heads e).1 es)

  -- The three kinds of decision in strict mode.
  abbrev Kinds : Event → PolicyDecision → Type 0
  Kinds e d =
      ((d ≡ pass_verified) × (is_signed e ≡ true))
      ⊎ ((d ≡ pass_unverified) × (is_signed e ≡ false))
      ⊎ ((d.allow ≡ false) × (d.verified ≡ false))

  module _ (heads : Dict Text) (e : Event) (mode : policy.strict ≡ true) where
    signature-Kinds :
        (o : Option Bool) (d : PolicyDecision)
        → is_signed e ≡ true
        → check_signature p repr resolve policy heads e o ≡ some d
        → Kinds e d
    signature-Kinds none d signed h = cc
    signature-Kinds (some false) d signed h = ground arith
    signature-Kinds (some true) d signed h = ground arith

    key-Kinds :
        (r : Resolved p) (d : PolicyDecision)
        → is_signed e ≡ true
        → check_key p repr resolve policy heads e r ≡ some d
        → Kinds e d
    key-Kinds (failed why) d signed h = ground arith
    key-Kinds (key k) d signed h = signature-Kinds _ d signed h

    evaluate-Kinds :
        (d : PolicyDecision) → evaluate p repr resolve policy heads e ≡ some d → Kinds e d
    unfolding evaluate check_signer
    evaluate-Kinds d h = ground (arith, key-Kinds (resolve e.signer_did) d)

-- On branch `b` an event counts for the chain if it is signed and complete.
abbrev pub counts : Text → Event → Bool
counts b e = e.branch ==ₜ b && (is_signed e && not e.partial)

abbrev pub LinksTo : Bool → Option Text → Option Text → Type 0
LinksTo true q prev = q ≡ prev
LinksTo false q prev = Unit

-- Each event of the branch names the signature of the one before it, the first one `prev`.
abbrev pub IsLinked : Text → Option Text → List Event → Type 0
IsLinked b prev [] = Unit
IsLinked b prev (e ∷ es) =
    LinksTo (counts b e) e.prev_signature prev
    × IsLinked b (if counts b e then e.signature else prev) es

linked_head :
    (same : Bool) (e : Event) (b : Text) {chain : Bool}
    → chain ≡ true
    → counts b e ≡ true
    → (chain && (not e.partial && not same)) ≡ false
    → same ≡ true
linked_head same e b c on chained = ground arith

same_link_sound : (o q : Option Text) → same_link o q ≡ true → q ≡ o
same_link_sound none none h = refl
same_link_sound none (some t) h = cc
same_link_sound (some s) none h = cc
same_link_sound (some s) (some t) h = ground (arith, eq_iff s t)

module _ (p : Primitives) (repr : Option Text → Text) (resolve : Text → Resolved p)
    (policy : TrustPolicy) where
  abbrev step : Dict Text → Event → Outcome p × Dict Text
  step = on_event p repr resolve policy

  lookup-advance :
      (heads : Dict Text) (e : Event) (b : Text)
      → is_signed e ≡ true
      → nonempty (or_blank e.signature) ≡ true
      → lookup b (advance p repr resolve policy e pass_verified heads)
        ≡ (if counts b e then e.signature else lookup b heads)
  unfolding is_signed
  lookup-advance heads e b signed full =
      ground (arith, lookup-insert e.branch b (or_blank e.signature) heads, eq_iff e.branch b)

  head_link :
      (heads : Dict Text) (e : Event) (b : Text)
      → policy.require_chain ≡ true
      → (policy.require_chain
          && (not e.partial && not (same_link (lookup e.branch heads) e.prev_signature)))
        ≡ false
      → LinksTo (counts b e) e.prev_signature (lookup b heads)
  head_link heads e b chain chained = elim (Bool-cases (counts b e)) [
    | inr off ↦ rw off tt
    | inl on ↦ rw on (
        same_link_sound (lookup b heads) e.prev_signature (
          rw ((eq_iff e.branch b).0 (ground arith)) at (
            linked_head (same_link (lookup e.branch heads) e.prev_signature) e b chain on chained)))
  ]

  module _ (heads : Dict Text) (e : Event) (b : Text) (rest : List Event) where
    abbrev After : PolicyDecision → Type 0
    After d = IsLinked b (lookup b (conclude p repr resolve policy e heads (some d)).1) rest

    abbrev Now : PolicyDecision → Type 0
    Now d =
        IsLinked b (lookup b heads)
          (deliver p repr resolve policy (conclude p repr resolve policy e heads (some d)).0 rest)

    verified_linked :
        is_signed e ≡ true
        → nonempty (or_blank e.signature) ≡ true
        → LinksTo (counts b e) e.prev_signature (lookup b heads)
        → After pass_verified
        → Now pass_verified
    unfolding is_signed
    verified_linked signed full link h = (link, rw (lookup-advance heads e b signed full) at h)

    unsigned_linked : is_signed e ≡ false → After pass_unverified → Now pass_unverified
    unsigned_linked unsigned h = let off : counts b e ≡ false = ground arith in rw (off) (tt, h)

    dropped_linked : (d : PolicyDecision) → d.allow ≡ false → d.verified ≡ false → After d → Now d
    dropped_linked d shut plain h = rw shut (simp plain at h)

    step_linked :
        (d : PolicyDecision)
        → Kinds p repr resolve policy e d
        → (d.allow ≡ true
            → is_signed e ≡ true
            → (nonempty (or_blank e.signature) ≡ true)
              × LinksTo (counts b e) e.prev_signature (lookup b heads))
        → After d
        → Now d
    step_linked d (inl (same, signed)) good h =
        let (full, link) = good (ap (λ (x : PolicyDecision). x.allow) same) signed in
        subst Now (sym same) (verified_linked signed full link (subst After same h))
    step_linked d (inr (inl (same, unsigned))) good h =
        subst Now (sym same) (unsigned_linked unsigned (subst After same h))
    step_linked d (inr (inr (shut, plain))) good h = dropped_linked d shut plain h

  full_signature :
      (o : Option Text) (k : p.PublicKey) (payload : Value)
      → verify_json_signature p k payload [] ≢ some true
      → verify_json_signature p k payload (or_blank o) ≡ some true
      → nonempty (or_blank o) ≡ true
  full_signature none k payload blank valid = absurd (blank valid)
  full_signature (some []) k payload blank valid = absurd (blank valid)
  full_signature (some (c ∷ s)) k payload blank valid = refl

  trusted_good :
      (heads : Dict Text) (e : Event) (b : Text)
      → policy.require_chain ≡ true
      → ((k : p.PublicKey) (payload : Value) → verify_json_signature p k payload [] ≢ some true)
      → IsTrusted p repr resolve policy heads e
      → (nonempty (or_blank e.signature) ≡ true)
        × LinksTo (counts b e) e.prev_signature (lookup b heads)
  trusted_good heads e b chain blank t = (
    full_signature e.signature t.public (signable_payload p e)
        (blank t.public (signable_payload p e)) t.valid,
    head_link heads e b chain t.chained,
  )

  trusted_if_signed :
      (heads : Dict Text) (e : Event) (b : Text)
      → policy.strict ≡ true
      → policy.require_chain ≡ true
      → ((k : p.PublicKey) (payload : Value) → verify_json_signature p k payload [] ≢ some true)
      → (d : PolicyDecision) → evaluate p repr resolve policy heads e ≡ some d
      → d.allow ≡ true
      → is_signed e ≡ true
      → (nonempty (or_blank e.signature) ≡ true)
        × LinksTo (counts b e) e.prev_signature (lookup b heads)
  trusted_if_signed heads e b mode chain blank d made allow signed =
      elim (strict_evaluate p repr resolve policy heads e mode d made allow) [
        | inl (unsigned, _) ↦ cc
        | inr t ↦ trusted_good heads e b chain blank t
      ]

  -- In strict mode with `require_chain`, and if no key accepts the empty signature, the signed
  -- complete events that the middleware passes on form an unbroken chain on every branch: each
  -- names the signature of the one before it, and the first the head that the run started with.
  pub delivered_by-IsLinked :
      policy.strict ≡ true
      → policy.require_chain ≡ true
      → ((k : p.PublicKey) (payload : Value) → verify_json_signature p k payload [] ≢ some true)
      → (b : Text) (heads : Dict Text) (es : List Event)
      → IsLinked b (lookup b heads) (delivered_by p repr resolve policy heads es)
  unfolding delivered_by on_event
  delivered_by-IsLinked mode chain blank b heads [] = tt
  delivered_by-IsLinked mode chain blank b heads (e ∷ es) =
      let later = λ (h : Dict Text). delivered_by-IsLinked mode chain blank b h es in
      elim (Option-cases (evaluate p repr resolve policy heads e)) [
        | inl none' ↦ rw none' tt
        | inr (d, made) ↦ rw made (
            step_linked heads e b _ d (evaluate-Kinds p repr resolve policy heads e mode d made)
              (λ allow signed. trusted_if_signed heads e b mode chain blank d made allow signed)
              (later (conclude p repr resolve policy e heads (some d)).1))
      ]
