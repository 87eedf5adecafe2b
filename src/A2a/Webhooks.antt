-- ===== src/A2a/Webhooks.antt =====
-- The URLs that `PushNotificationDispatcher` of orxhestra/a2a/notifications.py posts to.
use orxhestra.Prelude.{
  true, false, Option, none, some, List, [], ◌∷◌, ◌≡◌, refl, ap, ◌≢◌, arith, Text, codes, ◌==ₜ◌,
  eq_iff, keep, Bool-cases, inl, inr,
}
use orxhestra.A2a.Notifications.{
  PushNotificationConfig, Configs, Address, Parser, is_local, valid_address, valid_host,
  validate_url, list_configs, scheduled,
}

-- An address outside every range that is refused.
pub record IsOutside (a : Address) : Type 0 where
  pub loopback : a.is_loopback ≡ false
  pub link_local : a.is_link_local ≡ false
  pub private : a.is_private ≡ false
  pub multicast : a.is_multicast ≡ false
  pub reserved : a.is_reserved ≡ false

is_local-IsOutside : (a : Address) → is_local a ≡ false → IsOutside a
unfolding is_local
is_local-IsOutside a h = record {
  loopback = ground (arith, h);
  link_local = ground (arith, h);
  private = ground (arith, h);
  multicast = ground (arith, h);
  reserved = ground (arith, h);
}

IsOutside-is_local : (a : Address) → IsOutside a → is_local a ≡ false
unfolding is_local
IsOutside-is_local a o = rw (o.loopback, o.link_local, o.private, o.multicast, o.reserved) refl

-- The second list is what the first one has of a kind, all of it and in order.
pub data Selects {A : Type 0} (P : A → Type 0) : List A → List A → Type 0 where
  nothing : Selects P [] []
  selected : {x : A} → {xs ys : List A} → P x → Selects P xs ys → Selects P (x ∷ xs) (x ∷ ys)
  skipped : {x : A} → {xs ys : List A} → ¬ P x → Selects P xs ys → Selects P (x ∷ xs) ys

module _ (parser : Parser) where
  -- What a webhook's URL must be: https, with a host that is no name of the local host, and, where it is an address, an
  -- address outside the ranges.
  pub record IsPublic (url : Text) : Type 0 where
    pub https : parser.scheme url ≡ codes "https"
    pub host : Text
    pub hostname : parser.hostname url ≡ some host
    pub named : parser.lower host ≢ codes "localhost"
    pub unnamed : parser.lower host ≢ codes "ip6-localhost"
    pub outside : (a : Address) → parser.ip_address host ≡ some a → IsOutside a

  differ : (s t : Text) → (s ==ₜ t) ≡ false → s ≢ t
  differ s t h e = let k = (eq_iff s t).1 e in cc

  differ_test : (s t : Text) → s ≢ t → (s ==ₜ t) ≡ false
  differ_test s t h = elim (Bool-cases (s ==ₜ t)) [
    | inl same ↦ absurd (h ((eq_iff s t).0 same))
    | inr other ↦ other
  ]

  IsOutside-valid_address :
      (o : Option Address) → ((a : Address) → o ≡ some a → IsOutside a) → valid_address o ≡ true
  unfolding valid_address
  IsOutside-valid_address none h = refl
  IsOutside-valid_address (some a) h = rw (IsOutside-is_local a (h a refl)) refl

  valid_address-IsOutside : (a : Address) → valid_address (some a) ≡ true → IsOutside a
  unfolding valid_address
  valid_address-IsOutside a h = is_local-IsOutside a (ground (arith, h))

  valid_host-IsPublic :
      (url : Text) (o : Option Text)
      → parser.scheme url ≡ codes "https"
      → parser.hostname url ≡ o
      → valid_host parser false o ≡ true
      → IsPublic url
  unfolding valid_host
  valid_host-IsPublic url none https e h = cc
  valid_host-IsPublic url (some host) https e h =
      let valid : valid_address (parser.ip_address host) ≡ true = ground (arith, h) in
      record {
        https = https;
        host = host;
        hostname = e;
        named = differ (parser.lower host) (codes "localhost") (ground (arith, h));
        unnamed = differ (parser.lower host) (codes "ip6-localhost") (ground (arith, h));
        outside = λ a found. valid_address-IsOutside a (rw found at valid);
      }

  validate_url-IsPublic : (url : Text) → validate_url parser false url ≡ true → IsPublic url
  unfolding validate_url
  validate_url-IsPublic url h =
      valid_host-IsPublic url (parser.hostname url)
        ((eq_iff (parser.scheme url) (codes "https")).0 (ground (arith, h))) refl
        (ground (arith, h))

  IsPublic-validate_url : (url : Text) → IsPublic url → validate_url parser false url ≡ true
  unfolding validate_url valid_host
  IsPublic-validate_url url u =
      rw
        (
          (eq_iff (parser.scheme url) (codes "https")).1 u.https,
          u.hostname,
          differ_test (parser.lower u.host) (codes "localhost") u.named,
          differ_test (parser.lower u.host) (codes "ip6-localhost") u.unnamed,
        )
        (IsOutside-valid_address (parser.ip_address u.host) u.outside)

  keep-Selects :
      (cs : List PushNotificationConfig)
      → Selects (λ c. IsPublic c.url) cs (keep (λ c. validate_url parser false c.url) cs)
  keep-Selects [] = nothing
  keep-Selects (c ∷ cs) = elim (Bool-cases (validate_url parser false c.url)) [
    | inl ok ↦ rw ok (selected (validate_url-IsPublic c.url ok) (keep-Selects cs))
    | inr bad ↦
        rw bad (skipped (λ u. let ok = IsPublic-validate_url c.url u in cc) (keep-Selects cs))
  ]

  all-kept : (cs : List PushNotificationConfig) → keep (λ c. validate_url parser true c.url) cs ≡ cs
  unfolding validate_url
  all-kept [] = refl
  all-kept (c ∷ cs) = ap (λ l. c ∷ l) (all-kept cs)

  -- An update is posted to exactly those of the task's configs, in order, whose URL is https and has a host that is
  -- neither localhost nor ip6-localhost nor a loopback, link-local, private, multicast or reserved address; a
  -- host that is no address passes. Where insecure webhooks are allowed, it is posted to all of them.
  pub scheduled-Selects :
      (task_id : Text) (configs : Configs)
      → Selects
          (λ c. IsPublic c.url)
          (list_configs task_id configs)
          (scheduled parser false task_id configs)
        × (scheduled parser true task_id configs ≡ list_configs task_id configs)
  unfolding scheduled
  scheduled-Selects task_id configs =
      (keep-Selects (list_configs task_id configs), all-kept (list_configs task_id configs))
