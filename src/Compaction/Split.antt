-- ===== src/Compaction/Split.antt =====
-- Where the log is split: `retention_index`, `adjust_split` and `split_by_retention_chars`.
use mathlib.Core.List.{reverse, append_assoc, reverse-append, reverse-reverse, append-nil}
use native.Mathlib.Nat.{add_comm}
use orxhestra.Prelude.{
  mem_text, ℕ, zero, suc, ◌+◌, ◌-◌, ◌≤◌, ◌<◌, ◌≡◌, refl, ◌∙◌, subst, ◌⊎◌, true, false, List, [],
  ◌∷◌, ◌++◌, arith, Text, Dict, leb, leb→le, leb-false, length, length-append, take, drop, any,
  take-append-drop, Bool-cases, inl, inr,
}
use orxhestra.Values.{Value}
use orxhestra.Events.{Event}
use orxhestra.Compaction.{
  all_call_ids, all_response_ids, is_orphaned, adjust_split, estimate_event_chars, total_chars,
  retention_index, split_index, split_by_retention_chars,
}

any-false {ℓ} : {A : Type ℓ} (xs : List A) → any (λ x. false) xs ≡ false
any-false [] = refl
any-false (x ∷ xs) = any-false xs

adjust_split-zero : (events : List Event) → is_orphaned (take 0 events) (drop 0 events) ≡ false
unfolding is_orphaned all_call_ids mem_text
adjust_split-zero events = any-false (all_response_ids events)

not_last :
    (events : List Event) (n k m : ℕ)
    → ((m : ℕ) → m ≤ n → is_orphaned (take m events) (drop m events) ≡ false → m ≤ k)
    → is_orphaned (take (suc n) events) (drop (suc n) events) ≡ true
    → m ≤ suc n
    → is_orphaned (take m events) (drop m events) ≡ false
    → m ≤ k
not_last events n k m latest bad le h = elim (Bool-cases (leb m n)) [
  | inl p ↦ latest m (leb→le m n p) h
  | inr q ↦ let same : m ≡ suc n = omega (arith, leb-false m n q) in cc
]

-- The split point that the `while` loop ends with leaves no response behind its call, and is the
-- latest such point up to the one that the loop started from.
pub adjust_split_latest :
    (events : List Event) (n : ℕ)
    → (is_orphaned (take (adjust_split events n) events) (drop (adjust_split events n) events)
        ≡ false)
      × (adjust_split events n ≤ n)
      × ((m : ℕ)
          → m ≤ n
          → is_orphaned (take m events) (drop m events) ≡ false
          → m ≤ adjust_split events n)
unfolding adjust_split
adjust_split_latest events zero = (adjust_split-zero events, omega arith, λ m le h. le)
adjust_split_latest events (suc n) =
    let (clean, below, latest) = adjust_split_latest events n in
    elim (Bool-cases (is_orphaned (take (suc n) events) (drop (suc n) events))) [
      | inl bad ↦ rw bad (
        clean,
        omega arith,
        λ m le h. not_last events n (adjust_split events n) m latest bad le h,
      )
      | inr good ↦ rw good (good, omega arith, λ m le h. le)
    ]

suc_pred : (n : ℕ) → suc n - 1 ≡ n
suc_pred n = omega arith

length-reverse {ℓ} : {A : Type ℓ} (xs : List A) → length (reverse xs) ≡ length xs
length-reverse [] = refl
length-reverse (x ∷ xs) =
    rw (reverse-append (x ∷ []) xs)
      (rw (length-append (reverse xs)) (omega (arith, length-reverse xs)))

drop-length {ℓ} : {A : Type ℓ} (xs ys : List A) → drop (length xs) (xs ++ ys) ≡ ys
drop-length [] ys = refl
drop-length (x ∷ xs) ys = drop-length xs ys

reverse_snoc {ℓ} :
    {A : Type ℓ} (x : A) (xs ys : List A) → reverse (x ∷ xs) ++ ys ≡ reverse xs ++ x ∷ ys
reverse_snoc x xs ys = rw (reverse-append (x ∷ []) xs) (append_assoc (reverse xs) (x ∷ []) ys)

drop_to {ℓ} : {A : Type ℓ} (xs ys : List A) → drop (suc (length xs) - 1) (reverse xs ++ ys) ≡ ys
drop_to xs ys = rw (suc_pred (length xs)) (rw (← length-reverse xs) (drop-length (reverse xs) ys))

drop_past {ℓ} :
    {A : Type ℓ} {n : ℕ} (xs : List A) (x : A) (ys : List A)
    → length xs ≡ n
    → drop (suc n) (xs ++ x ∷ ys) ≡ ys
drop_past [] x ys e = rw (← e)
drop_past (z ∷ xs) x ys e = rw (← e) (drop_past xs x ys refl)

module _ (str_args : Dict Value → Text) where
  -- What stands from the point `i` on is short, and with one event more it is not.
  abbrev Cuts : ℕ → List Event → ℕ → Type 0
  Cuts retention events i =
      (0 < i → total_chars str_args (drop i events) < retention)
      × (0 < i → retention ≤ total_chars str_args (drop (i - 1) events))
      × (i ≡ 0 → total_chars str_args events < retention)

  retention_index_from :
      (retention : ℕ) (before after : List Event)
      → total_chars str_args after < retention
      → Cuts retention
          (reverse before ++ after)
          (retention_index str_args retention (total_chars str_args after) before)
  unfolding retention_index total_chars
  retention_index_from retention [] after h = (λ p. omega arith, λ p. omega arith, λ p. h)
  retention_index_from retention (e ∷ before) after h =
      let c = total_chars str_args after + estimate_event_chars str_args e in
      rw (reverse_snoc e before after) (elim (Bool-cases (leb retention c)) [
        | inl full ↦ rw full (
          λ p. rw (drop_past (reverse before) e after (length-reverse before)) h,
          λ p. rw (drop_to before (e ∷ after)) (omega (arith, leb→le retention c full)),
          λ p. absurd (omega arith),
        )
        | inr room ↦ rw room (
            subst
              (λ t.
                Cuts retention (reverse before ++ e ∷ after)
                  (retention_index str_args retention t before))
              (add_comm (estimate_event_chars str_args e) (total_chars str_args after))
              (retention_index_from retention before (e ∷ after)
                (omega (arith, leb-false retention c room))))
      ])

  Cuts-cases :
      (retention : ℕ) (events : List Event) (i : ℕ)
      → Cuts retention events i
      → ((i ≡ 0) × (total_chars str_args events < retention))
        ⊎ ((0 < i)
            × (total_chars str_args (drop i events) < retention)
            × (retention ≤ total_chars str_args (drop (i - 1) events)))
  Cuts-cases retention events zero h = inl (refl, h.2 refl)
  Cuts-cases retention events (suc i) h = inr (omega arith, h.0 (omega arith), h.1 (omega arith))

  retention_index-Cuts :
      (retention : ℕ) (events : List Event)
      → 0 < retention
      → Cuts retention events (retention_index str_args retention 0 (reverse events))
  unfolding total_chars
  retention_index-Cuts retention events h =
      subst (λ l. Cuts retention l (retention_index str_args retention 0 (reverse events)))
        (append-nil (reverse (reverse events)) ∙ reverse-reverse events)
        (retention_index_from retention (reverse events) [] h)

  -- For a positive retention, the backward loop returns 0 only if the whole log holds fewer than
  -- `retention` characters. Otherwise it puts the split point behind the last event from which on the
  -- log holds at least `retention` characters, so what it keeps holds fewer than `retention`.
  pub retention_index_lem :
      (retention : ℕ) (events : List Event)
      → 0 < retention
      → ((retention_index str_args retention 0 (reverse events) ≡ 0)
          × (total_chars str_args events < retention))
        ⊎ ((0 < retention_index str_args retention 0 (reverse events))
            × (total_chars str_args
                  (drop (retention_index str_args retention 0 (reverse events)) events)
                < retention)
            × (retention
                ≤ total_chars str_args
                    (drop (retention_index str_args retention 0 (reverse events) - 1) events)))
  retention_index_lem retention events h =
      Cuts-cases retention events (retention_index str_args retention 0 (reverse events))
        (retention_index-Cuts retention events h)

  -- A split loses nothing and keeps the order, and no response in the recent part answers a call in
  -- the old part.
  pub split_by_retention_chars_lem :
      (events : List Event) (retention : ℕ)
      → ((split_by_retention_chars str_args events retention).0
            ++ (split_by_retention_chars str_args events retention).1
          ≡ events)
        × (is_orphaned
              (split_by_retention_chars str_args events retention).0
              (split_by_retention_chars str_args events retention).1
            ≡ false)
  unfolding split_by_retention_chars
  split_by_retention_chars_lem events retention =
      let (clean, below, latest) =
        adjust_split_latest events (retention_index str_args retention 0 (reverse events)) in
      (take-append-drop (split_index str_args events retention) events, clean)

  -- Any point up to the one that the retention loop chose, at which no response is orphaned, is at
  -- most the point at which the log is split.
  pub split_index_latest :
      (events : List Event) (retention m : ℕ)
      → m ≤ retention_index str_args retention 0 (reverse events)
      → is_orphaned (take m events) (drop m events) ≡ false
      → m ≤ split_index str_args events retention
  unfolding split_index
  split_index_latest events retention m le clean =
      (adjust_split_latest events (retention_index str_args retention 0 (reverse events))).2 m le
        clean
