-- ===== src/Compaction/Boundary.antt =====
-- What a compaction event does to the next round and to the model's view of the log.
use mathlib.Core.List.{append-nil}
use orxhestra.Prelude.{
  ℕ, ◌≤◌, ◌≡◌, refl, sym, ap, ◌∙◌, Bool, true, false, ◌&&◌, Option, none, some, List, [], ◌∷◌, ◌++◌,
  arith, ltb, keep, any, All, keep-append, any-append, Bool-cases, inl, inr,
}
use orxhestra.Events.{Event, EventCompaction}
use orxhestra.Events.Filters.{range_of, compactions, in_range}
use orxhestra.Compaction.{
  boundary_from, find_compaction_boundary, candidates, after, is_raw, max_end,
}

-- The log is in the order of its time stamps.
abbrev pub IsSorted : List Event → Type 0
IsSorted [] = Unit
IsSorted (e ∷ es) = All (λ f. e.timestamp ≤ f.timestamp) es × IsSorted es

boundary_from-append :
    (b : Option ℕ) (es fs : List Event)
    → boundary_from b (es ++ fs) ≡ boundary_from (boundary_from b es) fs
unfolding boundary_from
boundary_from-append b [] fs = refl
boundary_from-append b (e ∷ es) fs = boundary_from-append (max_end b e.actions.compaction) es fs

keep-keep {ℓ} :
    {A : Type ℓ} (p q : A → Bool) (xs : List A) → keep p (keep q xs) ≡ keep (λ x. q x && p x) xs
keep-keep p q [] = refl
keep-keep p q (x ∷ xs) = ground (arith, keep-keep p q xs)

keep_one {ℓ} : {A : Type ℓ} (p : A → Bool) (x : A) → p x ≡ false → keep p (x ∷ []) ≡ []
keep_one p x h = rw h

keep_eq {ℓ} :
    {A : Type ℓ} (p q : A → Bool) (xs : List A) → ((x : A) → p x ≡ q x) → keep p xs ≡ keep q xs
keep_eq p q [] h = refl
keep_eq p q (x ∷ xs) h = ground (arith, h x, keep_eq p q xs h)

boundary-append :
    (events : List Event) (e : Event)
    → find_compaction_boundary (events ++ e ∷ [])
      ≡ max_end (find_compaction_boundary events) e.actions.compaction
unfolding find_compaction_boundary boundary_from
boundary-append events e = boundary_from-append none events (e ∷ [])

after-max_end :
    (b : Option ℕ) (o : Option EventCompaction) (c : EventCompaction) (t : ℕ)
    → o ≡ some c
    → after (max_end b o) t ≡ (after b t && ltb c.end_timestamp t)
after-max_end none o c t h = ground arith
after-max_end (some b) o c t h = ground arith

-- After an event with a compaction is appended, the candidates of the next round are the candidates
-- from before that are younger than the end of its range.
pub candidates-append :
    (events : List Event) (e : Event) (c : EventCompaction)
    → e.actions.compaction ≡ some c
    → candidates (events ++ e ∷ [])
      ≡ keep (λ f. ltb c.end_timestamp f.timestamp) (candidates events)
unfolding candidates
candidates-append events e c h =
    let next =
      λ (f : Event). after (find_compaction_boundary (events ++ e ∷ [])) f.timestamp && is_raw f in
    let this = λ (f : Event). after (find_compaction_boundary events) f.timestamp && is_raw f in
    let young = λ (f : Event). ltb c.end_timestamp f.timestamp in
    keep-append next events (e ∷ [])
    ∙ ap (λ l. keep next events ++ l) (keep_one next e (ground arith))
    ∙ append-nil (keep next events)
    ∙ keep_eq next (λ f. this f && young f) events
        (λ f. rw (boundary-append events e) (
          ground (
            arith,
            after-max_end (find_compaction_boundary events) e.actions.compaction c f.timestamp,
          )))
    ∙ sym (keep-keep young this events)

max_end-not_hidden :
    (b : Option ℕ) (o : Option EventCompaction) (t : ℕ)
    → after (max_end b o) t ≡ true
    → (after b t ≡ true) × (any (in_range t) (range_of o) ≡ false)
max_end-not_hidden b none t h = (h, refl)
max_end-not_hidden none (some c) t h = ground arith
max_end-not_hidden (some b) (some c) t h = ground arith

pub boundary_from-not_hidden :
    (b : Option ℕ) (events : List Event) (t : ℕ)
    → after (boundary_from b events) t ≡ true
    → (after b t ≡ true) × (any (in_range t) (compactions events) ≡ false)
unfolding boundary_from compactions
boundary_from-not_hidden b [] t h = (h, refl)
boundary_from-not_hidden b (e ∷ events) t h =
    let (p, q) = boundary_from-not_hidden (max_end b e.actions.compaction) events t h in
    let (young, clear) = max_end-not_hidden b e.actions.compaction t p in
    (young, rw (any-append (in_range t) (range_of e.actions.compaction)) (rw (clear, q)))

All-keep {ℓ κ} :
    {A : Type ℓ} (P : A → Type κ) (p : A → Bool) (xs : List A)
    → ((x : A) → p x ≡ true → P x)
    → All P (keep p xs)
All-keep P p [] h = tt
All-keep P p (x ∷ xs) h = elim (Bool-cases (p x)) [
  | inl yes' ↦ rw yes' (h x yes', All-keep P p xs h)
  | inr no' ↦ rw no' (All-keep P p xs h)
]

-- No compaction event of a log hides a candidate of that log from the model.
pub candidates-not_hidden :
    (events : List Event)
    → All (λ e. any (in_range e.timestamp) (compactions events) ≡ false) (candidates events)
unfolding candidates find_compaction_boundary
candidates-not_hidden events =
    All-keep (λ e. any (in_range e.timestamp) (compactions events) ≡ false)
      (λ e. after (boundary_from none events) e.timestamp && is_raw e) events
      (λ e h. (boundary_from-not_hidden none events e.timestamp (ground arith)).1)
