-- ===== src/Compaction/View.antt =====
-- What `apply_compaction` of orxhestra/events/filters.py shows the model of a log that orxhestra/sessions/compaction.py
-- compacts.
use orxhestra.Prelude.{
  ℕ, ◌≡◌, refl, ap, ◌∙◌, subst, ◌⊎◌, inl, inr, Bool, true, false, ◌&&◌, Option, none, some, List,
  [], ◌∷◌, ◌++◌, arith, Text, keep, any, All, Bool-cases,
}
use orxhestra.Events.{Event, EventCompaction}
use orxhestra.Events.Filters.{
  Range, range_of, compactions, in_range, visible, replace_compacted, unless_empty,
  apply_compaction, summary_event,
}
use orxhestra.Compaction.{candidates, after, is_raw, boundary_from, find_compaction_boundary}
use orxhestra.Compaction.Boundary.{boundary_from-not_hidden}

abbrev pub IsIn : Event → List Event → Type 0
IsIn e [] = ⊥
IsIn e (f ∷ fs) = (e ≡ f) ⊎ IsIn e fs

IsIn-left : (e : Event) (xs ys : List Event) → IsIn e xs → IsIn e (xs ++ ys)
IsIn-left e [] ys h = absurd h
IsIn-left e (x ∷ xs) ys (inl p) = inl p
IsIn-left e (x ∷ xs) ys (inr h) = inr (IsIn-left e xs ys h)

IsIn-right : (e : Event) (xs ys : List Event) → IsIn e ys → IsIn e (xs ++ ys)
IsIn-right e [] ys h = h
IsIn-right e (x ∷ xs) ys h = inr (IsIn-right e xs ys h)

All-keep_in :
    (P : Event → Type 0) (p : Event → Bool) (xs : List Event)
    → ((x : Event) → IsIn x xs → p x ≡ true → P x)
    → All P (keep p xs)
All-keep_in P p [] h = tt
All-keep_in P p (x ∷ xs) h =
    let rest = All-keep_in P p xs (λ y m. h y (inr m)) in
    elim (Bool-cases (p x)) [
      | inl shown ↦ rw shown (h x (inl refl) shown, rest)
      | inr other ↦ rw other rest
    ]

raw_none : (e : Event) → is_raw e ≡ true → e.actions.compaction ≡ none
raw_none e h = grind arith

module _ (str_of : ℕ → Text) (fresh_id : Event → Text) (now : ℕ) where
  visible-IsIn :
      (ranges : List Range) (e : Event) (o : Option EventCompaction)
      → o ≡ none
      → any (in_range e.timestamp) ranges ≡ false
      → IsIn e (visible str_of fresh_id now ranges e o)
  visible-IsIn ranges e none raw clear = rw clear (inl refl)
  visible-IsIn ranges e (some c) raw clear = cc

  replace_compacted-IsIn :
      (ranges : List Range) (es : List Event) (e : Event)
      → IsIn e es
      → e.actions.compaction ≡ none
      → any (in_range e.timestamp) ranges ≡ false
      → IsIn e (replace_compacted str_of fresh_id now ranges es)
  unfolding replace_compacted
  replace_compacted-IsIn ranges [] e h raw clear = h
  replace_compacted-IsIn ranges (f ∷ fs) e (inl p) raw clear =
      subst
        (λ g. IsIn e (
          visible str_of fresh_id now ranges g g.actions.compaction
          ++ replace_compacted str_of fresh_id now ranges fs))
        p
        (IsIn-left e (visible str_of fresh_id now ranges e e.actions.compaction) _
          (visible-IsIn ranges e e.actions.compaction raw clear))
  replace_compacted-IsIn ranges (f ∷ fs) e (inr h) raw clear =
      IsIn-right e (visible str_of fresh_id now ranges f f.actions.compaction) _
        (replace_compacted-IsIn ranges fs e h raw clear)

  unless_empty-IsIn :
      (ranges : List Range) (es : List Event) (e : Event)
      → IsIn e es
      → e.actions.compaction ≡ none
      → any (in_range e.timestamp) ranges ≡ false
      → IsIn e (unless_empty str_of fresh_id now es ranges)
  unless_empty-IsIn [] es e h raw clear = h
  unless_empty-IsIn (r ∷ rs) es e h raw clear = replace_compacted-IsIn (r ∷ rs) es e h raw clear

  -- Every candidate of the next compaction is in the log that the model sees.
  pub candidates-IsIn :
      (events : List Event)
      → All (λ e. IsIn e (apply_compaction str_of fresh_id now events)) (candidates events)
  unfolding candidates find_compaction_boundary apply_compaction
  candidates-IsIn events =
      All-keep_in (λ e. IsIn e (apply_compaction str_of fresh_id now events))
        (λ e. after (boundary_from none events) e.timestamp && is_raw e) events
        (λ e m h.
          unless_empty-IsIn (compactions events) events e m (raw_none e (ground arith))
            (boundary_from-not_hidden none events e.timestamp (ground arith)).1)

  replaced_one :
      (ranges : List Range) (e : Event) (rest : List Event) (o : Option EventCompaction)
      → e.actions.compaction ≡ o
      → compactions (visible str_of fresh_id now ranges e o ++ rest) ≡ compactions rest
  unfolding compactions summary_event
  replaced_one ranges e rest none h = elim (Bool-cases (any (in_range e.timestamp) ranges)) [
    | inl shown ↦ rw shown refl
    | inr other ↦ rw other (ap (λ o. range_of o ++ compactions rest) h)
  ]
  replaced_one ranges e rest (some c) h = refl

  replaced_raw :
      (ranges : List Range) (es : List Event)
      → compactions (replace_compacted str_of fresh_id now ranges es) ≡ []
  unfolding replace_compacted compactions summary_event
  replaced_raw ranges [] = refl
  replaced_raw ranges (e ∷ es) =
      replaced_one ranges e (replace_compacted str_of fresh_id now ranges es) e.actions.compaction
        refl
      ∙ replaced_raw ranges es

  shown_raw :
      (ranges : List Range) (es : List Event)
      → compactions es ≡ ranges
      → compactions (unless_empty str_of fresh_id now es ranges) ≡ []
  shown_raw [] es h = h
  shown_raw (r ∷ rs) es h = replaced_raw (r ∷ rs) es

  -- A log that the model sees is shown as it is when the filter is applied to it again.
  pub apply_compaction_idempotent :
      (events : List Event)
      → apply_compaction str_of fresh_id now (apply_compaction str_of fresh_id now events)
        ≡ apply_compaction str_of fresh_id now events
  unfolding apply_compaction
  apply_compaction_idempotent events =
      ap (unless_empty str_of fresh_id now (apply_compaction str_of fresh_id now events))
        (shown_raw (compactions events) events refl)
