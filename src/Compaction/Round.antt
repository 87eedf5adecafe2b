-- ===== src/Compaction/Round.antt =====
-- One round of `compact_session`: what it appends, what it hides, and what the next round starts with.
use mathlib.Core.List.{append_assoc}
use native.Mathlib.Nat.{le_trans}
use orxhestra.Prelude.{
  mem_text, ℕ, ◌≤◌, ◌<◌, ◌≡◌, refl, sym, ap, ◌∙◌, subst, Bool, true, false, ◌||◌, Option, none,
  some, List, [], ◌∷◌, ◌++◌, arith, Text, Dict, leb, ltb, length, keep, any, all, All, All-left,
  any-append, if◌then◌else◌, Bool-cases, leb-false, Option-cases, inl, inr, ◌⊎◌, nonempty,
}
use orxhestra.Values.{Value}
use orxhestra.Events.{Event}
use orxhestra.Events.Filters.{range_of, compactions, in_range}
use orxhestra.Sessions.{Heap, events_at}
use orxhestra.Sessions.Sharing.{append_event_lem}
use orxhestra.Compaction.{
  Config, all_call_ids, all_response_ids, candidates, first_timestamp, last_timestamp, total_chars,
  split_by_retention_chars, events_to_text, summary_of, event_for, compact_old, compaction_event,
  compact_session, append_if,
}
use orxhestra.Compaction.Split.{split_by_retention_chars_lem}
use orxhestra.Compaction.Boundary.{IsSorted, candidates-append}

module _ (str_args : Dict Value → Text) (is_space : ℕ → Bool) (fresh : Text) (now : ℕ)
    (config : Config) where
  abbrev old_of : List Event → List Event
  old_of events = (split_by_retention_chars str_args (candidates events) config.retention_chars).0

  -- What a compaction event says of the log that it was made for.
  pub record Describes (sid : Text) (events : List Event) (ev : Event) : Type 0 where
    pub summary : Text
    pub recorded :
        ev.actions.compaction
        ≡ some (record {
          start_timestamp = first_timestamp (old_of events);
          end_timestamp = last_timestamp (old_of events);
          summary = summary;
          event_count = length (old_of events);
        })
    pub whole : ev.partial ≡ false
    pub stateless : ev.actions.state_delta ≡ []
    pub some_old : nonempty (old_of events) ≡ true
    pub over : config.char_threshold < total_chars str_args (candidates events)
    pub answered :
        all (λ id. mem_text id (all_response_ids events)) (all_call_ids (old_of events)) ≡ true

  compact_old-eq-some :
      (sid : Text) (events old : List Event) (ev : Event)
      → compact_old str_args is_space fresh now sid config events old ≡ some ev
      → (summary : Text) × (ev ≡ event_for str_args is_space fresh now sid old summary)
        × (nonempty old ≡ true)
        × (all (λ id. mem_text id (all_response_ids events)) (all_call_ids old) ≡ true)
  compact_old-eq-some sid events [] ev h = cc
  compact_old-eq-some sid events (o ∷ old) ev h =
      elim (Bool-cases
        (all (λ id. mem_text id (all_response_ids events)) (all_call_ids (o ∷ old)))) [
          | inr pending ↦ cc (rw pending at h)
          | inl answered ↦
              elim (Option-cases
                (summary_of str_args is_space config (events_to_text str_args (o ∷ old)))) [
                  | inl blank ↦ cc (rw (answered, blank) at h)
                  | inr (summary, made) ↦ (summary, cc (rw (answered, made) at h), refl, answered)
                ]
        ]

  -- A compaction event is made only for a log whose candidates exceed the threshold. Its old part then has
  -- an event, every tool call of the old part is answered somewhere in the log, and the event is
  -- complete, changes no state, and records the time range and the number of the old events.
  pub compaction_event-Describes :
      (sid : Text) (events : List Event) (ev : Event)
      → compaction_event str_args is_space fresh now sid config events ≡ some ev
      → Describes sid events ev
  unfolding compaction_event
  compaction_event-Describes sid events ev h =
      elim (Bool-cases (leb (total_chars str_args (candidates events)) config.char_threshold)) [
        | inl under ↦ cc (rw under at h)
        | inr over ↦
            let (summary, made, some_old, answered) =
              compact_old-eq-some sid events (old_of events) ev (rw over at h) in
            record {
              summary = summary;
              recorded = ap (λ (e : Event). e.actions.compaction) made;
              whole = ap (λ (e : Event). e.partial) made;
              stateless = ap (λ (e : Event). e.actions.state_delta) made;
              some_old = some_old;
              over = leb-false _ _ over;
              answered = answered;
            }
      ]

  append_if_lem :
      (address : ℕ) (h : Heap) (o : Option Event)
      → ((ev : Event) → o ≡ some ev → ev.partial ≡ false)
      → (append_if str_args is_space now address h o ≡ (h, false))
        ⊎ ((ev : Event) × (o ≡ some ev)
            × ((append_if str_args is_space now address h o).1 ≡ true)
            × (events_at (append_if str_args is_space now address h o).0 address
                ≡ events_at h address ++ ev ∷ []))
  append_if_lem address h none whole = inl refl
  append_if_lem address h (some ev) whole = inr (
    ev,
    refl,
    refl,
    (append_event_lem now address ev h).0
        ∙ ap (λ b. if b then events_at h address else events_at h address ++ ev ∷ [])
            (whole ev refl),
  )

  -- `compact_session` by whether there is a compaction event for the log.
  pub compact_session_cases :
      (address : ℕ) (h : Heap)
      → (compact_session str_args is_space fresh now address config h ≡ (h, false))
        ⊎ ((ev : Event) × (compaction_event str_args is_space fresh now
                (h.session address).id
                config
                (events_at h address)
              ≡ some ev)
            × ((compact_session str_args is_space fresh now address config h).1 ≡ true)
            × (events_at (compact_session str_args is_space fresh now address config h).0 address
                ≡ events_at h address ++ ev ∷ []))
  unfolding compact_session
  compact_session_cases address h =
      append_if_lem address h
        (compaction_event str_args is_space fresh now (h.session address).id config
          (events_at h address))
        (λ ev made.
          (compaction_event-Describes (h.session address).id (events_at h address) ev made).whole)

IsSorted-left : (xs ys : List Event) → IsSorted (xs ++ ys) → IsSorted xs
IsSorted-left [] ys s = tt
IsSorted-left (x ∷ xs) ys s =
    (All-left (λ f. x.timestamp ≤ f.timestamp) xs ys s.0, IsSorted-left xs ys s.1)

le_last : (xs : List Event) → IsSorted xs → All (λ e. e.timestamp ≤ last_timestamp xs) xs
le_last [] s = tt
le_last (x ∷ []) s = (omega arith, tt)
le_last (x ∷ y ∷ ys) s =
    let rest = le_last (y ∷ ys) s.1 in
    let now : x.timestamp ≤ last_timestamp (y ∷ ys) = le_trans s.0.0 rest.0 in (now, rest)

first_le : (xs : List Event) → IsSorted xs → All (λ e. first_timestamp xs ≤ e.timestamp) xs
first_le [] s = tt
first_le (x ∷ xs) s = (omega arith, s.0)

All-zip {ℓ κ μ ν} :
    {A : Type ℓ} (P : A → Type κ) (Q : A → Type μ) (R : A → Type ν) (xs : List A)
    → ((x : A) → P x → Q x → R x)
    → All P xs
    → All Q xs
    → All R xs
All-zip P Q R [] f h k = tt
All-zip P Q R (x ∷ xs) f h k = (f x h.0 k.0, All-zip P Q R xs f h.1 k.1)

in_range_last :
    (r : Bool) (t a b : ℕ)
    → a ≤ t
    → t ≤ b
    → (r || (in_range t (record { start = a; end = b }) || false)) ≡ true
in_range_last r t a b lo hi = ground arith

not_younger : (b t : ℕ) → t ≤ b → ltb b t ≡ false
not_younger b t h = ground arith

keep_none {ℓ} :
    {A : Type ℓ} (p : A → Bool) (xs ys : List A)
    → All (λ x. p x ≡ false) xs
    → keep p (xs ++ ys) ≡ keep p ys
keep_none p [] ys h = refl
keep_none p (x ∷ xs) ys h = rw h.0 (keep_none p xs ys h.1)

compactions-append :
    (es fs : List Event) → compactions (es ++ fs) ≡ compactions es ++ compactions fs
unfolding compactions
compactions-append [] fs = refl
compactions-append (e ∷ es) fs =
    ap (λ l. range_of e.actions.compaction ++ l) (compactions-append es fs)
    ∙ sym (append_assoc (range_of e.actions.compaction) (compactions es) (compactions fs))

module _ (str_args : Dict Value → Text) (is_space : ℕ → Bool) (fresh : Text) (now : ℕ)
    (config : Config) (sid : Text) (events : List Event) (ev : Event) where
  abbrev old : List Event
  old = (split_by_retention_chars str_args (candidates events) config.retention_chars).0

  abbrev recent : List Event
  recent = (split_by_retention_chars str_args (candidates events) config.retention_chars).1

  split-eq : old ++ recent ≡ candidates events
  split-eq = (split_by_retention_chars_lem str_args (candidates events) config.retention_chars).0

  -- When a compaction event is made for a log whose candidates are in the order of time, then, with
  -- it appended, every event of the old part is in a range that hides it from the model, and
  -- the candidates of the next round are the recent events that are younger than the whole old part.
  pub compaction_event_round :
      IsSorted (candidates events)
      → compaction_event str_args is_space fresh now sid config events ≡ some ev
      → All (λ e. any (in_range e.timestamp) (compactions (events ++ ev ∷ [])) ≡ true) old
        × (candidates (events ++ ev ∷ []) ≡ keep (λ f. ltb (last_timestamp old) f.timestamp) recent)
  compaction_event_round sorted made =
      let d = compaction_event-Describes str_args is_space fresh now config sid events ev made in
      let s : IsSorted (old ++ recent) = subst IsSorted (sym split-eq) sorted in
      let first = first_le old (IsSorted-left old recent s) in
      let last = le_last old (IsSorted-left old recent s) in
      (
        All-zip (λ e. first_timestamp old ≤ e.timestamp) (λ e. e.timestamp ≤ last_timestamp old) _
            old
            (λ e lo hi. rw (compactions-append events (ev ∷ [])) (
              rw (any-append (in_range e.timestamp) (compactions events))
                (unfold compactions in rw d.recorded (in_range_last _ e.timestamp _ _ lo hi))))
            first last,
        candidates-append events ev _ d.recorded
            ∙ ap (keep (λ f. ltb (last_timestamp old) f.timestamp)) (sym split-eq)
            ∙ keep_none _ old recent (
                All-zip (λ e. e.timestamp ≤ last_timestamp old)
                  (λ e. e.timestamp ≤ last_timestamp old) _ old (λ e hi _. not_younger _ _ hi) last
                  last),
      )
