-- ===== src/Compaction/Due.antt =====
-- When `compact_session` (orxhestra/sessions/compaction.py) compacts, and what it leaves behind.
use mathlib.Core.List.{append-nil}
use orxhestra.Prelude.{
  merge, ℕ, ◌<◌, ◌≡◌, refl, ◌∙◌, Bool, true, false, not, none, some, List, [], ◌∷◌, ◌++◌, arith,
  Text, Dict, leb, length, any, all, Bool-cases, leb-false, Option-cases, inl, inr, ◌⊎◌,
}
use orxhestra.Values.{Value}
use orxhestra.Events.{Event, event_text, texts_of, tool_calls}
use orxhestra.Sessions.{Heap, events_at, state_at}
use orxhestra.Sessions.Sharing.{append_event_lem}
use orxhestra.Compaction.{
  Config, candidates, first_timestamp, last_timestamp, total_chars, split_by_retention_chars,
  events_to_text, summarize, event_for, compact_old, compaction_event, compact_session, append_if,
}
use orxhestra.Compaction.Pending.{is_answered, all-all_call_ids}

module _ (str_args : Dict Value → Text) (is_space : ℕ → Bool) (config : Config) where
  abbrev old_of : List Event → List Event
  old_of log = (split_by_retention_chars str_args (candidates log) config.retention_chars).0

  -- The old part of a log can be replaced by this summary.
  pub record IsReady (log old : List Event) (summary : Text) : Type 0 where
    pub some_old : 0 < length old
    pub answered : all (λ e. all (is_answered log) (tool_calls e)) old ≡ true
    pub readable : any (λ c. not (is_space c)) (events_to_text str_args old) ≡ true
    pub summarized :
        summarize str_args is_space config.model (events_to_text str_args old) ≡ some summary

  -- A log is to be compacted, to this summary.
  pub record IsDue (log : List Event) (summary : Text) : Type 0 where
    pub over : config.char_threshold < total_chars str_args (candidates log)
    pub ready : IsReady log (old_of log) summary

  -- The heap `h'` is `h` after the compaction of the session at the address, whose log was `log`.
  pub record IsCompacted (address : ℕ) (log : List Event) (summary : Text) (h h' : Heap)
      : Type 0 where
    pub ev : Event
    pub appended : events_at h' address ≡ log ++ ev ∷ []
    pub recorded :
        ev.actions.compaction
        ≡ some (record {
          start_timestamp = first_timestamp (old_of log);
          end_timestamp = last_timestamp (old_of log);
          summary = summary;
          event_count = length (old_of log);
        })
    pub shown : event_text ev ≡ summary
    pub session : ev.session_id ≡ some (h.session address).id
    pub state : state_at h' address ≡ state_at h address

  module _ (fresh : Text) (now address : ℕ) (h : Heap) where
    abbrev log : List Event
    log = events_at h address

    abbrev done : Heap × Bool
    done = compact_session str_args is_space fresh now address config h

    event-IsCompacted :
        (summary : Text)
        → IsCompacted address log summary h
            (append_if str_args is_space now address h (
              some (
                event_for str_args is_space fresh now
                  (h.session address).id
                  (old_of log)
                  summary))).0
    unfolding texts_of merge
    event-IsCompacted summary =
        let e = event_for str_args is_space fresh now (h.session address).id (old_of log) summary in
        let a = append_event_lem now address e h in
        record {
          ev = e;
          appended = a.0;
          recorded = refl;
          shown = append-nil summary;
          session = refl;
          state = a.1;
        }

    compact_old_cases :
        (old : List Event)
        → ((summary : Text) × IsReady log old summary
            × (compact_old str_args is_space fresh now (h.session address).id config log old
                ≡ some (event_for str_args is_space fresh now (h.session address).id old summary)))
          ⊎ (((summary : Text) → ¬ IsReady log old summary)
              × (compact_old str_args is_space fresh now (h.session address).id config log old
                  ≡ none))
    compact_old_cases [] = inr ((λ summary r. absurd (omega (arith, r.some_old))), refl)
    compact_old_cases (o ∷ old) =
        let pending = all-all_call_ids log (o ∷ old) in
        let text = events_to_text str_args (o ∷ old) in
        elim (Bool-cases (all (λ e. all (is_answered log) (tool_calls e)) (o ∷ old))) [
          | inr open' ↦ inr ((λ summary r. cc (r.answered, open')), rw (pending ∙ open') refl)
          | inl answered ↦ elim (Bool-cases (any (λ c. not (is_space c)) text)) [
            | inr blank ↦
                inr ((λ summary r. cc (r.readable, blank)), rw (pending ∙ answered, blank) refl)
            | inl readable ↦ elim (Option-cases (summarize str_args is_space config.model text)) [
              | inl failed ↦ inr (
                (λ summary r. cc (r.summarized, failed)),
                rw (pending ∙ answered, readable, failed) refl,
              )
              | inr (summary, made) ↦ inl (
                summary,
                record {
                  some_old = omega arith;
                  answered = answered;
                  readable = readable;
                  summarized = made;
                },
                rw (pending ∙ answered, readable, made) refl,
              )
            ]
          ]
        ]

    nothing_appended :
        compaction_event str_args is_space fresh now (h.session address).id config log ≡ none
        → done ≡ (h, false)
    unfolding compact_session
    nothing_appended e = rw e refl

    appended_event :
        (summary : Text)
        → compaction_event str_args is_space fresh now (h.session address).id config log
          ≡ some (event_for str_args is_space fresh now (h.session address).id (old_of log) summary)
        → (done.1 ≡ true) × IsCompacted address log summary h done.0
    unfolding compact_session
    appended_event summary e = rw e (refl, event-IsCompacted summary)

    under_threshold :
        leb (total_chars str_args (candidates log)) config.char_threshold ≡ true
        → compaction_event str_args is_space fresh now (h.session address).id config log ≡ none
    unfolding compaction_event
    under_threshold under = rw under refl

    over_threshold :
        leb (total_chars str_args (candidates log)) config.char_threshold ≡ false
        → compaction_event str_args is_space fresh now (h.session address).id config log
          ≡ compact_old str_args is_space fresh now (h.session address).id config log (old_of log)
    unfolding compaction_event
    over_threshold over = rw over refl

    -- `compact_session` compacts exactly when it is due: the candidates exceed the threshold, the old part is not empty
    -- and has no tool call with an id that no event of the log answers, its text is not blank, and a summary is
    -- made. It then returns True and appends one event, which shows the summary and records the time range and
    -- the number of the old events, and the session's state stays as it is. Otherwise it returns False and
    -- changes nothing.
    pub compact_session_lem :
        ((summary : Text) × IsDue log summary
          × (done.1 ≡ true)
          × IsCompacted address log summary h done.0)
        ⊎ (((summary : Text) → ¬ IsDue log summary) × (done ≡ (h, false)))
    compact_session_lem =
        elim (Bool-cases (leb (total_chars str_args (candidates log)) config.char_threshold)) [
          | inl under ↦ inr (
            (λ summary due. let o = due.over in ground (arith, under, o)),
            nothing_appended (under_threshold under),
          )
          | inr over ↦ elim (compact_old_cases (old_of log)) [
            | inl (summary, ready, made) ↦ inl (
              summary,
              record { over = leb-false _ _ over; ready = ready },
              (appended_event summary (over_threshold over ∙ made)).0,
              (appended_event summary (over_threshold over ∙ made)).1,
            )
            | inr (unready, none') ↦ inr (
              (λ summary due. unready summary due.ready),
              nothing_appended (over_threshold over ∙ none'),
            )
          ]
        ]
