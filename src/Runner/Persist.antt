-- ===== src/Runner/Persist.antt =====
-- The session's log after a whole run of `Runner.astream` (orxhestra/runner.py).
use mathlib.Core.List.{append-nil}
use orxhestra.Prelude.{
  ℕ, Bool, true, false, Option, none, some, List, [], ◌∷◌, ◌++◌, ◌≡◌, refl, arith, Text, keep, ◌⊎◌,
  inl, inr,
}
use orxhestra.Events.{Event}
use orxhestra.Sessions.{Heap, get_or_create_session, events_at}
use orxhestra.Compaction.{Config, compaction_event}
use orxhestra.Compaction.Round.{compact_session_cases}
use orxhestra.Runner.{Entry, Ending, finished, raised, out_of_fuel, Run, Host, Runner}
use orxhestra.Runner.Whole.{
  invoke, compacted, compact_if, astream, before_compaction, after_compaction,
}
use orxhestra.Runner.Log.{recorded, is_complete, Appended-events, invoke-Appended, recorded-append}

quiet_end :
    (xs ys zs : List Entry)
    → recorded ys ≡ []
    → recorded zs ≡ []
    → recorded (xs ++ (ys ++ zs)) ≡ recorded xs
quiet_end xs ys zs h k =
    rw (recorded-append xs (ys ++ zs), recorded-append ys zs, h, k) (append-nil (recorded xs))

module _ {S Request Response Call Answer : Type 0} (host : Host S)
    (runner : Runner S Request Response Call Answer) (address : ℕ) where
  -- A log that is another one, or the other one with its compaction event.
  abbrev pub CompactedTo : List Event → List Event → Type 0
  CompactedTo log log' =
      (log' ≡ log)
      ⊎ ((config : Config) × (runner.compaction_config ≡ some config)
          × (fresh : Text) × (now : ℕ) × (sid : Text) × (ev : Event) × (compaction_event
                host.str_args host.is_space fresh now sid config log
              ≡ some ev)
          × (log' ≡ log ++ ev ∷ []))

  no_status :
      (config : Config) (r : Run S) → recorded (before_compaction host runner address config r) ≡ []
  unfolding before_compaction recorded
  no_status config r = ground arith

  no_status_after :
      (b : Bool) (h : Heap) (w : S) → recorded (after_compaction host runner address b h w) ≡ []
  unfolding after_compaction recorded
  no_status_after true h w = refl
  no_status_after false h w = refl

  compacted-recorded :
      (config : Config) (r : Run S)
      → recorded (compacted host runner address config r).entries ≡ recorded r.entries
  unfolding compacted
  compacted-recorded config r =
      quiet_end r.entries _ _ (no_status config r) (no_status_after _ _ r.world)

  compacted-CompactedTo :
      (config : Config) (r : Run S)
      → runner.compaction_config ≡ some config
      → CompactedTo
          (events_at r.heap address)
          (events_at (compacted host runner address config r).heap address)
  unfolding compacted
  compacted-CompactedTo config r e =
      elim (compact_session_cases host.str_args host.is_space (host.fresh r.heap r.world)
        (host.now r.heap r.world) config address r.heap) [
          | inl same ↦ inl (rw same refl)
          | inr (ev, made, done, log) ↦ inr (
            config,
            e,
            host.fresh r.heap r.world,
            host.now r.heap r.world,
            (r.heap.session address).id,
            ev,
            made,
            log,
          )
        ]

  compact_if-CompactedTo :
      (o : Option Config) (ending : Ending) (r : Run S)
      → runner.compaction_config ≡ o
      → (recorded (compact_if host runner address o ending r).entries ≡ recorded r.entries)
        × CompactedTo
            (events_at r.heap address)
            (events_at (compact_if host runner address o ending r).heap address)
  unfolding compact_if
  compact_if-CompactedTo (some config) finished r e =
      (compacted-recorded config r, compacted-CompactedTo config r e)
  compact_if-CompactedTo (some config) (raised error) r e = (refl, inl refl)
  compact_if-CompactedTo (some config) out_of_fuel r e = (refl, inl refl)
  compact_if-CompactedTo none ending r e = (refl, inl refl)

module _ {S Request Response Call Answer : Type 0} (host : Host S)
    (runner : Runner S Request Response Call Answer) where
  -- After a run, the session's log is the log before it, followed by every complete event of the run in order: the
  -- user's message, the agents' events, whether the middleware let them pass or not, and the markers of the
  -- transfers. Only a compaction event of that very log may follow, where the runner has a compaction configuration.
  pub astream-events :
      (fuel : ℕ) (user_id session_id message : Text) (h : Heap) (w : S)
      → let found =
          get_or_create_session
            (host.fresh h w)
            (host.now h w)
            runner.app_name
            user_id
            session_id
            (some [])
            h in
        let r = astream host runner fuel user_id session_id message h w in
        CompactedTo host runner found.1
          (events_at found.0 found.1 ++ keep is_complete (recorded r.entries))
          (events_at r.heap found.1)
  unfolding astream
  astream-events fuel user_id session_id message h w =
      let found =
        get_or_create_session (host.fresh h w) (host.now h w) runner.app_name user_id session_id
          (some []) h in
      let r = invoke host runner found.1 fuel message found.0 w in
      let after =
        compact_if-CompactedTo host runner found.1 runner.compaction_config r.ending r refl in
      let log =
        Appended-events found.1 found.0 r.heap (recorded r.entries)
          (invoke-Appended host runner found.1 fuel message found.0 w) in
      rw (after.0, ← log) after.1
