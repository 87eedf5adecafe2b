-- ===== src/Agents/Demultiplexed.antt =====
-- Which events of the merged stream of `ParallelAgent` (orxhestra/agents/parallel_agent.py) come from which sub-agent.
use mathlib.Core.List.{append_assoc, append-nil}
use orxhestra.Prelude.{
  ℕ, zero, suc, Bool, true, false, Option, none, some, List, [], ◌∷◌, ◌++◌, ◌≡◌, refl, sym, ap, ◌∙◌,
  arith, ltb, length, keep, keep-append, ◌⊎◌, inl, inr, Bool-cases, Text,
}
use orxhestra.Events.{Event}
use orxhestra.Agents.{Scope}
use orxhestra.Agents.Parallel.{
  SubAgent, Child, running, ended, crashed, Merging, Move, child_turn, loop_turn, put_by, advance,
  put_at, advance_at, forward, take_next, step, run_moves, start, tasks_of, parallel_astream,
}
use orxhestra.Agents.Merged.{
  unfinished, ends_in, Counted, parallel_astream_keeps, take_next-children,
}

unfoldable pub yields : Child → List Event
yields (running es error) = es
yields ended = []
yields crashed = []

unfoldable pub events_in : List (Option Event) → List Event
events_in [] = []
events_in (none ∷ q) = events_in q
events_in (some e ∷ q) = e ∷ events_in q

-- Whether no event follows the last end on the queue.
unfoldable pub closed_from : Bool → List (Option Event) → Bool
closed_from b [] = b
closed_from b (none ∷ q) = closed_from true q
closed_from b (some e ∷ q) = closed_from false q

closed_from-append :
    (b : Bool) (q r : List (Option Event))
    → closed_from b (q ++ r) ≡ closed_from (closed_from b q) r
unfolding closed_from
closed_from-append b [] r = refl
closed_from-append b (none ∷ q) r = closed_from-append true q r
closed_from-append b (some e ∷ q) r = closed_from-append false q r

closed_from-true :
    (q : List (Option Event)) → closed_from false q ≡ true → closed_from true q ≡ true
unfolding closed_from
closed_from-true [] h = refl
closed_from-true (none ∷ q) h = h
closed_from-true (some e ∷ q) h = h

closed_from-false : (q : List (Option Event)) → ends_in q ≡ 0 → closed_from false q ≡ false
unfolding closed_from ends_in
closed_from-false [] h = refl
closed_from-false (none ∷ q) h = ground (arith, h)
closed_from-false (some e ∷ q) h = closed_from-false q h

closed_empty :
    (q : List (Option Event)) → ends_in q ≡ 0 → closed_from true q ≡ true → events_in q ≡ []
unfolding closed_from ends_in events_in
closed_empty [] h k = refl
closed_empty (none ∷ q) h k = ground (arith, h)
closed_empty (some e ∷ q) h k = let f = closed_from-false q h in cc

put_at-closed :
    (b : Bool) (i : ℕ) (cs : List Child)
    → unfinished (advance_at i cs) ≡ 0
    → (unfinished cs ≡ 0 → b ≡ true)
    → closed_from b (put_at i cs) ≡ true
unfolding closed_from put_at advance_at put_by advance unfinished
put_at-closed b i [] h k = k refl
put_at-closed b zero (running (e ∷ es) error ∷ cs) h k = ground (arith, h)
put_at-closed b zero (running [] none ∷ cs) h k = refl
put_at-closed b zero (running [] (some error) ∷ cs) h k = ground (arith, h)
put_at-closed b zero (ended ∷ cs) h k = k h
put_at-closed b zero (crashed ∷ cs) h k = ground (arith, h)
put_at-closed b (suc i) (running es error ∷ cs) h k = ground (arith, h)
put_at-closed b (suc i) (ended ∷ cs) h k = put_at-closed b i cs h k
put_at-closed b (suc i) (crashed ∷ cs) h k = ground (arith, h)

-- Once all have ended, nothing is put behind the last end.
Settled : Merging → Type 0
Settled m = unfinished m.children ≡ 0 → closed_from true m.merged ≡ true

take_next-Settled :
    (q : List (Option Event)) (m : Merging) → m.merged ≡ q → Settled m → Settled (take_next q m)
unfolding Settled take_next closed_from
take_next-Settled [] m e h = h
take_next-Settled (none ∷ q) m e h = λ k. sym (ap (closed_from true) e) ∙ h k
take_next-Settled (some x ∷ q) m e h = λ k. closed_from-true q (sym (ap (closed_from true) e) ∙ h k)

step-Settled : (move : Move) (m : Merging) → Settled m → Settled (step move m)
unfolding Settled step forward
step-Settled (child_turn i) m h = λ k.
    closed_from-append true m.merged (put_at i m.children)
    ∙ put_at-closed (closed_from true m.merged) i m.children k h
step-Settled loop_turn m h = elim (Bool-cases (ltb m.done_count (length m.children))) [
  | inl more ↦ rw more (take_next-Settled m.merged m refl h)
  | inr over ↦ rw over h
]

run_moves-Settled : (moves : List Move) (m : Merging) → Settled m → Settled (run_moves moves m)
unfolding run_moves
run_moves-Settled [] m h = h
run_moves-Settled (move ∷ moves) m h = run_moves-Settled moves (step move m) (step-Settled move m h)

append_empty : {A : Type 0} (xs ys : List A) → xs ++ ys ≡ [] → (xs ≡ []) × (ys ≡ [])
append_empty [] ys h = (refl, h)
append_empty (x ∷ xs) ys h = cc

module _ (p : Event → Bool) where
  -- What the children have still to yield of one kind.
  unfoldable pub left : List Child → List Event
  unfolding yields
  left [] = []
  left (c ∷ cs) = keep p (yields c) ++ left cs

  -- At most one child yields events of the kind.
  unfoldable pub IsAlone : List Child → Type 0
  unfolding yields left
  IsAlone [] = Unit {0}
  IsAlone (c ∷ cs) = ((keep p (yields c) ≡ []) × IsAlone cs) ⊎ (left cs ≡ [])

  put_by-yields :
      (c : Child) → keep p (events_in (put_by c)) ++ keep p (yields (advance c)) ≡ keep p (yields c)
  unfolding put_by yields advance events_in
  put_by-yields (running (e ∷ es) error) = elim (Bool-cases (p e)) [
    | inl shown ↦ rw shown refl
    | inr hidden ↦ rw hidden refl
  ]
  put_by-yields (running [] none) = refl
  put_by-yields (running [] (some error)) = refl
  put_by-yields ended = refl
  put_by-yields crashed = refl

  put_at-none :
      (i : ℕ) (cs : List Child)
      → left cs ≡ []
      → (keep p (events_in (put_at i cs)) ≡ []) × (left (advance_at i cs) ≡ [])
  unfolding put_at advance_at left events_in
  put_at-none i [] h = (refl, refl)
  put_at-none zero (c ∷ cs) h =
      let a = append_empty (keep p (yields c)) (left cs) h in
      let b = append_empty _ (keep p (yields (advance c))) (put_by-yields c ∙ a.0) in
      (b.0, rw (b.1) a.1)
  put_at-none (suc i) (c ∷ cs) h =
      let a = append_empty (keep p (yields c)) (left cs) h in
      let r = put_at-none i cs a.1 in (r.0, rw (a.0) r.1)

  advance-IsAlone : (c : Child) (cs : List Child) → IsAlone (c ∷ cs) → IsAlone (advance c ∷ cs)
  unfolding IsAlone
  advance-IsAlone c cs (inl (e, h)) =
      inl ((append_empty _ (keep p (yields (advance c))) (put_by-yields c ∙ e)).1, h)
  advance-IsAlone c cs (inr e) = inr e

  put_at-left :
      (i : ℕ) (cs : List Child)
      → IsAlone cs
      → (keep p (events_in (put_at i cs)) ++ left (advance_at i cs) ≡ left cs)
        × IsAlone (advance_at i cs)
  unfolding put_at advance_at left events_in IsAlone
  put_at-left i [] h = (refl, tt)
  put_at-left zero (c ∷ cs) h = (
    sym (append_assoc _ (keep p (yields (advance c))) (left cs))
        ∙ ap (λ l. l ++ left cs) (put_by-yields c),
    advance-IsAlone c cs h,
  )
  put_at-left (suc i) (c ∷ cs) (inl (e, h)) = let r = put_at-left i cs h in (rw e r.0, inl (e, r.1))
  put_at-left (suc i) (c ∷ cs) (inr e) =
      let r = put_at-none i cs e in (rw (r.0, r.1, e) refl, inr r.1)

  -- The events of the kind that were yielded, are on the queue, or are still to come.
  unfoldable pub all_events : Merging → List Event
  all_events m = keep p m.stream ++ (keep p (events_in m.merged) ++ left m.children)

  events_in-append : (q r : List (Option Event)) → events_in (q ++ r) ≡ events_in q ++ events_in r
  unfolding events_in
  events_in-append [] r = refl
  events_in-append (none ∷ q) r = events_in-append q r
  events_in-append (some e ∷ q) r = ap (λ l. e ∷ l) (events_in-append q r)

  forward-all_events :
      (i : ℕ) (m : Merging) → IsAlone m.children → all_events (forward i m) ≡ all_events m
  unfolding forward all_events
  forward-all_events i m h =
      let q = keep p (events_in m.merged) in
      let new = keep p (events_in (put_at i m.children)) in
      let e : keep p (events_in (m.merged ++ put_at i m.children)) ≡ q ++ new =
        ap (keep p) (events_in-append m.merged (put_at i m.children))
        ∙ keep-append p (events_in m.merged) (events_in (put_at i m.children)) in
      ap (λ l. keep p m.stream ++ l)
        (ap (λ l. l ++ left (advance_at i m.children)) e
          ∙ append_assoc q new (left (advance_at i m.children))
          ∙ ap (λ l. q ++ l) (put_at-left i m.children h).0)

  take_next-all_events :
      (q : List (Option Event)) (m : Merging)
      → m.merged ≡ q
      → all_events (take_next q m) ≡ all_events m
  unfolding take_next all_events events_in
  take_next-all_events [] m e = refl
  take_next-all_events (none ∷ q) m e =
      ap (λ l. keep p m.stream ++ (keep p l ++ left m.children)) (sym (ap events_in e))
  take_next-all_events (some x ∷ q) m e =
      ap (λ l. l ++ (keep p (events_in q) ++ left m.children)) (keep-append p m.stream (x ∷ []))
      ∙ append_assoc (keep p m.stream) (keep p (x ∷ [])) (keep p (events_in q) ++ left m.children)
      ∙ ap (λ l. keep p m.stream ++ l)
          (sym (append_assoc (keep p (x ∷ [])) (keep p (events_in q)) (left m.children))
            ∙ ap (λ l. l ++ left m.children) (sym (keep-append p (x ∷ []) (events_in q))))
      ∙ ap (λ l. keep p m.stream ++ (keep p l ++ left m.children)) (sym (ap events_in e))

  step-all_events :
      (move : Move) (m : Merging)
      → IsAlone m.children
      → (all_events (step move m) ≡ all_events m) × IsAlone (step move m).children
  unfolding step forward
  step-all_events (child_turn i) m h = (forward-all_events i m h, (put_at-left i m.children h).1)
  step-all_events loop_turn m h = elim (Bool-cases (ltb m.done_count (length m.children))) [
    | inl more ↦ rw (more, take_next-children m.merged m) (take_next-all_events m.merged m refl, h)
    | inr over ↦ rw over (refl, h)
  ]

  run_moves-all_events :
      (moves : List Move) (m : Merging)
      → IsAlone m.children
      → all_events (run_moves moves m) ≡ all_events m
  unfolding run_moves
  run_moves-all_events [] m h = refl
  run_moves-all_events (move ∷ moves) m h =
      let s = step-all_events move m h in run_moves-all_events moves (step move m) s.1 ∙ s.0

  left_ended : (cs : List Child) → unfinished cs ≡ 0 → left cs ≡ []
  unfolding unfinished left yields
  left_ended [] h = refl
  left_ended (running es error ∷ cs) h = ground (arith, h)
  left_ended (ended ∷ cs) h = left_ended cs h
  left_ended (crashed ∷ cs) h = ground (arith, h)

  -- When the stream has ended, the events of a kind that at most one of the sub-agents yields are in it completely and
  -- in their order, however the sub-agents took turns.
  pub parallel_astream_demultiplexed :
      (input : Text) (ctx : Scope) (sub_agents : List SubAgent) (moves : List Move)
      → IsAlone (tasks_of input ctx sub_agents)
      → let m = parallel_astream sub_agents input ctx moves in
        m.done_count ≡ length m.children → keep p m.stream ≡ left (tasks_of input ctx sub_agents)
  unfolding parallel_astream start all_events Counted Settled events_in closed_from
  parallel_astream_demultiplexed input ctx sub_agents moves alone over =
      let k = (parallel_astream_keeps input ctx sub_agents moves).0 in
      let tasks = tasks_of input ctx sub_agents in
      let m = parallel_astream sub_agents input ctx moves in
      let none_left : unfinished m.children ≡ 0 = omega (arith, k, over) in
      let none_ends : ends_in m.merged ≡ 0 = omega (arith, k, over) in
      let closed = run_moves-Settled moves (start tasks) (λ h. refl) none_left in
      let e = run_moves-all_events moves (start tasks) alone in
      let a = closed_empty m.merged none_ends closed in
      let b = left_ended m.children none_left in
      sym (append-nil (keep p m.stream))
      ∙ ap (λ l. keep p m.stream ++ l) (sym (ap (λ l. keep p l ++ left m.children) a ∙ b))
      ∙ e
