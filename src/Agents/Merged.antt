-- ===== src/Agents/Merged.antt =====
-- What the merged stream of `ParallelAgent` (orxhestra/agents/parallel_agent.py) holds, and when it ends.
use orxhestra.Prelude.{
  ℕ, zero, suc, ◌+◌, ◌<◌, Bool, true, false, Option, none, some, List, [], ◌∷◌, ◌++◌, ◌≡◌, refl, ap,
  ◌∙◌, arith, ltb, length, any, inl, inr, Bool-cases, Text,
}
use orxhestra.Events.{Event}
use orxhestra.Agents.{Scope}
use orxhestra.Agents.Parallel.{
  SubAgent, Child, running, ended, crashed, Merging, Move, child_turn, loop_turn, put_by, advance,
  put_at, advance_at, forward, take_next, step, run_moves, start, tasks_of, parallel_astream,
}

-- The children that have not put their end on the queue, and never will, if they fail.
unfoldable pub unfinished : List Child → ℕ
unfinished [] = 0
unfinished (ended ∷ cs) = unfinished cs
unfinished (crashed ∷ cs) = suc (unfinished cs)
unfinished (running es error ∷ cs) = suc (unfinished cs)

unfoldable pub ends_in : List (Option Event) → ℕ
ends_in [] = 0
ends_in (none ∷ q) = suc (ends_in q)
ends_in (some e ∷ q) = ends_in q

unfoldable pub fails : Child → Bool
fails (running es (some error)) = true
fails (running es none) = false
fails ended = false
fails crashed = true

ends_in-append : (q r : List (Option Event)) → ends_in (q ++ r) ≡ ends_in q + ends_in r
unfolding ends_in
ends_in-append [] r = omega arith
ends_in-append (none ∷ q) r = omega (arith, ends_in-append q r)
ends_in-append (some e ∷ q) r = ends_in-append q r

length-advance_at : (i : ℕ) (cs : List Child) → length (advance_at i cs) ≡ length cs
unfolding advance_at
length-advance_at i [] = refl
length-advance_at zero (c ∷ cs) = refl
length-advance_at (suc i) (c ∷ cs) = ap suc (length-advance_at i cs)

unfinished-advance_at :
    (i : ℕ) (cs : List Child) → ends_in (put_at i cs) + unfinished (advance_at i cs) ≡ unfinished cs
unfolding put_at advance_at put_by advance ends_in unfinished
unfinished-advance_at i [] = omega arith
unfinished-advance_at zero (running (e ∷ es) error ∷ cs) = omega arith
unfinished-advance_at zero (running [] none ∷ cs) = omega arith
unfinished-advance_at zero (running [] (some error) ∷ cs) = omega arith
unfinished-advance_at zero (ended ∷ cs) = omega arith
unfinished-advance_at zero (crashed ∷ cs) = omega arith
unfinished-advance_at (suc i) (running es error ∷ cs) = omega (arith, unfinished-advance_at i cs)
unfinished-advance_at (suc i) (ended ∷ cs) = unfinished-advance_at i cs
unfinished-advance_at (suc i) (crashed ∷ cs) = omega (arith, unfinished-advance_at i cs)

fails-advance : (c : Child) → fails (advance c) ≡ fails c
unfolding advance fails
fails-advance (running (e ∷ es) none) = refl
fails-advance (running (e ∷ es) (some error)) = refl
fails-advance (running [] none) = refl
fails-advance (running [] (some error)) = refl
fails-advance ended = refl
fails-advance crashed = refl

any-fails-advance_at : (i : ℕ) (cs : List Child) → any fails (advance_at i cs) ≡ any fails cs
unfolding advance_at
any-fails-advance_at i [] = refl
any-fails-advance_at zero (c ∷ cs) = rw (fails-advance c) refl
any-fails-advance_at (suc i) (c ∷ cs) = rw (any-fails-advance_at i cs) refl

failing_unfinished : (cs : List Child) → any fails cs ≡ true → 0 < unfinished cs
unfolding fails unfinished
failing_unfinished [] h = cc
failing_unfinished (running es error ∷ cs) h = omega arith
failing_unfinished (crashed ∷ cs) h = omega arith
failing_unfinished (ended ∷ cs) h = failing_unfinished cs h

-- Every end is counted, on the queue, or still to come.
unfoldable pub Counted : Merging → Type 0
Counted m = m.done_count + ends_in m.merged + unfinished m.children ≡ length m.children

take_next-Counted :
    (q : List (Option Event)) (m : Merging) → m.merged ≡ q → Counted m → Counted (take_next q m)
unfolding Counted take_next ends_in
take_next-Counted [] m e h = h
take_next-Counted (none ∷ q) m e h =
    let e' : ends_in m.merged ≡ suc (ends_in q) = ap ends_in e in omega (arith, h, e')
take_next-Counted (some x ∷ q) m e h =
    let e' : ends_in m.merged ≡ ends_in q = ap ends_in e in omega (arith, h, e')

pub step-Counted : (move : Move) (m : Merging) → Counted m → Counted (step move m)
unfolding Counted step forward
step-Counted (child_turn i) m h =
    let a = ends_in-append m.merged (put_at i m.children) in
    let b = unfinished-advance_at i m.children in
    let c = length-advance_at i m.children in omega (arith, a, b, c, h)
step-Counted loop_turn m h = elim (Bool-cases (ltb m.done_count (length m.children))) [
  | inl more ↦ rw more (take_next-Counted m.merged m refl h)
  | inr over ↦ rw over h
]

pub take_next-children :
    (q : List (Option Event)) (m : Merging) → (take_next q m).children ≡ m.children
unfolding take_next
take_next-children [] m = refl
take_next-children (none ∷ q) m = refl
take_next-children (some e ∷ q) m = refl

-- The number of the children, and whether one of them fails, stay the same.
pub step_keeps :
    (move : Move) (m : Merging)
    → (length (step move m).children ≡ length m.children)
      × (any fails (step move m).children ≡ any fails m.children)
unfolding step forward
step_keeps (child_turn i) m = (length-advance_at i m.children, any-fails-advance_at i m.children)
step_keeps loop_turn m = elim (Bool-cases (ltb m.done_count (length m.children))) [
  | inl more ↦ rw (more, take_next-children m.merged m) (refl, refl)
  | inr over ↦ rw over (refl, refl)
]

pub run_keeps :
    (moves : List Move) (m : Merging)
    → Counted m
    → Counted (run_moves moves m)
      × (length (run_moves moves m).children ≡ length m.children)
      × (any fails (run_moves moves m).children ≡ any fails m.children)
unfolding run_moves
run_keeps [] m h = (h, refl, refl)
run_keeps (move ∷ moves) m h =
    let r = run_keeps moves (step move m) (step-Counted move m h) in
    let k = step_keeps move m in (r.0, r.1 ∙ k.0, r.2 ∙ k.1)

pub unfinished-start :
    (input : Text) (ctx : Scope) (sub_agents : List SubAgent)
    → unfinished (tasks_of input ctx sub_agents) ≡ length (tasks_of input ctx sub_agents)
unfolding tasks_of unfinished
unfinished-start input ctx [] = refl
unfinished-start input ctx (a ∷ as') = ap suc (unfinished-start input ctx as')

start-Counted :
    (input : Text) (ctx : Scope) (sub_agents : List SubAgent)
    → Counted (start (tasks_of input ctx sub_agents))
unfolding Counted start ends_in
start-Counted input ctx sub_agents =
    let e = unfinished-start input ctx sub_agents in omega (arith, e)

-- At any point of any run: every end of a sub-agent is counted, on the queue or to come, and what fails is known.
pub parallel_astream_keeps :
    (input : Text) (ctx : Scope) (sub_agents : List SubAgent) (moves : List Move)
    → let m = parallel_astream sub_agents input ctx moves in
      let tasks = tasks_of input ctx sub_agents in
      Counted m × (length m.children ≡ length tasks) × (any fails m.children ≡ any fails tasks)
unfolding parallel_astream start
parallel_astream_keeps input ctx sub_agents moves =
    run_keeps moves (start (tasks_of input ctx sub_agents)) (start-Counted input ctx sub_agents)

-- When a sub-agent raises, the parallel agent waits for it for ever: at no point of any run have as many sub-agents
-- ended as the loop waits for.
pub parallel_astream_waits :
    (input : Text) (ctx : Scope) (sub_agents : List SubAgent) (moves : List Move)
    → any fails (tasks_of input ctx sub_agents) ≡ true
    → let m = parallel_astream sub_agents input ctx moves in m.done_count < length m.children
unfolding Counted
parallel_astream_waits input ctx sub_agents moves h =
    let k = parallel_astream_keeps input ctx sub_agents moves in
    let m = parallel_astream sub_agents input ctx moves in
    let f = failing_unfinished m.children (k.2 ∙ h) in let c = k.0 in omega (arith, f, c)
