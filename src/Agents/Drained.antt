-- ===== src/Agents/Drained.antt =====
-- That a run of `ParallelAgent` (orxhestra/agents/parallel_agent.py) can always be carried on to its end.
use orxhestra.Prelude.{
  ℕ, zero, suc, ◌+◌, ◌<◌, true, false, Option, none, some, List, [], ◌∷◌, ◌++◌, ◌≡◌, refl, sym, ◌∙◌,
  subst, arith, ltb, length, length-append, any, inl, inr, Bool-cases, Text,
}
use orxhestra.Events.{Event}
use orxhestra.Agents.{Scope}
use orxhestra.Agents.Parallel.{
  SubAgent, Child, running, ended, crashed, Merging, Move, child_turn, loop_turn, put_by, advance,
  put_at, advance_at, forward, take_next, step, run_moves, start, tasks_of, parallel_astream,
}
use orxhestra.Agents.Merged.{
  unfinished, ends_in, fails, Counted, step-Counted, step_keeps, parallel_astream_keeps,
}

-- The turns that the children have still to take.
unfoldable pub turns_left : List Child → ℕ
turns_left [] = 0
turns_left (running es error ∷ cs) = suc (length es) + turns_left cs
turns_left (ended ∷ cs) = turns_left cs
turns_left (crashed ∷ cs) = turns_left cs

size : Merging → ℕ
size m = turns_left m.children + turns_left m.children + length m.merged

some_turn :
    (cs : List Child)
    → 0 < unfinished cs
    → any fails cs ≡ false
    → (i : ℕ) × (length (put_at i cs) + turns_left (advance_at i cs) + turns_left (advance_at i cs)
        < turns_left cs + turns_left cs)
unfolding unfinished fails put_at put_by advance_at advance turns_left
some_turn [] h k = (0, h)
some_turn (running (e ∷ es) none ∷ cs) h k = (0, omega arith)
some_turn (running [] none ∷ cs) h k = (0, omega arith)
some_turn (running es (some error) ∷ cs) h k = cc
some_turn (crashed ∷ cs) h k = cc
some_turn (ended ∷ cs) h k = let r = some_turn cs h k in (suc r.0, r.1)

-- Some moves that bring the stream to its end.
Drains : Merging → Type 0
Drains m = (more : List Move) × ((run_moves more m).done_count ≡ length (run_moves more m).children)

Drains-after : (move : Move) (m : Merging) → Drains (step move m) → Drains m
unfolding Drains run_moves
Drains-after move m d = (move ∷ d.0, d.1)

Drains-over : (m : Merging) → m.done_count ≡ length m.children → Drains m
unfolding Drains run_moves
Drains-over m h = ([], h)

take_next_smaller :
    (q : List (Option Event)) (m : Merging)
    → 0 < length q
    → size (take_next q m) < turns_left m.children + turns_left m.children + length q
unfolding size take_next
take_next_smaller [] m h = absurd (omega (arith, h))
take_next_smaller (none ∷ q) m h = omega arith
take_next_smaller (some x ∷ q) m h = omega arith

ends_in_empty : (q : List (Option Event)) → ltb 0 (length q) ≡ false → ends_in q ≡ 0
unfolding ends_in
ends_in_empty [] h = refl
ends_in_empty (x ∷ q) h = ground (arith, h)

forward_smaller :
    (i : ℕ) (m : Merging)
    → length (put_at i m.children)
        + turns_left (advance_at i m.children)
        + turns_left (advance_at i m.children)
      < turns_left m.children + turns_left m.children
    → size (forward i m) < size m
unfolding size forward
forward_smaller i m h = let e = length-append m.merged (put_at i m.children) in omega (arith, e, h)

loop_turn_smaller :
    (m : Merging)
    → ltb m.done_count (length m.children) ≡ true
    → 0 < length m.merged
    → size (step loop_turn m) < size m
unfolding step size
loop_turn_smaller m more h = rw more (take_next_smaller m.merged m h)

drain : (n : ℕ) (m : Merging) → size m < n → Counted m → any fails m.children ≡ false → Drains m
unfolding Counted step
drain zero m h c k = absurd (omega (arith, h))
drain (suc n) m h c k =
    let more = λ (move : Move) (s : size (step move m) < size m). Drains-after move m (
      drain n (step move m) (omega (arith, s, h)) (step-Counted move m c)
        ((step_keeps move m).1 ∙ k)) in
    elim (Bool-cases (ltb m.done_count (length m.children))) [
      | inl going ↦ elim (Bool-cases (ltb 0 (length m.merged))) [
        | inl filled ↦ more loop_turn (loop_turn_smaller m going (ground (arith, filled)))
        | inr empty ↦
            let e = ends_in_empty m.merged empty in
            let l : m.done_count < length m.children = ground (arith, going) in
            let t = some_turn m.children (omega (arith, c, e, l)) k in
            more (child_turn t.0) (forward_smaller t.0 m t.1)
      ]
      | inr over ↦
          let l : ¬ (m.done_count < length m.children) = ground (arith, over) in
          Drains-over m (omega (arith, c, l))
    ]

run_moves-append :
    (moves more : List Move) (m : Merging)
    → run_moves (moves ++ more) m ≡ run_moves more (run_moves moves m)
unfolding run_moves
run_moves-append [] more m = refl
run_moves-append (move ∷ moves) more m = run_moves-append moves more (step move m)

-- When no sub-agent raises, the stream never gets stuck: from any point of any run some further moves bring it to its
-- end, where all sub-agents are counted.
pub parallel_astream_ends :
    (input : Text) (ctx : Scope) (sub_agents : List SubAgent) (moves : List Move)
    → any fails (tasks_of input ctx sub_agents) ≡ false
    → (more : List Move) × (let m = parallel_astream sub_agents input ctx (moves ++ more) in
        m.done_count ≡ length m.children)
unfolding parallel_astream Drains
parallel_astream_ends input ctx sub_agents moves h =
    let s = start (tasks_of input ctx sub_agents) in
    let m = run_moves moves s in
    let k = parallel_astream_keeps input ctx sub_agents moves in
    let d = drain (suc (size m)) m (omega arith) k.0 (k.2 ∙ h) in
    (
      d.0,
      subst (λ (r : Merging). r.done_count ≡ length r.children) (sym (run_moves-append moves d.0 s))
          d.1,
    )
