-- ===== src/Agents/Loops.antt =====
-- The loop agent's event stream: orxhestra/agents/loop_agent.py.
use orxhestra.Prelude.{
  ℕ, zero, suc, ◌+◌, ◌≤◌, ◌<◌, Bool, true, false, ◌&&◌, Option, none, some, List, [], ◌∷◌, ◌≡◌,
  refl, sym, ap, ◌∙◌, arith, Text, leb-false, nonempty, if◌then◌else◌,
}
use orxhestra.Events.{Event}
use orxhestra.Agents.{
  Scope, Script, finish, fail, out_of_fuel, emit, Host, LoopAgent, pass, reached, stop_at_limit,
  each, stops, loop, loop_astream,
}

module _ {W : Type 0} where
  unfoldable is_finish : Script W → Bool
  is_finish (finish w) = true
  is_finish _ = false

  -- An event that escalates is the last one.
  unfoldable pub stops_at_escalate : Script W → Bool
  unfolding is_finish
  stops_at_escalate (finish w) = true
  stops_at_escalate (fail e w) = true
  stops_at_escalate out_of_fuel = true
  stops_at_escalate (emit e w s) =
      (if e.actions.escalate then is_finish s else true) && stops_at_escalate s

  -- The stream comes to an end.
  unfoldable pub ends : Script W → Bool
  ends (finish w) = true
  ends (fail e w) = true
  ends out_of_fuel = false
  ends (emit e w s) = ends s

  pass-stops_at_escalate :
      (last : Option Event) (s : Script W) (rest : Option Event → W → Script W)
      → ((l : Option Event) (w : W) → stops_at_escalate (rest l w) ≡ true)
      → stops_at_escalate (pass last s rest) ≡ true
  unfolding pass stops_at_escalate
  pass-stops_at_escalate last (finish w) rest h = h last w
  pass-stops_at_escalate last (fail e w) rest h = refl
  pass-stops_at_escalate last out_of_fuel rest h = refl
  pass-stops_at_escalate last (emit e w s) rest h =
      ground (arith, pass-stops_at_escalate (some e) s rest h)

  pass-ends :
      (last : Option Event) (s : Script W) (rest : Option Event → W → Script W)
      → ends s ≡ true
      → ((l : Option Event) (w : W) → ends (rest l w) ≡ true)
      → ends (pass last s rest) ≡ true
  unfolding pass ends
  pass-ends last (finish w) rest hs h = h last w
  pass-ends last (fail e w) rest hs h = refl
  pass-ends last out_of_fuel rest hs h = hs
  pass-ends last (emit e w s) rest hs h = ground (arith, pass-ends (some e) s rest hs h)

  if-stops_at_escalate :
      (b : Bool) (s t : Script W)
      → stops_at_escalate s ≡ true
      → stops_at_escalate t ≡ true
      → stops_at_escalate (if b then s else t) ≡ true
  if-stops_at_escalate true s t hs ht = hs
  if-stops_at_escalate false s t hs ht = ht

  if-ends :
      (b : Bool) (s t : Script W)
      → ends s ≡ true
      → (b ≡ false → ends t ≡ true)
      → ends (if b then s else t) ≡ true
  if-ends true s t hs ht = hs
  if-ends false s t hs ht = ht refl

module _ {W : Type 0} (host : Host W) where
  module _ (self : LoopAgent) (input : Text) (ctx : Scope) where
    each-stops_at_escalate :
        (sub_agents : List Text) (iteration : ℕ) (last : Option Event) (w : W)
        (rest : Option Event → W → Script W)
        → ((l : Option Event) (v : W) → stops_at_escalate (rest l v) ≡ true)
        → stops_at_escalate (each host self input ctx sub_agents iteration last w rest) ≡ true
    unfolding each
    each-stops_at_escalate [] iteration last w rest h = h last w
    each-stops_at_escalate (a ∷ sub_agents) iteration last w rest h =
        pass-stops_at_escalate last _
          (λ l v. each host self input ctx sub_agents iteration l v rest)
          (λ l v. each-stops_at_escalate sub_agents iteration l v rest h)

    limit_stops : (w : W) → stops_at_escalate (stop_at_limit host self input ctx w) ≡ true
    unfolding stop_at_limit stops_at_escalate is_finish
    limit_stops w = ground arith

    loop-stops_at_escalate :
        (fuel iteration : ℕ) (last : Option Event) (w : W)
        → stops_at_escalate (loop host self input ctx fuel iteration last w) ≡ true
    unfolding loop stops_at_escalate
    loop-stops_at_escalate zero iteration last w = refl
    loop-stops_at_escalate (suc fuel) iteration last w =
        if-stops_at_escalate (host.end_invocation w) (finish w) _ refl (
          if-stops_at_escalate (reached host self input ctx self.max_iterations iteration)
            (stop_at_limit host self input ctx w) _ (limit_stops w)
            (each-stops_at_escalate self.sub_agents iteration last w _ (λ l v.
              if-stops_at_escalate (stops host self input ctx self.should_continue l) (finish v) _
                refl
                (loop-stops_at_escalate fuel (suc iteration) l
                  (host.reset_sub_agent_states self.name v)))))

    -- Whatever the sub-agents do, the loop's stream is over after the first event that escalates.
    pub loop_astream-stops_at_escalate :
        (fuel : ℕ) (w : W) → stops_at_escalate (loop_astream host self input ctx fuel w) ≡ true
    unfolding loop_astream stops_at_escalate
    loop_astream-stops_at_escalate fuel w =
        if-stops_at_escalate (nonempty self.sub_agents) _ (finish w)
          (loop-stops_at_escalate fuel 0 none w) refl

    module _ (total : (a i : Text) (c : Scope) (v : W) → ends (host.astream a i c v) ≡ true) (m : ℕ)
        (limited : self.max_iterations ≡ some m) where
      each-ends :
          (sub_agents : List Text) (iteration : ℕ) (last : Option Event) (w : W)
          (rest : Option Event → W → Script W)
          → ((l : Option Event) (v : W) → ends (rest l v) ≡ true)
          → ends (each host self input ctx sub_agents iteration last w rest) ≡ true
      unfolding each
      each-ends [] iteration last w rest h = h last w
      each-ends (a ∷ sub_agents) iteration last w rest h =
          pass-ends last _ (λ l v. each host self input ctx sub_agents iteration l v rest)
            (total a input _ w) (λ l v. each-ends sub_agents iteration l v rest h)

      unreached :
          (iteration : ℕ)
          → reached host self input ctx self.max_iterations iteration ≡ false
          → suc iteration ≤ m
      unfolding reached
      unreached iteration h =
          leb-false m iteration
            (sym (ap (λ o. reached host self input ctx o iteration) limited) ∙ h)

      loop-ends :
          (fuel iteration : ℕ) (last : Option Event) (w : W)
          → iteration ≤ m
          → m < iteration + fuel
          → ends (loop host self input ctx fuel iteration last w) ≡ true
      unfolding loop ends stop_at_limit
      loop-ends zero iteration last w h l = ground arith
      loop-ends (suc fuel) iteration last w h l =
          if-ends (host.end_invocation w) (finish w) _ refl (λ _.
            if-ends (reached host self input ctx self.max_iterations iteration)
              (stop_at_limit host self input ctx w) _ refl
              (λ r. each-ends self.sub_agents iteration last w _ (λ o v.
                if-ends (stops host self input ctx self.should_continue o) (finish v) _ refl (λ _.
                  loop-ends fuel (suc iteration) o (host.reset_sub_agent_states self.name v)
                    (unreached iteration r) (omega (arith, unreached iteration r))))))

      -- A loop whose `max_iterations` is m, over sub-agents whose streams all end, comes to an end: m turns of
      -- the loop and the one that reports the limit are enough.
      pub loop_astream-ends : (w : W) → ends (loop_astream host self input ctx (suc m) w) ≡ true
      unfolding loop_astream ends
      loop_astream-ends w =
          if-ends (nonempty self.sub_agents) _ (finish w)
            (loop-ends (suc m) 0 none w (omega arith) (omega arith)) (λ _. refl)
