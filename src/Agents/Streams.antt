-- ===== src/Agents/Streams.antt =====
-- The event streams of the composite agents: orxhestra/agents/sequential_agent.py and orxhestra/agents/loop_agent.py.
use orxhestra.Prelude.{
  Bool, true, false, Option, none, some, List, [], ◌∷◌, ◌++◌, ◌≡◌, refl, ap, ◌∙◌, Text, keep,
  if◌then◌else◌,
}
use orxhestra.Events.{Event, is_final_response, event_text}
use orxhestra.Agents.{
  Scope, derive, Script, finish, fail, out_of_fuel, emit, Host, chain, sequential_astream,
}

unfoldable pub last_text : Text → List Event → Text
last_text current [] = current
last_text current (e ∷ es) = last_text (event_text e) es

-- The text of the last final response, and the input where there is none.
unfoldable pub handed_on : Text → List Event → Text
handed_on input es = last_text input (keep is_final_response es)

handed_on_emit :
    (b : Bool) (current : Text) (e : Event) (es : List Event)
    → handed_on (if b then event_text e else current) es
      ≡ last_text current (if b then e ∷ keep is_final_response es else keep is_final_response es)
unfolding handed_on last_text
handed_on_emit true current e es = refl
handed_on_emit false current e es = refl

module _ {W : Type 0} where
  unfoldable pub events : Script W → List Event
  events (finish w) = []
  events (fail e w) = []
  events out_of_fuel = []
  events (emit e w s) = e ∷ events s

  -- The world in which the stream finishes, where it does.
  unfoldable pub final : Script W → Option W
  final (finish w) = some w
  final (fail e w) = none
  final out_of_fuel = none
  final (emit e w s) = final s

  from_some : {v w : W} → some v ≡ some w → v ≡ w
  from_some h = cc

  chain_lem :
      (s : Script W) (current : Text) (rest : Text → W → Script W) (w : W)
      → final s ≡ some w
      → events (chain current s rest) ≡ events s ++ events (rest (handed_on current (events s)) w)
  unfolding final events handed_on chain last_text
  chain_lem (finish w') current rest w h = ap (λ v. events (rest current v)) (from_some h)
  chain_lem (fail e w') current rest w h = cc
  chain_lem out_of_fuel current rest w h = cc
  chain_lem (emit e w' s) current rest w h =
      ap (λ l. e ∷ l)
        (chain_lem s (if is_final_response e then event_text e else current) rest w h
          ∙ ap (λ t. events s ++ events (rest t w))
              (handed_on_emit (is_final_response e) current e (events s)))

module _ {W : Type 0} (host : Host W) where
  -- A sub-agent of a sequence that finishes is followed by the rest of the sequence, whose input is the
  -- text of the sub-agent's last final response, or the sub-agent's own input when it gave none, unless the
  -- invocation was ended before.
  pub sequential_astream-events :
      (a : Text) (sub_agents : List Text) (input : Text) (ctx : Scope) (w w' : W)
      → host.end_invocation w ≡ false
      → final (host.astream a input (derive ctx a []) w) ≡ some w'
      → events (sequential_astream host (a ∷ sub_agents) input ctx w)
        ≡ events (host.astream a input (derive ctx a []) w)
          ++ events (
              sequential_astream host sub_agents
                (handed_on input (events (host.astream a input (derive ctx a []) w)))
                ctx
                w')
  unfolding sequential_astream
  sequential_astream-events a sub_agents input ctx w w' e h = rw e (
      chain_lem (host.astream a input (derive ctx a []) w) input
        (λ current v. sequential_astream host sub_agents current ctx v) w' h)
