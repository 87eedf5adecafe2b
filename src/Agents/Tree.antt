-- ===== src/Agents/Tree.antt =====
-- The search of the agent tree in orxhestra/agents/base_agent.py.
use orxhestra.Prelude.{
  Option, none, some, List, [], ◌∷◌, ◌++◌, ◌≡◌, refl, sym, ap, ◌∙◌, arith, Text, ◌==ₜ◌,
  if◌then◌else◌,
}
use orxhestra.Agents.{
  Agent, Agents, agent, no_agents, with_agent, first_found, find_agent, find_among,
}

-- The agents of a tree, every agent before its descendants, these in the order of registration.
unfoldable mutual
  pub preorder : Agent → List Agent
  preorder (agent n children) = agent n children ∷ preorder_all children

  pub preorder_all : Agents → List Agent
  preorder_all no_agents = []
  preorder_all (with_agent a rest) = preorder a ++ preorder_all rest

unfoldable pub name_of : Agent → Text
name_of (agent n children) = n

unfoldable pub first_named : Text → List Agent → Option Agent
first_named name [] = none
first_named name (a ∷ more) = if name_of a ==ₜ name then some a else first_named name more

first_named-append :
    (name : Text) (xs ys : List Agent)
    → first_named name (xs ++ ys) ≡ first_found (first_named name xs) (first_named name ys)
unfolding first_named
first_named-append name [] ys = refl
first_named-append name (x ∷ xs) ys = ground (arith, first_named-append name xs ys)

mutual
  unfolding find_agent find_among first_named name_of preorder preorder_all

  found_in_tree : (name : Text) (a : Agent) → find_agent name a ≡ first_named name (preorder a)
  found_in_tree name (agent n children) =
      ap (λ o. if n ==ₜ name then some (agent n children) else o) (found_in_children name children)

  found_in_children :
      (name : Text) (children : Agents)
      → find_among name children ≡ first_named name (preorder_all children)
  found_in_children name no_agents = refl
  found_in_children name (with_agent a rest) =
      ap (λ o. first_found o (find_among name rest)) (found_in_tree name a)
      ∙ ap (first_found (first_named name (preorder a))) (found_in_children name rest)
      ∙ sym (first_named-append name (preorder a) (preorder_all rest))

-- `find_agent` returns the first agent of the tree with the name, in the order that lists every agent before
-- its descendants, and none exactly when no agent of the tree has the name.
pub find_agent-preorder :
    (name : Text) (a : Agent) → find_agent name a ≡ first_named name (preorder a)
find_agent-preorder name a = found_in_tree name a
