-- ===== src/Runner/Marked.antt =====
-- The key of the session's state under which orxhestra/runner.py keeps the active agent: what leaves it, and what it names.
use orxhestra.Prelude.{
  ℕ, true, false, some, List, [], ◌∷◌, ◌++◌, map, ◌≡◌, refl, sym, ap, ◌∙◌, arith, subst, Text,
  ◌==ₜ◌, eq_iff, eq_refl, Dict, lookup, has_key, insert, merge, lookup-insert, lookup-insert_self,
  nonempty, if◌then◌else◌, All, All-left, All-right, Bool-cases, inl, inr,
}
use orxhestra.Values.{Value, null, text}
use orxhestra.Events.{Event}
use orxhestra.Sessions.{Heap, append_event, state_at}
use orxhestra.Sessions.Sharing.{append_event_lem}
use orxhestra.Agents.{Agent, agent, find_agent}
use orxhestra.Agents.Tree.{name_of, first_named, preorder, find_agent-preorder}
use orxhestra.Runner.{Entry, seen, refused, marked, status, named_agent, or_root}
use orxhestra.Runner.Log.{Appended, nothing, event}

-- The events that the agents emitted.
unfoldable pub agent_events : List Entry → List Event
agent_events [] = []
agent_events (seen e answer ∷ es) = e ∷ agent_events es
agent_events (refused e ∷ es) = e ∷ agent_events es
agent_events (marked e ∷ es) = agent_events es
agent_events (status e ∷ es) = agent_events es

pub agent_events-append :
    (es fs : List Entry) → agent_events (es ++ fs) ≡ agent_events es ++ agent_events fs
unfolding agent_events
agent_events-append [] fs = refl
agent_events-append (seen e answer ∷ es) fs = ap (λ l. e ∷ l) (agent_events-append es fs)
agent_events-append (refused e ∷ es) fs = ap (λ l. e ∷ l) (agent_events-append es fs)
agent_events-append (marked e ∷ es) fs = agent_events-append es fs
agent_events-append (status e ∷ es) fs = agent_events-append es fs

pub agent_events-map : (es : List Event) → agent_events (map marked es) ≡ []
unfolding agent_events
agent_events-map [] = refl
agent_events-map (e ∷ es) = agent_events-map es

lookup-merge :
    (k : Text) (d delta : Dict Value)
    → has_key k delta ≡ false
    → lookup k (merge d delta) ≡ lookup k d
unfolding merge has_key
lookup-merge k d [] h = refl
lookup-merge k d ((j, v) ∷ delta) h =
    ground (arith, lookup-merge k (insert j v d) delta, lookup-insert j k v d)

-- No event of the list sets the key.
abbrev pub LeavesKey : Text → List Event → Type 0
LeavesKey key es = All (λ (e : Event). has_key key e.actions.state_delta ≡ false) es

pub leaves_split :
    (key : Text) (es : List Entry) (marks : List Event) (fs : List Entry)
    → LeavesKey key (agent_events ((es ++ map marked marks) ++ fs))
    → LeavesKey key (agent_events es) × LeavesKey key (agent_events fs)
leaves_split key es marks fs leaves =
    let parts =
      subst (LeavesKey key)
        (agent_events-append (es ++ map marked marks) fs
          ∙ ap (λ l. l ++ agent_events fs) (agent_events-append es (map marked marks)))
        leaves in
    let quiet = λ (e : Event). has_key key e.actions.state_delta ≡ false in
    (
      All-left quiet (agent_events es) (agent_events (map marked marks)) (
          All-left quiet (agent_events es ++ agent_events (map marked marks)) (agent_events fs)
            parts),
      All-right quiet (agent_events es ++ agent_events (map marked marks)) (agent_events fs) parts,
    )

module _ (address : ℕ) (key : Text) where
  pub lookup-append_event :
      (now : ℕ) (e : Event) (h : Heap)
      → has_key key e.actions.state_delta ≡ false
      → lookup key (state_at (append_event now address e h) address)
        ≡ lookup key (state_at h address)
  lookup-append_event now e h k = ground (
    arith,
    (append_event_lem now address e h).1,
    lookup-merge key (state_at h address) e.actions.state_delta k,
  )

  pub lookup_set :
      (now : ℕ) (e : Event) (h : Heap) (v : Value)
      → e.partial ≡ false
      → e.actions.state_delta ≡ (key, v) ∷ []
      → lookup key (state_at (append_event now address e h) address) ≡ some v
  unfolding merge
  lookup_set now e h v whole set =
      ap (lookup key) (append_event_lem now address e h).1
      ∙ rw (whole, set) (lookup-insert_self key v (state_at h address))

  pub lookup_kept :
      (h h' : Heap) (es : List Event)
      → Appended address h es h'
      → LeavesKey key es
      → lookup key (state_at h' address) ≡ lookup key (state_at h address)
  lookup_kept h h' es (nothing _) k = refl
  lookup_kept h h' es (event now e es' _ _ p) k =
      lookup_kept (append_event now address e h) h' es' p k.1 ∙ lookup-append_event now e h k.0

first_named-name :
    (name : Text) (as' : List Agent) (a : Agent) → first_named name as' ≡ some a → name_of a ≡ name
unfolding first_named
first_named-name name [] a h = cc
first_named-name name (b ∷ bs) a h =
    ground (arith, first_named-name name bs a, eq_iff (name_of b) name)

pub find_agent-name :
    (name : Text) (root a : Agent) → find_agent name root ≡ some a → name_of a ≡ name
find_agent-name name root a h =
    first_named-name name (preorder root) a (sym (find_agent-preorder name root) ∙ h)

find_agent_self :
    (name : Text) (root : Agent) → name ≡ name_of root → find_agent name root ≡ some root
unfolding find_agent name_of
find_agent_self name (agent n children) h = rw (h, eq_refl n) refl

-- The agent that the marker of a transfer names.
pub named_agent_marked :
    (root target : Agent)
    → nonempty (name_of target) ≡ true
    → find_agent (name_of target) root ≡ some target
    → named_agent root
        (some (if name_of target ==ₜ name_of root then null else text (name_of target)))
      ≡ target
unfolding named_agent or_root
named_agent_marked root target full found = elim (Bool-cases (name_of target ==ₜ name_of root)) [
  | inl same ↦ rw same (
      cc (
        find_agent_self (name_of target) root ((eq_iff (name_of target) (name_of root)).0 same),
        found,
      ))
  | inr other ↦ rw (other, full, found, other) refl
]
