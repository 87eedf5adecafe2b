-- ===== src/Runner/Log.antt =====
-- What `Runner.astream` (orxhestra/runner.py) does to the session: it only appends events, those of its entries in order.
use mathlib.Core.List.{append_assoc, append-nil}
use orxhestra.Prelude.{
  ℕ, zero, suc, Bool, true, false, not, Option, none, some, List, [], ◌∷◌, ◌++◌, map, ◌≡◌, refl,
  sym, ap, ◌∙◌, arith, subst, Text, keep, if◌then◌else◌,
}
use orxhestra.Events.{Event}
use orxhestra.Sessions.{Heap, append_event, events_at}
use orxhestra.Sessions.Sharing.{append_event_lem}
use orxhestra.Middleware.{Result, return, raise, on_event, before_invoke}
use orxhestra.Agents.{Agent}
use orxhestra.Runner.{
  Stream, finish, fail, emit, Entry, seen, refused, marked, status, Turn, Run, Host, Runner,
  initial_scope, next_agent,
}
use orxhestra.Runner.Turns.{react, consume, hand_over, converse, markers, append_all}
use orxhestra.Runner.Whole.{before_turns, invoke, settle}

-- The events that the runner stores, in order.
unfoldable pub recorded : List Entry → List Event
recorded [] = []
recorded (seen e answer ∷ es) = e ∷ recorded es
recorded (refused e ∷ es) = e ∷ recorded es
recorded (marked e ∷ es) = e ∷ recorded es
recorded (status e ∷ es) = recorded es

abbrev pub is_complete : Event → Bool
is_complete e = not e.partial

-- The second heap is the first with the events appended in order to the session at the address, each at some time.
pub data Appended (address : ℕ) : Heap → List Event → Heap → Type 0 where
  nothing : (h : Heap) → Appended address h [] h
  event :
      (now : ℕ) (e : Event) (es : List Event) (h h' : Heap)
      → Appended address (append_event now address e h) es h'
      → Appended address h (e ∷ es) h'

pub recorded-append : (es fs : List Entry) → recorded (es ++ fs) ≡ recorded es ++ recorded fs
unfolding recorded
recorded-append [] fs = refl
recorded-append (seen e answer ∷ es) fs = ap (λ l. e ∷ l) (recorded-append es fs)
recorded-append (refused e ∷ es) fs = ap (λ l. e ∷ l) (recorded-append es fs)
recorded-append (marked e ∷ es) fs = ap (λ l. e ∷ l) (recorded-append es fs)
recorded-append (status e ∷ es) fs = recorded-append es fs

recorded-map : (es : List Event) → recorded (map marked es) ≡ es
unfolding recorded
recorded-map [] = refl
recorded-map (e ∷ es) = ap (λ l. e ∷ l) (recorded-map es)

module _ (address : ℕ) where
  Appended-append :
      (h h' h'' : Heap) (es fs : List Event)
      → Appended address h es h'
      → Appended address h' fs h''
      → Appended address h (es ++ fs) h''
  Appended-append h h' h'' es fs (nothing _) q = q
  Appended-append h h' h'' es fs (event now e es' _ _ p) q =
      event now e (es' ++ fs) h h''
        (Appended-append (append_event now address e h) h' h'' es' fs p q)

  logged_next :
      (now : ℕ) (e : Event) (es : List Event) (h : Heap)
      → events_at (append_event now address e h) address ++ keep is_complete es
        ≡ events_at h address ++ keep is_complete (e ∷ es)
  logged_next now e es h =
      ap (λ l. l ++ keep is_complete es) (append_event_lem now address e h).0 ∙ by_cases e.partial
    where
      by_cases :
          (b : Bool)
          → (if b then events_at h address else events_at h address ++ e ∷ [])
              ++ keep is_complete es
            ≡ events_at h address
              ++ (if not b then e ∷ keep is_complete es else keep is_complete es)
      by_cases true = refl
      by_cases false = append_assoc (events_at h address) (e ∷ []) (keep is_complete es)

  pub Appended-events :
      (h h' : Heap) (es : List Event)
      → Appended address h es h'
      → events_at h' address ≡ events_at h address ++ keep is_complete es
  Appended-events h h' es (nothing _) = sym (append-nil (events_at h address))
  Appended-events h h' es (event now e es' _ _ p) =
      Appended-events (append_event now address e h) h' es' p ∙ logged_next now e es' h

module _ {S Request Response Call Answer : Type 0} (host : Host S)
    (runner : Runner S Request Response Call Answer) (address : ℕ) where
  react-Appended :
      (e : Event) (target : Option Text) (now : ℕ) (h : Heap) (answer : Result (Option Event) × S)
      (continue : Option Text → S → Turn S)
      → ((t : Option Text) (w : S)
          → Appended address
              (append_event now address e h)
              (recorded (continue t w).entries)
              (continue t w).heap)
      → Appended address h
          (recorded (react e target (append_event now address e h) answer continue).entries)
          (react e target (append_event now address e h) answer continue).heap
  unfolding react recorded
  react-Appended e target now h (return none, w) continue rest = event now e _ h _ (rest target w)
  react-Appended e target now h (return (some answer), w) continue rest =
      event now e _ h _ (rest _ w)
  react-Appended e target now h (raise error, w) continue rest =
      event now e [] h _ (nothing (append_event now address e h))

  pub consume-Appended :
      (s : Stream S) (target : Option Text) (h : Heap)
      → Appended address h
          (recorded (consume host runner address s target h).entries)
          (consume host runner address s target h).heap
  unfolding consume recorded
  consume-Appended (finish w) target h = nothing h
  consume-Appended (fail error w) target h = nothing h
  consume-Appended (emit e w more) target h =
      react-Appended e target (host.now h w) h (on_event runner.middleware (some e) w) _
        (λ t w'. consume-Appended (more _ w') t _)

  append_all-Appended :
      (es : List Event) (h : Heap) (w : S)
      → Appended address h es (append_all host runner address es h w)
  unfolding append_all
  append_all-Appended [] h w = nothing h
  append_all-Appended (e ∷ es) h w =
      event (host.now h w) e es h _
        (append_all-Appended es (append_event (host.now h w) address e h) w)

  hand_over-Appended :
      (current : Agent) (turn : Turn S) (o : Option Agent) (h : Heap)
      (continue : Agent → Heap → S → Run S)
      → Appended address h (recorded turn.entries) turn.heap
      → ((t : Agent) (h' : Heap) (w : S)
          → Appended address h' (recorded (continue t h' w).entries) (continue t h' w).heap)
      → Appended address h
          (recorded (hand_over host runner address current turn o continue).entries)
          (hand_over host runner address current turn o continue).heap
  unfolding hand_over
  hand_over-Appended current turn none h continue before rest = before
  hand_over-Appended current turn (some target) h continue before rest =
      let marks = markers host runner address turn.heap turn.world target in
      let h' = append_all host runner address marks turn.heap turn.world in
      let last = continue target h' turn.world in
      let shown : recorded ((turn.entries ++ map marked marks) ++ last.entries)
          ≡ recorded turn.entries ++ (marks ++ recorded last.entries) =
        rw (recorded-append, recorded-append, recorded-map)
          (append_assoc (recorded turn.entries) marks (recorded last.entries)) in
      subst (λ es. Appended address h es last.heap) (sym shown)
        (Appended-append address h turn.heap last.heap _ _ before (
          Appended-append address turn.heap h' last.heap _ _
            (append_all-Appended marks turn.heap turn.world) (rest target h' turn.world)))

  converse-Appended :
      (message : Text) (fuel : ℕ) (current : Agent) (h : Heap) (w : S)
      → Appended address h
          (recorded (converse host runner address message fuel current h w).entries)
          (converse host runner address message fuel current h w).heap
  unfolding converse recorded
  converse-Appended message zero current h w = nothing h
  converse-Appended message (suc fuel) current h w =
      let s = host.astream current (initial_scope current) message h w in
      let turn = consume host runner address s none h in
      hand_over-Appended current turn (next_agent runner.agent turn.ending turn.transfer_target) h _
        (consume-Appended s none h) (λ t h' w'. converse-Appended message fuel t h' w')

  before_turns-Appended :
      (start : Agent) (h : Heap) (answer : Result (Unit {0}) × S) (continue : S → Run S)
      → ((w : S) → Appended address h (recorded (continue w).entries) (continue w).heap)
      → Appended address h
          (recorded (before_turns start h answer continue).entries)
          (before_turns start h answer continue).heap
  unfolding before_turns recorded
  before_turns-Appended start h (return u, w) continue rest = rest w
  before_turns-Appended start h (raise error, w) continue rest = nothing h

  pub settle_keeps :
      (r : Run S)
      → ((settle host runner address r).entries ≡ r.entries)
        × ((settle host runner address r).heap ≡ r.heap)
  unfolding settle
  settle_keeps r = (ground arith, ground arith)

  pub settle_agent : (r : Run S) → (settle host runner address r).current_agent ≡ r.current_agent
  unfolding settle
  settle_agent r = ground arith

  settled-Appended :
      (message : Text) (fuel : ℕ) (current : Agent) (h : Heap) (w : S)
      → Appended address h
          (recorded
            (settle host runner address
              (converse host runner address message fuel current h w)).entries)
          (settle host runner address (converse host runner address message fuel current h w)).heap
  settled-Appended message fuel current h w =
      let k = settle_keeps (converse host runner address message fuel current h w) in
      rw (k.0, k.1) (converse-Appended message fuel current h w)

  -- Whatever the agents and the middleware do, the turns of a run change the session only by appending the
  -- events that are recorded, in order.
  pub invoke-Appended :
      (fuel : ℕ) (message : Text) (h : Heap) (w : S)
      → Appended address h
          (recorded (invoke host runner address fuel message h w).entries)
          (invoke host runner address fuel message h w).heap
  unfolding invoke recorded
  invoke-Appended fuel message h w = event (host.now h w) _ _ h _ (
      before_turns-Appended _ _ (before_invoke runner.middleware w) _
        (λ w'. settled-Appended message fuel _ _ w'))
