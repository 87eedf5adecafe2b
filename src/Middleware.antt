-- ===== src/Middleware.antt =====
-- orxhestra/middleware/stack.py, with the defaults of orxhestra/middleware/base.py. A hook is an
-- action over a world of its own, which may raise; the invocation context is part of that world. A
-- hook that a middleware does not define is `none`. Requests, responses, tool calls and results
-- are whatever types the caller uses.
pub mod Laws
pub mod Tests
use orxhestra.Prelude.{
  Bool, true, false, Option, none, some, List, [], ◌∷◌, ◌++◌, ◌≡◌, refl, Text, nonempty,
  if◌then◌else◌,
}
use mathlib.Core.List.{reverse}
use orxhestra.Events.{Event}

pub data Result (A : Type 0) : Type 0 where
  return : A → Result A
  raise : Text → Result A

abbrev pub Action : Type 0 → Type 0 → Type 0
Action S A = S → Result A × S

module _ {S A : Type 0} where
  abbrev pub pure : A → Action S A
  pure a s = (return a, s)

module _ {S A B : Type 0} where
  abbrev pub and_then : Result A → (A → Action S B) → Action S B
  and_then (return a) f s = f a s
  and_then (raise e) f s = (raise e, s)

  infixl 5 ◌>>=◌ ◌>>◌
  abbrev pub ◌>>=◌ : Action S A → (A → Action S B) → Action S B
  ◌>>=◌ m f s = and_then (m s).0 f (m s).1

  abbrev pub ◌>>◌ : Action S A → Action S B → Action S B
  m >> n = m >>= λ _. n

module _ {A : Type 0} where
  abbrev pub or_default : Option A → A → A
  or_default none d = d
  or_default (some a) d = a

  -- What `_compose_single` keeps of a hook's answer, where `None` leaves the value as it was.
  abbrev pub keep_or : A → Option A → A
  keep_or old none = old
  keep_or old (some new) = new

module _ (S Request Response Call Answer : Type 0) where
  pub record Middleware : Type 0 where
    pub before_invoke : Option (Action S (Unit {0}))
    pub after_invoke : Option (Option Text → Action S (Unit {0}))
    pub on_event : Option (Event → Action S (Option Event))
    pub before_model : Option (Request → Action S (Option Request))
    pub after_model : Option (Response → Action S (Option Response))
    pub wrap_tool : Option (Call → (Call → Action S Answer) → Action S Answer)

abbrev pub Stack : Type 0 → Type 0 → Type 0 → Type 0 → Type 0 → Type 0
Stack S Request Response Call Answer = List (Middleware S Request Response Call Answer)

module _ {S Request Response Call Answer : Type 0} where
  -- `extend`: an empty addition returns the stack itself.
  unfoldable pub extend :
      Stack S Request Response Call Answer
      → Stack S Request Response Call Answer
      → Stack S Request Response Call Answer
  extend stack more = if nonempty more then stack ++ more else stack

  unfoldable pub before_invoke : Stack S Request Response Call Answer → Action S (Unit {0})
  before_invoke [] = pure tt
  before_invoke (m ∷ ms) = or_default m.before_invoke (pure tt) >> before_invoke ms

  unfoldable pub after_each :
      Option Text → Stack S Request Response Call Answer → Action S (Unit {0})
  after_each error [] = pure tt
  after_each error (m ∷ ms) = or_default m.after_invoke (λ _. pure tt) error >> after_each error ms

  unfoldable pub after_invoke :
      Option Text → Stack S Request Response Call Answer → Action S (Unit {0})
  after_invoke error stack = after_each error (reverse stack)

  unfoldable pub on_event :
      Stack S Request Response Call Answer → Option Event → Action S (Option Event)
  on_event [] current = pure current
  on_event (m ∷ ms) none = pure none
  on_event (m ∷ ms) (some e) = or_default m.on_event (λ e. pure (some e)) e >>= on_event ms

  unfoldable pub before_model : Stack S Request Response Call Answer → Request → Action S Request
  before_model [] r = pure r
  before_model (m ∷ ms) r =
      or_default m.before_model (λ r. pure (some r)) r >>= λ o. before_model ms (keep_or r o)

  unfoldable pub after_model : Stack S Request Response Call Answer → Response → Action S Response
  after_model [] r = pure r
  after_model (m ∷ ms) r =
      or_default m.after_model (λ r. pure (some r)) r >>= λ o. after_model ms (keep_or r o)

  -- `_wrap_index(i, c)`, over the part of the stack from `i` on.
  unfoldable pub wrap_tool :
      Stack S Request Response Call Answer → Call → (Call → Action S Answer) → Action S Answer
  wrap_tool [] c executor = executor c
  wrap_tool (m ∷ ms) c executor =
      or_default m.wrap_tool (λ c next. next c) c (λ c'. wrap_tool ms c' executor)
