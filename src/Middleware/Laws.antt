-- ===== src/Middleware/Laws.antt =====
-- A stack composes its layers: the hooks of `MiddlewareStack.extend` are those of the two parts, one after
-- the other.
use orxhestra.Prelude.{Option, none, some, [], ◌∷◌, ◌++◌, ◌≡◌, refl, sym, ap, ◌∙◌, Text}
use mathlib.Core.Path.{fun_ext}
use mathlib.Core.List.{reverse, reverse-append, append-nil}
use orxhestra.Events.{Event}
use orxhestra.Middleware.{
  Result, return, raise, Action, pure, and_then, ◌>>=◌, ◌>>◌, Stack, or_default, keep_or, extend,
  before_invoke, after_each, after_invoke, on_event, before_model, after_model, wrap_tool,
}

module _ {S A B C : Type 0} where
  and_then_assoc :
      (r : Result A) (f : A → Action S B) (g : B → Action S C) (s : S)
      → and_then (and_then r f s).0 g (and_then r f s).1 ≡ and_then r (λ a. f a >>= g) s
  and_then_assoc (return a) f g s = refl
  and_then_assoc (raise e) f g s = refl

  bind_assoc :
      (m : Action S A) (f : A → Action S B) (g : B → Action S C)
      → (m >>= f >>= g) ≡ (m >>= λ a. f a >>= g)
  bind_assoc m f g = fun_ext (λ s. and_then_assoc (m s).0 f g (m s).1)

module _ {S A : Type 0} where
  and_then-pure : (r : Result A) (s : S) → and_then r pure s ≡ (r, s)
  and_then-pure (return a) s = refl
  and_then-pure (raise e) s = refl

module _ {S Request Response Call Answer : Type 0} where
  extend-append : (xs ys : Stack S Request Response Call Answer) → extend xs ys ≡ xs ++ ys
  unfolding extend
  extend-append xs [] = sym (append-nil xs)
  extend-append xs (y ∷ ys) = refl

  dropped : (ys : Stack S Request Response Call Answer) → on_event ys none ≡ pure none
  unfolding on_event
  dropped [] = refl
  dropped (y ∷ ys) = refl

  on_event-append :
      (xs ys : Stack S Request Response Call Answer) (o : Option Event)
      → on_event (xs ++ ys) o ≡ (on_event xs o >>= on_event ys)
  unfolding on_event
  on_event-append [] ys o = refl
  on_event-append (m ∷ ms) ys none = sym (dropped ys)
  on_event-append (m ∷ ms) ys (some e) =
      ap (λ k. or_default m.on_event (λ e. pure (some e)) e >>= k) (fun_ext (on_event-append ms ys))
      ∙ sym (bind_assoc (or_default m.on_event (λ e. pure (some e)) e) (on_event ms) (on_event ys))

  before_model-append :
      (xs ys : Stack S Request Response Call Answer) (r : Request)
      → before_model (xs ++ ys) r ≡ (before_model xs r >>= before_model ys)
  unfolding before_model
  before_model-append [] ys r = refl
  before_model-append (m ∷ ms) ys r =
      ap (λ k. or_default m.before_model (λ r. pure (some r)) r >>= k)
        (fun_ext (λ o. before_model-append ms ys (keep_or r o)))
      ∙ sym (
          bind_assoc (or_default m.before_model (λ r. pure (some r)) r)
            (λ o. before_model ms (keep_or r o)) (before_model ys))

  after_model-append :
      (xs ys : Stack S Request Response Call Answer) (r : Response)
      → after_model (xs ++ ys) r ≡ (after_model xs r >>= after_model ys)
  unfolding after_model
  after_model-append [] ys r = refl
  after_model-append (m ∷ ms) ys r =
      ap (λ k. or_default m.after_model (λ r. pure (some r)) r >>= k)
        (fun_ext (λ o. after_model-append ms ys (keep_or r o)))
      ∙ sym (
          bind_assoc (or_default m.after_model (λ r. pure (some r)) r)
            (λ o. after_model ms (keep_or r o)) (after_model ys))

  wrap_tool-append :
      (xs ys : Stack S Request Response Call Answer) (executor : Call → Action S Answer) (c : Call)
      → wrap_tool (xs ++ ys) c executor ≡ wrap_tool xs c (λ c'. wrap_tool ys c' executor)
  unfolding wrap_tool
  wrap_tool-append [] ys executor c = refl
  wrap_tool-append (m ∷ ms) ys executor c =
      ap (or_default m.wrap_tool (λ c next. next c) c) (fun_ext (wrap_tool-append ms ys executor))

  before_invoke-append :
      (xs ys : Stack S Request Response Call Answer)
      → before_invoke (xs ++ ys) ≡ (before_invoke xs >> before_invoke ys)
  unfolding before_invoke
  before_invoke-append [] ys = refl
  before_invoke-append (m ∷ ms) ys =
      ap (λ k. or_default m.before_invoke (pure tt) >> k) (before_invoke-append ms ys)
      ∙ sym (
          bind_assoc (or_default m.before_invoke (pure tt)) (λ _. before_invoke ms)
            (λ _. before_invoke ys))

  after_each-append :
      (error : Option Text) (xs ys : Stack S Request Response Call Answer)
      → after_each error (xs ++ ys) ≡ (after_each error xs >> after_each error ys)
  unfolding after_each
  after_each-append error [] ys = refl
  after_each-append error (m ∷ ms) ys =
      ap (λ k. or_default m.after_invoke (λ _. pure tt) error >> k) (after_each-append error ms ys)
      ∙ sym (
          bind_assoc (or_default m.after_invoke (λ _. pure tt) error) (λ _. after_each error ms)
            (λ _. after_each error ys))

  -- An extended stack's hooks are those of its two parts. `before_invoke` runs the old layers and then
  -- the new ones, `after_invoke` the new ones first; an event and a model request or response pass through the old
  -- layers and then the new ones; a tool call runs the old layers around the new ones, which run around
  -- the executor.
  pub extend_composes :
      (xs ys : Stack S Request Response Call Answer) (error : Option Text)
      (executor : Call → Action S Answer) (c : Call) (o : Option Event) (request : Request)
      (response : Response)
      → (before_invoke (extend xs ys) ≡ (before_invoke xs >> before_invoke ys))
        × (after_invoke error (extend xs ys) ≡ (after_invoke error ys >> after_invoke error xs))
        × (on_event (extend xs ys) o ≡ (on_event xs o >>= on_event ys))
        × (before_model (extend xs ys) request ≡ (before_model xs request >>= before_model ys))
        × (after_model (extend xs ys) response ≡ (after_model xs response >>= after_model ys))
        × (wrap_tool (extend xs ys) c executor ≡ wrap_tool xs c (λ c'. wrap_tool ys c' executor))
  unfolding after_invoke
  extend_composes xs ys error executor c o request response =
      rw (extend-append xs ys, reverse-append xs ys)
        (
          before_invoke-append xs ys,
          after_each-append error (reverse ys) (reverse xs),
          on_event-append xs ys o,
          before_model-append xs ys request,
          after_model-append xs ys response,
          wrap_tool-append xs ys executor c,
        )
