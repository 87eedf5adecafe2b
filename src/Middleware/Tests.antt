-- ===== src/Middleware/Tests.antt =====
-- Two layers that write down their calls, and the composition theorem for a stack of them.
use orxhestra.Prelude.{ℕ, none, some, List, [], ◌∷◌, ◌≡◌, refl}
use orxhestra.Middleware.{
  return, Action, ◌>>=◌, ◌>>◌, Middleware, extend, before_invoke, after_invoke, after_each,
  on_event, before_model, after_model, wrap_tool,
}
use orxhestra.Middleware.Laws.{extend_composes}
use orxhestra.Samples.{hello}

-- The world is the list of the marks written so far, the last one first.
abbrev Layer : Type 0
Layer = Middleware (List ℕ) ℕ ℕ ℕ ℕ

abbrev marking : ℕ → Layer
marking n = record {
  before_invoke = some (λ s. (return tt, n ∷ s));
  after_invoke = some (λ error s. (return tt, n ∷ s));
  on_event = none;
  before_model = some (λ r s. (return (some n), s));
  after_model = none;
  wrap_tool = some (λ c next s. next c (n ∷ s));
}

abbrev execute : ℕ → Action (List ℕ) ℕ
execute c s = (return c, 0 ∷ s)

outer_first :
    wrap_tool (extend (marking 1 ∷ []) (marking 2 ∷ [])) 5 execute [] ≡ (return 5, 0 ∷ 2 ∷ 1 ∷ [])
unfolding wrap_tool extend
outer_first = refl

inner_unwinds_first :
    after_invoke none (extend (marking 1 ∷ []) (marking 2 ∷ [])) [] ≡ (return tt, 1 ∷ 2 ∷ [])
unfolding after_invoke after_each extend
inner_unwinds_first = refl

extend_composes_example :
    (before_invoke (extend (marking 1 ∷ []) (marking 2 ∷ []))
      ≡ (before_invoke (marking 1 ∷ []) >> before_invoke (marking 2 ∷ [])))
    × (after_invoke none (extend (marking 1 ∷ []) (marking 2 ∷ []))
        ≡ (after_invoke none (marking 2 ∷ []) >> after_invoke none (marking 1 ∷ [])))
    × (on_event (extend (marking 1 ∷ []) (marking 2 ∷ [])) (some hello)
        ≡ (on_event (marking 1 ∷ []) (some hello) >>= on_event (marking 2 ∷ [])))
    × (before_model (extend (marking 1 ∷ []) (marking 2 ∷ [])) 3
        ≡ (before_model (marking 1 ∷ []) 3 >>= before_model (marking 2 ∷ [])))
    × (after_model (extend (marking 1 ∷ []) (marking 2 ∷ [])) 4
        ≡ (after_model (marking 1 ∷ []) 4 >>= after_model (marking 2 ∷ [])))
    × (wrap_tool (extend (marking 1 ∷ []) (marking 2 ∷ [])) 5 execute
        ≡ wrap_tool (marking 1 ∷ []) 5 (λ c. wrap_tool (marking 2 ∷ []) c execute))
extend_composes_example =
    extend_composes (marking 1 ∷ []) (marking 2 ∷ []) none execute 5 (some hello) 3 4
