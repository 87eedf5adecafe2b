-- ===== src/Values.antt =====
-- JSON-like values: the `Any` of `state`, `args`, `metadata` and of signed payloads. A number is a
-- natural number: the modelled code builds numbers only from time stamps.
use orxhestra.Prelude.{ℕ, zero, suc, Bool, true, false, ◌∷◌, [], Text, Dict, nonempty}

mutual
  pub data Value : Type 0 where
    null : Value
    bool : Bool → Value
    num : ℕ → Value
    text : Text → Value
    obj : Fields → Value
    arr : Items → Value

  pub data Fields : Type 0 where
    end : Fields
    field : Text → Value → Fields → Fields

  pub data Items : Type 0 where
    nil : Items
    cons : Value → Items → Items

-- `bool(v)`
abbrev pub is_truthy : Value → Bool
is_truthy null = false
is_truthy (bool b) = b
is_truthy (num zero) = false
is_truthy (num (suc n)) = true
is_truthy (text s) = nonempty s
is_truthy (arr nil) = false
is_truthy (arr (cons v vs)) = true
is_truthy (obj end) = false
is_truthy (obj (field k v fs)) = true

-- A dictionary as a JSON object.
abbrev pub fields : Dict Value → Fields
fields [] = end
fields ((k, v) ∷ d) = field k v (fields d)

abbrev pub object : Dict Value → Value
object d = obj (fields d)
