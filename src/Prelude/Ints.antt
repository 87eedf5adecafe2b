-- ===== src/Prelude/Ints.antt =====
-- Python's integers as far as indices and limits need them, and list subscripts and slices with them:
-- a negative index counts from the end, a slice's bounds are cut to the list.
use Prim.Native.Nat.{ℕ, zero, suc, ◌+◌, ◌-◌, ◌≤◌, min, max}
use mathlib.Core.Path.{◌≡◌, refl, sym, ap, ◌∙◌}
use mathlib.Core.Logic.{◌⊎◌, inl, inr}
use mathlib.Core.Bool.{Bool, true}
use mathlib.Core.Option.{Option, none}
use mathlib.Core.List.{List, [], ◌∷◌}
use native.Mathlib.Omega.{arith}
use orxhestra.Prelude.Tests.{leb, ltb, if◌then◌else◌, Bool-cases, leb→le, leb-false}
use orxhestra.Prelude.Lists.{length, get_elem?, take, drop, length-drop}

-- `pos n` is n, `negsuc n` is -(n + 1).
pub data ℤ : Type 0 where
  pos : ℕ → ℤ
  negsuc : ℕ → ℤ

infixl 20 ◌+ℤ◌
unfoldable pub ◌+ℤ◌ : ℤ → ℕ → ℤ
pos n +ℤ m = pos (n + m)
negsuc n +ℤ m = if leb m n then negsuc (n - m) else pos (m - suc n)

-- `max(1, i)`
unfoldable pub at_least_one : ℤ → ℕ
at_least_one (pos n) = max 1 n
at_least_one (negsuc n) = 1

-- `i < n`
unfoldable pub below : ℤ → ℕ → Bool
below (pos i) n = ltb i n
below (negsuc i) n = true

-- A slice bound on a list of length n.
unfoldable pub bound : ℕ → ℤ → ℕ
bound n (pos i) = min i n
bound n (negsuc i) = n - suc i

module _ {ℓ} {A : Type ℓ} where
  -- `xs[i]`, where none is an `IndexError`.
  unfoldable pub subscript : List A → ℤ → Option A
  subscript xs (pos i) = get_elem? xs i
  subscript xs (negsuc i) =
      if leb (suc i) (length xs) then get_elem? xs (length xs - suc i) else none

  -- `xs[i:j]`
  unfoldable pub slice : List A → ℤ → ℤ → List A
  slice xs i j = take (bound (length xs) j - bound (length xs) i) (drop (bound (length xs) i) xs)

cut :
    (n m l d : ℕ)
    → d ≡ l - n
    → (min (n + m) l - min n l ≡ m) ⊎ (d ≤ min (n + m) l - min n l) × (d ≤ m)
cut n m l d e = elim (Bool-cases (leb (n + m) l)) [
  | inl h ↦ inl (omega (arith, leb→le (n + m) l h))
  | inr h ↦ inr (omega (arith, leb-false (n + m) l h), omega (arith, leb-false (n + m) l h))
]

module _ {A : Type 0} where
  pub drop_nil : (n : ℕ) → drop {A = A} n [] ≡ []
  drop_nil zero = refl
  drop_nil (suc n) = refl

  drop-min : (n : ℕ) (xs : List A) → drop (min n (length xs)) xs ≡ drop n xs
  drop-min n [] = drop_nil (min n 0) ∙ sym (drop_nil n)
  drop-min zero (x ∷ xs) = ground arith
  drop-min (suc n) (x ∷ xs) = ground (arith, drop-min n xs)

  pub take_past : (n : ℕ) (xs : List A) → length xs ≤ n → take n xs ≡ xs
  take_past zero [] h = refl
  take_past zero (x ∷ xs) h = ground arith
  take_past (suc n) [] h = refl
  take_past (suc n) (x ∷ xs) h = ap (λ l. x ∷ l) (take_past n xs (omega arith))

  take_cut :
      (a b : ℕ) (xs : List A) → (a ≡ b) ⊎ (length xs ≤ a) × (length xs ≤ b) → take a xs ≡ take b xs
  take_cut a b xs (inl e) = rw e refl
  take_cut a b xs (inr h) = take_past a xs h.0 ∙ sym (take_past b xs h.1)

  pub slice_lem : (xs : List A) (n m : ℕ) → slice xs (pos n) (pos (n + m)) ≡ take m (drop n xs)
  unfolding slice bound
  slice_lem xs n m = rw (drop-min n xs) (
      take_cut (min (n + m) (length xs) - min n (length xs)) m (drop n xs)
        (cut n m (length xs) (length (drop n xs)) (length-drop n xs)))
