-- ===== src/Prelude/Lists.antt =====
-- Lists measured and cut by native numbers, Boolean filters and searches, and predicates on lists.
use Prim.Native.Nat.{ℕ, zero, suc, ◌+◌, ◌-◌, min}
use mathlib.Core.Path.{◌≡◌, refl, ap}
use mathlib.Core.Bool.{Bool, true, false, ◌&&◌, ◌||◌}
use mathlib.Core.Option.{Option, none, some}
use mathlib.Core.List.{List, [], ◌∷◌, ◌++◌}
use native.Mathlib.Omega.{arith}
use orxhestra.Prelude.Tests.{if◌then◌else◌}

module _ {ℓ} {A : Type ℓ} where
  abbrev pub length : List A → ℕ
  length [] = 0
  length (x ∷ xs) = suc (length xs)

  abbrev pub get_elem? : List A → ℕ → Option A
  get_elem? [] i = none
  get_elem? (x ∷ xs) zero = some x
  get_elem? (x ∷ xs) (suc i) = get_elem? xs i

  abbrev pub take : ℕ → List A → List A
  take zero xs = []
  take (suc n) [] = []
  take (suc n) (x ∷ xs) = x ∷ take n xs

  abbrev pub drop : ℕ → List A → List A
  drop zero xs = xs
  drop (suc n) [] = []
  drop (suc n) (x ∷ xs) = drop n xs

  -- `[x for x in xs if p(x)]`
  abbrev pub keep : (A → Bool) → List A → List A
  keep p [] = []
  keep p (x ∷ xs) = if p x then x ∷ keep p xs else keep p xs

  abbrev pub any : (A → Bool) → List A → Bool
  any p [] = false
  any p (x ∷ xs) = p x || any p xs

  abbrev pub all : (A → Bool) → List A → Bool
  all p [] = true
  all p (x ∷ xs) = p x && all p xs

  -- Truth of a Python list or text.
  abbrev pub nonempty : List A → Bool
  nonempty [] = false
  nonempty (x ∷ xs) = true

module _ {ℓ} {A : Type ℓ} where
  pub length-append : (xs ys : List A) → length (xs ++ ys) ≡ length xs + length ys
  length-append [] ys = omega arith
  length-append (x ∷ xs) ys = omega (arith, length-append xs ys)

  pub take-append-drop : (n : ℕ) (xs : List A) → take n xs ++ drop n xs ≡ xs
  take-append-drop zero xs = refl
  take-append-drop (suc n) [] = refl
  take-append-drop (suc n) (x ∷ xs) = ap (λ l. x ∷ l) (take-append-drop n xs)

  pub length-take : (n : ℕ) (xs : List A) → length (take n xs) ≡ min n (length xs)
  length-take zero xs = omega arith
  length-take (suc n) [] = omega arith
  length-take (suc n) (x ∷ xs) = omega (arith, length-take n xs)

  pub length-drop : (n : ℕ) (xs : List A) → length (drop n xs) ≡ length xs - n
  length-drop zero xs = omega arith
  length-drop (suc n) [] = omega arith
  length-drop (suc n) (x ∷ xs) = omega (arith, length-drop n xs)

  pub keep-append : (p : A → Bool) (xs ys : List A) → keep p (xs ++ ys) ≡ keep p xs ++ keep p ys
  keep-append p [] ys = refl
  keep-append p (x ∷ xs) ys = ground (arith, keep-append p xs ys)

  pub any-append : (p : A → Bool) (xs ys : List A) → any p (xs ++ ys) ≡ (any p xs || any p ys)
  any-append p [] ys = refl
  any-append p (x ∷ xs) ys = ground (arith, any-append p xs ys)

  pub all-append : (p : A → Bool) (xs ys : List A) → all p (xs ++ ys) ≡ (all p xs && all p ys)
  all-append p [] ys = refl
  all-append p (x ∷ xs) ys = ground (arith, all-append p xs ys)

  -- What holds of every element, as a tuple that the tactics read.
  abbrev pub All {κ} : (A → Type κ) → List A → Type κ
  All P [] = Unit
  All P (x ∷ xs) = P x × All P xs

module _ {ℓ κ} {A : Type ℓ} (P : A → Type κ) where
  pub All-append : (xs ys : List A) → All P xs → All P ys → All P (xs ++ ys)
  All-append [] ys hx hy = hy
  All-append (x ∷ xs) ys hx hy = (hx.0, All-append xs ys hx.1 hy)

  pub All-left : (xs ys : List A) → All P (xs ++ ys) → All P xs
  All-left [] ys h = tt
  All-left (x ∷ xs) ys h = (h.0, All-left xs ys h.1)

  pub All-right : (xs ys : List A) → All P (xs ++ ys) → All P ys
  All-right [] ys h = h
  All-right (x ∷ xs) ys h = All-right xs ys h.1
