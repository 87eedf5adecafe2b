-- ===== src/Prelude/Texts.antt =====
-- Python's `str` as the list of its code points.
use Prim.Native.Char.{code}
use Prim.Native.Nat.{ℕ}
use Prim.Native.String.{String}
use mathlib.Core.Path.{◌≡◌, refl}
use mathlib.Core.Logic.{◌↔◌}
use mathlib.Core.Bool.{Bool, true, false, ◌&&◌, ◌||◌}
use mathlib.Core.List.{List, [], ◌∷◌}
use native.Mathlib.Omega.{arith}
use orxhestra.Prelude.Tests.{◌==◌, if◌then◌else◌}

abbrev pub Text : Type 0
Text = List ℕ

-- A literal of the source.
abbrev pub codes : String → Text
codes String.[] = []
codes (String.◌∷◌ c s) = code c ∷ codes s

infix 50 ◌==ₜ◌
unfoldable pub ◌==ₜ◌ : Text → Text → Bool
[] ==ₜ [] = true
[] ==ₜ (y ∷ ys) = false
(x ∷ xs) ==ₜ [] = false
(x ∷ xs) ==ₜ (y ∷ ys) = x == y && xs ==ₜ ys

eq_sound : (s t : Text) → s ==ₜ t ≡ true → s ≡ t
unfolding ◌==ₜ◌
eq_sound [] [] h = refl
eq_sound [] (y ∷ ys) h = cc
eq_sound (x ∷ xs) [] h = cc
eq_sound (x ∷ xs) (y ∷ ys) h = ground (arith, eq_sound xs ys)

pub eq_refl : (s : Text) → s ==ₜ s ≡ true
unfolding ◌==ₜ◌
eq_refl [] = refl
eq_refl (x ∷ xs) = ground (arith, eq_refl xs)

pub eq_iff : (s t : Text) → (s ==ₜ t ≡ true) ↔ (s ≡ t)
eq_iff s t = (eq_sound s t, λ e. rw (← e) (eq_refl s))

-- `t.startswith(p)`
unfoldable pub starts_with : Text → Text → Bool
starts_with t [] = true
starts_with [] (c ∷ p) = false
starts_with (d ∷ t) (c ∷ p) = d == c && starts_with t p

-- `c in t`, for one character.
unfoldable pub has_char : ℕ → Text → Bool
has_char c [] = false
has_char c (d ∷ t) = if d == c then true else has_char c t

-- `t in xs`, for a list or set of texts.
unfoldable pub mem_text : Text → List Text → Bool
mem_text t [] = false
mem_text t (x ∷ xs) = x ==ₜ t || mem_text t xs
