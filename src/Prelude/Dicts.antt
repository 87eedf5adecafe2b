-- ===== src/Prelude/Dicts.antt =====
-- Python's `dict` with text keys, in insertion order: an assignment to a key that is present keeps
-- its place, and a new key goes to the end.
use mathlib.Core.Path.{◌≡◌, refl}
use mathlib.Core.Bool.{Bool, true, false}
use mathlib.Core.Option.{Option, none, some}
use mathlib.Core.List.{List, [], ◌∷◌}
use native.Mathlib.Omega.{arith}
use orxhestra.Prelude.Tests.{if◌then◌else◌}
use orxhestra.Prelude.Texts.{Text, ◌==ₜ◌, eq_iff, eq_refl}

abbrev pub Dict {ℓ} : Type ℓ → Type ℓ
Dict V = List (Text × V)

module _ {ℓ} {V : Type ℓ} where
  -- `d.get(k)`
  unfoldable pub lookup : Text → Dict V → Option V
  lookup k [] = none
  lookup k ((j, v) ∷ m) = if j ==ₜ k then some v else lookup k m

  -- `k in d`
  unfoldable pub has_key : Text → Dict V → Bool
  has_key k [] = false
  has_key k ((j, v) ∷ m) = if j ==ₜ k then true else has_key k m

  -- `d[k] = v`
  unfoldable pub insert : Text → V → Dict V → Dict V
  insert k v [] = (k, v) ∷ []
  insert k v ((j, w) ∷ m) = if j ==ₜ k then (j, v) ∷ m else (j, w) ∷ insert k v m

  -- `d.pop(k, None)`
  unfoldable pub remove : Text → Dict V → Dict V
  remove k [] = []
  remove k ((j, w) ∷ m) = if j ==ₜ k then remove k m else (j, w) ∷ remove k m

  -- `d.update(e)`, also `{**d, **e}`
  unfoldable pub merge : Dict V → Dict V → Dict V
  unfolding insert
  merge d [] = d
  merge d ((k, v) ∷ e) = merge (insert k v d) e

  unfoldable pub values : Dict V → List V
  values [] = []
  values ((k, v) ∷ m) = v ∷ values m

  unfoldable pub keys : Dict V → List Text
  keys [] = []
  keys ((k, v) ∷ m) = k ∷ keys m

module _ {ℓ} {V : Type ℓ} where
  -- Reading a dict after an assignment.
  pub lookup-insert :
      (written read : Text) (v : V) (d : Dict V)
      → lookup read (insert written v d) ≡ (if written ==ₜ read then some v else lookup read d)
  unfolding insert lookup
  lookup-insert written read v [] = refl
  lookup-insert written read v ((key, old) ∷ rest) = ground (
    arith,
    lookup-insert written read v rest,
    eq_iff key read,
    eq_iff key written,
    eq_iff written read,
  )

  pub lookup-insert_self : (k : Text) (v : V) (m : Dict V) → lookup k (insert k v m) ≡ some v
  lookup-insert_self k v m = simp (lookup-insert, eq_refl)

  pub lookup-remove :
      (k j : Text) (m : Dict V) → lookup j (remove k m) ≡ (if k ==ₜ j then none else lookup j m)
  unfolding lookup remove
  lookup-remove k j [] = ground arith
  lookup-remove k j ((i, w) ∷ m) =
      ground (arith, lookup-remove k j m, eq_iff i k, eq_iff i j, eq_iff k j)

pub ruleset dict_laws = (lookup-insert, lookup-remove)
