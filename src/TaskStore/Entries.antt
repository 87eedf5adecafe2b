-- ===== src/TaskStore/Entries.antt =====
-- Lemmas on the ordered entries of `InMemoryTaskStore` in orxhestra/a2a/store.py: moving an entry to the end and
-- evicting from the front.
use orxhestra.Prelude.{
  ℕ, ◌≤◌, ◌<◌, Bool, not, ◌≢◌, true, false, none, some, [], ◌∷◌, ◌++◌, ◌≡◌, refl, ap, ◌∙◌, arith,
  Text, Dict, length, ◌==ₜ◌, eq_iff, eq_refl, if◌then◌else◌, ◌&&◌, lookup, insert, remove, has_key,
  lookup-insert_self,
}
use orxhestra.TaskStore.{to_end, move_to_end, evict}

module _ {V : Type 0} where
  pub length-evict : (m : ℕ) (d : Dict V) → length (evict m d) ≤ m
  unfolding evict
  length-evict m [] = omega arith
  length-evict m (x ∷ d) = ground (arith, length-evict m d)

  pub evict_fits : (m : ℕ) (d : Dict V) → length d ≤ m → evict m d ≡ d
  unfolding evict
  evict_fits m [] h = refl
  evict_fits m (x ∷ d) h = ground arith

  pub remove-insert : (k : Text) (v : V) (d : Dict V) → remove k (insert k v d) ≡ remove k d
  unfolding remove insert
  remove-insert k v [] = ground (arith, eq_refl k)
  remove-insert k v ((j, w) ∷ d) = ground (arith, remove-insert k v d)

  pub move_to_end-insert :
      (k : Text) (v : V) (d : Dict V) → move_to_end k (insert k v d) ≡ remove k d ++ (k, v) ∷ []
  unfolding move_to_end to_end
  move_to_end-insert k v d =
      ap (to_end k (insert k v d)) (lookup-insert_self k v d)
      ∙ ap (λ l. l ++ (k, v) ∷ []) (remove-insert k v d)

  pub lookup-moved :
      (k j : Text) (v : V) (d : Dict V)
      → lookup j (remove k d ++ (k, v) ∷ []) ≡ (if k ==ₜ j then some v else lookup j d)
  unfolding lookup remove
  lookup-moved k j v [] = refl
  lookup-moved k j v ((i, w) ∷ d) =
      ground (arith, lookup-moved k j v d, eq_iff i k, eq_iff i j, eq_iff k j)

  pub length-remove : (k : Text) (d : Dict V) → length (remove k d) ≤ length d
  unfolding remove
  length-remove k [] = omega arith
  length-remove k ((i, w) ∷ d) = ground (arith, length-remove k d)

  pub length-remove_key :
      (k : Text) (d : Dict V) → has_key k d ≡ true → length (remove k d) < length d
  unfolding remove has_key
  length-remove_key k [] h = cc
  length-remove_key k ((i, w) ∷ d) h = ground (arith, length-remove k d, length-remove_key k d)

  pub has_key-remove :
      (k j : Text) (d : Dict V) → has_key j (remove k d) ≡ true → has_key j d ≡ true
  unfolding remove has_key
  has_key-remove k j [] h = cc
  has_key-remove k j ((i, w) ∷ d) h = ground (arith, has_key-remove k j d)

  -- Every key stands once.
  unfoldable pub is_distinct : Dict V → Bool
  is_distinct [] = true
  is_distinct ((k, v) ∷ d) = not (has_key k d) && is_distinct d

  pub is_distinct-remove :
      (k : Text) (d : Dict V) → is_distinct d ≡ true → is_distinct (remove k d) ≡ true
  unfolding is_distinct remove
  is_distinct-remove k [] h = refl
  is_distinct-remove k ((i, w) ∷ d) h = ground (arith, is_distinct-remove k d, has_key-remove k i d)

  pub has_key-last :
      (k j : Text) (v : V) (d : Dict V)
      → has_key j (d ++ (k, v) ∷ []) ≡ true
      → j ≢ k
      → has_key j d ≡ true
  unfolding has_key
  has_key-last k j v [] h n = ground (arith, eq_iff k j)
  has_key-last k j v ((i, w) ∷ d) h n = ground (arith, has_key-last k j v d)

  pub remove-absent : (k : Text) (d : Dict V) → has_key k (remove k d) ≡ false
  unfolding has_key remove
  remove-absent k [] = refl
  remove-absent k ((i, w) ∷ d) = ground (arith, remove-absent k d)

  pub is_distinct-last :
      (k : Text) (v : V) (d : Dict V)
      → has_key k d ≡ false
      → is_distinct d ≡ true
      → is_distinct (d ++ (k, v) ∷ []) ≡ true
  unfolding has_key is_distinct
  is_distinct-last k v [] a h = refl
  is_distinct-last k v ((i, w) ∷ d) a h =
      ground (arith, is_distinct-last k v d, has_key-last k i v d, eq_iff i k)

  pub is_distinct-evict :
      (m : ℕ) (d : Dict V) → is_distinct d ≡ true → is_distinct (evict m d) ≡ true
  unfolding is_distinct evict
  is_distinct-evict m [] h = refl
  is_distinct-evict m (x ∷ d) h = ground (arith, is_distinct-evict m d)

  pub has_key-lookup : (k : Text) (v : V) (d : Dict V) → lookup k d ≡ some v → has_key k d ≡ true
  unfolding has_key lookup
  has_key-lookup k v [] h = cc
  has_key-lookup k v ((i, w) ∷ d) h = ground (arith, has_key-lookup k v d)

  pub lookup-none : (k : Text) (d : Dict V) → lookup k d ≡ none → has_key k d ≡ false
  unfolding has_key lookup
  lookup-none k [] h = refl
  lookup-none k ((i, w) ∷ d) h = ground (arith, lookup-none k d)
