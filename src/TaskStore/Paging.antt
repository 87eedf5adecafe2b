-- ===== src/TaskStore/Paging.antt =====
-- Paging through `InMemoryTaskStore.list` in orxhestra/a2a/store.py.
use orxhestra.Prelude.{
  ℕ, zero, suc, ◌+◌, ◌-◌, ◌≤◌, ◌<◌, false, Option, none, some, List, [], ◌∷◌, ◌++◌, ◌≡◌, refl, sym,
  ap, ◌∙◌, subst, arith, Text, length, take, drop, length-drop, drop_nil, take-append-drop, ltb,
  Bool-cases, if◌then◌else◌, ℤ, pos, negsuc, ◌+ℤ◌, at_least_one, below, slice, slice_lem, take_past,
  inl, inr,
}
use Prim.Native.Nat.{◌%◌}
use orxhestra.TaskStore.{
  Task, TaskState, TaskStore, matching, rstrip, replicate, Tokens, encode_cursor, padding, or_start,
  or_read, decode_cursor, next_cursor, list,
}

-- What the cursors rely on: decoding undoes encoding; an encoded text is a body that does not
-- end in `=`, then at most three `=` that fill it up to a multiple of four; reading an offset undoes printing
-- it.
pub record IsTokens (t : Tokens) : Type 0 where
  pub decode-encode : (x : Text) → t.decode64 (t.encode64 x) ≡ some x
  pub body : Text → Text
  pub fill : Text → ℕ
  pub padded : (x : Text) → t.encode64 x ≡ body x ++ replicate (fill x) 61
  pub bare : (x : Text) → rstrip 61 (body x) ≡ body x
  pub short : (x : Text) → fill x < 4
  pub fours : (x : Text) → (length (body x) + fill x) % 4 ≡ 0
  pub read-print : (n : ℕ) → t.read_offset (t.print_offset (pos n)) ≡ some (pos n)

rstrip-replicate : (n : ℕ) → rstrip 61 (replicate n 61) ≡ []
unfolding rstrip replicate
rstrip-replicate zero = refl
rstrip-replicate (suc n) = ground (arith, rstrip-replicate n)

rstrip-append : (t : Text) (n : ℕ) → rstrip 61 (t ++ replicate n 61) ≡ rstrip 61 t
unfolding rstrip
rstrip-append [] n = rstrip-replicate n
rstrip-append (c ∷ t) n = rw (rstrip-append t n) refl

length-replicate : (n c : ℕ) → length (replicate n c) ≡ n
unfolding replicate
length-replicate zero c = refl
length-replicate (suc n) c = omega (arith, length-replicate n c)

fill_up : (l k : ℕ) → k < 4 → (l + k) % 4 ≡ 0 → (4 - l % 4) % 4 ≡ k
fill_up l k h e = omega arith

at_least_one_positive : (i : ℤ) → 1 ≤ at_least_one i
unfolding at_least_one
at_least_one_positive (pos n) = omega arith
at_least_one_positive (negsuc n) = omega arith

suc_add : (n m : ℕ) → suc n + m ≡ suc (n + m)
suc_add n m = omega arith

module _ {A : Type 0} where
  drop_past : (n : ℕ) (xs : List A) → length xs ≤ n → drop n xs ≡ []
  drop_past n [] h = drop_nil n
  drop_past zero (x ∷ xs) h = ground arith
  drop_past (suc n) (x ∷ xs) h = drop_past n xs (omega arith)

  drop-drop : (n m : ℕ) (xs : List A) → drop (n + m) xs ≡ drop m (drop n xs)
  drop-drop n m [] = drop_nil (n + m) ∙ sym (drop_nil m) ∙ ap (drop m) (sym (drop_nil n))
  drop-drop zero m (x ∷ xs) = ap (λ k. drop k (x ∷ xs)) (omega arith)
  drop-drop (suc n) m (x ∷ xs) =
      subst (λ k. drop k (x ∷ xs) ≡ drop m (drop n xs)) (sym (suc_add n m)) (drop-drop n m xs)

module _ {Message Artifact : Type 0} where
  unfoldable pub and_next :
      List (Task Message Artifact) × Option Text
      → (Text → List (Task Message Artifact))
      → List (Task Message Artifact)
  and_next (page, none) rest = page
  and_next (page, some next) rest = page ++ rest next

module _ (t : Tokens) {Message Artifact : Type 0} where
  -- The pages that a client gets that starts at a cursor and follows at most `fuel` cursors.
  unfoldable pub follow :
      ℕ
      → Option Text
      → Option TaskState
      → ℤ
      → Option Text
      → TaskStore Message Artifact
      → List (Task Message Artifact)
  follow zero context state limit cursor store = []
  follow (suc fuel) context state limit cursor store =
      and_next (list t context state limit cursor store)
        (λ next. follow fuel context state limit (some next) store)

module _ (t : Tokens) (good : IsTokens t) where
  repad :
      (x : Text) → rstrip 61 (t.encode64 x) ++ padding t (rstrip 61 (t.encode64 x)) ≡ t.encode64 x
  unfolding padding
  repad x =
      rw
        (
          good.padded x,
          rstrip-append (good.body x) (good.fill x),
          good.bare x,
          fill_up (length (good.body x)) (good.fill x) (good.short x) (good.fours x),
        )
        refl

  decode_padded :
      (n : ℕ) (c : Text)
      → c ++ padding t c ≡ t.encode64 (t.print_offset (pos n))
      → decode_cursor t (some c) ≡ pos n
  unfolding decode_cursor or_read or_start
  decode_padded n c e =
      ap (λ x. or_read t (t.decode64 x)) e
      ∙ ap (or_read t) (good.decode-encode (t.print_offset (pos n)))
      ∙ ap (or_start t) (good.read-print n)

  decode-encode : (n : ℕ) → decode_cursor t (some (encode_cursor t (pos n))) ≡ pos n
  unfolding encode_cursor
  decode-encode n =
      decode_padded n (rstrip 61 (t.encode64 (t.print_offset (pos n))))
        (repad (t.print_offset (pos n)))

  module _ {Message Artifact : Type 0} where
    module _ (context : Option Text) (state : Option TaskState) (limit : ℤ)
        (store : TaskStore Message Artifact) where
      abbrev tasks : List (Task Message Artifact)
      tasks = matching context state store

      abbrev step : ℕ
      step = at_least_one limit

      list_lem :
          (n : ℕ) (cursor : Option Text)
          → decode_cursor t cursor ≡ pos n
          → list t context state limit cursor store ≡ (
            take step (drop n tasks),
            if ltb (n + step) (length tasks) then some (encode_cursor t (pos (n + step))) else none,
          )
      unfolding list ◌+ℤ◌ next_cursor below
      list_lem n cursor e =
          ap (λ i. (slice tasks i (i +ℤ step), next_cursor t (i +ℤ step) tasks)) e
          ∙ ap (λ page. (page, next_cursor t (pos (n + step)) tasks)) (slice_lem tasks n step)

      past : (n : ℕ) → ltb (n + step) (length tasks) ≡ false → length (drop n tasks) ≤ step
      past n h = ground (arith, length-drop n tasks)

      follow_from :
          (fuel n : ℕ) (cursor : Option Text)
          → decode_cursor t cursor ≡ pos n
          → length tasks ≤ n + fuel
          → follow t fuel context state limit cursor store ≡ drop n tasks
      unfolding follow and_next
      follow_from zero n cursor e h = sym (drop_past n tasks (omega arith))
      follow_from (suc fuel) n cursor e h =
          rw (list_lem n cursor e) (elim (Bool-cases (ltb (n + step) (length tasks))) [
            | inl y ↦ rw y (
                ap (λ l. take step (drop n tasks) ++ l)
                  (follow_from fuel (n + step) (some (encode_cursor t (pos (n + step))))
                    (decode-encode (n + step)) (omega (arith, at_least_one_positive limit)))
                ∙ rw (drop-drop n step tasks) (take-append-drop step (drop n tasks)))
            | inr y ↦ rw y (take_past step (drop n tasks) (past n y))
          ])

    -- A client that starts without a cursor and follows the cursors it is given gets every task
    -- that passes the filters exactly once, newest first, for every limit (also one below 1), when it
    -- follows as many cursors as there are such tasks and the store does not change meanwhile.
    pub follow-matching :
        (context : Option Text) (state : Option TaskState) (limit : ℤ)
        (store : TaskStore Message Artifact) (fuel : ℕ)
        → length (matching context state store) ≤ fuel
        → follow t fuel context state limit none store ≡ matching context state store
    unfolding decode_cursor
    follow-matching context state limit store fuel h =
        follow_from context state limit store fuel 0 none refl (omega arith)
