-- ===== src/TaskStore/Tests.antt =====
-- Runs of the task store, and its theorems at concrete tasks.
use orxhestra.Prelude.{
  ℕ, zero, suc, ◌+◌, ◌≡◌, refl, true, false, Option, none, some, [], ◌∷◌, ◌++◌, Text, codes, ◌==ₜ◌,
  has_key, remove, insert, lookup, length, values, arith, ℤ, pos, negsuc, ap,
}
use Prim.Native.Nat.{◌%◌}
use orxhestra.TaskStore.{
  working, Task, TaskStore, put, get, move_to_end, to_end, evict, matching, in_context, in_state,
  Tokens, rstrip, replicate, touched, state_value,
}
use orxhestra.TaskStore.Paging.{IsTokens, follow, follow-matching}
use orxhestra.TaskStore.Recency.{put_step, get_step, Reach, start, next}
use orxhestra.TaskStore.Eviction.{put_all, get_survives}

abbrev task : Text → Task Text Text
task id = record {
  id = id;
  context_id = codes "ctx";
  status = record { state = working; message = none; timestamp = none };
  history = none;
  artifacts = none;
  metadata = none;
}

abbrev empty : TaskStore Text Text
empty = record { tasks = []; max_tasks = 2 }

abbrev one_task : TaskStore Text Text
one_task = put (task (codes "a")) empty

abbrev two_tasks : TaskStore Text Text
two_tasks = put (task (codes "b")) one_task

abbrev touched_a : TaskStore Text Text
touched_a = (get (codes "a") two_tasks).1

abbrev reachable : Reach 2 touched_a
reachable =
    next (next (next start (put_step (task (codes "a")))) (put_step (task (codes "b"))))
      (get_step (codes "a"))

-- The first task was fetched, so the second one is evicted.
get_survives_example :
    has_key (codes "a") (put_all (task (codes "c") ∷ []) (get (codes "a") two_tasks).1).tasks ≡ true
unfolding put move_to_end to_end insert remove evict lookup has_key ◌==ₜ◌
get_survives_example = get_survives (codes "a") two_tasks (task (codes "c") ∷ []) refl (omega arith)

second_evicted :
    has_key (codes "b") (put_all (task (codes "c") ∷ []) (get (codes "a") two_tasks).1).tasks
    ≡ false
unfolding put move_to_end to_end insert remove evict lookup has_key ◌==ₜ◌ get touched put_all
second_evicted = refl

-- A toy base64: every character four times, which needs no padding; offsets in unary.
abbrev four_times : Text → Text
four_times [] = []
four_times (c ∷ t) = c ∷ c ∷ c ∷ 65 ∷ four_times t

abbrev with_first : ℕ → Option Text → Option Text
with_first c none = none
with_first c (some t) = some (c ∷ t)

abbrev one_in_four : Text → Option Text
one_in_four [] = some []
one_in_four (c ∷ d ∷ e ∷ f ∷ t) = with_first c (one_in_four t)
one_in_four _ = none

abbrev unary : ℤ → Text
unary (pos n) = replicate n 66
unary (negsuc n) = []

abbrev toy : Tokens
toy = record {
  encode64 = four_times;
  decode64 = one_in_four;
  print_offset = unary;
  read_offset = λ t. some (pos (length t));
}

one_in_four-four_times : (t : Text) → one_in_four (four_times t) ≡ some t
one_in_four-four_times [] = refl
one_in_four-four_times (c ∷ t) = ap (with_first c) (one_in_four-four_times t)

no_padding : (t : Text) → t ≡ t ++ replicate 0 61
unfolding replicate
no_padding [] = refl
no_padding (c ∷ t) = ap (λ l. c ∷ l) (no_padding t)

ends_bare : (t : Text) → rstrip 61 (four_times t) ≡ four_times t
unfolding rstrip
ends_bare [] = refl
ends_bare (c ∷ t) = ground (arith, ends_bare t)

four_each : (t : Text) → (length (four_times t) + 0) % 4 ≡ 0
four_each [] = refl
four_each (c ∷ t) = omega (arith, four_each t)

length_unary : (n : ℕ) → length (replicate n 66) ≡ n
unfolding replicate
length_unary zero = refl
length_unary (suc n) = omega (arith, length_unary n)

toy_good : IsTokens toy
toy_good = record {
  decode-encode = one_in_four-four_times;
  body = four_times;
  fill = λ t. 0;
  padded = λ t. no_padding (four_times t);
  bare = ends_bare;
  short = λ t. omega arith;
  fours = four_each;
  read-print = λ n. ap (λ m. some (pos m)) (length_unary n);
}

follow-matching_example :
    follow toy 2 (some (codes "ctx")) (some working) (pos 1) none two_tasks
    ≡ matching (some (codes "ctx")) (some working) two_tasks
unfolding put move_to_end to_end insert remove evict lookup matching in_context in_state state_value
    ◌==ₜ◌ values
follow-matching_example =
    follow-matching toy toy_good (some (codes "ctx")) (some working) (pos 1) two_tasks 2
      (omega arith)
