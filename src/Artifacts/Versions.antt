-- ===== src/Artifacts/Versions.antt =====
-- The versions of an artifact of orxhestra/artifacts/in_memory_artifact_service.py.
use orxhestra.Prelude.{
  ℕ, zero, suc, ◌+◌, ◌-◌, ◌<◌, Option, none, some, List, [], ◌∷◌, ◌++◌, ◌≡◌, refl, sym, ap, ◌∙◌,
  subst, arith, Bool-cases, inl, inr, Text, Dict, codes, lookup, lookup-insert, lookup-insert_self,
  lookup-remove, eq_iff, length, length-append, get_elem?, leb, ◌==ₜ◌, if◌then◌else◌, ℤ, pos,
  negsuc, subscript,
}
use orxhestra.Values.{Value}
use orxhestra.Artifacts.{
  Entry, Store, Key, in_session, path, versions_in, versions_of, new_entry, save_artifact, index_of,
  entry_at, data_in, load_artifact, delete_artifact, range, list_versions,
}

pred_add : (n : ℕ) → n ≡ n + 1 - 1
pred_add n = omega arith

module _ {A : Type 0} where
  get_elem?-last : (xs : List A) (x : A) → get_elem? (xs ++ x ∷ []) (length xs) ≡ some x
  get_elem?-last [] x = refl
  get_elem?-last (y ∷ xs) x = get_elem?-last xs x

  get_elem?-before :
      (xs ys : List A) (i : ℕ) → i < length xs → get_elem? (xs ++ ys) i ≡ get_elem? xs i
  get_elem?-before [] ys i h = ground arith
  get_elem?-before (x ∷ xs) ys zero h = refl
  get_elem?-before (x ∷ xs) ys (suc i) h = get_elem?-before xs ys i (omega arith)

  last_of :
      (xs : List A) (x : A) (n : ℕ)
      → get_elem? (xs ++ x ∷ []) n ≡ some x
      → (if leb 1 (n + 1) then get_elem? (xs ++ x ∷ []) (n + 1 - 1) else none) ≡ some x
  last_of xs x n h =
      subst (λ m. (if leb 1 (n + 1) then get_elem? (xs ++ x ∷ []) m else none) ≡ some x)
        (pred_add n) (ground arith)

  length-last : (xs : List A) (x : A) → length (xs ++ x ∷ []) ≡ suc (length xs)
  length-last xs x = omega (arith, length-append xs (x ∷ []))

  -- `xs[-1]`
  subscript-last : (xs : List A) (x : A) → subscript (xs ++ x ∷ []) (negsuc 0) ≡ some x
  unfolding subscript
  subscript-last xs x =
      subst (λ n. (if leb 1 n then get_elem? (xs ++ x ∷ []) (n - 1) else none) ≡ some x)
        (sym (length-append xs (x ∷ []))) (last_of xs x (length xs) (get_elem?-last xs x))

load_same :
    (k j : Key) (v : Option ℤ) (store : Store)
    → path k ≡ path j
    → load_artifact j v store ≡ load_artifact k v store
unfolding load_artifact entry_at versions_of
load_same k j v store e =
    ap (λ q. data_in (subscript (versions_in (lookup q store)) (index_of v))) (sym e)

path_shared :
    (k : Key) (c : ℕ) (s f : Text)
    → k.session_id ≡ none
    → k.filename ≡ (c ∷ s) ++ codes "/" ++ f
    → path k
      ≡ path record {
        app_name = k.app_name;
        user_id = k.user_id;
        filename = f;
        session_id = some (c ∷ s);
      }
unfolding path in_session
path_shared k c s f e g =
    ap (λ rest. k.app_name ++ codes "/" ++ k.user_id ++ codes "/" ++ rest)
      (ap (λ o. in_session o ++ k.filename) e ∙ g)

module _ (k : Key) (content : List ℕ) (mime_type : Text) (metadata : Dict Value) (now : Text)
    (store : Store) where
  abbrev pub saved : ℕ × Store
  saved = save_artifact k content mime_type metadata now store

  abbrev pub old : List Entry
  old = versions_of k store

  abbrev pub added : Entry
  added = new_entry k (length old) content mime_type metadata now

  pub saved_versions : versions_of k saved.1 ≡ old ++ added ∷ []
  unfolding save_artifact versions_of versions_in
  saved_versions = ap versions_in (lookup-insert_self (path k) (old ++ added ∷ []) store)

  pub saved_versions_at :
      (j : Key)
      → versions_of j saved.1
        ≡ (if path k ==ₜ path j then versions_of k saved.1 else versions_of j store)
  unfolding save_artifact versions_of versions_in
  saved_versions_at j = grind (arith, lookup-insert, lookup-insert_self)

  -- `save_artifact` numbers its entry by the count of the versions before it. Loading that number, and
  -- loading without a number, gives the saved content, and the versions listed are 0 up to that number.
  pub load_artifact-save_artifact :
      (load_artifact k (some (pos saved.0)) saved.1 ≡ some content)
      × (load_artifact k none saved.1 ≡ some content)
      × (list_versions k saved.1 ≡ range 0 (suc saved.0))
  unfolding load_artifact list_versions entry_at index_of data_in subscript new_entry save_artifact
  load_artifact-save_artifact = (
    ap data_in (ap (λ es. get_elem? es (length old)) saved_versions ∙ get_elem?-last old added),
    ap data_in (ap (λ es. subscript es (negsuc 0)) saved_versions ∙ subscript-last old added),
    ap (λ es. range 0 (length es)) saved_versions ∙ ap (range 0) (length-last old added),
  )

  kept_here :
      (j : Key) (i : ℕ)
      → path k ≡ path j
      → i < length (versions_of j store)
      → get_elem? (versions_of k saved.1) i ≡ get_elem? (versions_of j store) i
  unfolding versions_of
  kept_here j i e =
      subst
        (λ q.
          i < length (versions_in (lookup q store))
          → get_elem? (versions_of k saved.1) i ≡ get_elem? (versions_in (lookup q store)) i)
        e (λ h. ap (λ es. get_elem? es i) saved_versions ∙ get_elem?-before old (added ∷ []) i h)

  -- Saving never changes what a version number that was there before loads, under the same key or another.
  pub save_artifact_keeps :
      (j : Key) (i : ℕ)
      → i < length (versions_of j store)
      → load_artifact j (some (pos i)) saved.1 ≡ load_artifact j (some (pos i)) store
  unfolding load_artifact entry_at index_of subscript
  save_artifact_keeps j i h = ap data_in (
      ap (λ es. get_elem? es i) (saved_versions_at j) ∙ elim (Bool-cases (path k ==ₜ path j)) [
        | inl e ↦ rw e (kept_here j i ((eq_iff (path k) (path j)).0 e) h)
        | inr e ↦ rw e refl
      ])

  -- A user-scoped file whose name holds a slash and a session-scoped file have one path: what is saved as
  -- the user's `s/f` is loaded as file `f` of session `s`.
  pub save_artifact_crosses :
      (c : ℕ) (s f : Text)
      → k.session_id ≡ none
      → k.filename ≡ (c ∷ s) ++ codes "/" ++ f
      → load_artifact
          record {
            app_name = k.app_name;
            user_id = k.user_id;
            filename = f;
            session_id = some (c ∷ s);
          }
          none
          saved.1
        ≡ some content
  save_artifact_crosses c s f e g =
      load_same k
        record {
          app_name = k.app_name;
          user_id = k.user_id;
          filename = f;
          session_id = some (c ∷ s);
        }
        none saved.1 (path_shared k c s f e g)
      ∙ load_artifact-save_artifact.1

pub deleted_versions :
    (k : Key) (store : Store) (j : Key)
    → versions_of j (delete_artifact k store).1
      ≡ (if path k ==ₜ path j then [] else versions_of j store)
unfolding delete_artifact versions_of versions_in
deleted_versions k store j = grind (arith, lookup-remove)

nothing : (version : Option ℤ) → data_in (subscript [] (index_of version)) ≡ none
unfolding subscript index_of data_in
nothing none = refl
nothing (some (pos i)) = refl
nothing (some (negsuc i)) = ground arith

-- After `delete_artifact`, no version loads under the key's path, with a number or without, and what loads under
-- the other paths is unchanged.
pub delete_artifact_lem :
    (k j : Key) (version : Option ℤ) (store : Store)
    → load_artifact j version (delete_artifact k store).1
      ≡ (if path k ==ₜ path j then none else load_artifact j version store)
unfolding load_artifact entry_at
delete_artifact_lem k j version store =
    ap (λ es. data_in (subscript es (index_of version))) (deleted_versions k store j)
    ∙ elim (Bool-cases (path k ==ₜ path j)) [ inl e ↦ rw e (nothing version) | inr e ↦ rw e refl ]
