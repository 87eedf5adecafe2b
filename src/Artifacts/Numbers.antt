-- ===== src/Artifacts/Numbers.antt =====
-- The numbers that the versions of orxhestra/artifacts/in_memory_artifact_service.py carry.
use orxhestra.Prelude.{
  ℕ, suc, ◌+◌, List, [], ◌∷◌, ◌++◌, ◌≡◌, refl, sym, subst, arith, Bool-cases, inl, inr, Text, Dict,
  lookup, length, ◌==ₜ◌,
}
use orxhestra.Values.{Value}
use orxhestra.Artifacts.{
  Entry, Store, Key, path, versions_in, versions_of, new_entry, save_artifact, delete_artifact,
}
use orxhestra.Artifacts.Versions.{saved_versions, saved_versions_at, deleted_versions, added}

-- The entries are numbered from n on, each with the size of its content.
abbrev pub NumberedFrom : ℕ → List Entry → Type 0
NumberedFrom n [] = Unit
NumberedFrom n (e ∷ es) =
    (e.version_info.version ≡ n)
    × (e.version_info.size_bytes ≡ length e.content)
    × NumberedFrom (suc n) es

NumberedFrom-last :
    (n : ℕ) (es : List Entry) (e : Entry)
    → NumberedFrom n es
    → e.version_info.version ≡ n + length es
    → e.version_info.size_bytes ≡ length e.content
    → NumberedFrom n (es ++ e ∷ [])
NumberedFrom-last n [] e h v z = (omega arith, z, tt)
NumberedFrom-last n (x ∷ es) e h v z =
    (h.0, h.1, NumberedFrom-last (suc n) es e h.2 (omega arith) z)

pub data Step : Store → Store → Type 0 where
  save_step :
      {store : Store} (k : Key) (content : List ℕ) (mime_type : Text) (metadata : Dict Value)
      (now : Text)
      → Step store (save_artifact k content mime_type metadata now store).1
  delete_step : {store : Store} (k : Key) → Step store (delete_artifact k store).1

pub data Reach : Store → Type 0 where
  start : Reach []
  next : {store store' : Store} → Reach store → Step store store' → Reach store'

save-NumberedFrom :
    (k : Key) (content : List ℕ) (mime_type : Text) (metadata : Dict Value) (now : Text)
    (store : Store) (j : Key)
    → NumberedFrom 0 (versions_of k store)
    → NumberedFrom 0 (versions_of j store)
    → NumberedFrom 0 (versions_of j (save_artifact k content mime_type metadata now store).1)
unfolding new_entry
save-NumberedFrom k content mime_type metadata now store j hk hj =
    subst (NumberedFrom 0) (sym (saved_versions_at k content mime_type metadata now store j))
      (elim (Bool-cases (path k ==ₜ path j)) [
        | inl e ↦ rw e (
            subst (NumberedFrom 0) (sym (saved_versions k content mime_type metadata now store)) (
              NumberedFrom-last 0 (versions_of k store)
                (added k content mime_type metadata now store) hk (omega arith) refl))
        | inr e ↦ rw e hj
      ])

Step-NumberedFrom :
    {store store' : Store}
    → Step store store'
    → ((j : Key) → NumberedFrom 0 (versions_of j store))
    → (j : Key) → NumberedFrom 0 (versions_of j store')
Step-NumberedFrom {store} (save_step k content mime_type metadata now) h j =
    save-NumberedFrom k content mime_type metadata now store j (h k) (h j)
Step-NumberedFrom {store} (delete_step k) h j =
    subst (NumberedFrom 0) (sym (deleted_versions k store j))
      (elim (Bool-cases (path k ==ₜ path j)) [ inl e ↦ rw e tt | inr e ↦ rw e (h j) ])

-- After any saves and deletes, the versions of every artifact carry the numbers 0, 1, 2 and so on, and each
-- the size of its content.
pub Reach-NumberedFrom :
    {store : Store} → Reach store → (k : Key) → NumberedFrom 0 (versions_of k store)
unfolding versions_of versions_in lookup
Reach-NumberedFrom start k = tt
Reach-NumberedFrom (next r s) k = Step-NumberedFrom s (Reach-NumberedFrom r) k
