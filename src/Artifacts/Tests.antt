-- ===== src/Artifacts/Tests.antt =====
-- Runs of the artifact service, and its theorems at concrete artifacts.
use orxhestra.Prelude.{
  ℕ, zero, suc, ◌<◌, ◌≡◌, refl, Option, none, some, List, [], ◌∷◌, ◌++◌, Text, codes, ◌==ₜ◌, Dict,
  lookup, insert, length, if◌then◌else◌, arith, ℤ, pos, starts_with, has_char,
}
use orxhestra.Artifacts.{
  Store, Key, path, in_session, versions_in, versions_of, save_artifact, load_artifact,
  list_versions, list_artifact_keys, range, new_entry, names_in, listed_name, session_name,
  add_name, before, or_empty,
}
use orxhestra.Artifacts.Versions.{load_artifact-save_artifact}
use orxhestra.Artifacts.Numbers.{NumberedFrom, save_step, Reach, start, next, Reach-NumberedFrom}

abbrev report : Key
report = record {
  app_name = codes "app";
  user_id = codes "ann";
  filename = codes "report";
  session_id = some (codes "s1");
}

-- A user-scoped file with a slash in its name.
abbrev slashed : Key
slashed = record {
  app_name = codes "app";
  user_id = codes "ann";
  filename = codes "s1/report";
  session_id = none;
}

abbrev once : Store
once = (save_artifact report (1 ∷ []) (codes "text/plain") [] (codes "t1") []).1

abbrev twice : Store
twice = (save_artifact report (2 ∷ 3 ∷ []) (codes "text/plain") [] (codes "t2") once).1

abbrev reachable : Reach twice
reachable =
    next (next start (save_step report (1 ∷ []) (codes "text/plain") [] (codes "t1")))
      (save_step report (2 ∷ 3 ∷ []) (codes "text/plain") [] (codes "t2"))

listed :
    list_artifact_keys (codes "app") (codes "ann") (some (codes "s1")) twice ≡ codes "report" ∷ []
unfolding list_artifact_keys names_in listed_name session_name add_name before or_empty starts_with
    has_char path in_session save_artifact versions_of versions_in lookup insert ◌==ₜ◌
    orxhestra.Prelude.keys new_entry
listed = refl

load_artifact-save_artifact_example :
    (load_artifact report
        (some (pos (save_artifact report (4 ∷ []) (codes "a/b") [] (codes "t3") twice).0))
        (save_artifact report (4 ∷ []) (codes "a/b") [] (codes "t3") twice).1
      ≡ some (4 ∷ []))
    × (load_artifact report none
          (save_artifact report (4 ∷ []) (codes "a/b") [] (codes "t3") twice).1
        ≡ some (4 ∷ []))
    × (list_versions report (save_artifact report (4 ∷ []) (codes "a/b") [] (codes "t3") twice).1
        ≡ range 0 (suc (save_artifact report (4 ∷ []) (codes "a/b") [] (codes "t3") twice).0))
load_artifact-save_artifact_example =
    load_artifact-save_artifact report (4 ∷ []) (codes "a/b") [] (codes "t3") twice

one_version : 0 < length (versions_of report once)
unfolding save_artifact versions_of versions_in lookup insert ◌==ₜ◌ path in_session new_entry
one_version = omega arith

Reach-NumberedFrom_example : NumberedFrom 0 (versions_of report twice)
Reach-NumberedFrom_example = Reach-NumberedFrom reachable report
