-- ===== src/Artifacts.antt =====
-- orxhestra/artifacts/in_memory_artifact_service.py, with the version record of base_artifact_service.py.
-- Bytes are a list of numbers, and the clock is an argument of the operation that reads it. A store is
-- the service's dictionary from paths to version lists.
pub mod Versions
pub mod Numbers
pub mod Tests
use orxhestra.Prelude.{
  ℕ, Bool, true, false, Option, none, some, List, [], ◌∷◌, ◌++◌, ◌==◌, ltb, Text, Dict, codes,
  lookup, insert, remove, has_key, length, nonempty, drop, starts_with, has_char, if◌then◌else◌, ℤ,
  pos, negsuc, subscript, ◌&&◌, ◌==ₜ◌, zero, suc, not, keys,
}
use orxhestra.Values.{Value}

pub record ArtifactVersion : Type 0 where
  pub version : ℕ
  pub filename : Text
  pub mime_type : Text
  pub size_bytes : ℕ
  pub created_at : Text
  pub metadata : Dict Value

pub record Entry : Type 0 where
  pub content : List ℕ
  pub version_info : ArtifactVersion

abbrev pub Store : Type 0
Store = Dict (List Entry)

-- `app_name`, `user_id`, `filename` and `session_id`, which every operation takes.
pub record Key : Type 0 where
  pub app_name : Text
  pub user_id : Text
  pub filename : Text
  pub session_id : Option Text

unfoldable pub in_session : Option Text → Text
in_session none = []
in_session (some s) = if nonempty s then s ++ codes "/" else []

-- `_path`: a session id that is missing or empty leaves its part out.
unfoldable pub path : Key → Text
path k =
    k.app_name ++ codes "/" ++ k.user_id ++ codes "/" ++ (in_session k.session_id ++ k.filename)

unfoldable pub versions_in : Option (List Entry) → List Entry
versions_in none = []
versions_in (some versions) = versions

unfoldable pub versions_of : Key → Store → List Entry
versions_of k store = versions_in (lookup (path k) store)

unfoldable pub new_entry : Key → ℕ → List ℕ → Text → Dict Value → Text → Entry
new_entry k version content mime_type metadata now = record {
  content = content;
  version_info = record {
    version = version;
    filename = k.filename;
    mime_type = mime_type;
    size_bytes = length content;
    created_at = now;
    metadata = metadata;
  };
}

unfoldable pub save_artifact : Key → List ℕ → Text → Dict Value → Text → Store → ℕ × Store
save_artifact k content mime_type metadata now store =
    let version = length (versions_of k store) in
    (
      version,
      insert (path k)
          (versions_of k store ++ new_entry k version content mime_type metadata now ∷ []) store,
    )

unfoldable pub index_of : Option ℤ → ℤ
index_of none = negsuc 0
index_of (some i) = i

-- `versions[idx]`, where an empty list has no entry at all.
unfoldable pub entry_at : Key → Option ℤ → Store → Option Entry
entry_at k version store = subscript (versions_of k store) (index_of version)

unfoldable pub data_in : Option Entry → Option (List ℕ)
data_in none = none
data_in (some e) = some e.content

unfoldable pub info_in : Option Entry → Option ArtifactVersion
info_in none = none
info_in (some e) = some e.version_info

unfoldable pub load_artifact : Key → Option ℤ → Store → Option (List ℕ)
load_artifact k version store = data_in (entry_at k version store)

unfoldable pub get_artifact_version : Key → Option ℤ → Store → Option ArtifactVersion
get_artifact_version k version store = info_in (entry_at k version store)

unfoldable pub delete_artifact : Key → Store → Bool × Store
delete_artifact k store = (has_key (path k) store, remove (path k) store)

-- `list(range(i, i + n))`
unfoldable pub range : ℕ → ℕ → List ℕ
range i zero = []
range i (suc n) = i ∷ range (suc i) n

unfoldable pub list_versions : Key → Store → List ℕ
list_versions k store = range 0 (length (versions_of k store))

-- The order of Python's `str`.
unfoldable pub before : Text → Text → Bool
before [] [] = false
before [] (y ∷ ys) = true
before (x ∷ xs) [] = false
before (x ∷ xs) (y ∷ ys) = if x == y then before xs ys else ltb x y

-- A set of names, as `sorted` lists it.
unfoldable pub add_name : Text → List Text → List Text
add_name n [] = n ∷ []
add_name n (m ∷ ms) =
    let rest = add_name n ms in
    if n ==ₜ m then m ∷ ms else if before n m then n ∷ m ∷ ms else m ∷ rest

-- The name that a path below the user's prefix adds to the listing.
unfoldable pub session_name : Text → Text → List Text → List Text
session_name session remainder names =
    let name = drop (suc (length session)) remainder in
    if nonempty session && starts_with remainder (session ++ codes "/") && not (has_char 47 name)
    then add_name name names
    else names

unfoldable pub listed_name : Text → Text → List Text → List Text
listed_name session remainder names =
    if has_char 47 remainder then session_name session remainder names else add_name remainder names

unfoldable pub names_in : Text → Text → List Text → List Text
names_in prefix session [] = []
names_in prefix session (p ∷ ps) =
    let names = names_in prefix session ps in
    if starts_with p prefix then listed_name session (drop (length prefix) p) names else names

unfoldable pub or_empty : Option Text → Text
or_empty none = []
or_empty (some s) = s

unfoldable pub list_artifact_keys : Text → Text → Option Text → Store → List Text
list_artifact_keys app_name user_id session_id store =
    names_in (app_name ++ codes "/" ++ user_id ++ codes "/") (or_empty session_id) (keys store)
