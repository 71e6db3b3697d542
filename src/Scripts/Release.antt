-- ===== src/Scripts/Release.antt =====
-- scripts/validate_release_manifest.py. The files of the repository, their hashes and the regular
-- expressions are a parameter.

use ditto_client.Prelude.{
  Option, none, some, Bool, true, false, not, ◌&&◌, List, [], ◌∷◌, ◌++◌, is_empty, take,
}
use ditto_client.Python.Text.{Str, codes, strip}
use ditto_client.Python.Text.Compare.{text_eq, lower}
use ditto_client.Python.Json.Values.{
  Json, null, text, object, done, lookup, or_else, as_object, is_true,
}
use ditto_client.Python.Json.Access.{subscript, get_method}
use ditto_client.Python.Errors.{
  Result, ok, err, system_exit, attribute_error, type_error, raise_if, ◌>>=◌, ◌>>◌,
}
use ditto_client.Scripts.Parity.{split}

pub record Repo : Type 0 where
  -- the text of a file, and what `json.load` makes of it
  pub read_text : Str → Result Str
  pub load_json : Str → Result Json
  pub sha256_file : Str → Result Str
  -- `re.search(pattern, text, re.MULTILINE)` and `re.findall(pattern, text)`: the first group
  pub search : Str → Str → Option Str
  pub findall : Str → Str → List Str
  -- SEMVER_RE, the first group of GO_TAG_RE and of `go\s+(\S+)`
  pub semver : Str → Bool
  pub go_tag : Str → Option Str
  pub go_runtime : Str → Option Str
  -- `str(x)` and `x == y` of JSON values
  pub str : Json → Str
  pub same : Json → Json → Bool

-- `if not test: fail(…)`
abbrev pub require : Bool → Result (Unit {0})
require test = raise_if (not test) system_exit

-- A value that must be there, or `fail`.
abbrev pub found : {A : Type 0} → Option A → Result A
found none = err system_exit
found (some a) = ok a

-- `x == s` for a text
abbrev pub is_equal : Json → Str → Bool
is_equal (text t) s = text_eq t s
is_equal _ s = false

-- `x.get(key, default)`
unfoldable pub get_default : Str → Json → Json → Result Json
unfolding lookup
get_default key default value = elim (as_object value) [
  | none ↦ err attribute_error
  | some d ↦ ok (elim (lookup key d) [ none ↦ default | some x ↦ x ])
]

-- `x.get(key) or {}`
unfoldable pub get_table : Str → Json → Result Json
unfolding get_method
get_table key value = do x ← get_method key value; ok (or_else x (object done))

-- The right operand of `root / x`
abbrev pub as_path : Json → Result Str
as_path (text s) = ok s
as_path _ = err type_error

-- `if expected_version and release_version != expected_version`
abbrev pub is_expected : Option Str → Str → Bool
is_expected (some (c ∷ expected)) release_version = text_eq release_version (c ∷ expected)
is_expected _ release_version = true

-- `root / sdks[sdk]["package_file"]`
unfoldable pub package_path : Json → Str → Result Str
unfolding subscript
package_path sdks sdk = do
  entry ← subscript sdk sdks
  file ← subscript (codes "package_file") entry
  as_path file

-- `sdks[sdk].get(key)`
unfoldable pub entry_field : Json → Str → Str → Result Json
unfolding subscript get_method
entry_field sdks sdk key = do entry ← subscript sdk sdks; get_method key entry

-- `go_version.split(".")[:2] != release_version.split(".")[:2]`
unfoldable pub texts_eq : List Str → List Str → Bool
unfolding text_eq
texts_eq [] [] = true
texts_eq [] (t ∷ ts) = false
texts_eq (s ∷ ss) [] = false
texts_eq (s ∷ ss) (t ∷ ts) = text_eq s t && texts_eq ss ts

abbrev pub is_version : Json → Str → Bool
is_version null release_version = true
is_version version release_version = is_equal version release_version

-- `for sdk, entry in sdks.items()`
unfoldable pub check_entries : List (Str × Json) → Str → Result (Unit {0})
unfolding get_method
check_entries [] release_version = ok tt
check_entries ((sdk, entry) ∷ entries) release_version = do
  version ← get_method (codes "version") entry
  require (is_version version release_version)
  check_entries entries release_version

module _ (repo : Repo) where
  unfoldable pub parse_regex : Str → Str → Result Str
  parse_regex path pattern = do contents ← repo.read_text path; found (repo.search pattern contents)

  unfoldable pub validate_release_version : Json → Option Str → Result Str
  unfolding get_default get_method strip
  validate_release_version manifest expected_version = do
    raw ← get_default (codes "release_version") (text []) manifest
    require (repo.semver (strip (repo.str raw)))
    tag ← get_method (codes "tag") manifest
    require (is_equal tag (codes "client-v" ++ strip (repo.str raw)))
    require (is_expected expected_version (strip (repo.str raw)))
    ok (strip (repo.str raw))

  unfoldable pub validate_protocol_snapshot : Json → Result (Unit {0})
  unfolding get_table get_method get_default lower
  validate_protocol_snapshot manifest = do
    proto ← get_table (codes "protocol_snapshot") manifest
    rel_path ← get_method (codes "path") proto
    hash ← get_default (codes "sha256") (text []) proto
    require (is_true rel_path && not (is_empty (lower (repo.str hash))))
    path ← as_path rel_path
    actual_hash ← repo.sha256_file path
    require (text_eq actual_hash (lower (repo.str hash)))

  unfoldable pub check_node : Json → Str → Result (Unit {0})
  unfolding package_path entry_field get_method
  check_node sdks release_version = do
    node_path ← package_path sdks (codes "nodejs")
    node_pkg ← repo.load_json node_path
    name ← get_method (codes "name") node_pkg
    package_name ← entry_field sdks (codes "nodejs") (codes "package_name")
    require (repo.same name package_name)
    version ← get_method (codes "version") node_pkg
    require (is_equal version release_version)

  -- The common course for Python, Java and Rust: the package name is what the first pattern finds, with
  -- the suffix.
  unfoldable pub check_package : Json → Str → Str → Str → Str → Str → Result (Unit {0})
  unfolding package_path entry_field parse_regex
  check_package sdks sdk name_pattern version_pattern suffix release_version = do
    path ← package_path sdks sdk
    name ← parse_regex path name_pattern
    version ← parse_regex path version_pattern
    package_name ← entry_field sdks sdk (codes "package_name")
    require (is_equal package_name (name ++ suffix))
    require (text_eq version release_version)

  unfoldable pub check_go : Json → Str → Result (Unit {0})
  unfolding package_path entry_field parse_regex subscript get_default strip split texts_eq
  check_go sdks release_version = do
    go_path ← package_path sdks (codes "go")
    go_module ← parse_regex go_path (codes "^module\\s+(\\S+)")
    module_name ← entry_field sdks (codes "go") (codes "module")
    require (is_equal module_name go_module)
    entry ← subscript (codes "go") sdks
    tag ← get_default (codes "tag") (text []) entry
    go_version ← found (repo.go_tag (strip (repo.str tag)))
    require (texts_eq (take 2 (split b'.' go_version)) (take 2 (split b'.' release_version)))
