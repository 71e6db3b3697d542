-- ===== src/Scripts/Manifest.antt =====
-- scripts/validate_release_manifest.py: the whole of the SDK rules, the workflows, and the script.
pub mod Laws
pub mod Parts
pub mod Accepted
use ditto_client.Prelude.{
  ℕ, Option, none, some, Bool, true, false, not, ◌&&◌, List, [], ◌∷◌, ◌++◌, is_empty, all,
}
use ditto_client.Python.Text.{Str, codes, strip}
use ditto_client.Python.Text.Compare.{text_eq}
use ditto_client.Python.Json.Values.{Json, text, object, done, as_object}
use ditto_client.Python.Json.Access.{get_method}
use ditto_client.Python.Errors.{Result, ok, err, type_error, ◌>>=◌, ◌>>◌}
use ditto_client.Scripts.Keys.{missing}
use ditto_client.Scripts.Release.{
  Repo, require, found, get_default, get_table, validate_release_version,
  validate_protocol_snapshot, check_node, check_package, check_go, check_entries,
}

abbrev pub required_sdks : List Str
required_sdks = codes "go" ∷ codes "java" ∷ codes "nodejs" ∷ codes "python" ∷ codes "rust" ∷ []

-- The pairs of `sdks`, and the TypeError of `set(sdks)` for a number. For a list or a text the script goes on and
-- ends with an error all the same.
abbrev pub pairs_of : Json → Result (List (Str × Json))
pairs_of sdks = elim (as_object sdks) [ none ↦ err type_error | some d ↦ ok d ]

-- The line `name = "…"` of a package file, for the names that are looked for.
abbrev pub name_pattern : Str
name_pattern = codes "^name\\s*=\\s*\"([^\"]+)\""

abbrev pub group_pattern : Str
group_pattern = codes "^group\\s*=\\s*\"([^\"]+)\""

abbrev pub version_pattern : Str
version_pattern = codes "^version\\s*=\\s*\"([^\"]+)\""

abbrev pub go_version_pattern : Str
go_version_pattern = codes "go-version:\\s*\"([^\"]+)\""

module _ (repo : Repo) where
  unfoldable pub validate_sdk_versions : Json → Str → Result (Unit {0})
  unfolding get_table missing check_node check_package check_go check_entries
  validate_sdk_versions manifest release_version = do
    sdks ← get_table (codes "sdks") manifest
    entries ← pairs_of sdks
    require (is_empty (missing required_sdks entries))
    check_node repo sdks release_version
    check_package repo sdks (codes "python") name_pattern version_pattern [] release_version
    check_package repo sdks (codes "java") group_pattern version_pattern
        (codes ":ditto-java-client") release_version
    check_package repo sdks (codes "rust") name_pattern version_pattern [] release_version
    check_go repo sdks release_version
    check_entries entries release_version

  -- One turn of the loop over the workflows.
  unfoldable pub check_workflow : Str → Str → Result (Unit {0})
  check_workflow expected_go workflow_path = do
    workflow ← repo.read_text workflow_path
    require (not (is_empty (repo.findall go_version_pattern workflow)))
    require
        (all (λ version. text_eq version expected_go) (repo.findall go_version_pattern workflow))

  unfoldable pub validate_workflow_toolchains : Json → Result (Unit {0})
  unfolding get_table get_default strip check_workflow
  validate_workflow_toolchains manifest = do
    sdks ← get_table (codes "sdks") manifest
    go ← get_default (codes "go") (object done) sdks
    runtime ← get_default (codes "runtime") (text []) go
    expected_go ← found (repo.go_runtime (strip (repo.str runtime)))
    check_workflow expected_go (codes ".github/workflows/client-matrix.yml")
    check_workflow expected_go (codes ".github/workflows/coverage-report.yml")
    check_workflow expected_go (codes ".github/workflows/release-dry-run.yml")

  -- The script, for a manifest file and the version that is expected, if any: the release version that it
  -- prints before it returns 0.
  unfoldable pub main : Str → Option Str → Result Str
  unfolding validate_release_version validate_protocol_snapshot validate_sdk_versions
      validate_workflow_toolchains
  main manifest_path expected_version = do
    manifest ← repo.load_json manifest_path
    release_version ← validate_release_version repo manifest expected_version
    validate_protocol_snapshot repo manifest
    validate_sdk_versions manifest release_version
    validate_workflow_toolchains manifest
    ok release_version
