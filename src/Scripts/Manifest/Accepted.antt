-- ===== src/Scripts/Manifest/Accepted.antt =====
-- The whole of what the script has tested once it returns.
use ditto_client.Prelude.{◌≡◌, ap, ◌∙◌, Option, some, false, not, List, [], All, all, is_empty}
use ditto_client.Python.Text.{Str, codes, strip}
use ditto_client.Python.Text.Compare.{text_eq}
use ditto_client.Python.Json.Values.{Json, text, object, done}
use ditto_client.Python.Errors.{ok, >>=-eq-ok, ok-injective}
use ditto_client.Scripts.Keys.{missing, missing_iff, HasKeys}
use ditto_client.Scripts.Release.{
  Repo, found, get_default, get_table, validate_release_version, validate_protocol_snapshot,
  check_node, check_package, check_go,
}
use ditto_client.Scripts.Manifest.{
  required_sdks, pairs_of, name_pattern, group_pattern, version_pattern, go_version_pattern,
  validate_sdk_versions, check_workflow, validate_workflow_toolchains, main,
}
use ditto_client.Scripts.Manifest.Laws.{
  required_lem, require_lem, found_lem, EntriesAgree, check_entries_lem, PackageAgrees,
  check_package_lem,
}
use ditto_client.Scripts.Manifest.Parts.{
  done_lem, is_empty_lem, not_lem, all_lem, VersionAgrees, release_version_lem, SnapshotAgrees,
  snapshot_lem, NodeAgrees, node_lem, GoAgrees, go_lem,
}

module _ (repo : Repo) where
  -- Every SDK is in the manifest, and each agrees with the release.
  abbrev pub SdksAgree : Json → Str → Type 0
  SdksAgree manifest release_version =
      (sdks : Json) × (entries : List (Str × Json)) × (get_table (codes "sdks") manifest ≡ ok sdks)
      × (pairs_of sdks ≡ ok entries)
      × HasKeys required_sdks entries
      × NodeAgrees repo sdks release_version
      × PackageAgrees repo sdks (codes "python") name_pattern [] release_version
      × PackageAgrees repo sdks (codes "java") group_pattern (codes ":ditto-java-client")
          release_version
      × PackageAgrees repo sdks (codes "rust") name_pattern [] release_version
      × GoAgrees repo sdks release_version
      × EntriesAgree release_version entries

  sdks_lem :
      (manifest : Json) (release_version : Str)
      → validate_sdk_versions repo manifest release_version ≡ ok tt
      → SdksAgree manifest release_version
  unfolding validate_sdk_versions
  sdks_lem manifest release_version h =
      let (sdks, h0, h1) = >>=-eq-ok (get_table (codes "sdks") manifest) _ h in
      let (entries, h2, h3) = >>=-eq-ok (pairs_of sdks) _ h1 in
      let (full, h4) = required_lem (is_empty (missing required_sdks entries)) _ h3 in
      let (node, h5) = done_lem (check_node repo sdks release_version) _ h4 in
      let (python, h6) =
        done_lem
          (check_package repo sdks (codes "python") name_pattern version_pattern [] release_version)
          _ h5 in
      let (java, h7) =
        done_lem
          (check_package repo sdks (codes "java") group_pattern version_pattern
            (codes ":ditto-java-client") release_version)
          _ h6 in
      let (rust, h8) =
        done_lem
          (check_package repo sdks (codes "rust") name_pattern version_pattern [] release_version) _
          h7 in
      let (go, h9) = done_lem (check_go repo sdks release_version) _ h8 in
      (
        sdks,
        entries,
        h0,
        h2,
        (missing_iff required_sdks entries).0 (is_empty_lem (missing required_sdks entries) full),
        node_lem repo sdks release_version node,
        check_package_lem repo sdks (codes "python") name_pattern [] release_version python,
        check_package_lem repo sdks (codes "java") group_pattern (codes ":ditto-java-client")
            release_version java,
        check_package_lem repo sdks (codes "rust") name_pattern [] release_version rust,
        go_lem repo sdks release_version go,
        check_entries_lem entries release_version h9,
      )

  -- The workflow names a Go version, and none but this one.
  abbrev pub WorkflowAgrees : Str → Str → Type 0
  WorkflowAgrees expected_go workflow_path =
      (workflow : Str) × (repo.read_text workflow_path ≡ ok workflow)
      × (is_empty (repo.findall go_version_pattern workflow) ≡ false)
      × All (λ version. version ≡ expected_go) (repo.findall go_version_pattern workflow)

  workflow_lem :
      (expected_go workflow_path : Str)
      → check_workflow repo expected_go workflow_path ≡ ok tt
      → WorkflowAgrees expected_go workflow_path
  unfolding check_workflow
  workflow_lem expected_go workflow_path h =
      let (workflow, h0, h1) = >>=-eq-ok (repo.read_text workflow_path) _ h in
      let versions = repo.findall go_version_pattern workflow in
      let (some_version, h2) = required_lem (not (is_empty versions)) _ h1 in
      (
        workflow,
        h0,
        not_lem (is_empty versions) some_version,
        all_lem expected_go versions
            (require_lem (all (λ version. text_eq version expected_go) versions) h2),
      )

  -- The three workflows use the Go version of the manifest.
  abbrev pub WorkflowsAgree : Json → Type 0
  WorkflowsAgree manifest =
      (sdks go runtime : Json) × (expected_go : Str) × (get_table (codes "sdks") manifest ≡ ok sdks)
      × (get_default (codes "go") (object done) sdks ≡ ok go)
      × (get_default (codes "runtime") (text []) go ≡ ok runtime)
      × (repo.go_runtime (strip (repo.str runtime)) ≡ some expected_go)
      × WorkflowAgrees expected_go (codes ".github/workflows/client-matrix.yml")
      × WorkflowAgrees expected_go (codes ".github/workflows/coverage-report.yml")
      × WorkflowAgrees expected_go (codes ".github/workflows/release-dry-run.yml")

  workflows_lem :
      (manifest : Json)
      → validate_workflow_toolchains repo manifest ≡ ok tt
      → WorkflowsAgree manifest
  unfolding validate_workflow_toolchains
  workflows_lem manifest h =
      let (sdks, h0, h1) = >>=-eq-ok (get_table (codes "sdks") manifest) _ h in
      let (go, h2, h3) = >>=-eq-ok (get_default (codes "go") (object done) sdks) _ h1 in
      let (runtime, h4, h5) = >>=-eq-ok (get_default (codes "runtime") (text []) go) _ h3 in
      let (expected_go, h6, h7) =
        >>=-eq-ok (found (repo.go_runtime (strip (repo.str runtime)))) _ h5 in
      let (first, h8) =
        done_lem (check_workflow repo expected_go (codes ".github/workflows/client-matrix.yml")) _
          h7 in
      let (second, third) =
        done_lem (check_workflow repo expected_go (codes ".github/workflows/coverage-report.yml")) _
          h8 in
      (
        sdks,
        go,
        runtime,
        expected_go,
        h0,
        h2,
        h4,
        found_lem (repo.go_runtime (strip (repo.str runtime))) h6,
        workflow_lem expected_go (codes ".github/workflows/client-matrix.yml") first,
        workflow_lem expected_go (codes ".github/workflows/coverage-report.yml") second,
        workflow_lem expected_go (codes ".github/workflows/release-dry-run.yml") third,
      )

  -- If the script returns, with a release version: the manifest was read; the version is semver-like, the
  -- expected one if one is given, and makes the tag; the file of the protocol snapshot has the hash of the
  -- manifest; every SDK is in the manifest, the package files of Node, Python, Java and Rust have the
  -- version, and the last three the name of the manifest, the Go tag has its major and minor number, and no
  -- entry has another version; and each workflow names the Go version of the manifest and no other.
  pub manifest_main_lem :
      (manifest_path : Str) (expected_version : Option Str) (release_version : Str)
      → main repo manifest_path expected_version ≡ ok release_version
      → (manifest : Json) × (repo.load_json manifest_path ≡ ok manifest)
        × VersionAgrees repo manifest expected_version release_version
        × SnapshotAgrees repo manifest
        × SdksAgree manifest release_version
        × WorkflowsAgree manifest
  unfolding main
  manifest_main_lem manifest_path expected_version release_version h =
      let (manifest, h0, h1) = >>=-eq-ok (repo.load_json manifest_path) _ h in
      let (version, h2, h3) =
        >>=-eq-ok (validate_release_version repo manifest expected_version) _ h1 in
      let (snapshot, h4) = done_lem (validate_protocol_snapshot repo manifest) _ h3 in
      let (sdks, h5) = done_lem (validate_sdk_versions repo manifest version) _ h4 in
      let (workflows, h6) = done_lem (validate_workflow_toolchains repo manifest) _ h5 in
      let same = ok-injective h6 in
      (
        manifest,
        h0,
        release_version_lem repo manifest expected_version release_version (h2 ∙ ap ok same),
        snapshot_lem repo manifest snapshot,
        rw same at (sdks_lem manifest version sdks),
        workflows_lem manifest workflows,
      )
