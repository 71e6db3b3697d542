-- ===== src/Scripts/Manifest/Parts.antt =====
-- What each check of a manifest has tested once it returns.
use ditto_client.Prelude.{
  ◌≡◌, refl, sym, ap, ◌∙◌, Option, some, Bool, true, false, not, ◌&&◌, List, [], ◌∷◌, ◌++◌, arith,
  All, all, take, is_empty,
}
use ditto_client.Python.Text.{Str, codes, strip}
use ditto_client.Python.Text.Compare.{text_eq, text_eq_iff, lower}
use ditto_client.Python.Json.Values.{Json, text, is_true}
use ditto_client.Python.Json.Access.{subscript, get_method}
use ditto_client.Python.Errors.{Result, ok, err, ◌>>◌, >>=-eq-ok, ok-injective}
use ditto_client.Scripts.Parity.{split}
use ditto_client.Scripts.Release.{
  Repo, found, is_equal, is_expected, get_default, get_table, parse_regex, package_path,
  entry_field, as_path, texts_eq, validate_release_version, validate_protocol_snapshot, check_node,
  check_go,
}
use ditto_client.Scripts.Manifest.Laws.{
  required_lem, require_lem, found_lem, is_equal_lem, texts_eq_lem, both_lem,
}

pub done_lem :
    (test : Result (Unit {0})) {A : Type 0} (rest : Result A) {a : A}
    → (test >> rest) ≡ ok a
    → (test ≡ ok tt) × (rest ≡ ok a)
done_lem (ok u) rest h = (refl, h)
done_lem (err e) rest h = absurd (ground (arith, h))

pub is_empty_lem : {A : Type 0} (xs : List A) → is_empty xs ≡ true → xs ≡ []
is_empty_lem [] h = refl
is_empty_lem (x ∷ xs) h = absurd (ground (arith, h))

pub not_lem : (b : Bool) → not b ≡ true → b ≡ false
not_lem b h = ground arith

pub all_lem :
    (s : Str) (texts : List Str) → all (λ t. text_eq t s) texts ≡ true → All (λ t. t ≡ s) texts
all_lem s [] h = tt
all_lem s (t ∷ texts) h =
    let (here, rest) = both_lem (text_eq t s) (all (λ t. text_eq t s) texts) h in
    ((text_eq_iff t s).0 here, all_lem s texts rest)

module _ (repo : Repo) where
  -- The version is semver-like and the expected one, and the tag is made of it.
  abbrev pub VersionAgrees : Json → Option Str → Str → Type 0
  VersionAgrees manifest expected_version release_version =
      (repo.semver release_version ≡ true)
      × (get_method (codes "tag") manifest ≡ ok (text (codes "client-v" ++ release_version)))
      × (is_expected expected_version release_version ≡ true)

  pub release_version_lem :
      (manifest : Json) (expected_version : Option Str) (release_version : Str)
      → validate_release_version repo manifest expected_version ≡ ok release_version
      → VersionAgrees manifest expected_version release_version
  unfolding validate_release_version
  release_version_lem manifest expected_version release_version h =
      let (raw, read, h1) =
        >>=-eq-ok (get_default (codes "release_version") (text []) manifest) _ h in
      let version = strip (repo.str raw) in
      let (like, h2) = required_lem (repo.semver version) _ h1 in
      let (tag, tagged, h3) = >>=-eq-ok (get_method (codes "tag") manifest) _ h2 in
      let (same_tag, h4) = required_lem (is_equal tag (codes "client-v" ++ version)) _ h3 in
      let (expected, h5) = required_lem (is_expected expected_version version) _ h4 in
      let same = ok-injective h5 in
      (
        rw (sym same) like,
        rw (sym same) (tagged ∙ ap ok (is_equal_lem tag (codes "client-v" ++ version) same_tag)),
        rw (sym same) expected,
      )

  -- The file that the manifest names has the hash that the manifest gives.
  abbrev pub SnapshotAgrees : Json → Type 0
  SnapshotAgrees manifest =
      (proto hash : Json) × (path : Str) × (get_table (codes "protocol_snapshot") manifest
        ≡ ok proto)
      × (get_method (codes "path") proto ≡ ok (text path))
      × (get_default (codes "sha256") (text []) proto ≡ ok hash)
      × (repo.sha256_file path ≡ ok (lower (repo.str hash)))

  as_path_lem : (x : Json) (path : Str) → as_path x ≡ ok path → x ≡ text path
  as_path_lem (text s) path h = ap text (ok-injective h)
  as_path_lem x path h = absurd (ground (arith, h))

  pub snapshot_lem :
      (manifest : Json) → validate_protocol_snapshot repo manifest ≡ ok tt → SnapshotAgrees manifest
  unfolding validate_protocol_snapshot
  snapshot_lem manifest h =
      let (proto, h0, h1) = >>=-eq-ok (get_table (codes "protocol_snapshot") manifest) _ h in
      let (rel_path, h2, h3) = >>=-eq-ok (get_method (codes "path") proto) _ h1 in
      let (hash, h4, h5) = >>=-eq-ok (get_default (codes "sha256") (text []) proto) _ h3 in
      let (given, h6) =
        required_lem (is_true rel_path && not (is_empty (lower (repo.str hash)))) _ h5 in
      let (path, h7, h8) = >>=-eq-ok (as_path rel_path) _ h6 in
      let (actual, h9, h10) = >>=-eq-ok (repo.sha256_file path) _ h8 in
      let same =
        (text_eq_iff actual (lower (repo.str hash))).0
          (require_lem (text_eq actual (lower (repo.str hash))) h10) in
      (proto, hash, path, h0, h2 ∙ ap ok (as_path_lem rel_path path h7), h4, h9 ∙ ap ok same)

  -- The package file of the Node client has the version.
  abbrev pub NodeAgrees : Json → Str → Type 0
  NodeAgrees sdks release_version =
      (path : Str) × (pkg : Json) × (package_path sdks (codes "nodejs") ≡ ok path)
      × (repo.load_json path ≡ ok pkg)
      × (get_method (codes "version") pkg ≡ ok (text release_version))

  pub node_lem :
      (sdks : Json) (release_version : Str)
      → check_node repo sdks release_version ≡ ok tt
      → NodeAgrees sdks release_version
  unfolding check_node
  node_lem sdks release_version h =
      let (path, h0, h1) = >>=-eq-ok (package_path sdks (codes "nodejs")) _ h in
      let (pkg, h2, h3) = >>=-eq-ok (repo.load_json path) _ h1 in
      let (name, h4, h5) = >>=-eq-ok (get_method (codes "name") pkg) _ h3 in
      let (declared, h6, h7) =
        >>=-eq-ok (entry_field sdks (codes "nodejs") (codes "package_name")) _ h5 in
      let (named, h8) = required_lem (repo.same name declared) _ h7 in
      let (version, h9, h10) = >>=-eq-ok (get_method (codes "version") pkg) _ h8 in
      (
        path,
        pkg,
        h0,
        h2,
        h9
            ∙ ap ok (
                is_equal_lem version release_version
                  (require_lem (is_equal version release_version) h10)),
      )

  -- The version in the tag of the Go client has the major and the minor number of the release.
  abbrev pub GoAgrees : Json → Str → Type 0
  GoAgrees sdks release_version =
      (entry tag : Json) × (version : Str) × (subscript (codes "go") sdks ≡ ok entry)
      × (get_default (codes "tag") (text []) entry ≡ ok tag)
      × (repo.go_tag (strip (repo.str tag)) ≡ some version)
      × (take 2 (split b'.' version) ≡ take 2 (split b'.' release_version))

  pub go_lem :
      (sdks : Json) (release_version : Str)
      → check_go repo sdks release_version ≡ ok tt
      → GoAgrees sdks release_version
  unfolding check_go
  go_lem sdks release_version h =
      let (path, h0, h1) = >>=-eq-ok (package_path sdks (codes "go")) _ h in
      let (go_module, h2, h3) =
        >>=-eq-ok (parse_regex repo path (codes "^module\\s+(\\S+)")) _ h1 in
      let (declared, h4, h5) = >>=-eq-ok (entry_field sdks (codes "go") (codes "module")) _ h3 in
      let (named, h6) = required_lem (is_equal declared go_module) _ h5 in
      let (entry, h7, h8) = >>=-eq-ok (subscript (codes "go") sdks) _ h6 in
      let (tag, h9, h10) = >>=-eq-ok (get_default (codes "tag") (text []) entry) _ h8 in
      let (version, h11, h12) = >>=-eq-ok (found (repo.go_tag (strip (repo.str tag)))) _ h10 in
      let same =
        require_lem (texts_eq (take 2 (split b'.' version)) (take 2 (split b'.' release_version)))
          h12 in
      (
        entry,
        tag,
        version,
        h7,
        h9,
        found_lem (repo.go_tag (strip (repo.str tag))) h11,
        texts_eq_lem (take 2 (split b'.' version)) (take 2 (split b'.' release_version)) same,
      )
