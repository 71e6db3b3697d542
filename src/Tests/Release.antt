-- ===== src/Tests/Release.antt =====
-- The release validator over a small repository that it accepts.
use ditto_client.Prelude.{◌≡◌, ◌↔◌, refl, none, some, true, [], ◌∷◌, if◌then◌else◌}
use ditto_client.Python.Text.{Str, codes, strip, lstrip, rstrip, rstrip_cons, is_space}
use ditto_client.Python.Text.Compare.{text_eq, lower}
use ditto_client.Python.Json.Values.{
  Json, text, object, done, member, Members, members, lookup, has_key,
}
use ditto_client.Python.Errors.{ok}
use ditto_client.Scripts.Release.{Repo, get_table}
use ditto_client.Scripts.Manifest
use ditto_client.Scripts.Security
use ditto_client.Scripts.Security.{required_policy, markers}
use ditto_client.Scripts.Security.Laws.{IsSecure, security_main_iff}
use ditto_client.Scripts.Manifest.{group_pattern, version_pattern}
use ditto_client.Scripts.Manifest.Parts.{VersionAgrees, SnapshotAgrees}
use ditto_client.Scripts.Manifest.Accepted.{SdksAgree, WorkflowsAgree, manifest_main_lem}

abbrev release : Str
release = codes "1.2.0"

abbrev entry_of : Str → Members → Json
entry_of name rest =
    object
      (member (codes "package_file") (text name) (member (codes "package_name") (text name) rest))

abbrev go_entry : Json
go_entry = entry_of (codes "p") (
    member (codes "module") (text (codes "p")) (
      member (codes "tag") (text (codes "1.2.7"))
        (member (codes "runtime") (text (codes "1.22")) done)))

abbrev the_manifest : Json
the_manifest = object (
    member (codes "release_version") (text release) (
      member (codes "tag") (text (codes "client-v1.2.0")) (
        member (codes "protocol_snapshot")
          (object (
            member (codes "path") (text (codes "s"))
              (member (codes "sha256") (text (codes "AB")) done)))
          (member (codes "sdks")
            (object (
              member (codes "nodejs")
                (object (member (codes "package_file") (text (codes "n")) done))
                (member (codes "python") (entry_of (codes "p") done) (
                  member (codes "java") (entry_of (codes "p:ditto-java-client") done) (
                    member (codes "rust") (entry_of (codes "p") done)
                      (member (codes "go") go_entry done))))))
            done))))

-- Every package is called `p`, and the first group of a tag or a runtime is the whole of it.
abbrev repo : Repo
repo = record {
  read_text = λ path. ok path;
  load_json = λ path. ok (
      if text_eq path (codes "release-manifest.json")
      then the_manifest
      else object (member (codes "version") (text release) done));
  sha256_file = λ path. ok (codes "ab");
  search =
      λ pattern contents. some (if text_eq pattern version_pattern then release else codes "p");
  findall = λ pattern contents. codes "1.22" ∷ [];
  semver = λ s. true;
  go_tag = λ s. some s;
  go_runtime = λ s. some s;
  str = λ x. elim x [ text s ↦ s | _ ↦ [] ];
  same = λ x y. true;
}

accepted : Manifest.main repo (codes "release-manifest.json") none ≡ ok release
unfolding Manifest.main text_eq lower strip lstrip rstrip rstrip_cons is_space members lookup
    has_key
accepted = refl

manifest_main_lem_example :
    (manifest : Json) × (repo.load_json (codes "release-manifest.json") ≡ ok manifest)
    × VersionAgrees repo manifest none release
    × SnapshotAgrees repo manifest
    × SdksAgree repo manifest release
    × WorkflowsAgree repo manifest
manifest_main_lem_example =
    manifest_main_lem repo (codes "release-manifest.json") none release accepted

security_main_iff_example : (Security.main repo ≡ ok tt) ↔ (
    (manifest : Json) × (repo.load_json (codes "release-manifest.json") ≡ ok manifest)
    × ((policy : Json) × (get_table (codes "security_policy") manifest ≡ ok policy)
        × ((production : Json) × (get_table (codes "production") policy ≡ ok production)
            × ((insecure_tls : Json) × (get_table (codes "insecure_tls") policy ≡ ok insecure_tls)
                × IsSecure repo production insecure_tls required_policy markers))))
security_main_iff_example = security_main_iff repo
