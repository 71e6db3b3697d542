-- ===== src/Scripts/Manifest/Laws.antt =====
-- What a manifest that the script accepts says of the repository.
use ditto_client.Prelude.{
  ◌≡◌, refl, ap, ◌∙◌, ◌⊎◌, inl, inr, Option, none, some, Bool, true, false, ◌&&◌, List, [], ◌∷◌,
  ◌++◌, arith, All,
}
use ditto_client.Python.Text.{Str, codes}
use ditto_client.Python.Text.Compare.{text_eq, text_eq_iff}
use ditto_client.Python.Json.Values.{Json, null, text, object, array, boolean, integer, real}
use ditto_client.Python.Json.Access.{get_method}
use ditto_client.Python.Errors.{Result, ok, ◌>>◌, >>=-eq-ok, ok-injective}
use ditto_client.Scripts.Release.{
  Repo, require, found, is_equal, is_version, parse_regex, package_path, entry_field, texts_eq,
  check_package, check_entries,
}
use ditto_client.Scripts.Manifest.{version_pattern}

-- A test that the script requires holds if the script goes on.
pub required_lem :
    {A : Type 0} (test : Bool) (rest : Result A) {a : A}
    → (require test >> rest) ≡ ok a
    → (test ≡ true) × (rest ≡ ok a)
required_lem true rest h = (refl, h)
required_lem false rest h = absurd (ground (arith, h))

pub require_lem : (test : Bool) {u : Unit {0}} → require test ≡ ok u → test ≡ true
require_lem true h = refl
require_lem false h = absurd (ground (arith, h))

pub found_lem : {A : Type 0} (o : Option A) {a : A} → found o ≡ ok a → o ≡ some a
found_lem none h = absurd (ground (arith, h))
found_lem (some a) h = ap some (ok-injective h)

pub is_equal_lem : (x : Json) (s : Str) → is_equal x s ≡ true → x ≡ text s
is_equal_lem (text t) s h = ap text ((text_eq_iff t s).0 h)
is_equal_lem null s h = absurd (ground (arith, h))
is_equal_lem (boolean b) s h = absurd (ground (arith, h))
is_equal_lem (integer n) s h = absurd (ground (arith, h))
is_equal_lem (real r) s h = absurd (ground (arith, h))
is_equal_lem (array xs) s h = absurd (ground (arith, h))
is_equal_lem (object ms) s h = absurd (ground (arith, h))

is_version_lem : (x : Json) (s : Str) → is_version x s ≡ true → (x ≡ null) ⊎ (x ≡ text s)
is_version_lem null s h = inl refl
is_version_lem (text t) s h = inr (is_equal_lem (text t) s h)
is_version_lem (boolean b) s h = absurd (ground (arith, h))
is_version_lem (integer n) s h = absurd (ground (arith, h))
is_version_lem (real r) s h = absurd (ground (arith, h))
is_version_lem (array xs) s h = absurd (ground (arith, h))
is_version_lem (object ms) s h = absurd (ground (arith, h))

pub both_lem : (a b : Bool) → (a && b) ≡ true → (a ≡ true) × (b ≡ true)
both_lem a b h = ground arith

pub texts_eq_lem : (ss ts : List Str) → texts_eq ss ts ≡ true → ss ≡ ts
unfolding texts_eq
texts_eq_lem [] [] h = refl
texts_eq_lem [] (t ∷ ts) h = absurd (ground (arith, h))
texts_eq_lem (s ∷ ss) [] h = absurd (ground (arith, h))
texts_eq_lem (s ∷ ss) (t ∷ ts) h =
    let (here, rest) = both_lem (text_eq s t) (texts_eq ss ts) h in
    ap (λ x. x ∷ ss) ((text_eq_iff s t).0 here) ∙ ap (λ xs. t ∷ xs) (texts_eq_lem ss ts rest)

-- Every entry names no version, or this one.
abbrev pub EntriesAgree : Str → List (Str × Json) → Type 0
EntriesAgree release_version entries =
    All
      (λ e.
        (get_method (codes "version") e.1 ≡ ok null)
        ⊎ (get_method (codes "version") e.1 ≡ ok (text release_version)))
      entries

pub check_entries_lem :
    (entries : List (Str × Json)) (release_version : Str)
    → check_entries entries release_version ≡ ok tt
    → EntriesAgree release_version entries
unfolding check_entries
check_entries_lem [] release_version h = tt
check_entries_lem ((sdk, entry) ∷ entries) release_version h =
    let (version, read, next) = >>=-eq-ok (get_method (codes "version") entry) _ h in
    let (agrees, rest) =
      required_lem (is_version version release_version) (check_entries entries release_version)
        next in
    (
      elim (is_version_lem version release_version agrees) [
        | inl absent ↦ inl (read ∙ ap ok absent)
        | inr same ↦ inr (read ∙ ap ok same)
      ],
      check_entries_lem entries release_version rest,
    )

module _ (repo : Repo) where
  -- The first match of the pattern in the package file of an SDK is the text.
  abbrev pub FoundIn : Json → Str → Str → Str → Type 0
  FoundIn sdks sdk pattern s =
      (path contents : Str) × (package_path sdks sdk ≡ ok path)
      × (repo.read_text path ≡ ok contents)
      × (repo.search pattern contents ≡ some s)

  -- The package file has the version, and the name that the manifest gives it.
  abbrev pub PackageAgrees : Json → Str → Str → Str → Str → Type 0
  PackageAgrees sdks sdk names suffix release_version =
      FoundIn sdks sdk version_pattern release_version
      × ((name : Str) × FoundIn sdks sdk names name
          × (entry_field sdks sdk (codes "package_name") ≡ ok (text (name ++ suffix))))

  parsed_lem :
      (sdks : Json) (sdk path pattern s : Str)
      → package_path sdks sdk ≡ ok path
      → parse_regex repo path pattern ≡ ok s
      → FoundIn sdks sdk pattern s
  unfolding parse_regex
  parsed_lem sdks sdk path pattern s at_path h =
      let (contents, read, rest) =
        >>=-eq-ok (repo.read_text path) (λ contents. found (repo.search pattern contents)) h in
      (path, contents, at_path, read, found_lem (repo.search pattern contents) rest)

  pub check_package_lem :
      (sdks : Json) (sdk names suffix release_version : Str)
      → check_package repo sdks sdk names version_pattern suffix release_version ≡ ok tt
      → PackageAgrees sdks sdk names suffix release_version
  unfolding check_package
  check_package_lem sdks sdk names suffix release_version h =
      let (path, at_path, h1) = >>=-eq-ok (package_path sdks sdk) _ h in
      let (name, named, h2) = >>=-eq-ok (parse_regex repo path names) _ h1 in
      let (version, versioned, h3) = >>=-eq-ok (parse_regex repo path version_pattern) _ h2 in
      let (declared, read, h4) = >>=-eq-ok (entry_field sdks sdk (codes "package_name")) _ h3 in
      let (same_name, h5) =
        required_lem (is_equal declared (name ++ suffix))
          (require (text_eq version release_version)) h4 in
      let same =
        (text_eq_iff version release_version).0
          (require_lem (text_eq version release_version) h5) in
      (
        parsed_lem sdks sdk path version_pattern release_version at_path (versioned ∙ ap ok same),
        (
          name,
          parsed_lem sdks sdk path names name at_path named,
          read ∙ ap ok (is_equal_lem declared (name ++ suffix) same_name),
        ),
      )
