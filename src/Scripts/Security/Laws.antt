-- ===== src/Scripts/Security/Laws.antt =====
-- Which repositories the security validator accepts.
use ditto_client.Prelude.{◌≡◌, refl, sym, ap, ◌↔◌, Bool, true, false, List, [], ◌∷◌, arith, All}
use ditto_client.Python.Text.{Str, codes, contains}
use ditto_client.Python.Text.Compare.{text_eq_iff}
use ditto_client.Python.Json.Values.{Json, null, boolean, integer, real, text, array, object}
use ditto_client.Python.Json.Access.{get_method}
use ditto_client.Python.Errors.{Result, ok, err, ◌>>=◌, ◌>>◌, ok-injective}
use ditto_client.Scripts.Views.{iff_trans, iff_pair}
use ditto_client.Scripts.Release.{Repo, require, is_equal, get_table}
use ditto_client.Scripts.Manifest.Laws.{is_equal_lem}
use ditto_client.Scripts.Security.{
  required_policy, markers, is_the_true, check_policy, require_contains, check_tables, main,
}

bind_iff :
    {A B : Type 0} (m : Result A) (f : A → Result B) (b : B)
    → ((m >>= f) ≡ ok b) ↔ ((a : A) × (m ≡ ok a) × (f a ≡ ok b))
bind_iff (ok a) f b = ((λ h. (a, refl, h)), (λ (a', same, h). rw (ok-injective same) h))
bind_iff (err e) f b =
    ((λ h. absurd (ground (arith, h))), (λ (a', same, h). absurd (ground (arith, same))))

some_iff :
    {A : Type 0} {R P Q : A → Type 0}
    → ((a : A) → P a ↔ Q a)
    → ((a : A) × R a × P a) ↔ ((a : A) × R a × Q a)
some_iff p = ((λ (a, r, x). (a, r, (p a).0 x)), (λ (a, r, x). (a, r, (p a).1 x)))

require_iff :
    (test : Bool) (rest : Result (Unit {0}))
    → ((require test >> rest) ≡ ok tt) ↔ ((test ≡ true) × (rest ≡ ok tt))
require_iff true rest = ((λ h. (refl, h)), (λ h. h.1))
require_iff false rest = ((λ h. absurd (ground (arith, h))), (λ h. absurd (ground (arith, h.0))))

is_equal_iff : (s : Str) (x : Json) → (is_equal x s ≡ true) ↔ (x ≡ text s)
is_equal_iff s x = (is_equal_lem x s, λ h. rw h ((text_eq_iff s s).1 refl))

is_the_true_iff : (x : Json) → (is_the_true x ≡ true) ↔ (x ≡ boolean true)
is_the_true_iff (boolean b) = ((λ h. ap boolean h), (λ h. cc))
is_the_true_iff null = ((λ h. absurd (ground (arith, h))), (λ h. cc))
is_the_true_iff (integer n) = ((λ h. absurd (ground (arith, h))), (λ h. cc))
is_the_true_iff (real s) = ((λ h. absurd (ground (arith, h))), (λ h. cc))
is_the_true_iff (text s) = ((λ h. absurd (ground (arith, h))), (λ h. cc))
is_the_true_iff (array xs) = ((λ h. absurd (ground (arith, h))), (λ h. cc))
is_the_true_iff (object ms) = ((λ h. absurd (ground (arith, h))), (λ h. cc))

-- A member that must have one value.
field_iff :
    (member : Result Json) (test : Json → Bool) (value : Json) (rest : Result (Unit {0}))
    {P : Type 0}
    → ((x : Json) → (test x ≡ true) ↔ (x ≡ value))
    → (rest ≡ ok tt) ↔ P
    → ((member >>= λ x. require (test x) >> rest) ≡ ok tt) ↔ ((member ≡ ok value) × P)
field_iff (ok x) test value rest exact p =
    iff_trans (require_iff (test x) rest)
      (iff_pair (iff_trans (exact x) ((λ h. ap ok h), (λ h. ok-injective h))) p)
field_iff (err e) test value rest exact p =
    ((λ h. absurd (ground (arith, h))), (λ h. absurd (ground (arith, h.0))))

-- Each SDK has the policy.
abbrev pub HasPolicies : Json → List (Str × Str) → Type 0
HasPolicies insecure_tls policies = All (λ p. get_method p.0 insecure_tls ≡ ok (text p.1)) policies

check_policy_iff :
    (insecure_tls : Json) (policies : List (Str × Str))
    → (check_policy insecure_tls policies ≡ ok tt) ↔ HasPolicies insecure_tls policies
unfolding check_policy
check_policy_iff insecure_tls [] = ((λ h. tt), (λ h. refl))
check_policy_iff insecure_tls ((sdk, expected) ∷ rest) =
    field_iff (get_method sdk insecure_tls) (λ x. is_equal x expected) (text expected)
      (check_policy insecure_tls rest) (is_equal_iff expected) (check_policy_iff insecure_tls rest)

marker_iff :
    (read : Result Str) (needle : Str) (rest : Result (Unit {0})) {P : Type 0}
    → (rest ≡ ok tt) ↔ P
    → ((read >>= λ contents. require (contains contents needle) >> rest) ≡ ok tt)
      ↔ (((contents : Str) × (read ≡ ok contents) × (contains contents needle ≡ true)) × P)
marker_iff (err e) needle rest p =
    ((λ h. absurd (ground (arith, h))), (λ ((other, same, has), q). absurd (ground (arith, same))))
marker_iff (ok contents) needle rest p =
    let here = require_iff (contains contents needle) rest in
    (
      (λ h. let (has, next) = here.0 h in ((contents, refl, has), p.0 next)),
      λ ((other, same, has), q). here.1 (rw (sym (ok-injective same)) at has, p.1 q),
    )

module _ (repo : Repo) where
  -- Each file contains its marker.
  abbrev pub HasMarkers : List (Str × Str) → Type 0
  HasMarkers needles =
      All
        (λ p.
          (contents : Str) × (repo.read_text p.0 ≡ ok contents) × (contains contents p.1 ≡ true))
        needles

  require_contains_iff :
      (needles : List (Str × Str)) → (require_contains repo needles ≡ ok tt) ↔ HasMarkers needles
  unfolding require_contains
  require_contains_iff [] = ((λ h. tt), (λ h. refl))
  require_contains_iff ((path, needle) ∷ rest) =
      marker_iff (repo.read_text path) needle (require_contains repo rest)
        (require_contains_iff rest)

  -- The rules for production and for TLS without checks, and the markers.
  abbrev pub IsSecure : Json → Json → List (Str × Str) → List (Str × Str) → Type 0
  IsSecure production insecure_tls policies needles =
      (get_method (codes "strict_mode_recommended") production ≡ ok (boolean true))
      × ((get_method (codes "http_tls_verification_required") production ≡ ok (boolean true))
          × ((get_method (codes "tcp_plaintext_remote_policy") production
                ≡ ok (text (codes "loopback-private-or-encrypted-underlay-only")))
              × (HasPolicies insecure_tls policies × HasMarkers needles)))

  then_iff :
      (first rest : Result (Unit {0})) {P Q : Type 0}
      → (first ≡ ok tt) ↔ P
      → (rest ≡ ok tt) ↔ Q
      → ((first >> rest) ≡ ok tt) ↔ (P × Q)
  then_iff (ok u) rest p q = ((λ h. (p.0 refl, q.0 h)), (λ h. q.1 h.1))
  then_iff (err e) rest p q =
      ((λ h. absurd (ground (arith, h))), (λ h. absurd (ground (arith, p.1 h.0))))

  tables_iff :
      (production insecure_tls : Json) (policies needles : List (Str × Str))
      → (check_tables repo production insecure_tls policies needles ≡ ok tt)
        ↔ IsSecure production insecure_tls policies needles
  unfolding check_tables
  tables_iff production insecure_tls policies needles =
      field_iff (get_method (codes "strict_mode_recommended") production) is_the_true (boolean true)
        _ is_the_true_iff
        (field_iff (get_method (codes "http_tls_verification_required") production) is_the_true
          (boolean true) _ is_the_true_iff
          (field_iff (get_method (codes "tcp_plaintext_remote_policy") production)
            (λ x. is_equal x (codes "loopback-private-or-encrypted-underlay-only"))
            (text (codes "loopback-private-or-encrypted-underlay-only")) _
            (is_equal_iff (codes "loopback-private-or-encrypted-underlay-only"))
            (then_iff (check_policy insecure_tls policies) (require_contains repo needles)
              (check_policy_iff insecure_tls policies) (require_contains_iff needles))))

  -- The script returns 0 exactly if the manifest can be read, its tables of the policy ask for strict mode,
  -- for checked certificates and for TCP in the clear only where it is safe, and give each SDK its policy for
  -- TLS without checks, and every file that carries a marker contains it.
  pub security_main_iff : (main repo ≡ ok tt) ↔ (
      (manifest : Json) × (repo.load_json (codes "release-manifest.json") ≡ ok manifest)
      × ((policy : Json) × (get_table (codes "security_policy") manifest ≡ ok policy)
          × ((production : Json) × (get_table (codes "production") policy ≡ ok production)
              × ((insecure_tls : Json) × (get_table (codes "insecure_tls") policy ≡ ok insecure_tls)
                  × IsSecure production insecure_tls required_policy markers))))
  unfolding main
  security_main_iff = iff_trans (bind_iff (repo.load_json (codes "release-manifest.json")) _ tt) (
      some_iff λ manifest.
        iff_trans (bind_iff (get_table (codes "security_policy") manifest) _ tt) (
          some_iff λ policy. iff_trans (bind_iff (get_table (codes "production") policy) _ tt) (
            some_iff λ production.
              iff_trans (bind_iff (get_table (codes "insecure_tls") policy) _ tt) (
                some_iff
                  λ insecure_tls. tables_iff production insecure_tls required_policy markers))))
