-- ===== src/Scripts/Keys.antt =====
-- `required - set(d.keys())` of a dictionary, and the exit codes of the scripts.
use ditto_client.Prelude.{
  ℕ, ◌≡◌, refl, ◌↔◌, true, List, [], ◌∷◌, ◌++◌, if◌then◌else◌, All, Bool-cases, inl, inr, arith,
}
use ditto_client.Python.Text.{Str}
use ditto_client.Python.Json.Values.{Json, has_key}

-- The keys that a dictionary lacks, in their order.
unfoldable pub missing : List Str → List (Str × Json) → List Str
unfolding has_key
missing [] d = []
missing (key ∷ keys) d = let rest = missing keys d in if has_key key d then rest else key ∷ rest

-- A dictionary with all of the keys.
abbrev pub HasKeys : List Str → List (Str × Json) → Type 0
HasKeys keys d = All (λ key. has_key key d ≡ true) keys

pub missing_iff : (keys : List Str) (d : List (Str × Json)) → (missing keys d ≡ []) ↔ HasKeys keys d
unfolding missing
missing_iff [] d = ((λ h. tt), (λ h. refl))
missing_iff (key ∷ keys) d = elim (Bool-cases (has_key key d)) [
  | inl present ↦
      rw present ((λ h. (refl, (missing_iff keys d).0 h)), (λ h. (missing_iff keys d).1 h.1))
  | inr absent ↦ rw absent ((λ h. absurd (ground (arith, h))), (λ h. absurd (ground (arith, h.0))))
]

-- Two lists without an element.
pub append-nil_iff {ℓ} : {A : Type ℓ} (xs ys : List A) → ((xs ++ ys) ≡ []) ↔ ((xs ≡ []) × (ys ≡ []))
append-nil_iff [] ys = ((λ h. (refl, h)), (λ h. h.1))
append-nil_iff (x ∷ xs) ys =
    ((λ h. absurd (ground (arith, h))), (λ h. absurd (ground (arith, h.0))))

-- `return 1 if issues else 0`
abbrev pub exit_code {ℓ} : {A : Type ℓ} → List A → ℕ
exit_code [] = 0
exit_code (issue ∷ issues) = 1

pub exit_code_iff {ℓ} : {A : Type ℓ} (issues : List A) → (exit_code issues ≡ 0) ↔ (issues ≡ [])
exit_code_iff [] = ((λ h. refl), (λ h. refl))
exit_code_iff (issue ∷ issues) =
    ((λ h. absurd (ground (arith, h))), (λ h. absurd (ground (arith, h))))
