-- ===== src/Scripts/Contracts.antt =====
-- contracts/validate_contracts.py. `json.loads` of a file and `str` of a JSON value are arguments.
pub mod Ids
pub mod Laws
use ditto_client.Prelude.{
  ℕ, suc, Option, none, some, Bool, true, false, List, [], ◌∷◌, ◌++◌, if◌then◌else◌, is_empty,
}
use ditto_client.Python.Text.{Str, codes}
use ditto_client.Python.Text.Compare.{is_member}
use ditto_client.Python.Json.Values.{Json, get_or_null, as_object, as_array}
use ditto_client.Python.Errors.{Result, ok, err, attribute_error, ◌>>=◌}
use ditto_client.Scripts.Keys.{missing, exit_code}

pub data Issue : Type 0 where
  invalid_json no_cases : Issue
  missing_top : List Str → Issue
  not_object : ℕ → Issue
  missing_fields : ℕ → List Str → Issue
  duplicate_id : Str → Issue

-- REQUIRED_TOP_LEVEL and REQUIRED_CASE_FIELDS, sorted.
abbrev pub top_level : List Str
top_level = codes "cases" ∷ codes "suite" ∷ codes "version" ∷ []

abbrev pub case_fields : List Str
case_fields = codes "expect" ∷ codes "id" ∷ codes "inputs" ∷ codes "operation" ∷ []

module _ (str : Json → Str) where
  -- What the loop does with a case that is a dictionary and lacks the given fields: the issues it adds,
  -- and the ids seen behind it.
  unfoldable pub check_fields : ℕ → List Str → List (Str × Json) → List Str → List Issue × List Str
  unfolding is_member get_or_null
  check_fields idx seen_ids d (key ∷ keys) = (missing_fields idx (key ∷ keys) ∷ [], seen_ids)
  check_fields idx seen_ids d [] =
      let case_id = str (get_or_null (codes "id") d) in
      (if is_member case_id seen_ids then duplicate_id case_id ∷ [] else [], case_id ∷ seen_ids)

  unfoldable pub check_case : ℕ → List Str → Json → List Issue × List Str
  unfolding missing check_fields
  check_case idx seen_ids entry = elim (as_object entry) [
    | none ↦ (not_object idx ∷ [], seen_ids)
    | some d ↦ check_fields idx seen_ids d (missing case_fields d)
  ]

  unfoldable pub check_cases : ℕ → List Str → List Json → List Issue
  unfolding check_case
  check_cases idx seen_ids [] = []
  check_cases idx seen_ids (entry ∷ entries) =
      let (issues, seen_ids') = check_case idx seen_ids entry in
      issues ++ check_cases (suc idx) seen_ids' entries

  -- `payload["cases"]`, once it is known to be an array.
  unfoldable pub check_entries : List Json → List Issue
  unfolding check_cases
  check_entries [] = no_cases ∷ []
  check_entries (entry ∷ entries) = check_cases 0 [] (entry ∷ entries)

  -- A payload that is a dictionary and lacks the given fields.
  unfoldable pub check_body : List (Str × Json) → List Str → List Issue
  unfolding get_or_null check_entries
  check_body d (key ∷ keys) = missing_top (key ∷ keys) ∷ []
  check_body d [] = elim (as_array (get_or_null (codes "cases") d)) [
    | none ↦ no_cases ∷ []
    | some entries ↦ check_entries entries
  ]

  unfoldable pub check_payload : List (Str × Json) → List Issue
  unfolding missing check_body
  check_payload d = check_body d (missing top_level d)

  -- A payload that is no dictionary has no `keys`.
  unfoldable pub validate_contract : Option Json → Result (List Issue)
  unfolding check_payload
  validate_contract none = ok (invalid_json ∷ [])
  validate_contract (some payload) = elim (as_object payload) [
    | none ↦ err attribute_error
    | some d ↦ ok (check_payload d)
  ]

  -- `for f in files: all_issues.extend(validate_contract(f))`
  unfoldable pub validate_all : List (Option Json) → Result (List Issue)
  unfolding validate_contract
  validate_all [] = ok []
  validate_all (file ∷ files) = do
    issues ← validate_contract file
    rest ← validate_all files
    ok (issues ++ rest)

  -- The exit code of the script.
  unfoldable pub main : List (Option Json) → Result ℕ
  unfolding validate_all
  main [] = ok 1
  main (file ∷ files) = do all_issues ← validate_all (file ∷ files); ok (exit_code all_issues)
