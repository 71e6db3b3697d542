-- ===== src/Scripts/Contracts/Laws.antt =====
-- Which contract files the validator accepts.
use ditto_client.Prelude.{
  ℕ, suc, ◌≡◌, refl, sym, ap, ◌↔◌, Option, none, some, false, List, [], ◌∷◌, ◌++◌, arith, All,
  Bool-cases, inl, inr,
}
use ditto_client.Python.Text.{Str, codes}
use ditto_client.Python.Text.Compare.{is_member}
use ditto_client.Python.Json.Values.{
  Json, object, array, Items, Members, members, items, get_or_null,
}
use ditto_client.Python.Errors.{Result, ok, err, attribute_error, ◌>>=◌, ok-injective}
use ditto_client.Scripts.Keys.{
  missing, missing_iff, HasKeys, append-nil_iff, exit_code, exit_code_iff,
}
use ditto_client.Scripts.Views.{
  object-cases, object-injective, object_iff, array_iff, iff_trans, iff_pair,
}
use ditto_client.Scripts.Contracts.Ids.{Distinct, Fresh, Fresh-cons, Fresh-nil}
use ditto_client.Scripts.Contracts.{
  Issue, no_cases, top_level, check_entries, check_body, case_fields, check_fields, check_case,
  check_cases, check_payload, validate_contract, validate_all, main,
}

-- A case: an object with every field.
abbrev pub IsCase : Json → Type 0
IsCase entry = (ms : Members) × (entry ≡ object ms) × HasKeys case_fields (members ms)

both_iff :
    (x y : Result (List Issue))
    → ((x >>= λ issues. y >>= λ rest. ok (issues ++ rest)) ≡ ok []) ↔ ((x ≡ ok []) × (y ≡ ok []))
both_iff (err e) y = ((λ h. absurd (ground (arith, h))), (λ h. absurd (ground (arith, h.0))))
both_iff (ok issues) (err e) =
    ((λ h. absurd (ground (arith, h))), (λ h. absurd (ground (arith, h.1))))
both_iff (ok issues) (ok rest) =
    let parts = append-nil_iff issues rest in
    (
      (λ h. let (first, second) = parts.0 (ok-injective h) in (ap ok first, ap ok second)),
      λ (first, second). ap ok (parts.1 (ok-injective first, ok-injective second)),
    )

code_iff :
    (x : Result (List Issue)) → ((x >>= λ issues. ok (exit_code issues)) ≡ ok 0) ↔ (x ≡ ok [])
code_iff (err e) = ((λ h. absurd (ground (arith, h))), (λ h. absurd (ground (arith, h))))
code_iff (ok issues) =
    let code = exit_code_iff issues in
    ((λ h. ap ok (code.0 (ok-injective h))), λ h. ap ok (code.1 (ok-injective h)))

module _ (str : Json → Str) where
  -- The id of a case.
  abbrev pub id_of : Json → Str
  id_of (object ms) = str (get_or_null (codes "id") (members ms))
  id_of _ = []

  abbrev pub ids_of : List Json → List Str
  ids_of [] = []
  ids_of (entry ∷ entries) = id_of entry ∷ ids_of entries

  -- One case or more, with distinct ids.
  abbrev pub AreCases : List Json → Type 0
  AreCases entries = ¬ (entries ≡ []) × (All IsCase entries × Distinct (ids_of entries))

  -- A contract: every top-level field, and an array of cases.
  abbrev pub IsContract : List (Str × Json) → Type 0
  IsContract d =
      HasKeys top_level d
      × ((xs : Items) × (get_or_null (codes "cases") d ≡ array xs) × AreCases (items xs))

  -- The file is JSON, and holds a contract.
  abbrev pub HoldsContract : Option Json → Type 0
  HoldsContract none = ⊥
  HoldsContract (some payload) = (ms : Members) × (payload ≡ object ms) × IsContract (members ms)

  fields_iff :
      (idx : ℕ) (seen_ids : List Str) (d : List (Str × Json)) (keys : List Str)
      → ((check_fields str idx seen_ids d keys).0 ≡ [])
        ↔ ((keys ≡ []) × (is_member (str (get_or_null (codes "id") d)) seen_ids ≡ false))
  unfolding check_fields
  fields_iff idx seen_ids d (key ∷ keys) =
      ((λ h. absurd (ground (arith, h))), (λ h. absurd (ground (arith, h.0))))
  fields_iff idx seen_ids d [] =
      elim (Bool-cases (is_member (str (get_or_null (codes "id") d)) seen_ids)) [
        | inl again ↦
            rw again ((λ h. absurd (ground (arith, h))), (λ h. absurd (ground (arith, h.1))))
        | inr new ↦ rw new ((λ h. (refl, refl)), (λ h. refl))
      ]

  checked_iff :
      (idx : ℕ) (seen_ids : List Str) (entry : Json)
      → ((check_case str idx seen_ids entry).0 ≡ [])
        ↔ (IsCase entry × (is_member (id_of entry) seen_ids ≡ false))
  unfolding check_case
  checked_iff idx seen_ids entry = elim (object-cases entry) [
    | inl (plain, other) ↦
        rw (plain, check_case)
          ((λ h. absurd (ground (arith, h))), (λ h. absurd (other h.0.0 h.0.1)))
    | inr (ms, same) ↦
        let keys = missing_iff case_fields (members ms) in
        let here = fields_iff idx seen_ids (members ms) (missing case_fields (members ms)) in
        rw same (
          (λ h. ((ms, refl, keys.0 (here.0 h).0), (here.0 h).1)),
          (λ ((ns, same', full), new).
              here.1 (keys.1 (rw (sym (object-injective same')) at full), new)),
        )
  ]

  seen-fields :
      (idx : ℕ) (seen_ids : List Str) (d : List (Str × Json)) (keys : List Str)
      → keys ≡ []
      → (check_fields str idx seen_ids d keys).1 ≡ str (get_or_null (codes "id") d) ∷ seen_ids
  unfolding check_fields
  seen-fields idx seen_ids d [] h = refl
  seen-fields idx seen_ids d (key ∷ keys) h = absurd (ground (arith, h))

  checked-seen :
      (idx : ℕ) (seen_ids : List Str) (entry : Json)
      → IsCase entry
      → (check_case str idx seen_ids entry).1 ≡ id_of entry ∷ seen_ids
  unfolding check_case
  checked-seen idx seen_ids entry (ms, same, full) = rw same (
      seen-fields idx seen_ids (members ms) (missing case_fields (members ms))
        ((missing_iff case_fields (members ms)).1 full))

  check_cases_iff :
      (idx : ℕ) (seen_ids : List Str) (entries : List Json)
      → (check_cases str idx seen_ids entries ≡ [])
        ↔ (All IsCase entries × (Fresh seen_ids (ids_of entries) × Distinct (ids_of entries)))
  unfolding check_cases
  check_cases_iff idx seen_ids [] = ((λ h. (tt, (tt, tt))), (λ h. refl))
  check_cases_iff idx seen_ids (entry ∷ entries) =
      let issues = (check_case str idx seen_ids entry).0 in
      let seen_ids' = (check_case str idx seen_ids entry).1 in
      let parts = append-nil_iff issues (check_cases str (suc idx) seen_ids' entries) in
      let this = checked_iff idx seen_ids entry in
      let later = check_cases_iff (suc idx) (id_of entry ∷ seen_ids) entries in
      let fresh_iff = Fresh-cons (id_of entry) seen_ids (ids_of entries) in
      (
        (λ h.
            let (none_here, none_later) = parts.0 h in
            let (is_case, new) = this.0 none_here in
            let (cases, (fresh, distinct)) =
              later.0 (rw (checked-seen idx seen_ids entry is_case) at none_later) in
            let (apart, fresh') = fresh_iff.0 fresh in
            ((is_case, cases), ((new, fresh'), (apart, distinct)))),
        λ ((is_case, cases), ((new, fresh), (apart, distinct))). parts.1 (
          this.1 (is_case, new),
          rw (checked-seen idx seen_ids entry is_case)
              (later.1 (cases, (fresh_iff.1 (apart, fresh), distinct))),
        ),
      )

  entries_iff : (entries : List Json) → (check_entries str entries ≡ []) ↔ AreCases entries
  unfolding check_entries
  entries_iff [] = ((λ h. absurd (ground (arith, h))), (λ (h, rest). absurd (h refl)))
  entries_iff (entry ∷ entries) =
      let whole = check_cases_iff 0 [] (entry ∷ entries) in
      (
        (λ h.
            let (cases, (fresh, distinct)) = whole.0 h in
            ((λ e. absurd (ground (arith, e))), (cases, distinct))),
        λ (some_case, (cases, distinct)).
            whole.1 (cases, (Fresh-nil (ids_of (entry ∷ entries)), distinct)),
      )

  fields_of_iff :
      (d : List (Str × Json)) (keys : List Str)
      → (check_body str d keys ≡ []) ↔ (
          (keys ≡ [])
          × ((xs : Items) × (get_or_null (codes "cases") d ≡ array xs) × AreCases (items xs)))
  unfolding check_body
  fields_of_iff d (key ∷ keys) =
      ((λ h. absurd (ground (arith, h))), (λ h. absurd (ground (arith, h.0))))
  fields_of_iff d [] =
      let cases =
        array_iff [] (no_cases ∷ []) (λ h. absurd (ground (arith, h))) (check_entries str) AreCases
          (get_or_null (codes "cases") d) entries_iff in
      ((λ h. (refl, cases.0 h)), (λ h. cases.1 h.1))

  payload_iff : (d : List (Str × Json)) → (check_payload str d ≡ []) ↔ IsContract d
  unfolding check_payload
  payload_iff d =
      iff_trans (fields_of_iff d (missing top_level d))
        (iff_pair (missing_iff top_level d) ((λ h. h), (λ h. h)))

  validate_contract_iff :
      (file : Option Json) → (validate_contract str file ≡ ok []) ↔ HoldsContract file
  unfolding validate_contract
  validate_contract_iff none = ((λ h. absurd (ground (arith, h))), (λ h. absurd h))
  validate_contract_iff (some payload) =
      object_iff (ok []) (err attribute_error) (λ h. cc) (λ d. ok (check_payload str d)) IsContract
        payload (λ d. iff_trans ((λ h. ok-injective h), (λ h. ap ok h)) (payload_iff d))

  validate_all_iff :
      (files : List (Option Json)) → (validate_all str files ≡ ok []) ↔ All HoldsContract files
  unfolding validate_all
  validate_all_iff [] = ((λ h. tt), (λ h. refl))
  validate_all_iff (file ∷ files) =
      iff_trans (both_iff (validate_contract str file) (validate_all str files))
        (iff_pair (validate_contract_iff file) (validate_all_iff files))

  -- The script returns 0 exactly if there is a contract file and every one is JSON and holds an object with
  -- every top-level field, whose cases are a non-empty array of objects with every case field and with
  -- pairwise different ids.
  pub contracts_main_iff :
      (files : List (Option Json))
      → (main str files ≡ ok 0) ↔ (¬ (files ≡ []) × All HoldsContract files)
  unfolding main
  contracts_main_iff [] = ((λ h. absurd (ground (arith, h))), (λ h. absurd (h.0 refl)))
  contracts_main_iff (file ∷ files) =
      let whole =
        iff_trans (code_iff (validate_all str (file ∷ files))) (validate_all_iff (file ∷ files)) in
      ((λ h. ((λ e. absurd (ground (arith, e))), whole.0 h)), (λ h. whole.1 h.1))
