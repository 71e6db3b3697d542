-- ===== src/Scripts/Contracts/Ids.antt =====
-- Texts that are pairwise different, and those that a set has not seen yet.
use ditto_client.Prelude.{◌≡◌, refl, ◌∙◌, ◌↔◌, Bool, false, ◌||◌, List, [], ◌∷◌, arith, All}
use ditto_client.Python.Text.{Str}
use ditto_client.Python.Text.Compare.{text_eq, is_member}

-- No text stands behind an equal one.
abbrev pub Distinct : List Str → Type 0
Distinct [] = Unit {0}
Distinct (s ∷ texts) = (is_member s texts ≡ false) × Distinct texts

text_eq_comm : (s t : Str) → text_eq s t ≡ text_eq t s
unfolding text_eq
text_eq_comm [] [] = refl
text_eq_comm [] (d ∷ t) = refl
text_eq_comm (c ∷ s) [] = refl
text_eq_comm (c ∷ s) (d ∷ t) = ground (arith, text_eq_comm s t)

either_false : (a b : Bool) → (a || b) ≡ false → (a ≡ false) × (b ≡ false)
either_false a b h = ground arith

neither : (a b : Bool) → a ≡ false → b ≡ false → (a || b) ≡ false
neither a b h h' = ground arith

-- The ids of the cases are new.
abbrev pub Fresh : List Str → List Str → Type 0
Fresh seen_ids texts = All (λ s. is_member s seen_ids ≡ false) texts

pub Fresh-cons :
    (s : Str) (seen_ids texts : List Str)
    → (Fresh (s ∷ seen_ids) texts) ↔ ((is_member s texts ≡ false) × Fresh seen_ids texts)
unfolding is_member
Fresh-cons s seen_ids [] = ((λ h. (refl, tt)), (λ h. tt))
Fresh-cons s seen_ids (t ∷ texts) =
    let step = Fresh-cons s seen_ids texts in
    (
      (λ (first, rest).
          let (apart, fresh) = either_false (text_eq t s) (is_member t seen_ids) first in
          let (apart', fresh') = step.0 rest in
          (
            neither (text_eq s t) (is_member s texts) (text_eq_comm s t ∙ apart) apart',
            (fresh, fresh'),
          )),
      λ (other, (fresh, fresh')).
          let (apart, apart') = either_false (text_eq s t) (is_member s texts) other in
          (
            neither (text_eq t s) (is_member t seen_ids) (text_eq_comm t s ∙ apart) fresh,
            step.1 (apart', fresh'),
          ),
    )

pub Fresh-nil : (texts : List Str) → Fresh [] texts
unfolding is_member
Fresh-nil [] = tt
Fresh-nil (t ∷ texts) = (refl, Fresh-nil texts)
