-- ===== src/Scripts/Views.antt =====
-- A JSON value as an object or an array or neither, and pairs of equivalent conditions.
use ditto_client.Prelude.{◌≡◌, refl, ◌↔◌, ◌⊎◌, inl, inr, none, some, List}
use ditto_client.Python.Text.{Str}
use ditto_client.Python.Json.Values.{
  Json, null, boolean, integer, real, text, array, object, Items, Members, items, members,
  as_object, as_array,
}

pub object-cases :
    (x : Json)
    → ((as_object x ≡ none) × ((ms : Members) → ¬ (x ≡ object ms)))
      ⊎ ((ms : Members) × (x ≡ object ms))
object-cases (object ms) = inr (ms, refl)
object-cases null = inl (refl, λ ms h. cc)
object-cases (boolean b) = inl (refl, λ ms h. cc)
object-cases (integer n) = inl (refl, λ ms h. cc)
object-cases (real s) = inl (refl, λ ms h. cc)
object-cases (text s) = inl (refl, λ ms h. cc)
object-cases (array xs) = inl (refl, λ ms h. cc)

pub array-cases :
    (x : Json)
    → ((as_array x ≡ none) × ((xs : Items) → ¬ (x ≡ array xs))) ⊎ ((xs : Items) × (x ≡ array xs))
array-cases (array xs) = inr (xs, refl)
array-cases null = inl (refl, λ xs h. cc)
array-cases (boolean b) = inl (refl, λ xs h. cc)
array-cases (integer n) = inl (refl, λ xs h. cc)
array-cases (real s) = inl (refl, λ xs h. cc)
array-cases (text s) = inl (refl, λ xs h. cc)
array-cases (object ms) = inl (refl, λ xs h. cc)

pub object-injective : {ms ns : Members} → Json.object ms ≡ object ns → ms ≡ ns
object-injective h = cc

pub array-injective : {xs ys : Items} → Json.array xs ≡ array ys → xs ≡ ys
array-injective h = cc

pub iff_trans : {A B C : Type 0} → A ↔ B → B ↔ C → A ↔ C
iff_trans f g = ((λ a. g.0 (f.0 a)), (λ c. f.1 (g.1 c)))

pub iff_pair : {A B C D : Type 0} → A ↔ B → C ↔ D → (A × C) ↔ (B × D)
iff_pair f g = ((λ p. (f.0 p.0, g.0 p.1)), (λ q. (f.1 q.0, g.1 q.1)))

-- A check of an object or an array that fails for every other value.
module _ {R : Type 0} (good bad : R) (differ : ¬ (bad ≡ good)) where
  pub object_iff :
      (check : List (Str × Json) → R) (P : List (Str × Json) → Type 0) (x : Json)
      → ((d : List (Str × Json)) → (check d ≡ good) ↔ P d)
      → ((elim (as_object x) as (λ _. R) [ none ↦ bad | some d ↦ check d ]) ≡ good)
        ↔ ((ms : Members) × (x ≡ object ms) × P (members ms))
  object_iff check P x p = elim (object-cases x) [
    | inl (plain, other) ↦
        rw plain ((λ h. absurd (differ h)), (λ (ms, same, q). absurd (other ms same)))
    | inr (ms, same) ↦ rw same (
      (λ h. (ms, refl, (p (members ms)).0 h)),
      (λ (ns, same', q). rw (object-injective same') ((p (members ns)).1 q)),
    )
  ]

  pub array_iff :
      (check : List Json → R) (P : List Json → Type 0) (x : Json)
      → ((vs : List Json) → (check vs ≡ good) ↔ P vs)
      → ((elim (as_array x) as (λ _. R) [ none ↦ bad | some vs ↦ check vs ]) ≡ good)
        ↔ ((xs : Items) × (x ≡ array xs) × P (items xs))
  array_iff check P x p = elim (array-cases x) [
    | inl (plain, other) ↦
        rw plain ((λ h. absurd (differ h)), (λ (xs, same, q). absurd (other xs same)))
    | inr (xs, same) ↦ rw same (
      (λ h. (xs, refl, (p (items xs)).0 h)),
      (λ (ys, same', q). rw (array-injective same') ((p (items ys)).1 q)),
    )
  ]
