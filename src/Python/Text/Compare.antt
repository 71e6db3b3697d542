-- ===== src/Python/Text/Compare.antt =====
-- Comparing texts: `==`, `in` a collection of texts, `endswith`, and `lower()`.
use ditto_client.Prelude.{
  ◌+◌, ◌-◌, ◌≡◌, refl, ◌↔◌, Bool, true, false, List, [], ◌∷◌, arith, ◌==◌, ◌&&◌, ◌||◌,
  if◌then◌else◌, length, drop, leb,
}
use ditto_client.Python.Text.{Str, between}

-- `s == t`
unfoldable pub text_eq : Str → Str → Bool
text_eq [] [] = true
text_eq [] (d ∷ t) = false
text_eq (c ∷ s) [] = false
text_eq (c ∷ s) (d ∷ t) = c == d && text_eq s t

pub text_eq_iff : (s t : Str) → (text_eq s t ≡ true) ↔ (s ≡ t)
unfolding text_eq
text_eq_iff [] [] = ((λ h. refl), (λ h. refl))
text_eq_iff [] (d ∷ t) = ground arith
text_eq_iff (c ∷ s) [] = ground arith
text_eq_iff (c ∷ s) (d ∷ t) = ground (arith, text_eq_iff s t)

-- `s in texts`
unfoldable pub is_member : Str → List Str → Bool
unfolding text_eq
is_member s [] = false
is_member s (t ∷ texts) = text_eq s t || is_member s texts

-- `s.endswith(suffix)`
unfoldable pub ends_with : Str → Str → Bool
unfolding text_eq
ends_with s suffix =
    leb (length suffix) (length s) && text_eq (drop (length s - length suffix) s) suffix

-- `s.lower()`, as far as ASCII letters go. The source looks in the result for words of ASCII letters
-- only, and none of their letters is the lower case of a letter outside of ASCII.
unfoldable pub lower : Str → Str
lower [] = []
lower (c ∷ s) = (if between b'A' b'Z' c then c + 32 else c) ∷ lower s
