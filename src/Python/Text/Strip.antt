-- ===== src/Python/Text/Strip.antt =====
-- `str.strip()` on a text without spaces.
use ditto_client.Prelude.{◌≡◌, refl, false, [], ◌∷◌, All}
use ditto_client.Python.Text.{Str, is_space, lstrip, rstrip_cons, rstrip, strip}

-- No space in front.
abbrev NoLead : Str → Type 0
NoLead [] = Unit {0}
NoLead (c ∷ s) = is_space c ≡ false

NoLead-lstrip : (s : Str) → NoLead s → lstrip s ≡ s
unfolding lstrip
NoLead-lstrip [] h = refl
NoLead-lstrip (c ∷ s) h = rw h

abbrev pub NoSpace : Str → Type 0
NoSpace s = All (λ c. is_space c ≡ false) s

NoSpace-rstrip : (s : Str) → NoSpace s → rstrip s ≡ s
unfolding rstrip rstrip_cons
NoSpace-rstrip [] h = refl
NoSpace-rstrip (c ∷ s) h = rw (NoSpace-rstrip s h.1) (kept s)
  where
    kept : (s : Str) → rstrip_cons c s ≡ c ∷ s
    kept [] = rw h.0
    kept (d ∷ s) = refl

NoSpace-NoLead : (s : Str) → NoSpace s → NoLead s
NoSpace-NoLead [] h = tt
NoSpace-NoLead (c ∷ s) h = h.0

-- A text without spaces stays as it is.
pub strip-NoSpace : (s : Str) → NoSpace s → strip s ≡ s
unfolding strip
strip-NoSpace s h = rw (NoLead-lstrip s (NoSpace-NoLead s h)) (NoSpace-rstrip s h)
