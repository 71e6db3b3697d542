-- ===== src/Python/Text.antt =====
-- `str` is the list of its code points and `bytes` the list of its bytes.
pub mod Strip
pub mod Compare
use Prim.Native.Char.{code}
use ditto_client.Prelude.{
  ℕ, ◌+◌, ◌≤◌, ◌<◌, ◌≡◌, refl, Bool, true, false, List, [], ◌∷◌, ◌++◌, String, arith, ltb, leb,
  ◌==◌, ◌&&◌, ◌||◌, if◌then◌else◌, All, length,
}

abbrev pub Str : Type 0
Str = List ℕ

abbrev pub Bytes : Type 0
Bytes = List ℕ

abbrev pub IsByte : ℕ → Type 0
IsByte b = b < 256

-- A literal of the source.
abbrev pub codes : String → Str
codes String.[] = []
codes (String.◌∷◌ c s) = code c ∷ codes s

-- Membership of a code point in a closed range.
abbrev pub between : ℕ → ℕ → ℕ → Bool
between lo hi c = leb lo c && leb c hi

-- `str.isspace` of one character: what `str.strip()` removes.
unfoldable pub is_space : ℕ → Bool
is_space c =
    between 0x09 0x0d c
    || between 0x1c 0x20 c
    || c == 0x85
    || c == 0xa0
    || c == 0x1680
    || between 0x2000 0x200a c
    || between 0x2028 0x2029 c
    || c == 0x202f
    || c == 0x205f
    || c == 0x3000

-- `str.lstrip()`
unfoldable pub lstrip : Str → Str
lstrip [] = []
lstrip (c ∷ s) = let rest = lstrip s in if is_space c then rest else c ∷ s

-- `str.rstrip()`: a character stays if it is no space or if something behind it stays.
unfoldable pub rstrip_cons : ℕ → Str → Str
rstrip_cons c [] = if is_space c then [] else c ∷ []
rstrip_cons c (d ∷ s) = c ∷ d ∷ s

unfoldable pub rstrip : Str → Str
rstrip [] = []
rstrip (c ∷ s) = rstrip_cons c (rstrip s)

-- `str.strip()`
unfoldable pub strip : Str → Str
strip s = rstrip (lstrip s)

-- `"::" in s`, for the two-character needle that the source looks for.
unfoldable pub contains_pair : ℕ → Str → Bool
contains_pair x [] = false
contains_pair x (c ∷ []) = false
contains_pair x (c ∷ d ∷ s) = (c == x && d == x) || contains_pair x (d ∷ s)

-- `s.startswith(prefix)`, on texts and bytes.
unfoldable pub starts_with : Str → Str → Bool
starts_with s [] = true
starts_with [] (p ∷ ps) = false
starts_with (c ∷ s) (p ∷ ps) = c == p && starts_with s ps

-- `needle in s`
unfoldable pub contains : Str → Str → Bool
contains [] needle = starts_with [] needle
contains (c ∷ s) needle = starts_with (c ∷ s) needle || contains s needle

strip_spaces : strip (codes " \t tenant-a  ") ≡ codes "tenant-a"
unfolding strip rstrip lstrip is_space rstrip_cons
strip_spaces = refl

strip_blank : strip (codes "   ") ≡ []
unfolding strip rstrip lstrip is_space
strip_blank = refl

contains_middle : contains (codes "xx BEGIN CERTIFICATE") (codes "BEGIN CERT") ≡ true
unfolding contains starts_with
contains_middle = refl
