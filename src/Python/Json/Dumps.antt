-- ===== src/Python/Json/Dumps.antt =====
-- `json.dumps` with its default separators and escapes: the text is ASCII.
use ditto_client.Prelude.{
  ℕ, ◌+◌, ◌-◌, ◌/◌, ◌%◌, true, false, [], ◌∷◌, ◌++◌, ltb, ◌==◌, ◌&&◌, leb, if◌then◌else◌,
}
use ditto_client.Python.Text.{Str, codes}
use ditto_client.Python.Decimal.{decimal_int}
use ditto_client.Python.Json.Values.{
  Json, null, boolean, integer, real, text, array, object, Items, nil, item, Members, done, member,
}

-- A digit of a lower-case hexadecimal number.
unfoldable pub hex_digit : ℕ → ℕ
hex_digit d = if ltb d 10 then b'0' + d else b'a' + (d - 10)

-- `\uXXXX` of a UTF-16 unit.
unfoldable pub escape_unit : ℕ → Str
unfolding hex_digit
escape_unit u =
    b'\\'
    ∷ b'u'
    ∷ hex_digit (u / 4096)
    ∷ hex_digit (u / 256 % 16)
    ∷ hex_digit (u / 16 % 16)
    ∷ hex_digit (u % 16)
    ∷ []

unfoldable pub escape_char : ℕ → Str
unfolding escape_unit
escape_char c =
    if c == 34
    then b'\\' ∷ 34 ∷ []
    else if c == b'\\'
    then b'\\' ∷ b'\\' ∷ []
    else if c == 10
    then b'\\' ∷ b'n' ∷ []
    else if c == 13
    then b'\\' ∷ b'r' ∷ []
    else if c == 9
    then b'\\' ∷ b't' ∷ []
    else if c == 12
    then b'\\' ∷ b'f' ∷ []
    else if c == 8
    then b'\\' ∷ b'b' ∷ []
    else if leb 32 c && leb c 126
    then c ∷ []
    else if ltb c 0x10000
    then escape_unit c
    else escape_unit (0xd800 + (c - 0x10000) / 1024) ++ escape_unit (0xdc00 + (c - 0x10000) % 1024)

unfoldable pub escape : Str → Str
unfolding escape_char
escape [] = []
escape (c ∷ s) = escape_char c ++ escape s

abbrev pub quoted : Str → Str
quoted s = 34 ∷ (escape s ++ (34 ∷ []))

unfoldable mutual
  unfolding escape decimal_int

  pub dumps : Json → Str
  dumps null = codes "null"
  dumps (boolean true) = codes "true"
  dumps (boolean false) = codes "false"
  dumps (integer n) = decimal_int n
  dumps (real s) = s
  dumps (text s) = quoted s
  dumps (array xs) = b'[' ∷ (dump_items xs ++ (b']' ∷ []))
  dumps (object ms) = b'{' ∷ (dump_members ms ++ (b'}' ∷ []))

  pub dump_items : Items → Str
  dump_items nil = []
  dump_items (item x nil) = dumps x
  dump_items (item x (item y ys)) = dumps x ++ (b',' ∷ b' ' ∷ dump_items (item y ys))

  pub dump_members : Members → Str
  dump_members done = []
  dump_members (member k v done) = quoted k ++ (b':' ∷ b' ' ∷ dumps v)
  dump_members (member k v (member j w ms)) =
      quoted k ++ (b':' ∷ b' ' ∷ (dumps v ++ (b',' ∷ b' ' ∷ dump_members (member j w ms))))
