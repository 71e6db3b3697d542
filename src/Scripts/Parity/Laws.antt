-- ===== src/Scripts/Parity/Laws.antt =====
-- When the parity check passes, and how the two spellings of a code belong together.
use ditto_client.Prelude.{◌≡◌, true}
use ditto_client.Python.Text.{Str}
use ditto_client.Python.Text.Compare.{is_member}
use ditto_client.Python.Json.Values.{Json}
use ditto_client.Scripts.Parity.{Sources, to_upper_snake, parse_java_constants}

-- A code that every SDK has, Java as a constant.
abbrev pub InSync : Sources → Str → Type 0
InSync sources code =
    (is_member code sources.node ≡ true)
    × ((is_member code sources.go ≡ true)
        × ((is_member code sources.py ≡ true)
            × ((is_member (to_upper_snake code) (parse_java_constants sources.java_body) ≡ true)
                × (is_member code sources.rust ≡ true))))
