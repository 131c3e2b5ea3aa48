-- ===== src/Examples/Json.antt =====
-- src/json_escape.rs at concrete texts.
use dsct.Base.{◌≡◌, refl, some, [], ◌∷◌, ◌++◌, arith}
use dsct.Packet.{Bytes}
use dsct.Json.Escape.{
  write_json_escaped, escape_table, write_escape, escaped, write_json_escaped-escaped,
}
use dsct.Json.Strings.{read_string, read_string-write_json_escaped}

-- hi"<newline><1>
abbrev text : Bytes
text = b'h' ∷ b'i' ∷ b'"' ∷ 10 ∷ 1 ∷ []

escaped_text :
    write_json_escaped [] text
    ≡ b'h' ∷ b'i' ∷ b'\\' ∷ b'"' ∷ b'\\' ∷ b'n' ∷ b'\\' ∷ b'u' ∷ b'0' ∷ b'0' ∷ b'0' ∷ b'1' ∷ []
unfolding write_json_escaped escape_table write_escape
escaped_text = refl

read_string-write_json_escaped_example :
    read_string (write_json_escaped [] text ++ (b'"' ∷ b',' ∷ [])) ≡ some (text, b',' ∷ [])
read_string-write_json_escaped_example =
    read_string-write_json_escaped text (b',' ∷ []) (omega arith)

write_json_escaped-escaped_example :
    write_json_escaped (b'"' ∷ []) text ≡ (b'"' ∷ []) ++ escaped text
write_json_escaped-escaped_example = write_json_escaped-escaped (b'"' ∷ []) text
