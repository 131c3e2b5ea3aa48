-- ===== src/Json/Strings.antt =====
-- A reader of JSON strings (RFC 8259, section 7), against which src/json_escape.rs is judged.
use dsct.Base.{
  ℕ, ◌+◌, ◌-◌, ◌*◌, ◌<◌, ◌≡◌, refl, ap, ◌∙◌, ◌&&◌, Option, none, some, [], ◌∷◌, ◌++◌, ltb, leb,
  ◌==◌, arith, if◌then◌else◌, append_assoc,
}
use dsct.Packet.{Bytes, AreBytes}
use dsct.Json.Escape.{
  escape_table, write_escape, escape_byte, escaped, write_json_escaped, write_json_escaped-escaped,
}

abbrev hex_value : ℕ → Option ℕ
hex_value c =
    if leb b'0' c && leb c b'9'
    then some (c - b'0')
    else if leb b'a' c && leb c b'f'
    then some (c - b'a' + 10)
    else if leb b'A' c && leb c b'F'
    then some (c - b'A' + 10)
    else none

-- The character of an escape of one letter.
abbrev letter_value : ℕ → Option ℕ
letter_value c =
    if c == b'"'
    then some b'"'
    else if c == b'\\'
    then some b'\\'
    else if c == b'/'
    then some b'/'
    else if c == b'b'
    then some 0x08
    else if c == b'f'
    then some 0x0c
    else if c == b'n'
    then some 0x0a
    else if c == b'r'
    then some 0x0d
    else if c == b't'
    then some 0x09
    else none

-- The byte that a `\u` escape stands for. Characters of more than one byte are not needed, and refused.
abbrev unicode_value : ℕ → ℕ → ℕ → ℕ → Option ℕ
unicode_value a b c d =
    if a == b'0' && b == b'0'
    then elim (hex_value c) [
      | none ↦ none
      | some hi ↦ elim (hex_value d) [
        | none ↦ none
        | some lo ↦ if ltb (hi * 16 + lo) 0x80 then some (hi * 16 + lo) else none
      ]
    ]
    else none

abbrev add_byte : ℕ → Option (Bytes × Bytes) → Option (Bytes × Bytes)
add_byte b none = none
add_byte b (some (s, rest)) = some (b ∷ s, rest)

abbrev add_value : Option ℕ → Option (Bytes × Bytes) → Option (Bytes × Bytes)
add_value none r = none
add_value (some b) r = add_byte b r

-- Where the reader stands: in plain text, behind a backslash, or behind some digits of a `\u`.
pub data Mode : Type 0 where
  plain escape digits_0 : Mode
  digits_1 : ℕ → Mode
  digits_2 : ℕ → ℕ → Mode
  digits_3 : ℕ → ℕ → ℕ → Mode

-- The text of a string whose opening quote has been read, and what follows its closing quote. A
-- control character, a bad escape and an open end are refused.
unfoldable pub read_string_from : Mode → Bytes → Option (Bytes × Bytes)
read_string_from mode [] = none
read_string_from plain (b ∷ s) =
    let escaped_next = read_string_from escape s in
    let plain_next = add_byte b (read_string_from plain s) in
    if b == b'"'
    then some ([], s)
    else if b == b'\\'
    then escaped_next
    else if ltb b 0x20
    then none
    else plain_next
read_string_from escape (b ∷ s) =
    let digits_next = read_string_from digits_0 s in
    let plain_next = add_value (letter_value b) (read_string_from plain s) in
    if b == b'u' then digits_next else plain_next
read_string_from digits_0 (b ∷ s) = read_string_from (digits_1 b) s
read_string_from (digits_1 a) (b ∷ s) = read_string_from (digits_2 a b) s
read_string_from (digits_2 a b) (c ∷ s) = read_string_from (digits_3 a b c) s
read_string_from (digits_3 a b c) (d ∷ s) =
    add_value (unicode_value a b c d) (read_string_from plain s)

unfoldable pub read_string : Bytes → Option (Bytes × Bytes)
unfolding read_string_from
read_string s = read_string_from plain s

-- Every byte is read back from its escape.
read-escape_byte :
    (b : ℕ) (s : Bytes)
    → b < 256
    → read_string_from plain (escape_byte b ++ s) ≡ add_byte b (read_string_from plain s)
unfolding read_string_from escape_byte escape_table write_escape
read-escape_byte b s h = ground arith

read_string-escaped :
    (text rest : Bytes)
    → AreBytes text
    → read_string_from plain (escaped text ++ (b'"' ∷ rest)) ≡ some (text, rest)
unfolding escaped read_string_from
read_string-escaped [] rest h = refl
read_string-escaped (b ∷ text) rest (hb, h) =
    ap (read_string_from plain) (append_assoc (escape_byte b) (escaped text) (b'"' ∷ rest))
    ∙ read-escape_byte b (escaped text ++ (b'"' ∷ rest)) hb
    ∙ ap (add_byte b) (read_string-escaped text rest h)

-- A reader of JSON strings gets back exactly the bytes that were escaped, and stops at the quote
-- behind them: no byte of the text ends the string early, and no control byte is left in it.
pub read_string-write_json_escaped :
    (text rest : Bytes)
    → AreBytes text
    → read_string (write_json_escaped [] text ++ (b'"' ∷ rest)) ≡ some (text, rest)
unfolding read_string
read_string-write_json_escaped text rest h =
    rw (write_json_escaped-escaped [] text) (read_string-escaped text rest h)
