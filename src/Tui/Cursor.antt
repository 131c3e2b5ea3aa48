-- ===== src/Tui/Cursor.antt =====
-- `CursorBuffer` of src/tui/cursor.rs: a line of text with a cursor. A text is its characters, by their
-- code points, and positions in it are byte offsets. Where the source would panic there is no result.
use dsct.Base.{
  ℕ, ◌+◌, ◌-◌, ◌≡◌, Bool, true, false, not, Option, none, some, List, [], ◌∷◌, ◌++◌, ltb, leb, ◌==◌,
  if◌then◌else◌, ◌>>=◌,
}
pub mod Zipper

abbrev pub Text : Type 0
Text = List ℕ

unfoldable pub len_utf8 : ℕ → ℕ
len_utf8 c = if ltb c 0x80 then 1 else if ltb c 0x800 then 2 else if ltb c 0x10000 then 3 else 4

unfoldable pub byte_len : Text → ℕ
unfolding len_utf8
byte_len [] = 0
byte_len (c ∷ cs) = len_utf8 c + byte_len cs

abbrev pub in_front : ℕ → Option (Text × Text) → Option (Text × Text)
in_front c none = none
in_front c (some (front, back)) = some (c ∷ front, back)

-- The text in front of a byte offset and behind it, at a boundary between characters.
unfoldable pub split_at : ℕ → Text → Option (Text × Text)
unfolding len_utf8
split_at n [] = if n == 0 then some ([], []) else none
split_at n (c ∷ cs) =
    let rest = split_at (n - len_utf8 c) cs in
    if n == 0 then some ([], c ∷ cs) else if leb (len_utf8 c) n then in_front c rest else none

pub record CursorBuffer : Type 0 where
  pub input : Text
  pub cursor : ℕ

unfoldable pub insert_char : CursorBuffer → ℕ → Option CursorBuffer
unfolding split_at len_utf8
insert_char b c = do
  parts ← split_at b.cursor b.input
  some (record { input = parts.0 ++ (c ∷ parts.1); cursor = b.cursor + len_utf8 c })

-- `chars().next_back()` and `chars().next()`, their lengths, or 0.
unfoldable pub last_len : Text → ℕ
unfolding len_utf8
last_len [] = 0
last_len (c ∷ []) = len_utf8 c
last_len (c ∷ (d ∷ cs)) = last_len (d ∷ cs)

unfoldable pub first_len : Text → ℕ
unfolding len_utf8
first_len [] = 0
first_len (c ∷ cs) = len_utf8 c

abbrev pub without_first : Text → Text → Option Text
without_first front [] = none
without_first front (c ∷ back) = some (front ++ back)

-- `String::remove`, the character aside.
unfoldable pub remove : Text → ℕ → Option Text
unfolding split_at
remove cs at = split_at at cs >>= λ parts. without_first parts.0 parts.1

unfoldable pub backspace : CursorBuffer → Option (Bool × CursorBuffer)
unfolding split_at last_len remove
backspace b =
    if ltb 0 b.cursor
    then (do
      parts ← split_at b.cursor b.input
      rest ← remove b.input (b.cursor - last_len parts.0)
      some (true, record { input = rest; cursor = b.cursor - last_len parts.0 }))
    else some (false, b)

unfoldable pub move_left : CursorBuffer → Option CursorBuffer
unfolding split_at last_len
move_left b =
    if ltb 0 b.cursor
    then (do
      parts ← split_at b.cursor b.input
      some (record b { cursor = b.cursor - last_len parts.0 }))
    else some b

unfoldable pub move_right : CursorBuffer → Option CursorBuffer
unfolding split_at first_len byte_len
move_right b =
    if ltb b.cursor (byte_len b.input)
    then (do
      parts ← split_at b.cursor b.input
      some (record b { cursor = b.cursor + first_len parts.1 }))
    else some b
