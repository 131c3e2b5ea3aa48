-- ===== src/Utf8.antt =====
-- `std::str::from_utf8`: which byte sequences are UTF-8.
use dsct.Base.{ℕ, Bool, true, [], ◌∷◌, ◌&&◌, leb, ◌==◌, if◌then◌else◌}
use dsct.Packet.{Bytes}

abbrev pub is_continuation : ℕ → Bool
is_continuation b = leb 0x80 b && leb b 0xbf

-- The second byte that may follow a first byte of a sequence of three or of four.
second_of_three : ℕ → ℕ → Bool
second_of_three a b =
    if a == 0xe0
    then leb 0xa0 b && leb b 0xbf
    else if a == 0xed
    then leb 0x80 b && leb b 0x9f
    else is_continuation b

second_of_four : ℕ → ℕ → Bool
second_of_four a b =
    if a == 0xf0
    then leb 0x90 b && leb b 0xbf
    else if a == 0xf4
    then leb 0x80 b && leb b 0x8f
    else is_continuation b

unfoldable pub is_utf8 : Bytes → Bool
unfolding second_of_three second_of_four
is_utf8 [] = true
is_utf8 (a ∷ []) = leb a 0x7f
is_utf8 (a ∷ b ∷ []) =
    if leb a 0x7f then leb b 0x7f else leb 0xc2 a && leb a 0xdf && is_continuation b
is_utf8 (a ∷ b ∷ c ∷ []) =
    let one = is_utf8 (b ∷ c ∷ []) in
    let two = is_utf8 (c ∷ []) in
    if leb a 0x7f
    then one
    else if leb a 0xdf
    then leb 0xc2 a && is_continuation b && two
    else leb a 0xef && second_of_three a b && is_continuation c
is_utf8 (a ∷ b ∷ c ∷ d ∷ s) =
    let one = is_utf8 (b ∷ c ∷ d ∷ s) in
    let two = is_utf8 (c ∷ d ∷ s) in
    let three = is_utf8 (d ∷ s) in
    let four = is_utf8 s in
    if leb a 0x7f
    then one
    else if leb a 0xdf
    then leb 0xc2 a && is_continuation b && two
    else if leb a 0xef
    then second_of_three a b && is_continuation c && three
    else leb a 0xf4 && second_of_four a b && is_continuation c && is_continuation d && four
