-- ===== src/Examples/Tui.antt =====
-- Witnesses for src/tui/cursor.rs: h, e with an acute accent, then a euro sign.
use dsct.Base.{◌≡◌, true, some, [], ◌∷◌, ◌>>=◌}
use dsct.Tui.Cursor.{insert_char, backspace, move_left, move_right}
use dsct.Tui.Cursor.Zipper.{between, insert_char-backspace, move_right-move_left}

insert_char-backspace_example :
    (insert_char (between (104 ∷ 233 ∷ []) (8364 ∷ [])) 0x1f600 >>= backspace)
    ≡ some (true, between (104 ∷ 233 ∷ []) (8364 ∷ []))
insert_char-backspace_example = insert_char-backspace (104 ∷ 233 ∷ []) (8364 ∷ []) 0x1f600

move_right-move_left_example :
    (move_right (between (104 ∷ 233 ∷ []) (8364 ∷ [])) >>= move_left)
    ≡ some (between (104 ∷ 233 ∷ []) (8364 ∷ []))
move_right-move_left_example = move_right-move_left (104 ∷ 233 ∷ []) [] 8364
