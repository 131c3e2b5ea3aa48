-- ===== src/Tui/Cursor/Zipper.antt =====
-- The cursor of src/tui/cursor.rs, whose position is always between two characters.
use dsct.Base.{
  ℕ, ◌+◌, ◌-◌, ◌<◌, ◌≡◌, refl, sym, ap, ap₂, ◌∙◌, le→leb, true, false, Option, some, [], ◌∷◌, ◌++◌,
  append_assoc, arith, ltb, ◌==◌, ◌>>=◌,
}
use dsct.Tui.Cursor.{
  Text, len_utf8, byte_len, split_at, CursorBuffer, insert_char, last_len, first_len, remove,
  backspace, move_left, move_right,
}

-- The buffer with this text in front of the cursor and this one behind it.
abbrev pub between : Text → Text → CursorBuffer
between front back = record { input = front ++ back; cursor = byte_len front }

len_utf8-pos : (c : ℕ) → 0 < len_utf8 c
unfolding len_utf8
len_utf8-pos c = ground arith

eq-zero : (n : ℕ) → 0 < n → (n == 0) ≡ false
eq-zero n h = ground arith

sub_len : (l n : ℕ) → l + n - l ≡ n
sub_len l n = omega arith

split_at-append :
    (front back : Text) → split_at (byte_len front) (front ++ back) ≡ some (front, back)
unfolding split_at byte_len
split_at-append [] [] = refl
split_at-append [] (c ∷ back) = refl
split_at-append (c ∷ front) back = rw (
  eq-zero (len_utf8 c + byte_len front) (omega (arith, len_utf8-pos c)),
  le→leb (len_utf8 c) (len_utf8 c + byte_len front) (omega arith),
  ap (λ (n : ℕ). split_at n (front ++ back)) (sub_len (len_utf8 c) (byte_len front))
      ∙ split_at-append front back,
)

byte_len-append : (xs ys : Text) → byte_len (xs ++ ys) ≡ byte_len xs + byte_len ys
unfolding byte_len
byte_len-append [] ys = omega arith
byte_len-append (x ∷ xs) ys = omega (arith, byte_len-append xs ys)

last_len-append : (xs : Text) (c : ℕ) → last_len (xs ++ (c ∷ [])) ≡ len_utf8 c
unfolding last_len
last_len-append [] c = refl
last_len-append (x ∷ []) c = refl
last_len-append (x ∷ (y ∷ xs)) c = last_len-append (y ∷ xs) c

byte_len_back : (front : Text) (c : ℕ) → byte_len (front ++ (c ∷ [])) ≡ byte_len front + len_utf8 c
unfolding byte_len
byte_len_back front c = omega (arith, byte_len-append front (c ∷ []))

abbrev at : Text → ℕ → CursorBuffer
at cs n = record { input = cs; cursor = n }

insert_of :
    (front back : Text) (c : ℕ)
    → insert_char (between front back) c
      ≡ some (at (front ++ (c ∷ back)) (byte_len front + len_utf8 c))
unfolding insert_char
insert_of front back c = rw (split_at-append front back)

-- Typing moves a character in front of the cursor.
insert_char-between :
    (front back : Text) (c : ℕ)
    → insert_char (between front back) c ≡ some (between (front ++ (c ∷ [])) back)
insert_char-between front back c =
    insert_of front back c
    ∙ ap₂ (λ (cs : Text) (n : ℕ). some (at cs n)) (sym (append_assoc front (c ∷ []) back))
        (sym (byte_len_back front c))

above-zero : (front : Text) (c : ℕ) → ltb 0 (byte_len (front ++ (c ∷ []))) ≡ true
above-zero front c = ground (arith, byte_len_back front c, len_utf8-pos c)

-- The place in front of the last character.
before_last :
    (front : Text) (c : ℕ)
    → byte_len (front ++ (c ∷ [])) - last_len (front ++ (c ∷ [])) ≡ byte_len front
before_last front c = omega (arith, byte_len_back front c, last_len-append front c)

remove_of :
    (front back : Text) (c n : ℕ)
    → n ≡ byte_len front
    → remove ((front ++ (c ∷ [])) ++ back) n ≡ some (front ++ back)
unfolding remove
remove_of front back c n e =
    rw (append_assoc front (c ∷ []) back, e, split_at-append front (c ∷ back))

backspace-between :
    (front back : Text) (c : ℕ)
    → backspace (between (front ++ (c ∷ [])) back) ≡ some (true, between front back)
unfolding backspace
backspace-between front back c = rw (
  above-zero front c,
  split_at-append (front ++ (c ∷ [])) back,
  remove_of front back c (byte_len (front ++ (c ∷ [])) - last_len (front ++ (c ∷ [])))
      (before_last front c),
  before_last front c,
)

move_left-between :
    (front back : Text) (c : ℕ)
    → move_left (between (front ++ (c ∷ [])) back) ≡ some (between front (c ∷ back))
unfolding move_left
move_left-between front back c = rw (
  above-zero front c,
  split_at-append (front ++ (c ∷ [])) back,
  before_last front c,
  append_assoc front (c ∷ []) back,
)

within : (front back : Text) (c : ℕ) → ltb (byte_len front) (byte_len (front ++ (c ∷ back))) ≡ true
unfolding byte_len
within front back c = ground (arith, byte_len-append front (c ∷ back), len_utf8-pos c)

move_right_of :
    (front back : Text) (c : ℕ)
    → move_right (between front (c ∷ back))
      ≡ some (at (front ++ (c ∷ back)) (byte_len front + len_utf8 c))
unfolding move_right first_len
move_right_of front back c = rw (within front back c, split_at-append front (c ∷ back))

move_right-between :
    (front back : Text) (c : ℕ)
    → move_right (between front (c ∷ back)) ≡ some (between (front ++ (c ∷ [])) back)
move_right-between front back c =
    move_right_of front back c
    ∙ ap₂ (λ (cs : Text) (n : ℕ). some (at cs n)) (sym (append_assoc front (c ∷ []) back))
        (sym (byte_len_back front c))

-- Between any two texts, backspace takes back a character just typed.
pub insert_char-backspace :
    (front back : Text) (c : ℕ)
    → (insert_char (between front back) c >>= backspace) ≡ some (true, between front back)
insert_char-backspace front back c =
    ap (λ (o : Option CursorBuffer). o >>= backspace) (insert_char-between front back c)
    ∙ backspace-between front back c

-- In front of any character, moving right and left again changes nothing.
pub move_right-move_left :
    (front back : Text) (c : ℕ)
    → (move_right (between front (c ∷ back)) >>= move_left) ≡ some (between front (c ∷ back))
move_right-move_left front back c =
    ap (λ (o : Option CursorBuffer). o >>= move_left) (move_right-between front back c)
    ∙ move_left-between front back c
