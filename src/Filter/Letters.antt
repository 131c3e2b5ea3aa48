-- ===== src/Filter/Letters.antt =====
-- What the names of src/filter.rs are compared by: their letters and digits, without case.
use dsct.Base.{
  ℕ, suc, ◌≤◌, ◌<◌, ◌≡◌, refl, ap, sym, ◌∙◌, ◌↔◌, Bool, true, false, Bool-cases, Option, none, some,
  [], ◌∷◌, ◌++◌, ◌==◌, if◌then◌else◌, inl, inr, arith, All, leb, leb→le, ltb, ◌&&◌,
}
use dsct.Base.Bits.{table, below_table}
use dsct.Packet.{Bytes}
use dsct.Filter.Names.{
  is_ascii_alphanumeric, to_ascii_lowercase, normalize_protocol_name, protocol_names_match,
  items_match_iff, normalize_cons, protocol_names_match-items_match,
}

abbrev capitals : Bytes
capitals =
    b'A' ∷ b'B' ∷ b'C' ∷ b'D' ∷ b'E' ∷ b'F' ∷ b'G' ∷ b'H' ∷ b'I' ∷ b'J' ∷ b'K' ∷ b'L' ∷ b'M' ∷ b'N'
    ∷ b'O' ∷ b'P' ∷ b'Q' ∷ b'R' ∷ b'S' ∷ b'T' ∷ b'U' ∷ b'V' ∷ b'W' ∷ b'X' ∷ b'Y' ∷ b'Z' ∷ []

abbrev small : Bytes
small =
    b'a' ∷ b'b' ∷ b'c' ∷ b'd' ∷ b'e' ∷ b'f' ∷ b'g' ∷ b'h' ∷ b'i' ∷ b'j' ∷ b'k' ∷ b'l' ∷ b'm' ∷ b'n'
    ∷ b'o' ∷ b'p' ∷ b'q' ∷ b'r' ∷ b's' ∷ b't' ∷ b'u' ∷ b'v' ∷ b'w' ∷ b'x' ∷ b'y' ∷ b'z' ∷ []

abbrev numerals : Bytes
numerals = b'0' ∷ b'1' ∷ b'2' ∷ b'3' ∷ b'4' ∷ b'5' ∷ b'6' ∷ b'7' ∷ b'8' ∷ b'9' ∷ []

-- The entry beside a character.
unfoldable pub beside : Bytes → Bytes → ℕ → Option ℕ
beside (x ∷ xs) (y ∷ ys) c = if x == c then some y else beside xs ys c
beside _ _ c = none

-- The letter or digit that a character stands for, and those of a name.
unfoldable pub letter : ℕ → Option ℕ
unfolding beside
letter c = beside (capitals ++ small ++ numerals) (small ++ small ++ numerals) c

abbrev and_then : Option ℕ → Bytes → Bytes
and_then none cs = cs
and_then (some c) cs = c ∷ cs

unfoldable pub letters : Bytes → Bytes
unfolding letter
letters [] = []
letters (c ∷ cs) = and_then (letter c) (letters cs)

-- An option as a number.
abbrev coded : Option ℕ → ℕ
coded none = 0
coded (some c) = suc c

coded_injective : (o o' : Option ℕ) → coded o ≡ coded o' → o ≡ o'
coded_injective none none e = refl
coded_injective none (some c) e = absurd (omega (arith, e))
coded_injective (some c) none e = absurd (omega (arith, e))
coded_injective (some c) (some c') e = ap some (omega (arith, e))

abbrev lowered : ℕ → Option ℕ
lowered c = if is_ascii_alphanumeric c then some (to_ascii_lowercase c) else none

letter_below : (c : ℕ) → c < 128 → coded (letter c) ≡ coded (lowered c)
unfolding letter is_ascii_alphanumeric to_ascii_lowercase table
letter_below c h = below_table (λ c. coded (letter c)) (λ c. coded (lowered c)) 128 c h refl

all_ascii : Bytes → Bool
all_ascii [] = true
all_ascii (x ∷ xs) = ltb x 128 && all_ascii xs

ascii : (xs : Bytes) → all_ascii xs ≡ true → All (λ x. x < 128) xs
unfolding all_ascii
ascii [] h = tt
ascii (x ∷ xs) h = (ground (arith, h), ascii xs (ground (arith, h)))

beside_beyond : (xs ys : Bytes) (c : ℕ) → All (λ x. x < 128) xs → 128 ≤ c → beside xs ys c ≡ none
unfolding beside
beside_beyond [] ys c all h = refl
beside_beyond (x ∷ xs) [] c all h = refl
beside_beyond (x ∷ xs) (y ∷ ys) c (low, all) h =
    let other : (x == c) ≡ false = ground (arith, low, h) in rw other (beside_beyond xs ys c all h)

letter_beyond : (c : ℕ) → 128 ≤ c → letter c ≡ lowered c
unfolding letter is_ascii_alphanumeric all_ascii
letter_beyond c h =
    let plain : is_ascii_alphanumeric c ≡ false = ground (arith, h) in
    beside_beyond (capitals ++ small ++ numerals) (small ++ small ++ numerals) c
      (ascii (capitals ++ small ++ numerals) refl) h
    ∙ ap (λ t. if t then some (to_ascii_lowercase c) else none) (sym plain)

letter-lowered : (c : ℕ) → letter c ≡ lowered c
letter-lowered c = elim (Bool-cases (leb 128 c)) [
  | inl beyond ↦ letter_beyond c (leb→le _ _ beyond)
  | inr low ↦ coded_injective (letter c) (lowered c) (letter_below c (ground (arith, low)))
]

-- `normalize_protocol_name` gives the letters and digits.
normalize-empty : normalize_protocol_name [] ≡ []
unfolding normalize_protocol_name
normalize-empty = refl

normalize-letters : (name : Bytes) → normalize_protocol_name name ≡ letters name
unfolding letters
normalize-letters [] = normalize-empty
normalize-letters (c ∷ cs) = elim (Bool-cases (is_ascii_alphanumeric c)) [
  | inl e ↦ rw (normalize_cons c cs, letter-lowered c, e, normalize-letters cs) refl
  | inr e ↦ rw (normalize_cons c cs, letter-lowered c, e) (normalize-letters cs)
]

-- A normalised name has the letters and digits of the name, in small letters, and no other characters;
-- two names match exactly when these agree.
pub protocol_names_match-letters :
    (a b : Bytes)
    → (normalize_protocol_name a ≡ letters a)
      × ((protocol_names_match a b ≡ true) ↔ (letters a ≡ letters b))
protocol_names_match-letters a b =
    let (from, to) = items_match_iff (normalize_protocol_name a) (normalize_protocol_name b) in
    let same = protocol_names_match-items_match a b in
    (
      normalize-letters a,
      (
        λ h. sym (normalize-letters a) ∙ from (sym same ∙ h) ∙ normalize-letters b,
        λ e. same ∙ to (normalize-letters a ∙ e ∙ sym (normalize-letters b)),
      ),
    )
