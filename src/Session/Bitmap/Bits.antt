-- ===== src/Session/Bitmap/Bits.antt =====
-- The words of src/session/filter_bitmap.rs, bit by bit.
use dsct.Base.{
  ℕ, zero, suc, ◌+◌, ◌-◌, ◌/◌, ◌%◌, ◌^◌, ◌≤◌, ◌<◌, ◌≡◌, refl, ap, ap₂, sym, ◌∙◌, bit_and, bit_or,
  Bool, true, false, Option, none, some, List, [], ◌∷◌, ◌==◌, if◌then◌else◌, length, get_elem?,
  take, arith, Bool-cases, inl, inr,
}
use dsct.Base.Bits.{
  bit_and_step, bit_and_half, bit_and_parity, bit_and_none, bit_and_same, bit_or_half,
  bit_or_parity, bit_or_none, pow_two_suc, pow_two_positive,
}
use dsct.Session.Bitmap.{shift_right, ones_of, zeros_of, select_in_word, count_ones}

-- How many bits are set.
abbrev pub count : List Bool → ℕ
count [] = 0
count (true ∷ bs) = suc (count bs)
count (false ∷ bs) = count bs

-- `Option.map` of the successor.
abbrev pub next : Option ℕ → Option ℕ
next none = none
next (some n) = some (suc n)

-- The position of the n-th set bit, from 0.
abbrev pub nth : List Bool → ℕ → Option ℕ
nth [] n = none
nth (true ∷ bs) zero = some 0
nth (true ∷ bs) (suc n) = next (nth bs n)
nth (false ∷ bs) n = next (nth bs n)

-- The low `n` bits of a number, the lowest first.
abbrev pub digits : ℕ → ℕ → List Bool
digits zero w = []
digits (suc n) w = (w % 2 == 1) ∷ digits n (w / 2)

pub length-digits : (n w : ℕ) → length (digits n w) ≡ n
length-digits zero w = refl
length-digits (suc n) w = ap suc (length-digits n (w / 2))

count-cons : (t : Bool) (bs : List Bool) → count (t ∷ bs) ≡ (if t then 1 else 0) + count bs
count-cons true bs = omega arith
count-cons false bs = omega arith

low_bit : (w : ℕ) → (if w % 2 == 1 then 1 else 0) ≡ w % 2
low_bit w = ground arith

pub ones_of-digits : (n w : ℕ) → ones_of n w ≡ count (digits n w)
unfolding ones_of
ones_of-digits zero w = refl
ones_of-digits (suc n) w =
    omega (arith, count-cons (w % 2 == 1) (digits n (w / 2)), low_bit w, ones_of-digits n (w / 2))

pub digits-suc :
    (n w v : ℕ) (t : Bool) → (w % 2 == 1) ≡ t → w / 2 ≡ v → digits (suc n) w ≡ t ∷ digits n v
digits-suc n w v t e e' = ap₂ (λ t v. t ∷ digits n v) e e'

-- A bit shifted down and masked.
bit_and_one : (x : ℕ) → bit_and x 1 ≡ x % 2
bit_and_one x = omega (arith, bit_and_step x 1, bit_and_none (x / 2))

pub digits-get_elem? :
    (n w r : ℕ) → r < n → get_elem? (digits n w) r ≡ some (bit_and (shift_right w r) 1 == 1)
unfolding shift_right
digits-get_elem? zero w r h = absurd (omega arith)
digits-get_elem? (suc n) w zero h = ap (λ x. some (x == 1)) (sym (bit_and_one w))
digits-get_elem? (suc n) w (suc r) h = digits-get_elem? n (w / 2) r (omega arith)

ones_of-none : (n : ℕ) → ones_of n 0 ≡ 0
unfolding ones_of
ones_of-none zero = refl
ones_of-none (suc n) = omega (arith, ones_of-none n)

-- The mask of `rank`.
pub ones_of-mask : (n w b : ℕ) → ones_of n (bit_and w (2 ^ b - 1)) ≡ count (take b (digits n w))
unfolding ones_of
ones_of-mask zero w zero = refl
ones_of-mask zero w (suc b) = refl
ones_of-mask (suc n) w zero = ap (ones_of (suc n)) (bit_and_none w) ∙ ones_of-none (suc n)
ones_of-mask (suc n) w (suc b) =
    let mask = 2 ^ suc b - 1 in
    let half : mask / 2 ≡ 2 ^ b - 1 = omega (arith, pow_two_suc b, pow_two_positive b) in
    let odd : mask % 2 ≡ 1 = omega (arith, pow_two_suc b, pow_two_positive b) in
    omega (
      arith,
      bit_and_parity w mask,
      odd,
      ap (ones_of n) (bit_and_half w mask ∙ ap (bit_and (w / 2)) half),
      ones_of-mask n (w / 2) b,
      count-cons (w % 2 == 1) (take b (digits n (w / 2))),
      low_bit w,
    )

-- The bit of `push`.
abbrev pub set_at : ℕ → List Bool → List Bool
set_at i [] = []
set_at zero (b ∷ bs) = true ∷ bs
set_at (suc i) (b ∷ bs) = b ∷ set_at i bs

pub digits-bit_or : (n w b : ℕ) → digits n (bit_or w (2 ^ b)) ≡ set_at b (digits n w)
digits-bit_or zero w zero = refl
digits-bit_or zero w (suc b) = refl
digits-bit_or (suc n) w zero =
    let odd : bit_or w 1 % 2 ≡ 1 = omega (arith, bit_or_parity w 1) in
    digits-suc n (bit_or w 1) (w / 2) true (ap (λ x. x == 1) odd)
      (bit_or_half w 1 ∙ bit_or_none (w / 2))
digits-bit_or (suc n) w (suc b) =
    let same : bit_or w (2 ^ suc b) % 2 ≡ w % 2 =
      omega (arith, bit_or_parity w (2 ^ suc b), pow_two_suc b) in
    let half : 2 ^ suc b / 2 ≡ 2 ^ b = omega (arith, pow_two_suc b) in
    digits-suc n (bit_or w (2 ^ suc b)) (bit_or (w / 2) (2 ^ b)) (w % 2 == 1)
      (ap (λ x. x == 1) same) (bit_or_half w (2 ^ suc b) ∙ ap (bit_or (w / 2)) half)
    ∙ ap (λ bs. (w % 2 == 1) ∷ bs) (digits-bit_or n (w / 2) b)

-- The lowest bit of `select_in_word`.
pub nth-zeros_of : (n w : ℕ) → 1 ≤ ones_of n w → nth (digits n w) 0 ≡ some (zeros_of n w)
unfolding ones_of zeros_of
nth-zeros_of zero w h = absurd (omega arith)
nth-zeros_of (suc n) w h = elim (Bool-cases (w % 2 == 1)) [
  | inl odd ↦ rw odd
  | inr even ↦ rw even (ap next (nth-zeros_of n (w / 2) (ground arith)))
]

-- The word without its lowest bit: what follows moves up by one.
module _ (n w : ℕ) where
  clear_odd : (w % 2 == 1) ≡ true → digits (suc n) (bit_and w (w - 1)) ≡ false ∷ digits n (w / 2)
  clear_odd odd =
      let half : (w - 1) / 2 ≡ w / 2 = ground arith in
      digits-suc n (bit_and w (w - 1)) (w / 2) false
        (ap (λ x. x == 1) (bit_and_parity w (w - 1)) ∙ ground arith)
        (bit_and_half w (w - 1) ∙ ap (bit_and (w / 2)) half ∙ bit_and_same (w / 2))

  clear_even :
      (w % 2 == 1) ≡ false
      → digits (suc n) (bit_and w (w - 1)) ≡ false ∷ digits n (bit_and (w / 2) (w / 2 - 1))
  clear_even even =
      let half : (w - 1) / 2 ≡ w / 2 - 1 = ground arith in
      digits-suc n (bit_and w (w - 1)) (bit_and (w / 2) (w / 2 - 1)) false
        (ap (λ x. x == 1) (bit_and_parity w (w - 1)) ∙ ground arith)
        (bit_and_half w (w - 1) ∙ ap (bit_and (w / 2)) half)

pub nth-clear : (n w k : ℕ) → nth (digits n (bit_and w (w - 1))) k ≡ nth (digits n w) (suc k)
nth-clear zero w k = refl
nth-clear (suc n) w k = elim (Bool-cases (w % 2 == 1)) [
  | inl odd ↦ ap (λ bs. nth bs k) (clear_odd n w odd) ∙ rw odd
  | inr even ↦ ap (λ bs. nth bs k) (clear_even n w even) ∙ rw even (ap next (nth-clear n (w / 2) k))
]

pub count-clear : (n w : ℕ) → count (digits n (bit_and w (w - 1))) ≡ count (digits n w) - 1
count-clear zero w = omega arith
count-clear (suc n) w = elim (Bool-cases (w % 2 == 1)) [
  | inl odd ↦ ap count (clear_odd n w odd) ∙ rw odd (omega arith)
  | inr even ↦ ap count (clear_even n w even) ∙ rw even (count-clear n (w / 2))
]

-- `select_in_word` finds the n-th set bit.
pub nth-select_in_word :
    (w k : ℕ) → k < count_ones w → nth (digits 64 w) k ≡ some (select_in_word w k)
unfolding select_in_word
nth-select_in_word w zero h = nth-zeros_of 64 w h
nth-select_in_word w (suc k) h =
    sym (nth-clear 64 w k)
    ∙ nth-select_in_word (bit_and w (w - 1)) k (
        omega (arith, ones_of-digits 64 w, ones_of-digits 64 (bit_and w (w - 1)), count-clear 64 w))
