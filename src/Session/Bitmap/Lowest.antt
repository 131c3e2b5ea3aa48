-- ===== src/Session/Bitmap/Lowest.antt =====
-- The lowest set bit of a word, which `Iter::next` of src/session/filter_bitmap.rs takes.
use dsct.Base.{
  ℕ, zero, suc, ◌-◌, ◌/◌, ◌%◌, ◌^◌, ◌≤◌, ◌<◌, ◌≡◌, refl, ap, sym, ◌∙◌, bit_and, Bool, false, some,
  List, [], ◌∷◌, ◌++◌, ◌==◌, get_elem?, drop, arith, ltb, ltb→lt, Bool-cases, inl, inr,
}
use dsct.Base.Bits.{bit_and_half, nothing-bit_and, pow_two_suc}
use dsct.Session.Bitmap.{ones_of, trailing_zeros}
use dsct.Session.Bitmap.Bits.{
  count, nth, digits, length-digits, ones_of-digits, nth-zeros_of, nth-clear, count-clear,
}
use dsct.Session.Bitmap.Select.{moved, nth-append, nth-append_more}

-- The words are `u64`.
abbrev pub WithinU64 : List ℕ → Type 0
WithinU64 ws = (i w : ℕ) → get_elem? ws i ≡ some w → w < 2 ^ 64

pub bit_and_within : (n a c : ℕ) → a < 2 ^ n → bit_and a c < 2 ^ n
bit_and_within zero a c h =
    let none_set : 0 ≡ a = omega arith in
    omega (arith, ap (λ x. bit_and x c) none_set, nothing-bit_and c)
bit_and_within (suc n) a c h = omega (
  arith,
  bit_and_half a c,
  pow_two_suc n,
  bit_and_within n (a / 2) (c / 2) (omega (arith, pow_two_suc n, h)),
)

-- A word that is not 0 has a set bit.
ones_of-positive : (n w : ℕ) → w < 2 ^ n → 1 ≤ w → 1 ≤ ones_of n w
unfolding ones_of
ones_of-positive zero w h h' = absurd (omega arith)
ones_of-positive (suc n) w h h' = elim (Bool-cases (w % 2 == 1)) [
  | inl odd ↦ ground (arith, odd)
  | inr even ↦
      let low : w % 2 ≡ 0 = ground (arith, even) in
      omega (
        arith,
        low,
        ones_of-positive n (w / 2) (omega (arith, pow_two_suc n, h)) (omega (arith, low, h')),
      )
]

-- The words behind one.
pub drop-suc :
    {A : Type 0}
    → (xs : List A) (k : ℕ) {y : A} {ys : List A} → drop k xs ≡ y ∷ ys
    → drop (suc k) xs ≡ ys
drop-suc {A} xs k e = sym (behind xs k) ∙ ap (drop 1) e
  where
    behind : (xs : List A) (k : ℕ) → drop 1 (drop k xs) ≡ drop (suc k) xs
    behind xs zero = refl
    behind [] (suc k) = refl
    behind (x ∷ xs) (suc k) = behind xs k

not_ltb : (i j : ℕ) → ltb i j ≡ false → j ≤ i
not_ltb i j e = ground (arith, e)

pub nth-clear_word :
    (w k : ℕ) (rest : List Bool)
    → w < 2 ^ 64
    → 1 ≤ w
    → nth (digits 64 (bit_and w (w - 1)) ++ rest) k ≡ nth (digits 64 w ++ rest) (suc k)
nth-clear_word w k rest h h' =
    let positive = ones_of-positive 64 w h h' in
    let fewer : count (digits 64 w) ≡ suc (count (digits 64 (bit_and w (w - 1)))) =
      omega (arith, count-clear 64 w, ones_of-digits 64 w, positive) in
    elim (Bool-cases (ltb k (count (digits 64 (bit_and w (w - 1)))))) [
      | inl here ↦
          nth-append (digits 64 (bit_and w (w - 1))) rest k (ltb→lt _ _ here)
          ∙ nth-clear 64 w k
          ∙ sym (nth-append (digits 64 w) rest (suc k) (omega (arith, fewer, ltb→lt _ _ here)))
      | inr later ↦
          (let past : count (digits 64 (bit_and w (w - 1))) ≤ k = not_ltb _ _ later in
            let m = k - count (digits 64 (bit_and w (w - 1))) in
            nth-append_more (digits 64 (bit_and w (w - 1))) rest k m (omega (arith, past))
            ∙ ap (λ n. moved n (nth rest m))
                (length-digits 64 (bit_and w (w - 1)) ∙ sym (length-digits 64 w))
            ∙ sym (nth-append_more (digits 64 w) rest (suc k) m (omega (arith, past, fewer))))
    ]

-- A word of zeros has no set bit.
pub nth-zeros : (rest : List Bool) (k : ℕ) → nth (digits 64 0 ++ rest) k ≡ moved 64 (nth rest k)
nth-zeros rest k =
    nth-append_more (digits 64 0) rest k k (omega (arith, no_bits))
    ∙ ap (λ n. moved n (nth rest k)) (length-digits 64 0)
  where
    no_bits : count (digits 64 0) ≡ 0
    no_bits = refl

pub nth-lowest :
    (w : ℕ) (rest : List Bool)
    → w < 2 ^ 64
    → 1 ≤ w
    → nth (digits 64 w ++ rest) 0 ≡ some (trailing_zeros w)
nth-lowest w rest h h' =
    let positive = ones_of-positive 64 w h h' in
    nth-append (digits 64 w) rest 0 (omega (arith, positive, ones_of-digits 64 w))
    ∙ nth-zeros_of 64 w positive
