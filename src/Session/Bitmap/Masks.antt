-- ===== src/Session/Bitmap/Masks.antt =====
-- The masks of `push_set_range` in src/session/filter_bitmap.rs set a run of bits.
use dsct.Base.{
  ℕ, zero, suc, ◌+◌, ◌-◌, ◌*◌, ◌/◌, ◌%◌, ◌^◌, ◌≤◌, ◌<◌, ◌≡◌, refl, ap, ap₂, sym, ◌∙◌, min, max,
  bit_and, bit_or, Bool, true, false, List, [], ◌∷◌, ◌++◌, ◌==◌, length, arith,
}
use dsct.Base.Bits.{
  bit_and_half, bit_and_parity, bit_and_none, bit_or_half, bit_or_parity, bit_or_none, pow_two_suc,
  pow_two_positive, below_table,
}
use dsct.Session.Bitmap.Bits.{digits, digits-suc}
use dsct.Session.Bitmap.Ranges.{from_bit, to_bit}

-- `n` bits set from a position on.
abbrev pub sets : ℕ → ℕ → List Bool → List Bool
sets i n [] = []
sets zero zero (b ∷ bs) = b ∷ bs
sets zero (suc n) (b ∷ bs) = true ∷ sets 0 n bs
sets (suc i) n (b ∷ bs) = b ∷ sets i n bs

pub sets_none : (i : ℕ) (bs : List Bool) → sets i 0 bs ≡ bs
sets_none i [] = refl
sets_none zero (b ∷ bs) = refl
sets_none (suc i) (b ∷ bs) = ap (λ xs. b ∷ xs) (sets_none i bs)

pub from_bit_mask : (s : ℕ) → s < 64 → from_bit s ≡ 2 ^ 64 - 2 ^ s
unfolding from_bit dsct.Base.Bits.table
from_bit_mask s h = below_table (λ s. from_bit s) (λ s. 2 ^ 64 - 2 ^ s) 64 s h refl

pub to_bit_mask : (e : ℕ) → e < 64 → to_bit e ≡ 2 ^ suc e - 1
unfolding to_bit dsct.Base.Bits.table
to_bit_mask e h = below_table (λ e. to_bit e) (λ e. 2 ^ suc e - 1) 64 e h refl

-- A word's low digit and the others, after `|`.
module _ (n w m v : ℕ) where
  or_odd : m % 2 ≡ 1 → m / 2 ≡ v → digits (suc n) (bit_or w m) ≡ true ∷ digits n (bit_or (w / 2) v)
  or_odd odd half =
      let set : bit_or w m % 2 ≡ 1 = omega (arith, bit_or_parity w m) in
      digits-suc n (bit_or w m) (bit_or (w / 2) v) true (ap (λ x. x == 1) set)
        (bit_or_half w m ∙ ap (bit_or (w / 2)) half)

  or_even :
      m % 2 ≡ 0
      → m / 2 ≡ v
      → digits (suc n) (bit_or w m) ≡ (w % 2 == 1) ∷ digits n (bit_or (w / 2) v)
  or_even even half =
      let same : bit_or w m % 2 ≡ w % 2 = omega (arith, bit_or_parity w m) in
      digits-suc n (bit_or w m) (bit_or (w / 2) v) (w % 2 == 1) (ap (λ x. x == 1) same)
        (bit_or_half w m ∙ ap (bit_or (w / 2)) half)

-- The bits from `s` on, of `n`.
pub digits-high :
    (n w s m : ℕ) → n ≡ s + m → digits n (bit_or w (2 ^ n - 2 ^ s)) ≡ sets s m (digits n w)
digits-high zero w s m e = refl
digits-high (suc n) w zero zero e = absurd (omega (arith, e))
digits-high (suc n) w zero (suc m) e =
    or_odd n w (2 ^ suc n - 2 ^ 0) (2 ^ n - 2 ^ 0)
      (omega (arith, pow_two_suc n, pow_two_positive n))
      (omega (arith, pow_two_suc n, pow_two_positive n))
    ∙ ap (λ bs. true ∷ bs) (digits-high n (w / 2) 0 m (omega (arith, e)))
digits-high (suc n) w (suc s) m e =
    or_even n w (2 ^ suc n - 2 ^ suc s) (2 ^ n - 2 ^ s)
      (omega (arith, pow_two_suc n, pow_two_suc s)) (omega (arith, pow_two_suc n, pow_two_suc s))
    ∙ ap (λ bs. (w % 2 == 1) ∷ bs) (digits-high n (w / 2) s m (omega (arith, e)))

-- The bits below `k`.
pub digits-low : (n w k : ℕ) → digits n (bit_or w (2 ^ k - 1)) ≡ sets 0 k (digits n w)
digits-low zero w k = refl
digits-low (suc n) w zero =
    ap (digits (suc n)) (bit_or_none w) ∙ sym (sets_none 0 (digits (suc n) w))
digits-low (suc n) w (suc k) =
    or_odd n w (2 ^ suc k - 1) (2 ^ k - 1) (omega (arith, pow_two_suc k, pow_two_positive k))
      (omega (arith, pow_two_suc k, pow_two_positive k))
    ∙ ap (λ bs. true ∷ bs) (digits-low n (w / 2) k)

-- Both: the bits from `s` to below `k`.
module _ (n k s : ℕ) where
  abbrev masks : ℕ
  masks = bit_and (2 ^ suc n - 2 ^ s) (2 ^ suc k - 1)

  low_odd : 2 ^ suc k - 1 ≡ 2 * (2 ^ k - 1) + 1
  low_odd = omega (arith, pow_two_suc k, pow_two_positive k)

  masks_half : (high : ℕ) → (2 ^ suc n - 2 ^ s) / 2 ≡ high → masks / 2 ≡ bit_and high (2 ^ k - 1)
  masks_half high e =
      let low : (2 ^ suc k - 1) / 2 ≡ 2 ^ k - 1 = omega (arith, low_odd) in
      bit_and_half (2 ^ suc n - 2 ^ s) (2 ^ suc k - 1) ∙ ap₂ bit_and e low

  masks_parity : masks % 2 ≡ (2 ^ suc n - 2 ^ s) % 2
  masks_parity = omega (arith, bit_and_parity (2 ^ suc n - 2 ^ s) (2 ^ suc k - 1), low_odd)

pub digits-both :
    (n w s m k : ℕ)
    → k ≡ s + m
    → k ≤ n
    → digits n (bit_or w (bit_and (2 ^ n - 2 ^ s) (2 ^ k - 1))) ≡ sets s m (digits n w)
digits-both zero w s m k e h = refl
digits-both (suc n) w zero zero zero e h =
    ap (λ x. digits (suc n) (bit_or w x)) (bit_and_none (2 ^ suc n - 2 ^ 0))
    ∙ ap (digits (suc n)) (bit_or_none w)
    ∙ sym (sets_none 0 (digits (suc n) w))
digits-both (suc n) w zero zero (suc k) e h = absurd (omega (arith, e))
digits-both (suc n) w zero (suc m) zero e h = absurd (omega (arith, e))
digits-both (suc n) w (suc s) m zero e h = absurd (omega (arith, e))
digits-both (suc n) w zero (suc m) (suc k) e h =
    or_odd n w (masks n k 0) (bit_and (2 ^ n - 2 ^ 0) (2 ^ k - 1))
      (omega (arith, masks_parity n k 0, pow_two_suc n, pow_two_positive n))
      (masks_half n k 0 (2 ^ n - 2 ^ 0) (omega (arith, pow_two_suc n, pow_two_positive n)))
    ∙ ap (λ bs. true ∷ bs) (digits-both n (w / 2) 0 m k (omega (arith, e)) (omega arith))
digits-both (suc n) w (suc s) m (suc k) e h =
    or_even n w (masks n k (suc s)) (bit_and (2 ^ n - 2 ^ s) (2 ^ k - 1))
      (omega (arith, masks_parity n k (suc s), pow_two_suc n, pow_two_suc s))
      (masks_half n k (suc s) (2 ^ n - 2 ^ s) (omega (arith, pow_two_suc n, pow_two_suc s)))
    ∙ ap (λ bs. (w % 2 == 1) ∷ bs) (digits-both n (w / 2) s m k (omega (arith, e)) (omega arith))
