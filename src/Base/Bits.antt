-- ===== src/Base/Bits.antt =====
-- Masks and shifts as arithmetic, for every value.
use Prim.Native.Nat.{
  bit_and, bit_and-bitwise, bit_or, bit_or-bitwise, digits, max, min, ◌<◌, ◌≤◌, ◌^◌, ◌%◌, ◌/◌, ◌*◌,
  ◌+◌, suc, zero, ℕ,
}
use mathlib.Core.Path.{◌≡◌, refl, ap, sym, ◌∙◌}
use mathlib.Core.Bool.{Bool, true, ◌&&◌}
use native.Mathlib.Omega.{arith}
use native.Mathlib.Nat.{pow-suc}
use dsct.Base.Tests.{◌==◌, ==_iff}

-- A test passed by every number under a bound, which evaluation decides.
unfoldable pub table : (ℕ → Bool) → ℕ → Bool
table test zero = true
table test (suc bound) = table test bound && test bound

entry_of_table :
    (test : ℕ → Bool) (bound at : ℕ) → at < bound → table test bound ≡ true → test at ≡ true
unfolding table
entry_of_table test zero at below passed = absurd (omega (arith, below))
entry_of_table test (suc bound) at below passed = ground (arith, entry_of_table test bound at)

low_table : table (λ b. bit_and b 0x7f == b % 128) 256 ≡ true
unfolding table
low_table = refl

pub bit_and_low : (b : ℕ) → b < 256 → bit_and b 0x7f ≡ b % 128
bit_and_low b h = (==_iff _ _).0 (entry_of_table _ 256 b h low_table)

top_table : table (λ b. bit_and b 0x80 == b / 128 * 128) 256 ≡ true
unfolding table
top_table = refl

pub bit_and_top : (b : ℕ) → b < 256 → bit_and b 0x80 ≡ b / 128 * 128
bit_and_top b h = (==_iff _ _).0 (entry_of_table _ 256 b h top_table)

set_table : table (λ b. bit_or b 0x80 == b % 128 + 128) 256 ≡ true
unfolding table
set_table = refl

pub bit_or_top : (b : ℕ) → b < 256 → bit_or b 0x80 ≡ b % 128 + 128
bit_or_top b h = (==_iff _ _).0 (entry_of_table _ 256 b h set_table)

-- Two numbers combined digit by digit, where `rest` is what becomes of the second one in the end.
module _ (rest : ℕ → ℕ) (op : ℕ → ℕ → ℕ) where
  -- Any count of digits that the first number does not exceed will do.
  digits_enough :
      (bound n a b : ℕ) → n ≤ bound → a ≤ n → digits rest op n a b ≡ digits rest op a a b
  digits_enough bound zero zero b within h = refl
  digits_enough bound (suc n) zero b within h = refl
  digits_enough bound zero (suc a) b within h = absurd (omega arith)
  digits_enough zero (suc n) (suc a) b within h = absurd (omega arith)
  digits_enough (suc bound) (suc n) (suc a) b within h =
      let left = digits_enough bound n (suc a / 2) (b / 2) (omega arith) (omega arith) in
      let right = digits_enough bound a (suc a / 2) (b / 2) (omega arith) (omega arith) in
      omega (arith, left, right)

  digits_halves :
      (a b : ℕ)
      → digits rest op (suc a) (suc a) b
        ≡ digits rest op (suc a / 2) (suc a / 2) (b / 2) * 2 + op (suc a % 2) (b % 2)
  digits_halves a b =
      omega (arith, digits_enough a a (suc a / 2) (b / 2) (omega arith) (omega arith))

pub zero-bit_or : (b : ℕ) → bit_or 0 b ≡ b
zero-bit_or b = bit_or-bitwise 0 b

pub bit_or_step : (a b : ℕ) → bit_or a b ≡ bit_or (a / 2) (b / 2) * 2 + max (a % 2) (b % 2)
bit_or_step zero b = omega (arith, zero-bit_or b, zero-bit_or (b / 2))
bit_or_step (suc a) b =
    bit_or-bitwise (suc a) b
    ∙ digits_halves (λ b. b) max a b
    ∙ ap (λ (x : ℕ). x * 2 + max (suc a % 2) (b % 2)) (sym (bit_or-bitwise (suc a / 2) (b / 2)))

pub pow_two_suc : (s : ℕ) → 2 ^ suc s ≡ 2 * 2 ^ s
pow_two_suc s = omega (arith, pow-suc 2 s)

-- A number shifted over the bits of a smaller one: no carry, so `|` is `+`.
pub bit_or-shift : (s v x : ℕ) → v < 2 ^ s → bit_or v (x * 2 ^ s) ≡ v + x * 2 ^ s
bit_or-shift zero v x h = omega (arith, bit_or_zero v x h)
  where
    bit_or_zero : (v x : ℕ) → v < 2 ^ 0 → bit_or v (x * 2 ^ 0) ≡ v + x * 2 ^ 0
    bit_or_zero zero x h = omega (arith, zero-bit_or (x * 2 ^ 0))
    bit_or_zero (suc v) x h = absurd (omega arith)
bit_or-shift (suc s) v x h = omega (
  arith,
  bit_or_step v (x * 2 ^ suc s),
  pow_two_suc s,
  ap (λ (t : ℕ). x * t) (pow_two_suc s),
  ap (λ (t : ℕ). bit_or (v / 2) t) halved,
  bit_or-shift s (v / 2) x (omega (arith, pow_two_suc s)),
)
  where
    halved : x * 2 ^ suc s / 2 ≡ x * 2 ^ s
    halved = omega (arith, ap (λ (t : ℕ). x * t) (pow_two_suc s))

pub bit_or_lt : (n a b : ℕ) → a < 2 ^ n → b < 2 ^ n → bit_or a b < 2 ^ n
bit_or_lt zero zero b ha hb = omega (arith, zero-bit_or b)
bit_or_lt zero (suc a) b ha hb = absurd (omega arith)
bit_or_lt (suc n) a b ha hb = omega (
  arith,
  bit_or_step a b,
  pow_two_suc n,
  bit_or_lt n (a / 2) (b / 2) (omega (arith, pow_two_suc n)) (omega (arith, pow_two_suc n)),
)

pub nothing-bit_and : (y : ℕ) → bit_and 0 y ≡ 0
nothing-bit_and y = bit_and-bitwise 0 y

-- The lowest digit of `bit_and`, and the others.
pub bit_and_step : (x y : ℕ) → bit_and x y ≡ min (x % 2) (y % 2) + 2 * bit_and (x / 2) (y / 2)
bit_and_step zero y = omega (arith, nothing-bit_and (y / 2), nothing-bit_and y)
bit_and_step (suc x) y = omega (
  arith,
  digits_halves (λ y. zero) min x y,
  bit_and-bitwise (suc x / 2) (y / 2),
  bit_and-bitwise (suc x) y,
)

pub bit_and_half : (a b : ℕ) → bit_and a b / 2 ≡ bit_and (a / 2) (b / 2)
bit_and_half a b = omega (arith, bit_and_step a b)

pub bit_and_parity : (a b : ℕ) → bit_and a b % 2 ≡ min (a % 2) (b % 2)
bit_and_parity a b = omega (arith, bit_and_step a b)

pub bit_or_half : (a b : ℕ) → bit_or a b / 2 ≡ bit_or (a / 2) (b / 2)
bit_or_half a b = omega (arith, bit_or_step a b)

pub bit_or_parity : (a b : ℕ) → bit_or a b % 2 ≡ max (a % 2) (b % 2)
bit_or_parity a b = omega (arith, bit_or_step a b)

-- Numbers under a bound, by halves.
bit_and_none_below : (n x : ℕ) → x < n → bit_and x 0 ≡ 0
bit_and_none_below zero x h = absurd (omega arith)
bit_and_none_below (suc n) zero h = nothing-bit_and 0
bit_and_none_below (suc n) (suc x) h =
    omega (arith, bit_and_step (suc x) 0, bit_and_none_below n (suc x / 2) (omega arith))

bit_or_none_below : (n x : ℕ) → x < n → bit_or x 0 ≡ x
bit_or_none_below zero x h = absurd (omega arith)
bit_or_none_below (suc n) zero h = zero-bit_or 0
bit_or_none_below (suc n) (suc x) h =
    omega (arith, bit_or_step (suc x) 0, bit_or_none_below n (suc x / 2) (omega arith))

bit_and_same_below : (n x : ℕ) → x < n → bit_and x x ≡ x
bit_and_same_below zero x h = absurd (omega arith)
bit_and_same_below (suc n) zero h = nothing-bit_and 0
bit_and_same_below (suc n) (suc x) h =
    omega (arith, bit_and_step (suc x) (suc x), bit_and_same_below n (suc x / 2) (omega arith))

pub bit_and_none : (x : ℕ) → bit_and x 0 ≡ 0
bit_and_none x = bit_and_none_below (suc x) x (omega arith)

pub bit_or_none : (x : ℕ) → bit_or x 0 ≡ x
bit_or_none x = bit_or_none_below (suc x) x (omega arith)

pub bit_and_same : (x : ℕ) → bit_and x x ≡ x
bit_and_same x = bit_and_same_below (suc x) x (omega arith)

pub pow_two_positive : (b : ℕ) → 1 ≤ 2 ^ b
pow_two_positive zero = omega arith
pow_two_positive (suc b) = omega (arith, pow_two_suc b, pow_two_positive b)

-- Two functions that agree on every number under a bound, which evaluation decides.
pub below_table :
    (f g : ℕ → ℕ) (bound at : ℕ) → at < bound → table (λ n. f n == g n) bound ≡ true → f at ≡ g at
below_table f g bound at h same = (==_iff _ _).0 (entry_of_table _ bound at h same)
