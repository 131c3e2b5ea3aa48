-- ===== src/Filter/Numbers.antt =====
-- `PacketNumberFilter` of src/filter.rs: ranges of packet numbers.
use dsct.Base.{
  ℕ, ◌<◌, ◌≡◌, refl, Bool, false, ◌&&◌, ◌||◌, Option, none, some, List, [], ◌∷◌, leb, arith, max,
  Option-cases, inl, inr,
}

pub record PacketNumberFilter : Type 0 where
  pub ranges : List (ℕ × ℕ)

unfoldable pub from_ranges : List (ℕ × ℕ) → PacketNumberFilter
from_ranges rs = record { ranges = rs }

unfoldable pub any_contains : List (ℕ × ℕ) → ℕ → Bool
any_contains [] n = false
any_contains ((lo, hi) ∷ rs) n = leb lo n && leb n hi || any_contains rs n

-- `PacketNumberFilter::contains`.
unfoldable pub contains : PacketNumberFilter → ℕ → Bool
unfolding any_contains
contains f n = any_contains f.ranges n

abbrev later : ℕ → Option ℕ → Option ℕ
later hi none = some hi
later hi (some m) = some (max hi m)

unfoldable pub max_end : List (ℕ × ℕ) → Option ℕ
max_end [] = none
max_end ((lo, hi) ∷ rs) = later hi (max_end rs)

-- `PacketNumberFilter::max`.
unfoldable pub max_number : PacketNumberFilter → Option ℕ
unfolding max_end
max_number f = max_end f.ranges

any_contains_empty : (rs : List (ℕ × ℕ)) (n : ℕ) → max_end rs ≡ none → any_contains rs n ≡ false
unfolding max_end any_contains
any_contains_empty [] n e = refl
any_contains_empty ((lo, hi) ∷ rs) n e = ground arith

any_contains_above :
    (rs : List (ℕ × ℕ)) (n m : ℕ) → max_end rs ≡ some m → m < n → any_contains rs n ≡ false
unfolding max_end any_contains
any_contains_above [] n m e h = refl
any_contains_above ((lo, hi) ∷ rs) n m e h = elim (Option-cases (max_end rs)) [
  | inl alone ↦ ground (arith, any_contains_empty rs n alone)
  | inr (m', found) ↦ ground (arith, any_contains_above rs n m' found)
]

-- No number above the filter's largest one passes it, so that reading may stop there.
pub contains_above :
    (f : PacketNumberFilter) (n m : ℕ) → max_number f ≡ some m → m < n → contains f n ≡ false
unfolding contains max_number
contains_above f n m e h = any_contains_above f.ranges n m e h
