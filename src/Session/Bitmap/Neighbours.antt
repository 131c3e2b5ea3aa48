-- ===== src/Session/Bitmap/Neighbours.antt =====
-- The set bits before and behind a position, which `nearest` of src/session/filter_bitmap.rs selects.
use dsct.Base.{
  ℕ, zero, suc, ◌≤◌, ◌<◌, ◌≡◌, refl, ap, sym, Bool, true, false, Option, none, some, List, [], ◌∷◌,
  get_elem?, take, arith, leb, Bool-cases, inl, inr, leb→le, subst,
}
use dsct.Session.Bitmap.Bits.{count, nth}
use dsct.Session.Bitmap.Select.{nth_found, nth_beyond}
use dsct.Session.Bitmap.Sorted.{nth-count}

-- Set positions.
abbrev pub IsSetBit : List Bool → ℕ → Type 0
IsSetBit bits j = get_elem? bits j ≡ some true

-- The last set bit up to a position, and the first behind.
abbrev pub LastUpTo : List Bool → ℕ → Option ℕ → Type 0
LastUpTo bits target none = (j : ℕ) → IsSetBit bits j → target < j
LastUpTo bits target (some i) =
    IsSetBit bits i × (i ≤ target) × ((j : ℕ) → IsSetBit bits j → j ≤ target → j ≤ i)

abbrev pub FirstAfter : List Bool → ℕ → Option ℕ → Type 0
FirstAfter bits target none = (j : ℕ) → IsSetBit bits j → j ≤ target
FirstAfter bits target (some i) =
    IsSetBit bits i × (target < i) × ((j : ℕ) → IsSetBit bits j → target < j → i ≤ j)

count-take-suc :
    (bits : List Bool) (j : ℕ)
    → IsSetBit bits j
    → count (take (suc j) bits) ≡ suc (count (take j bits))
count-take-suc [] j e = absurd (cc e)
count-take-suc (true ∷ bits) zero e = refl
count-take-suc (false ∷ bits) zero e = absurd (cc e)
count-take-suc (true ∷ bits) (suc j) e = ap suc (count-take-suc bits j e)
count-take-suc (false ∷ bits) (suc j) e = count-take-suc bits j e

count-take_le : (bits : List Bool) (i j : ℕ) → i ≤ j → count (take i bits) ≤ count (take j bits)
count-take_le [] zero j h = omega arith
count-take_le [] (suc i) zero h = omega arith
count-take_le [] (suc i) (suc j) h = omega arith
count-take_le (t ∷ bits) zero j h = omega arith
count-take_le (t ∷ bits) (suc i) zero h = absurd (omega arith)
count-take_le (true ∷ bits) (suc i) (suc j) h = omega (arith, count-take_le bits i j (omega arith))
count-take_le (false ∷ bits) (suc i) (suc j) h = count-take_le bits i j (omega arith)

count-take : (bits : List Bool) (i : ℕ) → count (take i bits) ≤ count bits
count-take [] zero = omega arith
count-take [] (suc i) = omega arith
count-take (t ∷ bits) zero = omega arith
count-take (true ∷ bits) (suc i) = omega (arith, count-take bits i)
count-take (false ∷ bits) (suc i) = count-take bits i

module _ (bits : List Bool) where
  abbrev before : ℕ → ℕ
  before i = count (take i bits)

  before_lt : (i j : ℕ) → before i < before j → i < j
  before_lt i j h = elim (Bool-cases (leb j i)) [
    | inl back ↦ absurd (omega (arith, h, count-take_le bits j i (leb→le _ _ back)))
    | inr ahead ↦ ground (arith, ahead)
  ]

  last_found :
      (target n : ℕ) {i : ℕ}
      → before (suc target) ≡ suc n
      → nth bits n ≡ some i
      → LastUpTo bits target (some i)
  last_found target n {i} e found =
      let (number, set) = nth-count bits n i found in
      (
        set,
        omega (arith, before_lt i (suc target) (omega (arith, number, e))),
        λ j set_j h.
            let within = count-take_le bits (suc j) (suc target) (omega (arith, h)) in
            let more = count-take-suc bits j set_j in
            let next_one = count-take-suc bits i set in
            omega (arith, before_lt j (suc i) (omega (arith, within, more, next_one, number, e))),
      )

  pub last_none : (target : ℕ) → before (suc target) ≡ 0 → LastUpTo bits target none
  last_none target e j set_j =
      omega (arith, before_lt (suc target) (suc j) (omega (arith, e, count-take-suc bits j set_j)))

  first_found :
      (target n : ℕ) {i : ℕ}
      → before (suc target) ≡ n
      → nth bits n ≡ some i
      → FirstAfter bits target (some i)
  first_found target n {i} e found =
      let (number, set) = nth-count bits n i found in
      (
        set,
        omega (
          arith,
          before_lt (suc target) (suc i) (omega (arith, number, e, count-take-suc bits i set)),
        ),
        λ j set_j h.
            let within = count-take_le bits (suc target) j h in
            omega (
              arith,
              before_lt i (suc j) (omega (arith, within, count-take-suc bits j set_j, number, e)),
            ),
      )

  first_none : (target : ℕ) → count bits ≤ before (suc target) → FirstAfter bits target none
  first_none target h j set_j = omega (
    arith,
    before_lt j (suc target)
        (omega (arith, h, count-take-suc bits j set_j, count-take bits (suc j))),
  )

  pub no-IsSetBit : count bits ≡ 0 → (j : ℕ) → ¬ (IsSetBit bits j)
  no-IsSetBit e j set_j =
      absurd (omega (arith, e, count-take-suc bits j set_j, count-take bits (suc j)))

  pub first-of : (target n : ℕ) → before (suc target) ≡ n → FirstAfter bits target (nth bits n)
  first-of target n e = elim (Bool-cases (leb (count bits) n)) [
    | inl all ↦
        subst (FirstAfter bits target) (sym (nth_beyond bits n (leb→le _ _ all)))
          (first_none target (omega (arith, e, leb→le _ _ all)))
    | inr more ↦
        let (i, found) = nth_found bits n (ground (arith, more)) in
        subst (FirstAfter bits target) (sym found) (first_found target n e found)
  ]

  pub last-of : (target n : ℕ) → before (suc target) ≡ suc n → LastUpTo bits target (nth bits n)
  last-of target n e =
      let (i, found) = nth_found bits n (omega (arith, e, count-take bits (suc target))) in
      subst (LastUpTo bits target) (sym found) (last_found target n e found)
