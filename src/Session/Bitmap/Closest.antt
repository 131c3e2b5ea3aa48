-- ===== src/Session/Bitmap/Closest.antt =====
-- `nearest` of src/session/filter_bitmap.rs finds the set bit with the least distance.
use dsct.Base.{
  ℕ, zero, suc, ◌+◌, ◌-◌, ◌≤◌, ◌<◌, ◌≡◌, refl, ap, sym, ◌∙◌, min, Bool, true, false, Option, none,
  some, List, length, take, arith, leb, ltb, ◌==◌, if◌then◌else◌, Bool-cases, inl, inr, leb→le,
  le→leb, take_all,
}
use dsct.Session.Bitmap.{FilterBitmap, rank, select}
use dsct.Session.Bitmap.Bits.{count, nth}
use dsct.Session.Bitmap.Shape.{Shows}
use dsct.Session.Bitmap.Rank.{rank-count}
use dsct.Session.Bitmap.Select.{select-nth}
use dsct.Session.Bitmap.Neighbours.{
  IsSetBit, LastUpTo, FirstAfter, last_none, no-IsSetBit, first-of, last-of,
}
use dsct.Session.Bitmap.Nearest.{usize_max, nearer, nearest}

abbrev pub distance : ℕ → ℕ → ℕ
distance i j = (i - j) + (j - i)

-- The set bit with the least distance from a position, the lower of two; none if no bit is set.
abbrev pub IsNearest : List Bool → ℕ → Option ℕ → Type 0
IsNearest bits target none = (j : ℕ) → ¬ (IsSetBit bits j)
IsNearest bits target (some i) =
    IsSetBit bits i
    × ((j : ℕ)
        → IsSetBit bits j
        → (distance target i ≤ distance target j) × (distance target i ≡ distance target j → i ≤ j))

nearer_low :
    (target i k : ℕ)
    → i ≤ target
    → target < k
    → leb (target - i) (k - target) ≡ true
    → nearer target (some i) (some k) ≡ some (some i)
unfolding nearer
nearer_low target i k low high e =
    rw (le→leb i target low, le→leb target k (omega (arith, high)), e)

nearer_high :
    (target i k : ℕ)
    → i ≤ target
    → target < k
    → leb (target - i) (k - target) ≡ false
    → nearer target (some i) (some k) ≡ some (some k)
unfolding nearer
nearer_high target i k low high e =
    rw (le→leb i target low, le→leb target k (omega (arith, high)), e)

module _ (bits : List Bool) where
  nearer-IsNearest :
      (target : ℕ) (below above : Option ℕ)
      → LastUpTo bits target below
      → FirstAfter bits target above
      → (o : Option ℕ) × (nearer target below above ≡ some o) × IsNearest bits target o
  unfolding nearer
  nearer-IsNearest target none none last first =
      (none, refl, λ j set_j. absurd (omega (arith, last j set_j, first j set_j)))
  nearer-IsNearest target (some i) none (set, low, last) first = (
    some i,
    refl,
    (
      set,
      λ j set_j.
          let within = first j set_j in
          let near = last j set_j within in
          (omega (arith, within, near, low), λ e. omega (arith, within, near, low, e)),
    ),
  )
  nearer-IsNearest target none (some i) last (set, high, first) = (
    some i,
    refl,
    (
      set,
      λ j set_j.
          let ahead = last j set_j in
          let near = first j set_j ahead in (omega (arith, near, high), λ e. near),
    ),
  )
  nearer-IsNearest target (some i) (some k) (set, low, last) (set', high, first) =
      elim (Bool-cases (leb (target - i) (k - target))) [
        | inl back ↦ (
          some i,
          nearer_low target i k low high back,
          (
            set,
            λ j set_j. elim (Bool-cases (leb j target)) [
              | inl before ↦
                  let near = last j set_j (leb→le _ _ before) in
                  let within = leb→le _ _ before in
                  (omega (arith, near, within, low), λ e. omega (arith, near, within, low, e))
              | inr behind ↦
                  let ahead : target < j = ground (arith, behind) in
                  let near = first j set_j ahead in
                  let short = leb→le _ _ back in
                  (omega (arith, near, ahead, low, high, short), λ e. omega (arith, ahead, low))
            ],
          ),
        )
        | inr on ↦
            let short : k - target < target - i = ground (arith, on) in
            (
              some k,
              nearer_high target i k low high on,
              (
                set',
                λ j set_j. elim (Bool-cases (leb j target)) [
                  | inl before ↦
                      let near = last j set_j (leb→le _ _ before) in
                      let within = leb→le _ _ before in
                      (
                        omega (arith, near, within, low, high, short),
                        λ e. absurd (omega (arith, near, within, low, high, short, e)),
                      )
                  | inr behind ↦
                      let ahead : target < j = ground (arith, behind) in
                      let near = first j set_j ahead in
                      (omega (arith, near, ahead, high), λ e. near)
                ],
              ),
            )
      ]

nearest_of :
    (b : FilterBitmap) (target r : ℕ) {below above : Option ℕ}
    → (b.ones == 0) ≡ false
    → rank b (min (target + 1) usize_max) ≡ some r
    → (if ltb 0 r then select b (r - 1) else some none) ≡ some below
    → select b r ≡ some above
    → nearest b target ≡ nearer target below above
unfolding nearest
nearest_of b target r e e' e'' e3 = rw (e, e', e'', e3)

nearest_empty :
    (b : FilterBitmap) (target : ℕ) → (b.ones == 0) ≡ true → nearest b target ≡ some none
unfolding nearest
nearest_empty b target e = rw e

below_of :
    (b : FilterBitmap) (n : ℕ)
    → (if ltb 0 (suc n) then select b (suc n - 1) else some none) ≡ select b n
below_of b n =
    let positive : ltb 0 (suc n) ≡ true = ground arith in
    let less : suc n - 1 ≡ n = omega arith in rw (positive, less)

-- The addition that stops at `usize::MAX` leaves out no bit.
saturated :
    (bits : List Bool) (target : ℕ)
    → length bits ≤ usize_max
    → count (take (min (target + 1) usize_max) bits) ≡ count (take (suc target) bits)
saturated bits target h = elim (Bool-cases (leb (suc target) usize_max)) [
  | inl within ↦
      let same : min (target + 1) usize_max ≡ suc target = ground (arith, within) in
      ap (λ n. count (take n bits)) same
  | inr beyond ↦
      let past : usize_max < suc target = ground (arith, beyond) in
      ap count (
        take_all (min (target + 1) usize_max) bits (omega (arith, past, h))
        ∙ sym (take_all (suc target) bits (omega (arith, past, h))))
]

module _ (b : FilterBitmap) (bits : List Bool) (s : Shows b bits) where
  nearest_at :
      (target r : ℕ)
      → length bits ≤ usize_max
      → (b.ones == 0) ≡ false
      → count (take (suc target) bits) ≡ r
      → (o : Option ℕ) × (nearest b target ≡ some o) × IsNearest bits target o
  nearest_at target zero h more e =
      let (o, found, near) =
        nearer-IsNearest bits target none (nth bits 0) (last_none bits target e)
          (first-of bits target 0 e) in
      (
        o,
        nearest_of b target 0 more (rank-count b bits s _ ∙ ap some (saturated bits target h ∙ e))
              refl (select-nth b bits s 0)
            ∙ found,
        near,
      )
  nearest_at target (suc n) h more e =
      let (o, found, near) =
        nearer-IsNearest bits target (nth bits n) (nth bits (suc n)) (last-of bits target n e)
          (first-of bits target (suc n) e) in
      (
        o,
        nearest_of b target (suc n) more
              (rank-count b bits s _ ∙ ap some (saturated bits target h ∙ e))
              (below_of b n ∙ select-nth b bits s n) (select-nth b bits s (suc n))
            ∙ found,
        near,
      )

  -- `nearest` does not panic, and finds a set bit with the least distance from the target, the lowest
  -- of those, or none where no bit is set.
  -- Assumed: the bitmap shows the list of truth values, which is not longer than `usize::MAX`.
  pub nearest-IsNearest :
      (target : ℕ)
      → length bits ≤ usize_max
      → (o : Option ℕ) × (nearest b target ≡ some o) × IsNearest bits target o
  nearest-IsNearest target h = elim (Bool-cases (b.ones == 0)) [
    | inl empty ↦
        let no_bits : count bits ≡ 0 = ground (arith, empty, s.shape.ones) in
        (none, nearest_empty b target empty, no-IsSetBit bits no_bits)
    | inr more ↦ nearest_at target (count (take (suc target) bits)) h more refl
  ]
