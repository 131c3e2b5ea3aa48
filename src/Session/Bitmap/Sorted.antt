-- ===== src/Session/Bitmap/Sorted.antt =====
-- `from_sorted_indices` of src/session/filter_bitmap.rs, and how its bitmap answers.
use dsct.Base.{
  ℕ, zero, suc, ◌+◌, ◌≤◌, ◌<◌, ◌≡◌, refl, ap, sym, ◌∙◌, subst, Bool, true, false, Option, none,
  some, List, [], ◌∷◌, ◌++◌, length, get_elem?, take, arith, All, ◌>>=◌, length-append,
  append_assoc, append-nil, get_elem?-append_lt, get_elem?-append_length, Bool-cases, inl, inr, ltb,
  ltb→lt, ◌⊎◌,
}
use dsct.Session.Bitmap.{
  FilterBitmap, empty_bitmap, contains, rank, select, extend_universe, push_all,
  from_sorted_indices,
}
use dsct.Session.Bitmap.Bits.{count, next, nth}
use dsct.Session.Bitmap.Flat.{count-append}
use dsct.Session.Bitmap.Shape.{Shows}
use dsct.Session.Bitmap.Rank.{or_false, contains-get_elem?, rank-count}
use dsct.Session.Bitmap.Select.{nth-append, nth-append_more, nth_beyond, select-nth}
use dsct.Session.Bitmap.Grow.{gap, length-gap, count-gap, extend_universe-Shows, push-Shows}

pub empty-Shows : Shows empty_bitmap []
unfolding empty_bitmap
empty-Shows = record {
  shape = record {
    universe = refl;
    padded = refl;
    enough = omega arith;
    tight = omega arith;
    ones = refl;
    sums = λ i c e. absurd (cc e);
  };
  started = λ h. absurd (omega arith);
}

next-eq-some : (o : Option ℕ) (i : ℕ) → next o ≡ some i → (j : ℕ) × (o ≡ some j) × (i ≡ suc j)
next-eq-some none i e = absurd (cc e)
next-eq-some (some j) i e = (j, refl, cc e)

-- As many bits are set before the n-th set bit as its number says, and it is set.
pub nth-count :
    (bits : List Bool) (n i : ℕ)
    → nth bits n ≡ some i
    → (count (take i bits) ≡ n) × (get_elem? bits i ≡ some true)
nth-count [] n i e = absurd (cc e)
nth-count (true ∷ bits) zero i e =
    let first : 0 ≡ i = cc e in
    (ap (λ k. count (take k (true ∷ bits))) (sym first), ap (get_elem? (true ∷ bits)) (sym first))
nth-count (true ∷ bits) (suc n) i e =
    let (j, found, same) = next-eq-some (nth bits n) i e in
    let (before, set) = nth-count bits n j found in
    (
      ap (λ k. count (take k (true ∷ bits))) same ∙ ap suc before,
      ap (get_elem? (true ∷ bits)) same ∙ set,
    )
nth-count (false ∷ bits) n i e =
    let (j, found, same) = next-eq-some (nth bits n) i e in
    let (before, set) = nth-count bits n j found in
    (
      ap (λ k. count (take k (false ∷ bits))) same ∙ before,
      ap (get_elem? (false ∷ bits)) same ∙ set,
    )

-- The bit that `select` gives for `n` is set, and `rank` of it is `n`.
pub rank-select :
    (b : FilterBitmap) (bits : List Bool) (n idx : ℕ)
    → Shows b bits
    → select b n ≡ some (some idx)
    → (rank b idx ≡ some n) × (contains b idx ≡ some true)
rank-select b bits n idx s e =
    let found : nth bits n ≡ some idx = cc (select-nth b bits s n, e) in
    let (before, set) = nth-count bits n idx found in
    (
      rank-count b bits s idx ∙ ap some before,
      contains-get_elem? b bits s idx ∙ ap (λ o. some (or_false o)) set,
    )

-- The indices go up, from a lower bound on.
abbrev pub Ascending : ℕ → List ℕ → Type 0
Ascending low [] = Unit
Ascending low (i ∷ is) = (low ≤ i) × Ascending (i + 1) is

-- The bits set are those at the indices.
record Marks (bits : List Bool) (indices : List ℕ) : Type 0 where
  positions : (n : ℕ) → nth bits n ≡ get_elem? indices n
  number : count bits ≡ length indices

get_elem?-snoc : (is : List ℕ) (i n : ℕ) → length is < n → get_elem? (is ++ (i ∷ [])) n ≡ none
get_elem?-snoc [] i (suc n) h = refl
get_elem?-snoc [] i zero h = absurd (omega arith)
get_elem?-snoc (j ∷ is) i (suc n) h = get_elem?-snoc is i n (omega arith)
get_elem?-snoc (j ∷ is) i zero h = absurd (omega arith)

three_cases : (n c : ℕ) → (n < c) ⊎ ((n ≡ c) ⊎ (c < n))
three_cases n c = elim (Bool-cases (ltb n c)) [
  | inl less ↦ inl (ltb→lt n c less)
  | inr more ↦ elim (Bool-cases (ltb c n)) [
    | inl greater ↦ inr (inr (ltb→lt c n greater))
    | inr same ↦ inr (inl (ground arith))
  ]
]

gap-Marks : (bits : List Bool) (is : List ℕ) (idx : ℕ) → Marks bits is → Marks (gap bits idx) is
gap-Marks bits is idx m = record { positions = positions; number = count-gap bits idx ∙ m.number }
  where
    positions : (n : ℕ) → nth (gap bits idx) n ≡ get_elem? is n
    positions n = elim (Bool-cases (ltb n (count bits))) [
      | inl less ↦ nth-append bits _ n (ltb→lt _ _ less) ∙ m.positions n
      | inr more ↦
          let beyond : count bits ≤ n = ground arith in
          nth_beyond (gap bits idx) n (omega (arith, count-gap bits idx))
          ∙ sym (nth_beyond bits n beyond)
          ∙ m.positions n
    ]

pushed-Marks :
    (bits : List Bool) (is : List ℕ) (idx : ℕ)
    → length bits ≤ idx
    → Marks bits is
    → Marks (gap bits idx ++ (true ∷ [])) (is ++ (idx ∷ []))
pushed-Marks bits is idx h m = record { positions = positions; number = number }
  where
    before : Marks (gap bits idx) is
    before = gap-Marks bits is idx m

    number : count (gap bits idx ++ (true ∷ [])) ≡ length (is ++ (idx ∷ []))
    number =
        omega (
          arith,
          count-append (gap bits idx) (true ∷ []),
          before.number,
          length-append is (idx ∷ []),
        )

    placed : some (length (gap bits idx) + 0) ≡ some idx
    placed = ap some (omega (arith, length-gap bits idx h))

    positions : (n : ℕ) → nth (gap bits idx ++ (true ∷ [])) n ≡ get_elem? (is ++ (idx ∷ [])) n
    positions n = elim (three_cases n (count (gap bits idx))) [
      | inl less ↦
          nth-append (gap bits idx) (true ∷ []) n less
          ∙ before.positions n
          ∙ sym (get_elem?-append_lt is (idx ∷ []) n (omega (arith, before.number)))
      | inr (inl same) ↦
          let at : length is ≡ n = omega (arith, before.number, same) in
          nth-append_more (gap bits idx) (true ∷ []) n 0 (omega (arith, same))
          ∙ placed
          ∙ sym (ap (get_elem? (is ++ (idx ∷ []))) (sym at) ∙ get_elem?-append_length is [] idx)
      | inr (inr more) ↦
          nth_beyond (gap bits idx ++ (true ∷ [])) n
            (omega (arith, count-append (gap bits idx) (true ∷ [])))
          ∙ sym (get_elem?-snoc is idx n (omega (arith, before.number)))
    ]

-- The loop of `from_sorted_indices`, with `done` pushed already.
push_all-Shows :
    (universe : ℕ) (b : FilterBitmap) (bits : List Bool) (done rest : List ℕ)
    → Shows b bits
    → Marks bits done
    → length bits ≤ universe
    → Ascending (length bits) rest
    → All (λ i. i < universe) rest
    → (b' : FilterBitmap) × (bits' : List Bool) × (push_all b rest ≡ some b')
      × Shows b' bits'
      × Marks bits' (done ++ rest)
      × (length bits' ≤ universe)
unfolding push_all
push_all-Shows universe b bits done [] s m within up below =
    (b, bits, refl, s, subst (Marks bits) (sym (append-nil done)) m, within)
push_all-Shows universe b bits done (i ∷ rest) s m within (low, up) (high, below) =
    let (b1, pushed, s1) = push-Shows b bits s i low in
    let (b', bits', all, s', m', within') =
      push_all-Shows universe b1 (gap bits i ++ (true ∷ [])) (done ++ (i ∷ [])) rest s1
        (pushed-Marks bits done i low m) (omega (arith, lengths))
        (subst (λ n. Ascending n rest) (sym lengths) up) below in
    (
      b',
      bits',
      ap (λ o. o >>= λ b2. push_all b2 rest) pushed ∙ all,
      s',
      subst (Marks bits') (append_assoc done (i ∷ []) rest) m',
      within',
    )
  where
    lengths : length (gap bits i ++ (true ∷ [])) ≡ i + 1
    lengths = omega (arith, length-append (gap bits i) (true ∷ []), length-gap bits i low)

-- The bitmap built from indices covers the universe, has as many set bits as there are indices, and
-- `select` gives back the n-th index for every n and none beyond them, without a panic.
-- Assumed: the indices are strictly increasing and below the universe.
pub from_sorted_indices-select :
    (universe : ℕ) (indices : List ℕ)
    → Ascending 0 indices
    → All (λ i. i < universe) indices
    → (b : FilterBitmap) × (from_sorted_indices universe indices ≡ some b)
      × (b.universe ≡ universe)
      × (b.ones ≡ length indices)
      × ((n : ℕ) → select b n ≡ some (get_elem? indices n))
unfolding from_sorted_indices
from_sorted_indices-select universe indices up below =
    let (b1, bits1, pushed, s1, m1, within) =
      push_all-Shows universe empty_bitmap [] [] indices empty-Shows
        (record { positions = λ n. refl; number = refl }) (omega arith) up below in
    let (b, extended, s) = extend_universe-Shows b1 bits1 s1 universe in
    let m = gap-Marks bits1 indices universe m1 in
    (
      b,
      ap (λ o. o >>= λ b2. extend_universe b2 universe) pushed ∙ extended,
      s.shape.universe ∙ length-gap bits1 universe within,
      s.shape.ones ∙ m.number,
      λ n. select-nth b (gap bits1 universe) s n ∙ ap some (m.positions n),
    )
