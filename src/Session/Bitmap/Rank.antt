-- ===== src/Session/Bitmap/Rank.antt =====
-- `contains` and `rank` of src/session/filter_bitmap.rs.
use dsct.Base.{
  ℕ, zero, suc, ◌+◌, ◌-◌, ◌*◌, ◌/◌, ◌%◌, ◌≤◌, ◌<◌, ◌≡◌, refl, ap, sym, ◌∙◌, min, bit_and, Bool,
  true, false, Option, none, some, List, [], ◌∷◌, length, get_elem?, take, arith, leb, ◌==◌,
  get_elem?_within, get_elem?-append_lt, Bool-cases, inl, inr, leb→le, take_all,
}
use dsct.Session.Bitmap.{
  FilterBitmap, shift_right, contains, count_words, count_below, rank_at, rank,
}
use dsct.Session.Bitmap.Bits.{count, digits, digits-get_elem?, ones_of-mask}
use dsct.Session.Bitmap.Flat.{flat, flat-get_elem?, count-flat}
use dsct.Session.Bitmap.Shape.{Shape, Shows, count_words-count, count-padded}

abbrev pub or_false : Option Bool → Bool
or_false none = false
or_false (some t) = t

contains_bit :
    (b : FilterBitmap) (idx : ℕ) {w : ℕ}
    → leb b.universe idx ≡ false
    → get_elem? b.words (idx / 64) ≡ some w
    → contains b idx ≡ some (bit_and (shift_right w (idx % 64)) 1 == 1)
unfolding contains
contains_bit b idx e e' = rw (e, e')

contains_beyond :
    (b : FilterBitmap) (idx : ℕ) → leb b.universe idx ≡ true → contains b idx ≡ some false
unfolding contains
contains_beyond b idx e = rw e

get_elem?_beyond :
    (bits : List Bool) (i : ℕ) → length bits ≤ i → or_false (get_elem? bits i) ≡ false
get_elem?_beyond [] i h = refl
get_elem?_beyond (t ∷ ts) zero h = absurd (omega arith)
get_elem?_beyond (t ∷ ts) (suc i) h = get_elem?_beyond ts i (omega arith)

count_below_none : (words : List ℕ) (word : ℕ) → count_below words word 0 ≡ some 0
unfolding count_below
count_below_none words word = refl

count_below_of :
    (words : List ℕ) (word bit : ℕ) {w : ℕ}
    → get_elem? words word ≡ some w
    → count_below words word bit ≡ some (count (take bit (digits 64 w)))
unfolding count_below
count_below_of words word zero e = refl
count_below_of words word (suc bit) {w} e = rw e (ap some (ones_of-mask 64 w (suc bit)))

rank_at_of :
    (b : FilterBitmap) (i block : ℕ) {c between below : ℕ}
    → block ≡ min (suc i / 64 / 8) (length b.blocks - 1)
    → get_elem? b.blocks block ≡ some c
    → count_words b.words (block * 8) (suc i / 64 - block * 8) ≡ some between
    → count_below b.words (suc i / 64) (suc i % 64) ≡ some below
    → rank_at b (suc i) ≡ some (c + between + below)
unfolding rank_at
rank_at_of b i block e e' e'' e3 = rw (← e, e', e'', e3)

module _ (b : FilterBitmap) (bits : List Bool) (s : Shows b bits) where
  abbrev shape : Shape b bits
  shape = s.shape

  shown_bit :
      (idx k : ℕ)
      → k ≡ idx
      → idx < length bits
      → get_elem? (flat b.words) k ≡ some (or_false (get_elem? bits idx))
  shown_bit idx k e h =
      let (t, at) = get_elem?_within bits idx h in
      ap (get_elem? (flat b.words)) e
      ∙ ap (λ bs. get_elem? bs idx) shape.padded
      ∙ get_elem?-append_lt bits _ idx h
      ∙ at
      ∙ ap (λ o. some (or_false o)) (sym at)

  -- `contains` is the bit shown, and false beyond the universe; it does not panic.
  pub contains-get_elem? : (idx : ℕ) → contains b idx ≡ some (or_false (get_elem? bits idx))
  contains-get_elem? idx = elim (Bool-cases (leb b.universe idx)) [
    | inl beyond ↦
        contains_beyond b idx beyond
        ∙ ap some
            (sym (get_elem?_beyond bits idx (omega (arith, leb→le _ _ beyond, shape.universe))))
    | inr within ↦
        (let (w, at) =
            get_elem?_within b.words (idx / 64) (ground (arith, shape.universe, shape.enough)) in
          contains_bit b idx within at
          ∙ sym (digits-get_elem? 64 w (idx % 64) (omega arith))
          ∙ sym (flat-get_elem? b.words (idx / 64) (idx % 64) (omega arith) at)
          ∙ shown_bit idx (64 * (idx / 64) + idx % 64) (omega arith)
              (ground (arith, shape.universe)))
  ]

  -- The bits before a position within the universe, word by word.
  below-count :
      (word bit : ℕ)
      → bit < 64
      → 64 * word + bit ≤ length bits
      → (below : ℕ) × (count_below b.words word bit ≡ some below)
        × (count (take (64 * word + bit) (flat b.words))
            ≡ count (take (64 * word) (flat b.words)) + below)
  below-count word zero h within = (
    0,
    count_below_none b.words word,
    omega (arith, ap (λ k. count (take k (flat b.words))) (plus_zero word)),
  )
    where
      plus_zero : (n : ℕ) → 64 * n + 0 ≡ 64 * n
      plus_zero n = omega arith
  below-count word (suc bit) h within =
      let (w, at) = get_elem?_within b.words word (omega (arith, shape.enough)) in
      (
        count (take (suc bit) (digits 64 w)),
        count_below_of b.words word (suc bit) at,
        count-flat b.words word (suc bit) (omega arith) at,
      )

  -- The three sums of `rank` meet at the block and at the word.
  rank_sum :
      (word block bit idx c between below : ℕ)
      → block * 8 ≤ word
      → 64 * word + bit ≡ idx
      → idx ≤ length bits
      → c ≡ count (take (512 * block) bits)
      → count (take (64 * (block * 8 + (word - block * 8))) (flat b.words))
        ≡ count (take (64 * (block * 8)) (flat b.words)) + between
      → count (take (64 * word + bit) (flat b.words))
        ≡ count (take (64 * word) (flat b.words)) + below
      → c + between + below ≡ count (take idx bits)
  rank_sum word block bit idx c between below before at within sum added added' =
      let bits_at : ℕ → ℕ = λ k. count (take k (flat b.words)) in
      let first : 64 * (block * 8) ≡ 512 * block = omega arith in
      let second : 64 * (block * 8 + (word - block * 8)) ≡ 64 * word = omega arith in
      omega (
        arith,
        sum,
        added,
        added',
        ap bits_at first,
        ap bits_at second,
        ap bits_at at,
        count-padded b bits shape (512 * block) (omega arith),
        count-padded b bits shape idx within,
      )

  rank_at-count : (idx : ℕ) → idx ≤ length bits → rank_at b idx ≡ some (count (take idx bits))
  unfolding rank_at
  rank_at-count zero h = refl
  rank_at-count (suc i) h =
      let word = suc i / 64 in
      let block = min (word / 8) (length b.blocks - 1) in
      let (c, at) = get_elem?_within b.blocks block (omega (arith, s.started)) in
      let before : block * 8 ≤ word = omega arith in
      let (between, counted, added) =
        count_words-count b.words (block * 8) (word - block * 8) (omega (arith, shape.enough)) in
      let (below, counted', added') = below-count word (suc i % 64) (omega arith) (omega arith) in
      rank_at_of b i block refl at counted counted'
      ∙ ap some (
          rank_sum word block (suc i % 64) (suc i) c between below before (omega arith) h
            (shape.sums block c at).1 added added')

  -- `rank`, with its block sums, whole words and mask, is the number of set bits before a position,
  -- also beyond the universe, and does not panic.
  -- Assumed: the bitmap shows the list of truth values.
  pub rank-count : (idx : ℕ) → rank b idx ≡ some (count (take idx bits))
  unfolding rank
  rank-count idx =
      rank_at-count (min idx b.universe) (omega (arith, shape.universe))
      ∙ ap some (elim (Bool-cases (leb idx (length bits))) [
        | inl within ↦ ap (λ k. count (take k bits)) (ground (arith, shape.universe))
        | inr beyond ↦ ap count (
            take_all (min idx b.universe) bits (ground (arith, shape.universe))
            ∙ sym (take_all idx bits (ground arith)))
      ])
