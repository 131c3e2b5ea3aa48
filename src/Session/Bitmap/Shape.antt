-- ===== src/Session/Bitmap/Shape.antt =====
-- What a bitmap of src/session/filter_bitmap.rs shows: one truth value for each packet.
use dsct.Base.{
  ℕ, zero, suc, ◌+◌, ◌-◌, ◌*◌, ◌/◌, ◌≤◌, ◌<◌, ◌≡◌, refl, ap, sym, ◌∙◌, Bool, some, List, [], ◌∷◌,
  ◌++◌, length, get_elem?, take, arith, length-append, take-append_le, get_elem?_within, ◌⊎◌, inl,
  inr, ◌>>=◌, take_all,
}
use dsct.Session.Bitmap.{
  FilterBitmap, count_ones, count_words, words_per_block, sync_round, sync_loop, first_block,
  sync_blocks,
}
use dsct.Session.Bitmap.Bits.{count, digits, length-digits, ones_of-digits}
use dsct.Session.Bitmap.Flat.{flat, falses, count-flat}

-- A block's entry is the number of set bits before it, and lies within the universe.
abbrev pub BlocksSum : List Bool → List ℕ → Type 0
BlocksSum bits blocks =
    (i c : ℕ)
    → get_elem? blocks i ≡ some c
    → (512 * i ≤ length bits) × (c ≡ count (take (512 * i) bits))

-- The words are the bits with zeros behind them, as few words as will do.
pub record Shape (b : FilterBitmap) (bits : List Bool) : Type 0 where
  pub universe : b.universe ≡ length bits
  pub padded : flat b.words ≡ bits ++ falses (64 * length b.words - length bits)
  pub enough : length bits ≤ 64 * length b.words
  pub tight : 64 * length b.words < length bits + 64
  pub ones : b.ones ≡ count bits
  pub sums : BlocksSum bits b.blocks

-- The same with a first block, once there is a packet.
pub record Shows (b : FilterBitmap) (bits : List Bool) : Type 0 where
  pub shape : Shape b bits
  pub started : 1 ≤ length bits → 1 ≤ length b.blocks

count_words_of :
    (words : List ℕ) (start n : ℕ) {w rest : ℕ}
    → get_elem? words start ≡ some w
    → count_words words (start + 1) n ≡ some rest
    → count_words words start (suc n) ≡ some (count_ones w + rest)
unfolding count_words
count_words_of words start n e e' = rw (e, e')

-- The loop over words counts the bits between two positions.
pub count_words-count :
    (words : List ℕ) (start n : ℕ)
    → start + n ≤ length words
    → (c : ℕ) × (count_words words start n ≡ some c)
      × (count (take (64 * (start + n)) (flat words)) ≡ count (take (64 * start) (flat words)) + c)
unfolding count_words
count_words-count words start zero h =
    (0, refl, omega (arith, ap (λ k. count (take (64 * k) (flat words))) (start_plus start)))
  where
    start_plus : (s : ℕ) → s + 0 ≡ s
    start_plus s = omega arith
count_words-count words start (suc n) h =
    let (w, found) = get_elem?_within words start (omega arith) in
    let (rest, counted, sum) = count_words-count words (start + 1) n (omega arith) in
    (
      count_ones w + rest,
      count_words_of words start n found counted,
      omega (
        arith,
        sum,
        ap (λ k. count (take (64 * k) (flat words))) (moved start n),
        ap (λ k. count (take k (flat words))) (next_word start),
        count-flat words start 64 (omega arith) found,
        ap count (take_all 64 (digits 64 w) (omega (arith, length-digits 64 w))),
        ones_of-digits 64 w,
      ),
    )
  where
    moved : (s n : ℕ) → s + 1 + n ≡ s + suc n
    moved s n = omega arith

    next_word : (s : ℕ) → 64 * (s + 1) ≡ 64 * s + 64
    next_word s = omega arith

-- Below the universe the words' bits are those shown.
pub count-padded :
    (b : FilterBitmap) (bits : List Bool)
    → Shape b bits
    → (k : ℕ) → k ≤ length bits
    → count (take k (flat b.words)) ≡ count (take k bits)
count-padded b bits s k h =
    ap (λ bs. count (take k bs)) s.padded ∙ ap count (take-append_le k bits _ h)

snoc_cases :
    (xs : List ℕ) (x i : ℕ) {c : ℕ}
    → get_elem? (xs ++ (x ∷ [])) i ≡ some c
    → (get_elem? xs i ≡ some c) ⊎ ((i ≡ length xs) × (c ≡ x))
snoc_cases [] x zero e = inr (refl, cc e)
snoc_cases [] x (suc i) e = absurd (cc e)
snoc_cases (y ∷ ys) x zero e = inl e
snoc_cases (y ∷ ys) x (suc i) e = elim (snoc_cases ys x i e) [
  | inl before ↦ inl before
  | inr (at, same) ↦ inr (ap suc at, same)
]

sync_round_of :
    (words blocks : List ℕ) {prev sum : ℕ}
    → get_elem? blocks (length blocks - 1) ≡ some prev
    → count_words words ((length blocks - 1) * words_per_block) words_per_block ≡ some sum
    → sync_round words blocks ≡ some (blocks ++ ((prev + sum) ∷ []))
unfolding sync_round
sync_round_of words blocks e e' = rw (e, e')

module _ (b : FilterBitmap) (bits : List Bool) (s : Shape b bits) where
  -- A round adds the sum of the next block, if its words are there and another one behind them.
  sync_round-BlocksSum :
      (blocks : List ℕ)
      → 1 ≤ length blocks
      → 8 * length blocks < length b.words
      → BlocksSum bits blocks
      → (sum : ℕ) × (sync_round b.words blocks ≡ some (blocks ++ (sum ∷ [])))
        × BlocksSum bits (blocks ++ (sum ∷ []))
  sync_round-BlocksSum blocks some_block more sums =
      let n = length blocks in
      let (prev, at) = get_elem?_within blocks (n - 1) (omega arith) in
      let (c, counted, added) = count_words-count b.words ((n - 1) * 8) 8 (omega arith) in
      (
        prev + c,
        sync_round_of b.words blocks at counted,
        λ i d found. elim (snoc_cases blocks (prev + c) i found) [
          | inl before ↦ sums i d before
          | inr (last, same) ↦ (
            omega (arith, s.tight, last),
            omega (
              arith,
              same,
              (sums (n - 1) prev at).1,
              added,
              at_blocks (64 * ((n - 1) * 8)) (n - 1) (omega arith) (omega (arith, s.tight)),
              at_blocks (64 * ((n - 1) * 8 + 8)) n (omega arith) (omega (arith, s.tight)),
              ap (λ k. count (take (512 * k) bits)) last,
            ),
          )
        ],
      )
    where
      at_blocks :
          (k i : ℕ)
          → k ≡ 512 * i
          → 512 * i ≤ length bits
          → count (take k (flat b.words)) ≡ count (take (512 * i) bits)
      at_blocks k i e h =
          ap (λ j. count (take j (flat b.words))) e ∙ count-padded b bits s (512 * i) h

  sync_loop-BlocksSum :
      (n : ℕ) (blocks : List ℕ)
      → 1 ≤ length blocks
      → (1 ≤ n → 8 * (length blocks + n - 1) < length b.words)
      → BlocksSum bits blocks
      → (blocks' : List ℕ) × (sync_loop n b.words blocks ≡ some blocks')
        × (1 ≤ length blocks')
        × BlocksSum bits blocks'
  unfolding sync_loop
  sync_loop-BlocksSum zero blocks some_block more sums = (blocks, refl, some_block, sums)
  sync_loop-BlocksSum (suc n) blocks some_block more sums =
      let (sum, went, sums') =
        sync_round-BlocksSum blocks some_block (omega (arith, more (omega arith))) sums in
      let (blocks', looped, some_block', sums'') =
        sync_loop-BlocksSum n (blocks ++ (sum ∷ []))
          (omega (arith, length-append blocks (sum ∷ [])))
          (λ h. omega (arith, length-append blocks (sum ∷ []), more (omega arith))) sums' in
      (blocks', ap (λ o. o >>= sync_loop n b.words) went ∙ looped, some_block', sums'')

  no_bits : (c : ℕ) → 0 ≡ c → c ≡ count (take (512 * 0) bits)
  no_bits c e = sym e ∙ ap (λ k. count (take k bits)) none_before
    where
      none_before : 0 ≡ 512 * 0
      none_before = omega arith

  first_block-BlocksSum :
      (blocks : List ℕ) → BlocksSum bits blocks → BlocksSum bits (first_block blocks)
  first_block-BlocksSum [] sums zero c e = (omega arith, no_bits c (cc e))
  first_block-BlocksSum [] sums (suc i) c e = absurd (cc e)
  first_block-BlocksSum (d ∷ ds) sums i c e = sums i c e

  first_block_some : (blocks : List ℕ) → 1 ≤ length (first_block blocks)
  first_block_some [] = omega arith
  first_block_some (d ∷ ds) = omega arith

  -- `sync_blocks` gives a bitmap that shows the same bits.
  pub sync_blocks-Shows : (b' : FilterBitmap) × (sync_blocks b ≡ some b') × Shows b' bits
  unfolding sync_blocks
  sync_blocks-Shows =
      let finalized = (length b.words - 1) / 8 in
      let blocks = first_block b.blocks in
      let (blocks', looped, some_block, sums) =
        sync_loop-BlocksSum (suc finalized - length blocks) blocks (first_block_some b.blocks)
          (λ h. omega (arith, first_block_some b.blocks)) (first_block-BlocksSum b.blocks s.sums) in
      (
        record b { blocks = blocks' },
        rw looped,
        record {
          shape = record {
            universe = s.universe;
            padded = s.padded;
            enough = s.enough;
            tight = s.tight;
            ones = s.ones;
            sums = sums;
          };
          started = λ _. some_block;
        },
      )
