-- ===== src/Session/Bitmap/Grow.antt =====
-- How the bitmap of src/session/filter_bitmap.rs grows.
use dsct.Base.{
  ℕ, zero, suc, ◌+◌, ◌-◌, ◌*◌, ◌/◌, ◌%◌, ◌^◌, ◌≤◌, ◌<◌, ◌≡◌, refl, ap, sym, ◌∙◌, subst, Bool, true,
  false, some, List, [], ◌∷◌, ◌++◌, length, arith, leb, Bool-cases, inl, inr, leb→le, length-append,
  append_assoc, append-nil, take-append_le,
}
use dsct.Session.Bitmap.{
  FilterBitmap, zeros, grow_words, or_word, sync_blocks, extend_universe, push,
}
use dsct.Session.Bitmap.Bits.{count, set_at}
use dsct.Session.Bitmap.Flat.{
  flat, falses, length-falses, falses-append, count-append, count-falses, flat-append, flat-zeros,
  set_at-append_more, or_word-flat,
}
use dsct.Session.Bitmap.Shape.{BlocksSum, Shape, Shows, sync_blocks-Shows}

length-zeros : (n : ℕ) → length (zeros n) ≡ n
length-zeros zero = refl
length-zeros (suc n) = ap suc (length-zeros n)

-- Bits that are appended do not change the sums of the blocks there are.
pub BlocksSum-append :
    (bits more : List Bool) (blocks : List ℕ)
    → BlocksSum bits blocks
    → BlocksSum (bits ++ more) blocks
BlocksSum-append bits more blocks sums i c at =
    let (low, sum) = sums i c at in
    (
      omega (arith, length-append bits more, low),
      sum ∙ ap count (sym (take-append_le (512 * i) bits more low)),
    )

-- The bits not set between the universe and a position behind it.
abbrev pub gap : List Bool → ℕ → List Bool
gap bits idx = bits ++ falses (idx - length bits)

pub length-gap : (bits : List Bool) (idx : ℕ) → length bits ≤ idx → length (gap bits idx) ≡ idx
length-gap bits idx h =
    omega
      (arith, length-append bits (falses (idx - length bits)), length-falses (idx - length bits))

pub count-gap : (bits : List Bool) (idx : ℕ) → count (gap bits idx) ≡ count bits
count-gap bits idx =
    omega (arith, count-append bits (falses (idx - length bits)), count-falses (idx - length bits))

-- The words after `grow_words` to a larger universe.
pub record Grown (bits : List Bool) (words : List ℕ) (universe : ℕ) : Type 0 where
  pub padded : flat words ≡ gap bits universe ++ falses (64 * length words - universe)
  pub enough : universe ≤ 64 * length words
  pub tight : 64 * length words < universe + 64

pub grow_words-Grown :
    (b : FilterBitmap) (bits : List Bool) (universe : ℕ)
    → Shape b bits
    → length bits ≤ universe
    → Grown bits (grow_words b.words universe) universe
unfolding grow_words
grow_words-Grown b bits universe s h = record {
  padded = padded;
  enough = omega (arith, lengths);
  tight = omega (arith, lengths, s.tight);
}
  where
    more : ℕ
    more = (universe + 63) / 64 - length b.words

    words : List ℕ
    words = b.words ++ zeros more

    lengths : length words ≡ length b.words + more
    lengths = length-append b.words (zeros more) ∙ ap (λ n. length b.words + n) (length-zeros more)

    padding : ℕ
    padding = 64 * length b.words - length bits

    padded : flat words ≡ gap bits universe ++ falses (64 * length words - universe)
    padded =
        flat-append b.words (zeros more)
        ∙ ap (λ bs. bs ++ flat (zeros more)) s.padded
        ∙ ap (λ bs. (bits ++ falses padding) ++ bs) (flat-zeros more)
        ∙ append_assoc bits (falses padding) (falses (64 * more))
        ∙ ap (λ bs. bits ++ bs)
            (falses-append padding (64 * more) (64 * length words - length bits)
                (omega (arith, lengths, s.enough))
              ∙ sym (
                  falses-append (universe - length bits) (64 * length words - universe)
                    (64 * length words - length bits) (omega (arith, lengths, h))))
        ∙ sym (
            append_assoc bits (falses (universe - length bits))
              (falses (64 * length words - universe)))

extend_universe_of :
    (b : FilterBitmap) (n : ℕ)
    → leb n b.universe ≡ false
    → extend_universe b n ≡ sync_blocks (record b { words = grow_words b.words n; universe = n })
unfolding extend_universe
extend_universe_of b n e = rw (e, extend_universe)

extend_universe_within :
    (b : FilterBitmap) (n : ℕ) → leb n b.universe ≡ true → extend_universe b n ≡ some b
unfolding extend_universe
extend_universe_within b n e = rw (e, extend_universe)

push_of :
    (b : FilterBitmap) (idx : ℕ) {words : List ℕ}
    → or_word (grow_words b.words (idx + 1)) (idx / 64) (2 ^ (idx % 64)) ≡ some words
    → push b idx ≡ sync_blocks (record b { words = words; ones = b.ones + 1; universe = idx + 1 })
unfolding push
push_of b idx e = rw (e, push)

module _ (b : FilterBitmap) (bits : List Bool) (s : Shows b bits) where
  abbrev shape : Shape b bits
  shape = s.shape

  no_gap : (n : ℕ) → n ≤ b.universe → 0 ≡ n - length bits
  no_gap n h = omega (arith, shape.universe)

  -- `extend_universe` shows more bits, all clear, or the same where the universe is as large already.
  pub extend_universe-Shows :
      (n : ℕ) → (b' : FilterBitmap) × (extend_universe b n ≡ some b') × Shows b' (gap bits n)
  extend_universe-Shows n = elim (Bool-cases (leb n b.universe)) [
    | inl within ↦ (
      b,
      extend_universe_within b n within,
      subst (Shows b)
          (sym (append-nil bits) ∙ ap (λ k. bits ++ falses k) (no_gap n (leb→le _ _ within))) s,
    )
    | inr beyond ↦
        let h : length bits ≤ n = ground (arith, shape.universe) in
        let g = grow_words-Grown b bits n shape h in
        let (b', synced, shows) =
          sync_blocks-Shows (record b { words = grow_words b.words n; universe = n }) (gap bits n)
            (record {
              universe = sym (length-gap bits n h);
              padded =
                  g.padded
                  ∙ ap (λ k. gap bits n ++ falses (64 * length (grow_words b.words n) - k))
                      (sym (length-gap bits n h));
              enough = omega (arith, length-gap bits n h, g.enough);
              tight = omega (arith, length-gap bits n h, g.tight);
              ones = shape.ones ∙ sym (count-gap bits n);
              sums = BlocksSum-append bits _ b.blocks shape.sums;
            }) in
        (b', extend_universe_of b n beyond ∙ synced, shows)
  ]

  -- `push` does not panic, and makes a bitmap that shows the same truth values with clear bits up to
  -- the index and a set bit behind.
  -- Assumed: the bitmap shows the list of truth values, and the index is not below the universe.
  pub push-Shows :
      (idx : ℕ)
      → length bits ≤ idx
      → (b' : FilterBitmap) × (push b idx ≡ some b') × Shows b' (gap bits idx ++ (true ∷ []))
  push-Shows idx h =
      let g = grow_words-Grown b bits (idx + 1) shape (omega arith) in
      let (words, set, same, changed) =
        or_word-flat (grow_words b.words (idx + 1)) (idx / 64) (idx % 64) (omega arith)
          (omega (arith, g.enough)) in
      let (b', synced, shows) =
        sync_blocks-Shows (record b { words = words; ones = b.ones + 1; universe = idx + 1 })
          (gap bits idx ++ (true ∷ []))
          (record {
            universe = omega (arith, lengths);
            padded =
                pushed (grow_words b.words (idx + 1)) words
                  (64 * length words - length (gap bits idx ++ (true ∷ [])))
                  (omega (arith, lengths, same)) changed g.padded;
            enough = omega (arith, lengths, g.enough, same);
            tight = omega (arith, lengths, g.tight, same);
            ones =
                omega
                  (arith, shape.ones, count-gap bits idx, count-append (gap bits idx) (true ∷ []));
            sums =
                BlocksSum-append (gap bits idx) (true ∷ []) b.blocks
                  (BlocksSum-append bits _ b.blocks shape.sums);
          }) in
      (b', push_of b idx set ∙ synced, shows)
    where
      lengths : length (gap bits idx ++ (true ∷ [])) ≡ idx + 1
      lengths = omega (arith, length-append (gap bits idx) (true ∷ []), length-gap bits idx h)

      gap-suc : gap bits (idx + 1) ≡ gap bits idx ++ (false ∷ [])
      gap-suc =
          ap (λ bs. bits ++ bs)
            (sym (falses-append (idx - length bits) 1 (idx + 1 - length bits) (omega (arith, h))))
          ∙ sym (append_assoc bits (falses (idx - length bits)) (false ∷ []))

      here : 64 * (idx / 64) + idx % 64 ≡ idx
      here = omega arith

      pushed :
          (grown words : List ℕ) (padding : ℕ)
          → padding ≡ 64 * length grown - (idx + 1)
          → flat words ≡ set_at (64 * (idx / 64) + idx % 64) (flat grown)
          → flat grown ≡ gap bits (idx + 1) ++ falses (64 * length grown - (idx + 1))
          → flat words ≡ (gap bits idx ++ (true ∷ [])) ++ falses padding
      pushed grown words padding e changed padded =
          changed
          ∙ ap (λ k. set_at k (flat grown)) here
          ∙ ap (set_at idx) (
              padded
              ∙ ap (λ n. gap bits (idx + 1) ++ falses n) (sym e)
              ∙ ap (λ bs. bs ++ falses padding) gap-suc
              ∙ append_assoc (gap bits idx) (false ∷ []) (falses padding))
          ∙ set_at-append_more (gap bits idx) (false ∷ falses padding) 0 idx
              (omega (arith, length-gap bits idx h))
          ∙ sym (append_assoc (gap bits idx) (true ∷ []) (falses padding))
