-- ===== src/Session/Bitmap/Runs.antt =====
-- The words that `push_set_range` of src/session/filter_bitmap.rs sets are a run of bits.
use dsct.Base.{
  ℕ, zero, suc, ◌+◌, ◌-◌, ◌*◌, ◌/◌, ◌%◌, ◌≤◌, ◌<◌, ◌≡◌, refl, ap, ap₂, sym, ◌∙◌, bit_and, bit_or,
  true, false, Option, some, List, [], ◌∷◌, ◌++◌, ◌==◌, length, arith, Bool-cases, inl, inr, le→leb,
}
use dsct.Session.Bitmap.{or_word}
use dsct.Session.Bitmap.Bits.{digits, length-digits}
use dsct.Session.Bitmap.Flat.{flat}
use dsct.Session.Bitmap.Ranges.{all_ones, from_bit, to_bit, fill_words, set_words}
use dsct.Session.Bitmap.Masks.{
  sets, sets_none, from_bit_mask, to_bit_mask, digits-high, digits-low, digits-both,
}
use dsct.Session.Bitmap.Sets.{trues, sets-append_lt, sets-append_more, sets-append_over, sets-sets}

-- Words with a run of bits set.
abbrev pub Run : Option (List ℕ) → List ℕ → ℕ → ℕ → Type 0
Run o ws i n =
    (ws' : List ℕ) × (o ≡ some ws') × (length ws' ≡ length ws) × (flat ws' ≡ sets i n (flat ws))

or_word-Run :
    (ws : List ℕ) (s m b n : ℕ)
    → ((w : ℕ) → digits 64 (bit_or w m) ≡ sets b n (digits 64 w))
    → b + n ≤ 64
    → s < length ws
    → Run (or_word ws s m) ws (64 * s + b) n
unfolding or_word
or_word-Run [] s m b n mask h within = absurd (omega arith)
or_word-Run (w ∷ ws) zero m b n mask h within = (
  bit_or w m ∷ ws,
  refl,
  refl,
  ap (λ bs. bs ++ flat ws) (mask w)
      ∙ sym (sets-append_lt (digits 64 w) (flat ws) b n (omega (arith, length-digits 64 w)))
      ∙ ap (λ k. sets k n (flat (w ∷ ws))) (first b),
)
  where
    first : (b : ℕ) → b ≡ 64 * 0 + b
    first b = omega arith
or_word-Run (w ∷ ws) (suc s) m b n mask h within =
    let (ws', found, same, bits) = or_word-Run ws s m b n mask h (omega arith) in
    (
      w ∷ ws',
      rw found,
      ap suc same,
      ap (λ bs. digits 64 w ++ bs) bits
          ∙ sym (
              sets-append_more (digits 64 w) (flat ws) (64 * s + b) (64 * suc s + b) n
                (omega (arith, length-digits 64 w))),
    )

fill_words-Run :
    (ws : List ℕ) (skip n : ℕ)
    → skip + n ≤ length ws
    → Run (fill_words ws skip n) ws (64 * skip) (64 * n)
unfolding fill_words
fill_words-Run ws skip zero h = (
  ws,
  rw (le→leb skip (length ws) (omega arith)),
  refl,
  sym (sets_none (64 * skip) (flat ws)) ∙ ap (λ n. sets (64 * skip) n (flat ws)) (omega arith),
)
fill_words-Run [] skip (suc n) h = absurd (omega arith)
fill_words-Run (w ∷ ws) zero (suc n) h =
    let (ws', filled, same, bits) = fill_words-Run ws 0 n (omega arith) in
    (
      all_ones ∷ ws',
      rw filled,
      ap suc same,
      ap₂ (λ xs ys. xs ++ ys) (full w) bits
          ∙ sym (
              sets-append_over (digits 64 w) (flat ws) (64 * n) (64 * suc n)
                (omega (arith, length-digits 64 w))),
    )
  where
    full : (w : ℕ) → digits 64 all_ones ≡ trues (length (digits 64 w))
    full w = refl
fill_words-Run (w ∷ ws) (suc skip) (suc n) h =
    let (ws', filled, same, bits) = fill_words-Run ws skip (suc n) (omega arith) in
    (
      w ∷ ws',
      rw filled,
      ap suc same,
      ap (λ bs. digits 64 w ++ bs) bits
          ∙ sym (
              sets-append_more (digits 64 w) (flat ws) (64 * skip) (64 * suc skip) (64 * suc n)
                (omega (arith, length-digits 64 w))),
    )

high_mask :
    (s : ℕ) → s < 64 → (w : ℕ) → digits 64 (bit_or w (from_bit s)) ≡ sets s (64 - s) (digits 64 w)
high_mask s h w =
    ap (λ m. digits 64 (bit_or w m)) (from_bit_mask s h) ∙ digits-high 64 w s (64 - s) (omega arith)

low_mask :
    (e : ℕ) → e < 64 → (w : ℕ) → digits 64 (bit_or w (to_bit e)) ≡ sets 0 (suc e) (digits 64 w)
low_mask e h w = ap (λ m. digits 64 (bit_or w m)) (to_bit_mask e h) ∙ digits-low 64 w (suc e)

both_masks :
    (s e m : ℕ)
    → s < 64
    → e < 64
    → suc e ≡ s + m
    → (w : ℕ) → digits 64 (bit_or w (bit_and (from_bit s) (to_bit e))) ≡ sets s m (digits 64 w)
both_masks s e m h h' same w =
    ap₂ (λ x y. digits 64 (bit_or w (bit_and x y))) (from_bit_mask s h) (to_bit_mask e h')
    ∙ digits-both 64 w s m (suc e) same (omega arith)

one_word :
    (ws : List ℕ) (start last : ℕ)
    → (start / 64 == last / 64) ≡ true
    → set_words ws start last
      ≡ or_word ws (start / 64) (bit_and (from_bit (start % 64)) (to_bit (last % 64)))
unfolding set_words
one_word ws start last e = rw e

more_words :
    (ws : List ℕ) (start last : ℕ) {first filled : List ℕ}
    → (start / 64 == last / 64) ≡ false
    → or_word ws (start / 64) (from_bit (start % 64)) ≡ some first
    → fill_words first (start / 64 + 1) (last / 64 - (start / 64 + 1)) ≡ some filled
    → set_words ws start last ≡ or_word filled (last / 64) (to_bit (last % 64))
unfolding set_words
more_words ws start last e e' e'' = rw (e, e', e'')

-- A run behind a run is one run.
Run-next :
    (o : Option (List ℕ)) (ws ws' : List ℕ) (i m k n l : ℕ)
    → (length ws' ≡ length ws)
    → (flat ws' ≡ sets i m (flat ws))
    → Run o ws' k n
    → k ≡ i + m
    → l ≡ m + n
    → Run o ws i l
Run-next o ws ws' i m k n l same bits (ws'', found, same', bits') e e' =
    (ws'', found, same' ∙ same, bits' ∙ ap (sets k n) bits ∙ sets-sets (flat ws) i m n k l e e')

Run-at :
    (o o' : Option (List ℕ)) (ws : List ℕ) (i j n : ℕ)
    → o' ≡ o
    → i ≡ j
    → Run o ws i n
    → Run o' ws j n
Run-at o o' ws i j n e e' (ws', found, same, bits) =
    (ws', e ∙ found, same, bits ∙ ap (λ k. sets k n (flat ws)) e')

-- The bits from `start` to `last` are set, and no others.
pub set_words-Run :
    (ws : List ℕ) (start last : ℕ)
    → start ≤ last
    → last / 64 < length ws
    → Run (set_words ws start last) ws start (suc last - start)
set_words-Run ws start last h within = elim (Bool-cases (start / 64 == last / 64)) [
  | inl same ↦
      let word : start / 64 ≡ last / 64 = ground (arith, same) in
      Run-at _ _ ws (64 * (start / 64) + start % 64) start (suc last - start)
        (one_word ws start last same) (omega arith)
        (or_word-Run ws (start / 64) _ (start % 64) (suc last - start)
          (both_masks (start % 64) (last % 64) (suc last - start) (omega arith) (omega arith)
            (omega (arith, word)))
          (omega (arith, word)) (omega (arith, word)))
  | inr other ↦
      let apart : start / 64 < last / 64 = ground (arith, other) in
      let (first, set, same, bits) =
        or_word-Run ws (start / 64) _ (start % 64) (64 - start % 64)
          (high_mask (start % 64) (omega arith)) (omega arith) (omega (arith, apart)) in
      let (filled, full, same', bits') =
        fill_words-Run first (start / 64 + 1) (last / 64 - (start / 64 + 1))
          (omega (arith, apart, same)) in
      let end : Run (or_word filled (last / 64) (to_bit (last % 64))) filled (64 * (last / 64) + 0)
          (suc (last % 64)) =
        or_word-Run filled (last / 64) _ 0 (suc (last % 64)) (low_mask (last % 64) (omega arith))
          (omega arith) (omega (arith, same, same')) in
      Run-at _ _ ws (64 * (start / 64) + start % 64) start (suc last - start)
        (more_words ws start last other set full) (omega arith)
        (Run-next _ ws first (64 * (start / 64) + start % 64) (64 - start % 64)
          (64 * (start / 64 + 1)) (suc last - 64 * (start / 64 + 1)) (suc last - start) same bits
          (Run-next _ first filled (64 * (start / 64 + 1)) (64 * (last / 64 - (start / 64 + 1)))
            (64 * (last / 64) + 0) (suc (last % 64)) (suc last - 64 * (start / 64 + 1)) same' bits'
            end (omega (arith, apart)) (omega (arith, apart)))
          (omega arith) (omega (arith, apart)))
]
