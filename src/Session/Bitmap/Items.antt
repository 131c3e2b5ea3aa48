-- ===== src/Session/Bitmap/Items.antt =====
-- What the iterators of src/session/filter_bitmap.rs go through.
use dsct.Base.{
  ℕ, zero, suc, ◌+◌, ◌-◌, ◌*◌, ◌^◌, ◌≤◌, ◌<◌, ◌≡◌, refl, ap, sym, ◌∙◌, subst, Bool, false, Option,
  none, some, List, [], ◌∷◌, ◌++◌, ◌==◌, get_elem?, drop, arith,
}
use dsct.Session.Bitmap.{FilterBitmap}
use dsct.Session.Bitmap.Bits.{nth, digits}
use dsct.Session.Bitmap.Flat.{flat}
use dsct.Session.Bitmap.Select.{moved, moved-moved}
use dsct.Session.Bitmap.Iterate.{Iter, lowest, next_loop, next_bit, item}
use dsct.Session.Bitmap.Lowest.{
  WithinU64, bit_and_within, drop-suc, nth-clear_word, nth-zeros, nth-lowest,
}

-- The bits that an iterator has before it, counted from the start of its word.
abbrev pub ahead : List ℕ → ℕ → ℕ → List Bool
ahead words word current = digits 64 current ++ flat (drop (suc word) words)

-- The n-th bit before it, by its index.
abbrev pub bit_ahead : List ℕ → Iter → ℕ → Option ℕ
bit_ahead words it k = moved (64 * it.word) (nth (ahead words it.word it.current) k)

-- `next` returns the first bit and leaves the others.
abbrev Nexts : List ℕ → Iter → Option ℕ × Iter → Type 0
Nexts words it result =
    (result.0 ≡ bit_ahead words it 0)
    × ((k : ℕ) → bit_ahead words result.1 k ≡ bit_ahead words it (suc k))
    × (result.1.current < 2 ^ 64)

lowest-Nexts :
    (words : List ℕ) (word current : ℕ)
    → current < 2 ^ 64
    → 1 ≤ current
    → Nexts words (record { word = word; current = current }) (lowest word current)
unfolding lowest
lowest-Nexts words word current h h' = (
  ap some (omega arith)
      ∙ ap (moved (64 * word)) (sym (nth-lowest current (flat (drop (suc word) words)) h h')),
  λ k. ap (moved (64 * word)) (nth-clear_word current k (flat (drop (suc word) words)) h h'),
  bit_and_within 64 current (current - 1) h,
)

-- The next word's bits follow a word of zeros.
ahead_zeros :
    (words : List ℕ) (word k : ℕ) {w : ℕ} {ws : List ℕ}
    → drop (suc word) words ≡ w ∷ ws
    → bit_ahead words (record { word = suc word; current = w }) k
      ≡ bit_ahead words (record { word = word; current = 0 }) k
ahead_zeros words word k {w} {ws} e =
    ap (λ xs. moved (64 * suc word) (nth (digits 64 w ++ flat xs) k)) (drop-suc words (suc word) e)
    ∙ sym (moved-moved (64 * word) 64 (64 * suc word) (nth (flat (w ∷ ws)) k) (omega arith))
    ∙ ap (moved (64 * word))
        (sym (nth-zeros (flat (w ∷ ws)) k) ∙ ap (λ xs. nth (digits 64 0 ++ flat xs) k) (sym e))

pub ahead_over :
    (words : List ℕ) (word k : ℕ)
    → drop (suc word) words ≡ []
    → bit_ahead words (record { word = word; current = 0 }) k ≡ none
ahead_over words word k e =
    ap (moved (64 * word)) (ap (λ xs. nth (digits 64 0 ++ flat xs) k) e ∙ nth-zeros [] k)

drop_over : {A : Type 0} → (xs : List A) (k : ℕ) → drop k xs ≡ [] → drop (suc k) xs ≡ []
drop_over [] k e = refl
drop_over (x ∷ xs) zero e = absurd (cc e)
drop_over (x ∷ xs) (suc k) e = drop_over xs k e

next_loop_end : (word : ℕ) → next_loop [] word 0 ≡ (none, record { word = suc word; current = 0 })
unfolding next_loop
next_loop_end word = refl

next_loop_on : (w word : ℕ) (ws : List ℕ) → next_loop (w ∷ ws) word 0 ≡ next_loop ws (suc word) w
unfolding next_loop
next_loop_on w word ws = refl

next_loop_here :
    (ws : List ℕ) (word current : ℕ)
    → (current == 0) ≡ false
    → next_loop ws word current ≡ lowest word current
unfolding next_loop
next_loop_here [] word current e = rw e
next_loop_here (w ∷ ws) word current e = rw e

get_elem?-drop :
    {A : Type 0} → (xs : List A) (k i j : ℕ) → j ≡ k + i → get_elem? (drop k xs) i ≡ get_elem? xs j
get_elem?-drop xs zero i j e = ap (get_elem? xs) (omega (arith, e))
get_elem?-drop [] (suc k) i j e = refl
get_elem?-drop (x ∷ xs) (suc k) i zero e = absurd (omega (arith, e))
get_elem?-drop (x ∷ xs) (suc k) i (suc j) e = get_elem?-drop xs k i j (omega (arith, e))

not_zero : (c : ℕ) → (suc c == 0) ≡ false
not_zero c = ground arith

next_loop-Nexts :
    (words rest : List ℕ) (word current : ℕ)
    → drop (suc word) words ≡ rest
    → WithinU64 rest
    → current < 2 ^ 64
    → Nexts words (record { word = word; current = current }) (next_loop rest word current)
next_loop-Nexts words [] word zero e within h =
    subst (Nexts words (record { word = word; current = 0 })) (sym (next_loop_end word)) (
      sym (ahead_over words word 0 e),
      λ k.
          ahead_over words (suc word) k (drop_over words (suc word) e)
          ∙ sym (ahead_over words word (suc k) e),
      h,
    )
next_loop-Nexts words (w ∷ ws) word zero e within h =
    let (first, others, bound) =
      next_loop-Nexts words ws (suc word) w (drop-suc words (suc word) e) (λ i. within (suc i))
        (within 0 w refl) in
    subst (Nexts words (record { word = word; current = 0 })) (sym (next_loop_on w word ws))
      (first ∙ ahead_zeros words word 0 e, λ k. others k ∙ ahead_zeros words word (suc k) e, bound)
next_loop-Nexts words rest word (suc c) e within h =
    subst (Nexts words (record { word = word; current = suc c }))
      (sym (next_loop_here rest word (suc c) (not_zero c)))
      (lowest-Nexts words word (suc c) h (omega arith))

module _ (b : FilterBitmap) (within : WithinU64 b.words) where
  next_bit-Nexts : (it : Iter) → it.current < 2 ^ 64 → Nexts b.words it (next_bit b it)
  unfolding next_bit
  next_bit-Nexts it h =
      next_loop-Nexts b.words (drop (suc it.word) b.words) it.word it.current refl
        (λ i w e.
          within (suc it.word + i) w
            (sym (get_elem?-drop b.words (suc it.word) i (suc it.word + i) refl) ∙ e))
        h

  -- `next` called again and again goes through the bits before the iterator.
  pub item-bit_ahead :
      (it : Iter) (k : ℕ) → it.current < 2 ^ 64 → item b it k ≡ bit_ahead b.words it k
  unfolding item next_bit
  item-bit_ahead it zero h = (next_bit-Nexts it h).0
  item-bit_ahead it (suc k) h =
      let (first, others, bound) = next_bit-Nexts it h in
      item-bit_ahead (next_bit b it).1 k bound ∙ others k
