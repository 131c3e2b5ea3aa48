-- ===== src/Session/Bitmap/IterFrom.antt =====
-- `iter` and `iter_from` of src/session/filter_bitmap.rs go through the set bits in order.
use dsct.Base.{
  ℕ, suc, ◌+◌, ◌*◌, ◌/◌, ◌%◌, ◌^◌, ◌≤◌, ◌<◌, ◌≡◌, refl, ap, sym, ◌∙◌, bit_and, Bool, Option, none,
  some, List, [], ◌∷◌, ◌++◌, length, get_elem?, drop, arith, leb, leb→le, Bool-cases, inl, inr,
  append_assoc, get_elem?_within,
}
use dsct.Session.Bitmap.{FilterBitmap, or_zero, select}
use dsct.Session.Bitmap.Bits.{count, nth, digits}
use dsct.Session.Bitmap.Flat.{flat, falses, length-flat}
use dsct.Session.Bitmap.Shape.{Shows, count-padded}
use dsct.Session.Bitmap.Select.{moved, nth_found, nth_beyond, moved-moved, select-nth}
use dsct.Session.Bitmap.Sorted.{nth-count}
use dsct.Session.Bitmap.Ranges.{from_bit}
use dsct.Session.Bitmap.Masks.{from_bit_mask}
use dsct.Session.Bitmap.Iterate.{Iter, iter, iter_at, iter_from, item}
use dsct.Session.Bitmap.Items.{bit_ahead, ahead_over, item-bit_ahead}
use dsct.Session.Bitmap.Lowest.{WithinU64, bit_and_within}
use dsct.Session.Bitmap.Tails.{
  digits-from, nth-falses, nth-padding, nth-from, flat-from, set_within, drop_all,
}

iter_from_of :
    (b : FilterBitmap) (n : ℕ) {found : Option ℕ}
    → select b n ≡ some found
    → iter_from b n ≡ iter_at b found
unfolding iter_from
iter_from_of b n e = rw e

iter_at-none :
    (b : FilterBitmap) → iter_at b none ≡ some (record { word = length b.words; current = 0 })
unfolding iter_at
iter_at-none b = refl

iter_at-some :
    (b : FilterBitmap) (start : ℕ) {w : ℕ}
    → get_elem? b.words (start / 64) ≡ some w
    → iter_at b (some start)
      ≡ some (record { word = start / 64; current = bit_and w (from_bit (start % 64)) })
unfolding iter_at
iter_at-some b start e = rw e

first_word :
    (ws : List ℕ) (k : ℕ)
    → bit_ahead ws (record { word = 0; current = or_zero (get_elem? ws 0) }) k ≡ nth (flat ws) k
first_word [] k = ahead_over [] 0 k refl
first_word (w ∷ ws) k = from_start (nth (flat (w ∷ ws)) k)
  where
    from_start : (o : Option ℕ) → moved (64 * 0) o ≡ o
    from_start none = refl
    from_start (some i) = ap some (omega arith)

first_bound : (ws : List ℕ) → WithinU64 ws → or_zero (get_elem? ws 0) < 2 ^ 64
first_bound [] within = omega arith
first_bound (w ∷ ws) within = within 0 w refl

module _ (b : FilterBitmap) (bits : List Bool) (s : Shows b bits) where
  shown : (k : ℕ) → nth (flat b.words) k ≡ nth bits k
  shown k = ap (λ bs. nth bs k) s.shape.padded ∙ nth-padding bits _ k

  -- The bits ahead of an iterator at a set bit.
  ahead_from :
      (start n k : ℕ) {w : ℕ}
      → nth bits n ≡ some start
      → get_elem? b.words (start / 64) ≡ some w
      → start ≤ length bits
      → bit_ahead b.words
          (record { word = start / 64; current = bit_and w (from_bit (start % 64)) })
          k
        ≡ nth bits (n + k)
  ahead_from start n k {w} found at h =
      let (number, set) = nth-count bits n start found in
      let r = start % 64 in
      let rest = flat (drop (suc (start / 64)) b.words) in
      ap (λ m. moved (64 * (start / 64)) (nth (digits 64 (bit_and w m) ++ rest) k))
        (from_bit_mask r (omega arith))
      ∙ ap (λ bs. moved (64 * (start / 64)) (nth (bs ++ rest) k)) (digits-from 64 w r (omega arith))
      ∙ ap (λ bs. moved (64 * (start / 64)) (nth bs k))
          (append_assoc (falses r) (drop r (digits 64 w)) rest)
      ∙ ap (moved (64 * (start / 64))) (nth-falses r (drop r (digits 64 w) ++ rest) k)
      ∙ moved-moved (64 * (start / 64)) r start _ (omega arith)
      ∙ ap (λ bs. moved start (nth bs k))
          (sym (flat-from b.words (start / 64) r start (omega arith) (omega arith) at))
      ∙ sym
          (nth-from (flat b.words) start k (omega (arith, length-flat b.words, s.shape.enough, h)))
      ∙ ap (λ c. nth (flat b.words) (c + k)) (count-padded b bits s.shape start h ∙ number)
      ∙ shown (n + k)

  iter_from-nth :
      WithinU64 b.words
      → (n : ℕ)
      → (it : Iter) × (iter_from b n ≡ some it) × ((k : ℕ) → item b it k ≡ nth bits (n + k))
  iter_from-nth within n = elim (Bool-cases (leb (count bits) n)) [
    | inl past ↦
        let h = leb→le _ _ past in
        (
          record { word = length b.words; current = 0 },
          iter_from_of b n (select-nth b bits s n ∙ ap some (nth_beyond bits n h)) ∙ iter_at-none b,
          λ k.
              item-bit_ahead b within (record { word = length b.words; current = 0 }) k
                (omega arith)
              ∙ ahead_over b.words (length b.words) k (drop_all b.words)
              ∙ sym (nth_beyond bits (n + k) (omega (arith, h))),
        )
    | inr more ↦
        (let (start, found) = nth_found bits n (ground (arith, more)) in
          let set = (nth-count bits n start found).1 in
          let inside = set_within bits start set in
          let (w, at) =
            get_elem?_within b.words (start / 64) (omega (arith, inside, s.shape.enough)) in
          let it : Iter = record {
            word = start / 64;
            current = bit_and w (from_bit (start % 64));
          } in
          (
            it,
            iter_from_of b n (select-nth b bits s n ∙ ap some found) ∙ iter_at-some b start at,
            λ k.
                item-bit_ahead b within it k
                  (bit_and_within 64 w (from_bit (start % 64)) (within (start / 64) w at))
                ∙ ahead_from start n k found at (omega (arith, inside)),
          ))
  ]

  -- `iter` goes through all of them.
  iter-nth : WithinU64 b.words → (k : ℕ) → item b (iter b) k ≡ nth bits k
  unfolding iter
  iter-nth within k =
      item-bit_ahead b within (iter b) k (first_bound b.words within)
      ∙ first_word b.words k
      ∙ shown k

  -- `iter_from` does not panic, and with each call of `next` its iterator gives the set bits from the
  -- n-th one on, in order, and nothing from then on, which is what `iter` gives once it has skipped
  -- n of them.
  -- Assumed: the bitmap shows the list of truth values, and its words are below 2^64.
  pub iter_from-item :
      WithinU64 b.words
      → (n : ℕ)
      → (it : Iter) × (iter_from b n ≡ some it)
        × ((k : ℕ) → (item b it k ≡ nth bits (n + k)) × (item b it k ≡ item b (iter b) (n + k)))
  iter_from-item within n =
      let (it, found, items) = iter_from-nth within n in
      (it, found, λ k. (items k, items k ∙ sym (iter-nth within (n + k))))
