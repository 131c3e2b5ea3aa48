-- ===== src/Session/Bitmap/Filled.antt =====
-- `push_set_range` and `all_set` of src/session/filter_bitmap.rs show a run of set bits.
use dsct.Base.{
  ℕ, suc, ◌+◌, ◌-◌, ◌*◌, ◌≤◌, ◌<◌, ◌≡◌, ap, ap₂, sym, ◌∙◌, max, Bool, true, false, some, List, [],
  ◌++◌, leb, length, arith, append-nil, subst, append_assoc, length-append, Bool-cases, inl, inr,
}
use dsct.Session.Bitmap.{FilterBitmap, empty_bitmap, grow_words, sync_blocks, extend_universe}
use dsct.Session.Bitmap.Flat.{flat, falses, length-falses, falses-append, count-append}
use dsct.Session.Bitmap.Shape.{Shows, sync_blocks-Shows}
use dsct.Session.Bitmap.Grow.{
  BlocksSum-append, gap, length-gap, count-gap, grow_words-Grown, extend_universe-Shows,
}
use dsct.Session.Bitmap.Sorted.{empty-Shows}
use dsct.Session.Bitmap.Ranges.{set_words, push_set_range, all_set}
use dsct.Session.Bitmap.Masks.{sets, sets_none}
use dsct.Session.Bitmap.Sets.{trues, length-trues, count-trues, sets-append_more, sets-append_over}
use dsct.Session.Bitmap.Runs.{set_words-Run}

push_set_range_of :
    (b : FilterBitmap) (start end : ℕ) {words : List ℕ}
    → leb end start ≡ false
    → set_words (grow_words b.words end) start (end - 1) ≡ some words
    → b.universe ≤ end
    → push_set_range b start end
      ≡ sync_blocks (record b { words = words; ones = b.ones + (end - start); universe = end })
unfolding push_set_range
push_set_range_of b start end e e' h =
    let last : max b.universe end ≡ end = omega arith in rw (e, e', last)

push_set_range_empty :
    (b : FilterBitmap) (start end : ℕ)
    → leb end start ≡ true
    → push_set_range b start end ≡ extend_universe b start
unfolding push_set_range
push_set_range_empty b start end e = rw e

sets-gap :
    (before : List Bool) (start n p : ℕ)
    → length before ≡ start
    → sets start n ((before ++ falses n) ++ falses p) ≡ (before ++ trues n) ++ falses p
sets-gap before start n p e =
    ap (sets start n) (append_assoc before (falses n) (falses p))
    ∙ sets-append_more before (falses n ++ falses p) 0 start n (omega (arith, e))
    ∙ ap (λ bs. before ++ bs)
        (sets-append_over (falses n) (falses p) 0 n (omega (arith, length-falses n))
          ∙ ap₂ (λ k bs. trues k ++ bs) (length-falses n) (sets_none 0 (falses p)))
    ∙ sym (append_assoc before (trues n) (falses p))

gap-more :
    (bits : List Bool) (start end : ℕ)
    → length bits ≤ start
    → start ≤ end
    → gap bits end ≡ gap bits start ++ falses (end - start)
gap-more bits start end h h' =
    ap (λ bs. bits ++ bs)
      (sym (falses-append (start - length bits) (end - start) (end - length bits) (omega arith)))
    ∙ sym (append_assoc bits (falses (start - length bits)) (falses (end - start)))

-- `push_set_range` does not panic, and makes a bitmap that shows the same truth values with clear
-- bits up to the start of the range and a set bit for each of its positions behind, none where the
-- range is empty.
-- Assumed: the bitmap shows the list of truth values, and the start is not below the universe.
pub push_set_range-Shows :
    (b : FilterBitmap) (bits : List Bool)
    → Shows b bits
    → (start end : ℕ) → length bits ≤ start
    → (b' : FilterBitmap) × (push_set_range b start end ≡ some b')
      × Shows b' (gap bits start ++ trues (end - start))
push_set_range-Shows b bits s start end h = elim (Bool-cases (leb end start)) [
  | inl nothing ↦
      let (b', extended, shows) = extend_universe-Shows b bits s start in
      let no_more : 0 ≡ end - start = ground (arith, nothing) in
      (
        b',
        push_set_range_empty b start end nothing ∙ extended,
        subst (Shows b')
            (sym (append-nil (gap bits start)) ∙ ap (λ n. gap bits start ++ trues n) no_more) shows,
      )
  | inr longer ↦
      let before : start < end = ground (arith, longer) in
      let g = grow_words-Grown b bits end s.shape (omega (arith, h, before)) in
      let (words, set, same, changed) =
        set_words-Run (grow_words b.words end) start (end - 1) (omega (arith, before))
          (omega (arith, before, g.enough)) in
      let (b', synced, shows) =
        sync_blocks-Shows
          (record b { words = words; ones = b.ones + (end - start); universe = end })
          (gap bits start ++ trues (end - start))
          (record {
            universe = omega (arith, lengths before);
            padded =
                filled before (grow_words b.words end) words
                  (64 * length words - length (gap bits start ++ trues (end - start)))
                  (omega (arith, lengths before, same)) changed g.padded;
            enough = omega (arith, lengths before, g.enough, same);
            tight = omega (arith, lengths before, g.tight, same);
            ones = omega (
              arith,
              s.shape.ones,
              count-gap bits start,
              count-append (gap bits start) (trues (end - start)),
              count-trues (end - start),
            );
            sums =
                BlocksSum-append (gap bits start) (trues (end - start)) b.blocks
                  (BlocksSum-append bits _ b.blocks s.shape.sums);
          }) in
      (
        b',
        push_set_range_of b start end longer set (omega (arith, s.shape.universe, h, before))
            ∙ synced,
        shows,
      )
]
  where
    lengths : start < end → length (gap bits start ++ trues (end - start)) ≡ end
    lengths before = omega (
      arith,
      length-append (gap bits start) (trues (end - start)),
      length-gap bits start h,
      length-trues (end - start),
    )

    filled :
        start < end
        → (grown words : List ℕ) (padding : ℕ) → padding ≡ 64 * length grown - end
        → flat words ≡ sets start (suc (end - 1) - start) (flat grown)
        → flat grown ≡ gap bits end ++ falses (64 * length grown - end)
        → flat words ≡ (gap bits start ++ trues (end - start)) ++ falses padding
    filled before grown words padding e changed padded =
        changed
        ∙ ap (λ n. sets start n (flat grown)) (omega (arith, before))
        ∙ ap (sets start (end - start)) (
            padded
            ∙ ap₂ (λ bs n. bs ++ falses n) (gap-more bits start end h (omega (arith, before)))
                (sym e))
        ∙ sets-gap (gap bits start) start (end - start) padding (length-gap bits start h)

-- `all_set` does not panic, and makes a bitmap that shows as many set bits as asked for.
pub all_set-Shows : (n : ℕ) → (b : FilterBitmap) × (all_set n ≡ some b) × Shows b (trues n)
unfolding all_set
all_set-Shows n =
    let (b, filled, shows) = push_set_range-Shows empty_bitmap [] empty-Shows 0 n (omega arith) in
    let whole : n - 0 ≡ n = omega arith in (b, filled, subst (λ k. Shows b (trues k)) whole shows)
