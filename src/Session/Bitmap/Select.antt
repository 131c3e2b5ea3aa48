-- ===== src/Session/Bitmap/Select.antt =====
-- `select` of src/session/filter_bitmap.rs.
use dsct.Base.{
  ℕ, zero, suc, ◌+◌, ◌-◌, ◌*◌, ◌≤◌, ◌<◌, ◌≡◌, refl, ap, sym, ◌∙◌, Bool, true, false, Option, none,
  some, List, [], ◌∷◌, ◌++◌, length, get_elem?, take, drop, arith, leb, ltb, if◌then◌else◌,
  Bool-cases, inl, inr, leb→le, le→leb, drop-append_more, take-append-drop, length-take,
  get_elem?_within,
}
use dsct.Session.Bitmap.{
  FilterBitmap, count_ones, select_in_word, select_loop, partition_point, select,
}
use dsct.Session.Bitmap.Bits.{
  count, next, nth, digits, length-digits, ones_of-digits, nth-select_in_word,
}
use dsct.Session.Bitmap.Flat.{flat, falses, count-append, count-falses, length-flat}
use dsct.Session.Bitmap.Shape.{Shape, Shows, count-padded}

-- `Option.map` of an addition.
abbrev pub moved : ℕ → Option ℕ → Option ℕ
moved n none = none
moved n (some i) = some (n + i)

pub moved-moved : (m n k : ℕ) (o : Option ℕ) → k ≡ m + n → moved m (moved n o) ≡ moved k o
moved-moved m n k none e = refl
moved-moved m n k (some i) e = ap some (omega (arith, e))

next-moved : (n : ℕ) (o : Option ℕ) → next (moved n o) ≡ moved (suc n) o
next-moved n none = refl
next-moved n (some i) = ap some (omega arith)

moved_none : (o : Option ℕ) → o ≡ moved 0 o
moved_none none = refl
moved_none (some i) = ap some (omega arith)

pub nth-append : (xs ys : List Bool) (n : ℕ) → n < count xs → nth (xs ++ ys) n ≡ nth xs n
nth-append [] ys n h = absurd (omega arith)
nth-append (true ∷ xs) ys zero h = refl
nth-append (true ∷ xs) ys (suc n) h = ap next (nth-append xs ys n (omega arith))
nth-append (false ∷ xs) ys n h = ap next (nth-append xs ys n h)

pub nth-append_more :
    (xs ys : List Bool) (n k : ℕ)
    → n ≡ count xs + k
    → nth (xs ++ ys) n ≡ moved (length xs) (nth ys k)
nth-append_more [] ys n k e = ap (nth ys) (omega (arith, e)) ∙ moved_none (nth ys k)
nth-append_more (true ∷ xs) ys zero k e = absurd (omega (arith, e))
nth-append_more (true ∷ xs) ys (suc n) k e =
    ap next (nth-append_more xs ys n k (omega (arith, e))) ∙ next-moved (length xs) (nth ys k)
nth-append_more (false ∷ xs) ys n k e =
    ap next (nth-append_more xs ys n k e) ∙ next-moved (length xs) (nth ys k)

pub nth_beyond : (xs : List Bool) (n : ℕ) → count xs ≤ n → nth xs n ≡ none
nth_beyond [] n h = refl
nth_beyond (true ∷ xs) zero h = absurd (omega arith)
nth_beyond (true ∷ xs) (suc n) h = ap next (nth_beyond xs n (omega arith))
nth_beyond (false ∷ xs) n h = ap next (nth_beyond xs n h)

pub nth_found : (bs : List Bool) (n : ℕ) → n < count bs → (i : ℕ) × (nth bs n ≡ some i)
nth_found [] n h = absurd (omega arith)
nth_found (true ∷ bs) zero h = (0, refl)
nth_found (true ∷ bs) (suc n) h =
    let (i, found) = nth_found bs n (omega arith) in (suc i, ap next found)
nth_found (false ∷ bs) n h = let (i, found) = nth_found bs n h in (suc i, ap next found)

select_loop_here :
    (w : ℕ) (ws : List ℕ) (word remaining : ℕ)
    → ltb remaining (count_ones w) ≡ true
    → select_loop (w ∷ ws) word remaining ≡ some (word * 64 + select_in_word w remaining)
unfolding select_loop
select_loop_here w ws word remaining e = rw e

select_loop_on :
    (w : ℕ) (ws : List ℕ) (word remaining : ℕ)
    → ltb remaining (count_ones w) ≡ false
    → select_loop (w ∷ ws) word remaining ≡ select_loop ws (word + 1) (remaining - count_ones w)
unfolding select_loop
select_loop_on w ws word remaining e = rw e

-- The loop finds the bit, if the words have so many; it does not run off their end.
pub select_loop-nth :
    (ws : List ℕ) (word remaining : ℕ)
    → remaining < count (flat ws)
    → select_loop ws word remaining ≡ moved (64 * word) (nth (flat ws) remaining)
select_loop-nth [] word remaining h = absurd (omega arith)
select_loop-nth (w ∷ ws) word remaining h = elim (Bool-cases (ltb remaining (count_ones w))) [
  | inl here ↦
      let within : remaining < count_ones w = ground arith in
      select_loop_here w ws word remaining here
      ∙ ap some (omega arith)
      ∙ ap (moved (64 * word)) (
          sym (nth-select_in_word w remaining within)
          ∙ sym (nth-append (digits 64 w) (flat ws) remaining (omega (arith, ones_of-digits 64 w))))
  | inr on ↦
      let beyond : count_ones w ≤ remaining = ground arith in
      select_loop_on w ws word remaining on
      ∙ select_loop-nth ws (word + 1) (remaining - count_ones w)
          (omega (arith, ones_of-digits 64 w, count-append (digits 64 w) (flat ws)))
      ∙ sym (moved-moved (64 * word) 64 (64 * (word + 1)) _ (omega arith))
      ∙ ap (moved (64 * word)) (
          ap (λ n. moved n (nth (flat ws) (remaining - count_ones w))) (sym (length-digits 64 w))
          ∙ sym (
              nth-append_more (digits 64 w) (flat ws) remaining (remaining - count_ones w)
                (omega (arith, ones_of-digits 64 w))))
]

-- The last block with no more set bits before it than `target`.
partition_point-get_elem? :
    (target c : ℕ) (cs : List ℕ)
    → c ≤ target
    → (d : ℕ) × (get_elem? (c ∷ cs) (partition_point target cs) ≡ some d) × (d ≤ target)
unfolding partition_point
partition_point-get_elem? target c [] h = (c, refl, h)
partition_point-get_elem? target c (d ∷ ds) h = elim (Bool-cases (leb d target)) [
  | inl more ↦ rw more (partition_point-get_elem? target d ds (leb→le d target more))
  | inr ends ↦ rw ends (c, refl, h)
]

block_of :
    (target : ℕ) (blocks : List ℕ) {c : ℕ}
    → get_elem? blocks 0 ≡ some c
    → c ≤ target
    → (d : ℕ) × (get_elem? blocks (partition_point target blocks - 1) ≡ some d) × (d ≤ target)
unfolding partition_point
block_of target [] e h = absurd (cc e)
block_of target (b ∷ bs) {c} e h =
    let same : b ≡ c = cc e in
    let within : b ≤ target = omega (arith, same, h) in
    let (d, found, low) = partition_point-get_elem? target b bs within in
    (
      d,
      ap (get_elem? (b ∷ bs))
            (first (leb b target) (partition_point target bs) (le→leb b target within))
          ∙ found,
      low,
    )
  where
    first : (t : Bool) (n : ℕ) → t ≡ true → (if t then suc n else 0) - 1 ≡ n
    first true n e = omega arith
    first false n e = absurd (cc e)

drop_none : (n : ℕ) → drop {A = Bool} n [] ≡ []
drop_none zero = refl
drop_none (suc n) = refl

flat-drop : (k : ℕ) (ws : List ℕ) → drop (64 * k) (flat ws) ≡ flat (drop k ws)
flat-drop zero ws = ap (λ n. drop n (flat ws)) none_dropped
  where
    none_dropped : 64 * 0 ≡ 0
    none_dropped = omega arith
flat-drop (suc k) [] = drop_none (64 * suc k)
flat-drop (suc k) (w ∷ ws) =
    drop-append_more (digits 64 w) (flat ws) (64 * k) (64 * suc k)
      (omega (arith, length-digits 64 w))
    ∙ flat-drop k ws

select_of :
    (b : FilterBitmap) (n : ℕ) {before p : ℕ}
    → leb b.ones n ≡ false
    → (let block = partition_point n b.blocks - 1 in
        get_elem? b.blocks block ≡ some before
        → select_loop (drop (block * 8) b.words) (block * 8) (n - before) ≡ some p
        → select b n ≡ some (some p))
unfolding select
select_of b n e e' e'' = rw (e, e', e'')

select_beyond : (b : FilterBitmap) (n : ℕ) → leb b.ones n ≡ true → select b n ≡ some none
unfolding select
select_beyond b n e = rw e

module _ (b : FilterBitmap) (bits : List Bool) (s : Shows b bits) where
  abbrev shape : Shape b bits
  shape = s.shape

  all_bits : count (flat b.words) ≡ count bits
  all_bits =
      let padding = 64 * length b.words - length bits in
      omega (arith, ap count shape.padded, count-append bits (falses padding), count-falses padding)

  nth-padded : (n : ℕ) → n < count bits → nth (flat b.words) n ≡ nth bits n
  nth-padded n h = ap (λ bs. nth bs n) shape.padded ∙ nth-append bits _ n h

  -- The bits behind a block, and the place among them.
  module _ (block before n : ℕ) (within : 512 * block ≤ length bits)
      (sum : before ≡ count (take (512 * block) bits)) (low : before ≤ n) (h : n < count bits) where
    abbrev position : ℕ
    position = 64 * (block * 8)

    abbrev behind : List Bool
    behind = flat (drop (block * 8) b.words)

    apart : take position (flat b.words) ++ behind ≡ flat b.words
    apart =
        ap (λ bs. take position (flat b.words) ++ bs) (sym (flat-drop (block * 8) b.words))
        ∙ take-append-drop position (flat b.words)

    count_before : count (take position (flat b.words)) ≡ before
    count_before =
        let same : position ≡ 512 * block = omega arith in
        ap (λ k. count (take k (flat b.words))) same
        ∙ count-padded b bits shape (512 * block) within
        ∙ sym sum

    length_before : length (take position (flat b.words)) ≡ position
    length_before =
        omega
          (arith, length-take position (flat b.words), length-flat b.words, shape.enough, within)

    count_from_block : n - before < count behind
    count_from_block = omega (
      arith,
      ap count apart,
      count-append (take position (flat b.words)) behind,
      count_before,
      all_bits,
      h,
      low,
    )

    nth_from_block : moved position (nth behind (n - before)) ≡ nth bits n
    nth_from_block =
        ap (λ k. moved k (nth behind (n - before))) (sym length_before)
        ∙ sym (
            nth-append_more (take position (flat b.words)) behind n (n - before)
              (omega (arith, count_before, low)))
        ∙ ap (λ bs. nth bs n) apart
        ∙ nth-padded n h

  no_bits_before : (bs : List Bool) → count (take (512 * 0) bs) ≡ 0
  no_bits_before bs = ap (λ k. count (take k bs)) none_before
    where
      none_before : 512 * 0 ≡ 0
      none_before = omega arith

  has_bits : (bs : List Bool) (n : ℕ) → n < count bs → 1 ≤ length bs
  has_bits [] n h = absurd (omega arith)
  has_bits (t ∷ bs) n h = omega arith

  -- `select` is the position of the n-th set bit, or `none` beyond their number; it does not panic.
  pub select-nth : (n : ℕ) → select b n ≡ some (nth bits n)
  select-nth n = elim (Bool-cases (leb b.ones n)) [
    | inl beyond ↦
        select_beyond b n beyond
        ∙ ap some (sym (nth_beyond bits n (omega (arith, leb→le _ _ beyond, s.shape.ones))))
    | inr less ↦
        (let h : n < count bits = ground (arith, shape.ones) in
          let (first, at_first) = get_elem?_within b.blocks 0 (s.started (has_bits bits n h)) in
          let (before, at, low) =
            block_of n b.blocks at_first
              (omega (arith, (shape.sums 0 first at_first).1, no_bits_before bits)) in
          let block = partition_point n b.blocks - 1 in
          let (within, sum) = shape.sums block before at in
          let (i, found) = nth_found bits n h in
          select_of b n less at (
            select_loop-nth (drop (block * 8) b.words) (block * 8) (n - before)
              (count_from_block block before n within sum low h)
            ∙ nth_from_block block before n within sum low h
            ∙ found)
          ∙ ap some (sym found))
  ]
