-- ===== src/Session/Bitmap/Iterate.antt =====
-- `iter`, `iter_from` and `Iter::next` of src/session/filter_bitmap.rs.
use dsct.Base.{
  ℕ, zero, suc, ◌+◌, ◌-◌, ◌*◌, ◌/◌, ◌%◌, bit_and, Option, none, some, List, [], ◌∷◌, ◌==◌,
  if◌then◌else◌, length, get_elem?, drop, ◌>>=◌,
}
use dsct.Session.Bitmap.{FilterBitmap, trailing_zeros, or_zero, select}
use dsct.Session.Bitmap.Ranges.{from_bit}

-- The bitmap of an iterator is passed beside it.
pub record Iter : Type 0 where
  pub word : ℕ
  pub current : ℕ

-- The lowest bit of `current`, and the iterator without it.
unfoldable pub lowest : ℕ → ℕ → Option ℕ × Iter
lowest word current = (
  some (word * 64 + trailing_zeros current),
  record { word = word; current = bit_and current (current - 1) },
)

-- The loop of `next`, over the words behind the one at hand.
unfoldable pub next_loop : List ℕ → ℕ → ℕ → Option ℕ × Iter
unfolding lowest
next_loop [] word current =
    if current == 0
    then (none, record { word = suc word; current = current })
    else lowest word current
next_loop (w ∷ ws) word current =
    let later = next_loop ws (suc word) w in if current == 0 then later else lowest word current

unfoldable pub next_bit : FilterBitmap → Iter → Option ℕ × Iter
unfolding next_loop
next_bit b it = next_loop (drop (suc it.word) b.words) it.word it.current

unfoldable pub iter : FilterBitmap → Iter
iter b = record { word = 0; current = or_zero (get_elem? b.words 0) }

unfoldable pub iter_at : FilterBitmap → Option ℕ → Option Iter
iter_at b none = some (record { word = length b.words; current = 0 })
iter_at b (some start) = do
  w ← get_elem? b.words (start / 64)
  some (record { word = start / 64; current = bit_and w (from_bit (start % 64)) })

unfoldable pub iter_from : FilterBitmap → ℕ → Option Iter
unfolding iter_at
iter_from b n = do found ← select b n; iter_at b found

-- What `next` returns after it has been called a number of times.
unfoldable pub item : FilterBitmap → Iter → ℕ → Option ℕ
unfolding next_bit
item b it zero = (next_bit b it).0
item b it (suc k) = item b (next_bit b it).1 k
