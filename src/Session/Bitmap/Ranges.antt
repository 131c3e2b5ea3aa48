-- ===== src/Session/Bitmap/Ranges.antt =====
-- `push_set_range` and `all_set` of src/session/filter_bitmap.rs, which fill whole words.
use dsct.Base.{
  ℕ, zero, suc, ◌+◌, ◌-◌, ◌*◌, ◌/◌, ◌%◌, ◌^◌, max, bit_and, Option, none, some, List, [], ◌∷◌, leb,
  ◌==◌, if◌then◌else◌, length, ◌>>=◌,
}
use dsct.Session.Bitmap.{
  FilterBitmap, empty_bitmap, grow_words, or_word, sync_blocks, extend_universe,
}

-- `!0u64`.
abbrev pub all_ones : ℕ
all_ones = 2 ^ 64 - 1

-- `!0u64 << bit` and `!0u64 >> (63 - bit)`.
unfoldable pub from_bit : ℕ → ℕ
from_bit bit = all_ones * 2 ^ bit % 2 ^ 64

unfoldable pub to_bit : ℕ → ℕ
to_bit bit = all_ones / 2 ^ (63 - bit)

-- A number of words set to `!0u64`, behind those to pass over.
unfoldable pub fill_words : List ℕ → ℕ → ℕ → Option (List ℕ)
fill_words ws skip zero = if leb skip (length ws) then some ws else none
fill_words [] skip (suc n) = none
fill_words (w ∷ ws) zero (suc n) = do rest ← fill_words ws 0 n; some (all_ones ∷ rest)
fill_words (w ∷ ws) (suc skip) (suc n) = do rest ← fill_words ws skip (suc n); some (w ∷ rest)

unfoldable pub set_words : List ℕ → ℕ → ℕ → Option (List ℕ)
unfolding from_bit to_bit fill_words or_word
set_words words start last =
    if start / 64 == last / 64
    then or_word words (start / 64) (bit_and (from_bit (start % 64)) (to_bit (last % 64)))
    else (do
      first ← or_word words (start / 64) (from_bit (start % 64))
      filled ← fill_words first (start / 64 + 1) (last / 64 - (start / 64 + 1))
      or_word filled (last / 64) (to_bit (last % 64)))

unfoldable pub push_set_range : FilterBitmap → ℕ → ℕ → Option FilterBitmap
unfolding set_words grow_words sync_blocks extend_universe
push_set_range b start end = if leb end start then extend_universe b start else (do
  words ← set_words (grow_words b.words end) start (end - 1)
  sync_blocks
      (record b { words = words; ones = b.ones + (end - start); universe = max b.universe end }))

unfoldable pub all_set : ℕ → Option FilterBitmap
unfolding push_set_range empty_bitmap
all_set n = push_set_range empty_bitmap 0 n
