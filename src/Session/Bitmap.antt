-- ===== src/Session/Bitmap.antt =====
-- src/session/filter_bitmap.rs: one bit for each packet, with sums for blocks of words. `none` stands for
-- a panic, as on an index out of range.
pub mod Bits
pub mod Flat
pub mod Shape
pub mod Rank
pub mod Select
pub mod Grow
pub mod Sorted
pub mod Ranges
pub mod Masks
pub mod Sets
pub mod Runs
pub mod Filled
pub mod Nearest
pub mod Neighbours
pub mod Closest
pub mod Iterate
pub mod Lowest
pub mod Items
pub mod Tails
pub mod IterFrom
use dsct.Base.{
  ℕ, zero, suc, ◌+◌, ◌-◌, ◌*◌, ◌/◌, ◌%◌, ◌^◌, min, bit_and, bit_or, Bool, true, false, Option, none,
  some, List, [], ◌∷◌, ◌++◌, ltb, leb, ◌==◌, if◌then◌else◌, length, get_elem?, drop, ◌>>=◌,
}

abbrev pub words_per_block : ℕ
words_per_block = 8

pub record FilterBitmap : Type 0 where
  pub words : List ℕ
  pub blocks : List ℕ
  pub universe : ℕ
  pub ones : ℕ

-- The operations of `u64` that are used: `>>`, `count_ones` and `trailing_zeros`, the last two on as many
-- low bits as the first argument says.
unfoldable pub shift_right : ℕ → ℕ → ℕ
shift_right w zero = w
shift_right w (suc n) = shift_right (w / 2) n

unfoldable pub ones_of : ℕ → ℕ → ℕ
ones_of zero w = 0
ones_of (suc n) w = w % 2 + ones_of n (w / 2)

unfoldable pub zeros_of : ℕ → ℕ → ℕ
zeros_of zero w = 0
zeros_of (suc n) w = if w % 2 == 1 then 0 else suc (zeros_of n (w / 2))

abbrev pub count_ones : ℕ → ℕ
count_ones = ones_of 64

abbrev pub trailing_zeros : ℕ → ℕ
trailing_zeros = zeros_of 64

unfoldable pub empty_bitmap : FilterBitmap
empty_bitmap = record { words = []; blocks = []; universe = 0; ones = 0 }

unfoldable pub contains : FilterBitmap → ℕ → Option Bool
unfolding shift_right
contains b idx =
    if leb b.universe idx
    then some false
    else (do w ← get_elem? b.words (idx / 64); some (bit_and (shift_right w (idx % 64)) 1 == 1))

-- The sum of `count_ones` over a number of words from one on.
unfoldable pub count_words : List ℕ → ℕ → ℕ → Option ℕ
unfolding ones_of
count_words words start zero = some 0
count_words words start (suc n) = do
  w ← get_elem? words start
  rest ← count_words words (start + 1) n
  some (count_ones w + rest)

abbrev pub or_zero : Option ℕ → ℕ
or_zero none = 0
or_zero (some n) = n

-- The bits of a word below a position.
unfoldable pub count_below : List ℕ → ℕ → ℕ → Option ℕ
unfolding ones_of
count_below words word zero = some 0
count_below words word (suc bit) = do
  w ← get_elem? words word
  some (count_ones (bit_and w (2 ^ suc bit - 1)))

unfoldable pub rank_at : FilterBitmap → ℕ → Option ℕ
unfolding count_words count_below
rank_at b zero = some 0
rank_at b (suc i) =
    let idx = suc i in
    let word = idx / 64 in
    let block = min (word / words_per_block) (length b.blocks - 1) in
    let start = block * words_per_block in
    do
      between ← count_words b.words start (word - start)
      below ← count_below b.words word (idx % 64)
      some (or_zero (get_elem? b.blocks block) + between + below)

unfoldable pub rank : FilterBitmap → ℕ → Option ℕ
unfolding rank_at
rank b idx = rank_at b (min idx b.universe)

-- The lowest set bit is cleared as often as there are bits to pass over.
unfoldable pub select_in_word : ℕ → ℕ → ℕ
unfolding zeros_of
select_in_word w zero = trailing_zeros w
select_in_word w (suc remaining) = select_in_word (bit_and w (w - 1)) remaining

-- The loop of `select`, over the words from the one with the number `word` on.
unfoldable pub select_loop : List ℕ → ℕ → ℕ → Option ℕ
unfolding ones_of select_in_word
select_loop [] word remaining = none
select_loop (w ∷ ws) word remaining =
    let rest = select_loop ws (word + 1) (remaining - count_ones w) in
    if ltb remaining (count_ones w) then some (word * 64 + select_in_word w remaining) else rest

-- `partition_point(|&c| c <= target)` of a sorted slice.
unfoldable pub partition_point : ℕ → List ℕ → ℕ
partition_point target [] = 0
partition_point target (c ∷ cs) = if leb c target then suc (partition_point target cs) else 0

unfoldable pub select : FilterBitmap → ℕ → Option (Option ℕ)
unfolding partition_point select_loop
select b n =
    let block = partition_point n b.blocks - 1 in
    if leb b.ones n then some none else (do
      before ← get_elem? b.blocks block
      found ←
          select_loop (drop (block * words_per_block) b.words) (block * words_per_block)
            (n - before)
      some (some found))

-- `resize` with zeros, to a number of words.
abbrev pub zeros : ℕ → List ℕ
zeros zero = []
zeros (suc n) = 0 ∷ zeros n

unfoldable pub grow_words : List ℕ → ℕ → List ℕ
grow_words words new_universe = words ++ zeros ((new_universe + 63) / 64 - length words)

-- One round of the loop of `sync_blocks`, and as many as are missing.
unfoldable pub sync_round : List ℕ → List ℕ → Option (List ℕ)
unfolding count_words
sync_round words blocks = do
  prev ← get_elem? blocks (length blocks - 1)
  sum ← count_words words ((length blocks - 1) * words_per_block) words_per_block
  some (blocks ++ ((prev + sum) ∷ []))

unfoldable pub sync_loop : ℕ → List ℕ → List ℕ → Option (List ℕ)
unfolding sync_round
sync_loop zero words blocks = some blocks
sync_loop (suc n) words blocks = sync_round words blocks >>= sync_loop n words

abbrev pub first_block : List ℕ → List ℕ
first_block [] = 0 ∷ []
first_block (c ∷ cs) = c ∷ cs

unfoldable pub sync_blocks : FilterBitmap → Option FilterBitmap
unfolding sync_loop
sync_blocks b = do
  let finalized_blocks = (length b.words - 1) / words_per_block
  blocks ←
      sync_loop (suc finalized_blocks - length (first_block b.blocks)) b.words
        (first_block b.blocks)
  some (record b { blocks = blocks })

unfoldable pub extend_universe : FilterBitmap → ℕ → Option FilterBitmap
unfolding grow_words sync_blocks
extend_universe b new_universe =
    if leb new_universe b.universe
    then some b
    else sync_blocks (record b { words = grow_words b.words new_universe; universe = new_universe })

-- `words[i] |= m`.
unfoldable pub or_word : List ℕ → ℕ → ℕ → Option (List ℕ)
or_word [] i m = none
or_word (w ∷ ws) zero m = some (bit_or w m ∷ ws)
or_word (w ∷ ws) (suc i) m = do rest ← or_word ws i m; some (w ∷ rest)

-- `set_extend`, which is `push`.
unfoldable pub push : FilterBitmap → ℕ → Option FilterBitmap
unfolding grow_words or_word sync_blocks
push b idx = do
  words ← or_word (grow_words b.words (idx + 1)) (idx / 64) (2 ^ (idx % 64))
  sync_blocks (record b { words = words; ones = b.ones + 1; universe = idx + 1 })

-- The loop of `from_sorted_indices`.
unfoldable pub push_all : FilterBitmap → List ℕ → Option FilterBitmap
unfolding push
push_all b [] = some b
push_all b (idx ∷ rest) = push b idx >>= λ b'. push_all b' rest

unfoldable pub from_sorted_indices : ℕ → List ℕ → Option FilterBitmap
unfolding push_all extend_universe empty_bitmap
from_sorted_indices universe indices =
    push_all empty_bitmap indices >>= λ b. extend_universe b universe
