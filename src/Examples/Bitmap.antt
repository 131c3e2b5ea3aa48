-- ===== src/Examples/Bitmap.antt =====
-- src/session/filter_bitmap.rs at a few indices.
use dsct.Base.{
  ℕ, zero, suc, ◌+◌, Option, none, subst, sym, ap, ◌∙◌, refl, ◌≡◌, true, some, List, [], ◌∷◌, ◌++◌,
  ◌-◌, arith, take, get_elem?,
}
use dsct.Session.Bitmap.{FilterBitmap, empty_bitmap, rank, select, push, from_sorted_indices}
use dsct.Session.Bitmap.Bits.{count, nth}
use dsct.Session.Bitmap.Iterate.{Iter, iter, iter_from, item}
use dsct.Session.Bitmap.Lowest.{WithinU64}
use dsct.Session.Bitmap.IterFrom.{iter_from-item}
use dsct.Session.Bitmap.Shape.{Shows}
use dsct.Session.Bitmap.Rank.{rank-count}
use dsct.Session.Bitmap.Grow.{gap, push-Shows}
use dsct.Session.Bitmap.Ranges.{push_set_range}
use dsct.Session.Bitmap.Sets.{trues}
use dsct.Session.Bitmap.Filled.{push_set_range-Shows}
use dsct.Session.Bitmap.Nearest.{nearest}
use dsct.Session.Bitmap.Closest.{IsNearest, nearest-IsNearest}
use dsct.Session.Bitmap.Sorted.{empty-Shows, from_sorted_indices-select}

abbrev three_indices : List ℕ
three_indices = 3 ∷ 70 ∷ 130 ∷ []

from_sorted_indices-select_example :
    (b : FilterBitmap) × (from_sorted_indices 200 three_indices ≡ some b)
    × (b.universe ≡ 200)
    × (b.ones ≡ 3)
    × ((n : ℕ) → select b n ≡ some (get_elem? three_indices n))
from_sorted_indices-select_example =
    from_sorted_indices-select 200 three_indices (omega arith) (omega arith)

push-Shows_example :
    (b : FilterBitmap) × (push empty_bitmap 70 ≡ some b) × Shows b (gap [] 70 ++ (true ∷ []))
push-Shows_example = push-Shows empty_bitmap [] empty-Shows 70 (omega arith)

-- A bitmap of the one packet 70.
abbrev one_packet :
    (b : FilterBitmap) × (push empty_bitmap 70 ≡ some b) × Shows b (gap [] 70 ++ (true ∷ []))
one_packet = push-Shows empty_bitmap [] empty-Shows 70 (omega arith)

rank-count_example : rank one_packet.0 71 ≡ some (count (take 71 (gap [] 70 ++ (true ∷ []))))
rank-count_example = rank-count one_packet.0 (gap [] 70 ++ (true ∷ [])) one_packet.2 71

-- Another run behind the packet 70, over three words.
push_set_range-Shows_example :
    (b : FilterBitmap) × (push_set_range one_packet.0 100 200 ≡ some b)
    × Shows b (gap (gap [] 70 ++ (true ∷ [])) 100 ++ trues (200 - 100))
push_set_range-Shows_example =
    push_set_range-Shows one_packet.0 (gap [] 70 ++ (true ∷ [])) one_packet.2 100 200 (omega arith)

nearest-IsNearest_example :
    (o : Option ℕ) × (nearest one_packet.0 80 ≡ some o) × IsNearest (gap [] 70 ++ (true ∷ [])) 80 o
nearest-IsNearest_example =
    nearest-IsNearest one_packet.0 (gap [] 70 ++ (true ∷ [])) one_packet.2 80 (omega arith)

two_words : (words : List ℕ) → some words ≡ some (0 ∷ 64 ∷ []) → WithinU64 words
two_words words e = subst WithinU64 (sym same) below
  where
    same : words ≡ 0 ∷ 64 ∷ []
    same = cc e

    below : WithinU64 (0 ∷ 64 ∷ [])
    below zero w e = let here : 0 ≡ w = cc e in omega (arith, here)
    below (suc zero) w e = let here : 64 ≡ w = cc e in omega (arith, here)
    below (suc (suc i)) w e = absurd (cc e)

abbrev words_of : Option FilterBitmap → Option (List ℕ)
words_of none = none
words_of (some b) = some b.words

pushed_words : words_of (push empty_bitmap 70) ≡ some (0 ∷ 64 ∷ [])
unfolding push empty_bitmap
pushed_words = refl

one_packet-WithinU64 : WithinU64 one_packet.0.words
one_packet-WithinU64 = two_words one_packet.0.words (ap words_of (sym one_packet.1) ∙ pushed_words)

iter_from-item_example :
    (it : Iter) × (iter_from one_packet.0 0 ≡ some it)
    × ((k : ℕ)
        → (item one_packet.0 it k ≡ nth (gap [] 70 ++ (true ∷ [])) (0 + k))
          × (item one_packet.0 it k ≡ item one_packet.0 (iter one_packet.0) (0 + k)))
iter_from-item_example =
    iter_from-item one_packet.0 (gap [] 70 ++ (true ∷ [])) one_packet.2 one_packet-WithinU64 0
