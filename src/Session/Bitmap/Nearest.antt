-- ===== src/Session/Bitmap/Nearest.antt =====
-- `nearest` of src/session/filter_bitmap.rs.
use dsct.Base.{ℕ, ◌+◌, ◌-◌, ◌^◌, min, Option, none, some, leb, ltb, ◌==◌, if◌then◌else◌, ◌>>=◌}
use dsct.Session.Bitmap.{FilterBitmap, rank, select}

-- `usize::MAX`.
abbrev pub usize_max : ℕ
usize_max = 2 ^ 64 - 1

-- The nearer of the set bits below and above; the two subtractions panic below 0.
unfoldable pub nearer : ℕ → Option ℕ → Option ℕ → Option (Option ℕ)
nearer target (some b) (some a) =
    if leb b target
    then (if leb target a
        then some (if leb (target - b) (a - target) then some b else some a)
        else none)
    else none
nearer target (some b) none = some (some b)
nearer target none (some a) = some (some a)
nearer target none none = some none

unfoldable pub nearest : FilterBitmap → ℕ → Option (Option ℕ)
unfolding nearer
nearest b target = if b.ones == 0 then some none else (do
  below_rank ← rank b (min (target + 1) usize_max)
  below ← if ltb 0 below_rank then select b (below_rank - 1) else some none
  above ← select b below_rank
  nearer target below above)
