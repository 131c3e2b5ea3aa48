-- ===== src/Base/Int.antt =====
-- Signed integers, and their two's complement words of 32 bits.
use Prim.Native.Nat.{ℕ, ◌-◌, ◌%◌, ◌^◌, ◌<◌}
use mathlib.Core.Path.{◌≡◌}
use native.Mathlib.Omega.{arith}
use dsct.Base.Tests.{ltb, if◌then◌else◌}

-- `negsuc n` is -(n + 1).
pub data ℤ : Type 0 where
  pos : ℕ → ℤ
  negsuc : ℕ → ℤ

-- The range of an i32.
abbrev pub IsI32 : ℤ → Type 0
IsI32 (pos n) = n < 2 ^ 31
IsI32 (negsuc n) = n < 2 ^ 31

-- The bit pattern of an i32.
unfoldable pub to_word : ℤ → ℕ
to_word (pos n) = n % 2 ^ 32
to_word (negsuc n) = (2 ^ 32 - 1 - n) % 2 ^ 32

unfoldable pub from_word : ℕ → ℤ
from_word w = if ltb w (2 ^ 31) then pos w else negsuc (2 ^ 32 - 1 - w)

pub from_word-to_word : (v : ℤ) → IsI32 v → from_word (to_word v) ≡ v
unfolding from_word to_word
from_word-to_word (pos n) h = ground arith
from_word-to_word (negsuc n) h = ground arith

pub to_word_lt : (v : ℤ) → to_word v < 2 ^ 32
unfolding to_word
to_word_lt (pos n) = omega arith
to_word_lt (negsuc n) = omega arith

pub from_word-IsI32 : (w : ℕ) → w < 2 ^ 32 → IsI32 (from_word w)
unfolding from_word
from_word-IsI32 w h = ground arith
