-- ===== src/Codec/Varint.antt =====
-- `put_varint` and `Reader::varint` of src/session/packet_codec.rs.
use dsct.Base.{
  arith, length, ltb, ◌++◌, ◌∷◌, [], some, bit_and, bit_or, if◌then◌else◌, ◌∙◌, ap, sym, refl, ◌≡◌,
  ◌<◌, ◌≤◌, ◌^◌, ◌%◌, ◌/◌, ◌*◌, ◌+◌, suc, zero, ℕ,
}
use dsct.Base.Bits.{bit_and_low, bit_and_top, bit_or_top, bit_or-shift, bit_or_lt}
use native.Mathlib.Nat.{div-add-mod}
use native.Mathlib.Numerals.{towards_suc}
use dsct.Packet.{Bytes}
use dsct.Codec.Write.{put_varint_loop, put_varint}
use dsct.Codec.Read.{varint_loop, read_varint}

-- A last byte is read into the bits above the shift.
last_byte :
    (n b shift v : ℕ) (rest : Bytes)
    → b < 128
    → v < 2 ^ shift
    → v + b * 2 ^ shift < 2 ^ 64
    → varint_loop (suc n) shift v (b ∷ rest) ≡ some (v + b * 2 ^ shift, rest)
unfolding varint_loop
last_byte n b shift v rest hb hv fits =
    ground (arith, bit_and_low b, bit_and_top b, bit_or-shift shift v b)

-- A byte with its top bit set is read like its low bits, and the loop goes on.
more_byte :
    (n b shift v : ℕ) (rest : Bytes)
    → b < 128
    → v < 2 ^ shift
    → v + b * 2 ^ shift < 2 ^ 64
    → varint_loop (suc n) shift v ((b + 128) ∷ rest)
      ≡ varint_loop n (shift + 7) (v + b * 2 ^ shift) rest
unfolding varint_loop
more_byte n b shift v rest hb hv fits =
    ground (arith, bit_and_low (b + 128), bit_and_top (b + 128), bit_or-shift shift v b)

pow_seven : (s : ℕ) → 2 ^ (s + 7) ≡ 128 * 2 ^ s
pow_seven s = simp towards_suc (omega arith)

-- The low seven bits of `w` and the rest of it, both shifted.
split_shifted : (w s : ℕ) → w % 128 * 2 ^ s + w / 128 * 2 ^ (s + 7) ≡ w * 2 ^ s
split_shifted w s = omega (arith, high, whole)
  where
    high : w / 128 * 2 ^ (s + 7) ≡ w / 128 * (128 * 2 ^ s)
    high = ap (◌*◌ (w / 128)) (pow_seven s)

    whole : (128 * (w / 128) + w % 128) * 2 ^ s ≡ w * 2 ^ s
    whole = ap (λ (v : ℕ). v * 2 ^ s) (div-add-mod w 128)

mul_mono : (a b p : ℕ) → a ≤ b → a * p ≤ b * p
mul_mono a b p h = grind arith

-- The reader, started at any shift, adds the value that the writer wrote.
varint_loop-put_varint_loop :
    (n w shift v : ℕ) (rest : Bytes)
    → w < 128 ^ suc n
    → v < 2 ^ shift
    → v + w * 2 ^ shift < 2 ^ 64
    → varint_loop (suc n) shift v (put_varint_loop n w ++ rest) ≡ some (v + w * 2 ^ shift, rest)
unfolding put_varint_loop
varint_loop-put_varint_loop zero w shift v rest hw hv fits =
    ground (arith, last_byte 0 w shift v rest)
varint_loop-put_varint_loop (suc n) w shift v rest hw hv fits = ground (
  arith,
  bit_or_top (w % 256),
  last_byte (suc n) w shift v rest,
  more_byte (suc n) (w % 128) shift v (put_varint_loop n (w / 128) ++ rest),
  split_shifted w shift,
  pow_seven shift,
  below,
  varint_loop-put_varint_loop n (w / 128) (shift + 7) (v + w % 128 * 2 ^ shift) rest (omega arith),
)
  where
    below : v + w % 128 * 2 ^ shift < 2 ^ (shift + 7)
    below = omega (arith, mul_mono (w % 128) 127 (2 ^ shift) (omega arith), pow_seven shift)

-- A u64 that `put_varint` wrote is read back, and what follows it is left.
pub read_varint-put_varint :
    (w : ℕ) (rest : Bytes) → w < 2 ^ 64 → read_varint (put_varint w ++ rest) ≡ some (w, rest)
unfolding read_varint put_varint
read_varint-put_varint w rest h =
    varint_loop-put_varint_loop 9 w 0 0 rest (omega arith) (omega arith) (omega arith)
    ∙ ap (λ (v : ℕ). some (v, rest)) (omega arith)

-- One more round changes nothing where the rounds suffice.
put_varint_loop_more : (n w : ℕ) → w < 128 ^ suc n → put_varint_loop (suc n) w ≡ put_varint_loop n w
unfolding put_varint_loop
put_varint_loop_more zero w h = ground arith
put_varint_loop_more (suc n) w h = ground (arith, put_varint_loop_more n (w / 128))

-- On a u64 `put_varint` is the unbounded loop of the source: it stops at a value below 0x80, and
-- otherwise pushes the low byte with its top bit set and goes on with the value shifted by seven.
pub put_varint_step :
    (w : ℕ)
    → w < 2 ^ 64
    → put_varint w
      ≡ (if ltb w 0x80 then (w % 256) ∷ [] else bit_or (w % 256) 0x80 ∷ put_varint (w / 128))
unfolding put_varint
put_varint_step w h = sym (put_varint_loop_more 9 w (omega arith)) ∙ unfold put_varint_loop in refl

varint_loop_bounds :
    (n shift v : ℕ) (b : Bytes) (w : ℕ) (rest : Bytes)
    → v < 2 ^ 64
    → varint_loop n shift v b ≡ some (w, rest)
    → (w < 2 ^ 64) × (length rest < length b) × (length b ≤ length rest + n)
unfolding varint_loop
varint_loop_bounds zero shift v b w rest hv e = cc
varint_loop_bounds (suc n) shift v [] w rest hv e = cc
varint_loop_bounds (suc n) shift v (x ∷ b) w rest hv e =
    let v' = bit_or v (bit_and x 0x7f * 2 ^ shift % 2 ^ 64) in
    ground (
      arith,
      bit_or_lt 64 v (bit_and x 0x7f * 2 ^ shift % 2 ^ 64),
      varint_loop_bounds n (shift + 7) v' b w rest,
    )

-- Whatever the bytes, a varint that is read is a u64, and takes one to ten bytes.
pub read_varint_bounds :
    (b : Bytes) (w : ℕ) (rest : Bytes)
    → read_varint b ≡ some (w, rest)
    → (w < 2 ^ 64) × (length rest < length b) × (length b ≤ length rest + 10)
unfolding read_varint
read_varint_bounds b w rest = varint_loop_bounds 10 0 0 b w rest (omega arith)
