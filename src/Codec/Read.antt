-- ===== src/Codec/Read.antt =====
-- `Reader` of src/session/packet_codec.rs: a cursor over the bytes of a record.
use dsct.Base.{
  ◌≡◌, sym, ◌∙◌, Option-cases, inl, inr, ℕ, zero, suc, ◌+◌, ◌*◌, ◌%◌, ◌^◌, bit_or, bit_and, ◌&&◌,
  ◌||◌, Option, none, some, [], ◌∷◌, if◌then◌else◌, ltb, leb, ◌==◌, length, take, drop,
}
use dsct.Base.Int.{ℤ, from_word}
use dsct.Packet.{Bytes, Range}
use dsct.Owned.{BytesSource, from_data, from_aux}
use dsct.Codec.Write.{src_data, src_aux}

-- A step of the reader: the bytes that are left go in, and come out behind the value. `none` is the
-- early return by `?`.
abbrev pub Reader : Type 0 → Type 0
Reader A = Bytes → Option (A × Bytes)

infixl 5 ◌>>=◌
abbrev pub ◌>>=◌ : {A B : Type 0} → Reader A → (A → Reader B) → Reader B
◌>>=◌ m f b = elim (m b) [ none ↦ none | some (a, rest) ↦ f a rest ]

abbrev pub pure : {A : Type 0} → A → Reader A
pure a b = some (a, b)

abbrev pub fail : {A : Type 0} → Reader A
fail b = none

-- `o?` for an Option that is no reading.
abbrev pub lift : {A : Type 0} → Option A → Reader A
lift none b = none
lift (some a) b = some (a, b)

unfoldable pub read_u8 : Reader ℕ
read_u8 [] = none
read_u8 (b ∷ rest) = some (b, rest)

unfoldable pub read_take : ℕ → Reader Bytes
read_take n b = if ltb (length b) n then none else some (take n b, drop n b)

-- `for shift in (0..64).step_by(7)`: ten rounds, from a shift of 0 on. The bits that a shift moves
-- past the 64th are lost.
unfoldable pub varint_loop : ℕ → ℕ → ℕ → Reader ℕ
varint_loop zero shift v b = none
varint_loop (suc rounds) shift v [] = none
varint_loop (suc rounds) shift v (b ∷ rest) =
    let v' = bit_or v (bit_and b 0x7f * 2 ^ shift % 2 ^ 64) in
    let more = varint_loop rounds (shift + 7) v' rest in
    if bit_and b 0x80 == 0 then some (v', rest) else more

unfoldable pub read_varint : Reader ℕ
read_varint = varint_loop 10 0 0

-- `u8::try_from` and its like: the value, if it is below the bound.
abbrev pub try_below : ℕ → ℕ → Option ℕ
try_below bound v = if ltb v bound then some v else none

-- `Reader::usize`: every u64 is a usize, on 64 bits.
unfoldable pub read_usize : Reader ℕ
read_usize = read_varint

unfoldable pub read_u32 : Reader ℕ
read_u32 = do v ← read_varint; lift (try_below (2 ^ 32) v)

unfoldable pub read_range : Reader Range
read_range = do start ← read_usize; end ← read_usize; pure (record { start = start; end = end })

unfoldable pub read_range32_within : ℕ → Reader Range
read_range32_within len = do
  start ← read_u32
  end ← read_u32
  if leb start end && leb end len then pure (record { start = start; end = end }) else fail

unfoldable pub read_bytes : Reader Bytes
read_bytes = do n ← read_usize; read_take n

unfoldable pub source_limit : ℕ → ℕ → ℕ → Option ℕ
source_limit data_len aux_len tag =
    if tag == src_data then some data_len else if tag == src_aux then some aux_len else none

unfoldable pub read_source : ℕ → ℕ → Reader BytesSource
unfolding source_limit
read_source data_len aux_len = do
  tag ← read_u8
  r ← read_range
  limit ← lift (source_limit data_len aux_len tag)
  if ltb r.end r.start || ltb limit r.end
      then fail
      else pure (if tag == src_data then from_data r else from_aux r)

-- `i32::from_le_bytes`, of four bytes.
unfoldable pub from_le_bytes : Bytes → ℤ
from_le_bytes (a ∷ b ∷ c ∷ d ∷ rest) = from_word (a + 256 * b + 65536 * c + 16777216 * d)
from_le_bytes rest = from_word 0

module _ {A B : Type 0} (m : Reader A) (f : A → Reader B) where
  pub bind_none : (b : Bytes) → m b ≡ none → (m >>= f) b ≡ none
  bind_none b e = rw (e, ◌>>=◌)

  pub bind_some : (b : Bytes) {a : A} {rest : Bytes} → m b ≡ some (a, rest) → (m >>= f) b ≡ f a rest
  bind_some b e = rw (e, ◌>>=◌)

  -- A chain of readings that succeeded did so at each step.
  pub bind-eq-some :
      (b : Bytes) {r : B × Bytes}
      → (m >>= f) b ≡ some r
      → (a : A) × (rest : Bytes) × (m b ≡ some (a, rest)) × (f a rest ≡ some r)
  bind-eq-some b e = elim (Option-cases (m b)) [
    | inl missing ↦ cc (bind_none b missing)
    | inr ((a, rest), found) ↦ (a, rest, found, sym (bind_some b found) ∙ e)
  ]
