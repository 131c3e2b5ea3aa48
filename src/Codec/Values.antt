-- ===== src/Codec/Values.antt =====
-- Values of src/session/packet_codec.rs, written and read back.
use dsct.Base.{ℕ, ◌^◌, ◌<◌, ◌≡◌, refl, ap, ◌∙◌, some, length, arith, lt→ltb}
use dsct.Base.Int.{ℤ, IsI32, from_word, from_word-to_word, to_word_lt}
use dsct.Packet.{Bytes, Within, Slice, FieldValue, DissectBuffer}
use dsct.Owned.{
  BytesSource, from_data, from_aux, OwnedFieldValue, u8, u16, u32, u64, i32, bytes, str, ipv4_addr,
  ipv6_addr, mac_addr, array, object, scratch, owned_value,
}
use dsct.Owned.Faithful.{source_bytes, InRange}
use dsct.Codec.Write.{put_varint, put_range, put_source, to_le_bytes, put_value}
use dsct.Codec.Read.{
  read_varint, read_take, read_u32, read_source, read_range32_within, from_le_bytes,
}
use dsct.Codec.Decode.{read_str, read_value, source_slice}
use dsct.Codec.Reads.{
  Reads, Reads-last, Reads-u8, Reads-varint, Reads-u32, Reads-range32-Within, Reads-take,
  Reads-source,
}

-- What the Rust types promise of a value, and the ranges that a buffer keeps: children within the
-- `count` fields, scratch bytes within the scratch buffer.
abbrev pub Valid : ℕ → ℕ → OwnedFieldValue → Type 0
Valid count scratch_len (u8 v) = v < 2 ^ 8
Valid count scratch_len (u16 v) = v < 2 ^ 16
Valid count scratch_len (u32 v) = v < 2 ^ 32
Valid count scratch_len (u64 v) = v < 2 ^ 64
Valid count scratch_len (i32 v) = IsI32 v
Valid count scratch_len (bytes src) = Unit
Valid count scratch_len (str src) = Unit
Valid count scratch_len (ipv4_addr a) = length a ≡ 4
Valid count scratch_len (ipv6_addr a) = length a ≡ 16
Valid count scratch_len (mac_addr m) = length m ≡ 6
Valid count scratch_len (array r) = Within count r × (r.end < 2 ^ 32)
Valid count scratch_len (object r) = Within count r × (r.end < 2 ^ 32)
Valid count scratch_len (scratch r) = Within scratch_len r × (r.end < 2 ^ 32)

-- The same of a borrowed value.
abbrev pub ValidBorrowed : ℕ → ℕ → FieldValue Slice → Type 0
ValidBorrowed count scratch_len (FieldValue.u8 v) = v < 2 ^ 8
ValidBorrowed count scratch_len (FieldValue.u16 v) = v < 2 ^ 16
ValidBorrowed count scratch_len (FieldValue.u32 v) = v < 2 ^ 32
ValidBorrowed count scratch_len (FieldValue.u64 v) = v < 2 ^ 64
ValidBorrowed count scratch_len (FieldValue.i32 v) = IsI32 v
ValidBorrowed count scratch_len (FieldValue.bytes b) = Unit
ValidBorrowed count scratch_len (FieldValue.str s) = Unit
ValidBorrowed count scratch_len (FieldValue.ipv4_addr a) = length a ≡ 4
ValidBorrowed count scratch_len (FieldValue.ipv6_addr a) = length a ≡ 16
ValidBorrowed count scratch_len (FieldValue.mac_addr m) = length m ≡ 6
ValidBorrowed count scratch_len (FieldValue.array r) = Within count r × (r.end < 2 ^ 32)
ValidBorrowed count scratch_len (FieldValue.object r) = Within count r × (r.end < 2 ^ 32)
ValidBorrowed count scratch_len (FieldValue.scratch r) = Within scratch_len r × (r.end < 2 ^ 32)

pub owned_value-Valid :
    (count scratch_len : ℕ) (v : FieldValue Slice) (packet : Slice) (buf : DissectBuffer)
    (aux : Bytes)
    → ValidBorrowed count scratch_len v
    → Valid count scratch_len (owned_value v packet buf aux).0
unfolding owned_value
owned_value-Valid count scratch_len (FieldValue.bytes b) packet buf aux h = tt
owned_value-Valid count scratch_len (FieldValue.str s) packet buf aux h = tt
owned_value-Valid count scratch_len v packet buf aux h = h

from_le_bytes-to_le_bytes : (v : ℤ) → IsI32 v → from_le_bytes (to_le_bytes v) ≡ v
unfolding from_le_bytes to_le_bytes
from_le_bytes-to_le_bytes v h = ap from_word (omega (arith, to_word_lt v)) ∙ from_word-to_word v h

length-to_le_bytes : (v : ℤ) → length (to_le_bytes v) ≡ 4
unfolding to_le_bytes
length-to_le_bytes v = refl

pub source_slice-source_bytes :
    (d a : Bytes) (src : BytesSource) → source_slice d a src ≡ source_bytes d a src
source_slice-source_bytes d a (from_data r) = refl
source_slice-source_bytes d a (from_aux r) = refl

Reads-str :
    (d a : Bytes) (src : BytesSource)
    → length d < 2 ^ 64
    → length a < 2 ^ 64
    → InRange d a (str src)
    → Reads (read_str d a) (put_source src) (str src)
unfolding read_str
Reads-str d a src hd ha (w, utf8) =
    Reads-last (read_source (length d) (length a)) _ (put_source src) src (str src)
      (Reads-source (length d) (length a) src hd ha w)
      (λ rest. rw (source_slice-source_bytes d a src, utf8))

-- Every kind of value is read back from its tag and bytes.
pub Reads-value :
    (d a : Bytes) (scratch_len count : ℕ) (v : OwnedFieldValue)
    → length d < 2 ^ 64
    → length a < 2 ^ 64
    → InRange d a v
    → Valid count scratch_len v
    → Reads (read_value d a scratch_len count) (put_value v) v
unfolding read_value put_value
Reads-value d a s c (u8 v) hd ha w h = Reads-u8 _ 0 (put_varint v) (u8 v) (
    Reads-last read_varint _ (put_varint v) v (u8 v) (Reads-varint v (omega arith))
      (λ rest. rw (lt→ltb v (2 ^ 8) h)))
Reads-value d a s c (u16 v) hd ha w h = Reads-u8 _ 1 (put_varint v) (u16 v) (
    Reads-last read_varint _ (put_varint v) v (u16 v) (Reads-varint v (omega arith))
      (λ rest. rw (lt→ltb v (2 ^ 16) h)))
Reads-value d a s c (u32 v) hd ha w h =
    Reads-u8 _ 2 (put_varint v) (u32 v)
      (Reads-last read_u32 _ (put_varint v) v (u32 v) (Reads-u32 v h) (λ rest. refl))
Reads-value d a s c (u64 v) hd ha w h =
    Reads-u8 _ 3 (put_varint v) (u64 v)
      (Reads-last read_varint _ (put_varint v) v (u64 v) (Reads-varint v h) (λ rest. refl))
Reads-value d a s c (i32 v) hd ha w h = Reads-u8 _ 4 (to_le_bytes v) (i32 v) (
    Reads-last (read_take 4) _ (to_le_bytes v) (to_le_bytes v) (i32 v)
      (Reads-take (to_le_bytes v) 4 (length-to_le_bytes v))
      (λ rest. ap (λ z. some (i32 z, rest)) (from_le_bytes-to_le_bytes v h)))
Reads-value d a s c (bytes src) hd ha w h = Reads-u8 _ 5 (put_source src) (bytes src) (
    Reads-last (read_source (length d) (length a)) _ (put_source src) src (bytes src)
      (Reads-source (length d) (length a) src hd ha w) (λ rest. refl))
Reads-value d a s c (str src) hd ha w h =
    Reads-u8 _ 6 (put_source src) (str src) (Reads-str d a src hd ha w)
Reads-value d a s c (ipv4_addr x) hd ha w h =
    Reads-u8 _ 7 x (ipv4_addr x)
      (Reads-last (read_take 4) _ x x (ipv4_addr x) (Reads-take x 4 h) (λ rest. refl))
Reads-value d a s c (ipv6_addr x) hd ha w h =
    Reads-u8 _ 8 x (ipv6_addr x)
      (Reads-last (read_take 16) _ x x (ipv6_addr x) (Reads-take x 16 h) (λ rest. refl))
Reads-value d a s c (mac_addr x) hd ha w h =
    Reads-u8 _ 9 x (mac_addr x)
      (Reads-last (read_take 6) _ x x (mac_addr x) (Reads-take x 6 h) (λ rest. refl))
Reads-value d a s c (array r) hd ha w h = Reads-u8 _ 10 (put_range r) (array r) (
    Reads-last (read_range32_within c) _ (put_range r) r (array r)
      (Reads-range32-Within c r h.0 h.1) (λ rest. refl))
Reads-value d a s c (object r) hd ha w h = Reads-u8 _ 11 (put_range r) (object r) (
    Reads-last (read_range32_within c) _ (put_range r) r (object r)
      (Reads-range32-Within c r h.0 h.1) (λ rest. refl))
Reads-value d a s c (scratch r) hd ha w h = Reads-u8 _ 12 (put_range r) (scratch r) (
    Reads-last (read_range32_within s) _ (put_range r) r (scratch r)
      (Reads-range32-Within s r h.0 h.1) (λ rest. refl))
