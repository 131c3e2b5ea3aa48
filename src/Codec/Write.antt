-- ===== src/Codec/Write.antt =====
-- The writers of src/session/packet_codec.rs. Each returns the bytes that it pushes to `out`.
use dsct.Base.{ℕ, zero, suc, ◌/◌, ◌%◌, bit_or, [], ◌∷◌, ◌++◌, if◌then◌else◌, ltb, length}
use dsct.Base.Int.{ℤ, to_word}
use dsct.Packet.{Bytes, Range}
use dsct.Owned.{
  BytesSource, from_data, from_aux, OwnedFieldValue, u8, u16, u32, u64, i32, bytes, str, ipv4_addr,
  ipv6_addr, mac_addr, array, object, scratch,
}

-- Value tags and byte source tags.
module _ where
  abbrev pub tag_u8 : ℕ
  tag_u8 = 0

  abbrev pub tag_u16 : ℕ
  tag_u16 = 1

  abbrev pub tag_u32 : ℕ
  tag_u32 = 2

  abbrev pub tag_u64 : ℕ
  tag_u64 = 3

  abbrev pub tag_i32 : ℕ
  tag_i32 = 4

  abbrev pub tag_bytes : ℕ
  tag_bytes = 5

  abbrev pub tag_str : ℕ
  tag_str = 6

  abbrev pub tag_ipv4 : ℕ
  tag_ipv4 = 7

  abbrev pub tag_ipv6 : ℕ
  tag_ipv6 = 8

  abbrev pub tag_mac : ℕ
  tag_mac = 9

  abbrev pub tag_array : ℕ
  tag_array = 10

  abbrev pub tag_object : ℕ
  tag_object = 11

  abbrev pub tag_scratch : ℕ
  tag_scratch = 12

  abbrev pub src_data : ℕ
  src_data = 0

  abbrev pub src_aux : ℕ
  src_aux = 1

-- `while v >= 0x80 { … }` with a bound on the rounds: nine rounds bring a u64 below 2, so that the
-- loop has ended when the bound is reached.
unfoldable pub put_varint_loop : ℕ → ℕ → Bytes
put_varint_loop zero v = (v % 256) ∷ []
put_varint_loop (suc rounds) v =
    let rest = put_varint_loop rounds (v / 128) in
    if ltb v 0x80 then (v % 256) ∷ [] else bit_or (v % 256) 0x80 ∷ rest

unfoldable pub put_varint : ℕ → Bytes
put_varint v = put_varint_loop 9 v

-- `put_range` and `put_range32`.
unfoldable pub put_range : Range → Bytes
put_range r = put_varint r.start ++ put_varint r.end

unfoldable pub put_bytes : Bytes → Bytes
put_bytes b = put_varint (length b) ++ b

unfoldable pub put_source : BytesSource → Bytes
put_source (from_data r) = src_data ∷ put_range r
put_source (from_aux r) = src_aux ∷ put_range r

-- `to_le_bytes` of an i32.
unfoldable pub to_le_bytes : ℤ → Bytes
to_le_bytes v =
    let w = to_word v in (w % 256) ∷ (w / 256 % 256) ∷ (w / 65536 % 256) ∷ (w / 16777216 % 256) ∷ []

-- The tag and the value of a field, from the match in `encode`.
unfoldable pub put_value : OwnedFieldValue → Bytes
put_value (u8 v) = tag_u8 ∷ put_varint v
put_value (u16 v) = tag_u16 ∷ put_varint v
put_value (u32 v) = tag_u32 ∷ put_varint v
put_value (u64 v) = tag_u64 ∷ put_varint v
put_value (i32 v) = tag_i32 ∷ to_le_bytes v
put_value (bytes src) = tag_bytes ∷ put_source src
put_value (str src) = tag_str ∷ put_source src
put_value (ipv4_addr a) = tag_ipv4 ∷ a
put_value (ipv6_addr a) = tag_ipv6 ∷ a
put_value (mac_addr m) = tag_mac ∷ m
put_value (array r) = tag_array ∷ put_range r
put_value (object r) = tag_object ∷ put_range r
put_value (scratch r) = tag_scratch ∷ put_range r
