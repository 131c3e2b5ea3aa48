-- ===== src/Packet.antt =====
-- The data that src/session/ reads from a dissection: slices with their addresses, references to
-- statics, layers, fields and the buffer that holds them (the types that src/session/packet_codec.rs
-- and src/session/owned_packet.rs take apart). A reference or slice is its address with what it shows.
use dsct.Base.{ℕ, ◌-◌, ◌≤◌, ◌<◌, Option, List, take, drop, All}
use dsct.Base.Int.{ℤ}

abbrev pub Bytes : Type 0
Bytes = List ℕ

abbrev pub IsByte : ℕ → Type 0
IsByte b = b < 256

abbrev pub AreBytes : Bytes → Type 0
AreBytes = All IsByte

-- `Range<usize>` and `Range<u32>`.
pub record Range : Type 0 where
  pub start : ℕ
  pub end : ℕ

-- The range lies within `0..len`, and its ends are in order.
abbrev pub Within : ℕ → Range → Type 0
Within len r = (r.start ≤ r.end) × (r.end ≤ len)

-- `&bytes[range]`, for a range within the bytes.
abbrev pub slice : Bytes → Range → Bytes
slice b r = take (r.end - r.start) (drop r.start b)

-- A `&'static str` or `&'static [T]`: its address and its length.
pub record StaticSlice : Type 0 where
  pub ptr : ℕ
  pub len : ℕ

-- A `&'static FieldDescriptor`, which is its address.
abbrev pub Descriptor : Type 0
Descriptor = ℕ

pub record Layer : Type 0 where
  pub name : StaticSlice
  pub display_name : Option StaticSlice
  pub field_descriptors : StaticSlice
  pub range : Range
  pub field_range : Range

-- A borrowed slice: its address and the bytes that stand there.
pub record Slice : Type 0 where
  pub ptr : ℕ
  pub bytes : Bytes

-- `FieldValue`, over what stands for a byte slice: `Slice`, or the bytes alone where values are
-- compared.
pub data FieldValue (S : Type 0) : Type 0 where
  u8 u16 u32 u64 : ℕ → FieldValue S
  i32 : ℤ → FieldValue S
  bytes str : S → FieldValue S
  ipv4_addr ipv6_addr mac_addr : Bytes → FieldValue S
  array object scratch : Range → FieldValue S

-- A value with the addresses of its slices forgotten.
abbrev pub shown : FieldValue Slice → FieldValue Bytes
shown (FieldValue.u8 v) = FieldValue.u8 v
shown (FieldValue.u16 v) = FieldValue.u16 v
shown (FieldValue.u32 v) = FieldValue.u32 v
shown (FieldValue.u64 v) = FieldValue.u64 v
shown (FieldValue.i32 v) = FieldValue.i32 v
shown (FieldValue.bytes b) = FieldValue.bytes b.bytes
shown (FieldValue.str s) = FieldValue.str s.bytes
shown (FieldValue.ipv4_addr a) = FieldValue.ipv4_addr a
shown (FieldValue.ipv6_addr a) = FieldValue.ipv6_addr a
shown (FieldValue.mac_addr m) = FieldValue.mac_addr m
shown (FieldValue.array r) = FieldValue.array r
shown (FieldValue.object r) = FieldValue.object r
shown (FieldValue.scratch r) = FieldValue.scratch r

pub record Field : Type 0 where
  pub descriptor : Descriptor
  pub value : FieldValue Slice
  pub range : Range

-- A dissection result as its accessors show it. `resolve_aux_ptr_range` is the buffer's own search
-- of its auxiliary blocks.
pub record DissectBuffer : Type 0 where
  pub layers : List Layer
  pub fields : List Field
  pub scratch : Bytes
  pub aux_data : Bytes
  pub resolve_aux_ptr_range : ℕ → ℕ → Option Range
