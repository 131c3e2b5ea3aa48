-- ===== src/Owned.antt =====
-- src/session/owned_packet.rs: an owned copy of a dissected packet, its borrowed values turned into
-- ranges of the packet's bytes or of the auxiliary bytes.
pub mod Faithful
use dsct.Base.{
  ℕ, ◌+◌, ◌-◌, ◌≡◌, Bool, true, false, ◌&&◌, Option, none, some, List, [], ◌∷◌, ◌++◌, leb, ltb,
  ◌==◌, if◌then◌else◌, length, take, drop,
}
use dsct.Base.Int.{ℤ}
use dsct.Packet.{
  Bytes, Range, Slice, slice, Descriptor, Layer, Field, FieldValue, DissectBuffer, StaticSlice,
}
use dsct.Utf8.{is_utf8}

-- `BytesSource::Data` and `BytesSource::AuxData`.
pub data BytesSource : Type 0 where
  from_data from_aux : Range → BytesSource

pub data OwnedFieldValue : Type 0 where
  u8 u16 u32 u64 : ℕ → OwnedFieldValue
  i32 : ℤ → OwnedFieldValue
  bytes str : BytesSource → OwnedFieldValue
  ipv4_addr ipv6_addr mac_addr : Bytes → OwnedFieldValue
  array object scratch : Range → OwnedFieldValue

pub record OwnedField : Type 0 where
  pub descriptor : Descriptor
  pub value : OwnedFieldValue
  pub range : Range

pub record OwnedPacket : Type 0 where
  pub packet_data : Bytes
  pub aux_data : Bytes
  pub layers : List Layer
  pub fields : List OwnedField
  pub scratch : Bytes

-- The bytes start within `data` and end there too; `data` is the packet with its address.
unfoldable pub in_packet : Slice → Slice → Bool
in_packet b packet =
    leb packet.ptr b.ptr
    && ltb b.ptr (packet.ptr + length packet.bytes)
    && leb (b.ptr - packet.ptr + length b.bytes) (length packet.bytes)

-- Locate bytes in the packet or in the auxiliary data, or append a copy to `aux`.
unfoldable pub bytes_source : Slice → Slice → DissectBuffer → Bytes → BytesSource × Bytes
bytes_source b packet buf aux =
    let offset = b.ptr - packet.ptr in
    if in_packet b packet
    then (from_data (record { start = offset; end = offset + length b.bytes }), aux)
    else elim (buf.resolve_aux_ptr_range b.ptr (length b.bytes)) [
      | some range ↦ (from_aux range, aux)
      | none ↦
          (from_aux (record { start = length aux; end = length (aux ++ b.bytes) }), aux ++ b.bytes)
    ]

abbrev tag_source : (BytesSource → OwnedFieldValue) → BytesSource × Bytes → OwnedFieldValue × Bytes
tag_source tag (src, aux) = (tag src, aux)

unfoldable pub owned_value :
    FieldValue Slice → Slice → DissectBuffer → Bytes → OwnedFieldValue × Bytes
owned_value (FieldValue.u8 v) packet buf aux = (u8 v, aux)
owned_value (FieldValue.u16 v) packet buf aux = (u16 v, aux)
owned_value (FieldValue.u32 v) packet buf aux = (u32 v, aux)
owned_value (FieldValue.u64 v) packet buf aux = (u64 v, aux)
owned_value (FieldValue.i32 v) packet buf aux = (i32 v, aux)
owned_value (FieldValue.bytes b) packet buf aux = tag_source bytes (bytes_source b packet buf aux)
owned_value (FieldValue.str s) packet buf aux = tag_source str (bytes_source s packet buf aux)
owned_value (FieldValue.ipv4_addr a) packet buf aux = (ipv4_addr a, aux)
owned_value (FieldValue.ipv6_addr a) packet buf aux = (ipv6_addr a, aux)
owned_value (FieldValue.mac_addr m) packet buf aux = (mac_addr m, aux)
owned_value (FieldValue.array r) packet buf aux = (array r, aux)
owned_value (FieldValue.object r) packet buf aux = (object r, aux)
owned_value (FieldValue.scratch r) packet buf aux = (scratch r, aux)

-- The values of all fields in order, each conversion on the auxiliary data that the last one left.
unfoldable pub owned_values :
    List Field → Slice → DissectBuffer → Bytes → List OwnedFieldValue × Bytes
unfolding owned_value
owned_values [] packet buf aux = ([], aux)
owned_values (f ∷ fs) packet buf aux =
    let (value, aux') = owned_value f.value packet buf aux in
    let (values, aux'') = owned_values fs packet buf aux' in (value ∷ values, aux'')

unfoldable pub zip_fields : List Field → List OwnedFieldValue → List OwnedField
zip_fields (f ∷ fs) (v ∷ vs) =
    record { descriptor = f.descriptor; value = v; range = f.range } ∷ zip_fields fs vs
zip_fields fs vs = []

unfoldable pub from_dissect_buf : DissectBuffer → Slice → OwnedPacket
unfolding owned_values zip_fields
from_dissect_buf buf packet =
    let (values, aux) = owned_values buf.fields packet buf buf.aux_data in
    record {
      packet_data = packet.bytes;
      aux_data = aux;
      layers = buf.layers;
      fields = zip_fields buf.fields values;
      scratch = buf.scratch;
    }

unfoldable pub resolve_bytes : OwnedPacket → BytesSource → Bytes
resolve_bytes p (from_data r) = slice p.packet_data r
resolve_bytes p (from_aux r) = slice p.aux_data r

unfoldable pub resolve_str : OwnedPacket → BytesSource → Bytes
unfolding resolve_bytes
resolve_str p src = let b = resolve_bytes p src in if is_utf8 b then b else []

-- `OwnedPacket::nested_fields`: a part of the flat field buffer.
unfoldable pub nested_fields : OwnedPacket → Range → List OwnedField
nested_fields p r = take (r.end - r.start) (drop r.start p.fields)

-- `OwnedFieldValue::to_field_value`: the borrowed value, a slice of it seen as its bytes.
unfoldable pub to_field_value : OwnedPacket → OwnedFieldValue → FieldValue Bytes
unfolding resolve_bytes resolve_str
to_field_value p (u8 v) = FieldValue.u8 v
to_field_value p (u16 v) = FieldValue.u16 v
to_field_value p (u32 v) = FieldValue.u32 v
to_field_value p (u64 v) = FieldValue.u64 v
to_field_value p (i32 v) = FieldValue.i32 v
to_field_value p (bytes src) = FieldValue.bytes (resolve_bytes p src)
to_field_value p (str src) = FieldValue.str (resolve_str p src)
to_field_value p (ipv4_addr a) = FieldValue.ipv4_addr a
to_field_value p (ipv6_addr a) = FieldValue.ipv6_addr a
to_field_value p (mac_addr m) = FieldValue.mac_addr m
to_field_value p (array r) = FieldValue.array r
to_field_value p (object r) = FieldValue.object r
to_field_value p (scratch r) = FieldValue.scratch r
