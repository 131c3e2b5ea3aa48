-- ===== src/Codec/Decode.antt =====
-- `decode` of src/session/packet_codec.rs.
use dsct.Base.{
  ℕ, zero, suc, ◌^◌, Bool, true, false, not, ◌&&◌, ◌||◌, Option, none, some, List, [], ◌∷◌,
  if◌then◌else◌, ltb, ◌==◌, length, get_elem?,
}
use dsct.Packet.{Bytes, slice, Layer}
use dsct.Utf8.{is_utf8}
use dsct.Owned.{
  BytesSource, from_data, from_aux, OwnedFieldValue, u8, u16, u32, u64, i32, bytes, str, ipv4_addr,
  ipv6_addr, mac_addr, array, object, scratch, OwnedField, OwnedPacket,
}
use dsct.Codec.Intern.{Tables}
use dsct.Codec.Write.{
  tag_u8, tag_u16, tag_u32, tag_u64, tag_i32, tag_bytes, tag_str, tag_ipv4, tag_ipv6, tag_mac,
  tag_array, tag_object, tag_scratch,
}
use dsct.Codec.Read.{
  Reader, ◌>>=◌, pure, fail, lift, read_u8, read_take, read_varint, try_below, read_usize, read_u32,
  read_range, read_range32_within, read_bytes, read_source, from_le_bytes,
}

pub record StoredPacket : Type 0 where
  pub ok : Bool
  pub packet : OwnedPacket

-- The bytes of a source, once `read_source` has found it in range.
abbrev pub source_slice : Bytes → Bytes → BytesSource → Bytes
source_slice packet_data aux_data (from_data r) = slice packet_data r
source_slice packet_data aux_data (from_aux r) = slice aux_data r

-- The arm for `TAG_STR`.
unfoldable pub read_str : Bytes → Bytes → Reader OwnedFieldValue
read_str packet_data aux_data = do
  src ← read_source (length packet_data) (length aux_data)
  if is_utf8 (source_slice packet_data aux_data src) then pure (str src) else fail

unfoldable pub read_value_of : ℕ → Bytes → Bytes → ℕ → ℕ → Reader OwnedFieldValue
unfolding read_str
read_value_of tag packet_data aux_data scratch_len field_count =
    if tag == tag_u8
    then (do v ← read_varint; v' ← lift (try_below (2 ^ 8) v); pure (u8 v'))
    else if tag == tag_u16
    then (do v ← read_varint; v' ← lift (try_below (2 ^ 16) v); pure (u16 v'))
    else if tag == tag_u32
    then (do v ← read_u32; pure (u32 v))
    else if tag == tag_u64
    then (do v ← read_varint; pure (u64 v))
    else if tag == tag_i32
    then (do b ← read_take 4; pure (i32 (from_le_bytes b)))
    else if tag == tag_bytes
    then (do src ← read_source (length packet_data) (length aux_data); pure (bytes src))
    else if tag == tag_str
    then read_str packet_data aux_data
    else if tag == tag_ipv4
    then (do a ← read_take 4; pure (ipv4_addr a))
    else if tag == tag_ipv6
    then (do a ← read_take 16; pure (ipv6_addr a))
    else if tag == tag_mac
    then (do m ← read_take 6; pure (mac_addr m))
    else if tag == tag_array
    then (do r ← read_range32_within field_count; pure (array r))
    else if tag == tag_object
    then (do r ← read_range32_within field_count; pure (object r))
    else if tag == tag_scratch
    then (do r ← read_range32_within scratch_len; pure (scratch r))
    else fail

unfoldable pub read_value : Bytes → Bytes → ℕ → ℕ → Reader OwnedFieldValue
unfolding read_value_of
read_value packet_data aux_data scratch_len field_count = do
  tag ← read_u8
  read_value_of tag packet_data aux_data scratch_len field_count

-- One round of the loop over the layers, and the loop.
unfoldable pub read_layer : Tables → Reader Layer
read_layer tables = do
  id ← read_usize
  meta ← lift (get_elem? tables.layers id)
  range ← read_range
  field_start ← read_u32
  field_end ← read_u32
  pure (record {
    name = meta.name;
    display_name = meta.display_name;
    field_descriptors = meta.field_descriptors;
    range = range;
    field_range = record { start = field_start; end = field_end };
  })

unfoldable pub read_layers : ℕ → Tables → Reader (List Layer)
unfolding read_layer
read_layers zero tables = pure []
read_layers (suc n) tables = do
  layer ← read_layer tables
  layers ← read_layers n tables
  pure (layer ∷ layers)

-- One round of the loop over the fields, and the loop.
unfoldable pub read_field : Bytes → Bytes → ℕ → ℕ → Tables → Reader OwnedField
unfolding read_value
read_field packet_data aux_data scratch_len field_count tables = do
  id ← read_usize
  descriptor ← lift (get_elem? tables.descriptors id)
  range ← read_range
  value ← read_value packet_data aux_data scratch_len field_count
  pure (record { descriptor = descriptor; value = value; range = range })

unfoldable pub read_fields : ℕ → Bytes → Bytes → ℕ → ℕ → Tables → Reader (List OwnedField)
unfolding read_field
read_fields zero packet_data aux_data scratch_len field_count tables = pure []
read_fields (suc n) packet_data aux_data scratch_len field_count tables = do
  field ← read_field packet_data aux_data scratch_len field_count tables
  fields ← read_fields n packet_data aux_data scratch_len field_count tables
  pure (field ∷ fields)

unfoldable pub read_ok : ℕ → Option Bool
read_ok tag = if tag == 0 then some false else if tag == 1 then some true else none

-- All layers' field ranges are in order and lie within the fields.
unfoldable pub ranges_fit : ℕ → List Layer → Bool
ranges_fit count [] = true
ranges_fit count (l ∷ ls) =
    not (ltb l.field_range.end l.field_range.start || ltb count l.field_range.end)
    && ranges_fit count ls

-- Everything that `decode` reads, before its last two checks.
unfoldable pub read_record : Bytes → Tables → Reader StoredPacket
unfolding read_ok read_layers read_fields
read_record packet_data tables = do
  tag ← read_u8
  ok ← lift (read_ok tag)
  aux_data ← read_bytes
  scratch_data ← read_bytes
  layer_count ← read_usize
  layers ← read_layers layer_count tables
  field_count ← read_usize
  fields ← read_fields field_count packet_data aux_data (length scratch_data) field_count tables
  pure (record {
    ok = ok;
    packet = record {
      packet_data = packet_data;
      aux_data = aux_data;
      layers = layers;
      fields = fields;
      scratch = scratch_data;
    };
  })

-- The record must end behind its fields, and its layers must fit them.
unfoldable pub check_record : StoredPacket × Bytes → Option StoredPacket
unfolding ranges_fit
check_record (stored, []) =
    if ranges_fit (length stored.packet.fields) stored.packet.layers then some stored else none
check_record (stored, b ∷ rest) = none

unfoldable pub decode : Bytes → Bytes → Tables → Option StoredPacket
unfolding read_record check_record
decode record_bytes packet_data tables = elim (read_record packet_data tables record_bytes) [
  | none ↦ none
  | some r ↦ check_record r
]
