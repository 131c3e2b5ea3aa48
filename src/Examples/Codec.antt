-- ===== src/Examples/Codec.antt =====
-- src/session/packet_codec.rs and src/session/owned_packet.rs at one packet.
use dsct.Base.{ℕ, ◌%◌, ◌≡◌, refl, true, none, some, List, [], ◌∷◌, ◌++◌, arith, map}
use dsct.Base.Hash.{lookup}
use dsct.Base.Int.{negsuc, to_word}
use dsct.Packet.{
  Bytes, Range, Slice, Layer, Field, FieldValue, DissectBuffer, StaticSlice, Descriptor,
}
use dsct.Utf8.{is_utf8}
use dsct.Owned.{
  OwnedFieldValue, owned_value, owned_values, bytes_source, in_packet, from_dissect_buf,
}
use dsct.Owned.Faithful.{
  ResolvesAux, FieldsViewed, show_field, show_owned, from_dissect_buf_faithful,
}
use dsct.Codec.Intern.{
  Tables, no_tables, empty_interner, extend, take_new, layer, descriptor, of_layer, key,
}
use dsct.Codec.Intern.Laws.{InStep, Fits, empty-InStep}
use dsct.Codec.Write.{
  put_varint, put_varint_loop, put_range, put_bytes, put_value, put_source, to_le_bytes,
}
use dsct.Codec.Read.{
  read_varint, varint_loop, read_usize, read_u8, read_bytes, read_take, read_range,
}
use dsct.Codec.Encode.{encode}
use dsct.Codec.Decode.{decode, StoredPacket}
use dsct.Codec.Varint.{read_varint-put_varint}
use dsct.Codec.RoundTrip.{ValidBuffer, stored, decode-encode}
use dsct.Codec.Damage.{decode_trailing}
use dsct.Codec.Safe.{SafePacket, decode-SafePacket}
use dsct.Codec.Again.{encode_again}

abbrev pub range : ℕ → ℕ → Range
range s e = record { start = s; end = e }

abbrev pub memory : ℕ → ℕ
memory n = n % 256

-- "ABCD", at address 65.
abbrev pub packet : Slice
packet = record { ptr = 65; bytes = 65 ∷ 66 ∷ 67 ∷ 68 ∷ [] }

abbrev pub text_name : StaticSlice
text_name = record { ptr = 1000; len = 4 }

abbrev pub first_layer : Layer
first_layer = record {
  name = text_name;
  display_name = none;
  field_descriptors = record { ptr = 2000; len = 1 };
  range = range 0 4;
  field_range = range 0 5;
}

abbrev pub field : Descriptor → FieldValue Slice → Field
field d v = record { descriptor = d; value = v; range = range 0 1 }

-- A number, a signed number, a string of the packet, bytes from elsewhere, and an object around one
-- of them.
abbrev pub five_fields : List Field
five_fields =
    field 10 (FieldValue.u16 300)
    ∷ field 11 (FieldValue.i32 (negsuc 4))
    ∷ field 12 (FieldValue.str (record { ptr = 66; bytes = 66 ∷ 67 ∷ [] }))
    ∷ field 13 (FieldValue.object (range 4 5))
    ∷ field 14 (FieldValue.bytes (record { ptr = 200; bytes = 200 ∷ 201 ∷ [] }))
    ∷ []

abbrev pub sample : DissectBuffer
sample = record {
  layers = first_layer ∷ [];
  fields = five_fields;
  scratch = 9 ∷ [];
  aux_data = [];
  resolve_aux_ptr_range = λ ptr len. none;
}

pub sample_resolves : ResolvesAux memory sample
sample_resolves ptr len r e = absurd (cc)

pub sample_viewed : FieldsViewed memory five_fields
unfolding is_utf8
sample_viewed = (tt, (tt, ((refl, refl), (tt, (refl, tt)))))

pub sample_valid : ValidBuffer packet sample
unfolding owned_values owned_value bytes_source in_packet
sample_valid = omega arith

-- The record of `sample`, byte by byte.
sample_bytes :
    (encode sample packet true empty_interner []).0
    ≡ 1 ∷ 2 ∷ 200 ∷ 201 ∷ 1 ∷ 9 ∷ 1 ∷ 0 ∷ 0 ∷ 4 ∷ 0 ∷ 5 ∷ 5 ∷ 0 ∷ 0 ∷ 1 ∷ 1 ∷ 172 ∷ 2 ∷ 1 ∷ 0 ∷ 1
      ∷ 4 ∷ 251 ∷ 255 ∷ 255 ∷ 255 ∷ 2 ∷ 0 ∷ 1 ∷ 6 ∷ 0 ∷ 1 ∷ 3 ∷ 3 ∷ 0 ∷ 1 ∷ 11 ∷ 4 ∷ 5 ∷ 4 ∷ 0 ∷ 1
      ∷ 5 ∷ 1 ∷ 0 ∷ 2 ∷ []
unfolding encode owned_values owned_value bytes_source in_packet empty_interner layer descriptor
    lookup put_varint put_varint_loop put_range put_bytes put_value put_source to_le_bytes to_word
    of_layer key
sample_bytes = refl

sample-Fits : Fits (encode sample packet true empty_interner []).1
unfolding encode owned_values owned_value bytes_source in_packet empty_interner layer descriptor
    lookup
sample-Fits = omega arith

decode-encode_example :
    (b : Bytes) × ((encode sample packet true empty_interner []).0 ≡ [] ++ b)
    × (decode b packet.bytes
          (extend no_tables (take_new (encode sample packet true empty_interner []).1).0)
        ≡ some (stored memory packet sample refl sample_resolves sample_viewed sample_valid true))
    × InStep
        (take_new (encode sample packet true empty_interner []).1).1
        (extend no_tables (take_new (encode sample packet true empty_interner []).1).0)
decode-encode_example =
    decode-encode memory packet sample refl sample_resolves sample_viewed sample_valid true
      empty_interner no_tables [] empty-InStep sample-Fits

from_dissect_buf_faithful_example :
    (map (show_owned (from_dissect_buf sample packet)) (from_dissect_buf sample packet).fields
      ≡ map show_field five_fields)
    × ((from_dissect_buf sample packet).layers ≡ first_layer ∷ [])
from_dissect_buf_faithful_example =
    from_dissect_buf_faithful memory packet sample refl sample_resolves sample_viewed

encode_again_example :
    encode sample packet true (take_new (encode sample packet true empty_interner []).1).1 [] ≡ (
      (encode sample packet true empty_interner []).0,
      (take_new (encode sample packet true empty_interner []).1).1,
    )
encode_again_example = encode_again sample packet true empty_interner

-- One field: descriptor 0, range 0..1, the u8 7.
abbrev small_record : Bytes
small_record = 1 ∷ 0 ∷ 0 ∷ 0 ∷ 1 ∷ 0 ∷ 0 ∷ 1 ∷ 0 ∷ 7 ∷ []

abbrev small_tables : Tables
small_tables = record { descriptors = 10 ∷ []; layers = [] }

abbrev small_packet : StoredPacket
small_packet = record {
  ok = true;
  packet = record {
    packet_data = packet.bytes;
    aux_data = [];
    layers = [];
    fields = record { descriptor = 10; value = OwnedFieldValue.u8 7; range = range 0 1 } ∷ [];
    scratch = [];
  };
}

small_decodes : decode small_record packet.bytes small_tables ≡ some small_packet
unfolding decode read_varint varint_loop read_usize read_u8 read_bytes read_take read_range
small_decodes = refl

decode_trailing_example : decode (small_record ++ (0 ∷ [])) packet.bytes small_tables ≡ none
decode_trailing_example = decode_trailing small_record [] packet.bytes 0 small_tables small_decodes

decode-SafePacket_example : SafePacket packet.bytes small_tables small_packet × Unit {0}
decode-SafePacket_example = decode-SafePacket small_record packet.bytes small_tables small_decodes

read_varint-put_varint_example : read_varint (put_varint 300 ++ (9 ∷ [])) ≡ some (300, 9 ∷ [])
read_varint-put_varint_example = read_varint-put_varint 300 (9 ∷ []) (omega arith)
