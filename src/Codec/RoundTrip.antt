-- ===== src/Codec/RoundTrip.antt =====
-- `decode` reads back what `encode` wrote (src/session/packet_codec.rs).
use dsct.Base.{
  ℕ, ◌^◌, ◌≤◌, ◌<◌, ◌≡◌, refl, ◌∙◌, Bool, true, false, some, [], ◌++◌, length, arith, append-nil,
  All,
}
use dsct.Packet.{Bytes, Slice, DissectBuffer}
use dsct.Owned.{owned_values, zip_fields, from_dissect_buf}
use dsct.Owned.Faithful.{IsView, ResolvesAux, FieldsViewed, from_dissect_buf-InRange}
use dsct.Codec.Intern.{Tables, extend, Interner, take_new}
use dsct.Codec.Intern.Laws.{InStep, ResolvesIn, Fits, extend-take_new}
use dsct.Codec.Write.{put_varint, put_bytes}
use dsct.Codec.Read.{read_usize, read_bytes}
use dsct.Codec.Encode.{put_ok, put_layers, encode}
use dsct.Codec.Decode.{
  StoredPacket, read_layers, read_fields, read_ok, read_record, check_record, decode,
}
use dsct.Codec.Ids.{encode-InStep}
use dsct.Codec.Reads.{Reads, Reads-bind, Reads-last, Reads-lift, Reads-u8, Reads-usize, Reads-bytes}
use dsct.Codec.Values.{ValidBorrowed}
use dsct.Codec.Parts.{
  IsRange, ValidLayer, Reads-layers, Reads-fields, owned_values_lengths, owned_values-Valid,
  length-zip_fields, ranges_fit_of_valid,
}

-- What the Rust types and the dissector promise of a buffer: lengths and positions fit a `usize`,
-- `u32` ranges fit a `u32`, and they lie within the fields or the scratch bytes.
pub record ValidBuffer (packet : Slice) (buf : DissectBuffer) : Type 0 where
  pub packet_fits : length packet.bytes < 2 ^ 64
  pub aux_fits : length (owned_values buf.fields packet buf buf.aux_data).1 < 2 ^ 64
  pub scratch_fits : length buf.scratch < 2 ^ 64
  pub layers_fit : length buf.layers < 2 ^ 64
  pub fields_fit : length buf.fields < 2 ^ 64
  pub layers_valid : All (ValidLayer (length buf.fields)) buf.layers
  pub ranges_valid : All (λ f. IsRange f.range) buf.fields
  pub values_valid :
      All (λ f. ValidBorrowed (length buf.fields) (length buf.scratch) f.value) buf.fields

read_ok-put_ok : (ok : Bool) → read_ok (put_ok ok) ≡ some ok
unfolding read_ok
read_ok-put_ok true = refl
read_ok-put_ok false = refl

pub decode_of_read :
    (b d : Bytes) (t : Tables) {r : StoredPacket × Bytes}
    → read_record d t b ≡ some r
    → decode b d t ≡ check_record r
unfolding decode
decode_of_read b d t e = rw (e, decode)

module _ (memory : ℕ → ℕ) (packet : Slice) (buf : DissectBuffer) (seen : IsView memory packet)
    (resolves : ResolvesAux memory buf) (viewed : FieldsViewed memory buf.fields)
    (valid : ValidBuffer packet buf) where
  abbrev pub stored : Bool → StoredPacket
  stored ok = record { ok = ok; packet = from_dissect_buf buf packet }

  -- The reader of a whole record, on tables that resolve every id.
  Reads-record :
      (ok : Bool) (i : Interner) (t : Tables)
      → ResolvesIn (encode buf packet ok i []).1 t
      → length t.layers ≤ 2 ^ 32
      → length t.descriptors ≤ 2 ^ 32
      → Reads (read_record packet.bytes t) (encode buf packet ok i []).0 (stored ok)
  unfolding encode read_record from_dissect_buf
  Reads-record ok i t r few_layers few_descriptors =
      let (values, aux) = owned_values buf.fields packet buf buf.aux_data in
      let (fields_read, r') =
        Reads-fields t few_descriptors packet.bytes aux (length buf.scratch) (length buf.fields)
          valid.packet_fits valid.aux_fits buf.fields values (put_layers buf.layers i).1
          (owned_values_lengths buf.fields packet buf buf.aux_data) r valid.ranges_valid
          (from_dissect_buf-InRange memory packet buf seen resolves viewed)
          (owned_values-Valid (length buf.fields) (length buf.scratch) buf.fields packet buf
            buf.aux_data valid.values_valid) in
      let (layers_read, r'') =
        Reads-layers t few_layers (length buf.fields) buf.layers i r' valid.layers_valid in
      Reads-u8 _ (put_ok ok) _ (stored ok) (
        Reads-lift (read_ok (put_ok ok)) _ _ ok (stored ok) (read_ok-put_ok ok) (
          Reads-bind read_bytes _ (put_bytes aux) _ aux (stored ok) (Reads-bytes aux valid.aux_fits)
            (Reads-bind read_bytes _ (put_bytes buf.scratch) _ buf.scratch (stored ok)
              (Reads-bytes buf.scratch valid.scratch_fits)
              (Reads-bind read_usize _ (put_varint (length buf.layers)) _ (length buf.layers)
                (stored ok) (Reads-usize (length buf.layers) valid.layers_fit)
                (Reads-bind (read_layers (length buf.layers) t) _ _ _ buf.layers (stored ok)
                  layers_read
                  (Reads-bind read_usize _ (put_varint (length buf.fields)) _ (length buf.fields)
                    (stored ok) (Reads-usize (length buf.fields) valid.fields_fit)
                    (Reads-last
                      (read_fields (length buf.fields) packet.bytes aux (length buf.scratch)
                        (length buf.fields) t)
                      _ _ (zip_fields buf.fields values) (stored ok) fields_read
                      (λ rest. refl))))))))

  -- What is read is all there is, and the layers' field ranges pass the last check.
  check_record-stored : (ok : Bool) → check_record (stored ok, []) ≡ some (stored ok)
  unfolding check_record from_dissect_buf
  check_record-stored ok =
      let values = (owned_values buf.fields packet buf buf.aux_data).0 in
      rw (
        length-zip_fields buf.fields values
            (owned_values_lengths buf.fields packet buf buf.aux_data),
        ranges_fit_of_valid (length buf.fields) buf.layers valid.layers_valid,
      )

  -- The record is decoded on all tables that resolve the ids it was written with.
  pub decode_resolved :
      (ok : Bool) (i : Interner) (t : Tables)
      → ResolvesIn (encode buf packet ok i []).1 t
      → length t.layers ≤ 2 ^ 32
      → length t.descriptors ≤ 2 ^ 32
      → decode (encode buf packet ok i []).0 packet.bytes t ≡ some (stored ok)
  decode_resolved ok i t r few_layers few_descriptors =
      decode_of_read _ packet.bytes t
        (rw append-nil at ((Reads-record ok i t r few_layers few_descriptors).at []))
      ∙ check_record-stored ok

  -- `encode` appends a record to `out`, and `decode` gives back from it exactly the packet that
  -- `OwnedPacket::from_dissect_buf` builds, with the flag `ok`, once the reader's tables are extended
  -- by the entries that the interner then holds. With those taken, interner and tables are in step
  -- again, so that the same holds of the next record.
  -- Assumed: slices show one memory, strings are UTF-8, `resolve_aux_ptr_range` answers truly, the
  -- buffer is valid, interner and tables are in step, and at most 2^32 ids of each kind are in use.
  pub decode-encode :
      (ok : Bool) (i : Interner) (t : Tables) (out : Bytes)
      → InStep i t
      → Fits (encode buf packet ok i out).1
      → (b : Bytes) × ((encode buf packet ok i out).0 ≡ out ++ b)
        × (decode b packet.bytes (extend t (take_new (encode buf packet ok i out).1).0)
            ≡ some (stored ok))
        × InStep
            (take_new (encode buf packet ok i out).1).1
            (extend t (take_new (encode buf packet ok i out).1).0)
  unfolding encode
  decode-encode ok i t out s fits =
      (record_bytes, appended, decoded, (extend-take_new i' t in_step).1)
    where
      record_bytes : Bytes
      record_bytes = (encode buf packet ok i []).0

      i' : Interner
      i' = (encode buf packet ok i []).1

      appended : (encode buf packet ok i out).0 ≡ out ++ (encode buf packet ok i []).0
      appended = refl

      in_step : InStep i' t
      in_step = encode-InStep buf packet ok i t s fits

      resolved : ResolvesIn i' (extend t (take_new i').0)
      resolved = (extend-take_new i' t in_step).0

      sizes :
          (length (t.layers ++ i'.new.layers) ≤ 2 ^ 32)
          × (length (t.descriptors ++ i'.new.descriptors) ≤ 2 ^ 32)
      sizes = omega (arith, in_step.layers.0, in_step.descriptors.0, fits.layers, fits.descriptors)

      decoded : decode record_bytes packet.bytes (extend t (take_new i').0) ≡ some (stored ok)
      decoded =
          decode_resolved ok i (extend t (take_new i').0) resolved
            (unfold extend take_new in sizes.0) (unfold extend take_new in sizes.1)
