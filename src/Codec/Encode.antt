-- ===== src/Codec/Encode.antt =====
-- `encode` of src/session/packet_codec.rs.
use dsct.Base.{ℕ, Bool, true, false, List, [], ◌∷◌, ◌++◌, length}
use dsct.Packet.{Bytes, Slice, Layer, Field, DissectBuffer}
use dsct.Owned.{OwnedFieldValue, owned_values}
use dsct.Codec.Intern.{Interner, of_layer, layer, descriptor}
use dsct.Codec.Write.{put_varint, put_range, put_bytes, put_value}

-- `u8::from(ok)`.
abbrev pub put_ok : Bool → ℕ
put_ok false = 0
put_ok true = 1

-- The loop over the layers: each is its interned id and its two ranges.
unfoldable pub put_layers : List Layer → Interner → Bytes × Interner
put_layers [] interner = ([], interner)
put_layers (l ∷ ls) interner =
    let (id, interner') = layer (of_layer l) interner in
    let (rest, interner'') = put_layers ls interner' in
    ((put_varint id ++ (put_range l.range ++ put_range l.field_range)) ++ rest, interner'')

-- The loop over the fields and their converted values.
unfoldable pub put_fields : List Field → List OwnedFieldValue → Interner → Bytes × Interner
put_fields (f ∷ fs) (v ∷ vs) interner =
    let (id, interner') = descriptor f.descriptor interner in
    let (rest, interner'') = put_fields fs vs interner' in
    ((put_varint id ++ (put_range f.range ++ put_value v)) ++ rest, interner'')
put_fields fs vs interner = ([], interner)

-- The record is appended to `out`; the interner comes back beside it.
unfoldable pub encode : DissectBuffer → Slice → Bool → Interner → Bytes → Bytes × Interner
unfolding put_layers put_fields
encode buf packet ok interner out =
    let (values, aux) = owned_values buf.fields packet buf buf.aux_data in
    let (layers, interner') = put_layers buf.layers interner in
    let (fields, interner'') = put_fields buf.fields values interner' in
    let body =
      put_varint (length buf.layers) ++ (layers ++ (put_varint (length buf.fields) ++ fields)) in
    (out ++ (put_ok ok ∷ (put_bytes aux ++ (put_bytes buf.scratch ++ body))), interner'')
