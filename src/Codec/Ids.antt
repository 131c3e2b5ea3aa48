-- ===== src/Codec/Ids.antt =====
-- The ids of a record (src/session/packet_codec.rs) stay in step with the tables, and keep resolving
-- in tables that grow.
use dsct.Base.{◌^◌, ◌≤◌, Bool, List, [], ◌∷◌, length, get_elem?-append, arith}
use dsct.Packet.{Slice, Layer, Field, DissectBuffer}
use dsct.Owned.{OwnedFieldValue, owned_values}
use dsct.Codec.Intern.{Tables, extend, Interner, take_new, of_layer, layer, descriptor}
use dsct.Codec.Intern.Laws.{InStep, ResolvesIn, Fits, descriptor-ResolvesIn, layer-ResolvesIn}
use dsct.Codec.Encode.{put_layers, put_fields, encode}
use dsct.Codec.Parts.{put_layers-Fits, put_fields-Fits, put_layers-InStep, put_fields-InStep}

-- The tables hold at most 2 ^ 32 entries of each kind.
pub record Few (t : Tables) : Type 0 where
  pub descriptors : length t.descriptors ≤ 2 ^ 32
  pub layers : length t.layers ≤ 2 ^ 32

pub ResolvesIn-extend :
    (i : Interner) (t new : Tables) → ResolvesIn i t → ResolvesIn i (extend t new)
unfolding extend
ResolvesIn-extend i t new r = record {
  descriptors = λ v id e. get_elem?-append t.descriptors new.descriptors id (r.descriptors v id e);
  layers = λ v id e. get_elem?-append t.layers new.layers id (r.layers v id e);
}

put_layers-ResolvesIn :
    (ls : List Layer) (i : Interner) (t : Tables)
    → ResolvesIn (put_layers ls i).1 t
    → ResolvesIn i t
unfolding put_layers
put_layers-ResolvesIn [] i t r = r
put_layers-ResolvesIn (l ∷ ls) i t r =
    (layer-ResolvesIn (of_layer l) i t (put_layers-ResolvesIn ls (layer (of_layer l) i).1 t r)).0

put_fields-ResolvesIn :
    (fs : List Field) (vs : List OwnedFieldValue) (i : Interner) (t : Tables)
    → ResolvesIn (put_fields fs vs i).1 t
    → ResolvesIn i t
unfolding put_fields
put_fields-ResolvesIn [] vs i t r = r
put_fields-ResolvesIn (f ∷ fs) [] i t r = r
put_fields-ResolvesIn (f ∷ fs) (v ∷ vs) i t r =
    (descriptor-ResolvesIn f.descriptor i t
      (put_fields-ResolvesIn fs vs (descriptor f.descriptor i).1 t r)).0

module _ (buf : DissectBuffer) (packet : Slice) (ok : Bool) (i : Interner) where
  -- Tables that resolve the ids after a record is encoded resolve those before.
  pub encode-ResolvesIn : (t : Tables) → ResolvesIn (encode buf packet ok i []).1 t → ResolvesIn i t
  unfolding encode
  encode-ResolvesIn t r =
      let values = (owned_values buf.fields packet buf buf.aux_data).0 in
      put_layers-ResolvesIn buf.layers i t
        (put_fields-ResolvesIn buf.fields values (put_layers buf.layers i).1 t r)

  pub encode-Fits : Fits (encode buf packet ok i []).1 → Fits i
  unfolding encode
  encode-Fits fits =
      let values = (owned_values buf.fields packet buf buf.aux_data).0 in
      put_layers-Fits buf.layers i
        (put_fields-Fits buf.fields values (put_layers buf.layers i).1 fits)

  pub encode-InStep :
      (t : Tables)
      → InStep i t
      → Fits (encode buf packet ok i []).1
      → InStep (encode buf packet ok i []).1 t
  unfolding encode
  encode-InStep t s fits =
      let values = (owned_values buf.fields packet buf buf.aux_data).0 in
      put_fields-InStep buf.fields values (put_layers buf.layers i).1 t
        (put_layers-InStep buf.layers i t s
          (put_fields-Fits buf.fields values (put_layers buf.layers i).1 fits))
        fits

-- Once the new entries are published there are as many as there are ids.
pub published-Few :
    (i : Interner) (t : Tables) → InStep i t → Fits i → Few (extend t (take_new i).0)
unfolding extend take_new
published-Few i t s fits = record {
  descriptors = omega (arith, s.descriptors.0, fits.descriptors);
  layers = omega (arith, s.layers.0, fits.layers);
}
