-- ===== src/Codec/Parts.antt =====
-- The layers and the fields of a record, written and read back (src/session/packet_codec.rs).
use dsct.Base.{
  ℕ, suc, ◌^◌, ◌≤◌, ◌<◌, ◌≡◌, refl, ap, true, some, List, [], ◌∷◌, ◌++◌, length, arith, All,
  get_elem?, get_elem?-lt,
}
use dsct.Packet.{Bytes, Range, Within, Slice, Layer, Field, DissectBuffer}
use dsct.Owned.{OwnedFieldValue, OwnedField, owned_value, owned_values, zip_fields}
use dsct.Owned.Faithful.{InRange}
use dsct.Codec.Intern.{of_layer, Tables, Interner, descriptor, layer}
use dsct.Codec.Intern.Laws.{
  InStep, ResolvesIn, Fits, descriptor-ResolvesIn, layer-ResolvesIn, descriptor-InStep,
  layer-InStep, descriptor-Fits, layer-Fits,
}
use dsct.Codec.Write.{put_varint, put_range, put_value}
use dsct.Codec.Read.{read_usize, read_u32, read_range}
use dsct.Codec.Encode.{put_layers, put_fields}
use dsct.Codec.Decode.{read_layer, read_layers, read_value, read_field, read_fields, ranges_fit}
use dsct.Codec.Reads.{
  Reads, Reads-bind, Reads-last, Reads-lift, Reads-usize, Reads-u32, Reads-range,
}
use dsct.Codec.Values.{Valid, ValidBorrowed, owned_value-Valid, Reads-value}

-- A range of `usize`.
abbrev pub IsRange : Range → Type 0
IsRange r = (r.start < 2 ^ 64) × (r.end < 2 ^ 64)

abbrev pub ValidLayer : ℕ → Layer → Type 0
ValidLayer count l = IsRange l.range × Within count l.field_range × (l.field_range.end < 2 ^ 32)

-- Two `u32` in a row, as `decode` reads a layer's field range.
module _ (t : Tables) (few : length t.layers ≤ 2 ^ 32) where
  Reads-layer :
      (count id : ℕ) (l : Layer)
      → get_elem? t.layers id ≡ some (of_layer l)
      → ValidLayer count l
      → Reads (read_layer t) (put_varint id ++ (put_range l.range ++ put_range l.field_range)) l
  unfolding read_layer put_range of_layer
  Reads-layer count id l found (r, w, small) =
      Reads-bind read_usize _ (put_varint id) _ id l
        (Reads-usize id (omega (arith, get_elem?-lt t.layers id found)))
        (Reads-lift (get_elem? t.layers id) _ _ (of_layer l) l found (
          Reads-bind read_range _ (put_range l.range) _ l.range l (Reads-range l.range r.0 r.1) (
            Reads-bind read_u32 _ (put_varint l.field_range.start) _ l.field_range.start l
              (Reads-u32 l.field_range.start (omega arith))
              (Reads-last read_u32 _ (put_varint l.field_range.end) l.field_range.end l
                (Reads-u32 l.field_range.end small) (λ rest. refl)))))

  pub Reads-layers :
      (count : ℕ) (ls : List Layer) (i : Interner)
      → ResolvesIn (put_layers ls i).1 t
      → All (ValidLayer count) ls
      → Reads (read_layers (length ls) t) (put_layers ls i).0 ls × ResolvesIn i t
  unfolding put_layers read_layers
  Reads-layers count [] i r h = (record { at = λ rest. refl }, r)
  Reads-layers count (l ∷ ls) i r (h, hs) =
      let (reads, r') = Reads-layers count ls (layer (of_layer l) i).1 r hs in
      let (r'', found) = layer-ResolvesIn (of_layer l) i t r' in
      (
        Reads-bind (read_layer t) _ _ _ l (l ∷ ls)
            (Reads-layer count (layer (of_layer l) i).0 l found h)
            (Reads-last (read_layers (length ls) t) _ _ ls (l ∷ ls) reads (λ rest. refl)),
        r'',
      )

module _ (t : Tables) (few : length t.descriptors ≤ 2 ^ 32) (d a : Bytes) (s c : ℕ)
    (data_fits : length d < 2 ^ 64) (aux_fits : length a < 2 ^ 64) where
  Reads-field :
      (id : ℕ) (f : Field) (v : OwnedFieldValue)
      → get_elem? t.descriptors id ≡ some f.descriptor
      → IsRange f.range
      → InRange d a v
      → Valid c s v
      → Reads
          (read_field d a s c t)
          (put_varint id ++ (put_range f.range ++ put_value v))
          (record { descriptor = f.descriptor; value = v; range = f.range })
  unfolding read_field
  Reads-field id f v found r w valid =
      let field : OwnedField = record { descriptor = f.descriptor; value = v; range = f.range } in
      Reads-bind read_usize _ (put_varint id) _ id field
        (Reads-usize id (omega (arith, get_elem?-lt t.descriptors id found)))
        (Reads-lift (get_elem? t.descriptors id) _ _ f.descriptor field found (
          Reads-bind read_range _ (put_range f.range) _ f.range field (Reads-range f.range r.0 r.1)
            (Reads-last (read_value d a s c) _ (put_value v) v field
              (Reads-value d a s c v data_fits aux_fits w valid) (λ rest. refl))))

  pub Reads-fields :
      (fs : List Field) (vs : List OwnedFieldValue) (i : Interner)
      → length vs ≡ length fs
      → ResolvesIn (put_fields fs vs i).1 t
      → All (λ f. IsRange f.range) fs
      → All (InRange d a) vs
      → All (Valid c s) vs
      → Reads (read_fields (length fs) d a s c t) (put_fields fs vs i).0 (zip_fields fs vs)
        × ResolvesIn i t
  unfolding put_fields read_fields zip_fields
  Reads-fields [] vs i e r h w valid = (record { at = λ rest. refl }, r)
  Reads-fields (f ∷ fs) [] i e r h w valid = absurd (omega arith)
  Reads-fields (f ∷ fs) (v ∷ vs) i e r (h, hs) (w, ws) (valid, valids) =
      let (reads, r') =
        Reads-fields fs vs (descriptor f.descriptor i).1 (omega arith) r hs ws valids in
      let (r'', found) = descriptor-ResolvesIn f.descriptor i t r' in
      let field : OwnedField = record { descriptor = f.descriptor; value = v; range = f.range } in
      (
        Reads-bind (read_field d a s c t) _ _ _ field (field ∷ zip_fields fs vs)
            (Reads-field (descriptor f.descriptor i).0 f v found h w valid)
            (Reads-last (read_fields (length fs) d a s c t) _ _ (zip_fields fs vs)
              (field ∷ zip_fields fs vs) reads (λ rest. refl)),
        r'',
      )

-- If the ids fit in the end, they did before, and the interner stays in step throughout.
pub put_layers-Fits : (ls : List Layer) (i : Interner) → Fits (put_layers ls i).1 → Fits i
unfolding put_layers
put_layers-Fits [] i fits = fits
put_layers-Fits (l ∷ ls) i fits =
    layer-Fits (of_layer l) i (put_layers-Fits ls (layer (of_layer l) i).1 fits)

pub put_layers-InStep :
    (ls : List Layer) (i : Interner) (t : Tables)
    → InStep i t
    → Fits (put_layers ls i).1
    → InStep (put_layers ls i).1 t
unfolding put_layers
put_layers-InStep [] i t s fits = s
put_layers-InStep (l ∷ ls) i t s fits =
    put_layers-InStep ls (layer (of_layer l) i).1 t
      (layer-InStep (of_layer l) i t s (put_layers-Fits ls (layer (of_layer l) i).1 fits)) fits

pub put_fields-Fits :
    (fs : List Field) (vs : List OwnedFieldValue) (i : Interner)
    → Fits (put_fields fs vs i).1
    → Fits i
unfolding put_fields
put_fields-Fits [] vs i fits = fits
put_fields-Fits (f ∷ fs) [] i fits = fits
put_fields-Fits (f ∷ fs) (v ∷ vs) i fits =
    descriptor-Fits f.descriptor i (put_fields-Fits fs vs (descriptor f.descriptor i).1 fits)

pub put_fields-InStep :
    (fs : List Field) (vs : List OwnedFieldValue) (i : Interner) (t : Tables)
    → InStep i t
    → Fits (put_fields fs vs i).1
    → InStep (put_fields fs vs i).1 t
unfolding put_fields
put_fields-InStep [] vs i t s fits = s
put_fields-InStep (f ∷ fs) [] i t s fits = s
put_fields-InStep (f ∷ fs) (v ∷ vs) i t s fits =
    put_fields-InStep fs vs (descriptor f.descriptor i).1 t
      (descriptor-InStep f.descriptor i t s
        (put_fields-Fits fs vs (descriptor f.descriptor i).1 fits))
      fits

pub owned_values_lengths :
    (fs : List Field) (packet : Slice) (buf : DissectBuffer) (aux : Bytes)
    → length (owned_values fs packet buf aux).0 ≡ length fs
unfolding owned_values
owned_values_lengths [] packet buf aux = refl
owned_values_lengths (f ∷ fs) packet buf aux =
    ap suc (owned_values_lengths fs packet buf (owned_value f.value packet buf aux).1)

pub owned_values-Valid :
    (count s : ℕ) (fs : List Field) (packet : Slice) (buf : DissectBuffer) (aux : Bytes)
    → All (λ f. ValidBorrowed count s f.value) fs
    → All (Valid count s) (owned_values fs packet buf aux).0
unfolding owned_values
owned_values-Valid count s [] packet buf aux h = tt
owned_values-Valid count s (f ∷ fs) packet buf aux (h, hs) = (
  owned_value-Valid count s f.value packet buf aux h,
  owned_values-Valid count s fs packet buf _ hs,
)

pub length-zip_fields :
    (fs : List Field) (vs : List OwnedFieldValue)
    → length vs ≡ length fs
    → length (zip_fields fs vs) ≡ length fs
unfolding zip_fields
length-zip_fields [] vs e = refl
length-zip_fields (f ∷ fs) [] e = absurd (omega arith)
length-zip_fields (f ∷ fs) (v ∷ vs) e = ap suc (length-zip_fields fs vs (omega arith))

pub ranges_fit_of_valid :
    (count : ℕ) (ls : List Layer) → All (ValidLayer count) ls → ranges_fit count ls ≡ true
unfolding ranges_fit
ranges_fit_of_valid count [] h = refl
ranges_fit_of_valid count (l ∷ ls) (h, hs) = ground (arith, ranges_fit_of_valid count ls hs)
