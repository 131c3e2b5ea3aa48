-- ===== src/Codec/Again.antt =====
-- Static parts are interned once across records (src/session/packet_codec.rs).
use dsct.Base.{ℕ, ◌≡◌, refl, Bool, some, List, [], ◌∷◌}
use dsct.Base.Hash.{word_key, lookup}
use dsct.Packet.{Slice, Layer, Field, DissectBuffer, Descriptor}
use dsct.Owned.{OwnedFieldValue, owned_values}
use dsct.Codec.Intern.{
  LayerMeta, key, layer_key_hash, of_layer, Interner, no_tables, next_id, descriptor, layer,
  take_new,
}
use dsct.Codec.Intern.Laws.{lookup-cons_eq, lookup-fresh, descriptor_cases, layer_cases}
use dsct.Codec.Encode.{put_layers, put_fields, encode}

-- `j` knows every id that `i` knows.
record Extends (i j : Interner) : Type 0 where
  descriptors :
      (d : Descriptor) (id : ℕ)
      → lookup d i.descriptor_ids ≡ some id
      → lookup d j.descriptor_ids ≡ some id
  layers :
      (meta : LayerMeta) (id : ℕ)
      → lookup (key meta) i.layer_ids ≡ some id
      → lookup (key meta) j.layer_ids ≡ some id

Extends-refl : (i : Interner) → Extends i i
Extends-refl i = record { descriptors = λ d id e. e; layers = λ m id e. e }

Extends-trans : (i j k : Interner) → Extends i j → Extends j k → Extends i k
Extends-trans i j k p q = record {
  descriptors = λ d id e. q.descriptors d id (p.descriptors d id e);
  layers = λ m id e. q.layers m id (p.layers m id e);
}

-- After a call the interner knows the id that it returned, and all that it knew before.
layer_known :
    (meta : LayerMeta) (i : Interner)
    → (lookup (key meta) (layer meta i).1.layer_ids ≡ some (layer meta i).0)
      × Extends i (layer meta i).1
layer_known meta i =
    layer_cases (λ r. (lookup (key meta) r.1.layer_ids ≡ some r.0) × Extends i r.1) meta i
      (λ id found. (found, Extends-refl i))
      λ fresh. (
        lookup-cons_eq (key meta) (key meta) (next_id i.layer_ids) i.layer_ids
            ((layer_key_hash.same_iff (key meta) (key meta)).1 refl),
        record {
          descriptors = λ d id e. e;
          layers = λ m id e. lookup-fresh key meta m (next_id i.layer_ids) id i.layer_ids fresh e;
        },
      )

descriptor_known :
    (d : Descriptor) (i : Interner)
    → (lookup d (descriptor d i).1.descriptor_ids ≡ some (descriptor d i).0)
      × Extends i (descriptor d i).1
descriptor_known d i =
    descriptor_cases (λ r. (lookup d r.1.descriptor_ids ≡ some r.0) × Extends i r.1) d i
      (λ id found. (found, Extends-refl i))
      λ fresh. (
        lookup-cons_eq d d (next_id i.descriptor_ids) i.descriptor_ids
            ((word_key.same_iff d d).1 refl),
        record {
          descriptors = λ e id h.
              lookup-fresh (λ (x : Descriptor). x) d e (next_id i.descriptor_ids) id
                i.descriptor_ids fresh h;
          layers = λ m id e. e;
        },
      )

layer_again :
    (meta : LayerMeta) (j : Interner) {id : ℕ}
    → lookup (key meta) j.layer_ids ≡ some id
    → layer meta j ≡ (id, j)
unfolding layer
layer_again meta j e = rw (e, layer)

descriptor_again :
    (d : Descriptor) (j : Interner) {id : ℕ}
    → lookup d j.descriptor_ids ≡ some id
    → descriptor d j ≡ (id, j)
unfolding descriptor
descriptor_again d j e = rw (e, descriptor)

put_layers-Extends : (ls : List Layer) (i : Interner) → Extends i (put_layers ls i).1
unfolding put_layers
put_layers-Extends [] i = Extends-refl i
put_layers-Extends (l ∷ ls) i =
    Extends-trans i (layer (of_layer l) i).1 _ (layer_known (of_layer l) i).1
      (put_layers-Extends ls (layer (of_layer l) i).1)

put_fields-Extends :
    (fs : List Field) (vs : List OwnedFieldValue) (i : Interner) → Extends i (put_fields fs vs i).1
unfolding put_fields
put_fields-Extends [] vs i = Extends-refl i
put_fields-Extends (f ∷ fs) [] i = Extends-refl i
put_fields-Extends (f ∷ fs) (v ∷ vs) i =
    Extends-trans i (descriptor f.descriptor i).1 _ (descriptor_known f.descriptor i).1
      (put_fields-Extends fs vs (descriptor f.descriptor i).1)

-- With an interner that knows the ids already, the same bytes come out and the interner is left alone.
put_layers_again :
    (ls : List Layer) (i j : Interner)
    → Extends (put_layers ls i).1 j
    → put_layers ls j ≡ ((put_layers ls i).0, j)
unfolding put_layers
put_layers_again [] i j h = refl
put_layers_again (l ∷ ls) i j h =
    let i' = (layer (of_layer l) i).1 in
    let (known, before) = layer_known (of_layer l) i in
    let all : Extends i' j = Extends-trans i' (put_layers ls i').1 j (put_layers-Extends ls i') h in
    rw (layer_again (of_layer l) j (all.layers (of_layer l) _ known), put_layers_again ls i' j h)

put_fields_again :
    (fs : List Field) (vs : List OwnedFieldValue) (i j : Interner)
    → Extends (put_fields fs vs i).1 j
    → put_fields fs vs j ≡ ((put_fields fs vs i).0, j)
unfolding put_fields
put_fields_again [] vs i j h = refl
put_fields_again (f ∷ fs) [] i j h = refl
put_fields_again (f ∷ fs) (v ∷ vs) i j h =
    let i' = (descriptor f.descriptor i).1 in
    let (known, before) = descriptor_known f.descriptor i in
    let all : Extends i' j =
      Extends-trans i' (put_fields fs vs i').1 j (put_fields-Extends fs vs i') h in
    rw (
      descriptor_again f.descriptor j (all.descriptors f.descriptor _ known),
      put_fields_again fs vs i' j h,
    )

-- Encoding the same buffer a second time, with the interner left by the first time and its new
-- entries taken, appends the same bytes and adds no entry.
pub encode_again :
    (buf : DissectBuffer) (packet : Slice) (ok : Bool) (i : Interner)
    → encode buf packet ok (take_new (encode buf packet ok i []).1).1 []
      ≡ ((encode buf packet ok i []).0, (take_new (encode buf packet ok i []).1).1)
unfolding encode take_new
encode_again buf packet ok i = rw (
  put_layers_again buf.layers i j layers_known,
  put_fields_again buf.fields values (put_layers buf.layers i).1 j fields_known,
)
  where
    values : List OwnedFieldValue
    values = (owned_values buf.fields packet buf buf.aux_data).0

    last : Interner
    last = (put_fields buf.fields values (put_layers buf.layers i).1).1

    j : Interner
    j = record last { new = no_tables }

    fields_known : Extends last j
    fields_known = record { descriptors = λ d id e. e; layers = λ m id e. e }

    layers_known : Extends (put_layers buf.layers i).1 j
    layers_known =
        Extends-trans (put_layers buf.layers i).1 last j
          (put_fields-Extends buf.fields values (put_layers buf.layers i).1) fields_known
