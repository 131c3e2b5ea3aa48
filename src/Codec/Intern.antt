-- ===== src/Codec/Intern.antt =====
-- The interning of static parts in src/session/packet_codec.rs: `LayerMeta`, `Tables`, `Interner`.
pub mod Laws
use dsct.Base.{
  ℕ, suc, zero, ◌+◌, ◌%◌, ◌^◌, ◌≡◌, refl, ◌↔◌, Bool, true, false, ◌&&◌, Option, none, some, List,
  [], ◌∷◌, ◌++◌, ◌==◌, length, arith,
}
use dsct.Base.Hash.{Hashable, word_key, lookup}
use dsct.Packet.{StaticSlice, Descriptor, Layer}

-- The static parts of a layer.
pub record LayerMeta : Type 0 where
  pub name : StaticSlice
  pub display_name : Option StaticSlice
  pub field_descriptors : StaticSlice

-- Addresses and lengths of the parts.
pub record LayerKey : Type 0 where
  pub name_ptr : ℕ
  pub name_len : ℕ
  pub display : Option (ℕ × ℕ)
  pub fields_ptr : ℕ
  pub fields_len : ℕ

-- `LayerMeta::of`.
unfoldable pub of_layer : Layer → LayerMeta
of_layer l = record {
  name = l.name;
  display_name = l.display_name;
  field_descriptors = l.field_descriptors;
}

abbrev display_key : Option StaticSlice → Option (ℕ × ℕ)
display_key none = none
display_key (some d) = some (d.ptr, d.len)

unfoldable pub key : LayerMeta → LayerKey
key m = record {
  name_ptr = m.name.ptr;
  name_len = m.name.len;
  display = display_key m.display_name;
  fields_ptr = m.field_descriptors.ptr;
  fields_len = m.field_descriptors.len;
}

abbrev display_eq : Option (ℕ × ℕ) → Option (ℕ × ℕ) → Bool
display_eq none none = true
display_eq (some (a, b)) (some (c, d)) = a == c && b == d
display_eq _ _ = false

display_eq_iff : (a b : Option (ℕ × ℕ)) → (display_eq a b ≡ true) ↔ (a ≡ b)
display_eq_iff none none = ground arith
display_eq_iff none (some b) = ground arith
display_eq_iff (some a) none = ground arith
display_eq_iff (some (a, b)) (some (c, d)) = ground arith

abbrev layer_key_eq : LayerKey → LayerKey → Bool
layer_key_eq a b =
    a.name_ptr == b.name_ptr
    && a.name_len == b.name_len
    && display_eq a.display b.display
    && a.fields_ptr == b.fields_ptr
    && a.fields_len == b.fields_len

pub layer_key_eq_iff : (a b : LayerKey) → (layer_key_eq a b ≡ true) ↔ (a ≡ b)
layer_key_eq_iff a b = ground (arith, display_eq_iff a.display b.display)

instance abbrev pub layer_key_hash : Hashable LayerKey
layer_key_hash = record { same = layer_key_eq; same_iff = layer_key_eq_iff }

-- The reader's tables: interned values, indexed by their ids.
pub record Tables : Type 0 where
  pub descriptors : List Descriptor
  pub layers : List LayerMeta

-- `Tables::extend`.
unfoldable pub extend : Tables → Tables → Tables
extend t new = record {
  descriptors = t.descriptors ++ new.descriptors;
  layers = t.layers ++ new.layers;
}

pub record Interner : Type 0 where
  pub descriptor_ids : List (Descriptor × ℕ)
  pub layer_ids : List (LayerKey × ℕ)
  -- The entries added since the last `take_new`.
  pub new : Tables

abbrev pub no_tables : Tables
no_tables = record { descriptors = []; layers = [] }

-- `Interner::default()`.
unfoldable pub empty_interner : Interner
empty_interner = record { descriptor_ids = []; layer_ids = []; new = no_tables }

-- `len() as u32`.
abbrev pub next_id {ℓ} : {K : Type ℓ} → List (K × ℕ) → ℕ
next_id ids = length ids % 2 ^ 32

abbrev pub add_descriptor : Descriptor → Interner → Interner
add_descriptor d i = record i {
  descriptor_ids = (d, next_id i.descriptor_ids) ∷ i.descriptor_ids;
  new = record { descriptors = i.new.descriptors ++ (d ∷ []); layers = i.new.layers };
}

-- `Interner::descriptor`: the id of a descriptor, a new one on its first use.
unfoldable pub descriptor : Descriptor → Interner → ℕ × Interner
descriptor d i = elim (lookup d i.descriptor_ids) [
  | some id ↦ (id, i)
  | none ↦ (next_id i.descriptor_ids, add_descriptor d i)
]

abbrev pub add_layer : LayerMeta → Interner → Interner
add_layer meta i = record i {
  layer_ids = (key meta, next_id i.layer_ids) ∷ i.layer_ids;
  new = record { descriptors = i.new.descriptors; layers = i.new.layers ++ (meta ∷ []) };
}

-- `Interner::layer`.
unfoldable pub layer : LayerMeta → Interner → ℕ × Interner
layer meta i = elim (lookup (key meta) i.layer_ids) [
  | some id ↦ (id, i)
  | none ↦ (next_id i.layer_ids, add_layer meta i)
]

-- `Interner::take_new`: the new entries, and the interner without them.
unfoldable pub take_new : Interner → Tables × Interner
take_new i = (i.new, record i { new = no_tables })
