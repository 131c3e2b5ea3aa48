-- ===== src/Codec/Intern/Laws.antt =====
-- Ids and tables stay in step (src/session/packet_codec.rs, `Interner` and `Tables`).
use dsct.Base.{
  ℕ, ◌^◌, ◌≤◌, ◌<◌, ◌≡◌, refl, ap, sym, ◌∙◌, true, false, Option, none, some, List, [], ◌∷◌, ◌++◌,
  length, arith, get_elem?, get_elem?-append, get_elem?-append_length, length-append, append_assoc,
  append-nil, Option-cases, Bool-cases, inl, inr, subst,
}
use dsct.Base.Hash.{Hashable, word_key, lookup}
use dsct.Packet.{StaticSlice, Descriptor}
use dsct.Codec.Intern.{
  LayerMeta, key, layer_key_hash, Tables, extend, Interner, no_tables, empty_interner, next_id,
  add_descriptor, descriptor, add_layer, layer, take_new,
}

-- Two sets of static parts with the same addresses and lengths are the same.
pub key-injective : (a b : LayerMeta) → key a ≡ key b → a ≡ b
unfolding key
key-injective a b e = go a.display_name b.display_name refl refl
  where
    go : (x y : Option StaticSlice) → a.display_name ≡ x → b.display_name ≡ y → a ≡ b
    go none none p q = ground arith
    go none (some d) p q = ground arith
    go (some c) none p q = ground arith
    go (some c) (some d) p q = ground arith

module _ {ℓ κ} {K : Type ℓ} {V : Type κ} ⦃e : Hashable K⦄ where
  pub lookup-cons_eq :
      (k j : K) (v : V) (m : List (K × V)) → e.same j k ≡ true → lookup k ((j, v) ∷ m) ≡ some v
  unfolding lookup
  lookup-cons_eq k j v m h = rw h

  pub lookup-cons_ne :
      (k j : K) (v : V) (m : List (K × V)) → e.same j k ≡ false → lookup k ((j, v) ∷ m) ≡ lookup k m
  unfolding lookup
  lookup-cons_ne k j v m h = rw h

-- The ids of a map of keys resolve in a table: an id found for a value's key stands for that value.
abbrev pub Resolves {ℓ κ} :
    {K : Type ℓ} {V : Type κ} ⦃e : Hashable K⦄ → (V → K) → List (K × ℕ) → List V → Type κ
Resolves {V = V} key_of ids table =
    (v : V) (id : ℕ) → lookup (key_of v) ids ≡ some id → get_elem? table id ≡ some v

-- A map of ids, and the table of all values that were ever interned.
abbrev pub Tracks {ℓ κ} :
    {K : Type ℓ} {V : Type κ} ⦃e : Hashable K⦄ → (V → K) → List (K × ℕ) → List V → Type κ
Tracks key_of ids table = (length ids ≡ length table) × Resolves key_of ids table

module _ {ℓ κ} {K : Type ℓ} {V : Type κ} ⦃e : Hashable K⦄ (key_of : V → K) where
  -- A fresh key does not disturb the ids that stand already.
  pub lookup-fresh :
      (v w : V) (n id : ℕ) (ids : List (K × ℕ))
      → lookup (key_of v) ids ≡ none
      → lookup (key_of w) ids ≡ some id
      → lookup (key_of w) ((key_of v, n) ∷ ids) ≡ some id
  lookup-fresh v w n id ids fresh found = elim (Bool-cases (e.same (key_of v) (key_of w))) [
    | inl same ↦ absurd (clash (ap (λ k. lookup k ids) ((e.same_iff _ _).0 same)))
    | inr other ↦ lookup-cons_ne (key_of w) (key_of v) n ids other ∙ found
  ]
    where
      clash : lookup (key_of v) ids ≡ lookup (key_of w) ids → ⊥
      clash p = cc

  pub Resolves-before :
      (v : V) (n : ℕ) (ids : List (K × ℕ)) (table : List V)
      → lookup (key_of v) ids ≡ none
      → Resolves key_of ((key_of v, n) ∷ ids) table
      → Resolves key_of ids table
  Resolves-before v n ids table fresh r w id found = r w id (lookup-fresh v w n id ids fresh found)

  pub Tracks-grow :
      ((v w : V) → key_of v ≡ key_of w → v ≡ w)
      → (v : V) (ids : List (K × ℕ)) (table : List V) → length ids < 2 ^ 32
      → Tracks key_of ids table
      → Tracks key_of ((key_of v, next_id ids) ∷ ids) (table ++ (v ∷ []))
  Tracks-grow injective v ids table fits (lengths, resolves) =
      (omega (arith, length-append table (v ∷ []), lengths), go)
    where
      number :
          (w : V) (id : ℕ)
          → lookup (key_of w) ((key_of v, next_id ids) ∷ ids) ≡ some id
          → e.same (key_of v) (key_of w) ≡ true
          → id ≡ length table
      number w id found same =
          let first : id ≡ next_id ids =
            cc (lookup-cons_eq (key_of w) (key_of v) (next_id ids) ids same) in
          omega (arith, first, lengths)

      last :
          (w : V) (id : ℕ) → v ≡ w → id ≡ length table → get_elem? (table ++ (v ∷ [])) id ≡ some w
      last w id same at = rw (at, ← same) (get_elem?-append_length table [] v)

      go : Resolves key_of ((key_of v, next_id ids) ∷ ids) (table ++ (v ∷ []))
      go w id found = elim (Bool-cases (e.same (key_of v) (key_of w))) [
        | inl same ↦ last w id (injective v w ((e.same_iff _ _).0 same)) (number w id found same)
        | inr other ↦
            get_elem?-append table (v ∷ []) id
              (resolves w id (sym (lookup-cons_ne (key_of w) (key_of v) _ ids other) ∙ found))
      ]

-- The interner and the tables that hold all its entries but the new ones.
pub record InStep (i : Interner) (t : Tables) : Type 0 where
  pub descriptors :
      Tracks (λ (d : Descriptor). d) i.descriptor_ids (t.descriptors ++ i.new.descriptors)
  pub layers : Tracks key i.layer_ids (t.layers ++ i.new.layers)

-- Every id of the interner resolves in the tables.
pub record ResolvesIn (i : Interner) (t : Tables) : Type 0 where
  pub descriptors : Resolves (λ (d : Descriptor). d) i.descriptor_ids t.descriptors
  pub layers : Resolves key i.layer_ids t.layers

-- At most 2 ^ 32 ids of each kind are in use, so `len() as u32` loses nothing.
pub record Fits (i : Interner) : Type 0 where
  pub descriptors : length i.descriptor_ids ≤ 2 ^ 32
  pub layers : length i.layer_ids ≤ 2 ^ 32

-- The two ways that a call of `descriptor` or `layer` can go.
pub descriptor_cases {ℓ} :
    (P : ℕ × Interner → Type ℓ) (d : Descriptor) (i : Interner)
    → ((id : ℕ) → lookup d i.descriptor_ids ≡ some id → P (id, i))
    → (lookup d i.descriptor_ids ≡ none → P (next_id i.descriptor_ids, add_descriptor d i))
    → P (descriptor d i)
unfolding descriptor
descriptor_cases P d i found fresh = elim (Option-cases (lookup d i.descriptor_ids)) [
  | inl e ↦ rw (e, descriptor) (fresh e)
  | inr (id, e) ↦ rw (e, descriptor) (found id e)
]

pub layer_cases {ℓ} :
    (P : ℕ × Interner → Type ℓ) (meta : LayerMeta) (i : Interner)
    → ((id : ℕ) → lookup (key meta) i.layer_ids ≡ some id → P (id, i))
    → (lookup (key meta) i.layer_ids ≡ none → P (next_id i.layer_ids, add_layer meta i))
    → P (layer meta i)
unfolding layer
layer_cases P meta i found fresh = elim (Option-cases (lookup (key meta) i.layer_ids)) [
  | inl e ↦ rw (e, layer) (fresh e)
  | inr (id, e) ↦ rw (e, layer) (found id e)
]

-- A call keeps the interner in step with the tables.
pub descriptor-InStep :
    (d : Descriptor) (i : Interner) (t : Tables)
    → InStep i t
    → Fits (descriptor d i).1
    → InStep (descriptor d i).1 t
descriptor-InStep d i t s =
    descriptor_cases (λ r. Fits r.1 → InStep r.1 t) d i (λ id _ _. s)
      λ fresh fits. record {
        descriptors =
            subst (Tracks (λ (d : Descriptor). d) _)
              (append_assoc t.descriptors i.new.descriptors (d ∷ []))
              (Tracks-grow (λ (d : Descriptor). d) (λ v w e. e) d i.descriptor_ids _
                (omega (arith, fits.descriptors)) s.descriptors);
        layers = s.layers;
      }

pub layer-InStep :
    (meta : LayerMeta) (i : Interner) (t : Tables)
    → InStep i t
    → Fits (layer meta i).1
    → InStep (layer meta i).1 t
layer-InStep meta i t s =
    layer_cases (λ r. Fits r.1 → InStep r.1 t) meta i (λ id _ _. s)
      λ fresh fits. record {
        descriptors = s.descriptors;
        layers = subst (Tracks key _) (append_assoc t.layers i.new.layers (meta ∷ [])) (
            Tracks-grow key key-injective meta i.layer_ids _ (omega (arith, fits.layers)) s.layers);
      }

-- If it fits after the call, it did before.
pub descriptor-Fits : (d : Descriptor) (i : Interner) → Fits (descriptor d i).1 → Fits i
descriptor-Fits d i =
    descriptor_cases (λ r. Fits r.1 → Fits i) d i (λ id _ f. f)
      λ _ f. record { descriptors = omega (arith, f.descriptors); layers = f.layers }

pub layer-Fits : (meta : LayerMeta) (i : Interner) → Fits (layer meta i).1 → Fits i
layer-Fits meta i =
    layer_cases (λ r. Fits r.1 → Fits i) meta i (λ id _ f. f)
      λ _ f. record { descriptors = f.descriptors; layers = omega (arith, f.layers) }

-- Tables that resolve the ids after a call resolve those before it, and the id that it returned.
pub descriptor-ResolvesIn :
    (d : Descriptor) (i : Interner) (t : Tables)
    → ResolvesIn (descriptor d i).1 t
    → ResolvesIn i t × (get_elem? t.descriptors (descriptor d i).0 ≡ some d)
descriptor-ResolvesIn d i t =
    descriptor_cases
      (λ r. ResolvesIn r.1 t → ResolvesIn i t × (get_elem? t.descriptors r.0 ≡ some d)) d i
      (λ id found r. (r, r.descriptors d id found))
      λ fresh r. (
        record {
          descriptors =
              Resolves-before (λ (d : Descriptor). d) d _ i.descriptor_ids t.descriptors fresh
                r.descriptors;
          layers = r.layers;
        },
        r.descriptors d _ (lookup-cons_eq d d _ i.descriptor_ids ((word_key.same_iff d d).1 refl)),
      )

pub layer-ResolvesIn :
    (meta : LayerMeta) (i : Interner) (t : Tables)
    → ResolvesIn (layer meta i).1 t
    → ResolvesIn i t × (get_elem? t.layers (layer meta i).0 ≡ some meta)
layer-ResolvesIn meta i t =
    layer_cases (λ r. ResolvesIn r.1 t → ResolvesIn i t × (get_elem? t.layers r.0 ≡ some meta)) meta
      i (λ id found r. (r, r.layers meta id found))
      λ fresh r. (
        record {
          descriptors = r.descriptors;
          layers = Resolves-before key meta _ i.layer_ids t.layers fresh r.layers;
        },
        r.layers meta _ (
            lookup-cons_eq (key meta) (key meta) _ i.layer_ids
              ((layer_key_hash.same_iff (key meta) (key meta)).1 refl)),
      )

-- Extended by the new entries, the reader's tables resolve every id, and the interner stays in step.
pub extend-take_new :
    (i : Interner) (t : Tables)
    → InStep i t
    → ResolvesIn i (extend t (take_new i).0) × InStep (take_new i).1 (extend t (take_new i).0)
unfolding extend take_new
extend-take_new i t s = (
  record { descriptors = s.descriptors.1; layers = s.layers.1 },
  record { descriptors = rw append-nil s.descriptors; layers = rw append-nil s.layers },
)

pub empty-InStep : InStep empty_interner no_tables
unfolding empty_interner lookup
empty-InStep = record { descriptors = (refl, λ v id e. cc); layers = (refl, λ v id e. cc) }
