-- ===== src/Fields/Trees.antt =====
-- The flat layout of nested fields that src/field_iter.rs walks: a container, then all that it holds.
use dsct.Base.{
  ℕ, zero, suc, ◌+◌, ◌<◌, ◌≡◌, refl, sym, ap, ap₂, ◌∙◌, Bool, true, false, none, some, List, [],
  ◌∷◌, ◌++◌, append_assoc, append-nil, length, length-append, get_elem?, get_elem?-append_length,
  arith,
}
use dsct.Packet.{Field, FieldValue, Slice, Range, Descriptor}
use dsct.Fields.{TopLevelFields, top_level_fields, behind, next_field, collect}

abbrev pub is_container : FieldValue Slice → Bool
is_container (FieldValue.array r) = true
is_container (FieldValue.object r) = true
is_container _ = false

mutual
  pub data Tree : Type 0 where
    leaf : Descriptor → (v : FieldValue Slice) → is_container v ≡ false → Range → Tree
    array_of object_of : Descriptor → Range → Forest → Tree

  pub data Forest : Type 0 where
    nil : Forest
    cons : Tree → Forest → Forest

mutual
  pub size : Tree → ℕ
  size (Tree.leaf d v e r) = 1
  size (Tree.array_of d r ts) = suc (sizes ts)
  size (Tree.object_of d r ts) = suc (sizes ts)

  pub sizes : Forest → ℕ
  sizes Forest.nil = 0
  sizes (Forest.cons t ts) = size t + sizes ts

abbrev children : ℕ → ℕ → Range
children i n = record { start = suc i; end = suc i + n }

-- The field of a tree at index `i`.
abbrev pub root : ℕ → Tree → Field
root i (Tree.leaf d v e r) = record { descriptor = d; value = v; range = r }
root i (Tree.array_of d r ts) = record {
  descriptor = d;
  value = FieldValue.array (children i (sizes ts));
  range = r;
}
root i (Tree.object_of d r ts) = record {
  descriptor = d;
  value = FieldValue.object (children i (sizes ts));
  range = r;
}

mutual
  below : ℕ → Tree → List Field
  below i (Tree.leaf d v e r) = []
  below i (Tree.array_of d r ts) = flatten (suc i) ts
  below i (Tree.object_of d r ts) = flatten (suc i) ts

  -- The fields of a forest from index `i` on.
  pub flatten : ℕ → Forest → List Field
  flatten i Forest.nil = []
  flatten i (Forest.cons t ts) = (root i t ∷ below i t) ++ flatten (i + size t) ts

unfoldable pub roots : ℕ → Forest → List Field
roots i Forest.nil = []
roots i (Forest.cons t ts) = root i t ∷ roots (i + size t) ts

mutual
  unfolding below size

  length-below : (i : ℕ) (t : Tree) → suc (length (below i t)) ≡ size t
  length-below i (Tree.leaf d v e r) = refl
  length-below i (Tree.array_of d r ts) = ap suc (length-flatten (suc i) ts)
  length-below i (Tree.object_of d r ts) = ap suc (length-flatten (suc i) ts)

  length-flatten : (i : ℕ) (ts : Forest) → length (flatten i ts) ≡ sizes ts
  length-flatten i Forest.nil = refl
  length-flatten i (Forest.cons t ts) = omega (
    arith,
    length-append (root i t ∷ below i t) (flatten (i + size t) ts),
    length-below i t,
    length-flatten (i + size t) ts,
  )

-- The iteration resumes behind the whole tree.
behind-root : (base at : ℕ) (t : Tree) → behind base at (root (base + at) t).value ≡ at + size t
unfolding behind size
behind-root base at (Tree.leaf d (FieldValue.u8 v) e r) = refl
behind-root base at (Tree.leaf d (FieldValue.u16 v) e r) = refl
behind-root base at (Tree.leaf d (FieldValue.u32 v) e r) = refl
behind-root base at (Tree.leaf d (FieldValue.u64 v) e r) = refl
behind-root base at (Tree.leaf d (FieldValue.i32 v) e r) = refl
behind-root base at (Tree.leaf d (FieldValue.bytes v) e r) = refl
behind-root base at (Tree.leaf d (FieldValue.str v) e r) = refl
behind-root base at (Tree.leaf d (FieldValue.ipv4_addr v) e r) = refl
behind-root base at (Tree.leaf d (FieldValue.ipv6_addr v) e r) = refl
behind-root base at (Tree.leaf d (FieldValue.mac_addr v) e r) = refl
behind-root base at (Tree.leaf d (FieldValue.array v) e r) = absurd (cc e)
behind-root base at (Tree.leaf d (FieldValue.object v) e r) = absurd (cc e)
behind-root base at (Tree.leaf d (FieldValue.scratch v) e r) = refl
behind-root base at (Tree.array_of d r ts) = omega arith
behind-root base at (Tree.object_of d r ts) = omega arith

next_of :
    (it : TopLevelFields) (f : Field)
    → get_elem? it.fields it.idx ≡ some f
    → next_field it ≡ some (f, record it { idx = behind it.base it.idx f.value })
unfolding next_field
next_of it f here = rw here

next_none : (it : TopLevelFields) → get_elem? it.fields it.idx ≡ none → next_field it ≡ none
unfolding next_field
next_none it out = rw out

step_of :
    (it : TopLevelFields) (fuel : ℕ) (f : Field) (fs : List Field)
    → get_elem? it.fields it.idx ≡ some f
    → collect fuel (record it { idx = behind it.base it.idx f.value }) ≡ some fs
    → collect (suc fuel) it ≡ some (f ∷ fs)
unfolding collect
step_of it fuel f fs here later = rw (next_of it f here, later, collect)

end_of :
    (it : TopLevelFields) (fuel : ℕ)
    → get_elem? it.fields it.idx ≡ none
    → collect (suc fuel) it ≡ some []
unfolding collect
end_of it fuel out = rw (next_none it out, collect)

get_elem?-length {ℓ} : {A : Type ℓ} (xs : List A) → get_elem? xs (length xs) ≡ none
get_elem?-length [] = refl
get_elem?-length (x ∷ xs) = get_elem?-length xs

size-pos : (t : Tree) → 0 < size t
unfolding size
size-pos (Tree.leaf d v e r) = omega arith
size-pos (Tree.array_of d r ts) = omega arith
size-pos (Tree.object_of d r ts) = omega arith

-- From any place between two trees on.
collect_from :
    (ts : Forest) (fields front : List Field) (base at fuel : ℕ)
    → fields ≡ front ++ flatten (base + at) ts
    → at ≡ length front
    → sizes ts < fuel
    → collect fuel (record { fields = fields; base = base; idx = at }) ≡ some (roots (base + at) ts)
unfolding sizes flatten roots
collect_from ts fields front base at zero laid here enough = absurd (omega arith)
collect_from Forest.nil fields front base at (suc fuel) laid here enough =
    end_of _ fuel (ap₂ get_elem? (laid ∙ append-nil front) here ∙ get_elem?-length front)
collect_from (Forest.cons t ts) fields front base at (suc fuel) laid here enough =
    step_of _ fuel _ _
      (ap₂ get_elem? laid here
        ∙ get_elem?-append_length front (below (base + at) t ++ flatten (base + at + size t) ts)
            (root (base + at) t))
      (ap (λ (i : ℕ). collect fuel (record { fields = fields; base = base; idx = i }))
          (behind-root base at t)
        ∙ collect_from ts fields (front ++ (root (base + at) t ∷ below (base + at) t)) base
            (at + size t) fuel
            (laid
              ∙ sym (
                  append_assoc front (root (base + at) t ∷ below (base + at) t)
                    (flatten (base + at + size t) ts))
              ∙ ap
                  (λ (i : ℕ). (front ++ (root (base + at) t ∷ below (base + at) t)) ++ flatten i ts)
                  (omega arith))
            (omega (
              arith,
              here,
              length-append front (root (base + at) t ∷ below (base + at) t),
              length-below (base + at) t,
            ))
            (omega (arith, enough, size-pos t))
        ∙ ap (λ (i : ℕ). some (roots i ts)) (omega arith))

-- The iteration over a layer or a container whose fields are laid out as a forest from `base` on ends,
-- and yields the roots of its trees: the direct entries, in order, and none of what they hold.
pub collect-top_level_fields :
    (ts : Forest) (base : ℕ)
    → collect (suc (length (flatten base ts))) (top_level_fields (flatten base ts) base)
      ≡ some (roots base ts)
unfolding top_level_fields
collect-top_level_fields ts base =
    collect_from ts (flatten base ts) [] base 0 (suc (length (flatten base ts)))
      (ap (λ (i : ℕ). flatten i ts) (omega arith)) refl (omega (arith, length-flatten base ts))
    ∙ ap (λ (i : ℕ). some (roots i ts)) (omega arith)
