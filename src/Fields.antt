-- ===== src/Fields.antt =====
-- src/field_iter.rs: the top-level entries of a flat slice of fields.
use dsct.Base.{ℕ, zero, suc, ◌+◌, ◌-◌, ◌≡◌, Option, none, some, List, [], ◌∷◌, get_elem?, ◌>>=◌}
use dsct.Packet.{Field, FieldValue, Slice, Range}
pub mod Trees

pub record TopLevelFields : Type 0 where
  pub fields : List Field
  pub base : ℕ
  pub idx : ℕ

unfoldable pub top_level_fields : List Field → ℕ → TopLevelFields
top_level_fields fields base = record { fields = fields; base = base; idx = 0 }

-- Where the iteration resumes behind a field.
unfoldable pub behind : ℕ → ℕ → FieldValue Slice → ℕ
behind base idx (FieldValue.array range) = range.end - base
behind base idx (FieldValue.object range) = range.end - base
behind base idx _ = idx + 1

-- `Iterator::next`.
unfoldable pub next_field : TopLevelFields → Option (Field × TopLevelFields)
unfolding behind
next_field it = do
  f ← get_elem? it.fields it.idx
  some (f, record it { idx = behind it.base it.idx f.value })

-- What the iteration yields, when `fuel` calls of `next` reach its end.
unfoldable pub collect : ℕ → TopLevelFields → Option (List Field)
unfolding next_field
collect zero it = none
collect (suc fuel) it = elim (next_field it) [
  | none ↦ some []
  | some (f, it') ↦ collect fuel it' >>= λ fs. some (f ∷ fs)
]
