-- ===== src/Filter/Sql/Meaning.antt =====
-- What an SQL condition of src/sql_filter.rs says of a packet, stated without filters.
use dsct.Base.{ℕ, Bool, false, not, ◌&&◌, ◌||◌, Option, none, some, ◌∷◌, if◌then◌else◌, inl, inr}
use dsct.Packet.{Bytes}
use dsct.Filter.Expr.{CompareOp, View, cmp_ord, new_clause, any_layer}
use dsct.Filter.Sql.{
  Expr, Exprs, BinaryOperator, UnaryOperator, parse_u64, is_packet_number, compare_op,
  extract_field_ref, extract_value,
}

module _ (packet : View) (number : ℕ) where
  -- A number compared as written, or a field compared by its clause.
  unfoldable pub compares_to : CompareOp → Bytes → Option Bytes → Bytes → Bool
  unfolding parse_u64 cmp_ord new_clause
  compares_to op name field v =
      if is_packet_number name field
      then elim (parse_u64 v) [ none ↦ false | some n ↦ cmp_ord op number n ]
      else elim field [ none ↦ false | some f ↦ packet.matches_packet (new_clause name f op v) ]

  unfoldable pub compares : CompareOp → Expr → Expr → Bool
  unfolding compares_to extract_field_ref extract_value
  compares op left right = elim (extract_field_ref left) [
    | inl e ↦ false
    | inr (name, field) ↦ elim (extract_value right) [
      | inl e ↦ false
      | inr v ↦ compares_to op name field v
    ]
  ]

  unfoldable pub equals_any : Expr → Exprs → Bool
  unfolding compares
  equals_any left Exprs.nil = false
  equals_any left (Exprs.cons e es) = compares CompareOp.eq left e || equals_any left es

  abbrev pub negated_if : Bool → Bool → Bool
  negated_if negated b = if negated then not b else b

  unfoldable pub holds : Expr → Bool
  unfolding compares equals_any any_layer
  holds (Expr.binary_op l BinaryOperator.and r) = holds l && holds r
  holds (Expr.binary_op l BinaryOperator.or r) = holds l || holds r
  holds (Expr.binary_op l op r) = elim (compare_op op) [ none ↦ false | some c ↦ compares c l r ]
  holds (Expr.unary_op UnaryOperator.logical_not e) = not (holds e)
  holds (Expr.nested e) = holds e
  holds (Expr.identifier name) = any_layer packet.layer_names name
  holds (Expr.compound_identifier (p ∷ ps)) = any_layer packet.layer_names p
  holds (Expr.between e negated low high) =
      negated_if negated (compares CompareOp.ge e low && compares CompareOp.le e high)
  holds (Expr.in_list e items negated) = negated_if negated (equals_any e items)
  holds _ = false
