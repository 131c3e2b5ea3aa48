-- ===== src/Filter/Sql/Convert.antt =====
-- The conversion of src/sql_filter.rs, from the parser's expression to a filter or an error.
use dsct.Base.{ℕ, Bool, true, false, Option, none, some, List, [], ◌∷◌, if◌then◌else◌, inl, inr}
use dsct.Packet.{Bytes}
use dsct.Filter.Numbers.{from_ranges}
use dsct.Filter.Names.{normalize_protocol_name}
use dsct.Filter.Expr.{CompareOp, FilterExpr}
use dsct.Filter.Sql.{
  Expr, Exprs, BinaryOperator, UnaryOperator, Value, SqlError, Result, ◌>>=◌, integer,
  is_packet_number, named_field, clause, compare_op, maybe_negate, extract_field_ref, extract_value,
  convert_packet_number_comparison,
}

-- A comparison, its field reference and its value taken apart.
unfoldable pub compare_ref : CompareOp → Bytes → Option Bytes → Bytes → Result FilterExpr
unfolding convert_packet_number_comparison
compare_ref op name field v =
    if is_packet_number name field
    then (do n ← integer v; convert_packet_number_comparison op n)
    else (do f ← named_field field; inr (clause name f op v))

unfoldable pub convert_comparison : Expr → BinaryOperator → Expr → Result FilterExpr
unfolding extract_field_ref extract_value compare_ref
convert_comparison left op right = elim (compare_op op) [
  | none ↦ inl SqlError.unsupported_operator
  | some c ↦ do ref ← extract_field_ref left; v ← extract_value right; compare_ref c ref.0 ref.1 v
]

unfoldable pub between_ref : Bytes → Option Bytes → Bytes → Bytes → Result FilterExpr
unfolding from_ranges
between_ref name field low high =
    if is_packet_number name field
    then (do
      lo ← integer low
      hi ← integer high
      inr (FilterExpr.packet_number (from_ranges ((lo, hi) ∷ []))))
    else (do
      f ← named_field field
      inr (FilterExpr.and_also (clause name f CompareOp.ge low) (clause name f CompareOp.le high)))

unfoldable pub convert_between : Expr → Bool → Expr → Expr → Result FilterExpr
unfolding extract_field_ref extract_value between_ref maybe_negate
convert_between inner negated low high = do
  ref ← extract_field_ref inner
  lo ← extract_value low
  hi ← extract_value high
  e ← between_ref ref.0 ref.1 lo hi
  inr (maybe_negate e negated)

-- The two loops over the items of a list.
unfoldable pub item_ranges : Exprs → Result (List (ℕ × ℕ))
unfolding extract_value
item_ranges Exprs.nil = inr []
item_ranges (Exprs.cons e es) = do
  v ← extract_value e
  n ← integer v
  ranges ← item_ranges es
  inr ((n, n) ∷ ranges)

unfoldable pub item_clauses : Bytes → Bytes → Exprs → Result (List FilterExpr)
unfolding extract_value
item_clauses name f Exprs.nil = inr []
item_clauses name f (Exprs.cons e es) = do
  v ← extract_value e
  clauses ← item_clauses name f es
  inr (clause name f CompareOp.eq v ∷ clauses)

unfoldable pub or_all : FilterExpr → List FilterExpr → FilterExpr
or_all result [] = result
or_all result (e ∷ es) = or_all (FilterExpr.or_else result e) es

abbrev pub first_or : List FilterExpr → Result FilterExpr
first_or [] = inl SqlError.empty_list
first_or (e ∷ es) = inr (or_all e es)

abbrev pub not_empty : Exprs → Result Unit
not_empty Exprs.nil = inl SqlError.empty_list
not_empty (Exprs.cons e es) = inr tt

unfoldable pub in_list_ref : Bytes → Option Bytes → Exprs → Result FilterExpr
unfolding from_ranges item_ranges item_clauses or_all
in_list_ref name field items =
    if is_packet_number name field
    then (do ranges ← item_ranges items; inr (FilterExpr.packet_number (from_ranges ranges)))
    else (do
      some_items ← not_empty items
      f ← named_field field
      clauses ← item_clauses name f items
      first_or clauses)

unfoldable pub convert_in_list : Expr → Exprs → Bool → Result FilterExpr
unfolding extract_field_ref in_list_ref maybe_negate
convert_in_list inner items negated = do
  ref ← extract_field_ref inner
  e ← in_list_ref ref.0 ref.1 items
  inr (maybe_negate e negated)

-- `l` and `r` are the sides, converted where the operator joins filters.
unfoldable pub convert_binary_op :
    Expr → BinaryOperator → Expr → Result FilterExpr → Result FilterExpr → Result FilterExpr
unfolding convert_comparison
convert_binary_op left BinaryOperator.and right l r = do a ← l; b ← r; inr (FilterExpr.and_also a b)
convert_binary_op left BinaryOperator.or right l r = do a ← l; b ← r; inr (FilterExpr.or_else a b)
convert_binary_op left op right l r = convert_comparison left op right

unfoldable pub convert_expr : Expr → Result FilterExpr
unfolding convert_binary_op convert_between convert_in_list normalize_protocol_name
convert_expr (Expr.binary_op left op right) =
    convert_binary_op left op right (convert_expr left) (convert_expr right)
convert_expr (Expr.unary_op UnaryOperator.logical_not e) = do
  f ← convert_expr e
  inr (FilterExpr.negation f)
convert_expr (Expr.nested e) = convert_expr e
convert_expr (Expr.identifier name) = inr (FilterExpr.protocol (normalize_protocol_name name))
convert_expr (Expr.compound_identifier (p ∷ ps)) =
    inr (FilterExpr.protocol (normalize_protocol_name p))
convert_expr (Expr.between inner negated low high) = convert_between inner negated low high
convert_expr (Expr.in_list inner items negated) = convert_in_list inner items negated
convert_expr (Expr.literal (Value.boolean true)) = inl SqlError.bare_true
convert_expr (Expr.literal (Value.boolean false)) = inl SqlError.bare_false
convert_expr _ = inl SqlError.unsupported_expression
