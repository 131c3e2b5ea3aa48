-- ===== src/Examples/Filter.antt =====
-- Witnesses for src/filter.rs, src/filter_expr.rs and src/sql_filter.rs.
use dsct.Base.{ℕ, ◌≡◌, ◌↔◌, refl, true, false, List, [], ◌∷◌, inl, inr, arith}
use dsct.Packet.{Bytes}
use dsct.Filter.Names.{items_match, protocol_names_match, normalize_protocol_name}
use dsct.Filter.Letters.{letters, protocol_names_match-letters}
use dsct.Filter.Numbers.{from_ranges}
use dsct.Filter.Expr.{
  CompareOp, FilterExpr, View, cmp_ord, matches_with_number, is_packet_number_only,
  matches_with_number-eq,
}
use dsct.Filter.Sql.{
  Expr, BinaryOperator, UnaryOperator, Value, SqlError, packet_number_col, parse_u64,
  convert_packet_number_comparison,
}
use dsct.Filter.Sql.Convert.{convert_expr}
use dsct.Filter.Sql.Meaning.{holds}
use dsct.Filter.Sql.Comparisons.{convert_packet_number_comparison-eq-error}
use dsct.Filter.Sql.Faithful.{convert_expr-holds}

-- GTPv2-C
abbrev gtp : Bytes
gtp = b'G' ∷ b'T' ∷ b'P' ∷ b'v' ∷ b'2' ∷ b'-' ∷ b'C' ∷ []

abbrev number : List ℕ → Expr
number digits = Expr.literal (Value.number digits)

-- packet_number BETWEEN 2 AND 5 AND NOT gtpv2c
abbrev condition : Expr
condition =
    Expr.binary_op
      (Expr.between (Expr.identifier packet_number_col) false (number (b'2' ∷ []))
        (number (b'5' ∷ [])))
      BinaryOperator.and (Expr.unary_op UnaryOperator.logical_not (Expr.identifier gtp))

abbrev two_to_five : FilterExpr
two_to_five = FilterExpr.packet_number (from_ranges ((2, 5) ∷ []))

abbrev filter : FilterExpr
filter =
    FilterExpr.and_also two_to_five
      (FilterExpr.negation (FilterExpr.protocol (normalize_protocol_name gtp)))

-- A packet of one layer, tcp.
abbrev tcp : View
tcp = record { layer_names = (b't' ∷ b'c' ∷ b'p' ∷ []) ∷ []; matches_packet = λ clause. false }

abbrev bare : View
bare = record { layer_names = []; matches_packet = λ clause. true }

converted : convert_expr condition ≡ inr filter
unfolding convert_expr items_match parse_u64
converted = refl

passes : matches_with_number filter tcp 3 ≡ true
unfolding matches_with_number normalize_protocol_name from_ranges
passes = refl

convert_expr-holds_example : matches_with_number filter tcp 3 ≡ holds tcp 3 condition
convert_expr-holds_example =
    convert_expr-holds tcp 3 (omega arith) (omega arith) condition converted

refused : convert_packet_number_comparison CompareOp.lt 1 ≡ inl SqlError.always_false
unfolding convert_packet_number_comparison
refused = refl

convert_packet_number_comparison-eq-error_example : cmp_ord CompareOp.lt 7 1 ≡ false
convert_packet_number_comparison-eq-error_example =
    convert_packet_number_comparison-eq-error CompareOp.lt 1 7 SqlError.always_false refused
      (omega arith) (omega arith)

numbers_only : is_packet_number_only two_to_five ≡ true
unfolding is_packet_number_only
numbers_only = refl

matches_with_number-eq_example :
    matches_with_number two_to_five tcp 3 ≡ matches_with_number two_to_five bare 3
matches_with_number-eq_example = matches_with_number-eq two_to_five tcp bare 3 numbers_only

protocol_names_match-letters_example :
    (normalize_protocol_name gtp ≡ letters gtp)
    × ((protocol_names_match gtp (normalize_protocol_name gtp) ≡ true)
        ↔ (letters gtp ≡ letters (normalize_protocol_name gtp)))
protocol_names_match-letters_example =
    protocol_names_match-letters gtp (normalize_protocol_name gtp)
