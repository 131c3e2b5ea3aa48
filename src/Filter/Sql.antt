-- ===== src/Filter/Sql.antt =====
-- src/sql_filter.rs: SQL expressions, as the parser gives them, converted to filters.
use dsct.Base.{
  ℕ, zero, suc, ◌+◌, ◌*◌, ◌-◌, ◌^◌, ◌≡◌, Bool, true, false, not, ◌&&◌, ◌||◌, Option, none, some,
  List, [], ◌∷◌, ◌++◌, ◌==◌, ltb, leb, if◌then◌else◌, ◌⊎◌, inl, inr,
}
use dsct.Packet.{Bytes}
use dsct.Filter.Numbers.{PacketNumberFilter, from_ranges}
use dsct.Filter.Names.{normalize_protocol_name, items_match}
use dsct.Filter.Expr.{CompareOp, FilterExpr, new_clause}
pub mod Convert
pub mod Meaning
pub mod Comparisons
pub mod Items
pub mod Faithful

pub data BinaryOperator : Type 0 where
  and or eq not_eq lt lt_eq gt gt_eq unsupported : BinaryOperator

pub data UnaryOperator : Type 0 where
  logical_not minus unsupported : UnaryOperator

pub data Value : Type 0 where
  boolean : Bool → Value
  single_quoted double_quoted number : Bytes → Value
  unsupported : Value

-- The parser's expressions: the forms that are looked at, and all others as one.
mutual
  pub data Expr : Type 0 where
    binary_op : Expr → BinaryOperator → Expr → Expr
    unary_op : UnaryOperator → Expr → Expr
    nested : Expr → Expr
    identifier : Bytes → Expr
    compound_identifier : List Bytes → Expr
    between : Expr → Bool → Expr → Expr → Expr
    in_list : Expr → Exprs → Bool → Expr
    literal : Value → Expr
    unsupported : Expr

  pub data Exprs : Type 0 where
    nil : Exprs
    cons : Expr → Exprs → Exprs

-- One constructor for each message.
pub data SqlError : Type 0 where
  bare_true bare_false unsupported_expression unsupported_operator : SqlError
  expected_field_reference unsupported_value expected_literal : SqlError
  requires_integer requires_field always_false empty_list : SqlError

abbrev pub Result : Type 0 → Type 0
Result A = SqlError ⊎ A

infixl 5 ◌>>=◌
abbrev pub ◌>>=◌ : {A B : Type 0} → Result A → (A → Result B) → Result B
inl e >>= f = inl e
inr a >>= f = f a

-- "packet_number"
abbrev pub packet_number_col : Bytes
packet_number_col =
    b'p' ∷ b'a' ∷ b'c' ∷ b'k' ∷ b'e' ∷ b't' ∷ b'_' ∷ b'n' ∷ b'u' ∷ b'm' ∷ b'b' ∷ b'e' ∷ b'r' ∷ []

abbrev pub u64_max : ℕ
u64_max = 2 ^ 64 - 1

-- `str::parse::<u64>`: an optional plus and digits, within the range of the type.
unfoldable pub digits_value : ℕ → Bytes → Option ℕ
digits_value acc [] = some acc
digits_value acc (c ∷ cs) =
    let rest = digits_value (acc * 10 + (c - b'0')) cs in
    if leb b'0' c && leb c b'9' && leb (acc * 10 + (c - b'0')) u64_max then rest else none

unfoldable pub parse_u64 : Bytes → Option ℕ
unfolding digits_value
parse_u64 [] = none
parse_u64 (c ∷ []) = if c == b'+' then none else digits_value 0 (c ∷ [])
parse_u64 (c ∷ (d ∷ ds)) = digits_value 0 (if c == b'+' then d ∷ ds else c ∷ (d ∷ ds))

unfoldable pub maybe_negate : FilterExpr → Bool → FilterExpr
maybe_negate e negated = if negated then FilterExpr.negation e else e

abbrev pub join_dots : List Bytes → Bytes
join_dots [] = []
join_dots (p ∷ []) = p
join_dots (p ∷ (q ∷ ps)) = p ++ (b'.' ∷ join_dots (q ∷ ps))

-- A name, and the field behind it when there is one.
unfoldable pub extract_field_ref : Expr → Result (Bytes × Option Bytes)
extract_field_ref (Expr.identifier name) = inr (name, none)
extract_field_ref (Expr.compound_identifier (p ∷ (q ∷ ps))) = inr (p, some (join_dots (q ∷ ps)))
extract_field_ref _ = inl expected_field_reference

abbrev minus_sign : Result Bytes → Result Bytes
minus_sign (inl e) = inl e
minus_sign (inr v) = inr (b'-' ∷ v)

unfoldable pub extract_value : Expr → Result Bytes
extract_value (Expr.literal (Value.single_quoted s)) = inr s
extract_value (Expr.literal (Value.double_quoted s)) = inr s
extract_value (Expr.literal (Value.number s)) = inr s
extract_value (Expr.literal _) = inl unsupported_value
extract_value (Expr.unary_op UnaryOperator.minus e) = minus_sign (extract_value e)
extract_value _ = inl expected_literal

abbrev one_range : ℕ → ℕ → FilterExpr
one_range lo hi = FilterExpr.packet_number (from_ranges ((lo, hi) ∷ []))

unfoldable pub convert_packet_number_comparison : CompareOp → ℕ → Result FilterExpr
unfolding from_ranges
convert_packet_number_comparison CompareOp.eq n = inr (one_range n n)
convert_packet_number_comparison CompareOp.ge n = inr (one_range n u64_max)
convert_packet_number_comparison CompareOp.gt n =
    if n == u64_max then inl always_false else inr (one_range (n + 1) u64_max)
convert_packet_number_comparison CompareOp.le n = inr (one_range 1 n)
convert_packet_number_comparison CompareOp.lt n =
    if leb n 1 then inl always_false else inr (one_range 1 (n - 1))
convert_packet_number_comparison CompareOp.ne n = inr (FilterExpr.negation (one_range n n))

abbrev pub or_error : Option ℕ → Result ℕ
or_error none = inl requires_integer
or_error (some n) = inr n

abbrev pub integer : Bytes → Result ℕ
integer v = or_error (parse_u64 v)

-- Whether a reference is the virtual column.
abbrev pub is_packet_number : Bytes → Option Bytes → Bool
is_packet_number name none = items_match name packet_number_col
is_packet_number name (some f) = false

abbrev pub named_field : Option Bytes → Result Bytes
named_field none = inl requires_field
named_field (some f) = inr f

abbrev pub clause : Bytes → Bytes → CompareOp → Bytes → FilterExpr
clause name f op v = FilterExpr.where_clause (new_clause name f op v)

abbrev pub compare_op : BinaryOperator → Option CompareOp
compare_op BinaryOperator.eq = some CompareOp.eq
compare_op BinaryOperator.not_eq = some CompareOp.ne
compare_op BinaryOperator.lt = some CompareOp.lt
compare_op BinaryOperator.lt_eq = some CompareOp.le
compare_op BinaryOperator.gt = some CompareOp.gt
compare_op BinaryOperator.gt_eq = some CompareOp.ge
compare_op _ = none
