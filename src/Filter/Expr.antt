-- ===== src/Filter/Expr.antt =====
-- src/filter_expr.rs: filter expressions, and `CompareOp` and `WhereClause::new` of src/filter.rs.
use dsct.Base.{
  ℕ, ◌≡◌, refl, ap, ap₂, Bool, true, false, not, ◌&&◌, ◌||◌, List, [], ◌∷◌, ◌==◌, ltb, leb,
  &&-eq-true,
}
use dsct.Packet.{Bytes}
use dsct.Filter.Numbers.{PacketNumberFilter, contains}
use dsct.Filter.Names.{normalize_protocol_name, protocol_names_match}

pub data CompareOp : Type 0 where
  eq ne lt le gt ge : CompareOp

-- `CompareOp::cmp_ord` on unsigned numbers.
unfoldable pub cmp_ord : CompareOp → ℕ → ℕ → Bool
cmp_ord CompareOp.eq actual expected = actual == expected
cmp_ord CompareOp.ne actual expected = not (actual == expected)
cmp_ord CompareOp.lt actual expected = ltb actual expected
cmp_ord CompareOp.le actual expected = leb actual expected
cmp_ord CompareOp.gt actual expected = ltb expected actual
cmp_ord CompareOp.ge actual expected = leb expected actual

-- The cache of parsed values, which is computed from the raw one, is left out.
pub record WhereClause : Type 0 where
  pub protocol : Bytes
  pub field : Bytes
  pub op : CompareOp
  pub parsed : Bytes

unfoldable pub new_clause : Bytes → Bytes → CompareOp → Bytes → WhereClause
unfolding normalize_protocol_name
new_clause protocol field op text = record {
  protocol = normalize_protocol_name protocol;
  field = field;
  op = op;
  parsed = text;
}

pub data FilterExpr : Type 0 where
  protocol : Bytes → FilterExpr
  where_clause : WhereClause → FilterExpr
  and_also or_else : FilterExpr → FilterExpr → FilterExpr
  negation : FilterExpr → FilterExpr
  packet_number : PacketNumberFilter → FilterExpr

-- A packet as filters see it: the names of its layers, and which clauses its fields match.
pub record View : Type 0 where
  pub layer_names : List Bytes
  pub matches_packet : WhereClause → Bool

unfoldable pub any_layer : List Bytes → Bytes → Bool
unfolding protocol_names_match
any_layer [] name = false
any_layer (l ∷ ls) name = protocol_names_match l name || any_layer ls name

unfoldable pub matches_with_number : FilterExpr → View → ℕ → Bool
unfolding any_layer contains
matches_with_number (FilterExpr.protocol name) packet number = any_layer packet.layer_names name
matches_with_number (FilterExpr.where_clause clause) packet number = packet.matches_packet clause
matches_with_number (FilterExpr.and_also a b) packet number =
    matches_with_number a packet number && matches_with_number b packet number
matches_with_number (FilterExpr.or_else a b) packet number =
    matches_with_number a packet number || matches_with_number b packet number
matches_with_number (FilterExpr.negation e) packet number =
    not (matches_with_number e packet number)
matches_with_number (FilterExpr.packet_number f) packet number = contains f number

unfoldable pub is_packet_number_only : FilterExpr → Bool
is_packet_number_only (FilterExpr.packet_number f) = true
is_packet_number_only (FilterExpr.negation e) = is_packet_number_only e
is_packet_number_only (FilterExpr.and_also a b) = is_packet_number_only a && is_packet_number_only b
is_packet_number_only (FilterExpr.or_else a b) = is_packet_number_only a && is_packet_number_only b
is_packet_number_only (FilterExpr.protocol name) = false
is_packet_number_only (FilterExpr.where_clause clause) = false

-- An expression over packet numbers alone needs no dissection: its value is the same for any two packets
-- of the same number.
pub matches_with_number-eq :
    (e : FilterExpr) (p q : View) (number : ℕ)
    → is_packet_number_only e ≡ true
    → matches_with_number e p number ≡ matches_with_number e q number
unfolding matches_with_number is_packet_number_only
matches_with_number-eq (FilterExpr.protocol name) p q number h = absurd (cc h)
matches_with_number-eq (FilterExpr.where_clause clause) p q number h = absurd (cc h)
matches_with_number-eq (FilterExpr.and_also a b) p q number h =
    let (ha, hb) = &&-eq-true _ _ h in
    ap₂ ◌&&◌ (matches_with_number-eq a p q number ha) (matches_with_number-eq b p q number hb)
matches_with_number-eq (FilterExpr.or_else a b) p q number h =
    let (ha, hb) = &&-eq-true _ _ h in
    ap₂ ◌||◌ (matches_with_number-eq a p q number ha) (matches_with_number-eq b p q number hb)
matches_with_number-eq (FilterExpr.negation e) p q number h =
    ap not (matches_with_number-eq e p q number h)
matches_with_number-eq (FilterExpr.packet_number f) p q number h = refl
