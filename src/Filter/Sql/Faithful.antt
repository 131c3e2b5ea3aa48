-- ===== src/Filter/Sql/Faithful.antt =====
-- The filter that src/sql_filter.rs makes of an SQL condition means what the condition says.
use dsct.Base.{
  ℕ, ◌≤◌, ◌<◌, ◌≡◌, refl, ap, subst, Bool, true, false, not, ◌&&◌, ◌||◌, [], ◌∷◌, inl, inr,
}
use dsct.Filter.Expr.{FilterExpr, View, matches_with_number}
use dsct.Filter.Sql.{Expr, BinaryOperator, UnaryOperator, Value, Result, ◌>>=◌, u64_max}
use dsct.Filter.Sql.Convert.{convert_binary_op, convert_expr}
use dsct.Filter.Sql.Meaning.{holds}
use dsct.Filter.Sql.Comparisons.{
  Means, Means-joined, any_layer-normalize, Means-comparison, Means-between,
}
use dsct.Filter.Sql.Items.{Means-in_list}

module _ (packet : View) (k : ℕ) (low : 0 < k) (high : k ≤ u64_max) where
  Means-binary_op :
      (l : Expr) (op : BinaryOperator) (r : Expr)
      → Means packet k (convert_expr l) (holds packet k l)
      → Means packet k (convert_expr r) (holds packet k r)
      → Means packet k
          (convert_expr (Expr.binary_op l op r))
          (holds packet k (Expr.binary_op l op r))
  unfolding convert_expr convert_binary_op holds matches_with_number
  Means-binary_op l BinaryOperator.and r hl hr =
      Means-joined packet k (convert_expr l) (convert_expr r) FilterExpr.and_also ◌&&◌ _ _
        (λ f g. refl) hl hr
  Means-binary_op l BinaryOperator.or r hl hr =
      Means-joined packet k (convert_expr l) (convert_expr r) FilterExpr.or_else ◌||◌ _ _
        (λ f g. refl) hl hr
  Means-binary_op l BinaryOperator.eq r hl hr =
      Means-comparison packet k low high l BinaryOperator.eq r
  Means-binary_op l BinaryOperator.not_eq r hl hr =
      Means-comparison packet k low high l BinaryOperator.not_eq r
  Means-binary_op l BinaryOperator.lt r hl hr =
      Means-comparison packet k low high l BinaryOperator.lt r
  Means-binary_op l BinaryOperator.lt_eq r hl hr =
      Means-comparison packet k low high l BinaryOperator.lt_eq r
  Means-binary_op l BinaryOperator.gt r hl hr =
      Means-comparison packet k low high l BinaryOperator.gt r
  Means-binary_op l BinaryOperator.gt_eq r hl hr =
      Means-comparison packet k low high l BinaryOperator.gt_eq r
  Means-binary_op l BinaryOperator.unsupported r hl hr =
      Means-comparison packet k low high l BinaryOperator.unsupported r

  Means-convert_expr : (e : Expr) → Means packet k (convert_expr e) (holds packet k e)
  unfolding convert_expr holds matches_with_number
  Means-convert_expr (Expr.binary_op l op r) =
      Means-binary_op l op r (Means-convert_expr l) (Means-convert_expr r)
  Means-convert_expr (Expr.unary_op UnaryOperator.logical_not e) =
      negation-Means (convert_expr e) (holds packet k e) (Means-convert_expr e)
    where
      negation-Means :
          (r : Result FilterExpr) (b : Bool)
          → Means packet k r b
          → Means packet k (r >>= λ f. inr (FilterExpr.negation f)) (not b)
      negation-Means (inl m) b h = tt
      negation-Means (inr f) b h = ap not h
  Means-convert_expr (Expr.unary_op UnaryOperator.minus e) = tt
  Means-convert_expr (Expr.unary_op UnaryOperator.unsupported e) = tt
  Means-convert_expr (Expr.nested e) = Means-convert_expr e
  Means-convert_expr (Expr.identifier name) = any_layer-normalize packet k packet.layer_names name
  Means-convert_expr (Expr.compound_identifier []) = tt
  Means-convert_expr (Expr.compound_identifier (p ∷ ps)) =
      any_layer-normalize packet k packet.layer_names p
  Means-convert_expr (Expr.between e negated lo hi) =
      Means-between packet k low high e negated lo hi
  Means-convert_expr (Expr.in_list e items negated) = Means-in_list packet k e items negated
  Means-convert_expr (Expr.literal (Value.boolean true)) = tt
  Means-convert_expr (Expr.literal (Value.boolean false)) = tt
  Means-convert_expr (Expr.literal (Value.single_quoted s)) = tt
  Means-convert_expr (Expr.literal (Value.double_quoted s)) = tt
  Means-convert_expr (Expr.literal (Value.number s)) = tt
  Means-convert_expr (Expr.literal Value.unsupported) = tt
  Means-convert_expr Expr.unsupported = tt

  -- A filter made of an SQL condition passes a packet, of whatever layers and fields and with a number
  -- from 1 to 2^64 - 1, exactly when the condition, read without filters, holds of it.
  pub convert_expr-holds :
      (e : Expr) {f : FilterExpr}
      → convert_expr e ≡ inr f
      → matches_with_number f packet k ≡ holds packet k e
  convert_expr-holds e {f} made =
      subst (λ r. Means packet k r (holds packet k e)) made (Means-convert_expr e)
