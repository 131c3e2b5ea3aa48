-- ===== src/Filter/Sql/Items.antt =====
-- The filters that src/sql_filter.rs makes of lists of values mean what the lists say.
use dsct.Base.{
  ℕ, ◌≡◌, refl, ap, ◌∙◌, Bool, true, ◌||◌, Bool-cases, Option-cases, Sum-cases, Option, none, some,
  List, [], ◌∷◌, inl, inr, arith, ◌==◌,
}
use dsct.Packet.{Bytes}
use dsct.Filter.Numbers.{any_contains, contains, from_ranges}
use dsct.Filter.Expr.{CompareOp, FilterExpr, View, cmp_ord, matches_with_number}
use dsct.Filter.Sql.{
  Expr, Exprs, Result, ◌>>=◌, parse_u64, is_packet_number, named_field, clause, extract_field_ref,
  extract_value,
}
use dsct.Filter.Sql.Convert.{
  item_ranges, item_clauses, first_or, not_empty, in_list_ref, convert_in_list,
}
use dsct.Filter.Sql.Meaning.{compares_to, compares, equals_any, negated_if}
use dsct.Filter.Sql.Comparisons.{matched, Means, Means-negated, or_all-any, or_all-matched}

module _ (packet : View) (k : ℕ) where
  MeansRanges : Result (List (ℕ × ℕ)) → Bool → Type 0
  MeansRanges (inl e) b = Unit
  MeansRanges (inr ranges) b = any_contains ranges k ≡ b

  MeansClauses : Result (List FilterExpr) → Bool → Type 0
  MeansClauses (inl e) b = Unit
  MeansClauses (inr fs) b = or_all-any packet k fs ≡ b

  compares_of :
      (left item : Expr) (name v : Bytes) (field : Option Bytes)
      → extract_field_ref left ≡ inr (name, field)
      → extract_value item ≡ inr v
      → compares packet k CompareOp.eq left item ≡ compares_to packet k CompareOp.eq name field v
  unfolding compares
  compares_of left item name v field e got = rw (e, got, compares)

  compares_number :
      (name v : Bytes) (field : Option Bytes) (n : ℕ)
      → is_packet_number name field ≡ true
      → parse_u64 v ≡ some n
      → compares_to packet k CompareOp.eq name field v ≡ (k == n)
  unfolding compares_to cmp_ord
  compares_number name v field n h good = rw (h, good)

  compares_clause :
      (name f v : Bytes)
      → compares_to packet k CompareOp.eq name (some f) v
        ≡ matched packet k (clause name f CompareOp.eq v)
  unfolding compares_to matches_with_number
  compares_clause name f v = refl

  MeansRanges-cons :
      (rest : Result (List (ℕ × ℕ))) (b : Bool) (n : ℕ)
      → MeansRanges rest b
      → MeansRanges (rest >>= λ ranges. inr ((n, n) ∷ ranges)) ((k == n) || b)
  unfolding MeansRanges any_contains
  MeansRanges-cons (inl e) b n h = tt
  MeansRanges-cons (inr ranges) b n h = ground arith

  MeansClauses-cons :
      (rest : Result (List FilterExpr)) (b : Bool) (f : FilterExpr)
      → MeansClauses rest b
      → MeansClauses (rest >>= λ fs. inr (f ∷ fs)) (matched packet k f || b)
  unfolding MeansClauses
  MeansClauses-cons (inl e) b f h = tt
  MeansClauses-cons (inr fs) b f h = ap (◌||◌ (matched packet k f)) h

  -- The items of a list, each a number.
  item_ranges-MeansRanges :
      (left : Expr) (name : Bytes) (field : Option Bytes) (items : Exprs)
      → extract_field_ref left ≡ inr (name, field)
      → is_packet_number name field ≡ true
      → MeansRanges (item_ranges items) (equals_any packet k left items)
  unfolding MeansRanges item_ranges equals_any any_contains
  item_ranges-MeansRanges left name field Exprs.nil e h = refl
  item_ranges-MeansRanges left name field (Exprs.cons item items) e h =
      elim (Sum-cases (extract_value item)) [
        | inl (m, missing) ↦ rw missing tt
        | inr (v, got) ↦ elim (Option-cases (parse_u64 v)) [
          | inl bad ↦ rw (got, bad) tt
          | inr (n, good) ↦
              let same =
                compares_of left item name v field e got ∙ compares_number name v field n h good in
              rw (same, got, good)
                (MeansRanges-cons (item_ranges items) _ n
                  (item_ranges-MeansRanges left name field items e h))
        ]
      ]

  item_clauses-MeansClauses :
      (left : Expr) (name f : Bytes) (items : Exprs)
      → extract_field_ref left ≡ inr (name, some f)
      → MeansClauses (item_clauses name f items) (equals_any packet k left items)
  unfolding MeansClauses item_clauses equals_any
  item_clauses-MeansClauses left name f Exprs.nil e = refl
  item_clauses-MeansClauses left name f (Exprs.cons item items) e =
      elim (Sum-cases (extract_value item)) [
        | inl (m, missing) ↦ rw missing tt
        | inr (v, got) ↦
            let same = compares_of left item name v (some f) e got ∙ compares_clause name f v in
            rw (same, got)
              (MeansClauses-cons (item_clauses name f items) _ (clause name f CompareOp.eq v)
                (item_clauses-MeansClauses left name f items e))
      ]

  Means-ranges :
      (r : Result (List (ℕ × ℕ))) (b : Bool)
      → MeansRanges r b
      → Means packet k (r >>= λ ranges. inr (FilterExpr.packet_number (from_ranges ranges))) b
  unfolding MeansRanges matches_with_number contains from_ranges
  Means-ranges (inl e) b h = tt
  Means-ranges (inr ranges) b h = h

  Means-first_or :
      (r : Result (List FilterExpr)) (b : Bool)
      → MeansClauses r b
      → Means packet k (r >>= first_or) b
  unfolding MeansClauses
  Means-first_or (inl e) b h = tt
  Means-first_or (inr []) b h = tt
  Means-first_or (inr (f ∷ fs)) b h = or_all-matched packet k f fs ∙ h

  Means-in_list_ref :
      (left : Expr) (name : Bytes) (field : Option Bytes) (items : Exprs)
      → extract_field_ref left ≡ inr (name, field)
      → Means packet k (in_list_ref name field items) (equals_any packet k left items)
  unfolding in_list_ref
  Means-in_list_ref left name field items e = elim (Bool-cases (is_packet_number name field)) [
    | inl h ↦
        rw h
          (Means-ranges (item_ranges items) _ (item_ranges-MeansRanges left name field items e h))
    | inr h ↦ rw h (named field items e)
  ]
    where
      named :
          (field : Option Bytes) (items : Exprs)
          → extract_field_ref left ≡ inr (name, field)
          → Means packet k
              (not_empty items >>= λ u.
                named_field field >>= λ f. item_clauses name f items >>= first_or)
              (equals_any packet k left items)
      named field Exprs.nil e = tt
      named none (Exprs.cons i is) e = tt
      named (some f) (Exprs.cons i is) e =
          Means-first_or (item_clauses name f (Exprs.cons i is)) _
            (item_clauses-MeansClauses left name f (Exprs.cons i is) e)

  pub Means-in_list :
      (left : Expr) (items : Exprs) (negated : Bool)
      → Means packet k
          (convert_in_list left items negated)
          (negated_if packet k negated (equals_any packet k left items))
  unfolding convert_in_list
  Means-in_list left items negated = elim (Sum-cases (extract_field_ref left)) [
    | inl (m, missing) ↦ rw missing tt
    | inr (ref, got) ↦ rw got (
        Means-negated packet k (in_list_ref ref.0 ref.1 items) _ negated
          (Means-in_list_ref left ref.0 ref.1 items got))
  ]
