-- ===== src/Filter/Sql/Comparisons.antt =====
-- The filters that src/sql_filter.rs makes of comparisons mean what the comparisons say.
use dsct.Base.{
  ℕ, ◌≤◌, ◌<◌, ◌≡◌, refl, ap, ap₂, ◌∙◌, Bool, true, false, not, ◌&&◌, ◌||◌, Bool-cases,
  Option-cases, Option, none, some, List, [], ◌∷◌, inl, inr, arith, leb, ◌==◌,
}
use dsct.Packet.{Bytes}
use dsct.Filter.Numbers.{any_contains, contains, from_ranges}
use dsct.Filter.Names.{normalize_protocol_name, protocol_names_match-normalize}
use dsct.Filter.Expr.{CompareOp, FilterExpr, View, cmp_ord, any_layer, matches_with_number}
use dsct.Filter.Sql.{
  Expr, BinaryOperator, SqlError, Result, ◌>>=◌, u64_max, parse_u64, is_packet_number, compare_op,
  maybe_negate, extract_field_ref, extract_value, convert_packet_number_comparison,
}
use dsct.Filter.Sql.Convert.{compare_ref, convert_comparison, between_ref, convert_between, or_all}
use dsct.Filter.Sql.Meaning.{compares_to, compares, negated_if}

-- A comparison of packet numbers is refused only when no packet number from 1 to 2^64 - 1 meets it.
pub convert_packet_number_comparison-eq-error :
    (op : CompareOp) (n k : ℕ) (e : SqlError)
    → convert_packet_number_comparison op n ≡ inl e
    → 0 < k
    → k ≤ u64_max
    → cmp_ord op k n ≡ false
unfolding convert_packet_number_comparison cmp_ord
convert_packet_number_comparison-eq-error CompareOp.eq n k e h low high = absurd (cc h)
convert_packet_number_comparison-eq-error CompareOp.ne n k e h low high = absurd (cc h)
convert_packet_number_comparison-eq-error CompareOp.lt n k e h low high = ground arith
convert_packet_number_comparison-eq-error CompareOp.le n k e h low high = absurd (cc h)
convert_packet_number_comparison-eq-error CompareOp.gt n k e h low high = ground arith
convert_packet_number_comparison-eq-error CompareOp.ge n k e h low high = absurd (cc h)

module _ (packet : View) (k : ℕ) where
  abbrev pub matched : FilterExpr → Bool
  matched f = matches_with_number f packet k

  -- The filter, when there is one, has this value.
  abbrev pub Means : Result FilterExpr → Bool → Type 0
  Means (inl e) b = Unit
  Means (inr f) b = matched f ≡ b

  pub Means-negated :
      (r : Result FilterExpr) (b negated : Bool)
      → Means r b
      → Means (r >>= λ f. inr (maybe_negate f negated)) (negated_if packet k negated b)
  unfolding maybe_negate matches_with_number
  Means-negated (inl e) b negated h = tt
  Means-negated (inr f) b true h = ap not h
  Means-negated (inr f) b false h = h

  pub Means-joined :
      (r s : Result FilterExpr) (join : FilterExpr → FilterExpr → FilterExpr)
      (meet : Bool → Bool → Bool) (b c : Bool)
      → ((f g : FilterExpr) → matched (join f g) ≡ meet (matched f) (matched g))
      → Means r b
      → Means s c
      → Means (r >>= λ f. s >>= λ g. inr (join f g)) (meet b c)
  Means-joined (inl e) s join meet b c law h h' = tt
  Means-joined (inr f) (inl e) join meet b c law h h' = tt
  Means-joined (inr f) (inr g) join meet b c law h h' = law f g ∙ ap₂ meet h h'

  pub any_layer-normalize :
      (ls : List Bytes) (name : Bytes)
      → any_layer ls (normalize_protocol_name name) ≡ any_layer ls name
  unfolding any_layer
  any_layer-normalize [] name = refl
  any_layer-normalize (l ∷ ls) name =
      ap₂ ◌||◌ (protocol_names_match-normalize l name) (any_layer-normalize ls name)

  abbrev pub or_all-any : List FilterExpr → Bool
  or_all-any [] = false
  or_all-any (f ∷ fs) = matched f || or_all-any fs

  pub or_all-matched :
      (f : FilterExpr) (fs : List FilterExpr) → matched (or_all f fs) ≡ (matched f || or_all-any fs)
  unfolding or_all matches_with_number
  or_all-matched f [] = ground arith
  or_all-matched f (g ∷ fs) = ground (arith, or_all-matched (FilterExpr.or_else f g) fs)

  module _ (low : 0 < k) (high : k ≤ u64_max) where
    Means-number :
        (op : CompareOp) (n : ℕ) → Means (convert_packet_number_comparison op n) (cmp_ord op k n)
    unfolding convert_packet_number_comparison cmp_ord matches_with_number contains any_contains
        from_ranges
    Means-number CompareOp.eq n = ground arith
    Means-number CompareOp.ne n = ground arith
    Means-number CompareOp.lt n = elim (Bool-cases (leb n 1)) [
      | inl e ↦ rw e tt
      | inr e ↦ rw e (ground arith)
    ]
    Means-number CompareOp.le n = ground arith
    Means-number CompareOp.gt n = elim (Bool-cases (n == u64_max)) [
      | inl e ↦ rw e tt
      | inr e ↦ rw e (ground arith)
    ]
    Means-number CompareOp.ge n = ground arith

    Means-compare_ref :
        (op : CompareOp) (name : Bytes) (field : Option Bytes) (v : Bytes)
        → Means (compare_ref op name field v) (compares_to packet k op name field v)
    unfolding compare_ref compares_to matches_with_number
    Means-compare_ref op name field v = elim (Bool-cases (is_packet_number name field)) [
      | inl e ↦ elim (Option-cases (parse_u64 v)) [
        | inl bad ↦ rw (e, bad) tt
        | inr (n, good) ↦ rw (e, good) (Means-number op n)
      ]
      | inr e ↦ elim (Option-cases field) [
        | inl bare ↦ rw (e, bare) tt
        | inr (f, some_f) ↦ rw (e, some_f) refl
      ]
    ]

    Means-compares :
        (c : CompareOp) (l r : Expr)
        → Means
            (extract_field_ref l >>= λ ref. extract_value r >>= λ v. compare_ref c ref.0 ref.1 v)
            (compares packet k c l r)
    unfolding compares
    Means-compares c l r = by_parts (extract_field_ref l) (extract_value r)
      where
        by_parts :
            (ref : Result (Bytes × Option Bytes)) (v : Result Bytes)
            → Means (ref >>= λ x. v >>= λ y. compare_ref c x.0 x.1 y) (elim ref [
              | inl e ↦ false
              | inr (name, field) ↦ elim v [
                | inl e ↦ false
                | inr y ↦ compares_to packet k c name field y
              ]
            ])
        by_parts (inl e) v = tt
        by_parts (inr ref) (inl e) = tt
        by_parts (inr (name, field)) (inr y) = Means-compare_ref c name field y

    pub Means-comparison :
        (l : Expr) (op : BinaryOperator) (r : Expr)
        → Means
            (convert_comparison l op r)
            (elim (compare_op op) [ none ↦ false | some c ↦ compares packet k c l r ])
    unfolding convert_comparison
    Means-comparison l BinaryOperator.eq r = Means-compares CompareOp.eq l r
    Means-comparison l BinaryOperator.not_eq r = Means-compares CompareOp.ne l r
    Means-comparison l BinaryOperator.lt r = Means-compares CompareOp.lt l r
    Means-comparison l BinaryOperator.lt_eq r = Means-compares CompareOp.le l r
    Means-comparison l BinaryOperator.gt r = Means-compares CompareOp.gt l r
    Means-comparison l BinaryOperator.gt_eq r = Means-compares CompareOp.ge l r
    Means-comparison l BinaryOperator.and r = tt
    Means-comparison l BinaryOperator.or r = tt
    Means-comparison l BinaryOperator.unsupported r = tt

    Means-between_ref :
        (name : Bytes) (field : Option Bytes) (lo hi : Bytes)
        → Means (between_ref name field lo hi) (
            compares_to packet k CompareOp.ge name field lo
            && compares_to packet k CompareOp.le name field hi)
    unfolding between_ref compares_to matches_with_number contains any_contains from_ranges cmp_ord
    Means-between_ref name field lo hi = elim (Bool-cases (is_packet_number name field)) [
      | inl e ↦ elim (Option-cases (parse_u64 lo)) [
        | inl bad ↦ rw (e, bad) tt
        | inr (n, good) ↦ elim (Option-cases (parse_u64 hi)) [
          | inl bad ↦ rw (e, good, bad) tt
          | inr (m, fine) ↦ rw (e, good, fine) (ground arith)
        ]
      ]
      | inr e ↦ elim (Option-cases field) [
        | inl bare ↦ rw (e, bare) tt
        | inr (f, some_f) ↦ rw (e, some_f) refl
      ]
    ]

    pub Means-between :
        (inner : Expr) (negated : Bool) (lo hi : Expr)
        → Means (convert_between inner negated lo hi) (
            negated_if packet k negated
              (compares packet k CompareOp.ge inner lo && compares packet k CompareOp.le inner hi))
    unfolding convert_between compares
    Means-between inner negated lo hi =
        by_parts (extract_field_ref inner) (extract_value lo) (extract_value hi)
      where
        said : Result (Bytes × Option Bytes) → Result Bytes → CompareOp → Bool
        said ref v op = elim ref [
          | inl e ↦ false
          | inr (name, field) ↦ elim v [
            | inl e ↦ false
            | inr y ↦ compares_to packet k op name field y
          ]
        ]

        by_parts :
            (ref : Result (Bytes × Option Bytes)) (v w : Result Bytes)
            → Means
                (ref >>= λ x. v >>= λ y.
                  w >>= λ z. between_ref x.0 x.1 y z >>= λ e. inr (maybe_negate e negated))
                (negated_if packet k negated (said ref v CompareOp.ge && said ref w CompareOp.le))
        by_parts (inl e) v w = tt
        by_parts (inr ref) (inl e) w = tt
        by_parts (inr ref) (inr y) (inl e) = tt
        by_parts (inr (name, field)) (inr y) (inr z) =
            Means-negated (between_ref name field y z) _ negated (Means-between_ref name field y z)
