-- ===== src/Session/Bitmap/Sets.antt =====
-- Runs of set bits among those of src/session/filter_bitmap.rs.
use dsct.Base.{
  ℕ, zero, suc, ◌+◌, ◌≤◌, ◌≡◌, refl, ap, ap₂, Bool, true, List, [], ◌∷◌, ◌++◌, length, arith,
}
use dsct.Session.Bitmap.Bits.{count}
use dsct.Session.Bitmap.Masks.{sets, sets_none}

abbrev pub trues : ℕ → List Bool
trues zero = []
trues (suc n) = true ∷ trues n

pub length-trues : (n : ℕ) → length (trues n) ≡ n
length-trues zero = refl
length-trues (suc n) = ap suc (length-trues n)

pub count-trues : (n : ℕ) → count (trues n) ≡ n
count-trues zero = refl
count-trues (suc n) = ap suc (count-trues n)

pub sets-append_lt :
    (xs ys : List Bool) (i n : ℕ) → i + n ≤ length xs → sets i n (xs ++ ys) ≡ sets i n xs ++ ys
sets-append_lt [] ys zero zero h = sets_none 0 ys
sets-append_lt [] ys zero (suc n) h = absurd (omega arith)
sets-append_lt [] ys (suc i) n h = absurd (omega arith)
sets-append_lt (x ∷ xs) ys zero zero h = refl
sets-append_lt (x ∷ xs) ys zero (suc n) h =
    ap (λ bs. true ∷ bs) (sets-append_lt xs ys 0 n (omega arith))
sets-append_lt (x ∷ xs) ys (suc i) n h = ap (λ bs. x ∷ bs) (sets-append_lt xs ys i n (omega arith))

pub sets-append_more :
    (xs ys : List Bool) (i k n : ℕ) → k ≡ length xs + i → sets k n (xs ++ ys) ≡ xs ++ sets i n ys
sets-append_more [] ys i k n e = ap (λ j. sets j n ys) (omega (arith, e))
sets-append_more (x ∷ xs) ys i zero n e = absurd (omega (arith, e))
sets-append_more (x ∷ xs) ys i (suc k) n e =
    ap (λ bs. x ∷ bs) (sets-append_more xs ys i k n (omega (arith, e)))

-- A run that goes on behind the first list.
pub sets-append_over :
    (xs ys : List Bool) (n k : ℕ)
    → k ≡ length xs + n
    → sets 0 k (xs ++ ys) ≡ trues (length xs) ++ sets 0 n ys
sets-append_over [] ys n k e = ap (λ j. sets 0 j ys) (omega (arith, e))
sets-append_over (x ∷ xs) ys n zero e = absurd (omega (arith, e))
sets-append_over (x ∷ xs) ys n (suc k) e =
    ap (λ bs. true ∷ bs) (sets-append_over xs ys n k (omega (arith, e)))

-- A run behind a run.
pub sets-sets :
    (bs : List Bool) (i m n k l : ℕ) → k ≡ i + m → l ≡ m + n → sets k n (sets i m bs) ≡ sets i l bs
sets-sets [] i m n k l e e' = refl
sets-sets (b ∷ bs) zero zero n k l e e' = ap₂ (λ j x. sets j x (b ∷ bs)) e (omega (arith, e'))
sets-sets (b ∷ bs) zero (suc m) n (suc k) (suc l) e e' =
    ap (λ xs. true ∷ xs) (sets-sets bs 0 m n k l (omega (arith, e)) (omega (arith, e')))
sets-sets (b ∷ bs) zero (suc m) n zero l e e' = absurd (omega (arith, e))
sets-sets (b ∷ bs) zero (suc m) n (suc k) zero e e' = absurd (omega (arith, e'))
sets-sets (b ∷ bs) (suc i) m n (suc k) l e e' =
    ap (λ xs. b ∷ xs) (sets-sets bs i m n k l (omega (arith, e)) e')
sets-sets (b ∷ bs) (suc i) m n zero l e e' = absurd (omega (arith, e))
