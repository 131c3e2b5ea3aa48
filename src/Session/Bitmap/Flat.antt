-- ===== src/Session/Bitmap/Flat.antt =====
-- All bits of the words of src/session/filter_bitmap.rs in a row.
use dsct.Base.{
  ℕ, zero, suc, ◌+◌, ◌*◌, ◌^◌, ◌≤◌, ◌<◌, ◌≡◌, refl, ap, sym, ◌∙◌, bit_or, Bool, true, false, some,
  List, [], ◌∷◌, ◌++◌, length, get_elem?, take, arith, append_assoc, length-append, take-append_le,
  take-append_more, get_elem?-append_more, get_elem?-append_lt,
}
use dsct.Session.Bitmap.{zeros, or_word}
use dsct.Session.Bitmap.Bits.{count, digits, length-digits, set_at, digits-bit_or}

abbrev pub flat : List ℕ → List Bool
flat [] = []
flat (w ∷ ws) = digits 64 w ++ flat ws

abbrev pub falses : ℕ → List Bool
falses zero = []
falses (suc n) = false ∷ falses n

pub length-flat : (ws : List ℕ) → length (flat ws) ≡ 64 * length ws
length-flat [] = omega arith
length-flat (w ∷ ws) =
    omega (arith, length-append (digits 64 w) (flat ws), length-digits 64 w, length-flat ws)

pub length-falses : (n : ℕ) → length (falses n) ≡ n
length-falses zero = refl
length-falses (suc n) = ap suc (length-falses n)

pub falses-append : (m n k : ℕ) → k ≡ m + n → falses m ++ falses n ≡ falses k
falses-append zero n k e = ap falses (omega (arith, e))
falses-append (suc m) n zero e = absurd (omega (arith, e))
falses-append (suc m) n (suc k) e = ap (λ bs. false ∷ bs) (falses-append m n k (omega (arith, e)))

pub count-append : (xs ys : List Bool) → count (xs ++ ys) ≡ count xs + count ys
count-append [] ys = omega arith
count-append (true ∷ xs) ys = omega (arith, count-append xs ys)
count-append (false ∷ xs) ys = count-append xs ys

pub count-falses : (n : ℕ) → count (falses n) ≡ 0
count-falses zero = refl
count-falses (suc n) = count-falses n

pub flat-append : (ws vs : List ℕ) → flat (ws ++ vs) ≡ flat ws ++ flat vs
flat-append [] vs = refl
flat-append (w ∷ ws) vs =
    ap (λ bs. digits 64 w ++ bs) (flat-append ws vs)
    ∙ sym (append_assoc (digits 64 w) (flat ws) (flat vs))

digits-zero : (n : ℕ) → digits n 0 ≡ falses n
digits-zero zero = refl
digits-zero (suc n) = ap (λ bs. false ∷ bs) (digits-zero n)

pub flat-zeros : (n : ℕ) → flat (zeros n) ≡ falses (64 * n)
flat-zeros zero = refl
flat-zeros (suc n) =
    ap (λ bs. digits 64 0 ++ bs) (flat-zeros n)
    ∙ ap (λ bs. bs ++ falses (64 * n)) (digits-zero 64)
    ∙ falses-append 64 (64 * n) (64 * suc n) (omega arith)

-- Positions within the first word.
start : (r : ℕ) → 64 * 0 + r ≡ r
start r = omega arith

-- A bit of a word.
pub flat-get_elem? :
    (ws : List ℕ) (s r : ℕ) {w : ℕ}
    → r < 64
    → get_elem? ws s ≡ some w
    → get_elem? (flat ws) (64 * s + r) ≡ get_elem? (digits 64 w) r
flat-get_elem? [] s r h e = absurd (cc e)
flat-get_elem? (v ∷ ws) zero r {w} h e =
    let same : v ≡ w = cc e in
    ap (get_elem? (flat (v ∷ ws))) (start r)
    ∙ get_elem?-append_lt (digits 64 v) (flat ws) r (omega (arith, length-digits 64 v))
    ∙ ap (λ u. get_elem? (digits 64 u) r) same
flat-get_elem? (v ∷ ws) (suc s) r h e =
    get_elem?-append_more (digits 64 v) (flat ws) (64 * s + r) (64 * suc s + r)
      (omega (arith, length-digits 64 v))
    ∙ flat-get_elem? ws s r h e

-- The bits before a position within a word.
pub count-flat :
    (ws : List ℕ) (s b : ℕ) {w : ℕ}
    → b ≤ 64
    → get_elem? ws s ≡ some w
    → count (take (64 * s + b) (flat ws))
      ≡ count (take (64 * s) (flat ws)) + count (take b (digits 64 w))
count-flat [] s b h e = absurd (cc e)
count-flat (v ∷ ws) zero b {w} h e =
    let same : v ≡ w = cc e in
    omega (
      arith,
      ap (λ k. count (take k (flat (v ∷ ws)))) (start b),
      ap count (take-append_le b (digits 64 v) (flat ws) (omega (arith, length-digits 64 v))),
      ap (λ u. count (take b (digits 64 u))) same,
    )
count-flat (v ∷ ws) (suc s) b h e = omega (
  arith,
  ap count (
      take-append_more (digits 64 v) (flat ws) (64 * s + b) (64 * suc s + b)
        (omega (arith, length-digits 64 v))),
  ap count (
      take-append_more (digits 64 v) (flat ws) (64 * s) (64 * suc s)
        (omega (arith, length-digits 64 v))),
  count-append (digits 64 v) (take (64 * s + b) (flat ws)),
  count-append (digits 64 v) (take (64 * s) (flat ws)),
  count-flat ws s b h e,
)

set_at-append_lt :
    (xs ys : List Bool) (i : ℕ) → i < length xs → set_at i (xs ++ ys) ≡ set_at i xs ++ ys
set_at-append_lt [] ys i h = absurd (omega arith)
set_at-append_lt (x ∷ xs) ys zero h = refl
set_at-append_lt (x ∷ xs) ys (suc i) h = ap (λ bs. x ∷ bs) (set_at-append_lt xs ys i (omega arith))

pub set_at-append_more :
    (xs ys : List Bool) (i k : ℕ) → k ≡ length xs + i → set_at k (xs ++ ys) ≡ xs ++ set_at i ys
set_at-append_more [] ys i k e = ap (λ j. set_at j ys) (omega (arith, e))
set_at-append_more (x ∷ xs) ys i zero e = absurd (omega (arith, e))
set_at-append_more (x ∷ xs) ys i (suc k) e =
    ap (λ bs. x ∷ bs) (set_at-append_more xs ys i k (omega (arith, e)))

-- Setting a bit of a word.
pub or_word-flat :
    (ws : List ℕ) (s b : ℕ)
    → b < 64
    → s < length ws
    → (ws' : List ℕ) × (or_word ws s (2 ^ b) ≡ some ws')
      × (length ws' ≡ length ws)
      × (flat ws' ≡ set_at (64 * s + b) (flat ws))
unfolding or_word
or_word-flat [] s b h within = absurd (omega arith)
or_word-flat (w ∷ ws) zero b h within = (
  bit_or w (2 ^ b) ∷ ws,
  refl,
  refl,
  ap (λ bs. bs ++ flat ws) (digits-bit_or 64 w b)
      ∙ sym (set_at-append_lt (digits 64 w) (flat ws) b (omega (arith, length-digits 64 w)))
      ∙ ap (λ k. set_at k (flat (w ∷ ws))) (sym (start b)),
)
or_word-flat (w ∷ ws) (suc s) b h within =
    let (ws', found, same, bits) = or_word-flat ws s b h (omega arith) in
    (
      w ∷ ws',
      rw (found),
      ap suc same,
      ap (λ bs. digits 64 w ++ bs) bits
          ∙ sym (
              set_at-append_more (digits 64 w) (flat ws) (64 * s + b) (64 * suc s + b)
                (omega (arith, length-digits 64 w))),
    )
