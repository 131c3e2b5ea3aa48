-- ===== src/Session/Bitmap/Tails.antt =====
-- The bits of src/session/filter_bitmap.rs from a position on.
use dsct.Base.{
  ℕ, zero, suc, ◌+◌, ◌-◌, ◌*◌, ◌/◌, ◌%◌, ◌^◌, ◌≤◌, ◌<◌, ◌≡◌, refl, ap, sym, ◌∙◌, bit_and, Bool,
  false, some, List, [], ◌∷◌, ◌++◌, ◌==◌, length, get_elem?, take, drop, arith, leb, leb→le,
  Bool-cases, inl, inr, length-take, take-append-drop, drop-append_le, drop-append_more,
}
use dsct.Base.Bits.{bit_and_half, bit_and_parity, pow_two_suc, pow_two_positive}
use dsct.Session.Bitmap.Bits.{count, nth, digits, digits-suc, length-digits}
use dsct.Session.Bitmap.Flat.{flat, falses, length-falses, count-falses}
use dsct.Session.Bitmap.Select.{moved, nth_beyond, nth-append, nth-append_more}

-- The bits from `s` on, of `n`.
pub digits-from :
    (n w s : ℕ) → s ≤ n → digits n (bit_and w (2 ^ n - 2 ^ s)) ≡ falses s ++ drop s (digits n w)
digits-from zero w zero h = refl
digits-from zero w (suc s) h = absurd (omega arith)
digits-from (suc n) w zero h =
    let mask = 2 ^ suc n - 2 ^ 0 in
    let half : mask / 2 ≡ 2 ^ n - 2 ^ 0 = omega (arith, pow_two_suc n, pow_two_positive n) in
    let odd : mask % 2 ≡ 1 = omega (arith, pow_two_suc n, pow_two_positive n) in
    let same : bit_and w mask % 2 ≡ w % 2 = omega (arith, bit_and_parity w mask, odd) in
    digits-suc n (bit_and w mask) (bit_and (w / 2) (2 ^ n - 2 ^ 0)) (w % 2 == 1)
      (ap (λ x. x == 1) same) (bit_and_half w mask ∙ ap (bit_and (w / 2)) half)
    ∙ ap (λ bs. (w % 2 == 1) ∷ bs) (digits-from n (w / 2) 0 (omega arith))
digits-from (suc n) w (suc s) h =
    let mask = 2 ^ suc n - 2 ^ suc s in
    let half : mask / 2 ≡ 2 ^ n - 2 ^ s = omega (arith, pow_two_suc n, pow_two_suc s) in
    let even : mask % 2 ≡ 0 = omega (arith, pow_two_suc n, pow_two_suc s) in
    let clear : bit_and w mask % 2 ≡ 0 = omega (arith, bit_and_parity w mask, even) in
    digits-suc n (bit_and w mask) (bit_and (w / 2) (2 ^ n - 2 ^ s)) false (ap (λ x. x == 1) clear)
      (bit_and_half w mask ∙ ap (bit_and (w / 2)) half)
    ∙ ap (λ bs. false ∷ bs) (digits-from n (w / 2) s (omega arith))

pub nth-falses : (s : ℕ) (bs : List Bool) (k : ℕ) → nth (falses s ++ bs) k ≡ moved s (nth bs k)
nth-falses s bs k =
    nth-append_more (falses s) bs k k (omega (arith, count-falses s))
    ∙ ap (λ n. moved n (nth bs k)) (length-falses s)

pub nth-padding : (bits : List Bool) (p k : ℕ) → nth (bits ++ falses p) k ≡ nth bits k
nth-padding bits p k = elim (Bool-cases (leb (count bits) k)) [
  | inl past ↦
      let h = leb→le _ _ past in
      nth-append_more bits (falses p) k (k - count bits) (omega (arith, h))
      ∙ ap (moved (length bits))
          (nth_beyond (falses p) (k - count bits) (omega (arith, count-falses p)))
      ∙ sym (nth_beyond bits k h)
  | inr here ↦ nth-append bits (falses p) k (ground (arith, here))
]

-- The bits from a position on, and the numbers of those set.
pub nth-from :
    (xs : List Bool) (i k : ℕ)
    → i ≤ length xs
    → nth xs (count (take i xs) + k) ≡ moved i (nth (drop i xs) k)
nth-from xs i k h =
    ap (λ ys. nth ys (count (take i xs) + k)) (sym (take-append-drop i xs))
    ∙ nth-append_more (take i xs) (drop i xs) (count (take i xs) + k) k (omega arith)
    ∙ ap (λ n. moved n (nth (drop i xs) k)) (omega (arith, length-take i xs, h))

pub flat-from :
    (ws : List ℕ) (s r i : ℕ) {w : ℕ}
    → i ≡ 64 * s + r
    → r ≤ 64
    → get_elem? ws s ≡ some w
    → drop i (flat ws) ≡ drop r (digits 64 w) ++ flat (drop (suc s) ws)
flat-from [] s r i e h at = absurd (cc at)
flat-from (v ∷ ws) zero r i {w} e h at =
    let same : v ≡ w = cc at in
    let first : i ≡ r = omega (arith, e) in
    ap (λ j. drop j (flat (v ∷ ws))) first
    ∙ drop-append_le r (digits 64 v) (flat ws) (omega (arith, length-digits 64 v))
    ∙ ap (λ x. drop r (digits 64 x) ++ flat ws) same
flat-from (v ∷ ws) (suc s) r i e h at =
    drop-append_more (digits 64 v) (flat ws) (64 * s + r) i (omega (arith, e, length-digits 64 v))
    ∙ flat-from ws s r (64 * s + r) refl h at

pub set_within : (xs : List Bool) (i : ℕ) {t : Bool} → get_elem? xs i ≡ some t → i < length xs
set_within [] i e = absurd (cc e)
set_within (x ∷ xs) zero e = omega arith
set_within (x ∷ xs) (suc i) e = omega (arith, set_within xs i e)

pub drop_all : {A : Type 0} → (xs : List A) → drop (suc (length xs)) xs ≡ []
drop_all [] = refl
drop_all (x ∷ xs) = drop_all xs
