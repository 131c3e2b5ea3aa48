-- ===== src/Filter/Names.antt =====
-- Protocol names in src/filter.rs, compared without case and without punctuation.
use dsct.Base.{
  ℕ, ◌+◌, ◌≡◌, refl, ap, ap₂, sym, ◌∙◌, ◌↔◌, map, Bool, true, false, ◌&&◌, ◌||◌, Bool-cases, [],
  ◌∷◌, ◌==◌, leb, if◌then◌else◌, inl, inr, arith,
}
use dsct.Packet.{Bytes}

abbrev pub is_ascii_uppercase : ℕ → Bool
is_ascii_uppercase c = leb b'A' c && leb c b'Z'

unfoldable pub is_ascii_alphanumeric : ℕ → Bool
is_ascii_alphanumeric c =
    leb b'0' c && leb c b'9' || (is_ascii_uppercase c || leb b'a' c && leb c b'z')

unfoldable pub to_ascii_lowercase : ℕ → ℕ
to_ascii_lowercase c = if is_ascii_uppercase c then c + 32 else c

-- `.filter(…)` and `.map(…)` of an iterator.
abbrev pub filtered : (ℕ → Bool) → Bytes → Bytes
filtered test [] = []
filtered test (c ∷ cs) = let rest = filtered test cs in if test c then c ∷ rest else rest

unfoldable pub normalize_protocol_name : Bytes → Bytes
unfolding is_ascii_alphanumeric to_ascii_lowercase
normalize_protocol_name name = map to_ascii_lowercase (filtered is_ascii_alphanumeric name)

-- The loop over what the two iterators yield.
unfoldable pub items_match : Bytes → Bytes → Bool
items_match [] [] = true
items_match (x ∷ xs) (y ∷ ys) = if x == y then items_match xs ys else false
items_match _ _ = false

unfoldable pub protocol_names_match : Bytes → Bytes → Bool
unfolding items_match is_ascii_alphanumeric to_ascii_lowercase
protocol_names_match a b =
    let a_iter = map to_ascii_lowercase (filtered is_ascii_alphanumeric a) in
    let b_iter = map to_ascii_lowercase (filtered is_ascii_alphanumeric b) in
    items_match a_iter b_iter

pub items_match_iff : (xs ys : Bytes) → (items_match xs ys ≡ true) ↔ (xs ≡ ys)
unfolding items_match
items_match_iff [] [] = (λ h. refl, λ e. refl)
items_match_iff [] (y ∷ ys) = (λ h. absurd (cc h), λ e. absurd (cc e))
items_match_iff (x ∷ xs) [] = (λ h. absurd (cc h), λ e. absurd (cc e))
items_match_iff (x ∷ xs) (y ∷ ys) = elim (Bool-cases (x == y)) [
  | inl same ↦
      let here : x ≡ y = ground (arith, same) in
      (
        λ h. ap₂ ◌∷◌ here ((items_match_iff xs ys).0 (rw same at h)),
        λ e. rw same ((items_match_iff xs ys).1 (cc e)),
      )
  | inr other ↦ (
    λ h. absurd (cc (rw other at h)),
    λ e. let same : x ≡ y = cc e in absurd (ground (arith, other, same)),
  )
]

-- `normalize_protocol_name` by cases of the first character.
pub normalize_cons :
    (c : ℕ) (cs : Bytes)
    → normalize_protocol_name (c ∷ cs) ≡ (
        if is_ascii_alphanumeric c
        then to_ascii_lowercase c ∷ normalize_protocol_name cs
        else normalize_protocol_name cs)
unfolding normalize_protocol_name
normalize_cons c cs = elim (Bool-cases (is_ascii_alphanumeric c)) [
  | inl e ↦ rw e refl
  | inr e ↦ rw e refl
]

pub protocol_names_match-items_match :
    (a b : Bytes)
    → protocol_names_match a b ≡ items_match (normalize_protocol_name a) (normalize_protocol_name b)
unfolding protocol_names_match normalize_protocol_name
protocol_names_match-items_match a b = refl

lowercase_again :
    (c : ℕ)
    → is_ascii_alphanumeric c ≡ true
    → (is_ascii_alphanumeric (to_ascii_lowercase c) ≡ true)
      × (to_ascii_lowercase (to_ascii_lowercase c) ≡ to_ascii_lowercase c)
unfolding is_ascii_alphanumeric to_ascii_lowercase
lowercase_again c h = (ground arith, ground arith)

normalize-empty : normalize_protocol_name (normalize_protocol_name []) ≡ normalize_protocol_name []
unfolding normalize_protocol_name
normalize-empty = refl

normalize_again :
    (n : Bytes) → normalize_protocol_name (normalize_protocol_name n) ≡ normalize_protocol_name n
normalize_again [] = normalize-empty
normalize_again (c ∷ cs) = elim (Bool-cases (is_ascii_alphanumeric c)) [
  | inl e ↦
      let (letter, same) = lowercase_again c e in
      rw
        (
          normalize_cons c cs,
          e,
          normalize_cons (to_ascii_lowercase c) (normalize_protocol_name cs),
          letter,
          same,
        )
        (ap (◌∷◌ (to_ascii_lowercase c)) (normalize_again cs))
  | inr e ↦ rw (normalize_cons c cs, e) (normalize_again cs)
]

-- Normalising the name in a filter does not change which layers it matches.
pub protocol_names_match-normalize :
    (a b : Bytes) → protocol_names_match a (normalize_protocol_name b) ≡ protocol_names_match a b
protocol_names_match-normalize a b =
    protocol_names_match-items_match a (normalize_protocol_name b)
    ∙ ap (items_match (normalize_protocol_name a)) (normalize_again b)
    ∙ sym (protocol_names_match-items_match a b)
