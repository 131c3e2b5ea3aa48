-- ===== src/Sqlite/Nested.antt =====
-- What the depths of src/sqlite/depth.rs mean: a layer is one deeper than the one before exactly when
-- a layer of that depth cannot hold it as well.
use dsct.Base.{
  ℕ, zero, suc, ◌+◌, ◌≤◌, ◌≡◌, refl, ap, sym, Bool, true, false, ◌&&◌, ◌||◌, Bool-cases, List, [],
  ◌∷◌, arith, inl, inr, subst, ◌⊎◌, ◌↔◌, some, get_elem?, map,
}
use dsct.Packet.{Bytes}
use dsct.Filter.Names.{items_match_iff}
use dsct.Sqlite.Depth.{
  ethernet, ipv4, ipv6, is_l2, is_l3, starts_depth, depths_from, compute_depths,
}

abbrev pub IsLink : Bytes → Type 0
IsLink name = ethernet ≡ name

abbrev pub IsNetwork : Bytes → Type 0
IsNetwork name = (ipv4 ≡ name) ⊎ (ipv6 ≡ name)

-- Ethernet inside Ethernet or IP, or IP inside IP.
abbrev pub Repeats : Bytes → Bytes → Type 0
Repeats outer inner =
    (IsLink inner × (IsLink outer ⊎ IsNetwork outer)) ⊎ (IsNetwork inner × IsNetwork outer)

-- The layers before one, the last one first, and the depth reached.
abbrev pub reached : List (Bytes × ℕ) → ℕ
reached [] = 0
reached ((name, depth) ∷ before) = depth

-- A layer before, of a depth and with a property.
abbrev pub Has : (Bytes → Type 0) → ℕ → List (Bytes × ℕ) → Type 0
Has P depth before = (i : ℕ) × (name : Bytes) × (get_elem? before i ≡ some (name, depth)) × P name

-- Each layer has the depth reached before it, or the next one if a layer of the depth reached is
-- repeated by it.
abbrev pub Nested : List (Bytes × ℕ) → List (Bytes × ℕ) → Type 0
Nested before [] = Unit
Nested before ((name, depth) ∷ layers) =
    ((Has (λ outer. Repeats outer name) (reached before) before × (depth ≡ suc (reached before)))
      ⊎ (¬ (Has (λ outer. Repeats outer name) (reached before) before) × (depth ≡ reached before)))
    × Nested ((name, depth) ∷ before) layers

is_l2_iff : (name : Bytes) → (is_l2 name ≡ true) ↔ IsLink name
unfolding is_l2
is_l2_iff name = items_match_iff ethernet name

or_iff {ℓ κ} :
    {P : Type ℓ} {Q : Type κ} (t u : Bool)
    → ((t ≡ true) ↔ P)
    → ((u ≡ true) ↔ Q)
    → ((t || u) ≡ true) ↔ (P ⊎ Q)
or_iff true u (f, g) (f', g') = (λ h. inl (f refl), λ x. refl)
or_iff false u (f, g) (f', g') =
    (λ h. inr (f' h), λ x. elim x [ inl p ↦ absurd (cc (g p)) | inr q ↦ g' q ])

and_iff {ℓ κ} :
    {P : Type ℓ} {Q : Type κ} (t u : Bool)
    → ((t ≡ true) ↔ P)
    → ((u ≡ true) ↔ Q)
    → ((t && u) ≡ true) ↔ (P × Q)
and_iff true u (f, g) (f', g') = (λ h. (f refl, f' h), λ (p, q). g' q)
and_iff false u (f, g) (f', g') = (λ h. absurd (cc h), λ (p, q). absurd (cc (g p)))

is_l3_iff : (name : Bytes) → (is_l3 name ≡ true) ↔ IsNetwork name
unfolding is_l3
is_l3_iff name = or_iff _ _ (items_match_iff ipv4 name) (items_match_iff ipv6 name)

-- No layer before is deeper.
abbrev Low : ℕ → List (Bytes × ℕ) → Type 0
Low depth before = (i : ℕ) (l : Bytes × ℕ) → get_elem? before i ≡ some l → l.1 ≤ depth

-- What a flag of the loop says of the layers before.
module _ (P : Bytes → Type 0) (name : Bytes) (u : Bool) (now : (u ≡ true) ↔ P name) (depth : ℕ)
    (before : List (Bytes × ℕ)) where
  Has-again :
      (t : Bool)
      → ((t ≡ true) ↔ Has P depth before)
      → ((t || u) ≡ true) ↔ Has P depth ((name, depth) ∷ before)
  Has-again t seen = (
    λ h. elim ((or_iff t u seen now).0 h) [
      | inl (i, other, at, p) ↦ (suc i, other, at, p)
      | inr p ↦ (0, name, refl, p)
    ],
    λ has. (or_iff t u seen now).1 (earlier has),
  )
    where
      earlier : Has P depth ((name, depth) ∷ before) → Has P depth before ⊎ P name
      earlier (zero, other, at, p) = inr (subst P (sym (cc at)) p)
      earlier (suc i, other, at, p) = inl (i, other, at, p)

  Has-first : Low depth before → (u ≡ true) ↔ Has P (suc depth) ((name, suc depth) ∷ before)
  Has-first low = (λ h. (0, name, refl, now.0 h), λ has. now.1 (only has))
    where
      only : Has P (suc depth) ((name, suc depth) ∷ before) → P name
      only (zero, other, at, p) = subst P (sym (cc at)) p
      only (suc i, other, at, p) = absurd (omega (arith, low i (other, suc depth) at))

-- The state of the loop after the layers before.
record Tracks (depth : ℕ) (l2 l3 : Bool) (before : List (Bytes × ℕ)) : Type 0 where
  depth_reached : reached before ≡ depth
  low : Low depth before
  links : (l2 ≡ true) ↔ Has IsLink depth before
  networks : (l3 ≡ true) ↔ Has IsNetwork depth before

Low-cons :
    (name : Bytes) (depth d : ℕ) (before : List (Bytes × ℕ))
    → depth ≤ d
    → Low depth before
    → Low d ((name, d) ∷ before)
Low-cons name depth d before h low zero l at =
    let same : d ≡ l.1 = ap_depth (cc at) in omega (arith, same)
  where
    ap_depth : (name, d) ≡ l → d ≡ l.1
    ap_depth e = ap (λ (x : Bytes × ℕ). x.1) e
Low-cons name depth d before h low (suc i) l at = omega (arith, low i l at, h)

repeated :
    (depth : ℕ) (before : List (Bytes × ℕ)) (name : Bytes)
    → ((IsLink name × (Has IsLink depth before ⊎ Has IsNetwork depth before))
        ⊎ (IsNetwork name × Has IsNetwork depth before))
      ↔ Has (λ outer. Repeats outer name) depth before
repeated depth before name = (
  λ x. elim x [
    | inl (l, inl (i, outer, at, p)) ↦ (i, outer, at, inl (l, inl p))
    | inl (l, inr (i, outer, at, p)) ↦ (i, outer, at, inl (l, inr p))
    | inr (n, (i, outer, at, p)) ↦ (i, outer, at, inr (n, p))
  ],
  λ (i, outer, at, r). elim r [
    | inl (l, inl p) ↦ inl (l, inl (i, outer, at, p))
    | inl (l, inr p) ↦ inl (l, inr (i, outer, at, p))
    | inr (n, p) ↦ inr (n, (i, outer, at, p))
  ],
)

starts_depth_iff :
    (depth : ℕ) (l2 l3 : Bool) (before : List (Bytes × ℕ)) (name : Bytes)
    → Tracks depth l2 l3 before
    → (starts_depth l2 l3 name ≡ true) ↔ Has (λ outer. Repeats outer name) depth before
unfolding starts_depth
starts_depth_iff depth l2 l3 before name t =
    let (from, to) =
      or_iff _ _ (and_iff _ _ (is_l2_iff name) (or_iff l2 l3 t.links t.networks))
        (and_iff _ _ (is_l3_iff name) t.networks) in
    let (from', to') = repeated depth before name in (λ h. from' (from h), λ has. to (to' has))

track_same :
    (depth : ℕ) (l2 l3 : Bool) (before : List (Bytes × ℕ)) (name : Bytes)
    → Tracks depth l2 l3 before
    → Tracks depth (l2 || is_l2 name) (l3 || is_l3 name) ((name, depth) ∷ before)
track_same depth l2 l3 before name t = record {
  depth_reached = refl;
  low = Low-cons name depth depth before (omega arith) t.low;
  links = Has-again IsLink name (is_l2 name) (is_l2_iff name) depth before l2 t.links;
  networks = Has-again IsNetwork name (is_l3 name) (is_l3_iff name) depth before l3 t.networks;
}

track_deeper :
    (depth : ℕ) (l2 l3 : Bool) (before : List (Bytes × ℕ)) (name : Bytes)
    → Tracks depth l2 l3 before
    → Tracks (suc depth) (is_l2 name) (is_l3 name) ((name, suc depth) ∷ before)
track_deeper depth l2 l3 before name t = record {
  depth_reached = refl;
  low = Low-cons name depth (suc depth) before (omega arith) t.low;
  links = Has-first IsLink name (is_l2 name) (is_l2_iff name) depth before t.low;
  networks = Has-first IsNetwork name (is_l3 name) (is_l3_iff name) depth before t.low;
}

depths_deeper :
    (depth : ℕ) (l2 l3 : Bool) (name : Bytes) (names : List Bytes)
    → starts_depth l2 l3 name ≡ true
    → depths_from depth l2 l3 (name ∷ names)
      ≡ (name, suc depth) ∷ depths_from (suc depth) (is_l2 name) (is_l3 name) names
unfolding depths_from
depths_deeper depth l2 l3 name names e =
    let next : depth + 1 ≡ suc depth = omega arith in rw (e, next) refl

depths_same :
    (depth : ℕ) (l2 l3 : Bool) (name : Bytes) (names : List Bytes)
    → starts_depth l2 l3 name ≡ false
    → depths_from depth l2 l3 (name ∷ names)
      ≡ (name, depth) ∷ depths_from depth (l2 || is_l2 name) (l3 || is_l3 name) names
unfolding depths_from
depths_same depth l2 l3 name names e = rw e refl

abbrev names_of : List (Bytes × ℕ) → List Bytes
names_of layers = map (λ (l : Bytes × ℕ). l.0) layers

-- The names as they are, each with its depth.
abbrev pub Fine : List (Bytes × ℕ) → List Bytes → List (Bytes × ℕ) → Type 0
Fine before names layers = (names_of layers ≡ names) × Nested before layers

depths-Nested_nil : (depth : ℕ) (l2 l3 : Bool) → depths_from depth l2 l3 [] ≡ []
unfolding depths_from
depths-Nested_nil depth l2 l3 = refl

depths_from-Nested :
    (depth : ℕ) (l2 l3 : Bool) (before : List (Bytes × ℕ)) (names : List Bytes)
    → Tracks depth l2 l3 before
    → Fine before names (depths_from depth l2 l3 names)
depths_from-Nested depth l2 l3 before [] t =
    subst (Fine before []) (sym (depths-Nested_nil depth l2 l3)) (refl, tt)
depths_from-Nested depth l2 l3 before (name ∷ names) t =
    let (from, to) = starts_depth_iff depth l2 l3 before name t in
    elim (Bool-cases (starts_depth l2 l3 name)) [
      | inl e ↦
          let (same, nested) =
            depths_from-Nested (suc depth) (is_l2 name) (is_l3 name) ((name, suc depth) ∷ before)
              names (track_deeper depth l2 l3 before name t) in
          subst (Fine before (name ∷ names)) (sym (depths_deeper depth l2 l3 name names e)) (
            ap (◌∷◌ name) same,
            (
              inl (
                subst (λ d. Has (λ outer. Repeats outer name) d before) (sym t.depth_reached)
                    (from e),
                ap suc (sym t.depth_reached),
              ),
              nested,
            ),
          )
      | inr e ↦
          let (same, nested) =
            depths_from-Nested depth (l2 || is_l2 name) (l3 || is_l3 name) ((name, depth) ∷ before)
              names (track_same depth l2 l3 before name t) in
          subst (Fine before (name ∷ names)) (sym (depths_same depth l2 l3 name names e)) (
            ap (◌∷◌ name) same,
            (
              inr (
                λ has.
                    let again = to (
                      subst (λ d. Has (λ outer. Repeats outer name) d before) t.depth_reached
                        has) in
                    absurd (cc (again, e)),
                sym t.depth_reached,
              ),
              nested,
            ),
          )
    ]

-- Every layer is kept, in order, and its depth is the one of the layer before, or one more, and it is
-- one more exactly when a layer of that depth outside is repeated: Ethernet inside Ethernet or IP, or IP
-- inside IP. The first depth is 0.
pub compute_depths-Nested : (names : List Bytes) → Fine [] names (compute_depths names)
unfolding compute_depths
compute_depths-Nested names = depths_from-Nested 0 false false [] names (record {
  depth_reached = refl;
  low = λ i l at. absurd (cc at);
  links = (λ h. absurd (cc h), λ (i, name, at, p). absurd (cc at));
  networks = (λ h. absurd (cc h), λ (i, name, at, p). absurd (cc at));
})
