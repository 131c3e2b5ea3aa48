-- ===== src/Read/Selection.antt =====
-- Which packets the reader of src/parallel_read.rs passes on: those whose numbers lie in a range of the
-- number filter, although it stops reading behind the last range.
use dsct.Base.{
  ℕ, zero, suc, ◌≤◌, ◌<◌, ◌≡◌, refl, sym, ap, subst, ◌↔◌, true, false, ◌&&◌, Bool-cases, Option,
  none, some, List, [], ◌∷◌, get_elem?, leb, arith, inl, inr, ◌⊎◌, Option-cases,
}
use dsct.Filter.Numbers.{PacketNumberFilter, any_contains, contains, max_number, contains_above}
use dsct.Read.{Packet}
use dsct.Read.InOrder.{dropped, finished}
use dsct.Read.Reader.{reader_fn}
use dsct.Read.Dispatch.{kept, packets_of, RoundRobin, reader_fn-Reads}

-- A number lies in a range of the filter, where there is one.
abbrev pub IsSelected : Option PacketNumberFilter → ℕ → Type 0
IsSelected none n = Unit
IsSelected (some f) n =
    (i : ℕ) × (lo : ℕ) × (hi : ℕ) × (get_elem? f.ranges i ≡ some (lo, hi)) × (lo ≤ n) × (n ≤ hi)

-- The second list is the first one without the packets that are not selected, and with all others.
pub data Selects (pn_filter : Option PacketNumberFilter) : List Packet → List Packet → Type 0 where
  done : Selects pn_filter [] []
  keep :
      {p : Packet} {ps qs : List Packet}
      → IsSelected pn_filter p.0.number
      → Selects pn_filter ps qs
      → Selects pn_filter (p ∷ ps) (p ∷ qs)
  leave :
      {p : Packet} {ps qs : List Packet}
      → ¬ (IsSelected pn_filter p.0.number)
      → Selects pn_filter ps qs
      → Selects pn_filter (p ∷ ps) qs

-- The packets are numbered upwards.
abbrev pub Rising : ℕ → List Packet → Type 0
Rising least [] = Unit
Rising least (p ∷ ps) = (least ≤ p.0.number) × Rising (suc p.0.number) ps

InRange : List (ℕ × ℕ) → ℕ → Type 0
InRange rs n = IsSelected (some (record { ranges = rs })) n

in_first :
    (lo hi : ℕ) (rs : List (ℕ × ℕ)) (n : ℕ)
    → (leb lo n && leb n hi) ≡ true
    → InRange ((lo, hi) ∷ rs) n
unfolding InRange
in_first lo hi rs n e = (0, lo, hi, refl, ground (arith, e), ground (arith, e))

in_later : (lo hi : ℕ) (rs : List (ℕ × ℕ)) (n : ℕ) → InRange rs n → InRange ((lo, hi) ∷ rs) n
unfolding InRange
in_later lo hi rs n (i, lo', hi', at, low, high) = (suc i, lo', hi', at, low, high)

in_either :
    (lo hi : ℕ) (rs : List (ℕ × ℕ)) (n : ℕ)
    → InRange ((lo, hi) ∷ rs) n
    → ((leb lo n && leb n hi) ≡ true) ⊎ InRange rs n
unfolding InRange
in_either lo hi rs n (zero, lo', hi', at, low, high) =
    let first : lo ≡ lo' = ap (λ (o : Option (ℕ × ℕ)). low_of o) at in
    let last : hi ≡ hi' = ap (λ (o : Option (ℕ × ℕ)). high_of o) at in
    inl (ground (arith, first, last, low, high))
  where
    low_of : Option (ℕ × ℕ) → ℕ
    low_of none = 0
    low_of (some (a, b)) = a

    high_of : Option (ℕ × ℕ) → ℕ
    high_of none = 0
    high_of (some (a, b)) = b
in_either lo hi rs n (suc i, lo', hi', at, low, high) = inr (i, lo', hi', at, low, high)

any_contains_iff : (rs : List (ℕ × ℕ)) (n : ℕ) → (any_contains rs n ≡ true) ↔ InRange rs n
unfolding any_contains InRange
any_contains_iff [] n = (λ h. absurd (cc h), λ (i, lo, hi, at, low, high). absurd (cc at))
any_contains_iff ((lo, hi) ∷ rs) n =
    let (from, to) = any_contains_iff rs n in
    (
      λ h. elim (Bool-cases (leb lo n && leb n hi)) [
        | inl e ↦ in_first lo hi rs n e
        | inr e ↦ in_later lo hi rs n (from (rw e at h))
      ],
      λ has. elim (in_either lo hi rs n has) [
        | inl e ↦ rw e refl
        | inr rest ↦ ground (arith, to rest)
      ],
    )

contains_iff : (f : PacketNumberFilter) (n : ℕ) → (contains f n ≡ true) ↔ IsSelected (some f) n
unfolding contains InRange
contains_iff f n = any_contains_iff f.ranges n

-- What the reader drops is not selected, and nothing behind the end of the reading is.
dropped_iff :
    (pn_filter : Option PacketNumberFilter) (n : ℕ)
    → (dropped pn_filter n ≡ false) ↔ IsSelected pn_filter n
dropped_iff none n = (λ h. tt, λ x. refl)
dropped_iff (some f) n =
    let (from, to) = contains_iff f n in (λ h. from (ground (arith, h)), λ x. ground (arith, to x))

finished-beyond :
    (pn_filter : Option PacketNumberFilter) (n k : ℕ)
    → finished pn_filter n ≡ true
    → n < k
    → ¬ (IsSelected pn_filter k)
finished-beyond none n k h h' x = absurd (cc h)
finished-beyond (some f) n k h h' x = elim (Option-cases (max_number f)) [
  | inl unbounded ↦ absurd (cc (rw unbounded at h))
  | inr (m, largest) ↦
      let above : m < k = ground (arith, rw largest at h, h') in
      absurd (cc (contains_above f k m largest above, (contains_iff f k).1 x))
]

nothing-Selects :
    (pn_filter : Option PacketNumberFilter) (n least : ℕ) (ps : List Packet)
    → finished pn_filter n ≡ true
    → n < least
    → Rising least ps
    → Selects pn_filter ps []
nothing-Selects pn_filter n least [] h h' up = Selects.done
nothing-Selects pn_filter n least (p ∷ ps) h h' (here, up) =
    Selects.leave (finished-beyond pn_filter n p.0.number h (omega (arith, here, h')))
      (nothing-Selects pn_filter n (suc p.0.number) ps h (omega (arith, here, h')) up)

kept-Selects :
    (pn_filter : Option PacketNumberFilter) (least : ℕ) (ps : List Packet)
    → Rising least ps
    → Selects pn_filter ps (kept pn_filter ps)
unfolding kept
kept-Selects pn_filter least [] up = Selects.done
kept-Selects pn_filter least (p ∷ ps) (here, up) =
    elim (Bool-cases (dropped pn_filter p.0.number)) [
      | inl out ↦
          let not_selected : ¬ (IsSelected pn_filter p.0.number) =
            λ x. absurd (cc (out, (dropped_iff pn_filter p.0.number).1 x)) in
          elim (Bool-cases (finished pn_filter p.0.number)) [
            | inl last ↦
                rw (out, last)
                  (Selects.leave not_selected (
                    nothing-Selects pn_filter p.0.number (suc p.0.number) ps last (omega arith) up))
            | inr more ↦
                rw (out, more)
                  (Selects.leave not_selected (kept-Selects pn_filter (suc p.0.number) ps up))
          ]
      | inr inside ↦ rw inside (
          Selects.keep ((dropped_iff pn_filter p.0.number).0 inside)
            (kept-Selects pn_filter (suc p.0.number) ps up))
    ]

-- The batches, read in the order of sending, hold the packets whose numbers lie in a range of the number
-- filter, in order, and no others, and all packets where there is no filter; the worker of each batch
-- follows the worker of the batch before.
-- Assumed: the packets are numbered upwards, and the run is not stopped.
pub reader_fn-RoundRobin :
    (pn_filter : Option PacketNumberFilter) (n : ℕ) (ps : List Packet)
    → Rising 0 ps
    → Selects pn_filter ps (packets_of (reader_fn pn_filter n ps).0)
      × RoundRobin n 0 (reader_fn pn_filter n ps).0
reader_fn-RoundRobin pn_filter n ps up =
    let (same, turns, formed, ended) = reader_fn-Reads pn_filter n ps in
    (subst (Selects pn_filter ps) (sym same) (kept-Selects pn_filter 0 ps up), turns)
