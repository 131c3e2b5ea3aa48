-- ===== src/Read/Batch/Laws.antt =====
-- What a batch of src/parallel_read.rs holds is what was pushed.
use dsct.Base.{
  arith, ℕ, zero, suc, ◌+◌, ◌-◌, ◌≡◌, refl, sym, ap, ap₂, ◌∙◌, some, List, [], ◌∷◌, ◌++◌,
  append_assoc, append-nil, le→leb, length, get_elem?, take, take-append, drop-append,
  length-append,
}
use dsct.Packet.{Bytes}
use dsct.Read.{Packet, PacketMeta}
use dsct.Read.Batch.{InputBatch, push, slice, start_of, data_of, get, iter_from, iter, batch_len}

abbrev pub bytes_of : List Packet → Bytes
bytes_of [] = []
bytes_of ((meta, bytes) ∷ ps) = bytes ++ bytes_of ps

abbrev metas_of : List Packet → List PacketMeta
metas_of [] = []
metas_of ((meta, bytes) ∷ ps) = meta ∷ metas_of ps

abbrev ends_from : ℕ → List Packet → List ℕ
ends_from base [] = []
ends_from base ((meta, bytes) ∷ ps) = (base + length bytes) ∷ ends_from (base + length bytes) ps

-- The batch is the one that pushing these packets builds.
abbrev pub Holds : InputBatch → List Packet → Type 0
Holds b ps = (b.metas ≡ metas_of ps) × (b.ends ≡ ends_from 0 ps) × (b.bytes ≡ bytes_of ps)

metas_of-append :
    (ps : List Packet) (p : Packet) → metas_of (ps ++ (p ∷ [])) ≡ metas_of ps ++ (p.0 ∷ [])
metas_of-append [] p = refl
metas_of-append (q ∷ ps) p = ap (◌∷◌ q.0) (metas_of-append ps p)

bytes_of-append : (ps : List Packet) (p : Packet) → bytes_of (ps ++ (p ∷ [])) ≡ bytes_of ps ++ p.1
bytes_of-append [] p = append-nil p.1
bytes_of-append (q ∷ ps) p =
    ap (◌++◌ q.1) (bytes_of-append ps p) ∙ sym (append_assoc q.1 (bytes_of ps) p.1)

ends_from-append :
    (base : ℕ) (ps : List Packet) (p : Packet)
    → ends_from base (ps ++ (p ∷ []))
      ≡ ends_from base ps ++ ((base + length (bytes_of ps ++ p.1)) ∷ [])
ends_from-append base [] p = refl
ends_from-append base (q ∷ ps) p = ap (◌∷◌ (base + length q.1)) (
    ends_from-append (base + length q.1) ps p
    ∙ ap (λ (n : ℕ). ends_from (base + length q.1) ps ++ (n ∷ []))
        (omega (
          arith,
          length-append q.1 (bytes_of ps),
          length-append (bytes_of ps) p.1,
          length-append (q.1 ++ bytes_of ps) p.1,
        )))

pub push-Holds :
    (b : InputBatch) (ps : List Packet) (p : Packet)
    → Holds b ps
    → Holds (push b p) (ps ++ (p ∷ []))
unfolding push
push-Holds b ps p (metas, ends, bytes) = (
  ap (λ (ms : List PacketMeta). ms ++ (p.0 ∷ [])) metas ∙ sym (metas_of-append ps p),
  ap₂ (λ (es : List ℕ) (d : Bytes). es ++ (length (d ++ p.1) ∷ [])) ends bytes
      ∙ ap (λ (n : ℕ). ends_from 0 ps ++ (n ∷ [])) (omega arith)
      ∙ sym (ends_from-append 0 ps p),
  ap (λ (d : Bytes). d ++ p.1) bytes ∙ sym (bytes_of-append ps p),
)

take_of : (n : ℕ) (d back : Bytes) → n ≡ length d → take n (d ++ back) ≡ d
take_of n d back e = ap (λ (k : ℕ). take k (d ++ back)) e ∙ take-append d back

slice-append :
    (front d back : Bytes)
    → slice (front ++ (d ++ back)) (length front) (length front + length d) ≡ some d
unfolding slice
slice-append front d back = rw (
  le→leb (length front) (length front + length d) (omega arith),
  le→leb (length front + length d) (length (front ++ (d ++ back)))
      (omega (arith, length-append front (d ++ back), length-append d back)),
  drop-append front (d ++ back),
  take_of (length front + length d - length front) d back (omega arith),
)

data_of-suc :
    (base end : ℕ) (ends : List ℕ) (bytes : Bytes) (i : ℕ)
    → data_of base (end ∷ ends) bytes (suc i) ≡ data_of end ends bytes i
unfolding data_of start_of
data_of-suc base end ends bytes zero = refl
data_of-suc base end ends bytes (suc i) = refl

-- The bytes of packet `i`, when those in front of the first one are `front`.
data_of-ends_from :
    (front : Bytes) (ps : List Packet) (base i : ℕ) (p : Packet)
    → length front ≡ base
    → get_elem? ps i ≡ some p
    → data_of base (ends_from base ps) (front ++ bytes_of ps) i ≡ some p.1
unfolding data_of start_of
data_of-ends_from front [] base i p e h = ground arith
data_of-ends_from front (q ∷ ps) base zero p e h =
    ap (λ (b : ℕ). slice (front ++ (q.1 ++ bytes_of ps)) b (b + length q.1)) (sym e)
    ∙ slice-append front q.1 (bytes_of ps)
    ∙ cc h
data_of-ends_from front (q ∷ ps) base (suc i) p e h =
    data_of-suc base (base + length q.1) _ _ i
    ∙ ap (λ (d : Bytes). data_of (base + length q.1) (ends_from (base + length q.1) ps) d i)
        (sym (append_assoc front q.1 (bytes_of ps)))
    ∙ data_of-ends_from (front ++ q.1) ps (base + length q.1) i p
        (omega (arith, length-append front q.1)) h

get_elem?-metas_of :
    (ps : List Packet) (i : ℕ) {p : Packet}
    → get_elem? ps i ≡ some p
    → get_elem? (metas_of ps) i ≡ some p.0
get_elem?-metas_of [] i e = ground arith
get_elem?-metas_of (q ∷ ps) zero e = cc e
get_elem?-metas_of (q ∷ ps) (suc i) e = get_elem?-metas_of ps i e

get_of :
    (b : InputBatch) (i : ℕ) (p : Packet)
    → get_elem? b.metas i ≡ some p.0
    → data_of 0 b.ends b.bytes i ≡ some p.1
    → get b i ≡ some p
unfolding get
get_of b i p e f = rw (e, f)

-- Packet `i` of a batch is the packet that was pushed as number `i`.
pub get-Holds :
    (b : InputBatch) (ps : List Packet) (i : ℕ) {p : Packet}
    → Holds b ps
    → get_elem? ps i ≡ some p
    → get b i ≡ some p
get-Holds b ps i {p} (metas, ends, bytes) e =
    get_of b i p (ap (λ (ms : List PacketMeta). get_elem? ms i) metas ∙ get_elem?-metas_of ps i e) (
      ap₂ (λ (es : List ℕ) (d : Bytes). data_of 0 es d i) ends bytes
      ∙ data_of-ends_from [] ps 0 i p refl e)

length-metas_of : (ps : List Packet) → length (metas_of ps) ≡ length ps
length-metas_of [] = refl
length-metas_of (p ∷ ps) = ap suc (length-metas_of ps)

pub batch_len-Holds : (b : InputBatch) (ps : List Packet) → Holds b ps → batch_len b ≡ length ps
batch_len-Holds b ps (metas, ends, bytes) = ap length metas ∙ length-metas_of ps

iter_from_lem :
    (b : InputBatch) (i : ℕ) (ps : List Packet)
    → ((j : ℕ) (p : Packet) → get_elem? ps j ≡ some p → get b (i + j) ≡ some p)
    → iter_from (length ps) i b ≡ ps
unfolding iter_from
iter_from_lem b i [] h = refl
iter_from_lem b i (p ∷ ps) h = rw (
  at_index 0 i (omega arith) (h 0 p refl),
  iter_from_lem b (suc i) ps (λ j q e. at_index (suc j) (suc i + j) (omega arith) (h (suc j) q e)),
)
  where
    at_index : (j k : ℕ) {q : Packet} → k ≡ i + j → get b (i + j) ≡ some q → get b k ≡ some q
    at_index j k e h = rw (e, h)

-- Reading a batch gives the packets pushed into it, in their order.
pub iter-Holds : (b : InputBatch) (ps : List Packet) → Holds b ps → iter b ≡ ps
unfolding iter
iter-Holds b ps held =
    ap (λ (n : ℕ). iter_from n 0 b) (batch_len-Holds b ps held)
    ∙ iter_from_lem b 0 ps
        (λ j p e. ap (λ (k : ℕ). get b k) (omega arith) ∙ get-Holds b ps j held e)
