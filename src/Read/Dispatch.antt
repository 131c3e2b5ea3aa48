-- ===== src/Read/Dispatch.antt =====
-- What the reader of src/parallel_read.rs sends: the packets that pass the number filter, in order, in
-- batches that go to the workers in turn.
use dsct.Base.{
  ℕ, ◌+◌, ◌%◌, ◌≡◌, refl, sym, ap₂, ◌∙◌, Bool, true, not, ◌&&◌, Bool-cases, Option, List, [], ◌∷◌,
  ◌++◌, append_assoc, append-nil, if◌then◌else◌, arith, All, inl, inr,
}
use dsct.Filter.Numbers.{PacketNumberFilter}
use dsct.Read.{Packet}
use dsct.Read.InOrder.{dropped, finished}
use dsct.Read.Batch.{InputBatch, empty_batch, push, is_empty, iter}
use dsct.Read.Batch.Laws.{Holds, push-Holds, iter-Holds, batch_len-Holds}
use dsct.Read.Reader.{Sent, flush, skip_packet, is_full, read_loop, reader_fn}

abbrev pub WellFormed : InputBatch → Type 0
WellFormed b = (ps : List Packet) × Holds b ps

abbrev pub packets_of : Sent → List Packet
packets_of [] = []
packets_of ((k, b) ∷ sent) = iter b ++ packets_of sent

-- The worker of each batch comes after the one of the batch before.
abbrev pub RoundRobin : ℕ → ℕ → Sent → Type 0
RoundRobin n k [] = Unit
RoundRobin n k ((j, b) ∷ sent) = (j ≡ k) × RoundRobin n ((k + 1) % n) sent

abbrev pub AllWellFormed : Sent → Type 0
AllWellFormed sent = All (λ (s : ℕ × InputBatch). WellFormed s.1) sent

module _ (pn_filter : Option PacketNumberFilter) where
  -- The packets that are dissected: those the filter lets through, up to the first one behind its last
  -- number.
  unfoldable pub kept : List Packet → List Packet
  kept [] = []
  kept (p ∷ ps) =
      if dropped pn_filter p.0.number
      then (if finished pn_filter p.0.number then [] else kept ps)
      else p ∷ kept ps

  -- No packet ends the reading early.
  unfoldable pub reads_all : List Packet → Bool
  reads_all [] = true
  reads_all (p ∷ ps) =
      not (dropped pn_filter p.0.number && finished pn_filter p.0.number) && reads_all ps

  abbrev pub Reads : ℕ → ℕ → List Packet → List Packet → Sent × Bool → Type 0
  Reads n k front ps (sent, at_end) =
      (packets_of sent ≡ front ++ kept ps)
      × RoundRobin n k sent
      × AllWellFormed sent
      × (at_end ≡ reads_all ps)

  Holds-empty_nil : (b : InputBatch) (ps : List Packet) → Holds b ps → is_empty b ≡ true → ps ≡ []
  unfolding is_empty
  Holds-empty_nil b [] held e = refl
  Holds-empty_nil b (p ∷ ps) held e = absurd (ground (arith, batch_len-Holds b (p ∷ ps) held))

  flush-Reads :
      (n k : ℕ) (b : InputBatch) (front : List Packet)
      → Holds b front
      → (packets_of (flush k b) ≡ front) × RoundRobin n k (flush k b) × AllWellFormed (flush k b)
  unfolding flush
  flush-Reads n k b front held = elim (Bool-cases (is_empty b)) [
    | inl e ↦ rw (e, Holds-empty_nil b front held e) (refl, tt, tt)
    | inr e ↦ rw e (append-nil (iter b) ∙ iter-Holds b front held, (refl, tt), ((front, held), tt))
  ]

  -- Whether the batch is sent or filled further.
  send-Reads :
      (n k : ℕ) (b : InputBatch) (front ps : List Packet) (filled unfilled : Sent × Bool)
      → Holds b front
      → Reads n ((k + 1) % n) [] ps filled
      → Reads n k front ps unfilled
      → Reads n k front ps (if is_full b then ((k, b) ∷ filled.0, filled.1) else unfilled)
  send-Reads n k b front ps filled unfilled held (kept_later, turns, formed, ended) h =
      elim (Bool-cases (is_full b)) [
        | inl e ↦ rw e (
          ap₂ ◌++◌ (iter-Holds b front held) kept_later,
          (refl, turns),
          ((front, held), formed),
          ended,
        )
        | inr e ↦ rw e h
      ]

  read_loop-Reads :
      (n k : ℕ) (b : InputBatch) (front ps : List Packet)
      → Holds b front
      → Reads n k front ps (read_loop pn_filter n k b ps)
  unfolding read_loop kept reads_all
  read_loop-Reads n k b front [] held =
      let (same, turns, formed) = flush-Reads n k b front held in
      (same ∙ sym (append-nil front), turns, formed, refl)
  read_loop-Reads n k b front (p ∷ ps) held = elim (Bool-cases (dropped pn_filter p.0.number)) [
    | inl out ↦ elim (Bool-cases (finished pn_filter p.0.number)) [
      | inl last ↦
          let (same, turns, formed) = flush-Reads n k (skip_packet b) front held in
          rw (out, last) (same ∙ sym (append-nil front), turns, formed, refl)
      | inr more ↦
          rw (out, more)
            (send-Reads n k (skip_packet b) front ps _ _ held
              (read_loop-Reads n ((k + 1) % n) empty_batch [] ps (refl, refl, refl))
              (read_loop-Reads n k (skip_packet b) front ps held))
    ]
    | inr inside ↦
        let held' = push-Holds b front p held in
        let (same, turns, formed, ended) =
          send-Reads n k (push b p) (front ++ (p ∷ [])) ps _ _ held'
            (read_loop-Reads n ((k + 1) % n) empty_batch [] ps (refl, refl, refl))
            (read_loop-Reads n k (push b p) (front ++ (p ∷ [])) ps held') in
        rw inside (same ∙ append_assoc front (p ∷ []) (kept ps), turns, formed, ended)
  ]

  pub reader_fn-Reads : (n : ℕ) (ps : List Packet) → Reads n 0 [] ps (reader_fn pn_filter n ps)
  unfolding reader_fn
  reader_fn-Reads n ps = read_loop-Reads n 0 empty_batch [] ps (refl, refl, refl)
