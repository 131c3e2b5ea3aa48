-- ===== src/Session/Pass/Loads.antt =====
-- What the main thread of src/session/ordered_pass.rs learns of a packet is what the in-order
-- dissection found.
use dsct.Base.{
  ◌⊎◌, inl, inr, ℕ, zero, suc, ◌+◌, ◌≤◌, ◌<◌, ◌≡◌, refl, ap, sym, ◌∙◌, true, false, none, some,
  List, [], ◌∷◌, arith, length, take, get_elem?, take-append, length-take, min, length-append,
  take-take,
}
use dsct.Packet.{Bytes, Slice}
use dsct.Owned.{from_dissect_buf}
use dsct.Codec.Intern.{Tables}
use dsct.Codec.Intern.Laws.{Fits}
use dsct.Codec.Encode.{encode}
use dsct.Codec.Decode.{StoredPacket, decode}
use dsct.Codec.Ids.{Few}
use dsct.Codec.RoundTrip.{decode_resolved}
use dsct.Session.Pass.{
  PacketIndex, Dissected, Env, OrderedPass, Status, status_of, status, load_decoded, load_record,
  load_entry, load,
}
use dsct.Session.Pass.Order.{Outcome, InOrder, in_order, in_order-eq-some}
use dsct.Session.Pass.Stands.{Holds, AllSound, Stands, AllStand}
use dsct.Session.Pass.System.{Reach}
use dsct.Session.Pass.Invariant.{Inv}
use dsct.Session.Pass.Steps.{Reach-Inv}

-- The result that the display should show for a dissection.
abbrev pub result_of : Slice → Dissected → StoredPacket
result_of packet d = record { ok = d.ok; packet = from_dissect_buf d.buf packet }

decode-Holds :
    (file : Bytes) (t : Tables) (packet : Slice) (d : Dissected) (offset : ℕ)
    → Few t
    → (h : Holds file t packet d offset)
    → decode (encode d.buf packet d.ok h.interner []).0 packet.bytes t ≡ some (result_of packet d)
decode-Holds file t packet d offset few h =
    let s = h.sound in
    decode_resolved s.memory packet d.buf s.seen s.resolves s.viewed s.valid d.ok h.interner t
      h.resolved few.layers few.descriptors

module _ (env : Env) where
  open env use {Capture, Registry, Message}

  load_entry-Holds :
      (p : OrderedPass env) (pkt_idx : ℕ) (packet : Slice) (d : Dissected) (offset : ℕ)
      → Few p.shared.tables
      → Holds p.spill p.shared.tables packet d offset
      → load_entry env p pkt_idx packet.bytes (some (suc offset)) ≡ (some (result_of packet d), p)
  unfolding load_entry load_record load_decoded
  load_entry-Holds p pkt_idx packet d offset few h =
      ap (load_record env p pkt_idx packet.bytes) h.found
      ∙ ap (load_decoded env p pkt_idx) (decode-Holds p.spill p.shared.tables packet d offset few h)

  -- What the pass tells of a packet with this outcome: no state was used, or the result is loaded.
  abbrev pub Told : OrderedPass env → ℕ → Outcome env → Type 0
  Told p pkt_idx none = status env p pkt_idx ≡ Status.stateless_packet
  Told p pkt_idx (some (packet, d)) =
      ((d.used_cross_packet_state ≡ false) × (status env p pkt_idx ≡ Status.stateless_packet))
      ⊎ ((d.used_cross_packet_state ≡ true)
          × (status env p pkt_idx ≡ Status.stateful)
          × (load env p pkt_idx packet.bytes ≡ (some (result_of packet d), p)))

  Told-entry :
      (p : OrderedPass env) (pkt_idx : ℕ) (o : Outcome env) (entry : ℕ)
      → Few p.shared.tables
      → get_elem? p.shared.offsets pkt_idx ≡ some entry
      → Stands env p.spill p.shared.tables o entry
      → Told p pkt_idx o
  unfolding status status_of load
  Told-entry p pkt_idx none entry few at h =
      ap (λ e. status_of env e p.shared.stopped) (at ∙ ap some h)
  Told-entry p pkt_idx (some (packet, d)) zero few at h =
      inl (h, ap (λ e. status_of env e p.shared.stopped) at)
  Told-entry p pkt_idx (some (packet, d)) (suc offset) few at (used, h) = inr (
    used,
    ap (λ e. status_of env e p.shared.stopped) at,
    ap (load_entry env p pkt_idx packet.bytes) at
        ∙ load_entry-Holds p pkt_idx packet d offset few h,
  )

  AllStand-get_elem? :
      (file : Bytes) (t : Tables) (os : List (Outcome env)) (es : List ℕ) (i : ℕ)
      → AllStand env file t os es
      → i < length es
      → (o : Outcome env) × (e : ℕ) × (get_elem? os i ≡ some o)
        × (get_elem? es i ≡ some e)
        × Stands env file t o e
  AllStand-get_elem? file t os [] i h within = absurd (omega arith)
  AllStand-get_elem? file t [] (e ∷ es) i h within = absurd h
  AllStand-get_elem? file t (o ∷ os) (e ∷ es) zero (h, hs) within = (o, e, refl, refl, h)
  AllStand-get_elem? file t (o ∷ os) (e ∷ es) (suc i) (h, hs) within =
      AllStand-get_elem? file t os es i hs (omega arith)

  length-AllStand :
      (file : Bytes) (t : Tables) (os : List (Outcome env)) (es : List ℕ)
      → AllStand env file t os es
      → length es ≡ length os
  length-AllStand file t [] [] h = refl
  length-AllStand file t [] (e ∷ es) h = absurd h
  length-AllStand file t (o ∷ os) [] h = absurd h
  length-AllStand file t (o ∷ os) (e ∷ es) (h, hs) = ap suc (length-AllStand file t os es hs)

  pub length-in_order :
      (c : Capture) (r : Registry) (is : List PacketIndex) {all : InOrder env}
      → in_order env c r is ≡ some all
      → length all.0 ≡ length is
  unfolding in_order
  length-in_order c r [] {all} e =
      ap (λ (o : InOrder env). length o.0) {x = all} {y = ([], c, r)} (cc e)
  length-in_order c r (index ∷ is) e =
      let (next, others, found, found', same) = in_order-eq-some env c r index is e in
      ap (λ o. length o.0) (sym same) ∙ ap suc (length-in_order next.1 next.2 is found')

  module _ (capture : Capture) (registry : Registry) (indices : List PacketIndex)
      (sound : AllSound env) where
    module _ (p : OrderedPass env) (inv : Inv env capture registry indices p) where
      pub published_length : length p.shared.offsets ≡ length inv.handled
      published_length =
          length-AllStand p.spill p.shared.tables inv.outcomes p.shared.offsets inv.stand
          ∙ length-in_order capture registry inv.handled inv.followed

      pub within_fed : length inv.handled + length inv.rest ≡ min p.fed (length indices)
      within_fed =
          sym (length-append inv.handled inv.rest) ∙ ap length inv.sent ∙ length-take p.fed indices

      -- The entries published are about as many packets from the start of the capture.
      published : inv.handled ≡ take (length p.shared.offsets) indices
      published =
          sym (take-append inv.handled inv.rest)
          ∙ ap (take (length inv.handled)) inv.sent
          ∙ take-take (length inv.handled) p.fed indices (omega (arith, within_fed))
          ∙ ap (λ n. take n indices) (sym published_length)

    -- In every state that the two threads can reach, whatever order they act in and wherever the pass
    -- thread may have broken off: the packets that `status` has an answer for are the first ones of the
    -- capture, as many as were sent or fewer; dissecting them in capture order with one registry gives
    -- an outcome for each. A packet that cannot be read, or whose dissection used no state, is
    -- Stateless; every other is Stateful, and `load` then returns the owned packet of that dissection
    -- with its flag and reports no error.
    -- Assumed: of every packet and any registry the dissector keeps its promises (slices show one
    -- memory, strings are UTF-8, `resolve_aux_ptr_range` answers truly, the buffer is valid), and at
    -- most 2^32 ids of each kind are in use.
    pub load-in_order :
        (p : OrderedPass env)
        → Reach env capture registry indices p
        → Fits p.thread.interner
        → (results : InOrder env) × (in_order env capture registry
              (take (length p.shared.offsets) indices)
            ≡ some results)
          × (length p.shared.offsets ≤ p.fed)
          × ((pkt_idx : ℕ)
              → pkt_idx < length p.shared.offsets
              → (o : Outcome env) × (get_elem? results.0 pkt_idx ≡ some o) × Told p pkt_idx o)
    load-in_order p reached fits =
        let inv = Reach-Inv env capture registry indices sound p reached fits in
        (
          (inv.outcomes, p.thread.capture, p.thread.registry),
          ap (in_order env capture registry) (sym (published p inv)) ∙ inv.followed,
          omega (arith, published_length p inv, within_fed p inv),
          λ pkt_idx known.
              let (o, e, found, entry, stands) =
                AllStand-get_elem? p.spill p.shared.tables inv.outcomes p.shared.offsets pkt_idx
                  inv.stand known in
              (o, found, Told-entry p pkt_idx o e inv.few entry stands),
        )
