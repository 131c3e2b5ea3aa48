-- ===== src/Session/Pass/Follow.antt =====
-- The loop of `run` in src/session/ordered_pass.rs follows the in-order dissection.
use dsct.Base.{
  ◌^◌, ◌≡◌, refl, ap, sym, ◌∙◌, subst, true, false, Option, none, some, List, [], ◌∷◌, inl, inr,
  ◌⊎◌, length, ltb, ltb→lt, Bool-cases, Sum-cases, Option-cases,
}
use dsct.Packet.{Bytes, Slice}
use dsct.Codec.Intern.{Interner}
use dsct.Codec.Encode.{encode}
use dsct.Session.Pass.{
  PacketIndex, Dissected, Env, Work, find, skip, kept, keep, run_found, run_packet, run_packets,
}
use dsct.Session.Pass.Order.{Outcome, next_of, dissect_next, in_order, in_order-cons}
use dsct.Session.Pass.Stands.{Sound, AllSound}
use dsct.Session.Pass.Batch.{Ran, Ran-none, Ran-then, Ran-skip, Ran-kept}

module _ (env : Env) where
  open env use {Capture, Registry, Message}

  find_here :
      (c : Capture) (index : PacketIndex) {packet : Slice}
      → env.packet_data c index ≡ some packet
      → find env c index ≡ inr (some packet, c)
  unfolding find
  find_here c index here = rw (here, find)

  find_again :
      (c : Capture) (index : PacketIndex) {c' : Capture}
      → env.packet_data c index ≡ none
      → env.refresh c ≡ inr c'
      → find env c index ≡ inr (env.packet_data c' index, c')
  unfolding find
  find_again c index absent mapped = rw (absent, mapped, find)

  find_failed :
      (c : Capture) (index : PacketIndex) {m : Message}
      → env.packet_data c index ≡ none
      → env.refresh c ≡ inl m
      → find env c index ≡ inl m
  unfolding find
  find_failed c index absent failed = rw (absent, failed, find)

  -- A packet that was found is in the capture that goes on.
  found-packet_data :
      (c : Capture) (index : PacketIndex) {packet : Slice} {c' : Capture}
      → find env c index ≡ inr (some packet, c')
      → env.packet_data c' index ≡ some packet
  found-packet_data c index e = elim (Option-cases (env.packet_data c index)) [
    | inr (packet', here) ↦ cc (find_here c index here, here, e)
    | inl absent ↦ elim (Sum-cases (env.refresh c)) [
      | inl (m, failed) ↦ cc (find_failed c index absent failed, e)
      | inr (c'', mapped) ↦ cc (find_again c index absent mapped, e)
    ]
  ]

  Ran-of :
      (w : Work env) {w' : Work env} (w'' : Work env) (os : List (Outcome env)) (c : Capture)
      (r : Registry)
      → w'' ≡ w'
      → Ran env w w'' os
      → (w''.thread.capture ≡ c) × (w''.thread.registry ≡ r)
      → Ran env w w' os × (w'.thread.capture ≡ c) × (w'.thread.registry ≡ r)
  Ran-of w w'' os c r e ran same =
      subst (λ v. Ran env w v os × (v.thread.capture ≡ c) × (v.thread.registry ≡ r)) e
        (ran, same.0, same.1)

  module _ (w : Work env) (packet : Slice) (d : Dissected) where
    keep_unused : d.used_cross_packet_state ≡ false → keep env w packet d ≡ inr (skip env w)
    unfolding keep
    keep_unused unused = rw (unused, keep)

    abbrev record_of : Bytes × Interner
    record_of = encode d.buf packet d.ok w.thread.interner []

    keep_short :
        d.used_cross_packet_state ≡ true
        → ltb (length record_of.0) (2 ^ 32) ≡ true
        → keep env w packet d ≡ inr (kept env w record_of.0 record_of.1)
    unfolding keep
    keep_short used short = rw (used, short, keep)

    keep_long :
        d.used_cross_packet_state ≡ true
        → ltb (length record_of.0) (2 ^ 32) ≡ false
        → keep env w packet d ≡ inl env.too_large
    unfolding keep
    keep_long used long = rw (used, long, keep)

  keep-Ran :
      (w : Work env) (c : Capture) (r : Registry) (packet : Slice) (d : Dissected) {w' : Work env}
      → Sound packet d.buf
      → keep env (record w { thread = record w.thread { capture = c; registry = r } }) packet d
        ≡ inr w'
      → Ran env w w' (some (packet, d) ∷ []) × (w'.thread.capture ≡ c) × (w'.thread.registry ≡ r)
  keep-Ran w c r packet d sound e =
      let v = record w { thread = record w.thread { capture = c; registry = r } } in
      elim (Bool-cases d.used_cross_packet_state) [
        | inr unused ↦
            Ran-of w (skip env v) (some (packet, d) ∷ []) c r
              (cc (keep_unused v packet d unused, e))
              (Ran-skip env w c r (some (packet, d)) (λ file t. unused)) (refl, refl)
        | inl used ↦ elim (Bool-cases (ltb (length (record_of w packet d).0) (2 ^ 32))) [
          | inl short ↦
              Ran-of w (kept env v (record_of w packet d).0 (record_of w packet d).1)
                (some (packet, d) ∷ []) c r (cc (keep_short v packet d used short, e))
                (Ran-kept env w c r packet d sound used (ltb→lt _ _ short)) (refl, refl)
          | inr long ↦ absurd (cc (keep_long v packet d used long, e))
        ]
      ]

  module _ (sound : AllSound env) where
    -- One round of the loop follows the in-order dissection.
    abbrev pub Follows : Work env → Work env → PacketIndex → Type 0
    Follows w w' index =
        (o : Outcome env) × (dissect_next env w.thread.capture w.thread.registry index
          ≡ some (o, w'.thread.capture, w'.thread.registry))
        × Ran env w w' (o ∷ [])

    dissect_next_of :
        (c : Capture) (r : Registry) (index : PacketIndex)
        (found : Message ⊎ (Option Slice × Capture))
        → find env c index ≡ found
        → dissect_next env c r index ≡ next_of env r index found
    unfolding dissect_next
    dissect_next_of c r index found at = ap (next_of env r index) at

    run_found-Follows :
        (w : Work env) (index : PacketIndex) (found : Message ⊎ (Option Slice × Capture))
        {w' : Work env}
        → find env w.thread.capture index ≡ found
        → run_found env w index found ≡ inr w'
        → Follows w w' index
    unfolding run_found next_of
    run_found-Follows w index (inl m) at e = absurd (cc e)
    run_found-Follows w index (inr (none, c)) at e =
        let r = w.thread.registry in
        let (ran, same_c, same_r) =
          Ran-of w _ (none ∷ []) c r (cc e) (Ran-skip env w c r none (λ file t. refl))
            (refl, refl) in
        (none, dissect_next_of w.thread.capture r index _ at ∙ cc (same_c, same_r), ran)
    run_found-Follows w index (inr (some packet, c)) at e =
        let (d, r) = env.dissect w.thread.registry packet index.link_type in
        let promise =
          sound c index packet (found-packet_data w.thread.capture index at) w.thread.registry
            index.link_type in
        let (ran, same_c, same_r) = keep-Ran w c r packet d promise e in
        (
          some (packet, d),
          dissect_next_of w.thread.capture w.thread.registry index _ at ∙ cc (same_c, same_r),
          ran,
        )

    run_packet-Follows :
        (w : Work env) (index : PacketIndex) {w' : Work env}
        → run_packet env w index ≡ inr w'
        → Follows w w' index
    unfolding run_packet
    run_packet-Follows w index e = run_found-Follows w index _ refl e

    run_packets_stops :
        (w : Work env) (index : PacketIndex) (rest : List PacketIndex) {m : Message}
        → run_packet env w index ≡ inl m
        → run_packets env w (index ∷ rest) ≡ inl m
    unfolding run_packets
    run_packets_stops w index rest e = rw (e, run_packets)

    run_packets_goes :
        (w : Work env) (index : PacketIndex) (rest : List PacketIndex) {w' : Work env}
        → run_packet env w index ≡ inr w'
        → run_packets env w (index ∷ rest) ≡ run_packets env w' rest
    unfolding run_packets
    run_packets_goes w index rest e = rw (e, run_packets)

    -- The loop over a batch follows the in-order dissection of its packets.
    pub run_packets-Ran :
        (w : Work env) (batch : List PacketIndex) {w' : Work env}
        → run_packets env w batch ≡ inr w'
        → (os : List (Outcome env)) × (in_order env w.thread.capture w.thread.registry batch
            ≡ some (os, w'.thread.capture, w'.thread.registry))
          × Ran env w w' os
    unfolding run_packets in_order
    run_packets-Ran w [] {w'} e =
        let same : w ≡ w' = cc e in ([], cc same, subst (λ v. Ran env w v []) same (Ran-none env w))
    run_packets-Ran w (index ∷ rest) {w'} e = elim (Sum-cases (run_packet env w index)) [
      | inl (m, failed) ↦ absurd (cc (run_packets_stops w index rest failed, e))
      | inr (w1, went) ↦
          let (o, first, ran) = run_packet-Follows w index went in
          let (os, others, ran') =
            run_packets-Ran w1 rest (sym (run_packets_goes w index rest went) ∙ e) in
          (
            o ∷ os,
            in_order-cons env w.thread.capture w.thread.registry index rest first others,
            Ran-then env w w1 w' o os ran ran',
          )
    ]
