-- ===== src/Session/Pass/Shown.antt =====
-- What the display of src/session/ordered_pass.rs shows is what the in-order dissection found.
use dsct.Base.{
  ℕ, zero, suc, ◌<◌, ◌≡◌, refl, ap, sym, ◌∙◌, subst, false, Option, none, some, List, [], ◌∷◌, inl,
  inr, ◌⊎◌, arith, length, take, get_elem?, if◌then◌else◌, if_same, get_elem?-take, get_elem?-lt,
  length-take,
}
use dsct.Packet.{Bytes, Slice}
use dsct.Codec.Intern.Laws.{Fits}
use dsct.Codec.Decode.{StoredPacket}
use dsct.Session.Pass.{PacketIndex, Dissected, Env, OrderedPass, Status, status, load, find}
use dsct.Session.Pass.Order.{Outcome, InOrder, next_of, dissect_next, in_order, in_order-eq-some}
use dsct.Session.Pass.Stands.{AllSound}
use dsct.Session.Pass.System.{Reach}
use dsct.Session.Pass.Loads.{result_of, Told, load-in_order, length-in_order}
use dsct.Session.Pass.Resolve.{
  Display, seen, load_known, by_status, dissect_on_demand, resolve_known, resolve_with, resolve,
  beside,
}

module _ (env : Env) where
  open env use {Capture, Registry, Message}

  -- A dissection that used no state shows the same of the same bytes, wherever they stand and whatever
  -- the registry.
  abbrev pub Local : Type 0
  Local =
      (r r' : Registry) (packet packet' : Slice) (link_type : ℕ)
      → packet'.bytes ≡ packet.bytes
      → (env.dissect r packet link_type).0.used_cross_packet_state ≡ false
      → result_of packet' (env.dissect r' packet' link_type).0
        ≡ result_of packet (env.dissect r packet link_type).0

  by_status_stateless :
      (d : Display) (p : OrderedPass env) (pkt_idx : ℕ) (bytes : Bytes) {s : Status}
      → s ≡ Status.stateless_packet
      → by_status env d p pkt_idx bytes s ≡ (d, p)
  unfolding by_status
  by_status_stateless d p pkt_idx bytes e = ap (by_status env d p pkt_idx bytes) e

  dissect_on_demand_stateless :
      (registry : Registry) (p : OrderedPass env) (pkt_idx : ℕ) (packet : Slice) (link_type : ℕ)
      → status env p pkt_idx ≡ Status.stateless_packet
      → dissect_on_demand env registry p pkt_idx packet link_type ≡ (
        Display.dissected packet (env.dissect registry packet link_type).0,
        p,
        (env.dissect registry packet link_type).1,
      )
  unfolding dissect_on_demand
  dissect_on_demand_stateless registry p pkt_idx packet link_type e =
      let (d, registry') = env.dissect registry packet link_type in
      let shown = Display.dissected packet d in
      let asked = by_status env shown p pkt_idx packet.bytes (status env p pkt_idx) in
      let same : asked ≡ (shown, p) = by_status_stateless shown p pkt_idx packet.bytes e in
      ap (λ r. beside env registry' (if d.used_cross_packet_state then r else (shown, p))) same
      ∙ ap (beside env registry') (if_same d.used_cross_packet_state (shown, p))

  resolve_stateful :
      (registry : Registry) (p : OrderedPass env) (pkt_idx : ℕ) (packet : Slice) (link_type : ℕ)
      {s : StoredPacket}
      → status env p pkt_idx ≡ Status.stateful
      → load env p pkt_idx packet.bytes ≡ (some s, p)
      → resolve_with env registry p pkt_idx packet link_type ≡ (Display.stored s, p, registry)
  unfolding resolve_with resolve_known load_known
  resolve_stateful registry p pkt_idx packet link_type e e' =
      ap
        (λ s.
          resolve_known env registry pkt_idx packet link_type
            (load_known env p pkt_idx packet.bytes s))
        e
      ∙ ap (resolve_known env registry pkt_idx packet link_type) e'

  resolve_stateless :
      (registry : Registry) (p : OrderedPass env) (pkt_idx : ℕ) (packet : Slice) (link_type : ℕ)
      → status env p pkt_idx ≡ Status.stateless_packet
      → resolve_with env registry p pkt_idx packet link_type ≡ (
        Display.dissected packet (env.dissect registry packet link_type).0,
        p,
        (env.dissect registry packet link_type).1,
      )
  unfolding resolve_with resolve_known load_known
  resolve_stateless registry p pkt_idx packet link_type e =
      ap
        (λ s.
          resolve_known env registry pkt_idx packet link_type
            (load_known env p pkt_idx packet.bytes s))
        e
      ∙ dissect_on_demand_stateless registry p pkt_idx packet link_type e

  next_of-dissected :
      (r : Registry) (index : PacketIndex) (found : Message ⊎ (Option Slice × Capture))
      {packet : Slice} {d : Dissected} {next : Outcome env × Capture × Registry}
      → next_of env r index found ≡ some next
      → next.0 ≡ some (packet, d)
      → d ≡ (env.dissect r packet index.link_type).0
  unfolding next_of
  next_of-dissected r index (inl m) e e' = absurd (cc e)
  next_of-dissected r index (inr (none, c)) e e' = absurd (cc (e, e'))
  next_of-dissected r index (inr (some found, c)) {packet} {d} {next} e e' =
      let same : some (found, (env.dissect r found index.link_type).0) ≡ some (packet, d) =
        ap (λ (n : Outcome env × Capture × Registry). n.0)
          {x = (
            some (found, (env.dissect r found index.link_type).0),
            c,
            (env.dissect r found index.link_type).1,
          )}
          {y = next} (cc e)
        ∙ e' in
      let packet_same : found ≡ packet = cc same in
      let d_same : (env.dissect r found index.link_type).0 ≡ d = cc same in
      sym d_same ∙ ap (λ s. (env.dissect r s index.link_type).0) packet_same

  dissect_next-dissected :
      (c : Capture) (r : Registry) (index : PacketIndex) {packet : Slice} {d : Dissected}
      {next : Outcome env × Capture × Registry}
      → dissect_next env c r index ≡ some next
      → next.0 ≡ some (packet, d)
      → d ≡ (env.dissect r packet index.link_type).0
  unfolding dissect_next
  dissect_next-dissected c r index = next_of-dissected r index (find env c index)

  -- A packet's outcome in capture order comes from a dissection of the packet's index.
  in_order-dissected :
      (c : Capture) (r : Registry) (is : List PacketIndex) (i : ℕ) {all : InOrder env}
      {packet : Slice} {d : Dissected}
      → in_order env c r is ≡ some all
      → get_elem? all.0 i ≡ some (some (packet, d))
      → (index : PacketIndex) × (r' : Registry) × (get_elem? is i ≡ some index)
        × (d ≡ (env.dissect r' packet index.link_type).0)
  unfolding in_order
  in_order-dissected c r [] i {all} e at =
      let none_left : [] ≡ all.0 =
        ap (λ (o : InOrder env). o.0) {x = ([], c, r)} {y = all} (cc e) in
      absurd (cc (ap (λ os. get_elem? os i) none_left, at))
  in_order-dissected c r (index ∷ is) zero {all} {packet} {d} e at =
      let (next, others, found, found', same) = in_order-eq-some env c r index is e in
      let here : next.0 ≡ some (packet, d) =
        cc (ap (λ (o : InOrder env). get_elem? o.0 0) same, at) in
      (index, r, refl, dissect_next-dissected c r index found here)
  in_order-dissected c r (index ∷ is) (suc i) e at =
      let (next, others, found, found', same) = in_order-eq-some env c r index is e in
      in_order-dissected next.1 next.2 is i found'
        (ap (λ (o : InOrder env). get_elem? o.0 (suc i)) same ∙ at)

  module _ (capture : Capture) (registry : Registry) (indices : List PacketIndex)
      (sound : AllSound env) (local : Local) where
    abbrev as_option :
        Display × OrderedPass env × Registry → Display × Option (OrderedPass env) × Registry
    as_option (display, p, r) = (display, some p, r)

    resolve-Told :
        (display_registry : Registry) (p : OrderedPass env) (pkt_idx : ℕ) (packet packet' : Slice)
        (d : Dissected) (r : Registry) (link_type : ℕ)
        → Told env p pkt_idx (some (packet, d))
        → d ≡ (env.dissect r packet link_type).0
        → packet'.bytes ≡ packet.bytes
        → (registry' : Registry) × (display : Display) × (resolve env display_registry
              (some p)
              pkt_idx
              packet'
              link_type
            ≡ (display, some p, registry'))
          × (seen display ≡ some (result_of packet d))
    unfolding resolve
    resolve-Told shown_with p pkt_idx packet packet' d r link_type (inl (unused, stateless)) from
          same =
        let answer = resolve_stateless shown_with p pkt_idx packet' link_type stateless in
        let free : (env.dissect r packet link_type).0.used_cross_packet_state ≡ false =
          ap (λ (x : Dissected). x.used_cross_packet_state) (sym from) ∙ unused in
        (
          (env.dissect shown_with packet' link_type).1,
          Display.dissected packet' (env.dissect shown_with packet' link_type).0,
          ap as_option answer,
          ap some (
              local r shown_with packet packet' link_type same free
              ∙ ap (result_of packet) (sym from)),
        )
    resolve-Told shown_with p pkt_idx packet packet' d r link_type (inr (used, stateful, loaded))
          from same =
        let loaded' : load env p pkt_idx packet'.bytes ≡ (some (result_of packet d), p) =
          ap (load env p pkt_idx) same ∙ loaded in
        (
          shown_with,
          Display.stored (result_of packet d),
          ap as_option (resolve_stateful shown_with p pkt_idx packet' link_type stateful loaded'),
          refl,
        )

    -- For a packet that the pass has reached, `resolve` shows the packet and flag of the dissection in
    -- capture order, whatever registry the display dissects with and wherever it has mapped the bytes,
    -- and leaves the pass as it is.
    -- Assumed: the two threads can reach the state, the dissector keeps its promises, a dissection that
    -- used no state shows the same of the same bytes with any registry, and at most 2^32 ids of each
    -- kind are in use.
    pub resolve-in_order :
        (display_registry : Registry) (p : OrderedPass env) (pkt_idx : ℕ) (index : PacketIndex)
        (packet packet' : Slice) (d : Dissected) {results : InOrder env}
        → Reach env capture registry indices p
        → Fits p.thread.interner
        → in_order env capture registry (take (length p.shared.offsets) indices) ≡ some results
        → get_elem? indices pkt_idx ≡ some index
        → get_elem? results.0 pkt_idx ≡ some (some (packet, d))
        → packet'.bytes ≡ packet.bytes
        → (registry' : Registry) × (display : Display) × (resolve env display_registry
              (some p)
              pkt_idx
              packet'
              index.link_type
            ≡ (display, some p, registry'))
          × (seen display ≡ some (result_of packet d))
    resolve-in_order shown_with p pkt_idx index packet packet' d {results} reached fits order at
          found same =
        let (results', order', few, told) =
          load-in_order env capture registry indices sound p reached fits in
        let known : pkt_idx < length p.shared.offsets = omega (
          arith,
          get_elem?-lt results.0 pkt_idx found,
          length-in_order env capture registry _ order,
          length-take (length p.shared.offsets) indices,
        ) in
        let (o, at_o, told_o) = told pkt_idx known in
        let (index', r, at', from) = in_order-dissected capture registry _ pkt_idx order found in
        let results_same : results' ≡ results = cc (order, order') in
        let outcome_same : o ≡ some (packet, d) =
          cc (ap (λ (x : InOrder env). get_elem? x.0 pkt_idx) results_same, at_o, found) in
        let index_same : index' ≡ index =
          cc (get_elem?-take (length p.shared.offsets) indices pkt_idx known, at, at') in
        resolve-Told shown_with p pkt_idx packet packet' d r index.link_type
          (subst (Told env p pkt_idx) outcome_same told_o)
          (from ∙ ap (λ (x : PacketIndex). (env.dissect r packet x.link_type).0) index_same) same
