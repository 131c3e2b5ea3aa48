-- ===== src/Read/Entries.antt =====
-- The entries a worker of src/parallel_read.rs makes of packets, merged, are the packets processed in
-- capture order.
use dsct.Base.{
  ℕ, zero, suc, ◌+◌, ◌≡◌, refl, sym, ap, subst, ◌∙◌, Bool, true, false, Bool-cases, Option-cases,
  Option, none, some, List, [], ◌∷◌, inl, inr, arith, get_elem?, length, ◌>>=◌,
}
use dsct.Packet.{Bytes}
use dsct.Read.{Packet, PacketMeta, Limits, Env, Flow, State, Dissected, for_each, and_then}
use dsct.Read.InOrder.{judge, packet, warn}
use dsct.Read.Batch.{InputBatch, get}
use dsct.Read.Worker.{WorkerEntry, undissected, in_front, serialised, entry_of, dissect_packets}
use dsct.Read.Merger.{again, merge_entry, count_in_order}
use dsct.Read.Same.{Same, forget, flow_map, and_then-Same, packet-Same, match_found-Same}

-- A dissection that used no state kept across packets depends on none and changes none.
abbrev pub Local : Env → Type 0
Local env =
    (r : env.Registry) (bytes : Bytes) (link_type : ℕ) (r' : env.Registry)
    → (env.dissect r bytes link_type).0.used_cross_packet_state ≡ false
    → env.dissect r' bytes link_type ≡ ((env.dissect r bytes link_type).0, r')

-- Writing a packet as JSON into memory does not fail.
abbrev pub Writes : Env → Type 0
Writes env =
    (meta : PacketMeta) (b : env.Buffer) (bytes : Bytes)
    → (json : Bytes) × (env.write_json meta b bytes ≡ inr json)

-- The packets that entries from `index` on are about are in the batch handed over.
abbrev pub Has : Option InputBatch → ℕ → List Packet → Type 0
Has handed index ps =
    (j : ℕ) (p : Packet) → get_elem? ps j ≡ some p → (handed >>= λ b. get b (index + j)) ≡ some p

module _ (env : Env) (limits : Limits) where
  open env use {Registry, Message, Buffer}

  module _ (serialize_error : ℕ → Message → Message) (not_handed_over : Message) where
    abbrev pub entry :
        Option InputBatch → State env → WorkerEntry Message → Flow (State env) Message
    entry = merge_entry env limits serialize_error not_handed_over

    Has-head :
        (handed : Option InputBatch) (index : ℕ) (p : Packet) (ps : List Packet)
        → Has handed index (p ∷ ps)
        → (handed >>= λ b. get b index) ≡ some p
    Has-head handed index p ps h =
        ap (λ (i : ℕ). handed >>= λ b. get b i) (omega arith) ∙ h zero p refl

    Has-tail :
        (handed : Option InputBatch) (index : ℕ) (p : Packet) (ps : List Packet)
        → Has handed index (p ∷ ps)
        → Has handed (suc index) ps
    Has-tail handed index p ps h j q e =
        ap (λ (i : ℕ). handed >>= λ b. get b i) (omega arith) ∙ h (suc j) q e

    in_order-Same :
        (handed : Option InputBatch) (index : ℕ) (p : Packet) (s s' : State env)
        → (handed >>= λ b. get b index) ≡ some p
        → forget env s ≡ forget env s'
        → Same env (entry handed s (WorkerEntry.in_order index)) (packet env limits s' p)
    unfolding merge_entry again
    in_order-Same handed index p s s' found e =
        ap
          (λ (o : Option Packet).
            flow_map (forget env) (again env limits serialize_error not_handed_over s o))
          found
        ∙ packet-Same env limits p (count_in_order env limits serialize_error not_handed_over s) s'
            e

    pub undissected-Same :
        (handed : Option InputBatch) (index : ℕ) (ps : List Packet) (s s' : State env)
        → Has handed index ps
        → forget env s ≡ forget env s'
        → Same env
            (for_each (entry handed) s (undissected (length ps) index))
            (for_each (packet env limits) s' ps)
    unfolding undissected for_each
    undissected-Same handed index [] s s' h e = ap Flow.continue e
    undissected-Same handed index (p ∷ ps) s s' h e =
        and_then-Same env _ _ _ _
          (in_order-Same handed index p s s' (Has-head handed index p ps h) e)
          (λ t t' e'. undissected-Same handed (suc index) ps t t' (Has-tail handed index p ps h) e')

    module _ (local : Local env) (writes : Writes env) where
      packet_of :
          (r : Registry) (s : State env) (meta : PacketMeta) (bytes : Bytes)
          → (env.dissect r bytes meta.link_type).0.used_cross_packet_state ≡ false
          → packet env limits s (meta, bytes) ≡ (
              let d = (env.dissect r bytes meta.link_type).0 in
              judge env limits s meta bytes d.buffer d.error)
      unfolding packet
      packet_of r s meta bytes e = rw (local r bytes meta.link_type s.registry e)

      -- What the entry of a packet, or having none, stands for.
      abbrev Stands : Option InputBatch → Packet → Option (WorkerEntry Message × Bool) → Type 0
      Stands handed p none = (s : State env) → packet env limits s p ≡ Flow.continue s
      Stands handed p (some (e, true)) = true ≡ false
      Stands handed p (some (e, false)) =
          (s s' : State env)
          → forget env s ≡ forget env s'
          → Same env (entry handed s e) (packet env limits s' p)

      abbrev outcome : Registry → PacketMeta → Bytes → Dissected Buffer Message
      outcome r meta bytes = (env.dissect r bytes meta.link_type).0

      Stands-of :
          (handed : Option InputBatch) (p : Packet) (o o' : Option (WorkerEntry Message × Bool))
          → o ≡ o'
          → Stands handed p o'
          → Stands handed p o
      Stands-of handed p o o' e = subst (Stands handed p) (sym e)

      matched-Stands :
          (handed : Option InputBatch) (r : Registry) (index : ℕ) (meta : PacketMeta)
          (bytes : Bytes)
          → (outcome r meta bytes).used_cross_packet_state ≡ false
          → (outcome r meta bytes).error ≡ none
          → Stands handed (meta, bytes) (entry_of env index meta bytes (outcome r meta bytes))
      unfolding entry_of judge serialised merge_entry
      matched-Stands handed r index meta bytes unused fine =
          let (json, wrote) = writes meta (outcome r meta bytes).buffer bytes in
          elim (Bool-cases (env.matches (outcome r meta bytes).buffer bytes meta.number)) [
            | inl hit ↦
                Stands-of handed (meta, bytes)
                  (entry_of env index meta bytes (outcome r meta bytes))
                  (some (WorkerEntry.matched json, false)) (rw (unused, fine, hit, wrote))
                  (λ (s : State env) (s' : State env) (e : forget env s ≡ forget env s').
                    match_found-Same env limits (inr json) s s' e
                    ∙ ap (flow_map (forget env))
                        (rw (packet_of r s' meta bytes unused, fine, hit, wrote)))
            | inr miss ↦
                Stands-of handed (meta, bytes)
                  (entry_of env index meta bytes (outcome r meta bytes)) none
                  (rw (unused, fine, miss))
                  (λ (s : State env). rw (packet_of r s meta bytes unused, fine, miss))
          ]

      failed-Stands :
          (handed : Option InputBatch) (r : Registry) (index : ℕ) (meta : PacketMeta)
          (bytes : Bytes) (m : Message)
          → (outcome r meta bytes).used_cross_packet_state ≡ false
          → (outcome r meta bytes).error ≡ some m
          → Stands handed (meta, bytes) (entry_of env index meta bytes (outcome r meta bytes))
      unfolding entry_of judge merge_entry
      failed-Stands handed r index meta bytes m unused failed =
          Stands-of handed (meta, bytes) (entry_of env index meta bytes (outcome r meta bytes))
            (some (WorkerEntry.warning meta.number m, false)) (rw (unused, failed))
            (λ (s : State env) (s' : State env) (e : forget env s ≡ forget env s').
              ap (λ (t : State env). Flow.continue (warn env limits t meta.number m)) e
              ∙ ap (flow_map (forget env)) (sym (warned s')))
        where
          warned :
              (s' : State env)
              → packet env limits s' (meta, bytes)
                ≡ Flow.continue (warn env limits s' meta.number m)
          warned s' = rw (packet_of r s' meta bytes unused, failed)

      entry_of-Stands :
          (handed : Option InputBatch) (r : Registry) (index : ℕ) (meta : PacketMeta)
          (bytes : Bytes)
          → (handed >>= λ b. get b index) ≡ some (meta, bytes)
          → Stands handed (meta, bytes) (entry_of env index meta bytes (outcome r meta bytes))
      unfolding entry_of
      entry_of-Stands handed r index meta bytes found =
          elim (Bool-cases (outcome r meta bytes).used_cross_packet_state) [
            | inl used ↦
                Stands-of handed (meta, bytes)
                  (entry_of env index meta bytes (outcome r meta bytes))
                  (some (WorkerEntry.in_order index, false)) (rw used)
                  (λ (s : State env) (s' : State env) (e : forget env s ≡ forget env s').
                    in_order-Same handed index (meta, bytes) s s' found e)
            | inr unused ↦ elim (Option-cases (outcome r meta bytes).error) [
              | inl fine ↦ matched-Stands handed r index meta bytes unused fine
              | inr (m, failed) ↦ failed-Stands handed r index meta bytes m unused failed
            ]
          ]

      in_front-Same :
          (handed : Option InputBatch) (p : Packet) (o : Option (WorkerEntry Message × Bool))
          (ps : List Packet) (r : Registry) (rest : List (WorkerEntry Message) × Bool × Registry)
          (s s' : State env)
          → Stands handed p o
          → forget env s ≡ forget env s'
          → ((t t' : State env)
              → forget env t ≡ forget env t'
              → Same env (for_each (entry handed) t rest.0) (for_each (packet env limits) t' ps))
          → Same env
              (for_each (entry handed) s (in_front env o r rest).0)
              (for_each (packet env limits) s' (p ∷ ps))
      unfolding for_each and_then
      in_front-Same handed p none ps r rest s s' stands e h = rw (stands s', h s s' e)
      in_front-Same handed p (some (x, true)) ps r rest s s' stands e h = absurd (cc stands)
      in_front-Same handed p (some (x, false)) ps r rest s s' stands e h =
          and_then-Same env _ _ _ _ (stands s s' e) h

      pub dissect_packets-Same :
          (handed : Option InputBatch) (r : Registry) (index : ℕ) (ps : List Packet)
          (s s' : State env)
          → Has handed index ps
          → forget env s ≡ forget env s'
          → Same env
              (for_each (entry handed) s (dissect_packets env r index ps).0)
              (for_each (packet env limits) s' ps)
      unfolding for_each dissect_packets
      dissect_packets-Same handed r index [] s s' h e = ap Flow.continue e
      dissect_packets-Same handed r index ((meta, bytes) ∷ ps) s s' h e =
          in_front-Same handed (meta, bytes) _ ps _ _ s s'
            (entry_of-Stands handed r index meta bytes (Has-head handed index (meta, bytes) ps h)) e
            (λ t t' e'.
              dissect_packets-Same handed (env.dissect r bytes meta.link_type).1 (suc index) ps t t'
                (Has-tail handed index (meta, bytes) ps h) e')

      in_front_whole :
          (handed : Option InputBatch) (p : Packet) (o : Option (WorkerEntry Message × Bool))
          (r : Registry) (rest : List (WorkerEntry Message) × Bool × Registry)
          → Stands handed p o
          → rest.1 ≡ false
          → (in_front env o r rest).1 ≡ false
      in_front_whole handed p none r rest stands e = e
      in_front_whole handed p (some (x, true)) r rest stands e = absurd (cc stands)
      in_front_whole handed p (some (x, false)) r rest stands e = e

      -- The loop reaches the end of its batch.
      pub dissect_packets_whole :
          (handed : Option InputBatch) (r : Registry) (index : ℕ) (ps : List Packet)
          → Has handed index ps
          → (dissect_packets env r index ps).1 ≡ false
      unfolding dissect_packets
      dissect_packets_whole handed r index [] h = refl
      dissect_packets_whole handed r index ((meta, bytes) ∷ ps) h =
          in_front_whole handed (meta, bytes) (entry_of env index meta bytes (outcome r meta bytes))
            _ _
            (entry_of-Stands handed r index meta bytes (Has-head handed index (meta, bytes) ps h))
            (dissect_packets_whole handed (env.dissect r bytes meta.link_type).1 (suc index) ps
              (Has-tail handed index (meta, bytes) ps h))
