-- ===== src/Session/Pass/Damaged.antt =====
-- `load` of src/session/ordered_pass.rs on any spill file, also one that is cut off or damaged.
use dsct.Base.{
  ℕ, zero, suc, ◌+◌, ◌≡◌, refl, Bool, true, false, Option, none, some, ◌⊎◌, inl, inr, get_elem?,
  All, length,
}
use dsct.Packet.{Bytes, Within}
use dsct.Codec.Decode.{StoredPacket, decode}
use dsct.Codec.Safe.{SafePacket, decode-SafePacket}
use dsct.Session.Pass.{
  Env, PassError, OrderedPass, Status, status_of, status, read_record, fail_with, load_decoded,
  load_record, load_entry, load,
}

module _ (env : Env) where
  open env use {Message}

  -- A safe packet and nothing else changed, or nothing and the reason.
  abbrev pub Answers : OrderedPass env → ℕ → Bytes → Option StoredPacket × OrderedPass env → Type 0
  Answers p pkt_idx bytes answer =
      ((s : StoredPacket) × (answer ≡ (some s, p))
        × SafePacket bytes p.shared.tables s
        × All (λ l. Within (length s.packet.fields) l.field_range) s.packet.layers)
      ⊎ ((e : PassError Message) × (answer
            ≡ (none, record p { shared = record p.shared { error = some e } }))
          × ((e ≡ PassError.unreadable (pkt_idx + 1)) ⊎ (e ≡ PassError.damaged (pkt_idx + 1))))

  load_decoded-Answers :
      (p : OrderedPass env) (pkt_idx : ℕ) (bytes kept : Bytes) (o : Option StoredPacket)
      → decode kept bytes p.shared.tables ≡ o
      → Answers p pkt_idx bytes (load_decoded env p pkt_idx o)
  unfolding load_decoded fail_with
  load_decoded-Answers p pkt_idx bytes kept none e =
      inr (PassError.damaged (pkt_idx + 1), refl, inr refl)
  load_decoded-Answers p pkt_idx bytes kept (some s) e =
      let (safe, within) = decode-SafePacket kept bytes p.shared.tables e in
      inl (s, refl, safe, within)

  load_record-Answers :
      (p : OrderedPass env) (pkt_idx : ℕ) (bytes : Bytes) (o : Option Bytes)
      → Answers p pkt_idx bytes (load_record env p pkt_idx bytes o)
  unfolding load_record fail_with
  load_record-Answers p pkt_idx bytes none =
      inr (PassError.unreadable (pkt_idx + 1), refl, inl refl)
  load_record-Answers p pkt_idx bytes (some kept) =
      load_decoded-Answers p pkt_idx bytes kept (decode kept bytes p.shared.tables) refl

  load_entry-Answers :
      (p : OrderedPass env) (pkt_idx : ℕ) (bytes : Bytes) (o : Option ℕ) (stopped : Bool)
      → status_of env o stopped ≡ Status.stateful
      → Answers p pkt_idx bytes (load_entry env p pkt_idx bytes o)
  unfolding load_entry status_of
  load_entry-Answers p pkt_idx bytes none true e = absurd (cc e)
  load_entry-Answers p pkt_idx bytes none false e = absurd (cc e)
  load_entry-Answers p pkt_idx bytes (some zero) stopped e = absurd (cc e)
  load_entry-Answers p pkt_idx bytes (some (suc offset)) stopped e =
      load_record-Answers p pkt_idx bytes (read_record p.spill offset)

  -- Of a packet that is Stateful, in any state and with any contents of the spill file, `load` returns
  -- a packet with its sources, strings, children, scratch ranges and field ranges in bounds (the byte
  -- ranges of layers and fields are not checked) and changes nothing, or it returns nothing and reports that the packet's result cannot be read or is damaged, with the
  -- packet's number counted from 1.
  pub load-Answers :
      (p : OrderedPass env) (pkt_idx : ℕ) (bytes : Bytes)
      → status env p pkt_idx ≡ Status.stateful
      → Answers p pkt_idx bytes (load env p pkt_idx bytes)
  unfolding load status
  load-Answers p pkt_idx bytes e =
      load_entry-Answers p pkt_idx bytes (get_elem? p.shared.offsets pkt_idx) p.shared.stopped e
