-- ===== src/Session/Pass/Looks.antt =====
-- `load` of src/session/ordered_pass.rs changes nothing but the error to report.
use dsct.Base.{ℕ, zero, suc, ◌≡◌, refl, Option, none, some, get_elem?}
use dsct.Packet.{Bytes}
use dsct.Codec.Decode.{StoredPacket, decode}
use dsct.Session.Pass.{
  Env, PassError, OrderedPass, read_record, fail_with, load_decoded, load_record, load_entry, load,
}

module _ (env : Env) where
  open env use {Message}

  -- The state with another error to report.
  abbrev pub OnlyError : OrderedPass env → OrderedPass env → Type 0
  OnlyError p q =
      (e : Option (PassError Message)) × (record p { shared = record p.shared { error = e } } ≡ q)

  fail_with-OnlyError :
      (p : OrderedPass env) (e : PassError Message) → OnlyError p (fail_with env e p).1
  unfolding fail_with
  fail_with-OnlyError p e = (some e, refl)

  same-OnlyError : (p : OrderedPass env) → OnlyError p p
  same-OnlyError p = (p.shared.error, refl)

  load_decoded-OnlyError :
      (p : OrderedPass env) (pkt_idx : ℕ) (o : Option StoredPacket)
      → OnlyError p (load_decoded env p pkt_idx o).1
  unfolding load_decoded
  load_decoded-OnlyError p pkt_idx none = fail_with-OnlyError p _
  load_decoded-OnlyError p pkt_idx (some stored) = same-OnlyError p

  load_record-OnlyError :
      (p : OrderedPass env) (pkt_idx : ℕ) (bytes : Bytes) (o : Option Bytes)
      → OnlyError p (load_record env p pkt_idx bytes o).1
  unfolding load_record
  load_record-OnlyError p pkt_idx bytes none = fail_with-OnlyError p _
  load_record-OnlyError p pkt_idx bytes (some kept) =
      load_decoded-OnlyError p pkt_idx (decode kept bytes p.shared.tables)

  load_entry-OnlyError :
      (p : OrderedPass env) (pkt_idx : ℕ) (bytes : Bytes) (o : Option ℕ)
      → OnlyError p (load_entry env p pkt_idx bytes o).1
  unfolding load_entry
  load_entry-OnlyError p pkt_idx bytes none = same-OnlyError p
  load_entry-OnlyError p pkt_idx bytes (some zero) = same-OnlyError p
  load_entry-OnlyError p pkt_idx bytes (some (suc offset)) =
      load_record-OnlyError p pkt_idx bytes (read_record p.spill offset)

  pub load-OnlyError :
      (p : OrderedPass env) (pkt_idx : ℕ) (bytes : Bytes) → OnlyError p (load env p pkt_idx bytes).1
  unfolding load
  load-OnlyError p pkt_idx bytes =
      load_entry-OnlyError p pkt_idx bytes (get_elem? p.shared.offsets pkt_idx)
