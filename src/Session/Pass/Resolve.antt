-- ===== src/Session/Pass/Resolve.antt =====
-- `resolve` of src/session/ordered_pass.rs: where the display gets a packet's result from.
use dsct.Base.{ℕ, Option, none, some, if◌then◌else◌}
use dsct.Packet.{Bytes, Slice}
use dsct.Codec.Decode.{StoredPacket}
use dsct.Session.Pass.{Dissected, Env, OrderedPass, Status, status, load}
use dsct.Session.Pass.Loads.{result_of}

-- What is shown; a dissection comes with the packet that its slices point into.
pub data Display : Type 0 where
  dissected : Slice → Dissected → Display
  stored : StoredPacket → Display
  pending : Display

-- The packet and flag that the display takes apart, if it does not wait for them.
abbrev pub seen : Display → Option StoredPacket
seen (Display.dissected packet d) = some (result_of packet d)
seen (Display.stored s) = some s
seen Display.pending = none

module _ (env : Env) where
  open env use {Capture, Registry, Message}

  -- The first test: a packet that is known to be stateful is loaded.
  unfoldable pub load_known :
      OrderedPass env → ℕ → Bytes → Status → Option StoredPacket × OrderedPass env
  unfolding load
  load_known p pkt_idx bytes Status.stateful = load env p pkt_idx bytes
  load_known p pkt_idx bytes _ = (none, p)

  unfoldable pub loaded_or :
      Display → Option StoredPacket × OrderedPass env → Display × OrderedPass env
  loaded_or d (none, p) = (d, p)
  loaded_or d (some s, p) = (Display.stored s, p)

  -- The second test, for a dissection on demand that used state.
  unfoldable pub by_status :
      Display → OrderedPass env → ℕ → Bytes → Status → Display × OrderedPass env
  unfolding load loaded_or
  by_status d p pkt_idx bytes Status.pending = (Display.pending, p)
  by_status d p pkt_idx bytes Status.stateful = loaded_or d (load env p pkt_idx bytes)
  by_status d p pkt_idx bytes _ = (d, p)

  abbrev pub beside : Registry → Display × OrderedPass env → Display × OrderedPass env × Registry
  beside registry (display, p) = (display, p, registry)

  unfoldable pub dissect_on_demand :
      Registry → OrderedPass env → ℕ → Slice → ℕ → Display × OrderedPass env × Registry
  unfolding by_status status
  dissect_on_demand registry p pkt_idx packet link_type =
      let (d, registry') = env.dissect registry packet link_type in
      let shown = Display.dissected packet d in
      beside registry' (
        if d.used_cross_packet_state
        then by_status shown p pkt_idx packet.bytes (status env p pkt_idx)
        else (shown, p))

  unfoldable pub resolve_known :
      Registry
      → ℕ
      → Slice
      → ℕ
      → Option StoredPacket × OrderedPass env
      → Display × OrderedPass env × Registry
  unfolding dissect_on_demand
  resolve_known registry pkt_idx packet link_type (some s, p) = (Display.stored s, p, registry)
  resolve_known registry pkt_idx packet link_type (none, p) =
      dissect_on_demand registry p pkt_idx packet link_type

  unfoldable pub resolve_with :
      Registry → OrderedPass env → ℕ → Slice → ℕ → Display × OrderedPass env × Registry
  unfolding load_known resolve_known status
  resolve_with registry p pkt_idx packet link_type =
      resolve_known registry pkt_idx packet link_type
        (load_known p pkt_idx packet.bytes (status env p pkt_idx))

  -- Without a pass every packet is dissected on demand.
  unfoldable pub resolve :
      Registry
      → Option (OrderedPass env)
      → ℕ
      → Slice
      → ℕ
      → Display × Option (OrderedPass env) × Registry
  unfolding resolve_with
  resolve registry none pkt_idx packet link_type =
      let (d, registry') = env.dissect registry packet link_type in
      (Display.dissected packet d, none, registry')
  resolve registry (some p) pkt_idx packet link_type =
      let (display, p', registry') = resolve_with registry p pkt_idx packet link_type in
      (display, some p', registry')
