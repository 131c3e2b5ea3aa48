-- ===== src/Session/Pass.antt =====
-- src/session/ordered_pass.rs: the state shared by the pass thread and the main thread, and the
-- operations of both.
pub mod Records
pub mod Order
pub mod Stands
pub mod Batch
pub mod Follow
pub mod Looks
pub mod System
pub mod Invariant
pub mod Steps
pub mod Loads
pub mod Resolve
pub mod Shown
pub mod Feeding
pub mod Channel
pub mod Progress
pub mod Damaged
use dsct.Base.{
  ℕ, zero, suc, ◌+◌, ◌-◌, ◌*◌, ◌/◌, ◌%◌, ◌^◌, min, Bool, true, false, not, ◌&&◌, ◌||◌, Option, none,
  some, List, [], ◌∷◌, ◌++◌, inl, inr, ◌⊎◌, ltb, leb, ◌==◌, if◌then◌else◌, length, get_elem?, take,
  drop, ◌>>=◌,
}
use dsct.Packet.{Bytes, Slice, DissectBuffer}
use dsct.Codec.Intern.{Tables, no_tables, extend, Interner, empty_interner, take_new}
use dsct.Codec.Encode.{encode}
use dsct.Codec.Decode.{StoredPacket, decode}

-- Packets sent in one message, and messages that the channel holds.
abbrev pub feed_batch : ℕ
feed_batch = 4096

abbrev pub feed_queue : ℕ
feed_queue = 16

abbrev pub stateless : ℕ
stateless = 0

pub record PacketIndex : Type 0 where
  pub data_offset : ℕ
  pub captured_len : ℕ
  pub original_len : ℕ
  pub timestamp_secs : ℕ
  pub timestamp_usecs : ℕ
  pub link_type : ℕ

pub data Status : Type 0 where
  pending stateless_packet stateful unavailable : Status

-- What a dissection leaves in its buffer, whether it returned `Ok`, and whether it used state kept
-- across packets.
pub record Dissected : Type 0 where
  pub buf : DissectBuffer
  pub ok : Bool
  pub used_cross_packet_state : Bool

-- The calls that leave the program: the mapped capture file and the registry of dissectors.
pub record Env : Type 1 where
  pub Capture : Type 0
  pub Registry : Type 0
  pub Message : Type 0
  pub packet_data : Capture → PacketIndex → Option Slice
  pub refresh : Capture → Message ⊎ Capture
  pub dissect : Registry → Slice → ℕ → Dissected × Registry
  -- "dissection result too large"
  pub too_large : Message

-- The errors for the user, whose texts are built from them.
pub data PassError (Message : Type 0) : Type 0 where
  -- "in-order dissection stopped: {e}"
  stopped_early : Message → PassError Message
  -- "in-order dissection stopped unexpectedly"
  stopped_unexpectedly : PassError Message
  -- "failed to read the in-order result of packet {n}"
  unreadable : ℕ → PassError Message
  -- "the in-order result of packet {n} is damaged"
  damaged : ℕ → PassError Message

pub record Shared (Message : Type 0) : Type 0 where
  pub offsets : List ℕ
  pub tables : Tables
  pub stopped : Bool
  pub error : Option (PassError Message)

-- `u32::to_le_bytes` and `u32::from_le_bytes`.
abbrev pub u32_to_le_bytes : ℕ → Bytes
u32_to_le_bytes n = (n % 256) ∷ (n / 256 % 256) ∷ (n / 65536 % 256) ∷ (n / 16777216 % 256) ∷ []

abbrev pub u32_from_le_bytes : Bytes → ℕ
u32_from_le_bytes (a ∷ b ∷ c ∷ d ∷ rest) = a + 256 * b + 65536 * c + 16777216 * d
u32_from_le_bytes rest = 0

-- `read_exact` of `n` bytes at a position, which fails at the end of the file.
unfoldable pub read_exact : Bytes → ℕ → ℕ → Option Bytes
read_exact file at n = if leb (at + n) (length file) then some (take n (drop at file)) else none

unfoldable pub read_record : Bytes → ℕ → Option Bytes
read_record file offset = do
  len ← read_exact file offset 4
  read_exact file (offset + 4) (u32_from_le_bytes len)

module _ (env : Env) where
  open env use {Capture, Registry, Message}

  -- What the loop of `run` keeps from batch to batch.
  pub record Thread : Type 0 where
    pub capture : Capture
    pub registry : Registry
    pub interner : Interner
    pub position : ℕ

  -- The same within a batch, with the bytes that the buffered writer took and the batch's offsets.
  pub record Work : Type 0 where
    pub thread : Thread
    pub written : Bytes
    pub offsets : List ℕ

  -- The handle, the channel, the spill file and the thread. The last two keep what they held when the
  -- thread ended.
  pub record OrderedPass : Type 0 where
    pub shared : Shared Message
    pub feeder : Bool
    pub fed : ℕ
    pub queue : List (List PacketIndex)
    pub spill : Bytes
    pub running : Bool
    pub thread : Thread

  -- The result of `spawn`, once the files are open and the thread is started.
  unfoldable pub spawn : Capture → Registry → OrderedPass
  unfolding empty_interner
  spawn capture registry = record {
    shared = record { offsets = []; tables = no_tables; stopped = false; error = none };
    feeder = true;
    fed = 0;
    queue = [];
    spill = [];
    running = true;
    thread = record {
      capture = capture;
      registry = registry;
      interner = empty_interner;
      position = 0;
    };
  }

  abbrev pub disconnected : OrderedPass → OrderedPass
  disconnected p = record p { feeder = false; shared = record p.shared { stopped = true } }

  abbrev pub sent : OrderedPass → List PacketIndex → ℕ → OrderedPass
  sent p batch end = record p { queue = p.queue ++ (batch ∷ []); fed = end }

  -- The arms for the answer of `try_send`: does the thread run, and has the channel room?
  unfoldable pub try_send : OrderedPass → List PacketIndex → ℕ → Bool → Bool → Option OrderedPass
  try_send p batch end false room = some (disconnected p)
  try_send p batch end true true = some (sent p batch end)
  try_send p batch end true false = none

  -- One round of the loop of `feed`: nothing where it returns.
  unfoldable pub feed_round : List PacketIndex → OrderedPass → Option OrderedPass
  unfolding try_send
  feed_round indices p =
      let end = min (length indices) (p.fed + feed_batch) in
      if not (ltb p.fed (length indices)) || not p.feeder
      then none
      else try_send p (take (end - p.fed) (drop p.fed indices)) end p.running
          (ltb (length p.queue) feed_queue)

  -- The rounds, while the thread takes nothing from the channel.
  unfoldable pub feed_rounds : ℕ → List PacketIndex → OrderedPass → OrderedPass
  unfolding feed_round
  feed_rounds zero indices p = p
  feed_rounds (suc fuel) indices p = elim (feed_round indices p) [
    | none ↦ p
    | some p' ↦ feed_rounds fuel indices p'
  ]

  -- Each round but the last fills a place of the channel.
  unfoldable pub feed : List PacketIndex → OrderedPass → OrderedPass
  unfolding feed_rounds
  feed = feed_rounds (feed_queue + 1)

  unfoldable pub fully_fed : OrderedPass → ℕ → Bool
  fully_fed p total = leb total p.fed || not p.feeder

  unfoldable pub status_of : Option ℕ → Bool → Status
  status_of (some zero) stopped = Status.stateless_packet
  status_of (some (suc offset)) stopped = Status.stateful
  status_of none stopped = if stopped then Status.unavailable else Status.pending

  unfoldable pub status : OrderedPass → ℕ → Status
  unfolding status_of
  status p pkt_idx = status_of (get_elem? p.shared.offsets pkt_idx) p.shared.stopped

  unfoldable pub fail_with : PassError Message → OrderedPass → Option StoredPacket × OrderedPass
  fail_with e p = (none, record p { shared = record p.shared { error = some e } })

  unfoldable pub load_decoded :
      OrderedPass → ℕ → Option StoredPacket → Option StoredPacket × OrderedPass
  unfolding fail_with
  load_decoded p pkt_idx none = fail_with (PassError.damaged (pkt_idx + 1)) p
  load_decoded p pkt_idx (some stored) = (some stored, p)

  unfoldable pub load_record :
      OrderedPass → ℕ → Bytes → Option Bytes → Option StoredPacket × OrderedPass
  unfolding load_decoded fail_with
  load_record p pkt_idx bytes none = fail_with (PassError.unreadable (pkt_idx + 1)) p
  load_record p pkt_idx bytes (some kept) =
      load_decoded p pkt_idx (decode kept bytes p.shared.tables)

  unfoldable pub load_entry : OrderedPass → ℕ → Bytes → Option ℕ → Option StoredPacket × OrderedPass
  unfolding load_record
  load_entry p pkt_idx bytes none = (none, p)
  load_entry p pkt_idx bytes (some zero) = (none, p)
  load_entry p pkt_idx bytes (some (suc offset)) =
      load_record p pkt_idx bytes (read_record p.spill offset)

  unfoldable pub load : OrderedPass → ℕ → Bytes → Option StoredPacket × OrderedPass
  unfolding load_entry
  load p pkt_idx bytes = load_entry p pkt_idx bytes (get_elem? p.shared.offsets pkt_idx)

  unfoldable pub take_error : OrderedPass → Option (PassError Message) × OrderedPass
  take_error p = (p.shared.error, record p { shared = record p.shared { error = none } })

  -- `StopGuard`, after the error was stored: the thread and its end of the channel are gone.
  unfoldable pub stop : PassError Message → OrderedPass → OrderedPass
  stop e p = record p {
    running = false;
    shared = record p.shared { stopped = true; error = some e };
  }

  -- The packet's bytes; a file that has grown is mapped again first.
  unfoldable pub find : Capture → PacketIndex → Message ⊎ (Option Slice × Capture)
  find capture index = elim (env.packet_data capture index) [
    | some bytes ↦ inr (some bytes, capture)
    | none ↦ elim (env.refresh capture) [
      | inl m ↦ inl m
      | inr capture' ↦ inr (env.packet_data capture' index, capture')
    ]
  ]

  abbrev pub skip : Work → Work
  skip w = record w { offsets = w.offsets ++ (stateless ∷ []) }

  abbrev pub kept : Work → Bytes → Interner → Work
  kept w bytes interner = record {
    thread = record w.thread {
      interner = interner;
      position = w.thread.position + (4 + length bytes);
    };
    written = w.written ++ (u32_to_le_bytes (length bytes) ++ bytes);
    offsets = w.offsets ++ (suc w.thread.position ∷ []);
  }

  -- The rest of the loop's body, behind the dissection.
  unfoldable pub keep : Work → Slice → Dissected → Message ⊎ Work
  keep w packet d =
      let (bytes, interner) = encode d.buf packet d.ok w.thread.interner [] in
      if not d.used_cross_packet_state
      then inr (skip w)
      else if ltb (length bytes) (2 ^ 32)
      then inr (kept w bytes interner)
      else inl env.too_large

  unfoldable pub run_found :
      Work → PacketIndex → Message ⊎ (Option Slice × Capture) → Message ⊎ Work
  unfolding keep
  run_found w index (inl m) = inl m
  run_found w index (inr (none, capture)) =
      inr (skip (record w { thread = record w.thread { capture = capture } }))
  run_found w index (inr (some packet, capture)) =
      let (d, registry) = env.dissect w.thread.registry packet index.link_type in
      keep (record w { thread = record w.thread { capture = capture; registry = registry } }) packet
        d

  -- The body of the loop over a batch.
  unfoldable pub run_packet : Work → PacketIndex → Message ⊎ Work
  unfolding find run_found
  run_packet w index = run_found w index (find w.thread.capture index)

  unfoldable pub run_packets : Work → List PacketIndex → Message ⊎ Work
  unfolding run_packet
  run_packets w [] = inr w
  run_packets w (index ∷ rest) = elim (run_packet w index) [
    | inl m ↦ inl m
    | inr w' ↦ run_packets w' rest
  ]

  -- The flush, and the two updates under the lock.
  unfoldable pub publish : OrderedPass → Work → OrderedPass
  unfolding take_new extend
  publish p w =
      let (new, interner) = take_new w.thread.interner in
      record p {
        spill = p.spill ++ w.written;
        thread = record w.thread { interner = interner };
        shared = record p.shared {
          tables = extend p.shared.tables new;
          offsets = p.shared.offsets ++ w.offsets;
        };
      }

  abbrev pub begin : OrderedPass → Work
  begin p = record { thread = p.thread; written = []; offsets = [] }

  -- A batch, from its first packet to the publication, or to the end of the thread.
  unfoldable pub run_batch : OrderedPass → List PacketIndex → OrderedPass
  unfolding run_packets publish stop
  run_batch p batch = elim (run_packets (begin p) batch) [
    | inl m ↦ stop (PassError.stopped_early m) p
    | inr w ↦ publish p w
  ]

  -- `rx.recv()` and the batch that it gives, while the thread runs and the channel holds one.
  unfoldable pub receive_from : OrderedPass → List (List PacketIndex) → OrderedPass
  unfolding run_batch
  receive_from p [] = p
  receive_from p (batch ∷ rest) = run_batch (record p { queue = rest }) batch

  unfoldable pub receive : OrderedPass → OrderedPass
  unfolding receive_from
  receive p = if p.running then receive_from p p.queue else p
