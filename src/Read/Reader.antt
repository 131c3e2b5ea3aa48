-- ===== src/Read/Reader.antt =====
-- `reader_fn` of src/parallel_read.rs: batches of packets, sent to the workers in turn, in a
-- run in which the reader is not stopped: the stop flag and the end on a failed send are left out.
use dsct.Base.{
  ℕ, ◌+◌, ◌%◌, Bool, true, false, not, ◌&&◌, ◌||◌, Option, List, [], ◌∷◌, leb, length,
  if◌then◌else◌,
}
use dsct.Filter.Numbers.{PacketNumberFilter}
use dsct.Read.{Packet}
use dsct.Read.InOrder.{dropped, finished}
use dsct.Read.Batch.{InputBatch, empty_batch, push, is_empty, processed}

abbrev pub batch_packets : ℕ
batch_packets = 256

abbrev pub batch_bytes : ℕ
batch_bytes = 0x100000

abbrev pub skip_packet : InputBatch → InputBatch
skip_packet b = record b { skipped = b.skipped + 1 }

-- The size at which a batch is sent.
unfoldable pub is_full : InputBatch → Bool
unfolding processed
is_full b = leb batch_packets (processed b) || leb batch_bytes (length b.bytes)

-- What goes out over the channels, each batch with the worker it is for.
abbrev pub Sent : Type 0
Sent = List (ℕ × InputBatch)

unfoldable pub flush : ℕ → InputBatch → Sent
unfolding is_empty
flush k b = if not (is_empty b) then (k, b) ∷ [] else []

module _ (pn_filter : Option PacketNumberFilter) (n : ℕ) where
  -- The batches that the loop sends from worker `k` on, with `b` being filled; the flag says that the
  -- loop reached the end of the packets.
  unfoldable pub read_loop : ℕ → InputBatch → List Packet → Sent × Bool
  unfolding flush push is_full
  read_loop k b [] = (flush k b, true)
  read_loop k b (p ∷ ps) =
      let b' = if dropped pn_filter p.0.number then skip_packet b else push b p in
      let (filled, at_end) = read_loop ((k + 1) % n) empty_batch ps in
      let unfilled = read_loop k b' ps in
      if dropped pn_filter p.0.number && finished pn_filter p.0.number
      then (flush k b', false)
      else (if is_full b' then ((k, b') ∷ filled, at_end) else unfilled)

  unfoldable pub reader_fn : List Packet → Sent × Bool
  unfolding read_loop
  reader_fn ps = read_loop 0 empty_batch ps
