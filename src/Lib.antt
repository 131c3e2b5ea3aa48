-- ===== src/Lib.antt =====
-- dsct: a packet dissector for the command line, an MCP server and a terminal UI, written in Rust.
--
-- `dsct read` takes packets from a capture file, has the dissector library turn each one into layers and
-- fields, drops those that a filter rejects and writes the others as JSON lines. It does so with one
-- registry of dissectors in capture order, or with one reader, several workers and a merger. The terminal
-- UI keeps the result of dissections that depend on earlier packets as compact records in a file.
--
-- Which file models what, with the paths in the repository:
--   Read            src/parallel_read.rs: the totals and limits. In its folder, InOrder has
--                   `InOrder::packet` and `run_sequential`, Batch `InputBatch`, Reader `reader_fn`, Worker
--                   `worker_fn`, Merger `merger_fn` and `run`; Same, Entries, Represents, Dispatch,
--                   Merging, Endings and Errors lead to Equivalence, Selection is about what the reader
--                   passes on, and Limit about the count limit.
--   Filter          Numbers and Names: src/filter.rs, with the meaning of names in Letters. Expr: src/filter_expr.rs. Sql: src/sql_filter.rs,
--                   with the conversion in Sql/Convert and its meaning, without filters, in Sql/Meaning.
--   Fields          src/field_iter.rs; Fields/Trees states the layout that the iteration relies on.
--   Owned           src/session/owned_packet.rs: the copy of a dissection that owns its bytes.
--   Codec           src/session/packet_codec.rs: the records of the terminal UI. Intern numbers the
--                   layers and descriptors, Write and Encode make a record, Read and Decode take it apart.
--   Session         src/session/ordered_pass.rs. Session/Pass has the shared state, `feed`, `status`, `load` and
--                   `run`; in its folder, Order is the reference without batches and file, System the steps
--                   of the two threads, Resolve where the display gets a result from; Records, Stands,
--                   Batch, Follow, Invariant and Steps lead to Loads and Shown, and Feeding, Channel,
--                   Progress and Damaged are about the channel, the end of the pass and a damaged file.
--                   Session/Bitmap is src/session/filter_bitmap.rs: Bits has the words bit by bit, Flat all
--                   words in a row, Shape what a bitmap shows, with Rank, Select, Grow and Sorted on top;
--                   Ranges has push_set_range, with Masks, Sets, Runs and Filled; Nearest has nearest,
--                   with Neighbours and Closest; Iterate has the iterators, with Lowest, Items, Tails and
--                   IterFrom.
--   Json            src/json_escape.rs.
--   Serialize       Timestamp: the timestamps of src/serialize.rs; Gregorian has the calendar, and Loops
--                   leads to Calendar.
--   Tui             src/tui/cursor.rs.
--   Sqlite          Depth: src/sqlite/depth.rs; Nested has what the depths mean.
--   Packet, Utf8    the dissector's types, as far as the code above reads them, and the UTF-8 test of the
--                   standard library.
--   Base            notation, lists over native numbers, bits, signed words, keys of maps.
--   Examples        runs at concrete inputs.
--
-- State and effects. A Rust struct is a record; `&mut self` becomes a result beside the others. A sink is
-- the list of bytes written to it and does not fail. Numbers are natural numbers: where the source uses a
-- fixed width the model writes out the bound or the wrap-around, and `usize` has 64 bits. Where the source
-- would panic, as on a slice out of range, there is no result, or the result is `none`.
--
-- The engine's threads are functions on queues: the reader's sends are a list of pairs of a worker and a
-- batch, a worker maps the batches sent to it, and the merger takes from the queues in turn. Each channel
-- has one sender and one receiver, and the merger asks for one particular channel at a time, so this fixes
-- what the merger writes and counts. Left out are the capacity of the channels, which only makes senders
-- wait, the progress callbacks, and in the reader the stop flag and the end on a failed send: the merger
-- raises the flag when its own result stands, but whether the reader then still comes to an error further
-- on in the file depends on timing, and the theorems say nothing of the error that `run` ends with there. The registry, the filter
-- and the JSON writer are the record Env, with what the engine relies on as named hypotheses: Local and
-- Writes of Read/Entries.
--
-- The in-order pass is a step relation: a round of `feed`, a batch of the pass thread from its first packet
-- to its publication, an end of the thread that leaves part of a batch in the file, a `load` and a
-- `take_error`, in any order. A batch is one step because nothing that it does shows before it is published
-- under the lock. The place in the channel that `recv` frees at the start of a batch is free behind the
-- step, so a packet that is sent during a batch is sent behind it here. The capture file, the registry and the dissector are the record Env of Session/Pass, and
-- the spill file a list of bytes shorter than 2^64. The error's two updates when the thread ends are one
-- step.
--
-- Fuel. The loop of `feed` has one round for each place of the channel and one more, the merger has one round for each batch and one more, a varint at most 10 bytes, and the iteration
-- over fields one call for each field and one more, and the years of a timestamp end with 9999; that these
-- are enough is part of the theorems.
--
-- Not modelled are the dissector library itself, input and output, the statistics, the MCP server, and
-- most of the SQLite export, of the serialisation and of the terminal UI.
pub mod Base
pub mod Packet
pub mod Utf8
pub mod Owned
pub mod Codec
pub mod Json
pub mod Filter
pub mod Fields
pub mod Tui
pub mod Sqlite
pub mod Serialize
pub mod Read
pub mod Session
mod Examples
