-- ===== src/Read.antt =====
-- src/parallel_read.rs: the read engines of `dsct read`, sequential and parallel.
pub mod InOrder
pub mod Batch
pub mod Reader
pub mod Worker
pub mod Merger
pub mod Same
pub mod Entries
pub mod Represents
pub mod Merging
pub mod Endings
pub mod Errors
pub mod Equivalence
pub mod Limit
pub mod Dispatch
pub mod Selection
use dsct.Base.{
  ℕ, zero, suc, ◌+◌, ◌-◌, ◌%◌, ◌≤◌, ◌<◌, ◌≡◌, Bool, true, false, not, ◌&&◌, ◌||◌, Option, none,
  some, List, [], ◌∷◌, ◌++◌, ltb, leb, ◌==◌, if◌then◌else◌, ◌⊎◌, inl, inr,
}
use dsct.Packet.{Bytes}

-- `PacketMeta` of src/serialize.rs.
pub record PacketMeta : Type 0 where
  pub number : ℕ
  pub timestamp_secs : ℕ
  pub timestamp_usecs : ℕ
  pub captured_length : ℕ
  pub original_length : ℕ
  pub link_type : ℕ

pub record Limits : Type 0 where
  pub sample_rate : ℕ
  pub offset : ℕ
  pub count : Option ℕ

-- `Tally`, with the fields of its `ReadOutcome`.
pub record Tally : Type 0 where
  pub packets_processed : ℕ
  pub packets_written : ℕ
  pub truncated_by_limit : Bool
  pub in_order_packets : ℕ
  pub filter_matches : ℕ
  pub results_matched : ℕ

abbrev pub empty_tally : Tally
empty_tally = record {
  packets_processed = 0;
  packets_written = 0;
  truncated_by_limit = false;
  in_order_packets = 0;
  filter_matches = 0;
  results_matched = 0;
}

-- `Tally::admit`: the match survives sampling and lies past the offset.
unfoldable pub admit : Limits → Tally → Bool × Tally
admit limits t =
    let t' = record t { filter_matches = t.filter_matches + 1 } in
    let t'' = record t' { results_matched = t.results_matched + 1 } in
    if ltb 1 limits.sample_rate && not (t.filter_matches % limits.sample_rate == 0)
    then (false, t')
    else (ltb limits.offset (t.results_matched + 1), t'')

abbrev pub reaches : Option ℕ → ℕ → Bool
reaches none written = false
reaches (some limit) written = leb limit written

-- `Tally::wrote`: one more record, and whether the count limit is reached by it.
unfoldable pub wrote : Limits → Tally → Bool × Tally
wrote limits t =
    let written = t.packets_written + 1 in
    let reached = reaches limits.count written in
    (
      reached,
      record t {
        packets_written = written;
        truncated_by_limit = if reached then true else t.truncated_by_limit;
      },
    )

-- What one dissection leaves in the buffer.
pub record Dissected (Buffer Message : Type 0) : Type 0 where
  pub error : Option Message
  pub buffer : Buffer
  pub used_cross_packet_state : Bool

-- What the engines call and do not implement: the registry of dissectors with its state kept across
-- packets, the filter, and the JSON writer.
pub record Env : Type 1 where
  pub Registry : Type 0
  pub Buffer : Type 0
  pub Message : Type 0
  pub dissect : Registry → Bytes → ℕ → Dissected Buffer Message × Registry
  pub matches : Buffer → Bytes → ℕ → Bool
  pub write_json : PacketMeta → Buffer → Bytes → Message ⊎ Bytes
  pub new_registry : Message ⊎ Registry

-- `ControlFlow` inside a `Result`.
pub data Flow (S M : Type 0) : Type 0 where
  continue break : S → Flow S M
  failed : M → S → Flow S M

module _ {S M : Type 0} where
  -- What `?` and the loop over packets do with the flow.
  unfoldable pub and_then : Flow S M → (S → Flow S M) → Flow S M
  and_then (continue s) f = f s
  and_then (break s) f = break s
  and_then (failed e s) f = failed e s

  unfoldable pub for_each : {A : Type 0} → (S → A → Flow S M) → S → List A → Flow S M
  unfolding and_then
  for_each f s [] = continue s
  for_each f s (x ∷ xs) = and_then (f s x) (λ s'. for_each f s' xs)

  -- The error a loop ends with, and the state it leaves.
  abbrev pub settle : Flow S M → Option M × S
  settle (continue s) = (none, s)
  settle (break s) = (none, s)
  settle (failed e s) = (some e, s)

abbrev pub Packet : Type 0
Packet = PacketMeta × Bytes

module _ (env : Env) where
  open env use {Registry, Message}

  -- The registry of the in-order path, what was written and warned of so far, and the tally.
  pub record State : Type 0 where
    pub registry : Registry
    pub written : Bytes
    pub warnings : List (ℕ × Message)
    pub tally : Tally

  abbrev pub start : Registry → State
  start r = record { registry = r; written = []; warnings = []; tally = empty_tally }

  -- What a capture file holds: its packets, then perhaps an error that ends the reading.
  pub record Capture : Type 0 where
    pub packets : List Packet
    pub read_error : Option Message
