-- ===== src/Read/Merger.antt =====
-- `merger_fn` and `run` of src/parallel_read.rs: the workers' entries in capture order.
use dsct.Base.{
  ℕ, zero, suc, ◌+◌, ◌-◌, ◌%◌, ◌^◌, min, Bool, true, false, Option, none, some, List, [], ◌∷◌, ◌==◌,
  length, if◌then◌else◌, inl, inr, ◌>>=◌,
}
use dsct.Filter.Numbers.{PacketNumberFilter}
use dsct.Read.{Packet, Limits, Env, Flow, State, for_each, settle, Capture, start}
use dsct.Read.InOrder.{match_found, packet, warn}
use dsct.Read.Batch.{InputBatch, get}
use dsct.Read.Reader.{Sent, reader_fn}
use dsct.Read.Worker.{WorkerEntry, OutputBatch, worker_fn}

-- What worker `i` receives.
unfoldable pub channel : ℕ → Sent → List InputBatch
channel i [] = []
channel i ((k, b) ∷ sent) = if k == i then b ∷ channel i sent else channel i sent

module _ {A : Type 0} where
  abbrev pub tail_of : List A → List A
  tail_of [] = []
  tail_of (x ∷ xs) = xs

  -- The queues once the first batch of queue `k` was received.
  abbrev pub received : ℕ → (ℕ → List A) → ℕ → List A
  received k queues i = if k == i then tail_of (queues i) else queues i

-- The result of `reader_fn`: an error of the file, unless reading stopped in front of it.
abbrev pub reader_result : {M : Type 0} → Bool → Option M → Option M
reader_result true e = e
reader_result false e = none

module _ (env : Env) (limits : Limits) where
  open env use {Registry, Message, new_registry}

  -- What the merger tells of its own: a packet that could not be serialised, a batch not handed over.
  module _ (serialize_error : ℕ → Message → Message) (not_handed_over : Message) where
    abbrev pub count_in_order : State env → State env
    count_in_order s = record s {
      tally = record s.tally { in_order_packets = s.tally.in_order_packets + 1 };
    }

    unfoldable pub again : State env → Option Packet → Flow (State env) Message
    unfolding packet
    again s none = Flow.failed not_handed_over s
    again s (some p) = packet env limits (count_in_order s) p

    unfoldable pub merge_entry :
        Option InputBatch → State env → WorkerEntry Message → Flow (State env) Message
    unfolding again match_found get
    merge_entry handed s (WorkerEntry.warning number e) = Flow.continue (warn env limits s number e)
    merge_entry handed s (WorkerEntry.fatal number e) = Flow.failed (serialize_error number e) s
    merge_entry handed s (WorkerEntry.matched json) = match_found env limits s (inr json)
    merge_entry handed s (WorkerEntry.in_order index) = again s (handed >>= λ b. get b index)

    -- `saturating_add` on a u64.
    abbrev pub count_batch : State env → ℕ → State env
    count_batch s n = record s {
      tally = record s.tally {
        packets_processed = min (s.tally.packets_processed + n) (2 ^ 64 - 1);
      };
    }

    unfoldable pub merge_batch : State env → OutputBatch Message → Flow (State env) Message
    unfolding merge_entry for_each
    merge_batch s out = for_each (merge_entry out.handed) (count_batch s out.packets) out.entries

    -- A result of the merger, or a further round after it.
    abbrev pub unless_stopped :
        Flow (State env) Message
        → (State env → Option (Flow (State env) Message))
        → Option (Flow (State env) Message)
    unless_stopped (Flow.continue s) k = k s
    unless_stopped (Flow.break s) k = some (Flow.break s)
    unless_stopped (Flow.failed e s) k = some (Flow.failed e s)

    -- The merger's loop over the workers' queues, worker `k` being next. Each round takes a batch, and
    -- `fuel` bounds their number.
    unfoldable pub merger_fn :
        ℕ → ℕ → ℕ → (ℕ → List (OutputBatch Message)) → State env → Option (Flow (State env) Message)
    unfolding merge_batch
    merger_fn zero n k queues s = none
    merger_fn (suc fuel) n k queues s = elim (queues k) [
      | [] ↦ some (Flow.continue s)
      | out ∷ outs ↦
          unless_stopped (merge_batch s out)
            (λ s'. merger_fn fuel n ((k + 1) % n) (received k queues) s')
    ]

    -- `merged?` comes in front of `reader_result?`.
    abbrev pub joined : Option Message → Option Message × State env → Option Message × State env
    joined read (some e, s) = (some e, s)
    joined read (none, s) = (read, s)

    unfoldable pub merge_all : ℕ → Registry → Sent → Registry → Option (Flow (State env) Message)
    unfolding merger_fn channel worker_fn
    merge_all n fresh sent r =
        merger_fn (suc (length sent)) n 0 (λ i. worker_fn env fresh 0 (channel i sent))
          (start env r)

    -- `run` with `n` workers, each with a registry of its own.
    unfoldable pub run :
        Option PacketNumberFilter → ℕ → Registry → Capture env → Option (Option Message × State env)
    unfolding merge_all reader_fn
    run pn_filter n r capture = elim new_registry [
      | inl e ↦ some (some e, start env r)
      | inr fresh ↦
          let (sent, at_end) = reader_fn pn_filter n capture.packets in
          elim (merge_all n fresh sent r) [
            | none ↦ none
            | some merged ↦ some (joined (reader_result at_end capture.read_error) (settle merged))
          ]
    ]
