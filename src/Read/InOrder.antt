-- ===== src/Read/InOrder.antt =====
-- `InOrder::packet` of src/parallel_read.rs, and `run_sequential`, which is the loop around it.
use dsct.Base.{
  ℕ, ◌+◌, Bool, true, false, not, Option, none, some, [], ◌∷◌, ◌++◌, ltb, if◌then◌else◌, ◌⊎◌, inl,
  inr,
}
use dsct.Packet.{Bytes}
use dsct.Filter.Numbers.{PacketNumberFilter, contains, max_number}
use dsct.Read.{
  Limits, Tally, admit, wrote, Env, Flow, Packet, PacketMeta, State, and_then, for_each, settle,
  Capture,
}

-- Whether the numbers of the filter all lie below.
abbrev pub past : Option ℕ → ℕ → Bool
past none n = false
past (some m) n = ltb m n

module _ (pn_filter : Option PacketNumberFilter) where
  -- Whether the number filter drops a packet, and the early exit behind its last number.
  abbrev pub dropped : ℕ → Bool
  dropped n = elim pn_filter [ none ↦ false | some f ↦ not (contains f n) ]

  abbrev pub finished : ℕ → Bool
  finished n = elim pn_filter [ none ↦ false | some f ↦ past (max_number f) n ]

module _ (env : Env) (limits : Limits) where
  open env use {Registry, Message, Buffer, dissect, matches, write_json}

  abbrev pub flow : Bool → State env → Flow (State env) Message
  flow true s = Flow.break s
  flow false s = Flow.continue s

  -- An admitted match: its record, a newline, and the count limit.
  unfoldable pub write_record : State env → Message ⊎ Bytes → Flow (State env) Message
  unfolding wrote
  write_record s (inl e) = Flow.failed e s
  write_record s (inr json) =
      let (reached, t) = wrote limits s.tally in
      flow reached (record s { written = s.written ++ json ++ (0x0a ∷ []); tally = t })

  -- What both paths do with a packet that passed the filter.
  abbrev pub offered : State env → Message ⊎ Bytes → Bool × Tally → Flow (State env) Message
  offered s json (true, t) = write_record (record s { tally = t }) json
  offered s json (false, t) = Flow.continue (record s { tally = t })

  unfoldable pub match_found : State env → Message ⊎ Bytes → Flow (State env) Message
  unfolding admit write_record
  match_found s json = offered s json (admit limits s.tally)

  abbrev pub warn : State env → ℕ → Message → State env
  warn s number e = record s { warnings = s.warnings ++ ((number, e) ∷ []) }

  unfoldable pub judge :
      State env → PacketMeta → Bytes → Buffer → Option Message → Flow (State env) Message
  unfolding match_found
  judge s meta bytes buffer (some e) = Flow.continue (warn s meta.number e)
  judge s meta bytes buffer none =
      if matches buffer bytes meta.number
      then match_found s (write_json meta buffer bytes)
      else Flow.continue s

  unfoldable pub packet : State env → Packet → Flow (State env) Message
  unfolding judge
  packet s (meta, bytes) =
      let (d, r) = dissect s.registry bytes meta.link_type in
      judge (record s { registry = r }) meta bytes d.buffer d.error

  abbrev pub count_packet : State env → State env
  count_packet s = record s {
    tally = record s.tally { packets_processed = s.tally.packets_processed + 1 };
  }

  module _ (pn_filter : Option PacketNumberFilter) where
    unfoldable pub sequential_step : State env → Packet → Flow (State env) Message
    unfolding packet
    sequential_step s (meta, bytes) =
        let s' = count_packet s in
        if dropped pn_filter meta.number
        then (if finished pn_filter meta.number then Flow.break s' else Flow.continue s')
        else packet s' (meta, bytes)

    abbrev pub end_of_file : Option Message → State env → Flow (State env) Message
    end_of_file none s = Flow.continue s
    end_of_file (some e) s = Flow.failed e s

    unfoldable pub run_sequential : State env → Capture env → Option Message × State env
    unfolding sequential_step for_each and_then
    run_sequential s capture =
        settle
          (and_then (for_each sequential_step s capture.packets) (end_of_file capture.read_error))
