-- ===== src/Read/Limit.antt =====
-- The count limit of src/parallel_read.rs, through the whole of a sequential read.
use dsct.Base.{
  ℕ, ◌+◌, ◌%◌, ◌≤◌, ◌≡◌, ◌<◌, Bool, true, false, not, ◌&&◌, Bool-cases, Option, none, some, List,
  [], ◌∷◌, ◌⊎◌, inl, inr, arith, ltb, leb, ◌==◌,
}
use dsct.Packet.{Bytes}
use dsct.Filter.Numbers.{PacketNumberFilter}
use dsct.Read.{
  Packet, PacketMeta, Limits, Tally, admit, wrote, Env, Flow, State, for_each, and_then, settle,
  Capture, start,
}
use dsct.Read.InOrder.{
  packet, judge, match_found, write_record, offered, dropped, finished, sequential_step,
  run_sequential, end_of_file,
}

-- The totals agree with the limit `c`.
abbrev pub Within : ℕ → Tally → Type 0
Within c t = (t.packets_written ≤ c) × (t.truncated_by_limit ≡ (t.packets_written == c))

module _ (env : Env) (limits : Limits) (c : ℕ) (limit : limits.count ≡ some c) where
  open env use {Message, Buffer}

  -- A loop goes on only below the limit.
  abbrev WithinFlow : Flow (State env) Message → Type 0
  WithinFlow (Flow.continue s) = Within c s.tally × (s.tally.packets_written < c)
  WithinFlow (Flow.break s) = Within c s.tally
  WithinFlow (Flow.failed e s) = Within c s.tally

  abbrev Below : Tally → Type 0
  Below t = Within c t × (t.packets_written < c)

  admit-Below : (t : Tally) → Below t → Below (admit limits t).1
  unfolding admit
  admit-Below t h =
      elim (Bool-cases
        (ltb 1 limits.sample_rate && not (t.filter_matches % limits.sample_rate == 0))) [
          | inl e ↦ rw e h
          | inr e ↦ rw e h
        ]

  write_record-Within :
      (s : State env) (json : Message ⊎ Bytes)
      → Below s.tally
      → WithinFlow (write_record env limits s json)
  unfolding write_record wrote
  write_record-Within s (inl e) (h, below) = h
  write_record-Within s (inr json) ((le, same), below) =
      elim (Bool-cases (leb c (s.tally.packets_written + 1))) [
        | inl e ↦ rw (limit, e) (omega (arith, below), ground arith)
        | inr e ↦ rw (limit, e) ((omega (arith, below), ground arith), ground arith)
      ]

  offered-Within :
      (s : State env) (json : Message ⊎ Bytes) (b : Bool) (t : Tally)
      → Below t
      → WithinFlow (offered env limits s json (b, t))
  offered-Within s json true t h = write_record-Within (record s { tally = t }) json h
  offered-Within s json false t h = h

  judge-Within :
      (s : State env) (meta : PacketMeta) (bytes : Bytes) (b : Buffer) (error : Option Message)
      → Below s.tally
      → WithinFlow (judge env limits s meta bytes b error)
  unfolding judge match_found
  judge-Within s meta bytes b (some e) h = h
  judge-Within s meta bytes b none h = elim (Bool-cases (env.matches b bytes meta.number)) [
    | inl e ↦ rw e (
        offered-Within s (env.write_json meta b bytes) (admit limits s.tally).0
          (admit limits s.tally).1 (admit-Below s.tally h))
    | inr e ↦ rw e h
  ]

  module _ (pn_filter : Option PacketNumberFilter) where
    sequential_step-Within :
        (s : State env) (p : Packet)
        → Below s.tally
        → WithinFlow (sequential_step env limits pn_filter s p)
    unfolding sequential_step packet
    sequential_step-Within s p h = elim (Bool-cases (dropped pn_filter p.0.number)) [
      | inl out ↦ elim (Bool-cases (finished pn_filter p.0.number)) [
        | inl last ↦ rw (out, last) (h.0)
        | inr more ↦ rw (out, more) h
      ]
      | inr inside ↦ rw inside (judge-Within _ p.0 p.1 _ _ h)
    ]

    and_then-Within :
        (m : Flow (State env) Message) (f : State env → Flow (State env) Message)
        → WithinFlow m
        → ((s : State env) → Below s.tally → WithinFlow (f s))
        → WithinFlow (and_then m f)
    unfolding and_then
    and_then-Within (Flow.continue s) f h k = k s h
    and_then-Within (Flow.break s) f h k = h
    and_then-Within (Flow.failed e s) f h k = h

    loop-Within :
        (ps : List Packet) (s : State env)
        → Below s.tally
        → WithinFlow (for_each (sequential_step env limits pn_filter) s ps)
    unfolding for_each
    loop-Within [] s h = h
    loop-Within (p ∷ ps) s h = and_then-Within _ _ (sequential_step-Within s p h) (loop-Within ps)

    settle-Within :
        (read : Option Message) (m : Flow (State env) Message)
        → WithinFlow m
        → Within c (settle (and_then m (end_of_file env limits pn_filter read))).1.tally
    unfolding and_then
    settle-Within none (Flow.continue s) h = h.0
    settle-Within (some e) (Flow.continue s) h = h.0
    settle-Within read (Flow.break s) h = h
    settle-Within read (Flow.failed e s) h = h

    -- A sequential read from fresh totals with a count limit above zero writes no more records than the
    -- limit, and reports that it was cut off by the limit exactly when it wrote as many.
    pub run_sequential-Within :
        (r : env.Registry) (capture : Capture env)
        → 0 < c
        → Within c (run_sequential env limits pn_filter (start env r) capture).1.tally
    unfolding run_sequential
    run_sequential-Within r capture above =
        settle-Within capture.read_error _
          (loop-Within capture.packets (start env r) ((omega arith, ground arith), above))
