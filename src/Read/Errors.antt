-- ===== src/Read/Errors.antt =====
-- The packets themselves never end the sequential engine of src/parallel_read.rs with an error, when
-- writing JSON into memory does not fail.
use dsct.Base.{
  ◌≡◌, refl, ap, Bool, true, false, Bool-cases, Option, none, some, List, [], ◌∷◌, inl, inr,
}
use dsct.Packet.{Bytes}
use dsct.Filter.Numbers.{PacketNumberFilter}
use dsct.Read.{
  Packet, PacketMeta, Limits, Tally, Env, Flow, State, for_each, and_then, settle, admit, Capture,
}
use dsct.Read.InOrder.{
  packet, judge, match_found, write_record, offered, flow, dropped, finished, sequential_step,
  run_sequential, end_of_file,
}
use dsct.Read.Entries.{Writes}

-- The flow goes on or stops without an error.
abbrev Fine : {S M : Type 0} → Flow S M → Type 0
Fine f = (settle f).0 ≡ none

and_then-Fine :
    {S M : Type 0}
    → (f : Flow S M) (k : S → Flow S M) → Fine f
    → ((s : S) → Fine (k s))
    → Fine (and_then f k)
unfolding and_then
and_then-Fine (Flow.continue s) k h later = later s
and_then-Fine (Flow.break s) k h later = h
and_then-Fine (Flow.failed e s) k h later = h

-- An error behind a flow without one.
and_then-fails :
    {S M : Type 0}
    → (f : Flow S M) (k : S → Flow S M) (e : M) → Fine f
    → (settle (and_then f k)).0 ≡ some e
    → (s : S) × ((settle (k s)).0 ≡ some e)
unfolding and_then
and_then-fails (Flow.continue s) k e h fails = (s, fails)
and_then-fails (Flow.break s) k e h fails = absurd (cc fails)
and_then-fails (Flow.failed m s) k e h fails = absurd (cc h)

for_each-Fine :
    {S M A : Type 0}
    → (f : S → A → Flow S M) (xs : List A) (s : S) → ((s : S) (a : A) → Fine (f s a))
    → Fine (for_each f s xs)
unfolding for_each
for_each-Fine f [] s h = refl
for_each-Fine f (x ∷ xs) s h =
    and_then-Fine (f s x) (λ s'. for_each f s' xs) (h s x) (λ s'. for_each-Fine f xs s' h)

module _ (env : Env) (limits : Limits) (writes : Writes env) where
  open env use {Registry, Message, Buffer}

  flow-Fine : (t : Bool) (s : State env) → Fine (flow env limits t s)
  flow-Fine true s = refl
  flow-Fine false s = refl

  write_record-Fine : (s : State env) (json : Bytes) → Fine (write_record env limits s (inr json))
  unfolding write_record
  write_record-Fine s json = flow-Fine _ _

  offered-Fine :
      (s : State env) (json : Bytes) (a : Bool × Tally) → Fine (offered env limits s (inr json) a)
  offered-Fine s json (true, t) = write_record-Fine _ json
  offered-Fine s json (false, t) = refl

  match_found-Fine : (s : State env) (json : Bytes) → Fine (match_found env limits s (inr json))
  unfolding match_found
  match_found-Fine s json = offered-Fine s json (admit limits s.tally)

  judge-Fine :
      (s : State env) (meta : PacketMeta) (bytes : Bytes) (buffer : Buffer) (e : Option Message)
      → Fine (judge env limits s meta bytes buffer e)
  unfolding judge
  judge-Fine s meta bytes buffer (some e) = refl
  judge-Fine s meta bytes buffer none =
      let (json, written) = writes meta buffer bytes in
      elim (Bool-cases (env.matches buffer bytes meta.number)) [
        | inl e ↦ rw (e, written) (match_found-Fine s json)
        | inr e ↦ rw e refl
      ]

  packet-Fine : (s : State env) (p : Packet) → Fine (packet env limits s p)
  unfolding packet
  packet-Fine s (meta, bytes) = judge-Fine _ meta bytes _ _

  module _ (pn_filter : Option PacketNumberFilter) where
    sequential_step-Fine :
        (s : State env) (p : Packet) → Fine (sequential_step env limits pn_filter s p)
    unfolding sequential_step
    sequential_step-Fine s (meta, bytes) = elim (Bool-cases (dropped pn_filter meta.number)) [
      | inl out ↦ elim (Bool-cases (finished pn_filter meta.number)) [
        | inl last ↦ rw (out, last) refl
        | inr more ↦ rw (out, more) refl
      ]
      | inr inside ↦ rw inside (packet-Fine _ (meta, bytes))
    ]

    at_file :
        (read : Option Message) (e : Message) (s : State env)
        → (settle (end_of_file env limits pn_filter read s)).0 ≡ some e
        → read ≡ some e
    at_file none e s fails = absurd (cc fails)
    at_file (some m) e s fails = fails

    -- An error is that of the file.
    pub run_sequential-fails :
        (s : State env) (capture : Capture env) (e : Message)
        → (run_sequential env limits pn_filter s capture).0 ≡ some e
        → capture.read_error ≡ some e
    unfolding run_sequential
    run_sequential-fails s capture e fails =
        let (s', at_end) =
          and_then-fails (for_each (sequential_step env limits pn_filter) s capture.packets) _ e
            (for_each-Fine (sequential_step env limits pn_filter) capture.packets s
              sequential_step-Fine)
            fails in
        at_file capture.read_error e s' at_end

    pub run_sequential-Fine :
        (s : State env) (capture : Capture env)
        → capture.read_error ≡ none
        → (run_sequential env limits pn_filter s capture).0 ≡ none
    unfolding run_sequential
    run_sequential-Fine s capture whole =
        and_then-Fine (for_each (sequential_step env limits pn_filter) s capture.packets) _
          (for_each-Fine (sequential_step env limits pn_filter) capture.packets s
            sequential_step-Fine)
          (λ s'.
            ap (λ (read : Option Message). (settle (end_of_file env limits pn_filter read s')).0)
              whole)
