-- ===== src/Examples/Read.antt =====
-- Witnesses for src/parallel_read.rs and its number filter: an engine whose registry counts the packets
-- that start with 1.
use dsct.Base.{
  ℕ, suc, ◌≡◌, refl, Bool, true, false, not, Option, none, some, List, [], ◌∷◌, inr, arith, ◌==◌,
}
use dsct.Packet.{Bytes}
use dsct.Filter.Numbers.{PacketNumberFilter, contains, contains_above, max_number}
use dsct.Read.{Packet, Limits, Env, State, Dissected, Capture, start}
use dsct.Read.InOrder.{run_sequential}
use dsct.Read.Merger.{run}
use dsct.Read.Reader.{reader_fn}
use dsct.Read.Dispatch.{packets_of, RoundRobin}
use dsct.Read.Selection.{Selects, reader_fn-RoundRobin}
use dsct.Read.Same.{forget}
use dsct.Read.Entries.{Local, Writes}
use dsct.Read.Equivalence.{run_output, run_error, run_whole}
use dsct.Read.Limit.{Within, run_sequential-Within}

abbrev stateless : Dissected ℕ ℕ
stateless = record { error = none; buffer = 0; used_cross_packet_state = false }

abbrev by_kind : Bool → ℕ → Dissected ℕ ℕ × ℕ
by_kind true r = (record { error = none; buffer = r; used_cross_packet_state = true }, suc r)
by_kind false r = (stateless, r)

abbrev dissect : ℕ → Bytes → ℕ → Dissected ℕ ℕ × ℕ
dissect r [] link_type = (record { error = some 5; buffer = 0; used_cross_packet_state = false }, r)
dissect r (b ∷ bytes) link_type = by_kind (b == 1) r

abbrev counting : Env
counting = record {
  Registry = ℕ;
  Buffer = ℕ;
  Message = ℕ;
  dissect = dissect;
  matches = λ buffer bytes number. not (number == 3);
  write_json = λ meta buffer bytes. inr (buffer ∷ bytes);
  new_registry = inr 0;
}

counting-Local : Local counting
counting-Local r [] link_type r' e = refl
counting-Local r (b ∷ bytes) link_type r' e = by_kind-Local (b == 1) r r' e
  where
    by_kind-Local :
        (t : Bool) (r r' : ℕ)
        → (by_kind t r).0.used_cross_packet_state ≡ false
        → by_kind t r' ≡ ((by_kind t r).0, r')
    by_kind-Local true r r' e = absurd (cc e)
    by_kind-Local false r r' e = refl

counting-Writes : Writes counting
counting-Writes meta buffer bytes = (_, refl)

abbrev numbered : ℕ → Bytes → Packet
numbered n bytes = (
  record {
    number = n;
    timestamp_secs = 0;
    timestamp_usecs = 0;
    captured_length = 1;
    original_length = 1;
    link_type = 1;
  },
  bytes,
)

-- Packets 1 and 4 use the state, 2 fails to dissect, 3 does not match.
abbrev five : List Packet
five =
    numbered 1 (1 ∷ [])
    ∷ numbered 2 []
    ∷ numbered 3 (7 ∷ [])
    ∷ numbered 4 (1 ∷ [])
    ∷ numbered 5 (8 ∷ [])
    ∷ []

abbrev all_of : Option ℕ → Limits
all_of count = record { sample_rate = 1; offset = 0; count = count }

abbrev first_four : Option PacketNumberFilter
first_four = some (record { ranges = (1, 4) ∷ [] })

abbrev file : Option ℕ → Capture counting
file read_error = record { packets = five; read_error = read_error }

unframed : ℕ → ℕ → ℕ
unframed number message = message

run_output_example :
    (x : Option ℕ × State counting) × (run counting
        (all_of none)
        unframed
        7
        first_four
        2
        0
        (file (some 9))
      ≡ some x)
    × (forget counting x.1
        ≡ forget counting
            (run_sequential counting (all_of none) first_four (start counting 0) (file (some 9))).1)
run_output_example =
    run_output counting (all_of none) first_four unframed 7 2 counting-Local counting-Writes 0 0
      refl (file (some 9))

run_whole_example :
    ((run_sequential counting (all_of (some 2)) none (start counting 0) (file none)).0 ≡ none)
    × (x : Option ℕ × State counting) × (run counting
          (all_of (some 2))
          unframed
          7
          none
          3
          0
          (file none)
        ≡ some x)
    × (x.0 ≡ none)
run_whole_example =
    run_whole counting (all_of (some 2)) none unframed 7 3 counting-Local counting-Writes 0 0 refl
      (file none) refl

fails : (run_sequential counting (all_of none) none (start counting 0) (file (some 9))).0 ≡ some 9
unfolding run_sequential
fails = refl

run_error_example :
    ((file (some 9)).read_error ≡ some 9)
    × (x : Option ℕ × State counting) × (run counting
          (all_of none)
          unframed
          7
          none
          2
          0
          (file (some 9))
        ≡ some x)
    × (x.0 ≡ some 9)
run_error_example =
    run_error counting (all_of none) none unframed 7 2 counting-Local counting-Writes 0 0 refl
      (file (some 9)) 9 fails

-- The state the two engines leave: two records of the packets 1 and 4, the second one with a registry
-- that has seen the first, and a warning for packet 2.
sequential_state :
    (run_sequential counting (all_of (some 2)) none (start counting 0) (file none)).1.written
    ≡ 0 ∷ 1 ∷ 10 ∷ 1 ∷ 1 ∷ 10 ∷ []
unfolding run_sequential
sequential_state = refl

run_sequential-Within_example :
    Within 2 (run_sequential counting (all_of (some 2)) none (start counting 0) (file none)).1.tally
run_sequential-Within_example =
    run_sequential-Within counting (all_of (some 2)) 2 refl none 0 (file none) (omega arith)

reader_fn-RoundRobin_example :
    Selects first_four five (packets_of (reader_fn first_four 2 five).0)
    × RoundRobin 2 0 (reader_fn first_four 2 five).0
reader_fn-RoundRobin_example =
    reader_fn-RoundRobin first_four 2 five
      (omega arith, (omega arith, (omega arith, (omega arith, (omega arith, tt)))))

largest : max_number (record { ranges = (5, 9) ∷ (1, 3) ∷ [] }) ≡ some 9
unfolding max_number
largest = refl

contains_above_example : contains (record { ranges = (5, 9) ∷ (1, 3) ∷ [] }) 10 ≡ false
contains_above_example =
    contains_above (record { ranges = (5, 9) ∷ (1, 3) ∷ [] }) 10 9 largest (omega arith)
