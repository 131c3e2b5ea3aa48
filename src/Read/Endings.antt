-- ===== src/Read/Endings.antt =====
-- How the engines of src/parallel_read.rs end: the sequential one processes the packets kept, and an
-- error of the file comes behind those of the packets.
use dsct.Base.{
  ℕ, ◌≡◌, refl, sym, ap, ◌∙◌, Bool, true, false, Bool-cases, Option, none, some, List, [], ◌∷◌, inl,
  inr,
}
use dsct.Filter.Numbers.{PacketNumberFilter}
use dsct.Read.{Packet, Limits, Env, Flow, State, for_each, and_then, settle, Capture, start}
use dsct.Read.InOrder.{
  packet, dropped, finished, sequential_step, run_sequential, end_of_file, count_packet,
}
use dsct.Read.Dispatch.{kept, reads_all}
use dsct.Read.Merger.{joined, reader_result}
use dsct.Read.Same.{Same, Same_cases, seen, and_then_assoc, and_then-seen, forget, packet-Same}

module _ (env : Env) (limits : Limits) (pn_filter : Option PacketNumberFilter) where
  open env use {Registry, Message}

  abbrev pub ending : Bool → Option Message → State env → Flow (State env) Message
  ending at_end e = end_of_file env limits pn_filter (reader_result at_end e)

  -- The sequential engine processes the packets that are kept, in order.
  sequential_kept :
      (ps : List Packet) (e : Option Message) (s s' : State env)
      → forget env s ≡ forget env s'
      → seen env (
          and_then
            (for_each (sequential_step env limits pn_filter) s ps)
            (end_of_file env limits pn_filter e))
        ≡ seen env (
            and_then
              (for_each (packet env limits) s' (kept pn_filter ps))
              (ending (reads_all pn_filter ps) e))
  unfolding for_each and_then sequential_step kept reads_all
  sequential_kept [] none s s' h = ap (λ (t : State env). (none, t)) h
  sequential_kept [] (some e) s s' h = ap (λ (t : State env). (some e, t)) h
  sequential_kept (p ∷ ps) e s s' h = elim (Bool-cases (dropped pn_filter p.0.number)) [
    | inl out ↦ elim (Bool-cases (finished pn_filter p.0.number)) [
      | inl last ↦ rw (out, last) (ap (λ (t : State env). (none, t)) h)
      | inr more ↦ rw (out, more) (sequential_kept ps e (count_packet env limits s) s' h)
    ]
    | inr inside ↦
        rw
          (
            inside,
            and_then_assoc (packet env limits (count_packet env limits s) p) _ _,
            and_then_assoc (packet env limits s' p) _ _,
          )
          (and_then-seen env _ _ _ _ (packet-Same env limits p (count_packet env limits s) s' h)
            (sequential_kept ps e))
  ]

  settled : (f : Flow (State env) Message) → seen env f ≡ ((settle f).0, forget env (settle f).1)
  settled (Flow.continue s) = refl
  settled (Flow.break s) = refl
  settled (Flow.failed e s) = refl

  -- What the sequential engine ends with, the counters forgotten.
  abbrev pub sequential : Registry → Capture env → Option Message × State env
  sequential r capture = seen env (
      and_then (for_each (packet env limits) (start env r) (kept pn_filter capture.packets))
        (ending (reads_all pn_filter capture.packets) capture.read_error))

  pub run_sequential-kept :
      (r : Registry) (capture : Capture env)
      → ((run_sequential env limits pn_filter (start env r) capture).0 ≡ (sequential r capture).0)
        × (forget env (run_sequential env limits pn_filter (start env r) capture).1
            ≡ (sequential r capture).1)
  unfolding run_sequential
  run_sequential-kept r capture =
      let same =
        sym (settled _)
        ∙ sequential_kept capture.packets capture.read_error (start env r) (start env r) refl in
      (
        ap (λ (x : Option Message × State env). x.0) same,
        ap (λ (x : Option Message × State env). x.1) same,
      )

  module _ (serialize_error : ℕ → Message → Message) (not_handed_over : Message) where
    abbrev pub reported : Option Message → Flow (State env) Message → Option Message × State env
    reported read f = joined env limits serialize_error not_handed_over read (settle f)

    pub reported_state :
        (f g : Flow (State env) Message) (at_end : Bool) (e : Option Message)
        → Same env f g
        → forget env (reported (reader_result at_end e) f).1
          ≡ (seen env (and_then g (ending at_end e))).1
    unfolding and_then
    reported_state f g at_end e =
        Same_cases env
          (λ f g.
            forget env (reported (reader_result at_end e) f).1
            ≡ (seen env (and_then g (ending at_end e))).1)
          (λ s s' h. h ∙ unchanged (reader_result at_end e) s') (λ s s' h. h)
          (λ m m' s s' same h. h) f g
      where
        unchanged :
            (read : Option Message) (s' : State env)
            → forget env s' ≡ (seen env (end_of_file env limits pn_filter read s')).1
        unchanged none s' = refl
        unchanged (some m) s' = refl

    reported-none :
        (f g : Flow (State env) Message) (at_end : Bool)
        → Same env f g
        → (reported (reader_result at_end none) f).0
          ≡ (seen env (and_then g (ending at_end none))).0
    unfolding and_then
    reported-none f g true =
        Same_cases env (λ f g. (reported none f).0 ≡ (seen env (and_then g (ending true none))).0)
          (λ s s' h. refl) (λ s s' h. refl) (λ m m' s s' same h. ap some same) f g
    reported-none f g false =
        Same_cases env (λ f g. (reported none f).0 ≡ (seen env (and_then g (ending false none))).0)
          (λ s s' h. refl) (λ s s' h. refl) (λ m m' s s' same h. ap some same) f g

    pub reported_error :
        (f g : Flow (State env) Message) (at_end : Bool) (read : Option Message)
        → read ≡ none
        → Same env f g
        → (reported (reader_result at_end read) f).0
          ≡ (seen env (and_then g (ending at_end read))).0
    unfolding and_then
    reported_error f g at_end read e same = rw e (reported-none f g at_end same)

    -- An error that the sequential engine ends with ends the parallel one.
    pub reported_failure :
        (f g : Flow (State env) Message) (at_end : Bool) (read : Option Message) (m : Message)
        → Same env f g
        → (seen env (and_then g (ending at_end read))).0 ≡ some m
        → (reported (reader_result at_end read) f).0 ≡ some m
    unfolding and_then
    reported_failure f g at_end read m =
        Same_cases env
          (λ f g.
            (seen env (and_then g (ending at_end read))).0 ≡ some m
            → (reported (reader_result at_end read) f).0 ≡ some m)
          (λ s s' h. at_file (reader_result at_end read) s s')
          (λ s s' h. λ fails. absurd (cc fails)) (λ e e' s s' same h. λ fails. ap some same ∙ fails)
          f g
      where
        at_file :
            (read : Option Message) (s s' : State env)
            → (seen env (end_of_file env limits pn_filter read s')).0 ≡ some m
            → (reported read (Flow.continue s)).0 ≡ some m
        at_file none s s' fails = absurd (cc fails)
        at_file (some e) s s' fails = fails
