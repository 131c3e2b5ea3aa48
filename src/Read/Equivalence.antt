-- ===== src/Read/Equivalence.antt =====
-- The parallel and the sequential engine of src/parallel_read.rs write the same, and how they end.
use dsct.Base.{
  ℕ, suc, ◌≡◌, refl, sym, ap, subst, ◌∙◌, Bool, Option, none, some, List, inr, arith, length,
}
use dsct.Filter.Numbers.{PacketNumberFilter}
use dsct.Read.{Packet, Limits, Env, Flow, State, for_each, Capture, start}
use dsct.Read.InOrder.{packet, run_sequential}
use dsct.Read.Reader.{Sent, reader_fn}
use dsct.Read.Dispatch.{kept, reads_all, reader_fn-Reads}
use dsct.Read.Worker.{worker_fn}
use dsct.Read.Merger.{channel, merge_all, run, reader_result}
use dsct.Read.Same.{Same, forget}
use dsct.Read.Entries.{Local, Writes}
use dsct.Read.Represents.{worker_fn-Represents}
use dsct.Read.Endings.{
  reported, run_sequential-kept, reported_state, reported_error, reported_failure,
}
use dsct.Read.Errors.{run_sequential-fails, run_sequential-Fine}
use dsct.Read.Merging.{Outcome, merger_fn-Outcome, channel-WellFormed}

module _ (env : Env) (limits : Limits) (pn_filter : Option PacketNumberFilter) where
  open env use {Registry, Message}

  module _ (serialize_error : ℕ → Message → Message) (not_handed_over : Message) (n : ℕ)
      (local : Local env) (writes : Writes env) (fresh r : Registry)
      (renews : env.new_registry ≡ inr fresh) (capture : Capture env) where
    abbrev sent : Sent × Bool
    sent = reader_fn pn_filter n capture.packets

    merge_all-Outcome :
        Outcome env limits serialize_error not_handed_over
          (merge_all env limits serialize_error not_handed_over n fresh sent.0 r)
          (for_each (packet env limits) (start env r) (kept pn_filter capture.packets))
    unfolding merge_all
    merge_all-Outcome =
        let (same, turns, formed, ended) = reader_fn-Reads pn_filter n capture.packets in
        subst
          (λ (ps : List Packet).
            Outcome env limits serialize_error not_handed_over
              (merge_all env limits serialize_error not_handed_over n fresh sent.0 r)
              (for_each (packet env limits) (start env r) ps))
          same
          (merger_fn-Outcome env limits serialize_error not_handed_over sent.0 (suc (length sent.0))
            n 0 (λ i. worker_fn env fresh 0 (channel i sent.0)) (start env r) (start env r)
            (omega arith) turns
            (λ i.
              worker_fn-Represents env limits serialize_error not_handed_over local writes fresh
                renews fresh 0 (channel i sent.0) (channel-WellFormed i sent.0 formed))
            refl)

    merged_by :
        (o : Option (Flow (State env) Message)) (g : Flow (State env) Message)
        → Outcome env limits serialize_error not_handed_over o g
        → (f : Flow (State env) Message) × (o ≡ some f) × Same env f g
    merged_by none g h = absurd (cc h)
    merged_by (some f) g h = (f, refl, h)

    merged :
        (f : Flow (State env) Message) × (merge_all env limits serialize_error not_handed_over n
            fresh sent.0 r
          ≡ some f)
        × Same env f (for_each (packet env limits) (start env r) (kept pn_filter capture.packets))
    merged = merged_by _ _ merge_all-Outcome

    run_merged :
        run env limits serialize_error not_handed_over pn_filter n r capture
        ≡ some (
            reported env limits pn_filter serialize_error not_handed_over
              (reader_result sent.1 capture.read_error)
              merged.0)
    unfolding run
    run_merged = rw (renews, merged.1, run)

    reads_to :
        reader_result sent.1 capture.read_error
        ≡ reader_result (reads_all pn_filter capture.packets) capture.read_error
    reads_to =
        ap (λ (b : Bool). reader_result b capture.read_error)
          (reader_fn-Reads pn_filter n capture.packets).3

    run-reported :
        run env limits serialize_error not_handed_over pn_filter n r capture
        ≡ some (
            reported env limits pn_filter serialize_error not_handed_over
              (reader_result (reads_all pn_filter capture.packets) capture.read_error)
              merged.0)
    run-reported =
        run_merged
        ∙ ap
            (λ (read : Option Message).
              some (reported env limits pn_filter serialize_error not_handed_over read merged.0))
            reads_to

    -- When a dissection that used no state kept across packets depends on none and changes none, writing
    -- JSON into memory does not fail and the workers' registries can be built, the parallel engine gives a
    -- result, and what it has written, warned of and counted is what the sequential one has, but for
    -- `packets_processed` and `in_order_packets`: whatever the number filter, the limits, the number of
    -- workers and the error that ends the file.
    pub run_output :
        (x : Option Message × State env) × (run env limits serialize_error not_handed_over pn_filter
            n r capture
          ≡ some x)
        × (forget env x.1
            ≡ forget env (run_sequential env limits pn_filter (start env r) capture).1)
    run_output = (
      _,
      run-reported,
      reported_state env limits pn_filter serialize_error not_handed_over merged.0 _
            (reads_all pn_filter capture.packets) capture.read_error merged.2
          ∙ sym (run_sequential-kept env limits pn_filter r capture).1,
    )

    -- When a dissection that used no state kept across packets depends on none and changes none, writing
    -- JSON into memory does not fail and the workers' registries can be built, an error that the
    -- sequential engine ends with is the one that ends the file, and the parallel engine ends with it
    -- as well.
    pub run_error :
        (e : Message)
        → (run_sequential env limits pn_filter (start env r) capture).0 ≡ some e
        → (capture.read_error ≡ some e)
          × (x : Option Message × State env) × (run env limits serialize_error not_handed_over
                pn_filter n r capture
              ≡ some x)
          × (x.0 ≡ some e)
    run_error e fails = (
      run_sequential-fails env limits writes pn_filter (start env r) capture e fails,
      _,
      run-reported,
      reported_failure env limits pn_filter serialize_error not_handed_over merged.0 _
          (reads_all pn_filter capture.packets) capture.read_error e merged.2
          (sym (run_sequential-kept env limits pn_filter r capture).0 ∙ fails),
    )

    -- Under the same conditions and if the file can be read to its end, neither engine ends with an
    -- error, whatever the packets are and whichever of them cannot be dissected.
    pub run_whole :
        capture.read_error ≡ none
        → ((run_sequential env limits pn_filter (start env r) capture).0 ≡ none)
          × (x : Option Message × State env) × (run env limits serialize_error not_handed_over
                pn_filter n r capture
              ≡ some x)
          × (x.0 ≡ none)
    run_whole whole =
        let fine = run_sequential-Fine env limits writes pn_filter (start env r) capture whole in
        (
          fine,
          _,
          run-reported,
          reported_error env limits pn_filter serialize_error not_handed_over merged.0 _
                (reads_all pn_filter capture.packets) capture.read_error whole merged.2
              ∙ sym (run_sequential-kept env limits pn_filter r capture).0
              ∙ fine,
        )
