-- ===== src/Examples/Session.antt =====
-- src/session/ordered_pass.rs at a capture of two packets.
use dsct.Base.{
  ℕ, suc, ◌≤◌, ◌≡◌, ◌≢◌, ◌<◌, refl, ap, sym, ◌∙◌, subst, Bool, true, false, none, some, List, [],
  ◌∷◌, inr, ◌⊎◌, arith, ◌==◌, length, take, get_elem?,
}
use dsct.Base.Hash.{lookup}
use dsct.Packet.{Slice, DissectBuffer}
use dsct.Owned.{owned_value, owned_values, bytes_source, in_packet, from_dissect_buf}
use dsct.Codec.Intern.{empty_interner, take_new, layer, descriptor}
use dsct.Codec.Intern.Laws.{Fits}
use dsct.Codec.Write.{
  put_varint, put_varint_loop, put_range, put_bytes, put_value, put_source, to_le_bytes,
}
use dsct.Codec.Encode.{encode, put_layers, put_fields}
use dsct.Session.Pass.{
  PacketIndex, Dissected, Env, OrderedPass, Status, status_of, status, load, spawn, feed_round,
  feed, receive, fully_fed, feed_queue,
}
use dsct.Session.Pass.Order.{Outcome, InOrder, in_order}
use dsct.Session.Pass.Stands.{Sound, AllSound}
use dsct.Session.Pass.System.{Reach, Step}
use dsct.Session.Pass.Invariant.{join}
use dsct.Session.Pass.Loads.{Told, result_of, load-in_order}
use dsct.Session.Pass.Resolve.{Display, seen, resolve}
use dsct.Session.Pass.Shown.{Local, resolve-in_order}
use dsct.Session.Pass.Feeding.{feed_done}
use dsct.Session.Pass.Channel.{join_bound}
use dsct.Session.Pass.Progress.{receive_all, receive_all-status}
use dsct.Session.Pass.Damaged.{Answers, load-Answers}
use dsct.Examples.Codec.{memory, packet, sample, sample_resolves, sample_viewed, sample_valid}

abbrev no_fields : DissectBuffer
no_fields = record {
  layers = [];
  fields = [];
  scratch = [];
  aux_data = [];
  resolve_aux_ptr_range = λ ptr len. none;
}

-- A dissector that counts its packets; only those of link type 1 use its state.
abbrev dissection : Bool → Dissected
dissection true = record { buf = sample; ok = true; used_cross_packet_state = true }
dissection false = record { buf = no_fields; ok = true; used_cross_packet_state = false }

abbrev dissect : ℕ → Slice → ℕ → Dissected × ℕ
dissect r s link_type = (dissection (link_type == 1), suc r)

abbrev env : Env
env = record {
  Capture = ℕ;
  Registry = ℕ;
  Message = ℕ;
  packet_data = λ capture index. some packet;
  refresh = λ capture. inr capture;
  dissect = dissect;
  too_large = 0;
}

abbrev index : ℕ → PacketIndex
index link_type = record {
  data_offset = 40;
  captured_len = 4;
  original_len = 4;
  timestamp_secs = 0;
  timestamp_usecs = 0;
  link_type = link_type;
}

abbrev two_packets : List PacketIndex
two_packets = index 0 ∷ index 1 ∷ []

sample-Sound : Sound packet sample
sample-Sound = record {
  memory = memory;
  seen = refl;
  resolves = sample_resolves;
  viewed = sample_viewed;
  valid = sample_valid;
}

no_fields-Sound : Sound packet no_fields
unfolding owned_values
no_fields-Sound = record {
  memory = memory;
  seen = refl;
  resolves = λ ptr len r e. absurd (cc e);
  viewed = tt;
  valid = omega arith;
}

dissection-Sound : (t : Bool) → Sound packet (dissection t).buf
dissection-Sound true = sample-Sound
dissection-Sound false = no_fields-Sound

env-AllSound : AllSound env
env-AllSound c i s e r link_type =
    subst (λ p. Sound p (dissection (link_type == 1)).buf) (cc e)
      (dissection-Sound (link_type == 1))

dissection-Local :
    (t : Bool) (s s' : Slice)
    → s'.bytes ≡ s.bytes
    → (dissection t).used_cross_packet_state ≡ false
    → result_of s' (dissection t) ≡ result_of s (dissection t)
unfolding from_dissect_buf owned_values
dissection-Local true s s' e unused = absurd (cc unused)
dissection-Local false s s' e unused =
    ap
      (λ b. record {
        ok = true;
        packet = record { packet_data = b; aux_data = []; layers = []; fields = []; scratch = [] };
      })
      e

env-Local : Local env
env-Local r r' s s' link_type e unused = dissection-Local (link_type == 1) s s' e unused

abbrev begun : OrderedPass env
begun = spawn env 0 0

abbrev fed : OrderedPass env
fed = feed env two_packets begun

abbrev done : OrderedPass env
done = receive env fed

fed-Reach : Reach env 0 0 two_packets fed
unfolding feed feed_round spawn
fed-Reach = Reach.later Reach.start (Step.send two_packets [] refl refl)

done-Reach : Reach env 0 0 two_packets done
done-Reach = Reach.later fed-Reach Step.process

done-Fits : Fits done.thread.interner
unfolding receive feed feed_round spawn encode owned_values owned_value bytes_source in_packet
    empty_interner layer descriptor lookup take_new put_layers put_fields put_bytes put_varint
    put_varint_loop put_range put_value to_le_bytes put_source
done-Fits = omega arith

done_at_end : receive_all env (length fed.queue) fed ≡ done
unfolding receive_all feed feed_round spawn
done_at_end = refl

fed_both : fed.fed ≡ 2
unfolding feed feed_round spawn
fed_both = refl

abbrev both_outcomes : InOrder env
both_outcomes = (some (packet, dissection false) ∷ some (packet, dissection true) ∷ [], 0, 2)

done_offsets : done.shared.offsets ≡ 0 ∷ 1 ∷ []
unfolding receive feed feed_round spawn encode owned_values owned_value bytes_source in_packet
    empty_interner layer descriptor lookup take_new put_layers put_fields put_bytes put_varint
    put_varint_loop put_range put_value to_le_bytes put_source
done_offsets = refl

two_in_order : in_order env 0 0 two_packets ≡ some both_outcomes
unfolding in_order
two_in_order = refl

done_in_order :
    in_order env 0 0 (take (length done.shared.offsets) two_packets) ≡ some both_outcomes
done_in_order =
    ap (λ (os : List ℕ). in_order env 0 0 (take (length os) two_packets)) done_offsets
    ∙ two_in_order

second_stateful : status env done 1 ≡ Status.stateful
unfolding status
second_stateful = ap (λ os. status_of env (get_elem? os 1) done.shared.stopped) done_offsets

load-in_order_example :
    (results : InOrder env) × (in_order env 0 0 (take (length done.shared.offsets) two_packets)
      ≡ some results)
    × (length done.shared.offsets ≤ done.fed)
    × ((pkt_idx : ℕ)
        → pkt_idx < length done.shared.offsets
        → (o : Outcome env) × (get_elem? results.0 pkt_idx ≡ some o) × Told env done pkt_idx o)
load-in_order_example = load-in_order env 0 0 two_packets env-AllSound done done-Reach done-Fits

join_bound_example : length (join fed.queue) ≤ 65536
join_bound_example = join_bound env 0 0 two_packets fed fed-Reach

feed_done_example :
    (fully_fed env fed 2 ≡ true) ⊎ ((fed.running ≡ true) × (feed_queue ≤ length fed.queue))
feed_done_example = feed_done env two_packets begun

receive_all-status_example : status env (receive_all env (length fed.queue) fed) 1 ≢ Status.pending
receive_all-status_example =
    receive_all-status env 0 0 two_packets env-AllSound fed 1 fed-Reach
      (subst (λ (p : OrderedPass env). Fits p.thread.interner) (sym done_at_end) done-Fits)
      (omega (arith, fed_both))

resolve-in_order_example :
    (registry' : ℕ) × (display : Display) × (resolve env 7 (some done) 1 packet 1
      ≡ (display, some done, registry'))
    × (seen display ≡ some (result_of packet (dissection true)))
resolve-in_order_example =
    resolve-in_order env 0 0 two_packets env-AllSound env-Local 7 done 1 (index 1) packet packet
      (dissection true) {results = both_outcomes} done-Reach done-Fits done_in_order refl refl refl

load-Answers_example : Answers env done 1 packet.bytes (load env done 1 packet.bytes)
load-Answers_example = load-Answers env done 1 packet.bytes second_stateful
