-- ===== src/Session/Pass/Channel.antt =====
-- What the channel of src/session/ordered_pass.rs holds.
use dsct.Base.{
  ◌+◌, ◌-◌, ◌*◌, ◌≤◌, ◌≡◌, refl, ap, subst, Bool, true, false, List, [], ◌∷◌, ◌++◌, inl, inr, arith,
  length, take, drop, min, length-append, length-take, All, All-append, if◌then◌else◌, Sum-cases,
}
use dsct.Session.Pass.{
  PacketIndex, Env, PassError, Work, OrderedPass, spawn, feed_batch, feed_queue, run_packets, begin,
  stop, publish, run_batch, receive_from, receive, take_error,
}
use dsct.Session.Pass.Looks.{load-OnlyError}
use dsct.Session.Pass.System.{Step, Reach}
use dsct.Session.Pass.Invariant.{join}
use dsct.Session.Pass.Feeding.{Goes, feed_round-Goes}

module _ (env : Env) where
  open env use {Capture, Registry, Message}

  -- The channel's messages, and the packets of each.
  pub record Room (p : OrderedPass env) : Type 0 where
    pub messages : length p.queue ≤ feed_queue
    pub packets : All (λ (b : List PacketIndex). length b ≤ feed_batch) p.queue

  Goes-Room :
      (known : List PacketIndex) (p p' : OrderedPass env) → Goes env known p p' → Room p → Room p'
  Goes-Room known p p' (inl (ended, same)) room =
      subst Room same (record { messages = room.messages; packets = room.packets })
  Goes-Room known p p' (inr (places, same)) room =
      let end = min (length known) (p.fed + feed_batch) in
      let batch = take (end - p.fed) (drop p.fed known) in
      subst Room same (record {
        messages = omega (arith, length-append p.queue (batch ∷ []));
        packets =
            All-append _ p.queue (batch ∷ []) room.packets
              (omega (arith, length-take (end - p.fed) (drop p.fed known)), tt);
      })

  stop-Room : (p : OrderedPass env) (e : PassError Message) → Room p → Room (stop env e p)
  unfolding stop
  stop-Room p e room = record { messages = room.messages; packets = room.packets }

  publish-Room : (p : OrderedPass env) (w : Work env) → Room p → Room (publish env p w)
  unfolding publish
  publish-Room p w room = record { messages = room.messages; packets = room.packets }

  run_batch-Room :
      (p : OrderedPass env) (batch : List PacketIndex) → Room p → Room (run_batch env p batch)
  unfolding run_batch
  run_batch-Room p batch room = elim (Sum-cases (run_packets env (begin env p) batch)) [
    | inl (m, failed) ↦ rw (failed, run_batch) (stop-Room p (PassError.stopped_early m) room)
    | inr (w, went) ↦ rw (went, run_batch) (publish-Room p w room)
  ]

  receive_from-Room :
      (p : OrderedPass env) (queue : List (List PacketIndex))
      → p.queue ≡ queue
      → Room p
      → Room (receive_from env p queue)
  unfolding receive_from
  receive_from-Room p [] waits room = room
  receive_from-Room p (batch ∷ rest) waits room =
      run_batch-Room (record p { queue = rest }) batch
        (record {
          messages = omega (arith, ap length waits, room.messages);
          packets =
              (subst (All (λ (b : List PacketIndex). length b ≤ feed_batch)) waits room.packets).1;
        })

  if-Room : (t : Bool) (p q : OrderedPass env) → Room p → Room q → Room (if t then p else q)
  if-Room true p q room room' = room
  if-Room false p q room room' = room'

  Step-Room :
      (indices : List PacketIndex) (p q : OrderedPass env) → Step env indices p q → Room p → Room q
  unfolding receive take_error
  Step-Room indices p q (Step.send known more whole e) room =
      Goes-Room known p q (feed_round-Goes env known p e) room
  Step-Room indices p q Step.process room =
      if-Room p.running _ p (receive_from-Room p p.queue refl room) room
  Step-Room indices p q (Step.break_off e part running) room =
      stop-Room (record p { spill = p.spill ++ part }) e
        (record { messages = room.messages; packets = room.packets })
  Step-Room indices p q (Step.look pkt_idx bytes) room =
      let (e, same) = load-OnlyError env p pkt_idx bytes in
      subst Room same (record { messages = room.messages; packets = room.packets })
  Step-Room indices p q Step.report room = record {
    messages = room.messages;
    packets = room.packets;
  }

  Reach-Room :
      (capture : Capture) (registry : Registry) (indices : List PacketIndex) (p : OrderedPass env)
      → Reach env capture registry indices p
      → Room p
  unfolding spawn
  Reach-Room c r indices p Reach.start = record { messages = omega arith; packets = tt }
  Reach-Room c r indices q (Reach.later {p} before step) =
      Step-Room indices p q step (Reach-Room c r indices p before)

  length-join :
      (queue : List (List PacketIndex))
      → All (λ (b : List PacketIndex). length b ≤ feed_batch) queue
      → length (join queue) ≤ feed_batch * length queue
  length-join [] h = omega arith
  length-join (b ∷ bs) (h, hs) = omega (arith, length-append b (join bs), length-join bs hs)

  -- In every state that the two threads can reach, in whatever order they act, the messages in the
  -- channel hold at most 65,536 packets together.
  pub join_bound :
      (capture : Capture) (registry : Registry) (indices : List PacketIndex) (p : OrderedPass env)
      → Reach env capture registry indices p
      → length (join p.queue) ≤ 65536
  join_bound c r indices p reached =
      let room = Reach-Room c r indices p reached in
      omega (arith, length-join p.queue room.packets, room.messages)
