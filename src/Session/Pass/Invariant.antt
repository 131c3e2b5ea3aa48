-- ===== src/Session/Pass/Invariant.antt =====
-- The invariant of src/session/ordered_pass.rs: what was published is the in-order dissection of the
-- packets sent first.
use dsct.Base.{
  take-add, ℕ, ◌+◌, ◌-◌, ◌≤◌, ◌≡◌, refl, ap, sym, ◌∙◌, true, false, not, Option, some, List, [],
  ◌∷◌, ◌++◌, inr, arith, length, take, drop, min, append_assoc, append-nil, length-append,
  take-append_le,
}
use dsct.Packet.{Bytes}
use dsct.Codec.Intern.{Interner, take_new, extend}
use dsct.Codec.Intern.Laws.{InStep, Fits, extend-take_new, empty-InStep}
use dsct.Codec.Ids.{Few, published-Few}
use dsct.Session.Pass.{
  PacketIndex, Env, PassError, Work, OrderedPass, spawn, feed_batch, stop, run_packets, publish,
  begin, sent, disconnected,
}
use dsct.Session.Pass.Order.{Outcome, in_order, in_order-append}
use dsct.Session.Pass.Stands.{
  AllSound, AllStand, AllStand-grow, AllStand-join, AllStand-map, Stands-append,
}
use dsct.Session.Pass.Follow.{run_packets-Ran}

-- The packets of the batches in the channel.
abbrev pub join : List (List PacketIndex) → List PacketIndex
join [] = []
join (b ∷ bs) = b ++ join bs

join-snoc :
    (bs : List (List PacketIndex)) (b : List PacketIndex) → join (bs ++ (b ∷ [])) ≡ join bs ++ b
join-snoc [] b = append-nil b
join-snoc (c ∷ bs) b = ap (λ rest. c ++ rest) (join-snoc bs b) ∙ sym (append_assoc c (join bs) b)

module _ (env : Env) where
  open env use {Capture, Registry, Message}

  module _ (capture : Capture) (registry : Registry) (indices : List PacketIndex) where
    -- `handled` are the packets whose results are published, `rest` those sent behind them.
    pub record Inv (p : OrderedPass env) : Type 0 where
      pub handled : List PacketIndex
      pub rest : List PacketIndex
      pub outcomes : List (Outcome env)
      pub sent : handled ++ rest ≡ take p.fed indices
      pub fed_within : p.fed ≤ length indices
      pub waiting : p.running ≡ true → rest ≡ join p.queue
      pub followed :
          in_order env capture registry handled
          ≡ some (outcomes, p.thread.capture, p.thread.registry)
      pub stand : AllStand env p.spill p.shared.tables outcomes p.shared.offsets
      pub in_step : InStep p.thread.interner p.shared.tables
      pub few : Few p.shared.tables
      pub at_end : p.running ≡ true → length p.spill ≡ p.thread.position
      pub told : p.shared.stopped ≡ not p.running
      pub fed_open : p.feeder ≡ false → p.running ≡ false

    pub spawn-Inv : Inv (spawn env capture registry)
    unfolding spawn in_order
    spawn-Inv = record {
      handled = [];
      rest = [];
      outcomes = [];
      sent = refl;
      fed_within = omega arith;
      waiting = λ _. refl;
      followed = refl;
      stand = tt;
      in_step = empty-InStep;
      few = record { descriptors = omega arith; layers = omega arith };
      at_end = λ _. refl;
      told = refl;
      fed_open = λ e. absurd (cc e);
    }

    pub take_new-Fits : (i : Interner) → Fits (take_new i).1 → Fits i
    unfolding take_new
    take_new-Fits i fits = record { descriptors = fits.descriptors; layers = fits.layers }

    -- The thread ends, with more bytes in the file that no entry is about.
    pub stop-Inv :
        (p : OrderedPass env) (queue : List (List PacketIndex)) (part : Bytes)
        (e : PassError Message)
        → Inv p
        → Inv (stop env e (record p { queue = queue; spill = p.spill ++ part }))
    unfolding stop
    stop-Inv p queue part e inv = record {
      handled = inv.handled;
      rest = inv.rest;
      outcomes = inv.outcomes;
      sent = inv.sent;
      fed_within = inv.fed_within;
      waiting = λ ended. absurd (cc ended);
      followed = inv.followed;
      stand =
          AllStand-map env p.spill (p.spill ++ part) p.shared.tables p.shared.tables
            (Stands-append env p.spill part p.shared.tables) inv.outcomes p.shared.offsets
            inv.stand;
      in_step = inv.in_step;
      few = inv.few;
      at_end = λ ended. absurd (cc ended);
      told = refl;
      fed_open = λ _. refl;
    }

    pub set_error-Inv :
        (p : OrderedPass env) (e : Option (PassError Message))
        → Inv p
        → Inv (record p { shared = record p.shared { error = e } })
    set_error-Inv p e inv = record {
      handled = inv.handled;
      rest = inv.rest;
      outcomes = inv.outcomes;
      sent = inv.sent;
      fed_within = inv.fed_within;
      waiting = inv.waiting;
      followed = inv.followed;
      stand = inv.stand;
      in_step = inv.in_step;
      few = inv.few;
      at_end = inv.at_end;
      told = inv.told;
      fed_open = inv.fed_open;
    }

    pub disconnect-Inv :
        (p : OrderedPass env) → p.running ≡ false → Inv p → Inv (disconnected env p)
    disconnect-Inv p ended inv = record {
      handled = inv.handled;
      rest = inv.rest;
      outcomes = inv.outcomes;
      sent = inv.sent;
      fed_within = inv.fed_within;
      waiting = inv.waiting;
      followed = inv.followed;
      stand = inv.stand;
      in_step = inv.in_step;
      few = inv.few;
      at_end = inv.at_end;
      told = rw ended;
      fed_open = λ _. ended;
    }

    pub send-Inv :
        (p : OrderedPass env) (known more : List PacketIndex)
        → known ++ more ≡ indices
        → p.fed ≤ length known
        → Inv p
        → (let end = min (length known) (p.fed + feed_batch) in
            Inv (sent env p (take (end - p.fed) (drop p.fed known)) end))
    send-Inv p known more whole within inv =
        let end = min (length known) (p.fed + feed_batch) in
        let batch = take (end - p.fed) (drop p.fed known) in
        record {
          handled = inv.handled;
          rest = inv.rest ++ batch;
          outcomes = inv.outcomes;
          sent =
              sym (append_assoc inv.handled inv.rest batch)
              ∙ ap (λ before. before ++ batch) (inv.sent ∙ known_part p.fed within)
              ∙ take-add p.fed (end - p.fed) known
              ∙ ap (λ n. take n known) (omega arith)
              ∙ sym (known_part end (omega arith));
          fed_within = omega (arith, ap length whole, length-append known more);
          waiting = λ running.
              ap (λ before. before ++ batch) (inv.waiting running) ∙ sym (join-snoc p.queue batch);
          followed = inv.followed;
          stand = inv.stand;
          in_step = inv.in_step;
          few = inv.few;
          at_end = inv.at_end;
          told = inv.told;
          fed_open = inv.fed_open;
        }
      where
        known_part : (n : ℕ) → n ≤ length known → take n indices ≡ take n known
        known_part n h = ap (take n) (sym whole) ∙ take-append_le n known more h

    module _ (sound : AllSound env) where
      pub publish-Inv :
          (p : OrderedPass env) (batch : List PacketIndex) (queue : List (List PacketIndex))
          (w : Work env)
          → run_packets env (begin env p) batch ≡ inr w
          → p.running ≡ true
          → p.queue ≡ batch ∷ queue
          → Fits (take_new w.thread.interner).1
          → Inv p
          → Inv (publish env (record p { queue = queue }) w)
      unfolding publish
      publish-Inv p batch queue w e running waits fits inv =
          let (os, followed, ran) = run_packets-Ran env sound _ batch e in
          let fits' = take_new-Fits w.thread.interner fits in
          let in_step = ran.in_step p.shared.tables inv.in_step fits' in
          let (resolved, in_step') = extend-take_new w.thread.interner p.shared.tables in_step in
          let t = extend p.shared.tables (take_new w.thread.interner).0 in
          record {
            handled = inv.handled ++ batch;
            rest = join queue;
            outcomes = inv.outcomes ++ os;
            sent =
                append_assoc inv.handled batch (join queue)
                ∙ ap (λ more. inv.handled ++ more) (sym (inv.waiting running ∙ ap join waits))
                ∙ inv.sent;
            fed_within = inv.fed_within;
            waiting = λ _. refl;
            followed = in_order-append env capture registry inv.handled batch inv.followed followed;
            stand =
                rw (ran.written, ran.offsets)
                  (AllStand-join env (p.spill ++ ran.bytes) t inv.outcomes os p.shared.offsets
                    ran.entries
                    (AllStand-grow env p.spill ran.bytes p.shared.tables
                      (take_new w.thread.interner).0 inv.outcomes p.shared.offsets inv.stand)
                    ((ran.stood t resolved).1 p.spill (inv.at_end running)));
            in_step = in_step';
            few = published-Few w.thread.interner p.shared.tables in_step fits';
            at_end = λ _. omega (
              arith,
              inv.at_end running,
              ran.position,
              ap length ran.written,
              length-append p.spill w.written,
            );
            told = inv.told;
            fed_open = inv.fed_open;
          }
