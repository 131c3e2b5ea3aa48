-- ===== src/Session/Pass/Steps.antt =====
-- Every step of src/session/ordered_pass.rs keeps the invariant.
use dsct.Base.{
  guarded-eq-some, if◌then◌else◌, ℕ, ◌+◌, ◌-◌, ◌≤◌, ◌≡◌, refl, ap, sym, subst, Bool, true, false,
  not, none, some, List, [], ◌∷◌, ◌++◌, inl, inr, arith, length, take, drop, min, append-nil,
  Bool-cases, Sum-cases, ltb, ◌||◌,
}
use dsct.Packet.{Bytes}
use dsct.Codec.Intern.Laws.{Fits}
use dsct.Session.Pass.{
  PacketIndex, Env, PassError, Work, OrderedPass, feed_batch, feed_round, stop, run_packets,
  publish, run_batch, begin, receive_from, receive, load, try_send, take_error,
}
use dsct.Session.Pass.Stands.{AllSound}
use dsct.Session.Pass.Follow.{run_packets-Ran}
use dsct.Session.Pass.Looks.{load-OnlyError}
use dsct.Session.Pass.System.{Step, Reach}
use dsct.Session.Pass.Invariant.{
  Inv, spawn-Inv, take_new-Fits, stop-Inv, set_error-Inv, disconnect-Inv, send-Inv, publish-Inv,
}

module _ (env : Env) (capture : Env.Capture env) (registry : Env.Registry env)
    (indices : List PacketIndex) (sound : AllSound env) where
  open env use {Message}

  -- A step keeps the invariant, if the ids fit behind it; then they did before it.
  abbrev Keeps : OrderedPass env → OrderedPass env → Type 0
  Keeps p q =
      Fits q.thread.interner
      → Fits p.thread.interner
        × (Inv env capture registry indices p → Inv env capture registry indices q)

  run_batch_stops :
      (p : OrderedPass env) (batch : List PacketIndex) {m : Message}
      → run_packets env (begin env p) batch ≡ inl m
      → run_batch env p batch ≡ stop env (PassError.stopped_early m) p
  unfolding run_batch
  run_batch_stops p batch e = rw (e, run_batch)

  run_batch_publishes :
      (p : OrderedPass env) (batch : List PacketIndex) {w : Work env}
      → run_packets env (begin env p) batch ≡ inr w
      → run_batch env p batch ≡ publish env p w
  unfolding run_batch
  run_batch_publishes p batch e = rw (e, run_batch)

  stop-Keeps :
      (p : OrderedPass env) (queue : List (List PacketIndex)) (part : Bytes) (e : PassError Message)
      → Keeps p (stop env e (record p { queue = queue; spill = p.spill ++ part }))
  unfolding stop
  stop-Keeps p queue part e fits = (fits, stop-Inv env capture registry indices p queue part e)

  publish-Keeps :
      (p : OrderedPass env) (batch : List PacketIndex) (queue : List (List PacketIndex))
      (w : Work env)
      → run_packets env (begin env p) batch ≡ inr w
      → p.running ≡ true
      → p.queue ≡ batch ∷ queue
      → Keeps p (publish env (record p { queue = queue }) w)
  unfolding publish
  publish-Keeps p batch queue w e running waits fits =
      let ran = (run_packets-Ran env sound _ batch e).2 in
      (
        ran.fitted (take_new-Fits env capture registry indices w.thread.interner fits),
        publish-Inv env capture registry indices sound p batch queue w e running waits fits,
      )

  receive_from-Keeps :
      (p : OrderedPass env) (queue : List (List PacketIndex))
      → p.running ≡ true
      → p.queue ≡ queue
      → Keeps p (receive_from env p queue)
  unfolding receive_from
  receive_from-Keeps p [] running waits = λ fits. (fits, λ inv. inv)
  receive_from-Keeps p (batch ∷ rest) running waits =
      let p' = record p { queue = rest } in
      elim (Sum-cases (run_packets env (begin env p) batch)) [
        | inl (m, failed) ↦ subst (Keeps p) (sym (run_batch_stops p' batch failed)) (
            subst
              (λ spill.
                Keeps p
                  (stop env (PassError.stopped_early m) (record p { queue = rest; spill = spill })))
              (append-nil p.spill) (stop-Keeps p rest [] (PassError.stopped_early m)))
        | inr (w, went) ↦
            subst (Keeps p) (sym (run_batch_publishes p' batch went))
              (publish-Keeps p batch rest w went running waits)
      ]

  receive-Keeps : (p : OrderedPass env) → Keeps p (receive env p)
  unfolding receive
  receive-Keeps p = elim (Bool-cases p.running) [
    | inl running ↦
        subst (Keeps p) (ap (λ r. if r then receive_from env p p.queue else p) (sym running))
          (receive_from-Keeps p p.queue running refl)
    | inr ended ↦
        subst (Keeps p) (ap (λ r. if r then receive_from env p p.queue else p) (sym ended))
          (λ fits. (fits, λ inv. inv))
  ]

  report-Keeps : (p : OrderedPass env) → Keeps p (take_error env p).1
  unfolding take_error
  report-Keeps p fits = (fits, set_error-Inv env capture registry indices p none)

  load-Keeps :
      (p : OrderedPass env) (pkt_idx : ℕ) (bytes : Bytes) → Keeps p (load env p pkt_idx bytes).1
  load-Keeps p pkt_idx bytes =
      let (e, same) = load-OnlyError env p pkt_idx bytes in
      subst (Keeps p) same (λ fits. (fits, set_error-Inv env capture registry indices p e))

  try_send-Keeps :
      (p : OrderedPass env) (known more : List PacketIndex) (running room : Bool)
      {p' : OrderedPass env}
      → known ++ more ≡ indices
      → p.fed ≤ length known
      → p.running ≡ running
      → (let end = min (length known) (p.fed + feed_batch) in
          try_send env p (take (end - p.fed) (drop p.fed known)) end running room ≡ some p')
      → Keeps p p'
  unfolding try_send
  try_send-Keeps p known more false room whole within ended e =
      subst (Keeps p) (cc e) (λ fits. (fits, disconnect-Inv env capture registry indices p ended))
  try_send-Keeps p known more true true whole within ended e =
      subst (Keeps p) (cc e)
        (λ fits. (fits, send-Inv env capture registry indices p known more whole within))
  try_send-Keeps p known more true false whole within ended e = absurd (cc e)

  feed_round-Keeps :
      (p : OrderedPass env) (known more : List PacketIndex) {p' : OrderedPass env}
      → known ++ more ≡ indices
      → feed_round env known p ≡ some p'
      → Keeps p p'
  unfolding feed_round
  feed_round-Keeps p known more whole e =
      let (goes, e') = guarded-eq-some (not (ltb p.fed (length known)) || not p.feeder) e in
      try_send-Keeps p known more p.running _ whole (ground arith) refl e'

  Step-Keeps : (p q : OrderedPass env) → Step env indices p q → Keeps p q
  Step-Keeps p q (Step.send known more whole e) = feed_round-Keeps p known more whole e
  Step-Keeps p q Step.process = receive-Keeps p
  Step-Keeps p q (Step.break_off e part running) = stop-Keeps p p.queue part e
  Step-Keeps p q (Step.look pkt_idx bytes) = load-Keeps p pkt_idx bytes
  Step-Keeps p q Step.report = report-Keeps p

  -- The invariant holds of every state that can be reached, if the ids fit there.
  pub Reach-Inv :
      (p : OrderedPass env)
      → Reach env capture registry indices p
      → Fits p.thread.interner
      → Inv env capture registry indices p
  Reach-Inv p Reach.start fits = spawn-Inv env capture registry indices
  Reach-Inv q (Reach.later {p} before step) fits =
      let (fits', kept) = Step-Keeps p q step fits in kept (Reach-Inv p before fits')
