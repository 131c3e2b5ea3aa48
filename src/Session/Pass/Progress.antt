-- ===== src/Session/Pass/Progress.antt =====
-- The pass thread of src/session/ordered_pass.rs gets through what was sent.
use dsct.Base.{
  ℕ, zero, suc, ◌≤◌, ◌<◌, ◌≡◌, ◌≢◌, refl, ap, sym, ◌∙◌, subst, Bool, true, false, Option, none,
  some, List, [], ◌∷◌, inl, inr, ◌⊎◌, arith, length, get_elem?, Bool-cases, Sum-cases,
  if◌then◌else◌, get_elem?_within, not,
}
use dsct.Codec.Intern.Laws.{Fits}
use dsct.Session.Pass.{
  PacketIndex, Env, OrderedPass, Status, status_of, status, run_packets, begin, stop, publish,
  run_batch, receive_from, receive,
}
use dsct.Session.Pass.Stands.{AllSound}
use dsct.Session.Pass.System.{Step, Reach}
use dsct.Session.Pass.Invariant.{Inv, join}
use dsct.Session.Pass.Steps.{Reach-Inv}
use dsct.Session.Pass.Loads.{published_length, within_fed}

module _ (env : Env) where
  open env use {Capture, Registry, Message}

  -- The thread takes up to `n` batches while nothing is sent.
  unfoldable pub receive_all : ℕ → OrderedPass env → OrderedPass env
  unfolding receive
  receive_all zero p = p
  receive_all (suc n) p = receive_all n (receive env p)

  -- What a batch leaves of the channel, and of what was sent.
  abbrev Leaves : ℕ → OrderedPass env → OrderedPass env → Type 0
  Leaves waiting p q = (q.fed ≡ p.fed) × ((q.running ≡ false) ⊎ (length q.queue ≡ waiting))

  run_batch-Leaves :
      (p : OrderedPass env) (batch : List PacketIndex)
      → Leaves (length p.queue) p (run_batch env p batch)
  unfolding run_batch stop publish
  run_batch-Leaves p batch = elim (Sum-cases (run_packets env (begin env p) batch)) [
    | inl (m, failed) ↦ rw (failed, run_batch) (refl, inl refl)
    | inr (w, went) ↦ rw (went, run_batch) (refl, inr refl)
  ]

  receive_from-Leaves :
      (p : OrderedPass env) (queue : List (List PacketIndex)) (n : ℕ)
      → p.queue ≡ queue
      → length queue ≤ suc n
      → (waiting : ℕ) × (waiting ≤ n) × Leaves waiting p (receive_from env p queue)
  unfolding receive_from
  receive_from-Leaves p [] n e h = (0, omega arith, (refl, inr (ap length e)))
  receive_from-Leaves p (batch ∷ rest) n e h =
      (length rest, omega arith, run_batch-Leaves (record p { queue = rest }) batch)

  receive_ended : (p : OrderedPass env) → p.running ≡ false → receive env p ≡ p
  unfolding receive
  receive_ended p ended = ap (λ t. if t then receive_from env p p.queue else p) ended

  receive_runs :
      (p : OrderedPass env) → p.running ≡ true → receive env p ≡ receive_from env p p.queue
  unfolding receive
  receive_runs p running = ap (λ t. if t then receive_from env p p.queue else p) running

  receive_all_ended : (n : ℕ) (p : OrderedPass env) → p.running ≡ false → receive_all n p ≡ p
  unfolding receive_all
  receive_all_ended zero p ended = refl
  receive_all_ended (suc n) p ended =
      ap (receive_all n) (receive_ended p ended) ∙ receive_all_ended n p ended

  receive_all_from :
      (n : ℕ) (p q : OrderedPass env) (waiting : ℕ)
      → waiting ≤ n
      → Leaves waiting p q
      → (length q.queue ≤ n → Leaves 0 q (receive_all n q))
      → Leaves 0 p (receive_all n q)
  receive_all_from n p q waiting h (fed, inl ended) rest =
      subst (Leaves 0 p) (sym (receive_all_ended n q ended)) (fed, inl ended)
  receive_all_from n p q waiting h (fed, inr left) rest =
      let (fed', left') = rest (omega arith) in (fed' ∙ fed, left')

  -- As many batches as the channel holds empty it, unless the thread ends.
  receive_all-Leaves :
      (n : ℕ) (p : OrderedPass env) → length p.queue ≤ n → Leaves 0 p (receive_all n p)
  unfolding receive_all
  receive_all-Leaves zero p h = (refl, inr (omega arith))
  receive_all-Leaves (suc n) p h = elim (Bool-cases p.running) [
    | inr ended ↦ subst (Leaves 0 p) (sym (receive_all_ended (suc n) p ended)) (refl, inl ended)
    | inl running ↦
        let (waiting, fewer, (fed, left)) = receive_from-Leaves p p.queue n refl h in
        let moved = subst (Leaves waiting p) (sym (receive_runs p running)) (fed, left) in
        receive_all_from n p (receive env p) waiting fewer moved
          (λ short. receive_all-Leaves n (receive env p) short)
  ]

  receive_all-Reach :
      (capture : Capture) (registry : Registry) (indices : List PacketIndex) (n : ℕ)
      (p : OrderedPass env)
      → Reach env capture registry indices p
      → Reach env capture registry indices (receive_all n p)
  unfolding receive_all
  receive_all-Reach c r indices zero p reached = reached
  receive_all-Reach c r indices (suc n) p reached =
      receive_all-Reach c r indices n (receive env p) (Reach.later reached Step.process)

  status_of_told :
      (stopped : Bool) (o : Option ℕ)
      → (stopped ≡ true) ⊎ ((entry : ℕ) × (o ≡ some entry))
      → status_of env o stopped ≢ Status.pending
  unfolding status_of
  status_of_told stopped (some zero) h e = cc e
  status_of_told stopped (some (suc offset)) h e = cc e
  status_of_told true none h e = cc e
  status_of_told false none (inl ended) e = cc ended
  status_of_told false none (inr (entry, found)) e = cc found

  length-join_empty : (queue : List (List PacketIndex)) → length queue ≡ 0 → length (join queue) ≡ 0
  length-join_empty [] h = refl
  length-join_empty (b ∷ bs) h = absurd (omega arith)

  module _ (capture : Capture) (registry : Registry) (indices : List PacketIndex)
      (sound : AllSound env) where
    -- Whatever was sent is settled once the pass thread has taken the batches that wait in the channel:
    -- then no packet that was sent is Pending, in whatever reachable state of the two threads that
    -- begins, and also if the thread ends on the way.
    -- Assumed: the dissector keeps its promises, and at most 2^32 ids of each kind are in use in the
    -- end.
    pub receive_all-status :
        (p : OrderedPass env) (pkt_idx : ℕ)
        → Reach env capture registry indices p
        → Fits (receive_all (length p.queue) p).thread.interner
        → pkt_idx < p.fed
        → status env (receive_all (length p.queue) p) pkt_idx ≢ Status.pending
    unfolding status
    receive_all-status p pkt_idx reached fits within =
        let q = receive_all (length p.queue) p in
        let inv =
          Reach-Inv env capture registry indices sound q
            (receive_all-Reach capture registry indices (length p.queue) p reached) fits in
        let (fed, left) = receive_all-Leaves (length p.queue) p (omega arith) in
        status_of_told q.shared.stopped (get_elem? q.shared.offsets pkt_idx)
          (elim (Bool-cases q.running) [
            | inr ended ↦ inl (inv.told ∙ ap not ended)
            | inl running ↦ inr (
                get_elem?_within q.shared.offsets pkt_idx
                  (reaches q inv running (emptied q running left) (omega (arith, within, fed))))
          ])
      where
        emptied :
            (q : OrderedPass env)
            → q.running ≡ true
            → (q.running ≡ false) ⊎ (length q.queue ≡ 0)
            → length q.queue ≡ 0
        emptied q running (inl ended) = absurd (cc (running, ended))
        emptied q running (inr left) = left

        reaches :
            (q : OrderedPass env)
            → (inv : Inv env capture registry indices q) → q.running ≡ true
            → length q.queue ≡ 0
            → pkt_idx < q.fed
            → pkt_idx < length q.shared.offsets
        reaches q inv running empty within = omega (
          arith,
          published_length env capture registry indices sound q inv,
          within_fed env capture registry indices sound q inv,
          inv.fed_within,
          ap length (inv.waiting running),
          length-join_empty q.queue empty,
        )
