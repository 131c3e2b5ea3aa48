-- ===== src/Session/Pass/Feeding.antt =====
-- `feed` of src/session/ordered_pass.rs: how far it gets, and what the channel holds.
use dsct.Base.{
  ℕ, zero, suc, ◌+◌, ◌-◌, ◌≤◌, ◌<◌, ◌≡◌, refl, ap, ◌∙◌, subst, Bool, true, false, not, ◌||◌, Option,
  none, some, List, [], ◌∷◌, inl, inr, ◌⊎◌, arith, length, take, drop, min, ltb, length-append,
  guarded-eq-some, guarded-eq-none, Option-cases, if◌then◌else◌, ltb→lt,
}
use dsct.Session.Pass.{
  PacketIndex, Env, OrderedPass, feed_batch, feed_queue, disconnected, sent, try_send, feed_round,
  feed_rounds, feed, fully_fed,
}

module _ (env : Env) where
  open env use {Capture, Registry, Message}

  -- What a round does that goes on.
  abbrev pub Goes : List PacketIndex → OrderedPass env → OrderedPass env → Type 0
  Goes indices p p' =
      ((p.running ≡ false) × (disconnected env p ≡ p'))
      ⊎ ((length p.queue < feed_queue)
          × (let end = min (length indices) (p.fed + feed_batch) in
              sent env p (take (end - p.fed) (drop p.fed indices)) end ≡ p'))

  try_send-Goes :
      (p : OrderedPass env) (batch : List PacketIndex) (end : ℕ) (running room : Bool)
      {p' : OrderedPass env}
      → p.running ≡ running
      → try_send env p batch end running room ≡ some p'
      → ((p.running ≡ false) × (disconnected env p ≡ p'))
        ⊎ ((room ≡ true) × (sent env p batch end ≡ p'))
  unfolding try_send
  try_send-Goes p batch end false room at e = inl (at, cc e)
  try_send-Goes p batch end true true at e = inr (refl, cc e)
  try_send-Goes p batch end true false at e = absurd (cc e)

  pub feed_round-Goes :
      (indices : List PacketIndex) (p : OrderedPass env) {p' : OrderedPass env}
      → feed_round env indices p ≡ some p'
      → Goes indices p p'
  unfolding feed_round
  feed_round-Goes indices p e =
      let (open_, e') = guarded-eq-some (not (ltb p.fed (length indices)) || not p.feeder) e in
      elim (try_send-Goes p _ _ p.running (ltb (length p.queue) feed_queue) refl e') [
        | inl ended ↦ inl ended
        | inr (room, same) ↦ inr (ltb→lt _ _ room, same)
      ]

  feed_rounds_done :
      (fuel : ℕ) (indices : List PacketIndex) (p : OrderedPass env)
      → feed_round env indices p ≡ none
      → feed_rounds env fuel indices p ≡ p
  unfolding feed_rounds
  feed_rounds_done zero indices p e = refl
  feed_rounds_done (suc fuel) indices p e = rw (e, feed_rounds)

  feed_rounds_go :
      (fuel : ℕ) (indices : List PacketIndex) (p : OrderedPass env) {p' : OrderedPass env}
      → feed_round env indices p ≡ some p'
      → feed_rounds env (suc fuel) indices p ≡ feed_rounds env fuel indices p'
  unfolding feed_rounds
  feed_rounds_go fuel indices p e = rw (e, feed_rounds)

  guarded_by : (t : Bool) (o : Option (OrderedPass env)) → (if t || true then none else o) ≡ none
  guarded_by true o = refl
  guarded_by false o = refl

  disconnected_done :
      (indices : List PacketIndex) (p : OrderedPass env)
      → feed_round env indices (disconnected env p) ≡ none
  unfolding feed_round
  disconnected_done indices p = guarded_by (not (ltb p.fed (length indices))) _

  -- The rounds end: the last one returns.
  feed_rounds_enough :
      (fuel : ℕ) (indices : List PacketIndex) (p : OrderedPass env)
      → feed_queue - length p.queue < fuel
      → feed_round env indices (feed_rounds env fuel indices p) ≡ none
  feed_rounds_enough zero indices p h = absurd (omega arith)
  feed_rounds_enough (suc fuel) indices p h = elim (Option-cases (feed_round env indices p)) [
    | inl ends ↦ ap (feed_round env indices) (feed_rounds_done (suc fuel) indices p ends) ∙ ends
    | inr (p', goes) ↦
        ap (feed_round env indices) (feed_rounds_go fuel indices p goes)
        ∙ elim (feed_round-Goes indices p goes) [
          | inl (ended, same) ↦
              subst (λ q. feed_round env indices (feed_rounds env fuel indices q) ≡ none) same
                (ap (feed_round env indices) (
                    feed_rounds_done fuel indices (disconnected env p)
                      (disconnected_done indices p))
                  ∙ disconnected_done indices p)
          | inr (room, same) ↦ feed_rounds_enough fuel indices p' (
              omega (
                arith,
                ap (λ (q : OrderedPass env). length q.queue) same,
                length-append p.queue (_ ∷ []),
              ))
        ]
  ]

  try_send-eq-none :
      (p : OrderedPass env) (batch : List PacketIndex) (end : ℕ) (running room : Bool)
      → try_send env p batch end running room ≡ none
      → (running ≡ true) × (room ≡ false)
  unfolding try_send
  try_send-eq-none p batch end false room e = absurd (cc e)
  try_send-eq-none p batch end true true e = absurd (cc e)
  try_send-eq-none p batch end true false e = (refl, refl)

  feed_round-eq-none :
      (indices : List PacketIndex) (p : OrderedPass env)
      → feed_round env indices p ≡ none
      → (fully_fed env p (length indices) ≡ true)
        ⊎ ((p.running ≡ true) × (feed_queue ≤ length p.queue))
  unfolding feed_round fully_fed
  feed_round-eq-none indices p e =
      elim (guarded-eq-none (not (ltb p.fed (length indices)) || not p.feeder) e) [
        | inl ends ↦ inl (ground arith)
        | inr refused ↦
            let (running, full) =
              try_send-eq-none p _ _ p.running (ltb (length p.queue) feed_queue) refused in
            inr (running, ground arith)
      ]

  -- `feed`, while the pass thread takes nothing from the channel, comes to its end having sent every
  -- packet or lost the thread, or leaves the channel full.
  pub feed_done :
      (indices : List PacketIndex) (p : OrderedPass env)
      → (fully_fed env (feed env indices p) (length indices) ≡ true)
        ⊎ (((feed env indices p).running ≡ true) × (feed_queue ≤ length (feed env indices p).queue))
  unfolding feed
  feed_done indices p =
      feed_round-eq-none indices _ (feed_rounds_enough (feed_queue + 1) indices p (omega arith))
