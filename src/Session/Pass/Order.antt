-- ===== src/Session/Pass/Order.antt =====
-- The reference for src/session/ordered_pass.rs: all packets dissected in capture order with one
-- registry, as `dsct read` does, with no batches and no file.
use dsct.Base.{
  subst, ◌≡◌, ap, ◌∙◌, Option, none, some, List, [], ◌∷◌, ◌++◌, inl, inr, ◌⊎◌, ◌>>=◌, bind-eq-some,
}
use dsct.Packet.{Slice}
use dsct.Session.Pass.{PacketIndex, Dissected, Env, find}

module _ (env : Env) where
  open env use {Capture, Registry, Message}

  -- A packet with its dissection; nothing for a packet that cannot be read.
  abbrev pub Outcome : Type 0
  Outcome = Option (Slice × Dissected)

  abbrev pub InOrder : Type 0
  InOrder = List Outcome × Capture × Registry

  unfoldable pub next_of :
      Registry
      → PacketIndex
      → Message ⊎ (Option Slice × Capture)
      → Option (Outcome × Capture × Registry)
  next_of registry index (inl m) = none
  next_of registry index (inr (none, capture)) = some (none, capture, registry)
  next_of registry index (inr (some packet, capture)) =
      let (d, registry') = env.dissect registry packet index.link_type in
      some (some (packet, d), capture, registry')

  -- One packet; nothing if the capture file cannot be mapped again.
  unfoldable pub dissect_next :
      Capture → Registry → PacketIndex → Option (Outcome × Capture × Registry)
  unfolding find next_of
  dissect_next capture registry index = next_of registry index (find env capture index)

  abbrev pub in_front : Outcome → InOrder → InOrder
  in_front o (rest, capture, registry) = (o ∷ rest, capture, registry)

  unfoldable pub in_order : Capture → Registry → List PacketIndex → Option InOrder
  unfolding dissect_next
  in_order capture registry [] = some ([], capture, registry)
  in_order capture registry (index ∷ rest) = do
    next ← dissect_next capture registry index
    others ← in_order next.1 next.2 rest
    some (in_front next.0 others)

  pub in_order-cons :
      (c : Capture) (r : Registry) (index : PacketIndex) (rest : List PacketIndex) {o : Outcome}
      {c' : Capture} {r' : Registry} {others : InOrder}
      → dissect_next c r index ≡ some (o, c', r')
      → in_order c' r' rest ≡ some others
      → in_order c r (index ∷ rest) ≡ some (in_front o others)
  unfolding in_order
  in_order-cons c r index rest e e' = rw (e, e')

  pub in_order-eq-some :
      (c : Capture) (r : Registry) (index : PacketIndex) (rest : List PacketIndex) {all : InOrder}
      → in_order c r (index ∷ rest) ≡ some all
      → (next : Outcome × Capture × Registry) × (others : InOrder) × (dissect_next c r index
          ≡ some next)
        × (in_order next.1 next.2 rest ≡ some others)
        × (in_front next.0 others ≡ all)
  unfolding in_order
  in_order-eq-some c r index rest e =
      let (next, found, e') = bind-eq-some (dissect_next c r index) _ e in
      let (others, found', e'') = bind-eq-some (in_order next.1 next.2 rest) _ e' in
      (next, others, found, found', cc e'')

  abbrev followed_by : List Outcome → InOrder → InOrder
  followed_by os (os', c, r) = (os ++ os', c, r)

  -- The dissection of more packets goes on where that of the first ended.
  pub in_order-append :
      (c : Capture) (r : Registry) (is js : List PacketIndex) {first second : InOrder}
      → in_order c r is ≡ some first
      → in_order first.1 first.2 js ≡ some second
      → in_order c r (is ++ js) ≡ some (followed_by first.0 second)
  unfolding in_order
  in_order-append c r [] js {first} {second} e e' =
      subst
        (λ (o : InOrder).
          in_order o.1 o.2 js ≡ some second → in_order c r js ≡ some (followed_by o.0 second))
        {x = ([], c, r)} {y = first} (cc e) (λ h. h) e'
  in_order-append c r (index ∷ is) js {first} {second} e e' =
      let (next, others, found, found', same) = in_order-eq-some c r index is e in
      let moved : in_order others.1 others.2 js ≡ some second =
        ap (λ (o : InOrder). in_order o.1 o.2 js) same ∙ e' in
      in_order-cons c r index (is ++ js) found (in_order-append next.1 next.2 is js found' moved)
      ∙ ap (λ (o : InOrder). some (followed_by o.0 second)) same
