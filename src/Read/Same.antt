-- ===== src/Read/Same.antt =====
-- Runs of src/parallel_read.rs compared up to the counters `packets_processed` and `in_order_packets`.
use dsct.Base.{
  ◌≡◌, refl, sym, ap, ap₂, ◌∙◌, Bool, true, false, not, Bool-cases, Option, none, some, List, [],
  ◌∷◌, ◌++◌, ◌⊎◌, inl, inr, ltb, ◌&&◌, ◌%◌, ◌==◌,
}
use dsct.Packet.{Bytes}
use dsct.Read.{
  Packet, PacketMeta, Limits, Tally, admit, wrote, Env, Flow, State, and_then, for_each, settle,
}
use dsct.Read.InOrder.{flow, write_record, offered, match_found, judge, packet}

module _ {S M : Type 0} where
  abbrev pub flow_map : (S → S) → Flow S M → Flow S M
  flow_map g (Flow.continue s) = Flow.continue (g s)
  flow_map g (Flow.break s) = Flow.break (g s)
  flow_map g (Flow.failed e s) = Flow.failed e (g s)

  pub and_then_assoc :
      (m : Flow S M) (f g : S → Flow S M)
      → and_then (and_then m f) g ≡ and_then m (λ s. and_then (f s) g)
  unfolding and_then
  and_then_assoc (Flow.continue s) f g = refl
  and_then_assoc (Flow.break s) f g = refl
  and_then_assoc (Flow.failed e s) f g = refl

  pub for_each-append :
      {A : Type 0} (f : S → A → Flow S M) (s : S) (xs ys : List A)
      → for_each f s (xs ++ ys) ≡ and_then (for_each f s xs) (λ s'. for_each f s' ys)
  unfolding for_each and_then
  for_each-append f s [] ys = refl
  for_each-append f s (x ∷ xs) ys = after (f s x) (λ s'. for_each-append f s' xs ys)
    where
      after :
          (m : Flow S M)
          → ((s' : S)
              → for_each f s' (xs ++ ys) ≡ and_then (for_each f s' xs) (λ s''. for_each f s'' ys))
          → and_then m (λ s'. for_each f s' (xs ++ ys))
            ≡ and_then (and_then m (λ s'. for_each f s' xs)) (λ s'. for_each f s' ys)
      after (Flow.continue s') h = h s'
      after (Flow.break s') h = refl
      after (Flow.failed e s') h = refl

module _ (env : Env) where
  open env use {Message}

  abbrev pub forget : State env → State env
  forget s = record s { tally = record s.tally { packets_processed = 0; in_order_packets = 0 } }

  abbrev pub Same : Flow (State env) Message → Flow (State env) Message → Type 0
  Same f g = flow_map forget f ≡ flow_map forget g

  -- Two flows that are the same have the same shape.
  pub Same_cases :
      (P : Flow (State env) Message → Flow (State env) Message → Type 0)
      → ((s s' : State env) → forget s ≡ forget s' → P (Flow.continue s) (Flow.continue s'))
      → ((s s' : State env) → forget s ≡ forget s' → P (Flow.break s) (Flow.break s'))
      → ((e e' : Message) (s s' : State env)
          → e ≡ e'
          → forget s ≡ forget s'
          → P (Flow.failed e s) (Flow.failed e' s'))
      → (f g : Flow (State env) Message) → Same f g
      → P f g
  Same_cases P c b d (Flow.continue s) (Flow.continue s') h = c s s' (cc h)
  Same_cases P c b d (Flow.continue s) (Flow.break s') h = absurd (cc h)
  Same_cases P c b d (Flow.continue s) (Flow.failed m s') h = absurd (cc h)
  Same_cases P c b d (Flow.break s) (Flow.continue s') h = absurd (cc h)
  Same_cases P c b d (Flow.break s) (Flow.break s') h = b s s' (cc h)
  Same_cases P c b d (Flow.break s) (Flow.failed m s') h = absurd (cc h)
  Same_cases P c b d (Flow.failed m s) (Flow.continue s') h = absurd (cc h)
  Same_cases P c b d (Flow.failed m s) (Flow.break s') h = absurd (cc h)
  Same_cases P c b d (Flow.failed m s) (Flow.failed m' s') h = d m m' s s' (cc h) (cc h)

  pub and_then-Same :
      (f g : Flow (State env) Message) (j k : State env → Flow (State env) Message)
      → Same f g
      → ((s s' : State env) → forget s ≡ forget s' → Same (j s) (k s'))
      → Same (and_then f j) (and_then g k)
  unfolding and_then
  and_then-Same f g j k e h =
      Same_cases (λ f g. Same (and_then f j) (and_then g k)) h (λ s s'. ap Flow.break)
        (λ m m' s s'. ap₂ Flow.failed) f g e

  -- How the loop ends, the counters forgotten.
  abbrev pub seen : Flow (State env) Message → Option Message × State env
  seen f = settle (flow_map forget f)

  pub and_then-seen :
      (f g : Flow (State env) Message) (j k : State env → Flow (State env) Message)
      → Same f g
      → ((s s' : State env) → forget s ≡ forget s' → seen (j s) ≡ seen (k s'))
      → seen (and_then f j) ≡ seen (and_then g k)
  unfolding and_then
  and_then-seen f g j k e h =
      Same_cases (λ f g. seen (and_then f j) ≡ seen (and_then g k)) h
        (λ s s' same. ap (λ (t : State env). (none, t)) same)
        (λ m m' s s' same_m same. ap₂ (λ (m : Message) (t : State env). (some m, t)) same_m same) f
        g e

module _ (env : Env) (limits : Limits) where
  open env use {Message, Buffer}

  flow-forget :
      (b : Bool) (s : State env)
      → flow env limits b (forget env s) ≡ flow_map (forget env) (flow env limits b s)
  flow-forget true s = refl
  flow-forget false s = refl

  write_record-forget :
      (s : State env) (json : Message ⊎ Bytes)
      → write_record env limits (forget env s) json
        ≡ flow_map (forget env) (write_record env limits s json)
  unfolding write_record wrote
  write_record-forget s (inl e) = refl
  write_record-forget s (inr json) = flow-forget _ _

  abbrev forget_tally : Tally → Tally
  forget_tally t = record t { packets_processed = 0; in_order_packets = 0 }

  admit_forget :
      (t : Tally)
      → admit limits (forget_tally t) ≡ ((admit limits t).0, forget_tally (admit limits t).1)
  unfolding admit
  admit_forget t =
      elim (Bool-cases
        (ltb 1 limits.sample_rate && not (t.filter_matches % limits.sample_rate == 0))) [
          | inl e ↦ rw e
          | inr e ↦ rw e
        ]

  offered-forget :
      (s : State env) (json : Message ⊎ Bytes) (b : Bool) (t : Tally)
      → offered env limits (forget env s) json (b, forget_tally t)
        ≡ flow_map (forget env) (offered env limits s json (b, t))
  offered-forget s json true t = write_record-forget (record s { tally = t }) json
  offered-forget s json false t = refl

  pub match_found-forget :
      (s : State env) (json : Message ⊎ Bytes)
      → match_found env limits (forget env s) json
        ≡ flow_map (forget env) (match_found env limits s json)
  unfolding match_found
  match_found-forget s json =
      ap (offered env limits (forget env s) json) (admit_forget s.tally)
      ∙ offered-forget s json (admit limits s.tally).0 (admit limits s.tally).1

  judge-forget :
      (s : State env) (meta : PacketMeta) (bytes : Bytes) (b : Buffer) (error : Option Message)
      → judge env limits (forget env s) meta bytes b error
        ≡ flow_map (forget env) (judge env limits s meta bytes b error)
  unfolding judge
  judge-forget s meta bytes b (some e) = refl
  judge-forget s meta bytes b none = elim (Bool-cases (env.matches b bytes meta.number)) [
    | inl e ↦ rw (e, match_found-forget s (env.write_json meta b bytes))
    | inr e ↦ rw e
  ]

  packet-forget :
      (s : State env) (p : Packet)
      → packet env limits (forget env s) p ≡ flow_map (forget env) (packet env limits s p)
  unfolding packet
  packet-forget s (meta, bytes) = judge-forget _ meta bytes _ _

  -- A function of the state that keeps what is forgotten out of what it does.
  pub Same-forget :
      {A : Type 0} (f : State env → A → Flow (State env) Message)
      → ((s : State env) (x : A) → f (forget env s) x ≡ flow_map (forget env) (f s x))
      → (x : A) (s s' : State env) → forget env s ≡ forget env s'
      → Same env (f s x) (f s' x)
  Same-forget f h x s s' e = sym (h s x) ∙ ap (λ (t : State env). f t x) e ∙ h s' x

  pub packet-Same :
      (p : Packet) (s s' : State env)
      → forget env s ≡ forget env s'
      → Same env (packet env limits s p) (packet env limits s' p)
  packet-Same = Same-forget (packet env limits) packet-forget

  pub match_found-Same :
      (json : Message ⊎ Bytes) (s s' : State env)
      → forget env s ≡ forget env s'
      → Same env (match_found env limits s json) (match_found env limits s' json)
  match_found-Same = Same-forget (match_found env limits) match_found-forget

  pub packets-Same :
      (ps : List Packet) (s s' : State env)
      → forget env s ≡ forget env s'
      → Same env (for_each (packet env limits) s ps) (for_each (packet env limits) s' ps)
  unfolding for_each
  packets-Same [] s s' e = ap Flow.continue e
  packets-Same (p ∷ ps) s s' e = and_then-Same env _ _ _ _ (packet-Same p s s' e) (packets-Same ps)
