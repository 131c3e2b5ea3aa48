-- ===== src/Read/Merging.antt =====
-- The merger of src/parallel_read.rs over queues that stand for the batches sent.
use dsct.Base.{
  ℕ, zero, suc, ◌+◌, ◌%◌, ◌≡◌, ◌<◌, refl, sym, ap, ap₂, subst, true, false, Bool-cases, Option,
  none, some, List, [], ◌∷◌, inl, inr, arith, ◌==◌, ==_iff, length, All,
}
use dsct.Read.{Limits, Env, Flow, State, for_each, and_then}
use dsct.Read.InOrder.{packet}
use dsct.Read.Batch.{InputBatch, iter}
use dsct.Read.Reader.{Sent}
use dsct.Read.Worker.{OutputBatch}
use dsct.Read.Dispatch.{WellFormed, AllWellFormed, RoundRobin, packets_of}
use dsct.Read.Merger.{channel, tail_of, received, unless_stopped, merge_batch, merger_fn}
use dsct.Read.Same.{Same, Same_cases, forget, for_each-append}
use dsct.Read.Represents.{Represents, All2}

pub channel-WellFormed :
    (i : ℕ) (sent : Sent) → AllWellFormed sent → All WellFormed (channel i sent)
unfolding channel
channel-WellFormed i [] formed = tt
channel-WellFormed i ((k, b) ∷ sent) (held, formed) = elim (Bool-cases (k == i)) [
  | inl e ↦ rw e (held, channel-WellFormed i sent formed)
  | inr e ↦ rw e (channel-WellFormed i sent formed)
]

module _ {A B : Type 0} (R : A → B → Type 0) where
  All2-nil : (ys : List B) → All2 R [] ys → ys ≡ []
  All2-nil [] h = refl
  All2-nil (y ∷ ys) h = absurd (cc h)

  All2-cons :
      (x : A) (xs : List A) (ys : List B)
      → All2 R (x ∷ xs) ys
      → (y : B) × (zs : List B) × (ys ≡ y ∷ zs) × R x y
  All2-cons x xs [] h = absurd (cc h)
  All2-cons x xs (y ∷ ys) (r, rs) = (y, ys, refl, r)

  All2-tail : (x : A) (xs : List A) (ys : List B) → All2 R (x ∷ xs) ys → All2 R xs (tail_of ys)
  All2-tail x xs [] h = absurd (cc h)
  All2-tail x xs (y ∷ ys) (r, rs) = rs

module _ (env : Env) (limits : Limits) (serialize_error : ℕ → env.Message → env.Message)
    (not_handed_over : env.Message) where
  open env use {Message}

  abbrev R : InputBatch → OutputBatch Message → Type 0
  R = Represents env limits serialize_error not_handed_over

  abbrev pub Outcome : Option (Flow (State env) Message) → Flow (State env) Message → Type 0
  Outcome none g = true ≡ false
  Outcome (some f) g = Same env f g

  -- The queues without the batch just received stand for the batches still to come.
  received-All2 :
      (k : ℕ) (b : InputBatch) (sent : Sent) (queues : ℕ → List (OutputBatch Message))
      → ((i : ℕ) → All2 R (channel i ((k, b) ∷ sent)) (queues i))
      → (i : ℕ) → All2 R (channel i sent) (received k queues i)
  unfolding channel
  received-All2 k b sent queues h i = elim (Bool-cases (k == i)) [
    | inl same ↦ rw same (All2-tail R b (channel i sent) (queues i) (rw same at (h i)))
    | inr other ↦ rw other (rw other at (h i))
  ]

  round-Outcome :
      (m m' : Flow (State env) Message) (next : State env → Option (Flow (State env) Message))
      (next' : State env → Flow (State env) Message)
      → Same env m m'
      → ((s s' : State env) → forget env s ≡ forget env s' → Outcome (next s) (next' s'))
      → Outcome
          (unless_stopped env limits serialize_error not_handed_over m next)
          (and_then m' next')
  unfolding and_then
  round-Outcome m m' next next' e h =
      Same_cases env
        (λ m m'.
          Outcome (unless_stopped env limits serialize_error not_handed_over m next)
            (and_then m' next'))
        h (λ s s'. ap Flow.break) (λ x x' s s'. ap₂ Flow.failed) m m' e

  merger_fn_end :
      (fuel n k : ℕ) (queues : ℕ → List (OutputBatch Message)) (s : State env)
      → queues k ≡ []
      → merger_fn env limits serialize_error not_handed_over (suc fuel) n k queues s
        ≡ some (Flow.continue s)
  unfolding merger_fn
  merger_fn_end fuel n k queues s e = rw (e, merger_fn)

  merger_fn_round :
      (fuel n k : ℕ) (queues : ℕ → List (OutputBatch Message)) (s : State env)
      {out : OutputBatch Message} {outs : List (OutputBatch Message)}
      → queues k ≡ out ∷ outs
      → merger_fn env limits serialize_error not_handed_over (suc fuel) n k queues s
        ≡ unless_stopped env limits serialize_error not_handed_over
            (merge_batch env limits serialize_error not_handed_over s out)
            (λ s'.
              merger_fn env limits serialize_error not_handed_over fuel n
                ((k + 1) % n)
                (received k queues)
                s')
  unfolding merger_fn
  merger_fn_round fuel n k queues s e = rw (e, merger_fn)

  Outcome-of :
      (o o' : Option (Flow (State env) Message)) (g : Flow (State env) Message)
      → o ≡ o'
      → Outcome o' g
      → Outcome o g
  Outcome-of o o' g e = subst (λ (x : Option (Flow (State env) Message)). Outcome x g) (sym e)

  pub merger_fn-Outcome :
      (sent : Sent) (fuel n k : ℕ) (queues : ℕ → List (OutputBatch Message)) (s s' : State env)
      → length sent < fuel
      → RoundRobin n k sent
      → ((i : ℕ) → All2 R (channel i sent) (queues i))
      → forget env s ≡ forget env s'
      → Outcome
          (merger_fn env limits serialize_error not_handed_over fuel n k queues s)
          (for_each (packet env limits) s' (packets_of sent))
  unfolding merger_fn channel for_each
  merger_fn-Outcome sent zero n k queues s s' enough turns h e = absurd (omega arith)
  merger_fn-Outcome [] (suc fuel) n k queues s s' enough turns h e =
      Outcome-of _ (some (Flow.continue s)) _
        (merger_fn_end fuel n k queues s (All2-nil R (queues k) (h k))) (ap Flow.continue e)
  merger_fn-Outcome ((j, b) ∷ sent) (suc fuel) n k queues s s' enough (turn, turns) h e =
      let (out, outs, first, represents) = All2-cons R b (channel k sent) (queues k) here in
      Outcome-of _ _ _ (merger_fn_round fuel n k queues s first) (
        subst (Outcome _) (sym (for_each-append (packet env limits) s' (iter b) (packets_of sent)))
          (round-Outcome _ _ _ _ (represents s s' e) (λ t t' e'.
            merger_fn-Outcome sent fuel n ((k + 1) % n) (received k queues) t t'
              (omega (arith, enough)) turns (received-All2 k b sent queues h') e')))
    where
      h' : (i : ℕ) → All2 R (channel i ((k, b) ∷ sent)) (queues i)
      h' = subst (λ (l : ℕ). (i : ℕ) → All2 R (channel i ((l, b) ∷ sent)) (queues i)) turn h

      here : All2 R (b ∷ channel k sent) (queues k)
      here = rw ((==_iff k k).1 refl) at (h' k)
