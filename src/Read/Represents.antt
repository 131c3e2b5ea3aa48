-- ===== src/Read/Represents.antt =====
-- What a worker of src/parallel_read.rs sends, merged, is its batches processed in capture order.
use dsct.Base.{
  ℕ, zero, suc, ◌≡◌, refl, sym, ap, subst, ◌∙◌, Bool, true, false, Bool-cases, none, some, List, [],
  ◌∷◌, inl, inr, arith, ltb, All,
}
use dsct.Read.{Packet, Limits, Env, Flow, State, for_each, and_then}
use dsct.Read.InOrder.{packet, match_found}
use dsct.Read.Batch.{InputBatch, get, iter, processed}
use dsct.Read.Batch.Laws.{Holds, get-Holds, iter-Holds, batch_len-Holds}
use dsct.Read.Dispatch.{WellFormed}
use dsct.Read.Worker.{
  WorkerEntry, Found, OutputBatch, in_order_count, undissected, dissect_packets, renew,
  finish_batch, hand_over, passed_on, dissected, skip_after, worker_fn,
}
use dsct.Read.Merger.{merge_entry, merge_batch, count_batch}
use dsct.Read.Same.{Same, forget, flow_map}
use dsct.Read.Entries.{
  Local, Writes, Has, entry, dissect_packets-Same, dissect_packets_whole, undissected-Same,
}

module _ {A B : Type 0} where
  abbrev pub All2 : (A → B → Type 0) → List A → List B → Type 0
  All2 R [] [] = Unit
  All2 R (x ∷ xs) (y ∷ ys) = R x y × All2 R xs ys
  All2 R _ _ = true ≡ false

module _ (env : Env) (limits : Limits) (serialize_error : ℕ → env.Message → env.Message)
    (not_handed_over : env.Message) where
  open env use {Registry, Message}

  abbrev pub Represents : InputBatch → OutputBatch Message → Type 0
  Represents b out =
      (s s' : State env)
      → forget env s ≡ forget env s'
      → Same env (merge_batch env limits serialize_error not_handed_over s out)
          (for_each (packet env limits) s' (iter b))

  batch_Has : (b : InputBatch) (ps : List Packet) → Holds b ps → Has (some b) 0 ps
  batch_Has b ps held j p e = ap (λ (i : ℕ). get b i) (omega arith) ∙ get-Holds b ps j held e

  abbrev marked : InputBatch → State env → WorkerEntry Message → Flow (State env) Message
  marked b = entry env limits serialize_error not_handed_over (some b)

  abbrev counted : State env → InputBatch → State env
  counted s b = count_batch env limits serialize_error not_handed_over s (processed b)

  passed_on-Represents : (b : InputBatch) → WellFormed b → Represents b (passed_on env b)
  unfolding passed_on merge_batch
  passed_on-Represents b (ps, held) s s' e =
      ap (λ (k : ℕ). flow_map (forget env) (for_each (marked b) (counted s b) (undissected k 0)))
        (batch_len-Holds b ps held)
      ∙ undissected-Same env limits serialize_error not_handed_over (some b) 0 ps (counted s b) s'
          (batch_Has b ps held) e
      ∙ ap (λ (qs : List Packet). flow_map (forget env) (for_each (packet env limits) s' qs))
          (sym (iter-Holds b ps held))

  -- Entries without a mark do not need the batch.
  merge_unmarked :
      (b : InputBatch) (es : List (WorkerEntry Message)) (s : State env)
      → in_order_count es ≡ 0
      → for_each (entry env limits serialize_error not_handed_over none) s es
        ≡ for_each (entry env limits serialize_error not_handed_over (some b)) s es
  unfolding in_order_count for_each merge_entry
  merge_unmarked b [] s e = refl
  merge_unmarked b (WorkerEntry.matched json ∷ es) s e =
      ap (and_then (match_found env limits s (inr json))) (λ i s'. merge_unmarked b es s' e i)
  merge_unmarked b (WorkerEntry.warning number m ∷ es) s e = merge_unmarked b es _ e
  merge_unmarked b (WorkerEntry.fatal number m ∷ es) s e = refl
  merge_unmarked b (WorkerEntry.in_order index ∷ es) s e = absurd (omega (arith, e))

  merge_handed :
      (b : InputBatch) (es : List (WorkerEntry Message)) (s : State env)
      → for_each (entry env limits serialize_error not_handed_over (hand_over env b es)) s es
        ≡ for_each (marked b) s es
  unfolding hand_over
  merge_handed b es s = elim (Bool-cases (ltb 0 (in_order_count es))) [
    | inl e ↦ rw e
    | inr e ↦ rw (e, merge_unmarked b es s (ground arith))
  ]

  module _ (local : Local env) (writes : Writes env) (fresh : Registry)
      (renews : env.new_registry ≡ inr fresh) where
    finish_batch_kept :
        (b : InputBatch) (es : List (WorkerEntry Message)) (r : Registry)
        → ((finish_batch env b (es, false, r)).0 ≡ es)
          × ((finish_batch env b (es, false, r)).1 ≡ false)
    unfolding finish_batch renew
    finish_batch_kept b es r = elim (Bool-cases (ltb 0 (in_order_count es))) [
      | inl e ↦ rw (e, renews) (refl, refl)
      | inr e ↦ rw e (refl, refl)
    ]

    dissected-Represents :
        (r : Registry) (b : InputBatch)
        → WellFormed b
        → Represents b (dissected env r b).0 × ((dissected env r b).1 ≡ false)
    unfolding dissected merge_batch
    dissected-Represents r b (ps, held) = (
      λ s s' e.
          ap
            (λ (es : List (WorkerEntry Message)). flow_map (forget env) (
              for_each (entry env limits serialize_error not_handed_over (hand_over env b found.0))
                (counted s b) es))
            kept
          ∙ ap (flow_map (forget env)) (merge_handed b found.0 (counted s b))
          ∙ dissect_packets-Same env limits serialize_error not_handed_over local writes (some b) r
              0 (iter b) (counted s b) s' has e,
      ap (λ (t : Bool). (finish_batch env b (found.0, t, found.2)).1) whole
          ∙ (finish_batch_kept b found.0 found.2).1,
    )
      where
        found : Found env
        found = dissect_packets env r 0 (iter b)

        has : Has (some b) 0 (iter b)
        has = subst (Has (some b) 0) (sym (iter-Holds b ps held)) (batch_Has b ps held)

        whole : found.1 ≡ false
        whole =
            dissect_packets_whole env limits serialize_error not_handed_over local writes (some b) r
              0 (iter b) has

        kept : (finish_batch env b (found.0, found.1, found.2)).0 ≡ found.0
        kept =
            ap (λ (t : Bool). (finish_batch env b (found.0, t, found.2)).0) whole
            ∙ (finish_batch_kept b found.0 found.2).0

    -- All that a worker sends, in the order of the batches it received.
    pub worker_fn-Represents :
        (r : Registry) (skip : ℕ) (batches : List InputBatch)
        → All WellFormed batches
        → All2 Represents batches (worker_fn env r skip batches)
    unfolding worker_fn
    worker_fn-Represents r skip [] formed = tt
    worker_fn-Represents r (suc skip) (b ∷ batches) (held, formed) =
        (passed_on-Represents b held, worker_fn-Represents r skip batches formed)
    worker_fn-Represents r zero (b ∷ batches) (held, formed) =
        let (represents, runs) = dissected-Represents r b held in
        rw runs (
          represents,
          worker_fn-Represents (dissected env r b).2 (skip_after env r b) batches formed,
        )
