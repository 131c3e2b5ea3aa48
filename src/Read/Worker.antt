-- ===== src/Read/Worker.antt =====
-- `worker_fn` of src/parallel_read.rs: what a worker makes of the batches it receives.
use dsct.Base.{
  ℕ, zero, suc, ◌*◌, Bool, true, false, not, ◌&&◌, Option, none, some, List, [], ◌∷◌, ◌++◌, leb,
  ltb, if◌then◌else◌, ◌⊎◌, inl, inr,
}
use dsct.Packet.{Bytes}
use dsct.Read.{Packet, PacketMeta, Env, Dissected}
use dsct.Read.Batch.{InputBatch, batch_len, processed, iter}

abbrev pub mostly_in_order_percent : ℕ
mostly_in_order_percent = 90

abbrev pub skip_batches : ℕ
skip_batches = 7

pub data WorkerEntry (Message : Type 0) : Type 0 where
  matched : Bytes → WorkerEntry Message
  warning : ℕ → Message → WorkerEntry Message
  fatal : ℕ → Message → WorkerEntry Message
  in_order : ℕ → WorkerEntry Message

pub record OutputBatch (Message : Type 0) : Type 0 where
  pub packets : ℕ
  pub entries : List (WorkerEntry Message)
  pub handed : Option InputBatch

abbrev pub last_number : List PacketMeta → ℕ
last_number [] = 0
last_number (m ∷ []) = m.number
last_number (m ∷ (m' ∷ ms)) = last_number (m' ∷ ms)

module _ {M : Type 0} where
  abbrev pub is_in_order : WorkerEntry M → Bool
  is_in_order (WorkerEntry.in_order index) = true
  is_in_order _ = false

  unfoldable pub in_order_count : List (WorkerEntry M) → ℕ
  in_order_count [] = 0
  in_order_count (e ∷ es) = if is_in_order e then suc (in_order_count es) else in_order_count es

  -- Entries for `n` packets from `index` on that were not dissected.
  unfoldable pub undissected : ℕ → ℕ → List (WorkerEntry M)
  undissected zero index = []
  undissected (suc n) index = WorkerEntry.in_order index ∷ undissected n (suc index)

module _ (env : Env) where
  open env use {Registry, Message, Buffer, dissect, matches, write_json, new_registry}

  -- The entry of a packet, and whether it ends the worker; no entry when the filter drops it.
  unfoldable pub serialised : ℕ → Message ⊎ Bytes → WorkerEntry Message × Bool
  serialised number (inl e) = (WorkerEntry.fatal number e, true)
  serialised number (inr json) = (WorkerEntry.matched json, false)

  unfoldable pub entry_of :
      ℕ → PacketMeta → Bytes → Dissected Buffer Message → Option (WorkerEntry Message × Bool)
  unfolding serialised
  entry_of index meta bytes d =
      if d.used_cross_packet_state then some (WorkerEntry.in_order index, false) else elim d.error [
        | some e ↦ some (WorkerEntry.warning meta.number e, false)
        | none ↦
            if matches d.buffer bytes meta.number
            then some (serialised meta.number (write_json meta d.buffer bytes))
            else none
      ]

  abbrev pub Found : Type 0
  Found = List (WorkerEntry Message) × Bool × Registry

  -- The entry in front of those of the later packets, unless the loop stops at it.
  abbrev pub in_front : Option (WorkerEntry Message × Bool) → Registry → Found → Found
  in_front none r found = found
  in_front (some (e, true)) r found = (e ∷ [], true, r)
  in_front (some (e, false)) r (entries, stopped, r') = (e ∷ entries, stopped, r')

  -- The loop over the packets of a batch: its entries, whether it stopped at a fatal one, and the
  -- registry.
  unfoldable pub dissect_packets : Registry → ℕ → List Packet → Found
  unfolding entry_of
  dissect_packets r index [] = ([], false, r)
  dissect_packets r index ((meta, bytes) ∷ ps) =
      let (d, r') = dissect r bytes meta.link_type in
      in_front (entry_of index meta bytes d) r' (dissect_packets r' (suc index) ps)

  -- The registry replaced after it took on state, or the entry that ends the run.
  unfoldable pub renew :
      InputBatch → List (WorkerEntry Message) → Registry → Message ⊎ Registry → Found
  renew batch entries r (inr fresh) = (entries, false, fresh)
  renew batch entries r (inl e) =
      (entries ++ (WorkerEntry.fatal (last_number batch.metas) e ∷ []), true, r)

  unfoldable pub finish_batch : InputBatch → Found → Found
  unfolding renew in_order_count
  finish_batch batch (entries, stopped, r) =
      if ltb 0 (in_order_count entries) && not stopped
      then renew batch entries r new_registry
      else (entries, stopped, r)

  unfoldable pub hand_over : InputBatch → List (WorkerEntry Message) → Option InputBatch
  unfolding in_order_count
  hand_over batch entries = if ltb 0 (in_order_count entries) then some batch else none

  abbrev pub skips_after : InputBatch → List (WorkerEntry Message) → ℕ → ℕ
  skips_after batch entries skip =
      if leb (batch_len batch * mostly_in_order_percent) (in_order_count entries * 100)
      then skip_batches
      else skip

  unfoldable pub passed_on : InputBatch → OutputBatch Message
  unfolding undissected processed
  passed_on batch = record {
    packets = processed batch;
    entries = undissected (batch_len batch) 0;
    handed = some batch;
  }

  unfoldable pub dissected : Registry → InputBatch → OutputBatch Message × Bool × Registry
  unfolding dissect_packets finish_batch hand_over processed iter
  dissected r batch =
      let (found, stopped, r') = dissect_packets r 0 (iter batch) in
      let (entries, ended, r'') = finish_batch batch (found, stopped, r') in
      (
        record { packets = processed batch; entries = entries; handed = hand_over batch found },
        ended,
        r'',
      )

  -- The counter of batches to pass on, after this one was dissected.
  unfoldable pub skip_after : Registry → InputBatch → ℕ
  unfolding dissect_packets in_order_count iter
  skip_after r batch = skips_after batch (dissect_packets r 0 (iter batch)).0 0

  unfoldable pub worker_fn : Registry → ℕ → List InputBatch → List (OutputBatch Message)
  unfolding dissected passed_on skip_after
  worker_fn r skip [] = []
  worker_fn r (suc skip) (batch ∷ batches) = passed_on batch ∷ worker_fn r skip batches
  worker_fn r zero (batch ∷ batches) =
      let (out, ended, r') = dissected r batch in
      let rest = worker_fn r' (skip_after r batch) batches in if ended then out ∷ [] else out ∷ rest
