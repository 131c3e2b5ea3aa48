-- ===== src/Session/Pass/System.antt =====
-- The main thread and the pass thread of src/session/ordered_pass.rs, interleaved in any order.
use dsct.Base.{ℕ, ◌≡◌, true, some, List, ◌++◌}
use dsct.Packet.{Bytes}
use dsct.Session.Pass.{
  PacketIndex, Env, PassError, OrderedPass, spawn, feed_round, stop, receive, load, take_error,
}

module _ (env : Env) where
  open env use {Capture, Registry, Message}

  -- What can happen, with `indices` all the packets that the index will ever hold.
  pub data Step (indices : List PacketIndex) (p : OrderedPass env) : OrderedPass env → Type 0 where
    -- A round of `feed` on the packets known so far.
    send :
        (known more : List PacketIndex) {p' : OrderedPass env}
        → known ++ more ≡ indices
        → feed_round env known p ≡ some p'
        → Step indices p p'
    -- The thread takes a batch, if there is one.
    process : Step indices p (receive env p)
    -- The thread cannot write, or panics, and leaves part of a batch in the file.
    break_off :
        (e : PassError Message) (part : Bytes)
        → p.running ≡ true
        → Step indices p (stop env e (record p { spill = p.spill ++ part }))
    look : (pkt_idx : ℕ) (bytes : Bytes) → Step indices p (load env p pkt_idx bytes).1
    report : Step indices p (take_error env p).1

  pub data Reach (capture : Capture) (registry : Registry) (indices : List PacketIndex)
      : OrderedPass env → Type 0 where
    start : Reach capture registry indices (spawn env capture registry)
    later :
        {p q : OrderedPass env}
        → Reach capture registry indices p
        → Step indices p q
        → Reach capture registry indices q
