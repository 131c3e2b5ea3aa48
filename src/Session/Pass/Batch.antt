-- ===== src/Session/Pass/Batch.antt =====
-- What `run` of src/session/ordered_pass.rs has written when it is through with packets: the results of
-- the in-order dissection, entry by entry.
use dsct.Base.{
  ℕ, suc, ◌+◌, ◌^◌, ◌<◌, ◌≡◌, refl, ap, sym, ◌∙◌, subst, true, some, List, [], ◌∷◌, ◌++◌, arith,
  length, length-append, append_assoc, append-nil,
}
use dsct.Packet.{Bytes, Slice}
use dsct.Codec.Intern.{Tables}
use dsct.Codec.Intern.Laws.{InStep, ResolvesIn, Fits}
use dsct.Codec.Encode.{encode}
use dsct.Codec.Ids.{encode-ResolvesIn, encode-Fits, encode-InStep}
use dsct.Session.Pass.{Dissected, Env, Work, skip, kept, u32_to_le_bytes, stateless}
use dsct.Session.Pass.Records.{read_record-middle}
use dsct.Session.Pass.Order.{Outcome}
use dsct.Session.Pass.Stands.{Sound, Stands, AllStand, AllStand-join, AllStand-map, Stands-append}

module _ (env : Env) where
  open env use {Capture, Registry, Message}

  -- From `w` to `w'` in one round or in many.
  pub record Ran (w w' : Work env) (os : List (Outcome env)) : Type 0 where
    pub entries : List ℕ
    pub bytes : Bytes
    pub offsets : w'.offsets ≡ w.offsets ++ entries
    pub written : w'.written ≡ w.written ++ bytes
    pub position : w'.thread.position ≡ w.thread.position + length bytes
    pub fitted : Fits w'.thread.interner → Fits w.thread.interner
    pub in_step :
        (t : Tables)
        → InStep w.thread.interner t
        → Fits w'.thread.interner
        → InStep w'.thread.interner t
    pub stood :
        (t : Tables)
        → ResolvesIn w'.thread.interner t
        → ResolvesIn w.thread.interner t
          × ((file : Bytes)
              → length file ≡ w.thread.position
              → AllStand env (file ++ bytes) t os entries)

  pub Ran-none : (w : Work env) → Ran w w []
  Ran-none w = record {
    entries = [];
    bytes = [];
    offsets = sym (append-nil w.offsets);
    written = sym (append-nil w.written);
    position = omega arith;
    fitted = λ fits. fits;
    in_step = λ t s fits. s;
    stood = λ t r. (r, λ file at. tt);
  }

  pub Ran-then :
      (w w' w'' : Work env) (o : Outcome env) (os : List (Outcome env))
      → Ran w w' (o ∷ [])
      → Ran w' w'' os
      → Ran w w'' (o ∷ os)
  Ran-then w w' w'' o os a b = record {
    entries = a.entries ++ b.entries;
    bytes = a.bytes ++ b.bytes;
    offsets =
        b.offsets
        ∙ ap (λ es. es ++ b.entries) a.offsets
        ∙ append_assoc w.offsets a.entries b.entries;
    written =
        b.written ∙ ap (λ es. es ++ b.bytes) a.written ∙ append_assoc w.written a.bytes b.bytes;
    position = omega (arith, a.position, b.position, length-append a.bytes b.bytes);
    fitted = λ fits. a.fitted (b.fitted fits);
    in_step = λ t s fits. b.in_step t (a.in_step t s (b.fitted fits)) fits;
    stood = λ t r.
        let (r', stand) = b.stood t r in
        let (r'', stand') = a.stood t r' in
        (
          r'',
          λ file at.
              let file' = file ++ a.bytes in
              subst (λ f. AllStand env f t (o ∷ os) (a.entries ++ b.entries))
                (append_assoc file a.bytes b.bytes)
                (AllStand-join env (file' ++ b.bytes) t (o ∷ []) os a.entries b.entries
                  (AllStand-map env file' (file' ++ b.bytes) t t (Stands-append env file' b.bytes t)
                    (o ∷ []) a.entries (stand' file at))
                  (stand file' (omega (arith, length-append file a.bytes, at, a.position)))),
        );
  }

  -- A packet with no record: the entry is STATELESS.
  pub Ran-skip :
      (w : Work env) (c : Capture) (r : Registry) (o : Outcome env)
      → ((file : Bytes) (t : Tables) → Stands env file t o stateless)
      → Ran w
          (skip env (record w { thread = record w.thread { capture = c; registry = r } }))
          (o ∷ [])
  Ran-skip w c r o stands = record {
    entries = stateless ∷ [];
    bytes = [];
    offsets = refl;
    written = sym (append-nil w.written);
    position = omega arith;
    fitted = λ fits. fits;
    in_step = λ t s fits. s;
    stood = λ t resolved. (resolved, λ file at. (stands (file ++ []) t, tt));
  }

  -- A packet with a record.
  pub Ran-kept :
      (w : Work env) (c : Capture) (r : Registry) (packet : Slice) (d : Dissected)
      → Sound packet d.buf
      → d.used_cross_packet_state ≡ true
      → length (encode d.buf packet d.ok w.thread.interner []).0 < 2 ^ 32
      → Ran w
          (let (bytes, interner) = encode d.buf packet d.ok w.thread.interner [] in
            kept env
              (record w { thread = record w.thread { capture = c; registry = r } })
              bytes
              interner)
          (some (packet, d) ∷ [])
  Ran-kept w c r packet d sound used short =
      let (bytes, interner) = encode d.buf packet d.ok w.thread.interner [] in
      record {
        entries = suc w.thread.position ∷ [];
        bytes = u32_to_le_bytes (length bytes) ++ bytes;
        offsets = refl;
        written = refl;
        position = omega arith;
        fitted = encode-Fits d.buf packet d.ok w.thread.interner;
        in_step = encode-InStep d.buf packet d.ok w.thread.interner;
        stood = λ t resolved. (
          encode-ResolvesIn d.buf packet d.ok w.thread.interner t resolved,
          λ file at. (
            (
              used,
              record {
                interner = w.thread.interner;
                found =
                    rw append-nil at
                      (read_record-middle file bytes [] w.thread.position (sym at) short);
                resolved = resolved;
                sound = sound;
              },
            ),
            tt,
          ),
        );
      }
