-- ===== src/Session/Pass/Stands.antt =====
-- What the spill file of src/session/ordered_pass.rs holds: the results of the in-order dissection,
-- entry by entry.
use dsct.Base.{ℕ, zero, suc, ◌≡◌, true, false, none, some, List, [], ◌∷◌, ◌++◌}
use dsct.Packet.{Bytes, Slice, DissectBuffer}
use dsct.Owned.Faithful.{IsView, ResolvesAux, FieldsViewed}
use dsct.Codec.Intern.{Tables, Interner, extend}
use dsct.Codec.Intern.Laws.{ResolvesIn}
use dsct.Codec.Encode.{encode}
use dsct.Codec.Ids.{ResolvesIn-extend}
use dsct.Codec.RoundTrip.{ValidBuffer}
use dsct.Session.Pass.{PacketIndex, Dissected, Env, read_record, stateless}
use dsct.Session.Pass.Records.{read_record-append}
use dsct.Session.Pass.Order.{Outcome}

-- What the dissector promises of a buffer and the packet it is about.
pub record Sound (packet : Slice) (buf : DissectBuffer) : Type 0 where
  pub memory : ℕ → ℕ
  pub seen : IsView memory packet
  pub resolves : ResolvesAux memory buf
  pub viewed : FieldsViewed memory buf.fields
  pub valid : ValidBuffer packet buf

-- A record in the file that holds a dissection, with ids that the tables resolve.
pub record Holds (file : Bytes) (t : Tables) (packet : Slice) (d : Dissected) (offset : ℕ)
    : Type 0 where
  pub interner : Interner
  pub found : read_record file offset ≡ some (encode d.buf packet d.ok interner []).0
  pub resolved : ResolvesIn (encode d.buf packet d.ok interner []).1 t
  pub sound : Sound packet d.buf

Holds-grow :
    (file more : Bytes) (t new : Tables) (packet : Slice) (d : Dissected) (offset : ℕ)
    → Holds file t packet d offset
    → Holds (file ++ more) (extend t new) packet d offset
Holds-grow file more t new packet d offset h = record {
  interner = h.interner;
  found = read_record-append file more offset h.found;
  resolved = ResolvesIn-extend (encode d.buf packet d.ok h.interner []).1 t new h.resolved;
  sound = h.sound;
}

Holds-append :
    (file more : Bytes) (t : Tables) (packet : Slice) (d : Dissected) (offset : ℕ)
    → Holds file t packet d offset
    → Holds (file ++ more) t packet d offset
Holds-append file more t packet d offset h = record {
  interner = h.interner;
  found = read_record-append file more offset h.found;
  resolved = h.resolved;
  sound = h.sound;
}

module _ (env : Env) where
  open env use {Capture, Registry, Message}

  -- The dissector's promise, for every packet of the capture and any state of the registry.
  abbrev pub AllSound : Type 0
  AllSound =
      (c : Capture) (index : PacketIndex) (packet : Slice)
      → env.packet_data c index ≡ some packet
      → (r : Registry) (link_type : ℕ) → Sound packet (env.dissect r packet link_type).0.buf

  -- An offset entry stands for a packet's outcome.
  abbrev pub Stands : Bytes → Tables → Outcome env → ℕ → Type 0
  Stands file t none entry = entry ≡ stateless
  Stands file t (some (packet, d)) zero = d.used_cross_packet_state ≡ false
  Stands file t (some (packet, d)) (suc offset) =
      (d.used_cross_packet_state ≡ true) × Holds file t packet d offset

  abbrev pub AllStand : Bytes → Tables → List (Outcome env) → List ℕ → Type 0
  AllStand file t [] [] = Unit
  AllStand file t (o ∷ os) (e ∷ es) = Stands file t o e × AllStand file t os es
  AllStand file t _ _ = ⊥

  pub Stands-append :
      (file more : Bytes) (t : Tables) (o : Outcome env) (e : ℕ)
      → Stands file t o e
      → Stands (file ++ more) t o e
  Stands-append file more t none e h = h
  Stands-append file more t (some (packet, d)) zero h = h
  Stands-append file more t (some (packet, d)) (suc offset) (used, h) =
      (used, Holds-append file more t packet d offset h)

  Stands-grow :
      (file more : Bytes) (t new : Tables) (o : Outcome env) (e : ℕ)
      → Stands file t o e
      → Stands (file ++ more) (extend t new) o e
  Stands-grow file more t new none e h = h
  Stands-grow file more t new (some (packet, d)) zero h = h
  Stands-grow file more t new (some (packet, d)) (suc offset) (used, h) =
      (used, Holds-grow file more t new packet d offset h)

  pub AllStand-map :
      (file file' : Bytes) (t t' : Tables)
      → ((o : Outcome env) (e : ℕ) → Stands file t o e → Stands file' t' o e)
      → (os : List (Outcome env)) (es : List ℕ) → AllStand file t os es
      → AllStand file' t' os es
  AllStand-map file file' t t' f [] [] h = h
  AllStand-map file file' t t' f [] (e ∷ es) h = absurd h
  AllStand-map file file' t t' f (o ∷ os) [] h = absurd h
  AllStand-map file file' t t' f (o ∷ os) (e ∷ es) (h, hs) =
      (f o e h, AllStand-map file file' t t' f os es hs)

  -- What was published stays as it is when more is.
  pub AllStand-grow :
      (file more : Bytes) (t new : Tables) (os : List (Outcome env)) (es : List ℕ)
      → AllStand file t os es
      → AllStand (file ++ more) (extend t new) os es
  AllStand-grow file more t new =
      AllStand-map file (file ++ more) t (extend t new) (Stands-grow file more t new)

  pub AllStand-join :
      (file : Bytes) (t : Tables) (os os' : List (Outcome env)) (es es' : List ℕ)
      → AllStand file t os es
      → AllStand file t os' es'
      → AllStand file t (os ++ os') (es ++ es')
  AllStand-join file t [] os' [] es' h h' = h'
  AllStand-join file t [] os' (e ∷ es) es' h h' = absurd h
  AllStand-join file t (o ∷ os) os' [] es' h h' = absurd h
  AllStand-join file t (o ∷ os) os' (e ∷ es) es' (h, hs) h' =
      (h, AllStand-join file t os os' es es' hs h')
