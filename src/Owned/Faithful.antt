-- ===== src/Owned/Faithful.antt =====
-- What an owned packet shows is what the dissection showed (src/session/owned_packet.rs).
use dsct.Base.{
  append_assoc, subst, map, ℕ, ◌+◌, ◌-◌, ◌≤◌, ◌≡◌, refl, ap, sym, ◌∙◌, append-nil, true, some, List,
  [], ◌∷◌, ◌++◌, length, take, drop, All, arith, Bool-cases, Option-cases, inl, inr, length-append,
  take-append, drop-append, suc, zero, take-append_le, drop-append_le, length-drop,
}
use dsct.Packet.{
  Bytes, Range, Slice, slice, Within, Field, FieldValue, DissectBuffer, shown, Descriptor,
}
use dsct.Utf8.{is_utf8}
use dsct.Owned.{
  BytesSource, from_data, from_aux, OwnedFieldValue, OwnedPacket, OwnedField, in_packet,
  bytes_source, owned_value, owned_values, zip_fields, from_dissect_buf, resolve_bytes, resolve_str,
  to_field_value,
}

-- The bytes that a memory holds from an address on.
abbrev pub read_memory : (ℕ → ℕ) → ℕ → ℕ → Bytes
read_memory memory ptr zero = []
read_memory memory ptr (suc n) = memory ptr ∷ read_memory memory (ptr + 1) n

-- A slice shows what the memory holds at its address.
abbrev pub IsView : (ℕ → ℕ) → Slice → Type 0
IsView memory s = s.bytes ≡ read_memory memory s.ptr (length s.bytes)

-- The search of the auxiliary blocks answers with a range that holds the bytes at the address.
abbrev pub ResolvesAux : (ℕ → ℕ) → DissectBuffer → Type 0
ResolvesAux memory buf =
    (ptr len : ℕ) (r : Range)
    → buf.resolve_aux_ptr_range ptr len ≡ some r
    → Within (length buf.aux_data) r × (slice buf.aux_data r ≡ read_memory memory ptr len)

drop-read_memory :
    (memory : ℕ → ℕ) (k ptr n : ℕ)
    → k ≤ n
    → drop k (read_memory memory ptr n) ≡ read_memory memory (ptr + k) (n - k)
drop-read_memory memory zero ptr n h = ground arith
drop-read_memory memory (suc k) ptr zero h = absurd (omega arith)
drop-read_memory memory (suc k) ptr (suc n) h =
    ground (arith, drop-read_memory memory k (ptr + 1) n)

take-read_memory :
    (memory : ℕ → ℕ) (k ptr n : ℕ)
    → k ≤ n
    → take k (read_memory memory ptr n) ≡ read_memory memory ptr k
take-read_memory memory zero ptr n h = refl
take-read_memory memory (suc k) ptr zero h = absurd (omega arith)
take-read_memory memory (suc k) ptr (suc n) h =
    ground (arith, take-read_memory memory k (ptr + 1) n)

slice-append : (b more : Bytes) (r : Range) → Within (length b) r → slice (b ++ more) r ≡ slice b r
slice-append b more r h =
    ap (take (r.end - r.start)) (drop-append_le r.start b more (omega arith))
    ∙ take-append_le (r.end - r.start) (drop r.start b) more (omega (arith, length-drop r.start b))

-- A source lies within the packet's bytes or the auxiliary bytes.
abbrev pub SourceWithin : ℕ → ℕ → BytesSource → Type 0
SourceWithin data_len aux_len (from_data r) = Within data_len r
SourceWithin data_len aux_len (from_aux r) = Within aux_len r

abbrev pub source_bytes : Bytes → Bytes → BytesSource → Bytes
source_bytes packet aux (from_data r) = slice packet r
source_bytes packet aux (from_aux r) = slice aux r

abbrev pub Refers : Bytes → Bytes → BytesSource → Bytes → Type 0
Refers packet aux src b =
    SourceWithin (length packet) (length aux) src × (source_bytes packet aux src ≡ b)

Refers-append :
    (packet aux more : Bytes) (src : BytesSource) (b : Bytes)
    → Refers packet aux src b
    → Refers packet (aux ++ more) src b
Refers-append packet aux more (from_data r) b h = h
Refers-append packet aux more (from_aux r) b h =
    (omega (arith, length-append aux more), slice-append aux more r h.0 ∙ h.1)

slice-append_all :
    (aux b : Bytes) → slice (aux ++ b) (record { start = length aux; end = length (aux ++ b) }) ≡ b
slice-append_all aux b =
    rw (drop-append aux b, length-append aux b)
      (ground (arith, enough, take-append b [], append-nil b))
  where
    enough : length aux + length b - length aux ≡ length b
    enough = omega arith

slice-read_memory :
    (memory : ℕ → ℕ) (ptr n at len : ℕ)
    → at + len ≤ n
    → slice (read_memory memory ptr n) (record { start = at; end = at + len })
      ≡ read_memory memory (ptr + at) len
slice-read_memory memory ptr n at len h =
    ground (
      arith,
      drop-read_memory memory at ptr n,
      take-read_memory memory len (ptr + at) (n - at),
      span,
    )
  where
    span : at + len - at ≡ len
    span = omega arith

-- A borrowed value shows what the memory holds, and a string of it is UTF-8.
abbrev pub IsViewed : (ℕ → ℕ) → FieldValue Slice → Type 0
IsViewed memory (FieldValue.bytes b) = IsView memory b
IsViewed memory (FieldValue.str s) = IsView memory s × (is_utf8 s.bytes ≡ true)
IsViewed memory v = Unit {0}

abbrev pub FieldsViewed : (ℕ → ℕ) → List Field → Type 0
FieldsViewed memory = All (λ f. IsViewed memory f.value)

-- A value's source, if it has one, lies within the bytes that it refers to, and a string's bytes are
-- UTF-8.
abbrev pub InRange : Bytes → Bytes → OwnedFieldValue → Type 0
InRange packet aux (OwnedFieldValue.bytes src) = SourceWithin (length packet) (length aux) src
InRange packet aux (OwnedFieldValue.str src) =
    SourceWithin (length packet) (length aux) src × (is_utf8 (source_bytes packet aux src) ≡ true)
InRange packet aux v = Unit {0}

resolve_bytes-source_bytes :
    (p : OwnedPacket) (packet aux : Bytes) (src : BytesSource)
    → p.packet_data ≡ packet
    → p.aux_data ≡ aux
    → resolve_bytes p src ≡ source_bytes packet aux src
unfolding resolve_bytes
resolve_bytes-source_bytes p packet aux (from_data r) hp ha = ap (λ t. slice t r) hp
resolve_bytes-source_bytes p packet aux (from_aux r) hp ha = ap (λ t. slice t r) ha

resolve_str-eq :
    (p : OwnedPacket) (src : BytesSource) (b : Bytes)
    → resolve_bytes p src ≡ b
    → is_utf8 b ≡ true
    → resolve_str p src ≡ b
unfolding resolve_str
resolve_str-eq p src b e utf8 = rw (e, utf8)

-- What a field shows: its descriptor, its value and its range.
abbrev pub show_field : Field → Descriptor × FieldValue Bytes × Range
show_field f = (f.descriptor, shown f.value, f.range)

abbrev pub show_owned : OwnedPacket → OwnedField → Descriptor × FieldValue Bytes × Range
show_owned p f = (f.descriptor, to_field_value p f.value, f.range)

module _ (memory : ℕ → ℕ) (packet : Slice) (buf : DissectBuffer) (seen : IsView memory packet)
    (resolves : ResolvesAux memory buf) where
  -- Bytes found in the packet are those at their offset.
  in_packet-Refers :
      (b : Slice) (aux : Bytes)
      → IsView memory b
      → in_packet b packet ≡ true
      → Refers packet.bytes aux
          (from_data
            (record { start = b.ptr - packet.ptr; end = b.ptr - packet.ptr + length b.bytes }))
          b.bytes
  unfolding in_packet
  in_packet-Refers b aux v inside = (ground arith, same (ground arith) (ground arith))
    where
      at : ℕ
      at = b.ptr - packet.ptr

      same :
          packet.ptr ≤ b.ptr
          → at + length b.bytes ≤ length packet.bytes
          → slice packet.bytes (record { start = at; end = at + length b.bytes }) ≡ b.bytes
      same below fits =
          ap (λ t. slice t (record { start = at; end = at + length b.bytes })) seen
          ∙ slice-read_memory memory packet.ptr (length packet.bytes) at (length b.bytes) fits
          ∙ ap (λ (t : ℕ). read_memory memory t (length b.bytes)) (omega arith)
          ∙ sym v

  -- A source for the bytes `b`, and auxiliary data that may have grown by it.
  abbrev Sound : Bytes → Bytes → BytesSource × Bytes → Type 0
  Sound aux b r = (new : Bytes) × (r.1 ≡ aux ++ new) × Refers packet.bytes r.1 r.0 b

  -- What `bytes_source` returns refers to the bytes.
  bytes_source-Sound :
      (b : Slice) (extra : Bytes)
      → IsView memory b
      → Sound (buf.aux_data ++ extra) b.bytes (bytes_source b packet buf (buf.aux_data ++ extra))
  unfolding bytes_source
  bytes_source-Sound b extra v = elim (Bool-cases (in_packet b packet)) [
    | inl inside ↦
        rw inside ([], sym (append-nil _), in_packet-Refers b (buf.aux_data ++ extra) v inside)
    | inr outside ↦ elim (Option-cases (buf.resolve_aux_ptr_range b.ptr (length b.bytes))) [
      | inl missing ↦
          rw (outside, missing)
            (
              b.bytes,
              refl,
              (
                omega (arith, length-append (buf.aux_data ++ extra) b.bytes),
                slice-append_all (buf.aux_data ++ extra) b.bytes,
              ),
            )
      | inr (range, found) ↦
          let (within, same) = resolves b.ptr (length b.bytes) range found in
          rw (outside, found)
            (
              [],
              sym (append-nil _),
              Refers-append packet.bytes buf.aux_data extra (from_aux range) b.bytes
                  (within, same ∙ sym v),
            )
    ]
  ]

  -- An owned value shows what the borrowed one did, in every packet that holds the packet's bytes and
  -- the auxiliary data that the conversion left, whatever is appended later.
  abbrev SoundValue : Bytes → FieldValue Slice → OwnedFieldValue × Bytes → Type 0
  SoundValue aux v r =
      (new : Bytes) × (r.1 ≡ aux ++ new)
      × ((more : Bytes) → InRange packet.bytes (r.1 ++ more) r.0)
      × ((p : OwnedPacket) (more : Bytes)
          → p.packet_data ≡ packet.bytes
          → p.aux_data ≡ r.1 ++ more
          → to_field_value p r.0 ≡ shown v)

  owned_value-Sound :
      (v : FieldValue Slice) (extra : Bytes)
      → IsViewed memory v
      → SoundValue (buf.aux_data ++ extra) v (owned_value v packet buf (buf.aux_data ++ extra))
  unfolding owned_value to_field_value
  owned_value-Sound (FieldValue.bytes b) extra v =
      let (new, grown, refers) = bytes_source-Sound b extra v in
      let (src, aux) = bytes_source b packet buf (buf.aux_data ++ extra) in
      (
        new,
        grown,
        λ more. (Refers-append packet.bytes aux more src b.bytes refers).0,
        λ p more hp ha. ap FieldValue.bytes (
            resolve_bytes-source_bytes p packet.bytes (aux ++ more) src hp ha
            ∙ (Refers-append packet.bytes aux more src b.bytes refers).1),
      )
  owned_value-Sound (FieldValue.str s) extra (v, utf8) =
      let (new, grown, refers) = bytes_source-Sound s extra v in
      let (src, aux) = bytes_source s packet buf (buf.aux_data ++ extra) in
      (
        new,
        grown,
        λ more.
            let (within, same) = Refers-append packet.bytes aux more src s.bytes refers in
            (within, ap is_utf8 same ∙ utf8),
        λ p more hp ha. ap FieldValue.str (
            resolve_str-eq p src s.bytes
              (resolve_bytes-source_bytes p packet.bytes (aux ++ more) src hp ha
                ∙ (Refers-append packet.bytes aux more src s.bytes refers).1)
              utf8),
      )
  owned_value-Sound v extra h = ([], sym (append-nil _), λ more. tt, λ p more hp ha. refl)

  -- The same for all fields, each converted on what the one before it left.
  abbrev SoundValues : Bytes → List Field → List OwnedFieldValue × Bytes → Type 0
  SoundValues aux fs r =
      (new : Bytes) × (r.1 ≡ aux ++ new)
      × ((more : Bytes) → All (InRange packet.bytes (r.1 ++ more)) r.0)
      × ((p : OwnedPacket) (more : Bytes)
          → p.packet_data ≡ packet.bytes
          → p.aux_data ≡ r.1 ++ more
          → map (show_owned p) (zip_fields fs r.0) ≡ map show_field fs)

  owned_values-Sound :
      (fs : List Field) (aux extra : Bytes)
      → aux ≡ buf.aux_data ++ extra
      → FieldsViewed memory fs
      → SoundValues aux fs (owned_values fs packet buf aux)
  unfolding owned_values zip_fields
  owned_values-Sound [] aux extra e h = ([], sym (append-nil aux), λ more. tt, λ p more hp ha. refl)
  owned_values-Sound (f ∷ fs) aux extra e (v, vs) =
      let (new, grown, within, show) = value_here in
      let (new', grown', within', show') =
        owned_values-Sound fs (owned_value f.value packet buf aux).1 (extra ++ new)
          (grown ∙ ap (λ t. t ++ new) e ∙ append_assoc buf.aux_data extra new) vs in
      let grows = λ (more : Bytes).
        ap (λ t. t ++ more) grown'
        ∙ append_assoc (owned_value f.value packet buf aux).1 new' more in
      (
        new ++ new',
        grown' ∙ ap (λ t. t ++ new') grown ∙ append_assoc aux new new',
        λ more. (
          subst (λ t. InRange packet.bytes t (owned_value f.value packet buf aux).0)
              (sym (grows more)) (within (new' ++ more)),
          within' more,
        ),
        λ p more hp ha. λ i.
            (f.descriptor, show p (new' ++ more) hp (ha ∙ grows more) i, f.range)
            ∷ show' p more hp ha i,
      )
    where
      value_here : SoundValue aux f.value (owned_value f.value packet buf aux)
      value_here = rw e (owned_value-Sound f.value extra v)

  -- The owned packet shows every field as the dissection did: the same descriptors, ranges and layers,
  -- equal values, and for bytes and strings equal contents.
  -- Assumed: the slices show one memory, strings are UTF-8, and `resolve_aux_ptr_range` answers with
  -- a range of the auxiliary data that holds the bytes at the address.
  pub from_dissect_buf_faithful :
      FieldsViewed memory buf.fields
      → (map (show_owned (from_dissect_buf buf packet)) (from_dissect_buf buf packet).fields
          ≡ map show_field buf.fields)
        × ((from_dissect_buf buf packet).layers ≡ buf.layers)
  unfolding from_dissect_buf
  from_dissect_buf_faithful viewed =
      let (new, grown, within, show) =
        owned_values-Sound buf.fields buf.aux_data [] (sym (append-nil _)) viewed in
      (show (from_dissect_buf buf packet) [] refl (sym (append-nil _)), refl)

  -- Every source of an owned packet lies within its bytes, and its strings are UTF-8.
  pub from_dissect_buf-InRange :
      FieldsViewed memory buf.fields
      → All
          (InRange packet.bytes (owned_values buf.fields packet buf buf.aux_data).1)
          (owned_values buf.fields packet buf buf.aux_data).0
  from_dissect_buf-InRange viewed =
      let (new, grown, within, show) =
        owned_values-Sound buf.fields buf.aux_data [] (sym (append-nil _)) viewed in
      rw append-nil at (within [])
