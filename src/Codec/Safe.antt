-- ===== src/Codec/Safe.antt =====
-- `decode` of src/session/packet_codec.rs lets no descriptor, source, string, child, scratch or field range of a
-- layer out of its bounds.
use dsct.Base.{
  ℕ, zero, suc, ◌^◌, ◌≡◌, refl, sym, ap, subst, ◌∙◌, some, List, [], ◌∷◌, length, Bool, true, false,
  arith, All, if◌then◌else◌, ◌&&◌, ◌||◌, leb, ltb, ◌==◌, get_elem?,
}
use dsct.Packet.{Bytes, Range, Within, Layer}
use dsct.Utf8.{is_utf8}
use dsct.Owned.{
  from_data, from_aux, OwnedFieldValue, OwnedField, u8, u16, u32, u64, bytes, str, ipv4_addr,
  ipv6_addr, mac_addr, array, object, scratch,
}
use dsct.Owned.Faithful.{SourceWithin, InRange}
use dsct.Codec.Intern.{Tables}
use dsct.Codec.Read.{
  Reader, ◌>>=◌, pure, fail, lift, read_u8, read_take, read_varint, try_below, read_usize, read_u32,
  read_range, read_range32_within, read_bytes, read_source, source_limit,
}
use dsct.Codec.Decode.{
  StoredPacket, read_str, read_value_of, read_value, read_layers, read_field, read_fields,
  ranges_fit, read_ok, read_record, decode, source_slice,
}
use dsct.Codec.Values.{source_slice-source_bytes}
use dsct.Codec.Damage.{decode-eq-some}
use dsct.Codec.Gives.{
  Gives, Gives-pure, Gives-fail, Gives-bind, Gives-any, Gives-guard, Gives-if, Gives-lift,
}

-- The ranges of a value's children or of its scratch bytes.
abbrev pub ChildrenWithin : ℕ → ℕ → OwnedFieldValue → Type 0
ChildrenWithin count scratch_len (array r) = Within count r
ChildrenWithin count scratch_len (object r) = Within count r
ChildrenWithin count scratch_len (scratch r) = Within scratch_len r
ChildrenWithin count scratch_len v = Unit {0}

abbrev pub SafeValue : Bytes → Bytes → ℕ → ℕ → OwnedFieldValue → Type 0
SafeValue d a scratch_len count v = InRange d a v × ChildrenWithin count scratch_len v

Gives-range32-Within : (len : ℕ) → Gives (read_range32_within len) (Within len)
unfolding read_range32_within
Gives-range32-Within len = Gives-any (Within len) read_u32 _ λ start.
    Gives-any (Within len) read_u32 _ λ end.
      Gives-guard (Within len) (leb start end && leb end len) (record { start = start; end = end })
        (λ h. ground arith)

source_within :
    (d a tag limit : ℕ) (r : Range)
    → source_limit d a tag ≡ some limit
    → (ltb r.end r.start || ltb limit r.end) ≡ false
    → SourceWithin d a (if tag == 0 then from_data r else from_aux r)
unfolding source_limit
source_within d a tag limit r e h = ground arith

Gives-source : (d a : ℕ) → Gives (read_source d a) (SourceWithin d a)
unfolding read_source
Gives-source d a = Gives-any (SourceWithin d a) read_u8 _ λ tag.
    Gives-any (SourceWithin d a) read_range _ λ r.
      Gives-bind (λ limit. source_limit d a tag ≡ some limit) (SourceWithin d a)
        (lift (source_limit d a tag)) _
        (Gives-lift (λ limit. source_limit d a tag ≡ some limit) (source_limit d a tag)
          (λ limit e. e))
        λ limit e. go limit r tag e (ltb r.end r.start || ltb limit r.end) refl
  where
    go :
        (limit : ℕ) (r : Range) (tag : ℕ)
        → source_limit d a tag ≡ some limit
        → (t : Bool) → (ltb r.end r.start || ltb limit r.end) ≡ t
        → Gives
            (if t then fail else pure (if tag == 0 then from_data r else from_aux r))
            (SourceWithin d a)
    go limit r tag e true h = Gives-fail (SourceWithin d a)
    go limit r tag e false h = Gives-pure (SourceWithin d a) _ (source_within d a tag limit r e h)

module _ (d a : Bytes) (s c : ℕ) where
  abbrev Safe : OwnedFieldValue → Type 0
  Safe = SafeValue d a s c

  Gives-str : Gives (read_str d a) Safe
  unfolding read_str
  Gives-str =
      Gives-bind (SourceWithin (length d) (length a)) Safe (read_source (length d) (length a)) _
        (Gives-source (length d) (length a))
        λ src w.
          Gives-guard Safe (is_utf8 (source_slice d a src)) (str src)
            (λ h. ((w, ap is_utf8 (sym (source_slice-source_bytes d a src)) ∙ h), tt))

  Gives-bytes : Gives (read_source (length d) (length a) >>= λ src. pure (bytes src)) Safe
  Gives-bytes =
      Gives-bind (SourceWithin (length d) (length a)) Safe (read_source (length d) (length a)) _
        (Gives-source (length d) (length a)) λ src w. Gives-pure Safe (bytes src) (w, tt)

  -- A reading whose value has no range to check.
  Gives-plain :
      {A : Type 0} (m : Reader A) (f : A → OwnedFieldValue)
      → ((x : A) → Safe (f x))
      → Gives (m >>= λ x. pure (f x)) Safe
  Gives-plain m f h = Gives-any Safe m _ λ x. Gives-pure Safe (f x) (h x)

  Gives-children :
      (len : ℕ) (f : Range → OwnedFieldValue)
      → ((r : Range) → Within len r → Safe (f r))
      → Gives (read_range32_within len >>= λ r. pure (f r)) Safe
  Gives-children len f h =
      Gives-bind (Within len) Safe (read_range32_within len) _ (Gives-range32-Within len)
        λ r w. Gives-pure Safe (f r) (h r w)

  Gives-value_of : (tag : ℕ) → Gives (read_value_of tag d a s c) Safe
  unfolding read_value_of
  Gives-value_of tag =
      Gives-if Safe (tag == 0) _ _
        (Gives-any Safe read_varint _
          (λ v. Gives-plain (lift (try_below (2 ^ 8) v)) u8 (λ x. (tt, tt))))
        (Gives-if Safe (tag == 1) _ _
          (Gives-any Safe read_varint _
            (λ v. Gives-plain (lift (try_below (2 ^ 16) v)) u16 (λ x. (tt, tt))))
          (Gives-if Safe (tag == 2) _ _ (Gives-plain read_u32 u32 (λ x. (tt, tt))) (
            Gives-if Safe (tag == 3) _ _ (Gives-plain read_varint u64 (λ x. (tt, tt))) (
              Gives-if Safe (tag == 4) _ _ (Gives-plain (read_take 4) _ (λ x. (tt, tt))) (
                Gives-if Safe (tag == 5) _ _ Gives-bytes (
                  Gives-if Safe (tag == 6) _ _ Gives-str (
                    Gives-if Safe (tag == 7) _ _
                      (Gives-plain (read_take 4) ipv4_addr (λ x. (tt, tt)))
                      (Gives-if Safe (tag == 8) _ _
                        (Gives-plain (read_take 16) ipv6_addr (λ x. (tt, tt)))
                        (Gives-if Safe (tag == 9) _ _
                          (Gives-plain (read_take 6) mac_addr (λ x. (tt, tt)))
                          (Gives-if Safe (tag == 10) _ _ (Gives-children c array (λ r w. (tt, w))) (
                            Gives-if Safe (tag == 11) _ _ (Gives-children c object (λ r w. (tt, w)))
                              (Gives-if Safe (tag == 12) _ _
                                (Gives-children s scratch (λ r w. (tt, w)))
                                (Gives-fail Safe)))))))))))))

  Gives-value : Gives (read_value d a s c) Safe
  unfolding read_value
  Gives-value = Gives-any Safe read_u8 _ Gives-value_of

  -- A field whose descriptor is one of the tables', and whose value is safe.
  abbrev pub SafeField : Tables → OwnedField → Type 0
  SafeField t f = (id : ℕ) × (get_elem? t.descriptors id ≡ some f.descriptor) × Safe f.value

  Gives-field : (t : Tables) → Gives (read_field d a s c t) (SafeField t)
  unfolding read_field
  Gives-field t = Gives-any (SafeField t) read_usize _ λ id.
      Gives-bind (λ x. get_elem? t.descriptors id ≡ some x) (SafeField t)
        (lift (get_elem? t.descriptors id)) _
        (Gives-lift (λ x. get_elem? t.descriptors id ≡ some x) (get_elem? t.descriptors id)
          (λ x e. e))
        λ x found. Gives-any (SafeField t) read_range _ λ r.
          Gives-bind Safe (SafeField t) (read_value d a s c) _ Gives-value
            λ v safe. Gives-pure (SafeField t) _ (id, found, safe)

  Gives-fields :
      (n : ℕ) (t : Tables)
      → Gives (read_fields n d a s c t) (λ fs. All (SafeField t) fs × (length fs ≡ n))
  unfolding read_fields
  Gives-fields zero t = Gives-pure (λ fs. All (SafeField t) fs × (length fs ≡ 0)) [] (tt, refl)
  Gives-fields (suc n) t =
      Gives-bind (SafeField t) (λ fs. All (SafeField t) fs × (length fs ≡ suc n))
        (read_field d a s c t) _ (Gives-field t)
        λ f safe.
          Gives-bind (λ fs. All (SafeField t) fs × (length fs ≡ n))
            (λ fs. All (SafeField t) fs × (length fs ≡ suc n)) (read_fields n d a s c t) _
            (Gives-fields n t)
            λ fs rest.
              Gives-pure (λ fs. All (SafeField t) fs × (length fs ≡ suc n)) (f ∷ fs)
                ((safe, rest.0), ap suc rest.1)

-- A decoded packet: the packet's own bytes, and fields that are safe in it.
abbrev pub SafePacket : Bytes → Tables → StoredPacket → Type 0
SafePacket d t s =
    (s.packet.packet_data ≡ d)
    × All (SafeField d s.packet.aux_data (length s.packet.scratch) (length s.packet.fields) t)
        s.packet.fields

Gives-record : (d : Bytes) (t : Tables) → Gives (read_record d t) (SafePacket d t)
unfolding read_record
Gives-record d t = Gives-any (SafePacket d t) read_u8 _ λ tag.
    Gives-any (SafePacket d t) (lift (read_ok tag)) _ λ ok.
      Gives-any (SafePacket d t) read_bytes _ λ aux.
        Gives-any (SafePacket d t) read_bytes _ λ scratch_data.
          Gives-any (SafePacket d t) read_usize _ λ layer_count.
            Gives-any (SafePacket d t) (read_layers layer_count t) _ λ layers.
              Gives-any (SafePacket d t) read_usize _ λ field_count.
                Gives-bind
                  (λ fs.
                    All (SafeField d aux (length scratch_data) field_count t) fs
                    × (length fs ≡ field_count))
                  (SafePacket d t)
                  (read_fields field_count d aux (length scratch_data) field_count t) _
                  (Gives-fields d aux (length scratch_data) field_count field_count t)
                  λ fs safe. Gives-pure (SafePacket d t) _ (
                    refl,
                    subst (λ n. All (SafeField d aux (length scratch_data) n t) fs) (sym safe.1)
                        safe.0,
                  )

layers-Within :
    (count : ℕ) (ls : List Layer)
    → ranges_fit count ls ≡ true
    → All (λ l. Within count l.field_range) ls
unfolding ranges_fit
layers-Within count [] h = tt
layers-Within count (l ∷ ls) h = ground (arith, layers-Within count ls)

-- Whatever the bytes and the tables: a packet that `decode` returns holds the given packet bytes, its
-- descriptors are entries of the tables, every source lies within the packet or the auxiliary bytes,
-- every string is UTF-8, children and scratch ranges lie within the fields and the scratch bytes, and
-- the layers' field ranges lie within the fields. Of the byte ranges of layers and fields, which
-- `decode` does not check, this says nothing.
pub decode-SafePacket :
    (b d : Bytes) (t : Tables) {s : StoredPacket}
    → decode b d t ≡ some s
    → SafePacket d t s × All (λ l. Within (length s.packet.fields) l.field_range) s.packet.layers
decode-SafePacket b d t {s} e =
    let (read, fits) = decode-eq-some b d t e in
    ((Gives-record d t).at b s [] read, layers-Within (length s.packet.fields) s.packet.layers fits)
