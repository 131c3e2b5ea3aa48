-- ===== src/Codec/Damage.antt =====
-- Records of src/session/packet_codec.rs that were cut short or run on are refused by `decode`.
use dsct.Base.{
  arith, ℕ, ◌≡◌, ap, sym, ◌∙◌, none, some, [], ◌∷◌, ◌++◌, Option-cases, inl, inr, length, true,
}
use dsct.Packet.{Bytes}
use dsct.Codec.Intern.{Tables}
use dsct.Codec.Decode.{StoredPacket, read_record, check_record, decode, ranges_fit}
use dsct.Codec.Local.{Local-read_record}
use dsct.Codec.RoundTrip.{decode_of_read}

check_record-eq-some :
    (r : StoredPacket × Bytes) {s : StoredPacket}
    → check_record r ≡ some s
    → (r ≡ (s, [])) × (ranges_fit (length s.packet.fields) s.packet.layers ≡ true)
unfolding check_record
check_record-eq-some (stored, []) e = ground arith
check_record-eq-some (stored, b ∷ rest) e = cc

decode_of_none : (b d : Bytes) (t : Tables) → read_record d t b ≡ none → decode b d t ≡ none
unfolding decode
decode_of_none b d t e = rw (e, decode)

-- A record that decodes was read to its end, and passed the check of the layers.
pub decode-eq-some :
    (b d : Bytes) (t : Tables) {s : StoredPacket}
    → decode b d t ≡ some s
    → (read_record d t b ≡ some (s, []))
      × (ranges_fit (length s.packet.fields) s.packet.layers ≡ true)
decode-eq-some b d t e = elim (Option-cases (read_record d t b)) [
  | inl missing ↦ cc (decode_of_none b d t missing)
  | inr (r, found) ↦
      let (same, fits) = check_record-eq-some r (sym (decode_of_read b d t found) ∙ e) in
      (found ∙ ap some same, fits)
]

-- Bytes behind a record that decodes make it one that `decode` refuses.
pub decode_trailing :
    (front back d : Bytes) (x : ℕ) (t : Tables) {s : StoredPacket}
    → decode front d t ≡ some s
    → decode (front ++ (x ∷ back)) d t ≡ none
unfolding check_record
decode_trailing front back d x t {s} e =
    decode_of_read (front ++ (x ∷ back)) d t
      ((Local-read_record d t).at front s [] (x ∷ back) (decode-eq-some front d t e).0)
