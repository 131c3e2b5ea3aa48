-- ===== src/Json/Escape.antt =====
-- src/json_escape.rs: the escape table, and the loop that copies the bytes between escapes in one
-- piece. The sink is a `Vec<u8>`, which takes every write.
use dsct.Base.{
  ℕ, zero, suc, ◌+◌, ◌-◌, ◌/◌, ◌%◌, ◌≤◌, ◌≡◌, refl, sym, ap, ◌∙◌, true, false, [], ◌∷◌, ◌++◌, ltb,
  ◌==◌, length, take, drop, arith, if◌then◌else◌, append_assoc, append-nil, length-append,
  Bool-cases, inl, inr, take-append, drop-append_le, length-drop,
}
use dsct.Packet.{Bytes, slice}

-- `ESCAPE_TABLE`: 0 for a byte that needs no escape.
unfoldable pub escape_table : ℕ → ℕ
escape_table b =
    if b == b'"'
    then b'"'
    else if b == b'\\'
    then b'\\'
    else if b == 0x0a
    then b'n'
    else if b == 0x0d
    then b'r'
    else if b == 0x09
    then b't'
    else if b == 0x08
    then b'b'
    else if b == 0x0c
    then b'f'
    else if ltb b 0x20
    then b'u'
    else 0

-- `HEX_DIGITS[d]`.
unfoldable pub hex_digit : ℕ → ℕ
hex_digit d = if ltb d 10 then b'0' + d else b'a' + (d - 10)

-- `write_escape`: the escape sequence of the byte `b`.
unfoldable pub write_escape : ℕ → ℕ → Bytes
unfolding hex_digit
write_escape b esc =
    if esc == b'u'
    then b'\\' ∷ b'u' ∷ b'0' ∷ b'0' ∷ hex_digit (b / 16) ∷ hex_digit (b % 16) ∷ []
    else b'\\' ∷ esc ∷ []

-- The loop: `whole` is the slice, `rest` what is still to be seen of it from the index `i` on, and the
-- bytes from `start` up to `i` are not written yet.
unfoldable pub escape_loop : Bytes → Bytes → ℕ → ℕ → Bytes → Bytes
escape_loop whole [] i start out = if ltb start (length whole) then out ++ drop start whole else out
escape_loop whole (b ∷ rest) i start out =
    let flushed =
      if ltb start i then out ++ slice whole (record { start = start; end = i }) else out in
    let skip = escape_loop whole rest (i + 1) start out in
    let next =
      escape_loop whole rest (i + 1) (i + 1) (flushed ++ write_escape b (escape_table b)) in
    if escape_table b == 0 then skip else next

-- `write_json_escaped`, and `JsonEscapeWriter::write` on a sink.
unfoldable pub write_json_escaped : Bytes → Bytes → Bytes
unfolding escape_loop
write_json_escaped out text = escape_loop text text 0 0 out

-- The escapes byte by byte.
unfoldable pub escape_byte : ℕ → Bytes
escape_byte b = if escape_table b == 0 then b ∷ [] else write_escape b (escape_table b)

unfoldable pub escaped : Bytes → Bytes
escaped [] = []
escaped (b ∷ s) = escape_byte b ++ escaped s

slice_tail :
    (pre rest : Bytes) (start : ℕ)
    → start ≤ length pre
    → slice (pre ++ rest) (record { start = start; end = length pre }) ≡ drop start pre
slice_tail pre rest start h = ground (
  arith,
  drop-append_le start pre rest h,
  take_exactly (drop start pre) rest (length pre - start) (omega (arith, length-drop start pre)),
)
  where
    take_exactly : (xs ys : Bytes) (n : ℕ) → n ≡ length xs → take n (xs ++ ys) ≡ xs
    take_exactly xs ys n e = rw e (take-append xs ys)

drop_all : (xs : Bytes) (n : ℕ) → length xs ≤ n → drop n xs ≡ []
drop_all [] zero h = refl
drop_all [] (suc n) h = refl
drop_all (x ∷ xs) zero h = absurd (omega arith)
drop_all (x ∷ xs) (suc n) h = drop_all xs n (omega arith)

-- What is written before an escape, or at the end.
flush_lem :
    (pre rest out : Bytes) (i start : ℕ)
    → i ≡ length pre
    → start ≤ i
    → (if ltb start i then out ++ slice (pre ++ rest) (record { start = start; end = i }) else out)
      ≡ out ++ drop start pre
flush_lem pre rest out i start e h = elim (Bool-cases (ltb start i)) [
  | inl some_left ↦ rw some_left (rw e (ap (◌++◌ out) (slice_tail pre rest start (omega arith))))
  | inr none_left ↦ rw (none_left, drop_all pre start (ground arith), append-nil)
]

flush_end :
    (pre out : Bytes) (start : ℕ)
    → start ≤ length pre
    → (if ltb start (length pre) then out ++ drop start pre else out) ≡ out ++ drop start pre
flush_end pre out start h = elim (Bool-cases (ltb start (length pre))) [
  | inl some_left ↦ rw some_left
  | inr none_left ↦ rw (none_left, drop_all pre start (ground arith), append-nil)
]

-- The two ways that a round of the loop can go.
escape_loop_plain :
    (whole rest : Bytes) (b i start : ℕ) (out : Bytes)
    → (escape_table b == 0) ≡ true
    → escape_loop whole (b ∷ rest) i start out ≡ escape_loop whole rest (i + 1) start out
unfolding escape_loop
escape_loop_plain whole rest b i start out h = rw h

escape_loop_escape :
    (whole rest : Bytes) (b i start : ℕ) (out : Bytes)
    → (escape_table b == 0) ≡ false
    → escape_loop whole (b ∷ rest) i start out
      ≡ escape_loop whole rest (i + 1) (i + 1) (
          (if ltb start i then out ++ slice whole (record { start = start; end = i }) else out)
          ++ write_escape b (escape_table b))
unfolding escape_loop
escape_loop_escape whole rest b i start out h = rw h

escape_byte_plain : (b : ℕ) → (escape_table b == 0) ≡ true → escape_byte b ≡ b ∷ []
unfolding escape_byte
escape_byte_plain b h = rw h

escape_byte_escape :
    (b : ℕ) → (escape_table b == 0) ≡ false → escape_byte b ≡ write_escape b (escape_table b)
unfolding escape_byte
escape_byte_escape b h = rw h

-- What the loop writes from any point on: the bytes not written yet, and the escapes of the rest.
escape_loop-escaped :
    (pre rest out : Bytes) (i start : ℕ)
    → i ≡ length pre
    → start ≤ i
    → escape_loop (pre ++ rest) rest i start out ≡ out ++ (drop start pre ++ escaped rest)
unfolding escape_loop escaped
escape_loop-escaped pre [] out i start e h =
    rw (append-nil pre, append-nil (drop start pre)) (flush_end pre out start (omega arith))
escape_loop-escaped pre (b ∷ rest) out i start e h = elim (Bool-cases (escape_table b == 0)) [
  | inl plain ↦
      escape_loop_plain (pre ++ (b ∷ rest)) rest b i start out plain
      ∙ ap (λ w. escape_loop w rest (i + 1) start out) (sym (append_assoc pre (b ∷ []) rest))
      ∙ escape_loop-escaped (pre ++ (b ∷ [])) rest out (i + 1) start longer (omega arith)
      ∙ rw (drop-append_le start pre (b ∷ []) (omega arith), escape_byte_plain b plain)
          (ap (◌++◌ out) (append_assoc (drop start pre) (b ∷ []) (escaped rest)))
  | inr escape ↦
      escape_loop_escape (pre ++ (b ∷ rest)) rest b i start out escape
      ∙ ap
          (λ w.
            escape_loop (pre ++ (b ∷ rest)) rest (i + 1) (i + 1)
              (w ++ write_escape b (escape_table b)))
          (flush_lem pre (b ∷ rest) out i start e h)
      ∙ ap
          (λ w.
            escape_loop w rest (i + 1) (i + 1)
              ((out ++ drop start pre) ++ write_escape b (escape_table b)))
          (sym (append_assoc pre (b ∷ []) rest))
      ∙ escape_loop-escaped (pre ++ (b ∷ [])) rest
          ((out ++ drop start pre) ++ write_escape b (escape_table b)) (i + 1) (i + 1) longer
          (omega arith)
      ∙ rw (drop_all (pre ++ (b ∷ [])) (i + 1) (omega (arith, longer)), escape_byte_escape b escape)
          (simp append_assoc)
]
  where
    longer : i + 1 ≡ length (pre ++ (b ∷ []))
    longer = omega (arith, length-append pre (b ∷ []))

-- The loop that copies in pieces writes the escape of each byte, behind what the sink held.
pub write_json_escaped-escaped :
    (out text : Bytes) → write_json_escaped out text ≡ out ++ escaped text
unfolding write_json_escaped
write_json_escaped-escaped out text = escape_loop-escaped [] text out 0 0 refl (omega arith)
