-- ===== src/Codec/Reads.antt =====
-- What a reader of src/session/packet_codec.rs makes of the bytes that a writer wrote.
use dsct.Base.{
  ℕ, ◌^◌, ◌<◌, ◌≡◌, refl, ap, ◌∙◌, Option, some, ◌∷◌, ◌++◌, length, arith, take-append, drop-append,
  length-append, append_assoc, lt→ltb, le→leb,
}
use dsct.Packet.{Bytes, Range, Within}
use dsct.Owned.{BytesSource, from_data, from_aux}
use dsct.Owned.Faithful.{SourceWithin}
use dsct.Codec.Write.{put_varint, put_range, put_bytes, put_source}
use dsct.Codec.Read.{
  Reader, ◌>>=◌, bind_some, lift, read_u8, read_take, read_varint, read_usize, read_u32, read_range,
  read_range32_within, read_bytes, read_source,
}
use dsct.Codec.Varint.{read_varint-put_varint}

-- The reader takes exactly the bytes `x` for the value `a`, whatever follows.
pub record Reads {A : Type 0} (m : Reader A) (x : Bytes) (a : A) : Type 0 where
  pub at : (rest : Bytes) → m (x ++ rest) ≡ some (a, rest)

pub Reads-bind :
    {A B : Type 0} (m : Reader A) (f : A → Reader B) (x y : Bytes) (a : A) (b : B)
    → Reads m x a
    → Reads (f a) y b
    → Reads (m >>= f) (x ++ y) b
Reads-bind m f x y a b rm rf = record {
  at = λ rest.
      ap (m >>= f) (append_assoc x y rest)
      ∙ bind_some m f (x ++ (y ++ rest)) (rm.at (y ++ rest))
      ∙ rf.at rest;
}

-- The last reading of a chain.
pub Reads-last :
    {A B : Type 0} (m : Reader A) (f : A → Reader B) (x : Bytes) (a : A) (b : B)
    → Reads m x a
    → ((rest : Bytes) → f a rest ≡ some (b, rest))
    → Reads (m >>= f) x b
Reads-last m f x a b rm rf = record {
  at = λ rest. bind_some m f (x ++ rest) (rm.at rest) ∙ rf rest;
}

pub Reads-lift :
    {A B : Type 0} (o : Option A) (f : A → Reader B) (y : Bytes) (a : A) (b : B)
    → o ≡ some a
    → Reads (f a) y b
    → Reads (lift o >>= f) y b
Reads-lift o f y a b e rf = record { at = λ rest. rw e (rf.at rest) }

pub Reads-u8 :
    {B : Type 0} (f : ℕ → Reader B) (n : ℕ) (y : Bytes) (b : B)
    → Reads (f n) y b
    → Reads (read_u8 >>= f) (n ∷ y) b
unfolding read_u8
Reads-u8 f n y b rf = record { at = λ rest. rf.at rest }

pub Reads-varint : (v : ℕ) → v < 2 ^ 64 → Reads read_varint (put_varint v) v
Reads-varint v h = record { at = λ rest. read_varint-put_varint v rest h }

pub Reads-usize : (v : ℕ) → v < 2 ^ 64 → Reads read_usize (put_varint v) v
unfolding read_usize
Reads-usize v h = Reads-varint v h

pub Reads-u32 : (v : ℕ) → v < 2 ^ 32 → Reads read_u32 (put_varint v) v
unfolding read_u32
Reads-u32 v h =
    Reads-last read_varint _ (put_varint v) v v (Reads-varint v (omega arith))
      (λ rest. rw (lt→ltb v (2 ^ 32) h))

pub Reads-range : (r : Range) → r.start < 2 ^ 64 → r.end < 2 ^ 64 → Reads read_range (put_range r) r
unfolding read_range put_range
Reads-range r hs he =
    Reads-bind read_usize _ (put_varint r.start) (put_varint r.end) r.start r
      (Reads-usize r.start hs)
      (Reads-last read_usize _ (put_varint r.end) r.end r (Reads-usize r.end he) (λ rest. refl))

-- Two `u32` of a layer's field range, one after the other.
pub Reads-range32-Within :
    (len : ℕ) (r : Range)
    → Within len r
    → r.end < 2 ^ 32
    → Reads (read_range32_within len) (put_range r) r
unfolding read_range32_within put_range
Reads-range32-Within len r w h =
    Reads-bind read_u32 _ (put_varint r.start) (put_varint r.end) r.start r
      (Reads-u32 r.start (omega arith))
      (Reads-last read_u32 _ (put_varint r.end) r.end r (Reads-u32 r.end h)
        (λ rest. rw (le→leb r.start r.end w.0, le→leb r.end len w.1)))

pub Reads-take : (x : Bytes) (n : ℕ) → length x ≡ n → Reads (read_take n) x x
unfolding read_take
Reads-take x n e = record {
  at = λ rest.
      rw (← e) (ground (arith, length-append x rest, take-append x rest, drop-append x rest));
}

pub Reads-bytes : (x : Bytes) → length x < 2 ^ 64 → Reads read_bytes (put_bytes x) x
unfolding read_bytes put_bytes
Reads-bytes x h =
    Reads-bind read_usize read_take (put_varint (length x)) x (length x) x
      (Reads-usize (length x) h) (Reads-take x (length x) refl)

pub Reads-source :
    (d a : ℕ) (src : BytesSource)
    → d < 2 ^ 64
    → a < 2 ^ 64
    → SourceWithin d a src
    → Reads (read_source d a) (put_source src) src
unfolding read_source put_source
Reads-source d a (from_data r) hd ha w = Reads-u8 _ 0 (put_range r) (from_data r) (
    Reads-last read_range _ (put_range r) r (from_data r)
      (Reads-range r (omega arith) (omega arith)) (λ rest. ground arith))
Reads-source d a (from_aux r) hd ha w = Reads-u8 _ 1 (put_range r) (from_aux r) (
    Reads-last read_range _ (put_range r) r (from_aux r) (Reads-range r (omega arith) (omega arith))
      (λ rest. ground arith))
