-- ===== src/Codec/Local.antt =====
-- The readers of src/session/packet_codec.rs do not look past what they read.
use dsct.Base.{
  ℕ, zero, suc, ◌+◌, ◌*◌, ◌%◌, ◌^◌, ◌≡◌, ◌∙◌, Bool, true, false, bit_or, bit_and, Option, none,
  some, [], ◌∷◌, ◌++◌, arith, if◌then◌else◌, take-append_le, drop-append_le, length-append,
}
use dsct.Packet.{Bytes}
use dsct.Codec.Intern.{Tables}
use dsct.Codec.Read.{
  Reader, ◌>>=◌, bind_some, bind-eq-some, pure, fail, lift, read_u8, read_take, varint_loop,
  read_varint, read_usize, read_u32, read_range, read_range32_within, read_bytes, read_source,
}
use dsct.Codec.Decode.{
  read_str, read_value_of, read_value, read_layer, read_layers, read_field, read_fields,
  read_record,
}

-- Bytes added behind the input come out behind what the reader left.
pub record Local {A : Type 0} (m : Reader A) : Type 0 where
  pub at :
      (b : Bytes) (a : A) (rest more : Bytes)
      → m b ≡ some (a, rest)
      → m (b ++ more) ≡ some (a, rest ++ more)

Local-pure : {A : Type 0} (a : A) → Local (pure a)
Local-pure a = record { at = λ b x rest more e. ground arith }

Local-fail : {A : Type 0} → Local (fail {A = A})
Local-fail = record { at = λ b x rest more e. cc }

Local-lift : {A : Type 0} (o : Option A) → Local (lift o)
Local-lift none = record { at = λ b x rest more e. cc }
Local-lift (some a) = record { at = λ b x rest more e. ground arith }

Local-bind :
    {A B : Type 0} (m : Reader A) (f : A → Reader B)
    → Local m
    → ((a : A) → Local (f a))
    → Local (m >>= f)
Local-bind m f lm lf = record {
  at = λ b x rest more e.
      let (a, left, found, e') = bind-eq-some m f b e in
      bind_some m f (b ++ more) (lm.at b a left more found) ∙ (lf a).at left x rest more e';
}

Local-if : {A : Type 0} (t : Bool) (m n : Reader A) → Local m → Local n → Local (if t then m else n)
Local-if true m n lm ln = lm
Local-if false m n lm ln = ln

Local-read_u8 : Local read_u8
unfolding read_u8
Local-read_u8 = record { at = go }
  where
    go :
        (b : Bytes) (a : ℕ) (rest more : Bytes)
        → read_u8 b ≡ some (a, rest)
        → read_u8 (b ++ more) ≡ some (a, rest ++ more)
    go [] a rest more e = cc
    go (x ∷ b) a rest more e = ground arith

Local-read_take : (n : ℕ) → Local (read_take n)
unfolding read_take
Local-read_take n = record {
  at = λ b a rest more e.
      ground (arith, take-append_le n b more, drop-append_le n b more, length-append b more);
}

varint_loop_append :
    (n shift v : ℕ) (b : Bytes) (w : ℕ) (rest more : Bytes)
    → varint_loop n shift v b ≡ some (w, rest)
    → varint_loop n shift v (b ++ more) ≡ some (w, rest ++ more)
unfolding varint_loop
varint_loop_append zero shift v b w rest more e = cc
varint_loop_append (suc n) shift v [] w rest more e = cc
varint_loop_append (suc n) shift v (x ∷ b) w rest more e =
    let v' = bit_or v (bit_and x 0x7f * 2 ^ shift % 2 ^ 64) in
    ground (arith, varint_loop_append n (shift + 7) v' b w rest more)

Local-read_varint : Local read_varint
unfolding read_varint
Local-read_varint = record { at = varint_loop_append 10 0 0 }

ruleset local_rules = (
  Local-pure, Local-fail, Local-lift, Local-bind, Local-if, Local-read_u8, Local-read_take,
  Local-read_varint,
)

Local-read_usize : Local read_usize
unfolding read_usize
Local-read_usize = Local-read_varint

Local-read_u32 : Local read_u32
unfolding read_u32
Local-read_u32 = search local_rules

Local-read_range : Local read_range
unfolding read_range
Local-read_range = search (local_rules, Local-read_usize)

Local-read_range32_within : (len : ℕ) → Local (read_range32_within len)
unfolding read_range32_within
Local-read_range32_within len = search (local_rules, Local-read_u32)

Local-read_bytes : Local read_bytes
unfolding read_bytes
Local-read_bytes = search (local_rules, Local-read_usize)

Local-read_source : (d a : ℕ) → Local (read_source d a)
unfolding read_source
Local-read_source d a = search (local_rules, Local-read_range)

Local-read_str : (d a : Bytes) → Local (read_str d a)
unfolding read_str
Local-read_str d a = search (local_rules, Local-read_source)

ruleset value_rules =
    (local_rules, Local-read_u32, Local-read_str, Local-read_source, Local-read_range32_within)

Local-read_value_of : (tag : ℕ) (d a : Bytes) (s c : ℕ) → Local (read_value_of tag d a s c)
unfolding read_value_of
Local-read_value_of tag d a s c = search value_rules depth 20

Local-read_value : (d a : Bytes) (s c : ℕ) → Local (read_value d a s c)
unfolding read_value
Local-read_value d a s c = search (local_rules, Local-read_value_of)

Local-read_layer : (t : Tables) → Local (read_layer t)
unfolding read_layer
Local-read_layer t =
    search (local_rules, Local-read_usize, Local-read_u32, Local-read_range) depth 8

Local-read_layers : (n : ℕ) (t : Tables) → Local (read_layers n t)
unfolding read_layers
Local-read_layers zero t = Local-pure []
Local-read_layers (suc n) t = search (local_rules, Local-read_layer t, Local-read_layers n t)

Local-read_field : (d a : Bytes) (s c : ℕ) (t : Tables) → Local (read_field d a s c t)
unfolding read_field
Local-read_field d a s c t =
    search (local_rules, Local-read_usize, Local-read_range, Local-read_value) depth 8

Local-read_fields : (n : ℕ) (d a : Bytes) (s c : ℕ) (t : Tables) → Local (read_fields n d a s c t)
unfolding read_fields
Local-read_fields zero d a s c t = Local-pure []
Local-read_fields (suc n) d a s c t =
    search (local_rules, Local-read_field d a s c t, Local-read_fields n d a s c t)

pub Local-read_record : (d : Bytes) (t : Tables) → Local (read_record d t)
unfolding read_record
Local-read_record d t =
    search (local_rules, Local-read_usize, Local-read_bytes, Local-read_layers, Local-read_fields)
      depth 12
