-- ===== src/Session/Pass/Records.antt =====
-- `read_record` of src/session/ordered_pass.rs on a spill file that only grows.
use dsct.Base.{
  bind-eq-some, ℕ, ◌+◌, ◌^◌, ◌≤◌, ◌<◌, ◌≡◌, refl, ap, sym, ◌∙◌, some, ◌++◌, arith, length, take,
  drop, le→leb, length-append, append_assoc, take-append, drop-append, take-append_le,
  drop-append_le, length-drop,
}
use dsct.Packet.{Bytes}
use dsct.Session.Pass.{read_exact, read_record, u32_to_le_bytes, u32_from_le_bytes}

read_exact_fits :
    (file : Bytes) (at n : ℕ)
    → at + n ≤ length file
    → read_exact file at n ≡ some (take n (drop at file))
unfolding read_exact
read_exact_fits file at n h = rw (le→leb _ _ h)

read_exact-eq-some :
    (file : Bytes) (at n : ℕ) {bytes : Bytes}
    → read_exact file at n ≡ some bytes
    → (at + n ≤ length file) × (take n (drop at file) ≡ bytes)
unfolding read_exact
read_exact-eq-some file at n e = ground arith

-- What stands in the middle of a file is read there.
read_exact-middle :
    (before bytes after : Bytes) (at n : ℕ)
    → at ≡ length before
    → n ≡ length bytes
    → read_exact (before ++ (bytes ++ after)) at n ≡ some bytes
read_exact-middle before bytes after at n e e' =
    read_exact_fits (before ++ (bytes ++ after)) at n
      (omega (arith, length-append before (bytes ++ after), length-append bytes after))
    ∙ rw (e, e', drop-append before (bytes ++ after), take-append bytes after)

u32_from_le_bytes-u32_to_le_bytes : (n : ℕ) → n < 2 ^ 32 → u32_from_le_bytes (u32_to_le_bytes n) ≡ n
u32_from_le_bytes-u32_to_le_bytes n h = omega arith

read_record_of :
    (file : Bytes) (offset : ℕ) {len bytes : Bytes}
    → read_exact file offset 4 ≡ some len
    → read_exact file (offset + 4) (u32_from_le_bytes len) ≡ some bytes
    → read_record file offset ≡ some bytes
unfolding read_record
read_record_of file offset e e' = rw (e, e')

-- A record behind its length, anywhere in a file.
pub read_record-middle :
    (before bytes after : Bytes) (offset : ℕ)
    → offset ≡ length before
    → length bytes < 2 ^ 32
    → read_record (before ++ ((u32_to_le_bytes (length bytes) ++ bytes) ++ after)) offset
      ≡ some bytes
read_record-middle before bytes after offset at h =
    read_record_of _ offset (read_exact-middle before prefix (bytes ++ after) offset 4 at refl) (
      ap (λ file. read_exact file (offset + 4) (u32_from_le_bytes prefix)) apart
      ∙ read_exact-middle (before ++ prefix) bytes after (offset + 4) _
          (omega (arith, length-append before prefix, at))
          (u32_from_le_bytes-u32_to_le_bytes (length bytes) h))
  where
    prefix : Bytes
    prefix = u32_to_le_bytes (length bytes)

    apart : before ++ (prefix ++ (bytes ++ after)) ≡ (before ++ prefix) ++ (bytes ++ after)
    apart = sym (append_assoc before prefix (bytes ++ after))

-- Reading does not see what is appended to the file.
read_exact-append :
    (file more : Bytes) (at n : ℕ) {bytes : Bytes}
    → read_exact file at n ≡ some bytes
    → read_exact (file ++ more) at n ≡ some bytes
read_exact-append file more at n e =
    let (fits, found) = read_exact-eq-some file at n e in
    read_exact_fits (file ++ more) at n (omega (arith, length-append file more))
    ∙ ap some (
        ap (take n) (drop-append_le at file more (omega arith))
        ∙ take-append_le n (drop at file) more (omega (arith, length-drop at file))
        ∙ found)

read_record-eq-some :
    (file : Bytes) (offset : ℕ) {bytes : Bytes}
    → read_record file offset ≡ some bytes
    → (len : Bytes) × (read_exact file offset 4 ≡ some len)
      × (read_exact file (offset + 4) (u32_from_le_bytes len) ≡ some bytes)
unfolding read_record
read_record-eq-some file offset e = bind-eq-some (read_exact file offset 4) _ e

pub read_record-append :
    (file more : Bytes) (offset : ℕ) {bytes : Bytes}
    → read_record file offset ≡ some bytes
    → read_record (file ++ more) offset ≡ some bytes
read_record-append file more offset e =
    let (len, found, found') = read_record-eq-some file offset e in
    read_record_of (file ++ more) offset (read_exact-append file more offset 4 found)
      (read_exact-append file more (offset + 4) (u32_from_le_bytes len) found')
