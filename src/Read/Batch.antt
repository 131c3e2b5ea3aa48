-- ===== src/Read/Batch.antt =====
-- `InputBatch` of src/parallel_read.rs: packets whose bytes share one buffer.
use dsct.Base.{
  ◌>>=◌, ℕ, zero, suc, ◌+◌, ◌-◌, ◌≤◌, ◌≡◌, Bool, ◌&&◌, Option, none, some, List, [], ◌∷◌, ◌++◌, leb,
  ◌==◌, length, get_elem?, take, drop, if◌then◌else◌,
}
use dsct.Packet.{Bytes}
use dsct.Read.{Packet, PacketMeta}
pub mod Laws

pub record InputBatch : Type 0 where
  pub skipped : ℕ
  pub metas : List PacketMeta
  pub ends : List ℕ
  pub bytes : Bytes

-- `with_capacity`, less the capacity.
abbrev pub empty_batch : InputBatch
empty_batch = record { skipped = 0; metas = []; ends = []; bytes = [] }

unfoldable pub push : InputBatch → Packet → InputBatch
push b (meta, bytes) =
    let bytes' = b.bytes ++ bytes in
    record b {
      metas = b.metas ++ (meta ∷ []);
      ends = b.ends ++ (length bytes' ∷ []);
      bytes = bytes';
    }

abbrev pub batch_len : InputBatch → ℕ
batch_len b = length b.metas

unfoldable pub is_empty : InputBatch → Bool
is_empty b = batch_len b == 0 && b.skipped == 0

unfoldable pub processed : InputBatch → ℕ
processed b = batch_len b + b.skipped

-- `&data[from..to]`; where the source would panic there is no slice.
unfoldable pub slice : Bytes → ℕ → ℕ → Option Bytes
slice bytes from to =
    if leb from to && leb to (length bytes) then some (take (to - from) (drop from bytes)) else none

-- Where packet `i` starts, the first one at `base`.
unfoldable pub start_of : ℕ → List ℕ → ℕ → Option ℕ
start_of base ends zero = some base
start_of base ends (suc i) = get_elem? ends i

unfoldable pub data_of : ℕ → List ℕ → Bytes → ℕ → Option Bytes
unfolding start_of slice
data_of base ends bytes i = do
  from ← start_of base ends i
  to ← get_elem? ends i
  slice bytes from to

unfoldable pub get : InputBatch → ℕ → Option Packet
unfolding data_of
get b i = do meta ← get_elem? b.metas i; bytes ← data_of 0 b.ends b.bytes i; some (meta, bytes)

abbrev pub keep : Option Packet → List Packet → List Packet
keep none ps = ps
keep (some p) ps = p ∷ ps

-- The packets from `i` on, of which there are `n`.
unfoldable pub iter_from : ℕ → ℕ → InputBatch → List Packet
unfolding get
iter_from zero i b = []
iter_from (suc n) i b = keep (get b i) (iter_from n (suc i) b)

unfoldable pub iter : InputBatch → List Packet
unfolding iter_from
iter b = iter_from (batch_len b) 0 b
