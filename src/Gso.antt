-- ===== src/Gso.antt =====
-- `group_for_gso` of src/transport/mod.rs: consecutive packets of one size to one peer become one
-- batch, which the kernel cuts into its segments again. Addresses are numbers, only compared.
pub mod Segments
pub mod Refinement
pub mod Bounds
mod Tests
use http.Common.{
  ◌-◌, ◌/◌, replicate, ◌==◌, length, ◌&&◌, ◌++◌, ltb, leb, take, ◌+◌, Bool, Option, if◌then◌else◌,
  List, none, some, ℕ, ◌∷◌, [],
}
use http.ArcBuf.{overwrite}

pub record TxDatagram : Type 0 where
  pub bytes : List ℕ
  pub payload_len : ℕ
  pub to : ℕ
  pub max_segment_size : Option ℕ

pub record GsoBatch : Type 0 where
  pub buffer : List ℕ
  pub total_len : ℕ
  pub dest : ℕ
  pub segment_size : ℕ

pub record GsoBatching : Type 0 where
  pub batches : List GsoBatch
  pub recycled : List (List ℕ)

abbrev pub gso_max_payload : ℕ
gso_max_payload = 65_535

abbrev pub gso_max_segment : ℕ
gso_max_segment = 1472

abbrev pub payload : TxDatagram → List ℕ
payload p = take p.payload_len p.bytes

-- A batch of its own; a size that is no u16 is not segmented.
abbrev pub single : TxDatagram → GsoBatch
single p = record {
  buffer = p.bytes;
  total_len = p.payload_len;
  dest = p.to;
  segment_size = if leb p.payload_len 65_535 then p.payload_len else 0;
}

abbrev pub seg_cap : Option ℕ → ℕ
seg_cap none = gso_max_segment
seg_cap (some n) = n

unfoldable pub joins : GsoBatch → TxDatagram → Bool
joins last p =
    leb p.payload_len 65_535
    && (last.dest == p.to)
    && (last.segment_size == p.payload_len)
    && ltb 0 p.payload_len
    && leb p.payload_len (seg_cap p.max_segment_size)
    && ltb (last.total_len / p.payload_len) 64
    && leb (last.total_len + p.payload_len) gso_max_payload

-- `resize(len, 0)` of a buffer that is shorter.
abbrev pub grow : List ℕ → ℕ → List ℕ
grow v len = if ltb (length v) len then v ++ replicate (len - length v) 0 else v

unfoldable pub join : GsoBatch → TxDatagram → GsoBatch
join last p =
    let end = last.total_len + p.payload_len in
    record last {
      buffer = overwrite (grow last.buffer end) last.total_len (payload p);
      total_len = end;
    }

-- One packet: the batch that is complete, if one is, the last batch, and the buffer to recycle.
unfoldable pub place : Option GsoBatch → TxDatagram → List GsoBatch × GsoBatch × List (List ℕ)
place none p = ([], single p, [])
place (some last) p =
    if joins last p then ([], join last p, p.bytes ∷ []) else (last ∷ [], single p, [])

abbrev pub group_after : Option GsoBatch → List TxDatagram → GsoBatching
group_after none [] = record { batches = []; recycled = [] }
group_after (some last) [] = record { batches = last ∷ []; recycled = [] }
group_after last (p ∷ packets) =
    let (closed, last', recycled) = place last p in
    let rest = group_after (some last') packets in
    record { batches = closed ++ rest.batches; recycled = recycled ++ rest.recycled }

unfoldable pub group_for_gso : List TxDatagram → GsoBatching
group_for_gso packets = group_after none packets
