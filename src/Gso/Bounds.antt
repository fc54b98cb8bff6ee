-- ===== src/Gso/Bounds.antt =====
-- The buffers and the sizes of the batches of src/transport/mod.rs.
use http.Common.{
  is_some, if◌then◌else◌, subst, ◌≤◌, ◌+◌, All, leb, ◌⊎◌, length, List, Bool-cases, Option, ◌≡◌,
  inl, inr, none, some, true, refl, ◌∷◌, [], arith,
}
use http.Gso.{TxDatagram, GsoBatch, single, joins, join, place, group_after, group_for_gso}

some_injective : {A : Type 0} {a b : A} → some a ≡ some b → a ≡ b
some_injective e = cc

-- No buffer is lost: each is a batch's or is recycled.
count :
    (last : Option GsoBatch) (packets : List TxDatagram)
    → let g = group_after last packets in
      length g.batches + length g.recycled ≡ (if is_some last then 1 else 0) + length packets
unfolding place
count none [] = omega arith
count (some last) [] = omega arith
count none (p ∷ packets) = omega (arith, count (some (single p)) packets)
count (some last) (p ∷ packets) = elim (Bool-cases (joins last p)) [
  | inl e ↦ rw e (omega (arith, count (some (join last p)) packets))
  | inr e ↦ rw e (omega (arith, count (some (single p)) packets))
]

-- A batch is one packet, or within the limits of the kernel: its bytes fit a UDP payload.
abbrev pub Limited : GsoBatch → Type 0
Limited b = (b.segment_size ≡ 0) ⊎ (b.total_len ≤ 65_535)

single-Limited : (p : TxDatagram) → Limited (single p)
single-Limited p = elim (Bool-cases (leb p.payload_len 65_535)) [
  | inl e ↦ inr (ground (arith, e))
  | inr e ↦ inl (rw e refl)
]

join-Limited : (last : GsoBatch) (p : TxDatagram) → joins last p ≡ true → Limited (join last p)
unfolding joins join
join-Limited last p e = inr (ground (arith, e))

group-Limited :
    (last : Option GsoBatch) (packets : List TxDatagram)
    → ((b : GsoBatch) → last ≡ some b → Limited b)
    → All Limited (group_after last packets).batches
unfolding place
group-Limited none [] h = tt
group-Limited (some last) [] h = (h last refl, tt)
group-Limited none (p ∷ packets) h =
    group-Limited (some (single p)) packets
      (λ b e. subst Limited (some_injective e) (single-Limited p))
group-Limited (some last) (p ∷ packets) h = elim (Bool-cases (joins last p)) [
  | inl e ↦ rw e (
      group-Limited (some (join last p)) packets
        (λ b q. subst Limited (some_injective q) (join-Limited last p e)))
  | inr e ↦ rw e (
    h last refl,
    group-Limited (some (single p)) packets
        (λ b q. subst Limited (some_injective q) (single-Limited p)),
  )
]

-- No buffer is lost, as each one is a batch's or is recycled, and a segmented batch fits a UDP
-- payload.
pub group_for_gso-bounds :
    (packets : List TxDatagram)
    → (length (group_for_gso packets).batches + length (group_for_gso packets).recycled
        ≡ length packets)
      × All Limited (group_for_gso packets).batches
unfolding group_for_gso
group_for_gso-bounds packets =
    (omega (arith, count none packets), group-Limited none packets (λ b e. absurd (cc)))
