-- ===== src/Gso/Refinement.antt =====
-- The batches of src/transport/mod.rs and the packets that they stand for.
use http.Common.{
  replicate, subst, append_assoc, suc, length-replicate, false, length-drop, ◌-◌,
  take-length_append, All, true, drop, take-add_append, length-append, ltb, sym, some, ◌==◌, ◌+◌,
  leb, ap, ◌∙◌, take, Bool-cases, ◌++◌, length-take, ◌<◌, ◌≡◌, length, List, ◌≤◌, inl, inr, refl, ℕ,
  ◌∷◌, [], arith,
}
use http.Gso.Segments.{
  segments, take-append, segments-append, Multiple, Multiple-append, datagrams, with_dest,
}
use http.Gso.{
  group_after, group_for_gso, place, joins, join, TxDatagram, GsoBatch, payload, single, grow,
}
use http.ArcBuf.{overwrite}

-- A packet's payload is in its buffer.
abbrev pub InBuffer : TxDatagram → Type 0
InBuffer p = p.payload_len ≤ length p.bytes

-- A batch's bytes are in its buffer, and segmented ones are whole segments.
abbrev pub Fits : GsoBatch → Type 0
Fits b =
    (b.total_len ≤ length b.buffer)
    × (0 < b.segment_size → (k : ℕ) × Multiple k b.segment_size (take b.total_len b.buffer))

abbrev pub packet : TxDatagram → ℕ × List ℕ
packet p = (p.to, payload p)

payload-length : (p : TxDatagram) → InBuffer p → length (payload p) ≡ p.payload_len
payload-length p h = length-take p.payload_len p.bytes ∙ omega (arith, h)

with_dest-append :
    (dest : ℕ) (xs ys : List (List ℕ))
    → with_dest dest (xs ++ ys) ≡ with_dest dest xs ++ with_dest dest ys
with_dest-append dest [] ys = refl
with_dest-append dest (x ∷ xs) ys = ap (λ t. (dest, x) ∷ t) (with_dest-append dest xs ys)

alone : (p : TxDatagram) → InBuffer p → Fits (single p) × (datagrams (single p) ≡ packet p ∷ [])
alone p h = elim (Bool-cases (leb p.payload_len 65_535)) [
  | inl e ↦ elim (Bool-cases (p.payload_len == 0)) [
    | inl z ↦ rw (e, z) ((h, λ q. absurd (ground (arith, z, q))), refl)
    | inr z ↦
        rw (e, z)
          (
            (h, λ q. (1, Multiple-append 0 p.payload_len [] (payload p) (payload-length p h) refl)),
            ap (with_dest p.to) (
                segments-append 0 p.payload_len [] (payload p) p.payload_len 0 (ground (arith, z))
                  (payload-length p h) refl (ground (arith, z)) (omega arith)),
          )
  ]
  | inr e ↦ rw e ((h, λ q. absurd (omega (arith, q))), refl)
]

-- What is written behind the first bytes of a buffer is read back there.
written :
    (v : List ℕ) (start : ℕ) (bytes : List ℕ)
    → start ≤ length v
    → take (start + length bytes) (overwrite v start bytes) ≡ take start v ++ bytes
written v start bytes h =
    let front = take start v in
    let long : length front ≡ start = length-take start v ∙ omega (arith, h) in
    ap (λ n. take (n + length bytes) (overwrite v start bytes)) (sym long)
    ∙ take-add_append front (bytes ++ drop (start + length bytes) v) (length bytes)
    ∙ ap (λ t. front ++ t) (take-length_append bytes (drop (start + length bytes) v))

grow-take :
    (v : List ℕ) (len start : ℕ)
    → start ≤ length v
    → (take start (grow v len) ≡ take start v)
      × (start ≤ length (grow v len))
      × (len ≤ length (grow v len))
grow-take v len start h = elim (Bool-cases (ltb (length v) len)) [
  | inl e ↦
      let zeros : List ℕ = replicate (len - length v) 0 in
      let long : length (v ++ zeros) ≡ length v + (len - length v) =
        length-append v zeros ∙ ap (λ n. length v + n) (length-replicate (len - length v) 0) in
      rw e (take-append start v zeros h, omega (arith, long, h), omega (arith, long))
  | inr e ↦ rw e (refl, h, ground (arith, e))
]

overwrite-length :
    (v : List ℕ) (start : ℕ) (bytes : List ℕ)
    → start + length bytes ≤ length v
    → length v ≤ length (overwrite v start bytes)
overwrite-length v start bytes h = omega (
  arith,
  h,
  length-append (take start v) (bytes ++ drop (start + length bytes) v),
  length-append bytes (drop (start + length bytes) v),
  length-take start v,
  length-drop (start + length bytes) v,
)

-- The bytes of a batch after a packet joined.
join-bytes :
    (last : GsoBatch) (p : TxDatagram)
    → InBuffer p
    → last.total_len ≤ length last.buffer
    → (take (join last p).total_len (join last p).buffer
        ≡ take last.total_len last.buffer ++ payload p)
      × ((join last p).total_len ≤ length (join last p).buffer)
unfolding join
join-bytes last p h f =
    let end = last.total_len + p.payload_len in
    let v = grow last.buffer end in
    let (front, fits, long) = grow-take last.buffer end last.total_len f in
    let pl = payload-length p h in
    (
      ap (λ n. take (last.total_len + n) (overwrite v last.total_len (payload p))) (sym pl)
          ∙ written v last.total_len (payload p) fits
          ∙ ap (λ t. t ++ payload p) front,
      omega (arith, pl, long, overwrite-length v last.total_len (payload p)),
    )

joins_sound :
    (last : GsoBatch) (p : TxDatagram)
    → joins last p ≡ true
    → (last.dest ≡ p.to) × (last.segment_size ≡ p.payload_len) × (0 < p.payload_len)
unfolding joins
joins_sound last p e = (ground (arith, e), ground (arith, e), ground (arith, e))

joined :
    (last : GsoBatch) (p : TxDatagram)
    → InBuffer p
    → Fits last
    → joins last p ≡ true
    → Fits (join last p) × (datagrams (join last p) ≡ datagrams last ++ (packet p ∷ []))
unfolding join
joined last p h f e =
    let (dest, size, pos) = joins_sound last p e in
    let (bytes, inside) = join-bytes last p h f.0 in
    let (k, m) = f.1 (omega (arith, size, pos)) in
    let pl = payload-length p h ∙ sym size in
    let whole = take last.total_len last.buffer in
    let long : length whole ≡ last.total_len =
      length-take last.total_len last.buffer ∙ omega (arith, f.0) in
    let seg : (last.segment_size == 0) ≡ false = ground (arith, size, pos) in
    (
      (
        inside,
        λ q. (
          suc k,
          subst (Multiple (suc k) last.segment_size) (sym bytes)
              (Multiple-append k last.segment_size whole (payload p) pl m),
        ),
      ),
      rw seg (
          ap
            (λ t.
              with_dest last.dest (segments (last.total_len + p.payload_len) last.segment_size t))
            bytes
          ∙ ap (with_dest last.dest) (
              segments-append k last.segment_size whole (payload p) (last.total_len + p.payload_len)
                last.total_len (omega (arith, size, pos)) pl m (omega (arith, long, pos))
                (omega (arith, long)))
          ∙ with_dest-append last.dest (segments last.total_len last.segment_size whole)
              (payload p ∷ [])
          ∙ ap
              (λ d.
                with_dest last.dest (segments last.total_len last.segment_size whole)
                ++ ((d, payload p) ∷ []))
              dest),
    )

abbrev pub sent_by : List GsoBatch → List (ℕ × List ℕ)
sent_by [] = []
sent_by (b ∷ bs) = datagrams b ++ sent_by bs

abbrev pub packets_of : List TxDatagram → List (ℕ × List ℕ)
packets_of [] = []
packets_of (p ∷ ps) = packet p ∷ packets_of ps

after_last :
    (last : GsoBatch) (packets : List TxDatagram)
    → Fits last
    → All InBuffer packets
    → sent_by (group_after (some last) packets).batches ≡ datagrams last ++ packets_of packets
unfolding place
after_last last [] f a = refl
after_last last (p ∷ packets) f a = elim (Bool-cases (joins last p)) [
  | inl e ↦
      let (fits, same) = joined last p a.0 f e in
      rw e (
        after_last (join last p) packets fits a.1
        ∙ ap (λ t. t ++ packets_of packets) same
        ∙ append_assoc (datagrams last) (packet p ∷ []) (packets_of packets))
  | inr e ↦
      let (fits, same) = alone p a.0 in
      rw e (
        ap (λ t. datagrams last ++ t)
          (after_last (single p) packets fits a.1 ∙ ap (λ t. t ++ packets_of packets) same))
]

-- The batches say the same as the packets: cut into its segments, each batch gives its packets, and
-- all together they are the packets in their order, each to its peer.
pub group_for_gso-refines :
    (packets : List TxDatagram)
    → All InBuffer packets
    → sent_by (group_for_gso packets).batches ≡ packets_of packets
unfolding group_for_gso place
group_for_gso-refines [] a = refl
group_for_gso-refines (p ∷ packets) a =
    let (fits, same) = alone p a.0 in
    after_last (single p) packets fits a.1 ∙ ap (λ t. t ++ packets_of packets) same
