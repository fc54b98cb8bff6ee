-- ===== src/Gso/Tests.antt =====
-- Three packets, of which two are batched.
use http.Common.{length, ◌≡◌, List, none, refl, ℕ, ◌∷◌, [], arith}
use http.Gso.{joins, place, TxDatagram, group_for_gso}
use http.Gso.Refinement.{group_for_gso-refines, sent_by, packets_of}

abbrev packet_to : ℕ → List ℕ → TxDatagram
packet_to to bytes = record { bytes = bytes; payload_len = 2; to = to; max_segment_size = none }

abbrev packets : List TxDatagram
packets = packet_to 7 (1 ∷ 2 ∷ 0 ∷ []) ∷ packet_to 7 (3 ∷ 4 ∷ []) ∷ packet_to 8 (5 ∷ 6 ∷ []) ∷ []

two_batches : length (group_for_gso packets).batches ≡ 2
unfolding group_for_gso place joins http.Gso.join
two_batches = refl

group_for_gso-refines_example : sent_by (group_for_gso packets).batches ≡ packets_of packets
group_for_gso-refines_example =
    group_for_gso-refines packets (ground arith, (ground arith, (ground arith, tt)))
