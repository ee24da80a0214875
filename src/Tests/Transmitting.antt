-- ===== src/Tests/Transmitting.antt =====
-- Packets of 60 bytes in two segments, and one whose first segment alone is sent.
use platform.Common.{ℕ, zero, suc, ◌≡◌, refl, arith, List, [], ◌∷◌, none, some}
use platform.Common.{false, true, fault, ◌-◌}
use platform.Transmit.{Allocations, HeaderBytes, make_packets, packet_lengths}
use platform.Transmit.Frames.{HasSizes}
use platform.Transmit.Short.{short_packet_faults}
use platform.Transmit.Burst.{MakesFrames, make_packets-MakesFrames}

abbrev bytes : ℕ → ℕ → List ℕ
bytes zero b = []
bytes (suc n) b = b ∷ bytes n b

abbrev three_headers : HeaderBytes
three_headers = record { eth_hdr = bytes 14 1; pkt_ip_hdr = bytes 20 2; pkt_udp_hdr = bytes 8 3 }

-- The fifth buffer is not there.
abbrev four_buffers : Allocations
four_buffers =
    some (bytes 64 0) ∷ some (bytes 64 0) ∷ some (bytes 64 0) ∷ some (bytes 64 0) ∷ none ∷ []

abbrev two_lengths : List ℕ
two_lengths = 20 ∷ 40 ∷ []

three_headers-HasSizes : HasSizes three_headers
three_headers-HasSizes = record { eth = refl; ip = refl; udp = refl }

make_packets-MakesFrames_example :
    MakesFrames three_headers two_lengths 3 4
      (make_packets three_headers false (λ k. 0) two_lengths 0 3 four_buffers)
make_packets-MakesFrames_example =
    make_packets-MakesFrames three_headers three_headers-HasSizes two_lengths (λ k. 0) 0 3
      four_buffers (omega arith) (ground arith)

-- With a random number of segments, the second packet has one.
short_packet_faults_example :
    make_packets three_headers true (λ k. 1 - k) two_lengths 1 2 four_buffers ≡ fault
unfolding packet_lengths
short_packet_faults_example =
    short_packet_faults three_headers three_headers-HasSizes true (λ k. 1 - k) two_lengths 1 1
      four_buffers (ground arith) (ground arith) (ground arith)
