-- ===== src/Transmit/Headers.antt =====
-- The headers of the packets: their lengths and their checksum.
use platform.Common.{ℕ, ◌+◌, ◌-◌, ◌%◌, ◌^◌, ◌≤◌, ◌<◌, ◌≡◌, arith}
use platform.Echo.{header_sum}
use platform.Echo.Checksum.{Right}
use platform.Transmit.{swap16, reduce_cksum, ip_header, setup_pkt_udp_ip_headers, tx_only_begin}

-- A sum of 16-bit words with its checksum is a multiple of 65535.
reduce_cksum_lem : (s : ℕ) → s < 2 ^ 32 → (reduce_cksum s + s) % 65535 ≡ 0
unfolding reduce_cksum
reduce_cksum_lem s h = ground arith

header_sum-lt : (pkt_len : ℕ) → header_sum (ip_header pkt_len) < 2 ^ 32
header_sum-lt pkt_len = omega arith

swap16-swap16 : (v : ℕ) → v < 2 ^ 16 → swap16 (swap16 v) ≡ v
swap16-swap16 v h = omega arith

-- For a packet of 42 to 65535 bytes, the words of the IP header that tx_only_begin makes are a
-- multiple of 65535 together with its checksum; the total length in it is that of the packet less
-- the 14 bytes of the Ethernet header, and the length in the UDP header is less by 20 bytes more.
headers-Right :
    (tx_pkt_length : ℕ)
    → 42 ≤ tx_pkt_length
    → tx_pkt_length < 2 ^ 16
    → Right (tx_only_begin tx_pkt_length).0
      × (swap16 (tx_only_begin tx_pkt_length).0.word1 + 14 ≡ tx_pkt_length)
      × (swap16 (tx_only_begin tx_pkt_length).1.dgram_len + 34 ≡ tx_pkt_length)
unfolding tx_only_begin setup_pkt_udp_ip_headers
headers-Right n lo hi =
    let payload : ℕ = (n + 2 ^ 16 - 42) % 2 ^ 16 in
    let udp : ℕ = (payload + 8) % 2 ^ 16 in
    let ip : ℕ = (udp + 20) % 2 ^ 16 in
    let known : payload ≡ n - 42 = omega arith in
    (
      reduce_cksum_lem (header_sum (ip_header ip)) (header_sum-lt ip),
      (let e = swap16-swap16 ip (omega arith) in omega (arith, e, known)),
      (let e = swap16-swap16 udp (omega arith) in omega (arith, e, known)),
    )
