-- ===== src/Transmit.antt =====
-- The packets that `pkt_burst_transmit` of src/CaptureDpdk/txonly.c makes: their headers, the
-- segments they are allocated in, and the copying of the headers into the segments. A segment is its
-- bytes. The headers are also given as bytes, as they stand in memory. What the pool of packets
-- returns for its calls in turn is a list, with the bytes that a buffer held before. The bursts are
-- sent by the text that Engines is about.
pub mod Copied
pub mod Headers
pub mod Frames
pub mod Burst
pub mod Short
use platform.Common.{ℕ, zero, suc, ◌+◌, ◌-◌, ◌*◌, ◌/◌, ◌%◌, ◌^◌, ltb, leb, ◌==◌, if◌then◌else◌}
use platform.Common.{List, [], ◌∷◌, ◌++◌, length, take, drop, Option, none, some}
use platform.Common.{Outcome, ok, fault, ◌>>=◌, Bool, true, false}
use platform.Echo.{Ipv4, header_sum}

-- `rte_memcpy` into a buffer from a place on, inside it.
abbrev pub write_at : ℕ → List ℕ → List ℕ → List ℕ
write_at offset buf seg = take offset seg ++ (buf ++ drop (offset + length buf) seg)

-- The second loop of `copy_buf_to_pkt_segs`, from a place of its first segment on. A segment that is
-- not there is a pointer that is NULL.
pub copy_on : List ℕ → List (List ℕ) → ℕ → Outcome (List (List ℕ))
copy_on buf [] offset = fault
copy_on buf (seg ∷ segs) offset =
    let copy_len = length seg - offset in
    if ltb copy_len (length buf)
    then (do
      rest ← copy_on (drop copy_len buf) segs 0
      ok (write_at offset (take copy_len buf) seg ∷ rest))
    else ok (write_at offset buf seg ∷ segs)

-- Behind its first loop, which passes over segments.
pub copy_buf_to_pkt_segs : List ℕ → List (List ℕ) → ℕ → Outcome (List (List ℕ))
copy_buf_to_pkt_segs buf [] offset = fault
copy_buf_to_pkt_segs buf (seg ∷ segs) offset =
    if leb (length seg) offset
    then (do rest ← copy_buf_to_pkt_segs buf segs (offset - length seg); ok (seg ∷ rest))
    else copy_on buf (seg ∷ segs) offset

pub copy_buf_to_pkt : List ℕ → List (List ℕ) → ℕ → Outcome (List (List ℕ))
copy_buf_to_pkt buf [] offset = fault
copy_buf_to_pkt buf (seg ∷ segs) offset =
    if leb (offset + length buf) (length seg)
    then ok (write_at offset buf seg ∷ segs)
    else copy_buf_to_pkt_segs buf (seg ∷ segs) offset

-- `rte_cpu_to_be_16` on a machine with the low byte first.
abbrev pub swap16 : ℕ → ℕ
swap16 v = (v % 2 ^ 8) * 2 ^ 8 + (v / 2 ^ 8) % 2 ^ 8

pub record Udp : Type 0 where
  pub src_port : ℕ
  pub dst_port : ℕ
  pub dgram_len : ℕ
  pub dgram_cksum : ℕ

-- The sum is cut to 16 bits, and complemented.
unfoldable pub reduce_cksum : ℕ → ℕ
reduce_cksum s =
    let once = (s / 2 ^ 16) % 2 ^ 16 + s % 2 ^ 16 in
    let ip_cksum = if ltb 65535 once then once - 65535 else once in
    let inverse = 65535 - ip_cksum % 2 ^ 16 in if inverse == 0 then 65535 else inverse

-- The IP header but its checksum: version 4 with five words, time to live 64 and protocol 17; the
-- addresses are 192.168.0.1 and 192.168.0.2.
abbrev pub ip_header : ℕ → Ipv4
ip_header pkt_len = record {
  word0 = 69;
  word1 = swap16 pkt_len;
  word2 = 0;
  word3 = 0;
  word4 = 4416;
  hdr_checksum = 0;
  src_addr = 16820416;
  dst_addr = 33597632;
}

unfoldable pub setup_pkt_udp_ip_headers : ℕ → Ipv4 × Udp
setup_pkt_udp_ip_headers pkt_data_len =
    let udp_len = (pkt_data_len + 8) % 2 ^ 16 in
    let ip = ip_header ((udp_len + 20) % 2 ^ 16) in
    (
      record ip { hdr_checksum = reduce_cksum (header_sum ip) },
      record {
        src_port = swap16 1024;
        dst_port = swap16 1024;
        dgram_len = swap16 udp_len;
        dgram_cksum = 0;
      },
    )

-- `tx_only_begin`
unfoldable pub tx_only_begin : ℕ → Ipv4 × Udp
tx_only_begin tx_pkt_length = setup_pkt_udp_ip_headers ((tx_pkt_length + 2 ^ 16 - 42) % 2 ^ 16)

-- The calls of `rte_mbuf_raw_alloc`: what is left of their results. Behind the end there is none.
abbrev pub Allocations : Type 0
Allocations = List (Option (List ℕ))

unfoldable pub raw_alloc : Allocations → Option (List ℕ) × Allocations
raw_alloc [] = (none, [])
raw_alloc (r ∷ pool) = (r, pool)

-- A segment of a length in the memory of a buffer, before the further ones.
unfoldable pub link_segment : ℕ → List ℕ → Option (List (List ℕ)) → Option (List (List ℕ))
link_segment data_len memory none = none
link_segment data_len memory (some segs) = some (take data_len memory ∷ segs)

-- The segments of a packet, of the given lengths: `none` where one is not allocated, and then no
-- further one is asked for.
pub alloc_segs : List ℕ → Allocations → Option (List (List ℕ)) × Allocations
alloc_segs [] pool = (some [], pool)
alloc_segs (data_len ∷ lens) pool =
    let (r, pool1) = raw_alloc pool in
    let later = alloc_segs lens pool1 in
    elim r [ none ↦ (none, pool1) | some memory ↦ (link_segment data_len memory later.0, later.1) ]

-- The Ethernet header, the IP header and the UDP header as bytes.
pub record HeaderBytes : Type 0 where
  pub eth_hdr : List ℕ
  pub pkt_ip_hdr : List ℕ
  pub pkt_udp_hdr : List ℕ

pub copy_headers : HeaderBytes → List (List ℕ) → Outcome (List (List ℕ))
copy_headers h pkt = do
  pkt1 ← copy_buf_to_pkt h.eth_hdr pkt 0
  pkt2 ← copy_buf_to_pkt h.pkt_ip_hdr pkt1 14
  copy_buf_to_pkt h.pkt_udp_hdr pkt2 34

-- The copying for a packet that is allocated.
unfoldable pub fill : HeaderBytes → Option (List (List ℕ)) → Outcome (Option (List (List ℕ)))
fill h none = ok none
fill h (some pkt) = do pkt' ← copy_headers h pkt; ok (some pkt')

-- The lengths of the segments of a packet: all that are set, or, if their number is random, the first
-- ones.
unfoldable pub packet_lengths : Bool → ℕ → List ℕ → List ℕ
packet_lengths split_rnd random seg_lengths =
    if split_rnd then take (random % length seg_lengths + 1) seg_lengths else seg_lengths

-- The loop over the packets from the `k`th on, `n` of them: it ends at the first packet that is not
-- allocated. `random k` is what the call of `random` for the `k`th packet returns.
pub make_packets :
    HeaderBytes → Bool → (ℕ → ℕ) → List ℕ → ℕ → ℕ → Allocations → Outcome (List (List (List ℕ)))
make_packets h split_rnd random seg_lengths k zero pool = ok []
make_packets h split_rnd random seg_lengths k (suc n) pool =
    let a = alloc_segs (packet_lengths split_rnd (random k) seg_lengths) pool in
    fill h a.0 >>= λ filled. elim filled [
      | none ↦ ok []
      | some pkt ↦
          make_packets h split_rnd random seg_lengths (k + 1) n a.1 >>= λ pkts. ok (pkt ∷ pkts)
    ]
