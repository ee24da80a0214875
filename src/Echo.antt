-- ===== src/Echo.antt =====
-- The engine that answers ARP and ICMP echo requests, `reply_to_icmp_echo_rqsts` of
-- src/CaptureDpdk/icmpecho.c. A header is a record of its fields, those of an IPv4 header as the
-- program loads them on a machine with the low byte first; what is printed is left out.
pub mod Checksum
pub mod Burst
use platform.Common.{
  ℕ, zero, suc, ◌+◌, ◌-◌, ◌*◌, ◌/◌, ◌%◌, ◌^◌, Bool, true, false, not, ◌&&◌, ltb, ◌==◌,
  if◌then◌else◌,
}
use platform.Common.{
  Option, none, some, List, [], ◌∷◌, ◌++◌, Outcome, ok, fault, ◌>>=◌, load, store,
}
use platform.Capture.Classify.{ntohl}
use platform.Selection.{max_pkt_burst}

-- The addresses and operation of an ARP packet.
pub record Arp : Type 0 where
  pub arp_hrd : ℕ
  pub arp_pro : ℕ
  pub arp_hln : ℕ
  pub arp_pln : ℕ
  pub arp_op : ℕ
  pub arp_sha : ℕ
  pub arp_sip : ℕ
  pub arp_tha : ℕ
  pub arp_tip : ℕ

-- The words of an IPv4 header, without options.
pub record Ipv4 : Type 0 where
  pub word0 : ℕ
  pub word1 : ℕ
  pub word2 : ℕ
  pub word3 : ℕ
  pub word4 : ℕ
  pub hdr_checksum : ℕ
  pub src_addr : ℕ
  pub dst_addr : ℕ

pub record Icmp : Type 0 where
  pub icmp_type : ℕ
  pub icmp_code : ℕ
  pub icmp_cksum : ℕ

-- A frame, with what stands behind its Ethernet header (and tag) as each kind of header. The types are
-- in the order of the machine, and so are the fields of an ARP packet.
pub record Frame : Type 0 where
  pub d_addr : ℕ
  pub s_addr : ℕ
  pub ether_type : ℕ
  pub eth_proto : ℕ
  pub arp : Arp
  pub ip : Ipv4
  pub icmp : Icmp

-- The sum is cut to 16 bits, the carries added, twice.
abbrev pub fold : ℕ → ℕ
fold s = let once = s % 2 ^ 16 + s / 2 ^ 16 in once % 2 ^ 16 + once / 2 ^ 16

-- The complement of 16 bits.
abbrev pub complement : ℕ → ℕ
complement s = 2 ^ 16 - 1 - s % 2 ^ 16

-- The words of the header but the checksum together.
abbrev pub header_sum : Ipv4 → ℕ
header_sum ip =
    ip.word0
    + ip.word1
    + ip.word2
    + ip.word3
    + ip.word4
    + (ip.src_addr % 2 ^ 16 + ip.src_addr / 2 ^ 16)
    + (ip.dst_addr % 2 ^ 16 + ip.dst_addr / 2 ^ 16)

unfoldable pub ipv4_hdr_cksum : Ipv4 → ℕ
ipv4_hdr_cksum ip =
    let ip_cksum = complement (fold (header_sum ip)) in if ip_cksum == 0 then 65535 else ip_cksum

-- Whether the first byte is 224, 0xE0.
unfoldable pub is_multicast_ipv4_addr : ℕ → Bool
is_multicast_ipv4_addr addr = ntohl addr / 2 ^ 24 == 224

-- The address that answers instead of a multicast address: another one of the same four.
unfoldable pub other_addr : ℕ → ℕ
other_addr ip_addr =
    let ip_src = ntohl ip_addr in
    if ip_src % 4 == 1 then ntohl (ip_src - ip_src % 4 + 2) else ntohl (ip_src - ip_src % 4 + 1)

-- The IP header of the reply.
unfoldable pub reply_ip : Ipv4 → Ipv4
reply_ip ip =
    let answered = record ip { src_addr = other_addr ip.src_addr; dst_addr = ip.src_addr } in
    if is_multicast_ipv4_addr ip.dst_addr
    then record answered { hdr_checksum = ipv4_hdr_cksum answered }
    else record ip { src_addr = ip.dst_addr; dst_addr = ip.src_addr }

-- The checksum of the reply: the type 8 of a request, in the low byte, is taken out.
unfoldable pub reply_cksum : ℕ → ℕ
reply_cksum icmp_cksum = complement (fold (complement icmp_cksum + complement 8 + 0))

-- The type of what the frame carries, behind a tag where there is one.
abbrev pub eth_type : Frame → ℕ
eth_type f = if f.ether_type == 33024 then f.eth_proto else f.ether_type

-- The frame that is sent back, `none` for one that is freed; `eth_addr` is the address of the port
-- that sends.
unfoldable pub reply : ℕ → Frame → Option Frame
reply eth_addr f =
    let a = f.arp in
    if eth_type f == 2054
    then (if not (a.arp_hrd == 1 && a.arp_pro == 2048 && a.arp_hln == 6 && a.arp_pln == 4)
        then none
        else if not (a.arp_op == 1)
        then none
        else some (record f {
          d_addr = f.s_addr;
          s_addr = eth_addr;
          arp = record a {
            arp_op = 2;
            arp_sha = eth_addr;
            arp_sip = a.arp_tip;
            arp_tha = a.arp_sha;
            arp_tip = a.arp_sip;
          };
        }))
    else if not (eth_type f == 2048)
    then none
    else if not (f.ip.word4 / 2 ^ 8 == 1 && f.icmp.icmp_type == 8 && f.icmp.icmp_code == 0)
    then none
    else some (record f {
      d_addr = f.s_addr;
      s_addr = f.d_addr;
      ip = reply_ip f.ip;
      icmp = record (f.icmp) { icmp_type = 0; icmp_cksum = reply_cksum f.icmp.icmp_cksum };
    })

-- The packets that are sent back, at the front of the burst, their number, and those that were freed.
pub record Replies : Type 0 where
  pub pkts_burst : ℕ → Frame
  pub nb_replies : ℕ
  pub freed : List Frame

-- What is done with a packet: it is freed, or its answer is put at the front of the burst, an array of
-- `size` places.
pub keep : ℕ → Frame → Option Frame → Replies → Outcome Replies
keep size pkt none s = ok (record s { freed = s.freed ++ pkt ∷ [] })
keep size pkt (some answer) s = do
  burst ← store size s.pkts_burst s.nb_replies answer
  ok (record s { pkts_burst = burst; nb_replies = (s.nb_replies + 1) % 2 ^ 16 })

-- The body of the loop for packet `i`.
pub echo_packet : ℕ → ℕ → ℕ → Replies → Outcome Replies
echo_packet size eth_addr i s = do
  pkt ← load size s.pkts_burst i
  keep size pkt (reply eth_addr pkt) s

-- The loop over the burst from `i` on, an 8-bit number; `none` where it has not ended in `fuel` rounds.
pub echo_loop : ℕ → ℕ → ℕ → ℕ → ℕ → Replies → Outcome (Option Replies)
echo_loop zero size eth_addr nb_rx i s = if ltb i nb_rx then ok none else ok (some s)
echo_loop (suc fuel) size eth_addr nb_rx i s =
    let round = echo_packet size eth_addr i s >>= λ s'.
    echo_loop fuel size eth_addr nb_rx ((i + 1) % 2 ^ 8) s' in
    if ltb i nb_rx then round else ok (some s)

-- The counters of a stream.
pub record Counts : Type 0 where
  pub rx_packets : ℕ
  pub tx_packets : ℕ
  pub fwd_dropped : ℕ

-- The loop that offers the rest again, at most `n` times; `taken` is what the card takes of what it is
-- offered once some are sent.
pub retry_send : ℕ → (ℕ → ℕ → ℕ) → ℕ → ℕ → ℕ
retry_send zero taken nb_replies nb_tx = nb_tx
retry_send (suc n) taken nb_replies nb_tx =
    let rest =
      retry_send n taken nb_replies ((nb_tx + taken nb_tx (nb_replies - nb_tx)) % 2 ^ 16) in
    if ltb nb_tx nb_replies then rest else nb_tx

-- The replies are sent: the counters, and how many are sent; the others are freed.
pub send_replies : Bool → ℕ → (ℕ → ℕ → ℕ) → ℕ → Counts → Counts × ℕ
send_replies retry_enabled burst_tx_retry_num taken nb_replies c =
    let first = taken 0 nb_replies in
    let nb_tx =
      if ltb first nb_replies && retry_enabled
      then retry_send burst_tx_retry_num taken nb_replies first
      else first in
    let sent = record c { tx_packets = (c.tx_packets + nb_tx) % 2 ^ 32 } in
    if nb_replies == 0
    then (c, 0)
    else if ltb nb_tx nb_replies
    then (record sent { fwd_dropped = (sent.fwd_dropped + (nb_replies - nb_tx)) % 2 ^ 32 }, nb_tx)
    else (sent, nb_tx)

-- The whole function, for a burst of `nb_rx` packets; `none` where the loop has not ended in `fuel`
-- rounds.
pub reply_to_icmp_echo_rqsts :
    ℕ → ℕ → Bool → ℕ → (ℕ → ℕ → ℕ) → ℕ → (ℕ → Frame) → Counts → Outcome (Option Counts)
reply_to_icmp_echo_rqsts fuel eth_addr retry_enabled burst_tx_retry_num taken nb_rx pkts c =
    let received = record c { rx_packets = (c.rx_packets + nb_rx) % 2 ^ 32 } in
    if nb_rx == 0 then ok (some c) else do
      r ←
          echo_loop fuel max_pkt_burst eth_addr nb_rx 0
            (record { pkts_burst = pkts; nb_replies = 0; freed = [] })
      elim r [
        | none ↦ ok none
        | some s ↦
            ok (some (send_replies retry_enabled burst_tx_retry_num taken s.nb_replies received).0)
      ]
