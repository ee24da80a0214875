-- ===== src/Echo/Checksum.antt =====
-- The checksums of the replies.
use platform.Common.{ℕ, ◌+◌, ◌*◌, ◌/◌, ◌%◌, ◌^◌, ◌<◌, ◌≡◌, refl, arith, inl, inr}
use platform.Common.{Bool-cases, true, false, ◌==◌, ◌&&◌, ne→==, eq→==, some}
use mathlib.Core.Path.{subst}
use platform.Capture.Classify.{ntohl}
use platform.Echo.{
  Ipv4, Frame, fold, complement, header_sum, ipv4_hdr_cksum, reply_cksum, other_addr,
  is_multicast_ipv4_addr, reply_ip, eth_type, reply,
}

sealed : (s : ℕ) → s < 9 * 2 ^ 16 → (complement (fold s) + s) % 65535 ≡ 0
sealed s h = omega arith

replaced :
    (c rest : ℕ) → c < 2 ^ 16 → (8 + c + rest) % 65535 ≡ 0 → (reply_cksum c + rest) % 65535 ≡ 0
unfolding reply_cksum
replaced c rest h e = omega (arith, e)

-- The fields have the sizes that they are loaded with.
pub record Loaded (ip : Ipv4) : Type 0 where
  pub word0 : ip.word0 < 2 ^ 16
  pub word1 : ip.word1 < 2 ^ 16
  pub word2 : ip.word2 < 2 ^ 16
  pub word3 : ip.word3 < 2 ^ 16
  pub word4 : ip.word4 < 2 ^ 16
  pub src_addr : ip.src_addr < 2 ^ 32
  pub dst_addr : ip.dst_addr < 2 ^ 32

-- The header carries a right checksum: with it the words are a multiple of 65535.
abbrev pub Right : Ipv4 → Type 0
Right ip = (ip.hdr_checksum + header_sum ip) % 65535 ≡ 0

other_addr-lt : (a : ℕ) → other_addr a < 2 ^ 32
unfolding other_addr ntohl
other_addr-lt a = elim (Bool-cases (ntohl a % 4 == 1)) [
  | inl e ↦ rw e (omega arith)
  | inr e ↦ rw e (omega arith)
]

cksum-Right : (ip : Ipv4) → Loaded ip → (ipv4_hdr_cksum ip + header_sum ip) % 65535 ≡ 0
unfolding ipv4_hdr_cksum
cksum-Right ip l =
    let small : header_sum ip < 9 * 2 ^ 16 =
      let a = l.word0 in
      let b = l.word1 in
      let c = l.word2 in
      let d = l.word3 in
      let e = l.word4 in
      let f = l.src_addr in let g = l.dst_addr in omega (arith, a, b, c, d, e, f, g) in
    let total = sealed (header_sum ip) small in
    elim (Bool-cases (complement (fold (header_sum ip)) == 0)) [
      | inl z ↦
          let zero' : complement (fold (header_sum ip)) ≡ 0 = ground (arith, z) in
          rw z (omega (arith, total, zero'))
      | inr z ↦ rw z total
    ]

reply_ip-Right : (ip : Ipv4) → Loaded ip → Right ip → Right (reply_ip ip)
unfolding reply_ip
reply_ip-Right ip l right = elim (Bool-cases (is_multicast_ipv4_addr ip.dst_addr)) [
  | inl m ↦
      let answered = record ip { src_addr = other_addr ip.src_addr; dst_addr = ip.src_addr } in
      rw m (
        cksum-Right answered (record {
          word0 = l.word0;
          word1 = l.word1;
          word2 = l.word2;
          word3 = l.word3;
          word4 = l.word4;
          src_addr = other_addr-lt ip.src_addr;
          dst_addr = l.src_addr;
        }))
  | inr m ↦ rw m (omega (arith, right))
]

reply_ip-dst_addr : (ip : Ipv4) → (reply_ip ip).dst_addr ≡ ip.src_addr
unfolding reply_ip
reply_ip-dst_addr ip = elim (Bool-cases (is_multicast_ipv4_addr ip.dst_addr)) [
  | inl m ↦ rw m refl
  | inr m ↦ rw m refl
]

-- Let a frame of type IPv4 be answered, its IP header words have their sizes and with the
-- checksum make a multiple of 65535, and the ICMP checksum be 16 bits and make one with the type
-- of a request and the sum of the rest. Then the IP header of the answer and its checksum make a
-- multiple of 65535, and so do its ICMP type, its checksum and that rest; and the answer goes to
-- the IP address and the Ethernet address that the frame came from.
pub reply-Right :
    (eth_addr : ℕ) (f g : Frame) (rest : ℕ)
    → eth_type f ≡ 2048
    → reply eth_addr f ≡ some g
    → Loaded f.ip
    → Right f.ip
    → f.icmp.icmp_cksum < 2 ^ 16
    → (8 + f.icmp.icmp_cksum + rest) % 65535 ≡ 0
    → Right g.ip
      × ((g.icmp.icmp_type + g.icmp.icmp_cksum + rest) % 65535 ≡ 0)
      × (g.ip.dst_addr ≡ f.ip.src_addr)
      × (g.d_addr ≡ f.s_addr)
unfolding reply
reply-Right eth_addr f g rest ip e l right small valid =
    let request = f.ip.word4 / 2 ^ 8 == 1 && f.icmp.icmp_type == 8 && f.icmp.icmp_code == 0 in
    let not_arp : (eth_type f == 2054) ≡ false =
      ne→== (eth_type f) 2054 (λ x. absurd (omega (arith, ip, x))) in
    let is_ip : (eth_type f == 2048) ≡ true = eq→== (eth_type f) 2048 ip in
    elim (Bool-cases request) [
      | inr off ↦ let bad = rw (not_arp, is_ip, off) at e in absurd (cc)
      | inl on ↦
          let answer = record f {
            d_addr = f.s_addr;
            s_addr = f.d_addr;
            ip = reply_ip f.ip;
            icmp = record (f.icmp) { icmp_type = 0; icmp_cksum = reply_cksum f.icmp.icmp_cksum };
          } in
          let sent : some answer ≡ some g = rw (not_arp, is_ip, on) at e in
          let same : answer ≡ g = cc in
          let sum = replaced f.icmp.icmp_cksum rest small valid in
          subst
            (λ h.
              Right h.ip
              × ((h.icmp.icmp_type + h.icmp.icmp_cksum + rest) % 65535 ≡ 0)
              × (h.ip.dst_addr ≡ f.ip.src_addr)
              × (h.d_addr ≡ f.s_addr))
            same (reply_ip-Right f.ip l right, omega (arith, sum), reply_ip-dst_addr f.ip, refl)
    ]
