-- ===== src/Capture/Classify.antt =====
-- How `slaveCoreRx` chooses the ring of a packet: by the sum of its addresses. A packet is the
-- memory from its first byte on, a function of the offset; the loads are little-endian.
use platform.Common.{ℕ, ◌+◌, ◌*◌, ◌/◌, ◌%◌, ◌^◌, ◌<◌, ◌≡◌, refl, ◌∙◌, ap, sym, ◌⊎◌, inl, inr, arith}
use platform.Common.{Outcome, ok, fault, ◌==◌, if◌then◌else◌, ne→==, Bool-cases}
use native.Mathlib.Nat.{add-zero}
use mathlib.Core.Path.{ap₂}

abbrev pub Packet : Type 0
Packet = ℕ → ℕ

-- `*(uint32_t *)(pkt + k)`
unfoldable pub load32 : Packet → ℕ → ℕ
load32 pkt k = pkt k + pkt (k + 1) * 2 ^ 8 + pkt (k + 2) * 2 ^ 16 + pkt (k + 3) * 2 ^ 24

-- `*(uint64_t *)(pkt + k)`
unfoldable pub load64 : Packet → ℕ → ℕ
load64 pkt k = load32 pkt k + load32 pkt (k + 4) * 2 ^ 32

unfoldable pub ntohl : ℕ → ℕ
ntohl x =
    (x % 2 ^ 8) * 2 ^ 24
    + (x / 2 ^ 8 % 2 ^ 8) * 2 ^ 16
    + (x / 2 ^ 16 % 2 ^ 8) * 2 ^ 8
    + x / 2 ^ 24 % 2 ^ 8

-- `(srcip + dstip) % ring_num` in 32 bits; `ring_num` is a `uint16_t`.
unfoldable pub choose : ℕ → ℕ → ℕ → Outcome ℕ
choose srcip dstip ring_num =
    if ring_num == 0 then fault else ok ((ntohl srcip + ntohl dstip) % 2 ^ 32 % ring_num)

-- The upper half of the byte behind the Ethernet header is the version.
unfoldable pub ring_of : ℕ → Packet → Outcome ℕ
ring_of ring_num pkt =
    let vv = pkt 14 / 2 ^ 4 in
    if vv == 4
    then choose (load32 pkt 26) (load32 pkt 30) ring_num
    else if vv == 6
    then choose (load64 pkt 22 % 2 ^ 32) (load64 pkt 38 % 2 ^ 32) ring_num
    else ok 0

choose_comm : (a b n : ℕ) → choose a b n ≡ choose b a n
unfolding choose
choose_comm a b n = let e : ntohl a + ntohl b ≡ ntohl b + ntohl a = omega arith in rw e refl

-- The bytes of the two addresses, `n` of each, exchanged between two packets of one IP version.
pub record Exchanged (version source target n : ℕ) (pkt reply : Packet) : Type 0 where
  pub of_packet : pkt 14 / 2 ^ 4 ≡ version
  pub of_reply : reply 14 / 2 ^ 4 ≡ version
  pub to_source : (i : ℕ) → i < n → reply (source + i) ≡ pkt (target + i)
  pub to_target : (i : ℕ) → i < n → reply (target + i) ≡ pkt (source + i)

-- The other direction of a flow, in IPv4 or in IPv6.
abbrev pub IsReply : Packet → Packet → Type 0
IsReply pkt reply = Exchanged 4 26 30 4 pkt reply ⊎ Exchanged 6 22 38 16 pkt reply

load32_ext :
    (p q : Packet) (j k : ℕ) → ((i : ℕ) → i < 4 → p (j + i) ≡ q (k + i)) → load32 p j ≡ load32 q k
unfolding load32
load32_ext p q j k h =
    let e0 : p j ≡ q k = rw (sym (add-zero j), sym (add-zero k)) (h 0 (omega arith)) in
    omega (arith, e0, h 1 (omega arith), h 2 (omega arith), h 3 (omega arith))

-- The cast to `uint32_t` leaves the first four bytes of the address.
low_half : (p : Packet) (k : ℕ) → load64 p k % 2 ^ 32 ≡ load32 p k % 2 ^ 32
unfolding load64
low_half p k = omega arith

load64_ext :
    (p q : Packet) (j k : ℕ)
    → ((i : ℕ) → i < 16 → p (j + i) ≡ q (k + i))
    → load64 p j % 2 ^ 32 ≡ load64 q k % 2 ^ 32
load64_ext p q j k h =
    low_half p j
    ∙ ap (λ (x : ℕ). x % 2 ^ 32) (load32_ext p q j k (λ i b. h i (omega arith)))
    ∙ sym (low_half q k)

ring_of-v4 :
    (n : ℕ) (p : Packet) → p 14 / 2 ^ 4 ≡ 4 → ring_of n p ≡ choose (load32 p 26) (load32 p 30) n
unfolding ring_of
ring_of-v4 n p e = rw e refl

ring_of-v6 :
    (n : ℕ) (p : Packet)
    → p 14 / 2 ^ 4 ≡ 6
    → ring_of n p ≡ choose (load64 p 22 % 2 ^ 32) (load64 p 38 % 2 ^ 32) n
unfolding ring_of
ring_of-v6 n p e = rw e refl

choose-lt : (a b n : ℕ) → 0 < n → (r : ℕ) × (r < n) × (choose a b n ≡ ok r)
unfolding choose
choose-lt a b n h =
    ((ntohl a + ntohl b) % 2 ^ 32 % n, omega arith, rw (ne→== n 0 (λ e. absurd (omega arith))) refl)

-- Where there is a ring, every packet has one below their number.
pub ring_of-lt : (n : ℕ) (p : Packet) → 0 < n → (r : ℕ) × (r < n) × (ring_of n p ≡ ok r)
unfolding ring_of
ring_of-lt n p h = elim (Bool-cases (p 14 / 2 ^ 4 == 4)) [
  | inl e ↦ rw e (choose-lt (load32 p 26) (load32 p 30) n h)
  | inr e ↦ rw e (elim (Bool-cases (p 14 / 2 ^ 4 == 6)) [
    | inl e' ↦ rw e' (choose-lt (load64 p 22 % 2 ^ 32) (load64 p 38 % 2 ^ 32) n h)
    | inr e' ↦ rw e' (0, h, refl)
  ])
]

reply-same : (n : ℕ) (pkt reply : Packet) → IsReply pkt reply → ring_of n reply ≡ ring_of n pkt
reply-same n pkt reply (inl x) =
    ring_of-v4 n reply x.of_reply
    ∙ ap₂ (λ a b. choose a b n) (load32_ext reply pkt 26 30 x.to_source)
        (load32_ext reply pkt 30 26 x.to_target)
    ∙ choose_comm (load32 pkt 30) (load32 pkt 26) n
    ∙ sym (ring_of-v4 n pkt x.of_packet)
reply-same n pkt reply (inr x) =
    ring_of-v6 n reply x.of_reply
    ∙ ap₂ (λ a b. choose a b n) (load64_ext reply pkt 22 38 x.to_source)
        (load64_ext reply pkt 38 22 x.to_target)
    ∙ choose_comm (load64 pkt 38 % 2 ^ 32) (load64 pkt 22 % 2 ^ 32) n
    ∙ sym (ring_of-v6 n pkt x.of_packet)

-- If there is a ring, a packet and a packet of the other direction of its flow, in IPv4 or IPv6,
-- are given one ring, which is below the number of rings.
pub ring_of_reply :
    (ring_num : ℕ) (pkt reply : Packet)
    → 0 < ring_num
    → IsReply pkt reply
    → (r : ℕ) × (r < ring_num) × (ring_of ring_num pkt ≡ ok r) × (ring_of ring_num reply ≡ ok r)
ring_of_reply n pkt reply some_ring x =
    let (r, lt, e) = ring_of-lt n pkt some_ring in (r, lt, e, reply-same n pkt reply x ∙ e)
