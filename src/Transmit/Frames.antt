-- ===== src/Transmit/Frames.antt =====
-- The headers in the segments of a packet.
use platform.Common.{ℕ, ◌+◌, ◌-◌, ◌≤◌, ◌≡◌, refl, ◌∙◌, sym, ap, arith, ok}
use platform.Common.{List, [], ◌∷◌, ◌++◌, length, drop, append_assoc, length-append}
use platform.Transmit.{write_at, HeaderBytes}
use platform.Transmit.{copy_headers}
use platform.Transmit.Copied.{flat, lengths, write_at_behind, copy_buf_to_pkt-IsCopy}

-- Writing right behind a front.
write_at_next :
    (k : ℕ) (buf front xs : List ℕ)
    → length front ≡ k
    → write_at k buf (front ++ xs) ≡ front ++ (buf ++ drop (length buf) xs)
write_at_next k buf front xs e =
    let none_left : k - length front ≡ 0 = omega (arith, e) in
    let z : 0 + length buf ≡ length buf = omega arith in
    write_at_behind k buf front xs (omega (arith, e)) ∙ rw (none_left, z) refl

write_at_start : (buf xs : List ℕ) → write_at 0 buf xs ≡ buf ++ drop (length buf) xs
write_at_start buf xs = let z : 0 + length buf ≡ length buf = omega arith in rw z refl

-- The headers have the sizes of theirs.
pub record HasSizes (h : HeaderBytes) : Type 0 where
  pub eth : length h.eth_hdr ≡ 14
  pub ip : length h.pkt_ip_hdr ≡ 20
  pub udp : length h.pkt_udp_hdr ≡ 8

-- A packet in segments of the lengths `lens`, whose first bytes are the three headers.
abbrev pub IsFrame : HeaderBytes → List ℕ → List (List ℕ) → Type 0
IsFrame h lens pkt =
    (lengths pkt ≡ lens)
    × ((payload : List ℕ) × (flat pkt ≡ h.eth_hdr ++ (h.pkt_ip_hdr ++ (h.pkt_udp_hdr ++ payload))))

pub length-flat : (a b : List (List ℕ)) → lengths a ≡ lengths b → length (flat a) ≡ length (flat b)
unfolding flat
length-flat [] [] e = refl
length-flat [] (y ∷ b) e = cc
length-flat (x ∷ a) [] e = cc
length-flat (x ∷ a) (y ∷ b) e =
    let one : length x ≡ length y = cc in
    let rest : lengths a ≡ lengths b = cc in
    omega (arith, length-append x (flat a), length-append y (flat b), one, length-flat a b rest)

module _ (h : HeaderBytes) (z : HasSizes h) where
  headers-bytes :
      (xs : List ℕ)
      → write_at 34 h.pkt_udp_hdr (write_at 14 h.pkt_ip_hdr (write_at 0 h.eth_hdr xs))
        ≡ h.eth_hdr
          ++ (h.pkt_ip_hdr
              ++ (h.pkt_udp_hdr
                  ++ drop
                      (length h.pkt_udp_hdr)
                      (drop (length h.pkt_ip_hdr) (drop (length h.eth_hdr) xs))))
  headers-bytes xs =
      let after_eth = drop (length h.eth_hdr) xs in
      let after_ip = drop (length h.pkt_ip_hdr) after_eth in
      ap (λ l. write_at 34 h.pkt_udp_hdr (write_at 14 h.pkt_ip_hdr l)) (write_at_start h.eth_hdr xs)
      ∙ ap (write_at 34 h.pkt_udp_hdr) (write_at_next 14 h.pkt_ip_hdr h.eth_hdr after_eth z.eth)
      ∙ ap (write_at 34 h.pkt_udp_hdr) (sym (append_assoc h.eth_hdr h.pkt_ip_hdr after_ip))
      ∙ write_at_next 34 h.pkt_udp_hdr (h.eth_hdr ++ h.pkt_ip_hdr) after_ip
          (omega (arith, length-append h.eth_hdr h.pkt_ip_hdr, z.eth, z.ip))
      ∙ append_assoc h.eth_hdr h.pkt_ip_hdr (h.pkt_udp_hdr ++ drop (length h.pkt_udp_hdr) after_ip)

  pub copy_headers-IsFrame :
      (pkt : List (List ℕ))
      → 42 ≤ length (flat pkt)
      → (pkt' : List (List ℕ)) × (copy_headers h pkt ≡ ok pkt') × IsFrame h (lengths pkt) pkt'
  unfolding copy_headers
  copy_headers-IsFrame pkt room =
      let e1 = z.eth in
      let e2 = z.ip in
      let e3 = z.udp in
      let (pkt1, run1, k1) =
        copy_buf_to_pkt-IsCopy h.eth_hdr pkt 0 (omega (arith, e1)) (omega (arith, room, e1)) in
      let size1 = length-flat pkt1 pkt k1.same_lengths in
      let (pkt2, run2, k2) =
        copy_buf_to_pkt-IsCopy h.pkt_ip_hdr pkt1 14 (omega (arith, e2))
          (omega (arith, room, size1, e2)) in
      let size2 = length-flat pkt2 pkt1 k2.same_lengths in
      let (pkt3, run3, k3) =
        copy_buf_to_pkt-IsCopy h.pkt_udp_hdr pkt2 34 (omega (arith, e3))
          (omega (arith, room, size1, size2, e3)) in
      (
        pkt3,
        rw (run1, run2) run3,
        (
          k3.same_lengths ∙ k2.same_lengths ∙ k1.same_lengths,
          (
            drop (length h.pkt_udp_hdr)
                (drop (length h.pkt_ip_hdr) (drop (length h.eth_hdr) (flat pkt))),
            k3.bytes
                ∙ ap (write_at 34 h.pkt_udp_hdr) k2.bytes
                ∙ ap (λ l. write_at 34 h.pkt_udp_hdr (write_at 14 h.pkt_ip_hdr l)) k1.bytes
                ∙ headers-bytes (flat pkt),
          ),
        ),
      )
