-- ===== src/Transmit/Short.antt =====
-- Packets whose segments do not hold the headers.
use platform.Common.{ℕ, suc, ◌+◌, ◌-◌, ◌≤◌, ◌<◌, ◌≡◌, refl, ap, arith, fault}
use platform.Common.{List, [], ◌∷◌, length, drop, length-append, length-drop}
use platform.Common.{ltb, leb, Bool-cases, Option, none, some, inl, inr, Bool}
use platform.Transmit.{copy_on, copy_buf_to_pkt_segs, copy_buf_to_pkt, Allocations, alloc_segs}
use platform.Transmit.{HeaderBytes, copy_headers, fill, packet_lengths, make_packets}
use platform.Transmit.Copied.{flat, Starts, starts_zero, copy_buf_to_pkt-IsCopy}
use platform.Transmit.Frames.{HasSizes, length-flat}
use platform.Transmit.Burst.{
  IsRoomy, Allocated, alloc_segs-Allocated, available, total, length-flat_total,
}

copy_on-fault :
    (buf : List ℕ) (segs : List (List ℕ)) (offset : ℕ)
    → Starts offset segs
    → 0 < length buf
    → length (flat segs) < offset + length buf
    → copy_on buf segs offset ≡ fault
unfolding copy_on flat
copy_on-fault buf [] offset st some_bytes h = refl
copy_on-fault buf (seg ∷ segs) offset st some_bytes h =
    let c = length seg - offset in
    let whole = length-append seg (flat segs) in
    elim (Bool-cases (ltb c (length buf))) [
      | inl e ↦
          let more : c < length buf = ground (arith, e) in
          let left = length-drop c buf (omega (arith, more)) in
          let rest =
            copy_on-fault (drop c buf) segs 0 (starts_zero segs) (omega (arith, left, more))
              (omega (arith, left, whole, more)) in
          rw (e, rest) refl
      | inr e ↦ let fits : length buf ≤ c = ground (arith, e) in absurd (omega (arith, fits, whole))
    ]

segs-fault :
    (buf : List ℕ) (segs : List (List ℕ)) (offset : ℕ)
    → 0 < length buf
    → length (flat segs) < offset + length buf
    → copy_buf_to_pkt_segs buf segs offset ≡ fault
unfolding copy_buf_to_pkt_segs flat
segs-fault buf [] offset some_bytes h = refl
segs-fault buf (seg ∷ segs) offset some_bytes h =
    let whole = length-append seg (flat segs) in
    elim (Bool-cases (leb (length seg) offset)) [
      | inl e ↦
          let past : length seg ≤ offset = ground (arith, e) in
          let rest =
            segs-fault buf segs (offset - length seg) some_bytes (omega (arith, whole, past)) in
          rw (e, rest) refl
      | inr e ↦ rw e (copy_on-fault buf (seg ∷ segs) offset (ground (arith, e)) some_bytes h)
    ]

copy_buf_to_pkt-fault :
    (buf : List ℕ) (segs : List (List ℕ)) (offset : ℕ)
    → 0 < length buf
    → length (flat segs) < offset + length buf
    → copy_buf_to_pkt buf segs offset ≡ fault
unfolding copy_buf_to_pkt flat
copy_buf_to_pkt-fault buf [] offset some_bytes h = refl
copy_buf_to_pkt-fault buf (seg ∷ segs) offset some_bytes h =
    elim (Bool-cases (leb (offset + length buf) (length seg))) [
      | inl e ↦
          let fits : offset + length buf ≤ length seg = ground (arith, e) in
          absurd (omega (arith, fits, length-append seg (flat segs)))
      | inr e ↦ rw e (segs-fault buf (seg ∷ segs) offset some_bytes h)
    ]

module _ (h : HeaderBytes) (z : HasSizes h) where
  copy_headers-fault : (pkt : List (List ℕ)) → length (flat pkt) < 42 → copy_headers h pkt ≡ fault
  unfolding copy_headers
  copy_headers-fault pkt short =
      let e1 = z.eth in
      let e2 = z.ip in
      let e3 = z.udp in
      elim (Bool-cases (ltb (length (flat pkt)) 14)) [
        | inl e ↦
            let few : length (flat pkt) < 14 = ground (arith, e) in
            let bad1 =
              copy_buf_to_pkt-fault h.eth_hdr pkt 0 (omega (arith, e1)) (omega (arith, few, e1)) in
            rw bad1 refl
        | inr e ↦
            let many : 14 ≤ length (flat pkt) = ground (arith, e) in
            let (pkt1, run1, k1) =
              copy_buf_to_pkt-IsCopy h.eth_hdr pkt 0 (omega (arith, e1))
                (omega (arith, many, e1)) in
            let size1 = length-flat pkt1 pkt k1.same_lengths in
            elim (Bool-cases (ltb (length (flat pkt)) 34)) [
              | inl e' ↦
                  let few : length (flat pkt) < 34 = ground (arith, e') in
                  let bad2 =
                    copy_buf_to_pkt-fault h.pkt_ip_hdr pkt1 14 (omega (arith, e2))
                      (omega (arith, few, size1, e2)) in
                  rw (run1, bad2) refl
              | inr e' ↦
                  let more : 34 ≤ length (flat pkt) = ground (arith, e') in
                  let (pkt2, run2, k2) =
                    copy_buf_to_pkt-IsCopy h.pkt_ip_hdr pkt1 14 (omega (arith, e2))
                      (omega (arith, more, size1, e2)) in
                  let size2 = length-flat pkt2 pkt1 k2.same_lengths in
                  let bad3 =
                    copy_buf_to_pkt-fault h.pkt_udp_hdr pkt2 34 (omega (arith, e3))
                      (omega (arith, short, size1, size2, e3)) in
                  rw (run1, run2) bad3
            ]
      ]

  fill-fault :
      (lens : List ℕ) (before after : ℕ) (a : Option (List (List ℕ)))
      → total lens < 42
      → length lens ≤ before
      → Allocated lens before after a
      → fill h a ≡ fault
  unfolding fill
  fill-fault lens before after none short enough k = absurd (omega (arith, k, enough))
  fill-fault lens before after (some pkt) short enough (same, taken) =
      let total_same = ap total same in
      let bad = copy_headers-fault pkt (omega (arith, short, length-flat_total pkt, total_same)) in
      rw bad refl

  -- Let the three headers have 14, 20 and 8 bytes, a packet be asked for whose segments together,
  -- those that a random number leaves if it is random, have fewer than 42 bytes, and the pool
  -- have enough buffers for them, each with room for a segment of each of these lengths. Then the
  -- loop of pkt_burst_transmit goes on to a segment that is not there.
  pub short_packet_faults :
      (split_rnd : Bool) (random : ℕ → ℕ) (seg_lengths : List ℕ) (k n : ℕ) (pool : Allocations)
      → total (packet_lengths split_rnd (random k) seg_lengths) < 42
      → length (packet_lengths split_rnd (random k) seg_lengths) ≤ available pool
      → IsRoomy (packet_lengths split_rnd (random k) seg_lengths) pool
      → make_packets h split_rnd random seg_lengths k (suc n) pool ≡ fault
  unfolding make_packets
  short_packet_faults split_rnd random seg_lengths k n pool short enough r =
      let lens = packet_lengths split_rnd (random k) seg_lengths in
      let bad =
        fill-fault lens (available pool) (available (alloc_segs lens pool).1)
          (alloc_segs lens pool).0 short enough (alloc_segs-Allocated lens pool r) in
      rw bad refl
