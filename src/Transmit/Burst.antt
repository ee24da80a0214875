-- ===== src/Transmit/Burst.antt =====
-- The packets of a burst.
use platform.Common.{ℕ, zero, suc, ◌+◌, ◌*◌, ◌≤◌, ◌<◌, ◌≡◌, refl, ◌∙◌, ap, arith, ok, Outcome}
use platform.Common.{List, [], ◌∷◌, length, length-append}
use platform.Common.{length-take_all, Option, none, some, inl, inr, ◌⊎◌, ◌>>=◌}
use platform.Transmit.{Allocations, raw_alloc, link_segment, alloc_segs, HeaderBytes}
use platform.Transmit.{fill, packet_lengths, make_packets}
use platform.Transmit.Copied.{flat, lengths}
use platform.Common.{false}
use platform.Transmit.Frames.{HasSizes, IsFrame, copy_headers-IsFrame}

-- Each buffer of the pool has room for a segment of any of the lengths.
abbrev pub Fits : List ℕ → ℕ → Type 0
Fits [] room = Unit {0}
Fits (len ∷ lens) room = (len ≤ room) × Fits lens room

abbrev pub IsRoomy : List ℕ → Allocations → Type 0
IsRoomy lens [] = Unit {0}
IsRoomy lens (none ∷ pool) = IsRoomy lens pool
IsRoomy lens (some memory ∷ pool) = Fits lens (length memory) × IsRoomy lens pool

-- How many buffers the pool still has before the first that is not allocated.
abbrev pub available : Allocations → ℕ
available [] = 0
available (none ∷ pool) = 0
available (some memory ∷ pool) = suc (available pool)

-- A packet that is allocated has segments of the lengths asked for, and the pool has so many buffers
-- less; where none is, the pool had too few.
abbrev pub Allocated : List ℕ → ℕ → ℕ → Option (List (List ℕ)) → Type 0
Allocated lens before after none = before < length lens
Allocated lens before after (some pkt) = (lengths pkt ≡ lens) × (after + length lens ≡ before)

rest-IsRoomy :
    (len : ℕ) (lens : List ℕ) (pool : Allocations) → IsRoomy (len ∷ lens) pool → IsRoomy lens pool
rest-IsRoomy len lens [] r = tt
rest-IsRoomy len lens (none ∷ pool) r = rest-IsRoomy len lens pool r
rest-IsRoomy len lens (some memory ∷ pool) r = (r.0.1, rest-IsRoomy len lens pool r.1)

-- What is left of a roomy pool is roomy.
alloc_segs-IsRoomy :
    (all lens : List ℕ) (pool : Allocations)
    → IsRoomy all pool
    → IsRoomy all (alloc_segs lens pool).1
unfolding alloc_segs raw_alloc
alloc_segs-IsRoomy all [] pool r = r
alloc_segs-IsRoomy all (len ∷ lens) [] r = tt
alloc_segs-IsRoomy all (len ∷ lens) (none ∷ pool) r = r
alloc_segs-IsRoomy all (len ∷ lens) (some memory ∷ pool) r = alloc_segs-IsRoomy all lens pool r.1

link_segment-Allocated :
    (len : ℕ) (lens memory : List ℕ) (before after : ℕ) (more : Option (List (List ℕ)))
    → len ≤ length memory
    → Allocated lens before after more
    → Allocated (len ∷ lens) (suc before) after (link_segment len memory more)
unfolding link_segment
link_segment-Allocated len lens memory before after none h k = omega (arith, k)
link_segment-Allocated len lens memory before after (some segs) h (same, taken) =
    let size = length-take_all len memory h in (rw (size, same) refl, omega (arith, taken))

pub alloc_segs-Allocated :
    (lens : List ℕ) (pool : Allocations)
    → IsRoomy lens pool
    → Allocated lens (available pool) (available (alloc_segs lens pool).1) (alloc_segs lens pool).0
unfolding alloc_segs raw_alloc
alloc_segs-Allocated [] pool r = (refl, omega arith)
alloc_segs-Allocated (len ∷ lens) [] r = omega arith
alloc_segs-Allocated (len ∷ lens) (none ∷ pool) r = omega arith
alloc_segs-Allocated (len ∷ lens) (some memory ∷ pool) r =
    link_segment-Allocated len lens memory (available pool) (available (alloc_segs lens pool).1)
      (alloc_segs lens pool).0 r.0.0
      (alloc_segs-Allocated lens pool (rest-IsRoomy len lens pool r.1))

-- All the packets of a burst are frames.
abbrev pub AreFrames : HeaderBytes → List ℕ → List (List (List ℕ)) → Type 0
AreFrames h lens [] = Unit {0}
AreFrames h lens (pkt ∷ pkts) = IsFrame h lens pkt × AreFrames h lens pkts

abbrev pub total : List ℕ → ℕ
total [] = 0
total (len ∷ lens) = len + total lens

pub length-flat_total : (pkt : List (List ℕ)) → length (flat pkt) ≡ total (lengths pkt)
unfolding flat
length-flat_total [] = refl
length-flat_total (seg ∷ pkt) = omega (arith, length-append seg (flat pkt), length-flat_total pkt)

-- The loop returns, the packets are frames, and they are all that were asked for or all that the
-- buffers allow.
pub record MakesFrames (h : HeaderBytes) (lens : List ℕ) (n buffers : ℕ)
    (run : Outcome (List (List (List ℕ)))) : Type 0 where
  pub pkts : List (List (List ℕ))
  pub returns : run ≡ ok pkts
  pub frames : AreFrames h lens pkts
  pub within : length pkts * length lens ≤ buffers
  pub most : (length pkts ≡ n) ⊎ ((length pkts < n) × (buffers < suc (length pkts) * length lens))

mul_suc : (m k : ℕ) → suc m * k ≡ k + m * k
mul_suc m k = omega arith

most_step :
    (m n k before after : ℕ)
    → after + k ≡ before
    → (m ≡ n) ⊎ ((m < n) × (after < suc m * k))
    → (suc m ≡ suc n) ⊎ ((suc m < suc n) × (before < suc (suc m) * k))
most_step m n k before after e (inl same) = inl (ap suc same)
most_step m n k before after e (inr (few, short)) =
    inr (omega (arith, few), omega (arith, e, short, mul_suc (suc m) k))

module _ (h : HeaderBytes) (z : HasSizes h) (lens : List ℕ) where
  next-MakesFrames :
      (n before after : ℕ) (a : Option (List (List ℕ))) (rest : Outcome (List (List (List ℕ))))
      → 42 ≤ total lens
      → Allocated lens before after a
      → MakesFrames h lens n after rest
      → MakesFrames h lens (suc n) before (
          fill h a >>= λ filled. elim filled [
            | none ↦ ok []
            | some pkt ↦ rest >>= λ pkts. ok (pkt ∷ pkts)
          ])
  unfolding fill
  next-MakesFrames n before after none rest room k m = record {
    pkts = [];
    returns = refl;
    frames = tt;
    within = omega arith;
    most = inr (omega arith, omega (arith, k));
  }
  next-MakesFrames n before after (some pkt) rest room (same, taken) m =
      let total_same = ap total same in
      let (pkt', made, frame) =
        copy_headers-IsFrame h z pkt (omega (arith, room, length-flat_total pkt, total_same)) in
      let returned = m.returns in
      let product = mul_suc (length m.pkts) (length lens) in
      let inside = m.within in
      record {
        pkts = pkt' ∷ m.pkts;
        returns = rw (made, returned) refl;
        frames = ((frame.0 ∙ same, frame.1), m.frames);
        within = omega (arith, inside, taken, product);
        most = most_step (length m.pkts) n (length lens) before after taken m.most;
      }

  -- Let the three headers have 14, 20 and 8 bytes, the number of segments not be random, the
  -- lengths of the segments be at least 42 together, and each buffer of the pool have room for a
  -- segment of each of these lengths. Then the loop of pkt_burst_transmit over the packets
  -- returns; it makes as many packets as it is asked for, or, where the buffers before the first
  -- failed allocation are too few, as many as they allow; and each packet is in segments of these
  -- lengths and begins with the Ethernet header, the IP header and the UDP header, however the
  -- segments divide them.
  pub make_packets-MakesFrames :
      (random : ℕ → ℕ) (k n : ℕ) (pool : Allocations)
      → 42 ≤ total lens
      → IsRoomy lens pool
      → MakesFrames h lens n (available pool) (make_packets h false random lens k n pool)
  unfolding make_packets packet_lengths
  make_packets-MakesFrames random k zero pool room r = record {
    pkts = [];
    returns = refl;
    frames = tt;
    within = omega arith;
    most = inl refl;
  }
  make_packets-MakesFrames random k (suc n) pool room r =
      let left = (alloc_segs lens pool).1 in
      next-MakesFrames n (available pool) (available left) (alloc_segs lens pool).0
        (make_packets h false random lens (k + 1) n left) room (alloc_segs-Allocated lens pool r)
        (make_packets-MakesFrames random (k + 1) n left room (alloc_segs-IsRoomy lens lens pool r))
