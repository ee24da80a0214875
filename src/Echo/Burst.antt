-- ===== src/Echo/Burst.antt =====
-- The loop over a burst of packets.
use platform.Common.{
  ℕ, zero, suc, ◌+◌, ◌%◌, ◌^◌, ◌≤◌, ◌<◌, ◌≡◌, ◌≢◌, ◌⊎◌, refl, sym, ◌∙◌, ap, arith, inl, inr,
}
use platform.Common.{
  List, [], ◌∷◌, ◌++◌, append_assoc, append_nil, Option, none, some, Outcome, ok, exited, fault,
  load-ok, store-ok, update, lt→ltb, ge→ltb, eq→==, ne→==,
}
use native.Mathlib.Nat.{mod-eq_of_lt, mod-lt}
use platform.Echo.{Frame, Replies, reply, keep, echo_packet, echo_loop}

-- The frames at `n` places from `i` on.
pub frames : ℕ → ℕ → (ℕ → Frame) → List Frame
frames zero i a = []
frames (suc n) i a = a i ∷ frames n (i + 1) a

-- An answer, if there is one, before others; and a frame, if it has no answer.
with_answer : Option Frame → List Frame → List Frame
with_answer none fs = fs
with_answer (some g) fs = g ∷ fs

without_answer : Frame → Option Frame → List Frame → List Frame
without_answer f none fs = f ∷ fs
without_answer f (some g) fs = fs

-- The answers to a list of frames, in their order.
pub answers : ℕ → List Frame → List Frame
answers eth_addr [] = []
answers eth_addr (f ∷ fs) = with_answer (reply eth_addr f) (answers eth_addr fs)

-- The frames that are not answered.
pub unanswered : ℕ → List Frame → List Frame
unanswered eth_addr [] = []
unanswered eth_addr (f ∷ fs) = without_answer f (reply eth_addr f) (unanswered eth_addr fs)

-- A cell that is written does not show in the frames behind it.
frames-update :
    (n i k : ℕ) (a : ℕ → Frame) (v : Frame) → k < i → frames n i (update a k v) ≡ frames n i a
unfolding frames
frames-update zero i k a v lt = refl
frames-update (suc n) i k a v lt =
    rw (ne→== i k (λ e. absurd (omega (arith, e))), frames-update n (i + 1) k a v (omega arith))
      refl

-- A cell that is written behind the frames is one more of them.
frames-next :
    (n i : ℕ) (a : ℕ → Frame) (v : Frame)
    → frames (n + 1) i (update a (i + n) v) ≡ frames n i a ++ v ∷ []
unfolding frames
frames-next zero i a v = let z : i + 0 ≡ i = omega arith in rw (z, eq→== i i refl) refl
frames-next (suc n) i a v =
    let z : i + suc n ≡ i + 1 + n = omega arith in
    let other : i ≢ i + 1 + n = λ e. absurd (omega (arith, e)) in
    let w : suc n + 1 ≡ suc (n + 1) = omega arith in
    rw (w, z, ne→== i (i + 1 + n) other, frames-next n (i + 1) a v) refl

-- One packet of the burst, whose answers are at places before it.
echo_packet-keeps :
    (size eth_addr i : ℕ) (s : Replies)
    → i < size
    → i < 2 ^ 8
    → s.nb_replies ≤ i
    → (t : Replies) × (echo_packet size eth_addr i s ≡ ok t)
      × (t.nb_replies ≤ i + 1)
      × (frames t.nb_replies 0 t.pkts_burst
          ≡ frames s.nb_replies 0 s.pkts_burst ++ with_answer (reply eth_addr (s.pkts_burst i)) [])
      × (t.freed ≡ s.freed ++ without_answer (s.pkts_burst i) (reply eth_addr (s.pkts_burst i)) [])
      × ((n : ℕ) → frames n (i + 1) t.pkts_burst ≡ frames n (i + 1) s.pkts_burst)
unfolding echo_packet keep with_answer without_answer
echo_packet-keeps size eth_addr i s lt byte le =
    let (t, run, le', sent, freed, same) =
      kept size i s (s.pkts_burst i) (reply eth_addr (s.pkts_burst i)) lt byte le in
    (t, rw (load-ok size s.pkts_burst i lt) run, le', sent, freed, same)
  where
    kept :
        (size i : ℕ) (s : Replies) (pkt : Frame) (answer : Option Frame)
        → i < size
        → i < 2 ^ 8
        → s.nb_replies ≤ i
        → (t : Replies) × (keep size pkt answer s ≡ ok t)
          × (t.nb_replies ≤ i + 1)
          × (frames t.nb_replies 0 t.pkts_burst
              ≡ frames s.nb_replies 0 s.pkts_burst ++ with_answer answer [])
          × (t.freed ≡ s.freed ++ without_answer pkt answer [])
          × ((n : ℕ) → frames n (i + 1) t.pkts_burst ≡ frames n (i + 1) s.pkts_burst)
    kept size i s pkt none lt byte le = (
      record s { freed = s.freed ++ pkt ∷ [] },
      refl,
      omega arith,
      sym (append_nil (frames s.nb_replies 0 s.pkts_burst)),
      refl,
      (λ n. refl),
    )
    kept size i s pkt (some g) lt byte le =
        let k = s.nb_replies in
        let count : (k + 1) % 2 ^ 16 ≡ k + 1 = mod-eq_of_lt (omega arith) in
        let z : 0 + k ≡ k = omega arith in
        (
          record s { pkts_burst = update s.pkts_burst k g; nb_replies = k + 1 },
          rw (store-ok size s.pkts_burst k g (omega arith), count) refl,
          omega arith,
          rw z at (frames-next k 0 s.pkts_burst g),
          sym (append_nil s.freed),
          (λ n. frames-update n (i + 1) k s.pkts_burst g (omega arith)),
        )

with_answer-append :
    (x : Option Frame) (fs : List Frame) → with_answer x [] ++ fs ≡ with_answer x fs
unfolding with_answer
with_answer-append none fs = refl
with_answer-append (some g) fs = refl

without_answer-append :
    (f : Frame) (x : Option Frame) (fs : List Frame)
    → without_answer f x [] ++ fs ≡ without_answer f x fs
unfolding without_answer
without_answer-append f none fs = refl
without_answer-append f (some g) fs = refl

loop-step :
    (n size eth_addr nb_rx i : ℕ) (s t : Replies)
    → i < nb_rx
    → echo_packet size eth_addr i s ≡ ok t
    → (i + 1) % 2 ^ 8 ≡ i + 1
    → echo_loop (suc n) size eth_addr nb_rx i s ≡ echo_loop n size eth_addr nb_rx (i + 1) t
unfolding echo_loop
loop-step n size eth_addr nb_rx i s t lt one next = rw (lt→ltb i nb_rx lt, one, next) refl

loop-answers :
    (n size eth_addr nb_rx i : ℕ) (s : Replies)
    → i + n ≡ nb_rx
    → nb_rx < 2 ^ 8
    → nb_rx ≤ size
    → s.nb_replies ≤ i
    → (r : Replies) × (echo_loop n size eth_addr nb_rx i s ≡ ok (some r))
      × (frames r.nb_replies 0 r.pkts_burst
          ≡ frames s.nb_replies 0 s.pkts_burst ++ answers eth_addr (frames n i s.pkts_burst))
      × (r.freed ≡ s.freed ++ unanswered eth_addr (frames n i s.pkts_burst))
unfolding echo_loop frames answers unanswered
loop-answers zero size eth_addr nb_rx i s e byte room le = (
  s,
  rw (ge→ltb i nb_rx (omega (arith, e))) refl,
  sym (append_nil (frames s.nb_replies 0 s.pkts_burst)),
  sym (append_nil s.freed),
)
loop-answers (suc n) size eth_addr nb_rx i s e byte room le =
    let lt : i < nb_rx = omega (arith, e) in
    let x = reply eth_addr (s.pkts_burst i) in
    let next : (i + 1) % 2 ^ 8 ≡ i + 1 = mod-eq_of_lt (omega arith) in
    let (t, one, le', sent, freed, same) =
      echo_packet-keeps size eth_addr i s (omega (arith, lt)) (omega (arith, lt)) le in
    let (r, run, sent', freed') =
      loop-answers n size eth_addr nb_rx (i + 1) t (omega (arith, e)) byte room le' in
    let behind = frames n (i + 1) s.pkts_burst in
    (
      r,
      loop-step n size eth_addr nb_rx i s t lt one next ∙ run,
      (sent'
          ∙ rw (sent, same n)
              (append_assoc (frames s.nb_replies 0 s.pkts_burst) (with_answer x [])
                  (answers eth_addr behind)
                ∙ ap (λ fs. frames s.nb_replies 0 s.pkts_burst ++ fs)
                    (with_answer-append x (answers eth_addr behind)))),
      (freed'
          ∙ rw (freed, same n)
              (append_assoc s.freed (without_answer (s.pkts_burst i) x [])
                  (unanswered eth_addr behind)
                ∙ ap (λ fs. s.freed ++ fs)
                    (without_answer-append (s.pkts_burst i) x (unanswered eth_addr behind)))),
    )

-- For a burst of fewer than 256 packets, not more than the array holds, the loop of
-- reply_to_icmp_echo_rqsts ends in as many rounds as there are packets: at the front of the array
-- are then the answers to the packets in their order, and just the packets without an answer were
-- freed, in their order.
pub burst_answered :
    (size eth_addr nb_rx : ℕ) (pkts : ℕ → Frame)
    → nb_rx < 2 ^ 8
    → nb_rx ≤ size
    → (r : Replies) × (echo_loop nb_rx size eth_addr nb_rx 0
          (record { pkts_burst = pkts; nb_replies = 0; freed = [] })
        ≡ ok (some r))
      × (frames r.nb_replies 0 r.pkts_burst ≡ answers eth_addr (frames nb_rx 0 pkts))
      × (r.freed ≡ unanswered eth_addr (frames nb_rx 0 pkts))
unfolding frames
burst_answered size eth_addr nb_rx pkts byte room =
    loop-answers nb_rx size eth_addr nb_rx 0
      (record { pkts_burst = pkts; nb_replies = 0; freed = [] }) (omega arith) byte room
      (omega arith)

Outcome-cases : (x : Outcome Replies) → ((t : Replies) × (x ≡ ok t)) ⊎ (x ≡ exited) ⊎ (x ≡ fault)
Outcome-cases (ok t) = inl (t, refl)
Outcome-cases exited = inr (inl refl)
Outcome-cases fault = inr (inr refl)

-- For a burst of 256 packets or more, the loop of reply_to_icmp_echo_rqsts does not end with a
-- result in any number of rounds.
pub long_burst_never_ends :
    (fuel size eth_addr nb_rx i : ℕ) (s r : Replies)
    → 2 ^ 8 ≤ nb_rx
    → i < 2 ^ 8
    → echo_loop fuel size eth_addr nb_rx i s ≢ ok (some r)
unfolding echo_loop
long_burst_never_ends zero size eth_addr nb_rx i s r long byte e =
    let bad = rw (lt→ltb i nb_rx (omega arith)) at e in absurd (cc)
long_burst_never_ends (suc fuel) size eth_addr nb_rx i s r long byte e =
    let e1 = rw (lt→ltb i nb_rx (omega arith)) at e in
    elim (Outcome-cases (echo_packet size eth_addr i s)) [
      | inl (t, went) ↦
          long_burst_never_ends fuel size eth_addr nb_rx ((i + 1) % 2 ^ 8) t r long
            (mod-lt (i + 1) (omega arith)) (rw went at e1)
      | inr (inl out) ↦ let bad = rw out at e1 in absurd (cc)
      | inr (inr out) ↦ let bad = rw out at e1 in absurd (cc)
    ]
