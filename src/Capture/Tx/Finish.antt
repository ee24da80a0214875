-- ===== src/Capture/Tx/Finish.antt =====
-- When the sending thread returns.
use native.Mathlib.Nat.{mod-eq_of_lt}
use platform.Common.{
  ℕ, zero, suc, ◌+◌, ◌-◌, ◌%◌, ◌^◌, ◌≤◌, ◌<◌, ◌≡◌, refl, ◌∙◌, ap, inl, inr, arith,
}
use platform.Common.{
  List, [], ◌∷◌, some, length, take, drop, length-append, length-drop, length-take_all,
}
use platform.Common.{ltb, eq→==, ne→==, ge→ltb, Bool-cases, eq-cases, true, false, length-take_le}
use platform.Capture.Ring.{RteRing}
use platform.Capture.Tx.{TxState, piece, offer, offers, master_tx}
use platform.Capture.Tx.Runs.{piece-le, TxRun, offered, stop, move, held, weigh, sent_or_queued}

piece-pos : (nb_mbuf nb : ℕ) → nb < nb_mbuf → nb_mbuf < 2 ^ 16 → 0 < piece nb_mbuf nb
unfolding piece
piece-pos nb_mbuf nb h small = ground arith

module _ {Pkt : Type 0} (rte : RteRing Pkt) where
  open rte use {Ring, contents, size, free_count, enqueue_burst, dequeue_burst}

  module _ (bufs : List Pkt) (nb_mbuf : ℕ) (small : nb_mbuf < 2 ^ 16)
      (whole_buffer : length bufs ≡ nb_mbuf) where
    -- What a ring gains, at most, by an offer, in terms of the packets distributed.
    record Gain (k : ℕ) (s s' : TxState rte) : Type 0 where
      same_size : size (s'.rings k) ≡ size (s.rings k)
      at_most :
          length (contents (s'.rings k)) + s.nb_distributed
          ≤ length (contents (s.rings k)) + s'.nb_distributed
      onward : s.nb_distributed ≤ s'.nb_distributed
      within : s'.nb_distributed ≤ nb_mbuf

    -- Ring `k` can take the rest of the buffer.
    abbrev Room : ℕ → TxState rte → Type 0
    Room k s = length (contents (s.rings k)) + (nb_mbuf - s.nb_distributed) ≤ size (s.rings k)

    offer-Gain :
        (i k : ℕ) (s : TxState rte)
        → s.nb_distributed ≤ nb_mbuf
        → Gain k s (offer rte bufs nb_mbuf i s)
    unfolding offer
    offer-Gain i k s le =
        let nb = s.nb_distributed in
        let send = piece nb_mbuf nb in
        let ring = s.rings i in
        let ps = take send (drop nb bufs) in
        let sent = (enqueue_burst ring ps).1 in
        elim (Bool-cases (ltb (free_count ring) send)) [
          | inl e ↦ rw e (record {
            same_size = refl;
            at_most = omega arith;
            onward = omega arith;
            within = le;
          })
          | inr e ↦
              let few : sent ≤ send =
                omega (arith, rte.enqueue_burst-sent ring ps, length-take_le send (drop nb bufs)) in
              let inside = piece-le nb_mbuf nb le small in
              let exact : (nb + sent) % 2 ^ 16 ≡ nb + sent = mod-eq_of_lt (omega arith) in
              let grown : length (contents (enqueue_burst ring ps).0)
                  ≤ length (contents ring) + sent =
                rw
                  (rte.enqueue_burst-contents ring ps, length-append (contents ring) (take sent ps))
                  (omega (arith, length-take_le sent ps)) in
              elim (eq-cases k i) [
                | inl x ↦
                    rw (e, exact)
                      (record {
                        same_size = rw (eq→== k i x, x) (rte.size-enqueue_burst ring ps);
                        at_most = rw (eq→== k i x, x) (omega (arith, grown));
                        onward = omega arith;
                        within = omega arith;
                      })
                | inr ne ↦
                    rw (e, exact)
                      (record {
                        same_size = rw (ne→== k i ne) refl;
                        at_most = rw (ne→== k i ne) (omega arith);
                        onward = omega arith;
                        within = omega arith;
                      })
              ]
        ]

    offer-moves :
        (i : ℕ) (s : TxState rte)
        → s.nb_distributed < nb_mbuf
        → Room i s
        → s.nb_distributed < (offer rte bufs nb_mbuf i s).nb_distributed
    unfolding offer
    offer-moves i s lt room =
        let nb = s.nb_distributed in
        let send = piece nb_mbuf nb in
        let ring = s.rings i in
        let ps = take send (drop nb bufs) in
        let sent = (enqueue_burst ring ps).1 in
        let inside = piece-le nb_mbuf nb (omega arith) small in
        let some_send = piece-pos nb_mbuf nb lt small in
        let free = rte.free_count_lem ring in
        let has_room : ltb (free_count ring) send ≡ false =
          ge→ltb (free_count ring) send (omega (arith, free)) in
        let rest = length-drop nb bufs (omega arith) in
        let asked : length ps ≡ send = length-take_all send (drop nb bufs) (omega (arith, rest)) in
        let all_sent : sent ≡ send = omega (arith, rte.enqueue_burst-sent ring ps, asked) in
        let exact : (nb + sent) % 2 ^ 16 ≡ nb + sent = mod-eq_of_lt (omega arith) in
        rw (has_room, exact) (omega arith)

    offers-Gain :
        (n i k : ℕ) (s : TxState rte)
        → s.nb_distributed ≤ nb_mbuf
        → Gain k s (offers rte bufs nb_mbuf n i s)
    unfolding offers
    offers-Gain zero i k s le = record {
      same_size = refl;
      at_most = omega arith;
      onward = omega arith;
      within = le;
    }
    offers-Gain (suc n) i k s le =
        let a = offer-Gain i k s le in
        let b = offers-Gain n (i + 1) k (offer rte bufs nb_mbuf i s) a.within in
        let p = a.at_most in
        let q = b.at_most in
        let u = a.onward in
        let v = b.onward in
        record {
          same_size = b.same_size ∙ a.same_size;
          at_most = omega (arith, p, q);
          onward = omega (arith, u, v);
          within = b.within;
        }

    Gain-Room : (k : ℕ) (s s' : TxState rte) → Gain k s s' → Room k s → Room k s'
    Gain-Room k s s' g room =
        let e = g.same_size in
        let p = g.at_most in let u = g.onward in let v = g.within in omega (arith, e, p, u, v)

    -- A pass over the rings gets on where one of them has room.
    offers-moves :
        (n i k : ℕ) (s : TxState rte)
        → i ≤ k
        → k < i + n
        → s.nb_distributed < nb_mbuf
        → Room k s
        → s.nb_distributed < (offers rte bufs nb_mbuf n i s).nb_distributed
    unfolding offers
    offers-moves zero i k s le lt left room = absurd (omega arith)
    offers-moves (suc n) i k s le lt left room =
        let s' = offer rte bufs nb_mbuf i s in
        let a = offer-Gain i k s (omega arith) in
        let b = offers-Gain n (i + 1) k s' a.within in
        let u = a.onward in
        let v = b.onward in
        elim (eq-cases i k) [
          | inl e ↦ let m = offer-moves i s left (rw e room) in omega (arith, m, v)
          | inr ne ↦ elim (Bool-cases (ltb s'.nb_distributed nb_mbuf)) [
            | inl more ↦
                let m =
                  offers-moves n (i + 1) k s' (omega (arith, ne)) (omega arith)
                    (ground (arith, more)) (Gain-Room k s s' a room) in
                omega (arith, u, m)
            | inr done ↦
                let d : nb_mbuf ≤ s'.nb_distributed = ground (arith, done) in omega (arith, d, v)
          ]
        ]

    offers-run :
        (ring_num queue_num n i : ℕ) (s s' : TxState rte)
        → i + n ≤ ring_num
        → TxRun rte bufs nb_mbuf ring_num queue_num (offers rte bufs nb_mbuf n i s) s'
        → TxRun rte bufs nb_mbuf ring_num queue_num s s'
    unfolding offers
    offers-run ring_num queue_num zero i s s' le run = run
    offers-run ring_num queue_num (suc n) i s s' le run =
        move (offered i (omega arith)) (
          offers-run ring_num queue_num n (i + 1) (offer rte bufs nb_mbuf i s) s' (omega arith) run)

    master_tx-more :
        (fuel ring_num : ℕ) (s : TxState rte)
        → ring_num < 2 ^ 8
        → ltb s.nb_distributed nb_mbuf ≡ true
        → master_tx rte (suc fuel) bufs nb_mbuf ring_num s
          ≡ master_tx rte fuel bufs nb_mbuf ring_num (offers rte bufs nb_mbuf ring_num 0 s)
    unfolding master_tx
    master_tx-more fuel ring_num s byte more =
        let cut : ring_num % 2 ^ 8 ≡ ring_num = mod-eq_of_lt (omega arith) in rw (cut, more) refl

    finishes :
        (fuel ring_num queue_num k : ℕ) (s : TxState rte)
        → ring_num < 2 ^ 8
        → k < ring_num
        → s.nb_distributed ≤ nb_mbuf
        → Room k s
        → nb_mbuf - s.nb_distributed < fuel
        → (s' : TxState rte) × (master_tx rte fuel bufs nb_mbuf ring_num s ≡ some s')
          × (s'.nb_distributed ≡ nb_mbuf)
          × TxRun rte bufs nb_mbuf ring_num queue_num s s'
    unfolding master_tx
    finishes zero ring_num queue_num k s byte lt le room enough = absurd (omega arith)
    finishes (suc fuel) ring_num queue_num k s byte lt le room enough =
        let nb = s.nb_distributed in
        let s1 = offers rte bufs nb_mbuf ring_num 0 s in
        let g = offers-Gain ring_num 0 k s le in
        elim (Bool-cases (ltb nb nb_mbuf)) [
          | inl more ↦
              let left : nb < nb_mbuf = ground (arith, more) in
              let m = offers-moves ring_num 0 k s (omega arith) (omega arith) left room in
              let (s', e, d, run) =
                finishes fuel ring_num queue_num k s1 byte lt g.within (Gain-Room k s s1 g room)
                  (omega (arith, m)) in
              (
                s',
                master_tx-more fuel ring_num s byte more ∙ e,
                d,
                offers-run ring_num queue_num ring_num 0 s s' (omega arith) run,
              )
          | inr done ↦ (s, (rw done refl), ground (arith, done), stop)
        ]

  take-whole : (xs : List Pkt) → take (length xs) xs ≡ xs
  take-whole [] = refl
  take-whole (x ∷ xs) = ap (λ l. x ∷ l) (take-whole xs)

  -- With fewer than 65536 packets and 256 rings, one of which has room for all of them,
  -- dpdk_masterTx_a returns after at most one pass more than there are packets even while the
  -- sending core rests; all packets are then distributed, and for every measure the rings hold
  -- what they held and the packets.
  pub buffer_distributed :
      (bufs : List Pkt) (ring_num k : ℕ) (s : TxState rte)
      → length bufs < 2 ^ 16
      → ring_num < 2 ^ 8
      → k < ring_num
      → s.nb_distributed ≡ 0
      → length (contents (s.rings k)) + length bufs ≤ size (s.rings k)
      → (s' : TxState rte) × (master_tx rte (length bufs + 1) bufs (length bufs) ring_num s
          ≡ some s')
        × (s'.nb_distributed ≡ length bufs)
        × ((f : Pkt → ℕ)
            → held rte bufs (length bufs) ring_num 0 f s'
              ≡ held rte bufs (length bufs) ring_num 0 f s + weigh f bufs)
  buffer_distributed bufs ring_num k s small byte lt start room =
      let (s', e, d, run) =
        finishes bufs (length bufs) small refl (length bufs + 1) ring_num 0 k s byte lt
          (omega arith) (omega arith) (omega arith) in
      (
        s',
        e,
        d,
        λ f.
            (sent_or_queued rte bufs (length bufs) ring_num 0 f s s' small start run).1
            ∙ ap (λ l. held rte bufs (length bufs) ring_num 0 f s + weigh f l)
                (ap (λ n. take n bufs) d ∙ take-whole bufs),
      )
