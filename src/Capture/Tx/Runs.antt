-- ===== src/Capture/Tx/Runs.antt =====
-- The sending thread and the sending core in any order: what they do to the packets of a port.
use platform.Common.{
  ℕ, zero, suc, ◌+◌, ◌%◌, ◌^◌, ◌≤◌, ◌<◌, ◌≡◌, refl, ◌∙◌, sym, ap, ◌⊎◌, inl, inr, arith,
}
use platform.Common.{
  List, [], ◌∷◌, ◌++◌, Option, none, some, length, take, drop, append_assoc, take_append_drop,
  take-take, length-take_le,
}
use platform.Common.{ltb, ◌==◌, sum_to, sum_to-update_of, Bool-cases, false}
use mathlib.Core.Path.{subst}
use native.Mathlib.Nat.{mod-eq_of_lt}
use platform.Device.{burst_size}
use platform.Capture.Ring.{RteRing}
use platform.Capture.Tx.{TxState, transmit, piece, offer, visit}

-- The sum of a measure over packets: equal for every measure, two lists hold the same packets.
unfoldable pub weigh : {Pkt : Type 0} → (Pkt → ℕ) → List Pkt → ℕ
weigh f [] = 0
weigh f (p ∷ ps) = f p + weigh f ps

weigh-append :
    {Pkt : Type 0} (f : Pkt → ℕ) (xs ys : List Pkt) → weigh f (xs ++ ys) ≡ weigh f xs + weigh f ys
unfolding weigh
weigh-append f [] ys = omega arith
weigh-append f (x ∷ xs) ys = omega (arith, weigh-append f xs ys)

-- Cutting a list at `a`, then the rest at `b`.
weigh-cut :
    {Pkt : Type 0} (f : Pkt → ℕ) (a b : ℕ) (xs : List Pkt)
    → weigh f (take a xs) + weigh f (take b (drop a xs)) ≡ weigh f (take (a + b) xs)
unfolding weigh
weigh-cut f zero b xs = let e : 0 + b ≡ b = omega arith in rw e (omega arith)
weigh-cut f (suc a) zero [] = let e : suc a + 0 ≡ suc a = omega arith in rw e (omega arith)
weigh-cut f (suc a) (suc b) [] =
    let e : suc a + suc b ≡ suc (a + suc b) = omega arith in rw e (omega arith)
weigh-cut f (suc a) b (x ∷ xs) =
    let e : suc a + b ≡ suc (a + b) = omega arith in rw e (omega (arith, weigh-cut f a b xs))

transmit_all :
    {Pkt : Type 0} (answers : List ℕ) (bufs : List Pkt)
    → (transmit answers bufs).0 ++ (transmit answers bufs).1 ≡ bufs
unfolding transmit
transmit_all [] bufs = refl
transmit_all (v ∷ answers) bufs =
    append_assoc (take v bufs) (transmit answers (drop v bufs)).0 (transmit answers (drop v bufs)).1
    ∙ ap (λ l. take v bufs ++ l) (transmit_all answers (drop v bufs))
    ∙ take_append_drop v bufs

pub piece-le : (nb_mbuf nb : ℕ) → nb ≤ nb_mbuf → nb_mbuf < 2 ^ 16 → nb + piece nb_mbuf nb ≤ nb_mbuf
unfolding piece
piece-le nb_mbuf nb h small = ground arith

-- A property of the result where there is one.
abbrev IfSome : {A : Type 0} → (A → Type 0) → Option A → Type 0
IfSome P none = Unit {0}
IfSome P (some a) = P a

length-zero : {A : Type 0} (xs : List A) → (xs ≡ []) ⊎ ((length xs == 0) ≡ false)
length-zero [] = inl refl
length-zero (x ∷ xs) = inr (ground arith)

module _ {Pkt : Type 0} (rte : RteRing Pkt) (bufs : List Pkt) (nb_mbuf ring_num queue_num : ℕ) where
  open rte use {Ring, contents, free_count, enqueue_burst, dequeue_burst}

  -- One move of the thread or of the core, at any ring and queue of the port.
  pub data TxStep : TxState rte → TxState rte → Type 0 where
    offered : {s : TxState rte} (i : ℕ) → i < ring_num → TxStep s (offer rte bufs nb_mbuf i s)
    visited :
        {s s' : TxState rte} (answers : List ℕ) (ring queue : ℕ)
        → ring < ring_num
        → queue < queue_num
        → visit rte answers ring queue s ≡ some s'
        → TxStep s s'

  pub data TxRun : TxState rte → TxState rte → Type 0 where
    stop : {s : TxState rte} → TxRun s s
    move : {s s' s'' : TxState rte} → TxStep s s' → TxRun s' s'' → TxRun s s''

  -- The measure of what is in the rings and on the wire.
  abbrev pub held : (Pkt → ℕ) → TxState rte → ℕ
  held f s =
      sum_to ring_num (λ j. weigh f (contents (s.rings j)))
      + sum_to queue_num (λ q. weigh f (s.wire q))

  pub record Kept (f : Pkt → ℕ) (s s' : TxState rte) : Type 0 where
    pub forward : s.nb_distributed ≤ s'.nb_distributed
    pub bounded : s'.nb_distributed ≤ nb_mbuf
    pub balance :
        held f s' + weigh f (take s.nb_distributed bufs)
        ≡ held f s + weigh f (take s'.nb_distributed bufs)

  module _ (f : Pkt → ℕ) (small : nb_mbuf < 2 ^ 16) where
    pub offer-Kept :
        (s : TxState rte) (i : ℕ)
        → i < ring_num
        → s.nb_distributed ≤ nb_mbuf
        → Kept f s (offer rte bufs nb_mbuf i s)
    unfolding offer
    offer-Kept s i lt le =
        let nb = s.nb_distributed in
        let send = piece nb_mbuf nb in
        let ring = s.rings i in
        let ps = take send (drop nb bufs) in
        let sent = (enqueue_burst ring ps).1 in
        elim (Bool-cases (ltb (free_count ring) send)) [
          | inl e ↦ rw e (record { forward = omega arith; bounded = le; balance = omega arith })
          | inr e ↦
              let few : sent ≤ send =
                omega (arith, rte.enqueue_burst-sent ring ps, length-take_le send (drop nb bufs)) in
              let within = piece-le nb_mbuf nb le small in
              let exact : (nb + sent) % 2 ^ 16 ≡ nb + sent = mod-eq_of_lt (omega arith) in
              let grown : weigh f (contents (enqueue_burst ring ps).0)
                  ≡ weigh f (contents ring) + weigh f (take sent (drop nb bufs)) =
                ap (weigh f) (rte.enqueue_burst-contents ring ps)
                ∙ weigh-append f (contents ring) (take sent ps)
                ∙ ap (λ l. weigh f (contents ring) + weigh f l)
                    (take-take sent send (drop nb bufs) few) in
              rw (e, exact)
                (record {
                  forward = omega arith;
                  bounded = omega arith;
                  balance = omega (
                    arith,
                    grown,
                    weigh-cut f nb sent bufs,
                    sum_to-update_of (λ r. weigh f (contents r)) ring_num s.rings i
                        (enqueue_burst ring ps).0 lt,
                  );
                })
        ]

    visited-Kept :
        (s : TxState rte) (answers : List ℕ) (ring queue : ℕ)
        → ring < ring_num
        → queue < queue_num
        → s.nb_distributed ≤ nb_mbuf
        → IfSome (Kept f s) (visit rte answers ring queue s)
    unfolding visit weigh
    visited-Kept s answers ring queue lt lt' le =
        let stays : Kept f s s = record {
          forward = omega arith;
          bounded = le;
          balance = omega arith;
        } in
        let r = s.rings ring in
        let r' = (dequeue_burst r burst_size).0 in
        let ps = (dequeue_burst r burst_size).1 in
        let sent = (transmit answers ps).0 in
        elim (Bool-cases (length (contents (s.rings queue)) == 0)) [
          | inl e ↦ rw e stays
          | inr e ↦ elim (Bool-cases (length ps == 0)) [
            | inl e' ↦ rw (e, e') stays
            | inr e' ↦ elim (length-zero (transmit answers ps).1) [
              | inl none_left ↦
                  let all_sent = transmit_all answers ps in
                  let l : weigh f sent + weigh f (transmit answers ps).1 ≡ weigh f ps =
                    sym (weigh-append f sent (transmit answers ps).1) ∙ ap (weigh f) all_sent in
                  let l0 : weigh f (transmit answers ps).1 ≡ 0 = ap (weigh f) none_left in
                  let m : weigh f (contents r) ≡ weigh f ps + weigh f (contents r') =
                    ap (weigh f) (rte.dequeue_burst-contents r burst_size)
                    ∙ weigh-append f ps (contents r') in
                  rw (e, e', ap length none_left)
                    (record {
                      forward = omega arith;
                      bounded = le;
                      balance = omega (
                        arith,
                        l,
                        l0,
                        m,
                        weigh-append f (s.wire queue) sent,
                        sum_to-update_of (λ r. weigh f (contents r)) ring_num s.rings ring r' lt,
                        sum_to-update_of (weigh f) queue_num s.wire queue (s.wire queue ++ sent)
                            lt',
                      );
                    })
              | inr left ↦ rw (e, e', left) tt
            ]
          ]
        ]

    visit-Kept :
        (s s' : TxState rte) (answers : List ℕ) (ring queue : ℕ)
        → ring < ring_num
        → queue < queue_num
        → s.nb_distributed ≤ nb_mbuf
        → visit rte answers ring queue s ≡ some s'
        → Kept f s s'
    visit-Kept s s' answers ring queue lt lt' le e =
        subst (IfSome (Kept f s)) e (visited-Kept s answers ring queue lt lt' le)

    step-Kept : {s s' : TxState rte} → TxStep s s' → s.nb_distributed ≤ nb_mbuf → Kept f s s'
    step-Kept {s} (offered i lt) le = offer-Kept s i lt le
    step-Kept {s} {s'} (visited answers ring queue lt lt' e) le =
        visit-Kept s s' answers ring queue lt lt' le e

    run-Kept : {s s' : TxState rte} → TxRun s s' → s.nb_distributed ≤ nb_mbuf → Kept f s s'
    run-Kept stop le = record { forward = omega arith; bounded = le; balance = omega arith }
    run-Kept (move x run) le =
        let a = step-Kept x le in
        let b = run-Kept run a.bounded in
        record {
          forward = let p = a.forward in let q = b.forward in omega (arith, p, q);
          bounded = b.bounded;
          balance = let p = a.balance in let q = b.balance in omega (arith, p, q);
        }

  -- From the start of dpdk_masterTx_a on, with fewer than 65536 packets and in any order of its
  -- moves and those of slaveCoreTx, at most nb_mbuf packets are distributed, and for every
  -- measure of packets the rings and the wire together hold what they held and the first
  -- nb_distributed packets of the buffer.
  pub sent_or_queued :
      (f : Pkt → ℕ) (s s' : TxState rte)
      → nb_mbuf < 2 ^ 16
      → s.nb_distributed ≡ 0
      → TxRun s s'
      → (s'.nb_distributed ≤ nb_mbuf)
        × (held f s' ≡ held f s + weigh f (take s'.nb_distributed bufs))
  unfolding weigh
  sent_or_queued f s s' small start run =
      let k = run-Kept f small run (omega (arith, start)) in
      (
        k.bounded,
        let b = k.balance in
            let z : weigh f (take s.nb_distributed bufs) ≡ 0 = rw start refl in omega (arith, b, z),
      )
