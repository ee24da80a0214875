-- ===== src/Capture/Tx/Idle.antt =====
-- When the sending core does nothing.
use platform.Common.{ℕ, zero, suc, ◌+◌, ◌<◌, ◌≡◌, refl, ap, arith}
use platform.Common.{List, [], some, length}
use platform.Capture.Ring.{RteRing}
use platform.Capture.Tx.{TxState, visit, visit_queues, tx_round}

module _ {Pkt : Type 0} (rte : RteRing Pkt) where
  open rte use {Ring, contents}

  visit-idle :
      (answers : List ℕ) (ring queue : ℕ) (s : TxState rte)
      → contents (s.rings queue) ≡ []
      → visit rte answers ring queue s ≡ some s
  unfolding visit
  visit-idle answers ring queue s e = rw (ap length e) refl

  queues-idle :
      (answers : ℕ → ℕ → List ℕ) (n ring queue : ℕ) (s : TxState rte)
      → ((q : ℕ) → q < queue + n → contents (s.rings q) ≡ [])
      → visit_queues rte answers n ring queue s ≡ some s
  unfolding visit_queues
  queues-idle answers zero ring queue s e = refl
  queues-idle answers (suc n) ring queue s e =
      rw (visit-idle (answers ring queue) ring queue s (e queue (omega arith)))
        (queues-idle answers n ring (queue + 1) s (λ q h. e q (omega arith)))

  -- If the rings with the numbers of the queues are empty, a round of slaveCoreTx changes
  -- nothing, whatever the other rings hold and the card accepts.
  pub rings_starve :
      (answers : ℕ → ℕ → List ℕ) (ring_num queue_num : ℕ) (s : TxState rte)
      → ((q : ℕ) → q < queue_num → contents (s.rings q) ≡ [])
      → tx_round rte answers ring_num 0 queue_num s ≡ some s
  unfolding tx_round
  rings_starve answers ring_num queue_num s e = from ring_num 0
    where
      from : (n ring : ℕ) → tx_round rte answers n ring queue_num s ≡ some s
      from zero ring = refl
      from (suc n) ring =
          rw (queues-idle answers queue_num ring 0 s (λ q h. e q (omega arith))) (from n (ring + 1))
