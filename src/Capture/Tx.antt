-- ===== src/Capture/Tx.antt =====
-- `dpdk_masterTx_a` and `slaveCoreTx`, for one port: `rings` is `txring[port]`. The threads and the
-- sending core work on the same rings, so the pieces of the two loops are functions on one state.
-- What the calls of `rte_eth_tx_burst` for one burst accept in turn is a list of numbers.
pub mod Runs
pub mod Finish
pub mod Idle
use platform.Common.{
  ℕ, zero, suc, ◌+◌, ◌-◌, ◌%◌, ◌^◌, List, [], ◌∷◌, ◌++◌, Option, none, some, length,
}
use platform.Common.{take, drop, ltb, leb, ◌==◌, if◌then◌else◌, update}
use platform.Device.{burst_size}
use platform.Capture.Ring.{RteRing}

infixl 5 ◌>>=◌
abbrev ◌>>=◌ : {A B : Type 0} → Option A → (A → Option B) → Option B
none >>= f = none
some a >>= f = f a

-- The calls of `rte_eth_tx_burst` for one burst: what they have put on the wire, and what is left.
unfoldable pub transmit : {Pkt : Type 0} → List ℕ → List Pkt → List Pkt × List Pkt
transmit [] bufs = ([], bufs)
transmit (v ∷ answers) bufs =
    let (sent, left) = transmit answers (drop v bufs) in (take v bufs ++ sent, left)

-- 64 packets, or the rest.
unfoldable pub piece : ℕ → ℕ → ℕ
piece nb_mbuf nb = if leb (nb + burst_size) nb_mbuf then burst_size else (nb_mbuf - nb) % 2 ^ 16

module _ {Pkt : Type 0} (rte : RteRing Pkt) where
  open rte use {Ring, contents, free_count, enqueue_burst, dequeue_burst}

  -- `wire` is what each queue of the card has been given.
  pub record TxState : Type 0 where
    pub rings : ℕ → Ring
    pub nb_distributed : ℕ
    pub txsize : ℕ
    pub wire : ℕ → List Pkt

  -- The body of the loop over the rings in `dpdk_masterTx_a`: a ring without room is passed over.
  unfoldable pub offer : List Pkt → ℕ → ℕ → TxState → TxState
  offer bufs nb_mbuf i s =
      let nb = s.nb_distributed in
      let ring = s.rings i in
      let send = piece nb_mbuf nb in
      if ltb (free_count ring) send
      then s
      else let (ring', sent) = enqueue_burst ring (take send (drop nb bufs)) in
        record s { rings = update s.rings i ring'; nb_distributed = (nb + sent) % 2 ^ 16 }

  -- The loop over `n` rings from `i` on.
  pub offers : List Pkt → ℕ → ℕ → ℕ → TxState → TxState
  offers bufs nb_mbuf zero i s = s
  offers bufs nb_mbuf (suc n) i s = offers bufs nb_mbuf n (i + 1) (offer bufs nb_mbuf i s)

  -- `dpdk_masterTx_a` while no other core moves; `none` is that the fuel did not suffice. The number
  -- of rings is kept in a `uint8_t`.
  pub master_tx : ℕ → List Pkt → ℕ → ℕ → TxState → Option TxState
  master_tx zero bufs nb_mbuf ring_num s = none
  master_tx (suc fuel) bufs nb_mbuf ring_num s =
      let rest =
        master_tx fuel bufs nb_mbuf ring_num (offers bufs nb_mbuf (ring_num % 2 ^ 8) 0 s) in
      if ltb s.nb_distributed nb_mbuf then rest else some s

  -- The body of the inner loop of `slaveCoreTx`: the ring that is tested is `queue`, and the ring
  -- that is read is `ring`. `none` is that the card has not yet accepted the whole burst.
  unfoldable pub visit : List ℕ → ℕ → ℕ → TxState → Option TxState
  visit answers ring queue s =
      if length (contents (s.rings queue)) == 0
      then some s
      else let (r, bufs) = dequeue_burst (s.rings ring) burst_size in
        let (sent, left) = transmit answers bufs in
        if length bufs == 0
        then some s
        else if length left == 0
        then some (record s {
          rings = update s.rings ring r;
          txsize = (s.txsize + length bufs) % 2 ^ 64;
          wire = update s.wire queue (s.wire queue ++ sent);
        })
        else none

  -- The loop over `n` queues from `queue` on, and the loop over `n` rings from `ring` on.
  pub visit_queues : (ℕ → ℕ → List ℕ) → ℕ → ℕ → ℕ → TxState → Option TxState
  visit_queues answers zero ring queue s = some s
  visit_queues answers (suc n) ring queue s = do
    s' ← visit (answers ring queue) ring queue s
    visit_queues answers n ring (queue + 1) s'

  pub tx_round : (ℕ → ℕ → List ℕ) → ℕ → ℕ → ℕ → TxState → Option TxState
  tx_round answers zero ring queue_num s = some s
  tx_round answers (suc n) ring queue_num s = do
    s' ← visit_queues answers queue_num ring 0 s
    tx_round answers n (ring + 1) queue_num s'
