-- ===== src/Tests/Capturing.antt =====
-- The packet path on small rings and two packets.
use platform.Common.{ℕ, ◌+◌, ◌≤◌, ◌<◌, ◌≡◌, refl, List, [], ◌∷◌}
use platform.Common.{if◌then◌else◌, ◌==◌, arith, some, ok, inl, ◌⊎◌, update}
use platform.Device.{Context}
use platform.Capture.Classify.{Packet, ring_of, choose, load32, ntohl, IsReply, ring_of_reply}
use platform.Capture.Rx.{Counters, rx_packets}
use platform.Capture.Rx.Deliver.{Delivered, burst_delivered}
use platform.Capture.Tx.{TxState, visit, offer, piece, transmit, tx_round, master_tx}
use platform.Capture.Tx.Runs.{offered, visited, move, stop, sent_or_queued, held, weigh}
use platform.Capture.Tx.Finish.{buffer_distributed}
use platform.Capture.Tx.Idle.{rings_starve}
use platform.Capture.Role.{main_loop, Role, mode_two_roles}
use platform.Tests.Values.{whole, pairs, rows, ten_gigabit}
use platform.Tests.Queues.{Queue, queues}
use platform.Tests.Choosing.{two_ports, table, opened, ready, heavy, in_order}
use platform.PortTable.Load.{items}
use platform.Choice.Cores.Layout.{sum_from}
use platform.Choice.Init.{choice_init}

-- IPv4 from 1.0.0.2 to 3.0.0.1, and the answer; the sum of the addresses is 67108867.
abbrev request : Packet
request k =
    if k == 14
    then 69
    else if k == 26
    then 1
    else if k == 29
    then 2
    else if k == 30
    then 3
    else if k == 33
    then 1
    else 0

abbrev answer : Packet
answer k =
    if k == 14
    then 69
    else if k == 30
    then 1
    else if k == 33
    then 2
    else if k == 26
    then 3
    else if k == 29
    then 1
    else 0

ring_three : ring_of 4 request ≡ ok 3
unfolding ring_of choose load32 ntohl
ring_three = refl

-- The same request to 3.0.0.18, which has ring 20 of 32.
abbrev far_request : Packet
far_request k = if k == 33 then 18 else request k

ring_twenty : ring_of 32 far_request ≡ ok 20
unfolding ring_of choose load32 ntohl
ring_twenty = refl

answered : IsReply request answer
answered = inl (record { of_packet = refl; of_reply = refl; to_source = swap; to_target = swap' })
  where
    swap : (i : ℕ) → i < 4 → answer (26 + i) ≡ request (30 + i)
    swap i h = ground arith

    swap' : (i : ℕ) → i < 4 → answer (30 + i) ≡ request (26 + i)
    swap' i h = ground arith

ring_of_reply_example : (r : ℕ) × (r < 4) × (ring_of 4 request ≡ ok r) × (ring_of 4 answer ≡ ok r)
ring_of_reply_example = ring_of_reply 4 request answer (omega arith) answered

-- Nothing counted yet; each port has rings of the given size.
abbrev counters : ℕ → Counters (queues Packet)
counters size = record {
  rxsize = λ p. 0;
  rx_queue = λ p q. 0;
  before_enqueue = λ p q. 0;
  after_enqueue = λ p q. 0;
  after_dequeue = λ p q. 0;
  eth_queue = λ p q. 0;
  before_ring = λ p q. 0;
  count_ring = λ p q. 0;
  after_ring = λ p q. 0;
  rxring = λ p q. record { capacity = size; items = [] };
}

burst_delivered_example :
    (c' : Counters (queues Packet)) × (rx_packets
        (queues Packet)
        1
        4
        (request ∷ answer ∷ [])
        (counters 8)
      ≡ ok c')
    × Delivered (queues Packet) 1 4 (request ∷ answer ∷ []) (counters 8) c'
burst_delivered_example =
    burst_delivered (queues Packet) 1 4 (request ∷ answer ∷ []) (counters 8) (omega arith)
      (omega arith) (omega arith) (λ r h. omega arith)

abbrev filled : Counters (queues Packet)
filled = record (counters 8) {
  rxring = λ p q. record { capacity = 8; items = request ∷ answer ∷ [] };
}

-- Packets that are numbers; two rings of eight, the second with one packet.
abbrev sending : TxState (queues ℕ)
sending = record {
  rings = λ j. record { capacity = 8; items = if j == 1 then 7 ∷ [] else [] };
  nb_distributed = 0;
  txsize = 0;
  wire = λ q. [];
}

rings_starve_example : tx_round (queues ℕ) (λ r q. 64 ∷ []) 2 0 1 sending ≡ some sending
rings_starve_example = rings_starve (queues ℕ) (λ r q. 64 ∷ []) 2 1 sending only_first
  where
    only_first : (q : ℕ) → q < 1 → (sending.rings q).items ≡ []
    only_first q h = ground arith

buffer_distributed_example :
    (s' : TxState (queues ℕ)) × (master_tx (queues ℕ) 4 (1 ∷ 2 ∷ 3 ∷ []) 3 2 sending ≡ some s')
    × (s'.nb_distributed ≡ 3)
    × ((f : ℕ → ℕ)
        → held (queues ℕ) (1 ∷ 2 ∷ 3 ∷ []) 3 2 0 f s'
          ≡ held (queues ℕ) (1 ∷ 2 ∷ 3 ∷ []) 3 2 0 f sending + weigh f (1 ∷ 2 ∷ 3 ∷ []))
buffer_distributed_example =
    buffer_distributed (queues ℕ) (1 ∷ 2 ∷ 3 ∷ []) 2 0 sending (omega arith) (omega arith)
      (omega arith) refl (omega arith)

-- The thread fills the first ring, and the core sends from it, the card taking two packets and one.
abbrev three : List ℕ
three = 1 ∷ 2 ∷ 3 ∷ []

abbrev ring_after : Queue ℕ
ring_after = record { capacity = 8; items = [] }

abbrev sent : TxState (queues ℕ)
sent = record {
  rings = update (update sending.rings 0 (record { capacity = 8; items = three })) 0 ring_after;
  nb_distributed = 3;
  txsize = 3;
  wire = update sending.wire 0 three;
}

visited_once : visit (queues ℕ) (2 ∷ 1 ∷ []) 0 0 (offer (queues ℕ) three 3 0 sending) ≡ some sent
unfolding visit offer piece transmit
visited_once = refl

sent_or_queued_example :
    (sent.nb_distributed ≤ 3)
    × (held (queues ℕ) three 3 2 1 (λ x. x) sent
        ≡ held (queues ℕ) three 3 2 1 (λ x. x) sending + weigh (λ x. x) three)
sent_or_queued_example =
    sent_or_queued (queues ℕ) three 3 2 1 (λ x. x) sending sent (omega arith) refl
      (move (offered 0 (omega arith))
        (move (visited (2 ∷ 1 ∷ []) 0 0 (omega arith) (omega arith) visited_once) stop))

mode_two_roles_example :
    (c : Context) × (choice_init whole pairs ten_gigabit 2
        (some (some (items whole rows)))
        []
        (two_ports 2 2)
      ≡ ok (c, table))
    × ((p : ℕ) → p < 2 → (main_loop c (1 + p) ≡ Role.sends) × (c.core_portnum (1 + p) ≡ p))
    × ((p i : ℕ)
        → p < 2
        → i < c.port_ringnum p
        → let k = 1 + 2 + sum_from p 0 c.port_ringnum + i in
          (main_loop c k ≡ Role.receives) × (c.core_portnum k ≡ p))
    × ((k : ℕ) → k < 256 → (k < 1) ⊎ (c.end < k) → main_loop c k ≡ Role.idle)
mode_two_roles_example =
    mode_two_roles whole pairs ten_gigabit (some (some (items whole rows))) [] table (two_ports 2 2)
      opened (ready 2 2) (heavy 2 2) (in_order 2 2) refl refl (omega arith) refl (omega arith)
      (omega arith)
