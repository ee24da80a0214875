-- ===== src/Streams/Peers.antt =====
-- The port that a port's packets are sent to, `fwd_topology_tx_port_get` of
-- src/CaptureDpdk/config.c.
use platform.Common.{ℕ, ◌+◌, ◌%◌, ◌<◌, ◌⊎◌, ◌≡◌, ◌≢◌, ◌∙◌, sym, inl, inr, arith}
use platform.Common.{ok, eq-cases}
use native.Mathlib.Nat.{mod-eq_of_lt, mod_self}
use platform.Streams.{Topology, fwd_topology_tx_port_get}
use platform.Streams.Slots.{peer, topology-peer, peer-lt}

-- The last port is followed by the first, every other one by the next.
next-cases :
    (nb p : ℕ) → p < nb → ((p + 1) % nb ≡ 0) × (p + 1 ≡ nb) ⊎ ((p + 1) % nb ≡ p + 1) × (p + 1 < nb)
next-cases nb p h = elim (eq-cases (p + 1) nb) [
  | inl e ↦ inl (rw e (mod_self nb), e)
  | inr ne ↦ let lt : p + 1 < nb = omega (arith, ne) in inr (mod-eq_of_lt lt, lt)
]

peer-injective : (t : Topology) (nb p q : ℕ) → p < nb → q < nb → p ≢ q → peer t nb p ≢ peer t nb q
peer-injective Topology.paired nb p q h h' ne e = ground (arith, ne)
peer-injective Topology.chained nb p q h h' ne e = elim (next-cases nb p h) [
  | inl (a, b) ↦ elim (next-cases nb q h') [
    | inl (c, d) ↦ absurd (ne (omega (arith, b, d)))
    | inr (c, d) ↦ absurd (omega (arith, sym a ∙ e ∙ c))
  ]
  | inr (a, b) ↦ elim (next-cases nb q h') [
    | inl (c, d) ↦ absurd (omega (arith, sym a ∙ e ∙ c))
    | inr (c, d) ↦ absurd (ne (omega (arith, sym a ∙ e ∙ c)))
  ]
]
peer-injective Topology.loop nb p q h h' ne e = ne e

-- In each topology two different forwarding ports are sent to two different forwarding ports.
topology_permutes :
    (t : Topology) (nb p q : ℕ)
    → p < nb
    → q < nb
    → p ≢ q
    → (p' q' : ℕ) × (fwd_topology_tx_port_get t nb p ≡ ok p')
      × (fwd_topology_tx_port_get t nb q ≡ ok q')
      × (p' < nb)
      × (q' < nb)
      × (p' ≢ q')
topology_permutes t nb p q h h' ne = (
  peer t nb p,
  peer t nb q,
  topology-peer t nb p h,
  topology-peer t nb q h',
  peer-lt t nb p h,
  peer-lt t nb q h',
  peer-injective t nb p q h h' ne,
)
