-- ===== src/Capture/Ring.antt =====
-- The rings of DPDK between the cores, as a parameter: the calls that dpdk.c makes, and what their
-- documentation says of them in terms of the packets that a ring holds, oldest first.
use Prim.Native.Nat.{min}
use platform.Common.{ℕ, ◌-◌, ◌≤◌, ◌<◌, ◌≡◌, List, [], ◌∷◌, ◌++◌, length, take}

pub record RteRing (Pkt : Type 0) : Type 1 where
  pub Ring : Type 0
  pub contents : Ring → List Pkt
  pub size : Ring → ℕ
  pub free_count : Ring → ℕ
  pub enqueue : Ring → Pkt → Ring
  pub enqueue_burst : Ring → List Pkt → Ring × ℕ
  pub dequeue_burst : Ring → ℕ → Ring × List Pkt
  pub free_count_lem : (r : Ring) → free_count r ≡ size r - length (contents r)
  pub enqueue-room :
      (r : Ring) (p : Pkt)
      → length (contents r) < size r
      → contents (enqueue r p) ≡ contents r ++ p ∷ []
  pub enqueue-full :
      (r : Ring) (p : Pkt) → size r ≤ length (contents r) → contents (enqueue r p) ≡ contents r
  pub size-enqueue : (r : Ring) (p : Pkt) → size (enqueue r p) ≡ size r
  pub enqueue_burst-sent :
      (r : Ring) (ps : List Pkt)
      → (enqueue_burst r ps).1 ≡ min (length ps) (size r - length (contents r))
  pub enqueue_burst-contents :
      (r : Ring) (ps : List Pkt)
      → contents (enqueue_burst r ps).0 ≡ contents r ++ take (enqueue_burst r ps).1 ps
  pub size-enqueue_burst : (r : Ring) (ps : List Pkt) → size (enqueue_burst r ps).0 ≡ size r
  pub dequeue_burst-contents :
      (r : Ring) (n : ℕ) → contents r ≡ (dequeue_burst r n).1 ++ contents (dequeue_burst r n).0
  pub dequeue_burst-length :
      (r : Ring) (n : ℕ) → length (dequeue_burst r n).1 ≡ min n (length (contents r))
  pub size-dequeue_burst : (r : Ring) (n : ℕ) → size (dequeue_burst r n).0 ≡ size r
