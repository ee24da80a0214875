-- ===== src/Setup/Cleared.antt =====
-- What `shard_init` leaves in the shared memory.
use platform.Common.{ℕ, zero, suc, ◌+◌, ◌≤◌, ◌<◌, ◌≡◌, refl, sym, inl, inr, arith, ok}
use platform.Common.{lt→ltb, ◌==◌, eq→==, ne→==, eq-cases, Bool-cases}
use platform.Setup.{Shared, put, store_at, clear_rings, clear_queues}

put-stays : (a : ℕ → ℕ → ℕ) (i j k l : ℕ) → a i j ≡ 0 → put a k l 0 i j ≡ 0
put-stays a i j k l e = elim (eq-cases i k) [
  | inl x ↦ elim (Bool-cases (j == l)) [
    | inl y ↦ rw (eq→== i k x, y) refl
    | inr y ↦ rw (eq→== i k x, y) (rw (sym x) e)
  ]
  | inr ne ↦ rw (ne→== i k ne) e
]

put-there : (a : ℕ → ℕ → ℕ) (k l : ℕ) → put a k l 0 k l ≡ 0
put-there a k l = rw (eq→== k k refl, eq→== l l refl) refl

store_at-ok : (a : ℕ → ℕ → ℕ) (i j v : ℕ) → i < 16 → j < 80 → store_at a i j v ≡ ok (put a i j v)
store_at-ok a i j v p q = rw (lt→ltb i 16 p, lt→ltb j 80 q) refl

-- The three counters of a ring.
pub record Zero (st : Shared) (i j : ℕ) : Type 0 where
  pub before : st.before_ring i j ≡ 0
  pub counted : st.count_ring i j ≡ 0
  pub after : st.after_ring i j ≡ 0

pub record Rings (n t ring : ℕ) (st st' : Shared) : Type 0 where
  pub keeps : (i j : ℕ) → Zero st i j → Zero st' i j
  pub clears : (j : ℕ) → ring ≤ j → j < ring + n → Zero st' t j
  pub eth : st'.eth_queue ≡ st.eth_queue
  pub ring_nums : st'.ring_num ≡ st.ring_num
  pub queue_nums : st'.queue_num ≡ st.queue_num

abbrev one_ring : ℕ → ℕ → Shared → Shared
one_ring t ring st = record st {
  after_ring = put st.after_ring t ring 0;
  before_ring = put st.before_ring t ring 0;
  count_ring = put st.count_ring t ring 0;
}

one_ring-keeps : (t ring i j : ℕ) (st : Shared) → Zero st i j → Zero (one_ring t ring st) i j
one_ring-keeps t ring i j st z = record {
  before = put-stays st.before_ring i j t ring z.before;
  counted = put-stays st.count_ring i j t ring z.counted;
  after = put-stays st.after_ring i j t ring z.after;
}

one_ring-Zero : (t ring : ℕ) (st : Shared) → Zero (one_ring t ring st) t ring
one_ring-Zero t ring st = record {
  before = put-there st.before_ring t ring;
  counted = put-there st.count_ring t ring;
  after = put-there st.after_ring t ring;
}

pub clear_rings-Rings :
    (n t ring : ℕ) (st : Shared)
    → t < 16
    → ring + n ≤ 80
    → (st' : Shared) × (clear_rings n t ring st ≡ ok st') × Rings n t ring st st'
unfolding clear_rings
clear_rings-Rings zero t ring st p q = (
  st,
  refl,
  record {
    keeps = λ i j z. z;
    clears = λ j lo hi. absurd (omega arith);
    eth = refl;
    ring_nums = refl;
    queue_nums = refl;
  },
)
clear_rings-Rings (suc n) t ring st p q =
    let (st', e, r) = clear_rings-Rings n t (ring + 1) (one_ring t ring st) p (omega arith) in
    (
      st',
      (rw
          (
            store_at-ok st.after_ring t ring 0 p (omega arith),
            store_at-ok st.before_ring t ring 0 p (omega arith),
            store_at-ok st.count_ring t ring 0 p (omega arith),
          )
          e),
      record {
        keeps = λ i j z. r.keeps i j (one_ring-keeps t ring i j st z);
        clears = λ j lo hi. elim (eq-cases ring j) [
          | inl x ↦ rw (sym x) (r.keeps t ring (one_ring-Zero t ring st))
          | inr ne ↦ r.clears j (omega (arith, ne)) (omega arith)
        ];
        eth = r.eth;
        ring_nums = r.ring_nums;
        queue_nums = r.queue_nums;
      },
    )

pub record Queues (n t queue : ℕ) (st st' : Shared) : Type 0 where
  pub rings : (i j : ℕ) → Zero st i j → Zero st' i j
  pub keeps : (i j : ℕ) → st.eth_queue i j ≡ 0 → st'.eth_queue i j ≡ 0
  pub clears : (j : ℕ) → queue ≤ j → j < queue + n → st'.eth_queue t j ≡ 0
  pub ring_nums : st'.ring_num ≡ st.ring_num
  pub queue_nums : st'.queue_num ≡ st.queue_num

pub clear_queues-Queues :
    (n t queue : ℕ) (st : Shared)
    → t < 16
    → queue + n ≤ 80
    → (st' : Shared) × (clear_queues n t queue st ≡ ok st') × Queues n t queue st st'
unfolding clear_queues
clear_queues-Queues zero t queue st p q = (
  st,
  refl,
  record {
    rings = λ i j z. z;
    keeps = λ i j z. z;
    clears = λ j lo hi. absurd (omega arith);
    ring_nums = refl;
    queue_nums = refl;
  },
)
clear_queues-Queues (suc n) t queue st p q =
    let st1 = record st { eth_queue = put st.eth_queue t queue 0 } in
    let (st', e, r) = clear_queues-Queues n t (queue + 1) st1 p (omega arith) in
    (
      st',
      (rw (store_at-ok st.eth_queue t queue 0 p (omega arith)) e),
      record {
        rings = λ i j z.
            r.rings i j (record { before = z.before; counted = z.counted; after = z.after });
        keeps = λ i j z. r.keeps i j (put-stays st.eth_queue i j t queue z);
        clears = λ j lo hi. elim (eq-cases queue j) [
          | inl x ↦ rw (sym x) (r.keeps t queue (put-there st.eth_queue t queue))
          | inr ne ↦ r.clears j (omega (arith, ne)) (omega arith)
        ];
        ring_nums = r.ring_nums;
        queue_nums = r.queue_nums;
      },
    )
