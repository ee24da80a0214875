-- ===== src/Tests/Queues.antt =====
-- A concrete ring: its size and the packets that it holds, oldest first.
use Prim.Native.Nat.{min}
use platform.Common.{
  ℕ, zero, suc, ◌-◌, ◌≤◌, ◌<◌, ◌≡◌, refl, sym, List, [], ◌∷◌, ◌++◌, length, take, drop,
}
use platform.Common.{
  ltb, if◌then◌else◌, arith, take_append_drop, lt→ltb, ge→ltb, Bool-cases, inl, inr,
}
use platform.Capture.Ring.{RteRing}

pub record Queue (Pkt : Type 0) : Type 0 where
  pub capacity : ℕ
  pub items : List Pkt

pub length-take : {Pkt : Type 0} (n : ℕ) (xs : List Pkt) → length (take n xs) ≡ min n (length xs)
length-take zero xs = omega arith
length-take (suc n) [] = omega arith
length-take (suc n) (x ∷ xs) = omega (arith, length-take n xs)

abbrev pub push : {Pkt : Type 0} → Queue Pkt → Pkt → Queue Pkt
push q p = if ltb (length q.items) q.capacity then record q { items = q.items ++ p ∷ [] } else q

pub push-room :
    {Pkt : Type 0} (q : Queue Pkt) (p : Pkt)
    → length q.items < q.capacity
    → (push q p).items ≡ q.items ++ p ∷ []
push-room q p h = rw (lt→ltb (length q.items) q.capacity h) refl

pub push-full :
    {Pkt : Type 0} (q : Queue Pkt) (p : Pkt)
    → q.capacity ≤ length q.items
    → (push q p).items ≡ q.items
push-full q p h = rw (ge→ltb (length q.items) q.capacity h) refl

pub push-capacity : {Pkt : Type 0} (q : Queue Pkt) (p : Pkt) → (push q p).capacity ≡ q.capacity
push-capacity q p = elim (Bool-cases (ltb (length q.items) q.capacity)) [
  | inl e ↦ rw e refl
  | inr e ↦ rw e refl
]

abbrev pub queues : (Pkt : Type 0) → RteRing Pkt
queues Pkt = record {
  Ring = Queue Pkt;
  contents = λ q. q.items;
  size = λ q. q.capacity;
  free_count = λ q. q.capacity - length q.items;
  enqueue = push;
  enqueue_burst = λ q ps.
      let n = min (length ps) (q.capacity - length q.items) in
      (record q { items = q.items ++ take n ps }, n);
  dequeue_burst = λ q n. (record q { items = drop n q.items }, take n q.items);
  free_count_lem = λ q. refl;
  enqueue-room = push-room;
  enqueue-full = push-full;
  size-enqueue = push-capacity;
  enqueue_burst-sent = λ q ps. refl;
  enqueue_burst-contents = λ q ps. refl;
  size-enqueue_burst = λ q ps. refl;
  dequeue_burst-contents = λ q n. sym (take_append_drop n q.items);
  dequeue_burst-length = λ q n. length-take n q.items;
  size-dequeue_burst = λ q n. refl;
}
