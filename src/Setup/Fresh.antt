-- ===== src/Setup/Fresh.antt =====
-- The shared memory after `shard_init`.
use platform.Common.{ℕ, zero, suc, ◌+◌, ◌%◌, ◌^◌, ◌≤◌, ◌<◌, ◌≡◌, refl, ◌∙◌, ap, inl, inr, arith, ok}
use platform.Common.{load-ok, store-ok, update, eq→==, ne→==, eq-cases}
use platform.Device.{Context}
use platform.Setup.{Shared, clear_rings, clear_queues, clear_ports, shard_init}
use platform.Setup.Cleared.{Zero, Rings, Queues, clear_rings-Rings, clear_queues-Queues}
use platform.Choice.Cores.Queues.{InOrder}

update_self : (a : ℕ → ℕ) (i v : ℕ) → update a i v i ≡ v
update_self a i v = rw (eq→== i i refl) refl

-- What is shown of one port `p`: its numbers of rings and queues, and its counters.
pub record IsFresh (ctx : Context) (p : ℕ) (st : Shared) : Type 0 where
  pub ring_num : st.ring_num p ≡ ctx.port_ringnum p
  pub queue_num : st.queue_num p ≡ ctx.port_queuenum p
  pub rings : (r : ℕ) → r < ctx.port_ringnum p → Zero st p r
  pub queues : (q : ℕ) → q < ctx.port_queuenum p → st.eth_queue p q ≡ 0

module _ (ctx : Context) (o : InOrder ctx)
    (few_rings : (p : ℕ) → p < ctx.port_num → ctx.port_ringnum p ≤ 80)
    (few_queues : (p : ℕ) → p < ctx.port_num → ctx.port_queuenum p ≤ 80) where
  abbrev one_port : ℕ → Shared → Shared
  one_port t st = record st {
    port_num = ctx.port_num;
    ring_num = update st.ring_num t (ctx.port_ringnum t);
    queue_num = update st.queue_num t (ctx.port_queuenum t);
  }

  -- The round of a port, with the results of its inner loops.
  round-eq :
      (n k : ℕ) (st st1 st2 : Shared)
      → k < ctx.port_num
      → clear_rings (ctx.port_ringnum k) k 0 st ≡ ok st1
      → clear_queues (ctx.port_queuenum k) k 0 st1 ≡ ok st2
      → clear_ports (suc n) k ctx st ≡ clear_ports n (k + 1) ctx (one_port k st2)
  unfolding clear_ports
  round-eq n k st st1 st2 h e e' =
      let below : k < 16 = omega (arith, o.few) in
      let entry : ctx.port_list k % 2 ^ 8 ≡ k = let l = o.in_order k h in omega (arith, l) in
      rw
        (
          load-ok 16 ctx.port_list k below,
          entry,
          load-ok 16 ctx.port_ringnum k below,
          load-ok 16 ctx.port_queuenum k below,
          e,
          e',
          store-ok 16 st2.ring_num k (ctx.port_ringnum k) below,
          store-ok 16 st2.queue_num k (ctx.port_queuenum k) below,
        )
        refl

  one_port-Zero : (t : ℕ) (st : Shared) (i j : ℕ) → Zero st i j → Zero (one_port t st) i j
  one_port-Zero t st i j z = record { before = z.before; counted = z.counted; after = z.after }

  first-IsFresh :
      (k : ℕ) (st st1 st2 : Shared)
      → Rings (ctx.port_ringnum k) k 0 st st1
      → Queues (ctx.port_queuenum k) k 0 st1 st2
      → IsFresh ctx k (one_port k st2)
  first-IsFresh k st st1 st2 r q = record {
    ring_num = update_self st2.ring_num k (ctx.port_ringnum k);
    queue_num = update_self st2.queue_num k (ctx.port_queuenum k);
    rings = λ j h. one_port-Zero k st2 k j (q.rings k j (r.clears j (omega arith) (omega arith)));
    queues = λ j h. q.clears j (omega arith) (omega arith);
  }

  later-IsFresh :
      (k p : ℕ) (st st1 st2 : Shared)
      → p < k
      → Rings (ctx.port_ringnum k) k 0 st st1
      → Queues (ctx.port_queuenum k) k 0 st1 st2
      → IsFresh ctx p st
      → IsFresh ctx p (one_port k st2)
  later-IsFresh k p st st1 st2 h r q f =
      let other = ne→== p k (λ e. absurd (omega (arith, e))) in
      record {
        ring_num = rw other (ap (λ a. a p) (q.ring_nums ∙ r.ring_nums) ∙ f.ring_num);
        queue_num = rw other (ap (λ a. a p) (q.queue_nums ∙ r.queue_nums) ∙ f.queue_num);
        rings = λ j b. one_port-Zero k st2 p j (q.rings p j (r.keeps p j (f.rings j b)));
        queues = λ j b. q.keeps p j (ap (λ a. a p j) r.eth ∙ f.queues j b);
      }

  all-IsFresh :
      (n k : ℕ) (st : Shared)
      → k + n ≡ ctx.port_num
      → ((p : ℕ) → p < k → IsFresh ctx p st)
      → (st' : Shared) × (clear_ports n k ctx st ≡ ok st')
        × ((p : ℕ) → p < ctx.port_num → IsFresh ctx p st')
  unfolding clear_ports
  all-IsFresh zero k st e done = (st, refl, (λ p h. done p (omega (arith, e))))
  all-IsFresh (suc n) k st e done =
      let lt : k < ctx.port_num = omega (arith, e) in
      let (st1, e1, r) =
        clear_rings-Rings (ctx.port_ringnum k) k 0 st (omega (arith, o.few))
          (let f = few_rings k lt in omega (arith, f)) in
      let (st2, e2, q) =
        clear_queues-Queues (ctx.port_queuenum k) k 0 st1 (omega (arith, o.few))
          (let f = few_queues k lt in omega (arith, f)) in
      let (st', e', fresh) = all-IsFresh n (k + 1) (one_port k st2) (omega (arith, e)) (λ p h.
        elim (eq-cases p k) [
          | inl x ↦ rw x (first-IsFresh k st st1 st2 r q)
          | inr ne ↦
              later-IsFresh k p st st1 st2 (omega (arith, ne)) r q (done p (omega (arith, ne)))
        ]) in
      (st', round-eq n k st st1 st2 lt e1 e2 ∙ e', fresh)

  -- If the ports are listed in order and each has at most 80 rings and 80 queues, shard_init
  -- returns, and every port then has its numbers of rings and queues in the shared memory and the
  -- counters of each of these rings and queues are 0.
  pub shard_init-IsFresh :
      (st : Shared)
      → (st' : Shared) × (shard_init ctx st ≡ ok st')
        × ((p : ℕ) → p < ctx.port_num → IsFresh ctx p st')
  unfolding shard_init
  shard_init-IsFresh st = all-IsFresh ctx.port_num 0 st (omega arith) (λ p h. absurd (omega arith))
