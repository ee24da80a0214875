-- ===== src/Setup/Buffers/Steps.antt =====
-- One round of the loops over the rings and over the ports, where its places exist.
use platform.Common.{ℕ, suc, ◌+◌, ◌%◌, ◌^◌, ◌<◌, ◌≡◌, refl, arith, inl, inr, ◌∷◌, ok}
use platform.Common.{◌==◌, eq→==, Bool-cases, lt→ltb, update, load-ok, store-ok}
use mathlib.Core.Path.{subst}
use platform.Device.{Context}
use platform.Setup.Buffers.{RingName, RingLibrary, Buffers, store_in, init_ring, init_rings}
use platform.Setup.Buffers.{init_port_rings}
use platform.Choice.Cores.Queues.{InOrder}

abbrev pub put_at {ℓ} : {A : Type ℓ} → (ℕ → ℕ → A) → ℕ → ℕ → A → ℕ → ℕ → A
put_at a i j v = update a i (update (a i) j v)

pub store_in-ok {ℓ} :
    {A : Type ℓ} (rows columns : ℕ) (a : ℕ → ℕ → A) (i j : ℕ) (v : A)
    → i < rows
    → j < columns
    → store_in rows columns a i j v ≡ ok (put_at a i j v)
store_in-ok rows columns a i j v p q = rw (lt→ltb i rows p, lt→ltb j columns q) refl

-- A write of a value with a property leaves a cell with the property.
pub put_at-keeps {ℓ} :
    {A : Type ℓ} (P : A → Type 0) (a : ℕ → ℕ → A) (i j k l : ℕ) (v : A)
    → P v
    → P (a i j)
    → P (put_at a k l v i j)
put_at-keeps P a i j k l v p q = elim (Bool-cases (i == k)) [
  | inl e ↦ elim (Bool-cases (j == l)) [
    | inl e' ↦ rw (e, e') p
    | inr e' ↦ let x : i ≡ k = ground (arith, e) in rw (e, e') (subst (λ z. P (a z j)) x q)
  ]
  | inr e ↦ rw e q
]

pub put_at_self {ℓ} :
    {A : Type ℓ} (P : A → Type 0) (a : ℕ → ℕ → A) (i j : ℕ) (v : A) → P v → P (put_at a i j v i j)
put_at_self P a i j v p = rw (eq→== i i refl, eq→== j j refl) p

module _ {Ring : Type 0} (lib : RingLibrary Ring) where
  unfoldable pub next_ring : ℕ → ℕ → Buffers lib → Buffers lib
  next_ring t q b =
      let tx = RingName.temp_tx_ring t q in
      let rx = RingName.temp_rx_ring t q in
      record b {
        txring = put_at b.txring t q (init_ring lib b.made tx).0;
        rxring = put_at b.rxring t q (init_ring lib (tx ∷ b.made) rx).0;
        made = rx ∷ tx ∷ b.made;
        before_enqueue = put_at b.before_enqueue t q 0;
        after_enqueue = put_at b.after_enqueue t q 0;
        after_dequeue = put_at b.after_dequeue t q 0;
      }

  pub ring-step :
      (n t q : ℕ) (b : Buffers lib)
      → t < 16
      → q < 16
      → init_rings lib (suc n) t q b ≡ init_rings lib n t (q + 1) (next_ring t q b)
  unfolding init_rings next_ring
  ring-step n t q b h h' =
      let tx = RingName.temp_tx_ring t q in
      let rx = RingName.temp_rx_ring t q in
      rw
        (
          store_in-ok 16 80 b.txring t q (init_ring lib b.made tx).0 h (omega arith),
          store_in-ok 16 80 b.rxring t q (init_ring lib (tx ∷ b.made) rx).0 h (omega arith),
          store_in-ok 16 16 b.before_enqueue t q 0 h h',
          store_in-ok 16 16 b.after_enqueue t q 0 h h',
          store_in-ok 16 16 b.after_dequeue t q 0 h h',
        )
        refl

  abbrev pub sized : ℕ → Buffers lib → Buffers lib
  sized t b = record b { rxsize = update b.rxsize t 0 }

  module _ (ctx : Context) (o : InOrder ctx) where
    pub port-step :
        (n p : ℕ) (b b' : Buffers lib)
        → p < ctx.port_num
        → init_rings lib (ctx.port_ringnum p) p 0 b ≡ ok b'
        → init_port_rings lib (suc n) p ctx b ≡ init_port_rings lib n (p + 1) ctx (sized p b')
    unfolding init_port_rings
    port-step n p b b' h e =
        let below : p < 16 = omega (arith, o.few) in
        let entry : ctx.port_list p % 2 ^ 8 ≡ p = let l = o.in_order p h in omega (arith, l) in
        rw
          (
            load-ok 16 ctx.port_list p below,
            entry,
            load-ok 16 ctx.port_ringnum p below,
            e,
            store-ok 1024 b'.rxsize p 0 (omega arith),
          )
          refl
