-- ===== src/Setup/Buffers/Made.antt =====
-- The rings of the ports that are listed in order: each is made under a name of its own.
use platform.Common.{ℕ, zero, suc, ◌+◌, ◌≤◌, ◌<◌, ◌≡◌, ◌≢◌, refl, ◌∙◌, sym, ap, arith}
use platform.Common.{List, [], ◌∷◌, some, ok, ◌⊎◌, inl, inr, ◌==◌, eq→==, eq-cases, Bool-cases}
use mathlib.Core.Path.{subst}
use platform.Device.{Context}
use platform.Setup.Buffers.{RingName, RingLibrary, Buffers, init_ring, init_rings}
use platform.Setup.Buffers.{init_port_rings}
use platform.Setup.Buffers.Steps.{put_at-keeps, put_at_self, next_ring, ring-step, sized, port-step}
use platform.Choice.Cores.Queues.{InOrder}

abbrev port_of : RingName → ℕ
port_of (RingName.temp_tx_ring t q) = t
port_of (RingName.temp_rx_ring t q) = t

abbrev queue_of : RingName → ℕ
queue_of (RingName.temp_tx_ring t q) = q
queue_of (RingName.temp_rx_ring t q) = q

-- No ring has the name.
abbrev pub Unused : List RingName → RingName → Type 0
Unused [] name = Unit {0}
Unused (m ∷ made) name = (m ≢ name) × Unused made name

-- All names are of ports before `t`, or of queues before `q` of port `t`.
abbrev pub Before : ℕ → ℕ → List RingName → Type 0
Before t q [] = Unit {0}
Before t q (m ∷ made) = ((port_of m < t) ⊎ ((port_of m ≡ t) × (queue_of m < q))) × Before t q made

differ :
    (t q : ℕ) (m name : RingName)
    → (port_of m < t) ⊎ ((port_of m ≡ t) × (queue_of m < q))
    → port_of name ≡ t
    → queue_of name ≡ q
    → m ≢ name
differ t q m name (inl h) p p' e =
    let x : port_of m ≡ port_of name = ap port_of e in omega (arith, x, p)
differ t q m name (inr (same, h)) p p' e =
    let x : queue_of m ≡ queue_of name = ap queue_of e in omega (arith, x, p')

Before-Unused :
    (t q : ℕ) (made : List RingName) (name : RingName)
    → Before t q made
    → port_of name ≡ t
    → queue_of name ≡ q
    → Unused made name
Before-Unused t q [] name b p p' = tt
Before-Unused t q (m ∷ made) name b p p' =
    (differ t q m name b.0 p p', Before-Unused t q made name b.1 p p')

Before-suc : (t q : ℕ) (made : List RingName) → Before t q made → Before t (suc q) made
Before-suc t q [] b = tt
Before-suc t q (m ∷ made) b =
    (elim b.0 [ inl h ↦ inl h | inr (e, h) ↦ inr (e, omega arith) ], Before-suc t q made b.1)

Before-next : (t q : ℕ) (made : List RingName) → Before t q made → Before (suc t) 0 made
Before-next t q [] b = tt
Before-next t q (m ∷ made) b = (
  elim b.0 [ inl h ↦ inl (omega arith) | inr (e, h) ↦ inl (omega (arith, e)) ],
  Before-next t q made b.1,
)

tx≢rx : (t q : ℕ) → RingName.temp_tx_ring t q ≢ RingName.temp_rx_ring t q
tx≢rx t q e = cc

module _ {Ring : Type 0} (lib : RingLibrary Ring)
    (creates : (made : List RingName) (name : RingName)
      → Unused made name
      → (r : Ring) × (lib.create made name ≡ some r)) where
  -- A ring in each direction, and no packet counted.
  pub record IsMade (b : Buffers lib) (i j : ℕ) : Type 0 where
    pub to_send : (r : Ring) × (b.txring i j ≡ some r)
    pub received : (r : Ring) × (b.rxring i j ≡ some r)
    pub before : b.before_enqueue i j ≡ 0
    pub after : b.after_enqueue i j ≡ 0
    pub dequeued : b.after_dequeue i j ≡ 0

  -- What the loops over the rings leave alone.
  pub record Same (b b' : Buffers lib) : Type 0 where
    pub packets : b'.packet_num ≡ b.packet_num
    pub queues : b'.rx_queue ≡ b.rx_queue
    pub sleeps : (b'.sleep_num ≡ b.sleep_num) × (b'.no_sleep_num ≡ b.no_sleep_num)

  record Rings (n t queue : ℕ) (b b' : Buffers lib) : Type 0 where
    keeps : (i j : ℕ) → IsMade b i j → IsMade b' i j
    makes : (j : ℕ) → queue ≤ j → j < queue + n → IsMade b' t j
    names : Before t (queue + n) b'.made
    sizes : b'.rxsize ≡ b.rxsize
    same : Same b b'

  tx_made :
      (t q : ℕ) (b : Buffers lib)
      → Before t q b.made
      → (r : Ring) × ((init_ring lib b.made (RingName.temp_tx_ring t q)).0 ≡ some r)
  unfolding init_ring
  tx_made t q b names =
      creates b.made (RingName.temp_tx_ring t q)
        (Before-Unused t q b.made (RingName.temp_tx_ring t q) names refl refl)

  rx_made :
      (t q : ℕ) (b : Buffers lib)
      → Before t q b.made
      → (r : Ring) × ((init_ring lib
            (RingName.temp_tx_ring t q ∷ b.made)
            (RingName.temp_rx_ring t q)).0
          ≡ some r)
  unfolding init_ring
  rx_made t q b names =
      creates (RingName.temp_tx_ring t q ∷ b.made) (RingName.temp_rx_ring t q)
        (tx≢rx t q, Before-Unused t q b.made (RingName.temp_rx_ring t q) names refl refl)

  one_ring-keeps :
      (t q i j : ℕ) (b : Buffers lib)
      → Before t q b.made
      → IsMade b i j
      → IsMade (next_ring lib t q b) i j
  unfolding next_ring
  one_ring-keeps t q i j b names m = record {
    to_send =
        put_at-keeps (λ o. (r : Ring) × (o ≡ some r)) b.txring i j t q
          (init_ring lib b.made (RingName.temp_tx_ring t q)).0 (tx_made t q b names) m.to_send;
    received =
        put_at-keeps (λ o. (r : Ring) × (o ≡ some r)) b.rxring i j t q
          (init_ring lib (RingName.temp_tx_ring t q ∷ b.made) (RingName.temp_rx_ring t q)).0
          (rx_made t q b names) m.received;
    before = put_at-keeps (λ v. v ≡ 0) b.before_enqueue i j t q 0 refl m.before;
    after = put_at-keeps (λ v. v ≡ 0) b.after_enqueue i j t q 0 refl m.after;
    dequeued = put_at-keeps (λ v. v ≡ 0) b.after_dequeue i j t q 0 refl m.dequeued;
  }

  one_ring-IsMade :
      (t q : ℕ) (b : Buffers lib) → Before t q b.made → IsMade (next_ring lib t q b) t q
  unfolding next_ring
  one_ring-IsMade t q b names = record {
    to_send =
        put_at_self (λ o. (r : Ring) × (o ≡ some r)) b.txring t q
          (init_ring lib b.made (RingName.temp_tx_ring t q)).0 (tx_made t q b names);
    received =
        put_at_self (λ o. (r : Ring) × (o ≡ some r)) b.rxring t q
          (init_ring lib (RingName.temp_tx_ring t q ∷ b.made) (RingName.temp_rx_ring t q)).0
          (rx_made t q b names);
    before = put_at_self (λ v. v ≡ 0) b.before_enqueue t q 0 refl;
    after = put_at_self (λ v. v ≡ 0) b.after_enqueue t q 0 refl;
    dequeued = put_at_self (λ v. v ≡ 0) b.after_dequeue t q 0 refl;
  }

  init_rings-Rings :
      (n t q : ℕ) (b : Buffers lib)
      → t < 16
      → q + n ≤ 16
      → Before t q b.made
      → (b' : Buffers lib) × (init_rings lib n t q b ≡ ok b') × Rings n t q b b'
  unfolding init_rings next_ring
  init_rings-Rings zero t q b h few names =
      let e : q + 0 ≡ q = omega arith in
      (
        b,
        refl,
        record {
          keeps = λ i j m. m;
          makes = λ j lo hi. absurd (omega arith);
          names = rw e names;
          sizes = refl;
          same = record { packets = refl; queues = refl; sleeps = (refl, refl) };
        },
      )
  init_rings-Rings (suc n) t q b h few names =
      let e : q + 1 ≡ suc q = omega arith in
      let e' : q + suc n ≡ q + 1 + n = omega arith in
      let later = Before-suc t q b.made names in
      let here : (t < t) ⊎ ((t ≡ t) × (q < suc q)) = inr (refl, omega arith) in
      let (b', run, r) =
        init_rings-Rings n t (q + 1) (next_ring lib t q b) h (omega arith)
          (subst (λ z. Before t z (next_ring lib t q b).made) (sym e) (here, (here, later))) in
      (
        b',
        ring-step lib n t q b h (omega arith) ∙ run,
        record {
          keeps = λ i j m. r.keeps i j (one_ring-keeps t q i j b names m);
          makes = λ j lo hi. elim (eq-cases j q) [
            | inl x ↦ rw x (r.keeps t q (one_ring-IsMade t q b names))
            | inr ne ↦ r.makes j (omega (arith, ne)) (omega arith)
          ];
          names = rw e' r.names;
          sizes = r.sizes;
          same = record {
            packets = r.same.packets;
            queues = r.same.queues;
            sleeps = r.same.sleeps;
          };
        },
      )

  -- What the loop over the ports leaves: of the ports below `p`, and of the rest of the fields.
  pub record Ports (ctx : Context) (p : ℕ) (b b' : Buffers lib) : Type 0 where
    pub rings : (i j : ℕ) → i < p → j < ctx.port_ringnum i → IsMade b' i j
    pub sizes : (i : ℕ) → i < p → b'.rxsize i ≡ 0
    pub names : Before p 0 b'.made
    pub same : Same b b'

  module _ (ctx : Context) (o : InOrder ctx)
      (few_rings : (p : ℕ) → p < ctx.port_num → ctx.port_ringnum p ≤ 16) where
    sized-IsMade : (p i j : ℕ) (b : Buffers lib) → IsMade b i j → IsMade (sized lib p b) i j
    sized-IsMade p i j b m = record {
      to_send = m.to_send;
      received = m.received;
      before = m.before;
      after = m.after;
      dequeued = m.dequeued;
    }

    next-Ports :
        (p : ℕ) (b b1 b2 : Buffers lib)
        → Ports ctx p b b1
        → Rings (ctx.port_ringnum p) p 0 b1 b2
        → Ports ctx (suc p) b (sized lib p b2)
    next-Ports p b b1 b2 s r = record {
      rings = λ i j h h'. elim (eq-cases i p) [
        | inl x ↦
            let below : j < ctx.port_ringnum p = subst (λ z. j < ctx.port_ringnum z) x h' in
            rw x (sized-IsMade p p j b2 (r.makes j (omega arith) (omega arith)))
        | inr ne ↦ sized-IsMade p i j b2 (r.keeps i j (s.rings i j (omega (arith, ne)) h'))
      ];
      sizes = λ i h. elim (eq-cases i p) [
        | inl x ↦ rw (eq→== i p x) refl
        | inr ne ↦
            let old = s.sizes i (omega (arith, ne)) in
            elim (Bool-cases (i == p)) [
              | inl e ↦ rw e refl
              | inr e ↦ rw e (ap (λ a. a i) r.sizes ∙ old)
            ]
      ];
      names = Before-next p (0 + ctx.port_ringnum p) b2.made r.names;
      same = record {
        packets = r.same.packets ∙ s.same.packets;
        queues = r.same.queues ∙ s.same.queues;
        sleeps = (r.same.sleeps.0 ∙ s.same.sleeps.0, r.same.sleeps.1 ∙ s.same.sleeps.1);
      };
    }

    all-Ports :
        (n p : ℕ) (b b1 : Buffers lib)
        → p + n ≡ ctx.port_num
        → Ports ctx p b b1
        → (b' : Buffers lib) × (init_port_rings lib n p ctx b1 ≡ ok b')
          × Ports ctx ctx.port_num b b'
    unfolding init_port_rings
    all-Ports zero p b b1 e s =
        let done : p ≡ ctx.port_num = omega (arith, e) in
        (b1, refl, subst (λ z. Ports ctx z b b1) done s)
    all-Ports (suc n) p b b1 e s =
        let lt : p < ctx.port_num = omega (arith, e) in
        let fits : 0 + ctx.port_ringnum p ≤ 16 = let f = few_rings p lt in omega (arith, f) in
        let (b2, run, r) =
          init_rings-Rings (ctx.port_ringnum p) p 0 b1 (omega (arith, o.few)) fits s.names in
        let step : p + 1 ≡ suc p = omega arith in
        let (b', run', s') =
          all-Ports n (suc p) b (sized lib p b2) (omega (arith, e)) (next-Ports p b b1 b2 s r) in
        (
          b',
          port-step lib ctx o n p b1 b2 lt run
              ∙ ap (λ k. init_port_rings lib n k ctx (sized lib p b2)) step
              ∙ run',
          s',
        )

    -- Where the ports are listed in order, each has at most 16 rings, no ring has a name yet, and a
    -- ring is made for each name that is not used, the loop returns.
    pub init_port_rings-Ports :
        (b : Buffers lib)
        → b.made ≡ []
        → (b' : Buffers lib) × (init_port_rings lib ctx.port_num 0 ctx b ≡ ok b')
          × Ports ctx ctx.port_num b b'
    init_port_rings-Ports b none = all-Ports ctx.port_num 0 b b (omega arith) (record {
      rings = λ i j h. absurd (omega arith);
      sizes = λ i h. absurd (omega arith);
      names = rw none tt;
      same = record { packets = refl; queues = refl; sleeps = (refl, refl) };
    })
