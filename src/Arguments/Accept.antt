-- ===== src/Arguments/Accept.antt =====
-- Which options are accepted, and what the accepted ones set.
use platform.Common.{ℕ, ◌-◌, ◌%◌, ◌^◌, ◌<◌, ◌≡◌, refl, ◌∙◌, sym, ap, ◌⊎◌, inl, inr, arith}
use platform.Common.{List, [], ◌∷◌, Option, none, some, Outcome, ok, exited, fault}
use platform.Common.{leb, ◌==◌, ◌&&◌, not, true, false, Bool-cases, eq-cases, ne→==}
use platform.Common.Int.{ℤ, pos, negsuc, ltb_ℤ, unsigned}
use mathlib.Core.Path.{subst}
use platform.Device.{Context}
use platform.Arguments.{String, Strto, Opt, malformed, parse_portmask, parse_s, parse_mode}
use platform.Arguments.{
  parse_timer_period, parse_option, parse_args, thousand, in_cycles, set_timer, continue,
}

module _ (lib : Strto) where
  open lib use {strtoul, strtol}

  portmask-bad :
      (arg : String) (ctx : Context)
      → (malformed arg (strtoul arg 16).1 ≡ true) ⊎ ((strtoul arg 16).0 ≡ 0)
      → parse_option lib (Opt.portmask arg) ctx
        ≡ ok (some (record ctx { enabled_port_mask = 2 ^ 32 - 1 }))
  unfolding parse_option parse_portmask
  portmask-bad arg ctx (inl e) = rw e refl
  portmask-bad arg ctx (inr e) = elim (Bool-cases (malformed arg (strtoul arg 16).1)) [
    | inl b ↦ rw b refl
    | inr b ↦ rw (b, e) refl
  ]

  -- A port mask that is no number or is 0 is not refused: the parsing goes on with all 32 bits of
  -- the mask set.
  bad_portmask :
      (arg : String) (opts : List Opt) (ctx : Context)
      → (malformed arg (strtoul arg 16).1 ≡ true) ⊎ ((strtoul arg 16).0 ≡ 0)
      → parse_args lib (Opt.portmask arg ∷ opts) ctx
        ≡ parse_args lib opts (record ctx { enabled_port_mask = 2 ^ 32 - 1 })
  unfolding parse_args
  bad_portmask arg opts ctx h =
      ap (λ o. continue o (λ c. parse_args lib opts c)) (portmask-bad arg ctx h)

  -- What holds of the context after accepted options.
  pub record Accepted (ctx c : Context) : Type 0 where
    pub thread_mode_ok :
        (c.thread_mode ≡ ctx.thread_mode) ⊎ ((c.thread_mode ≡ 1) ⊎ (c.thread_mode ≡ 2))
    pub queue_mode_ok : (c.queue_mode ≡ ctx.queue_mode) ⊎ ((c.queue_mode ≡ 1) ⊎ (c.queue_mode ≡ 2))
    pub start_ok : (c.start ≡ ctx.start) ⊎ ((0 < c.start) × (c.start < 80))
    pub timer_ok : (c.timer_period ≡ ctx.timer_period) ⊎ ((n : ℕ) × (c.timer_period ≡ pos n))
    pub ports_same : (c.port_num ≡ ctx.port_num) × (c.ring_num ≡ ctx.ring_num)
    pub lists_same :
        (c.port_list ≡ ctx.port_list)
        × (c.port_ringnum ≡ ctx.port_ringnum)
        × (c.port_queuenum ≡ ctx.port_queuenum)

  abbrev IfAccepted : Context → Outcome (Option Context) → Type 0
  IfAccepted ctx (ok (some c)) = Accepted ctx c
  IfAccepted ctx _ = Unit {0}

  same : (ctx : Context) → Accepted ctx ctx
  same ctx = record {
    thread_mode_ok = inl refl;
    queue_mode_ok = inl refl;
    start_ok = inl refl;
    timer_ok = inl refl;
    ports_same = (refl, refl);
    lists_same = (refl, refl, refl);
  }

  mode-cases :
      (x : ℕ)
      → ((not (x == 1) && not (x == 2)) ≡ true)
        ⊎ (((not (x == 1) && not (x == 2)) ≡ false) × ((x ≡ 1) ⊎ (x ≡ 2)))
  mode-cases x = elim (eq-cases x 1) [
    | inl e ↦ inr (rw e (refl, inl refl))
    | inr n ↦ elim (eq-cases x 2) [
      | inl e ↦ inr (rw e (refl, inr refl))
      | inr n' ↦ inl (rw (ne→== x 1 n, ne→== x 2 n') refl)
    ]
  ]

  parse_s-lt : (arg : String) → parse_s lib arg < 80
  unfolding parse_s
  parse_s-lt arg = elim (Bool-cases (malformed arg (strtoul arg 10).1)) [
    | inl b ↦ rw b (omega arith)
    | inr b ↦ elim (Bool-cases (leb 80 (strtoul arg 10).0)) [
      | inl c ↦ rw (b, c) (omega arith)
      | inr c ↦
          let lt : (strtoul arg 10).0 < 80 = ground (arith, c) in rw (b, c) (omega (arith, lt))
    ]
  ]

  sign-cases :
      (z : ℤ) → (ltb_ℤ z (pos 0) ≡ true) ⊎ ((ltb_ℤ z (pos 0) ≡ false) × ((n : ℕ) × (z ≡ pos n)))
  sign-cases (pos n) = inr (ground arith, (n, refl))
  sign-cases (negsuc n) = inl (ground arith)

  timer-Accepted : (o : Outcome ℤ) (ctx : Context) → IfAccepted ctx (set_timer o ctx)
  timer-Accepted (ok z) ctx = elim (sign-cases (in_cycles z)) [
    | inl e ↦ rw e tt
    | inr (e, p) ↦ rw e (record {
      thread_mode_ok = inl refl;
      queue_mode_ok = inl refl;
      start_ok = inl refl;
      timer_ok = inr p;
      ports_same = (refl, refl);
      lists_same = (refl, refl, refl);
    })
  ]
  timer-Accepted exited ctx = tt
  timer-Accepted fault ctx = tt

  option-Accepted : (opt : Opt) (ctx : Context) → IfAccepted ctx (parse_option lib opt ctx)
  unfolding parse_option
  option-Accepted (Opt.portmask arg) ctx =
      elim (Bool-cases (unsigned 32 (parse_portmask lib arg) == 0)) [
        | inl e ↦ rw e tt
        | inr e ↦ rw e (record {
          thread_mode_ok = inl refl;
          queue_mode_ok = inl refl;
          start_ok = inl refl;
          timer_ok = inl refl;
          ports_same = (refl, refl);
          lists_same = (refl, refl, refl);
        })
      ]
  option-Accepted (Opt.thread_mode arg) ctx = elim (mode-cases (parse_mode lib arg)) [
    | inl e ↦ rw e tt
    | inr (e, p) ↦ rw e (record {
      thread_mode_ok = inr p;
      queue_mode_ok = inl refl;
      start_ok = inl refl;
      timer_ok = inl refl;
      ports_same = (refl, refl);
      lists_same = (refl, refl, refl);
    })
  ]
  option-Accepted (Opt.queue_mode arg) ctx = elim (mode-cases (parse_mode lib arg)) [
    | inl e ↦ rw e tt
    | inr (e, p) ↦ rw e (record {
      thread_mode_ok = inl refl;
      queue_mode_ok = inr p;
      start_ok = inl refl;
      timer_ok = inl refl;
      ports_same = (refl, refl);
      lists_same = (refl, refl, refl);
    })
  ]
  option-Accepted (Opt.core_start arg) ctx = elim (Bool-cases (leb (parse_s lib arg % 2 ^ 16) 0)) [
    | inl e ↦ rw e tt
    | inr e ↦
        let lo : 0 < parse_s lib arg % 2 ^ 16 = ground (arith, e) in
        rw e (record {
          thread_mode_ok = inl refl;
          queue_mode_ok = inl refl;
          start_ok = inr (lo, omega (arith, parse_s-lt arg));
          timer_ok = inl refl;
          ports_same = (refl, refl);
          lists_same = (refl, refl, refl);
        })
  ]
  option-Accepted (Opt.timer_period arg) ctx =
      timer-Accepted (thousand (parse_timer_period lib arg)) ctx
  option-Accepted Opt.long_option ctx = tt
  option-Accepted Opt.unknown ctx = tt

  after :
      {A : Type 0} {a b : A} (P : A → Type 0) {c : A}
      → (b ≡ a) ⊎ P b
      → (c ≡ b) ⊎ P c
      → (c ≡ a) ⊎ P c
  after P (inl x) (inl y) = inl (y ∙ x)
  after P (inr p) (inl y) = inr (subst P (sym y) p)
  after P x (inr p) = inr p

  both : (ctx c c' : Context) → Accepted ctx c → Accepted c c' → Accepted ctx c'
  both ctx c c' x y = record {
    thread_mode_ok = after (λ m. (m ≡ 1) ⊎ (m ≡ 2)) x.thread_mode_ok y.thread_mode_ok;
    queue_mode_ok = after (λ m. (m ≡ 1) ⊎ (m ≡ 2)) x.queue_mode_ok y.queue_mode_ok;
    start_ok = after (λ s. (0 < s) × (s < 80)) x.start_ok y.start_ok;
    timer_ok = after (λ t. (n : ℕ) × (t ≡ pos n)) x.timer_ok y.timer_ok;
    ports_same = (y.ports_same.0 ∙ x.ports_same.0, y.ports_same.1 ∙ x.ports_same.1);
    lists_same = (
      y.lists_same.0 ∙ x.lists_same.0,
      y.lists_same.1 ∙ x.lists_same.1,
      y.lists_same.2 ∙ x.lists_same.2,
    );
  }

  continue-Accepted :
      (ctx : Context) (o : Outcome (Option Context)) (k : Context → Outcome (Option Context))
      → IfAccepted ctx o
      → ((c : Context) → Accepted ctx c → IfAccepted ctx (k c))
      → IfAccepted ctx (continue o k)
  continue-Accepted ctx (ok (some c)) k x f = f c x
  continue-Accepted ctx (ok none) k x f = tt
  continue-Accepted ctx exited k x f = tt
  continue-Accepted ctx fault k x f = tt

  weaken :
      (ctx c : Context) (o : Outcome (Option Context))
      → Accepted ctx c
      → IfAccepted c o
      → IfAccepted ctx o
  weaken ctx c (ok (some c')) x y = both ctx c c' x y
  weaken ctx c (ok none) x y = tt
  weaken ctx c exited x y = tt
  weaken ctx c fault x y = tt

  all-Accepted : (opts : List Opt) (ctx : Context) → IfAccepted ctx (parse_args lib opts ctx)
  unfolding parse_args
  all-Accepted [] ctx = same ctx
  all-Accepted (opt ∷ opts) ctx =
      continue-Accepted ctx (parse_option lib opt ctx) (λ c. parse_args lib opts c)
        (option-Accepted opt ctx)
        (λ c x. weaken ctx c (parse_args lib opts c) x (all-Accepted opts c))

  -- Whatever options l2fwd_parse_args accepts, each mode is then 1 or 2 or as before, the first
  -- core from 1 to 79 or as before, the timer period not negative or as before, and the numbers
  -- of ports and rings as before.
  pub args-Accepted :
      (opts : List Opt) (ctx c : Context) → parse_args lib opts ctx ≡ ok (some c) → Accepted ctx c
  args-Accepted opts ctx c e = subst (IfAccepted ctx) e (all-Accepted opts ctx)
