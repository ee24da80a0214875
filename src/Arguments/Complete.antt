-- ===== src/Arguments/Complete.antt =====
-- A full set of well-formed options, and what it sets.
use platform.Common.{ℕ, ◌*◌, ◌%◌, ◌^◌, ◌<◌, ◌≡◌, refl, ◌∙◌, ap, ◌⊎◌, inl, inr, arith}
use platform.Common.{List, [], ◌∷◌, some, ok}
use platform.Common.{ltb, leb, ◌==◌, ◌&&◌, not, true, false, ne→==}
use platform.Common.Int.{pos, ltb_ℤ, signed32, unsigned}
use platform.Device.{Context}
use platform.Arguments.{String, Strto, Opt, is_empty, parse_portmask, parse_s, parse_mode}
use platform.Arguments.{parse_timer_period, parse_option, parse_args, thousand, set_timer, continue}

unsigned-signed32 : (w : ℕ) → w < 2 ^ 32 → unsigned 32 (signed32 w) ≡ w
unsigned-signed32 w h = ground arith

module _ (lib : Strto) where
  open lib use {strtoul, strtol}

  -- The whole of a string is a number in a base.
  pub record IsNumber (arg : String) (base n : ℕ) : Type 0 where
    pub not_empty : is_empty arg ≡ false
    pub reads : strtoul arg base ≡ (n, [])

  pub record IsPeriod (arg : String) (n : ℕ) : Type 0 where
    pub not_empty : is_empty arg ≡ false
    pub reads : strtol arg ≡ (pos n, [])

  portmask-sets :
      (arg : String) (n : ℕ) (ctx : Context)
      → IsNumber arg 16 n
      → 0 < n
      → n < 2 ^ 32
      → parse_option lib (Opt.portmask arg) ctx ≡ ok (some (record ctx { enabled_port_mask = n }))
  unfolding parse_option parse_portmask
  portmask-sets arg n ctx x lo hi =
      let small : n % 2 ^ 32 ≡ n = omega arith in
      rw
        (
          x.reads,
          x.not_empty,
          ne→== n 0 (λ e. absurd (omega (arith, e))),
          small,
          unsigned-signed32 n hi,
          ne→== n 0 (λ e. absurd (omega (arith, e))),
        )
        refl

  core_start-sets :
      (arg : String) (n : ℕ) (ctx : Context)
      → IsNumber arg 10 n
      → 0 < n
      → n < 80
      → parse_option lib (Opt.core_start arg) ctx ≡ ok (some (record ctx { start = n }))
  unfolding parse_option parse_s
  core_start-sets arg n ctx x lo hi =
      let below : leb 80 n ≡ false = ground arith in
      let above : leb n 0 ≡ false = ground arith in
      let small : n % 2 ^ 32 ≡ n = omega arith in
      let small' : n % 2 ^ 16 ≡ n = omega arith in
      rw (x.reads, x.not_empty, below, small, small', above) refl

  parse_mode-reads :
      (arg : String) (n : ℕ) → IsNumber arg 10 n → (n ≡ 1) ⊎ (n ≡ 2) → parse_mode lib arg ≡ n
  unfolding parse_mode
  parse_mode-reads arg n x (inl e) = rw (x.reads, x.not_empty, e) refl
  parse_mode-reads arg n x (inr e) = rw (x.reads, x.not_empty, e) refl

  is_mode : (n : ℕ) → (n ≡ 1) ⊎ (n ≡ 2) → (not (n == 1) && not (n == 2)) ≡ false
  is_mode n (inl e) = rw e refl
  is_mode n (inr e) = rw e refl

  thread_mode-sets :
      (arg : String) (n : ℕ) (ctx : Context)
      → IsNumber arg 10 n
      → (n ≡ 1) ⊎ (n ≡ 2)
      → parse_option lib (Opt.thread_mode arg) ctx ≡ ok (some (record ctx { thread_mode = n }))
  unfolding parse_option
  thread_mode-sets arg n ctx x m = rw (parse_mode-reads arg n x m, is_mode n m) refl

  queue_mode-sets :
      (arg : String) (n : ℕ) (ctx : Context)
      → IsNumber arg 10 n
      → (n ≡ 1) ⊎ (n ≡ 2)
      → parse_option lib (Opt.queue_mode arg) ctx ≡ ok (some (record ctx { queue_mode = n }))
  unfolding parse_option
  queue_mode-sets arg n ctx x m = rw (parse_mode-reads arg n x m, is_mode n m) refl

  parse_timer_period-reads :
      (arg : String) (n : ℕ) → IsPeriod arg n → n < 86400 → parse_timer_period lib arg ≡ pos n
  unfolding parse_timer_period
  parse_timer_period-reads arg n x h =
      let small : n % 2 ^ 32 ≡ n = omega arith in
      let positive : ltb n (2 ^ 31) ≡ true = ground arith in
      let allowed : ltb_ℤ (pos n) (pos 86400) ≡ true = ground arith in
      rw (x.reads, x.not_empty, small, positive, allowed) refl

  cycles :
      (n : ℕ) (ctx : Context)
      → n < 86400
      → set_timer (thousand (pos n)) ctx
        ≡ ok (some (record ctx { timer_period = pos (n * 2000000000) }))
  cycles n ctx h =
      let fits : ltb (n * 1000) (2 ^ 31) ≡ true = ground arith in
      let w : ((n * 1000) % 2 ^ 64 * 2000000) % 2 ^ 64 ≡ n * 2000000000 = omega arith in
      let fits' : ltb (n * 2000000000) (2 ^ 63) ≡ true = ground arith in
      let positive : ltb_ℤ (pos (n * 2000000000)) (pos 0) ≡ false = ground arith in
      rw (fits, w, fits', positive) refl

  timer_period-sets :
      (arg : String) (n : ℕ) (ctx : Context)
      → IsPeriod arg n
      → n < 86400
      → parse_option lib (Opt.timer_period arg) ctx
        ≡ ok (some (record ctx { timer_period = pos (n * 2000000000) }))
  unfolding parse_option
  timer_period-sets arg n ctx x h = rw (parse_timer_period-reads arg n x h) (cycles n ctx h)

  step :
      (opt : Opt) (opts : List Opt) (ctx c : Context)
      → parse_option lib opt ctx ≡ ok (some c)
      → parse_args lib (opt ∷ opts) ctx ≡ parse_args lib opts c
  unfolding parse_args
  step opt opts ctx c e = ap (λ o. continue o (λ c'. parse_args lib opts c')) e

  last :
      (opt : Opt) (ctx c : Context)
      → parse_option lib opt ctx ≡ ok (some c)
      → parse_args lib (opt ∷ []) ctx ≡ ok (some c)
  unfolding parse_args
  last opt ctx c e = step opt [] ctx c e

  -- If the port mask, the first core, the two modes and the period are each a number in its
  -- range, l2fwd_parse_args accepts the options and sets exactly these five fields, the period in
  -- cycles of 2 GHz.
  pub full_options :
      (p s m q t : String) (mask first mode mode' seconds : ℕ) (ctx : Context)
      → IsNumber p 16 mask
      → IsNumber s 10 first
      → IsNumber m 10 mode
      → IsNumber q 10 mode'
      → IsPeriod t seconds
      → 0 < mask
      → mask < 2 ^ 32
      → 0 < first
      → first < 80
      → (mode ≡ 1) ⊎ (mode ≡ 2)
      → (mode' ≡ 1) ⊎ (mode' ≡ 2)
      → seconds < 86400
      → parse_args lib
          (Opt.portmask p
            ∷ Opt.core_start s
            ∷ Opt.thread_mode m
            ∷ Opt.queue_mode q
            ∷ Opt.timer_period t
            ∷ [])
          ctx
        ≡ ok (
            some (record ctx {
              enabled_port_mask = mask;
              start = first;
              thread_mode = mode;
              queue_mode = mode';
              timer_period = pos (seconds * 2000000000);
            }))
  full_options p s m q t mask first mode mode' seconds ctx a b c d e lo hi lo' hi' is is' short =
      let c1 = record ctx { enabled_port_mask = mask } in
      let c2 = record c1 { start = first } in
      let c3 = record c2 { thread_mode = mode } in
      let c4 = record c3 { queue_mode = mode' } in
      step (Opt.portmask p)
        (Opt.core_start s ∷ Opt.thread_mode m ∷ Opt.queue_mode q ∷ Opt.timer_period t ∷ []) ctx c1
        (portmask-sets p mask ctx a lo hi)
      ∙ step (Opt.core_start s) (Opt.thread_mode m ∷ Opt.queue_mode q ∷ Opt.timer_period t ∷ []) c1
          c2 (core_start-sets s first c1 b lo' hi')
      ∙ step (Opt.thread_mode m) (Opt.queue_mode q ∷ Opt.timer_period t ∷ []) c2 c3
          (thread_mode-sets m mode c2 c is)
      ∙ step (Opt.queue_mode q) (Opt.timer_period t ∷ []) c3 c4 (queue_mode-sets q mode' c3 d is')
      ∙ last (Opt.timer_period t) c4 (record c4 { timer_period = pos (seconds * 2000000000) })
          (timer_period-sets t seconds c4 e short)
