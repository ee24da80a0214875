-- ===== src/Arguments.antt =====
-- The options of the program: `l2fwd_parse_args` of src/CaptureDpdk/dpdk.c and the functions that
-- parse their values. What `getopt_long` returns in turn is a list; `strtoul` and `strtol` are
-- parameters, which give the number and the characters behind it. A string is its characters.
pub mod Accept
pub mod Complete
use platform.Common.{ℕ, zero, suc, ◌+◌, ◌-◌, ◌*◌, ◌%◌, ◌^◌, List, [], ◌∷◌, Option, none, some}
use platform.Common.{
  Outcome, ok, exited, fault, ltb, leb, ◌==◌, ◌&&◌, ◌||◌, not, if◌then◌else◌, Bool, true, false,
}
use platform.Common.Int.{ℤ, pos, negsuc, ltb_ℤ, signed32, unsigned}
use platform.Device.{Context, max_core_size}

abbrev pub String : Type 0
String = List ℕ

-- `strtoul` in a base, and `strtol` in base 10; the 64-bit numbers that they return.
pub record Strto : Type 0 where
  pub strtoul : String → ℕ → ℕ × String
  pub strtol : String → ℤ × String

-- What `getopt_long` returns: a letter with its argument, a long option, or anything else.
pub data Opt : Type 0 where
  portmask : String → Opt
  thread_mode : String → Opt
  queue_mode : String → Opt
  core_start : String → Opt
  timer_period : String → Opt
  long_option : Opt
  unknown : Opt

abbrev pub max_timer_period : ℕ
max_timer_period = 86400

abbrev pub timer_millisecond : ℕ
timer_millisecond = 2000000

abbrev pub is_empty : String → Bool
is_empty [] = true
is_empty (c ∷ s) = false

-- `(arg[0] == '\0') || (end == NULL) || (*end != '\0')`
abbrev pub malformed : String → String → Bool
malformed arg end = is_empty arg || not (is_empty end)

-- The `int` with a given 64-bit pattern.
abbrev pub signed64 : ℕ → ℤ
signed64 w = if ltb w (2 ^ 63) then pos w else negsuc (2 ^ 64 - w - 1)

-- `n * 1000` as an `int`.
abbrev pub thousand : ℤ → Outcome ℤ
thousand (pos n) = if ltb (n * 1000) (2 ^ 31) then ok (pos (n * 1000)) else fault
thousand (negsuc n) =
    if leb ((n + 1) * 1000) (2 ^ 31) then ok (negsuc ((n + 1) * 1000 - 1)) else fault

-- The period times `TIMER_MILLISECOND`, which is `unsigned long long`, as an `int64_t`.
abbrev pub in_cycles : ℤ → ℤ
in_cycles z = signed64 ((unsigned 64 z * timer_millisecond) % 2 ^ 64)

-- The rest of the case of the timer period.
abbrev pub set_timer : Outcome ℤ → Context → Outcome (Option Context)
set_timer (ok n) ctx =
    let period = in_cycles n in
    if ltb_ℤ period (pos 0) then ok none else ok (some (record ctx { timer_period = period }))
set_timer exited ctx = fault
set_timer fault ctx = fault

-- On to the next option, or out of the loop.
abbrev pub continue :
    Outcome (Option Context) → (Context → Outcome (Option Context)) → Outcome (Option Context)
continue (ok (some c)) k = k c
continue (ok none) k = ok none
continue exited k = fault
continue fault k = fault

module _ (lib : Strto) where
  open lib use {strtoul, strtol}

  pub parse_portmask : String → ℤ
  parse_portmask arg =
      let (pm, end) = strtoul arg 16 in
      if malformed arg end then negsuc 0 else if pm == 0 then negsuc 0 else signed32 (pm % 2 ^ 32)

  pub parse_s : String → ℕ
  parse_s arg =
      let (m, end) = strtoul arg 10 in
      if malformed arg end then 0 else if leb max_core_size m then 0 else m % 2 ^ 32

  -- `l2fwd_parse_m` and `l2fwd_parse_M` are the same text.
  pub parse_mode : String → ℕ
  parse_mode arg =
      let (m, end) = strtoul arg 10 in
      if malformed arg end then 0 else if not (m == 1) && not (m == 2) then 0 else m % 2 ^ 32

  pub parse_timer_period : String → ℤ
  parse_timer_period arg =
      let (l, end) = strtol arg in
      let n = signed32 (unsigned 32 l) in
      if malformed arg end
      then negsuc 0
      else if not (ltb_ℤ n (pos max_timer_period))
      then negsuc 0
      else n

  -- The body of the loop over the options; `none` is the return of -1.
  pub parse_option : Opt → Context → Outcome (Option Context)
  parse_option (portmask arg) ctx =
      let mask = unsigned 32 (parse_portmask arg) in
      if mask == 0 then ok none else ok (some (record ctx { enabled_port_mask = mask }))
  parse_option (thread_mode arg) ctx =
      let m = parse_mode arg in
      if not (m == 1) && not (m == 2) then ok none else ok (some (record ctx { thread_mode = m }))
  parse_option (queue_mode arg) ctx =
      let m = parse_mode arg in
      if not (m == 1) && not (m == 2) then ok none else ok (some (record ctx { queue_mode = m }))
  parse_option (core_start arg) ctx =
      let s = parse_s arg % 2 ^ 16 in
      if leb s 0 then ok none else ok (some (record ctx { start = s }))
  parse_option (timer_period arg) ctx = set_timer (thousand (parse_timer_period arg)) ctx
  parse_option long_option ctx = ok none
  parse_option unknown ctx = ok none

  pub parse_args : List Opt → Context → Outcome (Option Context)
  parse_args [] ctx = ok (some ctx)
  parse_args (opt ∷ opts) ctx = continue (parse_option opt ctx) (λ c. parse_args opts c)
