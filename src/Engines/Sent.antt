-- ===== src/Engines/Sent.antt =====
-- What becomes of the packets of a burst.
use platform.Common.{ℕ, zero, suc, ◌+◌, ◌-◌, ◌%◌, ◌^◌, ◌≤◌, ◌<◌, ◌≡◌, refl, ◌∙◌, sym, ap, arith}
use platform.Common.{Bool, true, false, ltb, ◌==◌, if◌then◌else◌, Bool-cases, inl, inr}
use platform.Common.{List, [], ◌∷◌, ◌++◌, length, take, drop, append_nil}
use platform.Common.{take_append_drop, length-take_all, length-drop}
use platform.Running.{Tally}
use platform.Engines.{Packet, Sending, rewrite_burst, tx_burst, retries, send, forward_burst}

pub length-rewrite_burst :
    (f : Packet → Packet) (mbs : List Packet) → length (rewrite_burst f mbs) ≡ length mbs
unfolding rewrite_burst
length-rewrite_burst f [] = refl
length-rewrite_burst f (mb ∷ mbs) = ap suc (length-rewrite_burst f mbs)

take_nil : (n : ℕ) → ◌≡◌ {A = List Packet} (take n []) []
take_nil zero = refl
take_nil (suc n) = refl

-- A longer prefix is a prefix and a prefix of the rest.
take-add : (a b : ℕ) (xs : List Packet) → take a xs ++ take b (drop a xs) ≡ take (a + b) xs
take-add zero b xs = let e : 0 + b ≡ b = omega arith in rw e refl
take-add (suc a) b [] = let e : suc a + b ≡ suc (a + b) = omega arith in rw e (take_nil b)
take-add (suc a) b (x ∷ xs) =
    let e : suc a + b ≡ suc (a + b) = omega arith in rw e (ap (λ l. x ∷ l) (take-add a b xs))

pub take_all : (xs : List Packet) → take (length xs) xs ≡ xs
take_all [] = refl
take_all (x ∷ xs) = ap (λ l. x ∷ l) (take_all xs)

module _ (taken : ℕ → ℕ → ℕ) (within : (k n : ℕ) → taken k n ≤ n) (pkts : List Packet)
    (short : length pkts < 2 ^ 16) where
  -- The device has the first packets, in their order, and no more calls than `limit` were made.
  record IsPrefix (limit : ℕ) (s : Sending) : Type 0 where
    inside : s.nb_tx ≤ length pkts
    first : s.wire ≡ take s.nb_tx pkts
    few_calls : s.calls ≤ limit

  tx_burst-IsPrefix :
      (limit : ℕ) (s : Sending) → IsPrefix limit s → IsPrefix (limit + 1) (tx_burst taken pkts s)
  unfolding tx_burst
  tx_burst-IsPrefix limit s p =
      let offered = drop s.nb_tx pkts in
      let n = taken s.calls (length offered) in
      let in_reach = p.inside in
      let left = length-drop s.nb_tx pkts p.inside in
      let fits = within s.calls (length offered) in
      let same : (s.nb_tx + n) % 2 ^ 16 ≡ s.nb_tx + n = omega (arith, left, fits, short) in
      record {
        inside = rw same (omega (arith, left, fits));
        first = rw same (ap (λ w. w ++ take n offered) p.first ∙ take-add s.nb_tx n pkts);
        few_calls = let few = p.few_calls in omega (arith, few);
      }

  retries-IsPrefix :
      (n limit : ℕ) (s : Sending) → IsPrefix limit s → IsPrefix (limit + n) (retries taken n pkts s)
  unfolding retries
  retries-IsPrefix zero limit s p = let e : limit + 0 ≡ limit = omega arith in rw e p
  retries-IsPrefix (suc n) limit s p = elim (Bool-cases (ltb s.nb_tx (length pkts))) [
    | inl e ↦
        let x : limit + suc n ≡ limit + 1 + n = omega arith in
        rw (e, x)
          (retries-IsPrefix n (limit + 1) (tx_burst taken pkts s) (tx_burst-IsPrefix limit s p))
    | inr e ↦ rw e (record {
      inside = p.inside;
      first = p.first;
      few_calls = let few = p.few_calls in omega (arith, few);
    })
  ]

  send-IsPrefix :
      (retry_enabled : Bool) (num : ℕ)
      → IsPrefix (if retry_enabled then 1 + num else 1) (send taken retry_enabled num pkts)
  unfolding send
  send-IsPrefix retry_enabled num =
      let start : Sending = record { calls = 0; wire = []; nb_tx = 0 } in
      let begun : IsPrefix 0 start = record {
        inside = omega arith;
        first = refl;
        few_calls = omega arith;
      } in
      let one : IsPrefix (0 + 1) (tx_burst taken pkts start) = tx_burst-IsPrefix 0 start begun in
      elim (Bool-cases (ltb (tx_burst taken pkts start).nb_tx (length pkts))) [
        | inr e ↦ rw e (weaker retry_enabled num (tx_burst taken pkts start) one)
        | inl e ↦ rw e (both retry_enabled num (tx_burst taken pkts start) one)
      ]
    where
      weaker :
          (b : Bool) (n : ℕ) (s : Sending)
          → IsPrefix (0 + 1) s
          → IsPrefix (if b then 1 + n else 1) s
      weaker true n s p = record {
        inside = p.inside;
        first = p.first;
        few_calls = let few = p.few_calls in omega (arith, few);
      }
      weaker false n s p = p

      both :
          (b : Bool) (n : ℕ) (s : Sending)
          → IsPrefix (0 + 1) s
          → IsPrefix (if b then 1 + n else 1) (if b then retries taken n pkts s else s)
      both true n s p = retries-IsPrefix n 1 s p
      both false n s p = p

-- What becomes of a burst: every packet is rewritten and then taken by the device or freed, in their
-- order, and the counters say how many. `r` is the counters, what is sent and what is freed.
pub record Forwarded (f : Packet → Packet) (limit : ℕ) (received : List Packet) (c : Tally)
    (r : Tally × Sending × List Packet) : Type 0 where
  pub all_packets : r.1.wire ++ r.2 ≡ rewrite_burst f received
  pub received_counted : r.0.rx_packets % 2 ^ 32 ≡ (c.rx_packets + length received) % 2 ^ 32
  pub sent_counted : r.0.tx_packets % 2 ^ 32 ≡ (c.tx_packets + length r.1.wire) % 2 ^ 32
  pub dropped_counted : r.0.fwd_dropped % 2 ^ 32 ≡ (c.fwd_dropped + length r.2) % 2 ^ 32
  pub few_calls : r.1.calls ≤ limit

pub no_packets : (f : Packet → Packet) (xs : List Packet) → length xs ≡ 0 → rewrite_burst f xs ≡ []
unfolding rewrite_burst
no_packets f [] e = refl
no_packets f (x ∷ xs) e = absurd (omega (arith, e))

-- Each way that a burst ends, from what is sent of the rewritten packets.
counts :
    (f : Packet → Packet) (limit : ℕ) (received pkts : List Packet) (c : Tally) (s : Sending)
    → rewrite_burst f received ≡ pkts
    → length pkts ≡ length received
    → s.nb_tx ≤ length pkts
    → s.wire ≡ take s.nb_tx pkts
    → s.calls ≤ limit
    → let counted = record c {
      rx_packets = (c.rx_packets + length received) % 2 ^ 32;
      tx_packets = (c.tx_packets + s.nb_tx) % 2 ^ 32;
    } in
      Forwarded f limit received c (
        if length received == 0
        then (c, record { calls = 0; wire = []; nb_tx = 0 }, [])
        else if ltb s.nb_tx (length received)
        then (
          record counted { fwd_dropped = (c.fwd_dropped + (length received - s.nb_tx)) % 2 ^ 32 },
          s,
          drop s.nb_tx pkts,
        )
        else (counted, s, []))
counts f limit received pkts c s same len inside first few =
    let sent : length s.wire ≡ s.nb_tx = ap length first ∙ length-take_all s.nb_tx pkts inside in
    let left = length-drop s.nb_tx pkts inside in
    elim (Bool-cases (length received == 0)) [
      | inl e ↦
          let none : length received ≡ 0 = ground (arith, e) in
          rw e (record {
            all_packets = sym (no_packets f received none);
            received_counted = omega (arith, none);
            sent_counted = omega arith;
            dropped_counted = omega arith;
            few_calls = omega (arith, few);
          })
      | inr e ↦ elim (Bool-cases (ltb s.nb_tx (length received))) [
        | inl lt ↦
            rw (e, lt)
              (record {
                all_packets =
                    ap (λ w. w ++ drop s.nb_tx pkts) first
                    ∙ take_append_drop s.nb_tx pkts
                    ∙ sym same;
                received_counted = omega arith;
                sent_counted = omega (arith, sent);
                dropped_counted = omega (arith, left, len);
                few_calls = few;
              })
        | inr ge ↦
            let most : length received ≤ s.nb_tx = ground (arith, ge) in
            let whole : s.nb_tx ≡ length pkts = omega (arith, most, inside, len) in
            rw (e, ge)
              (record {
                all_packets =
                    append_nil s.wire
                    ∙ first
                    ∙ ap (λ (n : ℕ). take n pkts) whole
                    ∙ take_all pkts
                    ∙ sym same;
                received_counted = omega arith;
                sent_counted = omega (arith, sent);
                dropped_counted = omega arith;
                few_calls = few;
              })
      ]
    ]

-- If the device never takes more packets than it is offered, each packet of a burst of fewer than
-- 65536 is rewritten.
pub forward_burst-Forwarded :
    (taken : ℕ → ℕ → ℕ) (f : Packet → Packet) (retry_enabled : Bool) (num : ℕ)
    (received : List Packet) (c : Tally)
    → ((k n : ℕ) → taken k n ≤ n)
    → length received < 2 ^ 16
    → Forwarded f
        (if retry_enabled then 1 + num else 1)
        received
        c
        (forward_burst taken f retry_enabled num received c)
unfolding forward_burst
forward_burst-Forwarded taken f retry_enabled num received c within short =
    let pkts = rewrite_burst f received in
    let len = length-rewrite_burst f received in
    let p = send-IsPrefix taken within pkts (omega (arith, len, short)) retry_enabled num in
    counts f (if retry_enabled then 1 + num else 1) received pkts c
      (send taken retry_enabled num pkts) refl len p.inside p.first p.few_calls
