-- ===== src/PortState/Operations/Exit.antt =====
-- The end of the program, `pmd_test_exit`.
use platform.Common.{
  ℕ, zero, suc, ◌+◌, ◌≤◌, ◌<◌, ◌≡◌, ◌≢◌, refl, ◌∙◌, sym, ap, Bool, true, false, if◌then◌else◌,
  arith,
}
use platform.Common.{Bool-cases, eq-cases, eq→==, ne→==, inl, inr}
use platform.Forwarding.{port_all}
use platform.PortState.{Status, Driver, Ports, status_of, foreach_port}
use platform.PortState.Operations.{
  stop_port, close_port, stop_one, close_one, applies, pmd_test_exit,
}
use platform.PortState.Operations.Stuck.{enabled_valid, either}
use platform.PortState.Operations.Alone.{
  Alone, refl-Alone, trans-Alone, Idle, stop_one-Rests, close_one-closed,
}

-- A loop whose body does nothing at any port from `i` on.
foreach_port-past :
    (n i : ℕ) (body : ℕ → Ports → Ports × Bool) (s : Ports)
    → ((j : ℕ) → i ≤ j → body j s ≡ (s, true))
    → (foreach_port n i body s).0 ≡ s
unfolding foreach_port
foreach_port-past zero i body s h = refl
foreach_port-past (suc n) i body s h =
    let rest = foreach_port-past n (i + 1) body s (λ j le. h j (omega arith)) in
    elim (Bool-cases (s.ports i).enabled) [
      | inl x ↦ rw (x, h i (omega arith)) rest
      | inr x ↦ rw x rest
    ]

-- A loop whose body works on one port only.
foreach_port-one :
    (n i k pid : ℕ) (f : Ports → Ports) (body : ℕ → Ports → Ports × Bool) (s : Ports)
    → i + k ≡ pid
    → k < n
    → (s.ports pid).enabled ≡ true
    → ((j : ℕ) (t : Ports) → j ≢ pid → body j t ≡ (t, true))
    → ((t : Ports) → body pid t ≡ (f t, true))
    → (foreach_port n i body s).0 ≡ f s
unfolding foreach_port
foreach_port-one zero i k pid f body s e lt on past here = absurd (omega arith)
foreach_port-one (suc n) i zero pid f body s e lt on past here =
    let now : i ≡ pid = omega (arith, e) in
    rw (now, on, here s)
      (foreach_port-past n (pid + 1) body (f s)
        (λ j le. past j (f s) (λ x. absurd (omega (arith, le, x)))))
foreach_port-one (suc n) i (suc k) pid f body s e lt on past here =
    let rest =
      foreach_port-one n (i + 1) k pid f body s (omega (arith, e)) (omega arith) on past here in
    elim (Bool-cases (s.ports i).enabled) [
      | inr x ↦ rw x rest
      | inl x ↦ rw (x, past i s (λ y. absurd (omega (arith, e, y)))) rest
    ]

-- The state that `stop_port` starts its loop from.
after_dcb : Ports → Ports
after_dcb s = if s.dcb_test then record s { dcb_test = false; dcb_config = false } else s

after_dcb-Alone : (pi : ℕ) (s : Ports) → Alone pi s (after_dcb s)
unfolding after_dcb
after_dcb-Alone pi s =
    either (Alone pi s) s.dcb_test s (record s { dcb_test = false; dcb_config = false })
      (refl-Alone pi s)
      (record { others = λ p ne. refl; enabled = refl; slave = refl; done = refl })

after_dcb-ports : (s : Ports) → (after_dcb s).ports ≡ s.ports
unfolding after_dcb
after_dcb-ports s =
    either (λ u. u.ports ≡ s.ports) s.dcb_test s (record s { dcb_test = false; dcb_config = false })
      refl refl

applies_self : (pi : ℕ) → applies pi pi ≡ true
applies_self pi = rw (eq→== pi pi refl) refl

applies_other : (pid j : ℕ) → pid ≢ port_all → j ≢ pid → applies pid j ≡ false
applies_other pid j other ne = rw (ne→== pid j (λ x. ne (sym x)), ne→== pid port_all other) refl

-- The operations on one enabled port are the bodies of their loops.
stop_port-one :
    (max : ℕ) (d : Driver) (pid : ℕ) (s : Ports)
    → pid < max
    → pid ≢ port_all
    → (s.ports pid).enabled ≡ true
    → stop_port max d pid s ≡ stop_one max d pid (after_dcb s)
unfolding stop_port after_dcb
stop_port-one max d pid s lt other on =
    let s' = after_dcb s in
    let on' : (s'.ports pid).enabled ≡ true = ap (λ f. (f pid).enabled) (after_dcb-ports s) ∙ on in
    rw (enabled_valid max pid s' lt other on') (
      foreach_port-one max 0 pid pid (stop_one max d pid)
        (λ i t. if applies pid i then (stop_one max d i t, true) else (t, true)) s' (omega arith) lt
        on' (λ j t ne. rw (applies_other pid j other ne) refl) (λ t. rw (applies_self pid) refl))

close_port-one :
    (max : ℕ) (d : Driver) (pid : ℕ) (s : Ports)
    → pid < max
    → pid ≢ port_all
    → (s.ports pid).enabled ≡ true
    → close_port max d pid s ≡ close_one max d pid s
unfolding close_port
close_port-one max d pid s lt other on = rw (enabled_valid max pid s lt other on) (
    foreach_port-one max 0 pid pid (close_one max d pid)
      (λ i t. if applies pid i then (close_one max d i t, true) else (t, true)) s (omega arith) lt
      on (λ j t ne. rw (applies_other pid j other ne) refl) (λ t. rw (applies_self pid) refl))

Alone-Idle : (d : Driver) (pi p : ℕ) (s t : Ports) → Alone pi s t → Idle d p s → Idle d p t
Alone-Idle d pi p s t a f = elim (eq-cases p pi) [
  | inl e ↦ record {
    done = a.done ∙ f.done;
    unbonded = f.unbonded;
    slave = (rw e a.slave) ∙ f.slave;
  }
  | inr ne ↦ record {
    done = a.done ∙ f.done;
    unbonded = f.unbonded;
    slave = ap (λ q. q.slave_flag) (a.others p ne) ∙ f.slave;
  }
]

shut :
    (max : ℕ) (d : Driver) (pi : ℕ) (s : Ports)
    → pi < max
    → pi ≢ port_all
    → (s.ports pi).enabled ≡ true
    → Idle d pi s
    → status_of s pi ≢ Status.handling
    → let t = close_port max d pi (stop_port max d pi s) in
      Alone pi s t × (status_of t pi ≡ Status.closed)
unfolding status_of
shut max d pi s lt other on f ne =
    let s' = after_dcb s in
    let a0 = after_dcb-Alone pi s in
    let ne' : status_of s' pi ≢ Status.handling =
      λ e. ne (ap (λ g. (g pi).port_status) (sym (after_dcb-ports s)) ∙ e) in
    let (a1, rests) = stop_one-Rests max d pi s' (Alone-Idle d pi pi s s' a0 f) ne' in
    let t = stop_one max d pi s' in
    let a = trans-Alone pi s s' t a0 a1 in
    let (a2, closed) = close_one-closed max d pi t (Alone-Idle d pi pi s t a f) rests in
    rw (stop_port-one max d pi s lt other on, close_port-one max d pi t lt other (a.enabled ∙ on))
      (trans-Alone pi s t (close_one max d pi t) a a2, closed)

exit_loop :
    (max : ℕ) (d : Driver) (n i : ℕ) (s : Ports)
    → i + n ≤ max
    → max ≤ port_all
    → ((p : ℕ) → p < max → Idle d p s × (status_of s p ≢ Status.handling))
    → let t = (foreach_port n i (λ pi u. (close_port max d pi (stop_port max d pi u), true)) s).0 in
      ((p : ℕ) → p < i → t.ports p ≡ s.ports p)
      × ((p : ℕ) → i ≤ p → p < i + n → (s.ports p).enabled ≡ true → status_of t p ≡ Status.closed)
unfolding foreach_port status_of
exit_loop max d zero i s le byte h = ((λ p lt. refl), (λ p lo hi on. absurd (omega arith)))
exit_loop max d (suc n) i s le byte h = elim (Bool-cases (s.ports i).enabled) [
  | inr off ↦
      let (old, new) = exit_loop max d n (i + 1) s (omega arith) byte h in
      rw off (
        (λ p lt. old p (omega arith)),
        (λ p lo hi on. elim (eq-cases p i) [
          | inl e ↦
              let on' : (s.ports i).enabled ≡ true = rw e at on in
              let bad = sym on' ∙ off in absurd (cc)
          | inr ne ↦ new p (omega (arith, ne)) (omega arith) on
        ]),
      )
  | inl on ↦
      let (f, ne) = h i (omega arith) in
      let t = close_port max d i (stop_port max d i s) in
      let (a, closed) = shut max d i s (omega arith) (λ e. absurd (omega (arith, e))) on f ne in
      let h' : (p : ℕ) → p < max → Idle d p t × (status_of t p ≢ Status.handling) = λ p lt. (
        Alone-Idle d i p s t a (h p lt).0,
        (λ e. elim (eq-cases p i) [
          | inl x ↦
              let e' : status_of t i ≡ Status.handling = rw x at e in
              let bad = sym closed ∙ e' in absurd (cc)
          | inr other ↦ (h p lt).1 (ap (λ q. q.port_status) (sym (a.others p other)) ∙ e)
        ]),
      ) in
      let (old, new) = exit_loop max d n (i + 1) t (omega arith) byte h' in
      rw on (
        (λ p lt. old p (omega arith) ∙ a.others p (λ e. absurd (omega (arith, e)))),
        (λ p lo hi en. elim (eq-cases p i) [
          | inl e ↦ rw e (ap (λ q. q.port_status) (old i (omega arith)) ∙ closed)
          | inr other ↦
              new p (omega (arith, other)) (omega arith)
                (ap (λ q. q.enabled) (a.others p other) ∙ en)
        ]),
      )
]

done_now :
    (s : Ports) (b : Bool)
    → s.test_done ≡ b
    → (if b then s else record s { test_done = true }).test_done ≡ true
done_now s true e = e
done_now s false e = refl

-- If there are at most 255 places for ports, and none of these ports is bonded, a slave, or being
-- handled, every enabled port is closed after pmd_test_exit.
pub exit_closes :
    (max : ℕ) (d : Driver) (s : Ports)
    → max ≤ port_all
    → ((p : ℕ) → p < max → d.bonded p ≡ false)
    → ((p : ℕ) → p < max → (s.ports p).slave_flag ≡ 0)
    → ((p : ℕ) → p < max → status_of s p ≢ Status.handling)
    → (p : ℕ) → p < max
    → (s.ports p).enabled ≡ true
    → status_of (pmd_test_exit max d s) p ≡ Status.closed
unfolding pmd_test_exit status_of
exit_closes max d s byte unbonded free settled p lt on =
    let s' = if s.test_done then s else record s { test_done = true } in
    let same : s'.ports ≡ s.ports =
      either (λ u. u.ports ≡ s.ports) s.test_done (record s { test_done = true }) s refl refl in
    let ready : (q : ℕ) → q < max → Idle d q s' × (status_of s' q ≢ Status.handling) = λ q h. (
      record {
        done = done_now s s.test_done refl;
        unbonded = unbonded q h;
        slave = ap (λ f. (f q).slave_flag) same ∙ free q h;
      },
      (λ e. settled q h (ap (λ f. (f q).port_status) (sym same) ∙ e)),
    ) in
    (exit_loop max d max 0 s' (omega arith) byte ready).1 p (omega arith) (omega (arith, lt))
      (ap (λ f. (f p).enabled) same ∙ on)
