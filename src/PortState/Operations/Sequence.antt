-- ===== src/PortState/Operations/Sequence.antt =====
-- Sequences of operations on the ports.
use platform.Common.{
  ℕ, zero, suc, ◌+◌, ◌≡◌, ◌≢◌, refl, ◌∙◌, sym, ap, Bool, true, false, if◌then◌else◌, List, [], ◌∷◌,
}
use platform.Common.{Bool-cases, eq→==, ne→==, inl, inr}
use platform.PortState.{Status, Call, Driver, Ports, is, status_of, cmpset, foreach_port, invalid}
use platform.PortState.Keeps.{
  running, Keeps, refl-Keeps, same-Keeps, trans-Keeps, cmpset-hit, cmpset-miss, status-cases,
}
use platform.PortState.Wrote.{cmpset-Wrote, status-cmpset, finish-Keeps, not_handling}
use platform.PortState.Operations.{
  start_port, stop_port, close_port, start_one, stop_one, close_one, busy, applies,
}
use platform.PortState.Operations.Start.{start_one-Keeps}

stop_one-Keeps : (max : ℕ) (d : Driver) (pi p : ℕ) (s : Ports) → Keeps d p s (stop_one max d pi s)
unfolding stop_one running
stop_one-Keeps max d pi p s = elim (Bool-cases (busy max d s pi)) [
  | inl y ↦ rw y (refl-Keeps d p s)
  | inr y ↦ elim (status-cases (status_of s pi) Status.started) [
    | inr ne ↦ rw (y, cmpset-miss s pi Status.started Status.handling ne) (refl-Keeps d p s)
    | inl h ↦
        let s1 = (cmpset s pi Status.started Status.handling).0 in
        let hit : (cmpset s pi Status.started Status.handling).1 ≡ true =
          ap (λ r. r.1) (cmpset-hit s pi Status.started Status.handling h) in
        rw (y, hit)
          (finish-Keeps d pi p s s1 (Call.stop pi) Status.stopped
            (cmpset-Wrote d pi s Status.started Status.handling h)
            (not_handling (status_of s pi) Status.started h (λ e. absurd (cc)))
            (status-cmpset s pi Status.started Status.handling h) (λ e. absurd (cc))
            (λ q ne. rw (ne→== pi q (λ e. ne (sym e))) refl) (λ x. rw (eq→== pi pi refl) refl))
  ]
]

close_one-Keeps : (max : ℕ) (d : Driver) (pi p : ℕ) (s : Ports) → Keeps d p s (close_one max d pi s)
unfolding close_one running
close_one-Keeps max d pi p s = elim (Bool-cases (busy max d s pi)) [
  | inl y ↦ rw y (refl-Keeps d p s)
  | inr y ↦ elim (status-cases (status_of s pi) Status.closed) [
    | inl c ↦ rw (y, cmpset-hit s pi Status.closed Status.closed c) (refl-Keeps d p s)
    | inr nc ↦ elim (status-cases (status_of s pi) Status.stopped) [
      | inr ne ↦
          rw
            (
              y,
              cmpset-miss s pi Status.closed Status.closed nc,
              cmpset-miss s pi Status.stopped Status.handling ne,
            )
            (refl-Keeps d p s)
      | inl h ↦
          let s1 = (cmpset s pi Status.stopped Status.handling).0 in
          let w = cmpset-Wrote d pi s Status.stopped Status.handling h in
          let hit : (cmpset s pi Status.stopped Status.handling).1 ≡ true =
            ap (λ r. r.1) (cmpset-hit s pi Status.stopped Status.handling h) in
          rw (y, cmpset-miss s pi Status.closed Status.closed nc, hit)
            (finish-Keeps d pi p s s1 (Call.close pi) Status.closed w
              (not_handling (status_of s pi) Status.stopped h (λ e. absurd (cc)))
              (status-cmpset s pi Status.stopped Status.handling h) (λ e. absurd (cc))
              (λ q ne. refl) (λ x. w.runs pi ∙ x ∙ rw h refl))
    ]
  ]
]

pub foreach_port-Keeps :
    (d : Driver) (p n pi : ℕ) (body : ℕ → Ports → Ports × Bool) (s : Ports)
    → ((i : ℕ) (t : Ports) → Keeps d p t (body i t).0)
    → Keeps d p s (foreach_port n pi body s).0
unfolding foreach_port
foreach_port-Keeps d p zero pi body s h = refl-Keeps d p s
foreach_port-Keeps d p (suc n) pi body s h = elim (Bool-cases (s.ports pi).enabled) [
  | inr x ↦ rw x (foreach_port-Keeps d p n (pi + 1) body s h)
  | inl x ↦ elim (Bool-cases (body pi s).1) [
    | inr y ↦ rw (x, y) (h pi s)
    | inl y ↦
        let t = (body pi s).0 in
        rw (x, y)
          (trans-Keeps d p s t (foreach_port n (pi + 1) body t).0 (h pi s)
            (foreach_port-Keeps d p n (pi + 1) body t h))
  ]
]

-- A body that works on the chosen ports only.
applies-Keeps :
    (d : Driver) (p pid i : ℕ) (r : Ports × Bool) (t : Ports)
    → Keeps d p t r.0
    → Keeps d p t (if applies pid i then r else (t, true)).0
applies-Keeps d p pid i r t h = elim (Bool-cases (applies pid i)) [
  | inl y ↦ rw y h
  | inr y ↦ rw y (refl-Keeps d p t)
]

-- A loop over the chosen ports, from a state that differs in the globals only.
loop-Keeps :
    (d : Driver) (p n pid : ℕ) (f : ℕ → Ports → Ports × Bool) (s t : Ports)
    → t.ports ≡ s.ports
    → t.calls ≡ s.calls
    → ((i : ℕ) (t : Ports) → Keeps d p t (f i t).0)
    → Keeps d p s (foreach_port n 0 (λ i t. if applies pid i then f i t else (t, true)) t).0
loop-Keeps d p n pid f s t e e' h =
    let body = λ (i : ℕ) (t : Ports). if applies pid i then f i t else (t, true) in
    trans-Keeps d p s t (foreach_port n 0 body t).0
      (same-Keeps d p s t (ap (λ g. g p) e) (ap (λ c. running d c p) e'))
      (foreach_port-Keeps d p n 0 body t (λ i u. applies-Keeps d p pid i (f i u) u (h i u)))

-- What both states have in common, the one that a test chooses has.
of_both :
    {A : Type 0} (f : Ports → A) (b : Bool) (s t : Ports) → f t ≡ f s → f (if b then t else s) ≡ f s
of_both f true s t e = e
of_both f false s t e = refl

pub start_port-Keeps :
    (max : ℕ) (d : Driver) (pid p : ℕ) (s : Ports) → Keeps d p s (start_port max d pid s).0
unfolding start_port
start_port-Keeps max d pid p s =
    let t = record s { dcb_test = true } in
    let s' = if s.dcb_config then t else s in
    elim (Bool-cases (invalid max s pid)) [
      | inl y ↦ rw y (refl-Keeps d p s)
      | inr y ↦ rw y (
          loop-Keeps d p max pid (start_one d) s s' (of_both (λ u. u.ports) s.dcb_config s t refl)
            (of_both (λ u. u.calls) s.dcb_config s t refl) (λ i t. start_one-Keeps d i p t))
    ]

pub stop_port-Keeps :
    (max : ℕ) (d : Driver) (pid p : ℕ) (s : Ports) → Keeps d p s (stop_port max d pid s)
unfolding stop_port
stop_port-Keeps max d pid p s =
    let t = record s { dcb_test = false; dcb_config = false } in
    let s' = if s.dcb_test then t else s in
    let e = of_both (λ u. u.ports) s.dcb_test s t refl in
    let e' = of_both (λ u. u.calls) s.dcb_test s t refl in
    elim (Bool-cases (invalid max s' pid)) [
      | inl y ↦ rw y (same-Keeps d p s s' (ap (λ g. g p) e) (ap (λ c. running d c p) e'))
      | inr y ↦ rw y (
          loop-Keeps d p max pid (λ i t. (stop_one max d i t, true)) s s' e e'
            (λ i t. stop_one-Keeps max d i p t))
    ]

pub close_port-Keeps :
    (max : ℕ) (d : Driver) (pid p : ℕ) (s : Ports) → Keeps d p s (close_port max d pid s)
unfolding close_port
close_port-Keeps max d pid p s = elim (Bool-cases (invalid max s pid)) [
  | inl y ↦ rw y (refl-Keeps d p s)
  | inr y ↦ rw y (
      loop-Keeps d p max pid (λ i t. (close_one max d i t, true)) s s refl refl
        (λ i t. close_one-Keeps max d i p t))
]

-- The operations on a port that has been listed, which are given from the command line.
pub data Operation : Type 0 where
  starting stopping closing : ℕ → Operation

pub perform : ℕ → Driver → Operation → Ports → Ports
perform max d (Operation.starting pid) s = (start_port max d pid s).0
perform max d (Operation.stopping pid) s = stop_port max d pid s
perform max d (Operation.closing pid) s = close_port max d pid s

pub perform_all : ℕ → Driver → List Operation → Ports → Ports
perform_all max d [] s = s
perform_all max d (o ∷ os) s = perform_all max d os (perform max d o s)

perform-Keeps :
    (max : ℕ) (d : Driver) (o : Operation) (p : ℕ) (s : Ports) → Keeps d p s (perform max d o s)
unfolding perform
perform-Keeps max d (Operation.starting pid) p s = start_port-Keeps max d pid p s
perform-Keeps max d (Operation.stopping pid) p s = stop_port-Keeps max d pid p s
perform-Keeps max d (Operation.closing pid) p s = close_port-Keeps max d pid p s

pub perform_all-Keeps :
    (max : ℕ) (d : Driver) (os : List Operation) (p : ℕ) (s : Ports)
    → Keeps d p s (perform_all max d os s)
unfolding perform_all
perform_all-Keeps max d [] p s = refl-Keeps d p s
perform_all-Keeps max d (o ∷ os) p s =
    trans-Keeps d p s (perform max d o s) (perform_all max d os (perform max d o s))
      (perform-Keeps max d o p s) (perform_all-Keeps max d os p (perform max d o s))

-- If before a sequence of calls of start_port, stop_port and close_port the device of each port
-- runs just where its status is started, the same holds after it, however the driver answers.
pub device_follows_status :
    (max : ℕ) (d : Driver) (os : List Operation) (s : Ports)
    → ((p : ℕ) → running d s.calls p ≡ is (status_of s p) Status.started)
    → let t = perform_all max d os s in
      (p : ℕ) → running d t.calls p ≡ is (status_of t p) Status.started
device_follows_status max d os s h p = (perform_all-Keeps max d os p s).consistent (h p)

-- If every socket has a pool of packets and no port is being handled, then none is after any
-- sequence of calls of start_port, stop_port and close_port.
pub operations_settle :
    (max : ℕ) (d : Driver) (os : List Operation) (s : Ports)
    → ((socket : ℕ) → d.mbuf_pool_find socket ≡ true)
    → ((p : ℕ) → status_of s p ≢ Status.handling)
    → (p : ℕ) → status_of (perform_all max d os s) p ≢ Status.handling
operations_settle max d os s pools h p = (perform_all-Keeps max d os p s).settled pools (h p)
