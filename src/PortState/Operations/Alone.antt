-- ===== src/PortState/Operations/Alone.antt =====
-- Stopping and closing one port: nothing else changes.
use platform.Common.{ℕ, ◌≡◌, ◌≢◌, ◌⊎◌, refl, ◌∙◌, sym, ap, true, false}
use platform.Common.{Bool-cases, inl, inr}
use platform.PortState.{
  Status, Call, Driver, Ports, status_of, call, cmpset, port_is_forwarding, port_is_bonding_slave,
}
use platform.PortState.Keeps.{cmpset-hit, cmpset-miss, set_port_ne, set_port_self}
use platform.PortState.Wrote.{status-cmpset}
use platform.PortState.Operations.{stop_one, close_one, busy}

-- A piece of code works on one port only.
pub record Alone (pi : ℕ) (s t : Ports) : Type 0 where
  pub others : (p : ℕ) → p ≢ pi → t.ports p ≡ s.ports p
  pub enabled : (t.ports pi).enabled ≡ (s.ports pi).enabled
  pub slave : (t.ports pi).slave_flag ≡ (s.ports pi).slave_flag
  pub done : t.test_done ≡ s.test_done

pub refl-Alone : (pi : ℕ) (s : Ports) → Alone pi s s
refl-Alone pi s = record { others = λ p ne. refl; enabled = refl; slave = refl; done = refl }

pub trans-Alone : (pi : ℕ) (s t u : Ports) → Alone pi s t → Alone pi t u → Alone pi s u
trans-Alone pi s t u a b = record {
  others = λ p ne. b.others p ne ∙ a.others p ne;
  enabled = b.enabled ∙ a.enabled;
  slave = b.slave ∙ a.slave;
  done = b.done ∙ a.done;
}

-- A port is worked on, a call is made, and it has its new status.
moved :
    (pi : ℕ) (s : Ports) (a b : Status) (c : Call)
    → status_of s pi ≡ a
    → let s1 = (cmpset s pi a Status.handling).0 in
      let t = (cmpset (call s1 c) pi Status.handling b).0 in Alone pi s t × (status_of t pi ≡ b)
unfolding status_of
moved pi s a b c h =
    let s1 = (cmpset s pi a Status.handling).0 in
    let h1 = status-cmpset s pi a Status.handling h in
    let port = record (s.ports pi) { port_status = Status.handling } in
    let port' = record (s1.ports pi) { port_status = b } in
    let e1 = cmpset-hit s pi a Status.handling h in
    let e2 = cmpset-hit (call s1 c) pi Status.handling b h1 in
    let t = (cmpset (call s1 c) pi Status.handling b).0 in
    let first : Alone pi s s1 = rw e1 (record {
      others = λ p ne. set_port_ne s pi p port ne;
      enabled = ap (λ q. q.enabled) (set_port_self s pi port);
      slave = ap (λ q. q.slave_flag) (set_port_self s pi port);
      done = refl;
    }) in
    let second : Alone pi s1 t = rw e2 (record {
      others = λ p ne. set_port_ne s1 pi p port' ne;
      enabled = ap (λ q. q.enabled) (set_port_self s1 pi port');
      slave = ap (λ q. q.slave_flag) (set_port_self s1 pi port');
      done = refl;
    }) in
    (trans-Alone pi s s1 t first second, status-cmpset (call s1 c) pi Status.handling b h1)

-- What the program knows of its ports when it ends.
pub record Idle (d : Driver) (pi : ℕ) (s : Ports) : Type 0 where
  pub done : s.test_done ≡ true
  pub unbonded : d.bonded pi ≡ false
  pub slave : (s.ports pi).slave_flag ≡ 0

busy-Idle : (max : ℕ) (d : Driver) (pi : ℕ) (s : Ports) → Idle d pi s → busy max d s pi ≡ false
unfolding busy port_is_bonding_slave
busy-Idle max d pi s f = elim (Bool-cases (port_is_forwarding max s pi)) [
  | inl e ↦ rw (e, f.done, f.unbonded, f.slave) refl
  | inr e ↦ rw (e, f.unbonded, f.slave) refl
]

Status-ends :
    (a : Status)
    → a ≢ Status.handling
    → (a ≡ Status.started) ⊎ (a ≡ Status.stopped) ⊎ (a ≡ Status.closed)
Status-ends Status.stopped ne = inr (inl refl)
Status-ends Status.started ne = inl refl
Status-ends Status.closed ne = inr (inr refl)
Status-ends Status.handling ne = absurd (ne refl)

-- A port that does not run.
pub Rests : ℕ → Ports → Type 0
Rests pi s = (status_of s pi ≡ Status.stopped) ⊎ (status_of s pi ≡ Status.closed)

pub stop_one-Rests :
    (max : ℕ) (d : Driver) (pi : ℕ) (s : Ports)
    → Idle d pi s
    → status_of s pi ≢ Status.handling
    → Alone pi s (stop_one max d pi s) × Rests pi (stop_one max d pi s)
unfolding stop_one Rests
stop_one-Rests max d pi s f ne = elim (Status-ends (status_of s pi) ne) [
  | inl h ↦
      let (alone, now) = moved pi s Status.started Status.stopped (Call.stop pi) h in
      let hit : (cmpset s pi Status.started Status.handling).1 ≡ true =
        ap (λ r. r.1) (cmpset-hit s pi Status.started Status.handling h) in
      rw (busy-Idle max d pi s f, hit) (alone, inl now)
  | inr rest ↦
      let not_started : status_of s pi ≢ Status.started = λ e. elim rest [
        | inl x ↦ let y = sym x ∙ e in absurd (cc)
        | inr x ↦ let y = sym x ∙ e in absurd (cc)
      ] in
      rw (busy-Idle max d pi s f, cmpset-miss s pi Status.started Status.handling not_started)
        (refl-Alone pi s, rest)
]

pub close_one-closed :
    (max : ℕ) (d : Driver) (pi : ℕ) (s : Ports)
    → Idle d pi s
    → Rests pi s
    → Alone pi s (close_one max d pi s) × (status_of (close_one max d pi s) pi ≡ Status.closed)
unfolding close_one Rests
close_one-closed max d pi s f (inl h) =
    let (alone, now) = moved pi s Status.stopped Status.closed (Call.close pi) h in
    let hit : (cmpset s pi Status.stopped Status.handling).1 ≡ true =
      ap (λ r. r.1) (cmpset-hit s pi Status.stopped Status.handling h) in
    let other : status_of s pi ≢ Status.closed = λ e. let y = sym h ∙ e in absurd (cc) in
    rw (busy-Idle max d pi s f, cmpset-miss s pi Status.closed Status.closed other, hit)
      (alone, now)
close_one-closed max d pi s f (inr h) =
    rw (busy-Idle max d pi s f, cmpset-hit s pi Status.closed Status.closed h) (refl-Alone pi s, h)
