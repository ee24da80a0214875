-- ===== src/PortState/Wrote.antt =====
-- Code that works on one port: what it leaves of the others, and of that port when it is done with it.
use platform.Common.{ℕ, ◌≡◌, ◌≢◌, refl, ◌∙◌, sym, ap}
use platform.Common.{eq-cases, inl, inr, ◌∷◌}
use platform.PortState.{Status, Port, Call, Driver, Ports, status_of, set_port, call, cmpset, is}
use platform.PortState.Keeps.{
  running, Keeps, Consistent, same-Keeps, set_port_self, set_port_ne, cmpset-hit,
}
use platform.PortState.Keeps.{status-set_status}

-- Only the port changes, not whether it is enabled or a slave, and no device starts or stops.
pub record Wrote (d : Driver) (pi : ℕ) (s t : Ports) : Type 0 where
  pub others : (p : ℕ) → p ≢ pi → t.ports p ≡ s.ports p
  pub enabled : (t.ports pi).enabled ≡ (s.ports pi).enabled
  pub slave : (t.ports pi).slave_flag ≡ (s.ports pi).slave_flag
  pub runs : (p : ℕ) → running d t.calls p ≡ running d s.calls p

pub trans-Wrote :
    (d : Driver) (pi : ℕ) (s t u : Ports) → Wrote d pi s t → Wrote d pi t u → Wrote d pi s u
trans-Wrote d pi s t u a b = record {
  others = λ p ne. b.others p ne ∙ a.others p ne;
  enabled = b.enabled ∙ a.enabled;
  slave = b.slave ∙ a.slave;
  runs = λ p. b.runs p ∙ a.runs p;
}

pub set_port-Wrote :
    (d : Driver) (pi : ℕ) (s : Ports) (port : Port)
    → port.enabled ≡ (s.ports pi).enabled
    → port.slave_flag ≡ (s.ports pi).slave_flag
    → Wrote d pi s (set_port s pi port)
set_port-Wrote d pi s port e f = record {
  others = λ p ne. set_port_ne s pi p port ne;
  enabled = ap (λ x. x.enabled) (set_port_self s pi port) ∙ e;
  slave = ap (λ x. x.slave_flag) (set_port_self s pi port) ∙ f;
  runs = λ p. refl;
}

pub cmpset-Wrote :
    (d : Driver) (pi : ℕ) (s : Ports) (a b : Status)
    → status_of s pi ≡ a
    → Wrote d pi s (cmpset s pi a b).0
cmpset-Wrote d pi s a b h =
    rw (cmpset-hit s pi a b h)
      (set_port-Wrote d pi s (record (s.ports pi) { port_status = b }) refl refl)

pub status-cmpset :
    (s : Ports) (pi : ℕ) (a b : Status) → status_of s pi ≡ a → status_of (cmpset s pi a b).0 pi ≡ b
status-cmpset s pi a b h = rw (cmpset-hit s pi a b h) (status-set_status s pi b)

-- The end of each operation on a port that is worked on: call `c` of the driver, and status `b`.
pub finish-Keeps :
    (d : Driver) (pi p : ℕ) (s t : Ports) (c : Call) (b : Status)
    → Wrote d pi s t
    → status_of s pi ≢ Status.handling
    → status_of t pi ≡ Status.handling
    → b ≢ Status.handling
    → ((q : ℕ) → q ≢ pi → running d (c ∷ t.calls) q ≡ running d t.calls q)
    → (Consistent d pi s → running d (c ∷ t.calls) pi ≡ is b Status.started)
    → Keeps d p s (cmpset (call t c) pi Status.handling b).0
unfolding status_of
finish-Keeps d pi p s t c b w free on end quiet runs =
    let u = cmpset-Wrote d pi (call t c) Status.handling b on in
    let new = (cmpset (call t c) pi Status.handling b).0 in
    let now : status_of new pi ≡ b = status-cmpset (call t c) pi Status.handling b on in
    elim (eq-cases p pi) [
      | inr other ↦
          same-Keeps d p s new (u.others p other ∙ w.others p other)
            (u.runs p ∙ quiet p other ∙ w.runs p)
      | inl e ↦ rw e (record {
        enabled = u.enabled ∙ w.enabled;
        slave = u.slave ∙ w.slave;
        consistent = λ x. u.runs pi ∙ runs x ∙ ap (λ st. is st Status.started) (sym now);
        stuck = λ x. absurd (free x);
        settled = λ pools x y. end (sym now ∙ y);
      })
    ]

pub not_handling : (a b : Status) → a ≡ b → b ≢ Status.handling → a ≢ Status.handling
not_handling a b e ne x = ne (sym e ∙ x)
