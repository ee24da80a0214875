-- ===== src/PortState/Keeps.antt =====
-- What a piece of code keeps of the ports: the relation between the state before and after it.
use platform.Common.{
  ℕ, ◌≡◌, ◌≢◌, refl, ◌∙◌, sym, ap, Bool, true, false, List, [], ◌∷◌, ◌==◌, if◌then◌else◌,
}
use platform.Common.{eq→==, ne→==, inl, inr, ◌⊎◌}
use platform.PortState.{
  Status, Status-discrete, Port, Call, Driver, Ports, status_of, set_port, set_status, is, cmpset,
}

-- Whether the device of a port runs, by the calls that were made.
unfoldable pub running : Driver → List Call → ℕ → Bool
running d [] p = false
running d (Call.start q ∷ calls) p =
    let before = running d calls p in
    if q == p then (if d.succeeds calls (Call.start q) then true else before) else before
running d (Call.stop q ∷ calls) p =
    let before = running d calls p in if q == p then false else before
running d (c ∷ calls) p = running d calls p

-- The status of the port tells whether its device runs.
abbrev pub Consistent : Driver → ℕ → Ports → Type 0
Consistent d p s = running d s.calls p ≡ is (status_of s p) Status.started

-- All sockets have a pool of packets.
abbrev pub Pools : Driver → Type 0
Pools d = (socket : ℕ) → d.mbuf_pool_find socket ≡ true

pub record Keeps (d : Driver) (p : ℕ) (s t : Ports) : Type 0 where
  pub enabled : (t.ports p).enabled ≡ (s.ports p).enabled
  pub slave : (t.ports p).slave_flag ≡ (s.ports p).slave_flag
  pub consistent : Consistent d p s → Consistent d p t
  pub stuck : status_of s p ≡ Status.handling → status_of t p ≡ Status.handling
  pub settled : Pools d → status_of s p ≢ Status.handling → status_of t p ≢ Status.handling

-- Nothing of a port has changed that the relation looks at.
pub same-Keeps :
    (d : Driver) (p : ℕ) (s t : Ports)
    → t.ports p ≡ s.ports p
    → running d t.calls p ≡ running d s.calls p
    → Keeps d p s t
unfolding status_of
same-Keeps d p s t e r = record {
  enabled = ap (λ x. x.enabled) e;
  slave = ap (λ x. x.slave_flag) e;
  consistent = λ c. r ∙ c ∙ ap (λ x. is x.port_status Status.started) (sym e);
  stuck = λ h. ap (λ x. x.port_status) e ∙ h;
  settled = λ pools ne h. ne (ap (λ x. x.port_status) (sym e) ∙ h);
}

pub refl-Keeps : (d : Driver) (p : ℕ) (s : Ports) → Keeps d p s s
refl-Keeps d p s = same-Keeps d p s s refl refl

pub trans-Keeps :
    (d : Driver) (p : ℕ) (s t u : Ports) → Keeps d p s t → Keeps d p t u → Keeps d p s u
trans-Keeps d p s t u a b = record {
  enabled = b.enabled ∙ a.enabled;
  slave = b.slave ∙ a.slave;
  consistent = λ c. b.consistent (a.consistent c);
  stuck = λ h. b.stuck (a.stuck h);
  settled = λ pools ne. b.settled pools (a.settled pools ne);
}

pub set_port_self : (s : Ports) (pi : ℕ) (port : Port) → (set_port s pi port).ports pi ≡ port
set_port_self s pi port = rw (eq→== pi pi refl) refl

pub set_port_ne :
    (s : Ports) (pi p : ℕ) (port : Port) → p ≢ pi → (set_port s pi port).ports p ≡ s.ports p
set_port_ne s pi p port ne = rw (ne→== p pi ne) refl

is_refl : (a : Status) → is a a ≡ true
is_refl Status.stopped = refl
is_refl Status.started = refl
is_refl Status.closed = refl
is_refl Status.handling = refl

pub is_ne : (a b : Status) → a ≢ b → is a b ≡ false
is_ne Status.stopped Status.stopped ne = absurd (ne refl)
is_ne Status.stopped Status.started ne = refl
is_ne Status.stopped Status.closed ne = refl
is_ne Status.stopped Status.handling ne = refl
is_ne Status.started Status.stopped ne = refl
is_ne Status.started Status.started ne = absurd (ne refl)
is_ne Status.started Status.closed ne = refl
is_ne Status.started Status.handling ne = refl
is_ne Status.closed Status.stopped ne = refl
is_ne Status.closed Status.started ne = refl
is_ne Status.closed Status.closed ne = absurd (ne refl)
is_ne Status.closed Status.handling ne = refl
is_ne Status.handling Status.stopped ne = refl
is_ne Status.handling Status.started ne = refl
is_ne Status.handling Status.closed ne = refl
is_ne Status.handling Status.handling ne = absurd (ne refl)

pub status-cases : (a b : Status) → (a ≡ b) ⊎ (a ≢ b)
status-cases a b = elim (Status-discrete a b) [ yes e ↦ inl e | no ne ↦ inr ne ]

pub cmpset-hit :
    (s : Ports) (pi : ℕ) (a b : Status)
    → status_of s pi ≡ a
    → cmpset s pi a b ≡ (set_status s pi b, true)
unfolding cmpset status_of
cmpset-hit s pi a b h = rw (h, is_refl a) refl

pub cmpset-miss :
    (s : Ports) (pi : ℕ) (a b : Status) → status_of s pi ≢ a → cmpset s pi a b ≡ (s, false)
unfolding cmpset status_of
cmpset-miss s pi a b h = rw (is_ne (s.ports pi).port_status a h) refl

pub status-set_status : (s : Ports) (pi : ℕ) (a : Status) → status_of (set_status s pi a) pi ≡ a
unfolding status_of
status-set_status s pi a =
    ap (λ x. x.port_status) (set_port_self s pi (record (s.ports pi) { port_status = a }))
