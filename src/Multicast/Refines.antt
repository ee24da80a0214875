-- ===== src/Multicast/Refines.antt =====
-- The pool as a set of addresses.
use platform.Common.{
  ℕ, ◌+◌, ◌-◌, ◌%◌, ◌^◌, ◌≤◌, ◌<◌, ◌≡◌, ◌≢◌, ◌⊎◌, ◌↔◌, refl, sym, ◌∙◌, inl, inr, arith,
}
use platform.Common.{
  ok, store-ok, update, ltb, Bool-cases, eq-cases, eq→==, ne→==, lt→ltb, ge→ltb, true, false,
}
use native.Mathlib.Nat.{mod-eq_of_lt}
use platform.Multicast.{
  Pool, mcast_addr_pool_extend, mcast_addr_pool_remove, memmove, entries,
  eth_port_multicast_addr_list_set, mcast_addr_add, mcast_addr_remove,
}
use platform.Multicast.Find.{find-Found}
use platform.Multicast.Members.{
  IsPool, Member, Programmed, append-distinct, append-Member, erase-distinct, erase-Member,
}

-- With room for another entry the pool is extended by it.
extend-ok :
    (s : Pool)
    → IsPool s
    → (size : ℕ) × (mcast_addr_pool_extend true s
        ≡ (record s { size = size; mc_addr_nb = s.mc_addr_nb + 1 }, true))
      × (s.mc_addr_nb + 1 ≤ size)
      × (size % 32 ≡ 0)
      × (size ≤ s.size + 32)
unfolding mcast_addr_pool_extend
extend-ok s p =
    let nb = s.mc_addr_nb in
    let fits = p.fits in
    let small = p.small in
    let steps = p.steps in
    let exact : (nb + 1) % 2 ^ 32 ≡ nb + 1 = mod-eq_of_lt (omega (arith, fits, small)) in
    let exact' : (nb + 32) % 2 ^ 32 ≡ nb + 32 = mod-eq_of_lt (omega (arith, fits, small)) in
    elim (eq-cases (nb % 32) 0) [
      | inl e ↦ (
        nb + 32,
        rw (eq→== (nb % 32) 0 e, exact, exact') refl,
        omega arith,
        omega (arith, e),
        omega (arith, fits),
      )
      | inr ne ↦ (
        s.size,
        rw (ne→== (nb % 32) 0 ne, exact) refl,
        omega (arith, ne, steps, fits),
        steps,
        omega arith,
      )
    ]

-- On a pool whose used entries are allocated in whole steps, are far from 2 to the 32, and are
-- all different, mcast_addr_add for a valid port returns such a pool if memory is granted; it has
-- the addresses of the old one and the added one; and if the driver had been given the old pool,
-- it has been given the new one.
pub add_refines :
    (mc_addr : ℕ) (s : Pool)
    → IsPool s
    → s.size + 64 < 2 ^ 32
    → (t : Pool) × (mcast_addr_add false true mc_addr s ≡ ok t)
      × IsPool t
      × ((x : ℕ) → Member x t ↔ (x ≡ mc_addr) ⊎ Member x s)
      × (Programmed s → Programmed t)
unfolding mcast_addr_add eth_port_multicast_addr_list_set Member
add_refines mc_addr s p room =
    let (r, run, f) =
      find-Found s.size s.mc_addr_nb 0 s.mc_addr_pool mc_addr
        (let h = p.fits in omega (arith, h)) in
    elim (Bool-cases (ltb r s.mc_addr_nb)) [
      | inl e ↦
          let lt : r < s.mc_addr_nb = ground (arith, e) in
          let here = f.here (omega (arith, lt)) in
          (
            s,
            rw (run, e) refl,
            p,
            (λ x. ((λ m. inr m), (λ c. elim c [ inl y ↦ (r, lt, here ∙ sym y) | inr m ↦ m ]))),
            (λ q. q),
          )
      | inr e ↦
          let (size, extended, fits, steps, most) = extend-ok s p in
          let hi = f.last in
          let at_end : r ≡ s.mc_addr_nb = ground (arith, e, hi) in
          let pool = update s.mc_addr_pool s.mc_addr_nb mc_addr in
          let new = record s {
            size = size;
            mc_addr_nb = s.mc_addr_nb + 1;
            mc_addr_pool = pool;
            programmed = entries (s.mc_addr_nb + 1) 0 pool;
          } in
          let absent = λ (j : ℕ) (lt : j < s.mc_addr_nb).
            f.before j (omega arith) (omega (arith, at_end, lt)) in
          (
            new,
            (rw
                (
                  run,
                  e,
                  extended,
                  at_end,
                  store-ok size s.mc_addr_pool s.mc_addr_nb mc_addr (omega (arith, fits)),
                )
                refl),
            record {
              fits = fits;
              steps = steps;
              small = omega (arith, most, room);
              distinct = append-distinct s new mc_addr p refl refl absent;
            },
            append-Member s new mc_addr p refl refl,
            (λ q. refl),
          )
    ]

pool_remove-ok :
    (s : Pool) (r : ℕ)
    → IsPool s
    → r < s.mc_addr_nb
    → (size : ℕ) × (pool : ℕ → ℕ) × (mcast_addr_pool_remove s r
        ≡ ok (record s { mc_addr_nb = s.mc_addr_nb - 1; size = size; mc_addr_pool = pool }))
      × (s.mc_addr_nb - 1 ≤ size)
      × (size % 32 ≡ 0)
      × (size ≤ s.size)
      × ((j : ℕ) → j < r → pool j ≡ s.mc_addr_pool j)
      × ((j : ℕ) → r ≤ j → j < s.mc_addr_nb - 1 → pool j ≡ s.mc_addr_pool (j + 1))
unfolding mcast_addr_pool_remove
pool_remove-ok s r p used =
    let fits = p.fits in
    let small = p.small in
    let nb = s.mc_addr_nb - 1 in
    let exact : (s.mc_addr_nb + (2 ^ 32 - 1)) % 2 ^ 32 ≡ nb = omega (arith, used, fits, small) in
    elim (eq-cases r nb) [
      | inr other ↦ (
        s.size,
        memmove r nb s.mc_addr_pool,
        rw (exact, ne→== r nb other, lt→ltb nb s.size (omega (arith, used, fits))) refl,
        omega (arith, fits),
        p.steps,
        omega arith,
        (λ j lt. rw (lt→ltb j r lt) refl),
        (λ j ge lt. rw (ge→ltb j r ge, lt→ltb j nb lt) refl),
      )
      | inl e ↦
          let gone = λ (j : ℕ) (ge : r ≤ j) (lt : j < nb). absurd (omega (arith, e, ge, lt)) in
          elim (eq-cases nb 0) [
            | inl z ↦ (
              0,
              s.mc_addr_pool,
              rw (exact, eq→== r nb e, eq→== nb 0 z) refl,
              omega (arith, z),
              omega arith,
              omega arith,
              (λ j lt. refl),
              gone,
            )
            | inr z ↦ (
              s.size,
              s.mc_addr_pool,
              rw (exact, eq→== r nb e, ne→== nb 0 z) refl,
              omega (arith, fits),
              p.steps,
              omega arith,
              (λ j lt. refl),
              gone,
            )
          ]
    ]

-- On a pool whose used entries are allocated in whole steps, are far from 2 to the 32, and are
-- all different, mcast_addr_remove for a valid port returns such a pool; it has the addresses of
-- the old one but the removed one; and if the driver had been given the old pool, it has been
-- given the new one.
pub remove_refines :
    (mc_addr : ℕ) (s : Pool)
    → IsPool s
    → (t : Pool) × (mcast_addr_remove false mc_addr s ≡ ok t)
      × IsPool t
      × ((x : ℕ) → Member x t ↔ (x ≢ mc_addr) × Member x s)
      × (Programmed s → Programmed t)
unfolding mcast_addr_remove eth_port_multicast_addr_list_set Member
remove_refines mc_addr s p =
    let (r, run, f) =
      find-Found s.size s.mc_addr_nb 0 s.mc_addr_pool mc_addr
        (let h = p.fits in omega (arith, h)) in
    let small = p.small in
    elim (eq-cases r s.mc_addr_nb) [
      | inl e ↦ (
        s,
        rw (run, eq→== r s.mc_addr_nb e) refl,
        p,
        (λ x. (
          (λ m. (
            (λ y. let h = m.1 in f.before m.0 (omega arith) (omega (arith, e, h)) (m.2 ∙ y)),
            m,
          )),
          (λ c. c.1),
        )),
        (λ q. q),
      )
      | inr ne ↦
          let hi = f.last in
          let used : r < s.mc_addr_nb = omega (arith, ne, hi) in
          let here = f.here (omega (arith, used)) in
          let (size, pool, removed, room, steps, most, low, high) = pool_remove-ok s r p used in
          let new = record s {
            mc_addr_nb = s.mc_addr_nb - 1;
            size = size;
            mc_addr_pool = pool;
            programmed = entries (s.mc_addr_nb - 1) 0 pool;
          } in
          let fewer : s.mc_addr_nb - 1 + 1 ≡ s.mc_addr_nb = omega (arith, used) in
          (
            new,
            rw (run, ne→== r s.mc_addr_nb ne, removed) refl,
            record {
              fits = room;
              steps = steps;
              small = omega (arith, most, small);
              distinct = erase-distinct s new mc_addr r p fewer used here low high;
            },
            erase-Member s new mc_addr r p fewer used here low high,
            (λ q. refl),
          )
    ]
