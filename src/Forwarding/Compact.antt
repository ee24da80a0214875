-- ===== src/Forwarding/Compact.antt =====
-- The list of forwarding ports as a list: which ports an update leaves in it.
use platform.Common.{
  ℕ, zero, suc, ◌+◌, ◌%◌, ◌^◌, ◌≤◌, ◌<◌, ◌≡◌, refl, ◌∙◌, sym, ap, inl, inr, arith, ◌⊎◌,
}
use platform.Common.{List, [], ◌∷◌, ◌++◌, ok, load-ok, store-ok, update, ltb}
use platform.Common.{
  Bool, true, false, Bool-cases, if◌then◌else◌, eq→==, ne→==, append_assoc, append_nil,
}
use platform.Forwarding.{FwdPorts, port_id_is_invalid, compact_entry, compact, update_fwd_ports}

-- The first `n` entries from `i` on.
abbrev pub cells : ℕ → ℕ → (ℕ → ℕ) → List ℕ
cells zero i a = []
cells (suc n) i a = a i ∷ cells n (i + 1) a

cells_ext :
    (n i : ℕ) (a b : ℕ → ℕ) → ((j : ℕ) → i ≤ j → j < i + n → a j ≡ b j) → cells n i a ≡ cells n i b
cells_ext zero i a b h = refl
cells_ext (suc n) i a b h =
    rw
      (
        h i (omega arith) (omega arith),
        cells_ext n (i + 1) a b (λ j lo hi. h j (omega arith) (omega arith)),
      )
      refl

cells-append : (n i : ℕ) (a : ℕ → ℕ) → cells (suc n) i a ≡ cells n i a ++ a (i + n) ∷ []
cells-append zero i a = let e : i + 0 ≡ i = omega arith in rw e refl
cells-append (suc n) i a =
    let e : i + suc n ≡ (i + 1) + n = omega arith in
    rw e (ap (λ l. a i ∷ l) (cells-append n (i + 1) a))

-- The entries that are not invalid.
abbrev pub keep_valid : (ℕ → Bool) → ℕ → List ℕ → List ℕ
keep_valid enabled max [] = []
keep_valid enabled max (id ∷ ids) =
    let rest = keep_valid enabled max ids in
    if port_id_is_invalid enabled max id then rest else id ∷ rest

-- Writing the entry behind the first `n`.
cells-update : (n v : ℕ) (a : ℕ → ℕ) → cells (suc n) 0 (update a n v) ≡ cells n 0 a ++ v ∷ []
cells-update n v a =
    let same : cells n 0 (update a n v) ≡ cells n 0 a =
      cells_ext n 0 (update a n v) a
        (λ j lo hi. rw (ne→== j n (λ e. absurd (omega (arith, e)))) refl) in
    let there : update a n v (0 + n) ≡ v =
      let e : 0 + n ≡ n = omega arith in rw (e, eq→== n n refl) refl in
    cells-append n 0 (update a n v) ∙ rw (same, there) refl

joined :
    (n v : ℕ) (a b : ℕ → ℕ)
    → cells (suc n) 0 a ≡ cells n 0 b ++ v ∷ []
    → (xs ys : List ℕ) → xs ≡ ys
    → cells (n + 1) 0 a ++ xs ≡ cells n 0 b ++ v ∷ ys
joined n v a b e xs ys same =
    let s : n + 1 ≡ suc n = omega arith in
    rw (s, same) (ap (λ l. l ++ ys) e ∙ append_assoc (cells n 0 b) (v ∷ []) ys)

-- Where nothing has been moved, the entries kept are those read.
in_place : (moving : Bool) (k i : ℕ) → moving ≡ false → (moving ≡ true) ⊎ (k ≡ i) → k ≡ i
in_place moving k i off (inl on) = absurd (ground (arith, off, on))
in_place moving k i off (inr e) = e

-- The list after the loop: the entries that were kept already, and the valid ones of the rest.
compact-cells :
    (enabled : ℕ → Bool) (max n i new_nb : ℕ) (moving : Bool) (ids : ℕ → ℕ)
    → i + n ≤ max
    → new_nb ≤ i
    → (moving ≡ true) ⊎ (new_nb ≡ i)
    → (ids' : ℕ → ℕ) × (m : ℕ) × (compact enabled max n i new_nb moving ids ≡ ok (ids', m))
      × (cells m 0 ids' ≡ cells new_nb 0 ids ++ keep_valid enabled max (cells n i ids))
      × (m ≤ new_nb + n)
unfolding compact compact_entry
compact-cells enabled max zero i new_nb moving ids fits le st =
    (ids, new_nb, refl, sym (append_nil (cells new_nb 0 ids)), omega arith)
compact-cells enabled max (suc n) i new_nb moving ids fits le st =
    elim (Bool-cases (port_id_is_invalid enabled max (ids i))) [
      | inl bad ↦
          let (ids', m, e, c, b) =
            compact-cells enabled max n (i + 1) new_nb true ids (omega arith) (omega arith)
              (inl refl) in
          (ids', m, (rw (load-ok max ids i (omega arith), bad) e), (rw bad c), omega (arith, b))
      | inr good ↦ elim (Bool-cases moving) [
        | inl on ↦
            let ids1 = update ids new_nb (ids i) in
            let (ids', m, e, c, b) =
              compact-cells enabled max n (i + 1) (new_nb + 1) true ids1 (omega arith) (omega arith)
                (inl refl) in
            let rest : cells n (i + 1) ids1 ≡ cells n (i + 1) ids =
              cells_ext n (i + 1) ids1 ids
                (λ j lo hi. rw (ne→== j new_nb (λ x. absurd (omega (arith, x)))) refl) in
            (
              ids',
              m,
              (rw
                  (
                    load-ok max ids i (omega arith),
                    good,
                    on,
                    store-ok max ids new_nb (ids i) (omega arith),
                  )
                  e),
              rw good (
                  c
                  ∙ joined new_nb (ids i) ids1 ids (cells-update new_nb (ids i) ids)
                      (keep_valid enabled max (cells n (i + 1) ids1))
                      (keep_valid enabled max (cells n (i + 1) ids))
                      (ap (keep_valid enabled max) rest)),
              omega (arith, b),
            )
        | inr off ↦
            let here = in_place moving new_nb i off st in
            let (ids', m, e, c, b) =
              compact-cells enabled max n (i + 1) (new_nb + 1) false ids (omega arith) (omega arith)
                (inr (omega (arith, here))) in
            let grown : cells (suc new_nb) 0 ids ≡ cells new_nb 0 ids ++ ids i ∷ [] =
              let z : 0 + new_nb ≡ i = omega (arith, here) in
              cells-append new_nb 0 ids ∙ rw z refl in
            (
              ids',
              m,
              (rw (load-ok max ids i (omega arith), good, off) e),
              rw good (
                  c
                  ∙ joined new_nb (ids i) ids ids grown
                      (keep_valid enabled max (cells n (i + 1) ids))
                      (keep_valid enabled max (cells n (i + 1) ids)) refl),
              omega (arith, b),
            )
      ]
    ]

-- Where there are fewer forwarding ports than the greatest number of ports, and fewer than 255,
-- update_fwd_ports returns: the list holds, in their order, the ports that were in it and are not
-- invalid, and behind them the new port if its number is below the greatest number of ports; and
-- as many ports are configured as forward.
pub update_fwd_ports-cells :
    (enabled : ℕ → Bool) (max new_pid : ℕ) (s : FwdPorts)
    → s.nb_fwd_ports < max
    → s.nb_fwd_ports < 255
    → (s' : FwdPorts) × (update_fwd_ports enabled max new_pid s ≡ ok s')
      × (cells s'.nb_fwd_ports 0 s'.fwd_ports_ids
          ≡ keep_valid enabled max (cells s.nb_fwd_ports 0 s.fwd_ports_ids)
            ++ (if ltb new_pid max then new_pid ∷ [] else []))
      × (s'.nb_cfg_ports ≡ s'.nb_fwd_ports)
unfolding update_fwd_ports
update_fwd_ports-cells enabled max new_pid s fits byte =
    let (ids, m, e, c, b) =
      compact-cells enabled max s.nb_fwd_ports 0 0 false s.fwd_ports_ids (omega arith) (omega arith)
        (inr refl) in
    let grown : (m + 1) % 2 ^ 8 ≡ suc m = omega (arith, b) in
    let same : m % 2 ^ 8 ≡ m = omega (arith, b) in
    elim (Bool-cases (ltb new_pid max)) [
      | inl new ↦ (
        record {
          fwd_ports_ids = update ids m new_pid;
          nb_fwd_ports = (m + 1) % 2 ^ 8;
          nb_cfg_ports = (m + 1) % 2 ^ 8;
        },
        (rw (e, new, store-ok max ids m new_pid (omega (arith, b))) refl),
        (rw (grown, new) (cells-update m new_pid ids ∙ ap (λ l. l ++ new_pid ∷ []) c)),
        refl,
      )
      | inr none ↦ (
        record { fwd_ports_ids = ids; nb_fwd_ports = m % 2 ^ 8; nb_cfg_ports = m % 2 ^ 8 },
        (rw (e, none) refl),
        (rw (same, none)
            (c
              ∙ sym
                  (append_nil (keep_valid enabled max (cells s.nb_fwd_ports 0 s.fwd_ports_ids))))),
        refl,
      )
    ]
