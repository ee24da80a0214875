-- ===== src/Settings/Vlan/Tagged.antt =====
-- Which tags a port inserts after calls in any order.
use platform.Common.{ℕ, ◌≤◌, ◌<◌, ◌≡◌, ◌≢◌, refl, ◌∙◌, ap, arith, ◌⊎◌, inl, inr}
use platform.Common.{List, [], ◌∷◌, ok, fault, Bool, true, false, ltb, ◌==◌}
use platform.Common.{Bool-cases, eq→==, ne→==, load-ok, store-ok, update, ge→ltb, Outcome}
use platform.Forwarding.{port_all, port_id_is_invalid}
use platform.Settings.Vlan.{TxTag, TagCall, has_flag, with_flag, without_flag, vlan_id_is_invalid}
use platform.Settings.Vlan.{cleared, one_tag, two_tags, change, tx_vlan_reset, tx_vlan_set}
use platform.Settings.Vlan.{tx_qinq_set, tag_call, tag_calls}

-- At most one of the flags is set, and the numbers are those that it needs: none without a flag, no
-- outer one for a single tag, all below 4096.
pub record IsTagged (t : TxTag) : Type 0 where
  pub exclusive : (has_flag 64 t.tx_ol_flags ≡ false) ⊎ (has_flag 128 t.tx_ol_flags ≡ false)
  pub untagged :
      has_flag 64 t.tx_ol_flags ≡ false → has_flag 128 t.tx_ol_flags ≡ false → t.tx_vlan_id ≡ 0
  pub single : has_flag 128 t.tx_ol_flags ≡ false → t.tx_vlan_id_outer ≡ 0
  pub small : (t.tx_vlan_id < 4096) × (t.tx_vlan_id_outer < 4096)

clear-64 : (f : ℕ) → has_flag 64 (without_flag 128 (without_flag 64 f)) ≡ false
clear-64 f = ground arith

clear-128 : (f : ℕ) → has_flag 128 (without_flag 128 (without_flag 64 f)) ≡ false
clear-128 f = ground arith

set-64 : (f : ℕ) → has_flag 128 f ≡ false → has_flag 128 (with_flag 64 f) ≡ false
set-64 f h = ground arith

set-128 : (f : ℕ) → has_flag 64 f ≡ false → has_flag 64 (with_flag 128 f) ≡ false
set-128 f h = ground arith

flag-64 : (f : ℕ) → has_flag 64 (with_flag 64 f) ≡ true
flag-64 f = ground arith

flag-128 : (f : ℕ) → has_flag 128 (with_flag 128 f) ≡ true
flag-128 f = ground arith

cleared-IsTagged : (t : TxTag) → IsTagged (cleared t)
cleared-IsTagged t = record {
  exclusive = inl (clear-64 t.tx_ol_flags);
  untagged = λ a b. refl;
  single = λ a. refl;
  small = (omega arith, omega arith);
}

one_tag-IsTagged : (t : TxTag) (v : ℕ) → v < 4096 → IsTagged (one_tag v (cleared t))
one_tag-IsTagged t v h =
    let f = without_flag 128 (without_flag 64 t.tx_ol_flags) in
    record {
      exclusive = inr (set-64 f (clear-128 t.tx_ol_flags));
      untagged = λ a b. let e = flag-64 f in cc;
      single = λ a. refl;
      small = (h, omega arith);
    }

two_tags-IsTagged :
    (t : TxTag) (v w : ℕ) → v < 4096 → w < 4096 → IsTagged (two_tags v w (cleared t))
two_tags-IsTagged t v w h h' =
    let f = without_flag 128 (without_flag 64 t.tx_ol_flags) in
    record {
      exclusive = inl (set-128 f (clear-64 t.tx_ol_flags));
      untagged = λ a b. let e = flag-128 f in cc;
      single = λ a. let e = flag-128 f in cc;
      small = (h, h');
    }

update-IsTagged :
    (ports : ℕ → TxTag) (p : ℕ) (t : TxTag)
    → IsTagged t
    → ((q : ℕ) → IsTagged (ports q))
    → (q : ℕ) → IsTagged (update ports p t q)
update-IsTagged ports p t h all q = elim (Bool-cases (q == p)) [
  | inl e ↦ rw e h
  | inr e ↦ rw e (all q)
]

abbrev port_of : TagCall → ℕ
port_of (TagCall.vlan p v) = p
port_of (TagCall.qinq p v w) = p
port_of (TagCall.reset p) = p

-- No call is for the number of all ports.
abbrev pub OnePort : List TagCall → Type 0
OnePort [] = Unit {0}
OnePort (c ∷ cs) = (port_of c ≢ port_all) × OnePort cs

module _ (enabled extended : ℕ → Bool) (max : ℕ) where
  valid-lt : (p : ℕ) → p ≢ 255 → port_id_is_invalid enabled max p ≡ false → p < max
  unfolding port_id_is_invalid
  valid-lt p h e = elim (Bool-cases (ltb p max)) [
    | inl lt ↦ ground (arith, lt)
    | inr ge ↦ let bad : port_id_is_invalid enabled max p ≡ true = rw (ne→== p 255 h, ge) refl in cc
  ]

  vlan-lt : (v : ℕ) → vlan_id_is_invalid v ≡ false → v < 4096
  unfolding vlan_id_is_invalid
  vlan-lt v e = ground arith

  change-ok :
      (f : TxTag → TxTag) (p : ℕ) (ports : ℕ → TxTag)
      → p < max
      → change enabled extended max f p ports ≡ ok (update ports p (f (ports p)))
  change-ok f p ports h = rw (load-ok max ports p h, store-ok max ports p (f (ports p)) h) refl

  -- What a call leaves at a port that is changed: the fields are cleared and then set.
  reset-change :
      (f : TxTag → TxTag) (p : ℕ) (ports : ℕ → TxTag)
      → p < max
      → change enabled extended max f p (update ports p (cleared (ports p)))
        ≡ ok (update (update ports p (cleared (ports p))) p (f (cleared (ports p))))
  reset-change f p ports h =
      let u = update ports p (cleared (ports p)) in
      let e : update ports p (cleared (ports p)) p ≡ cleared (ports p) = rw (eq→== p p refl) refl in
      change-ok f p u h ∙ ap (λ t. ok (update u p (f t))) e

  reset-eq :
      (p : ℕ) (ports : ℕ → TxTag)
      → port_id_is_invalid enabled max p ≡ false
      → p < max
      → tx_vlan_reset enabled extended max p ports ≡ ok (update ports p (cleared (ports p)))
  unfolding tx_vlan_reset
  reset-eq p ports e h = rw (e, change-ok cleared p ports h) refl

  abbrev Works : (ℕ → TxTag) → Outcome (ℕ → TxTag) → Type 0
  Works ports r = (after : ℕ → TxTag) × (r ≡ ok after) × ((q : ℕ) → IsTagged (after q))

  reset-Works :
      (p : ℕ) (ports : ℕ → TxTag)
      → p ≢ 255
      → ((q : ℕ) → IsTagged (ports q))
      → Works ports (tx_vlan_reset enabled extended max p ports)
  unfolding tx_vlan_reset
  reset-Works p ports h all = elim (Bool-cases (port_id_is_invalid enabled max p)) [
    | inl e ↦ (ports, rw e refl, all)
    | inr e ↦ (
      update ports p (cleared (ports p)),
      reset-eq p ports e (valid-lt p h e),
      update-IsTagged ports p (cleared (ports p)) (cleared-IsTagged (ports p)) all,
    )
  ]

  set-Works :
      (p v : ℕ) (ports : ℕ → TxTag)
      → p ≢ 255
      → ((q : ℕ) → IsTagged (ports q))
      → Works ports (tx_vlan_set enabled extended max p v ports)
  unfolding tx_vlan_set
  set-Works p v ports h all = elim (Bool-cases (port_id_is_invalid enabled max p)) [
    | inl e ↦ (ports, rw e refl, all)
    | inr e ↦ elim (Bool-cases (vlan_id_is_invalid v)) [
      | inl b ↦ (ports, rw (e, b) refl, all)
      | inr b ↦ elim (Bool-cases (extended p)) [
        | inl x ↦ (ports, rw (e, b, x) refl, all)
        | inr x ↦
            let u = update ports p (cleared (ports p)) in
            (
              update u p (one_tag v (cleared (ports p))),
              rw (e, b, x, reset-eq p ports e (valid-lt p h e))
                  (reset-change (one_tag v) p ports (valid-lt p h e)),
              update-IsTagged u p (one_tag v (cleared (ports p)))
                  (one_tag-IsTagged (ports p) v (vlan-lt v b))
                  (update-IsTagged ports p (cleared (ports p)) (cleared-IsTagged (ports p)) all),
            )
      ]
    ]
  ]

  qinq-Works :
      (p v w : ℕ) (ports : ℕ → TxTag)
      → p ≢ 255
      → ((q : ℕ) → IsTagged (ports q))
      → Works ports (tx_qinq_set enabled extended max p v w ports)
  unfolding tx_qinq_set
  qinq-Works p v w ports h all = elim (Bool-cases (port_id_is_invalid enabled max p)) [
    | inl e ↦ (ports, rw e refl, all)
    | inr e ↦ elim (Bool-cases (vlan_id_is_invalid v)) [
      | inl b ↦ (ports, rw (e, b) refl, all)
      | inr b ↦ elim (Bool-cases (vlan_id_is_invalid w)) [
        | inl c ↦ (ports, rw (e, b, c) refl, all)
        | inr c ↦ elim (Bool-cases (extended p)) [
          | inr x ↦ (ports, rw (e, b, c, x) refl, all)
          | inl x ↦
              let u = update ports p (cleared (ports p)) in
              (
                update u p (two_tags v w (cleared (ports p))),
                rw (e, b, c, x, reset-eq p ports e (valid-lt p h e))
                    (reset-change (two_tags v w) p ports (valid-lt p h e)),
                update-IsTagged u p (two_tags v w (cleared (ports p)))
                    (two_tags-IsTagged (ports p) v w (vlan-lt v b) (vlan-lt w c))
                    (update-IsTagged ports p (cleared (ports p)) (cleared-IsTagged (ports p)) all),
              )
        ]
      ]
    ]
  ]

  call-Works :
      (c : TagCall) (ports : ℕ → TxTag)
      → port_of c ≢ 255
      → ((q : ℕ) → IsTagged (ports q))
      → Works ports (tag_call enabled extended max c ports)
  unfolding tag_call
  call-Works (TagCall.vlan p v) ports h all = set-Works p v ports h all
  call-Works (TagCall.qinq p v w) ports h all = qinq-Works p v w ports h all
  call-Works (TagCall.reset p) ports h all = reset-Works p ports h all

  -- Let each port insert no tag, one tag or two, with numbers below 4096, no number without a tag
  -- and no outer number without the second. Then calls of tx_vlan_set, tx_qinq_set and
  -- tx_vlan_reset in any order, none for the number of all ports, return and leave it so.
  pub tag_calls-IsTagged :
      (cs : List TagCall) (ports : ℕ → TxTag)
      → OnePort cs
      → ((q : ℕ) → IsTagged (ports q))
      → (after : ℕ → TxTag) × (tag_calls enabled extended max cs ports ≡ ok after)
        × ((q : ℕ) → IsTagged (after q))
  unfolding tag_calls
  tag_calls-IsTagged [] ports h all = (ports, refl, all)
  tag_calls-IsTagged (c ∷ cs) ports h all =
      let (ports', e, all') = call-Works c ports h.0 all in
      let (after, e', done) = tag_calls-IsTagged cs ports' h.1 all' in (after, rw e e', done)

  -- For the number of all ports, 255, tx_vlan_reset writes outside the table of at most 255 ports.
  pub reset_all_faults :
      (ports : ℕ → TxTag) → max ≤ 255 → tx_vlan_reset enabled extended max port_all ports ≡ fault
  unfolding tx_vlan_reset port_id_is_invalid
  reset_all_faults ports h = rw (ge→ltb 255 max h) refl
