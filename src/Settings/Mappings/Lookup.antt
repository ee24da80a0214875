-- ===== src/Settings/Mappings/Lookup.antt =====
-- A table as a map from queues to counters, and what `set_qmap` does to it.
use platform.Common.{ℕ, zero, suc, ◌+◌, ◌%◌, ◌^◌, ◌≤◌, ◌<◌, ◌≡◌, ◌≢◌, refl, ◌∙◌, sym, ap, arith}
use platform.Common.{Option, none, some, ok, fault, ◌⊎◌, inl, inr, true, false, Bool-cases}
use platform.Common.{◌==◌, leb, ltb, update, load-ok, store-ok, eq→==, ne→==, ge→ltb}
use mathlib.Core.Path.{subst}
use platform.Forwarding.{port_id_is_invalid}
use platform.Settings.Mappings.{Mapping, Mappings, QueueStats, is_for, find_mapping, set_entry}
use platform.Settings.Mappings.{set_mapping, queue_id_is_invalid, set_qmap}

-- The counter of a queue.
abbrev pub counter_at : (ℕ → Mapping) → Option ℕ → Option ℕ
counter_at entries none = none
counter_at entries (some i) = some (entries i).stats_counter_id

unfoldable pub counter_of : Mappings → ℕ → ℕ → Option ℕ
counter_of m port_id queue_id =
    counter_at m.entries (find_mapping m.number 0 port_id queue_id m.entries)

-- The result of a search: an entry for the queue, the first, or none.
pub record Found (n i p q : ℕ) (entries : ℕ → Mapping) (j : ℕ) : Type 0 where
  pub lower : i ≤ j
  pub upper : j < i + n
  pub here : is_for p q (entries j) ≡ true
  pub before : (k : ℕ) → i ≤ k → k < j → is_for p q (entries k) ≡ false

abbrev pub Missing : ℕ → ℕ → ℕ → ℕ → (ℕ → Mapping) → Type 0
Missing n i p q entries = (k : ℕ) → i ≤ k → k < i + n → is_for p q (entries k) ≡ false

pub find-cases :
    (n i p q : ℕ) (entries : ℕ → Mapping)
    → ((j : ℕ) × (find_mapping n i p q entries ≡ some j) × Found n i p q entries j)
      ⊎ ((find_mapping n i p q entries ≡ none) × Missing n i p q entries)
unfolding find_mapping
find-cases zero i p q entries = inr (refl, λ k lo hi. absurd (omega arith))
find-cases (suc n) i p q entries = elim (Bool-cases (is_for p q (entries i))) [
  | inl e ↦ inl (
    i,
    rw e refl,
    record {
      lower = omega arith;
      upper = omega arith;
      here = e;
      before = λ k lo hi. absurd (omega arith);
    },
  )
  | inr e ↦
      let other : (k : ℕ) → i ≤ k → (k ≡ i) ⊎ (i + 1 ≤ k) = λ k lo. elim (Bool-cases (k == i)) [
        | inl x ↦ inl (ground (arith, x))
        | inr x ↦ inr (ground (arith, x))
      ] in
      elim (find-cases n (i + 1) p q entries) [
        | inl (j, found, f) ↦ inl (
          j,
          rw e found,
          record {
            lower = let l = f.lower in omega (arith, l);
            upper = let l = f.upper in omega (arith, l);
            here = f.here;
            before = λ k lo hi. elim (other k lo) [ inl x ↦ rw x e | inr x ↦ f.before k x hi ];
          },
        )
        | inr (gone, m) ↦ inr (
          rw e gone,
          λ k lo hi. elim (other k lo) [ inl x ↦ rw x e | inr x ↦ m k x (omega arith) ],
        )
      ]
]

-- What is found first is what the search returns.
find-Found :
    (n i p q : ℕ) (entries : ℕ → Mapping) (j : ℕ)
    → Found n i p q entries j
    → find_mapping n i p q entries ≡ some j
find-Found n i p q entries j f = elim (find-cases n i p q entries) [
  | inl (k, e, g) ↦
      let same : k ≡ j = elim (Bool-cases (k == j)) [
        | inl x ↦ ground (arith, x)
        | inr x ↦ elim (Bool-cases (leb k j)) [
          | inl y ↦
              let lt : k < j = ground (arith, x, y) in
              let a = g.here in let b = f.before k g.lower lt in cc
          | inr y ↦
              let lt : j < k = ground (arith, y) in
              let a = f.here in let b = g.before j f.lower lt in cc
        ]
      ] in
      e ∙ ap some same
  | inr (e, m) ↦ let a = f.here in let b = m j f.lower f.upper in cc
]

find-Missing :
    (n i p q : ℕ) (entries : ℕ → Mapping)
    → Missing n i p q entries
    → find_mapping n i p q entries ≡ none
find-Missing n i p q entries m = elim (find-cases n i p q entries) [
  | inl (k, e, g) ↦ let a = g.here in let b = m k g.lower g.upper in cc
  | inr (e, m') ↦ e
]

pub is_for-eq : (p q : ℕ) (e : Mapping) → is_for p q e ≡ true → (e.port_id ≡ p) × (e.queue_id ≡ q)
is_for-eq p q e h = ground arith

is_for_ne :
    (p q p' q' : ℕ) (e : Mapping)
    → (p' ≢ p) ⊎ (q' ≢ q)
    → is_for p q e ≡ true
    → is_for p' q' e ≡ false
is_for_ne p q p' q' e (inl n) h =
    let (x, y) = is_for-eq p q e h in rw (ne→== e.port_id p' (λ z. n (sym z ∙ x))) refl
is_for_ne p q p' q' e (inr n) h =
    let (x, y) = is_for-eq p q e h in
    elim (Bool-cases (e.port_id == p')) [
      | inl b ↦ rw (b, ne→== e.queue_id q' (λ z. n (sym z ∙ y))) refl
      | inr b ↦ rw b refl
    ]

find_ext :
    (n i p q : ℕ) (a b : ℕ → Mapping)
    → ((k : ℕ) → is_for p q (b k) ≡ is_for p q (a k))
    → find_mapping n i p q b ≡ find_mapping n i p q a
unfolding find_mapping
find_ext zero i p q a b h = refl
find_ext (suc n) i p q a b h = rw (h i, find_ext n (i + 1) p q a b h) refl

-- What a table is after a mapping is set, as a map.
record SetsOne (p q v : ℕ) (m m' : Mappings) : Type 0 where
  set_one : counter_of m' p q ≡ some v
  others : (p' q' : ℕ) → (p' ≢ p) ⊎ (q' ≢ q) → counter_of m' p' q' ≡ counter_of m p' q'

module _ (p q v : ℕ) (m : Mappings) where
  abbrev changed : ℕ → ℕ → Mapping
  changed j = update m.entries j (record (m.entries j) { stats_counter_id = v })

  changed-is_for : (j p' q' k : ℕ) → is_for p' q' (changed j k) ≡ is_for p' q' (m.entries k)
  changed-is_for j p' q' k = elim (Bool-cases (k == j)) [
    | inl e ↦
        let x : k ≡ j = ground (arith, e) in rw e (ap (λ z. is_for p' q' (m.entries z)) (sym x))
    | inr e ↦ rw e refl
  ]

  changed-SetsOne :
      (j : ℕ)
      → find_mapping m.number 0 p q m.entries ≡ some j
      → is_for p q (m.entries j) ≡ true
      → SetsOne p q v m (record m { entries = changed j })
  unfolding counter_of
  changed-SetsOne j found here = record {
    set_one =
        rw (find_ext m.number 0 p q m.entries (changed j) (changed-is_for j p q), found)
          (rw (eq→== j j refl) refl);
    others = λ p' q' ne.
        rw (find_ext m.number 0 p' q' m.entries (changed j) (changed-is_for j p' q'))
          (elim (find-cases m.number 0 p' q' m.entries) [
            | inr (gone, _) ↦ rw gone refl
            | inl (k, e, f) ↦
                let apart : k ≢ j = λ x.
                  let a = f.here in
                  let b =
                    is_for_ne p q p' q' (m.entries k) ne
                      (subst (λ z. is_for p q (m.entries z) ≡ true) (sym x) here) in
                  cc in
                rw e (rw (ne→== k j apart) refl)
          ]);
  }

  abbrev new_entry : Mapping
  new_entry = record { port_id = p; queue_id = q; stats_counter_id = v }

  abbrev longer : Mappings
  longer = record { entries = update m.entries m.number new_entry; number = m.number + 1 }

  longer-below :
      (k p' q' : ℕ) → k < m.number → is_for p' q' (longer.entries k) ≡ is_for p' q' (m.entries k)
  longer-below k p' q' h = rw (ne→== k m.number (λ e. absurd (omega (arith, e)))) refl

  longer-SetsOne : Missing m.number 0 p q m.entries → SetsOne p q v m longer
  unfolding counter_of
  longer-SetsOne none_yet = record {
    set_one =
        let first : Found (m.number + 1) 0 p q longer.entries m.number = record {
          lower = omega arith;
          upper = omega arith;
          here = rw (eq→== m.number m.number refl) (rw (eq→== p p refl, eq→== q q refl) refl);
          before = λ k lo hi. longer-below k p q hi ∙ none_yet k lo (omega arith);
        } in
        rw (find-Found (m.number + 1) 0 p q longer.entries m.number first)
          (rw (eq→== m.number m.number refl) refl);
    others = λ p' q' ne. elim (find-cases m.number 0 p' q' m.entries) [
      | inl (k, e, f) ↦
          let below : k < m.number = let u = f.upper in omega (arith, u) in
          let first : Found (m.number + 1) 0 p' q' longer.entries k = record {
            lower = omega arith;
            upper = omega arith;
            here = longer-below k p' q' below ∙ f.here;
            before = λ l lo hi. longer-below l p' q' (omega arith) ∙ f.before l lo hi;
          } in
          rw (find-Found (m.number + 1) 0 p' q' longer.entries k first, e)
            (rw (ne→== k m.number (λ x. absurd (omega (arith, x)))) refl)
      | inr (gone, miss) ↦
          let still : Missing (m.number + 1) 0 p' q' longer.entries = λ k lo hi.
            elim (Bool-cases (k == m.number)) [
              | inl x ↦
                  rw x (is_for_ne p q p' q' new_entry ne (rw (eq→== p p refl, eq→== q q refl) refl))
              | inr x ↦
                  let lt : k < m.number = ground (arith, x) in
                  longer-below k p' q' lt ∙ miss k lo (omega arith)
            ] in
          rw (find-Missing (m.number + 1) 0 p' q' longer.entries still, gone) refl
    ];
  }

  -- Where the table has room, or has an entry for the queue.
  set_mapping-SetsOne :
      (size : ℕ)
      → m.number < size
      → size < 2 ^ 16
      → (m' : Mappings) × (set_mapping size p q v m ≡ ok m')
        × SetsOne p q v m m'
        × (m'.number ≤ m.number + 1)
  unfolding set_mapping set_entry
  set_mapping-SetsOne size room small = elim (find-cases m.number 0 p q m.entries) [
    | inl (j, e, f) ↦
        let below : j < size = let u = f.upper in omega (arith, u) in
        (
          record m { entries = changed j },
          rw
              (
                e,
                load-ok size m.entries j below,
                store-ok size m.entries j (record (m.entries j) { stats_counter_id = v }) below,
              )
              refl,
          changed-SetsOne j e f.here,
          omega arith,
        )
    | inr (e, none_yet) ↦
        let next : (m.number + 1) % 2 ^ 16 ≡ m.number + 1 = omega arith in
        (
          longer,
          rw (e, store-ok size m.entries m.number new_entry room, next) refl,
          longer-SetsOne none_yet,
          omega arith,
        )
  ]

  set_mapping_full :
      (size : ℕ) → size ≤ m.number → counter_of m p q ≡ none → set_mapping size p q v m ≡ fault
  unfolding set_mapping set_entry counter_of
  set_mapping_full size full absent = elim (find-cases m.number 0 p q m.entries) [
    | inl (j, e, f) ↦ let x = rw e at absent in cc
    | inr (e, none_yet) ↦ rw (e, ge→ltb m.number size full) refl
  ]

module _ (max counters : ℕ) (s : QueueStats) (p q v : ℕ)
    (known : port_id_is_invalid s.enabled max p ≡ false) (low : v < counters) where
  -- For a port that is known, a receive queue that it has and a counter that a device has, where
  -- the table for receiving has room, set_qmap returns. The queue is then mapped to that counter,
  -- each other receive queue as before, the table has at most one entry more, and nothing but
  -- this table is changed.
  pub set_qmap-receive :
      q < s.nb_rxq
      → s.rx.number < 4096
      → (m : Mappings) × (set_qmap max counters p true q v s ≡ ok (record s { rx = m }))
        × (counter_of m p q ≡ some v)
        × ((p' q' : ℕ) → (p' ≢ p) ⊎ (q' ≢ q) → counter_of m p' q' ≡ counter_of s.rx p' q')
        × (m.number ≤ s.rx.number + 1)
  unfolding set_qmap queue_id_is_invalid
  set_qmap-receive has room =
      let (m', e, one, n) = set_mapping-SetsOne p q v s.rx 4096 room (omega arith) in
      let valid : ltb q s.nb_rxq ≡ true = ground arith in
      let enough : leb counters v ≡ false = ground arith in
      (m', rw (known, valid, enough, e) refl, one.set_one, one.others, n)

  -- Where the table for receiving is full and the queue has no entry, a mapping of a receive queue
  -- is written behind the table.
  full_table_faults :
      q < s.nb_rxq
      → 4096 ≤ s.rx.number
      → counter_of s.rx p q ≡ none
      → set_qmap max counters p true q v s ≡ fault
  unfolding set_qmap queue_id_is_invalid
  full_table_faults has full absent =
      let valid : ltb q s.nb_rxq ≡ true = ground arith in
      let enough : leb counters v ≡ false = ground arith in
      rw (known, valid, enough, set_mapping_full p q v s.rx 4096 full absent) refl
