-- ===== src/Choice/Rings/Deal.antt =====
-- Dealing rings along a list of ports.
use platform.Common.{ℕ, zero, suc, ◌+◌, ◌%◌, ◌^◌, ◌<◌, ◌≡◌, refl, Option, none, some}
use platform.Common.{List, [], ◌∷◌, arith, ok, load-ok, store-ok, update, sum_to}
use native.Mathlib.Nat.{mod-eq_of_lt}
use platform.Common.{get_elem?, sum_to-update, ◌==◌, if◌then◌else◌}
use platform.PortSort.{Heap}
use platform.PortSort.Chain.{Cell, node_of, Chain}
use platform.Choice.Rings.{deal}

-- Every port of the list is within the arrays.
abbrev pub PortsFit : List Cell → Type 0
PortsFit [] = Unit
PortsFit (c ∷ cs) = (c.port < 16) × PortsFit cs

-- The cells that come next, when the end of a list is followed by its start.
abbrev pub around : List Cell → List Cell → List Cell
around all [] = all
around all (c ∷ cs) = c ∷ cs

-- The array after `n` rounds, without the heap.
abbrev pub dealt : ℕ → List Cell → List Cell → (ℕ → ℕ) → ℕ → ℕ
dealt zero all cs rings = rings
dealt (suc n) all [] rings = rings
dealt (suc n) all (c ∷ cs) rings =
    dealt n all (around all cs) (update rings c.port (rings c.port + 1))

deal-suc :
    (n : ℕ) (h : Heap) (sort next : Option ℕ) (c : Cell) (rings : ℕ → ℕ)
    → get_elem? h c.place ≡ some (node_of c next)
    → c.port < 16
    → rings c.port + 1 < 2 ^ 16
    → deal (suc n) h sort (some c.place) rings
      ≡ deal n h sort
          (elim next [ none ↦ sort | some y ↦ some y ])
          (update rings c.port (rings c.port + 1))
unfolding deal
deal-suc n h sort next c rings at_c fits small = rw (
  at_c,
  load-ok 16 rings c.port fits,
  store-ok 16 rings c.port ((rings c.port + 1) % 2 ^ 16) fits,
  mod-eq_of_lt small,
)

-- A ring more for one port.
one_more :
    (n : ℕ) (rings : ℕ → ℕ) (q : ℕ)
    → ((p : ℕ) → p < 16 → rings p + suc n < 2 ^ 16)
    → (p : ℕ) → p < 16
    → update rings q (rings q + 1) p + n < 2 ^ 16
one_more n rings q small p h = ground (arith, small p h)

module _ (h : Heap) (sort : Option ℕ) (first : Cell) (others : List Cell)
    (whole : Chain h sort (first ∷ others)) (fit : PortsFit (first ∷ others)) where
  pub deal-dealt :
      (n : ℕ) (c : Cell) (cs : List Cell) (cur : Option ℕ) (rings : ℕ → ℕ)
      → Chain h cur (c ∷ cs)
      → PortsFit (c ∷ cs)
      → ((p : ℕ) → p < 16 → rings p + n < 2 ^ 16)
      → deal n h sort cur rings ≡ ok (dealt n (first ∷ others) (c ∷ cs) rings)
  unfolding deal
  deal-dealt zero c cs cur rings k f small = refl
  deal-dealt (suc n) c [] cur rings k f small =
      rw (k.0, deal-suc n h sort k.1 c rings k.2 f.0 (omega (arith, small c.port f.0)), k.3)
        (deal-dealt n first others sort _ whole fit (one_more n rings c.port small))
  deal-dealt (suc n) c (e ∷ cs) cur rings k f small =
      rw (k.0, deal-suc n h sort k.1 c rings k.2 f.0 (omega (arith, small c.port f.0)), k.3.0)
        (deal-dealt n e cs (some e.place) _ (refl, k.3.1, k.3.2, k.3.3) f.1
          (one_more n rings c.port small))

-- Every round gives one ring to a port of the arrays.
pub sum_to-dealt :
    (n : ℕ) (first : Cell) (others : List Cell) (c : Cell) (cs : List Cell) (rings : ℕ → ℕ)
    → PortsFit (first ∷ others)
    → PortsFit (c ∷ cs)
    → sum_to 16 (dealt n (first ∷ others) (c ∷ cs) rings) ≡ sum_to 16 rings + n
sum_to-dealt zero first others c cs rings fit f = omega arith
sum_to-dealt (suc n) first others c [] rings fit f = omega (
  arith,
  sum_to-dealt n first others first others (update rings c.port (rings c.port + 1)) fit fit,
  sum_to-update 16 rings c.port (rings c.port + 1) f.0,
)
sum_to-dealt (suc n) first others c (e ∷ cs) rings fit f = omega (
  arith,
  sum_to-dealt n first others e cs (update rings c.port (rings c.port + 1)) fit f.1,
  sum_to-update 16 rings c.port (rings c.port + 1) f.0,
)

-- With one port in the list that port takes every round.
pub dealt-single :
    (n : ℕ) (c : Cell) (rings : ℕ → ℕ) (p : ℕ)
    → dealt n (c ∷ []) (c ∷ []) rings p ≡ (if p == c.port then rings p + n else rings p)
dealt-single zero c rings p = ground arith
dealt-single (suc n) c rings p =
    ground (arith, dealt-single n c (update rings c.port (rings c.port + 1)) p)
